-- ===== src/Worker/Process/Delivered.antt =====
-- At-least-once delivery: what becomes of an entry that a worker was handed
-- (services/worker/src/main.rs and stream.rs).
use pqc_sec_inspection_cours.Prelude.{
  ℕ, ◌≡◌, refl, ap, ◌∙◌, ◌⊎◌, inl, inr, true, false, List, [], ◌∷◌, ◌++◌, All, Some,
  Some-append_left, Some-append_right, Bool-cases, subst, All-imp, All-append, All-self,
}
use pqc_sec_inspection_cours.Worker.Stream.{Delivery}
use pqc_sec_inspection_cours.Worker.Process.{
  Process, is_entry, without, Step, reads, read_lost, claims, claim_lost, spawns, job_ends, acks,
  ack_fails, shuts_down, exits, dies, other_takes, other_acks, Runs, Reach, begin, next,
}

abbrev pub Among : Delivery → List Delivery → Type 0
Among d entries = Some (λ e. e ≡ d) entries

-- The entry is pending still, or a worker has handled it.
abbrev pub IsKept : (pending finished : List Delivery) → Delivery → Type 0
IsKept pending finished d = Among d pending ⊎ Some (λ f. is_entry f d ≡ true) finished

module _ {A : Type 0} where
  All-without :
      (P : A → Type 0) (before : List A) (d : A) (after : List A)
      → All P (before ++ d ∷ after)
      → P d × All P (before ++ after)
  All-without P [] d after h = (h.0, h.1)
  All-without P (x ∷ before) d after h =
      let (here, rest) = All-without P before d after h.1 in (here, (h.0, rest))

-- Only the entry that is acknowledged goes.
survives :
    (d e : Delivery) (entries : List Delivery)
    → is_entry d e ≡ false
    → Among e entries
    → Among e (without d entries)
survives d e [] other h = absurd h
survives d e (p ∷ entries) other (inl same) =
    let kept : is_entry d p ≡ false = ap (is_entry d) same ∙ other in rw (kept, without) (inl same)
survives d e (p ∷ entries) other (inr h) = elim (Bool-cases (is_entry d p)) [
  | inl gone ↦ rw (gone, without) (survives d e entries other h)
  | inr kept ↦ rw (kept, without) (inr (survives d e entries other h))
]

-- `finished` names what has been handled, so an acknowledgement forgets nothing.
acknowledged :
    (d e : Delivery) (pending finished : List Delivery)
    → Among d finished
    → IsKept pending finished e
    → IsKept (without d pending) finished e
acknowledged d e pending finished done (inr h) = inr h
acknowledged d e pending finished done (inl h) = elim (Bool-cases (is_entry d e)) [
  | inl same ↦ inr (listed finished done same)
  | inr other ↦ inl (survives d e pending other h)
]
  where
    listed :
        (entries : List Delivery)
        → Among d entries
        → is_entry d e ≡ true
        → Some (λ f. is_entry f e ≡ true) entries
    listed [] h same = h
    listed (f ∷ entries) (inl q) same = inl (ap (λ g. is_entry g e) q ∙ same)
    listed (f ∷ entries) (inr h) same = inr (listed entries h same)

pub record IsDelivered (s : Process) : Type 0 where
  pub kept : All (IsKept s.pending s.finished) s.taken
  pub done : All (λ d. Among d s.finished) s.handled

more_pending :
    (pending new finished : List Delivery) (d : Delivery)
    → IsKept pending finished d
    → IsKept (pending ++ new) finished d
more_pending pending new finished d (inl h) = inl (Some-append_left _ pending new h)
more_pending pending new finished d (inr h) = inr h

more_finished :
    (pending finished new : List Delivery) (d : Delivery)
    → IsKept pending finished d
    → IsKept pending (finished ++ new) d
more_finished pending finished new d (inl h) = inl h
more_finished pending finished new d (inr h) = inr (Some-append_left _ finished new h)

handed_out :
    (s : Process) (new : List Delivery)
    → IsDelivered s
    → All (IsKept (s.pending ++ new) s.finished) (s.taken ++ new)
handed_out s new h =
    All-append _ s.taken new (All-imp (more_pending s.pending new s.finished) s.taken h.kept)
      (All-imp (λ d m. inl (Some-append_right _ s.pending new m)) new (All-self new))

claimed_too :
    (s : Process) (old : List Delivery)
    → All (λ d. Among d s.pending) old
    → IsDelivered s
    → All (IsKept s.pending s.finished) (s.taken ++ old)
claimed_too s old m h = All-append _ s.taken old h.kept (All-imp (λ d a. inl a) old m)

Step-IsDelivered :
    {concurrency : ℕ} {s t : Process} → Step concurrency s t → IsDelivered s → IsDelivered t
Step-IsDelivered {s} (reads has_job new p q) h = record { kept = handed_out s new h; done = h.done }
Step-IsDelivered {s} (read_lost new p q) h = record { kept = handed_out s new h; done = h.done }
Step-IsDelivered {s} (claims has_job old p q m) h = record {
  kept = claimed_too s old m h;
  done = h.done;
}
Step-IsDelivered {s} (claim_lost old p q m) h = record {
  kept = claimed_too s old m h;
  done = h.done;
}
Step-IsDelivered (spawns d rest permits p q r) h = record { kept = h.kept; done = h.done }
Step-IsDelivered {s} (job_ends before d after e) h = record {
  kept = All-imp (more_finished s.pending s.finished (d ∷ [])) s.taken h.kept;
  done = (
    Some-append_right _ s.finished (d ∷ []) (inl refl),
    All-imp (λ x m. Some-append_left _ s.finished (d ∷ []) m) s.handled h.done,
  );
}
Step-IsDelivered {s} (acks before d after e) h =
    let (ended, others) =
      All-without (λ x. Among x s.finished) before d after
        (subst (All (λ x. Among x s.finished)) e h.done) in
    record {
      kept = All-imp (λ x k. acknowledged d x s.pending s.finished ended k) s.taken h.kept;
      done = others;
    }
Step-IsDelivered {s} (ack_fails before d after e) h =
    let (ended, others) =
      All-without (λ x. Among x s.finished) before d after
        (subst (All (λ x. Among x s.finished)) e h.done) in
    record { kept = h.kept; done = others }
Step-IsDelivered (shuts_down p) h = record { kept = h.kept; done = h.done }
Step-IsDelivered (exits p full) h = record { kept = h.kept; done = h.done }
Step-IsDelivered dies h = record { kept = h.kept; done = tt }
Step-IsDelivered {s} (other_takes new) h = record {
  kept = All-imp (more_pending s.pending new s.finished) s.taken h.kept;
  done = h.done;
}
Step-IsDelivered {s} (other_acks d) h = record {
  kept =
      All-imp
        (λ x k.
          acknowledged d x s.pending (s.finished ++ d ∷ [])
            (Some-append_right _ s.finished (d ∷ []) (inl refl))
            (more_finished s.pending s.finished (d ∷ []) x k))
        s.taken h.kept;
  done = All-imp (λ x m. Some-append_left _ s.finished (d ∷ []) m) s.handled h.done;
}

Runs-IsDelivered :
    {concurrency : ℕ} {s t : Process} → Runs concurrency s t → IsDelivered s → IsDelivered t
Runs-IsDelivered begin h = h
Runs-IsDelivered (next r st) h = Step-IsDelivered st (Runs-IsDelivered r h)

-- Every entry that the worker was ever handed is pending in the group still, so that it can be
-- claimed, or a worker has handled it to its end: whatever answers are lost, ticks fail, tasks are
-- under way, and whether the worker was told to stop or died.
pub Reach-kept :
    {concurrency : ℕ} {pending finished : List Delivery} {s : Process}
    → Reach concurrency pending finished s
    → All (IsKept s.pending s.finished) s.taken
Reach-kept r = (Runs-IsDelivered r (record { kept = tt; done = tt })).kept
