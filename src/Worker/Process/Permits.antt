-- ===== src/Worker/Process/Permits.antt =====
-- The limit on the tasks of a worker, and the shutdown (services/worker/src/main.rs).
use pqc_sec_inspection_cours.Prelude.{
  ℕ, suc, ◌+◌, ◌≤◌, ◌≡◌, refl, ap, ◌∙◌, ◌⊎◌, inl, inr, List, [], ◌∷◌, ◌++◌, length, arith,
}
use pqc_sec_inspection_cours.Worker.Stream.{Delivery}
use pqc_sec_inspection_cours.Worker.Process.{
  exited, dead, Process, Step, reads, read_lost, claims, claim_lost, spawns, job_ends, acks,
  ack_fails, shuts_down, exits, dies, other_takes, other_acks, Runs, Reach, begin, next,
}

-- The tasks in flight: each holds a permit.
abbrev pub in_flight : Process → ℕ
in_flight s = length s.running + length s.handled

abbrev pub Nothing : Process → Type 0
Nothing s = (s.running ≡ []) × (s.handled ≡ [])

abbrev pub Counted : ℕ → Process → Type 0
Counted concurrency s =
    ((s.phase ≡ dead) × (s.permits ≤ concurrency) × (s.running ≡ []) × (s.handled ≡ []))
    ⊎ (s.permits + in_flight s ≡ concurrency)

length-middle :
    {A : Type 0} (before : List A) (d : A) (after : List A)
    → length (before ++ d ∷ after) ≡ suc (length (before ++ after))
length-middle [] d after = refl
length-middle (x ∷ before) d after = ap suc (length-middle before d after)

length-of :
    (xs before : List Delivery) (d : Delivery) (after : List Delivery)
    → xs ≡ before ++ d ∷ after
    → length xs ≡ suc (length (before ++ after))
length-of xs before d after e = ap length e ∙ length-middle before d after

nil_ne :
    (xs before : List Delivery) (d : Delivery) (after : List Delivery)
    → xs ≡ before ++ d ∷ after
    → xs ≡ []
    → ⊥
nil_ne xs before d after e n =
    let l = length-of xs before d after e in let z = ap length n in absurd (omega arith)

Step-Counted :
    {concurrency : ℕ} {s t : Process}
    → Step concurrency s t
    → Counted concurrency s
    → Counted concurrency t
Step-Counted (reads has_job new p q) h = h
Step-Counted (read_lost new p q) h = h
Step-Counted (claims has_job old p q m) h = h
Step-Counted (claim_lost old p q m) h = h
Step-Counted (spawns d rest permits p q r) (inl h) = absurd (cc (p, h.0))
Step-Counted (spawns d rest permits p q r) (inr h) = inr (omega arith)
Step-Counted {s} (job_ends before d after e) (inl h) =
    absurd (nil_ne s.running before d after e h.2)
Step-Counted {s} (job_ends before d after e) (inr h) =
    let l = length-of s.running before d after e in inr (omega arith)
Step-Counted {s} (acks before d after e) (inl h) = absurd (nil_ne s.handled before d after e h.3)
Step-Counted {s} (acks before d after e) (inr h) =
    let l = length-of s.handled before d after e in inr (omega arith)
Step-Counted {s} (ack_fails before d after e) (inl h) =
    absurd (nil_ne s.handled before d after e h.3)
Step-Counted {s} (ack_fails before d after e) (inr h) =
    let l = length-of s.handled before d after e in inr (omega arith)
Step-Counted (shuts_down p) (inl h) = absurd (cc (p, h.0))
Step-Counted (shuts_down p) (inr h) = inr h
Step-Counted (exits p full) (inl h) = absurd (cc (p, h.0))
Step-Counted (exits p full) (inr h) = inr h
Step-Counted dies (inl h) = inl (refl, h.1, refl, refl)
Step-Counted dies (inr h) = inl (refl, omega arith, refl, refl)
Step-Counted (other_takes new) h = h
Step-Counted (other_acks d) h = h

pub Runs-Counted :
    {concurrency : ℕ} {s t : Process}
    → Runs concurrency s t
    → Counted concurrency s
    → Counted concurrency t
Runs-Counted begin h = h
Runs-Counted (next r st) h = Step-Counted st (Runs-Counted r h)

pub Reach-Counted :
    {concurrency : ℕ} {pending finished : List Delivery} {s : Process}
    → Reach concurrency pending finished s
    → Counted concurrency s
Reach-Counted r = Runs-Counted r (inr (omega arith))

Counted-in_flight :
    (concurrency : ℕ) (s : Process) → Counted concurrency s → in_flight s ≤ concurrency
Counted-in_flight concurrency s (inl h) =
    let none_running = ap length h.2 in let none_handled = ap length h.3 in omega arith
Counted-in_flight concurrency s (inr h) = omega arith

-- Whatever arrives, fails and dies, in whatever order the tasks take their turns, no more tasks
-- are in flight at once than the configuration allows.
pub Reach-in_flight :
    {concurrency : ℕ} {pending finished : List Delivery} {s : Process}
    → Reach concurrency pending finished s
    → in_flight s ≤ concurrency
Reach-in_flight {concurrency} {s} r = Counted-in_flight concurrency s (Reach-Counted r)

abbrev IsOver : Process → Type 0
IsOver s = s.phase ≡ exited → Nothing s

no_length : (xs : List Delivery) → length xs ≡ 0 → xs ≡ []
no_length [] h = refl
no_length (x ∷ xs) h = absurd (omega arith)

Step-IsOver :
    {concurrency : ℕ} {s t : Process}
    → Step concurrency s t
    → Counted concurrency s
    → IsOver s
    → IsOver t
Step-IsOver (reads has_job new p q) c h = λ e. absurd (cc (p, e))
Step-IsOver (read_lost new p q) c h = λ e. absurd (cc (p, e))
Step-IsOver (claims has_job old p q m) c h = λ e. absurd (cc (p, e))
Step-IsOver (claim_lost old p q m) c h = λ e. absurd (cc (p, e))
Step-IsOver (spawns d rest permits p q r) c h = λ e. absurd (cc (p, e))
Step-IsOver {s} (job_ends before d after e) c h =
    λ x. absurd (nil_ne s.running before d after e (h x).0)
Step-IsOver {s} (acks before d after e) c h =
    λ x. absurd (nil_ne s.handled before d after e (h x).1)
Step-IsOver {s} (ack_fails before d after e) c h =
    λ x. absurd (nil_ne s.handled before d after e (h x).1)
Step-IsOver (shuts_down p) c h = λ e. absurd (cc e)
Step-IsOver (exits p full) (inl c) h = absurd (cc (p, c.0))
Step-IsOver {s} (exits p full) (inr c) h =
    λ e. (no_length s.running (omega arith), no_length s.handled (omega arith))
Step-IsOver dies c h = λ e. absurd (cc e)
Step-IsOver (other_takes new) c h = h
Step-IsOver (other_acks d) c h = h

Runs-IsOver :
    {concurrency : ℕ} {s t : Process}
    → Runs concurrency s t
    → Counted concurrency s
    → IsOver s
    → IsOver t
Runs-IsOver begin c h = h
Runs-IsOver (next r st) c h = Step-IsOver st (Runs-Counted r c) (Runs-IsOver r c h)

-- A worker that was told to stop, and has exited, has no task left whose job or acknowledgement
-- is under way.
pub Reach-exited :
    {concurrency : ℕ} {pending finished : List Delivery} {s : Process}
    → Reach concurrency pending finished s
    → s.phase ≡ exited
    → Nothing s
Reach-exited r e = Runs-IsOver r (inr (omega arith)) (λ x. absurd (cc x)) e
