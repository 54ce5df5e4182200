-- ===== src/Worker/Probe/Due.antt =====
-- The rows of a test that wait for jobs (services/worker/src/store.rs).
use pqc_sec_inspection_cours.Prelude.{
  ◌≡◌, sym, ◌⊎◌, inl, inr, Bool, true, false, List, [], ◌∷◌, All, Some, filter, update_where,
  Bool-cases, arith, ◌==◌, ==_iff,
}
use pqc_sec_inspection_cours.Domain.Jobs.{Uuid, ProbeJob}
use pqc_sec_inspection_cours.Domain.Models.{Subtask}
use pqc_sec_inspection_cours.Worker.Store.{start_subtask}
use pqc_sec_inspection_cours.Worker.Closing.{IsOver}
use pqc_sec_inspection_cours.Worker.Rules.{All-update_where_hit}

-- The row is over, or one of the jobs is for it.
abbrev pub IsDue : List ProbeJob → Subtask → Type 0
IsDue jobs s = IsOver s ⊎ Some (λ j. j.subtask_id ≡ s.id) jobs

module _ {A : Type 0} where
  pub All-filter :
      (P : A → Type 0) (p : A → Bool) (xs : List A)
      → All (λ a. p a ≡ true → P a) xs
      → All P (filter p xs)
  All-filter P p [] h = tt
  All-filter P p (x ∷ xs) h = elim (Bool-cases (p x)) [
    | inl e ↦ rw (e, All) (h.0 e, All-filter P p xs h.1)
    | inr e ↦ rw e (All-filter P p xs h.1)
  ]

  pub filter-All :
      (P : A → Type 0) (p : A → Bool) (xs : List A)
      → All P (filter p xs)
      → All (λ a. p a ≡ true → P a) xs
  filter-All P p [] h = tt
  filter-All P p (x ∷ xs) h = elim (Bool-cases (p x)) [
    | inl e ↦
        let both : P x × All P (filter p xs) = (rw e at h) in
        (λ _. both.0, filter-All P p xs both.1)
    | inr e ↦ (λ hit. absurd (cc (e, hit)), filter-All P p xs (rw e at h))
  ]

-- The rows of the test, in a form that updates of rows preserve.
abbrev pub AllDue : Uuid → List ProbeJob → List Subtask → Type 0
AllDue id jobs rows = All (λ s. (s.test_id == id) ≡ true → IsDue jobs s) rows

module _ (id : Uuid) (job : ProbeJob) (rest : List ProbeJob) where
  pub started_rows :
      (now : _) (rows : List Subtask)
      → AllDue id (job ∷ rest) rows
      → AllDue id (job ∷ rest) (update_where (λ s. s.id == job.subtask_id) (start_subtask now) rows)
  started_rows now rows h =
      All-update_where_hit _ _ _ (start_subtask now) rows
        (λ s hit d same. inr (inl (sym ((==_iff s.id job.subtask_id).0 hit)))) (λ s miss d. d) h

  -- A row that the job was not for.
  not_this_job :
      (s : Subtask) → (s.id == job.subtask_id) ≡ false → IsDue (job ∷ rest) s → IsDue rest s
  not_this_job s miss (inl over) = inl over
  not_this_job s miss (inr (inl e)) = absurd (ground arith)
  not_this_job s miss (inr (inr m)) = inr m

  pub ended_rows :
      (f : Subtask → Subtask) (rows : List Subtask)
      → ((s : Subtask) → IsOver (f s))
      → AllDue id (job ∷ rest) rows
      → AllDue id rest (update_where (λ s. s.id == job.subtask_id) f rows)
  ended_rows f rows over h =
      All-update_where_hit _ _ _ f rows (λ s hit d same. inl (over s))
        (λ s miss d same. not_this_job s miss (d same)) h
