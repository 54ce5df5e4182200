-- ===== src/Worker/Closing/Counts.antt =====
-- The counts of a closed test, row by row (services/worker/src/store.rs).
use pqc_sec_inspection_cours.Prelude.{
  ℕ, suc, ◌≡◌, refl, ◌↔◌, ◌⊎◌, inl, inr, Bool, true, List, [], ◌∷◌, filter, length, Option, some,
  Bool-cases, arith,
}
use pqc_sec_inspection_cours.Domain.Status.{ResultStatus}
use pqc_sec_inspection_cours.Domain.Models.{Subtask}
use pqc_sec_inspection_cours.Worker.Store.{TestProgress, tally, is_passed, is_failed}

-- So many of the rows have the property.
pub data Count {A : Type 0} (P : A → Type 0) : List A → ℕ → Type 0 where
  nil : Count P [] 0
  hit : (x : A) (xs : List A) (n : ℕ) → P x → Count P xs n → Count P (x ∷ xs) (suc n)
  miss : (x : A) (xs : List A) (n : ℕ) → ¬ P x → Count P xs n → Count P (x ∷ xs) n

abbrev pub HasPassed : Subtask → Type 0
HasPassed s = s.result_status ≡ ResultStatus.passed

-- A subtask with an unsupported algorithm counts as one that failed.
abbrev pub HasFailed : Subtask → Type 0
HasFailed s = (s.result_status ≡ ResultStatus.failed) ⊎ (s.result_status ≡ ResultStatus.unsupported)

-- The progress names the numbers of the rows that passed and that failed.
pub record Tells (progress : Option TestProgress) (rows : List Subtask) : Type 0 where
  pub passed : ℕ
  pub failed : ℕ
  pub count_passed : Count HasPassed rows passed
  pub count_failed : Count HasFailed rows failed
  pub told : progress ≡ some (record { passed = passed; failed = failed })

Count-filter :
    {A : Type 0} (P : A → Type 0) (p : A → Bool) (xs : List A)
    → ((a : A) → (p a ≡ true) ↔ P a)
    → Count P xs (length (filter p xs))
Count-filter P p [] iff = nil
Count-filter P p (x ∷ xs) iff = elim (Bool-cases (p x)) [
  | inl e ↦ rw e (hit x xs _ ((iff x).0 e) (Count-filter P p xs iff))
  | inr e ↦
      rw e (miss x xs _ (λ h. absurd (ground (arith, e, (iff x).1 h))) (Count-filter P p xs iff))
]

is_passed_iff : (s : Subtask) → (is_passed s.result_status ≡ true) ↔ HasPassed s
is_passed_iff s = ground arith

is_failed_iff : (s : Subtask) → (is_failed s.result_status ≡ true) ↔ HasFailed s
is_failed_iff s = ground arith

-- The code's counts are these.
pub tally-Tells :
    (rows : List Subtask)
    → Tells (some (record { passed = (tally rows).passed; failed = (tally rows).failed })) rows
unfolding tally
tally-Tells rows = record {
  passed = (tally rows).passed;
  failed = (tally rows).failed;
  count_passed = Count-filter HasPassed (λ s. is_passed s.result_status) rows is_passed_iff;
  count_failed = Count-filter HasFailed (λ s. is_failed s.result_status) rows is_failed_iff;
  told = refl;
}
