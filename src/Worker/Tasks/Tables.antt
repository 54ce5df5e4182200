-- ===== src/Worker/Tasks/Tables.antt =====
-- What the statements of a task do to the rows of a test (services/worker/src/store.rs).
use pqc_sec_inspection_cours.Prelude.{
  ◌≡◌, inl, inr, true, List, [], ◌∷◌, All, filter, update_where, Bool-cases, arith, ◌==◌, ◌&&◌,
}
use pqc_sec_inspection_cours.Domain.Jobs.{Uuid}
use pqc_sec_inspection_cours.Domain.Models.{Test, Subtask, Time}
use pqc_sec_inspection_cours.Worker.Store.{
  Tally, of_test, is_pending, start_subtask, start_test, close_test, final_status,
}
use pqc_sec_inspection_cours.Worker.Rules.{All-update_where_hit, All-update_where_self}
use pqc_sec_inspection_cours.Worker.Closing.{IsOver, final_status_cases}
use pqc_sec_inspection_cours.Worker.Probe.Due.{All-filter, filter-All}
use pqc_sec_inspection_cours.Worker.Probe.Ended.{IsClosed}

abbrev pub AllOver : Uuid → List Subtask → Type 0
AllOver id rows = All IsOver (of_test id rows)

abbrev pub AllClosed : Uuid → List Test → Type 0
AllClosed id tests = All IsClosed (filter (λ t. t.id == id) tests)

module _ (id : Uuid) where
  -- A closed test is not started again.
  pub started_stays :
      (now : Time) (tests : List Test)
      → AllClosed id tests
      → AllClosed id (update_where (λ t. t.id == id && is_pending t.status) (start_test now) tests)
  started_stays now tests h =
      All-filter IsClosed (λ t. t.id == id) _
        (All-update_where_hit _ _ _ (start_test now) tests
          (λ t hit before same. still t hit (before same)) (λ t miss before. before)
          (filter-All IsClosed (λ t. t.id == id) tests h))
    where
      still :
          (t : Test)
          → (t.id == id && is_pending t.status) ≡ true
          → IsClosed t
          → IsClosed (start_test now t)
      still t hit (inl e) = absurd (ground arith)
      still t hit (inr e) = absurd (ground arith)

  pub closes_row :
      (now : Time) (counts : Tally) (tests : List Test)
      → AllClosed id (update_where (λ t. t.id == id) (close_test now (final_status counts)) tests)
  closes_row now counts tests =
      All-filter IsClosed (λ t. t.id == id) _
        (All-update_where_self (λ t. (t.id == id) ≡ true → IsClosed t) (λ t. t.id == id)
          (close_test now (final_status counts)) tests (λ t same. final_status_cases counts)
          (λ t miss same. absurd (cc (miss, same))))

  -- Rows that are all over when one was started were over before: none was started.
  pub over_before :
      (subtask : Uuid) (now : Time) (rows : List Subtask)
      → AllOver id (update_where (λ s. s.id == subtask) (start_subtask now) rows)
      → AllOver id rows
  over_before subtask now rows h =
      All-filter IsOver (λ s. s.test_id == id) rows
        (each rows (filter-All IsOver (λ s. s.test_id == id) _ h))
    where
      running : (s : Subtask) → ¬ IsOver (start_subtask now s)
      running s (inl e) = cc
      running s (inr e) = cc

      each :
          (some_rows : List Subtask)
          → All
              (λ s. (s.test_id == id) ≡ true → IsOver s)
              (update_where (λ s. s.id == subtask) (start_subtask now) some_rows)
          → All (λ s. (s.test_id == id) ≡ true → IsOver s) some_rows
      each [] over = tt
      each (s ∷ some_rows) over = (
        elim (Bool-cases (s.id == subtask)) [
          | inl hit ↦
              let here : (s.test_id == id) ≡ true → IsOver (start_subtask now s) =
                (rw hit at over.0) in
              λ same. absurd (running s (here same))
          | inr miss ↦ (rw miss at over.0)
        ],
        each some_rows over.1,
      )
