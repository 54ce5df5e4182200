-- ===== src/Worker/Closing.antt =====
-- When a test is closed, and with which status and counts (services/worker/src/store.rs).
pub mod Counts
use pqc_sec_inspection_cours.Prelude.{
  suc, ◌+◌, ◌<◌, ◌≡◌, refl, ◌↔◌, ◌⊎◌, inl, inr, Bool, true, false, Option, none, some, List, [],
  ◌∷◌, if◌then◌else◌, All, length, arith, ltb, ◌==◌, length-filter-eq-zero_iff,
  length-filter-eq-length_iff, iff_trans,
}
use pqc_sec_inspection_cours.Domain.Status.{TaskStatus, ExecStatus, ResultStatus, ReportStatus}
use pqc_sec_inspection_cours.Domain.Jobs.{Uuid}
use pqc_sec_inspection_cours.Domain.Models.{Subtask, Test}
use pqc_sec_inspection_cours.Worker.World.{World, Env, pure}
use pqc_sec_inspection_cours.Worker.Store.{
  TestProgress, Tally, tally, of_test, is_outstanding, is_passed, is_failed, is_errored,
  final_status, close_test, close_test_row, close_if_done, finish_test_if_done,
}
use pqc_sec_inspection_cours.Worker.Closing.Counts.{Tells, tally-Tells}
use pqc_sec_inspection_cours.Worker.Rules.{
  Yields, Yields-pure, Yields-bind, Yields-if, Yields-perform, Yields-query, Works,
  All-update_where_self,
}
use pqc_sec_inspection_cours.Worker.Probe.Invariant.{IsConsistent, Consistent, IsVerdict}

-- The subtask has run, or could not.
abbrev pub IsOver : Subtask → Type 0
IsOver s = (s.exec_status ≡ ExecStatus.finished) ⊎ (s.exec_status ≡ ExecStatus.error)

abbrev pub HasErred : Subtask → Type 0
HasErred s = s.exec_status ≡ ExecStatus.error

none_outstanding_iff :
    (rows : List Subtask) → All (λ s. is_outstanding s.exec_status ≡ false) rows ↔ All IsOver rows
none_outstanding_iff [] = (λ _. tt, λ _. tt)
none_outstanding_iff (s ∷ rows) = ground (arith, none_outstanding_iff rows)

every_erred_iff :
    (rows : List Subtask) → All (λ s. is_errored s.exec_status ≡ true) rows ↔ All HasErred rows
every_erred_iff [] = (λ _. tt, λ _. tt)
every_erred_iff (s ∷ rows) = ground (arith, every_erred_iff rows)

pub tally-outstanding_iff : (rows : List Subtask) → ((tally rows).outstanding ≡ 0) ↔ All IsOver rows
unfolding tally
tally-outstanding_iff rows =
    iff_trans (length-filter-eq-zero_iff (λ s. is_outstanding s.exec_status) rows)
      (none_outstanding_iff rows)

final_status_iff :
    (rows : List Subtask)
    → (final_status (tally rows) ≡ TaskStatus.failed) ↔ ((0 < length rows) × All HasErred rows)
unfolding final_status tally
final_status_iff rows =
    let count =
      iff_trans (length-filter-eq-length_iff (λ s. is_errored s.exec_status) rows)
        (every_erred_iff rows) in
    ground (arith, count)

-- A closed test is `failed` or `finished`.
pub final_status_cases :
    (t : Tally) → (final_status t ≡ TaskStatus.failed) ⊎ (final_status t ≡ TaskStatus.finished)
unfolding final_status
final_status_cases t = ground arith

-- A row that is over counts as passed or as failed, and not as both.
abbrev CountsOnce : ResultStatus → Type 0
CountsOnce r =
    ((is_passed r ≡ true) × (is_failed r ≡ false)) ⊎ ((is_passed r ≡ false) × (is_failed r ≡ true))

verdict_counts : (r : ResultStatus) → IsVerdict r → CountsOnce r
verdict_counts ResultStatus.passed h = inl (refl, refl)
verdict_counts ResultStatus.failed h = inr (refl, refl)
verdict_counts ResultStatus.unsupported h = inr (refl, refl)
verdict_counts ResultStatus.pending h = absurd h
verdict_counts ResultStatus.disabled h = absurd h

row_counts :
    (exec : ExecStatus) (r : ResultStatus) (report : ReportStatus)
    → Consistent exec r report
    → (exec ≡ ExecStatus.finished) ⊎ (exec ≡ ExecStatus.error)
    → CountsOnce r
row_counts ExecStatus.finished r report c o = verdict_counts r c.0
row_counts ExecStatus.error r report c o = inr (rw (c.0) (refl, refl))
row_counts ExecStatus.queued r report c o = ground arith
row_counts ExecStatus.running r report c o = ground arith

-- Over rows that are consistent and over, the counts of passed and of failed subtasks that a closed
-- test reports add up to the number of its subtasks.
pub tally_complete :
    (rows : List Subtask)
    → All IsConsistent rows
    → All IsOver rows
    → (tally rows).passed + (tally rows).failed ≡ length rows
unfolding tally
tally_complete [] c o = refl
tally_complete (s ∷ rows) c o =
    count_cons (is_passed s.result_status) (is_failed s.result_status) _ _
      (row_counts s.exec_status s.result_status s.report_status c.0 o.0)
      (tally_complete rows c.1 o.1)
  where
    count_cons :
        (p f : Bool) (ps fs : List Subtask)
        → ((p ≡ true) × (f ≡ false)) ⊎ ((p ≡ false) × (f ≡ true))
        → length ps + length fs ≡ length rows
        → length (if p then s ∷ ps else ps) + length (if f then s ∷ fs else fs) ≡ suc (length rows)
    count_cons p f ps fs d h = ground arith

-- What a call does: nothing while a subtask is outstanding, and otherwise it closes the test.
abbrev pub Closes : {Json : Type 0} → Uuid → World Json → Option TestProgress → World Json → Type 0
Closes id w progress w' =
    let rows = of_test id w.subtasks in
    ((¬ All IsOver rows) × (progress ≡ none) × (w'.tests ≡ w.tests))
    ⊎ (All IsOver rows
        × Tells progress rows
        × All
            (λ t.
              t.id ≡ id
              → ((t.status ≡ TaskStatus.failed) ↔ ((0 < length rows) × All HasErred rows))
                × ((t.status ≡ TaskStatus.failed) ⊎ (t.status ≡ TaskStatus.finished)))
            w'.tests)

module _ {Json : Type 0} (env : Env Json) (works_all : Works env) where
  other_test : {A : Type 0} (id : Uuid) (t : Test) → (t.id == id) ≡ false → t.id ≡ id → A
  other_test id t e same = absurd (ground arith)

  close_test_row_cases :
      (id : Uuid) (w w' : World Json)
      → All IsOver (of_test id w.subtasks)
      → Yields
          (close_test_row env id (tally (of_test id w.subtasks)))
          w'
          (λ progress w''. Closes id w progress w'')
  unfolding close_test_row
  close_test_row_cases id w w' over =
      let rows = of_test id w.subtasks in
      Yields-bind _ _ w'
        (Yields-perform env
          {Q = λ _ u. All (λ t. t.id ≡ id → t.status ≡ final_status (tally rows)) u.tests} _ w'
          works_all
          (All-update_where_self _ _ (close_test (suc w'.clock) (final_status (tally rows)))
            w'.tests (λ t _. refl) (λ t e same. other_test id t e same)))
        (λ _ u h. Yields-pure _ u (inr (over, tally-Tells rows, statuses u.tests h)))
    where
      statuses :
          (ts : List Test)
          → All (λ t. t.id ≡ id → t.status ≡ final_status (tally (of_test id w.subtasks))) ts
          → All
              (λ t.
                t.id ≡ id
                → ((t.status ≡ TaskStatus.failed)
                    ↔ ((0 < length (of_test id w.subtasks)) × All HasErred (of_test id w.subtasks)))
                  × ((t.status ≡ TaskStatus.failed) ⊎ (t.status ≡ TaskStatus.finished)))
              ts
      statuses [] h = tt
      statuses (t ∷ ts) h = (
        λ same. rw (h.0 same) (
          final_status_iff (of_test id w.subtasks),
          final_status_cases (tally (of_test id w.subtasks)),
        ),
        statuses ts h.1,
      )

  close_cases :
      (id : Uuid) (w : World Json) (t : Tally) (w' : World Json)
      → t ≡ tally (of_test id w.subtasks)
      → w'.tests ≡ w.tests
      → Yields (close_if_done env id t) w' (λ progress w''. Closes id w progress w'')
  unfolding close_if_done
  close_cases id w t w' e same =
      let rows = of_test id w.subtasks in
      rw e (
        Yields-if (ltb 0 (tally rows).outstanding) (pure none) (close_test_row env id (tally rows))
          w' (λ busy. Yields-pure none w' (inl (still_busy rows busy, refl, same)))
          (λ done. close_test_row_cases id w w' ((tally-outstanding_iff rows).0 (ground arith))))
    where
      still_busy : (rows : List Subtask) → ltb 0 (tally rows).outstanding ≡ true → ¬ All IsOver rows
      still_busy rows busy over =
          let zero_left = (tally-outstanding_iff rows).1 over in ground arith

  -- Where every call of the database and of Redis works: while a subtask of the test is queued or
  -- running the test stays as it is and there is no progress to tell. Once all are over the test is
  -- closed: it is `failed` exactly when it has a subtask and all of them erred, and `finished`
  -- otherwise, and the progress tells how many of its subtasks have passed and how many have failed
  -- or are unsupported.
  pub finish_test_if_done_cases :
      (id : Uuid) (w : World Json)
      → Yields (finish_test_if_done env id) w (λ progress w'. Closes id w progress w')
  unfolding finish_test_if_done
  finish_test_if_done_cases id w =
      let rows = of_test id w.subtasks in
      Yields-bind _ _ w
        (Yields-query env {Q = λ t w'. (t ≡ tally (of_test id w.subtasks)) × (w'.tests ≡ w.tests)} _
          w works_all (refl, refl))
        (λ t w' h. close_cases id w t w' h.0 h.1)
