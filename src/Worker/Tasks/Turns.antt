-- ===== src/Worker/Tasks/Turns.antt =====
-- What a turn of a task does to the rows of its test and to the test's closing
-- (services/worker/src/probe.rs and store.rs), whatever else the other tasks have to do.
use pqc_sec_inspection_cours.Prelude.{
  ◌≡◌, sym, ◌⊎◌, inl, inr, true, false, List, [], All, All-imp, update_where, ◌==◌, ==_iff,
}
use pqc_sec_inspection_cours.Domain.Jobs.{Uuid, ProbeJob}
use pqc_sec_inspection_cours.Domain.Models.{Subtask, Test}
use pqc_sec_inspection_cours.Worker.World.{World}
use pqc_sec_inspection_cours.Worker.Store.{start_subtask}
use pqc_sec_inspection_cours.Worker.Closing.{IsOver}
use pqc_sec_inspection_cours.Worker.Rules.{All-update_where_hit}
use pqc_sec_inspection_cours.Worker.Tasks.{
  Stage, arrived, marked, probing, rejecting, tallying, done, replied, judged, telling, tallied,
  reporting, broken,
}
use pqc_sec_inspection_cours.Worker.Tasks.Tables.{AllOver, AllClosed}

-- The row of the task's job is not stored yet.
abbrev pub IsOpen : {Json : Type 0} → Stage Json → Type 0
IsOpen arrived = Unit
IsOpen marked = Unit
IsOpen probing = Unit
IsOpen rejecting = Unit
IsOpen (replied response) = Unit
IsOpen (judged result response) = Unit
IsOpen (broken e) = Unit
IsOpen (telling exec result) = ⊥
IsOpen tallying = ⊥
IsOpen (tallied counts) = ⊥
IsOpen (reporting progress) = ⊥
IsOpen done = ⊥

-- The task will close the test if its rows are over by now, unless an error has ended it.
abbrev pub WillClose : {Json : Type 0} → Stage Json → Type 0
WillClose (telling exec result) = Unit
WillClose tallying = Unit
WillClose (tallied counts) = counts.outstanding ≡ 0
WillClose (broken e) = Unit
WillClose arrived = ⊥
WillClose marked = ⊥
WillClose probing = ⊥
WillClose rejecting = ⊥
WillClose (replied response) = ⊥
WillClose (judged result response) = ⊥
WillClose (reporting progress) = ⊥
WillClose done = ⊥

-- `Other i` says that another task has the subtask `i` open, `Else` that another will close the
-- test.
module _ {Json : Type 0} (Other : Uuid → Type 0) (Else : Type 0) (job : ProbeJob) where
  abbrev pub RowDue : Stage Json → Subtask → Type 0
  RowDue stage s = IsOver s ⊎ (IsOpen stage × (job.subtask_id ≡ s.id)) ⊎ Other s.id

  abbrev pub RowsDue : Stage Json → List Subtask → Type 0
  RowsDue stage rows = All (λ s. (s.test_id == job.test_id) ≡ true → RowDue stage s) rows

  -- Each row of the test is over or open in a task, and once all are over the test is closed or
  -- some task will close it.
  abbrev pub SoundOn : Stage Json → List Subtask → List Test → Type 0
  SoundOn stage rows tests =
      RowsDue stage rows
      × (AllOver job.test_id rows → AllClosed job.test_id tests ⊎ WillClose stage ⊎ Else)

  abbrev pub Sound : Stage Json → World Json → Type 0
  Sound stage w = SoundOn stage w.subtasks w.tests

  abbrev pub Fails : World Json → Type 0
  Fails w = Sound (broken []) w

  -- An error leaves the row to the task, and the closing.
  pub gives_up : (stage : Stage Json) (w : World Json) → Sound stage w → Fails w
  gives_up stage w h = (
    All-imp
        (λ s due same. elim (due same) [
          | inl over ↦ inl over
          | inr rest ↦ elim rest [ inl mine ↦ inr (inl (tt, mine.1)) | inr other ↦ inr (inr other) ]
        ])
        w.subtasks h.0,
    λ _. inr (inl tt),
  )

  pub starts_row :
      (stage : Stage Json) (w : World Json)
      → IsOpen stage
      → Sound marked w
      → RowsDue stage
          (update_where (λ s. s.id == job.subtask_id) (start_subtask w.clock) w.subtasks)
  starts_row stage w left h =
      All-update_where_hit _ _ _ (start_subtask w.clock) w.subtasks
        (λ s hit due same. inr (inl (left, sym ((==_iff s.id job.subtask_id).0 hit))))
        (λ s miss due same. elim (due same) [
          | inl over ↦ inl over
          | inr rest ↦ elim rest [
            | inl mine ↦ inr (inl (left, mine.1))
            | inr other ↦ inr (inr other)
          ]
        ])
        h.0

  -- The write that ends a row, for any stage that comes after.
  pub ends_row :
      (stage after : Stage Json) (f : Subtask → Subtask) (w : World Json)
      → ((s : Subtask) → IsOver (f s))
      → Sound stage w
      → RowsDue after (update_where (λ s. s.id == job.subtask_id) f w.subtasks)
  ends_row stage after f w over h =
      All-update_where_hit _ _ _ f w.subtasks (λ s hit due same. inl (over s))
        (λ s miss due same. elim (due same) [
          | inl over ↦ inl over
          | inr rest ↦ elim rest [
            | inl mine ↦ absurd (other_row s miss mine.1)
            | inr other ↦ inr (inr other)
          ]
        ])
        h.0
    where
      other_row : (s : Subtask) → (s.id == job.subtask_id) ≡ false → job.subtask_id ≡ s.id → ⊥
      other_row s miss e = cc (miss, (==_iff s.id job.subtask_id).1 (sym e))
