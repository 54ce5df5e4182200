-- ===== src/Api/Subtasks.antt =====
-- One subtask with its neighbours (services/api/src/routes/subtasks.rs).
pub mod Neighbours
use pqc_sec_inspection_cours.Prelude.{
  ℕ, ◌&&◌, Option, none, some, List, [], ◌∷◌, ◌++◌, find, filter, length, Text, codes, ◌==◌, ℤ, pos,
  int_lt, int_suc, as_i64, ok_or, if◌then◌else◌,
}
use pqc_sec_inspection_cours.Domain.Jobs.{Uuid}
use pqc_sec_inspection_cours.Domain.Models.{Subtask, SubtaskReport}
use pqc_sec_inspection_cours.Api.Errors.{not_found}
use pqc_sec_inspection_cours.Api.Database.{Db, Services, Handler, pure, lift, ◌>>=◌, query}

pub record SubtaskDetail (Value : Type 0) : Type 0 where
  pub subtask : Subtask
  pub title : Text
  pub report : Option (SubtaskReport Value)
  pub previous_id : Option Uuid
  pub next_id : Option Uuid
  pub position : ℤ
  pub total : ℤ

-- `ORDER BY ordinal DESC LIMIT 1`, and `ASC`: of rows with one ordinal, the first.
unfoldable pub highest : List Subtask → Option Subtask
highest [] = none
highest (r ∷ rows) = elim (highest rows) [
  | none ↦ some r
  | some s ↦ some (if int_lt r.ordinal s.ordinal then s else r)
]

unfoldable pub lowest : List Subtask → Option Subtask
lowest [] = none
lowest (r ∷ rows) = elim (lowest rows) [
  | none ↦ some r
  | some s ↦ some (if int_lt s.ordinal r.ordinal then s else r)
]

abbrev pub id_of : Option Subtask → Option Uuid
id_of none = none
id_of (some s) = some s.id

module _ {Value : Type 0} where
  abbrev pub rows_of : Uuid → Db Value → List Subtask
  rows_of test_id db = filter (λ s. s.test_id == test_id) db.subtasks

  unfoldable pub previous_of : Uuid → ℤ → Db Value → Option Uuid
  previous_of test_id ordinal db =
      id_of (highest (filter (λ s. s.test_id == test_id && int_lt s.ordinal ordinal) db.subtasks))

  unfoldable pub next_of : Uuid → ℤ → Db Value → Option Uuid
  next_of test_id ordinal db =
      id_of (lowest (filter (λ s. s.test_id == test_id && int_lt ordinal s.ordinal) db.subtasks))

  unfoldable pub get_subtask : Services → Uuid → Handler Value (SubtaskDetail Value)
  get_subtask services id = do
    row ← query services (λ db. find (λ s. s.id == id) db.subtasks)
    subtask ← lift (ok_or row (not_found (codes "subtask")))
    report ← query services (λ db. find (λ r. r.subtask_id == id) db.reports)
    previous_id ← query services (previous_of subtask.test_id subtask.ordinal)
    next_id ← query services (next_of subtask.test_id subtask.ordinal)
    total ← query services (λ db. as_i64 (length (rows_of subtask.test_id db)))
    pure (record {
      subtask = subtask;
      title = subtask.group_name ++ (codes " × " ++ subtask.sig_alg);
      report = report;
      previous_id = previous_id;
      next_id = next_id;
      position = int_suc subtask.ordinal;
      total = total;
    })
