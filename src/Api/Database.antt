-- ===== src/Api/Database.antt =====
-- What the handlers of the API read and write: the tables of the database and the streams of
-- jobs. `clock` counts the calls of services outside the API; what such a call meets is a function
-- of its number.
use pqc_sec_inspection_cours.Prelude.{ℕ, suc, Option, none, some, List, Text, ℤ, Result, ok, err}
use pqc_sec_inspection_cours.Domain.Status.{Capability}
use pqc_sec_inspection_cours.Domain.Jobs.{Uuid, ProbeJob, KemJob}
use pqc_sec_inspection_cours.Domain.Models.{
  Time, Endpoint, Algorithm, Test, Subtask, SubtaskReport, KemRun, KemRunLog, KemMatrixCell,
}
use pqc_sec_inspection_cours.Worker.World.{Fault, works, refused, lost}
use pqc_sec_inspection_cours.Api.Errors.{ApiError, database, redis, row_not_found}

-- A row of `cavp_packs`, and of `cavp_sessions`.
pub record Pack (Value : Type 0) : Type 0 where
  pub id : Uuid
  pub slug : Text
  pub capability : Capability
  pub parameter_set : Text
  pub vs_id : ℤ  -- i64
  pub prompt : Value
  pub registration : Value
  pub answer_key : Value

pub record Session (Value : Type 0) : Type 0 where
  pub id : Uuid
  pub pack_id : Uuid
  pub capability : Capability
  pub parameter_set : Text
  pub vs_id : ℤ  -- i64
  pub prompt : Value
  pub submitted : Option Value
  pub validation : Option Value

pub record Db (Value : Type 0) : Type 0 where
  pub algorithms : List Algorithm
  pub endpoints : List Endpoint
  pub tests : List Test
  pub subtasks : List Subtask
  pub reports : List (SubtaskReport Value)
  pub kem_runs : List KemRun
  pub kem_logs : List KemRunLog
  pub kem_cells : List KemMatrixCell
  pub packs : List (Pack Value)
  pub sessions : List (Session Value)
  pub probe_jobs : List ProbeJob  -- the stream `jobs:probe`
  pub kem_jobs : List KemJob  -- the stream `jobs:kem`
  pub clock : ℕ

-- The services: whether a call works, the identifiers and the time that the database gives to
-- the rows of an `INSERT`, the order in which `RETURNING` lists rows, and how many commands of a
-- pipeline are carried out when its answer is lost.
pub record Services : Type 0 where
  pub fault : ℕ → Fault
  pub uuid : (call index : ℕ) → Uuid
  pub now : ℕ → Time
  pub returned : ℕ → List Subtask → List Subtask
  pub carried_out : ℕ → ℕ

-- A handler, or a part of one: `ApiResult`.
abbrev pub Handler : Type 0 → Type 0 → Type 0
Handler Value A = Db Value → Result A ApiError × Db Value

module _ {Value : Type 0} where
  unfoldable pub pure : {A : Type 0} → A → Handler Value A
  pure a db = (ok a, db)

  abbrev pub continue :
      {A B : Type 0}
      → Result A ApiError
      → (A → Handler Value B)
      → Db Value
      → Result B ApiError × Db Value
  continue (ok a) f db = f a db
  continue (err e) f db = (err e, db)

  infixl 5 ◌>>=◌ ◌>>◌
  unfoldable pub ◌>>=◌ : {A B : Type 0} → Handler Value A → (A → Handler Value B) → Handler Value B
  ◌>>=◌ m f db = let (r, db') = m db in continue r f db'

  abbrev pub ◌>>◌ : {A B : Type 0} → Handler Value A → Handler Value B → Handler Value B
  m >> n = m >>= λ _. n

  -- A result at hand: the operator `?` on a value.
  unfoldable pub lift : {A : Type 0} → Result A ApiError → Handler Value A
  lift r db = (r, db)

  abbrev pub tick : Db Value → Db Value
  tick db = record db { clock = suc db.clock }

  -- What a call with this result does: it has its effect unless it is refused. The errors are the
  -- database's or Redis's, as `wrap` says.
  abbrev pub answer :
      {A : Type 0}
      → (Text → ApiError)
      → Fault
      → Result A ApiError
      → (before after : Db Value) → Result A ApiError × Db Value
  answer wrap works r before after = (r, after)
  answer wrap (refused e) r before after = (err (wrap e), before)
  answer wrap (lost e) r before after = (err (wrap e), after)

  module _ (services : Services) where
    -- A statement: what it returns, and what it leaves.
    unfoldable pub statement : {A : Type 0} → (Db Value → A × Db Value) → Handler Value A
    statement f db =
        let (a, after) = f (tick db) in
        answer database (services.fault db.clock) (ok a) (tick db) after

    unfoldable pub query : {A : Type 0} → (Db Value → A) → Handler Value A
    query f db = answer database (services.fault db.clock) (ok (f db)) (tick db) (tick db)

    -- `XADD`
    unfoldable pub push : (Db Value → Db Value) → Handler Value (Unit {0})
    push f db = answer redis (services.fault db.clock) (ok tt) (tick db) (f (tick db))

-- `fetch_one` of what a query finds
abbrev pub one : {A : Type 0} → Option A → Result A ApiError
one none = err row_not_found
one (some a) = ok a
