-- ===== src/Api/Reading.antt =====
-- What is read back of tests and KEM runs (services/api/src/routes/tests.rs,
-- services/api/src/routes/kem.rs), the catalog's lists (services/api/src/routes/catalog.rs)
-- and the packs (services/api/src/routes/cavp.rs).
use pqc_sec_inspection_cours.Prelude.{
  Option, Result, Text, Bool, true, not, none, some, ◌||◌, ◌&&◌, ◌++◌, text_eq, ok, reject_if, ℕ,
  List, [], ◌∷◌, map, find, filter, take, codes, ltb, ◌==◌, ℤ, pos, negsuc, int_lt, ok_or,
  if◌then◌else◌,
}
use pqc_sec_inspection_cours.Domain.Status.{Capability}
use pqc_sec_inspection_cours.Domain.Jobs.{Uuid}
use pqc_sec_inspection_cours.Domain.Models.{
  Algorithm, Endpoint, KemRunLog, KemMatrixCell, Test, Subtask, Matrix, KemRun,
}
use pqc_sec_inspection_cours.Api.Errors.{ApiError, bad_request, not_found}
use pqc_sec_inspection_cours.Api.Database.{
  one, Db, Pack, Services, Handler, pure, lift, ◌>>=◌, ◌>>◌, query,
}
use pqc_sec_inspection_cours.Api.Grid.{matrix}

pub record TestDetail : Type 0 where
  pub test : Test
  pub subtasks : List Subtask

-- `ORDER BY`, where `before` is the order: rows that it does not tell apart stay as they are in
-- the table.
module _ {A : Type 0} (before : A → A → Bool) where
  unfoldable pub put_by : A → List A → List A
  put_by r [] = r ∷ []
  put_by r (s ∷ rows) = let rest = put_by r rows in if before s r then s ∷ rest else r ∷ s ∷ rows

  unfoldable pub sort_by : List A → List A
  unfolding put_by
  sort_by [] = []
  sort_by (r ∷ rows) = put_by r (sort_by rows)

-- `ORDER BY ordinal`
abbrev pub ordinal_before : Subtask → Subtask → Bool
ordinal_before s r = int_lt s.ordinal r.ordinal

abbrev pub by_ordinal : List Subtask → List Subtask
by_ordinal rows = sort_by ordinal_before rows

-- `ORDER BY created_at DESC`
abbrev pub newest_first : {A : Type 0} → (A → ℕ) → List A → List A
newest_first created_at rows = sort_by (λ s r. ltb (created_at r) (created_at s)) rows

-- `limit.clamp(1, most)`
abbrev pub clamp_limit : (most : ℕ) → ℤ → ℕ
clamp_limit most (negsuc _) = 1
clamp_limit most (pos n) = if ltb n 1 then 1 else if ltb most n then most else n

-- `default_limit`
abbrev pub default_limit : ℤ
default_limit = pos 25

-- A row of `cavp_packs` without its documents.
pub record PackSummary : Type 0 where
  pub slug : Text
  pub capability : Capability
  pub parameter_set : Text
  pub vs_id : ℤ  -- i64

abbrev pub summary_of : {Value : Type 0} → Pack Value → PackSummary
summary_of pack = record {
  slug = pack.slug;
  capability = pack.capability;
  parameter_set = pack.parameter_set;
  vs_id = pack.vs_id;
}

pub record KemRunDetail : Type 0 where
  pub run : KemRun
  pub endpoint : Endpoint
  pub logs : List KemRunLog
  pub cells : List KemMatrixCell

-- `kind` and the condition `$1 IS NULL OR kind = $1`
unfoldable pub check_kind : Option Text → Result (Unit {0}) ApiError
check_kind none = ok tt
check_kind (some kind) =
    reject_if (not (text_eq kind (codes "kem_group")) && not (text_eq kind (codes "sig_alg")))
      (bad_request (codes "unknown algorithm kind " ++ kind))

abbrev pub of_kind : Option Text → Algorithm → Bool
of_kind none a = true
of_kind (some kind) a = text_eq a.kind kind

-- `before` is the order of texts in the collation of the database.
module _ (before : Text → Text → Bool) where
  abbrev pub cell_before : KemMatrixCell → KemMatrixCell → Bool
  cell_before s r = before s.kem r.kem || (not (before r.kem s.kem) && before s.adapter r.adapter)

  abbrev pub algorithm_before : Algorithm → Algorithm → Bool
  algorithm_before s r =
      before s.kind r.kind
      || (not (before r.kind s.kind)
          && (int_lt s.sort_order r.sort_order
              || (not (int_lt r.sort_order s.sort_order) && before s.name r.name)))

module _ {Value : Type 0} (services : Services) where
  unfoldable pub fetch_test : Uuid → Handler Value Test
  fetch_test id = do
    row ← query services (λ db. find (λ t. t.id == id) db.tests)
    lift (ok_or row (not_found (codes "test")))

  abbrev pub subtasks_of : Uuid → Db Value → List Subtask
  subtasks_of id db = by_ordinal (filter (λ s. s.test_id == id) db.subtasks)

  unfoldable pub get_test : Uuid → Handler Value TestDetail
  get_test id = do
    test ← fetch_test id
    rows ← query services (subtasks_of id)
    pure (record { test = test; subtasks = rows })

  unfoldable pub get_matrix : Uuid → Handler Value Matrix
  get_matrix id = do fetch_test id; rows ← query services (subtasks_of id); pure (matrix rows)

  unfoldable pub list_tests : ℤ → Handler Value (List Test)
  list_tests limit =
      query services
        (λ db. take (clamp_limit 200 limit) (newest_first (λ t. t.created_at) db.tests))

  unfoldable pub list_runs : ℤ → Handler Value (List KemRun)
  list_runs limit =
      query services
        (λ db. take (clamp_limit 100 limit) (newest_first (λ r. r.created_at) db.kem_runs))

  unfoldable pub list_packs : Handler Value (List PackSummary)
  list_packs =
      query services (λ db. sort_by (λ s r. int_lt s.vs_id r.vs_id) (map summary_of db.packs))

  -- In that order.
  module _ (before : Text → Text → Bool) where
    unfoldable pub get_run : Uuid → Handler Value KemRunDetail
    get_run id = do
      row ← query services (λ db. find (λ r. r.id == id) db.kem_runs)
      run ← lift (ok_or row (not_found (codes "kem run")))
      found ← query services (λ db. find (λ e. e.id == run.endpoint_id) db.endpoints)
      endpoint ← lift (one found)
      logs ←
          query services
            (λ db. sort_by (λ s r. ltb s.seq r.seq) (filter (λ l. l.run_id == id) db.kem_logs))
      cells ←
          query services
            (λ db. sort_by (cell_before before) (filter (λ c. c.run_id == id) db.kem_cells))
      pure (record { run = run; endpoint = endpoint; logs = logs; cells = cells })

    unfoldable pub list_algorithms : Option Text → Bool → Handler Value (List Algorithm)
    list_algorithms kind include_disabled = do
      lift (check_kind kind)
      query services (λ db.
          sort_by (algorithm_before before)
            (filter (λ a. of_kind kind a && (include_disabled || a.enabled)) db.algorithms))

    unfoldable pub list_endpoints : Handler Value (List Endpoint)
    list_endpoints = query services (λ db. sort_by (λ s r. before s.slug r.slug) db.endpoints)
