-- ===== src/Api/Tests.antt =====
-- The creation of a test (services/api/src/routes/tests.rs, services/api/src/queue.rs).
pub mod Known
pub mod Atomic
pub mod Shown
use pqc_sec_inspection_cours.Prelude.{
  ℕ, suc, ◌*◌, Bool, not, ◌&&◌, none, List, [], ◌∷◌, ◌++◌, map, filter, length, take, is_empty,
  Text, codes, text_eq, contains_text, trim, join, ℤ, as_i32, as_u16, Result, ok, err, reject_if,
}
use pqc_sec_inspection_cours.Domain.Status.{TaskStatus, ExecStatus, ResultStatus, ReportStatus}
use pqc_sec_inspection_cours.Domain.Jobs.{Uuid, ProbeJob}
use pqc_sec_inspection_cours.Domain.Models.{Algorithm, Test, Subtask}
use pqc_sec_inspection_cours.Worker.World.{Fault, works, refused, lost}
use pqc_sec_inspection_cours.Api.Errors.{ApiError, bad_request, redis}
use pqc_sec_inspection_cours.Api.Database.{
  Db, Services, Handler, pure, lift, ◌>>=◌, ◌>>◌, tick, statement, query,
}
use pqc_sec_inspection_cours.Api.Selection.{dedupe, adapter_for}
use pqc_sec_inspection_cours.Api.Grid.{NewRow, expand}
use pqc_sec_inspection_cours.Api.Creation.{NewTest, check_new_test}

-- The part of the configuration that a new test needs.
pub record Settings : Type 0 where
  pub max_subtasks_per_test : ℕ
  pub default_adapter : Text
  pub probe_timeout_ms : ℕ

-- The names of `names` that the catalog does not have for this kind.
unfoldable pub unknown_names : List Algorithm → Text → List Text → List Text
unknown_names catalog kind names =
    let known =
      map (λ a. a.name) (filter (λ a. text_eq a.kind kind && contains_text names a.name) catalog) in
    filter (λ n. not (contains_text known n)) names

abbrev pub job_of : Settings → NewTest → Test → Subtask → ProbeJob
job_of settings body test row = record {
  test_id = test.id;
  subtask_id = row.id;
  host = test.host;
  port = as_u16 test.port;
  http_path = test.http_path;
  adapter = adapter_for body.tool body.plugin settings.default_adapter;
  group_name = row.group_name;
  sig_alg = row.sig_alg;
  timeout_ms = settings.probe_timeout_ms;
}

-- The rows of the second `INSERT`, with the defaults of the table.
unfoldable pub subtask_rows : Services → Uuid → (call index : ℕ) → List NewRow → List Subtask
subtask_rows services test_id call index [] = []
subtask_rows services test_id call index (row ∷ rows) =
    record {
      id = services.uuid call index;
      test_id = test_id;
      ordinal = row.ordinal;
      group_name = row.group_name;
      sig_alg = row.sig_alg;
      exec_status = ExecStatus.queued;
      result_status = ResultStatus.pending;
      report_status = ReportStatus.missing;
      failed_stage = none;
      error_summary = none;
      started_at = none;
      finished_at = none;
    }
    ∷ subtask_rows services test_id call (suc index) rows

module _ {Value : Type 0} (services : Services) where
  unfoldable pub reject_unknown : Text → List Text → Handler Value (Unit {0})
  reject_unknown kind names = do
    unknown ← query services (λ db. unknown_names db.algorithms kind names)
    lift (
        reject_if (not (is_empty unknown))
          (bad_request (codes "unknown " ++ (kind ++ (codes ": " ++ join (codes ", ") unknown)))))

  abbrev pub append_jobs : List ProbeJob → Db Value → Db Value
  append_jobs jobs db = record db { probe_jobs = db.probe_jobs ++ jobs }

  -- One pipeline of `XADD`s: if its answer is lost, the first of them may have been carried out.
  abbrev pub pipeline : Fault → ℕ → List ProbeJob → Db Value → Result (Unit {0}) ApiError × Db Value
  pipeline works n jobs db = (ok tt, append_jobs jobs db)
  pipeline (refused e) n jobs db = (err (redis e), db)
  pipeline (lost e) n jobs db = (err (redis e), append_jobs (take n jobs) db)

  unfoldable pub enqueue_probes : List ProbeJob → Handler Value (Unit {0})
  enqueue_probes jobs db =
      pipeline (services.fault db.clock) (services.carried_out db.clock) jobs (tick db)

  abbrev pub test_row : NewTest → (groups sig_algs : List Text) → Db Value → Test
  test_row body groups sig_algs db = record {
    id = services.uuid db.clock 0;
    host = trim body.host;
    port = body.port;
    http_path = body.http_path;
    method = codes "GET";
    tool = body.tool;
    plugin = body.plugin;
    status = TaskStatus.pending;
    group_count = as_i32 (length groups);
    sig_alg_count = as_i32 (length sig_algs);
    subtask_count = as_i32 (length groups * length sig_algs);
    created_at = services.now db.clock;
    started_at = none;
    finished_at = none;
  }

  -- The rows, and the order in which they come back.
  abbrev pub insert_subtasks : Uuid → List NewRow → Db Value → List Subtask × List Subtask
  insert_subtasks test_id new_rows db =
      let rows = subtask_rows services test_id db.clock 0 new_rows in
      (rows, services.returned db.clock rows)

  abbrev pub commit : Test → List Subtask → Db Value → Unit {0} × Db Value
  commit test rows db =
      (tt, record db { tests = db.tests ++ test ∷ []; subtasks = db.subtasks ++ rows })

  -- The statements of the transaction take effect when it is committed.
  unfoldable pub create_test : Settings → NewTest → Handler Value Test
  create_test settings body =
      let groups = dedupe body.groups in
      let sig_algs = dedupe body.sig_algs in
      do
        lift (check_new_test settings.max_subtasks_per_test body)
        reject_unknown (codes "kem_group") groups
        reject_unknown (codes "sig_alg") sig_algs
        query services (λ db. tt)
        test ← query services (test_row body groups sig_algs)
        (rows, inserted) ← query services (insert_subtasks test.id (expand groups sig_algs))
        statement services (commit test rows)
        enqueue_probes (map (job_of settings body test) inserted)
        pure test
