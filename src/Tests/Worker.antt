-- ===== src/Tests/Worker.antt =====
-- The worker on a small database: one test with two subtasks, of which one is over.
use pqc_sec_inspection_cours.Prelude.{
  pos, ℕ, ◌≡◌, refl, true, false, none, some, inl, [], ◌∷◌, Text, codes, ltb, if◌then◌else◌,
  text_eq, ok,
}
use pqc_sec_inspection_cours.Proto.{tls_handshake, complete, stage_str, ProbeResponse, failure}
use pqc_sec_inspection_cours.Domain.Status.{TaskStatus, ExecStatus, ResultStatus, ReportStatus}
use pqc_sec_inspection_cours.Domain.Jobs.{Uuid, ProbeJob}
use pqc_sec_inspection_cours.Domain.Models.{Test, Subtask}
use pqc_sec_inspection_cours.Worker.World.{World, Env, works, refused, answered}
use pqc_sec_inspection_cours.Worker.Store.{finish_test_if_done, report_of, report_status}
use pqc_sec_inspection_cours.Worker.Adapters.{is_configured}
use pqc_sec_inspection_cours.Worker.Probe.{handle}
use pqc_sec_inspection_cours.Worker.Probe.Invariant.{
  RowsConsistent, IsVerdict, handle-RowsConsistent,
}
use pqc_sec_inspection_cours.Worker.Probe.Settled.{
  RowIs, IsTold, Shows, handle-disabled, handle-configured,
}
use pqc_sec_inspection_cours.Worker.Closing.{Closes, finish_test_if_done_cases}
use pqc_sec_inspection_cours.Worker.Rules.{Yields}

-- One adapter, that answers every probe with a refused handshake.
abbrev pub env : Env (Unit {0})
env = record {
  bases = (codes "openssl", codes "http://openssl:8080") ∷ [];
  fault = λ n. works;
  probe_reply = λ n base request.
      answered 200 (codes "200 OK") []
        (ok (failure tt (codes "openssl") tls_handshake (codes "no shared group")));
  capabilities_reply = λ n base. ok (record {
    adapter = codes "openssl";
    version = codes "3.5.0";
    kem_groups = codes "X25519MLKEM768" ∷ [];
    sig_algs = codes "mldsa65" ∷ [];
    tls_versions = codes "TLSv1.3" ∷ [];
  });
  null = tt;
  duplicate_key = codes "duplicate key";
}

-- The same, but every call of the database and of Redis is refused from the `n`-th on.
abbrev failing : ℕ → Env (Unit {0})
failing n = record env {
  fault = λ k. if ltb k n then works else refused (codes "connection reset");
}

abbrev row : Uuid → ExecStatus → ResultStatus → ReportStatus → Subtask
row id exec result report = record {
  id = id;
  test_id = 1;
  ordinal = pos id;
  group_name = codes "X25519MLKEM768";
  sig_alg = codes "mldsa65";
  exec_status = exec;
  result_status = result;
  report_status = report;
  failed_stage = none;
  error_summary = none;
  started_at = none;
  finished_at = none;
}

abbrev pub queued : Subtask
queued = row 10 ExecStatus.queued ResultStatus.pending ReportStatus.missing

abbrev pub finished_row : Subtask
finished_row = record (row 11 ExecStatus.finished ResultStatus.passed ReportStatus.complete) {
  failed_stage = some (stage_str complete);
}

-- Its report's response.
abbrev shaken : ProbeResponse (Unit {0})
shaken = record (failure tt (codes "openssl") complete []) {
  handshake_success = true;
  error_summary = none;
}

abbrev erred_row : Subtask
erred_row = row 12 ExecStatus.error ResultStatus.failed ReportStatus.missing

abbrev the_test : Test
the_test = record {
  id = 1;
  host = codes "lab.test";
  port = pos 443;
  http_path = codes "/";
  method = codes "pairwise";
  tool = codes "openssl";
  plugin = codes "openssl";
  status = TaskStatus.pending;
  group_count = pos 1;
  sig_alg_count = pos 2;
  subtask_count = pos 2;
  created_at = 0;
  started_at = none;
  finished_at = none;
}

abbrev pub world : World (Unit {0})
world = record {
  tests = the_test ∷ [];
  subtasks = queued ∷ finished_row ∷ [];
  reports = report_of 11 shaken ∷ [];
  kem_runs = [];
  kem_logs = [];
  kem_cells = [];
  published = [];
  acked = [];
  capabilities = [];
  seq = 0;
  clock = 0;
}

abbrev pub job_for : Text → ProbeJob
job_for adapter = record {
  test_id = 1;
  subtask_id = 10;
  host = codes "lab.test";
  port = 443;
  http_path = codes "/";
  adapter = adapter;
  group_name = codes "X25519MLKEM768";
  sig_alg = codes "mldsa65";
  timeout_ms = 15_000;
}

world-RowsConsistent : RowsConsistent world
unfolding report_status
world-RowsConsistent = (
  ((λ e. cc), (λ e. cc e)),
  (
    (
      (tt, (λ e. cc)),
      (λ _. inl (record { for_it = refl; status = refl; stage = refl; summary = refl })),
    ),
    tt,
  ),
)

handle-RowsConsistent_example :
    RowsConsistent (handle (failing 2) (job_for (codes "openssl")) world).1
handle-RowsConsistent_example =
    handle-RowsConsistent (failing 2) (job_for (codes "openssl")) world world-RowsConsistent

not_configured : is_configured env (codes "nss") ≡ false
unfolding is_configured text_eq codes
not_configured = refl

configured : is_configured env (codes "openssl") ≡ true
unfolding is_configured text_eq codes
configured = refl

handle-disabled_example :
    Yields (handle env (job_for (codes "nss"))) world (λ _.
      Shows (job_for (codes "nss")) ExecStatus.error ResultStatus.failed ResultStatus.disabled)
handle-disabled_example =
    handle-disabled env (λ _. refl) (job_for (codes "nss")) world not_configured

handle-configured_example : Yields (handle env (job_for (codes "openssl"))) world (λ _ w.
    (v : ResultStatus) × IsVerdict v
    × RowIs (job_for (codes "openssl")) ExecStatus.finished v w
    × IsTold (job_for (codes "openssl")) ExecStatus.finished v w)
handle-configured_example =
    handle-configured env (λ _. refl) (job_for (codes "openssl")) world configured

finish_test_if_done_cases_example :
    Yields (finish_test_if_done env 1) world (λ progress w. Closes 1 world progress w)
finish_test_if_done_cases_example = finish_test_if_done_cases env (λ _. refl) 1 world
