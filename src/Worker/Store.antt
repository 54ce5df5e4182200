-- ===== src/Worker/Store.antt =====
-- The database writes of the worker (services/worker/src/store.rs).
use pqc_sec_inspection_cours.Prelude.{
  ℕ, Bool, true, false, Option, none, some, List, [], ◌∷◌, Text, length, filter, is_empty,
  update_where, ltb, ◌==◌, ◌&&◌, if◌then◌else◌, as_i64,
}
use pqc_sec_inspection_cours.Proto.{ProbeResponse, stage_str}
use pqc_sec_inspection_cours.Domain.Status.{TaskStatus, ExecStatus, ResultStatus, ReportStatus}
use pqc_sec_inspection_cours.Domain.Jobs.{Uuid}
use pqc_sec_inspection_cours.Domain.Models.{Time, Test, Subtask, SubtaskReport}
use pqc_sec_inspection_cours.Worker.World.{Env, Action, pure, ◌>>=◌, ◌>>◌, perform, query}

abbrev pub start_subtask : Time → Subtask → Subtask
start_subtask now s = record s { exec_status = ExecStatus.running; started_at = some now }

abbrev pub is_pending : TaskStatus → Bool
is_pending TaskStatus.pending = true
is_pending _ = false

-- `coalesce(started_at, now())`
abbrev pub start_test : Time → Test → Test
start_test now t = record t {
  status = TaskStatus.running;
  started_at = elim t.started_at [ none ↦ some now | some at ↦ some at ];
}

-- A report is `partial` only if the probe failed and has no messages.
unfoldable pub report_status : {Json : Type 0} → ProbeResponse Json → ReportStatus
report_status r =
    if r.handshake_success
    then ReportStatus.complete
    else if is_empty r.messages
    then ReportStatus.partial
    else ReportStatus.complete

abbrev pub finish_subtask :
    {Json : Type 0} → Time → ResultStatus → ProbeResponse Json → Subtask → Subtask
finish_subtask now result r s = record s {
  exec_status = ExecStatus.finished;
  result_status = result;
  report_status = report_status r;
  failed_stage = some (stage_str r.failed_stage);
  error_summary = r.error_summary;
  finished_at = some now;
}

abbrev pub report_of : {Json : Type 0} → Uuid → ProbeResponse Json → SubtaskReport Json
report_of id r = record {
  subtask_id = id;
  adapter = r.adapter;
  tls_summary = record {
    handshake_success = r.handshake_success;
    negotiated = r.negotiated;
    alert = r.alert;
  };
  messages = r.messages;
  cert_chain = r.cert_chain;
  http = r.http;
  diagnostics = r.diagnostics;
  raw = r;
  evidence = r.evidence.uds_dump_b64;
  duration_ms = as_i64 r.duration_ms;
}

-- `INSERT … ON CONFLICT (subtask_id) DO UPDATE`
unfoldable pub upsert_report :
    {Json : Type 0} → SubtaskReport Json → List (SubtaskReport Json) → List (SubtaskReport Json)
upsert_report r [] = r ∷ []
upsert_report r (q ∷ qs) = if q.subtask_id == r.subtask_id then r ∷ qs else q ∷ upsert_report r qs

abbrev pub fail_subtask : Time → Text → Subtask → Subtask
fail_subtask now reason s = record s {
  exec_status = ExecStatus.error;
  result_status = ResultStatus.failed;
  report_status = ReportStatus.missing;
  error_summary = some reason;
  finished_at = some now;
}

pub record TestProgress : Type 0 where
  pub passed : ℕ
  pub failed : ℕ

-- The counts of the query, over the subtasks of one test.
pub record Tally : Type 0 where
  pub outstanding : ℕ
  pub passed : ℕ
  pub failed : ℕ
  pub errored : ℕ
  pub total : ℕ

abbrev pub is_outstanding : ExecStatus → Bool
is_outstanding ExecStatus.queued = true
is_outstanding ExecStatus.running = true
is_outstanding _ = false

abbrev pub is_passed : ResultStatus → Bool
is_passed ResultStatus.passed = true
is_passed _ = false

abbrev pub is_failed : ResultStatus → Bool
is_failed ResultStatus.failed = true
is_failed ResultStatus.unsupported = true
is_failed _ = false

abbrev pub is_errored : ExecStatus → Bool
is_errored ExecStatus.error = true
is_errored _ = false

abbrev pub of_test : Uuid → List Subtask → List Subtask
of_test id rows = filter (λ s. s.test_id == id) rows

unfoldable pub tally : List Subtask → Tally
tally rows = record {
  outstanding = length (filter (λ s. is_outstanding s.exec_status) rows);
  passed = length (filter (λ s. is_passed s.result_status) rows);
  failed = length (filter (λ s. is_failed s.result_status) rows);
  errored = length (filter (λ s. is_errored s.exec_status) rows);
  total = length rows;
}

unfoldable pub final_status : Tally → TaskStatus
final_status t =
    if t.errored == t.total && ltb 0 t.total then TaskStatus.failed else TaskStatus.finished

abbrev pub close_test : Time → TaskStatus → Test → Test
close_test now status t = record t { status = status; finished_at = some now }

module _ {Json : Type 0} (env : Env Json) where
  unfoldable pub mark_subtask_running : Uuid → Action Json (Unit {0})
  mark_subtask_running id =
      perform env λ w. record w {
        subtasks = update_where (λ s. s.id == id) (start_subtask w.clock) w.subtasks;
      }

  unfoldable pub mark_test_running : Uuid → Action Json (Unit {0})
  mark_test_running id = perform env λ w. record w {
    tests = update_where (λ t. t.id == id && is_pending t.status) (start_test w.clock) w.tests;
  }

  -- One transaction: nothing is written before the commit.
  unfoldable pub save_report : Uuid → ResultStatus → ProbeResponse Json → Action Json (Unit {0})
  save_report id result response = do
    perform env (λ w. w)
    perform env (λ w. w)
    perform env (λ w. w)
    perform env λ w. record w {
      reports = upsert_report (report_of id response) w.reports;
      subtasks = update_where (λ s. s.id == id) (finish_subtask w.clock result response) w.subtasks;
    }

  unfoldable pub mark_subtask_error : Uuid → Text → Action Json (Unit {0})
  mark_subtask_error id reason = perform env λ w. record w {
    subtasks = update_where (λ s. s.id == id) (fail_subtask w.clock reason) w.subtasks;
  }

  -- The second half of `finish_test_if_done`, once nothing is outstanding.
  unfoldable pub close_test_row : Uuid → Tally → Action Json (Option TestProgress)
  close_test_row id t = do
    perform env λ w. record w {
      tests = update_where (λ u. u.id == id) (close_test w.clock (final_status t)) w.tests;
    }
    pure (some (record { passed = t.passed; failed = t.failed }))

  unfoldable pub close_if_done : Uuid → Tally → Action Json (Option TestProgress)
  close_if_done id t = if ltb 0 t.outstanding then pure none else close_test_row id t

  unfoldable pub finish_test_if_done : Uuid → Action Json (Option TestProgress)
  finish_test_if_done id = do t ← query env (λ w. tally (of_test id w.subtasks)); close_if_done id t
