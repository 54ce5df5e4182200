-- ===== src/Worker/Probe/Invariant.antt =====
-- What every handled job leaves true of the subtask rows, whatever fails on the way
-- (services/worker/src/probe.rs, services/worker/src/store.rs).
use pqc_sec_inspection_cours.Prelude.{
  ◌≡◌, refl, ◌≢◌, inl, inr, Bool, true, false, Option, none, some, List, Text, Result, ok, err, All,
  arith, Bool-cases, any,
}
use pqc_sec_inspection_cours.Proto.{ProbeResponse, Capabilities}
use pqc_sec_inspection_cours.Domain.Status.{ExecStatus, ResultStatus, ReportStatus}
use pqc_sec_inspection_cours.Domain.Jobs.{Uuid, ProbeJob, Channel, Event}
use pqc_sec_inspection_cours.Domain.Models.{Subtask}
use pqc_sec_inspection_cours.Domain.Classify.{classify, outcome, known}
use pqc_sec_inspection_cours.Worker.World.{World, Env, Action, publish, tick}
use pqc_sec_inspection_cours.Worker.Store.{
  TestProgress, Tally, start_subtask, fail_subtask, report_status, mark_subtask_running,
  mark_test_running, save_report, mark_subtask_error, close_if_done, close_test_row,
  finish_test_if_done,
}
use pqc_sec_inspection_cours.Worker.Adapters.{capabilities, probe}
use pqc_sec_inspection_cours.Worker.Probe.Recorded.{IsRecorded, stored_rows}
use pqc_sec_inspection_cours.Worker.Probe.{
  verdict, request_of, attempt, announce, finish, handle_disabled, handle_configured, handle,
}
use pqc_sec_inspection_cours.Worker.Rules.{
  Keeps, Keeps-pure, Keeps-bind, Keeps-if, Keeps-perform, Keeps-query, All-update_where,
}

-- A verdict of the worker: neither `pending` nor `disabled`.
abbrev pub IsVerdict : ResultStatus → Type 0
IsVerdict ResultStatus.passed = Unit
IsVerdict ResultStatus.failed = Unit
IsVerdict ResultStatus.unsupported = Unit
IsVerdict _ = ⊥

-- A finished subtask has a verdict and its column of reports does not say `missing`; one that erred
-- has `failed` and `missing`; a subtask that is queued or running has not been marked `disabled`.
abbrev pub Consistent : ExecStatus → ResultStatus → ReportStatus → Type 0
Consistent ExecStatus.finished result report = IsVerdict result × (report ≢ ReportStatus.missing)
Consistent ExecStatus.error result report =
    (result ≡ ResultStatus.failed) × (report ≡ ReportStatus.missing)
Consistent _ result report = result ≢ ResultStatus.disabled

abbrev pub IsConsistent : Subtask → Type 0
IsConsistent s = Consistent s.exec_status s.result_status s.report_status

start-IsConsistent :
    (exec : ExecStatus) (result : ResultStatus) (report : ReportStatus)
    → Consistent exec result report
    → result ≢ ResultStatus.disabled
start-IsConsistent ExecStatus.queued result report h = h
start-IsConsistent ExecStatus.running result report h = h
start-IsConsistent ExecStatus.error result report h = λ e. cc (h.0, e)
start-IsConsistent ExecStatus.finished result report h = no_verdict result h.0
  where
    no_verdict : (r : ResultStatus) → IsVerdict r → r ≢ ResultStatus.disabled
    no_verdict ResultStatus.passed h = λ e. cc
    no_verdict ResultStatus.failed h = λ e. cc
    no_verdict ResultStatus.unsupported h = λ e. cc
    no_verdict ResultStatus.pending h = absurd h
    no_verdict ResultStatus.disabled h = absurd h

outcome-IsVerdict : (b : Bool) → IsVerdict (outcome b)
unfolding outcome
outcome-IsVerdict true = tt
outcome-IsVerdict false = tt

module _ {Json : Type 0} where
  -- Every subtask row is consistent, and a finished one has its report in the table of reports.
  abbrev pub RowsConsistent : World Json → Type 0
  RowsConsistent w = All (λ s. IsConsistent s × IsRecorded w.reports s) w.subtasks

  classify-IsVerdict :
      (r : ProbeResponse Json) (offered : List Text) (caps : Capabilities)
      → IsVerdict (classify r offered caps)
  unfolding classify
  classify-IsVerdict r offered caps = elim (Bool-cases (any (known caps) offered)) [
    | inl e ↦ rw (e, IsVerdict) (outcome-IsVerdict r.handshake_success)
    | inr e ↦ rw (e, IsVerdict) tt
  ]

  pub verdict-IsVerdict :
      (job : ProbeJob) (r : ProbeResponse Json) (caps : Result Capabilities Text)
      → IsVerdict (verdict job r caps)
  unfolding verdict
  verdict-IsVerdict job r (ok caps) = classify-IsVerdict r _ caps
  verdict-IsVerdict job r (err e) = outcome-IsVerdict r.handshake_success

  report_status-ne-missing : (r : ProbeResponse Json) → report_status r ≢ ReportStatus.missing
  unfolding report_status
  report_status-ne-missing r e = ground arith

  pub subtasks-capabilities :
      (env : Env Json) (adapter : Text) (w : World Json)
      → (capabilities env adapter w).1.subtasks ≡ w.subtasks
  unfolding capabilities
  subtasks-capabilities env adapter w = ground arith

  pub subtasks-probe :
      (env : Env Json) (job : ProbeJob) (w : World Json)
      → (probe env job.adapter (request_of job) w).1.subtasks ≡ w.subtasks
  unfolding probe
  subtasks-probe env job w = ground arith

  reports-capabilities :
      (env : Env Json) (adapter : Text) (w : World Json)
      → (capabilities env adapter w).1.reports ≡ w.reports
  unfolding capabilities
  reports-capabilities env adapter w = ground arith

  reports-probe :
      (env : Env Json) (job : ProbeJob) (w : World Json)
      → (probe env job.adapter (request_of job) w).1.reports ≡ w.reports
  unfolding probe
  reports-probe env job w = ground arith

  attempt-Keeps :
      {A : Type 0} (m : Action Json A) → Keeps RowsConsistent m → Keeps RowsConsistent (attempt m)
  unfolding attempt
  attempt-Keeps m k = record { at = λ w h. k.at w h }

  module _ (env : Env Json) where
    ticks : (w : World Json) → RowsConsistent w → RowsConsistent (tick w)
    ticks w h = h

    mark_test_running-Keeps : (id : Uuid) → Keeps RowsConsistent (mark_test_running env id)
    unfolding mark_test_running
    mark_test_running-Keeps id = Keeps-perform env _ ticks (λ w h. h)

    mark_subtask_running-Keeps : (id : Uuid) → Keeps RowsConsistent (mark_subtask_running env id)
    unfolding mark_subtask_running
    mark_subtask_running-Keeps id = Keeps-perform env _ ticks λ w h.
        All-update_where _ _ (start_subtask w.clock) w.subtasks
          (λ s ok_s.
            (start-IsConsistent s.exec_status s.result_status s.report_status ok_s.0, λ e. cc e))
          h

    mark_subtask_error-Keeps :
        (id : Uuid) (reason : Text) → Keeps RowsConsistent (mark_subtask_error env id reason)
    unfolding mark_subtask_error
    mark_subtask_error-Keeps id reason = Keeps-perform env _ ticks λ w h.
        All-update_where _ _ (fail_subtask w.clock reason) w.subtasks
          (λ s _. ((refl, refl), λ e. cc e)) h

    save_report-Keeps :
        (id : Uuid) (result : ResultStatus) (r : ProbeResponse Json)
        → IsVerdict result
        → Keeps RowsConsistent (save_report env id result r)
    unfolding save_report
    save_report-Keeps id result r v = Keeps-bind _ _ (Keeps-perform env _ ticks (λ w h. h)) λ _.
        Keeps-bind _ _ (Keeps-perform env _ ticks (λ w h. h)) λ _.
          Keeps-bind _ _ (Keeps-perform env _ ticks (λ w h. h)) λ _.
            Keeps-perform env _ ticks λ w h.
              stored_rows w.clock id result r w.reports IsConsistent w.subtasks
                (λ s. (v, report_status-ne-missing r)) h

    publish-Keeps : (c : Channel) (e : Event) → Keeps RowsConsistent (publish env c e)
    unfolding publish
    publish-Keeps c e = Keeps-perform env _ ticks (λ w h. h)

    close_if_done-Keeps : (id : Uuid) (t : Tally) → Keeps RowsConsistent (close_if_done env id t)
    unfolding close_if_done close_test_row
    close_if_done-Keeps id t =
        Keeps-if _ _ _ (Keeps-pure _)
          (Keeps-bind _ _ (Keeps-perform env _ ticks (λ w h. h)) λ _. Keeps-pure _)

    finish_test_if_done-Keeps : (id : Uuid) → Keeps RowsConsistent (finish_test_if_done env id)
    unfolding finish_test_if_done
    finish_test_if_done-Keeps id =
        Keeps-bind _ _ (Keeps-query env _ ticks) (λ t. close_if_done-Keeps id t)

    announce-Keeps :
        (job : ProbeJob) (p : Option TestProgress) → Keeps RowsConsistent (announce env job p)
    unfolding announce
    announce-Keeps job none = Keeps-pure _
    announce-Keeps job (some p) = publish-Keeps _ _

    finish-Keeps : (job : ProbeJob) → Keeps RowsConsistent (finish env job)
    unfolding finish
    finish-Keeps job =
        Keeps-bind _ _ (finish_test_if_done-Keeps job.test_id) (λ p. announce-Keeps job p)

    handle_disabled-Keeps : (job : ProbeJob) → Keeps RowsConsistent (handle_disabled env job)
    unfolding handle_disabled
    handle_disabled-Keeps job =
        Keeps-bind _ _ (mark_subtask_error-Keeps job.subtask_id _)
          λ _. Keeps-bind _ _ (publish-Keeps _ _) λ _. finish-Keeps job

    handle_configured-Keeps : (job : ProbeJob) → Keeps RowsConsistent (handle_configured env job)
    unfolding handle_configured
    handle_configured-Keeps job =
        Keeps-bind _ _
          (record { at = λ w h. rw (subtasks-probe env job w, reports-probe env job w) h })
          λ response.
            Keeps-bind _ _
              (attempt-Keeps (capabilities env job.adapter) (record {
                at = λ w h.
                    rw
                      (
                        subtasks-capabilities env job.adapter w,
                        reports-capabilities env job.adapter w,
                      )
                      h;
              }))
              λ caps.
                Keeps-bind _ _
                  (save_report-Keeps job.subtask_id _ response
                    (verdict-IsVerdict job response caps))
                  λ _. Keeps-bind _ _ (publish-Keeps _ _) λ _. finish-Keeps job

    -- Whatever job is handled, from rows that are consistent, and whatever calls fail on the way,
    -- the rows are consistent afterwards: a finished subtask has a verdict and a report in the
    -- table of reports, from whose response its report status, failed stage and error summary are;
    -- an errored one is marked `failed` and its report `missing`; and none is marked `disabled`.
    pub handle-RowsConsistent :
        (job : ProbeJob) (w : World Json) → RowsConsistent w → RowsConsistent (handle env job w).1
    unfolding handle
    handle-RowsConsistent job =
        (Keeps-bind _ _ (mark_test_running-Keeps job.test_id) λ _.
          Keeps-bind _ _ (mark_subtask_running-Keeps job.subtask_id)
            λ _. Keeps-if _ _ _ (handle_configured-Keeps job) (handle_disabled-Keeps job)).at
