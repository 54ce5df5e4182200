-- ===== src/Worker/Probe.antt =====
-- Handling of one subtask: probe, classify, persist, publish (services/worker/src/probe.rs), and
-- of a delivery from the stream (services/worker/src/main.rs).
pub mod Recorded
pub mod Invariant
pub mod Settled
pub mod Due
pub mod Ended
pub mod Completed
pub mod Kept
use pqc_sec_inspection_cours.Prelude.{
  ℕ, ◌%◌, ◌^◌, true, false, Option, none, some, [], ◌∷◌, ◌++◌, Text, codes, if◌then◌else◌, Result,
  ok, err,
}
use pqc_sec_inspection_cours.Proto.{ProbeRequest, ProbeResponse, Capabilities, Target, new_request}
use pqc_sec_inspection_cours.Domain.Status.{ExecStatus, ResultStatus}
use pqc_sec_inspection_cours.Domain.Jobs.{
  ProbeJob, subtask_updated, test_finished, test_channel, Event,
}
use pqc_sec_inspection_cours.Domain.Classify.{classify, outcome}
use pqc_sec_inspection_cours.Worker.World.{Env, Action, pure, ◌>>=◌, ◌>>◌, publish}
use pqc_sec_inspection_cours.Worker.Store.{
  TestProgress, mark_subtask_running, mark_test_running, save_report, mark_subtask_error,
  finish_test_if_done,
}
use pqc_sec_inspection_cours.Worker.Adapters.{is_configured, capabilities, probe}

-- The request for one group and one signature algorithm, with raw capture.
unfoldable pub request_of : ProbeJob → ProbeRequest
request_of job =
    let target : Target = record {
      host = job.host;
      port = job.port;
      sni = some job.host;
      http_path = some job.http_path;
    } in
    record (new_request target) {
      kem_groups = job.group_name ∷ [];
      sig_algs = job.sig_alg ∷ [];
      timeout_ms = job.timeout_ms;
      capture = record { raw_records = true; keylog = false };
    }

unfoldable pub not_enabled : ProbeJob → Text
not_enabled job = codes "adapter " ++ (job.adapter ++ codes " is not enabled in this deployment")

unfoldable pub updated : ProbeJob → ExecStatus → ResultStatus → Event
updated job exec result =
    Event.test (subtask_updated job.subtask_id exec result job.group_name job.sig_alg)

-- `passed as u32`
abbrev u32 : ℕ → ℕ
u32 n = n % 2 ^ 32

module _ {Json : Type 0} where
  -- The verdict, by the raw outcome where the capabilities could not be had.
  unfoldable pub verdict : ProbeJob → ProbeResponse Json → Result Capabilities Text → ResultStatus
  verdict job response (ok caps) = classify response (job.group_name ∷ job.sig_alg ∷ []) caps
  verdict job response (err e) = outcome response.handshake_success

  -- `match m.await { Ok(a) => …, Err(e) => … }`: the error is a value.
  unfoldable pub attempt : {A : Type 0} → Action Json A → Action Json (Result A Text)
  attempt m w = let (r, w') = m w in (ok r, w')

  module _ (env : Env Json) where
    unfoldable pub announce : ProbeJob → Option TestProgress → Action Json (Unit {0})
    announce job none = pure tt
    announce job (some p) =
        publish env (test_channel job.test_id)
          (Event.test (test_finished job.test_id (u32 p.passed) (u32 p.failed)))

    unfoldable pub finish : ProbeJob → Action Json (Unit {0})
    finish job = do progress ← finish_test_if_done env job.test_id; announce job progress

    -- The adapter is not part of the deployment.
    unfoldable pub handle_disabled : ProbeJob → Action Json (Unit {0})
    handle_disabled job = do
      mark_subtask_error env job.subtask_id (not_enabled job)
      publish env (test_channel job.test_id) (updated job ExecStatus.error ResultStatus.disabled)
      finish job

    unfoldable pub handle_configured : ProbeJob → Action Json (Unit {0})
    handle_configured job = do
      response ← probe env job.adapter (request_of job)
      caps ← attempt (capabilities env job.adapter)
      save_report env job.subtask_id (verdict job response caps) response
      publish env (test_channel job.test_id)
          (updated job ExecStatus.finished (verdict job response caps))
      finish job

    unfoldable pub handle : ProbeJob → Action Json (Unit {0})
    handle job = do
      mark_test_running env job.test_id
      mark_subtask_running env job.subtask_id
      if is_configured env job.adapter then handle_configured job else handle_disabled job
