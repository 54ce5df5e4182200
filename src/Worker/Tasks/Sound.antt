-- ===== src/Worker/Tasks/Sound.antt =====
-- No turn of a task forgets a row or the closing of the test (services/worker/src/probe.rs).
use pqc_sec_inspection_cours.Prelude.{inl, inr, arith}
use pqc_sec_inspection_cours.Domain.Jobs.{Uuid, ProbeJob}
use pqc_sec_inspection_cours.Worker.World.{World, Env}
use pqc_sec_inspection_cours.Worker.Store.{of_test}
use pqc_sec_inspection_cours.Worker.Adapters.{probe}
use pqc_sec_inspection_cours.Worker.Probe.{request_of}
use pqc_sec_inspection_cours.Worker.Closing.{tally-outstanding_iff}
use pqc_sec_inspection_cours.Worker.Probe.Invariant.{subtasks-probe}
use pqc_sec_inspection_cours.Worker.Tasks.{
  Stage, arrived, marked, probing, rejecting, tallying, done, replied, judged, telling, tallied,
  reporting, broken, advance,
}
use pqc_sec_inspection_cours.Worker.Tasks.Outcomes.{Ends-query}
use pqc_sec_inspection_cours.Worker.Tasks.Turns.{Sound, gives_up}
use pqc_sec_inspection_cours.Worker.Tasks.Calls.{
  proceed_lem, aside, marks_test, marks_row, saves, rejects, closes, announces, asks, tells,
}

module _ {Json : Type 0} (env : Env Json) (Other : Uuid → Type 0) (Else : Type 0)
    (job : ProbeJob) where
  pub advance-Sound :
      (stage : Stage Json) (w : World Json)
      → Sound Other Else job stage w
      → Sound Other Else job (advance env job stage w).0 (advance env job stage w).1
  unfolding advance
  advance-Sound arrived w h =
      proceed_lem env Other Else job _ _ w (marks_test env Other Else job w h)
  advance-Sound marked w h = proceed_lem env Other Else job _ _ w (marks_row env Other Else job w h)
  advance-Sound probing w h = proceed_lem env Other Else job replied _ w (
      aside env Other Else job probing (probe env job.adapter (request_of job)) w
        (subtasks-probe env job w) (unfold probe in ground arith) h)
  advance-Sound (replied response) w h =
      proceed_lem env Other Else job _ _ w (asks env Other Else job response w h)
  advance-Sound (judged result response) w h =
      proceed_lem env Other Else job _ _ w (saves env Other Else job result response w h)
  advance-Sound rejecting w h =
      proceed_lem env Other Else job _ _ w (rejects env Other Else job w h)
  advance-Sound (telling exec result) w h =
      proceed_lem env Other Else job _ _ w (tells env Other Else job exec result w h)
  advance-Sound tallying w h = proceed_lem env Other Else job tallied _ w (
      Ends-query env _ w
        (h.0, λ over. inr (inl ((tally-outstanding_iff (of_test job.test_id w.subtasks)).1 over)))
        (gives_up Other Else job tallying w h))
  advance-Sound (tallied counts) w h =
      proceed_lem env Other Else job _ _ w (closes env Other Else job counts w h)
  advance-Sound (reporting progress) w h =
      proceed_lem env Other Else job _ _ w (announces env Other Else job progress w h)
  advance-Sound done w h = h
  advance-Sound (broken e) w h = h
