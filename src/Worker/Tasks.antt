-- ===== src/Worker/Tasks.antt =====
-- The jobs of a test side by side (services/worker/src/probe.rs, function `handle`, spawned by
-- `tick` of services/worker/src/main.rs): a task is cut where it awaits the database, Redis or an
-- adapter, and there another task may take its turn. The transaction of `save_report` is one turn.
pub mod Alone
pub mod Outcomes
pub mod Tables
pub mod Turns
pub mod Calls
pub mod Sound
pub mod Watched
pub mod Closed
pub mod Whole
pub mod Progress
use pqc_sec_inspection_cours.Prelude.{
  ℕ, zero, suc, ◌≡◌, List, ◌∷◌, ◌++◌, map, filter, Option, Text, Result, ok, err, ◌==◌,
  if◌then◌else◌,
}
use pqc_sec_inspection_cours.Proto.{ProbeResponse}
use pqc_sec_inspection_cours.Domain.Status.{ExecStatus, ResultStatus}
use pqc_sec_inspection_cours.Domain.Jobs.{Uuid, ProbeJob, test_channel}
use pqc_sec_inspection_cours.Worker.World.{World, Env, query, publish}
use pqc_sec_inspection_cours.Worker.Store.{
  TestProgress, Tally, tally, of_test, mark_test_running, mark_subtask_running, save_report,
  mark_subtask_error, close_if_done,
}
use pqc_sec_inspection_cours.Worker.Adapters.{is_configured, capabilities, probe}
use pqc_sec_inspection_cours.Worker.Probe.{
  request_of, not_enabled, updated, verdict, attempt, announce,
}

-- Where a task stands, with what it knows by then. `broken` is a task that an error has ended.
pub data Stage (Json : Type 0) : Type 0 where
  arrived marked probing rejecting tallying done : Stage Json
  replied : (response : ProbeResponse Json) → Stage Json
  judged : (result : ResultStatus) (response : ProbeResponse Json) → Stage Json
  telling : (exec : ExecStatus) (result : ResultStatus) → Stage Json
  tallied : (counts : Tally) → Stage Json
  reporting : (progress : Option TestProgress) → Stage Json
  broken : (error : Text) → Stage Json

-- The operator `?`: on to the next stage, or out with the error.
abbrev pub proceed :
    {Json A : Type 0} → (A → Stage Json) → Result A Text × World Json → Stage Json × World Json
proceed next (ok a, w) = (next a, w)
proceed next (err e, w) = (broken e, w)

module _ {Json : Type 0} (env : Env Json) (job : ProbeJob) where
  -- A turn of the task.
  unfoldable pub advance : Stage Json → World Json → Stage Json × World Json
  advance arrived w = proceed (λ _. marked) (mark_test_running env job.test_id w)
  advance marked w =
      proceed (λ _. if is_configured env job.adapter then probing else rejecting)
        (mark_subtask_running env job.subtask_id w)
  advance probing w = proceed replied (probe env job.adapter (request_of job) w)
  advance (replied response) w =
      proceed (λ caps. judged (verdict job response caps) response)
        (attempt (capabilities env job.adapter) w)
  advance (judged result response) w =
      proceed (λ _. telling ExecStatus.finished result)
        (save_report env job.subtask_id result response w)
  advance rejecting w =
      proceed (λ _. telling ExecStatus.error ResultStatus.disabled)
        (mark_subtask_error env job.subtask_id (not_enabled job) w)
  advance (telling exec result) w =
      proceed (λ _. tallying) (publish env (test_channel job.test_id) (updated job exec result) w)
  advance tallying w = proceed tallied (query env (λ u. tally (of_test job.test_id u.subtasks)) w)
  advance (tallied counts) w = proceed reporting (close_if_done env job.test_id counts w)
  advance (reporting progress) w = proceed (λ _. done) (announce env job progress w)
  advance done w = (done, w)
  advance (broken e) w = (broken e, w)

  -- The task on its own, for a number of turns.
  unfoldable pub advance_by : ℕ → Stage Json × World Json → Stage Json × World Json
  advance_by zero here = here
  advance_by (suc n) (stage, w) = advance_by n (advance stage w)

pub record Task (Json : Type 0) : Type 0 where
  pub job : ProbeJob
  pub stage : Stage Json

pub record Floor (Json : Type 0) : Type 0 where
  pub tasks : List (Task Json)
  pub world : World Json

abbrev pub task_at : {Json : Type 0} → ProbeJob → Stage Json → Task Json
task_at job stage = record { job = job; stage = stage }

abbrev pub floor_of : {Json : Type 0} → List (Task Json) → World Json → Floor Json
floor_of tasks world = record { tasks = tasks; world = world }

-- The test and its subtasks are as they were.
abbrev pub IsElsewhere : {Json : Type 0} → Uuid → World Json → World Json → Type 0
IsElsewhere id w w' =
    (of_test id w'.subtasks ≡ of_test id w.subtasks)
    × (filter (λ t. t.id == id) w'.tests ≡ filter (λ t. t.id == id) w.tests)

-- Any task takes a turn, or whatever else works on the tables does something that leaves the test
-- and its subtasks alone.
pub data Step {Json : Type 0} (env : Env Json) (id : Uuid) (s : Floor Json)
    : Floor Json → Type 0 where
  turn :
      (before : List (Task Json)) (job : ProbeJob) (stage : Stage Json) (after : List (Task Json))
      → s.tasks ≡ before ++ task_at job stage ∷ after
      → Step env id s (
          floor_of
            (before ++ task_at job (advance env job stage s.world).0 ∷ after)
            (advance env job stage s.world).1)
  elsewhere : (w : World Json) → IsElsewhere id s.world w → Step env id s (floor_of s.tasks w)

pub data Runs {Json : Type 0} (env : Env Json) (id : Uuid) (s : Floor Json)
    : Floor Json → Type 0 where
  begin : Runs env id s s
  next : {t u : Floor Json} → Runs env id s t → Step env id t u → Runs env id s u

abbrev pub start : {Json : Type 0} → List ProbeJob → World Json → Floor Json
start jobs w = floor_of (map (λ job. task_at job arrived) jobs) w
