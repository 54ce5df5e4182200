-- ===== src/Worker/Tasks/Whole.antt =====
-- Where every call works no task is ended by an error (services/worker/src/probe.rs).
use pqc_sec_inspection_cours.Prelude.{
  refl, Bool, true, false, Option, none, some, ltb, if◌then◌else◌,
}
use pqc_sec_inspection_cours.Proto.{ProbeResponse}
use pqc_sec_inspection_cours.Domain.Status.{ResultStatus}
use pqc_sec_inspection_cours.Domain.Jobs.{Uuid, ProbeJob}
use pqc_sec_inspection_cours.Worker.World.{World, Env, Action, perform, publish}
use pqc_sec_inspection_cours.Worker.Store.{
  Tally, TestProgress, mark_test_running, mark_subtask_running, save_report, mark_subtask_error,
  close_if_done, close_test_row,
}
use pqc_sec_inspection_cours.Worker.Adapters.{is_configured}
use pqc_sec_inspection_cours.Worker.Probe.{attempt, announce}
use pqc_sec_inspection_cours.Worker.Probe.Settled.{probe-Yields}
use pqc_sec_inspection_cours.Worker.Rules.{
  Yields, Yields-pure, Yields-bind, Yields-if, Yields-perform, Yields-query, Works,
}
use pqc_sec_inspection_cours.Worker.Tasks.{
  Stage, arrived, marked, probing, rejecting, tallying, done, replied, judged, telling, tallied,
  reporting, broken, proceed, advance,
}

-- No error has ended the task.
abbrev pub IsWhole : {Json : Type 0} → Stage Json → Type 0
IsWhole (broken e) = ⊥
IsWhole arrived = Unit
IsWhole marked = Unit
IsWhole probing = Unit
IsWhole rejecting = Unit
IsWhole (replied response) = Unit
IsWhole (judged result response) = Unit
IsWhole (telling exec result) = Unit
IsWhole tallying = Unit
IsWhole (tallied counts) = Unit
IsWhole (reporting progress) = Unit
IsWhole done = Unit

module _ {Json : Type 0} (env : Env Json) (works_all : Works env) where
  unbroken :
      {A : Type 0} (next_stage : A → Stage Json) (m : Action Json A) (w : World Json)
      → Yields m w (λ _ _. Unit {0})
      → ((a : A) → IsWhole (next_stage a))
      → IsWhole (proceed next_stage (m w)).0
  unbroken next_stage m w y h = rw (y.returns, proceed) (h y.value)

  performs :
      (f : World Json → World Json) (w : World Json) → Yields (perform env f) w (λ _ _. Unit {0})
  performs f w = Yields-perform env f w works_all tt

  saved :
      (id : Uuid) (result : ResultStatus) (r : ProbeResponse Json) (w : World Json)
      → Yields (save_report env id result r) w (λ _ _. Unit {0})
  unfolding save_report
  saved id result r w = Yields-bind _ _ w (performs _ w) λ _ w1 _.
      Yields-bind _ _ w1 (performs _ w1)
        λ _ w2 _. Yields-bind _ _ w2 (performs _ w2) λ _ w3 _. performs _ w3

  closing_done :
      (id : Uuid) (counts : Tally) (w : World Json)
      → Yields (close_if_done env id counts) w (λ _ _. Unit {0})
  unfolding close_if_done close_test_row
  closing_done id counts w =
      Yields-if (ltb 0 counts.outstanding) _ _ w (λ _. Yields-pure none w tt)
        (λ _. Yields-bind _ _ w (performs _ w) λ _ w1 _. Yields-pure _ w1 tt)

  announced :
      (job : ProbeJob) (progress : Option TestProgress) (w : World Json)
      → Yields (announce env job progress) w (λ _ _. Unit {0})
  unfolding announce publish
  announced job none w = Yields-pure tt w tt
  announced job (some p) w = performs _ w

  attempted :
      {A : Type 0} (m : Action Json A) (w : World Json) → Yields (attempt m) w (λ _ _. Unit {0})
  unfolding attempt
  attempted m w = record { value = (m w).0; returns = refl; post = tt }

  pub advance-IsWhole :
      (job : ProbeJob) (stage : Stage Json) (w : World Json)
      → IsWhole stage
      → IsWhole (advance env job stage w).0
  unfolding advance mark_test_running mark_subtask_running mark_subtask_error publish
  advance-IsWhole job arrived w h = unbroken _ _ w (performs _ w) (λ _. tt)
  advance-IsWhole job marked w h =
      unbroken _ _ w (performs _ w) (λ _. either (is_configured env job.adapter))
    where
      either : (b : Bool) → IsWhole {Json = Json} (if b then probing else rejecting)
      either true = tt
      either false = tt
  advance-IsWhole job probing w h =
      unbroken replied _ w (probe-Yields env works_all job w) (λ _. tt)
  advance-IsWhole job (replied response) w h = unbroken _ _ w (attempted _ w) (λ _. tt)
  advance-IsWhole job (judged result response) w h =
      unbroken _ _ w (saved job.subtask_id result response w) (λ _. tt)
  advance-IsWhole job rejecting w h = unbroken _ _ w (performs _ w) (λ _. tt)
  advance-IsWhole job (telling exec result) w h = unbroken _ _ w (performs _ w) (λ _. tt)
  advance-IsWhole job tallying w h =
      unbroken tallied _ w (Yields-query env _ w works_all tt) (λ _. tt)
  advance-IsWhole job (tallied counts) w h =
      unbroken reporting _ w (closing_done job.test_id counts w) (λ _. tt)
  advance-IsWhole job (reporting progress) w h = unbroken _ _ w (announced job progress w) (λ _. tt)
  advance-IsWhole job done w h = tt
  advance-IsWhole job (broken e) w h = absurd h
