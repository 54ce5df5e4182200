-- ===== src/Tests/Tasks.antt =====
-- Two jobs of one test, turn about: each sees the other's row running until it is stored.
use pqc_sec_inspection_cours.Prelude.{
  ℕ, zero, suc, ◌≡◌, refl, inl, inr, [], ◌∷◌, All, codes, text_eq,
}
use pqc_sec_inspection_cours.Domain.Jobs.{ProbeJob}
use pqc_sec_inspection_cours.Worker.World.{World, ◌>>=◌, pure, perform, query, publish}
use pqc_sec_inspection_cours.Worker.Store.{
  mark_test_running, mark_subtask_running, save_report, close_if_done, close_test_row, tally,
}
use pqc_sec_inspection_cours.Worker.Adapters.{
  lookup, is_configured, read_reply, remember, capabilities, probe,
}
use pqc_sec_inspection_cours.Worker.Probe.{attempt, announce}
use pqc_sec_inspection_cours.Worker.Closing.{IsOver}
use pqc_sec_inspection_cours.Worker.Tasks.{
  Stage, arrived, done, Task, Floor, advance, task_at, floor_of, turn, Runs, begin, next, start,
}
use pqc_sec_inspection_cours.Worker.Tasks.Tables.{AllOver, AllClosed}
use pqc_sec_inspection_cours.Worker.Tasks.Closed.{Runs-closes}
use pqc_sec_inspection_cours.Worker.Tasks.Progress.{Runs-ends}
use pqc_sec_inspection_cours.Tests.Worker.{env, world, queued, job_for}

abbrev one : ProbeJob
one = job_for (codes "openssl")

abbrev two : ProbeJob
two = record one { subtask_id = 11 }

abbrev both : World (Unit {0})
both = record world { subtasks = queued ∷ record queued { id = 11 } ∷ [] }

-- The two take turns.
alternate : ℕ → Stage (Unit {0}) → Stage (Unit {0}) → World (Unit {0}) → Floor (Unit {0})
alternate zero p q w = floor_of (task_at one p ∷ task_at two q ∷ []) w
alternate (suc n) p q w =
    let (p', u) = advance env one p w in let (q', v) = advance env two q u in alternate n p' q' v

alternate_runs :
    (n : ℕ) (p q : Stage (Unit {0})) (w : World (Unit {0}))
    → Runs env 1 (start (one ∷ two ∷ []) both) (floor_of (task_at one p ∷ task_at two q ∷ []) w)
    → Runs env 1 (start (one ∷ two ∷ []) both) (alternate n p q w)
unfolding alternate
alternate_runs zero p q w r = r
alternate_runs (suc n) p q w r = alternate_runs n _ _ _ (
    next (next r (turn [] one p (task_at two q ∷ []) refl))
      (turn (task_at one (advance env one p w).0 ∷ []) two q [] refl))

queued_first : ¬ IsOver queued
queued_first (inl e) = cc
queued_first (inr e) = cc

abbrev ended : Floor (Unit {0})
ended = alternate 9 arrived arrived both

ended_reached : Runs env 1 (start (one ∷ two ∷ []) both) ended
ended_reached = alternate_runs 9 arrived arrived both begin

all_ended : All (λ (k : Task (Unit {0})). k.stage ≡ done) ended.tasks
unfolding alternate advance mark_test_running mark_subtask_running save_report close_if_done
    close_test_row perform query publish ◌>>=◌ pure lookup is_configured text_eq codes read_reply
    remember capabilities probe attempt announce tally
all_ended = (refl, (refl, tt))

Runs-closes_example : AllOver 1 ended.world.subtasks × AllClosed 1 ended.world.tests
Runs-closes_example =
    Runs-closes env 1 (one ∷ two ∷ []) both ended (refl, (refl, tt))
      (inr (inl refl), (inr (inr (inl refl)), tt)) (λ h. absurd (queued_first h.0)) ended_reached
      all_ended

Runs-ends_example :
    (t : Floor (Unit {0})) × Runs env 1 (start (one ∷ two ∷ []) both) t
    × All (λ k. k.stage ≡ done) t.tasks
    × AllOver 1 t.world.subtasks
    × AllClosed 1 t.world.tests
Runs-ends_example =
    Runs-ends env (λ n. refl) 1 (one ∷ two ∷ []) both (start (one ∷ two ∷ []) both)
      (refl, (refl, tt)) (inr (inl refl), (inr (inr (inl refl)), tt))
      (λ h. absurd (queued_first h.0)) begin
