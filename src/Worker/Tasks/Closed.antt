-- ===== src/Worker/Tasks/Closed.antt =====
-- The tasks of a test together (services/worker/src/main.rs, probe.rs and store.rs), in every order
-- of their turns.
use pqc_sec_inspection_cours.Prelude.{
  ◌≡◌, inl, inr, List, [], ◌∷◌, map, All, All-imp, Some, ◌==◌, subst,
}
use pqc_sec_inspection_cours.Domain.Jobs.{Uuid, ProbeJob}
use pqc_sec_inspection_cours.Worker.World.{World, Env}
use pqc_sec_inspection_cours.Worker.Store.{of_test}
use pqc_sec_inspection_cours.Worker.Closing.{IsOver}
use pqc_sec_inspection_cours.Worker.Probe.Due.{IsDue, All-filter, filter-All}
use pqc_sec_inspection_cours.Worker.Tasks.{Stage, arrived, done, Task, Floor, task_at, Runs, start}
use pqc_sec_inspection_cours.Worker.Tasks.Tables.{AllOver, AllClosed}
use pqc_sec_inspection_cours.Worker.Tasks.Turns.{IsOpen, WillClose}
use pqc_sec_inspection_cours.Worker.Tasks.Watched.{HasOpen, Watched, Runs-Watched}

module _ {Json : Type 0} where
  module _ (env : Env Json) where
    own_tasks :
        (id : Uuid) (jobs : List ProbeJob)
        → All (λ j. j.test_id ≡ id) jobs
        → All (λ (k : Task Json). k.job.test_id ≡ id) (map (λ j. task_at j arrived) jobs)
    own_tasks id [] h = tt
    own_tasks id (job ∷ jobs) h = (h.0, own_tasks id jobs h.1)

    open_in :
        (i : Uuid) (jobs : List ProbeJob)
        → Some (λ j. j.subtask_id ≡ i) jobs
        → Some (HasOpen {Json = Json} i) (map (λ j. task_at j arrived) jobs)
    open_in i [] m = m
    open_in i (job ∷ jobs) (inl e) = inl (tt, e)
    open_in i (job ∷ jobs) (inr m) = inr (open_in i jobs m)

    pub start-Watched :
        (id : Uuid) (jobs : List ProbeJob) (w : World Json)
        → All (λ j. j.test_id ≡ id) jobs
        → All (IsDue jobs) (of_test id w.subtasks)
        → (AllOver id w.subtasks → AllClosed id w.tests)
        → Watched id (start jobs w)
    start-Watched id jobs w own due closed = record {
      own = own_tasks id jobs own;
      rows =
          All-imp
            (λ r d same. elim (d same) [ inl over ↦ inl over | inr m ↦ inr (open_in r.id jobs m) ])
            w.subtasks (filter-All (IsDue jobs) (λ r. r.test_id == id) w.subtasks due);
      closing = λ over. inl (closed over);
    }

    none_of :
        (P : Stage Json → Type 0) (tasks : List (Task Json))
        → ¬ P done
        → All (λ k. k.stage ≡ done) tasks
        → ¬ Some (λ k. P k.stage) tasks
    none_of P [] not_done h m = m
    none_of P (k ∷ tasks) not_done h (inl p) = not_done (subst P h.0 p)
    none_of P (k ∷ tasks) not_done h (inr m) = none_of P tasks not_done h.1 m

    open_none :
        (i : Uuid) (tasks : List (Task Json))
        → All (λ k. k.stage ≡ done) tasks
        → ¬ Some (HasOpen i) tasks
    open_none i [] h m = m
    open_none i (k ∷ tasks) h (inl p) = subst IsOpen h.0 p.0
    open_none i (k ∷ tasks) h (inr m) = open_none i tasks h.1 m

    pub Watched-done :
        (id : Uuid) (s : Floor Json)
        → Watched id s
        → All (λ k. k.stage ≡ done) s.tasks
        → AllOver id s.world.subtasks × AllClosed id s.world.tests
    Watched-done id s h all_done =
        let over =
          All-filter IsOver (λ r. r.test_id == id) s.world.subtasks
            (All-imp
              (λ r d same. elim (d same) [
                | inl over ↦ over
                | inr m ↦ absurd (open_none r.id s.tasks all_done m)
              ])
              s.world.subtasks h.rows) in
        (
          over,
          elim (h.closing over) [
            | inl closed ↦ closed
            | inr m ↦ absurd (none_of WillClose s.tasks (λ b. b) all_done m)
          ],
        )

    -- The tasks of a test's jobs take their turns in any order, work on the tables that leaves the
    -- test and its subtasks alone comes between them, and calls may fail. Each row of the test is
    -- over at first or has one of the jobs, and the test is closed if all are over. Then, once
    -- every task has come to its end without an error, each row of the test is finished or has
    -- erred and the test is `finished` or `failed`.
    pub Runs-closes :
        (id : Uuid) (jobs : List ProbeJob) (w : World Json) (s : Floor Json)
        → All (λ j. j.test_id ≡ id) jobs
        → All (IsDue jobs) (of_test id w.subtasks)
        → (AllOver id w.subtasks → AllClosed id w.tests)
        → Runs env id (start jobs w) s
        → All (λ k. k.stage ≡ done) s.tasks
        → AllOver id s.world.subtasks × AllClosed id s.world.tests
    Runs-closes id jobs w s own due closed runs all_done =
        Watched-done id s (Runs-Watched env id runs (start-Watched id jobs w own due closed))
          all_done
