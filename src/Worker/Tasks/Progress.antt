-- ===== src/Worker/Tasks/Progress.antt =====
-- Every task can come to its end (services/worker/src/probe.rs), from wherever the tasks stand.
use pqc_sec_inspection_cours.Prelude.{
  ℕ, zero, suc, ◌≤◌, ◌≡◌, refl, sym, List, [], ◌∷◌, ◌++◌, All, All-append, append_assoc, arith,
  subst,
}
use pqc_sec_inspection_cours.Domain.Jobs.{Uuid, ProbeJob}
use pqc_sec_inspection_cours.Worker.World.{World, Env}
use pqc_sec_inspection_cours.Worker.Store.{of_test}
use pqc_sec_inspection_cours.Worker.Rules.{Works}
use pqc_sec_inspection_cours.Worker.Tasks.{
  Stage, arrived, marked, probing, rejecting, tallying, done, replied, judged, telling, tallied,
  reporting, broken, advance, Task, Floor, task_at, floor_of, Step, turn, elsewhere, Runs, begin,
  next, start,
}
use pqc_sec_inspection_cours.Worker.Tasks.Alone.{rank, rank-advance}
use pqc_sec_inspection_cours.Worker.Tasks.Tables.{AllOver, AllClosed}
use pqc_sec_inspection_cours.Worker.Tasks.Watched.{All-here, All-replace}
use pqc_sec_inspection_cours.Worker.Tasks.Closed.{Runs-closes}
use pqc_sec_inspection_cours.Worker.Probe.Due.{IsDue}
use pqc_sec_inspection_cours.Worker.Tasks.Whole.{IsWhole, advance-IsWhole}

module _ {Json : Type 0} (env : Env Json) (works_all : Works env) where
  abbrev Whole : Floor Json → Type 0
  Whole s = All (λ k. IsWhole k.stage) s.tasks

  Step-Whole : (id : Uuid) {s t : Floor Json} → Step env id s t → Whole s → Whole t
  Step-Whole id {s} (turn before job stage after e) h =
      let here = subst (All (λ k. IsWhole k.stage)) e h in
      All-replace (λ k. IsWhole k.stage) before (task_at job stage)
        (task_at job (advance env job stage s.world).0) after
        (advance-IsWhole env works_all job stage s.world
          (All-here (λ k. IsWhole k.stage) before (task_at job stage) after here))
        here
  Step-Whole id (elsewhere w e) h = h

  Runs-Whole : (id : Uuid) {s t : Floor Json} → Runs env id s t → Whole s → Whole t
  Runs-Whole id begin h = h
  Runs-Whole id (next r step) h = Step-Whole id step (Runs-Whole id r h)

  start-Whole : (jobs : List ProbeJob) (w : World Json) → Whole (start jobs w)
  start-Whole [] w = tt
  start-Whole (job ∷ jobs) w = (tt, start-Whole jobs w)

  Runs-append :
      (id : Uuid) {s t u : Floor Json} → Runs env id s t → Runs env id t u → Runs env id s u
  Runs-append id r begin = r
  Runs-append id r (next q step) = next (Runs-append id r q) step

  at_rest : (stage : Stage Json) → rank stage ≤ 0 → IsWhole stage → stage ≡ done
  at_rest done h whole = refl
  at_rest (broken e) h whole = absurd whole
  at_rest arrived h whole = absurd (omega arith)
  at_rest marked h whole = absurd (omega arith)
  at_rest probing h whole = absurd (omega arith)
  at_rest rejecting h whole = absurd (omega arith)
  at_rest (replied response) h whole = absurd (omega arith)
  at_rest (judged result response) h whole = absurd (omega arith)
  at_rest (telling exec result) h whole = absurd (omega arith)
  at_rest tallying h whole = absurd (omega arith)
  at_rest (tallied counts) h whole = absurd (omega arith)
  at_rest (reporting progress) h whole = absurd (omega arith)

  rank_bound : (stage : Stage Json) → rank stage ≤ 9
  rank_bound arrived = omega arith
  rank_bound marked = omega arith
  rank_bound probing = omega arith
  rank_bound rejecting = omega arith
  rank_bound (replied response) = omega arith
  rank_bound (judged result response) = omega arith
  rank_bound (telling exec result) = omega arith
  rank_bound tallying = omega arith
  rank_bound (tallied counts) = omega arith
  rank_bound (reporting progress) = omega arith
  rank_bound done = omega arith
  rank_bound (broken e) = omega arith

  module _ (id : Uuid) (s : Floor Json) where
    abbrev ComesTo : List (Task Json) → Type 0
    ComesTo tasks = (w : World Json) × Runs env id s (floor_of tasks w)

    -- One task takes its turns.
    task_ends :
        (n : ℕ) (before : List (Task Json)) (job : ProbeJob) (stage : Stage Json)
        (after : List (Task Json)) (w : World Json)
        → rank stage ≤ n
        → IsWhole stage
        → Runs env id s (floor_of (before ++ task_at job stage ∷ after) w)
        → ComesTo (before ++ task_at job done ∷ after)
    task_ends zero before job stage after w h whole r = (
      w,
      subst (λ q. Runs env id s (floor_of (before ++ task_at job q ∷ after) w))
          (at_rest stage h whole) r,
    )
    task_ends (suc n) before job stage after w h whole r =
        task_ends n before job (advance env job stage w).0 after (advance env job stage w).1
          (rank-advance env job n stage w h) (advance-IsWhole env works_all job stage w whole)
          (next r (turn before job stage after refl))

    -- The tasks take their turns one after the other.
    tasks_end :
        (before tasks : List (Task Json)) (w : World Json)
        → All (λ k. k.stage ≡ done) before
        → All (λ k. IsWhole k.stage) tasks
        → Runs env id s (floor_of (before ++ tasks) w)
        → (t : Floor Json) × Runs env id s t × All (λ k. k.stage ≡ done) t.tasks
    tasks_end before [] w rest whole r =
        (floor_of (before ++ []) w, r, All-append _ before [] rest tt)
    tasks_end before (k ∷ tasks) w rest whole r =
        let (u, q) = task_ends 9 before k.job k.stage tasks w (rank_bound k.stage) whole.0 r in
        tasks_end (before ++ task_at k.job done ∷ []) tasks u
          (All-append _ before (task_at k.job done ∷ []) rest (refl, tt)) whole.1
          (subst (λ all_tasks. Runs env id s (floor_of all_tasks u))
            (sym (append_assoc before (task_at k.job done ∷ []) tasks)) q)

  -- Where every call works: from wherever the tasks of a test's jobs stand, in whatever order their
  -- turns came and whatever work on the tables, that left the test and its subtasks alone, came
  -- between them, they can all come to their end, and then each row of the test is finished or has
  -- erred and the test is `finished` or `failed`. Each row of the test was over at first or had one
  -- of the jobs, and the test was closed if all were over.
  pub Runs-ends :
      (id : Uuid) (jobs : List ProbeJob) (w : World Json) (s : Floor Json)
      → All (λ j. j.test_id ≡ id) jobs
      → All (IsDue jobs) (of_test id w.subtasks)
      → (AllOver id w.subtasks → AllClosed id w.tests)
      → Runs env id (start jobs w) s
      → (t : Floor Json) × Runs env id s t
        × All (λ k. k.stage ≡ done) t.tasks
        × AllOver id t.world.subtasks
        × AllClosed id t.world.tests
  Runs-ends id jobs w s own due closed r =
      let (t, more, all_done) =
        tasks_end id s [] s.tasks s.world tt (Runs-Whole id r (start-Whole jobs w)) begin in
      let ended = Runs-closes env id jobs w t own due closed (Runs-append id r more) all_done in
      (t, more, all_done, ended.0, ended.1)
