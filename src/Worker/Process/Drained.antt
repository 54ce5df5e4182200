-- ===== src/Worker/Process/Drained.antt =====
-- The shutdown of a worker comes to its end (services/worker/src/main.rs).
use pqc_sec_inspection_cours.Prelude.{
  ℕ, ◌≡◌, refl, sym, ap, ◌∙◌, inl, inr, List, [], ◌∷◌, ◌++◌, length, append_assoc, append-nil,
  arith,
}
use pqc_sec_inspection_cours.Worker.Stream.{Delivery}
use pqc_sec_inspection_cours.Worker.Process.{
  draining, exited, Process, without, end_job, end_task, exit, job_ends, acks, exits, Runs, Reach,
  begin, next,
}
use pqc_sec_inspection_cours.Worker.Process.Permits.{Counted, Runs-Counted, Reach-Counted}

-- What a worker that is shutting down can go on to.
pub record GoesOn (concurrency : ℕ) (s : Process) (running handled finished : List Delivery)
    : Type 0 where
  pub last : Process
  pub runs : Runs concurrency s last
  pub still : last.phase ≡ draining
  pub runs_left : last.running ≡ running
  pub handled_left : last.handled ≡ handled
  pub in_end : last.finished ≡ finished

module _ (concurrency : ℕ) (s : Process) where
  -- The jobs of the tasks end one by one.
  jobs_end :
      (t : Process) (jobs : List Delivery)
      → Runs concurrency s t
      → t.phase ≡ draining
      → t.running ≡ jobs
      → (handled : List Delivery) × GoesOn concurrency s [] handled (t.finished ++ jobs)
  jobs_end t [] r p e = (
    t.handled,
    record {
      last = t;
      runs = r;
      still = p;
      runs_left = e;
      handled_left = refl;
      in_end = sym (append-nil _);
    },
  )
  jobs_end t (d ∷ jobs) r p e =
      let (handled, g) = jobs_end (end_job d jobs t) jobs (next r (job_ends [] d jobs e)) p refl in
      (
        handled,
        record {
          last = g.last;
          runs = g.runs;
          still = g.still;
          runs_left = g.runs_left;
          handled_left = g.handled_left;
          in_end = g.in_end ∙ append_assoc t.finished (d ∷ []) jobs;
        },
      )

  -- They are acknowledged one by one.
  tasks_end :
      (t : Process) (handled : List Delivery)
      → Runs concurrency s t
      → t.phase ≡ draining
      → t.running ≡ []
      → t.handled ≡ handled
      → GoesOn concurrency s [] [] t.finished
  tasks_end t [] r p none e = record {
    last = t;
    runs = r;
    still = p;
    runs_left = none;
    handled_left = e;
    in_end = refl;
  }
  tasks_end t (d ∷ handled) r p none e =
      tasks_end (end_task handled (without d t.pending) t) handled (next r (acks [] d handled e)) p
        none refl

no_permit_out :
    (concurrency : ℕ) (t : Process)
    → Counted concurrency t
    → t.phase ≡ draining
    → t.running ≡ []
    → t.handled ≡ []
    → t.permits ≡ concurrency
no_permit_out concurrency t (inl c) p r h = absurd (cc (c.0, p))
no_permit_out concurrency t (inr c) p r h =
    let no_running = ap length r in let no_handled = ap length h in omega arith

-- A worker that was told to stop can always come to its exit, with all the jobs that were under
-- way handled.
pub Reach-drained :
    {concurrency : ℕ} {pending finished : List Delivery} {s : Process}
    → Reach concurrency pending finished s
    → s.phase ≡ draining
    → (t : Process) × Runs concurrency s t
      × (t.phase ≡ exited)
      × (t.finished ≡ s.finished ++ s.running)
Reach-drained {concurrency} {s} r p =
    let (_, jobs) = jobs_end concurrency s s s.running begin p refl in
    let tasks =
      tasks_end concurrency s jobs.last jobs.last.handled jobs.runs jobs.still jobs.runs_left
        refl in
    let full =
      no_permit_out concurrency tasks.last (Runs-Counted tasks.runs (Reach-Counted r)) tasks.still
        tasks.runs_left tasks.handled_left in
    (exit tasks.last, next tasks.runs (exits tasks.still full), refl, tasks.in_end ∙ jobs.in_end)
