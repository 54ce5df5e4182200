-- ===== src/Worker/Kem/Run/Redelivered.antt =====
-- A KEM run that is delivered again after it has written log lines (services/worker/src/kem.rs).
use pqc_sec_inspection_cours.Prelude.{
  ap, ℕ, suc, ◌≡◌, refl, ◌⊎◌, inl, inr, true, List, [], ◌∷◌, Text, All, arith, Result-cases, ok,
  err,
}
use pqc_sec_inspection_cours.Domain.Status.{
  TaskStatus, KemRunMode, library_compat, group_compat, priority,
}
use pqc_sec_inspection_cours.Domain.Jobs.{KemJob}
use pqc_sec_inspection_cours.Domain.Models.{KemRunLog}
use pqc_sec_inspection_cours.Worker.World.{World, Env, Action, pure, fail, ◌>>=◌, continue, insert}
use pqc_sec_inspection_cours.Worker.Probe.{attempt}
use pqc_sec_inspection_cours.Worker.Rules.{Yields, Yields-perform, Works, All-update_where_self}
use pqc_sec_inspection_cours.Worker.Kem.Console.{is_logged, bump_seq, insert_line, log_line}
use pqc_sec_inspection_cours.Worker.Kem.Run

module _ {Json : Type 0} where
  -- `m` fails from `w`, with `Q` of the world that it leaves.
  pub record Fails {A : Type 0} (m : Action Json A) (w : World Json) (Q : World Json → Type 0)
      : Type 0 where
    pub error : Text
    pub returns : (m w).0 ≡ err error
    pub post : Q (m w).1

  -- The run's row still says `running`.
  abbrev pub StillRunning : KemJob → World Json → Type 0
  StillRunning job w = All (λ r. r.id ≡ job.run_id → r.status ≡ TaskStatus.running) w.kem_runs

  continue-err :
      {A B : Type 0} (m : Action Json A) (f : A → Action Json B) (w : World Json) (e : Text)
      → (m w).0 ≡ err e
      → (m >>= f) w ≡ (err e, (m w).1)
  unfolding ◌>>=◌
  continue-err m f w e h = rw (h, continue) refl

  continue-ok :
      {A B : Type 0} (m : Action Json A) (f : A → Action Json B) (w : World Json) (a : A)
      → (m w).0 ≡ ok a
      → (m >>= f) w ≡ f a (m w).1
  unfolding ◌>>=◌
  continue-ok m f w a h = rw (h, continue) refl

  Fails-bind :
      {A B : Type 0} {Q : World Json → Type 0} (m : Action Json A) (f : A → Action Json B)
      (w : World Json)
      → Fails m w Q
      → Fails (m >>= f) w Q
  Fails-bind m f w h =
      let e = continue-err m f w h.error h.returns in
      record { error = h.error; returns = rw e refl; post = rw e h.post }

  Fails-after :
      {A B : Type 0} {Q : A → World Json → Type 0} {R : World Json → Type 0} (m : Action Json A)
      (f : A → Action Json B) (w : World Json)
      → Yields m w Q
      → ((a : A) (w' : World Json) → Q a w' → Fails (f a) w' R)
      → Fails (m >>= f) w R
  Fails-after m f w y k =
      let next = k y.value (m w).1 y.post in
      let e = continue-ok m f w y.value y.returns in
      record { error = next.error; returns = rw e next.returns; post = rw e next.post }

  module _ (env : Env Json) (job : KemJob) (lines : List KemRunLog) where
    -- The console has counted to `n`, the log is as it was, and the run's row says `running`.
    pub record Stuck (n : ℕ) (w : World Json) : Type 0 where
      pub counted : w.seq ≡ n
      pub log : w.kem_logs ≡ lines
      pub running : All (λ r. r.id ≡ job.run_id → r.status ≡ TaskStatus.running) w.kem_runs

    module _ (works_all : Works env) where
      bump_seq-Stuck :
          (n : ℕ) (w : World Json)
          → Stuck n w
          → Yields (bump_seq env job.run_id) w (λ _. Stuck (suc n))
      unfolding bump_seq pure
      bump_seq-Stuck n w h = record {
        value = tt;
        returns = refl;
        post = record { counted = ap suc h.counted; log = h.log; running = h.running };
      }

      insert-Fails :
          (level message : Text) (n : ℕ) (w : World Json)
          → Stuck n w
          → is_logged job.run_id n lines ≡ true
          → Fails (insert_line env job.run_id level message) w (Stuck n)
      unfolding insert_line insert
      insert-Fails level message n w h taken =
          let here : is_logged job.run_id w.seq w.kem_logs ≡ true = rw (h.counted, h.log) taken in
          record {
            error = env.duplicate_key;
            returns = rw (here, works_all w.clock, insert) refl;
            post =
                rw (here, works_all w.clock, insert)
                  (record { counted = h.counted; log = h.log; running = h.running });
          }

      -- A line whose number is taken is refused.
      log-Fails :
          (level message : Text) (n : ℕ) (w : World Json)
          → Stuck n w
          → is_logged job.run_id (suc n) lines ≡ true
          → Fails (Run.log env job level message) w (Stuck (suc n))
      unfolding Run.log log_line
      log-Fails level message n w h taken =
          Fails-after _ _ w (bump_seq-Stuck n w h)
            λ _ w1 h1. Fails-bind _ _ w1 (insert-Fails level message (suc n) w1 h1 taken)

      module _ (one : is_logged job.run_id 1 lines ≡ true)
          (two : is_logged job.run_id 2 lines ≡ true) where
        -- Stopped before or at the first line.
        abbrev Stopped : World Json → Type 0
        Stopped w = Stuck 0 w ⊎ Stuck 1 w

        first-Fails :
            (level message : Text) (w : World Json)
            → Stuck 0 w
            → Fails (Run.log env job level message) w Stopped
        first-Fails level message w h =
            let f = log-Fails level message 0 w h one in
            record { error = f.error; returns = f.returns; post = inr f.post }

        preferred-still : (cs : List Text) (w : World Json) → (Run.preferred_from env cs w).1 ≡ w
        unfolding Run.preferred_from pure fail
        preferred-still [] w = ground arith
        preferred-still (c ∷ cs) w = ground (arith, preferred-still cs w)

        -- Choosing the adapter changes nothing, and may fail.
        choose-Fails :
            (f : Text → Action Json (Unit {0})) (w : World Json)
            → Stuck 0 w
            → ((a : Text) → Fails (f a) w Stopped)
            → Fails (Run.preferred_adapter env >>= f) w Stopped
        unfolding Run.preferred_adapter
        choose-Fails f w h k =
            let same = preferred-still Run.candidates w in
            elim (Result-cases (Run.preferred_from env Run.candidates w).0) [
              | inr (e, failed) ↦
                  Fails-bind _ _ w (record { error = e; returns = failed; post = rw same (inl h) })
              | inl (a, chosen) ↦
                  Fails-after {Q = λ _ w'. w' ≡ w} _ _ w
                    (record { value = a; returns = chosen; post = same }) (λ b w' e. rw e (k b))
            ]

        run_mode-Fails :
            (mode : KemRunMode) (w : World Json)
            → Stuck 0 w
            → Fails (Run.run_mode env job mode) w Stopped
        unfolding Run.run_mode Run.library_compat_run Run.group_compat_run Run.priority_run
        run_mode-Fails library_compat w h = Fails-bind _ _ w (first-Fails _ _ w h)
        run_mode-Fails group_compat w h =
            choose-Fails _ w h (λ a. Fails-bind _ _ w (first-Fails _ _ w h))
        run_mode-Fails priority w h =
            choose-Fails _ w h (λ a. Fails-bind _ _ w (first-Fails _ _ w h))

        abbrev Begun : World Json → Type 0
        Begun w = (w.kem_logs ≡ lines) × StillRunning job w

        still :
            {n : ℕ} {m : Action Json (Unit {0})} {w : World Json}
            → Fails m w (Stuck n)
            → Fails m w (StillRunning job)
        still f = record { error = f.error; returns = f.returns; post = f.post.running }

        close_run-Fails :
            (e : Text) (w : World Json)
            → Stopped w
            → Fails (Run.close_run env job (err e)) w (StillRunning job)
        unfolding Run.close_run
        close_run-Fails e w (inl h) = Fails-bind _ _ w (still (log-Fails _ _ 0 w h one))
        close_run-Fails e w (inr h) = Fails-bind _ _ w (still (log-Fails _ _ 1 w h two))

        -- Where every call works, a job that is handled once the table has the first two lines of
        -- the run fails, and its row stays `running`.
        pub handle_kem-redelivered :
            (w : World Json)
            → w.kem_logs ≡ lines
            → Fails (Run.handle_kem env job) w (StillRunning job)
        unfolding Run.handle_kem Run.new_console pure attempt
        handle_kem-redelivered w same =
            Fails-after {Q = λ _. Begun} _ _ w
              (Yields-perform env _ w works_all (
                same,
                All-update_where_self _ _ (Run.start_run env job) w.kem_runs (λ r _. refl)
                    (λ r e id. absurd (ground arith)),
              ))
              λ _ w1 h1.
                Fails-after {Q = λ _. Stuck 0} _ _ w1
                  (record {
                    value = tt;
                    returns = refl;
                    post = record { counted = refl; log = h1.0; running = h1.1 };
                  })
                  λ _ w2 h2.
                    let f = run_mode-Fails job.mode w2 h2 in
                    Fails-after {Q = λ r w3. (r ≡ err f.error) × Stopped w3} _ _ w2
                      (record {
                        value = (Run.run_mode env job job.mode w2).0;
                        returns = refl;
                        post = (f.returns, f.post);
                      })
                      λ r w3 h3. rw h3.0 (close_run-Fails f.error w3 h3.1)
