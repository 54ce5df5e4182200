-- ===== src/Worker/Kem/Run/Fresh.antt =====
-- How a KEM run whose console starts on an empty log is closed (services/worker/src/kem.rs).
use pqc_sec_inspection_cours.Prelude.{
  suc, ◌≡◌, ◌≢◌, refl, ◌⊎◌, inl, inr, false, List, [], ◌∷◌, ◌++◌, Text, All, arith, Result, ok, err,
}
use pqc_sec_inspection_cours.Domain.Status.{TaskStatus}
use pqc_sec_inspection_cours.Domain.Jobs.{KemJob, Event, KemEvent, kem_channel}
use pqc_sec_inspection_cours.Domain.Models.{KemRunLog}
use pqc_sec_inspection_cours.Worker.World.{World, Env, pure, publish}
use pqc_sec_inspection_cours.Worker.Probe.{attempt}
use pqc_sec_inspection_cours.Worker.Rules.{
  Yields-insert, Yields, Yields-bind, Yields-perform, Works, All-update_where_self,
}
use pqc_sec_inspection_cours.Worker.Kem.Console.{
  is_logged, bump_seq, insert_line, publish_line, log_line, finish_run, finish,
}
use pqc_sec_inspection_cours.Worker.Kem.Run
use pqc_sec_inspection_cours.Worker.Kem.Run.Numbering.{
  IsBelow, is_logged-suc, Fresh, run_mode-Keeps,
}

module _ {Json : Type 0} where
  -- The run's row is closed.
  abbrev pub IsClosed : KemJob → World Json → Type 0
  IsClosed job w =
      All
        (λ r. r.id ≡ job.run_id → (r.status ≡ TaskStatus.finished) ⊎ (r.status ≡ TaskStatus.failed))
        w.kem_runs

  module _ (env : Env Json) where
    module _ (job : KemJob) where
      -- The table has no line of the run.
      abbrev pub Unlogged : World Json → Type 0
      Unlogged w = All (λ l. l.run_id ≢ job.run_id) w.kem_logs

      Unlogged-IsBelow :
          (ls : List KemRunLog)
          → All (λ l. l.run_id ≢ job.run_id) ls
          → All (IsBelow job.run_id 0) ls
      Unlogged-IsBelow [] h = tt
      Unlogged-IsBelow (l ∷ ls) h = (λ e. absurd (h.0 e), Unlogged-IsBelow ls h.1)

      module _ (works_all : Works env) where
        finish-Yields :
            (status : TaskStatus) (w : World Json)
            → (status ≡ TaskStatus.finished) ⊎ (status ≡ TaskStatus.failed)
            → Yields (finish env job.run_id status) w (λ _. IsClosed job)
        unfolding finish publish
        finish-Yields status w final =
            Yields-bind _ _ w
              (Yields-perform env {Q = λ _. IsClosed job} _ w works_all (
                All-update_where_self _ _ (finish_run (suc w.clock) status) w.kem_runs
                  (λ r _. final) (λ r e same. absurd (ground arith))))
              (λ _ w' h. Yields-perform env _ w' works_all h)

        bump_seq-Yields :
            (w : World Json)
            → Fresh job.run_id w
            → Yields
                (bump_seq env job.run_id)
                w
                (λ _ w1. is_logged job.run_id w1.seq w1.kem_logs ≡ false)
        unfolding bump_seq pure
        bump_seq-Yields w h = record {
          value = tt;
          returns = refl;
          post = is_logged-suc job.run_id w.seq w.kem_logs h;
        }

        publish_line-Yields :
            (level message : Text) (w : World Json)
            → Yields (publish_line env job.run_id level message) w (λ _ _. Unit {0})
        unfolding publish_line publish
        publish_line-Yields level message w =
            let y =
              Yields-perform env {Q = λ _ _. Unit {0}}
                (λ u. record u {
                  published =
                      u.published
                      ++ (kem_channel job.run_id, Event.kem (KemEvent.log w.seq level message))
                        ∷ [];
                })
                w works_all tt in
            record { value = y.value; returns = y.returns; post = tt }

        pub log_line-Yields :
            (level message : Text) (w : World Json)
            → Fresh job.run_id w
            → Yields (Run.log env job level message) w (λ _ _. Unit {0})
        unfolding Run.log log_line insert_line
        log_line-Yields level message w h = Yields-bind _ _ w (bump_seq-Yields w h) λ _ w1 free.
            Yields-bind _ _ w1 (Yields-insert env {Q = λ _ _. Unit {0}} _ _ w1 works_all free tt)
              λ _ w2 _. publish_line-Yields level message w2

        close_run-Yields :
            (r : Result (Unit {0}) Text) (w : World Json)
            → Fresh job.run_id w
            → Yields (Run.close_run env job r) w (λ _. IsClosed job)
        unfolding Run.close_run
        close_run-Yields (ok _) w h = finish-Yields TaskStatus.finished w (inl refl)
        close_run-Yields (err e) w h =
            Yields-bind _ _ w (log_line-Yields _ _ w h)
              (λ _ w' _. finish-Yields TaskStatus.failed w' (inr refl))

        new_console-Yields :
            (w : World Json)
            → Unlogged w
            → Yields (Run.new_console env job) w (λ _. Fresh job.run_id)
        unfolding Run.new_console pure
        new_console-Yields w h = record {
          value = tt;
          returns = refl;
          post = Unlogged-IsBelow w.kem_logs h;
        }

        run_mode-Yields :
            (w : World Json)
            → Fresh job.run_id w
            → Yields (attempt (Run.run_mode env job job.mode)) w (λ _. Fresh job.run_id)
        unfolding attempt
        run_mode-Yields w h = record {
          value = (Run.run_mode env job job.mode w).0;
          returns = refl;
          post = (run_mode-Keeps env job job.mode).at w h;
        }

        -- Where every call works and the table has no line of the run yet, handling the job
        -- returns and leaves the run finished or failed, whatever the adapters answer.
        pub handle_kem-closes :
            (w : World Json) → Unlogged w → Yields (Run.handle_kem env job) w (λ _. IsClosed job)
        unfolding Run.handle_kem
        handle_kem-closes w none_logged =
            Yields-bind _ _ w (Yields-perform env {Q = λ _. Unlogged} _ w works_all none_logged)
              λ _ w1 h1. Yields-bind _ _ w1 (new_console-Yields w1 h1) λ _ w2 h2.
                Yields-bind _ _ w2 (run_mode-Yields w2 h2)
                  λ outcome w3 h3. close_run-Yields outcome w3 h3
