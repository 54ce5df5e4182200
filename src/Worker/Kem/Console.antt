-- ===== src/Worker/Kem/Console.antt =====
-- The console of a KEM run (services/worker/src/kem.rs). Its sequence number is the `seq` of the
-- world; `(run_id, seq)` is the primary key of the log lines.
use pqc_sec_inspection_cours.Prelude.{
  ℕ, suc, Bool, Option, some, List, [], ◌∷◌, ◌++◌, Text, text_eq, any, update_where, ◌==◌, ◌&&◌,
  if◌then◌else◌,
}
use pqc_sec_inspection_cours.Domain.Status.{ResultStatus, TaskStatus}
use pqc_sec_inspection_cours.Domain.Jobs.{Uuid, KemEvent, kem_channel, Event}
use pqc_sec_inspection_cours.Domain.Models.{Time, KemRun, KemRunLog, KemMatrixCell}
use pqc_sec_inspection_cours.Worker.World.{World, Env, Action, pure, ◌>>◌, perform, insert, publish}

-- `INSERT … ON CONFLICT (run_id, kem, adapter) DO UPDATE SET verdict, detail`
unfoldable pub upsert_cell : KemMatrixCell → List KemMatrixCell → List KemMatrixCell
upsert_cell c [] = c ∷ []
upsert_cell c (d ∷ ds) =
    if d.run_id == c.run_id && text_eq d.kem c.kem && text_eq d.adapter c.adapter
    then c ∷ ds
    else d ∷ upsert_cell c ds

abbrev pub finish_run : Time → TaskStatus → KemRun → KemRun
finish_run now status r = record r { status = status; finished_at = some now }

-- Is there a line with this key.
abbrev pub is_logged : Uuid → ℕ → List KemRunLog → Bool
is_logged run_id seq logs = any (λ l. l.run_id == run_id && l.seq == seq) logs

module _ {Json : Type 0} (env : Env Json) (run_id : Uuid) where
  -- `self.seq += 1`
  unfoldable pub bump_seq : Action Json (Unit {0})
  bump_seq w = pure tt (record w { seq = suc w.seq })

  abbrev pub line : Text → Text → World Json → KemRunLog
  line level message w = record {
    run_id = run_id;
    seq = w.seq;
    at = w.clock;
    level = level;
    message = message;
  }

  unfoldable pub insert_line : Text → Text → Action Json (Unit {0})
  insert_line level message =
      insert env (λ w. is_logged run_id w.seq w.kem_logs)
        (λ w. record w { kem_logs = w.kem_logs ++ line level message w ∷ [] })

  unfoldable pub publish_line : Text → Text → Action Json (Unit {0})
  publish_line level message w =
      publish env (kem_channel run_id) (Event.kem (KemEvent.log w.seq level message)) w

  -- `Console::log`
  unfoldable pub log_line : Text → Text → Action Json (Unit {0})
  log_line level message = do bump_seq; insert_line level message; publish_line level message

  -- `Console::cell`
  unfoldable pub put_cell : Text → Text → ResultStatus → Option Text → Action Json (Unit {0})
  put_cell kem adapter verdict detail = do
    perform env λ w. record w {
      kem_cells =
          upsert_cell
            (record {
              run_id = run_id;
              kem = kem;
              adapter = adapter;
              verdict = verdict;
              detail = detail;
            })
            w.kem_cells;
    }
    publish env (kem_channel run_id) (Event.kem (KemEvent.cell kem adapter verdict detail))

  -- `Console::finish`
  unfoldable pub finish : TaskStatus → Action Json (Unit {0})
  finish status = do
    perform env λ w. record w {
      kem_runs = update_where (λ r. r.id == run_id) (finish_run w.clock status) w.kem_runs;
    }
    publish env (kem_channel run_id) (Event.kem (KemEvent.finished run_id))
