-- ===== src/Api/KemRuns.antt =====
-- The creation of a KEM run (services/api/src/routes/kem.rs, services/api/src/queue.rs).
pub mod Created
use pqc_sec_inspection_cours.Prelude.{
  ℕ, Bool, true, false, not, ◌&&◌, Option, none, some, List, [], ◌∷◌, ◌++◌, find, is_empty, Text,
  codes, text_eq, as_u16, Result, ok, err, ok_or, reject_if,
}
use pqc_sec_inspection_cours.Domain.Status.{KemRunMode, TaskStatus}
use pqc_sec_inspection_cours.Domain.Jobs.{Uuid, KemJob}
use pqc_sec_inspection_cours.Domain.Models.{Endpoint, KemRun}
use pqc_sec_inspection_cours.Api.Errors.{not_found, conflict, bad_request}
use pqc_sec_inspection_cours.Api.Database.{
  Db, Services, Handler, pure, lift, ◌>>=◌, ◌>>◌, statement, query, push,
}

pub record NewKemRun : Type 0 where
  pub mode : KemRunMode
  pub endpoint : Text
  pub kem_groups : List Text

abbrev pub is_group_compat : KemRunMode → Bool
is_group_compat KemRunMode.group_compat = true
is_group_compat _ = false

abbrev pub job_of : KemRun → Endpoint → List Text → KemJob
job_of run endpoint groups = record {
  run_id = run.id;
  mode = run.mode;
  host = endpoint.host;
  port = as_u16 endpoint.port;
  kem_groups = groups;
}

module _ {Value : Type 0} (services : Services) where
  abbrev pub new_run : NewKemRun → Endpoint → Db Value → KemRun
  new_run body endpoint db = record {
    id = services.uuid db.clock 0;
    mode = body.mode;
    endpoint_id = endpoint.id;
    status = TaskStatus.pending;
    kem_groups = body.kem_groups;
    created_at = services.now db.clock;
    finished_at = none;
  }

  abbrev pub insert_run : NewKemRun → Endpoint → Db Value → KemRun × Db Value
  insert_run body endpoint db =
      let run = new_run body endpoint db in (run, record db { kem_runs = db.kem_runs ++ run ∷ [] })

  unfoldable pub enqueue_kem : KemJob → Handler Value (Unit {0})
  enqueue_kem job = push services (λ db. record db { kem_jobs = db.kem_jobs ++ job ∷ [] })

  unfoldable pub create_run : NewKemRun → Handler Value KemRun
  create_run body = do
    row ← query services (λ db. find (λ e. text_eq e.slug body.endpoint) db.endpoints)
    endpoint ← lift (ok_or row (not_found (codes "endpoint")))
    lift (
        reject_if (not endpoint.enabled)
          (conflict (codes "endpoint " ++ (endpoint.slug ++ codes " is disabled"))))
    lift (
        reject_if (is_group_compat body.mode && is_empty body.kem_groups)
          (bad_request (codes "select at least one key_share group")))
    run ← statement services (insert_run body endpoint)
    enqueue_kem (job_of run endpoint body.kem_groups)
    pure run
