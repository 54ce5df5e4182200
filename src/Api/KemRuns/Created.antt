-- ===== src/Api/KemRuns/Created.antt =====
-- What the creation of a KEM run leaves.
use pqc_sec_inspection_cours.Prelude.{
  arith, suc, none, Text, List, as_u16, ℕ, Bool, true, ◌≡◌, refl, some, not, ◌⊎◌, inl, inr, false,
  [], ◌∷◌, ◌++◌, ◌&&◌, find, is_empty, text_eq, ok_or-eq-ok, Result, ok, err,
}
use pqc_sec_inspection_cours.Domain.Status.{TaskStatus}
use pqc_sec_inspection_cours.Domain.Models.{Endpoint, KemRun}
use pqc_sec_inspection_cours.Api.Errors.{reject_if-eq-ok, reject_if-eq-err, ok_or-eq-err, ApiError}
use pqc_sec_inspection_cours.Api.Database.{Db, Services, tick}
use pqc_sec_inspection_cours.Api.Outcome.{
  Holds, Holds-lift, Holds-query, Holds-statement, Holds-push, Holds-pure, lost-ne-works,
  FailedCall,
}
use pqc_sec_inspection_cours.Api.KemRuns.{
  new_run, NewKemRun, is_group_compat, create_run, enqueue_kem,
}

enabled_of : (b : Bool) → not b ≡ false → b ≡ true
enabled_of true h = refl
enabled_of false h = cc

disabled_of : (b : Bool) → not b ≡ true → b ≡ false
disabled_of true h = cc
disabled_of false h = refl

module _ {Value : Type 0} (services : Services) (body : NewKemRun) where
  -- The run has been added, pending, for the enabled endpoint of that name.
  pub record IsInserted (db : Db Value) (run : KemRun) (endpoint : Endpoint) (after : Db Value)
      : Type 0 where
    pub found : find (λ e. text_eq e.slug body.endpoint) db.endpoints ≡ some endpoint
    pub enabled : endpoint.enabled ≡ true
    pub at_endpoint : run.endpoint_id ≡ endpoint.id
    pub in_mode : run.mode ≡ body.mode
    pub asks : (is_group_compat body.mode && is_empty body.kem_groups) ≡ false
    pub pending : run.status ≡ TaskStatus.pending
    pub groups : run.kem_groups ≡ body.kem_groups
    pub runs : after.kem_runs ≡ db.kem_runs ++ run ∷ []

  -- Why no run is added.
  pub data Refused (db : Db Value) (until : ℕ) : Type 0 where
    no_endpoint : find (λ e. text_eq e.slug body.endpoint) db.endpoints ≡ none → Refused db until
    disabled :
        (endpoint : Endpoint)
        → find (λ e. text_eq e.slug body.endpoint) db.endpoints ≡ some endpoint
        → endpoint.enabled ≡ false
        → Refused db until
    no_group : is_group_compat body.mode ≡ true → body.kem_groups ≡ [] → Refused db until
    call_failed : FailedCall services db.clock until → Refused db until

  abbrev pub Queued : Db Value → KemRun → Endpoint → Db Value → Type 0
  Queued db run endpoint after =
      after.kem_jobs
      ≡ db.kem_jobs
        ++ record {
          run_id = run.id;
          mode = body.mode;
          host = endpoint.host;
          port = as_u16 endpoint.port;
          kem_groups = body.kem_groups;
        }
          ∷ []

  abbrev pub Unqueued : Db Value → Db Value → Type 0
  Unqueued db after = after.kem_jobs ≡ db.kem_jobs

  abbrev pub Created : Db Value → Result KemRun ApiError → Db Value → Type 0
  Created db (ok run) after =
      (endpoint : Endpoint) × IsInserted db run endpoint after × Queued db run endpoint after
  Created db (err e) after =
      ((after.kem_runs ≡ db.kem_runs) × Unqueued db after × Refused db after.clock)
      ⊎ ((run : KemRun) × (endpoint : Endpoint) × IsInserted db run endpoint after
          × (Unqueued db after ⊎ Queued db run endpoint after)
          × FailedCall services db.clock after.clock)

  -- Whatever calls fail on the way: a run is answered only when its row was added and one job for
  -- it was queued. The row is pending, and is for the enabled endpoint of the name in the request,
  -- with its mode and its groups; a compatibility test has a group to ask for. When an error is
  -- answered, nothing has changed, and no endpoint has the name, it is disabled, a compatibility
  -- test has no group or a call failed; or a call failed, such a row was added and the job was
  -- queued or was not.
  pub create_run-Created : (db : Db Value) → Holds (Created db) (create_run services body) db
  unfolding create_run enqueue_kem
  create_run-Created db =
      Holds-query _ _ services _ db
        (Holds-lift _ _ _ _
          (λ endpoint found.
            Holds-lift _ _ _ _
              (λ _ enabled.
                Holds-lift _ _ _ _
                  (λ _ asks.
                    let run = new_run services body endpoint (tick (tick db)) in
                    let row : (after : Db Value)
                        → after.kem_runs ≡ db.kem_runs ++ run ∷ []
                        → IsInserted db run endpoint after =
                      λ after runs. record {
                        found = ok_or-eq-ok _ _ found;
                        enabled = enabled_of _ (reject_if-eq-ok _ _ enabled);
                        at_endpoint = refl;
                        in_mode = refl;
                        asks = reject_if-eq-ok _ _ asks;
                        pending = refl;
                        groups = refl;
                        runs = runs;
                      } in
                    Holds-statement _ _ services _ _
                      (Holds-push _ _ services _ _ (Holds-pure _ _ _ (endpoint, row _ refl, refl))
                        (λ e f. inr (
                          run,
                          endpoint,
                          row _ refl,
                          inl refl,
                          (record {
                            call = suc (suc db.clock);
                            after_since = omega arith;
                            before_until = omega arith;
                            fails = f;
                          }),
                        ))
                        (λ m f. inr (
                          run,
                          endpoint,
                          row _ refl,
                          inr refl,
                          (record {
                            call = suc (suc db.clock);
                            after_since = omega arith;
                            before_until = omega arith;
                            fails = lost-ne-works _ m f;
                          }),
                        )))
                      (λ e f. refuses (
                        call_failed (record {
                          call = suc db.clock;
                          after_since = omega arith;
                          before_until = omega arith;
                          fails = f;
                        })))
                      (λ m f. inr (
                        run,
                        endpoint,
                        row _ refl,
                        inl refl,
                        (record {
                          call = suc db.clock;
                          after_since = omega arith;
                          before_until = omega arith;
                          fails = lost-ne-works _ m f;
                        }),
                      )))
                  (λ e h. refuses (
                    no_groups (is_group_compat body.mode) body.kem_groups (reject_if-eq-err _ _ _ h)
                      no_group)))
              (λ e h. refuses (
                disabled endpoint (ok_or-eq-ok _ _ found)
                  (disabled_of _ (reject_if-eq-err _ _ _ h)))))
          (λ e h. refuses (no_endpoint (ok_or-eq-err _ _ _ h))))
        (λ e f. refuses (
          call_failed (record {
            call = db.clock;
            after_since = omega arith;
            before_until = omega arith;
            fails = f;
          })))
    where
      refuses :
          {A : Type 0} {until : ℕ}
          → Refused db until
          → ((db.kem_runs ≡ db.kem_runs) × (db.kem_jobs ≡ db.kem_jobs) × Refused db until) ⊎ A
      refuses r = inl (refl, refl, r)

      no_groups :
          {A : Type 0} (compat : Bool) (asked : List Text)
          → (compat && is_empty asked) ≡ true
          → (compat ≡ true → asked ≡ [] → A)
          → A
      no_groups true [] h k = k refl refl
      no_groups true (g ∷ asked) h k = absurd (cc h)
      no_groups false asked h k = absurd (cc h)
