-- ===== src/System.antt =====
-- The API and the worker on one database: the API creates a test
-- (services/api/src/routes/tests.rs) and the worker handles the jobs that were queued for it
-- (services/worker/src/probe.rs).
pub mod Queued
use mathlib.Core.List.{append_cancel_left}
use pqc_sec_inspection_cours.Prelude.{
  ◌≡◌, ◌≢◌, refl, sym, ap, ◌∙◌, subst, inl, inr, ℕ, List, [], ◌∷◌, ◌++◌, map, filter, All, Some,
  Text, ◌==◌, ==_iff, false, Bool-cases, ok, Result,
}
use pqc_sec_inspection_cours.Domain.Jobs.{Uuid, ProbeJob, KemJob}
use pqc_sec_inspection_cours.Worker.Stream.{Delivery}
use pqc_sec_inspection_cours.Worker.Delivery.Batch.{
  AllAcked, AllCarry, Remains, deliver_all, deliver_all-Remains, deliver_all-closes,
}
use pqc_sec_inspection_cours.Domain.Models.{Test, Subtask}
use pqc_sec_inspection_cours.Api.Database.{Db, Services}
use pqc_sec_inspection_cours.Api.Outcome.{Holds}
use pqc_sec_inspection_cours.Api.Selection.{dedupe}
use pqc_sec_inspection_cours.Api.Grid.{NewRow, along, expand_from, expand}
use pqc_sec_inspection_cours.Api.Creation.{NewTest}
use pqc_sec_inspection_cours.Api.Tests.{Settings, job_of, create_test}
use pqc_sec_inspection_cours.Api.Tests.Atomic.{
  Fills, jobs_of, ReturnsRows, Atomic, create_test-Atomic,
}
use pqc_sec_inspection_cours.Api.Tests.Shown.{Fills-maps, IsFresh, filter-fresh}
use pqc_sec_inspection_cours.Worker.World.{World, Env}
use pqc_sec_inspection_cours.Worker.Store.{of_test}
use pqc_sec_inspection_cours.Worker.Rules.{Works, Yields, Yields-weaken}
use pqc_sec_inspection_cours.Worker.Closing.{IsOver}
use pqc_sec_inspection_cours.Worker.Probe.Due.{IsDue}
use pqc_sec_inspection_cours.Worker.Probe.Ended.{IsClosed, Yields-kept}
use pqc_sec_inspection_cours.Worker.Probe.Completed.{handle_all, handle_all-closes}
use pqc_sec_inspection_cours.Worker.Probe.Kept.{ids_of, Listed, handle_all-Keeps}
use pqc_sec_inspection_cours.System.Queued.{ReturnsAll, AllServed, served-IsDue, create_test-Queued}

-- The jobs close the test, where there is one at least.
jobs-close :
    {Json : Type 0} (env : Env Json) (works_all : Works env) (id : Uuid) (jobs : List ProbeJob)
    (rows : List Subtask) (w : World Json)
    → rows ≢ []
    → All (λ j. j.test_id ≡ id) jobs
    → AllServed jobs rows
    → of_test id w.subtasks ≡ rows
    → Yields (handle_all env jobs) w (λ _ w'.
      All IsOver (of_test id w'.subtasks) × All IsClosed (filter (λ t. t.id == id) w'.tests))
jobs-close env works_all id jobs [] w some_row own served same = absurd (some_row refl)
jobs-close env works_all id [] (row ∷ rows) w some_row own served same = absurd (served.0)
jobs-close env works_all id (job ∷ jobs) (row ∷ rows) w some_row own served same =
    handle_all-closes env works_all id job jobs w own
      (subst (All (IsDue (job ∷ jobs))) (sym same) (served-IsDue (job ∷ jobs) (row ∷ rows) served))

module _ {Json : Type 0} (env : Env Json) (probe_job : Text → Result ProbeJob Text)
    (kem_job : Text → Result KemJob Text) where
  deliveries-close :
      (works_all : Works env) (id : Uuid) (ds : List Delivery) (jobs : List ProbeJob)
      (rows : List Subtask) (w : World Json)
      → rows ≢ []
      → All (λ j. j.test_id ≡ id) jobs
      → AllServed jobs rows
      → of_test id w.subtasks ≡ rows
      → AllCarry probe_job ds jobs
      → Yields (deliver_all probe_job kem_job env ds) w (λ _ w'.
        AllAcked ds w'.acked
        × All IsOver (of_test id w'.subtasks)
        × All IsClosed (filter (λ t. t.id == id) w'.tests))
  deliveries-close works_all id ds jobs [] w some_row own served same c = absurd (some_row refl)
  deliveries-close works_all id ds [] (row ∷ rows) w some_row own served same c = absurd (served.0)
  deliveries-close works_all id [] (job ∷ jobs) (row ∷ rows) w some_row own served same c = absurd c
  deliveries-close works_all id (d ∷ ds) (job ∷ jobs) (row ∷ rows) w some_row own served same c =
      deliver_all-closes probe_job kem_job env works_all id d ds job jobs w c own (
        subst (All (IsDue (job ∷ jobs))) (sym same) (served-IsDue (job ∷ jobs) (row ∷ rows) served))

-- The test of a list of tests, closed.
abbrev pub HasClosed : Uuid → List Test → Type 0
HasClosed id tests = Some (λ t. (t.id ≡ id) × IsClosed t) tests

found_closed :
    (id : Uuid) (tests : List Test)
    → Some (λ i. i ≡ id) (ids_of tests)
    → All IsClosed (filter (λ t. t.id == id) tests)
    → HasClosed id tests
found_closed id [] there h = there
found_closed id (t ∷ tests) there h = elim (Bool-cases (t.id == id)) [
  | inl e ↦
      let closed : IsClosed t × All IsClosed (filter (λ u. u.id == id) tests) = (rw e at h) in
      inl ((==_iff t.id id).0 e, closed.0)
  | inr e ↦ inr (found_closed id tests (later e there) (rw e at h))
]
  where
    later :
        (t.id == id) ≡ false
        → Some (λ i. i ≡ id) (ids_of (t ∷ tests))
        → Some (λ i. i ≡ id) (ids_of tests)
    later e (inl same) = absurd (cc (e, (==_iff t.id id).1 same))
    later e (inr more) = more

module _ {Value Json : Type 0} (services : Services) (settings : Settings) (body : NewTest)
    (env : Env Json) where
  -- A test that the API created is brought to its end by the worker: the identifier of the test
  -- had no subtask before, `RETURNING` lists the rows that were inserted and no others, the
  -- selection is not empty once it is cleaned, and the worker works on the rows that the API left
  -- with every call working. Then jobs were queued with which, handled one after the other, each
  -- subtask of the test comes to be finished or to have erred, and the test to be `finished` or
  -- `failed`, whatever the adapters answer.
  pub create_test-handle_all :
      (db : Db Value) (test : Test) (w : World Json)
      → ReturnsRows services
      → ReturnsAll services
      → dedupe body.groups ≢ []
      → dedupe body.sig_algs ≢ []
      → (create_test services settings body db).0 ≡ ok test
      → IsFresh test.id db.subtasks
      → Works env
      → w.subtasks ≡ (create_test services settings body db).1.subtasks
      → w.tests ≡ (create_test services settings body db).1.tests
      → (jobs : List ProbeJob) × ((create_test services settings body db).1.probe_jobs
          ≡ db.probe_jobs ++ jobs)
        × Yields
            (handle_all env jobs)
            w
            (λ _ w'. All IsOver (of_test test.id w'.subtasks) × HasClosed test.id w'.tests)
  create_test-handle_all db test w returns all some_group some_alg created fresh works_all shared
        tests =
      let q =
        create_test-Queued services settings body db test w returns all some_group some_alg created
          fresh shared tests in
      let closes =
        jobs-close env works_all test.id q.jobs q.rows w q.some_row q.own q.served q.listed in
      (
        q.jobs,
        q.queued,
        Yields-weaken _ w
            (λ _ w' h. (
              (h.0).0,
              found_closed test.id w'.tests
                  (subst (λ ids. Some (λ i. i ≡ test.id) ids) (sym (h.1).0) q.there) ((h.0).1),
            ))
            (Yields-kept (Listed env (ids_of w.tests) w.acked) (handle_all env q.jobs) w
              (handle_all-Keeps env (ids_of w.tests) w.acked q.jobs) (refl, refl) closes),
      )

  module _ (probe_job : Text → Result ProbeJob Text) (kem_job : Text → Result KemJob Text) where
    -- A test that the API created is brought to its end by the worker: the identifier of the test
    -- had no subtask before, `RETURNING` lists the rows that were inserted and no others, the
    -- selection is not empty once it is cleaned, and the worker works on the rows that the API left
    -- with every call working. Entries of the stream carry the jobs that were queued for the test.
    -- When they are delivered one after the other, each is acknowledged, each subtask of the test
    -- comes to be finished or to have erred, and the test to be `finished` or `failed`, whatever
    -- the adapters answer.
    pub create_test-deliver_all :
        (db : Db Value) (test : Test) (w : World Json) (jobs : List ProbeJob) (ds : List Delivery)
        → ReturnsRows services
        → ReturnsAll services
        → dedupe body.groups ≢ []
        → dedupe body.sig_algs ≢ []
        → (create_test services settings body db).0 ≡ ok test
        → IsFresh test.id db.subtasks
        → Works env
        → w.subtasks ≡ (create_test services settings body db).1.subtasks
        → w.tests ≡ (create_test services settings body db).1.tests
        → (create_test services settings body db).1.probe_jobs ≡ db.probe_jobs ++ jobs
        → AllCarry probe_job ds jobs
        → Yields (deliver_all probe_job kem_job env ds) w (λ _ w'.
          AllAcked ds w'.acked
          × All IsOver (of_test test.id w'.subtasks)
          × HasClosed test.id w'.tests)
    create_test-deliver_all db test w jobs ds returns all some_group some_alg created fresh
          works_all shared tests queued carried =
        let q =
          create_test-Queued services settings body db test w returns all some_group some_alg
            created fresh shared tests in
        let carry =
          subst (AllCarry probe_job ds)
            (append_cancel_left db.probe_jobs jobs q.jobs (sym queued ∙ q.queued)) carried in
        Yields-weaken _ w
          (λ _ w' h. (
            (h.0).0,
            (h.0).1,
            found_closed test.id w'.tests
                (subst (λ ids. Some (λ i. i ≡ test.id) ids) (sym (h.1).0) q.there) ((h.0).2),
          ))
          (Yields-kept (Remains (ids_of w.tests) []) (deliver_all probe_job kem_job env ds) w
            (deliver_all-Remains probe_job kem_job env (ids_of w.tests) [] ds q.jobs carry)
            (refl, tt)
            (deliveries-close env probe_job kem_job works_all test.id ds q.jobs q.rows w q.some_row
              q.own q.served q.listed carry))
