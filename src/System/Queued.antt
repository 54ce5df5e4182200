-- ===== src/System/Queued.antt =====
-- What the API leaves for the worker when it creates a test (services/api/src/routes/tests.rs).
use pqc_sec_inspection_cours.Prelude.{
  ◌≡◌, ◌≢◌, refl, sym, ap, ◌∙◌, subst, inl, inr, ℕ, List, [], ◌∷◌, ◌++◌, map, All, Some, Text, ok,
}
use pqc_sec_inspection_cours.Domain.Jobs.{Uuid, ProbeJob}
use pqc_sec_inspection_cours.Domain.Models.{Test, Subtask}
use pqc_sec_inspection_cours.Api.Database.{Db, Services}
use pqc_sec_inspection_cours.Api.Outcome.{Holds}
use pqc_sec_inspection_cours.Api.Selection.{dedupe}
use pqc_sec_inspection_cours.Api.Grid.{NewRow, along, expand_from, expand}
use pqc_sec_inspection_cours.Api.Creation.{NewTest}
use pqc_sec_inspection_cours.Api.Tests.{Settings, job_of, create_test}
use pqc_sec_inspection_cours.Api.Tests.Atomic.{
  Fills, jobs_of, ReturnsRows, Atomic, create_test-Atomic,
}
use pqc_sec_inspection_cours.Api.Tests.Shown.{Fills-maps, IsFresh, filter-fresh}
use pqc_sec_inspection_cours.Worker.World.{World}
use pqc_sec_inspection_cours.Worker.Store.{of_test}
use pqc_sec_inspection_cours.Worker.Probe.Due.{IsDue}
use pqc_sec_inspection_cours.Worker.Probe.Kept.{ids_of}

-- `RETURNING` lists every row that was inserted.
abbrev pub ReturnsAll : Services → Type 0
ReturnsAll services =
    (call : ℕ) (rows : List Subtask)
    → All (λ row. Some (λ r. r ≡ row) (services.returned call rows)) rows

expand-ne-nil : (groups algs : List Text) → groups ≢ [] → algs ≢ [] → expand groups algs ≢ []
unfolding expand expand_from along
expand-ne-nil [] algs some_group some_alg e = some_group refl
expand-ne-nil (g ∷ groups) [] some_group some_alg e = some_alg refl
expand-ne-nil (g ∷ groups) (a ∷ algs) some_group some_alg e = cc

filled :
    (id : Uuid) (news : List NewRow) (rows : List Subtask)
    → news ≢ []
    → Fills id news rows
    → rows ≢ []
filled id [] rows some_new h e = some_new refl
filled id (new ∷ news) [] some_new h e = h
filled id (new ∷ news) (row ∷ rows) some_new h e = cc

-- Each of the rows has a job.
abbrev pub AllServed : List ProbeJob → List Subtask → Type 0
AllServed jobs rows = All (λ row. Some (λ j. j.subtask_id ≡ row.id) jobs) rows

pub served-IsDue :
    (jobs : List ProbeJob) (rows : List Subtask) → AllServed jobs rows → All (IsDue jobs) rows
served-IsDue jobs [] h = tt
served-IsDue jobs (row ∷ rows) h = (inr h.0, served-IsDue jobs rows h.1)

module _ (settings : Settings) (body : NewTest) (test : Test) where
  own_jobs :
      (rows : List Subtask) → All (λ j. j.test_id ≡ test.id) (map (job_of settings body test) rows)
  own_jobs [] = tt
  own_jobs (r ∷ rows) = (refl, own_jobs rows)

  job_for :
      (row : Subtask) (rows : List Subtask)
      → Some (λ r. r ≡ row) rows
      → Some (λ j. j.subtask_id ≡ row.id) (map (job_of settings body test) rows)
  job_for row [] h = h
  job_for row (r ∷ rows) (inl e) = inl (ap (λ (s : Subtask). s.id) e)
  job_for row (r ∷ rows) (inr h) = inr (job_for row rows h)

  all_served :
      (rows returned : List Subtask)
      → All (λ row. Some (λ r. r ≡ row) returned) rows
      → AllServed (map (job_of settings body test) returned) rows
  all_served [] returned h = tt
  all_served (row ∷ rows) returned h = (job_for row returned h.0, all_served rows returned h.1)

last_id : (old : List Test) (test : Test) → Some (λ i. i ≡ test.id) (ids_of (old ++ test ∷ []))
last_id [] test = inl refl
last_id (t ∷ old) test = inr (last_id old test)

module _ {Value Json : Type 0} (services : Services) (settings : Settings) (body : NewTest) where
  -- What the API leaves for the worker: the rows of the test, at least one, each with its job in
  -- the queue, and the row of the test.
  pub record Queued (db : Db Value) (test : Test) (w : World Json) : Type 0 where
    pub jobs : List ProbeJob
    pub rows : List Subtask
    pub queued : (create_test services settings body db).1.probe_jobs ≡ db.probe_jobs ++ jobs
    pub some_row : rows ≢ []
    pub own : All (λ j. j.test_id ≡ test.id) jobs
    pub served : AllServed jobs rows
    pub listed : of_test test.id w.subtasks ≡ rows
    pub there : Some (λ i. i ≡ test.id) (ids_of w.tests)

  pub create_test-Queued :
      (db : Db Value) (test : Test) (w : World Json)
      → ReturnsRows services
      → ReturnsAll services
      → dedupe body.groups ≢ []
      → dedupe body.sig_algs ≢ []
      → (create_test services settings body db).0 ≡ ok test
      → IsFresh test.id db.subtasks
      → w.subtasks ≡ (create_test services settings body db).1.subtasks
      → w.tests ≡ (create_test services settings body db).1.tests
      → Queued db test w
  unfolding Holds
  create_test-Queued db test w returns all some_group some_alg created fresh shared tests =
      let after = (create_test services settings body db).1 in
      let (rows, call, added) =
        subst (λ r. Atomic services settings body db r after) created
          (create_test-Atomic services settings body returns db) in
      let (_, _, _, own_rows) = Fills-maps test.id _ rows added.cells in
      record {
        jobs = jobs_of services settings body test call rows;
        rows = rows;
        queued = added.queued;
        some_row =
            filled test.id _ rows
              (expand-ne-nil (dedupe body.groups) (dedupe body.sig_algs) some_group some_alg)
              added.cells;
        own = own_jobs settings body test (services.returned call rows);
        served = all_served settings body test rows (services.returned call rows) (all call rows);
        listed =
            ap (of_test test.id) (shared ∙ added.subtasks)
            ∙ filter-fresh test.id db.subtasks rows fresh own_rows;
        there =
            subst (λ ts. Some (λ i. i ≡ test.id) (ids_of ts)) (sym (tests ∙ added.tests))
              (last_id db.tests test);
      }
