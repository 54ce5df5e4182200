-- ===== src/Api/Tests/Atomic.antt =====
-- What the creation of a test leaves.
use pqc_sec_inspection_cours.Prelude.{
  arith, ◌≤◌, reject_if, not, is_empty, is_empty_iff, reject_if-not_iff, codes, sym, append-nil,
  ◌≡◌, refl, ap, ◌⊎◌, inl, inr, ℕ, zero, suc, List, [], ◌∷◌, ◌++◌, map, take, All, Some, ◌≢◌, Text,
  Result, ok, err,
}
use pqc_sec_inspection_cours.Domain.Jobs.{Uuid, ProbeJob}
use pqc_sec_inspection_cours.Domain.Models.{Test, Subtask}
use pqc_sec_inspection_cours.Worker.World.{Fault, works, refused, lost}
use pqc_sec_inspection_cours.Api.Errors.{ApiError, redis}
use pqc_sec_inspection_cours.Api.Database.{
  statement, ◌>>◌, pure, Db, Services, Handler, tick, ◌>>=◌, continue,
}
use pqc_sec_inspection_cours.Api.Outcome.{
  Holds, Holds-assoc, Holds-lift, Holds-query, Holds-statement, Holds-pure, lost-ne-works,
  FailedCall,
}
use pqc_sec_inspection_cours.Api.Selection.{dedupe}
use pqc_sec_inspection_cours.Api.Grid.{NewRow, expand}
use pqc_sec_inspection_cours.Api.Creation.{NewTest, check_new_test}
use pqc_sec_inspection_cours.Api.Tests.Known.{IsKnown, unknown_names-IsKnown}
use pqc_sec_inspection_cours.Api.Tests.{
  commit, unknown_names, Settings, job_of, subtask_rows, reject_unknown, append_jobs, pipeline,
  enqueue_probes, create_test,
}

-- The cell of a row is that of the expansion, in this test.
abbrev pub Fills : Uuid → List NewRow → List Subtask → Type 0
Fills test_id [] [] = Unit
Fills test_id [] (_ ∷ _) = ⊥
Fills test_id (_ ∷ _) [] = ⊥
Fills test_id (new ∷ news) (row ∷ rows) =
    ((row.test_id ≡ test_id)
      × (row.ordinal ≡ new.ordinal)
      × (row.group_name ≡ new.group_name)
      × (row.sig_alg ≡ new.sig_alg))
    × Fills test_id news rows

subtask_rows-Fills :
    (services : Services) (test_id : Uuid) (call index : ℕ) (news : List NewRow)
    → Fills test_id news (subtask_rows services test_id call index news)
unfolding subtask_rows
subtask_rows-Fills services test_id call index [] = tt
subtask_rows-Fills services test_id call index (new ∷ news) =
    ((refl, refl, refl, refl), subtask_rows-Fills services test_id call (suc index) news)

-- The job is for a row of the list.
abbrev pub Names : List Subtask → ProbeJob → Type 0
Names rows job =
    Some
      (λ row.
        (job.subtask_id ≡ row.id) × (job.group_name ≡ row.group_name) × (job.sig_alg ≡ row.sig_alg))
      rows

abbrev pub jobs_of : Services → Settings → NewTest → Test → ℕ → List Subtask → List ProbeJob
jobs_of services settings body test call rows =
    map (job_of settings body test) (services.returned call rows)

-- `RETURNING` lists rows that were inserted.
abbrev pub ReturnsRows : Services → Type 0
ReturnsRows services =
    (call : ℕ) (rows : List Subtask)
    → All (λ r. Some (λ row. r ≡ row) rows) (services.returned call rows)

map-Names :
    (settings : Settings) (body : NewTest) (test : Test) (rows some_rows : List Subtask)
    → All (λ r. Some (λ row. r ≡ row) rows) some_rows
    → All (Names rows) (map (job_of settings body test) some_rows)
map-Names settings body test rows [] h = tt
map-Names settings body test rows (r ∷ some_rows) (h, more) =
    (of_row rows h, map-Names settings body test rows some_rows more)
  where
    of_row :
        (list : List Subtask)
        → Some (λ row. r ≡ row) list
        → Names list (job_of settings body test r)
    of_row (row ∷ list) (inl e) =
        inl (ap (λ s. s.id) e, ap (λ s. s.group_name) e, ap (λ s. s.sig_alg) e)
    of_row (row ∷ list) (inr h) = inr (of_row list h)
    of_row [] h = absurd h

take-All : {A : Type 0} (P : A → Type 0) (n : ℕ) (xs : List A) → All P xs → All P (take n xs)
take-All P zero xs h = tt
take-All P (suc n) [] h = tt
take-All P (suc n) (x ∷ xs) (h, more) = (h, take-All P n xs more)

passes :
    (names : List Text) (e : ApiError) → reject_if (not (is_empty names)) e ≡ ok tt → names ≡ []
passes names e h = (is_empty_iff names).0 ((reject_if-not_iff (is_empty names) e).0 h)

module _ {Value : Type 0} (services : Services) (settings : Settings) (body : NewTest) where
  abbrev pub Unchanged : Db Value → Db Value → Type 0
  Unchanged db after =
      (after.tests ≡ db.tests) × (after.subtasks ≡ db.subtasks) × (after.probe_jobs ≡ db.probe_jobs)

  -- One test has been added with all its rows, and these jobs.
  pub record IsAdded (db : Db Value) (test : Test) (rows : List Subtask) (jobs : List ProbeJob)
      (after : Db Value) : Type 0 where
    pub accepted : check_new_test settings.max_subtasks_per_test body ≡ ok tt
    pub groups_known : All (IsKnown db.algorithms (codes "kem_group")) (dedupe body.groups)
    pub sig_algs_known : All (IsKnown db.algorithms (codes "sig_alg")) (dedupe body.sig_algs)
    pub cells : Fills test.id (expand (dedupe body.groups) (dedupe body.sig_algs)) rows
    pub tests : after.tests ≡ db.tests ++ test ∷ []
    pub subtasks : after.subtasks ≡ db.subtasks ++ rows
    pub named : All (Names rows) jobs
    pub queued : after.probe_jobs ≡ db.probe_jobs ++ jobs

  abbrev pub Atomic : Db Value → Result Test ApiError → Db Value → Type 0
  Atomic db (ok test) after =
      (rows : List Subtask) × (call : ℕ) × IsAdded db test rows
        (jobs_of services settings body test call rows) after
  Atomic db (err e) after =
      Unchanged db after
      ⊎ ((test : Test) × (rows : List Subtask) × (call n : ℕ) × IsAdded db test rows
            (take n (jobs_of services settings body test call rows)) after
          × FailedCall services db.clock after.clock)

  Holds-enqueue :
      {A : Type 0} (Q : Result A ApiError → Db Value → Type 0) (next : Unit {0} → Handler Value A)
      (jobs : List ProbeJob) (db : Db Value)
      → Holds Q (next tt) (append_jobs services jobs (tick db))
      → ((e : ApiError) → services.fault db.clock ≢ works → Q (err e) (tick db))
      → ((e : ApiError) (n : ℕ)
          → services.fault db.clock ≢ works
          → Q (err e) (append_jobs services (take n jobs) (tick db)))
      → Holds Q (enqueue_probes services jobs >>= next) db
  unfolding ◌>>=◌ enqueue_probes Holds
  Holds-enqueue Q next jobs db h l k =
      piped (services.fault db.clock) (services.carried_out db.clock) l k
    where
      piped :
          (fault : Fault) (n : ℕ)
          → ((e : ApiError) → fault ≢ works → Q (err e) (tick db))
          → ((e : ApiError) (n : ℕ)
              → fault ≢ works
              → Q (err e) (append_jobs services (take n jobs) (tick db)))
          → let (r, after) = pipeline services fault n jobs (tick db) in
            Holds Q (continue r next) after
      piped works n l k = h
      piped (refused e) n l k = l (redis e) (λ q. cc)
      piped (lost e) n l k = k (redis e) n (λ q. cc)

  Holds-reject_unknown :
      {A : Type 0} (Q : Result A ApiError → Db Value → Type 0) (next : Unit {0} → Handler Value A)
      (kind : Text) (names : List Text) (db : Db Value)
      → (unknown_names db.algorithms kind names ≡ [] → Holds Q (next tt) (tick db))
      → ((e : ApiError) → Q (err e) (tick db))
      → Holds Q (reject_unknown services kind names >>= next) db
  unfolding reject_unknown
  Holds-reject_unknown Q next kind names db h k = Holds-assoc Q _ _ next db (
      Holds-query Q _ services _ db
        (Holds-lift Q next _ (tick db) (λ _ e. h (passes _ _ e)) (λ e _. k e)) (λ e _. k e))

  -- The end of the handler, from the commit on, five calls after `db`.
  committed :
      ReturnsRows services
      → (db : Db Value) (start : Db Value) (test : Test) (call : ℕ) (rows : List Subtask)
      → db.clock ≤ start.clock
      → Unchanged db start
      → ((after : Db Value) (jobs : List ProbeJob)
          → after.tests ≡ start.tests ++ test ∷ []
          → after.subtasks ≡ start.subtasks ++ rows
          → after.probe_jobs ≡ start.probe_jobs ++ jobs
          → All (Names rows) jobs
          → IsAdded db test rows jobs after)
      → Holds
          (Atomic db)
          (statement services (commit services test rows)
            >> (enqueue_probes services (jobs_of services settings body test call rows)
                >> pure test))
          start
  committed returns db start test call rows later same added =
      let named = map-Names settings body test rows _ (returns call rows) in
      Holds-statement _ _ services _ _
        (Holds-enqueue _ _ _ _ (Holds-pure _ _ _ (rows, call, added _ _ refl refl refl named))
          (λ e f. inr (
            test,
            rows,
            call,
            0,
            added _ [] refl refl (sym (append-nil start.probe_jobs)) tt,
            (record {
              call = suc start.clock;
              after_since = omega arith;
              before_until = omega arith;
              fails = f;
            }),
          ))
          (λ e n f. inr (
            test,
            rows,
            call,
            n,
            added _ _ refl refl refl (take-All _ n _ named),
            (record {
              call = suc start.clock;
              after_since = omega arith;
              before_until = omega arith;
              fails = f;
            }),
          )))
        (λ e _. inl same)
        (λ m f. inr (
          test,
          rows,
          call,
          0,
          added _ [] refl refl (sym (append-nil start.probe_jobs)) tt,
          (record {
            call = start.clock;
            after_since = omega arith;
            before_until = omega arith;
            fails = lost-ne-works _ m f;
          }),
        ))

  -- Where `RETURNING` lists rows that were inserted, and whatever calls fail on the way: a test is answered only when the request passed the checks
  -- and the catalog has each group and each signature algorithm that it selects, under its kind, and then the test was added with a row for each cell
  -- of the expansion, in its order, and the jobs of the rows that came back were queued. When an
  -- error is answered, nothing has changed, or a call failed, the test was added with all its rows and
  -- the first few of the jobs, or none, were queued. Each job is for one of the added rows. There is never a test with a part of its rows, nor a
  -- job without them.
  pub create_test-Atomic :
      ReturnsRows services
      → (db : Db Value) → Holds (Atomic db) (create_test services settings body) db
  unfolding create_test
  create_test-Atomic returns db =
      Holds-lift _ _ _ db
        (λ _ accepted.
          Holds-reject_unknown _ _ _ _ _
            (λ groups.
              Holds-reject_unknown _ _ _ _ _
                (λ sig_algs.
                  Holds-query _ _ services _ _
                    (Holds-query _ _ services _ _
                      (Holds-query _ _ services _ _
                        (committed returns db _ _ _ _ (omega arith) (refl, refl, refl)
                          (λ after jobs tests subtasks queued named. record {
                            accepted = accepted;
                            groups_known = unknown_names-IsKnown _ _ _ groups;
                            sig_algs_known = unknown_names-IsKnown _ _ _ sig_algs;
                            cells = subtask_rows-Fills services _ _ 0 _;
                            tests = tests;
                            subtasks = subtasks;
                            queued = queued;
                            named = named;
                          }))
                        (λ e _. inl (refl, refl, refl)))
                      (λ e _. inl (refl, refl, refl)))
                    (λ e _. inl (refl, refl, refl)))
                (λ e. inl (refl, refl, refl)))
            (λ e. inl (refl, refl, refl)))
        (λ e _. inl (refl, refl, refl))
