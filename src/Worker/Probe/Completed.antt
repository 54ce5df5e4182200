-- ===== src/Worker/Probe/Completed.antt =====
-- The jobs of a test, handled one after the other, bring the test to its end
-- (services/worker/src/probe.rs and store.rs).
use pqc_sec_inspection_cours.Prelude.{
  ◌≡◌, refl, sym, inl, inr, true, List, [], ◌∷◌, All, filter, ◌==◌, Text, subst,
}
use pqc_sec_inspection_cours.Proto.{ProbeResponse}
use pqc_sec_inspection_cours.Domain.Status.{ExecStatus, ResultStatus}
use pqc_sec_inspection_cours.Domain.Jobs.{Uuid, ProbeJob}
use pqc_sec_inspection_cours.Domain.Models.{Subtask}
use pqc_sec_inspection_cours.Worker.World.{World, Env, Action, pure, ◌>>=◌}
use pqc_sec_inspection_cours.Worker.Store.{
  finish_subtask, fail_subtask, mark_subtask_running, mark_test_running, save_report,
  mark_subtask_error, of_test,
}
use pqc_sec_inspection_cours.Worker.Adapters.{is_configured, capabilities, probe}
use pqc_sec_inspection_cours.Worker.Closing.{IsOver}
use pqc_sec_inspection_cours.Worker.Probe.{
  not_enabled, verdict, request_of, attempt, handle_disabled, handle_configured, handle,
}
use pqc_sec_inspection_cours.Worker.Probe.Due.{
  IsDue, AllDue, All-filter, filter-All, started_rows, ended_rows,
}
use pqc_sec_inspection_cours.Worker.Probe.Invariant.{subtasks-probe, subtasks-capabilities}
use pqc_sec_inspection_cours.Worker.Probe.Settled.{probe-Yields}
use pqc_sec_inspection_cours.Worker.Rules.{
  Yields, Yields-pure, Yields-bind, Yields-if, Yields-weaken, Yields-perform, Works,
}
use pqc_sec_inspection_cours.Worker.Probe.Ended.{IsClosed, attempt-Yields, Left, tell-Yields}

module _ {Json : Type 0} where
  -- One job after the other; an error of one does not keep the next from its turn.
  unfoldable pub handle_all : Env Json → List ProbeJob → Action Json (Unit {0})
  handle_all env [] = pure tt
  handle_all env (job ∷ jobs) = do outcome ← attempt (handle env job); handle_all env jobs

  module _ (env : Env Json) (works_all : Works env) (id : Uuid) where
    mark_subtask_error-Yields :
        (job : ProbeJob) (rest : List ProbeJob) (reason : Text) (w : World Json)
        → AllDue id (job ∷ rest) w.subtasks
        → Yields (mark_subtask_error env job.subtask_id reason) w (λ _ u. AllDue id rest u.subtasks)
    unfolding mark_subtask_error
    mark_subtask_error-Yields job rest reason w due =
        Yields-perform env _ w works_all
          (ended_rows id job rest (fail_subtask _ reason) w.subtasks (λ s. inr refl) due)

    save_report-Yields :
        (job : ProbeJob) (rest : List ProbeJob) (result : ResultStatus) (r : ProbeResponse Json)
        (w : World Json)
        → AllDue id (job ∷ rest) w.subtasks
        → Yields (save_report env job.subtask_id result r) w (λ _ u. AllDue id rest u.subtasks)
    unfolding save_report
    save_report-Yields job rest result r w due =
        let Due : Unit {0} → World Json → Type 0 = λ _ u. AllDue id (job ∷ rest) u.subtasks in
        Yields-bind _ _ w (Yields-perform env {Q = Due} _ w works_all due) λ _ w1 h1.
          Yields-bind _ _ w1 (Yields-perform env {Q = Due} _ w1 works_all h1) λ _ w2 h2.
            Yields-bind _ _ w2 (Yields-perform env {Q = Due} _ w2 works_all h2) λ _ w3 h3.
              Yields-perform env _ w3 works_all
                (ended_rows id job rest (finish_subtask _ result r) w3.subtasks (λ s. inl refl) h3)

    -- The two calls of an adapter leave the rows alone.
    probe-Due :
        (job : ProbeJob) (jobs : List ProbeJob) (w : World Json)
        → AllDue id jobs w.subtasks
        → Yields (probe env job.adapter (request_of job)) w (λ _ u. AllDue id jobs u.subtasks)
    probe-Due job jobs w due =
        let y = probe-Yields env works_all job w in
        record {
          value = y.value;
          returns = y.returns;
          post = subst (AllDue id jobs) (sym (subtasks-probe env job w)) due;
        }

    capabilities-Due :
        (job : ProbeJob) (jobs : List ProbeJob) (w : World Json)
        → AllDue id jobs w.subtasks
        → Yields (attempt (capabilities env job.adapter)) w (λ _ u. AllDue id jobs u.subtasks)
    unfolding attempt
    capabilities-Due job jobs w due = record {
      value = (capabilities env job.adapter w).0;
      returns = refl;
      post = subst (AllDue id jobs) (sym (subtasks-capabilities env job.adapter w)) due;
    }

    handle_disabled-Yields :
        (job : ProbeJob) (rest : List ProbeJob) (w : World Json)
        → job.test_id ≡ id
        → AllDue id (job ∷ rest) w.subtasks
        → Yields (handle_disabled env job) w (λ _. Left id rest)
    unfolding handle_disabled
    handle_disabled-Yields job rest w same due =
        Yields-bind _ _ w (mark_subtask_error-Yields job rest (not_enabled job) w due) λ _ w1 h.
          tell-Yields env works_all id job rest ExecStatus.error ResultStatus.disabled w1 same h

    handle_configured-Yields :
        (job : ProbeJob) (rest : List ProbeJob) (w : World Json)
        → job.test_id ≡ id
        → AllDue id (job ∷ rest) w.subtasks
        → Yields (handle_configured env job) w (λ _. Left id rest)
    unfolding handle_configured
    handle_configured-Yields job rest w same due =
        Yields-bind _ _ w (probe-Due job (job ∷ rest) w due) λ r w1 h1.
          Yields-bind _ _ w1 (capabilities-Due job (job ∷ rest) w1 h1) λ caps w2 h2.
            Yields-bind _ _ w2 (save_report-Yields job rest (verdict job r caps) r w2 h2) λ _ w3 h3.
              tell-Yields env works_all id job rest ExecStatus.finished (verdict job r caps) w3 same
                h3

    pub handle-Left :
        (job : ProbeJob) (rest : List ProbeJob) (w : World Json)
        → job.test_id ≡ id
        → AllDue id (job ∷ rest) w.subtasks
        → Yields (handle env job) w (λ _. Left id rest)
    unfolding handle mark_test_running mark_subtask_running
    handle-Left job rest w same due =
        Yields-bind _ _ w
          (Yields-perform env {Q = λ _ u. AllDue id (job ∷ rest) u.subtasks} _ w works_all due)
          λ _ w1 h1.
            Yields-bind _ _ w1
              (Yields-perform env {Q = λ _ u. AllDue id (job ∷ rest) u.subtasks} _ w1 works_all
                (started_rows id job rest _ w1.subtasks h1))
              λ _ w2 h2.
                Yields-if (is_configured env job.adapter) _ _ w2
                  (λ _. handle_configured-Yields job rest w2 same h2)
                  (λ _. handle_disabled-Yields job rest w2 same h2)

    handle_all-Left :
        (job : ProbeJob) (jobs : List ProbeJob) (w : World Json)
        → All (λ j. j.test_id ≡ id) (job ∷ jobs)
        → AllDue id (job ∷ jobs) w.subtasks
        → Yields (handle_all env (job ∷ jobs)) w (λ _. Left id [])
    unfolding handle_all
    handle_all-Left job [] w own due =
        Yields-bind _ _ w (attempt-Yields _ w (handle-Left job [] w own.0 due))
          λ _ w1 h. Yields-pure tt w1 h
    handle_all-Left job (next ∷ jobs) w own due =
        Yields-bind _ _ w (attempt-Yields _ w (handle-Left job (next ∷ jobs) w own.0 due))
          λ _ w1 h. handle_all-Left next jobs w1 own.1 h.0

    none_due : (s : Subtask) → IsDue [] s → IsOver s
    none_due s (inl over) = over
    none_due s (inr m) = absurd m

    ended_all :
        (rows : List Subtask)
        → AllDue id [] rows
        → All (λ s. (s.test_id == id) ≡ true → IsOver s) rows
    ended_all [] h = tt
    ended_all (s ∷ rows) h = (λ same. none_due s (h.0 same), ended_all rows h.1)

    -- With no job left, the rows of the test are over and the test is closed.
    pub Left-closes :
        (w : World Json)
        → Left id [] w
        → All IsOver (of_test id w.subtasks) × All IsClosed (filter (λ t. t.id == id) w.tests)
    Left-closes w h =
        let over = All-filter IsOver (λ s. s.test_id == id) w.subtasks (ended_all w.subtasks h.0) in
        (over, All-filter IsClosed (λ t. t.id == id) w.tests (h.1 over))

    pub due_rows :
        (jobs : List ProbeJob) (w : World Json)
        → All (IsDue jobs) (of_test id w.subtasks)
        → AllDue id jobs w.subtasks
    due_rows jobs w due = filter-All (IsDue jobs) (λ s. s.test_id == id) w.subtasks due

    -- Where every call works, and each row of a test is over or has one of the jobs, the jobs bring
    -- the test to its end when they are handled one after the other: each of its rows is finished
    -- or has erred, and the test is `finished` or `failed`. It does not matter what the adapters
    -- answer, nor whether the deployment has them, and a job may come twice.
    pub handle_all-closes :
        (job : ProbeJob) (jobs : List ProbeJob) (w : World Json)
        → All (λ j. j.test_id ≡ id) (job ∷ jobs)
        → All (IsDue (job ∷ jobs)) (of_test id w.subtasks)
        → Yields (handle_all env (job ∷ jobs)) w (λ _ w'.
          All IsOver (of_test id w'.subtasks) × All IsClosed (filter (λ t. t.id == id) w'.tests))
    handle_all-closes job jobs w own due =
        Yields-weaken _ w (λ _. Left-closes)
          (handle_all-Left job jobs w own (due_rows (job ∷ jobs) w due))
