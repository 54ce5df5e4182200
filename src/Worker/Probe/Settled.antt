-- ===== src/Worker/Probe/Settled.antt =====
-- Where a handled job leaves its subtask when every call works (services/worker/src/probe.rs).
use pqc_sec_inspection_cours.Prelude.{
  suc, ◌≡◌, refl, ◌≢◌, inl, inr, true, false, Option, none, some, Text, Result-cases, err, All,
  Some, Some-append_left, Some-append_right, arith, ltb, ◌==◌,
}
use pqc_sec_inspection_cours.Proto.{ProbeResponse}
use pqc_sec_inspection_cours.Domain.Status.{ExecStatus, ResultStatus}
use pqc_sec_inspection_cours.Domain.Jobs.{Uuid, ProbeJob, Channel, Event, test_channel}
use pqc_sec_inspection_cours.Domain.Models.{Subtask}
use pqc_sec_inspection_cours.Worker.World.{World, Env, Action, pure, ◌>>◌, publish}
use pqc_sec_inspection_cours.Worker.Store.{
  TestProgress, Tally, finish_subtask, fail_subtask, mark_subtask_running, mark_test_running,
  save_report, mark_subtask_error, close_if_done, close_test_row, finish_test_if_done,
}
use pqc_sec_inspection_cours.Worker.Adapters.{is_configured, capabilities, probe}
use pqc_sec_inspection_cours.Worker.Probe.{
  not_enabled, updated, verdict, request_of, attempt, announce, finish, handle_disabled,
  handle_configured, handle,
}
use pqc_sec_inspection_cours.Worker.Probe.Invariant.{IsVerdict, verdict-IsVerdict}
use pqc_sec_inspection_cours.Worker.Rules.{
  Yields, Yields-pure, Yields-bind, Yields-if, Yields-weaken, Yields-perform, Yields-query, Works,
  All-update_where_self,
}

module _ {Json : Type 0} where
  -- The job's row, with its statuses.
  abbrev pub RowIs : ProbeJob → ExecStatus → ResultStatus → World Json → Type 0
  RowIs job exec result w =
      All (λ s. s.id ≡ job.subtask_id → (s.exec_status ≡ exec) × (s.result_status ≡ result))
        w.subtasks

  -- The browser has been told these statuses of the job's subtask.
  abbrev pub IsTold : ProbeJob → ExecStatus → ResultStatus → World Json → Type 0
  IsTold job exec result w =
      Some (λ p. p ≡ (test_channel job.test_id, updated job exec result)) w.published

  -- Both, with statuses of their own.
  abbrev pub Shows : ProbeJob → ExecStatus → ResultStatus → ResultStatus → World Json → Type 0
  Shows job exec row told w = RowIs job exec row w × IsTold job exec told w

  module _ (env : Env Json) (works_all : Works env) where
    close_test_row-Yields :
        (job : ProbeJob) (exec : ExecStatus) (row told : ResultStatus) (t : Tally) (w : World Json)
        → Shows job exec row told w
        → Yields (close_test_row env job.test_id t) w (λ _. Shows job exec row told)
    unfolding close_test_row
    close_test_row-Yields job exec row told t w h =
        Yields-bind _ _ w (Yields-perform env {Q = λ _. Shows job exec row told} _ w works_all h)
          (λ _ w' h'. Yields-pure _ w' h')

    -- Closing the test neither changes the row nor takes back what was told.
    close_if_done-Yields :
        (job : ProbeJob) (exec : ExecStatus) (row told : ResultStatus) (t : Tally) (w : World Json)
        → Shows job exec row told w
        → Yields (close_if_done env job.test_id t) w (λ _. Shows job exec row told)
    unfolding close_if_done
    close_if_done-Yields job exec row told t w h =
        Yields-if (ltb 0 t.outstanding) (pure none) (close_test_row env job.test_id t) w
          (λ _. Yields-pure none w h) (λ _. close_test_row-Yields job exec row told t w h)

    publish-Yields :
        (job : ProbeJob) (exec : ExecStatus) (row told : ResultStatus) (c : Channel) (e : Event)
        (w : World Json)
        → Shows job exec row told w
        → Yields (publish env c e) w (λ _. Shows job exec row told)
    unfolding publish
    publish-Yields job exec row told c e w h =
        Yields-perform env _ w works_all (h.0, Some-append_left _ w.published _ h.1)

    announce-Yields :
        (job : ProbeJob) (exec : ExecStatus) (row told : ResultStatus) (p : Option TestProgress)
        (w : World Json)
        → Shows job exec row told w
        → Yields (announce env job p) w (λ _. Shows job exec row told)
    unfolding announce
    announce-Yields job exec row told none w h = Yields-pure _ w h
    announce-Yields job exec row told (some p) w h = publish-Yields job exec row told _ _ w h

    finish-Yields :
        (job : ProbeJob) (exec : ExecStatus) (row told : ResultStatus) (w : World Json)
        → Shows job exec row told w
        → Yields (finish env job) w (λ _. Shows job exec row told)
    unfolding finish finish_test_if_done
    finish-Yields job exec row told w h =
        Yields-bind _ _ w
          (Yields-bind _ _ w (Yields-query env {Q = λ _. Shows job exec row told} _ w works_all h)
            (λ t w' h'. close_if_done-Yields job exec row told t w' h'))
          (λ p w' h'. announce-Yields job exec row told p w' h')

    -- Telling the browser, and closing the test.
    tell-Yields :
        (job : ProbeJob) (exec : ExecStatus) (row told : ResultStatus) (w : World Json)
        → RowIs job exec row w
        → Yields
            (publish env (test_channel job.test_id) (updated job exec told) >> finish env job)
            w
            (λ _. Shows job exec row told)
    unfolding publish
    tell-Yields job exec row told w h =
        Yields-bind _ _ w
          (Yields-perform env {Q = λ _. Shows job exec row told} _ w works_all
            (h, Some-append_right _ w.published _ (inl refl)))
          (λ _ w' h'. finish-Yields job exec row told w' h')

    other_row : {A : Type 0} (id : Uuid) (s : Subtask) → (s.id == id) ≡ false → s.id ≡ id → A
    other_row id s e same = absurd (ground arith)

    mark_subtask_error-Yields :
        (job : ProbeJob) (reason : Text) (w : World Json)
        → Yields
            (mark_subtask_error env job.subtask_id reason)
            w
            (λ _. RowIs job ExecStatus.error ResultStatus.failed)
    unfolding mark_subtask_error
    mark_subtask_error-Yields job reason w = Yields-perform env _ w works_all (
        All-update_where_self _ _ (fail_subtask (suc w.clock) reason) w.subtasks
          (λ s _. (refl, refl)) (λ s e same. other_row job.subtask_id s e same))

    save_report-Yields :
        (job : ProbeJob) (result : ResultStatus) (r : ProbeResponse Json) (w : World Json)
        → Yields
            (save_report env job.subtask_id result r)
            w
            (λ _. RowIs job ExecStatus.finished result)
    unfolding save_report
    save_report-Yields job result r w =
        Yields-bind _ _ w (Yields-perform env {Q = λ _ _. Unit {0}} _ w works_all tt) λ _ w1 _.
          Yields-bind _ _ w1 (Yields-perform env {Q = λ _ _. Unit {0}} _ w1 works_all tt) λ _ w2 _.
            Yields-bind _ _ w2 (Yields-perform env {Q = λ _ _. Unit {0}} _ w2 works_all tt)
              λ _ w3 _. Yields-perform env _ w3 works_all (
                All-update_where_self _ _ (finish_subtask (suc w3.clock) result r) w3.subtasks
                  (λ s _. (refl, refl)) (λ s e same. other_row job.subtask_id s e same))

    probe-ne-err :
        (job : ProbeJob) (w : World Json) (e : Text)
        → (probe env job.adapter (request_of job) w).0 ≢ err e
    unfolding probe
    probe-ne-err job w e h = ground arith

    pub probe-Yields :
        (job : ProbeJob) (w : World Json)
        → Yields (probe env job.adapter (request_of job)) w (λ _ _. Unit {0})
    probe-Yields job w = elim (Result-cases (probe env job.adapter (request_of job) w).0) [
      | inl (a, e) ↦ record { value = a; returns = e; post = tt }
      | inr (x, e) ↦ absurd (probe-ne-err job w x e)
    ]

    attempt-Yields :
        {A : Type 0} (m : Action Json A) (w : World Json) → Yields (attempt m) w (λ _ _. Unit {0})
    unfolding attempt
    attempt-Yields m w = record { value = (m w).0; returns = refl; post = tt }

    start_and :
        (job : ProbeJob) (m : Action Json (Unit {0})) (w : World Json)
        (Q : Unit {0} → World Json → Type 0)
        → ((w' : World Json) → Yields m w' Q)
        → Yields
            (do mark_test_running env job.test_id; mark_subtask_running env job.subtask_id; m)
            w
            Q
    unfolding mark_test_running mark_subtask_running
    start_and job m w Q k =
        Yields-bind _ _ w (Yields-perform env {Q = λ _ _. Unit {0}} _ w works_all tt) λ _ w1 _.
          Yields-bind _ _ w1 (Yields-perform env {Q = λ _ _. Unit {0}} _ w1 works_all tt)
            λ _ w2 _. k w2

    -- Where every call of the database and of Redis works, a job for an adapter that the deployment
    -- does not run is handled, its row is stored as an
    -- error with the result `failed`, and the browser is told the result `disabled`: what is
    -- stored and what is told differ.
    pub handle-disabled :
        (job : ProbeJob) (w : World Json)
        → is_configured env job.adapter ≡ false
        → Yields
            (handle env job)
            w
            (λ _. Shows job ExecStatus.error ResultStatus.failed ResultStatus.disabled)
    unfolding handle handle_disabled
    handle-disabled job w off = rw off (
        start_and job (handle_disabled env job) w
          (λ _. Shows job ExecStatus.error ResultStatus.failed ResultStatus.disabled)
          λ w1. Yields-bind _ _ w1 (mark_subtask_error-Yields job (not_enabled job) w1) λ _ w2 h.
            tell-Yields job ExecStatus.error ResultStatus.failed ResultStatus.disabled w2 h)

    -- Where every call of the database and of Redis works, a job for an adapter of the deployment
    -- is handled, whatever the adapter answers, and its row is stored as finished with a verdict, `passed`, `failed` or `unsupported`, which the browser is told.
    pub handle-configured :
        (job : ProbeJob) (w : World Json)
        → is_configured env job.adapter ≡ true
        → Yields (handle env job) w (λ _ w'.
          (v : ResultStatus) × IsVerdict v
          × RowIs job ExecStatus.finished v w'
          × IsTold job ExecStatus.finished v w')
    unfolding handle handle_configured
    handle-configured job w on = rw on (
        start_and job (handle_configured env job) w
          (λ _ w'.
            (v : ResultStatus) × IsVerdict v
            × RowIs job ExecStatus.finished v w'
            × IsTold job ExecStatus.finished v w')
          λ w1. Yields-bind _ _ w1 (probe-Yields job w1) λ r w2 _.
            Yields-bind _ _ w2 (attempt-Yields (capabilities env job.adapter) w2) λ caps w3 _.
              Yields-bind _ _ w3 (save_report-Yields job (verdict job r caps) r w3) λ _ w4 h.
                Yields-weaken _ w4
                  (λ _ w' shown.
                    (verdict job r caps, verdict-IsVerdict job r caps, shown.0, shown.1))
                  (tell-Yields job ExecStatus.finished (verdict job r caps) (verdict job r caps) w4
                    h))
