-- ===== src/Worker/Probe/Ended.antt =====
-- How a job of a probe ends: the test is closed if its rows are over
-- (services/worker/src/probe.rs, function `finish`, and store.rs).
use pqc_sec_inspection_cours.Prelude.{
  ◌≡◌, refl, sym, ◌⊎◌, inl, inr, true, Option, none, some, List, [], ◌∷◌, All, ◌==◌, ==_iff, subst,
}
use pqc_sec_inspection_cours.Domain.Status.{TaskStatus, ExecStatus, ResultStatus}
use pqc_sec_inspection_cours.Domain.Jobs.{Uuid, ProbeJob, test_channel}
use pqc_sec_inspection_cours.Domain.Models.{Subtask, Test}
use pqc_sec_inspection_cours.Worker.World.{World, Env, Action, ◌>>◌, publish}
use pqc_sec_inspection_cours.Worker.Store.{
  TestProgress, close_if_done, close_test_row, finish_test_if_done, of_test,
}
use pqc_sec_inspection_cours.Worker.Closing.{IsOver, Closes, finish_test_if_done_cases}
use pqc_sec_inspection_cours.Worker.Probe.{updated, attempt, announce, finish}
use pqc_sec_inspection_cours.Worker.Probe.Due.{AllDue}
use pqc_sec_inspection_cours.Worker.Rules.{
  Keeps, Keeps-pure, Keeps-bind, Keeps-if, Keeps-perform, Keeps-query, Yields, Yields-pure,
  Yields-bind, Yields-weaken, Yields-perform, Works,
}

abbrev pub IsClosed : Test → Type 0
IsClosed t = (t.status ≡ TaskStatus.failed) ⊎ (t.status ≡ TaskStatus.finished)

module _ {Json : Type 0} where
  pub Yields-kept :
      {A : Type 0} {Q : A → World Json → Type 0} (P : World Json → Type 0) (m : Action Json A)
      (w : World Json)
      → Keeps P m
      → P w
      → Yields m w Q
      → Yields m w (λ a w'. Q a w' × P w')
  Yields-kept P m w k h y = record {
    value = y.value;
    returns = y.returns;
    post = (y.post, k.at w h);
  }

  pub attempt-Yields :
      {A : Type 0} {Q : World Json → Type 0} (m : Action Json A) (w : World Json)
      → Yields m w (λ _. Q)
      → Yields (attempt m) w (λ _. Q)
  unfolding attempt
  attempt-Yields m w y = record { value = (m w).0; returns = refl; post = y.post }

  module _ (id : Uuid) where
    -- Once its rows are over, the test is closed.
    abbrev pub IsEnded : World Json → Type 0
    IsEnded w =
        All IsOver (of_test id w.subtasks) → All (λ t. (t.id == id) ≡ true → IsClosed t) w.tests

    -- What a job leaves: the rows that are not over have one of the other jobs.
    abbrev pub Left : List ProbeJob → World Json → Type 0
    Left rest w = AllDue id rest w.subtasks × IsEnded w

  module _ (env : Env Json) (works_all : Works env) (id : Uuid) where
    -- The rows stay as they are.
    abbrev Same : List Subtask → World Json → Type 0
    Same rows w = w.subtasks ≡ rows

    finish_test_if_done-Same :
        (rows : List Subtask) → Keeps (Same rows) (finish_test_if_done env id)
    unfolding finish_test_if_done close_if_done close_test_row
    finish_test_if_done-Same rows = Keeps-bind _ _ (Keeps-query env _ (λ w h. h)) λ t.
        Keeps-if _ _ _ (Keeps-pure _)
          (Keeps-bind _ _ (Keeps-perform env _ (λ w h. h) (λ w h. h)) λ _. Keeps-pure _)

    statuses_of :
        (X : Test → Type 0) (ts : List Test)
        → All (λ t. t.id ≡ id → X t × IsClosed t) ts
        → All (λ t. (t.id == id) ≡ true → IsClosed t) ts
    statuses_of X [] h = tt
    statuses_of X (t ∷ ts) h = (λ e. (h.0 ((==_iff t.id id).0 e)).1, statuses_of X ts h.1)

    closed_tests :
        (w w' : World Json) (progress : Option TestProgress)
        → Closes id w progress w'
        → w'.subtasks ≡ w.subtasks
        → IsEnded id w'
    closed_tests w w' progress (inl c) same over =
        absurd (c.0 (subst (λ rows. All IsOver (of_test id rows)) same over))
    closed_tests w w' progress (inr c) same over = statuses_of _ w'.tests c.2

    announce-Yields :
        (job : ProbeJob) (rest : List ProbeJob) (p : Option TestProgress) (w : World Json)
        → Left id rest w
        → Yields (announce env job p) w (λ _. Left id rest)
    unfolding announce publish
    announce-Yields job rest none w h = Yields-pure _ w h
    announce-Yields job rest (some p) w h = Yields-perform env _ w works_all h

    finish-Yields :
        (job : ProbeJob) (rest : List ProbeJob) (w : World Json)
        → job.test_id ≡ id
        → AllDue id rest w.subtasks
        → Yields (finish env job) w (λ _. Left id rest)
    unfolding finish
    finish-Yields job rest w same due =
        Yields-bind _ _ w
          (rw same (
            Yields-weaken _ w
              (λ p w' h. (subst (AllDue id rest) (sym h.1) due, closed_tests w w' p h.0 h.1))
              (Yields-kept (Same w.subtasks) (finish_test_if_done env id) w
                (finish_test_if_done-Same w.subtasks) refl
                (finish_test_if_done_cases env works_all id w))))
          λ p w' h. announce-Yields job rest p w' h

    pub tell-Yields :
        (job : ProbeJob) (rest : List ProbeJob) (exec : ExecStatus) (told : ResultStatus)
        (w : World Json)
        → job.test_id ≡ id
        → AllDue id rest w.subtasks
        → Yields
            (publish env (test_channel job.test_id) (updated job exec told) >> finish env job)
            w
            (λ _. Left id rest)
    unfolding publish
    tell-Yields job rest exec told w same due =
        Yields-bind _ _ w
          (Yields-perform env {Q = λ _ u. AllDue id rest u.subtasks} _ w works_all due)
          λ _ w' h. finish-Yields job rest w' same h
