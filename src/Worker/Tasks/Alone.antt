-- ===== src/Worker/Tasks/Alone.antt =====
-- The turns of a task that nothing comes between are its job (services/worker/src/probe.rs).
use pqc_sec_inspection_cours.Prelude.{
  ℕ, zero, suc, ◌≤◌, ◌≡◌, refl, sym, ap, ◌∙◌, Bool, true, false, Text, Result, ok, err, arith,
  if◌then◌else◌,
}
use pqc_sec_inspection_cours.Domain.Status.{ExecStatus, ResultStatus}
use pqc_sec_inspection_cours.Domain.Jobs.{ProbeJob, test_channel}
use pqc_sec_inspection_cours.Worker.World.{
  World, Env, Action, pure, fail, continue, ◌>>=◌, ◌>>◌, query, publish,
}
use pqc_sec_inspection_cours.Worker.Store.{
  tally, of_test, mark_subtask_running, save_report, close_if_done, finish_test_if_done,
}
use pqc_sec_inspection_cours.Worker.Adapters.{is_configured, capabilities}
use pqc_sec_inspection_cours.Worker.Probe.{
  updated, verdict, attempt, announce, finish, handle_disabled, handle_configured, handle,
}
use pqc_sec_inspection_cours.Worker.Tasks.{
  Stage, arrived, marked, probing, rejecting, tallying, done, replied, judged, telling, tallied,
  reporting, broken, proceed, advance, advance_by,
}

-- How many turns are left at most.
abbrev pub rank : {Json : Type 0} → Stage Json → ℕ
rank arrived = 9
rank marked = 8
rank probing = 7
rank (replied response) = 6
rank (judged result response) = 5
rank rejecting = 5
rank (telling exec result) = 4
rank tallying = 3
rank (tallied counts) = 2
rank (reporting progress) = 1
rank done = 0
rank (broken e) = 0

module _ {Json : Type 0} where
  -- What an action comes to, as the stage of a task that is left with it.
  abbrev outcome_of : Result (Unit {0}) Text × World Json → Stage Json × World Json
  outcome_of r = proceed (λ _. done) r

  rank-proceed :
      {A : Type 0} (next : A → Stage Json) (n : ℕ) (r : Result A Text × World Json)
      → ((a : A) → rank (next a) ≤ n)
      → rank (proceed next r).0 ≤ n
  rank-proceed next n (ok a, w) h = h a
  rank-proceed next n (err e, w) h = omega arith

  assoc :
      {A B C : Type 0} (m : Action Json A) (f : A → Action Json B) (g : B → Action Json C)
      (w : World Json)
      → (m >>= f >>= g) w ≡ (m >>= λ a. f a >>= g) w
  unfolding ◌>>=◌
  assoc {A = A} m f g w = cases (m w)
    where
      cases :
          (r : Result A Text × World Json)
          → continue (continue r.0 f r.1).0 g (continue r.0 f r.1).1
            ≡ continue r.0 (λ a w'. continue (f a w').0 g (f a w').1) r.1
      cases (ok a, w') = refl
      cases (err e, w') = refl

  module _ (env : Env Json) (job : ProbeJob) where
    -- What is left to do of the job.
    abbrev rest_of : Stage Json → Action Json (Unit {0})
    rest_of arrived = handle env job
    rest_of marked = do
      mark_subtask_running env job.subtask_id
      if is_configured env job.adapter then handle_configured env job else handle_disabled env job
    rest_of probing = handle_configured env job
    rest_of rejecting = handle_disabled env job
    rest_of (replied response) = do
      caps ← attempt (capabilities env job.adapter)
      save_report env job.subtask_id (verdict job response caps) response
      publish env (test_channel job.test_id)
          (updated job ExecStatus.finished (verdict job response caps))
      finish env job
    rest_of (judged result response) = do
      save_report env job.subtask_id result response
      publish env (test_channel job.test_id) (updated job ExecStatus.finished result)
      finish env job
    rest_of (telling exec result) = do
      publish env (test_channel job.test_id) (updated job exec result)
      finish env job
    rest_of tallying = finish env job
    rest_of (tallied counts) = do
      progress ← close_if_done env job.test_id counts
      announce env job progress
    rest_of (reporting progress) = announce env job progress
    rest_of done = pure tt
    rest_of (broken e) = fail e

    abbrev resume : Stage Json × World Json → Stage Json × World Json
    resume (stage, w) = outcome_of (rest_of stage w)

    -- A turn goes on to what comes after the call.
    resume-proceed :
        {A : Type 0} (m : Action Json A) (f : A → Action Json (Unit {0})) (next : A → Stage Json)
        (w : World Json)
        → ((a : A) → rest_of (next a) ≡ f a)
        → resume (proceed next (m w)) ≡ outcome_of ((m >>= f) w)
    unfolding ◌>>=◌ fail
    resume-proceed m f next w h = cases (m w)
      where
        cases : (r : _) → resume (proceed next r) ≡ outcome_of (continue r.0 f r.1)
        cases (ok a, w') = ap (λ k. outcome_of (k w')) (h a)
        cases (err e, w') = refl

    branch :
        (b : Bool)
        → rest_of (if b then probing else rejecting)
          ≡ (if b then handle_configured env job else handle_disabled env job)
    branch true = refl
    branch false = refl

    resume-advance :
        (stage : Stage Json) (w : World Json) → resume (advance env job stage w) ≡ resume (stage, w)
    unfolding advance
    resume-advance arrived w = unfold handle in resume-proceed _ _ _ w (λ _. refl)
    resume-advance marked w = resume-proceed _ _ _ w (λ _. branch (is_configured env job.adapter))
    resume-advance probing w = unfold handle_configured in resume-proceed _ _ _ w (λ _. refl)
    resume-advance rejecting w = unfold handle_disabled in resume-proceed _ _ _ w (λ _. refl)
    resume-advance (replied response) w = resume-proceed _ _ _ w (λ _. refl)
    resume-advance (judged result response) w = resume-proceed _ _ _ w (λ _. refl)
    resume-advance (telling exec result) w = resume-proceed _ _ _ w (λ _. refl)
    resume-advance tallying w =
        unfold finish finish_test_if_done in
        (resume-proceed (query env (λ u. tally (of_test job.test_id u.subtasks)))
            (λ t. close_if_done env job.test_id t >>= announce env job) tallied w (λ _. refl)
          ∙ ap outcome_of (
              sym (
                assoc (query env (λ u. tally (of_test job.test_id u.subtasks)))
                  (close_if_done env job.test_id) (announce env job) w)))
    resume-advance (tallied counts) w = resume-proceed _ _ _ w (λ _. refl)
    resume-advance (reporting progress) w = last (announce env job progress w)
      where
        last : (r : _) → resume (proceed (λ _. done) r) ≡ outcome_of r
        last (ok tt, w') = unfold pure in refl
        last (err e, w') = unfold fail in refl
    resume-advance done w = refl
    resume-advance (broken e) w = refl

    pub rank-advance :
        (n : ℕ) (stage : Stage Json) (w : World Json)
        → rank stage ≤ suc n
        → rank (advance env job stage w).0 ≤ n
    unfolding advance
    rank-advance n arrived w h = rank-proceed (λ _. marked) n _ (λ _. omega arith)
    rank-advance n marked w h =
        rank-proceed (λ _. if is_configured env job.adapter then probing else rejecting) n _
          (λ _. either (is_configured env job.adapter))
      where
        either : (b : Bool) → rank {Json = Json} (if b then probing else rejecting) ≤ n
        either true = omega arith
        either false = omega arith
    rank-advance n probing w h = rank-proceed replied n _ (λ _. omega arith)
    rank-advance n rejecting w h =
        rank-proceed (λ _. telling ExecStatus.error ResultStatus.disabled) n _ (λ _. omega arith)
    rank-advance n (replied response) w h =
        rank-proceed (λ caps. judged (verdict job response caps) response) n _ (λ _. omega arith)
    rank-advance n (judged result response) w h =
        rank-proceed (λ _. telling ExecStatus.finished result) n _ (λ _. omega arith)
    rank-advance n (telling exec result) w h = rank-proceed (λ _. tallying) n _ (λ _. omega arith)
    rank-advance n tallying w h = rank-proceed tallied n _ (λ _. omega arith)
    rank-advance n (tallied counts) w h = rank-proceed reporting n _ (λ _. omega arith)
    rank-advance n (reporting progress) w h = rank-proceed (λ _. done) n _ (λ _. omega arith)
    rank-advance n done w h = omega arith
    rank-advance n (broken e) w h = omega arith

    at_end : (stage : Stage Json) (w : World Json) → rank stage ≤ 0 → (stage, w) ≡ resume (stage, w)
    at_end done w h = unfold pure in refl
    at_end (broken e) w h = unfold fail in refl
    at_end arrived w h = absurd (omega arith)
    at_end marked w h = absurd (omega arith)
    at_end probing w h = absurd (omega arith)
    at_end rejecting w h = absurd (omega arith)
    at_end (replied response) w h = absurd (omega arith)
    at_end (judged result response) w h = absurd (omega arith)
    at_end (telling exec result) w h = absurd (omega arith)
    at_end tallying w h = absurd (omega arith)
    at_end (tallied counts) w h = absurd (omega arith)
    at_end (reporting progress) w h = absurd (omega arith)

    advance_by-resume :
        (n : ℕ) (stage : Stage Json) (w : World Json)
        → rank stage ≤ n
        → advance_by env job n (stage, w) ≡ resume (stage, w)
    unfolding advance_by
    advance_by-resume zero stage w h = at_end stage w h
    advance_by-resume (suc n) stage w h =
        advance_by-resume n (advance env job stage w).0 (advance env job stage w).1
          (rank-advance n stage w h)
        ∙ resume-advance stage w

    -- A task that takes nine turns or more, with nothing in between, has done exactly what its job
    -- does, whatever calls fail on the way: it has come to its end, or to the job's error, and left
    -- the same world.
    advance_by-handle :
        (n : ℕ) (w : World Json)
        → 9 ≤ n
        → advance_by env job n (arrived, w) ≡ outcome_of (handle env job w)
    advance_by-handle n w h = advance_by-resume n arrived w h
