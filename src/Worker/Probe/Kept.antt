-- ===== src/Worker/Probe/Kept.antt =====
-- No job adds a test or takes one away, or acknowledges a delivery (services/worker/src/probe.rs and store.rs).
use pqc_sec_inspection_cours.Prelude.{
  ◌≡◌, refl, ap, ◌∙◌, inl, inr, Bool, none, some, Option, List, [], ◌∷◌, Text, map, update_where,
  Bool-cases, arith,
}
use pqc_sec_inspection_cours.Domain.Jobs.{Uuid, ProbeJob, Channel, Event}
use pqc_sec_inspection_cours.Domain.Models.{Test}
use pqc_sec_inspection_cours.Worker.World.{World, Env, tick, publish}
use pqc_sec_inspection_cours.Worker.Store.{
  TestProgress, start_test, close_test, mark_subtask_running, mark_test_running, save_report,
  mark_subtask_error, close_if_done, close_test_row, finish_test_if_done,
}
use pqc_sec_inspection_cours.Worker.Adapters.{capabilities, probe}
use pqc_sec_inspection_cours.Worker.Probe.{
  request_of, attempt, announce, finish, handle_disabled, handle_configured, handle,
}
use pqc_sec_inspection_cours.Worker.Probe.Completed.{handle_all}
use pqc_sec_inspection_cours.Worker.Rules.{
  Keeps, Keeps-pure, Keeps-bind, Keeps-if, Keeps-perform, Keeps-query,
}

abbrev pub ids_of : List Test → List Uuid
ids_of tests = map (λ t. t.id) tests

ids-update :
    (p : Test → Bool) (f : Test → Test) (tests : List Test)
    → ((t : Test) → (f t).id ≡ t.id)
    → ids_of (update_where p f tests) ≡ ids_of tests
ids-update p f [] same = refl
ids-update p f (t ∷ tests) same = elim (Bool-cases (p t)) [
  | inl e ↦ rw (e, same t, ids-update p f tests same) refl
  | inr e ↦ rw (e, ids-update p f tests same) refl
]

module _ {Json : Type 0} (env : Env Json) (ids : List Uuid) (acked : List (Text × Text)) where
  abbrev pub Listed : World Json → Type 0
  Listed w = (ids_of w.tests ≡ ids) × (w.acked ≡ acked)

  ticks : (w : World Json) → Listed w → Listed (tick w)
  ticks w h = h

  probe-Keeps : (job : ProbeJob) → Keeps Listed (probe env job.adapter (request_of job))
  probe-Keeps job = record { at = λ w h. (ap ids_of (same w).0 ∙ h.0, (same w).1 ∙ h.1) }
    where
      same :
          (w : World Json)
          → ((probe env job.adapter (request_of job) w).1.tests ≡ w.tests)
            × ((probe env job.adapter (request_of job) w).1.acked ≡ w.acked)
      same w = (unfold probe in ground arith, unfold probe in ground arith)

  capabilities-Keeps : (job : ProbeJob) → Keeps Listed (attempt (capabilities env job.adapter))
  unfolding attempt
  capabilities-Keeps job = record { at = λ w h. (ap ids_of (same w).0 ∙ h.0, (same w).1 ∙ h.1) }
    where
      same :
          (w : World Json)
          → ((capabilities env job.adapter w).1.tests ≡ w.tests)
            × ((capabilities env job.adapter w).1.acked ≡ w.acked)
      same w = (unfold capabilities in ground arith, unfold capabilities in ground arith)

  publish-Keeps : (c : Channel) (e : Event) → Keeps Listed (publish env c e)
  unfolding publish
  publish-Keeps c e = Keeps-perform env _ ticks (λ w h. h)

  finish-Keeps : (job : ProbeJob) → Keeps Listed (finish env job)
  unfolding finish finish_test_if_done close_if_done close_test_row
  finish-Keeps job =
      Keeps-bind _ _
        (Keeps-bind _ _ (Keeps-query env _ ticks) λ t. Keeps-if _ _ _ (Keeps-pure _) (
          Keeps-bind _ _
            (Keeps-perform env _ ticks
              (λ w h. (ids-update _ (close_test w.clock _) w.tests (λ t. refl) ∙ h.0, h.1)))
            λ _. Keeps-pure _))
        λ p. announced p
    where
      announced : (p : Option TestProgress) → Keeps Listed (announce env job p)
      announced none = unfold announce in Keeps-pure _
      announced (some p) = unfold announce in publish-Keeps _ _

  handle_disabled-Keeps : (job : ProbeJob) → Keeps Listed (handle_disabled env job)
  unfolding handle_disabled mark_subtask_error
  handle_disabled-Keeps job =
      Keeps-bind _ _ (Keeps-perform env _ ticks (λ w h. h))
        λ _. Keeps-bind _ _ (publish-Keeps _ _) λ _. finish-Keeps job

  handle_configured-Keeps : (job : ProbeJob) → Keeps Listed (handle_configured env job)
  unfolding handle_configured save_report
  handle_configured-Keeps job = Keeps-bind _ _ (probe-Keeps job) λ r.
      Keeps-bind _ _ (capabilities-Keeps job) λ caps.
        Keeps-bind _ _
          (Keeps-bind _ _ (Keeps-perform env _ ticks (λ w h. h)) λ _.
            Keeps-bind _ _ (Keeps-perform env _ ticks (λ w h. h)) λ _.
              Keeps-bind _ _ (Keeps-perform env _ ticks (λ w h. h))
                λ _. Keeps-perform env _ ticks (λ w h. h))
          λ _. Keeps-bind _ _ (publish-Keeps _ _) λ _. finish-Keeps job

  pub handle-Keeps : (job : ProbeJob) → Keeps Listed (handle env job)
  unfolding handle mark_test_running mark_subtask_running
  handle-Keeps job =
      Keeps-bind _ _
        (Keeps-perform env _ ticks
          (λ w h. (ids-update _ (start_test w.clock) w.tests (λ t. refl) ∙ h.0, h.1)))
        λ _.
          Keeps-bind _ _ (Keeps-perform env _ ticks (λ w h. h))
            λ _. Keeps-if _ _ _ (handle_configured-Keeps job) (handle_disabled-Keeps job)

  -- The tests are the same ones and no delivery is acknowledged, whatever calls fail on the way.
  pub handle_all-Keeps : (jobs : List ProbeJob) → Keeps Listed (handle_all env jobs)
  unfolding handle_all attempt
  handle_all-Keeps [] = Keeps-pure _
  handle_all-Keeps (job ∷ jobs) =
      Keeps-bind _ _ (record { at = λ w h. (handle-Keeps job).at w h }) λ _. handle_all-Keeps jobs
