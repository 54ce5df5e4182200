-- ===== src/Worker/Tasks/Calls.antt =====
-- What each call of a task's turn may leave (services/worker/src/probe.rs and store.rs).
use pqc_sec_inspection_cours.Prelude.{
  ◌≡◌, refl, inl, inr, Bool, true, false, Option, none, some, Text, Result, ok, err, List, [],
  Bool-cases, arith, ltb, if◌then◌else◌,
}
use pqc_sec_inspection_cours.Domain.Status.{ExecStatus, ResultStatus}
use pqc_sec_inspection_cours.Domain.Jobs.{Uuid, ProbeJob, test_channel}
use pqc_sec_inspection_cours.Domain.Models.{Subtask, Test}
use pqc_sec_inspection_cours.Proto.{ProbeResponse}
use pqc_sec_inspection_cours.Worker.World.{World, Env, Action, tick, perform, publish}
use pqc_sec_inspection_cours.Worker.Store.{
  Tally, mark_test_running, mark_subtask_running, save_report, mark_subtask_error, close_if_done,
  close_test_row,
}
use pqc_sec_inspection_cours.Worker.Adapters.{is_configured, capabilities}
use pqc_sec_inspection_cours.Worker.Probe.{not_enabled, updated, verdict, attempt, announce}
use pqc_sec_inspection_cours.Worker.Probe.Invariant.{subtasks-capabilities}
use pqc_sec_inspection_cours.Worker.Tasks.{
  Stage, arrived, marked, probing, rejecting, tallying, done, replied, judged, telling, tallied,
  reporting, broken, proceed,
}
use pqc_sec_inspection_cours.Worker.Tasks.Outcomes.{Comes, Ends, Ends-pure, Ends-bind, Ends-perform}
use pqc_sec_inspection_cours.Worker.Tasks.Tables.{started_stays, closes_row, over_before}
use pqc_sec_inspection_cours.Worker.Tasks.Turns.{
  SoundOn, Sound, Fails, gives_up, starts_row, ends_row,
}

module _ {Json : Type 0} (env : Env Json) (Other : Uuid → Type 0) (Else : Type 0)
    (job : ProbeJob) where
  -- After the call of a turn.
  abbrev pub Goes : {A : Type 0} → (A → Stage Json) → Action Json A → World Json → Type 0
  Goes next m w = Ends m w (λ a u. Sound Other Else job (next a) u) (Fails Other Else job)

  pub proceed_lem :
      {A : Type 0} (next : A → Stage Json) (m : Action Json A) (w : World Json)
      → Goes next m w
      → Sound Other Else job (proceed next (m w)).0 (proceed next (m w)).1
  proceed_lem {A = A} next m w h = cases (m w) h.comes
    where
      cases :
          (r : Result A Text × World Json)
          → Comes (λ a u. Sound Other Else job (next a) u) (Fails Other Else job) r
          → Sound Other Else job (proceed next r).0 (proceed next r).1
      cases (ok a, u) q = q
      cases (err e, u) q = q

  -- A call that leaves the tables alone.
  pub aside :
      {A : Type 0} (stage : Stage Json) (m : Action Json A) (w : World Json)
      → (m w).1.subtasks ≡ w.subtasks
      → (m w).1.tests ≡ w.tests
      → Sound Other Else job stage w
      → Ends m w (λ _ u. Sound Other Else job stage u) (Fails Other Else job)
  aside {A = A} stage m w rows tests h = record { comes = cases (m w) (rw (rows, tests) h) }
    where
      cases :
          (r : Result A Text × World Json)
          → Sound Other Else job stage r.1
          → Comes (λ _ u. Sound Other Else job stage u) (Fails Other Else job) r
      cases (ok a, u) q = q
      cases (err e, u) q = gives_up Other Else job stage u q

  pub marks_test :
      (w : World Json)
      → Sound Other Else job arrived w
      → Goes (λ _. marked) (mark_test_running env job.test_id) w
  unfolding mark_test_running
  marks_test w h =
      let fails = gives_up Other Else job arrived w h in
      Ends-perform env _ w
        (
          h.0,
          λ over. elim (h.1 over) [
            | inl closed ↦ inl (started_stays job.test_id _ w.tests closed)
            | inr rest ↦ inr rest
          ],
        )
        fails (fails.0, λ _. inr (inl tt))

  pub marks_row :
      (w : World Json)
      → Sound Other Else job marked w
      → Goes
          (λ _. if is_configured env job.adapter then probing else rejecting)
          (mark_subtask_running env job.subtask_id)
          w
  unfolding mark_subtask_running
  marks_row w h =
      Ends-perform env _ w
        (either (is_configured env job.adapter) _ w.tests (
          starts_row Other Else job probing (tick w) tt h,
          λ over. h.1 (over_before job.test_id job.subtask_id _ w.subtasks over),
        ))
        (gives_up Other Else job marked w h)
        (starts_row Other Else job (broken []) (tick w) tt h, λ _. inr (inl tt))
    where
      either :
          (b : Bool) (rows : List Subtask) (tests : List Test)
          → SoundOn {Json = Json} Other Else job probing rows tests
          → SoundOn {Json = Json} Other Else job (if b then probing else rejecting) rows tests
      either true rows tests q = q
      either false rows tests q = q

  pub saves :
      (result : ResultStatus) (response : ProbeResponse Json) (w : World Json)
      → Sound Other Else job (judged result response) w
      → Goes
          (λ _. telling ExecStatus.finished result)
          (save_report env job.subtask_id result response)
          w
  unfolding save_report
  saves result response w h =
      let stage : Stage Json = judged result response in
      let idle : (u : World Json)
          → Sound Other Else job stage u
          → Ends (perform env (λ v. v)) u (λ _. Sound Other Else job stage) (Fails Other Else job) =
        λ u q.
          Ends-perform env _ u q (gives_up Other Else job stage u q)
            (gives_up Other Else job stage u q) in
      Ends-bind _ _ w (idle w h) λ _ w1 h1. Ends-bind _ _ w1 (idle w1 h1) λ _ w2 h2.
        Ends-bind _ _ w2 (idle w2 h2) λ _ w3 h3.
          Ends-perform env _ w3
            (
              ends_row Other Else job stage (telling ExecStatus.finished result) _ w3
                  (λ s. inl refl) h3,
              λ _. inr (inl tt),
            )
            (gives_up Other Else job stage w3 h3)
            (ends_row Other Else job stage (broken []) _ w3 (λ s. inl refl) h3, λ _. inr (inl tt))

  pub rejects :
      (w : World Json)
      → Sound Other Else job rejecting w
      → Goes
          (λ _. telling ExecStatus.error ResultStatus.disabled)
          (mark_subtask_error env job.subtask_id (not_enabled job))
          w
  unfolding mark_subtask_error
  rejects w h =
      Ends-perform env _ w
        (
          ends_row Other Else job rejecting (telling ExecStatus.error ResultStatus.disabled) _
              (tick w) (λ s. inr refl) h,
          λ _. inr (inl tt),
        )
        (gives_up Other Else job rejecting w h)
        (
          ends_row Other Else job rejecting (broken []) _ (tick w) (λ s. inr refl) h,
          λ _. inr (inl tt),
        )

  pub closes :
      (counts : Tally) (w : World Json)
      → Sound Other Else job (tallied counts) w
      → Goes reporting (close_if_done env job.test_id counts) w
  unfolding close_if_done close_test_row
  closes counts w h = elim (Bool-cases (ltb 0 counts.outstanding)) [
    | inl busy ↦ rw busy (
        Ends-pure _ w (
          h.0,
          λ over. elim (h.1 over) [
            | inl closed ↦ inl closed
            | inr rest ↦ elim rest [
              | inl zero_left ↦ absurd (ground arith)
              | inr other ↦ inr (inr other)
            ]
          ],
        ))
    | inr free ↦
        let fails = gives_up Other Else job (tallied counts) w h in
        rw free (
          Ends-bind _ _ w
            (Ends-perform env {Q = λ _ u. Sound Other Else job (reporting none) u} _ w
              (h.0, λ _. inl (closes_row job.test_id _ counts w.tests)) fails
              (fails.0, λ _. inr (inl tt)))
            λ _ u q. Ends-pure _ u q)
  ]

  pub announces :
      (progress : Option _) (w : World Json)
      → Sound Other Else job (reporting progress) w
      → Goes (λ _. done) (announce env job progress) w
  unfolding announce publish
  announces none w h = Ends-pure tt w h
  announces (some p) w h =
      let fails = gives_up Other Else job (reporting (some p)) w h in
      Ends-perform env _ w h fails fails

  pub asks :
      (response : ProbeResponse Json) (w : World Json)
      → Sound Other Else job (replied response) w
      → Goes
          (λ caps. judged (verdict job response caps) response)
          (attempt (capabilities env job.adapter))
          w
  unfolding attempt
  asks response w h = record { comes = rw (subtasks-capabilities env job.adapter w, tests_same) h }
    where
      tests_same : (capabilities env job.adapter w).1.tests ≡ w.tests
      tests_same = unfold capabilities in ground arith

  pub tells :
      (exec : ExecStatus) (result : ResultStatus) (w : World Json)
      → Sound Other Else job (telling exec result) w
      → Goes (λ _. tallying) (publish env (test_channel job.test_id) (updated job exec result)) w
  unfolding publish
  tells exec result w h =
      let fails = gives_up Other Else job (telling exec result) w h in
      Ends-perform env _ w h fails fails
