-- ===== src/Worker/Delivery/Batch.antt =====
-- The deliveries of the jobs of a test, one after the other (services/worker/src/main.rs, the
-- loop of `tick`, with a single permit).
use pqc_sec_inspection_cours.Prelude.{
  ◌≡◌, refl, sym, ◌∙◌, subst, List, [], ◌∷◌, ◌++◌, filter, All, All-imp, Some, Some-append_left,
  Text, codes, text_eq, Result, ok, ◌==◌,
}
use pqc_sec_inspection_cours.Domain.Jobs.{Uuid, ProbeJob, KemJob, stream_probe}
use pqc_sec_inspection_cours.Worker.World.{World, Env, Action, pure, ◌>>◌}
use pqc_sec_inspection_cours.Worker.Store.{of_test}
use pqc_sec_inspection_cours.Worker.Stream.{Delivery}
use pqc_sec_inspection_cours.Worker.Rules.{
  Keeps, Keeps-pure, Keeps-bind, Keeps-perform, Yields, Yields-pure, Yields-bind, Yields-weaken,
  Works,
}
use pqc_sec_inspection_cours.Worker.Closing.{IsOver}
use pqc_sec_inspection_cours.Worker.Probe.{handle, attempt}
use pqc_sec_inspection_cours.Worker.Probe.Due.{IsDue, AllDue}
use pqc_sec_inspection_cours.Worker.Probe.Ended.{IsClosed, Left, Yields-kept}
use pqc_sec_inspection_cours.Worker.Probe.Completed.{handle-Left, Left-closes, due_rows}
use pqc_sec_inspection_cours.Worker.Probe.Kept.{ids_of, handle-Keeps}
use pqc_sec_inspection_cours.Worker.Delivery.{
  IsAcked, dispatch, ack, deliver, ack-Yields, dispatch-Yields,
}

-- Each of the deliveries has been acknowledged.
abbrev pub AllAcked : List Delivery → List (Text × Text) → Type 0
AllAcked ds acked = All (λ d. Some (λ a. a ≡ (d.stream, d.id)) acked) ds

module _ {Json : Type 0} (probe_job : Text → Result ProbeJob Text)
    (kem_job : Text → Result KemJob Text) (env : Env Json) where
  unfoldable pub deliver_all : List Delivery → Action Json (Unit {0})
  deliver_all [] = pure tt
  deliver_all (d ∷ ds) = do deliver probe_job kem_job env d; deliver_all ds

  dispatch_probe :
      (d : Delivery) (job : ProbeJob)
      → d.stream ≡ stream_probe
      → probe_job d.payload ≡ ok job
      → dispatch probe_job kem_job env d ≡ handle env job
  unfolding dispatch text_eq codes
  dispatch_probe d job s e = rw (s, e) refl

-- The deliveries are on the stream of the probes, and decode to these jobs.
abbrev pub AllCarry : (Text → Result ProbeJob Text) → List Delivery → List ProbeJob → Type 0
AllCarry probe_job [] [] = Unit
AllCarry probe_job [] (job ∷ jobs) = ⊥
AllCarry probe_job (d ∷ ds) [] = ⊥
AllCarry probe_job (d ∷ ds) (job ∷ jobs) =
    (d.stream ≡ stream_probe) × (probe_job d.payload ≡ ok job) × AllCarry probe_job ds jobs

-- The tests are those, and these deliveries are acknowledged.
abbrev pub Remains : {Json : Type 0} → List Uuid → List Delivery → World Json → Type 0
Remains ids done w = (ids_of w.tests ≡ ids) × AllAcked done w.acked

module _ {Json : Type 0} (probe_job : Text → Result ProbeJob Text)
    (kem_job : Text → Result KemJob Text) (env : Env Json) where
  module _ (ids : List Uuid) (done : List Delivery) where
    dispatch-Remains :
        (d : Delivery) (job : ProbeJob)
        → d.stream ≡ stream_probe
        → probe_job d.payload ≡ ok job
        → Keeps (Remains ids done) (attempt (dispatch probe_job kem_job env d))
    unfolding attempt
    dispatch-Remains d job s e = record {
      at = λ w h.
          let k = (handle-Keeps env (ids_of w.tests) w.acked job).at w (refl, refl) in
          subst (λ m. Remains ids done (m w).1)
            (sym (dispatch_probe probe_job kem_job env d job s e))
            (k.0 ∙ h.0, subst (AllAcked done) (sym k.1) h.1);
    }

    ack-Remains : (d : Delivery) → Keeps (Remains ids done) (attempt (ack probe_job kem_job env d))
    unfolding attempt ack
    ack-Remains d =
        let k =
          Keeps-perform env {P = Remains ids done}
            (λ w. record w { acked = w.acked ++ (d.stream, d.id) ∷ [] }) (λ w h. h)
            (λ w h. (h.0, All-imp (λ e more. Some-append_left _ w.acked _ more) done h.1)) in
        record { at = λ w h. k.at w h }

    pub deliver_all-Remains :
        (ds : List Delivery) (jobs : List ProbeJob)
        → AllCarry probe_job ds jobs
        → Keeps (Remains ids done) (deliver_all probe_job kem_job env ds)
    unfolding deliver_all deliver
    deliver_all-Remains [] jobs c = Keeps-pure _
    deliver_all-Remains (d ∷ ds) [] c = absurd c
    deliver_all-Remains (d ∷ ds) (job ∷ jobs) c =
        Keeps-bind _ _
          (Keeps-bind _ _ (dispatch-Remains d job c.0 c.1)
            λ _. Keeps-bind _ _ (ack-Remains d) λ _. Keeps-pure _)
          λ _. deliver_all-Remains ds jobs c.2

  module _ (works_all : Works env) (id : Uuid) where
    deliver-Left :
        (d : Delivery) (job : ProbeJob) (rest : List ProbeJob) (w : World Json)
        → d.stream ≡ stream_probe
        → probe_job d.payload ≡ ok job
        → job.test_id ≡ id
        → AllDue id (job ∷ rest) w.subtasks
        → Yields (deliver probe_job kem_job env d) w (λ _ w'. IsAcked d w' × Left id rest w')
    unfolding deliver
    deliver-Left d job rest w s e same due =
        let handled = handle-Left env works_all id job rest w same due in
        let run = dispatch_probe probe_job kem_job env d job s e in
        Yields-bind _ _ w (dispatch-Yields probe_job kem_job env works_all d w) λ _ w1 h1.
          Yields-bind _ _ w1
            (ack-Yields probe_job kem_job env works_all (Left id rest) d w1 (λ _ _ h. h)
              (rw (h1.1, run) handled.post))
            λ _ w2 h. Yields-pure tt w2 h

    deliver_all-Left :
        (d : Delivery) (ds : List Delivery) (job : ProbeJob) (jobs : List ProbeJob) (w : World Json)
        → AllCarry probe_job (d ∷ ds) (job ∷ jobs)
        → All (λ j. j.test_id ≡ id) (job ∷ jobs)
        → AllDue id (job ∷ jobs) w.subtasks
        → Yields
            (deliver_all probe_job kem_job env (d ∷ ds))
            w
            (λ _ w'. AllAcked (d ∷ ds) w'.acked × Left id [] w')
    unfolding deliver_all
    deliver_all-Left d [] job (next ∷ jobs) w c own due = absurd (c.2)
    deliver_all-Left d (e ∷ ds) job [] w c own due = absurd (c.2)
    deliver_all-Left d [] job [] w c own due =
        Yields-bind _ _ w (deliver-Left d job [] w c.0 c.1 own.0 due)
          λ _ w1 h. Yields-pure tt w1 ((h.0, tt), h.1)
    deliver_all-Left d (e ∷ ds) job (next ∷ jobs) w c own due =
        Yields-bind _ _ w (deliver-Left d job (next ∷ jobs) w c.0 c.1 own.0 due) λ _ w1 h.
          Yields-weaken _ w1 (λ _ w2 k. (((k.1).1.0, (k.0).0), (k.0).1))
            (Yields-kept (Remains (ids_of w1.tests) (d ∷ []))
              (deliver_all probe_job kem_job env (e ∷ ds)) w1
              (deliver_all-Remains (ids_of w1.tests) (d ∷ []) (e ∷ ds) (next ∷ jobs) c.2)
              (refl, (h.0, tt)) (deliver_all-Left e ds next jobs w1 c.2 own.1 (h.1).0))

    -- Where every call works, and each row of a test is over or has one of the jobs that the
    -- deliveries carry, the deliveries bring the test to its end when they are taken one after the
    -- other: each is acknowledged, each row of the test is finished or has erred, and the test is
    -- `finished` or `failed`, whatever the adapters answer.
    pub deliver_all-closes :
        (d : Delivery) (ds : List Delivery) (job : ProbeJob) (jobs : List ProbeJob) (w : World Json)
        → AllCarry probe_job (d ∷ ds) (job ∷ jobs)
        → All (λ j. j.test_id ≡ id) (job ∷ jobs)
        → All (IsDue (job ∷ jobs)) (of_test id w.subtasks)
        → Yields (deliver_all probe_job kem_job env (d ∷ ds)) w (λ _ w'.
          AllAcked (d ∷ ds) w'.acked
          × All IsOver (of_test id w'.subtasks)
          × All IsClosed (filter (λ t. t.id == id) w'.tests))
    deliver_all-closes d ds job jobs w c own due =
        Yields-weaken _ w
          (λ _ w' h.
            (let closed = Left-closes env works_all id w' h.1 in (h.0, closed.0, closed.1)))
          (deliver_all-Left d ds job jobs w c own (due_rows env works_all id (job ∷ jobs) w due))
