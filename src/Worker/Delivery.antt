-- ===== src/Worker/Delivery.antt =====
-- What becomes of a delivery (services/worker/src/main.rs). The readers of the payloads are
-- parameters: they stand for `serde_json::from_str`.
pub mod Batch
use pqc_sec_inspection_cours.Prelude.{
  suc, ◌≡◌, refl, inl, true, List, [], ◌∷◌, ◌++◌, Text, codes, text_eq, if◌then◌else◌, Result, ok,
  err, Some, Some-append_right,
}
use pqc_sec_inspection_cours.Domain.Jobs.{ProbeJob, KemJob, stream_probe, stream_kem}
use pqc_sec_inspection_cours.Domain.Models.{KemRunLog}
use pqc_sec_inspection_cours.Worker.World.{World, Env, Action, pure, fail, ◌>>=◌, perform}
use pqc_sec_inspection_cours.Worker.Stream.{Delivery}
use pqc_sec_inspection_cours.Worker.Rules.{Yields, Yields-pure, Yields-bind, Yields-perform, Works}
use pqc_sec_inspection_cours.Worker.Probe.{handle, attempt}
use pqc_sec_inspection_cours.Worker.Kem.Console.{is_logged}
use pqc_sec_inspection_cours.Worker.Kem.Run.{handle_kem}
use pqc_sec_inspection_cours.Worker.Kem.Run.Redelivered.{StillRunning, handle_kem-redelivered}

-- The delivery is acknowledged.
abbrev pub IsAcked : {Json : Type 0} → Delivery → World Json → Type 0
IsAcked d w = Some (λ a. a ≡ (d.stream, d.id)) w.acked

module _ {Json : Type 0} (probe_job : Text → Result ProbeJob Text)
    (kem_job : Text → Result KemJob Text) (env : Env Json) where
  abbrev pub run_probe : Result ProbeJob Text → Action Json (Unit {0})
  run_probe (ok job) = handle env job
  run_probe (err e) = fail (codes "undecodable probe job: " ++ e)

  abbrev pub run_kem : Result KemJob Text → Action Json (Unit {0})
  run_kem (ok job) = handle_kem env job
  run_kem (err e) = fail (codes "undecodable kem job: " ++ e)

  unfoldable pub dispatch : Delivery → Action Json (Unit {0})
  dispatch d =
      if text_eq d.stream stream_probe
      then run_probe (probe_job d.payload)
      else if text_eq d.stream stream_kem
      then run_kem (kem_job d.payload)
      else fail (codes "unknown stream " ++ d.stream)

  -- `stream::ack`
  unfoldable pub ack : Delivery → Action Json (Unit {0})
  ack d = perform env λ w. record w { acked = w.acked ++ (d.stream, d.id) ∷ [] }

  -- The spawned task: an error of the job or of the acknowledgement only goes to the trace.
  unfoldable pub deliver : Delivery → Action Json (Unit {0})
  deliver d = do outcome ← attempt (dispatch d); acked ← attempt (ack d); pure tt

  module _ (works_all : Works env) where
    -- Acknowledging keeps what does not speak of the acknowledged entries.
    ack-Yields :
        (P : World Json → Type 0) (d : Delivery) (w : World Json)
        → ((u : World Json) (entries : List (Text × Text))
            → P u
            → P (record u { acked = entries; clock = suc u.clock }))
        → P w
        → Yields (attempt (ack d)) w (λ _ w'. IsAcked d w' × P w')
    unfolding attempt ack
    ack-Yields P d w keeps h =
        let y =
          Yields-perform env {Q = λ _ w'. IsAcked d w' × P w'}
            (λ u. record u { acked = u.acked ++ (d.stream, d.id) ∷ [] }) w works_all
            (Some-append_right _ w.acked _ (inl refl), keeps w _ h) in
        record { value = (ack d w).0; returns = refl; post = y.post }

    dispatch-Yields :
        (d : Delivery) (w : World Json)
        → Yields (attempt (dispatch d)) w (λ r w'. (r ≡ (dispatch d w).0) × (w' ≡ (dispatch d w).1))
    unfolding attempt
    dispatch-Yields d w = record { value = (dispatch d w).0; returns = refl; post = (refl, refl) }

    -- Where every call works, the task of a delivery ends well and has acknowledged the delivery,
    -- whichever stream it comes from and whether or not its payload decodes and its job succeeds.
    pub deliver-acks : (d : Delivery) (w : World Json) → Yields (deliver d) w (λ _. IsAcked d)
    unfolding deliver
    deliver-acks d w = Yields-bind _ _ w (dispatch-Yields d w) λ _ w1 _.
        Yields-bind _ _ w1 (ack-Yields (λ _. Unit) d w1 (λ _ _ _. tt) tt)
          λ _ w2 h. Yields-pure tt w2 h.0

    dispatch_kem :
        (d : Delivery) (job : KemJob)
        → d.stream ≡ stream_kem
        → kem_job d.payload ≡ ok job
        → dispatch d ≡ handle_kem env job
    unfolding dispatch text_eq codes
    dispatch_kem d job s e = rw (s, e) refl

    -- Where every call works, a delivery of a KEM job whose run has its first two lines in the
    -- log already is acknowledged, although the run's row stays `running`.
    pub deliver-redelivered :
        (d : Delivery) (job : KemJob) (lines : List KemRunLog)
        (one : is_logged job.run_id 1 lines ≡ true) (two : is_logged job.run_id 2 lines ≡ true)
        (w : World Json)
        → w.kem_logs ≡ lines
        → d.stream ≡ stream_kem
        → kem_job d.payload ≡ ok job
        → Yields (deliver d) w (λ _ w'. IsAcked d w' × StillRunning job w')
    unfolding deliver
    deliver-redelivered d job lines one two w same s e =
        let f = handle_kem-redelivered env job lines works_all one two w same in
        let run = dispatch_kem d job s e in
        Yields-bind _ _ w (dispatch-Yields d w) λ _ w1 h1.
          Yields-bind _ _ w1
            (ack-Yields (StillRunning job) d w1 (λ _ _ h. h) (rw (h1.1, run) f.post))
            λ _ w2 h. Yields-pure tt w2 h
