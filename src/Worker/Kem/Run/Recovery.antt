-- ===== src/Worker/Kem/Run/Recovery.antt =====
-- The probing loop against a server with a preference order (services/worker/src/kem.rs).
use pqc_sec_inspection_cours.Prelude.{
  ℕ, zero, suc, ◌≤◌, ◌≡◌, refl, sym, ◌∙◌, inl, inr, none, List, [], ◌∷◌, ◌++◌, append_assoc,
  append-nil, head?, Text, length, arith, ◌==◌, Option-cases, ok,
}
use pqc_sec_inspection_cours.Proto.{ProbeResponse}
use pqc_sec_inspection_cours.Domain.Jobs.{KemJob}
use pqc_sec_inspection_cours.Worker.World.{World, Env, pure}
use pqc_sec_inspection_cours.Worker.Adapters.{probe}
use pqc_sec_inspection_cours.Worker.Rules.{Yields, Yields-pure, Yields-bind, Yields-if, Works}
use pqc_sec_inspection_cours.Worker.Kem.Texts.{request_for}
use pqc_sec_inspection_cours.Worker.Kem.Run.{others, chosen, probe_rounds, log}
use pqc_sec_inspection_cours.Worker.Kem.Run.Numbering.{Fresh, logs, probes}
use pqc_sec_inspection_cours.Worker.Kem.Run.Fresh.{log_line-Yields}
use pqc_sec_inspection_cours.Worker.Kem.Run.Offers.{
  is_offered, offered, Distinct, is_offered-head, others_shorter, length-others-lt, offered-others,
}

offered-nil : (prefs : List Text) → offered prefs [] ≡ []
unfolding is_offered
offered-nil [] = refl
offered-nil (p ∷ prefs) = offered-nil prefs

nil_of_head : {A : Type 0} (xs : List A) → head? xs ≡ none → xs ≡ []
nil_of_head [] h = refl
nil_of_head (x ∷ xs) h = cc

module _ {Json : Type 0} where
  -- An adapter through which a handshake with the job's server always picks the first group of
  -- `prefs` that is offered, and fails where none is.
  pub record Prefers (env : Env Json) (job : KemJob) (adapter : Text) (prefs : List Text)
      : Type 0 where
    pub response : World Json → List Text → ProbeResponse Json
    pub answers :
        (w : World Json) (offer : List Text)
        → (probe env adapter (request_for job offer) w).0 ≡ ok (response w offer)
    pub picks :
        (w : World Json) (offer : List Text)
        → chosen (response w offer) ≡ head? (offered prefs offer)

  module _ (env : Env Json) (works_all : Works env) (job : KemJob) (adapter : Text)
      (prefs : List Text) (server : Prefers env job adapter prefs) (distinct : Distinct prefs) where
    probe-Yields :
        (offer : List Text) (w : World Json)
        → Fresh job.run_id w
        → Yields
            (probe env adapter (request_for job offer))
            w
            (λ r w1. (chosen r ≡ head? (offered prefs offer)) × Fresh job.run_id w1)
    probe-Yields offer w h = record {
      value = server.response w offer;
      returns = server.answers w offer;
      post = (server.picks w offer, (probes env job adapter (request_for job offer)).at w h);
    }

    log-Yields :
        (level message : Text) (w : World Json)
        → Fresh job.run_id w
        → Yields (log env job level message) w (λ _. Fresh job.run_id)
    log-Yields level message w h =
        let y = log_line-Yields env job works_all level message w h in
        record { value = y.value; returns = y.returns; post = (logs env job level message).at w h }

    rounds_from :
        (fuel : ℕ) (offer found : List Text) (w : World Json)
        → length offer ≤ fuel
        → Fresh job.run_id w
        → Yields
            (probe_rounds env job fuel adapter offer found)
            w
            (λ order w'. (order ≡ found ++ offered prefs offer) × Fresh job.run_id w')
    unfolding probe_rounds
    rounds_from zero [] found w enough h =
        Yields-pure found w (rw (offered-nil prefs) (sym (append-nil found)), h)
    rounds_from zero (g ∷ gs) found w enough h = absurd (omega (arith, enough))
    rounds_from (suc fuel) [] found w enough h =
        Yields-pure found w (rw (offered-nil prefs) (sym (append-nil found)), h)
    rounds_from (suc fuel) (g ∷ gs) found w enough h =
        Yields-bind _ _ w (probe-Yields (g ∷ gs) w h) λ r w1 picked.
          elim (Option-cases (chosen r)) [
            | inl e ↦ rw e (
                Yields-pure found w1
                  (rw (nil_of_head _ (sym picked.0 ∙ e)) (sym (append-nil found)), picked.1))
            | inr (group, e) ↦
                let first = sym picked.0 ∙ e in
                let taken =
                  others_shorter group (g ∷ gs) (is_offered-head group prefs (g ∷ gs) first) in
                let fewer = length-others-lt group (g ∷ gs) taken in
                let split = offered-others group prefs (g ∷ gs) distinct first in
                rw e (
                  Yields-bind _ _ w1 (log-Yields _ _ w1 picked.1) λ _ w2 h2.
                    Yields-if (length (others group (g ∷ gs)) == length (g ∷ gs))
                      (pure (found ++ group ∷ []))
                      (probe_rounds env job fuel adapter (others group (g ∷ gs))
                        (found ++ group ∷ []))
                      w2 (λ stop. cc (stop, taken))
                      λ _.
                        rw
                          (
                            split,
                            ← append_assoc found (group ∷ [])
                                (offered prefs (others group (g ∷ gs))),
                          )
                          (rounds_from fuel (others group (g ∷ gs)) (found ++ group ∷ []) w2
                            (omega (arith, fewer, enough)) h2))
          ]

    -- Where every call of the database and of Redis works, the log has no line of the run from the
    -- console's number on, and no group stands twice in a server's preference order: against a
    -- server that picks the first group of that order that is offered, and an adapter that always
    -- answers, the loop returns exactly the offered groups of the order, in that order.
    pub probe_rounds-recovers :
        (offer : List Text) (w : World Json)
        → Fresh job.run_id w
        → Yields
            (probe_rounds env job (length offer) adapter offer [])
            w
            (λ order w'. (order ≡ offered prefs offer) × Fresh job.run_id w')
    probe_rounds-recovers offer w h = rounds_from (length offer) offer [] w (omega arith) h
