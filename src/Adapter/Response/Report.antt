-- ===== src/Adapter/Response/Report.antt =====
-- When the parts of a report agree with each other, and the sizes of what it carries.
use pqc_sec_inspection_cours.Prelude.{
  Each, ◌≡◌, ◌↔◌, ◌⊎◌, inl, inr, ◌≤◌, ℕ, arith, Bool, true, false, Option, none, some, List, length,
  is_some, Text,
}
use pqc_sec_inspection_cours.Proto.{
  ProbeRequest, ProbeResponse, Negotiated, Alert, Certificate, HttpOutcome, Evidence, Stage, tcp,
  tls_handshake, http_request, complete, failure,
}
use pqc_sec_inspection_cours.Adapter.Output.{u16_max, u64_max}
use pqc_sec_inspection_cours.Adapter.Response.{build_response, failed_stage}

-- A handshake succeeded exactly when the probe went on to the request, it is complete exactly when
-- there is an answer, and a success has no error.
unfoldable pub Consistent : {Json : Type 0} → ProbeResponse Json → Type 0
Consistent r =
    ((r.handshake_success ≡ true) ↔ ((r.failed_stage ≡ http_request) ⊎ (r.failed_stage ≡ complete)))
    × ((r.failed_stage ≡ complete) ↔ (is_some r.http ≡ true))
    × (r.handshake_success ≡ true → r.error_summary ≡ none)

abbrev pub AtMost : ℕ → Option Text → Type 0
AtMost n t = Each (λ t. length t ≤ n) t

abbrev pub AnswerBounded : HttpOutcome → Type 0
AnswerBounded answer = (answer.status ≤ u16_max) × AtMost 512 answer.body_excerpt

-- The numbers fit their types and the texts that are cut are short.
unfoldable pub Bounded : {Json : Type 0} → ProbeResponse Json → Type 0
Bounded r =
    Each AnswerBounded r.http
    × (r.evidence.bytes_sent ≤ u64_max)
    × (r.evidence.bytes_received ≤ u64_max)
    × AtMost 300 r.error_summary

module _ {Json : Type 0} where
  pub failure-Consistent :
      (null : Json) (adapter : Text) (stage : Stage) (error : Text)
      → (stage ≡ tcp) ⊎ (stage ≡ tls_handshake)
      → Consistent (failure null adapter stage error)
  unfolding Consistent
  failure-Consistent null adapter stage error (inl e) = ground arith
  failure-Consistent null adapter stage error (inr e) = ground arith

  module _ (offer : List Text → List Text → Json) where
    pub build_response-Consistent :
        (adapter : Text) (request : ProbeRequest) (success : Bool) (negotiated : Negotiated)
        (alert : Option Alert) (chain : List Certificate) (http : Option HttpOutcome)
        (evidence : Evidence) (error : Option Text)
        → (is_some http ≡ true → success ≡ true)
        → Consistent (
            build_response offer adapter request success negotiated alert chain http evidence error)
    unfolding Consistent build_response failed_stage
    build_response-Consistent a r true n al ch none ev er h = ground arith
    build_response-Consistent a r true n al ch (some _) ev er h = ground arith
    build_response-Consistent a r false n al ch none ev er h = ground arith
    build_response-Consistent a r false n al ch (some _) ev er h = ground arith

    pub build_response-Bounded :
        (adapter : Text) (request : ProbeRequest) (success : Bool) (negotiated : Negotiated)
        (alert : Option Alert) (chain : List Certificate) (http : Option HttpOutcome)
        (evidence : Evidence) (error : Option Text)
        → Each AnswerBounded http
        → evidence.bytes_sent ≤ u64_max
        → evidence.bytes_received ≤ u64_max
        → AtMost 300 error
        → Bounded (
            build_response offer adapter request success negotiated alert chain http evidence error)
    unfolding Bounded build_response
    build_response-Bounded a r true n al ch http ev er h b c d = (h, b, c, tt)
    build_response-Bounded a r false n al ch http ev er h b c d = (h, b, c, d)
