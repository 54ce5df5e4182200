-- ===== src/Adapter/Response.antt =====
-- The report that every stack's parser builds (adapters/cli/src/backend.rs).
pub mod Report
use pqc_sec_inspection_cours.Prelude.{
  ℕ, Bool, true, false, Option, none, some, List, [], ◌∷◌, ◌++◌, is_empty, is_some, unwrap_or, Text,
  codes, if◌then◌else◌,
}
use pqc_sec_inspection_cours.Proto.{
  ProbeRequest, ProbeResponse, HandshakeMessage, MessageField, single, outbound, inbound,
  Negotiated, Alert, Certificate, HttpOutcome, Evidence, Stage, tls_handshake, http_request,
  complete,
}

abbrev pub default_cipher_suites : List Text
default_cipher_suites =
    codes "TLS_AES_128_GCM_SHA256"
    ∷ codes "TLS_AES_256_GCM_SHA384"
    ∷ codes "TLS_CHACHA20_POLY1305_SHA256"
    ∷ codes "ECDHE-ECDSA-AES128-GCM-SHA256"
    ∷ codes "ECDHE-RSA-AES128-GCM-SHA256"
    ∷ codes "ECDHE-ECDSA-AES256-GCM-SHA384"
    ∷ codes "ECDHE-RSA-AES256-GCM-SHA384"
    ∷ []

abbrev pub field : Text → List Text → MessageField
field label values = record { label = label; values = values }

unfoldable pub client_hello : ProbeRequest → HandshakeMessage
client_hello request = record {
  index = 0;
  direction = outbound;
  kind = codes "ClientHello";
  fields =
      field (codes "Offered Groups") request.kem_groups
      ∷ field (codes "Signature Algorithms") request.sig_algs
      ∷ field (codes "Supported Versions") request.tls_versions
      ∷ field (codes "Cipher Suites Offered")
          (if is_empty request.cipher_suites then default_cipher_suites else request.cipher_suites)
      ∷ [];
}

abbrev pub known_or : Option Text → Text
known_or value = unwrap_or (codes "unknown") value

unfoldable pub server_hello : Negotiated → HandshakeMessage
server_hello negotiated = record {
  index = 1;
  direction = inbound;
  kind = codes "ServerHello";
  fields =
      single (codes "Version") (known_or negotiated.tls_version)
      ∷ single (codes "Cipher Suite") (known_or negotiated.cipher_suite)
      ∷ single (codes "Key Exchange Group") (known_or negotiated.group)
      ∷ [];
}

unfoldable pub alert_message : Alert → HandshakeMessage
alert_message alert = record {
  index = 1;
  direction = inbound;
  kind = codes "Alert";
  fields = single (codes "Level") alert.level ∷ single (codes "Description") alert.description ∷ [];
}

-- The message after the ClientHello, if there is one.
unfoldable pub answer_messages : Bool → Negotiated → Option Alert → List HandshakeMessage
answer_messages true negotiated alert = server_hello negotiated ∷ []
answer_messages false negotiated (some alert) = alert_message alert ∷ []
answer_messages false negotiated none = []

unfoldable pub failed_stage : Bool → Option HttpOutcome → Stage
failed_stage true (some http) = complete
failed_stage true none = http_request
failed_stage false http = tls_handshake

module _ {Json : Type 0} (offer : List Text → List Text → Json) where
  -- `offer` makes the JSON object of the offered groups and signature algorithms.
  unfoldable pub build_response :
      Text
      → ProbeRequest
      → Bool
      → Negotiated
      → Option Alert
      → List Certificate
      → Option HttpOutcome
      → Evidence
      → Option Text
      → ProbeResponse Json
  build_response adapter request success negotiated alert cert_chain http evidence error_summary =
      record {
        adapter = adapter;
        handshake_success = success;
        negotiated = negotiated;
        messages = client_hello request ∷ answer_messages success negotiated alert;
        alert = alert;
        cert_chain = cert_chain;
        http = http;
        failed_stage = failed_stage success http;
        error_summary = if success then none else error_summary;
        diagnostics = offer request.kem_groups request.sig_algs;
        evidence = evidence;
        duration_ms = 0;
      }
