-- ===== src/Adapter/Stacks.antt =====
-- The parsers of the three stacks' output, and the stand-in (adapters/cli/src/backend.rs).
pub mod Mock
use pqc_sec_inspection_cours.Prelude.{
  ℕ, Bool, true, false, not, ◌&&◌, ◌||◌, Option, none, some, List, [], ◌∷◌, ◌++◌, map, any, head?,
  is_empty, is_some, unwrap_or, or_else, Text, codes, text_eq, trim, contains, eq_ignore_ascii_case,
  split_on, split_by, ◌==◌, if◌then◌else◌,
}
use pqc_sec_inspection_cours.Json.{and_then}
use pqc_sec_inspection_cours.Proto.{
  ProbeRequest, ProbeResponse, Negotiated, no_negotiated, Alert, Certificate, HttpOutcome, single,
  Evidence, no_evidence,
}
use pqc_sec_inspection_cours.Adapter.Config.{Config, adapter_name, kem_group_list, sig_alg_list}
use pqc_sec_inspection_cours.Adapter.Output.{
  value_after, parse_alert, parse_http, parse_openssl_certs, byte_counts, strip_key_size,
  first_error_line, fatal, bare_certificate,
}
use pqc_sec_inspection_cours.Adapter.Response.{build_response}

-- `.map(f)` and `.filter(p)` of an option
abbrev pub map_some : (Text → Text) → Option Text → Option Text
map_some f none = none
map_some f (some t) = some (f t)

abbrev pub keep_if : (Text → Bool) → Option Text → Option Text
keep_if p none = none
keep_if p (some t) = if p t then some t else none

abbrev pub first_of : List Text → Option Text
first_of [] = none
first_of (t ∷ _) = some t

unfoldable pub openssl_version : Text → Option Text
openssl_version stdout = or_else (value_after stdout (codes "Protocol  : ")) (
    or_else (value_after stdout (codes "Protocol: ")) (
      and_then (value_after stdout (codes "New, "))
        (λ rest. map_some trim (first_of (split_on b',' rest)))))

-- The placeholders of a handshake that was never completed are no cipher.
abbrev pub is_cipher : Text → Bool
is_cipher c =
    not (text_eq c (codes "0000"))
    && not (text_eq c (codes "(NONE)"))
    && not (text_eq c (codes "NONE"))

unfoldable pub openssl_cipher : Text → Option Text
openssl_cipher stdout =
    keep_if is_cipher (
      or_else (value_after stdout (codes "Cipher    : ")) (value_after stdout (codes "Cipher is ")))

abbrev pub is_group : Text → Bool
is_group g = not (text_eq g (codes "<NULL>")) && not (text_eq g (codes "(NONE)"))

unfoldable pub openssl_group : Text → Option Text
openssl_group stdout = keep_if is_group (
    or_else (value_after stdout (codes "Negotiated TLS1.3 group: ")) (
      or_else (map_some strip_key_size (value_after stdout (codes "Peer Temp Key: ")))
        (map_some strip_key_size (value_after stdout (codes "Server Temp Key: ")))))

unfoldable pub boringssl_group : Text → Option Text
boringssl_group stderr =
    or_else (value_after stderr (codes "ECDHE group: "))
      (or_else (value_after stderr (codes "ECDHE curve: ")) (value_after stderr (codes "Group: ")))

unfoldable pub boringssl_chain : Option Text → Option Text → List Certificate
boringssl_chain (some subject) issuer = bare_certificate (subject, unwrap_or [] issuer) ∷ []
boringssl_chain none issuer = []

-- A negotiated cipher or an answer to the request means that the handshake was completed.
unfoldable pub is_success : Option Text → Option HttpOutcome → Bool
is_success cipher_suite http = is_some cipher_suite || is_some http

unfoldable pub combine : Text → Text → Text
combine stdout stderr = stdout ++ (codes "\n" ++ stderr)

module _ {Json : Type 0} (offer : List Text → List Text → Json) where
  unfoldable pub parse_openssl : (ℕ → Bool) → Text → ProbeRequest → Text → Text → ProbeResponse Json
  parse_openssl numeric adapter request stdout stderr =
      let cipher_suite = openssl_cipher stdout in
      let http = parse_http stdout in
      let (sent, received) = byte_counts stdout in
      let negotiated : Negotiated = record {
        tls_version = openssl_version stdout;
        cipher_suite = cipher_suite;
        group = openssl_group stdout;
        cert_verify_sig_alg = value_after stdout (codes "Peer signature type: ");
      } in
      build_response offer adapter request (is_success cipher_suite http) negotiated
        (parse_alert (combine stdout stderr)) (parse_openssl_certs numeric stdout) http
        (record no_evidence { bytes_sent = sent; bytes_received = received })
        (first_error_line (combine stdout stderr))

  unfoldable pub parse_boringssl : Text → ProbeRequest → Text → Text → ProbeResponse Json
  parse_boringssl adapter request stdout stderr =
      let cipher_suite = value_after stderr (codes "Cipher: ") in
      let http = parse_http stdout in
      let negotiated : Negotiated = record {
        tls_version = value_after stderr (codes "Version: ");
        cipher_suite = cipher_suite;
        group = boringssl_group stderr;
        cert_verify_sig_alg = value_after stderr (codes "Signature algorithm: ");
      } in
      build_response offer adapter request (is_success cipher_suite http) negotiated
        (parse_alert (combine stdout stderr))
        (boringssl_chain (value_after stderr (codes "Cert subject: "))
          (value_after stderr (codes "Cert issuer: ")))
        http no_evidence (first_error_line (combine stdout stderr))

  unfoldable pub parse_wolfssl : Text → ProbeRequest → Text → Text → ProbeResponse Json
  parse_wolfssl adapter request stdout stderr =
      let combined = combine stdout stderr in
      let cipher_suite = value_after combined (codes "SSL cipher suite is ") in
      let http = parse_http stdout in
      let negotiated : Negotiated = record {
        tls_version = value_after combined (codes "SSL version is ");
        cipher_suite = cipher_suite;
        group =
            or_else (value_after combined (codes "Using Post-Quantum KEM: "))
              (value_after combined (codes "SSL curve name is "));
        cert_verify_sig_alg = none;
      } in
      build_response offer adapter request (is_success cipher_suite http) negotiated
        (parse_alert combined) [] http no_evidence (first_error_line combined)

  -- The parts of the stand-in's answer.
  unfoldable pub is_vulnerable : ProbeRequest → Bool
  is_vulnerable request = contains request.target.host (codes "vuln") || request.target.port == 8888

  unfoldable pub offered_first : List Text → Text
  offered_first offered = unwrap_or [] (first_of offered)

  unfoldable pub group_ok : Config → Text → Bool
  group_ok config group =
      is_empty (kem_group_list config)
      || any (λ g. eq_ignore_ascii_case g group) (kem_group_list config)

  unfoldable pub sig_ok : Config → Text → Bool
  sig_ok config sig =
      is_empty sig
      || is_empty (sig_alg_list config)
      || any (λ s. eq_ignore_ascii_case s sig) (sig_alg_list config)

  unfoldable pub mock_refusal : Config → ProbeRequest → Text → Text → ProbeResponse Json
  mock_refusal config request alert error =
      build_response offer (adapter_name config) request false no_negotiated (some (fatal alert)) []
        none no_evidence (some error)

  abbrev pub mock_certificate : ProbeRequest → Certificate
  mock_certificate request =
      record (bare_certificate (codes "CN=" ++ request.target.host, codes "CN=pqcas-lab-ca")) {
        signature_algorithm = some (codes "mldsa65");
        public_key_algorithm = some (codes "ML-DSA-65");
      }

  abbrev pub mock_http : HttpOutcome
  mock_http = record {
    status = 200;
    headers =
        single (codes "Server") (codes "pqcas-mock/1.0")
        ∷ single (codes "Content-Type") (codes "application/json")
        ∷ single (codes "Connection") (codes "close")
        ∷ [];
    body_excerpt = some (codes "{\"mock\":true}");
  }

  unfoldable pub mock_success : Config → ProbeRequest → Text → Text → ProbeResponse Json
  mock_success config request group sig =
      let negotiated : Negotiated = record {
        tls_version = some (codes "TLSv1.3");
        cipher_suite = some (codes "TLS_AES_256_GCM_SHA384");
        group = some group;
        cert_verify_sig_alg = some (if is_empty sig then codes "ecdsa_secp256r1_sha256" else sig);
      } in
      build_response offer (adapter_name config) request true negotiated none
        (mock_certificate request ∷ []) (some mock_http)
        (record no_evidence { bytes_sent = 9240; bytes_received = 1658 }) none

  unfoldable pub mock_response : Config → ProbeRequest → ProbeResponse Json
  mock_response config request =
      let group = offered_first request.kem_groups in
      let sig = offered_first request.sig_algs in
      if is_vulnerable request
      then mock_refusal config request (codes "bad_record_mac") (codes "InvalidTag:")
      else if not (group_ok config group) || not (sig_ok config sig)
      then mock_refusal config request (codes "handshake_failure") (
          codes "no shared "
          ++ (if group_ok config group then codes "signature algorithm" else codes "group"))
      else mock_success config request group sig
