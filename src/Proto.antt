-- ===== src/Proto.antt =====
-- The wire contract between the worker and the adapters (crates/adapter-proto/src/lib.rs).
-- `Json` stands for `serde_json::Value`, of which the contract only carries values along.
use pqc_sec_inspection_cours.Prelude.{
  ℕ, Bool, false, Option, none, some, List, [], ◌∷◌, Text, codes,
}

pub record Target : Type 0 where
  pub host : Text
  pub port : ℕ  -- u16
  pub sni : Option Text
  pub http_path : Option Text

pub record CaptureOptions : Type 0 where
  pub raw_records : Bool
  pub keylog : Bool

pub record ProbeRequest : Type 0 where
  pub target : Target
  pub kem_groups : List Text
  pub sig_algs : List Text
  pub tls_versions : List Text
  pub cipher_suites : List Text
  pub timeout_ms : ℕ  -- u64
  pub capture : CaptureOptions

abbrev pub tls_1_3 : Text
tls_1_3 = codes "TLSv1.3"

abbrev pub tls_1_2 : Text
tls_1_2 = codes "TLSv1.2"

abbrev pub default_tls_versions : List Text
default_tls_versions = tls_1_3 ∷ tls_1_2 ∷ []

abbrev pub default_timeout_ms : ℕ
default_timeout_ms = 15_000

-- `ProbeRequest::new`
abbrev pub new_request : Target → ProbeRequest
new_request target = record {
  target = target;
  kem_groups = [];
  sig_algs = [];
  tls_versions = default_tls_versions;
  cipher_suites = [];
  timeout_ms = default_timeout_ms;
  capture = record { raw_records = false; keylog = false };
}

pub data Stage : Type 0 where
  dns tcp tls_handshake http_request complete : Stage

-- `Stage::as_str`
unfoldable pub stage_str : Stage → Text
stage_str dns = codes "dns"
stage_str tcp = codes "tcp"
stage_str tls_handshake = codes "tls_handshake"
stage_str http_request = codes "http_request"
stage_str complete = codes "complete"

pub data Direction : Type 0 where
  outbound inbound : Direction

pub record MessageField : Type 0 where
  pub label : Text
  pub values : List Text

-- `MessageField::single`
abbrev pub single : Text → Text → MessageField
single label value = record { label = label; values = value ∷ [] }

pub record HandshakeMessage : Type 0 where
  pub index : ℕ  -- u32
  pub direction : Direction
  pub kind : Text
  pub fields : List MessageField

pub record Alert : Type 0 where
  pub level : Text
  pub description : Text

pub record Negotiated : Type 0 where
  pub tls_version : Option Text
  pub cipher_suite : Option Text
  pub group : Option Text
  pub cert_verify_sig_alg : Option Text

abbrev pub no_negotiated : Negotiated
no_negotiated = record {
  tls_version = none;
  cipher_suite = none;
  group = none;
  cert_verify_sig_alg = none;
}

pub record Certificate : Type 0 where
  pub subject : Text
  pub issuer : Text
  pub not_before : Option Text
  pub not_after : Option Text
  pub signature_algorithm : Option Text
  pub public_key_algorithm : Option Text
  pub sha256_fingerprint : Option Text

pub record HttpOutcome : Type 0 where
  pub status : ℕ  -- u16
  pub headers : List MessageField
  pub body_excerpt : Option Text

pub record Evidence : Type 0 where
  pub bytes_sent : ℕ  -- u64
  pub bytes_received : ℕ  -- u64
  pub uds_dump_b64 : Option Text
  pub keylog : Option Text

abbrev pub no_evidence : Evidence
no_evidence = record { bytes_sent = 0; bytes_received = 0; uds_dump_b64 = none; keylog = none }

pub record ProbeResponse (Json : Type 0) : Type 0 where
  pub adapter : Text
  pub handshake_success : Bool
  pub negotiated : Negotiated
  pub messages : List HandshakeMessage
  pub alert : Option Alert
  pub cert_chain : List Certificate
  pub http : Option HttpOutcome
  pub failed_stage : Stage
  pub error_summary : Option Text
  pub diagnostics : Json
  pub evidence : Evidence
  pub duration_ms : ℕ  -- u64

-- `ProbeResponse::failure`; `null` is `serde_json::Value::Null`.
abbrev pub failure : {Json : Type 0} → Json → Text → Stage → Text → ProbeResponse Json
failure null adapter stage error = record {
  adapter = adapter;
  handshake_success = false;
  negotiated = no_negotiated;
  messages = [];
  alert = none;
  cert_chain = [];
  http = none;
  failed_stage = stage;
  error_summary = some error;
  diagnostics = null;
  evidence = no_evidence;
  duration_ms = 0;
}

pub record Capabilities : Type 0 where
  pub adapter : Text
  pub version : Text
  pub kem_groups : List Text
  pub sig_algs : List Text
  pub tls_versions : List Text
