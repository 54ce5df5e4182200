-- ===== src/Domain/Models.antt =====
-- The rows of the database and the records of the API (crates/pqcas-domain/src/models.rs).
-- A time stamp is a number. The parts of a report are kept as the values that are stored as JSON.
use pqc_sec_inspection_cours.Prelude.{ℕ, Bool, Option, List, Text, ℤ, ◌++◌, codes, show_int}
use pqc_sec_inspection_cours.Proto.{
  Negotiated, Alert, HandshakeMessage, Certificate, HttpOutcome, ProbeResponse,
}
use pqc_sec_inspection_cours.Domain.Status.{
  TaskStatus, ExecStatus, ResultStatus, ReportStatus, KemRunMode, Capability,
}
use pqc_sec_inspection_cours.Domain.Jobs.{Uuid}

abbrev pub Time : Type 0
Time = ℕ

pub record Endpoint : Type 0 where
  pub id : Uuid
  pub slug : Text
  pub label : Text
  pub label_zh : Text
  pub host : Text
  pub port : ℤ  -- i32
  pub notes : Option Text
  pub enabled : Bool

pub record Algorithm : Type 0 where
  pub id : ℕ
  pub kind : Text
  pub name : Text
  pub display_name : Text
  pub family : Option Text
  pub enabled : Bool
  pub sort_order : ℤ

pub record Test : Type 0 where
  pub id : Uuid
  pub host : Text
  pub port : ℤ  -- i32
  pub http_path : Text
  pub method : Text
  pub tool : Text
  pub plugin : Text
  pub status : TaskStatus
  pub group_count : ℤ
  pub sig_alg_count : ℤ
  pub subtask_count : ℤ
  pub created_at : Time
  pub started_at : Option Time
  pub finished_at : Option Time

-- `Test::display_target`
unfoldable pub display_target : Test → Text
display_target t = t.host ++ (codes ":" ++ show_int t.port)

pub record Subtask : Type 0 where
  pub id : Uuid
  pub test_id : Uuid
  pub ordinal : ℤ  -- i32
  pub group_name : Text
  pub sig_alg : Text
  pub exec_status : ExecStatus
  pub result_status : ResultStatus
  pub report_status : ReportStatus
  pub failed_stage : Option Text
  pub error_summary : Option Text
  pub started_at : Option Time
  pub finished_at : Option Time

-- The summary that `save_report` builds.
pub record TlsSummary : Type 0 where
  pub handshake_success : Bool
  pub negotiated : Negotiated
  pub alert : Option Alert

pub record SubtaskReport (Json : Type 0) : Type 0 where
  pub subtask_id : Uuid
  pub adapter : Text
  pub tls_summary : TlsSummary
  pub messages : List HandshakeMessage
  pub cert_chain : List Certificate
  pub http : Option HttpOutcome
  pub diagnostics : Json
  pub raw : ProbeResponse Json
  pub evidence : Option Text
  pub duration_ms : ℤ

pub record MatrixCell : Type 0 where
  pub subtask_id : Uuid
  pub group_name : Text
  pub sig_alg : Text
  pub result_status : ResultStatus
  pub exec_status : ExecStatus

pub record Matrix : Type 0 where
  pub groups : List Text
  pub sig_algs : List Text
  pub cells : List MatrixCell

pub record KemRun : Type 0 where
  pub id : Uuid
  pub mode : KemRunMode
  pub endpoint_id : Uuid
  pub status : TaskStatus
  pub kem_groups : List Text
  pub created_at : Time
  pub finished_at : Option Time

pub record KemRunLog : Type 0 where
  pub run_id : Uuid
  pub seq : ℕ
  pub at : Time
  pub level : Text
  pub message : Text

pub record KemMatrixCell : Type 0 where
  pub run_id : Uuid
  pub kem : Text
  pub adapter : Text
  pub verdict : ResultStatus
  pub detail : Option Text

pub record CavpSession (Json : Type 0) : Type 0 where
  pub id : Uuid
  pub capability : Capability
  pub parameter_set : Text
  pub vs_id : ℤ
  pub prompt : Json
  pub submitted : Option Json
  pub validation : Option Json
  pub created_at : Time
