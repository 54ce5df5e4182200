-- ===== src/Cavp/Report.antt =====
-- The data of the grader (crates/cavp-validate/src/lib.rs).
use pqc_sec_inspection_cours.Prelude.{ℕ, Bool, ◌&&◌, Option, List, Text, ltb, ◌==◌, ℤ}

pub data ValidateError : Type 0 where
  json : (message : Text) → ValidateError
  unknown_parameter_set : (name : Text) → ValidateError
  mode_mismatch : (got want : Text) → ValidateError
  vs_id_mismatch : (got want : ℤ) → ValidateError
  missing_test_groups : ValidateError

pub data CaseStatus : Type 0 where
  correct incorrect malformed missing : CaseStatus

pub record CaseResult : Type 0 where
  pub tc_id : ℤ
  pub status : CaseStatus
  pub field : Option Text
  pub reason : Option Text

pub record ValidationReport : Type 0 where
  pub vs_id : ℤ
  pub mode : Text
  pub parameter_set : Text
  pub total : ℕ
  pub correct : ℕ
  pub incorrect : ℕ
  pub malformed : ℕ
  pub missing : ℕ
  pub cases : List CaseResult

unfoldable pub all_correct : ValidationReport → Bool
all_correct r = ltb 0 r.total && r.correct == r.total

-- Expected values for one `tcId`; only those of the capability are set.
pub record AnswerCase : Type 0 where
  pub tc_id : ℤ
  pub pk : Option Text
  pub sk : Option Text
  pub signature : Option Text
  pub test_passed : Option Bool

pub record AnswerKey : Type 0 where
  pub vs_id : ℤ
  pub mode : Text
  pub parameter_set : Text
  pub cases : List AnswerCase
