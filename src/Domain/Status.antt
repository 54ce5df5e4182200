-- ===== src/Domain/Status.antt =====
-- The status vocabularies (crates/pqcas-domain/src/status.rs). The macro `pg_enum!` gives each
-- type `as_str` and `from_str`; here they are one pair of functions for each type.
pub mod RoundTrip
use pqc_sec_inspection_cours.Prelude.{
  Option, none, some, ◌++◌, Text, codes, text_eq, if◌then◌else◌, Result, ok, err,
}

-- Lifecycle of a whole test task.
pub data TaskStatus : Type 0 where
  pending running finished failed cancelled : TaskStatus

-- Did the subtask get to run at all.
pub data ExecStatus : Type 0 where
  queued running finished error : ExecStatus

-- Did the thing under test behave.
pub data ResultStatus : Type 0 where
  pending passed failed unsupported disabled : ResultStatus

-- Whether a full report blob was captured for the subtask.
pub data ReportStatus : Type 0 where
  missing partial complete : ReportStatus

pub data KemRunMode : Type 0 where
  library_compat group_compat priority : KemRunMode

pub data Capability : Type 0 where
  key_gen sig_gen sig_ver : Capability

-- `format!("unknown {}: {other}", stringify!($name))`
unknown : Text → Text → Text
unknown name other = codes "unknown " ++ (name ++ (codes ": " ++ other))

unfoldable pub task_str : TaskStatus → Text
task_str TaskStatus.pending = codes "pending"
task_str TaskStatus.running = codes "running"
task_str TaskStatus.finished = codes "finished"
task_str TaskStatus.failed = codes "failed"
task_str TaskStatus.cancelled = codes "cancelled"

unfoldable pub task_from_str : Text → Result TaskStatus Text
unfolding unknown
task_from_str s =
    if text_eq s (codes "pending")
    then ok TaskStatus.pending
    else if text_eq s (codes "running")
    then ok TaskStatus.running
    else if text_eq s (codes "finished")
    then ok TaskStatus.finished
    else if text_eq s (codes "failed")
    then ok TaskStatus.failed
    else if text_eq s (codes "cancelled")
    then ok TaskStatus.cancelled
    else err (unknown (codes "TaskStatus") s)

unfoldable pub exec_str : ExecStatus → Text
exec_str ExecStatus.queued = codes "queued"
exec_str ExecStatus.running = codes "running"
exec_str ExecStatus.finished = codes "finished"
exec_str ExecStatus.error = codes "error"

unfoldable pub exec_from_str : Text → Result ExecStatus Text
unfolding unknown
exec_from_str s =
    if text_eq s (codes "queued")
    then ok ExecStatus.queued
    else if text_eq s (codes "running")
    then ok ExecStatus.running
    else if text_eq s (codes "finished")
    then ok ExecStatus.finished
    else if text_eq s (codes "error")
    then ok ExecStatus.error
    else err (unknown (codes "ExecStatus") s)

unfoldable pub result_str : ResultStatus → Text
result_str ResultStatus.pending = codes "pending"
result_str ResultStatus.passed = codes "passed"
result_str ResultStatus.failed = codes "failed"
result_str ResultStatus.unsupported = codes "unsupported"
result_str ResultStatus.disabled = codes "disabled"

unfoldable pub result_from_str : Text → Result ResultStatus Text
unfolding unknown
result_from_str s =
    if text_eq s (codes "pending")
    then ok ResultStatus.pending
    else if text_eq s (codes "passed")
    then ok ResultStatus.passed
    else if text_eq s (codes "failed")
    then ok ResultStatus.failed
    else if text_eq s (codes "unsupported")
    then ok ResultStatus.unsupported
    else if text_eq s (codes "disabled")
    then ok ResultStatus.disabled
    else err (unknown (codes "ResultStatus") s)

unfoldable pub report_str : ReportStatus → Text
report_str ReportStatus.missing = codes "missing"
report_str ReportStatus.partial = codes "partial"
report_str ReportStatus.complete = codes "complete"

unfoldable pub report_from_str : Text → Result ReportStatus Text
unfolding unknown
report_from_str s =
    if text_eq s (codes "missing")
    then ok ReportStatus.missing
    else if text_eq s (codes "partial")
    then ok ReportStatus.partial
    else if text_eq s (codes "complete")
    then ok ReportStatus.complete
    else err (unknown (codes "ReportStatus") s)

unfoldable pub mode_str : KemRunMode → Text
mode_str KemRunMode.library_compat = codes "library_compat"
mode_str KemRunMode.group_compat = codes "group_compat"
mode_str KemRunMode.priority = codes "priority"

unfoldable pub mode_from_str : Text → Result KemRunMode Text
unfolding unknown
mode_from_str s =
    if text_eq s (codes "library_compat")
    then ok KemRunMode.library_compat
    else if text_eq s (codes "group_compat")
    then ok KemRunMode.group_compat
    else if text_eq s (codes "priority")
    then ok KemRunMode.priority
    else err (unknown (codes "KemRunMode") s)

unfoldable pub capability_str : Capability → Text
capability_str Capability.key_gen = codes "key_gen"
capability_str Capability.sig_gen = codes "sig_gen"
capability_str Capability.sig_ver = codes "sig_ver"

unfoldable pub capability_from_str : Text → Result Capability Text
unfolding unknown
capability_from_str s =
    if text_eq s (codes "key_gen")
    then ok Capability.key_gen
    else if text_eq s (codes "sig_gen")
    then ok Capability.sig_gen
    else if text_eq s (codes "sig_ver")
    then ok Capability.sig_ver
    else err (unknown (codes "Capability") s)

-- `Capability::acvp_mode`
unfoldable pub acvp_mode : Capability → Text
acvp_mode Capability.key_gen = codes "keyGen"
acvp_mode Capability.sig_gen = codes "sigGen"
acvp_mode Capability.sig_ver = codes "sigVer"

-- `Capability::from_acvp_mode`
unfoldable pub from_acvp_mode : Text → Option Capability
from_acvp_mode mode =
    if text_eq mode (codes "keyGen")
    then some Capability.key_gen
    else if text_eq mode (codes "sigGen")
    then some Capability.sig_gen
    else if text_eq mode (codes "sigVer")
    then some Capability.sig_ver
    else none
