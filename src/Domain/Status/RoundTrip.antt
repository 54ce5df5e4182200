-- ===== src/Domain/Status/RoundTrip.antt =====
-- Status values survive the trip through their wire spelling (crates/pqcas-domain/src/status.rs).
use pqc_sec_inspection_cours.Prelude.{
  ◌≡◌, refl, ◌↔◌, some, Text, codes, text_eq, text_eq_iff, ok, arith,
}
use pqc_sec_inspection_cours.Domain.Status.{
  TaskStatus, ExecStatus, ResultStatus, ReportStatus, KemRunMode, Capability, task_str,
  task_from_str, exec_str, exec_from_str, result_str, result_from_str, report_str, report_from_str,
  mode_str, mode_from_str, capability_str, capability_from_str, acvp_mode, from_acvp_mode,
}

task_str_of_task_from_str : (s : Text) (v : TaskStatus) → task_from_str s ≡ ok v → s ≡ task_str v
unfolding task_from_str task_str
task_str_of_task_from_str s v h = ground (
  arith,
  text_eq_iff s (codes "pending"),
  text_eq_iff s (codes "running"),
  text_eq_iff s (codes "finished"),
  text_eq_iff s (codes "failed"),
  text_eq_iff s (codes "cancelled"),
)

task_from_str-task_str : (v : TaskStatus) → task_from_str (task_str v) ≡ ok v
unfolding task_from_str task_str codes text_eq
task_from_str-task_str TaskStatus.pending = refl
task_from_str-task_str _ = refl

pub task_from_str_iff : (s : Text) (v : TaskStatus) → (task_from_str s ≡ ok v) ↔ (s ≡ task_str v)
task_from_str_iff s v = (task_str_of_task_from_str s v, λ e. rw e (task_from_str-task_str v))

exec_str_of_exec_from_str : (s : Text) (v : ExecStatus) → exec_from_str s ≡ ok v → s ≡ exec_str v
unfolding exec_from_str exec_str
exec_str_of_exec_from_str s v h = ground (
  arith,
  text_eq_iff s (codes "queued"),
  text_eq_iff s (codes "running"),
  text_eq_iff s (codes "finished"),
  text_eq_iff s (codes "error"),
)

exec_from_str-exec_str : (v : ExecStatus) → exec_from_str (exec_str v) ≡ ok v
unfolding exec_from_str exec_str codes text_eq
exec_from_str-exec_str ExecStatus.queued = refl
exec_from_str-exec_str _ = refl

pub exec_from_str_iff : (s : Text) (v : ExecStatus) → (exec_from_str s ≡ ok v) ↔ (s ≡ exec_str v)
exec_from_str_iff s v = (exec_str_of_exec_from_str s v, λ e. rw e (exec_from_str-exec_str v))

result_str_of_result_from_str :
    (s : Text) (v : ResultStatus) → result_from_str s ≡ ok v → s ≡ result_str v
unfolding result_from_str result_str
result_str_of_result_from_str s v h = ground (
  arith,
  text_eq_iff s (codes "pending"),
  text_eq_iff s (codes "passed"),
  text_eq_iff s (codes "failed"),
  text_eq_iff s (codes "unsupported"),
  text_eq_iff s (codes "disabled"),
)

result_from_str-result_str : (v : ResultStatus) → result_from_str (result_str v) ≡ ok v
unfolding result_from_str result_str codes text_eq
result_from_str-result_str ResultStatus.pending = refl
result_from_str-result_str _ = refl

pub result_from_str_iff :
    (s : Text) (v : ResultStatus) → (result_from_str s ≡ ok v) ↔ (s ≡ result_str v)
result_from_str_iff s v =
    (result_str_of_result_from_str s v, λ e. rw e (result_from_str-result_str v))

report_str_of_report_from_str :
    (s : Text) (v : ReportStatus) → report_from_str s ≡ ok v → s ≡ report_str v
unfolding report_from_str report_str
report_str_of_report_from_str s v h = ground (
  arith,
  text_eq_iff s (codes "missing"),
  text_eq_iff s (codes "partial"),
  text_eq_iff s (codes "complete"),
)

report_from_str-report_str : (v : ReportStatus) → report_from_str (report_str v) ≡ ok v
unfolding report_from_str report_str codes text_eq
report_from_str-report_str ReportStatus.missing = refl
report_from_str-report_str _ = refl

pub report_from_str_iff :
    (s : Text) (v : ReportStatus) → (report_from_str s ≡ ok v) ↔ (s ≡ report_str v)
report_from_str_iff s v =
    (report_str_of_report_from_str s v, λ e. rw e (report_from_str-report_str v))

mode_str_of_mode_from_str : (s : Text) (v : KemRunMode) → mode_from_str s ≡ ok v → s ≡ mode_str v
unfolding mode_from_str mode_str
mode_str_of_mode_from_str s v h = ground (
  arith,
  text_eq_iff s (codes "library_compat"),
  text_eq_iff s (codes "group_compat"),
  text_eq_iff s (codes "priority"),
)

mode_from_str-mode_str : (v : KemRunMode) → mode_from_str (mode_str v) ≡ ok v
unfolding mode_from_str mode_str codes text_eq
mode_from_str-mode_str KemRunMode.library_compat = refl
mode_from_str-mode_str _ = refl

pub mode_from_str_iff : (s : Text) (v : KemRunMode) → (mode_from_str s ≡ ok v) ↔ (s ≡ mode_str v)
mode_from_str_iff s v = (mode_str_of_mode_from_str s v, λ e. rw e (mode_from_str-mode_str v))

capability_str_of_capability_from_str :
    (s : Text) (v : Capability) → capability_from_str s ≡ ok v → s ≡ capability_str v
unfolding capability_from_str capability_str
capability_str_of_capability_from_str s v h = ground (
  arith,
  text_eq_iff s (codes "key_gen"),
  text_eq_iff s (codes "sig_gen"),
  text_eq_iff s (codes "sig_ver"),
)

capability_from_str-capability_str :
    (v : Capability) → capability_from_str (capability_str v) ≡ ok v
unfolding capability_from_str capability_str codes text_eq
capability_from_str-capability_str Capability.key_gen = refl
capability_from_str-capability_str _ = refl

pub capability_from_str_iff :
    (s : Text) (v : Capability) → (capability_from_str s ≡ ok v) ↔ (s ≡ capability_str v)
capability_from_str_iff s v =
    (capability_str_of_capability_from_str s v, λ e. rw e (capability_from_str-capability_str v))

acvp_mode_of_from_acvp_mode :
    (s : Text) (v : Capability) → from_acvp_mode s ≡ some v → s ≡ acvp_mode v
unfolding from_acvp_mode acvp_mode
acvp_mode_of_from_acvp_mode s v h = ground (
  arith,
  text_eq_iff s (codes "keyGen"),
  text_eq_iff s (codes "sigGen"),
  text_eq_iff s (codes "sigVer"),
)

from_acvp_mode-acvp_mode : (v : Capability) → from_acvp_mode (acvp_mode v) ≡ some v
unfolding from_acvp_mode acvp_mode codes text_eq
from_acvp_mode-acvp_mode Capability.key_gen = refl
from_acvp_mode-acvp_mode _ = refl

pub from_acvp_mode_iff :
    (s : Text) (v : Capability) → (from_acvp_mode s ≡ some v) ↔ (s ≡ acvp_mode v)
from_acvp_mode_iff s v = (acvp_mode_of_from_acvp_mode s v, λ e. rw e (from_acvp_mode-acvp_mode v))

-- In each of the six status vocabularies, and in the ACVP spelling of capabilities, a text is
-- parsed to a value exactly when it is that value's spelling.
pub spelling_iff :
    (s : Text)
    → ((v : TaskStatus) → (task_from_str s ≡ ok v) ↔ (s ≡ task_str v))
      × ((v : ExecStatus) → (exec_from_str s ≡ ok v) ↔ (s ≡ exec_str v))
      × ((v : ResultStatus) → (result_from_str s ≡ ok v) ↔ (s ≡ result_str v))
      × ((v : ReportStatus) → (report_from_str s ≡ ok v) ↔ (s ≡ report_str v))
      × ((v : KemRunMode) → (mode_from_str s ≡ ok v) ↔ (s ≡ mode_str v))
      × ((v : Capability) → (capability_from_str s ≡ ok v) ↔ (s ≡ capability_str v))
      × ((v : Capability) → (from_acvp_mode s ≡ some v) ↔ (s ≡ acvp_mode v))
spelling_iff s = (
  task_from_str_iff s,
  exec_from_str_iff s,
  result_from_str_iff s,
  report_from_str_iff s,
  mode_from_str_iff s,
  capability_from_str_iff s,
  from_acvp_mode_iff s,
)
