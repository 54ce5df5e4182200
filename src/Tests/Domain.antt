-- ===== src/Tests/Domain.antt =====
-- The vocabularies and the verdict on concrete inputs.
use pqc_sec_inspection_cours.Prelude.{◌≡◌, ◌↔◌, some, [], ◌∷◌, codes, ok}
use pqc_sec_inspection_cours.Proto.{ProbeResponse, Capabilities, tls_handshake, failure}
use pqc_sec_inspection_cours.Domain.Status.{
  TaskStatus, ExecStatus, ResultStatus, ReportStatus, KemRunMode, Capability, task_str,
  task_from_str, exec_str, exec_from_str, result_str, result_from_str, report_str, report_from_str,
  mode_str, mode_from_str, capability_str, capability_from_str, acvp_mode, from_acvp_mode,
}
use pqc_sec_inspection_cours.Domain.Status.RoundTrip.{spelling_iff}

spelling_iff_example :
    let s = codes "finished" in
    ((v : TaskStatus) → (task_from_str s ≡ ok v) ↔ (s ≡ task_str v))
    × ((v : ExecStatus) → (exec_from_str s ≡ ok v) ↔ (s ≡ exec_str v))
    × ((v : ResultStatus) → (result_from_str s ≡ ok v) ↔ (s ≡ result_str v))
    × ((v : ReportStatus) → (report_from_str s ≡ ok v) ↔ (s ≡ report_str v))
    × ((v : KemRunMode) → (mode_from_str s ≡ ok v) ↔ (s ≡ mode_str v))
    × ((v : Capability) → (capability_from_str s ≡ ok v) ↔ (s ≡ capability_str v))
    × ((v : Capability) → (from_acvp_mode s ≡ some v) ↔ (s ≡ acvp_mode v))
spelling_iff_example = spelling_iff (codes "finished")

abbrev openssl : Capabilities
openssl = record {
  adapter = codes "openssl";
  version = codes "3.5.0";
  kem_groups = codes "X25519MLKEM768" ∷ [];
  sig_algs = codes "mldsa65" ∷ [];
  tls_versions = codes "TLSv1.3" ∷ [];
}

abbrev refused_handshake : ProbeResponse (Unit {0})
refused_handshake = failure tt (codes "openssl") tls_handshake (codes "no shared group")
