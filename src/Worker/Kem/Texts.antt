-- ===== src/Worker/Kem/Texts.antt =====
-- The requests and the texts of a KEM run (services/worker/src/kem.rs).
use pqc_sec_inspection_cours.Prelude.{
  ℕ, Bool, true, false, Option, none, some, List, [], ◌++◌, Text, codes, show_nat, unwrap_or,
  or_else, ◌==◌, if◌then◌else◌,
}
use pqc_sec_inspection_cours.Proto.{ProbeRequest, ProbeResponse, Target, new_request}
use pqc_sec_inspection_cours.Domain.Jobs.{KemJob}

unfoldable pub request_for : KemJob → List Text → ProbeRequest
request_for job groups =
    let target : Target = record {
      host = job.host;
      port = job.port;
      sni = some job.host;
      http_path = some (codes "/");
    } in
    record (new_request target) { kem_groups = groups }

unfoldable pub unknown : Option Text → Text
unknown o = unwrap_or (codes "unknown") o

unfoldable pub status_text : ℕ → Text
status_text status =
    if status == 200
    then codes "OK"
    else if status == 204
    then codes "No Content"
    else if status == 301
    then codes "Moved Permanently"
    else if status == 302
    then codes "Found"
    else if status == 400
    then codes "Bad Request"
    else if status == 403
    then codes "Forbidden"
    else if status == 404
    then codes "Not Found"
    else if status == 500
    then codes "Internal Server Error"
    else []

-- `===` before and after `name (host:port)`
unfoldable pub banner : Text → KemJob → Text
banner name job =
    codes "=== "
    ++ (name ++ (codes " (" ++ (job.host ++ (codes ":" ++ (show_nat job.port ++ codes ") ===")))))

unfoldable pub info : Text
info = codes "info"

unfoldable pub result : Text
result = codes "result"

unfoldable pub rule : Text
rule = codes "========== HTTPS response header =========="

abbrev pub pass_text : Bool → Text
pass_text true = codes "PASS"
pass_text false = codes "FAIL"

unfoldable pub quoted : Text → Text
quoted g = codes "\"" ++ (g ++ codes "\"")

module _ {Json : Type 0} where
  unfoldable pub result_line : ProbeResponse Json → Text
  result_line r =
      codes "Result: ApplicationData - "
      ++ (unknown r.negotiated.tls_version
          ++ (codes " "
              ++ (unknown r.negotiated.cipher_suite
                  ++ (codes "; group="
                      ++ (unknown r.negotiated.group
                          ++ (codes "; sent="
                              ++ (show_nat r.evidence.bytes_sent
                                  ++ (codes " bytes; received="
                                      ++ (show_nat r.evidence.bytes_received
                                          ++ codes " bytes")))))))))

  -- The alert's name, or else the summary.
  unfoldable pub failure_reason : ProbeResponse Json → Text
  failure_reason r =
      unknown (or_else (elim r.alert [ none ↦ none | some a ↦ some a.description ]) r.error_summary)
