-- ===== src/Tests/Adapter.antt =====
-- The command-line adapter on concrete inputs.
use pqc_sec_inspection_cours.Prelude.{
  arith, ◌≡◌, refl, ◌≢◌, ◌↔◌, false, none, List, [], ◌∷◌, map, Text, codes, contains, starts_with,
  All, Free, split_by, trim, trim_start, trim_end,
}
use pqc_sec_inspection_cours.Prelude.{split_once, strip_prefix, some, text_eq}
use pqc_sec_inspection_cours.Prelude.{
  ℕ, Bool, true, none, leb, ◌&&◌, trim_start, starts_with, end_lines, strip_cr, lines, find_from,
  words, parse_unsigned, digits_from,
}
use pqc_sec_inspection_cours.Adapter.Output.{
  certificate_line, bare_certificate, parse_http, value_after, value_in, http_of, status_of,
}
use pqc_sec_inspection_cours.Adapter.Response.{build_response, failed_stage}
use pqc_sec_inspection_cours.Adapter.Stacks.{parse_openssl, is_success, openssl_cipher}
use pqc_sec_inspection_cours.Adapter.Run.{run_client, timed, capture, parse_output}
use pqc_sec_inspection_cours.Proto.{complete}
use pqc_sec_inspection_cours.Proto.{ProbeRequest, new_request}
use pqc_sec_inspection_cours.Domain.Status.{ResultStatus}
use pqc_sec_inspection_cours.Domain.Classify.{classify}
use pqc_sec_inspection_cours.Adapter.Config.{
  Config, kem_group_list, sig_alg_list, advertised, split_list,
}
use pqc_sec_inspection_cours.Adapter.Groups.{openssl, boringssl, stack_group}
use pqc_sec_inspection_cours.Adapter.Args.{openssl_args, boringssl_args}
use pqc_sec_inspection_cours.Adapter.Args.Lists.{Carries, args-Carries}
use pqc_sec_inspection_cours.Adapter.Response.Report.{Consistent, Bounded}
use pqc_sec_inspection_cours.Adapter.Stacks.{mock_response, is_vulnerable}
use pqc_sec_inspection_cours.Adapter.Stacks.Mock.{Lists, mock_response-classify}
use pqc_sec_inspection_cours.Adapter.Run.{Host, ended, run, report_of}
use pqc_sec_inspection_cours.Adapter.Run.Reports.{run-Consistent, report_of-Bounded}

abbrev site_request : ProbeRequest
site_request =
    record (new_request
      (record { host = codes "example.org"; port = 443; sni = none; http_path = none })) {
        kem_groups = codes "mlkem768" ∷ [];
        sig_algs = codes "mldsa65" ∷ [];
      }

abbrev lab : Config
lab = record {
  backend = codes "openssl";
  name = none;
  bind = codes "0.0.0.0:8090";
  client_bin = codes "openssl";
  kem_groups = codes "MLKEM768, X25519";
  sig_algs = codes "mldsa65";
  version = codes "3.5.0";
  workdir = none;
}

abbrev answer : Text
answer =
    codes "Protocol  : TLSv1.3\nCipher is TLS_AES_256_GCM_SHA384\nHTTP/1.1 200 OK\r\n\r\nhello\n"

-- A client that answers, and an offer that is not looked at.
abbrev site : Host (Unit {0})
site = record {
  launch = λ bin dir args input limit. ended answer [];
  elapsed_ms = 12;
  is_numeric = λ c. false;
  base64 = λ t. t;
  null = tt;
  offer = λ groups sigs. tt;
}

run-Consistent_example : Consistent (run site lab openssl site_request)
run-Consistent_example = run-Consistent site lab openssl site_request

report_of-Bounded_example : Bounded (report_of site lab openssl site_request (ended answer []))
report_of-Bounded_example = report_of-Bounded site lab openssl site_request answer []

group-Free : All (Free b':') site_request.kem_groups
unfolding codes
group-Free = ground arith

sig-Free : All (Free b':') site_request.sig_algs
unfolding codes
sig-Free = ground arith

nonempty_list : (t : Text) (ts : List Text) → (t ∷ ts) ≢ []
nonempty_list t ts e = cc

args-Carries_example :
    Carries
      (codes "-groups")
      (map (stack_group openssl) site_request.kem_groups)
      (openssl_args site_request)
    × Carries (codes "-sigalgs") site_request.sig_algs (openssl_args site_request)
    × Carries
        (codes "-curves")
        (map (stack_group boringssl) site_request.kem_groups)
        (boringssl_args site_request)
args-Carries_example =
    args-Carries site_request (nonempty_list (codes "mlkem768") [])
      (nonempty_list (codes "mldsa65") []) group-Free sig-Free

sig_name : codes "mldsa65" ≢ []
unfolding codes
sig_name e = cc

listed_groups : kem_group_list lab ≢ []
unfolding split_list codes split_by trim trim_start trim_end
listed_groups e = cc

listed_sigs : sig_alg_list lab ≢ []
unfolding split_list codes split_by trim trim_start trim_end
listed_sigs e = cc

not_vulnerable : is_vulnerable site.offer site_request ≡ false
unfolding is_vulnerable codes contains starts_with
not_vulnerable = refl

mock_response-classify_example :
    (classify
        (mock_response site.offer lab site_request)
        (codes "mlkem768" ∷ codes "mldsa65" ∷ [])
        (advertised lab)
      ≡ ResultStatus.passed)
    ↔ (Lists (kem_group_list lab) (codes "mlkem768") × Lists (sig_alg_list lab) (codes "mldsa65"))
mock_response-classify_example =
    mock_response-classify site.offer lab site_request (codes "mlkem768") (codes "mldsa65") refl
      refl sig_name listed_groups listed_sigs not_vulnerable

-- A certificate with a number of two digits is passed over.
abbrev is_digit : ℕ → Bool
is_digit c = leb b'0' c && leb c b'9'

certificate_line_run :
    (certificate_line is_digit (codes " 1 s:CN=a i:CN=b")
      ≡ some (bare_certificate (codes "CN=a", codes "CN=b")))
    × (certificate_line is_digit (codes "10 s:CN=a i:CN=b") ≡ none)
unfolding certificate_line codes trim trim_start strip_prefix split_once
certificate_line_run = (refl, refl)

-- A report is read off the output of OpenSSL's client.
report_run :
    let r = run site lab openssl site_request in
    (r.handshake_success ≡ true)
    × (r.negotiated.cipher_suite ≡ some (codes "TLS_AES_256_GCM_SHA384"))
    × (r.failed_stage ≡ complete)
unfolding run run_client report_of timed capture parse_output parse_openssl build_response
    failed_stage is_success parse_http openssl_cipher value_after value_in codes split_by end_lines
    strip_cr lines split_once strip_prefix trim find_from http_of status_of words parse_unsigned
    digits_from text_eq starts_with
report_run = (refl, refl, refl)
