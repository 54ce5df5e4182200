-- ===== src/Tests/Api.antt =====
-- A new test on a concrete selection.
use pqc_sec_inspection_cours.Prelude.{
  pos, ok, starts_with, ◌≡◌, ◌≢◌, refl, ◌↔◌, none, List, [], ◌∷◌, map, Text, codes, text_eq, trim,
  contains_text,
}
use pqc_sec_inspection_cours.Domain.Status.{ExecStatus, ResultStatus, ReportStatus}
use pqc_sec_inspection_cours.Domain.Models.{Subtask}
use pqc_sec_inspection_cours.Api.Selection.{dedupe}
use pqc_sec_inspection_cours.Api.Creation.{
  NewTest, check_new_test, subtask_count, IsAcceptable, check_new_test_iff, check_new_test-blank,
}
use pqc_sec_inspection_cours.Api.Grid.{NewRow, expand, matrix}
use pqc_sec_inspection_cours.Api.Grid.Axes.{matrix-expand}

abbrev groups : List Text
groups = codes "mlkem768" ∷ codes " x25519" ∷ codes "mlkem768 " ∷ codes " " ∷ []

abbrev algs : List Text
algs = codes "mldsa65" ∷ codes "mldsa44" ∷ []

-- The cleaned selection.
dedupe_run : dedupe groups ≡ codes "mlkem768" ∷ codes "x25519" ∷ []
unfolding dedupe codes trim text_eq contains_text
dedupe_run = refl

-- A selection of blanks is empty when cleaned, although its list is not.
dedupe_blank : dedupe (codes " " ∷ []) ≡ []
unfolding dedupe codes trim text_eq contains_text
dedupe_blank = refl

abbrev subtask_of : NewRow → Subtask
subtask_of r = record {
  id = 10;
  test_id = 1;
  ordinal = r.ordinal;
  group_name = r.group_name;
  sig_alg = r.sig_alg;
  exec_status = ExecStatus.queued;
  result_status = ResultStatus.pending;
  report_status = ReportStatus.missing;
  failed_stage = none;
  error_summary = none;
  started_at = none;
  finished_at = none;
}

abbrev rows : List Subtask
rows = map subtask_of (expand (dedupe groups) (dedupe algs))

some_group : dedupe groups ≢ []
unfolding dedupe codes trim text_eq contains_text
some_group e = cc

some_alg : dedupe algs ≢ []
unfolding dedupe codes trim text_eq contains_text
some_alg e = cc

same_groups :
    map (λ s. s.group_name) rows ≡ map (λ r. r.group_name) (expand (dedupe groups) (dedupe algs))
unfolding dedupe codes trim text_eq contains_text expand
same_groups = refl

same_algs : map (λ s. s.sig_alg) rows ≡ map (λ r. r.sig_alg) (expand (dedupe groups) (dedupe algs))
unfolding dedupe codes trim text_eq contains_text expand
same_algs = refl

matrix-expand_example :
    ((matrix rows).groups ≡ dedupe groups) × ((matrix rows).sig_algs ≡ dedupe algs)
matrix-expand_example = matrix-expand groups algs rows some_group some_alg same_groups same_algs

abbrev request : NewTest
request = record {
  host = codes "lab.test";
  port = pos 443;
  http_path = codes "/";
  tool = codes "pq-dsa";
  plugin = codes "open3x";
  groups = groups;
  sig_algs = algs;
}

check_new_test_iff_example : (check_new_test 200 request ≡ ok tt) ↔ IsAcceptable 200 request
check_new_test_iff_example = check_new_test_iff 200 request

request_ok : check_new_test 200 request ≡ ok tt
unfolding check_new_test subtask_count dedupe codes trim text_eq contains_text starts_with
request_ok = refl

check_new_test-blank_example :
    let blank = record request { groups = codes " " ∷ [] } in
    (check_new_test 200 blank ≡ ok tt) × (expand (dedupe blank.groups) (dedupe blank.sig_algs) ≡ [])
check_new_test-blank_example = check_new_test-blank 200 request request_ok
