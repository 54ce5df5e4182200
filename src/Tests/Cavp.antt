-- ===== src/Tests/Cavp.antt =====
-- The grader on concrete submissions.
use pqc_sec_inspection_cours.Prelude.{
  ◌+◌, ◌<◌, ◌≡◌, refl, ◌↔◌, true, false, none, some, List, [], ◌∷◌, ◌++◌, map, length, All, Text,
  codes, text_eq, ℤ, pos, ok, to_ascii_lowercase, eq_ignore_ascii_case, trim,
}
use pqc_sec_inspection_cours.Json.{Json}
use pqc_sec_inspection_cours.Cavp.Params.{ml_dsa_65, lookup}
use pqc_sec_inspection_cours.Cavp.Report.{AnswerCase, AnswerKey, correct, all_correct}
use pqc_sec_inspection_cours.Cavp.Grade.{
  SubmittedCase, sig_ver, check_hex, compare_case, collect_cases, entry, validate,
}
use pqc_sec_inspection_cours.Cavp.Cases.{CaseAnswered, compare_case_correct_iff}
use pqc_sec_inspection_cours.Cavp.Marks.{Solved, all_correct_iff, graded-append}
use pqc_sec_inspection_cours.Cavp.Validation.{IsAccepted, graded, validate_iff, validate_tally}
use pqc_sec_inspection_cours.Tests.Documents.{
  Doc, Docs, no_docs, cons, Fields, no_fields, field, reads, unhex, find_field,
}

abbrev answer : ℤ → Doc → Fields
answer tc_id passed =
    field (codes "tcId") (Doc.number tc_id) (field (codes "testPassed") passed no_fields)

abbrev answers : Docs
answers =
    cons (Doc.object (answer (pos 1) (Doc.truth true)))
      (cons (Doc.object (answer (pos 2) (Doc.truth false))) no_docs)

-- Two answers in one test group, for `sigVer`.
abbrev document : Doc
document = Doc.object (
    field (codes "mode") (Doc.string sig_ver) (
      field (codes "testGroups")
        (Doc.array
          (cons (Doc.object (field (codes "tests") (Doc.array answers) no_fields)) no_docs))
        no_fields))

abbrev json : Json
json = reads document

abbrev verdict_of : ℤ → AnswerCase
verdict_of tc_id = record {
  tc_id = tc_id;
  pk = none;
  sk = none;
  signature = none;
  test_passed = some true;
}

-- The key wants both signatures accepted: the second answer is wrong.
abbrev key : AnswerKey
key = record {
  vs_id = pos 7;
  mode = sig_ver;
  parameter_set = codes "ML-DSA-65";
  cases = verdict_of (pos 1) ∷ verdict_of (pos 2) ∷ [];
}

unfoldable text : Text
text = codes "{…}"

abbrev submitted : List (SubmittedCase Fields)
submitted =
    record { tc_id = pos 1; values = answer (pos 1) (Doc.truth true) }
    ∷ record { tc_id = pos 2; values = answer (pos 2) (Doc.truth false) }
    ∷ []

accepted : IsAccepted json unhex text key
unfolding text codes find_field text_eq collect_cases lookup eq_ignore_ascii_case to_ascii_lowercase
accepted = record {
  value = document;
  set = ml_dsa_65;
  submitted = submitted;
  parsed = refl;
  known = refl;
  mode = refl;
  vs_id = tt;
  collected = refl;
}

validates : validate json unhex text key ≡ ok (graded json unhex key ml_dsa_65 submitted)
unfolding accepted
validates = (validate_iff json unhex text key _).1 (accepted, refl)

validate_tally_example :
    let r = graded json unhex key ml_dsa_65 submitted in
    (r.correct + r.incorrect + r.malformed + r.missing ≡ r.total)
    × (r.total ≡ length key.cases)
    × (map (λ c. c.tc_id) r.cases ≡ map (λ c. c.tc_id) key.cases)
    × (r.vs_id ≡ key.vs_id)
    × (r.mode ≡ key.mode)
    × (r.parameter_set ≡ key.parameter_set)
validate_tally_example =
    validate_tally json unhex text key (graded json unhex key ml_dsa_65 submitted) validates

all_correct_iff_example :
    (all_correct (graded json unhex key ml_dsa_65 submitted) ≡ true)
    ↔ ((0 < length key.cases) × All (Solved json unhex key.mode ml_dsa_65 submitted) key.cases)
unfolding accepted
all_correct_iff_example =
    all_correct_iff json unhex text key (graded json unhex key ml_dsa_65 submitted) accepted
      validates

graded-append_example :
    graded json unhex key ml_dsa_65 (submitted ++ submitted)
    ≡ graded json unhex key ml_dsa_65 submitted
unfolding entry
graded-append_example =
    graded-append json unhex key ml_dsa_65 submitted submitted ((_, refl), ((_, refl), tt))

compare_case_correct_iff_example :
    let actual : SubmittedCase Fields = record {
      tc_id = pos 1;
      values = answer (pos 1) (Doc.truth true);
    } in
    ((compare_case json unhex (verdict_of (pos 1)) actual sig_ver ml_dsa_65).status ≡ correct)
    ↔ CaseAnswered json unhex (verdict_of (pos 1)) actual sig_ver ml_dsa_65
compare_case_correct_iff_example =
    compare_case_correct_iff json unhex (verdict_of (pos 1))
      (record { tc_id = pos 1; values = answer (pos 1) (Doc.truth true) }) sig_ver ml_dsa_65

-- A `pk` of two bytes, in capitals and with a blank after it.
abbrev with_pk : SubmittedCase Fields
with_pk = record {
  tc_id = pos 1;
  values = field (codes "pk") (Doc.string (codes "0AFF ")) no_fields;
}

-- This one passes.
with_pk_passes : check_hex json unhex (pos 1) with_pk (codes "pk") (codes "0aff") 2 ≡ ok tt
unfolding check_hex codes find_field text_eq unhex trim eq_ignore_ascii_case
with_pk_passes = refl
