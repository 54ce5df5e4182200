-- ===== src/Cavp/Grade.antt =====
-- `validate` and what it calls (crates/cavp-validate/src/lib.rs). `decode` is `hex::decode`, and
-- gives the bytes or the text of its error.
use pqc_sec_inspection_cours.Prelude.{
  ℕ, Bool, true, false, not, Option, none, some, List, [], ◌∷◌, ◌++◌, map, Text, codes, text_eq,
  trim, eq_ignore_ascii_case, show_nat, length, is_empty, find, filter, ◌==◌, if◌then◌else◌, ℤ,
  int_eq, Result, ok, err, ◌>>=◌, ◌>>◌, reject_if, ok_or,
}
use pqc_sec_inspection_cours.Json.{Json, and_then}
use pqc_sec_inspection_cours.Cavp.Params.{ParameterSet, lookup}
use pqc_sec_inspection_cours.Cavp.Report.{
  ValidateError, json, unknown_parameter_set, mode_mismatch, vs_id_mismatch, missing_test_groups,
  CaseStatus, correct, incorrect, malformed, missing, CaseResult, ValidationReport, AnswerCase,
  AnswerKey,
}

abbrev pub key_gen : Text
key_gen = codes "keyGen"

abbrev pub sig_gen : Text
sig_gen = codes "sigGen"

abbrev pub sig_ver : Text
sig_ver = codes "sigVer"

abbrev pub failed : ℤ → CaseStatus → Text → Text → CaseResult
failed tc_id status field reason = record {
  tc_id = tc_id;
  status = status;
  field = some field;
  reason = some reason;
}

abbrev pub passed : ℤ → CaseResult
passed tc_id = record { tc_id = tc_id; status = correct; field = none; reason = none }

abbrev pub same_bool : Bool → Bool → Bool
same_bool true b = b
same_bool false b = not b

abbrev pub show_bool : Bool → Text
show_bool true = codes "true"
show_bool false = codes "false"

-- The failure that a check reports, or success.
abbrev pub settle : ℤ → Result (Unit {0}) CaseResult → CaseResult
settle tc_id (ok _) = passed tc_id
settle tc_id (err result) = result

abbrev pub same_status : CaseStatus → CaseStatus → Bool
same_status correct correct = true
same_status incorrect incorrect = true
same_status malformed malformed = true
same_status missing missing = true
same_status _ _ = false

-- `cases.iter().filter(|c| c.status == s).count()`
unfoldable pub count : CaseStatus → List CaseResult → ℕ
count s cases = length (filter (λ c. same_status s c.status) cases)

pub record SubmittedCase (Map : Type 0) : Type 0 where
  pub tc_id : ℤ
  pub values : Map

module _ (j : Json) (decode : Text → Result (List ℕ) Text) where
  open j use {Value, Map, from_str, get, map_get, as_str, as_i64, as_bool, as_array, as_object}

  -- The rest of `check_hex`, once the field is a text.
  unfoldable pub check_text : ℤ → Text → Text → ℕ → Text → Result (Unit {0}) CaseResult
  check_text tc_id field want expected_len got =
      if is_empty (trim got)
      then err (failed tc_id malformed field (field ++ codes " is empty"))
      else elim (decode (trim got)) [
        | err e ↦ err (failed tc_id malformed field (field ++ (codes " is not hex: " ++ e)))
        | ok bytes ↦
            if not (length bytes == expected_len)
            then err (
                failed tc_id malformed field (
                  field
                  ++ (codes " is "
                      ++ (show_nat (length bytes)
                          ++ (codes " bytes, expected " ++ show_nat expected_len)))))
            else if not (eq_ignore_ascii_case (trim got) want)
            then err (
                failed tc_id incorrect field (field ++ codes " does not match the reference value"))
            else ok tt
      ]

  unfoldable pub check_hex : ℤ → SubmittedCase Map → Text → Text → ℕ → Result (Unit {0}) CaseResult
  unfolding check_text
  check_hex tc_id actual field want expected_len =
      elim (and_then (map_get actual.values field) as_str) [
        | none ↦ err (failed tc_id malformed field (codes "missing " ++ field))
        | some got ↦ check_text tc_id field want expected_len got
      ]

  -- One round of a capability's fields: a field that the key leaves out is skipped.
  unfoldable pub check_field :
      ℤ → SubmittedCase Map → Text → Option Text → ℕ → Result (Unit {0}) CaseResult
  check_field tc_id actual field none len = ok tt
  check_field tc_id actual field (some want) len = check_hex tc_id actual field want len

  unfoldable pub check_passed : ℤ → SubmittedCase Map → Option Bool → Result (Unit {0}) CaseResult
  check_passed tc_id actual none = ok tt
  check_passed tc_id actual (some want) =
      elim (and_then (map_get actual.values (codes "testPassed")) as_bool) [
        | none ↦
            err
              (failed tc_id malformed (codes "testPassed") (codes "expected a boolean testPassed"))
        | some got ↦
            if same_bool got want
            then ok tt
            else err (
                failed tc_id incorrect (codes "testPassed")
                  (codes "expected testPassed = " ++ show_bool want))
      ]

  unfoldable pub check_case :
      AnswerCase → SubmittedCase Map → Text → ParameterSet → Result (Unit {0}) CaseResult
  check_case expected actual mode set =
      if text_eq mode key_gen
      then (do
        check_field expected.tc_id actual (codes "pk") expected.pk set.pk_len
        check_field expected.tc_id actual (codes "sk") expected.sk set.sk_len)
      else if text_eq mode sig_gen
      then check_field expected.tc_id actual (codes "signature") expected.signature set.sig_len
      else if text_eq mode sig_ver
      then check_passed expected.tc_id actual expected.test_passed
      else err (record {
        tc_id = expected.tc_id;
        status = malformed;
        field = none;
        reason = some (codes "unsupported mode " ++ mode);
      })

  unfoldable pub compare_case : AnswerCase → SubmittedCase Map → Text → ParameterSet → CaseResult
  compare_case expected actual mode set =
      settle expected.tc_id (check_case expected actual mode set)

  -- The inner loop of `collect_cases`: entries that are no object, or have no integer `tcId`, are
  -- passed over.
  submitted_case : Value → Option (SubmittedCase Map)
  submitted_case test = and_then (as_object test) λ obj.
      and_then (and_then (map_get obj (codes "tcId")) as_i64)
        λ tc_id. some (record { tc_id = tc_id; values = obj })

  collect_tests : List Value → List (SubmittedCase Map)
  collect_tests [] = []
  collect_tests (test ∷ tests) =
      let rest = collect_tests tests in
      elim (submitted_case test) [ none ↦ rest | some c ↦ c ∷ rest ]

  collect_groups : List Value → List (SubmittedCase Map)
  collect_groups [] = []
  collect_groups (group ∷ groups) =
      let rest = collect_groups groups in
      elim (and_then (get group (codes "tests")) as_array) [
        | none ↦ rest
        | some tests ↦ collect_tests tests ++ rest
      ]

  unfoldable pub collect_cases : Value → Option (List (SubmittedCase Map))
  unfolding collect_groups collect_tests submitted_case
  collect_cases value =
      and_then (and_then (get value (codes "testGroups")) as_array)
        λ groups. some (collect_groups groups)

  -- The submission that counts for an expected case is the first with its `tcId`.
  unfoldable pub entry : List (SubmittedCase Map) → AnswerCase → Option (SubmittedCase Map)
  entry submitted expected = find (λ c. int_eq c.tc_id expected.tc_id) submitted

  unfoldable pub grade_case :
      Text → ParameterSet → List (SubmittedCase Map) → AnswerCase → CaseResult
  grade_case mode set submitted expected = elim (entry submitted expected) [
    | none ↦ record {
      tc_id = expected.tc_id;
      status = missing;
      field = none;
      reason = some (codes "no entry for this tcId");
    }
    | some actual ↦ compare_case expected actual mode set
  ]

  unfoldable pub report : AnswerKey → List CaseResult → ValidationReport
  unfolding count
  report key cases = record {
    vs_id = key.vs_id;
    mode = key.mode;
    parameter_set = key.parameter_set;
    total = length cases;
    correct = count correct cases;
    incorrect = count incorrect cases;
    malformed = count malformed cases;
    missing = count missing cases;
    cases = cases;
  }

  -- A mode or `vsId` of the submission, if it has one, must be the key's.
  unfoldable pub fit_mode : AnswerKey → Option Text → Result (Unit {0}) ValidateError
  fit_mode key none = ok tt
  fit_mode key (some mode) = reject_if (not (text_eq mode key.mode)) (mode_mismatch mode key.mode)

  unfoldable pub fit_vs_id : AnswerKey → Option ℤ → Result (Unit {0}) ValidateError
  fit_vs_id key none = ok tt
  fit_vs_id key (some vs_id) =
      reject_if (not (int_eq vs_id key.vs_id)) (vs_id_mismatch vs_id key.vs_id)

  unfoldable pub parse : Text → Result Value ValidateError
  parse text = elim (from_str text) [ ok value ↦ ok value | err e ↦ err (json e) ]

  unfoldable pub validate : Text → AnswerKey → Result ValidationReport ValidateError
  validate results_json key = do
    value ← parse results_json
    set ← ok_or (lookup key.parameter_set) (unknown_parameter_set key.parameter_set)
    fit_mode key (and_then (get value (codes "mode")) as_str)
    fit_vs_id key (and_then (get value (codes "vsId")) as_i64)
    submitted ← ok_or (collect_cases value) missing_test_groups
    ok (report key (map (grade_case key.mode set submitted) key.cases))
