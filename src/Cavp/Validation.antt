-- ===== src/Cavp/Validation.antt =====
-- What `validate` guarantees of a whole submission (crates/cavp-validate/src/lib.rs).
use pqc_sec_inspection_cours.Prelude.{
  ℕ, ◌+◌, ◌≡◌, refl, ◌↔◌, inl, inr, Option, none, some, List, [], ◌∷◌, map, arith, Text, codes,
  text_eq, text_eq_iff, Option-cases, ℤ, int_eq, int_eq_iff, Result, ok, ok_or-eq-ok, >>=-eq-ok,
  reject_if-not_iff, iff_trans, length, length-map,
}
use pqc_sec_inspection_cours.Json.{Json, and_then}
use pqc_sec_inspection_cours.Cavp.Params.{ParameterSet, lookup}
use pqc_sec_inspection_cours.Cavp.Report.{
  mode_mismatch, vs_id_mismatch, correct, incorrect, malformed, missing, CaseResult,
  ValidationReport, AnswerCase, AnswerKey,
}
use pqc_sec_inspection_cours.Cavp.Grade.{
  SubmittedCase, count, collect_cases, entry, grade_case, report, fit_mode, fit_vs_id, parse,
  validate,
}
use pqc_sec_inspection_cours.Cavp.Cases.{tc_id-compare_case}

count_all :
    (cs : List CaseResult)
    → count correct cs + count incorrect cs + count malformed cs + count missing cs ≡ length cs
unfolding count
count_all [] = refl
count_all (c ∷ cs) = ground (arith, count_all cs)

-- A value that is there is `want`.
abbrev pub Fits {ℓ} : {A : Type ℓ} → Option A → A → Type ℓ
Fits none want = Unit
Fits (some a) want = a ≡ want

module _ (j : Json) (decode : Text → Result (List ℕ) Text) where
  open j use {Value, Map, from_str, get, as_str, as_i64}

  -- The submission is JSON for this key's pack, and has test groups.
  pub record IsAccepted (text : Text) (key : AnswerKey) : Type 0 where
    pub value : Value
    pub set : ParameterSet
    pub submitted : List (SubmittedCase Map)
    pub parsed : from_str text ≡ ok value
    pub known : lookup key.parameter_set ≡ some set
    pub mode : Fits (and_then (get value (codes "mode")) as_str) key.mode
    pub vs_id : Fits (and_then (get value (codes "vsId")) as_i64) key.vs_id
    pub collected : collect_cases j decode value ≡ some submitted

  abbrev pub graded : AnswerKey → ParameterSet → List (SubmittedCase Map) → ValidationReport
  graded key set submitted =
      report j decode key (map (grade_case j decode key.mode set submitted) key.cases)

  pub fit_mode_iff :
      (key : AnswerKey) (o : Option Text) → (fit_mode j decode key o ≡ ok tt) ↔ Fits o key.mode
  unfolding fit_mode
  fit_mode_iff key none = (λ _. tt, λ _. refl)
  fit_mode_iff key (some m) =
      iff_trans (reject_if-not_iff (text_eq m key.mode) (mode_mismatch m key.mode))
        (text_eq_iff m key.mode)

  pub fit_vs_id_iff :
      (key : AnswerKey) (o : Option ℤ) → (fit_vs_id j decode key o ≡ ok tt) ↔ Fits o key.vs_id
  unfolding fit_vs_id
  fit_vs_id_iff key none = (λ _. tt, λ _. refl)
  fit_vs_id_iff key (some v) =
      iff_trans (reject_if-not_iff (int_eq v key.vs_id) (vs_id_mismatch v key.vs_id))
        (int_eq_iff v key.vs_id)

  pub parse-eq-ok :
      (text : Text) (value : Value) → parse j decode text ≡ ok value → from_str text ≡ ok value
  unfolding parse
  parse-eq-ok text value h = ground arith

  pub parse_of :
      (text : Text) (value : Value) → from_str text ≡ ok value → parse j decode text ≡ ok value
  unfolding parse
  parse_of text value h = ground arith

  pub tc_id-grade_case :
      (mode : Text) (set : ParameterSet) (submitted : List (SubmittedCase Map)) (c : AnswerCase)
      → (grade_case j decode mode set submitted c).tc_id ≡ c.tc_id
  unfolding grade_case
  tc_id-grade_case mode set submitted c = elim (Option-cases (entry j decode submitted c)) [
    | inl e ↦ rw (e, grade_case) refl
    | inr (actual, e) ↦ rw (e, grade_case) (tc_id-compare_case j decode c actual mode set)
  ]

  pub tc_id-map :
      (mode : Text) (set : ParameterSet) (submitted : List (SubmittedCase Map))
      (cs : List AnswerCase)
      → map (λ c. c.tc_id) (map (grade_case j decode mode set submitted) cs) ≡ map (λ c. c.tc_id) cs
  tc_id-map mode set submitted [] = refl
  tc_id-map mode set submitted (c ∷ cs) =
      rw (tc_id-grade_case mode set submitted c, tc_id-map mode set submitted cs) refl

  pub validate_of_IsAccepted :
      (text : Text) (key : AnswerKey) (a : IsAccepted text key)
      → validate j decode text key ≡ ok (graded key a.set a.submitted)
  unfolding validate
  validate_of_IsAccepted text key a =
      rw
        (
          parse_ok,
          a.known,
          (fit_mode_iff key _).1 a.mode,
          (fit_vs_id_iff key _).1 a.vs_id,
          a.collected,
        )
        refl
    where
      parse_ok : parse j decode text ≡ ok a.value
      parse_ok = parse_of text a.value a.parsed

  pub IsAccepted_of_validate :
      (text : Text) (key : AnswerKey) (r : ValidationReport)
      → validate j decode text key ≡ ok r
      → (a : IsAccepted text key) × (r ≡ graded key a.set a.submitted)
  unfolding validate
  IsAccepted_of_validate text key r h =
      let (value, h1, parsed) = >>=-eq-ok _ _ h in
      let (set, h2, found) = >>=-eq-ok _ _ h1 in
      let (_, h3, moded) = >>=-eq-ok _ _ h2 in
      let (_, h4, vs) = >>=-eq-ok _ _ h3 in
      let (submitted, h5, collected) = >>=-eq-ok _ _ h4 in
      (
        record {
          value = value;
          set = set;
          submitted = submitted;
          parsed = parse-eq-ok text value parsed;
          known = ok_or-eq-ok _ _ found;
          mode = (fit_mode_iff key _).0 moded;
          vs_id = (fit_vs_id_iff key _).0 vs;
          collected = ok_or-eq-ok _ _ collected;
        },
        cc,
      )

  pub validate_iff :
      (text : Text) (key : AnswerKey) (r : ValidationReport)
      → (validate j decode text key ≡ ok r)
        ↔ ((a : IsAccepted text key) × (r ≡ graded key a.set a.submitted))
  validate_iff text key r =
      (IsAccepted_of_validate text key r, λ (a, e). rw e (validate_of_IsAccepted text key a))

  -- The four counts of a report add up to its total, there is one case for each case of the key,
  -- in the key's order, and the report names the key's pack.
  pub validate_tally :
      (text : Text) (key : AnswerKey) (r : ValidationReport)
      → validate j decode text key ≡ ok r
      → (r.correct + r.incorrect + r.malformed + r.missing ≡ r.total)
        × (r.total ≡ length key.cases)
        × (map (λ c. c.tc_id) r.cases ≡ map (λ c. c.tc_id) key.cases)
        × (r.vs_id ≡ key.vs_id)
        × (r.mode ≡ key.mode)
        × (r.parameter_set ≡ key.parameter_set)
  unfolding report
  validate_tally text key r h =
      let (a, e) = IsAccepted_of_validate text key r h in
      rw e (
        count_all _,
        length-map _ key.cases,
        tc_id-map key.mode a.set a.submitted key.cases,
        refl,
        refl,
        refl,
      )
