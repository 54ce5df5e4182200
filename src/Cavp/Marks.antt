-- ===== src/Cavp/Marks.antt =====
-- What it takes for a submission to be all correct (crates/cavp-validate/src/lib.rs).
use pqc_sec_inspection_cours.Prelude.{
  ℕ, ◌<◌, ◌≡◌, refl, ◌↔◌, inl, inr, Bool, true, Option, none, some, List, [], ◌∷◌, ◌++◌, map, arith,
  Text, Option-cases, int_eq, Result, ok, ap, length, length-map, length-filter, find, All,
}
use pqc_sec_inspection_cours.Json.{Json}
use pqc_sec_inspection_cours.Cavp.Params.{ParameterSet}
use pqc_sec_inspection_cours.Cavp.Report.{
  correct, missing, CaseResult, ValidationReport, AnswerCase, AnswerKey, all_correct,
}
use pqc_sec_inspection_cours.Cavp.Grade.{
  SubmittedCase, same_status, count, entry, grade_case, report, validate,
}
use pqc_sec_inspection_cours.Cavp.Cases.{CaseAnswered, compare_case_correct_iff}
use pqc_sec_inspection_cours.Cavp.Validation.{IsAccepted, graded, validate_of_IsAccepted}

-- Full marks: every case is counted as correct.
count-eq-length_iff :
    (cs : List CaseResult) → (count correct cs ≡ length cs) ↔ All (λ c. c.status ≡ correct) cs
unfolding count
count-eq-length_iff [] = (λ _. tt, λ _. refl)
count-eq-length_iff (c ∷ cs) =
    ground (arith, count-eq-length_iff cs, length-filter (λ d. same_status correct d.status) cs)

module _ (j : Json) (decode : Text → Result (List ℕ) Text) where
  open j use {Value, Map, from_str, get, as_str, as_i64}

  -- The entry that counts for the case answers it.
  abbrev pub Solved : Text → ParameterSet → List (SubmittedCase Map) → AnswerCase → Type 0
  Solved mode set submitted expected =
      (actual : SubmittedCase Map) × (entry j decode submitted expected ≡ some actual)
      × CaseAnswered j decode expected actual mode set

  grade_case_correct_iff :
      (mode : Text) (set : ParameterSet) (submitted : List (SubmittedCase Map)) (c : AnswerCase)
      → ((grade_case j decode mode set submitted c).status ≡ correct) ↔ Solved mode set submitted c
  unfolding grade_case
  grade_case_correct_iff mode set submitted c = elim (Option-cases (entry j decode submitted c)) [
    | inl e ↦ (λ h. cc (the_missing e, h), λ s. cc (e, s.1))
    | inr (actual, e) ↦
        let iff = compare_case_correct_iff j decode c actual mode set in
        (
          λ h. (actual, e, iff.0 (rw (e, grade_case) at h)),
          λ s. rw (e, grade_case) (iff.1 (rw (same e s.1) s.2)),
        )
  ]
    where
      same :
          {x y : SubmittedCase Map} {o : Option (SubmittedCase Map)}
          → o ≡ some x
          → o ≡ some y
          → x ≡ y
      same p q = cc

      the_missing :
          entry j decode submitted c ≡ none
          → (grade_case j decode mode set submitted c).status ≡ missing
      the_missing e = rw (e, grade_case) refl

  All-map-grade :
      (mode : Text) (set : ParameterSet) (submitted : List (SubmittedCase Map))
      (cs : List AnswerCase)
      → All (λ c. c.status ≡ correct) (map (grade_case j decode mode set submitted) cs)
        ↔ All (Solved mode set submitted) cs
  All-map-grade mode set submitted [] = (λ _. tt, λ _. tt)
  All-map-grade mode set submitted (c ∷ cs) =
      let here = grade_case_correct_iff mode set submitted c in
      let rest = All-map-grade mode set submitted cs in
      (λ h. (here.0 h.0, rest.0 h.1), λ h. (here.1 h.0, rest.1 h.1))

  all_correct_cases :
      (key : AnswerKey) (cs : List CaseResult)
      → (all_correct (report j decode key cs) ≡ true)
        ↔ ((0 < length cs) × (count correct cs ≡ length cs))
  unfolding all_correct report
  all_correct_cases key cs = ground arith

  -- A graded submission is all correct exactly when the key has a case, and for every case of the
  -- key the first submitted entry with its `tcId` is there and answers it.
  pub all_correct_iff :
      (text : Text) (key : AnswerKey) (r : ValidationReport) (a : IsAccepted j decode text key)
      → validate j decode text key ≡ ok r
      → (all_correct r ≡ true)
        ↔ ((0 < length key.cases) × All (Solved key.mode a.set a.submitted) key.cases)
  all_correct_iff text key r a h =
      let cs = map (grade_case j decode key.mode a.set a.submitted) key.cases in
      let same : r ≡ graded j decode key a.set a.submitted =
        cc (h, validate_of_IsAccepted j decode text key a) in
      let size : length cs ≡ length key.cases = length-map _ key.cases in
      let full = count-eq-length_iff cs in
      let each = All-map-grade key.mode a.set a.submitted key.cases in
      let iff = all_correct_cases key cs in
      rw same (
        λ e. (omega (arith, (iff.0 e).0), each.0 (full.0 (iff.0 e).1)),
        λ e. iff.1 (omega (arith, e.0), full.1 (each.1 e.1)),
      )

  find-append :
      (p : SubmittedCase Map → Bool) (xs ys : List (SubmittedCase Map)) (c : SubmittedCase Map)
      → find p xs ≡ some c
      → find p (xs ++ ys) ≡ some c
  find-append p [] ys c h = cc
  find-append p (x ∷ xs) ys c h = ground (arith, find-append p xs ys c)

  entry-append :
      (submitted more : List (SubmittedCase Map)) (c : AnswerCase) (a : SubmittedCase Map)
      → entry j decode submitted c ≡ some a
      → entry j decode (submitted ++ more) c ≡ some a
  unfolding entry
  entry-append submitted more c a e = find-append (λ s. int_eq s.tc_id c.tc_id) submitted more a e

  grade_case-append :
      (mode : Text) (set : ParameterSet) (submitted more : List (SubmittedCase Map))
      (c : AnswerCase) (a : SubmittedCase Map)
      → entry j decode submitted c ≡ some a
      → grade_case j decode mode set (submitted ++ more) c
        ≡ grade_case j decode mode set submitted c
  unfolding grade_case
  grade_case-append mode set submitted more c a e =
      rw (entry-append submitted more c a e, e, grade_case) refl

  -- Once every case of the key has an entry, further entries for the same cases, however they
  -- answer, change nothing in the report.
  pub graded-append :
      (key : AnswerKey) (set : ParameterSet) (submitted more : List (SubmittedCase Map))
      → All (λ c. (a : SubmittedCase Map) × (entry j decode submitted c ≡ some a)) key.cases
      → graded j decode key set (submitted ++ more) ≡ graded j decode key set submitted
  graded-append key set submitted more h = ap (report j decode key) (go key.cases h)
    where
      go :
          (cs : List AnswerCase)
          → All (λ c. (a : SubmittedCase Map) × (entry j decode submitted c ≡ some a)) cs
          → map (grade_case j decode key.mode set (submitted ++ more)) cs
            ≡ map (grade_case j decode key.mode set submitted) cs
      go [] h = refl
      go (c ∷ cs) ((a, e), h) =
          rw (grade_case-append key.mode set submitted more c a e, go cs h) refl
