-- ===== src/Cavp/Cases.antt =====
-- What it takes for a case to be graded Correct (crates/cavp-validate/src/lib.rs).
use pqc_sec_inspection_cours.Prelude.{
  ℕ, ◌≡◌, refl, ◌≢◌, ◌↔◌, ◌⊎◌, inl, inr, Bool, true, false, Option, none, some, List, arith, Text,
  codes, text_eq, refl, text_eq_iff, Option-cases, Bool-cases, ℤ, Result, sym, ap, ◌∙◌,
}
use pqc_sec_inspection_cours.Json.{Json, and_then}
use pqc_sec_inspection_cours.Cavp.Params.{ParameterSet}
use pqc_sec_inspection_cours.Cavp.Report.{correct, incorrect, malformed, AnswerCase}
use pqc_sec_inspection_cours.Cavp.Grade.{
  SubmittedCase, same_bool, key_gen, sig_gen, sig_ver, check_field, check_passed, check_case,
  compare_case,
}
use pqc_sec_inspection_cours.Cavp.Fields.{Passes, Answers, check_hex_cases}
use pqc_sec_inspection_cours.Cavp.Decisions.{
  Rejects, Decides, Decides-seq, Decides-if, Decides-iff, key_gen-ne-sig_gen, key_gen-ne-sig_ver,
  sig_gen-ne-sig_ver, settle_iff, Fails-Rejects, Names, Names-seq, Names-if, Names-settle,
  Names-Passes, Names-Fails,
}

module _ (j : Json) (decode : Text → Result (List ℕ) Text) where
  open j use {Map, map_get, as_bool}

  abbrev pub FieldAnswered : SubmittedCase Map → Text → Option Text → ℕ → Type 0
  FieldAnswered actual field none len = Unit
  FieldAnswered actual field (some want) len = Answers j decode actual field want len

  abbrev pub PassedAnswered : SubmittedCase Map → Option Bool → Type 0
  PassedAnswered actual none = Unit
  PassedAnswered actual (some want) =
      and_then (map_get actual.values (codes "testPassed")) as_bool ≡ some want

  -- The submission answers every field that the key gives for the capability.
  abbrev pub CaseAnswered : AnswerCase → SubmittedCase Map → Text → ParameterSet → Type 0
  CaseAnswered expected actual mode set =
      ((mode ≡ key_gen)
        × (FieldAnswered actual (codes "pk") expected.pk set.pk_len
            × FieldAnswered actual (codes "sk") expected.sk set.sk_len))
      ⊎ ((mode ≡ sig_gen) × FieldAnswered actual (codes "signature") expected.signature set.sig_len)
      ⊎ ((mode ≡ sig_ver) × PassedAnswered actual expected.test_passed)

  check_field_Decides :
      (tc_id : ℤ) (actual : SubmittedCase Map) (field : Text) (want : Option Text) (len : ℕ)
      → Decides
          (check_field j decode tc_id actual field want len)
          (FieldAnswered actual field want len)
  unfolding check_field
  check_field_Decides tc_id actual field none len = inl (tt, tt)
  check_field_Decides tc_id actual field (some want) len =
      elim (check_hex_cases j decode tc_id actual field want len) [
        | inl p ↦ inl p
        | inr (inl p) ↦ inr (Fails-Rejects tc_id field incorrect _ (λ e. cc) p.0, p.2)
        | inr (inr p) ↦
            inr (Fails-Rejects tc_id field malformed _ (λ e. cc) p.0, λ h. p.1 (h.0, h.1, h.2))
      ]

  differ : (a b : Bool) → same_bool a b ≡ false → a ≢ b
  differ a b h e = ground arith

  same_bool_iff : (a b : Bool) → (same_bool a b ≡ true) ↔ (a ≡ b)
  same_bool_iff a b = ground arith

  check_passed_Decides :
      (tc_id : ℤ) (actual : SubmittedCase Map) (want : Option Bool)
      → Decides (check_passed j decode tc_id actual want) (PassedAnswered actual want)
  unfolding check_passed
  check_passed_Decides tc_id actual none = inl (tt, tt)
  check_passed_Decides tc_id actual (some want) =
      elim (Option-cases (and_then (map_get actual.values (codes "testPassed")) as_bool)) [
        | inl e ↦ inr (rw (e, Rejects) (λ x. cc), λ h. cc (e, h))
        | inr (got, e) ↦ elim (Bool-cases (same_bool got want)) [
          | inl same ↦ inl (rw (e, same, Passes) tt, e ∙ ap some ((same_bool_iff got want).0 same))
          | inr other ↦
              inr (rw (e, other, Rejects) (λ x. cc), λ h. differ got want other (cc (e, h)))
        ]
      ]

  check_case_Decides :
      (expected : AnswerCase) (actual : SubmittedCase Map) (mode : Text) (set : ParameterSet)
      → Decides
          (check_case j decode expected actual mode set)
          (CaseAnswered expected actual mode set)
  unfolding check_case
  check_case_Decides expected actual mode set =
      Decides-if (text_eq mode key_gen) _ _ (text_eq_iff mode key_gen)
        (Decides-seq
          (check_field j decode expected.tc_id actual (codes "pk") expected.pk set.pk_len)
          (check_field j decode expected.tc_id actual (codes "sk") expected.sk set.sk_len)
          (check_field_Decides expected.tc_id actual (codes "pk") expected.pk set.pk_len)
          (check_field_Decides expected.tc_id actual (codes "sk") expected.sk set.sk_len))
        (Decides-if (text_eq mode sig_gen) _ _ (text_eq_iff mode sig_gen)
          (check_field_Decides expected.tc_id actual (codes "signature") expected.signature
            set.sig_len)
          (Decides-iff _ (elim [ inl h ↦ h | inr x ↦ absurd x ], inl)
            (Decides-if (text_eq mode sig_ver) _ _ (text_eq_iff mode sig_ver)
              (check_passed_Decides expected.tc_id actual expected.test_passed)
              (inr ((λ x. cc), λ x. x)) (λ m x. x)))
          (λ m h. sig_gen-ne-sig_ver (sym m ∙ h.0)))
        (λ m. elim [
          | inl h ↦ key_gen-ne-sig_gen (sym m ∙ h.0)
          | inr h ↦ key_gen-ne-sig_ver (sym m ∙ h.0)
        ])

  -- A case is graded Correct exactly when the mode is one of the three and the submission answers
  -- every field that the key gives for it: the hexadecimal fields by their reference values of
  -- the parameter set's length, and `testPassed` by the boolean of the key.
  pub compare_case_correct_iff :
      (expected : AnswerCase) (actual : SubmittedCase Map) (mode : Text) (set : ParameterSet)
      → ((compare_case j decode expected actual mode set).status ≡ correct)
        ↔ CaseAnswered expected actual mode set
  unfolding compare_case
  compare_case_correct_iff expected actual mode set =
      settle_iff expected.tc_id (check_case j decode expected actual mode set)
        (check_case_Decides expected actual mode set)

  check_field-Names :
      (tc_id : ℤ) (actual : SubmittedCase Map) (field : Text) (want : Option Text) (len : ℕ)
      → Names tc_id (check_field j decode tc_id actual field want len)
  unfolding check_field
  check_field-Names tc_id actual field none len = tt
  check_field-Names tc_id actual field (some want) len =
      elim (check_hex_cases j decode tc_id actual field want len) [
        | inl p ↦ Names-Passes tc_id _ p.0
        | inr (inl p) ↦ Names-Fails tc_id field incorrect _ p.0
        | inr (inr p) ↦ Names-Fails tc_id field malformed _ p.0
      ]

  check_passed-Names :
      (tc_id : ℤ) (actual : SubmittedCase Map) (want : Option Bool)
      → Names tc_id (check_passed j decode tc_id actual want)
  unfolding check_passed
  check_passed-Names tc_id actual none = tt
  check_passed-Names tc_id actual (some want) =
      elim (Option-cases (and_then (map_get actual.values (codes "testPassed")) as_bool)) [
        | inl e ↦ rw (e, Names) refl
        | inr (got, e) ↦ rw (e, Names) (Names-if tc_id (same_bool got want) _ _ tt refl)
      ]

  -- The result of a comparison is about the expected case.
  pub tc_id-compare_case :
      (expected : AnswerCase) (actual : SubmittedCase Map) (mode : Text) (set : ParameterSet)
      → (compare_case j decode expected actual mode set).tc_id ≡ expected.tc_id
  unfolding compare_case check_case
  tc_id-compare_case expected actual mode set = Names-settle expected.tc_id _ (
      Names-if expected.tc_id (text_eq mode key_gen) _ _
        (Names-seq expected.tc_id _ _ (check_field-Names expected.tc_id actual _ expected.pk _)
          (check_field-Names expected.tc_id actual _ expected.sk _))
        (Names-if expected.tc_id (text_eq mode sig_gen) _ _
          (check_field-Names expected.tc_id actual _ expected.signature _)
          (Names-if expected.tc_id (text_eq mode sig_ver) _ _
            (check_passed-Names expected.tc_id actual expected.test_passed) refl)))
