-- ===== src/Cavp/Fields.antt =====
-- What the check of one hexadecimal field decides (crates/cavp-validate/src/lib.rs).
use pqc_sec_inspection_cours.Prelude.{
  ℕ, ◌≡◌, refl, ◌≢◌, ◌⊎◌, inl, inr, true, false, Option, some, List, [], arith, Text, trim, length,
  ap, is_empty, is_empty_iff, eq_ignore_ascii_case, eq_ignore_ascii_case_iff, to_ascii_lowercase,
  ◌==◌, Option-cases, Bool-cases, ℤ, Result, ok, err, Result-cases,
}
use pqc_sec_inspection_cours.Json.{Json, and_then}
use pqc_sec_inspection_cours.Cavp.Report.{CaseStatus, incorrect, malformed, CaseResult}
use pqc_sec_inspection_cours.Cavp.Grade.{SubmittedCase, check_text, check_hex}

-- The check ends with a result for this case and field, of this status.
abbrev pub Fails : ℤ → Text → CaseStatus → Result (Unit {0}) CaseResult → Type 0
Fails tc_id field status (ok _) = ⊥
Fails tc_id field status (err r) = (r.status ≡ status) × (r.tc_id ≡ tc_id) × (r.field ≡ some field)

abbrev pub Passes : Result (Unit {0}) CaseResult → Type 0
Passes (ok _) = Unit
Passes (err _) = ⊥

module _ (j : Json) (decode : Text → Result (List ℕ) Text) where
  open j use {Map, map_get, as_str}

  -- A text that, trimmed, is not empty and decodes to `len` bytes.
  pub record IsHexOf (len : ℕ) (got : Text) : Type 0 where
    pub bytes : List ℕ
    pub nonempty : trim got ≢ []
    pub decoded : decode (trim got) ≡ ok bytes
    pub sized : length bytes ≡ len

  is_hex :
      {len : ℕ} {got : Text} (bytes : List ℕ)
      → is_empty (trim got) ≡ false
      → decode (trim got) ≡ ok bytes
      → (length bytes == len) ≡ true
      → IsHexOf len got
  is_hex {len} {got} bytes full good size = record {
    bytes = bytes;
    nonempty = λ e. cc ((is_empty_iff (trim got)).1 e, full);
    decoded = good;
    sized = ground arith;
  }

  wrong_size :
      {len : ℕ} {got : Text} (bytes : List ℕ)
      → decode (trim got) ≡ ok bytes
      → (length bytes == len) ≡ false
      → ¬ IsHexOf len got
  wrong_size bytes good size h =
      let same : bytes ≡ h.bytes = cc (good, h.decoded) in
      let n : length bytes ≡ length h.bytes = ap length same in ground (arith, h.sized)

  -- `want` is what the trimmed text spells, letter case aside.
  abbrev pub Spells : Text → Text → Type 0
  Spells got want = to_ascii_lowercase (trim got) ≡ to_ascii_lowercase want

  check_text_cases :
      (tc_id : ℤ) (field want : Text) (len : ℕ) (got : Text)
      → let r = check_text j decode tc_id field want len got in
        (Passes r × IsHexOf len got × Spells got want)
        ⊎ (Fails tc_id field incorrect r × IsHexOf len got × (¬ Spells got want))
        ⊎ (Fails tc_id field malformed r × (¬ IsHexOf len got))
  unfolding check_text
  check_text_cases tc_id field want len got = elim (Bool-cases (is_empty (trim got))) [
    | inl e ↦ inr (inr (rw e (refl, refl, refl), λ h. h.nonempty ((is_empty_iff (trim got)).0 e)))
    | inr full ↦ elim (Result-cases (decode (trim got))) [
      | inr (e, bad) ↦ inr (inr (rw (full, bad) (refl, refl, refl), λ h. cc (bad, h.decoded)))
      | inl (bytes, good) ↦ elim (Bool-cases (length bytes == len)) [
        | inr size ↦
            inr (inr (rw (full, good, size) (refl, refl, refl), λ h. wrong_size bytes good size h))
        | inl size ↦ elim (Bool-cases (eq_ignore_ascii_case (trim got) want)) [
          | inl same ↦ inl (
            rw (full, good, size, same) tt,
            is_hex bytes full good size,
            (eq_ignore_ascii_case_iff (trim got) want).0 same,
          )
          | inr other ↦ inr (
              inl (
                rw (full, good, size, other) (refl, refl, refl),
                is_hex bytes full good size,
                λ e. cc ((eq_ignore_ascii_case_iff (trim got) want).1 e, other),
              ))
        ]
      ]
    ]
  ]

  -- The field of the submission is a text of `len` hexadecimal bytes.
  abbrev pub HasHex : SubmittedCase Map → Text → ℕ → Type 0
  HasHex actual field len =
      (got : Text) × (and_then (map_get actual.values field) as_str ≡ some got) × IsHexOf len got

  -- It is moreover the reference value.
  abbrev pub Answers : SubmittedCase Map → Text → Text → ℕ → Type 0
  Answers actual field want len =
      (got : Text) × (and_then (map_get actual.values field) as_str ≡ some got)
      × IsHexOf len got
      × Spells got want

  -- The check of a field has three outcomes. It passes with a submitted text of the right length
  -- in hexadecimal that spells the reference value, letter case and white space around it aside;
  -- it fails as `incorrect` with such a text that spells another value; and it fails as
  -- `malformed` where there is no such text. A failure names the case and the field.
  pub check_hex_cases :
      (tc_id : ℤ) (actual : SubmittedCase Map) (field want : Text) (len : ℕ)
      → let r = check_hex j decode tc_id actual field want len in
        (Passes r × Answers actual field want len)
        ⊎ (Fails tc_id field incorrect r
            × HasHex actual field len
            × (¬ Answers actual field want len))
        ⊎ (Fails tc_id field malformed r × (¬ HasHex actual field len))
  unfolding check_hex
  check_hex_cases tc_id actual field want len =
      elim (Option-cases (and_then (map_get actual.values field) as_str)) [
        | inl e ↦ inr (inr (rw (e, Fails) (refl, refl, refl), λ h. cc (e, h.1)))
        | inr (got, e) ↦ elim (check_text_cases tc_id field want len got) [
          | inl t ↦ inl (rw (e, Passes) t.0, (got, e, t.1, t.2))
          | inr (inl t) ↦
              inr (inl (rw (e, Fails) t.0, (got, e, t.1), λ h. t.2 (rw (same e h.1) h.3)))
          | inr (inr t) ↦ inr (inr (rw (e, Fails) t.0, λ h. t.1 (rw (same e h.1) h.2)))
        ]
      ]
    where
      same : {got got' : Text} {o : Option Text} → o ≡ some got → o ≡ some got' → got ≡ got'
      same p q = cc
