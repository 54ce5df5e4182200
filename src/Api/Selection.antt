-- ===== src/Api/Selection.antt =====
-- What a new test selects (services/api/src/routes/tests.rs).
pub mod Number
use pqc_sec_inspection_cours.Prelude.{
  ◌≡◌, refl, sym, subst, ◌≢◌, ◌↔◌, inl, inr, true, false, not, ◌&&◌, List, [], ◌∷◌, Text, codes,
  text_eq, text_eq_iff, trim, is_empty, is_empty_iff, starts_with, contains_text, Some, arith,
  if◌then◌else◌, Bool-cases,
}

-- `HashSet::insert` says whether the value is new. The set is a list.
unfoldable pub dedupe_from : List Text → List Text → List Text
dedupe_from seen [] = []
dedupe_from seen (v ∷ values) =
    elim (not (is_empty (trim v)) && not (contains_text seen (trim v))) [
      | true ↦ trim v ∷ dedupe_from (trim v ∷ seen) values
      | false ↦ dedupe_from seen values
    ]

unfoldable pub dedupe : List Text → List Text
unfolding dedupe_from
dedupe values = dedupe_from [] values

-- Tool and plugin to adapter; the tool does not matter.
unfoldable pub adapter_for : Text → Text → Text → Text
adapter_for tool plugin default =
    if starts_with plugin (codes "bq")
    then codes "boringssl"
    else if starts_with plugin (codes "bo")
    then codes "boringssl"
    else if starts_with plugin (codes "wo")
    then codes "wolfssl"
    else if starts_with plugin (codes "go")
    then codes "go"
    else if starts_with plugin (codes "open")
    then codes "openssl"
    else default

abbrev pub Mem : Text → List Text → Type 0
Mem x xs = Some (λ y. y ≡ x) xs

-- No text occurs twice.
abbrev pub Once : List Text → Type 0
Once [] = Unit
Once (x ∷ xs) = (¬ Mem x xs) × Once xs

pub contains_text_iff : (xs : List Text) (x : Text) → (contains_text xs x ≡ true) ↔ Mem x xs
unfolding contains_text
contains_text_iff [] x = (λ e. cc, λ h. absurd h)
contains_text_iff (y ∷ xs) x = ground (arith, contains_text_iff xs x, text_eq_iff y x)

-- A value that is taken: it is not blank and has not been seen.
abbrev Taken : List Text → Text → Type 0
Taken seen x = (x ≢ []) × (¬ Mem x seen)

Taken-iff :
    (seen : List Text) (x : Text)
    → ((not (is_empty x) && not (contains_text seen x)) ≡ true) ↔ Taken seen x
Taken-iff seen x = ground (arith, is_empty_iff x, contains_text_iff seen x)

differs : (s t : Text) → text_eq s t ≡ false → s ≢ t
differs s t e same = ground (arith, text_eq_iff s t)

not-Taken :
    (seen : List Text) (x : Text)
    → (not (is_empty x) && not (contains_text seen x)) ≡ false
    → ¬ Taken seen x
not-Taken seen x e t = ground (arith, Taken-iff seen x)

dedupe_from_mem :
    (seen values : List Text) (x : Text)
    → Mem x (dedupe_from seen values) ↔ (Taken seen x × Some (λ v. trim v ≡ x) values)
unfolding dedupe_from
dedupe_from_mem seen [] x = (λ h. absurd h, λ h. absurd h.1)
dedupe_from_mem seen (v ∷ values) x =
    elim (Bool-cases (not (is_empty (trim v)) && not (contains_text seen (trim v)))) [
      | inl e ↦
          let t = (Taken-iff seen (trim v)).0 e in
          let rest = dedupe_from_mem (trim v ∷ seen) values x in
          rw (e, Some)
            (
              elim [
                | inl same ↦ (subst (Taken seen) same t, inl same)
                | inr h ↦ let (k, s) = rest.0 h in ((k.0, λ m. k.1 (inr m)), inr s)
              ],
              λ (k, s). elim s [
                | inl same ↦ inl same
                | inr more ↦ elim (Bool-cases (text_eq (trim v) x)) [
                  | inl same ↦ inl ((text_eq_iff (trim v) x).0 same)
                  | inr other ↦ inr (
                      rest.1 (
                        (k.0, elim [ inl same ↦ differs (trim v) x other same | inr m ↦ k.1 m ]),
                        more,
                      ))
                ]
              ],
            )
      | inr e ↦
          let rest = dedupe_from_mem seen values x in
          rw (e, Some)
            (
              λ h. let (k, s) = rest.0 h in (k, inr s),
              λ (k, s). elim s [
                | inl same ↦ absurd (not-Taken seen (trim v) e (subst (Taken seen) (sym same) k))
                | inr more ↦ rest.1 (k, more)
              ],
            )
    ]

dedupe_from-Once : (seen values : List Text) → Once (dedupe_from seen values)
unfolding dedupe_from
dedupe_from-Once seen [] = tt
dedupe_from-Once seen (v ∷ values) =
    elim (Bool-cases (not (is_empty (trim v)) && not (contains_text seen (trim v)))) [
      | inl e ↦
          rw (e, Once)
            (
              λ m. ((dedupe_from_mem (trim v ∷ seen) values (trim v)).0 m).0.1 (inl refl),
              dedupe_from-Once (trim v ∷ seen) values,
            )
      | inr e ↦ rw (e, Once) (dedupe_from-Once seen values)
    ]

-- A selection is cleaned to the texts that its values have when trimmed: each that is not empty
-- is there, none is there twice and there is nothing else.
pub dedupe_mem :
    (values : List Text)
    → Once (dedupe values)
      × ((x : Text) → Mem x (dedupe values) ↔ ((x ≢ []) × Some (λ v. trim v ≡ x) values))
unfolding dedupe
dedupe_mem values = (
  dedupe_from-Once [] values,
  λ x.
      let iff = dedupe_from_mem [] values x in
      (λ h. ((iff.0 h).0.0, (iff.0 h).1), λ h. iff.1 ((h.0, λ m. m), h.1)),
)
