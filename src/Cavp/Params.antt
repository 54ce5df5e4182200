-- ===== src/Cavp/Params.antt =====
-- FIPS 204 parameter sets (crates/cavp-validate/src/params.rs).
use pqc_sec_inspection_cours.Prelude.{
  ℕ, ◌≡◌, refl, ◌↔◌, inl, inr, Option, some, List, [], ◌∷◌, arith, Text, codes, find, Some,
  to_ascii_lowercase, eq_ignore_ascii_case, eq_ignore_ascii_case_iff,
}

pub record ParameterSet : Type 0 where
  pub name : Text
  pub pk_len : ℕ
  pub sk_len : ℕ
  pub sig_len : ℕ
  pub seed_len : ℕ

abbrev pub ml_dsa_44 : ParameterSet
ml_dsa_44 = record {
  name = codes "ML-DSA-44";
  pk_len = 1312;
  sk_len = 2560;
  sig_len = 2420;
  seed_len = 32;
}

abbrev pub ml_dsa_65 : ParameterSet
ml_dsa_65 = record {
  name = codes "ML-DSA-65";
  pk_len = 1952;
  sk_len = 4032;
  sig_len = 3309;
  seed_len = 32;
}

abbrev pub ml_dsa_87 : ParameterSet
ml_dsa_87 = record {
  name = codes "ML-DSA-87";
  pk_len = 2592;
  sk_len = 4896;
  sig_len = 4627;
  seed_len = 32;
}

abbrev pub all : List ParameterSet
all = ml_dsa_44 ∷ ml_dsa_65 ∷ ml_dsa_87 ∷ []

unfoldable pub lookup : Text → Option ParameterSet
lookup name = find (λ p. eq_ignore_ascii_case p.name name) all

lookup_sound :
    (name : Text) (p : ParameterSet)
    → lookup name ≡ some p
    → Some (λ q. q ≡ p) all × (to_ascii_lowercase p.name ≡ to_ascii_lowercase name)
unfolding lookup
lookup_sound name p h = ground (
  arith,
  eq_ignore_ascii_case_iff ml_dsa_44.name name,
  eq_ignore_ascii_case_iff ml_dsa_65.name name,
  eq_ignore_ascii_case_iff ml_dsa_87.name name,
)

-- Three sets, three names, also without regard to letter case.
lookup-name : (p : ParameterSet) → Some (λ q. q ≡ p) all → lookup p.name ≡ some p
unfolding lookup eq_ignore_ascii_case codes
lookup-name p (inl e) = rw (← e) refl
lookup-name p (inr (inl e)) = rw (← e) refl
lookup-name p (inr (inr (inl e))) = rw (← e) refl
lookup-name p (inr (inr (inr x))) = elim x [ ]

lookup-Same : (s t : Text) → to_ascii_lowercase s ≡ to_ascii_lowercase t → lookup s ≡ lookup t
unfolding lookup eq_ignore_ascii_case
lookup-Same s t e = rw e refl

-- A name finds a set exactly when the set is one of the three and bears that name, letter case
-- aside.
pub lookup_iff :
    (name : Text) (p : ParameterSet)
    → (lookup name ≡ some p)
      ↔ (Some (λ q. q ≡ p) all × (to_ascii_lowercase p.name ≡ to_ascii_lowercase name))
lookup_iff name p =
    (lookup_sound name p, λ h. rw (← lookup-Same p.name name h.1) (lookup-name p h.0))
