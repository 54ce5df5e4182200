-- ===== src/Api/Tests/Known.antt =====
-- What the lookup of the names in the catalog says (services/api/src/routes/tests.rs, function
-- `reject_unknown`).
use pqc_sec_inspection_cours.Prelude.{
  ◌≡◌, inl, inr, Bool, true, not, ◌&&◌, List, [], ◌∷◌, All, Some, filter, map, Text, text_eq,
  text_eq_iff, contains_text, Bool-cases, arith,
}
use pqc_sec_inspection_cours.Domain.Models.{Algorithm}
use pqc_sec_inspection_cours.Api.Selection.{Mem, contains_text_iff}
use pqc_sec_inspection_cours.Api.Tests.{unknown_names}

-- Each of the names is that of an algorithm of the kind.
abbrev pub IsKnown : List Algorithm → (kind name : Text) → Type 0
IsKnown catalog kind name = Some (λ a. (a.kind ≡ kind) × (a.name ≡ name)) catalog

none_left :
    {A : Type 0} (p : A → Bool) (xs : List A)
    → filter (λ x. not (p x)) xs ≡ []
    → All (λ x. p x ≡ true) xs
none_left p [] h = tt
none_left p (x ∷ xs) h = elim (Bool-cases (p x)) [
  | inl e ↦ (e, none_left p xs (rw e at h))
  | inr e ↦ absurd (cc (rw e at h))
]

listed :
    (kind name : Text) (names : List Text) (catalog : List Algorithm)
    → Mem name (
        map (λ a. a.name) (filter (λ a. text_eq a.kind kind && contains_text names a.name) catalog))
    → IsKnown catalog kind name
listed kind name names [] h = h
listed kind name names (a ∷ catalog) h =
    elim (Bool-cases (text_eq a.kind kind && contains_text names a.name)) [
      | inl e ↦ here (listed kind name names catalog) e (rw e at h)
      | inr e ↦ inr (listed kind name names catalog (rw e at h))
    ]
  where
    here :
        (Mem name (
            map
              (λ b. b.name)
              (filter (λ b. text_eq b.kind kind && contains_text names b.name) catalog))
          → IsKnown catalog kind name)
        → (text_eq a.kind kind && contains_text names a.name) ≡ true
        → Mem name (
            a.name
            ∷ map
                (λ b. b.name)
                (filter (λ b. text_eq b.kind kind && contains_text names b.name) catalog))
        → IsKnown (a ∷ catalog) kind name
    here later e (inl same) = inl ((text_eq_iff a.kind kind).0 (ground (arith, e)), same)
    here later e (inr m) = inr (later m)

-- Where no name is unknown, the catalog has an algorithm of the kind for each.
pub unknown_names-IsKnown :
    (catalog : List Algorithm) (kind : Text) (names : List Text)
    → unknown_names catalog kind names ≡ []
    → All (IsKnown catalog kind) names
unfolding unknown_names
unknown_names-IsKnown catalog kind names h = known names (none_left _ names h)
  where
    known :
        (list : List Text)
        → All
            (λ n.
              contains_text
                (map
                  (λ a. a.name)
                  (filter (λ a. text_eq a.kind kind && contains_text names a.name) catalog))
                n
              ≡ true)
            list
        → All (IsKnown catalog kind) list
    known [] k = tt
    known (n ∷ list) k =
        (listed kind n names catalog ((contains_text_iff _ n).0 k.0), known list k.1)
