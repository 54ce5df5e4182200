-- ===== src/Worker/Kem/Order.antt =====
-- Judging a server's preference order (services/worker/src/kem.rs).
pub mod Laws
use pqc_sec_inspection_cours.Prelude.{
  ℕ, suc, ◌+◌, ◌≤◌, ◌<◌, ◌≡◌, refl, sym, ap, ◌∙◌, ◌↔◌, ◌⊎◌, inl, inr, Bool, true, false, not, ◌&&◌,
  ◌||◌, Option, none, some, List, [], ◌∷◌, ◌++◌, append_assoc, append-nil, Text, codes, contains,
  contains_text, to_ascii_lowercase, any, All, is_empty, ltb, arith, if◌then◌else◌, Bool-cases,
  Option-cases,
}

-- Groups with no post-quantum protection, in the spellings of the stacks.
abbrev pub classical : List Text
classical =
    codes "x25519"
    ∷ codes "x448"
    ∷ codes "secp256r1"
    ∷ codes "secp384r1"
    ∷ codes "secp521r1"
    ∷ codes "prime256v1"
    ∷ codes "prime384v1"
    ∷ codes "prime521v1"
    ∷ codes "p-256"
    ∷ codes "p-384"
    ∷ codes "p-521"
    ∷ []

unfoldable pub is_classical : Text → Bool
is_classical group = contains_text classical (to_ascii_lowercase group)

-- The coarse security level of a post-quantum group.
unfoldable pub pq_level : Text → Option ℕ
unfolding is_classical
pq_level group =
    let g = to_ascii_lowercase group in
    if is_classical g
    then none
    else if contains g (codes "1024") || contains g (codes "mceliece460896")
    then some 5
    else if contains g (codes "768") || contains g (codes "976")
    then some 3
    else if contains g (codes "512") || contains g (codes "640")
    then some 1
    else some 3

-- `is_some_and(|best| level > best)` and `map_or(level, |best| best.min(level))`
abbrev pub is_above : ℕ → Option ℕ → Bool
is_above level none = false
is_above level (some best) = ltb best level

abbrev pub least : ℕ → Option ℕ → ℕ
least level none = level
least level (some best) = if ltb level best then level else best

-- The loop of `evaluate_order`, with its three variables.
unfoldable pub evaluate_from : List Text → Bool → Option ℕ → List Text → List Text
evaluate_from findings seen_classical best [] = findings
evaluate_from findings seen_classical best (group ∷ order) = elim (pq_level group) [
  | none ↦ evaluate_from findings true best order
  | some level ↦
      evaluate_from
        (if seen_classical || is_above level best then findings ++ group ∷ [] else findings)
        seen_classical (some (least level best)) order
]

unfoldable pub evaluate_order : List Text → List Text
unfolding evaluate_from
evaluate_order order = evaluate_from [] false none order
