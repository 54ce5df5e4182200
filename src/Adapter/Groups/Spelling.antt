-- ===== src/Adapter/Groups/Spelling.antt =====
-- The spellings of the groups.
use pqc_sec_inspection_cours.Prelude.{
  ◌≡◌, refl, ap, ◌∙◌, sym, arith, inl, inr, List, [], ◌∷◌, Text, All, codes, text_eq, text_eq_iff,
  contains_text, to_ascii_lowercase, Bool-cases,
}
use pqc_sec_inspection_cours.Adapter.Groups.{
  Backend, openssl, boringssl, wolfssl, mock, translate, openssl_spellings, wolfssl_spellings,
  spellings, stack_group, is_classical_group, classical_groups,
}

-- An arm's result is translated to itself, and is classical when the arm's pattern is.
Stable : List (Text × Text) → Text × Text → Type 0
Stable arms (from, to) =
    (translate arms (to_ascii_lowercase to) to ≡ to)
    × (contains_text classical_groups (to_ascii_lowercase to) ≡ contains_text classical_groups from)

openssl-Stable : All (Stable openssl_spellings) openssl_spellings
unfolding Stable translate codes text_eq contains_text to_ascii_lowercase
openssl-Stable = ground arith

wolfssl-Stable : All (Stable wolfssl_spellings) wolfssl_spellings
unfolding Stable translate codes text_eq contains_text to_ascii_lowercase
wolfssl-Stable = ground arith

spellings-Stable : (backend : Backend) → All (Stable (spellings backend)) (spellings backend)
spellings-Stable openssl = openssl-Stable
spellings-Stable boringssl = openssl-Stable
spellings-Stable wolfssl = wolfssl-Stable
spellings-Stable mock = tt

-- A text is translated to itself or by an arm whose pattern is the key.
pub translate-elim :
    (Q : Text × Text → Type 0) (P : Text → Type 0) (arms : List (Text × Text)) (key other : Text)
    → All Q arms
    → ((from to : Text) → key ≡ from → Q (from, to) → P to)
    → (translate arms key other ≡ other → P other)
    → P (translate arms key other)
unfolding translate
translate-elim Q P [] key other h m k = k refl
translate-elim Q P ((from, to) ∷ arms) key other (a, h) m k = elim (Bool-cases (text_eq key from)) [
  | inl e ↦ rw (e, translate) (m from to ((text_eq_iff key from).0 e) a)
  | inr e ↦ rw (e, translate) (translate-elim Q P arms key other h m (λ q. k (rw (e, translate) q)))
]

-- The translation of a group to a stack's spelling is idempotent, for each stack, and the group
-- that it gives is classical exactly when the given one is.
pub stack_group-Stable :
    (backend : Backend) (name : Text)
    → (stack_group backend (stack_group backend name) ≡ stack_group backend name)
      × (is_classical_group (stack_group backend name) ≡ is_classical_group name)
unfolding stack_group is_classical_group Stable
stack_group-Stable backend name =
    translate-elim (Stable (spellings backend))
      (λ t. (stack_group backend t ≡ t) × (is_classical_group t ≡ is_classical_group name))
      (spellings backend) (to_ascii_lowercase name) name (spellings-Stable backend)
      (λ from to e arm. by_arm e arm) (λ e. (e, refl))
  where
    by_arm :
        {from to : Text}
        → to_ascii_lowercase name ≡ from
        → Stable (spellings backend) (from, to)
        → (stack_group backend to ≡ to) × (is_classical_group to ≡ is_classical_group name)
    by_arm e arm = (arm.0, arm.1 ∙ sym (ap (contains_text classical_groups) e))
