-- ===== src/Worker/Kem/Order/Laws.antt =====
-- The loop of `evaluate_order` against the rule that it stands for (services/worker/src/kem.rs).
use pqc_sec_inspection_cours.Prelude.{
  ℕ, ◌≡◌, refl, sym, ◌∙◌, ◌↔◌, inl, inr, Bool, true, false, ◌||◌, Option, none, some, List, [], ◌∷◌,
  ◌++◌, append_assoc, append-nil, Text, any, All, ltb, arith, if◌then◌else◌, Option-cases,
}
use pqc_sec_inspection_cours.Worker.Kem.Order.{
  pq_level, is_above, least, evaluate_from, evaluate_order,
}

-- The rule, with no loop variables: `b` is misplaced behind `a` if `b` is post-quantum and `a` is
-- classical or of a lower level.
abbrev outranks_level : ℕ → Option ℕ → Bool
outranks_level level none = true
outranks_level level (some other) = ltb other level

unfoldable pub outranks : Text → Text → Bool
outranks b a = elim (pq_level b) [ none ↦ false | some level ↦ outranks_level level (pq_level a) ]

-- The groups of `order` that outrank one before them; `earlier` are those that came before.
pub misplaced : List Text → List Text → List Text
misplaced earlier [] = []
misplaced earlier (group ∷ order) =
    let rest = misplaced (group ∷ earlier) order in
    if any (outranks group) earlier then group ∷ rest else rest

-- The loop's variables after `earlier`, which has the latest group first.
abbrev seen : List Text → Bool
seen [] = false
seen (g ∷ gs) = elim (pq_level g) [ none ↦ true | some _ ↦ seen gs ]

abbrev best : List Text → Option ℕ
best [] = none
best (g ∷ gs) = elim (pq_level g) [ none ↦ best gs | some level ↦ some (least level (best gs)) ]

any-outranks_level :
    (level : ℕ) (earlier : List Text)
    → any (λ a. outranks_level level (pq_level a)) earlier
      ≡ (seen earlier || is_above level (best earlier))
any-outranks_level level [] = refl
any-outranks_level level (g ∷ gs) = ground (arith, any-outranks_level level gs)

outranks_of :
    (g : Text) (level : ℕ) (a : Text)
    → pq_level g ≡ some level
    → outranks g a ≡ outranks_level level (pq_level a)
unfolding outranks
outranks_of g level a e = rw (e, outranks) refl

outranks_classical : (g a : Text) → pq_level g ≡ none → outranks g a ≡ false
unfolding outranks
outranks_classical g a e = rw (e, outranks) refl

any-outranks :
    (g : Text) (level : ℕ) (earlier : List Text)
    → pq_level g ≡ some level
    → any (outranks g) earlier ≡ (seen earlier || is_above level (best earlier))
any-outranks g level earlier e = same earlier ∙ any-outranks_level level earlier
  where
    same : (xs : List Text) → any (outranks g) xs ≡ any (λ a. outranks_level level (pq_level a)) xs
    same [] = refl
    same (x ∷ xs) = rw (outranks_of g level x e, same xs) refl

any-outranks_classical :
    (g : Text) (earlier : List Text) → pq_level g ≡ none → any (outranks g) earlier ≡ false
any-outranks_classical g [] e = refl
any-outranks_classical g (x ∷ xs) e = rw (outranks_classical g x e) (any-outranks_classical g xs e)

evaluate_from-misplaced :
    (findings earlier order : List Text)
    → evaluate_from findings (seen earlier) (best earlier) order
      ≡ findings ++ misplaced earlier order
unfolding evaluate_from misplaced
evaluate_from-misplaced findings earlier [] = sym (append-nil findings)
evaluate_from-misplaced findings earlier (g ∷ order) = elim (Option-cases (pq_level g)) [
  | inl e ↦ ground (
    arith,
    evaluate_from-misplaced findings (g ∷ earlier) order,
    any-outranks_classical g earlier e,
  )
  | inr (level, e) ↦ ground (
    arith,
    evaluate_from-misplaced findings (g ∷ earlier) order,
    evaluate_from-misplaced (findings ++ g ∷ []) (g ∷ earlier) order,
    any-outranks g level earlier e,
    append_assoc findings (g ∷ []) (misplaced (g ∷ earlier) order),
  )
]

-- The loop reports exactly the groups that the rule reports, in the order in which they come: the
-- post-quantum groups behind a classical one or behind one of a lower level.
pub evaluate_order-misplaced : (order : List Text) → evaluate_order order ≡ misplaced [] order
unfolding evaluate_order
evaluate_order-misplaced order = evaluate_from-misplaced [] [] order

-- No group of the list outranks one before it.
abbrev pub InOrder : List Text → Type 0
InOrder [] = Unit
InOrder (a ∷ order) = All (λ b. outranks b a ≡ false) order × InOrder order

misplaced-nil_iff :
    (earlier order : List Text)
    → (misplaced earlier order ≡ [])
      ↔ (All (λ b. any (outranks b) earlier ≡ false) order × InOrder order)
unfolding misplaced
misplaced-nil_iff earlier [] = (λ _. (tt, tt), λ _. refl)
misplaced-nil_iff earlier (g ∷ order) =
    ground (arith, misplaced-nil_iff (g ∷ earlier) order, split order)
  where
    split :
        (bs : List Text)
        → All (λ b. any (outranks b) (g ∷ earlier) ≡ false) bs
          ↔ (All (λ b. outranks b g ≡ false) bs × All (λ b. any (outranks b) earlier ≡ false) bs)
    split [] = (λ _. (tt, tt), λ _. tt)
    split (b ∷ bs) = ground (arith, split bs)

none_before : (order : List Text) → All (λ b. any (outranks b) [] ≡ false) order
none_before [] = tt
none_before (b ∷ bs) = (refl, none_before bs)

-- The loop reports nothing exactly when no group stands behind one that it outranks.
pub evaluate_order-nil_iff : (order : List Text) → (evaluate_order order ≡ []) ↔ InOrder order
evaluate_order-nil_iff order =
    let iff = misplaced-nil_iff [] order in
    rw (evaluate_order-misplaced order) (λ e. (iff.0 e).1, λ h. iff.1 (none_before order, h))
