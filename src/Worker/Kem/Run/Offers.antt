-- ===== src/Worker/Kem/Run/Offers.antt =====
-- What is left of an offer when a group has been taken from it (services/worker/src/kem.rs).
use pqc_sec_inspection_cours.Prelude.{
  ◌≤◌, ◌<◌, ◌≡◌, refl, sym, ◌∙◌, ap, ◌≢◌, inl, inr, Bool, true, false, not, some, List, [], ◌∷◌,
  Text, to_ascii_lowercase, eq_ignore_ascii_case, eq_ignore_ascii_case_iff, any, filter, head?,
  length, length-filter, All, Some, arith, Bool-cases, ◌==◌,
}
use pqc_sec_inspection_cours.Worker.Kem.Run.{others}

-- Is the group offered, letter case aside.
unfoldable pub is_offered : List Text → Text → Bool
is_offered offer group = any (λ g. eq_ignore_ascii_case g group) offer

-- The groups of a preference order that are offered.
abbrev pub offered : List Text → List Text → List Text
offered prefs offer = filter (λ p. is_offered offer p) prefs

-- No two groups of the order are the same, letter case aside.
abbrev pub Distinct : List Text → Type 0
Distinct [] = Unit
Distinct (p ∷ prefs) = All (λ q. to_ascii_lowercase q ≢ to_ascii_lowercase p) prefs × Distinct prefs

length-others : (group : Text) (offer : List Text) → length (others group offer) ≤ length offer
unfolding others
length-others group offer = length-filter (λ g. not (eq_ignore_ascii_case g group)) offer

-- A round that goes on has less to offer.
pub length-others-lt :
    (group : Text) (offer : List Text)
    → (length (others group offer) == length offer) ≡ false
    → length (others group offer) < length offer
length-others-lt group offer h = ground (arith, length-others group offer)

-- A group that was offered is taken.
pub others_shorter :
    (group : Text) (offer : List Text)
    → is_offered offer group ≡ true
    → (length (others group offer) == length offer) ≡ false
unfolding is_offered others
others_shorter group [] h = cc
others_shorter group (g ∷ offer) h = ground (
  arith,
  others_shorter group offer,
  length-filter (λ x. not (eq_ignore_ascii_case x group)) offer,
)

same_trans :
    (x p q : Text)
    → eq_ignore_ascii_case x p ≡ true
    → to_ascii_lowercase q ≢ to_ascii_lowercase p
    → eq_ignore_ascii_case x q ≡ false
same_trans x p q e n = elim (Bool-cases (eq_ignore_ascii_case x q)) [
  | inl s ↦
      absurd (n (sym ((eq_ignore_ascii_case_iff x q).0 s) ∙ (eq_ignore_ascii_case_iff x p).0 e))
  | inr s ↦ s
]

-- The group itself is no longer offered.
is_offered-others_self :
    (group : Text) (offer : List Text) → is_offered (others group offer) group ≡ false
unfolding is_offered others
is_offered-others_self group [] = refl
is_offered-others_self group (g ∷ offer) = ground (arith, is_offered-others_self group offer)

-- Other groups are offered as before.
is_offered-others :
    (group p : Text) (offer : List Text)
    → to_ascii_lowercase p ≢ to_ascii_lowercase group
    → is_offered (others group offer) p ≡ is_offered offer p
unfolding is_offered others
is_offered-others group p [] n = refl
is_offered-others group p (g ∷ offer) n = elim (Bool-cases (eq_ignore_ascii_case g group)) [
  | inl e ↦ ground (arith, is_offered-others group p offer n, same_trans g group p e n)
  | inr e ↦ ground (arith, is_offered-others group p offer n)
]

offered-cons_yes :
    (p : Text) (prefs offer : List Text)
    → is_offered offer p ≡ true
    → offered (p ∷ prefs) offer ≡ p ∷ offered prefs offer
offered-cons_yes p prefs offer e = rw e refl

offered-cons_no :
    (p : Text) (prefs offer : List Text)
    → is_offered offer p ≡ false
    → offered (p ∷ prefs) offer ≡ offered prefs offer
offered-cons_no p prefs offer e = rw e refl

-- Groups other than the one taken are offered as before.
offered-others_rest :
    (group : Text) (prefs offer : List Text)
    → All (λ q. to_ascii_lowercase q ≢ to_ascii_lowercase group) prefs
    → offered prefs (others group offer) ≡ offered prefs offer
offered-others_rest group [] offer h = refl
offered-others_rest group (p ∷ prefs) offer h =
    rw (is_offered-others group p offer h.0, offered-others_rest group prefs offer h.1) refl

head-offered_mem :
    (group : Text) (prefs offer : List Text)
    → head? (offered prefs offer) ≡ some group
    → Some (λ p. p ≡ group) prefs
head-offered_mem group [] offer h = cc
head-offered_mem group (p ∷ prefs) offer h = elim (Bool-cases (is_offered offer p)) [
  | inl e ↦ inl (ground (arith, offered-cons_yes p prefs offer e))
  | inr e ↦
      inr
        (head-offered_mem group prefs offer (ap head? (sym (offered-cons_no p prefs offer e)) ∙ h))
]

Some-All :
    (group p : Text) (prefs : List Text)
    → Some (λ q. q ≡ group) prefs
    → All (λ q. to_ascii_lowercase q ≢ to_ascii_lowercase p) prefs
    → to_ascii_lowercase p ≢ to_ascii_lowercase group
Some-All group p [] s a = absurd s
Some-All group p (q ∷ prefs) (inl e) a = λ f. a.0 (ap to_ascii_lowercase e ∙ sym f)
Some-All group p (q ∷ prefs) (inr s) a = Some-All group p prefs s a.1

-- The first group of the order that is offered is offered.
pub is_offered-head :
    (group : Text) (prefs offer : List Text)
    → head? (offered prefs offer) ≡ some group
    → is_offered offer group ≡ true
is_offered-head group [] offer h = cc
is_offered-head group (p ∷ prefs) offer h = elim (Bool-cases (is_offered offer p)) [
  | inl e ↦ let same : p ≡ group = ground (arith, offered-cons_yes p prefs offer e) in rw (← same) e
  | inr e ↦ is_offered-head group prefs offer (ap head? (sym (offered-cons_no p prefs offer e)) ∙ h)
]

-- Once it is taken, the rest of the order is what remains offered.
pub offered-others :
    (group : Text) (prefs offer : List Text)
    → Distinct prefs
    → head? (offered prefs offer) ≡ some group
    → offered prefs offer ≡ group ∷ offered prefs (others group offer)
offered-others group [] offer d h = cc
offered-others group (p ∷ prefs) offer d h = elim (Bool-cases (is_offered offer p)) [
  | inl e ↦
      let same : p ≡ group = ground (arith, offered-cons_yes p prefs offer e) in
      let gone : is_offered (others group offer) p ≡ false =
        rw same (is_offered-others_self group offer) in
      let rest : offered prefs (others p offer) ≡ offered prefs offer =
        offered-others_rest p prefs offer d.0 in
      rw
        (
          offered-cons_yes p prefs offer e,
          offered-cons_no p prefs (others group offer) gone,
          ← same,
          rest,
        )
        refl
  | inr e ↦
      let first = ap head? (sym (offered-cons_no p prefs offer e)) ∙ h in
      let other = Some-All group p prefs (head-offered_mem group prefs offer first) d.0 in
      let gone : is_offered (others group offer) p ≡ false =
        is_offered-others group p offer other ∙ e in
      rw (offered-cons_no p prefs offer e, offered-cons_no p prefs (others group offer) gone)
        (offered-others group prefs offer d.1 first)
]
