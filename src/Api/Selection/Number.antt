-- ===== src/Api/Selection/Number.antt =====
-- How many texts a selection has (services/api/src/routes/tests.rs).
use pqc_sec_inspection_cours.Prelude.{
  ◌≡◌, refl, sym, ap, ◌∙◌, subst, ◌≢◌, ◌↔◌, ◌≤◌, inl, inr, List, [], ◌∷◌, ◌++◌, length, suc, Text,
  trim, Some, arith,
}
use pqc_sec_inspection_cours.Api.Selection.{Mem, Once}

-- The texts that the values have when trimmed, each once, without the empty one.
abbrev pub IsSelection : (values selected : List Text) → Type 0
IsSelection values selected =
    Once selected × ((x : Text) → Mem x selected ↔ ((x ≢ []) × Some (λ v. trim v ≡ x) values))

-- A list around one of its members.
record Around (x : Text) (ys : List Text) : Type 0 where
  before : List Text
  after : List Text
  same : ys ≡ before ++ x ∷ after

around : (x : Text) (ys : List Text) → Mem x ys → Around x ys
around x [] h = absurd h
around x (y ∷ ys) (inl e) = record { before = []; after = ys; same = ap (λ z. z ∷ ys) e }
around x (y ∷ ys) (inr h) =
    let a = around x ys h in
    record { before = y ∷ a.before; after = a.after; same = ap (λ zs. y ∷ zs) a.same }

length-around :
    (before : List Text) (x : Text) (after : List Text)
    → length (before ++ x ∷ after) ≡ suc (length (before ++ after))
length-around [] x after = refl
length-around (y ∷ before) x after = ap suc (length-around before x after)

-- Another member is on one of the two sides.
elsewhere :
    (before : List Text) (x : Text) (after : List Text) (z : Text)
    → z ≢ x
    → Mem z (before ++ x ∷ after)
    → Mem z (before ++ after)
elsewhere [] x after z other (inl e) = absurd (other (sym e))
elsewhere [] x after z other (inr h) = h
elsewhere (y ∷ before) x after z other (inl e) = inl e
elsewhere (y ∷ before) x after z other (inr h) = inr (elsewhere before x after z other h)

-- A list without repetition is no longer than one that has all its members.
Once-length :
    (xs ys : List Text) → Once xs → ((x : Text) → Mem x xs → Mem x ys) → length xs ≤ length ys
Once-length [] ys once sub = omega arith
Once-length (x ∷ xs) ys once sub =
    let a = around x ys (sub x (inl refl)) in
    let rest = Once-length xs (a.before ++ a.after) once.1 λ z m.
      elsewhere a.before x a.after z (λ e. once.0 (subst (λ t. Mem t xs) e m))
        (subst (Mem z) a.same (sub z (inr m))) in
    let more = ap length a.same ∙ length-around a.before x a.after in omega arith

-- All selections of the same values have as many texts.
pub IsSelection-length :
    (values xs ys : List Text)
    → IsSelection values xs
    → IsSelection values ys
    → length xs ≡ length ys
IsSelection-length values xs ys (once, mem) (once_too, mem_too) =
    let le = Once-length xs ys once (λ x m. (mem_too x).1 ((mem x).0 m)) in
    let ge = Once-length ys xs once_too (λ x m. (mem x).1 ((mem_too x).0 m)) in omega arith
