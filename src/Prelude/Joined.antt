-- ===== src/Prelude/Joined.antt =====
-- Splitting what was joined.
use Prim.Native.Nat.{ℕ}
use mathlib.Core.Path.{◌≡◌, refl, ap, ◌∙◌}
use mathlib.Core.Bool.{false}
use mathlib.Core.List.{List, [], ◌∷◌, ◌++◌}
use pqc_sec_inspection_cours.Prelude.Tests.{◌==◌, ==_iff}
use pqc_sec_inspection_cours.Prelude.Lists.{All}
use pqc_sec_inspection_cours.Prelude.Str.{Text, join}
use pqc_sec_inspection_cours.Prelude.Split.{split_by, split_on}

-- No character is the separator.
abbrev pub Free : ℕ → Text → Type 0
Free sep s = All (λ c. (c == sep) ≡ false) s

split_on-append :
    (sep : ℕ) (s rest : Text)
    → Free sep s
    → split_on sep (s ++ (sep ∷ rest)) ≡ s ∷ split_on sep rest
unfolding split_by
split_on-append sep [] rest h = rw ((==_iff sep sep).1 refl) refl
split_on-append sep (c ∷ s) rest (h, k) = rw (h, split_on-append sep s rest k) refl

split_on-Free : (sep : ℕ) (s : Text) → Free sep s → split_on sep s ≡ s ∷ []
unfolding split_by
split_on-Free sep [] h = refl
split_on-Free sep (c ∷ s) (h, k) = rw (h, split_on-Free sep s k) refl

pub split_on-join :
    (sep : ℕ) (t : Text) (ts : List Text)
    → All (Free sep) (t ∷ ts)
    → split_on sep (join (sep ∷ []) (t ∷ ts)) ≡ t ∷ ts
unfolding join
split_on-join sep t [] (h, _) = split_on-Free sep t h
split_on-join sep t (u ∷ ts) (h, k) =
    split_on-append sep t (join (sep ∷ []) (u ∷ ts)) h ∙ ap (λ r. t ∷ r) (split_on-join sep u ts k)
