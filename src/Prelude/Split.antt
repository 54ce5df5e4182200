-- ===== src/Prelude/Split.antt =====
-- Rust's functions that take a `str` apart: `split`, `lines`, `split_whitespace`, `split_once`,
-- `strip_prefix`, `find`, and the parsing of unsigned integers.
use Prim.Native.Nat.{ℕ, ◌+◌, ◌-◌, ◌*◌}
use mathlib.Core.Bool.{Bool, not, ◌&&◌}
use mathlib.Core.List.{List, [], ◌∷◌}
use mathlib.Core.Option.{Option, none, some}
use pqc_sec_inspection_cours.Prelude.Tests.{leb, ◌==◌, if◌then◌else◌}
use pqc_sec_inspection_cours.Prelude.Lists.{is_empty, filter}
use pqc_sec_inspection_cours.Prelude.Str.{Text, is_whitespace, starts_with}

abbrev pub on_first : ℕ → List Text → List Text
on_first c [] = (c ∷ []) ∷ []
on_first c (t ∷ ts) = (c ∷ t) ∷ ts

-- `s.split(p)` for a test on characters: there is always a first piece.
unfoldable pub split_by : (ℕ → Bool) → Text → List Text
split_by p [] = [] ∷ []
split_by p (c ∷ s) = let rest = split_by p s in if p c then [] ∷ rest else on_first c rest

-- `s.split(c)` for a character
abbrev pub split_on : ℕ → Text → List Text
split_on sep s = split_by (λ c. c == sep) s

-- `s.split_whitespace()`
unfoldable pub words : Text → List Text
unfolding split_by
words s = filter (λ w. not (is_empty w)) (split_by is_whitespace s)

-- A carriage return at the end.
unfoldable pub strip_cr : Text → Text
strip_cr [] = []
strip_cr (c ∷ []) = if c == b'\r' then [] else c ∷ []
strip_cr (c ∷ d ∷ s) = c ∷ strip_cr (d ∷ s)

-- Every piece but the last was ended by a line feed; the last is a line if it is not empty.
unfoldable pub end_lines : List Text → List Text
unfolding strip_cr
end_lines [] = []
end_lines (p ∷ []) = if is_empty p then [] else p ∷ []
end_lines (p ∷ q ∷ ps) = strip_cr p ∷ end_lines (q ∷ ps)

-- `s.lines()`
unfoldable pub lines : Text → List Text
unfolding split_by end_lines
lines s = end_lines (split_on b'\n' s)

-- `s.strip_prefix(p)`
unfoldable pub strip_prefix : Text → Text → Option Text
strip_prefix s [] = some s
strip_prefix [] (_ ∷ _) = none
strip_prefix (a ∷ s) (b ∷ p) = if a == b then strip_prefix s p else none

abbrev pub with_first : ℕ → Option (Text × Text) → Option (Text × Text)
with_first c none = none
with_first c (some (before, after)) = some (c ∷ before, after)

abbrev pub first_or : Option Text → Option (Text × Text) → Option (Text × Text)
first_or none other = other
first_or (some after) other = some ([], after)

-- `s.split_once(p)`: what stands before and after the first `p`.
unfoldable pub split_once : Text → Text → Option (Text × Text)
unfolding strip_prefix
split_once [] p = first_or (strip_prefix [] p) none
split_once (c ∷ s) p = first_or (strip_prefix (c ∷ s) p) (with_first c (split_once s p))

-- `&s[s.find(p)?..]`
unfoldable pub find_from : Text → Text → Option Text
unfolding starts_with
find_from [] p = if is_empty p then some [] else none
find_from (c ∷ s) p =
    let rest = find_from s p in if starts_with (c ∷ s) p then some (c ∷ s) else rest

unfoldable pub digits_from : (max n : ℕ) → Text → Option ℕ
digits_from max n [] = some n
digits_from max n (c ∷ s) =
    let rest = digits_from max (n * 10 + (c - b'0')) s in
    if leb b'0' c && leb c b'9' && leb (n * 10 + (c - b'0')) max then rest else none

abbrev pub digits_of : ℕ → Text → Option ℕ
digits_of max [] = none
digits_of max (c ∷ s) = digits_from max 0 (c ∷ s)

-- `s.parse()` at an unsigned type with this greatest value: a sign `+` is allowed.
unfoldable pub parse_unsigned : ℕ → Text → Option ℕ
unfolding digits_from
parse_unsigned max [] = none
parse_unsigned max (c ∷ s) = if c == b'+' then digits_of max s else digits_of max (c ∷ s)
