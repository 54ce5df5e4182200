-- ===== src/Adapter/Output/Bounds.antt =====
-- The sizes of what is read off a client's output.
use pqc_sec_inspection_cours.Prelude.{
  Each, filter_map-All, ℕ, zero, suc, ◌+◌, ◌-◌, ◌*◌, ◌≤◌, ◌≡◌, arith, Bool, true, false, refl,
  Option, none, some, List, [], ◌∷◌, map, find, take, length, All, Text, codes, trim, lines, words,
  contains, join, find_from, is_empty, digits_from, parse_unsigned, ◌==◌, Bool-cases, inl, inr,
  Option-cases, digits_of, if◌then◌else◌,
}
use pqc_sec_inspection_cours.Json.{and_then}
use pqc_sec_inspection_cours.Adapter.Output.{
  u16_max, u64_max, second, status_of, excerpt, http_of, parse_http, read_headers, counts_of,
  byte_counts, explains, first_error_line,
}
use pqc_sec_inspection_cours.Adapter.Response.Report.{AtMost, AnswerBounded}

Each-and_then {ℓ κ} :
    {A : Type ℓ} {B : Type κ} (P : B → Type 0) (o : Option A) (f : A → Option B)
    → ((a : A) → Each P (f a))
    → Each P (and_then o f)
Each-and_then P none f h = tt
Each-and_then P (some a) f h = h a

Each-and_then_of {ℓ κ} :
    {A : Type ℓ} {B : Type κ} (Q : A → Type 0) (P : B → Type 0) (o : Option A) (f : A → Option B)
    → Each Q o
    → ((a : A) → Q a → Each P (f a))
    → Each P (and_then o f)
Each-and_then_of Q P none f e h = tt
Each-and_then_of Q P (some a) f e h = h a e

Each-if :
    {A : Type 0} (P : A → Type 0) (b : Bool) (o : Option A)
    → (b ≡ true → Each P o)
    → Each P (if b then o else none)
Each-if P true o h = h refl
Each-if P false o h = tt

length-take : {A : Type 0} (n : ℕ) (xs : List A) → length (take n xs) ≤ n
length-take zero xs = omega arith
length-take (suc n) [] = omega arith
length-take (suc n) (x ∷ xs) = omega (arith, length-take n xs)

digits_from-bounded : (max n : ℕ) (s : Text) → n ≤ max → Each (λ m. m ≤ max) (digits_from max n s)
unfolding digits_from
digits_from-bounded max n [] h = h
digits_from-bounded max n (c ∷ s) h =
    Each-if (λ m. m ≤ max) _ (digits_from max (n * 10 + (c - 48)) s)
      (λ e. digits_from-bounded max (n * 10 + (c - 48)) s (ground arith))

digits_of-bounded : (max : ℕ) (s : Text) → Each (λ m. m ≤ max) (digits_of max s)
digits_of-bounded max [] = tt
digits_of-bounded max (c ∷ s) = digits_from-bounded max 0 (c ∷ s) (omega arith)

parse_unsigned-bounded : (max : ℕ) (s : Text) → Each (λ m. m ≤ max) (parse_unsigned max s)
unfolding parse_unsigned
parse_unsigned-bounded max [] = tt
parse_unsigned-bounded max (c ∷ s) = elim (Bool-cases (c == 43)) [
  | inl e ↦ rw e (digits_of-bounded max s)
  | inr e ↦ rw e (digits_of-bounded max (c ∷ s))
]

status_of-bounded : (line : Text) → Each (λ m. m ≤ u16_max) (status_of line)
unfolding status_of
status_of-bounded line =
    Each-and_then (λ m. m ≤ u16_max) (second (words line)) (parse_unsigned u16_max)
      (parse_unsigned-bounded u16_max)

excerpt-bounded : (body : Text) → AtMost 512 (excerpt body)
unfolding excerpt
excerpt-bounded body = elim (Bool-cases (is_empty (trim body))) [
  | inl e ↦ rw e (tt)
  | inr e ↦ rw e (length-take 512 body)
]

http_of-bounded : (ls : List Text) → Each AnswerBounded (http_of ls)
unfolding http_of
http_of-bounded [] = tt
http_of-bounded (line ∷ more) =
    Each-and_then_of (λ m. m ≤ u16_max) AnswerBounded (status_of line) _ (status_of-bounded line)
      (λ n h. (h, excerpt-bounded (join (codes "\n") (read_headers more).1)))

pub parse_http-bounded : (text : Text) → Each AnswerBounded (parse_http text)
unfolding parse_http
parse_http-bounded text =
    Each-and_then AnswerBounded (find_from text (codes "HTTP/1.")) (λ block. http_of (lines block))
      (λ block. http_of-bounded (lines block))

counts_of-bounded :
    (max : ℕ) (ns : List ℕ)
    → All (λ n. n ≤ max) ns
    → ((counts_of ns).0 ≤ max) × ((counts_of ns).1 ≤ max)
counts_of-bounded max [] h = (omega arith, omega arith)
counts_of-bounded max (a ∷ []) h = (omega arith, omega arith)
counts_of-bounded max (a ∷ b ∷ ns) (h, (k, _)) = (k, h)

pub byte_counts-bounded :
    (text : Text) → ((byte_counts text).0 ≤ u64_max) × ((byte_counts text).1 ≤ u64_max)
unfolding byte_counts
byte_counts-bounded text =
    elim (Option-cases (find (λ l. contains l (codes "SSL handshake has read")) (lines text))) [
      | inl e ↦ rw (e, byte_counts) ((omega arith, omega arith))
      | inr (line, e) ↦
          rw (e, byte_counts)
            (counts_of-bounded u64_max _ (
              filter_map-All (λ n. n ≤ u64_max) (parse_unsigned u64_max)
                (parse_unsigned-bounded u64_max) (words line)))
    ]

pub first_error_line-bounded : (text : Text) → AtMost 300 (first_error_line text)
unfolding first_error_line
first_error_line-bounded text =
    Each-and_then (λ t. length t ≤ 300) (find explains (map trim (lines text)))
      (λ line. some (take 300 line)) (λ line. length-take 300 line)
