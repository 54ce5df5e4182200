-- ===== src/Api/Grid/Ordinals.antt =====
-- The ordinals of a row-major expansion (services/api/src/routes/tests.rs).
use pqc_sec_inspection_cours.Prelude.{
  ℕ, zero, suc, ◌+◌, ◌*◌, ◌≡◌, refl, ap, ◌∙◌, List, [], ◌∷◌, ◌++◌, map, length, Text, as_i32, arith,
  map-append,
}
use pqc_sec_inspection_cours.Api.Grid.{along, expand_from, expand}

-- `n, n + 1, …`, `k` of them
abbrev pub count_up : ℕ → ℕ → List ℕ
count_up n zero = []
count_up n (suc k) = n ∷ count_up (suc n) k

count_up-append : (n k l : ℕ) → count_up n (k + l) ≡ count_up n k ++ count_up (n + k) l
count_up-append n zero l = ground arith
count_up-append n (suc k) l =
    let left : suc k + l ≡ suc (k + l) = omega arith in
    let start : n + suc k ≡ suc n + k = omega arith in
    rw (left, start) (ap (λ ns. n ∷ ns) (count_up-append (suc n) k l))

add_suc : (a b : ℕ) → a + suc b ≡ suc (a + b)
add_suc a b = omega arith

add_zero : (a : ℕ) → a + 0 ≡ a
add_zero a = omega arith

add_comm : (a b : ℕ) → a + b ≡ b + a
add_comm a b = omega arith

zero_mul : (a : ℕ) → 0 * a ≡ 0
zero_mul a = omega arith

suc_mul : (a b : ℕ) → suc a * b ≡ b + a * b
suc_mul a b = grind arith

ordinals-along :
    (width g s : ℕ) (group : Text) (algs : List Text)
    → map (λ r. r.ordinal) (along width g s group algs)
      ≡ map as_i32 (count_up (g * width + s) (length algs))
unfolding along
ordinals-along width g s group [] = refl
ordinals-along width g s group (alg ∷ algs) =
    ap (λ os. as_i32 (g * width + s) ∷ os)
      (ordinals-along width g (suc s) group algs
        ∙ ap (λ n. map as_i32 (count_up n (length algs))) (add_suc (g * width) s))

ordinals-expand_from :
    (g : ℕ) (groups algs : List Text)
    → map (λ r. r.ordinal) (expand_from (length algs) g groups algs)
      ≡ map as_i32 (count_up (g * length algs) (length groups * length algs))
unfolding expand_from
ordinals-expand_from g [] algs = rw (zero_mul (length algs)) refl
ordinals-expand_from g (group ∷ groups) algs =
    let w = length algs in
    map-append (λ r. r.ordinal) (along w g 0 group algs) (expand_from w (suc g) groups algs)
    ∙ rw
        (
          ordinals-along w g 0 group algs,
          ordinals-expand_from (suc g) groups algs,
          suc_mul (length groups) w,
          suc_mul g w,
          add_zero (g * w),
          add_comm w (g * w),
          count_up-append (g * w) w (length groups * w),
          map-append as_i32 (count_up (g * w) w) (count_up (g * w + w) (length groups * w)),
        )
        refl

-- The ordinals of the inserted subtasks count up from zero, row by row.
pub ordinals-expand :
    (groups algs : List Text)
    → map (λ r. r.ordinal) (expand groups algs)
      ≡ map as_i32 (count_up 0 (length groups * length algs))
unfolding expand
ordinals-expand groups algs = ordinals-expand_from 0 groups algs ∙ rw (zero_mul (length algs)) refl
