-- ===== src/Api/Grid/Collected.antt =====
-- The axes of a matrix are collected without repetition (services/api/src/routes/tests.rs).
use pqc_sec_inspection_cours.Prelude.{
  ◌≡◌, refl, sym, ◌∙◌, ◌⊎◌, inl, inr, Bool-cases, List, [], ◌∷◌, ◌++◌, append_assoc, append-nil,
  map, Text, contains_text,
}
use pqc_sec_inspection_cours.Domain.Models.{Subtask}
use pqc_sec_inspection_cours.Api.Selection.{Mem, Once, contains_text_iff}
use pqc_sec_inspection_cours.Api.Grid.{push_new, axes}

pub push_new_seen : (xs : List Text) (x : Text) → Mem x xs → push_new xs x ≡ xs
unfolding push_new
push_new_seen xs x h = rw ((contains_text_iff xs x).1 h) refl

pub push_new_fresh : (xs : List Text) (x : Text) → ¬ Mem x xs → push_new xs x ≡ xs ++ x ∷ []
unfolding push_new
push_new_fresh xs x n = elim (Bool-cases (contains_text xs x)) [
  | inl e ↦ absurd (n ((contains_text_iff xs x).0 e))
  | inr e ↦ rw e refl
]

unfoldable pub collect : List Text → List Text → List Text
collect acc [] = acc
collect acc (x ∷ xs) = collect (push_new acc x) xs

pub axes-collect :
    (groups algs : List Text) (rows : List Subtask)
    → axes groups algs rows
      ≡ (collect groups (map (λ s. s.group_name) rows), collect algs (map (λ s. s.sig_alg) rows))
unfolding axes collect
axes-collect groups algs [] = refl
axes-collect groups algs (row ∷ rows) =
    axes-collect (push_new groups row.group_name) (push_new algs row.sig_alg) rows

pub collect-append : (acc xs ys : List Text) → collect acc (xs ++ ys) ≡ collect (collect acc xs) ys
unfolding collect
collect-append acc [] ys = refl
collect-append acc (x ∷ xs) ys = collect-append (push_new acc x) xs ys

-- What has been collected is not collected again.
pub collect_seen : (acc xs : List Text) → ((x : Text) → Mem x xs → Mem x acc) → collect acc xs ≡ acc
unfolding collect
collect_seen acc [] h = refl
collect_seen acc (x ∷ xs) h =
    rw (push_new_seen acc x (h x (inl refl))) (collect_seen acc xs (λ y m. h y (inr m)))

Mem-append : (x : Text) (xs ys : List Text) → Mem x (xs ++ ys) → Mem x xs ⊎ Mem x ys
Mem-append x [] ys h = inr h
Mem-append x (y ∷ xs) ys (inl e) = inl (inl e)
Mem-append x (y ∷ xs) ys (inr h) = elim (Mem-append x xs ys h) [
  | inl m ↦ inl (inr m)
  | inr m ↦ inr m
]

-- No group of the rest has been collected yet.
abbrev pub Apart : List Text → List Text → Type 0
Apart acc xs = (x : Text) → Mem x acc → Mem x xs → ⊥

pub Apart-next :
    (acc xs : List Text) (x : Text) → Once (x ∷ xs) → Apart acc (x ∷ xs) → Apart (acc ++ x ∷ []) xs
Apart-next acc xs x once apart y h m = elim (Mem-append y acc (x ∷ []) h) [
  | inl k ↦ apart y k (inr m)
  | inr (inl e) ↦ once.0 (rw e m)
  | inr (inr k) ↦ absurd k
]

pub collect-Once : (acc xs : List Text) → Once xs → Apart acc xs → collect acc xs ≡ acc ++ xs
unfolding collect
collect-Once acc [] once apart = sym (append-nil acc)
collect-Once acc (x ∷ xs) once apart = rw (push_new_fresh acc x (λ h. apart x h (inl refl))) (
    collect-Once (acc ++ x ∷ []) xs once.1 (Apart-next acc xs x once apart)
    ∙ append_assoc acc (x ∷ []) xs)
