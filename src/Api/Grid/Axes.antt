-- ===== src/Api/Grid/Axes.antt =====
-- The axes that are recovered from a row-major expansion (services/api/src/routes/tests.rs).
use pqc_sec_inspection_cours.Prelude.{
  ℕ, subst, suc, ◌≡◌, ◌≢◌, refl, sym, ap, ◌∙◌, inl, inr, List, [], ◌∷◌, ◌++◌, append_assoc,
  append-nil, map, length, Text, map-append,
}
use pqc_sec_inspection_cours.Domain.Models.{Subtask}
use pqc_sec_inspection_cours.Api.Selection.{Mem, Once, dedupe, dedupe_mem}
use pqc_sec_inspection_cours.Api.Grid.{along, expand_from, expand, matrix}
use pqc_sec_inspection_cours.Api.Grid.Collected.{
  push_new_fresh, collect, Apart, Apart-next, axes-collect, collect-append, collect_seen,
  collect-Once,
}

each_group : List Text → List Text → List Text
each_group [] algs = []
each_group (g ∷ groups) algs = map (λ _. g) algs ++ each_group groups algs

each_alg : List Text → List Text → List Text
each_alg [] algs = []
each_alg (g ∷ groups) algs = algs ++ each_alg groups algs

Mem-map_const : (x g : Text) (algs : List Text) → Mem x (map (λ _. g) algs) → g ≡ x
Mem-map_const x g [] h = absurd h
Mem-map_const x g (a ∷ algs) (inl e) = e
Mem-map_const x g (a ∷ algs) (inr h) = Mem-map_const x g algs h

Mem-append_last : (x : Text) (acc : List Text) → Mem x (acc ++ x ∷ [])
Mem-append_last x [] = inl refl
Mem-append_last x (y ∷ acc) = inr (Mem-append_last x acc)

-- A row of the grid adds its group once.
collect_row :
    (acc : List Text) (g a : Text) (algs : List Text)
    → ¬ Mem g acc
    → collect acc (map (λ _. g) (a ∷ algs)) ≡ acc ++ g ∷ []
unfolding collect
collect_row acc g a algs n =
    ap (λ ys. collect ys (map (λ _. g) algs)) (push_new_fresh acc g n)
    ∙ collect_seen (acc ++ g ∷ []) (map (λ _. g) algs)
        λ x m. subst (λ y. Mem y (acc ++ g ∷ [])) (Mem-map_const x g algs m) (Mem-append_last g acc)

collect_rows :
    (acc groups : List Text) (a : Text) (algs : List Text)
    → Once groups
    → Apart acc groups
    → collect acc (each_group groups (a ∷ algs)) ≡ acc ++ groups
unfolding each_group collect
collect_rows acc [] a algs once apart = sym (append-nil acc)
collect_rows acc (g ∷ groups) a algs once apart =
    collect-append acc (map (λ _. g) (a ∷ algs)) (each_group groups (a ∷ algs))
    ∙ rw (collect_row acc g a algs (λ h. apart g h (inl refl))) (
        collect_rows (acc ++ g ∷ []) groups a algs once.1 (Apart-next acc groups g once apart)
        ∙ append_assoc acc (g ∷ []) groups)

-- Every further row has the columns of the first.
collect_columns : (groups algs : List Text) → collect algs (each_alg groups algs) ≡ algs
unfolding each_alg collect
collect_columns [] algs = refl
collect_columns (g ∷ groups) algs =
    collect-append algs algs (each_alg groups algs)
    ∙ rw (collect_seen algs algs (λ x m. m)) (collect_columns groups algs)

collect_algs :
    (g : Text) (groups algs : List Text)
    → Once algs
    → collect [] (each_alg (g ∷ groups) algs) ≡ algs
unfolding each_alg
collect_algs g groups algs once =
    collect-append [] algs (each_alg groups algs)
    ∙ rw (collect-Once [] algs once (λ x h m. h)) (collect_columns groups algs)

groups-along :
    (width g s : ℕ) (group : Text) (algs : List Text)
    → map (λ r. r.group_name) (along width g s group algs) ≡ map (λ _. group) algs
unfolding along
groups-along width g s group [] = refl
groups-along width g s group (alg ∷ algs) =
    ap (λ gs. group ∷ gs) (groups-along width g (suc s) group algs)

algs-along :
    (width g s : ℕ) (group : Text) (algs : List Text)
    → map (λ r. r.sig_alg) (along width g s group algs) ≡ algs
unfolding along
algs-along width g s group [] = refl
algs-along width g s group (alg ∷ algs) =
    ap (λ columns. alg ∷ columns) (algs-along width g (suc s) group algs)

groups-expand_from :
    (width g : ℕ) (groups algs : List Text)
    → map (λ r. r.group_name) (expand_from width g groups algs) ≡ each_group groups algs
unfolding expand_from each_group
groups-expand_from width g [] algs = refl
groups-expand_from width g (group ∷ groups) algs =
    map-append (λ r. r.group_name) (along width g 0 group algs)
      (expand_from width (suc g) groups algs)
    ∙ rw (groups-along width g 0 group algs, groups-expand_from width (suc g) groups algs) refl

algs-expand_from :
    (width g : ℕ) (groups algs : List Text)
    → map (λ r. r.sig_alg) (expand_from width g groups algs) ≡ each_alg groups algs
unfolding expand_from each_alg
algs-expand_from width g [] algs = refl
algs-expand_from width g (group ∷ groups) algs =
    map-append (λ r. r.sig_alg) (along width g 0 group algs) (expand_from width (suc g) groups algs)
    ∙ rw (algs-along width g 0 group algs, algs-expand_from width (suc g) groups algs) refl

collect_both :
    (groups algs : List Text)
    → Once groups
    → Once algs
    → groups ≢ []
    → algs ≢ []
    → (collect [] (each_group groups algs) ≡ groups) × (collect [] (each_alg groups algs) ≡ algs)
collect_both [] algs og oa ng na = absurd (ng refl)
collect_both (g ∷ groups) [] og oa ng na = absurd (na refl)
collect_both (g ∷ groups) (a ∷ algs) og oa ng na =
    (collect_rows [] (g ∷ groups) a algs og (λ x h m. h), collect_algs g groups (a ∷ algs) oa)

-- When the rows of a test come in the order in which its selection was expanded, the matrix has
-- for its axes exactly the cleaned selection, in the order of the selection, provided that it is
-- not empty on either axis.
pub matrix-expand :
    (groups algs : List Text) (rows : List Subtask)
    → dedupe groups ≢ []
    → dedupe algs ≢ []
    → map (λ s. s.group_name) rows ≡ map (λ r. r.group_name) (expand (dedupe groups) (dedupe algs))
    → map (λ s. s.sig_alg) rows ≡ map (λ r. r.sig_alg) (expand (dedupe groups) (dedupe algs))
    → ((matrix rows).groups ≡ dedupe groups) × ((matrix rows).sig_algs ≡ dedupe algs)
unfolding matrix expand
matrix-expand groups algs rows some_group some_alg same_groups same_algs =
    let gs = dedupe groups in
    let columns = dedupe algs in
    let both =
      collect_both gs columns (dedupe_mem groups).0 (dedupe_mem algs).0 some_group some_alg in
    let read = axes-collect [] [] rows in
    let w = length columns in
    (
      ap (λ p. p.0) read
          ∙ ap (collect []) (same_groups ∙ groups-expand_from w 0 gs columns)
          ∙ both.0,
      ap (λ p. p.1) read ∙ ap (collect []) (same_algs ∙ algs-expand_from w 0 gs columns) ∙ both.1,
    )
