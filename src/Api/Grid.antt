-- ===== src/Api/Grid.antt =====
-- The grid of a test: a subtask for each group and signature algorithm, and the matrix that is
-- read back (services/api/src/routes/tests.rs).
pub mod Ordinals
pub mod Collected
pub mod Axes
use pqc_sec_inspection_cours.Prelude.{
  ℕ, suc, ◌+◌, ◌*◌, ◌≡◌, refl, List, [], ◌∷◌, ◌++◌, map, length, Text, contains_text, ℤ, as_i32,
  if◌then◌else◌,
}
use pqc_sec_inspection_cours.Domain.Models.{Subtask, MatrixCell, Matrix}

-- The columns of an inserted subtask that the route chooses.
pub record NewRow : Type 0 where
  pub ordinal : ℤ  -- i32
  pub group_name : Text
  pub sig_alg : Text

-- The inner loop, from column `s` of row `g`.
unfoldable pub along : (width g s : ℕ) → Text → List Text → List NewRow
along width g s group [] = []
along width g s group (alg ∷ algs) =
    record { ordinal = as_i32 (g * width + s); group_name = group; sig_alg = alg }
    ∷ along width g (suc s) group algs

unfoldable pub expand_from : (width g : ℕ) → List Text → List Text → List NewRow
unfolding along
expand_from width g [] algs = []
expand_from width g (group ∷ groups) algs =
    along width g 0 group algs ++ expand_from width (suc g) groups algs

unfoldable pub expand : List Text → List Text → List NewRow
unfolding expand_from
expand groups sig_algs = expand_from (length sig_algs) 0 groups sig_algs

-- `if !xs.contains(x) { xs.push(x) }`
unfoldable pub push_new : List Text → Text → List Text
push_new xs x = if contains_text xs x then xs else xs ++ x ∷ []

-- The loop of `get_matrix`, with its two variables.
unfoldable pub axes : List Text → List Text → List Subtask → List Text × List Text
axes groups sig_algs [] = (groups, sig_algs)
axes groups sig_algs (row ∷ rows) =
    axes (push_new groups row.group_name) (push_new sig_algs row.sig_alg) rows

abbrev pub cell_of : Subtask → MatrixCell
cell_of row = record {
  subtask_id = row.id;
  group_name = row.group_name;
  sig_alg = row.sig_alg;
  result_status = row.result_status;
  exec_status = row.exec_status;
}

-- The matrix of the rows that the query gives, in the order in which it gives them.
unfoldable pub matrix : List Subtask → Matrix
unfolding axes
matrix rows =
    let (groups, sig_algs) = axes [] [] rows in
    record { groups = groups; sig_algs = sig_algs; cells = map cell_of rows }
