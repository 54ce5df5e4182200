-- ===== src/Api/Creation.antt =====
-- What `create_test` accepts (services/api/src/routes/tests.rs).
use pqc_sec_inspection_cours.Prelude.{
  iff_trans, ℕ, ◌*◌, ◌≤◌, ◌≡◌, ◌≢◌, refl, ap, subst, ◌↔◌, Bool, true, false, not, ◌&&◌, ◌||◌, List,
  [], ◌∷◌, ◌++◌, length, is_empty, Text, codes, trim, starts_with, show_nat, text_eq, contains_text,
  leb, ltb, arith, ℤ, pos, negsuc, Result, ok, ◌>>◌, reject_if,
}
use pqc_sec_inspection_cours.Api.Errors.{ApiError, bad_request}
use pqc_sec_inspection_cours.Api.Selection.{dedupe, dedupe_mem}
use pqc_sec_inspection_cours.Api.Selection.Number.{IsSelection, IsSelection-length}
use pqc_sec_inspection_cours.Api.Grid.{expand}

pub record NewTest : Type 0 where
  pub host : Text
  pub port : ℤ  -- i32
  pub http_path : Text
  pub tool : Text
  pub plugin : Text
  pub groups : List Text
  pub sig_algs : List Text

-- `(1..=65535).contains(&port)`
abbrev pub is_port : ℤ → Bool
is_port (pos p) = leb 1 p && leb p 65_535
is_port (negsuc _) = false

unfoldable pub subtask_count : NewTest → ℕ
subtask_count body = length (dedupe body.groups) * length (dedupe body.sig_algs)

-- The checks before the catalog is asked; `max` is `max_subtasks_per_test`.
unfoldable pub check_new_test : ℕ → NewTest → Result (Unit {0}) ApiError
check_new_test max body = do
  reject_if (is_empty (trim body.host)) (bad_request (codes "host is required"))
  reject_if (not (is_port body.port)) (bad_request (codes "port must be 1-65535"))
  reject_if (is_empty body.groups || is_empty body.sig_algs)
      (bad_request (codes "select at least one group and one signature algorithm"))
  reject_if (not (starts_with body.http_path (codes "/")))
      (bad_request (codes "http path must start with /"))
  reject_if (ltb max (subtask_count body)) (
      bad_request (
        show_nat (subtask_count body)
        ++ (codes " subtasks exceeds the limit of "
            ++ (show_nat max ++ codes "; narrow the selection"))))

-- A port is from 1 to 65535.
abbrev pub IsPort : ℤ → Type 0
IsPort port = (p : ℕ) × (port ≡ pos p) × (1 ≤ p) × (p ≤ 65_535)

pub is_port-bounds : (port : ℤ) → not (is_port port) ≡ false → IsPort port
is_port-bounds (pos p) h = (p, refl, ground (arith, h), ground (arith, h))
is_port-bounds (negsuc p) h = cc

pub bounds-is_port : (port : ℤ) → IsPort port → not (is_port port) ≡ false
bounds-is_port (pos p) (q, e, least, most) = bounds p q (pos_inj p q e) least most
  where
    pos_inj : (p q : ℕ) → pos p ≡ pos q → p ≡ q
    pos_inj p q e = cc e

    bounds : (p q : ℕ) → p ≡ q → 1 ≤ q → q ≤ 65_535 → not (leb 1 p && leb p 65_535) ≡ false
    bounds p q e least most = ground arith
bounds-is_port (negsuc p) (q, e, _, _) = cc e

-- What an accepted request is like. `groups` and `algs` are any selections of what it names: which
-- texts these are, and so their numbers, is settled by the request.
pub record IsAcceptable (max : ℕ) (body : NewTest) : Type 0 where
  pub named : trim body.host ≢ []
  pub port : IsPort body.port
  pub some_group : body.groups ≢ []
  pub some_alg : body.sig_algs ≢ []
  pub rooted : (rest : Text) × (body.http_path ≡ codes "/" ++ rest)
  pub groups : List Text
  pub algs : List Text
  pub groups_selected : IsSelection body.groups groups
  pub algs_selected : IsSelection body.sig_algs algs
  pub few : length groups * length algs ≤ max

-- The count of the checks is that of any selections.
pub subtask_count-IsAcceptable :
    (max : ℕ) (body : NewTest) → IsAcceptable max body → subtask_count body ≤ max
unfolding subtask_count
subtask_count-IsAcceptable max body k =
    let g = IsSelection-length _ _ _ (dedupe_mem body.groups) k.groups_selected in
    let a = IsSelection-length _ _ _ (dedupe_mem body.sig_algs) k.algs_selected in rw (g, a) k.few

slash_iff :
    (path : Text)
    → (starts_with path (codes "/") ≡ true) ↔ (rest : Text) × (path ≡ codes "/" ++ rest)
unfolding starts_with codes
slash_iff [] = (λ e. cc e, λ (rest, e). cc e)
slash_iff (c ∷ path) = (
  λ e. (path, ap (λ d. d ∷ path) (ground (arith, e))),
  λ (rest, e). ground (arith, head_of c path rest e),
)
  where
    head_of : (c : ℕ) (path rest : Text) → c ∷ path ≡ b'/' ∷ rest → c ≡ b'/'
    head_of c path rest e = cc e

reject_if_iff :
    {E : Type 0} (b : Bool) (e : E) (r : Result (Unit {0}) E)
    → ((reject_if b e >> r) ≡ ok tt) ↔ ((b ≡ false) × (r ≡ ok tt))
reject_if_iff true e r = (λ h. cc, λ h. cc)
reject_if_iff false e r = (λ h. (refl, h), λ h. h.1)

both : {A B C : Type 0} → B ↔ C → (A × B) ↔ (A × C)
both e = (λ h. (h.0, e.0 h.1), λ h. (h.0, e.1 h.1))

last_iff : {E : Type 0} (b : Bool) (e : E) → (reject_if b e ≡ ok tt) ↔ (b ≡ false)
last_iff true e = (λ h. cc, λ h. cc)
last_iff false e = (λ _. refl, λ _. refl)

-- The tests of the checks, in their order.
check_iff :
    (max : ℕ) (body : NewTest)
    → (check_new_test max body ≡ ok tt) ↔ (
        (is_empty (trim body.host) ≡ false)
        × ((not (is_port body.port) ≡ false)
            × (((is_empty body.groups || is_empty body.sig_algs) ≡ false)
                × ((not (starts_with body.http_path (codes "/")) ≡ false)
                    × (ltb max (subtask_count body) ≡ false)))))
unfolding check_new_test
check_iff max body = iff_trans (reject_if_iff (is_empty (trim body.host)) _ _) (
    both (
      iff_trans (reject_if_iff (not (is_port body.port)) _ _) (
        both (
          iff_trans (reject_if_iff (is_empty body.groups || is_empty body.sig_algs) _ _) (
            both (
              iff_trans (reject_if_iff (not (starts_with body.http_path (codes "/"))) _ _)
                (both (last_iff (ltb max (subtask_count body)) _))))))))

filled : {A : Type 0} (xs : List A) → (is_empty xs ≡ false) ↔ (xs ≢ [])
filled [] = (λ e. cc, λ n. absurd (n refl))
filled (x ∷ xs) = (λ _. λ e. cc, λ _. refl)

few_of :
    (max : ℕ) (body : NewTest)
    → ltb max (subtask_count body) ≡ false
    → length (dedupe body.groups) * length (dedupe body.sig_algs) ≤ max
unfolding subtask_count
few_of max body e = ground (arith, e)

-- The checks pass exactly when the host is not blank, the port is from 1 to 65535, the request
-- names a group and a signature algorithm, blank or not, the path begins with a slash, and the
-- different texts that its groups have when trimmed, times those of its signature algorithms, the
-- empty ones left out, are no more than the limit.
pub check_new_test_iff :
    (max : ℕ) (body : NewTest) → (check_new_test max body ≡ ok tt) ↔ IsAcceptable max body
check_new_test_iff max body =
    let iff = check_iff max body in
    let host = filled (trim body.host) in
    let groups = filled body.groups in
    let algs = filled body.sig_algs in
    (
      λ h.
          let (a, (b, (c, (d, e)))) = iff.0 h in
          record {
            named = host.0 a;
            port = is_port-bounds body.port b;
            some_group = groups.0 (ground (arith, c));
            some_alg = algs.0 (ground (arith, c));
            rooted = (slash_iff body.http_path).0 (ground (arith, d));
            groups = dedupe body.groups;
            algs = dedupe body.sig_algs;
            groups_selected = dedupe_mem body.groups;
            algs_selected = dedupe_mem body.sig_algs;
            few = few_of max body e;
          },
      λ k.
          let g = groups.1 k.some_group in
          let a = algs.1 k.some_alg in
          let slash = (slash_iff body.http_path).1 k.rooted in
          let few = subtask_count-IsAcceptable max body k in
          iff.1 (
            host.1 k.named,
            (
              bounds-is_port body.port k.port,
              (ground (arith, g, a), (ground (arith, slash), ground (arith, few))),
            ),
          ),
    )

-- A single blank is no group when cleaned.
blank_group : dedupe (codes " " ∷ []) ≡ []
unfolding dedupe codes trim text_eq contains_text
blank_group = refl

-- A request that passes the checks passes them with a single blank for its groups, too, and then
-- the test has no subtasks at all.
pub check_new_test-blank :
    (max : ℕ) (body : NewTest)
    → check_new_test max body ≡ ok tt
    → let blank = record body { groups = codes " " ∷ [] } in
      (check_new_test max blank ≡ ok tt)
      × (expand (dedupe blank.groups) (dedupe blank.sig_algs) ≡ [])
check_new_test-blank max body h =
    let k = (check_new_test_iff max body).0 h in
    let blank = record body { groups = codes " " ∷ [] } in
    (
      (check_new_test_iff max blank).1 (record {
        named = k.named;
        port = k.port;
        some_group = λ e. cc;
        some_alg = k.some_alg;
        rooted = k.rooted;
        groups = [];
        algs = k.algs;
        groups_selected =
            subst (IsSelection (codes " " ∷ [])) blank_group (dedupe_mem (codes " " ∷ []));
        algs_selected = k.algs_selected;
        few = omega arith;
      }),
      rw blank_group (unfold expand in refl),
    )
