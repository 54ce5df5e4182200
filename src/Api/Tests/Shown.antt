-- ===== src/Api/Tests/Shown.antt =====
-- The matrix of a test that was created, as it is read back.
use pqc_sec_inspection_cours.Prelude.{
  ◌≡◌, ◌≢◌, refl, ap, ◌∙◌, subst, arith, inl, inr, ℕ, zero, suc, ◌+◌, ◌*◌, ◌≤◌, ◌<◌, ◌^◌, false,
  some, List, [], ◌∷◌, ◌++◌, map, find, filter, length, Bool-cases, All, ◌==◌, ==_iff, pos, int_lt,
  as_i32, Result, ok, err,
}
use pqc_sec_inspection_cours.Domain.Jobs.{Uuid, ProbeJob}
use pqc_sec_inspection_cours.Domain.Models.{Test, Subtask, Matrix}
use pqc_sec_inspection_cours.Worker.World.{works}
use pqc_sec_inspection_cours.Api.Errors.{ApiError}
use pqc_sec_inspection_cours.Api.Database.{Db, Services, tick}
use pqc_sec_inspection_cours.Api.Outcome.{
  Holds, Holds-assoc, Holds-lift_ok, Holds-query, Holds-pure,
}
use pqc_sec_inspection_cours.Api.Selection.{dedupe}
use pqc_sec_inspection_cours.Api.Grid.{NewRow}
use pqc_sec_inspection_cours.Api.Grid.Ordinals.{count_up, ordinals-expand}
use pqc_sec_inspection_cours.Api.Grid.Axes.{matrix-expand}
use pqc_sec_inspection_cours.Api.Creation.{
  NewTest, check_new_test_iff, subtask_count, subtask_count-IsAcceptable,
}
use pqc_sec_inspection_cours.Api.Subtasks.Neighbours.{Numbered}
use pqc_sec_inspection_cours.Api.Tests.{Settings, create_test}
use pqc_sec_inspection_cours.Api.Tests.Atomic.{
  Fills, ReturnsRows, IsAdded, Atomic, create_test-Atomic,
}
use pqc_sec_inspection_cours.Api.Reading.{
  put_by, sort_by, ordinal_before, by_ordinal, subtasks_of, fetch_test, get_matrix,
}

pub Fills-maps :
    (test_id : Uuid) (news : List NewRow) (rows : List Subtask)
    → Fills test_id news rows
    → (map (λ s. s.ordinal) rows ≡ map (λ r. r.ordinal) news)
      × (map (λ s. s.group_name) rows ≡ map (λ r. r.group_name) news)
      × (map (λ s. s.sig_alg) rows ≡ map (λ r. r.sig_alg) news)
      × (filter (λ s. s.test_id == test_id) rows ≡ rows)
Fills-maps test_id [] [] h = (refl, refl, refl, refl)
Fills-maps test_id [] (_ ∷ _) h = absurd h
Fills-maps test_id (_ ∷ _) [] h = absurd h
Fills-maps test_id (new ∷ news) (row ∷ rows) ((t, o, g, s), h) =
    let (os, gs, ss, ts) = Fills-maps test_id news rows h in
    (
      rw (o, os) refl,
      rw (g, gs) refl,
      rw (s, ss) refl,
      rw ((==_iff row.test_id test_id).1 t, ts) refl,
    )

as_i32-small : (n : ℕ) → n < 2 ^ 31 → as_i32 n ≡ pos n
unfolding as_i32
as_i32-small n h = ground arith

cons-injective : {A : Type 0} {a b : A} {xs ys : List A} → (a ∷ xs) ≡ (b ∷ ys) → (a ≡ b) × (xs ≡ ys)
cons-injective e = (cc, cc)

Numbered-of :
    (k n : ℕ) (rows : List Subtask)
    → k + n ≤ 2 ^ 31
    → map (λ s. s.ordinal) rows ≡ map as_i32 (count_up k n)
    → Numbered k rows
Numbered-of k n [] h e = tt
Numbered-of k zero (r ∷ rows) h e = cc
Numbered-of k (suc n) (r ∷ rows) h e =
    let (o, os) = cons-injective e in
    (o ∙ as_i32-small k (omega arith), Numbered-of (suc k) n rows (omega arith) os)

put-before :
    (r s : Subtask) (rows : List Subtask)
    → int_lt s.ordinal r.ordinal ≡ false
    → put_by ordinal_before r (s ∷ rows) ≡ r ∷ s ∷ rows
unfolding put_by
put-before r s rows h = rw h refl

by_ordinal-Numbered : (k : ℕ) (rows : List Subtask) → Numbered k rows → by_ordinal rows ≡ rows
unfolding sort_by
by_ordinal-Numbered k [] h = refl
by_ordinal-Numbered k (r ∷ []) h = unfold put_by in refl
by_ordinal-Numbered k (r ∷ s ∷ rows) (e, (f, more)) =
    ap (put_by ordinal_before r) (by_ordinal-Numbered (suc k) (s ∷ rows) (f, more))
    ∙ put-before r s rows (rw (e, f) (ground arith))

-- No row of the list is of this test.
abbrev pub IsFresh : Uuid → List Subtask → Type 0
IsFresh test_id rows = All (λ s. (s.test_id == test_id) ≡ false) rows

pub filter-fresh :
    (test_id : Uuid) (old rows : List Subtask)
    → IsFresh test_id old
    → filter (λ s. s.test_id == test_id) rows ≡ rows
    → filter (λ s. s.test_id == test_id) (old ++ rows) ≡ rows
filter-fresh test_id [] rows h e = e
filter-fresh test_id (s ∷ old) rows (h, more) e = rw h (filter-fresh test_id old rows more e)

find-added :
    (old : List Test) (test : Test)
    → (t : Test) × (find (λ t. t.id == test.id) (old ++ test ∷ []) ≡ some t)
find-added [] test = (test, rw ((==_iff test.id test.id).1 refl) refl)
find-added (t ∷ old) test = elim (Bool-cases (t.id == test.id)) [
  | inl e ↦ (t, rw e refl)
  | inr e ↦ (let (found, q) = find-added old test in (found, rw e q))
]

module _ {Value : Type 0} (services : Services) (settings : Settings) (body : NewTest) where
  -- The rows of the added test, in the order of their ordinals.
  subtasks_of-added :
      (db : Db Value) (test : Test) {rows : List Subtask} {jobs : List ProbeJob} (after : Db Value)
      → settings.max_subtasks_per_test ≤ 2 ^ 31
      → IsFresh test.id db.subtasks
      → IsAdded services settings body db test rows jobs after
      → subtasks_of services test.id after ≡ rows
  unfolding subtask_count
  subtasks_of-added db test {rows} after few fresh added =
      let groups = dedupe body.groups in
      let algs = dedupe body.sig_algs in
      let (ordinals, _, _, own) = Fills-maps test.id _ _ added.cells in
      let most =
        subtask_count-IsAcceptable settings.max_subtasks_per_test body
          ((check_new_test_iff settings.max_subtasks_per_test body).0 added.accepted) in
      let bound : 0 + length groups * length algs ≤ 2 ^ 31 = omega (arith, most) in
      rw (added.subtasks, filter-fresh test.id db.subtasks _ fresh own)
        (by_ordinal-Numbered 0 _ (
          Numbered-of 0 (length groups * length algs) _ bound
            (ordinals ∙ ordinals-expand groups algs)))

  abbrev ShowsSelection : Result Matrix ApiError → Db Value → Type 0
  ShowsSelection r left =
      (m : Matrix) × (r ≡ ok m)
      × (m.groups ≡ dedupe body.groups)
      × (m.sig_algs ≡ dedupe body.sig_algs)

  get_matrix-added :
      (again : Services) (db : Db Value) (test : Test) {rows : List Subtask} {jobs : List ProbeJob}
      (after : Db Value)
      → settings.max_subtasks_per_test ≤ 2 ^ 31
      → dedupe body.groups ≢ []
      → dedupe body.sig_algs ≢ []
      → IsFresh test.id db.subtasks
      → ((n : ℕ) → again.fault n ≡ works)
      → IsAdded services settings body db test rows jobs after
      → Holds ShowsSelection (get_matrix again test.id) after
  unfolding get_matrix fetch_test
  get_matrix-added again db test {rows} after few some_group some_alg fresh working added =
      let (_, groups, algs, _) = Fills-maps test.id _ rows added.cells in
      let (t, found) = find-added db.tests test in
      let read = subtasks_of-added db test after few fresh added in
      let axes = matrix-expand body.groups body.sig_algs rows some_group some_alg groups algs in
      Holds-assoc ShowsSelection _ _ _ after (
        Holds-query ShowsSelection _ again _ after
          (rw (ap (find (λ t. t.id == test.id)) added.tests ∙ found) (
            Holds-lift_ok ShowsSelection _ t (tick after) (
              Holds-query ShowsSelection _ again _ (tick after)
                (Holds-pure ShowsSelection _ _ (_, refl, rw read axes.0, rw read axes.1))
                (fails _))))
          (fails _))
    where
      fails : (n : ℕ) (e : ApiError) → again.fault n ≢ works → ShowsSelection (err e) after
      fails n e ne = absurd (ne (working n))

  -- A created test, whose identifier no subtask had before, is shown as it was selected: where
  -- `RETURNING` lists rows that were inserted and the limit on the subtasks of a test fits an
  -- `i32`, neither the groups nor the signature algorithms are empty once they are cleaned, and
  -- every call of the second request works, the matrix that is read back has for its axes exactly
  -- the cleaned selection, in its order.
  pub create_test-get_matrix :
      (again : Services) (db : Db Value) (test : Test)
      → ReturnsRows services
      → settings.max_subtasks_per_test ≤ 2 ^ 31
      → dedupe body.groups ≢ []
      → dedupe body.sig_algs ≢ []
      → (create_test services settings body db).0 ≡ ok test
      → IsFresh test.id db.subtasks
      → ((n : ℕ) → again.fault n ≡ works)
      → (m : Matrix) × ((get_matrix again test.id (create_test services settings body db).1).0
          ≡ ok m)
        × (m.groups ≡ dedupe body.groups)
        × (m.sig_algs ≡ dedupe body.sig_algs)
  unfolding Holds
  create_test-get_matrix again db test returns few some_group some_alg created fresh working =
      let after = (create_test services settings body db).1 in
      let atomic = create_test-Atomic services settings body returns db in
      let (rows, call, added) =
        subst (λ r. Atomic services settings body db r after) created atomic in
      get_matrix-added again db test after few some_group some_alg fresh working added
