-- ===== src/Api/Subtasks/Neighbours.antt =====
-- The neighbours of a subtask in the list of the matrix's cells.
use pqc_sec_inspection_cours.Prelude.{
  ◌≡◌, ◌≢◌, refl, ap, ◌∙◌, sym, subst, arith, ℕ, suc, ◌+◌, ◌<◌, ◌≤◌, Bool, true, false, ◌&&◌,
  Option, none, some, List, [], ◌∷◌, ◌++◌, find, filter, length, head?, ◌==◌, pos, int_lt, as_i64,
  Result, ok, err,
}
use pqc_sec_inspection_cours.Domain.Models.{Subtask}
use pqc_sec_inspection_cours.Worker.World.{works}
use pqc_sec_inspection_cours.Api.Errors.{ApiError}
use pqc_sec_inspection_cours.Api.Database.{tick, Db, Services}
use pqc_sec_inspection_cours.Api.Outcome.{Holds-lift_ok, Holds, Holds-query, Holds-pure}
use pqc_sec_inspection_cours.Api.Subtasks.{
  SubtaskDetail, highest, lowest, id_of, rows_of, previous_of, next_of, get_subtask,
}

-- The cells of a matrix, counted from `k`.
abbrev pub Numbered : ℕ → List Subtask → Type 0
Numbered k [] = Unit
Numbered k (r ∷ rows) = (r.ordinal ≡ pos k) × Numbered (suc k) rows

abbrev pub last? : List Subtask → Option Subtask
last? [] = none
last? (r ∷ []) = some r
last? (r ∷ s ∷ rows) = last? (s ∷ rows)

filter-filter :
    (p q : Subtask → Bool) (rows : List Subtask)
    → filter (λ r. p r && q r) rows ≡ filter q (filter p rows)
filter-filter p q [] = refl
filter-filter p q (r ∷ rows) = ground (arith, filter-filter p q rows)

-- Among numbered rows, what stands below a number and what stands above it.
below-none :
    (n k : ℕ) (rows : List Subtask)
    → n ≤ k
    → Numbered k rows
    → filter (λ r. int_lt r.ordinal (pos n)) rows ≡ []
below-none n k [] h _ = refl
below-none n k (r ∷ rows) h (e, more) =
    let rest = below-none n (suc k) rows (omega arith) more in rw e (ground arith)

above-all :
    (n k : ℕ) (rows : List Subtask)
    → n < k
    → Numbered k rows
    → filter (λ r. int_lt (pos n) r.ordinal) rows ≡ rows
above-all n k [] h _ = refl
above-all n k (r ∷ rows) h (e, more) =
    let rest = above-all n (suc k) rows (omega arith) more in rw e (ground arith)

below :
    (n k : ℕ) (pre : List Subtask) (cur : Subtask) (post : List Subtask)
    → n ≡ k + length pre
    → Numbered k (pre ++ cur ∷ post)
    → filter (λ r. int_lt r.ordinal (pos n)) (pre ++ cur ∷ post) ≡ pre
below n k [] cur post h nums = below-none n k (cur ∷ post) (omega arith) nums
below n k (r ∷ pre) cur post h (e, more) =
    let rest = below n (suc k) pre cur post (omega arith) more in rw e (ground arith)

above :
    (n k : ℕ) (pre : List Subtask) (cur : Subtask) (post : List Subtask)
    → n ≡ k + length pre
    → Numbered k (pre ++ cur ∷ post)
    → filter (λ r. int_lt (pos n) r.ordinal) (pre ++ cur ∷ post) ≡ post
above n k [] cur post h (e, more) =
    let rest = above-all n (suc k) post (omega arith) more in rw e (ground arith)
above n k (r ∷ pre) cur post h (e, more) =
    let rest = above n (suc k) pre cur post (omega arith) more in rw e (ground arith)

last-some :
    (k : ℕ) (r : Subtask) (rows : List Subtask)
    → Numbered k (r ∷ rows)
    → (t : Subtask) × (last? (r ∷ rows) ≡ some t) × (m : ℕ) × (t.ordinal ≡ pos m) × (k ≤ m)
last-some k r [] (e, _) = (r, refl, k, e, omega arith)
last-some k r (s ∷ rows) (e, more) =
    let (t, l, m, o, le) = last-some (suc k) s rows more in (t, l, m, o, omega arith)

highest-step :
    (r t : Subtask) (rows : List Subtask)
    → highest rows ≡ some t
    → int_lt r.ordinal t.ordinal ≡ true
    → highest (r ∷ rows) ≡ some t
unfolding highest
highest-step r t rows g h = rw (g, h, highest) refl

lowest-step :
    (r s : Subtask) (rows : List Subtask)
    → lowest rows ≡ some s
    → int_lt s.ordinal r.ordinal ≡ false
    → lowest (r ∷ rows) ≡ some r
unfolding lowest
lowest-step r s rows g h = rw (g, h, lowest) refl

highest-last : (k : ℕ) (rows : List Subtask) → Numbered k rows → highest rows ≡ last? rows
highest-last k [] h = unfold highest in refl
highest-last k (r ∷ []) h = unfold highest in refl
highest-last k (r ∷ s ∷ rows) (e, more) =
    let (t, l, m, o, le) = last-some (suc k) s rows more in
    highest-step r t (s ∷ rows) (highest-last (suc k) (s ∷ rows) more ∙ l)
      (rw (e, o) (ground arith))
    ∙ sym l

lowest-head : (k : ℕ) (rows : List Subtask) → Numbered k rows → lowest rows ≡ head? rows
lowest-head k [] h = unfold lowest in refl
lowest-head k (r ∷ []) h = unfold lowest in refl
lowest-head k (r ∷ s ∷ rows) (e, (f, more)) =
    lowest-step r s (s ∷ rows) (lowest-head (suc k) (s ∷ rows) (f, more)) (rw (e, f) (ground arith))

ordinal-at :
    (k : ℕ) (pre : List Subtask) (cur : Subtask) (post : List Subtask)
    → Numbered k (pre ++ cur ∷ post)
    → cur.ordinal ≡ pos (k + length pre)
ordinal-at k [] cur post (e, _) = e ∙ ap pos (omega arith)
ordinal-at k (r ∷ pre) cur post (_, more) =
    ordinal-at (suc k) pre cur post more ∙ ap pos (omega arith)

Numbered-right :
    (k : ℕ) (pre : List Subtask) (cur : Subtask) (post : List Subtask)
    → Numbered k (pre ++ cur ∷ post)
    → Numbered (suc (k + length pre)) post
Numbered-right k [] cur post (_, more) = subst (λ m. Numbered m post) (omega arith) more
Numbered-right k (r ∷ pre) cur post (_, more) =
    subst (λ m. Numbered m post) (omega arith) (Numbered-right (suc k) pre cur post more)

Numbered-left : (k : ℕ) (pre post : List Subtask) → Numbered k (pre ++ post) → Numbered k pre
Numbered-left k [] post h = tt
Numbered-left k (r ∷ pre) post (e, more) = (e, Numbered-left (suc k) pre post more)

module _ {Value : Type 0} (db : Db Value) (pre : List Subtask) (cur : Subtask) (post : List Subtask)
    (rows : rows_of cur.test_id db ≡ pre ++ cur ∷ post)
    (nums : Numbered 0 (pre ++ cur ∷ post)) where
  place : cur.ordinal ≡ pos (length pre)
  place = ordinal-at 0 pre cur post nums ∙ ap pos (omega arith)

  previous : previous_of cur.test_id cur.ordinal db ≡ id_of (last? pre)
  unfolding previous_of
  previous =
      rw
        (
          place,
          filter-filter (λ s. s.test_id == cur.test_id) (λ s. int_lt s.ordinal (pos (length pre)))
              db.subtasks,
          rows,
          below (length pre) 0 pre cur post (omega arith) nums,
        )
        (ap id_of (highest-last 0 pre (Numbered-left 0 pre (cur ∷ post) nums)))

  next : next_of cur.test_id cur.ordinal db ≡ id_of (head? post)
  unfolding next_of
  next =
      rw
        (
          place,
          filter-filter (λ s. s.test_id == cur.test_id) (λ s. int_lt (pos (length pre)) s.ordinal)
              db.subtasks,
          rows,
          above (length pre) 0 pre cur post (omega arith) nums,
        )
        (ap id_of (lowest-head (suc (0 + length pre)) post (Numbered-right 0 pre cur post nums)))

  -- The rows of a test are numbered from zero, and a subtask stands among them behind `pre` and
  -- before `post`. Where every call works, the handler answers with that subtask, the last of
  -- `pre` and the first of `post` as its neighbours, its place counted from one, and the number of
  -- the rows, whatever rows other tests have.
  pub get_subtask-neighbours :
      (services : Services)
      → find (λ s. s.id == cur.id) db.subtasks ≡ some cur
      → ((n : ℕ) → services.fault n ≡ works)
      → (d : SubtaskDetail Value) × ((get_subtask services cur.id db).0 ≡ ok d)
        × (d.subtask ≡ cur)
        × (d.previous_id ≡ id_of (last? pre))
        × (d.next_id ≡ id_of (head? post))
        × (d.position ≡ pos (suc (length pre)))
        × (d.total ≡ as_i64 (length (pre ++ cur ∷ post)))
  unfolding get_subtask Holds previous_of next_of
  get_subtask-neighbours services found working =
      Holds-query Answers _ services _ db
        (rw found (
          Holds-lift_ok Answers _ cur (tick db) (
            Holds-query Answers _ services _ (tick db)
              (Holds-query Answers _ services _ _
                (Holds-query Answers _ services _ _
                  (Holds-query Answers _ services _ _
                    (Holds-pure Answers _ _
                      (_, refl, refl, previous, next, rw place refl, rw rows refl))
                    (fails _))
                  (fails _))
                (fails _))
              (fails _))))
        (fails _)
    where
      Answers : Result (SubtaskDetail Value) ApiError → Db Value → Type 0
      Answers r after =
          (d : SubtaskDetail Value) × (r ≡ ok d)
          × (d.subtask ≡ cur)
          × (d.previous_id ≡ id_of (last? pre))
          × (d.next_id ≡ id_of (head? post))
          × (d.position ≡ pos (suc (length pre)))
          × (d.total ≡ as_i64 (length (pre ++ cur ∷ post)))

      fails : (n : ℕ) (e : ApiError) → services.fault n ≢ works → Answers (err e) db
      fails n e ne = absurd (ne (working n))
