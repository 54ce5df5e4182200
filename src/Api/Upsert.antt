-- ===== src/Api/Upsert.antt =====
-- `INSERT … ON CONFLICT … DO UPDATE` on a table, one row at a time, as services/api/src/seed.rs
-- uses it. A table is an interface: what a row conflicts with, the row that is inserted and the
-- update, with the laws that make the statement safe to repeat.
pub mod Last
use pqc_sec_inspection_cours.Prelude.{
  ◌≡◌, refl, ap, ◌∙◌, Bool, true, false, ◌||◌, List, [], ◌∷◌, ◌++◌, any, map, update_where, All,
  Bool-cases, if◌then◌else◌, inl, inr,
}
use pqc_sec_inspection_cours.Domain.Jobs.{Uuid}

pub record Table (Seed Row : Type 0) : Type 0 where
  pub conflicts : Seed → Row → Bool
  pub fresh_row : Uuid → Seed → Row
  pub rewritten : Seed → Row → Row
  pub rewritten-rewritten : (s t : Seed) (r : Row) → rewritten s (rewritten t r) ≡ rewritten s r
  pub rewritten-fresh_row : (id : Uuid) (s : Seed) → rewritten s (fresh_row id s) ≡ fresh_row id s
  pub conflicts-rewritten : (s t : Seed) (r : Row) → conflicts s (rewritten t r) ≡ conflicts s r
  pub conflicts-fresh_row : (id : Uuid) (s : Seed) → conflicts s (fresh_row id s) ≡ true

module _ {Seed Row : Type 0} (table : Table Seed Row) where
  open table use {
    conflicts, fresh_row, rewritten, rewritten-rewritten, rewritten-fresh_row, conflicts-rewritten,
    conflicts-fresh_row,
  }

  unfoldable pub upsert_row : Uuid → Seed → List Row → List Row
  upsert_row id s rows =
      if any (conflicts s) rows
      then update_where (conflicts s) (rewritten s) rows
      else rows ++ fresh_row id s ∷ []

  abbrev pub write : Seed → Row → Row
  write s r = if conflicts s r then rewritten s r else r

  -- What a list of seeds makes of one row.
  abbrev pub settle : List Seed → Row → Row
  settle [] r = r
  settle (s ∷ seeds) r = settle seeds (write s r)

  -- The rows are as the seeds leave them, and each seed has a row.
  pub record IsSettled (seeds : List Seed) (rows : List Row) : Type 0 where
    pub settled : All (λ r. settle seeds r ≡ r) rows
    pub present : All (λ s. any (conflicts s) rows ≡ true) seeds

  pub settle-append :
      (s : Seed) (seeds : List Seed) (r : Row)
      → settle (seeds ++ s ∷ []) r ≡ write s (settle seeds r)
  settle-append s [] r = refl
  settle-append s (t ∷ seeds) r = settle-append s seeds (write t r)

  conflicts-write : (s t : Seed) (r : Row) → conflicts s (write t r) ≡ conflicts s r
  conflicts-write s t r = elim (Bool-cases (conflicts t r)) [
    | inl e ↦ rw e (conflicts-rewritten s t r)
    | inr e ↦ rw e refl
  ]

  pub conflicts-settle :
      (s : Seed) (seeds : List Seed) (r : Row) → conflicts s (settle seeds r) ≡ conflicts s r
  conflicts-settle s [] r = refl
  conflicts-settle s (t ∷ seeds) r = conflicts-settle s seeds (write t r) ∙ conflicts-write s t r

  pub rewritten-settle :
      (s : Seed) (seeds : List Seed) (r : Row) → rewritten s (settle seeds r) ≡ rewritten s r
  rewritten-settle s [] r = refl
  rewritten-settle s (t ∷ seeds) r = elim (Bool-cases (conflicts t r)) [
    | inl e ↦ rw e (rewritten-settle s seeds (rewritten t r) ∙ rewritten-rewritten s t r)
    | inr e ↦ rw e (rewritten-settle s seeds r)
  ]

  -- The row of a further seed is settled, whatever came before.
  settle-hit :
      (s : Seed) (seeds : List Seed) (r : Row)
      → conflicts s r ≡ true
      → settle (seeds ++ s ∷ []) r ≡ rewritten s r
  settle-hit s seeds r h =
      settle-append s seeds r ∙ rw (conflicts-settle s seeds r) (rw h (rewritten-settle s seeds r))

  settle-miss :
      (s : Seed) (seeds : List Seed) (r : Row)
      → conflicts s r ≡ false
      → settle seeds r ≡ r
      → settle (seeds ++ s ∷ []) r ≡ r
  settle-miss s seeds r h e = settle-append s seeds r ∙ rw e (rw h refl)

  any-update_where :
      (s t : Seed) (rows : List Row)
      → any (conflicts s) (update_where (conflicts t) (rewritten t) rows) ≡ any (conflicts s) rows
  any-update_where s t [] = refl
  any-update_where s t (r ∷ rows) =
      rw (any-update_where s t rows) (ap (λ b. b || any (conflicts s) rows) (conflicts-write s t r))

  any-append_left :
      (s : Seed) (rows more : List Row)
      → any (conflicts s) rows ≡ true
      → any (conflicts s) (rows ++ more) ≡ true
  any-append_left s [] more h = cc
  any-append_left s (r ∷ rows) more h = elim (Bool-cases (conflicts s r)) [
    | inl e ↦ rw e refl
    | inr e ↦ rw e (any-append_left s rows more (rw e at h))
  ]

  any-append_last :
      (s : Seed) (rows : List Row) (r : Row)
      → conflicts s r ≡ true
      → any (conflicts s) (rows ++ r ∷ []) ≡ true
  any-append_last s [] r h = rw h refl
  any-append_last s (q ∷ rows) r h = elim (Bool-cases (conflicts s q)) [
    | inl e ↦ rw e refl
    | inr e ↦ rw e (any-append_last s rows r h)
  ]

  settled_updates :
      (s : Seed) (seeds : List Seed) (rows : List Row)
      → All (λ r. settle seeds r ≡ r) rows
      → All (λ r. settle (seeds ++ s ∷ []) r ≡ r) (update_where (conflicts s) (rewritten s) rows)
  settled_updates s seeds [] h = tt
  settled_updates s seeds (r ∷ rows) h = elim (Bool-cases (conflicts s r)) [
    | inl e ↦
        rw (e, All)
          (
            settle-hit s seeds (rewritten s r) (conflicts-rewritten s s r ∙ e)
                ∙ rewritten-rewritten s s r,
            settled_updates s seeds rows h.1,
          )
    | inr e ↦ rw (e, All) (settle-miss s seeds r e h.0, settled_updates s seeds rows h.1)
  ]

  settled_appended :
      (id : Uuid) (s : Seed) (seeds : List Seed) (rows : List Row)
      → any (conflicts s) rows ≡ false
      → All (λ r. settle seeds r ≡ r) rows
      → All (λ r. settle (seeds ++ s ∷ []) r ≡ r) (rows ++ fresh_row id s ∷ [])
  settled_appended id s seeds [] free h = (
    settle-hit s seeds (fresh_row id s) (conflicts-fresh_row id s) ∙ rewritten-fresh_row id s,
    tt,
  )
  settled_appended id s seeds (r ∷ rows) free h = elim (Bool-cases (conflicts s r)) [
    | inl e ↦ let clash : true ≡ false = (rw e at free) in absurd (cc clash)
    | inr e ↦ (settle-miss s seeds r e h.0, settled_appended id s seeds rows (rw e at free) h.1)
  ]

  All-snoc :
      (P Q : Seed → Type 0) (s : Seed) (seeds : List Seed)
      → ((t : Seed) → P t → Q t)
      → All P seeds
      → Q s
      → All Q (seeds ++ s ∷ [])
  All-snoc P Q s [] f h q = (q, tt)
  All-snoc P Q s (t ∷ seeds) f h q = (f t h.0, All-snoc P Q s seeds f h.1 q)

  -- One more seed.
  pub upsert_row-IsSettled :
      (id : Uuid) (s : Seed) (seeds : List Seed) (rows : List Row)
      → IsSettled seeds rows
      → IsSettled (seeds ++ s ∷ []) (upsert_row id s rows)
  unfolding upsert_row
  upsert_row-IsSettled id s seeds rows h = elim (Bool-cases (any (conflicts s) rows)) [
    | inl e ↦ rw e (record {
      settled = settled_updates s seeds rows h.settled;
      present =
          All-snoc _ _ s seeds (λ t found. any-update_where t s rows ∙ found) h.present
            (any-update_where s s rows ∙ e);
    })
    | inr e ↦ rw e (record {
      settled = settled_appended id s seeds rows e h.settled;
      present =
          All-snoc _ _ s seeds (λ t found. any-append_left t rows (fresh_row id s ∷ []) found)
            h.present (any-append_last s rows (fresh_row id s) (conflicts-fresh_row id s));
    })
  ]

  -- Where its row is there, a seed only rewrites rows.
  update_where-write :
      (s : Seed) (rows : List Row)
      → update_where (conflicts s) (rewritten s) rows ≡ map (write s) rows
  update_where-write s [] = refl
  update_where-write s (r ∷ rows) = ap (λ rest. write s r ∷ rest) (update_where-write s rows)

  pub upsert_row-present :
      (id : Uuid) (s : Seed) (rows : List Row)
      → any (conflicts s) rows ≡ true
      → upsert_row id s rows ≡ map (write s) rows
  unfolding upsert_row
  upsert_row-present id s rows h = rw h (update_where-write s rows)
