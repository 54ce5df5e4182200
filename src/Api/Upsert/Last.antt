-- ===== src/Api/Upsert/Last.antt =====
-- The last seed of a name decides its row.
use pqc_sec_inspection_cours.Prelude.{
  ◌≡◌, refl, sym, ap, ◌∙◌, true, false, inl, inr, List, [], ◌∷◌, ◌++◌, any, All, Some, Bool-cases,
}
use pqc_sec_inspection_cours.Api.Upsert.{
  Table, IsSettled, settle, write, conflicts-settle, rewritten-settle,
}

module _ {Seed Row : Type 0} (table : Table Seed Row) where
  open table use {conflicts, rewritten}

  settle-append :
      (pre post : List Seed) (r : Row)
      → settle table (pre ++ post) r ≡ settle table post (settle table pre r)
  settle-append [] post r = refl
  settle-append (s ∷ pre) post r = settle-append pre post (write table s r)

  settle_others :
      (seeds : List Seed) (r : Row)
      → All (λ s. conflicts s r ≡ false) seeds
      → settle table seeds r ≡ r
  settle_others [] r h = refl
  settle_others (s ∷ seeds) r h = rw (h.0) (settle_others seeds r h.1)

  same_conflicts :
      (seeds : List Seed) (q r : Row)
      → ((s : Seed) → conflicts s q ≡ conflicts s r)
      → All (λ s. conflicts s r ≡ false) seeds
      → All (λ s. conflicts s q ≡ false) seeds
  same_conflicts [] q r e h = tt
  same_conflicts (s ∷ seeds) q r e h = (e s ∙ h.0, same_conflicts seeds q r e h.1)

  module _ (pre : List Seed) (s : Seed) (post : List Seed)
      (last : (r : Row) → conflicts s r ≡ true → All (λ t. conflicts t r ≡ false) post) where
    decided :
        (r : Row) → conflicts s r ≡ true → settle table (pre ++ s ∷ post) r ≡ r → rewritten s r ≡ r
    decided r hit fixed =
        sym (rewritten-settle table s pre r)
        ∙ sym (settle_others post (rewritten s (settle table pre r)) others)
        ∙ sym (ap (settle table post) written)
        ∙ sym (settle-append pre (s ∷ post) r)
        ∙ fixed
      where
        hit_there : conflicts s (settle table pre r) ≡ true
        hit_there = conflicts-settle table s pre r ∙ hit

        written : write table s (settle table pre r) ≡ rewritten s (settle table pre r)
        written = rw hit_there refl

        others : All (λ t. conflicts t (rewritten s (settle table pre r)) ≡ false) post
        others =
            same_conflicts post _ r
              (λ t. table.conflicts-rewritten t s _ ∙ conflicts-settle table t pre r) (last r hit)

    found :
        (rows : List Row)
        → any (conflicts s) rows ≡ true
        → All (λ r. settle table (pre ++ s ∷ post) r ≡ r) rows
        → Some (λ r. (conflicts s r ≡ true) × (rewritten s r ≡ r)) rows
    found [] hit h = absurd (cc hit)
    found (r ∷ rows) hit h = elim (Bool-cases (conflicts s r)) [
      | inl e ↦ inl (e, decided r e h.0)
      | inr e ↦ inr (found rows (rw e at hit) h.1)
    ]

    member :
        (seeds : List Seed) (rows : List Row)
        → All (λ t. any (conflicts t) rows ≡ true) (seeds ++ s ∷ post)
        → any (conflicts s) rows ≡ true
    member [] rows h = h.0
    member (t ∷ seeds) rows h = member seeds rows h.1

    -- The row of a seed that no later seed overwrites is as the seed says.
    pub last_wins :
        (rows : List Row)
        → IsSettled table (pre ++ s ∷ post) rows
        → Some (λ r. (conflicts s r ≡ true) × (rewritten s r ≡ r)) rows
    last_wins rows h = found rows (member pre rows h.present) h.settled
