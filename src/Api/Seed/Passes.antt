-- ===== src/Api/Seed/Passes.antt =====
-- What a loop over seeds does the first time and any time after (services/api/src/seed.rs).
use pqc_sec_inspection_cours.Prelude.{
  ℕ, ◌≡◌, refl, sym, ap, ◌∙◌, List, [], ◌∷◌, ◌++◌, map, any, true, All, Text, Result, ok,
}
use pqc_sec_inspection_cours.Domain.Jobs.{Uuid}
use pqc_sec_inspection_cours.Api.Database.{Db, Services}
use pqc_sec_inspection_cours.Api.Upsert.{
  Table, IsSettled, settle, write, upsert_row, upsert_row-IsSettled, upsert_row-present,
  settle-append, conflicts-settle,
}
use pqc_sec_inspection_cours.Api.Seed.Loops.{accepted, IsTable, execute_all-Leaves}
use pqc_sec_inspection_cours.Api.Seed.{View, execute_all}

All-refl : {Row : Type 0} (rows : List Row) → All (λ (r : Row). r ≡ r) rows
All-refl [] = tt
All-refl (r ∷ rows) = (refl, All-refl rows)

module _ {Seed Row : Type 0} (table : Table Seed Row) where
  untouched : (rows : List Row) → IsSettled table [] rows
  untouched rows = record { settled = All-refl rows; present = tt }

  map-settle :
      (s : Seed) (done : List Seed) (rows : List Row)
      → map (write table s) (map (settle table done) rows)
        ≡ map (settle table (done ++ s ∷ [])) rows
  map-settle s done [] = refl
  map-settle s done (r ∷ rows) =
      rw (settle-append table s done r)
        (ap (λ rest. write table s (settle table done r) ∷ rest) (map-settle s done rows))

  any-map-settle :
      (s : Seed) (done : List Seed) (rows : List Row)
      → any (table.conflicts s) (map (settle table done) rows) ≡ any (table.conflicts s) rows
  any-map-settle s done [] = refl
  any-map-settle s done (r ∷ rows) =
      rw (conflicts-settle table s done r, any-map-settle s done rows) refl

  map-settled :
      (seeds : List Seed) (rows : List Row)
      → All (λ r. settle table seeds r ≡ r) rows
      → map (settle table seeds) rows ≡ rows
  map-settled seeds [] h = refl
  map-settled seeds (r ∷ rows) h = rw (h.0, map-settled seeds rows h.1) refl

module _ {Value Seed Row : Type 0} (view : View Value Seed Row) (laws : IsTable view)
    (services : Services) (seeds : List (Result Seed Text)) where
  -- The first time.
  pub first_pass :
      (db : Db Value)
      → (execute_all services view seeds db).0 ≡ ok tt
      → (rows : List Row) × (n : ℕ) × ((execute_all services view seeds db).1 ≡ view.put rows n db)
        × IsSettled view.table (accepted seeds) rows
  first_pass db good =
      let (rows, n, e, h) =
        execute_all-Leaves view laws (IsSettled view.table) services (λ _. Unit)
          (λ id s done old _ h. upsert_row-IsSettled view.table id s done old h) seeds [] db
          (everywhere (accepted seeds)) (untouched view.table (view.rows db)) in
      (rows, n, e, h good)
    where
      everywhere : (some_seeds : List Seed) → All (λ _. Unit {0}) some_seeds
      everywhere [] = tt
      everywhere (s ∷ some_seeds) = (tt, everywhere some_seeds)

  rewrites :
      (id : Uuid) (s : Seed) (done : List Seed) (old rows : List Row)
      → any (view.table.conflicts s) old ≡ true
      → rows ≡ map (settle view.table done) old
      → upsert_row view.table id s rows ≡ map (settle view.table (done ++ s ∷ [])) old
  rewrites id s done old rows found e = rw e (
      upsert_row-present view.table id s (map (settle view.table done) old)
        (any-map-settle view.table s done old ∙ found)
      ∙ map-settle view.table s done old)

  same_rows :
      (old db : Db Value) (k : ℕ) → db ≡ record old { clock = k } → view.rows db ≡ view.rows old
  same_rows old db k e =
      ap view.rows e
      ∙ ap view.rows (sym (laws.put_same k old))
      ∙ laws.rows-put (view.rows old) k old

  -- Any time after.
  pub next_pass :
      (old db : Db Value) (k : ℕ)
      → db ≡ record old { clock = k }
      → IsSettled view.table (accepted seeds) (view.rows old)
      → (execute_all services view seeds db).0 ≡ ok tt
      → (n : ℕ) × ((execute_all services view seeds db).1 ≡ record old { clock = n })
  next_pass old db k same h good =
      let (rows, n, e, rewritten) =
        execute_all-Leaves view laws
          (λ done rows. rows ≡ map (settle view.table done) (view.rows old)) services
          (λ s. any (view.table.conflicts s) (view.rows old) ≡ true)
          (λ id s done rows. rewrites id s done (view.rows old) rows) seeds [] db h.present
          (same_rows old db k same
            ∙ sym (map-settled view.table [] (view.rows old) (All-refl (view.rows old)))) in
      let kept =
        rewritten good ∙ map-settled view.table (accepted seeds) (view.rows old) h.settled in
      (n, e ∙ ap (λ rs. view.put rs n db) kept ∙ ap (view.put (view.rows old) n) same ∙ put_back n)
    where
      put_back :
          (m : ℕ) → view.put (view.rows old) m (record old { clock = k }) ≡ record old { clock = m }
      put_back m =
          ap (view.put (view.rows old) m) (sym (laws.put_same k old))
          ∙ laws.put-put (view.rows old) (view.rows old) m k old
          ∙ laws.put_same m old
