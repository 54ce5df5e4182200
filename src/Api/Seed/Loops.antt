-- ===== src/Api/Seed/Loops.antt =====
-- What a loop over seeds leaves of its table (services/api/src/seed.rs).
use pqc_sec_inspection_cours.Prelude.{
  ℕ, suc, ◌≡◌, refl, sym, ap, ◌∙◌, subst, List, [], ◌∷◌, ◌++◌, append_assoc, append-nil, All, Text,
  Result, ok, err, Result-cases, inl, inr,
}
use pqc_sec_inspection_cours.Domain.Jobs.{Uuid}
use pqc_sec_inspection_cours.Worker.World.{Fault, works, refused, lost}
use pqc_sec_inspection_cours.Api.Database.{Db, Services, tick}
use pqc_sec_inspection_cours.Api.Upsert.{upsert_row}
use pqc_sec_inspection_cours.Api.Seed.{
  Seeding, View, continue, answer, execute, execute_all, ◌>>=◌, pure,
}

abbrev pub accepted : {Seed : Type 0} → List (Result Seed Text) → List Seed
accepted [] = []
accepted (ok s ∷ seeds) = s ∷ accepted seeds
accepted (err e ∷ seeds) = accepted seeds

module _ {Value : Type 0} where
  -- A step of a seeding that ends well went well.
  pub went_on :
      {A B : Type 0} (m : Seeding Value A) (next : A → Seeding Value B) (db : Db Value) {b : B}
      → ((m >>= next) db).0 ≡ ok b
      → (a : A) × ((m db).0 ≡ ok a) × ((m >>= next) db ≡ next a (m db).1)
  unfolding ◌>>=◌
  went_on m next db h = elim (Result-cases (m db).0) [
    | inl (a, e) ↦ (a, e, rw e refl)
    | inr (e, p) ↦ absurd (cc (rw p at h))
  ]

abbrev pub IsOk : {A : Type 0} → Result A Text → Type 0
IsOk (ok a) = Unit
IsOk (err e) = ⊥

pub record IsTable {Value Seed Row : Type 0} (view : View Value Seed Row) : Type 0 where
  pub rows-put : (rows : List Row) (n : ℕ) (db : Db Value) → view.rows (view.put rows n db) ≡ rows
  pub put-put :
      (rows old : List Row) (n m : ℕ) (db : Db Value)
      → view.put rows n (view.put old m db) ≡ view.put rows n db
  pub put_same : (n : ℕ) (db : Db Value) → view.put (view.rows db) n db ≡ record db { clock = n }

module _ {Value Seed Row : Type 0} (view : View Value Seed Row) (laws : IsTable view)
    (P : List Seed → List Row → Type 0) where
  -- Only the table and the clock change; where all went well, `P` holds of the seeds.
  abbrev pub Leaves : List Seed → Db Value → Result (Unit {0}) Text × Db Value → Type 0
  Leaves seeds db (r, after) =
      (rows : List Row) × (n : ℕ) × (after ≡ view.put rows n db) × (r ≡ ok tt → P seeds rows)

  after_answer :
      (f : Fault) (seeds : List Seed) (next : Seeding Value (Unit {0})) (db : Db Value)
      (rows : List Row)
      → Leaves seeds (view.put rows (suc db.clock) db) (next (view.put rows (suc db.clock) db))
      → Leaves seeds db (
          let (r, left) = answer f (ok tt) (tick db) (view.put rows (suc db.clock) db) in
          continue r (λ _. next) left)
  after_answer works seeds next db rows (last, n, e, h) =
      (last, n, e ∙ laws.put-put last rows n _ db, h)
  after_answer (refused e) seeds next db rows ih =
      (view.rows db, suc db.clock, sym (laws.put_same _ db), λ q. absurd (cc q))
  after_answer (lost e) seeds next db rows ih = (rows, suc db.clock, refl, λ q. absurd (cc q))

  after_error :
      (f : Fault) (e : Text) (seeds : List Seed) (next : Seeding Value (Unit {0})) (db : Db Value)
      → Leaves seeds db
          (let (r, left) = answer f (err e) (tick db) (tick db) in continue r (λ _. next) left)
  after_error works e seeds next db =
      (view.rows db, suc db.clock, sym (laws.put_same _ db), λ q. absurd (cc q))
  after_error (refused _) e seeds next db =
      (view.rows db, suc db.clock, sym (laws.put_same _ db), λ q. absurd (cc q))
  after_error (lost _) e seeds next db =
      (view.rows db, suc db.clock, sym (laws.put_same _ db), λ q. absurd (cc q))

  -- The rule for the loop.
  module _ (services : Services) (Q : Seed → Type 0)
      (step : (id : Uuid) (s : Seed) (done : List Seed) (rows : List Row)
        → Q s
        → P done rows
        → P (done ++ s ∷ []) (upsert_row view.table id s rows)) where
    pub execute_all-Leaves :
        (seeds : List (Result Seed Text)) (done : List Seed) (db : Db Value)
        → All Q (accepted seeds)
        → P done (view.rows db)
        → Leaves (done ++ accepted seeds) db (execute_all services view seeds db)
    unfolding execute_all execute ◌>>=◌ pure
    execute_all-Leaves [] done db q h =
        (view.rows db, db.clock, sym (laws.put_same _ db), λ _. rw append-nil h)
    execute_all-Leaves (err e ∷ seeds) done db q h =
        after_error (services.fault db.clock) e (done ++ accepted seeds)
          (execute_all services view seeds) db
    execute_all-Leaves (ok s ∷ seeds) done db q h =
        let written = upsert_row view.table (services.uuid db.clock 0) s (view.rows db) in
        let next = view.put written (suc db.clock) db in
        let kept = step (services.uuid db.clock 0) s done (view.rows db) q.0 h in
        let ih =
          execute_all-Leaves seeds (done ++ s ∷ []) next q.1
            (subst (P (done ++ s ∷ [])) (sym (laws.rows-put written (suc db.clock) db)) kept) in
        after_answer (services.fault db.clock) (done ++ s ∷ accepted seeds)
          (execute_all services view seeds) db written
          (rw (← append_assoc done (s ∷ []) (accepted seeds)) ih)

module _ {Value Seed Row : Type 0} (services : Services) (view : View Value Seed Row) where
  refuses :
      (f : Fault) (e : Text) (before after : Db Value) {b : Unit {0}}
      → (answer f (err e) before after).0 ≡ ok b
      → ⊥
  refuses works e before after h = cc
  refuses (refused _) e before after h = cc
  refuses (lost _) e before after h = cc

  -- A loop that ends well has met no seed that violates a constraint.
  pub execute_all-IsOk :
      (seeds : List (Result Seed Text)) (db : Db Value)
      → (execute_all services view seeds db).0 ≡ ok tt
      → All IsOk seeds
  unfolding execute_all execute
  execute_all-IsOk [] db h = tt
  execute_all-IsOk (ok s ∷ seeds) db h =
      let (_, _, e) =
        went_on (execute services view (ok s)) (λ _. execute_all services view seeds) db h in
      (tt, execute_all-IsOk seeds _ (sym (ap (λ p. p.0) e) ∙ h))
  execute_all-IsOk (err e ∷ seeds) db h =
      let (_, good, _) =
        went_on (execute services view (err e)) (λ _. execute_all services view seeds) db h in
      absurd (refuses (services.fault db.clock) e _ _ good)
