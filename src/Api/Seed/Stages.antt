-- ===== src/Api/Seed/Stages.antt =====
-- The three loops of the seeding, one after the other (services/api/src/seed.rs).
use pqc_sec_inspection_cours.Prelude.{ℕ, ◌≡◌, refl, sym, ap, ◌∙◌, List, Text, Result, ok}
use pqc_sec_inspection_cours.Domain.Status.{Capability}
use pqc_sec_inspection_cours.Api.Database.{Db, Services}
use pqc_sec_inspection_cours.Api.Upsert.{IsSettled}
use pqc_sec_inspection_cours.Api.Seed.Tables.{
  AlgorithmSeed, EndpointSeed, PackSeed, algorithm_table, endpoint_table, pack_table,
}
use pqc_sec_inspection_cours.Api.Seed.Loops.{accepted, IsTable, went_on}
use pqc_sec_inspection_cours.Api.Seed.Passes.{first_pass, next_pass}
use pqc_sec_inspection_cours.Api.Seed.{
  Seeding, execute_all, ◌>>◌, pure, algorithm_view, endpoint_view, pack_view,
}

module _ {Value : Type 0} where
  algorithm_view-IsTable : IsTable (algorithm_view {Value = Value})
  algorithm_view-IsTable = record {
    rows-put = λ rows n db. refl;
    put-put = λ rows old n m db. refl;
    put_same = λ n db. refl;
  }

  endpoint_view-IsTable : IsTable (endpoint_view {Value = Value})
  endpoint_view-IsTable = record {
    rows-put = λ rows n db. refl;
    put-put = λ rows old n m db. refl;
    put_same = λ n db. refl;
  }

  pack_view-IsTable : IsTable (pack_view {Value = Value})
  pack_view-IsTable = record {
    rows-put = λ rows n db. refl;
    put-put = λ rows old n m db. refl;
    put_same = λ n db. refl;
  }

  -- Each table is as its seeds leave it.
  pub record AreSettled (algorithms : List (Result AlgorithmSeed Text))
      (endpoints : List (Result EndpointSeed Text))
      (packs : List (Result (Capability × PackSeed Value) Text)) (db : Db Value) : Type 0 where
    pub algorithms_settled : IsSettled algorithm_table (accepted algorithms) db.algorithms
    pub endpoints_settled : IsSettled endpoint_table (accepted endpoints) db.endpoints
    pub packs_settled : IsSettled (pack_table Value) (accepted packs) db.packs

  -- The three loops.
  abbrev pub stages :
      Services
      → List (Result AlgorithmSeed Text)
      → List (Result EndpointSeed Text)
      → List (Result (Capability × PackSeed Value) Text)
      → Seeding Value (Unit {0})
  stages services algorithms endpoints packs = do
    execute_all services algorithm_view algorithms
    execute_all services endpoint_view endpoints
    execute_all services pack_view packs
    pure tt

  module _ (services : Services) (algorithms : List (Result AlgorithmSeed Text))
      (endpoints : List (Result EndpointSeed Text))
      (packs : List (Result (Capability × PackSeed Value) Text)) where
    abbrev pub first : Db Value → Result (Unit {0}) Text × Db Value
    first db = execute_all services algorithm_view algorithms db

    abbrev pub second : Db Value → Result (Unit {0}) Text × Db Value
    second db = execute_all services endpoint_view endpoints (first db).1

    abbrev pub third : Db Value → Result (Unit {0}) Text × Db Value
    third db = execute_all services pack_view packs (second db).1

    pub stages-eq-ok :
        (db : Db Value)
        → (stages services algorithms endpoints packs db).0 ≡ ok tt
        → ((first db).0 ≡ ok tt)
          × ((second db).0 ≡ ok tt)
          × ((third db).0 ≡ ok tt)
          × ((stages services algorithms endpoints packs db).1 ≡ (third db).1)
    stages-eq-ok db h =
        let (_, good1, e1) = went_on (execute_all services algorithm_view algorithms) _ db h in
        let h1 : (rest1 (first db).1).0 ≡ ok tt = sym (ap (λ p. p.0) e1) ∙ h in
        let (_, good2, e2) =
          went_on (execute_all services endpoint_view endpoints) _ (first db).1 h1 in
        let h2 : (rest2 (second db).1).0 ≡ ok tt = sym (ap (λ p. p.0) e2) ∙ h1 in
        let (_, good3, e3) = went_on (execute_all services pack_view packs) _ (second db).1 h2 in
        (good1, good2, good3, ap (λ p. p.1) e1 ∙ ap (λ p. p.1) e2 ∙ ap (λ p. p.1) e3 ∙ last)
      where
        rest2 : Seeding Value (Unit {0})
        rest2 = do execute_all services pack_view packs; pure tt

        rest1 : Seeding Value (Unit {0})
        rest1 = do execute_all services endpoint_view endpoints; rest2

        last : (pure tt (third db).1).1 ≡ (third db).1
        last = unfold pure in refl

    pub stages-AreSettled :
        (db : Db Value)
        → (stages services algorithms endpoints packs db).0 ≡ ok tt
        → AreSettled algorithms endpoints packs (stages services algorithms endpoints packs db).1
    stages-AreSettled db h =
        let (good1, good2, good3, end) = stages-eq-ok db h in
        let (rows1, n1, e1, h1) =
          first_pass algorithm_view algorithm_view-IsTable services algorithms db good1 in
        let (rows2, n2, e2, h2) =
          first_pass endpoint_view endpoint_view-IsTable services endpoints (first db).1 good2 in
        let (rows3, n3, e3, h3) =
          first_pass pack_view pack_view-IsTable services packs (second db).1 good3 in
        let all =
          end ∙ e3 ∙ ap (pack_view.put rows3 n3) (e2 ∙ ap (endpoint_view.put rows2 n2) e1) in
        rw all (record { algorithms_settled = h1; endpoints_settled = h2; packs_settled = h3 })

    -- From settled tables the three loops only move the clock.
    pub stages-settled :
        (old : Db Value)
        → AreSettled algorithms endpoints packs old
        → (stages services algorithms endpoints packs old).0 ≡ ok tt
        → (n : ℕ) × ((stages services algorithms endpoints packs old).1 ≡ record old { clock = n })
    stages-settled old s h =
        let (good1, good2, good3, end) = stages-eq-ok old h in
        let (n1, e1) =
          next_pass algorithm_view algorithm_view-IsTable services algorithms old old old.clock refl
            s.algorithms_settled good1 in
        let (n2, e2) =
          next_pass endpoint_view endpoint_view-IsTable services endpoints old (first old).1 n1 e1
            s.endpoints_settled good2 in
        let (n3, e3) =
          next_pass pack_view pack_view-IsTable services packs old (second old).1 n2 e2
            s.packs_settled good3 in
        (n3, end ∙ e3)
