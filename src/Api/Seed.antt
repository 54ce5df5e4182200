-- ===== src/Api/Seed.antt =====
-- The seeding of the catalog, the endpoints and the question packs (services/api/src/seed.rs).
-- Every statement is a transaction of its own. Reading a file and decoding its JSON are
-- parameters.
pub mod Tables
pub mod Loops
pub mod Passes
pub mod Stages
pub mod Repeated
pub mod Contents
use pqc_sec_inspection_cours.Prelude.{
  ℕ, suc, List, [], ◌∷◌, ◌++◌, map, Text, codes, Result, ok, err,
}
use pqc_sec_inspection_cours.Domain.Jobs.{Uuid}
use pqc_sec_inspection_cours.Domain.Models.{Algorithm, Endpoint}
use pqc_sec_inspection_cours.Domain.Status.{Capability}
use pqc_sec_inspection_cours.Worker.World.{Fault, works, refused, lost}
use pqc_sec_inspection_cours.Api.Database.{Db, Services, Pack, tick}
use pqc_sec_inspection_cours.Api.Upsert.{Table, upsert_row}
use pqc_sec_inspection_cours.Api.Seed.Tables.{
  AlgorithmSeed, EndpointSeed, PackSeed, algorithm_table, endpoint_table, pack_table,
  check_algorithm, check_endpoint, check_pack,
}

-- The file system and `serde_json`: how a path below the directory prints, what a file holds, and
-- what it decodes to. `violated` is how the violation of a constraint prints.
pub record Files (Value : Type 0) : Type 0 where
  pub path : (dir name : Text) → Text
  pub contents : Text → Result Text Text
  pub algorithms : Text → Result (List AlgorithmSeed) Text
  pub endpoints : Text → Result (List EndpointSeed) Text
  pub packs : Text → Result (List (PackSeed Value)) Text
  pub violated : Text

-- `anyhow::Result`, with the error as it prints.
abbrev pub Seeding : Type 0 → Type 0 → Type 0
Seeding Value A = Db Value → Result A Text × Db Value

-- A table of the database.
pub record View (Value Seed Row : Type 0) : Type 0 where
  pub table : Table Seed Row
  pub rows : Db Value → List Row
  pub put : List Row → ℕ → Db Value → Db Value

module _ {Value : Type 0} where
  unfoldable pub pure : {A : Type 0} → A → Seeding Value A
  pure a db = (ok a, db)

  abbrev pub continue :
      {A B : Type 0} → Result A Text → (A → Seeding Value B) → Db Value → Result B Text × Db Value
  continue (ok a) f db = f a db
  continue (err e) f db = (err e, db)

  infixl 5 ◌>>=◌ ◌>>◌
  unfoldable pub ◌>>=◌ : {A B : Type 0} → Seeding Value A → (A → Seeding Value B) → Seeding Value B
  ◌>>=◌ m f db = let (r, db') = m db in continue r f db'

  abbrev pub ◌>>◌ : {A B : Type 0} → Seeding Value A → Seeding Value B → Seeding Value B
  m >> n = m >>= λ _. n

  unfoldable pub lift : {A : Type 0} → Result A Text → Seeding Value A
  lift r db = (r, db)

  abbrev pub answer :
      Fault → Result (Unit {0}) Text → (before after : Db Value) → Result (Unit {0}) Text × Db Value
  answer works r before after = (r, after)
  answer (refused e) r before after = (err e, before)
  answer (lost e) r before after = (err e, after)

  abbrev pub algorithm_view : View Value AlgorithmSeed Algorithm
  algorithm_view = record {
    table = algorithm_table;
    rows = λ db. db.algorithms;
    put = λ rows n db. record db { algorithms = rows; clock = n };
  }

  abbrev pub endpoint_view : View Value EndpointSeed Endpoint
  endpoint_view = record {
    table = endpoint_table;
    rows = λ db. db.endpoints;
    put = λ rows n db. record db { endpoints = rows; clock = n };
  }

  abbrev pub pack_view : View Value (Capability × PackSeed Value) (Pack Value)
  pack_view = record {
    table = pack_table Value;
    rows = λ db. db.packs;
    put = λ rows n db. record db { packs = rows; clock = n };
  }

  module _ (services : Services) {Seed Row : Type 0} (view : View Value Seed Row) where
    -- One statement: a seed that the database does not accept changes nothing.
    unfoldable pub execute : Result Seed Text → Seeding Value (Unit {0})
    execute (ok s) db = answer (services.fault db.clock) (ok tt) (tick db) (
        view.put (upsert_row view.table (services.uuid db.clock 0) s (view.rows db)) (suc db.clock)
          db)
    execute (err e) db = answer (services.fault db.clock) (err e) (tick db) (tick db)

    unfoldable pub execute_all : List (Result Seed Text) → Seeding Value (Unit {0})
    execute_all [] = pure tt
    execute_all (s ∷ seeds) = do execute s; execute_all seeds

  module _ (files : Files Value) where
    unfoldable pub read_json :
        {A : Type 0} → (Text → Result (List A) Text) → Text → Result (List A) Text
    read_json decode path = elim (files.contents path) [
      | ok bytes ↦ decode bytes
      | err e ↦ err (codes "cannot read seed file " ++ (path ++ (codes ": " ++ e)))
    ]

    unfoldable pub run : Services → Text → Seeding Value (Unit {0})
    run services dir = do
      algorithms ← lift (read_json files.algorithms (files.path dir (codes "algorithms.json")))
      execute_all services algorithm_view (map (check_algorithm files.violated) algorithms)
      endpoints ← lift (read_json files.endpoints (files.path dir (codes "endpoints.json")))
      execute_all services endpoint_view (map (check_endpoint files.violated) endpoints)
      packs ← lift (read_json files.packs (files.path dir (codes "cavp_packs.json")))
      execute_all services pack_view (map (check_pack files.violated) packs)
      pure tt
