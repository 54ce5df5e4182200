-- ===== src/Tests/Seed.antt =====
-- The seeding on concrete files.
use pqc_sec_inspection_cours.Prelude.{
  ◌≡◌, refl, ℕ, true, none, some, List, [], ◌∷◌, ◌++◌, Some, Text, codes, text_eq, pos, Result, ok,
}
use pqc_sec_inspection_cours.Domain.Status.{capability_from_str}
use pqc_sec_inspection_cours.Api.Database.{Db}
use pqc_sec_inspection_cours.Api.Creation.{is_port}
use pqc_sec_inspection_cours.Api.Upsert.{upsert_row}
use pqc_sec_inspection_cours.Api.Seed.Tables.{
  EndpointSeed, check_algorithm, check_endpoint, check_pack,
}
use pqc_sec_inspection_cours.Api.Seed.{
  Files, run, read_json, execute_all, execute, lift, pure, ◌>>=◌,
}
use pqc_sec_inspection_cours.Api.Seed.Repeated.{run-run}
use pqc_sec_inspection_cours.Api.Seed.Contents.{IsRowOf, run-endpoint}
use pqc_sec_inspection_cours.Tests.Documents.{Doc}
use pqc_sec_inspection_cours.Tests.Laboratory.{healthy, database}

abbrev seed : Text → Text → EndpointSeed
seed slug host = record {
  slug = slug;
  label = slug;
  label_zh = slug;
  host = host;
  port = pos 11_000;
  notes = none;
  enabled = true;
}

-- The file names the endpoint `lab` twice, and one that the database does not have.
abbrev before : List EndpointSeed
before = seed (codes "lab") (codes "tls-old") ∷ seed (codes "good") (codes "tls-good") ∷ []

abbrev lab : EndpointSeed
lab = seed (codes "lab") (codes "tls-lab")

abbrev files : Files Doc
files = record {
  path = λ dir name. dir ++ (codes "/" ++ name);
  contents = λ path. ok [];
  algorithms = λ bytes. ok (
      record {
        kind = codes "kem_group";
        name = codes "mlkem768";
        display_name = codes "ML-KEM-768";
        family = some (codes "kyber");
        enabled = true;
        sort_order = pos 1;
      }
      ∷ []);
  endpoints = λ bytes. ok (before ++ lab ∷ []);
  packs = λ bytes. ok (
      record {
        slug = codes "mldsa";
        capability = codes "sig_gen";
        parameter_set = codes "ML-DSA-65";
        vs_id = pos 8;
        prompt = Doc.null;
        answer_key = Doc.null;
        registration = Doc.null;
      }
      ∷ []);
  violated = codes "violates check constraint";
}

abbrev seeded : Result (Unit {0}) Text × Db Doc
seeded = run files healthy (codes "/app/seeds") database

run-run_example :
    (n : ℕ) × ((run files healthy (codes "/app/seeds") seeded.1).1 ≡ record seeded.1 { clock = n })
unfolding run read_json lift ◌>>=◌ execute_all execute pure upsert_row check_algorithm
    check_endpoint check_pack capability_from_str codes text_eq
run-run_example = run-run files (codes "/app/seeds") healthy healthy database refl refl

run-endpoint_example : (is_port (pos 11_000) ≡ true) × Some (IsRowOf lab) seeded.1.endpoints
unfolding run read_json lift ◌>>=◌ execute_all execute pure upsert_row check_algorithm
    check_endpoint check_pack capability_from_str codes text_eq
run-endpoint_example =
    run-endpoint files (codes "/app/seeds") healthy database before lab [] refl tt refl
