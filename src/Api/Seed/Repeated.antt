-- ===== src/Api/Seed/Repeated.antt =====
-- Seeding once and seeding again (services/api/src/seed.rs).
use pqc_sec_inspection_cours.Prelude.{
  ℕ, ◌≡◌, refl, sym, ap, ◌∙◌, subst, List, map, Text, codes, Result, ok,
}
use pqc_sec_inspection_cours.Domain.Status.{Capability}
use pqc_sec_inspection_cours.Api.Database.{Db, Services}
use pqc_sec_inspection_cours.Api.Seed.Tables.{
  AlgorithmSeed, EndpointSeed, PackSeed, check_algorithm, check_endpoint, check_pack,
}
use pqc_sec_inspection_cours.Api.Seed.Stages.{stages, AreSettled, stages-AreSettled, stages-settled}
use pqc_sec_inspection_cours.Api.Seed.Loops.{went_on}
use pqc_sec_inspection_cours.Api.Seed.{
  Files, Seeding, ◌>>=◌, lift, read_json, run, execute_all, algorithm_view, endpoint_view,
}

module _ {Value : Type 0} (files : Files Value) (dir : Text) where
  -- What the three files hold.
  pub record Seeds : Type 0 where
    pub algorithms : List AlgorithmSeed
    pub endpoints : List EndpointSeed
    pub packs : List (PackSeed Value)
    pub algorithms_read :
        read_json files files.algorithms (files.path dir (codes "algorithms.json")) ≡ ok algorithms
    pub endpoints_read :
        read_json files files.endpoints (files.path dir (codes "endpoints.json")) ≡ ok endpoints
    pub packs_read :
        read_json files files.packs (files.path dir (codes "cavp_packs.json")) ≡ ok packs

  abbrev pub checked_algorithms : Seeds → List (Result AlgorithmSeed Text)
  checked_algorithms s = map (check_algorithm files.violated) s.algorithms

  abbrev pub checked_endpoints : Seeds → List (Result EndpointSeed Text)
  checked_endpoints s = map (check_endpoint files.violated) s.endpoints

  abbrev pub checked_packs : Seeds → List (Result (Capability × PackSeed Value) Text)
  checked_packs s = map (check_pack files.violated) s.packs

  abbrev loops : Seeds → Services → Seeding Value (Unit {0})
  loops s services = stages services (checked_algorithms s) (checked_endpoints s) (checked_packs s)

  pub run_loops :
      (s : Seeds) (services : Services) (db : Db Value)
      → run files services dir db ≡ loops s services db
  unfolding run lift ◌>>=◌
  run_loops s services db = rw (s.algorithms_read, s.endpoints_read, s.packs_read) refl

  -- A seeding that ends well has read its files.
  pub run_reads :
      (services : Services) (db : Db Value) → (run files services dir db).0 ≡ ok tt → Seeds
  unfolding run lift
  run_reads services db h =
      let (algorithms, read1, e1) =
        went_on (lift (read_json files files.algorithms (files.path dir (codes "algorithms.json"))))
          _ db h in
      let h1 = sym (ap (λ p. p.0) e1) ∙ h in
      let (_, good1, f1) =
        went_on
          (execute_all services algorithm_view (map (check_algorithm files.violated) algorithms)) _
          db h1 in
      let h2 = sym (ap (λ p. p.0) f1) ∙ h1 in
      let (endpoints, read2, e2) =
        went_on (lift (read_json files files.endpoints (files.path dir (codes "endpoints.json")))) _
          _ h2 in
      let h3 = sym (ap (λ p. p.0) e2) ∙ h2 in
      let (_, good2, f2) =
        went_on (execute_all services endpoint_view (map (check_endpoint files.violated) endpoints))
          _ _ h3 in
      let h4 = sym (ap (λ p. p.0) f2) ∙ h3 in
      let (packs, read3, e3) =
        went_on (lift (read_json files files.packs (files.path dir (codes "cavp_packs.json")))) _ _
          h4 in
      record {
        algorithms = algorithms;
        endpoints = endpoints;
        packs = packs;
        algorithms_read = read1;
        endpoints_read = read2;
        packs_read = read3;
      }

  pub run-AreSettled :
      (s : Seeds) (services : Services) (db : Db Value)
      → (run files services dir db).0 ≡ ok tt
      → AreSettled
          (checked_algorithms s)
          (checked_endpoints s)
          (checked_packs s)
          (run files services dir db).1
  run-AreSettled s services db h =
      subst (λ m. AreSettled (checked_algorithms s) (checked_endpoints s) (checked_packs s) m.1)
        (sym (run_loops s services db))
        (stages-AreSettled services (checked_algorithms s) (checked_endpoints s) (checked_packs s)
          db (sym (ap (λ p. p.0) (run_loops s services db)) ∙ h))

  -- Seeding a second time with the same files changes nothing but the clock, whatever the tables
  -- held before the first time and whatever names the seeds share: where both seedings end well,
  -- the second leaves every row as the first left it.
  pub run-run :
      (services again : Services) (db : Db Value)
      → (run files services dir db).0 ≡ ok tt
      → (run files again dir (run files services dir db).1).0 ≡ ok tt
      → (n : ℕ) × ((run files again dir (run files services dir db).1).1
          ≡ record (run files services dir db).1 { clock = n })
  run-run services again db h k =
      let s = run_reads services db h in
      let left = (run files services dir db).1 in
      let settled = run-AreSettled s services db h in
      let second = run_loops s again left in
      let (n, e) =
        stages-settled again (checked_algorithms s) (checked_endpoints s) (checked_packs s) left
          settled (sym (ap (λ p. p.0) second) ∙ k) in
      (n, ap (λ p. p.1) second ∙ e)
