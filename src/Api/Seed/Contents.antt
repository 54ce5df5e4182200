-- ===== src/Api/Seed/Contents.antt =====
-- What the seeding makes of an endpoint (services/api/src/seed.rs).
use pqc_sec_inspection_cours.Prelude.{
  ◌≡◌, refl, sym, ap, ◌∙◌, subst, true, false, inl, inr, List, [], ◌∷◌, ◌++◌, map, All, Some, Text,
  codes, text_eq, text_eq_iff, Bool-cases, Result, ok,
}
use pqc_sec_inspection_cours.Domain.Models.{Endpoint}
use pqc_sec_inspection_cours.Api.Database.{Db, Services}
use pqc_sec_inspection_cours.Api.Creation.{is_port}
use pqc_sec_inspection_cours.Api.Upsert.{IsSettled}
use pqc_sec_inspection_cours.Api.Upsert.Last.{last_wins}
use pqc_sec_inspection_cours.Api.Seed.{Files, run, read_json, endpoint_view}
use pqc_sec_inspection_cours.Api.Seed.Tables.{EndpointSeed, endpoint_table, check_endpoint}
use pqc_sec_inspection_cours.Api.Seed.Loops.{accepted, IsOk, execute_all-IsOk}
use pqc_sec_inspection_cours.Api.Seed.Stages.{stages-eq-ok}
use pqc_sec_inspection_cours.Api.Seed.Repeated.{
  checked_algorithms, checked_endpoints, checked_packs, run_loops, run_reads, run-AreSettled,
}

-- Endpoints that PostgreSQL accepts are stored as they are, and have a port.
accepted_endpoints :
    (violated : Text) (seeds : List EndpointSeed)
    → All IsOk (map (check_endpoint violated) seeds)
    → (accepted (map (check_endpoint violated) seeds) ≡ seeds)
      × All (λ s. is_port s.port ≡ true) seeds
unfolding check_endpoint
accepted_endpoints violated [] h = (refl, tt)
accepted_endpoints violated (s ∷ seeds) h = elim (Bool-cases (is_port s.port)) [
  | inl e ↦
      (let (same, ports) = accepted_endpoints violated seeds h.1 in
        (rw e (ap (λ rest. s ∷ rest) same), (e, ports)))
  | inr e ↦ absurd (rw e at h.0)
]

-- The row has the name of the seed and what the seed says of it.
abbrev pub IsRowOf : EndpointSeed → Endpoint → Type 0
IsRowOf s e =
    (e.slug ≡ s.slug)
    × (e.label ≡ s.label)
    × (e.label_zh ≡ s.label_zh)
    × (e.host ≡ s.host)
    × (e.port ≡ s.port)
    × (e.notes ≡ s.notes)
    × (e.enabled ≡ s.enabled)

row_of :
    (s : EndpointSeed) (e : Endpoint)
    → text_eq s.slug e.slug ≡ true
    → endpoint_table.rewritten s e ≡ e
    → IsRowOf s e
row_of s e hit same = (
  sym ((text_eq_iff s.slug e.slug).0 hit),
  sym (ap (λ (r : Endpoint). r.label) same),
  sym (ap (λ (r : Endpoint). r.label_zh) same),
  sym (ap (λ (r : Endpoint). r.host) same),
  sym (ap (λ (r : Endpoint). r.port) same),
  sym (ap (λ (r : Endpoint). r.notes) same),
  sym (ap (λ (r : Endpoint). r.enabled) same),
)

Some_row :
    (s : EndpointSeed) (rows : List Endpoint)
    → Some (λ e. (text_eq s.slug e.slug ≡ true) × (endpoint_table.rewritten s e ≡ e)) rows
    → Some (IsRowOf s) rows
Some_row s [] h = h
Some_row s (e ∷ rows) (inl h) = inl (row_of s e h.0 h.1)
Some_row s (e ∷ rows) (inr h) = inr (Some_row s rows h)

port_of :
    (pre : List EndpointSeed) (s : EndpointSeed) (post : List EndpointSeed)
    → All (λ t. is_port t.port ≡ true) (pre ++ s ∷ post)
    → is_port s.port ≡ true
port_of [] s post h = h.0
port_of (t ∷ pre) s post h = port_of pre s post h.1

same_list : {A : Type 0} (xs ys : List A) → ◌≡◌ {A = Result (List A) Text} (ok xs) (ok ys) → xs ≡ ys
same_list xs ys h = cc

module _ {Value : Type 0} (files : Files Value) (dir : Text) where
  -- A seeding that ends well has given the endpoints what their file says: an endpoint that no
  -- later entry of the file names has a port from 1 to 65535, and a row of its name with its
  -- label, host, port, notes and flag, whatever was stored under that name before.
  pub run-endpoint :
      (services : Services) (db : Db Value) (pre : List EndpointSeed) (s : EndpointSeed)
      (post : List EndpointSeed)
      → read_json files files.endpoints (files.path dir (codes "endpoints.json"))
        ≡ ok (pre ++ s ∷ post)
      → All (λ t. text_eq t.slug s.slug ≡ false) post
      → (run files services dir db).0 ≡ ok tt
      → (is_port s.port ≡ true) × Some (IsRowOf s) (run files services dir db).1.endpoints
  run-endpoint services db pre s post reads last h =
      let seeds = run_reads files dir services db h in
      let listed = same_list seeds.endpoints (pre ++ s ∷ post) (sym seeds.endpoints_read ∙ reads) in
      let good =
        stages-eq-ok services (checked_algorithms files dir seeds)
          (checked_endpoints files dir seeds) (checked_packs files dir seeds) db
          (sym (ap (λ p. p.0) (run_loops files dir seeds services db)) ∙ h) in
      let (same, ports) =
        accepted_endpoints files.violated seeds.endpoints
          (execute_all-IsOk services endpoint_view (checked_endpoints files dir seeds) _ good.1) in
      let rows = (run files services dir db).1.endpoints in
      let settled =
        subst (λ l. IsSettled endpoint_table l rows) (same ∙ listed)
          (run-AreSettled files dir seeds services db h).endpoints_settled in
      (
        port_of pre s post (subst (All (λ t. is_port t.port ≡ true)) listed ports),
        Some_row s rows (
            last_wins endpoint_table pre s post
              (λ r hit.
                subst (λ name. All (λ t. text_eq t.slug name ≡ false) post)
                  ((text_eq_iff s.slug r.slug).0 hit) last)
              rows settled),
      )
