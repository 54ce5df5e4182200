-- ===== src/Worker/Settings.antt =====
-- The worker's configuration (services/worker/src/config.rs).
pub mod Lookup
use pqc_sec_inspection_cours.Prelude.{
  Each, filter_map-All, ◌≡◌, ◌≢◌, refl, sym, ap, subst, Option-cases, ◌∙◌, arith, inl, inr, Bool,
  true, false, ℕ, not, ◌&&◌, Option, none, some, List, [], ◌∷◌, All, filter_map, is_empty, Text,
  codes, text_eq, text_eq_iff, trim, split_by, split_on, split_once, or_else, ltb, ◌==◌, Bool-cases,
  if◌then◌else◌,
}
use pqc_sec_inspection_cours.Json.{and_then}
use pqc_sec_inspection_cours.Worker.Adapters.{lookup}

pub record Config : Type 0 where
  pub database_url : Text
  pub redis_url : Text
  pub adapters : Text
  pub concurrency : ℕ
  pub name : Text
  pub probe_timeout_ms : ℕ
  pub claim_stale_ms : ℕ

-- What clap fills in where only the address of the database is given.
abbrev pub default_config : Text → Config
default_config database_url = record {
  database_url = database_url;
  redis_url = codes "redis://redis:6379";
  adapters =
      codes
        "openssl=http://adapter-openssl:9100,boringssl=http://adapter-boringssl:9100,wolfssl=http://adapter-wolfssl:9100,go=http://adapter-go:9100";
  concurrency = 8;
  name = codes "worker-1";
  probe_timeout_ms = 15_000;
  claim_stale_ms = 120_000;
}

-- `s.trim_end_matches('/')`
unfoldable pub trim_slashes : Text → Text
trim_slashes [] = []
trim_slashes (c ∷ s) =
    let rest = trim_slashes s in if c == b'/' && is_empty rest then [] else c ∷ rest

abbrev pub kept : Text × Text → Option (Text × Text)
kept (name, url) = if not (is_empty name) && not (is_empty url) then some (name, url) else none

abbrev pub cleaned : Text × Text → Text × Text
cleaned (name, url) = (trim name, trim_slashes (trim url))

unfoldable pub entry_of : Text → Option (Text × Text)
entry_of entry = and_then (split_once entry (codes "=")) (λ parts. kept (cleaned parts))

-- The order of texts, by their code points.
unfoldable pub text_lt : Text → Text → Bool
text_lt s [] = false
text_lt [] (_ ∷ _) = true
text_lt (a ∷ s) (b ∷ t) = let rest = text_lt s t in if a == b then rest else ltb a b

-- `BTreeMap::insert`, on the list of the entries in the order of their keys.
unfoldable pub insert_key : Text × Text → List (Text × Text) → List (Text × Text)
insert_key (k, v) [] = (k, v) ∷ []
insert_key (k, v) ((j, w) ∷ m) =
    let rest = insert_key (k, v) m in
    if text_eq j k then (k, v) ∷ m else if text_lt k j then (k, v) ∷ (j, w) ∷ m else (j, w) ∷ rest

unfoldable pub collect_from : List (Text × Text) → List (Text × Text) → List (Text × Text)
unfolding insert_key
collect_from m [] = m
collect_from m (e ∷ entries) = collect_from (insert_key e m) entries

abbrev pub entries_of : Text → List (Text × Text)
entries_of adapters = filter_map entry_of (split_on b',' adapters)

-- `Config::adapter_map`
unfoldable pub adapter_map : Config → List (Text × Text)
unfolding collect_from
adapter_map config = collect_from [] (entries_of config.adapters)

-- In milliseconds.
abbrev pub probe_timeout : Config → ℕ
probe_timeout config = config.probe_timeout_ms
