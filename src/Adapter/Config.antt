-- ===== src/Adapter/Config.antt =====
-- The configuration of an adapter and what it advertises (adapters/cli/src/main.rs,
-- adapters/cli/src/server.rs).
use pqc_sec_inspection_cours.Prelude.{
  not, Option, List, [], ◌∷◌, map, filter, is_empty, Text, codes, trim, split_by, split_on,
  unwrap_or,
}
use pqc_sec_inspection_cours.Proto.{Capabilities}

pub record Config : Type 0 where
  pub backend : Text
  pub name : Option Text
  pub bind : Text
  pub client_bin : Text
  pub kem_groups : Text
  pub sig_algs : Text
  pub version : Text
  pub workdir : Option Text

unfoldable pub split_list : Text → List Text
unfolding split_by trim
split_list raw = filter (λ s. not (is_empty s)) (map trim (split_on b',' raw))

abbrev pub adapter_name : Config → Text
adapter_name config = unwrap_or config.backend config.name

abbrev pub kem_group_list : Config → List Text
kem_group_list config = split_list config.kem_groups

abbrev pub sig_alg_list : Config → List Text
sig_alg_list config = split_list config.sig_algs

-- The endpoint `GET /capabilities`
unfoldable pub advertised : Config → Capabilities
unfolding split_list
advertised config = record {
  adapter = adapter_name config;
  version = config.version;
  kem_groups = kem_group_list config;
  sig_algs = sig_alg_list config;
  tls_versions = codes "TLSv1.3" ∷ codes "TLSv1.2" ∷ [];
}
