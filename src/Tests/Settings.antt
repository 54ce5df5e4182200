-- ===== src/Tests/Settings.antt =====
-- The worker's configuration on concrete inputs.
use pqc_sec_inspection_cours.Prelude.{
  ◌≡◌, refl, some, [], ◌∷◌, map, Text, codes, text_eq, split_by, split_once, strip_prefix, trim,
}
use pqc_sec_inspection_cours.Worker.Adapters.{lookup}
use pqc_sec_inspection_cours.Worker.Settings.{
  Config, default_config, adapter_map, entries_of, entry_of, trim_slashes, text_lt, insert_key,
}
use pqc_sec_inspection_cours.Worker.Settings.Lookup.{last_value, IsKept, lookup-adapter_map}

-- The later of two entries for one name counts, and slashes at the end are cut off.
abbrev addresses : Text
addresses = codes "openssl=http://a:9100/, go = http://b:9100 ,broken,openssl=http://c:9100//"

abbrev configured : Config
configured = record (default_config (codes "postgres://x")) { adapters = addresses }

addresses_run :
    adapter_map configured
    ≡ (codes "go", codes "http://b:9100") ∷ (codes "openssl", codes "http://c:9100") ∷ []
unfolding adapter_map codes split_by entry_of split_once strip_prefix trim trim_slashes text_eq
    text_lt insert_key
addresses_run = refl

-- The configuration that is shipped runs the four adapters.
default_addresses_run :
    map (λ b. b.0) (adapter_map (default_config (codes "postgres://x")))
    ≡ codes "boringssl" ∷ codes "go" ∷ codes "openssl" ∷ codes "wolfssl" ∷ []
unfolding adapter_map codes split_by entry_of split_once strip_prefix trim trim_slashes text_eq
    text_lt insert_key
default_addresses_run = refl

lookup-adapter_map_example :
    (lookup (codes "openssl") (adapter_map configured)
      ≡ last_value (codes "openssl") (entries_of configured.adapters))
    × ((url : Text)
        → lookup (codes "openssl") (adapter_map configured) ≡ some url
        → IsKept (codes "openssl") url)
lookup-adapter_map_example = lookup-adapter_map configured (codes "openssl")
