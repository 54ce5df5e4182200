-- ===== src/Api/Seed/Tables.antt =====
-- The seeds, and the tables that they are written to (services/api/src/seed.rs). The constraints
-- that a statement may violate are those of services/api/migrations/0001_init.sql.
use pqc_sec_inspection_cours.Prelude.{
  ◌≡◌, refl, Bool, true, ◌&&◌, ◌||◌, Option, Text, codes, text_eq, text_eq_iff, ℤ, if◌then◌else◌,
  Result, ok, err,
}
use pqc_sec_inspection_cours.Domain.Status.{Capability, capability_from_str}
use pqc_sec_inspection_cours.Domain.Models.{Algorithm, Endpoint}
use pqc_sec_inspection_cours.Api.Database.{Pack}
use pqc_sec_inspection_cours.Api.Upsert.{Table}
use pqc_sec_inspection_cours.Api.Creation.{is_port}

pub record AlgorithmSeed : Type 0 where
  pub kind : Text
  pub name : Text
  pub display_name : Text
  pub family : Option Text
  pub enabled : Bool
  pub sort_order : ℤ  -- i32

pub record EndpointSeed : Type 0 where
  pub slug : Text
  pub label : Text
  pub label_zh : Text
  pub host : Text
  pub port : ℤ  -- i32
  pub notes : Option Text
  pub enabled : Bool

pub record PackSeed (Value : Type 0) : Type 0 where
  pub slug : Text
  pub capability : Text
  pub parameter_set : Text
  pub vs_id : ℤ  -- i64
  pub prompt : Value
  pub answer_key : Value
  pub registration : Value

pub same_text : (s : Text) → text_eq s s ≡ true
same_text s = (text_eq_iff s s).1 refl

pub same_pair : (s t : Text) → (text_eq s s && text_eq t t) ≡ true
same_pair s t = rw (same_text s, same_text t) refl

-- `ON CONFLICT (kind, name)`
abbrev pub algorithm_table : Table AlgorithmSeed Algorithm
algorithm_table = record {
  conflicts = λ s r. text_eq s.kind r.kind && text_eq s.name r.name;
  fresh_row = λ id s. record {
    id = id;
    kind = s.kind;
    name = s.name;
    display_name = s.display_name;
    family = s.family;
    enabled = s.enabled;
    sort_order = s.sort_order;
  };
  rewritten = λ s r. record r {
    display_name = s.display_name;
    family = s.family;
    enabled = s.enabled;
    sort_order = s.sort_order;
  };
  rewritten-rewritten = λ s t r. refl;
  rewritten-fresh_row = λ id s. refl;
  conflicts-rewritten = λ s t r. refl;
  conflicts-fresh_row = λ id s. same_pair s.kind s.name;
}

-- `ON CONFLICT (slug)`
abbrev pub endpoint_table : Table EndpointSeed Endpoint
endpoint_table = record {
  conflicts = λ s r. text_eq s.slug r.slug;
  fresh_row = λ id s. record {
    id = id;
    slug = s.slug;
    label = s.label;
    label_zh = s.label_zh;
    host = s.host;
    port = s.port;
    notes = s.notes;
    enabled = s.enabled;
  };
  rewritten = λ s r. record r {
    label = s.label;
    label_zh = s.label_zh;
    host = s.host;
    port = s.port;
    notes = s.notes;
    enabled = s.enabled;
  };
  rewritten-rewritten = λ s t r. refl;
  rewritten-fresh_row = λ id s. refl;
  conflicts-rewritten = λ s t r. refl;
  conflicts-fresh_row = λ id s. same_text s.slug;
}

-- `ON CONFLICT (slug)`, with the capability that the text of the seed is cast to.
abbrev pub pack_table : (Value : Type 0) → Table (Capability × PackSeed Value) (Pack Value)
pack_table Value = record {
  conflicts = λ s r. text_eq (s.1).slug r.slug;
  fresh_row = λ id s. record {
    id = id;
    slug = (s.1).slug;
    capability = s.0;
    parameter_set = (s.1).parameter_set;
    vs_id = (s.1).vs_id;
    prompt = (s.1).prompt;
    registration = (s.1).registration;
    answer_key = (s.1).answer_key;
  };
  rewritten = λ s r. record r {
    capability = s.0;
    parameter_set = (s.1).parameter_set;
    vs_id = (s.1).vs_id;
    prompt = (s.1).prompt;
    registration = (s.1).registration;
    answer_key = (s.1).answer_key;
  };
  rewritten-rewritten = λ s t r. refl;
  rewritten-fresh_row = λ id s. refl;
  conflicts-rewritten = λ s t r. refl;
  conflicts-fresh_row = λ id s. same_text (s.1).slug;
}

-- What PostgreSQL accepts of a seed.
unfoldable pub check_algorithm : Text → AlgorithmSeed → Result AlgorithmSeed Text
check_algorithm violated s =
    if text_eq s.kind (codes "kem_group") || text_eq s.kind (codes "sig_alg")
    then ok s
    else err violated

unfoldable pub check_endpoint : Text → EndpointSeed → Result EndpointSeed Text
check_endpoint violated s = if is_port s.port then ok s else err violated

-- `$2::cavp_capability`: the labels of the enumeration are the spellings of `Capability`.
unfoldable pub check_pack :
    {Value : Type 0} → Text → PackSeed Value → Result (Capability × PackSeed Value) Text
check_pack violated s = elim (capability_from_str s.capability) [
  | ok capability ↦ ok (capability, s)
  | err _ ↦ err violated
]
