-- ===== src/Json.antt =====
-- The JSON library `serde_json`, of which the sources call these operations. They are
-- parameters: `Value` is `serde_json::Value` and `Map` is `serde_json::Map<String, Value>`.
use pqc_sec_inspection_cours.Prelude.{Bool, Option, none, some, List, Text, Result, ℤ}

pub record Json : Type 1 where
  pub Value : Type 0
  pub Map : Type 0
  pub null : Value
  pub from_str : Text → Result Value Text
  pub get : Value → Text → Option Value
  pub map_get : Map → Text → Option Value
  pub as_str : Value → Option Text
  pub as_i64 : Value → Option ℤ
  pub as_bool : Value → Option Bool
  pub as_array : Value → Option (List Value)
  pub as_object : Value → Option Map

-- `and_then`
abbrev pub and_then {ℓ κ} : {A : Type ℓ} {B : Type κ} → Option A → (A → Option B) → Option B
and_then none f = none
and_then (some a) f = f a
