-- ===== src/Worker/Stream.antt =====
-- The consumer group on the job streams (services/worker/src/stream.rs). Redis is a parameter:
-- what its commands answer, call by call, and how its values convert.
pub mod Entries
use pqc_sec_inspection_cours.Prelude.{
  ◌≡◌, refl, ℕ, Option, none, some, List, [], ◌∷◌, ◌++◌, map, filter_map, contains, Text, codes,
  text_eq, show_nat, if◌then◌else◌, arith, Result, ok, err,
}
use pqc_sec_inspection_cours.Domain.Jobs.{consumer_group}
use pqc_sec_inspection_cours.Json.{and_then}
use pqc_sec_inspection_cours.Worker.Adapters.{lookup}
use pqc_sec_inspection_cours.Worker.World.{World, Action, pure, fail, ◌>>=◌, tick}

pub record Delivery : Type 0 where
  pub stream : Text
  pub id : Text
  pub payload : Text

-- What `XREADGROUP` answers, as the client hands it over: for each stream its entries.
pub record StreamId (Value : Type 0) : Type 0 where
  pub id : Text
  pub field : Text → Option Value

pub record StreamKey (Value : Type 0) : Type 0 where
  pub key : Text
  pub ids : List (StreamId Value)

-- The client: the elements of an array, `from_redis_value` into a text and into texts, and what
-- the commands answer at a call.
pub record Redis (Value : Type 0) : Type 0 where
  pub elements : Value → Option (List Value)
  pub to_text : Value → Option Text
  pub to_texts : Value → Option (List Text)
  pub create_group : ℕ → (arguments : List Text) → Result Text Text
  pub read_group :
      ℕ
      → (group consumer : Text) (block_ms count : ℕ) (streams ids : List Text)
      → Result (Option (List (StreamKey Value))) Text
  pub auto_claim : ℕ → (arguments : List Text) → Result Value Text

-- The first pair whose first half is `name`; a last pair may lack its second half.
unfoldable pub field_value : List Text → Text → Option Text
field_value [] name = none
field_value (field ∷ []) name = none
field_value (field ∷ value ∷ rest) name =
    let found = field_value rest name in if text_eq field name then some value else found

abbrev pub unwrap_or_default : {A : Type 0} → Option (List A) → List A
unwrap_or_default none = []
unwrap_or_default (some xs) = xs

-- An entry with a job is a delivery.
abbrev pub as_delivery : (stream id : Text) → Option Text → Option Delivery
as_delivery stream id none = none
as_delivery stream id (some payload) = some (record { stream = stream; id = id; payload = payload })

module _ {Value : Type 0} (redis : Redis Value) where
  -- An answer at the number of the call.
  unfoldable pub ask : {Json A : Type 0} → (ℕ → Result A Text) → Action Json A
  ask f w = (f w.clock, tick w)

  -- The error that means "already there" is tolerated.
  abbrev pub tolerated : Result Text Text → Result (Unit {0}) Text
  tolerated (ok _) = ok tt
  tolerated (err e) = if contains e (codes "BUSYGROUP") then ok tt else err e

  unfoldable pub ensure_group : {Json : Type 0} → Text → Action Json (Unit {0})
  ensure_group stream = ask λ n. tolerated (
      redis.create_group n
        (codes "CREATE" ∷ stream ∷ consumer_group ∷ codes "$" ∷ codes "MKSTREAM" ∷ []))

  unfoldable pub collect_entry : Text → StreamId Value → Option Delivery
  collect_entry key entry =
      as_delivery key entry.id (and_then (entry.field (codes "job")) redis.to_text)

  unfoldable pub collect_keys : List (StreamKey Value) → List Delivery
  collect_keys [] = []
  collect_keys (key ∷ keys) = filter_map (collect_entry key.key) key.ids ++ collect_keys keys

  unfoldable pub collect : Option (List (StreamKey Value)) → List Delivery
  collect none = []
  collect (some keys) = collect_keys keys

  unfoldable pub read :
      {Json : Type 0} → List Text → Text → (block_ms count : ℕ) → Action Json (List Delivery)
  read streams consumer block_ms count = do
    reply ← ask (λ n.
        redis.read_group n consumer_group consumer block_ms count streams
          (map (λ _. codes ">") streams))
    pure (collect reply)

  -- One entry of `XAUTOCLAIM`'s answer: a pair of an identifier and a flat array of fields.
  unfoldable pub claimed_pair : Text → List Value → Option Delivery
  claimed_pair stream [] = none
  claimed_pair stream (_ ∷ []) = none
  claimed_pair stream (id ∷ fields ∷ _) =
      as_delivery stream (unwrap_or_default (redis.to_text id))
        (field_value (unwrap_or_default (redis.to_texts fields)) (codes "job"))

  unfoldable pub claimed_entry : Text → Value → Option Delivery
  claimed_entry stream entry = and_then (redis.elements entry) (claimed_pair stream)

  -- The second part of the answer has the entries.
  abbrev pub second_part : List Value → Option Value
  second_part (_ ∷ part ∷ _) = some part
  second_part _ = none

  unfoldable pub claimed : Text → Value → List Delivery
  claimed stream reply =
      filter_map (claimed_entry stream)
        (unwrap_or_default (and_then (and_then (redis.elements reply) second_part) redis.elements))

  unfoldable pub autoclaim :
      {Json : Type 0} → Text → Text → (min_idle_ms : ℕ) → Action Json (List Delivery)
  autoclaim stream consumer min_idle_ms = do
    reply ← ask (λ n. redis.auto_claim n (
        stream
        ∷ consumer_group
        ∷ consumer
        ∷ show_nat min_idle_ms
        ∷ codes "0-0"
        ∷ codes "COUNT"
        ∷ show_nat 16
        ∷ []))
    pure (claimed stream reply)
