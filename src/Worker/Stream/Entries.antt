-- ===== src/Worker/Stream/Entries.antt =====
-- The entries of a stream, as they are read and as they are claimed
-- (services/worker/src/stream.rs).
use mathlib.Core.Option
use pqc_sec_inspection_cours.Prelude.{
  if◌then◌else◌, Bool, true, false, All, All-imp, text_eq, ◌≡◌, refl, ap, ◌∙◌, Option, none, some,
  List, [], ◌∷◌, map, append-nil, filter_map, Text, codes, arith, Option-cases, inl, inr,
}
use pqc_sec_inspection_cours.Json.{and_then}
use pqc_sec_inspection_cours.Worker.Adapters.{lookup}
use pqc_sec_inspection_cours.Worker.Stream.{
  Delivery, as_delivery, unwrap_or_default, StreamId, StreamKey, Redis, field_value, collect_entry,
  collect_keys, collect, claimed_pair, claimed_entry, claimed,
}

-- The array that `XAUTOCLAIM` answers for an entry with these fields.
abbrev pub flat : List (Text × Text) → List Text
flat [] = []
flat ((field, value) ∷ rest) = field ∷ value ∷ flat rest

-- The walk over the flat array finds what a search of the entry's fields finds, also where a
-- value spells the name of a field.
pub field_value-flat :
    (fields : List (Text × Text)) (name : Text)
    → field_value (flat fields) name ≡ lookup name fields
unfolding field_value lookup
field_value-flat [] name = refl
field_value-flat ((field, value) ∷ rest) name = ground (arith, field_value-flat rest name)

-- A later field of the name hides this one.
abbrev pub later : Option Text → Bool → Text → Option Text
later (some found) here value = some found
later none true value = some value
later none false value = none

-- What the client's map of an entry's fields has under a name: of two fields of one name, the last.
abbrev pub last_field : Text → List (Text × Text) → Option Text
last_field name [] = none
last_field name ((field, value) ∷ rest) = later (last_field name rest) (text_eq field name) value

-- No two fields have the name: after one, none has it.
abbrev pub HasOnce : Text → List (Text × Text) → Type 0
HasOnce name [] = Unit
HasOnce name ((field, value) ∷ rest) =
    (text_eq field name ≡ true → lookup name rest ≡ none) × HasOnce name rest

later_if :
    (rest : Option Text) (here : Bool) (value : Text)
    → (here ≡ true → rest ≡ none)
    → later rest here value ≡ (if here then some value else rest)
later_if none true value only = refl
later_if none false value only = refl
later_if (some found) true value only = absurd (cc (only refl))
later_if (some found) false value only = refl

last_field-lookup :
    (name : Text) (fields : List (Text × Text))
    → HasOnce name fields
    → last_field name fields ≡ lookup name fields
unfolding lookup
last_field-lookup name [] once = refl
last_field-lookup name ((field, value) ∷ rest) once =
    rw (last_field-lookup name rest once.1)
      (later_if (lookup name rest) (text_eq field name) value once.0)

-- An entry of a stream.
pub record Entry : Type 0 where
  pub id : Text
  pub fields : List (Text × Text)

-- How Redis writes a text and an array, and that the client reads them back.
pub record Wire {Value : Type 0} (redis : Redis Value) : Type 0 where
  pub bulk : Text → Value
  pub array : List Value → Value
  pub elements-array : (values : List Value) → redis.elements (array values) ≡ some values
  pub to_text-bulk : (text : Text) → redis.to_text (bulk text) ≡ some text
  pub to_texts-array : (texts : List Text) → redis.to_texts (array (map bulk texts)) ≡ some texts

-- What is made of an entry: a delivery, if it has a job.
abbrev pub delivery_of : Text → Entry → Option Delivery
delivery_of stream entry = as_delivery stream entry.id (lookup (codes "job") entry.fields)

abbrev pub deliveries : Text → List Entry → List Delivery
deliveries stream entries = filter_map (delivery_of stream) entries

module _ {Value : Type 0} (redis : Redis Value) (wire : Wire redis) where
  open wire use {bulk, array, elements-array, to_text-bulk, to_texts-array}

  -- The answers that hand these entries over: the client has the fields of a new entry in a map.
  abbrev pub handed : Entry → StreamId Value
  handed entry = record {
    id = entry.id;
    field = λ name. Option.map bulk (last_field name entry.fields);
  }

  abbrev pub read_answer : Text → List Entry → Option (List (StreamKey Value))
  read_answer stream entries = some (record { key = stream; ids = map handed entries } ∷ [])

  abbrev pub pair : Entry → Value
  pair entry = array (bulk entry.id ∷ array (map bulk (flat entry.fields)) ∷ [])

  abbrev pub claim_answer : (cursor deleted : Value) → List Entry → Value
  claim_answer cursor deleted entries = array (cursor ∷ array (map pair entries) ∷ deleted ∷ [])

  and_then-bulk : (o : Option Text) → and_then (Option.map bulk o) redis.to_text ≡ o
  and_then-bulk none = refl
  and_then-bulk (some text) = to_text-bulk text

  collect_entry-handed :
      (stream : Text) (entry : Entry)
      → HasOnce (codes "job") entry.fields
      → collect_entry redis stream (handed entry) ≡ delivery_of stream entry
  unfolding collect_entry
  collect_entry-handed stream entry once =
      ap (as_delivery stream entry.id)
        (and_then-bulk (last_field (codes "job") entry.fields) ∙ last_field-lookup _ _ once)

  claimed_entry-pair :
      (stream : Text) (entry : Entry)
      → claimed_entry redis stream (pair entry) ≡ delivery_of stream entry
  unfolding claimed_entry claimed_pair
  claimed_entry-pair stream entry =
      ap (λ o. and_then o (claimed_pair redis stream))
        (elements-array (bulk entry.id ∷ array (map bulk (flat entry.fields)) ∷ []))
      ∙ ap
          (λ o. as_delivery stream (unwrap_or_default o) (
            field_value (unwrap_or_default (redis.to_texts (array (map bulk (flat entry.fields)))))
              (codes "job")))
          (to_text-bulk entry.id)
      ∙ ap (λ o. as_delivery stream entry.id (field_value (unwrap_or_default o) (codes "job")))
          (to_texts-array (flat entry.fields))
      ∙ ap (as_delivery stream entry.id) (field_value-flat entry.fields (codes "job"))

  filter_map-map :
      {A B C : Type 0} (f : B → Option C) (g : A → B) (h : A → Option C) (xs : List A)
      → All (λ x. f (g x) ≡ h x) xs
      → filter_map f (map g xs) ≡ filter_map h xs
  filter_map-map f g h [] same = refl
  filter_map-map f g h (x ∷ xs) same = elim (Option-cases (h x)) [
    | inl e ↦ rw (same.0, e, filter_map) (filter_map-map f g h xs same.1)
    | inr (y, e) ↦
        rw (same.0, e, filter_map) (ap (λ rest. y ∷ rest) (filter_map-map f g h xs same.1))
  ]

  -- An entry that has no two fields `job` is delivered the same whether it is read for the first
  -- time or claimed from a worker that died: with the text under `job`, under its own identifier
  -- and its stream's name; one without such a field is left out. This is for the values that Redis
  -- writes for such entries, and a client that reads texts and arrays of texts back as they were
  -- written.
  pub read-claimed :
      (stream : Text) (entries : List Entry) (cursor deleted : Value)
      → All (λ e. HasOnce (codes "job") e.fields) entries
      → (collect redis (read_answer stream entries) ≡ deliveries stream entries)
        × (claimed redis stream (claim_answer cursor deleted entries) ≡ deliveries stream entries)
  unfolding collect collect_keys claimed
  read-claimed stream entries cursor deleted once = (
    rw (append-nil)
        (filter_map-map _ handed _ entries (All-imp (collect_entry-handed stream) entries once)),
    rw (elements-array (cursor ∷ array (map pair entries) ∷ deleted ∷ [])) (
        rw (elements-array (map pair entries)) (
          filter_map-map _ pair _ entries
            (All-imp (λ e _. claimed_entry-pair stream e) entries once))),
  )
