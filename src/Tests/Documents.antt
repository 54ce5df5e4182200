-- ===== src/Tests/Documents.antt =====
-- A small JSON value, and `hex::decode` on texts: concrete instances of the parameters of the
-- grader.
use pqc_sec_inspection_cours.Prelude.{
  ℕ, ◌+◌, ◌*◌, ◌-◌, Bool, Option, none, some, List, [], ◌∷◌, Text, codes, text_eq, leb, ◌&&◌,
  if◌then◌else◌, is_empty, ℤ, Result, ok, err,
}
use pqc_sec_inspection_cours.Json.{Json}

mutual
  pub data Doc : Type 0 where
    null : Doc
    truth : Bool → Doc
    number : ℤ → Doc
    string : Text → Doc
    array : Docs → Doc
    object : Fields → Doc

  pub data Docs : Type 0 where
    no_docs : Docs
    cons : Doc → Docs → Docs

  pub data Fields : Type 0 where
    no_fields : Fields
    field : Text → Doc → Fields → Fields

abbrev to_list : Docs → List Doc
to_list no_docs = []
to_list (cons d ds) = d ∷ to_list ds

unfoldable pub find_field : Fields → Text → Option Doc
find_field no_fields name = none
find_field (field k d fs) name =
    let rest = find_field fs name in if text_eq k name then some d else rest

abbrev get_field : Doc → Text → Option Doc
get_field (object fs) name = find_field fs name
get_field _ name = none

abbrev to_text : Doc → Option Text
to_text (string s) = some s
to_text _ = none

abbrev to_int : Doc → Option ℤ
to_int (number n) = some n
to_int _ = none

abbrev to_bool : Doc → Option Bool
to_bool (truth b) = some b
to_bool _ = none

abbrev to_array : Doc → Option (List Doc)
to_array (array ds) = some (to_list ds)
to_array _ = none

abbrev to_object : Doc → Option Fields
to_object (object fs) = some fs
to_object _ = none

-- A library that reads one document: a text that is not empty is `document`.
abbrev pub reads : Doc → Json
reads document = record {
  Value = Doc;
  Map = Fields;
  null = Doc.null;
  from_str = λ text. if is_empty text then err (codes "EOF while parsing a value") else ok document;
  get = get_field;
  map_get = find_field;
  as_str = to_text;
  as_i64 = to_int;
  as_bool = to_bool;
  as_array = to_array;
  as_object = to_object;
}

abbrev digit : ℕ → Option ℕ
digit c =
    if leb b'0' c && leb c b'9'
    then some (c - b'0')
    else if leb b'a' c && leb c b'f'
    then some (c - b'a' + 10)
    else if leb b'A' c && leb c b'F'
    then some (c - b'A' + 10)
    else none

abbrev byte : Option ℕ → Option ℕ → Result (List ℕ) Text → Result (List ℕ) Text
byte (some a) (some b) (ok bytes) = ok ((16 * a + b) ∷ bytes)
byte (some a) (some b) (err e) = err e
byte _ _ _ = err (codes "Invalid character")

-- Two digits for each byte.
unfoldable pub unhex : Text → Result (List ℕ) Text
unhex [] = ok []
unhex (a ∷ []) = err (codes "Odd number of digits")
unhex (a ∷ b ∷ s) = byte (digit a) (digit b) (unhex s)
