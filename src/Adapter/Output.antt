-- ===== src/Adapter/Output.antt =====
-- What is read off the output of a client (adapters/cli/src/backend.rs).
pub mod Bounds
use pqc_sec_inspection_cours.Prelude.{
  ℕ, ◌-◌, ◌^◌, Bool, true, false, not, ◌&&◌, ◌||◌, Option, none, some, List, [], ◌∷◌, ◌++◌, map,
  find, find_map, filter_map, head?, take, is_empty, Text, codes, text_eq, trim, trim_start,
  contains, join, to_ascii_lowercase, eq_ignore_ascii_case, split_by, split_on, lines, words,
  strip_prefix, split_once, find_from, parse_unsigned, ◌==◌, if◌then◌else◌,
}
use pqc_sec_inspection_cours.Json.{and_then}
use pqc_sec_inspection_cours.Proto.{Alert, Certificate, HttpOutcome, MessageField, single}

-- `(!s.is_empty()).then(|| s)`
abbrev pub nonempty : Text → Option Text
nonempty [] = none
nonempty (c ∷ s) = some (c ∷ s)

unfoldable pub value_in : Text → Text → Option Text
value_in needle line = and_then (split_once line needle) (λ parts. nonempty (trim parts.1))

unfoldable pub value_after : Text → Text → Option Text
unfolding value_in
value_after haystack needle = find_map (value_in needle) (lines haystack)

unfoldable pub alert_description : ℕ → Text
alert_description number =
    if number == 0
    then codes "close_notify"
    else if number == 10
    then codes "unexpected_message"
    else if number == 20
    then codes "bad_record_mac"
    else if number == 40
    then codes "handshake_failure"
    else if number == 42
    then codes "bad_certificate"
    else if number == 47
    then codes "illegal_parameter"
    else if number == 48
    then codes "unknown_ca"
    else if number == 50
    then codes "decode_error"
    else if number == 51
    then codes "decrypt_error"
    else if number == 70
    then codes "protocol_version"
    else if number == 71
    then codes "insufficient_security"
    else if number == 80
    then codes "internal_error"
    else if number == 109
    then codes "missing_extension"
    else if number == 112
    then codes "unrecognized_name"
    else if number == 116
    then codes "certificate_required"
    else if number == 120
    then codes "no_application_protocol"
    else codes "unknown"

abbrev pub fatal : Text → Alert
fatal description = record { level = codes "fatal"; description = description }

abbrev pub u16_max : ℕ
u16_max = 2 ^ 16 - 1

abbrev pub u64_max : ℕ
u64_max = 2 ^ 64 - 1

-- The alert of a line that gives its number: none where the number is not one.
unfoldable pub numbered_alert : Text → Option Alert
numbered_alert rest =
    and_then (and_then (head? (words rest)) (parse_unsigned u16_max))
      (λ number. some (fatal (alert_description number)))

abbrev pub printed_alerts : List Text
printed_alerts =
    codes "handshake_failure"
    ∷ codes "bad_record_mac"
    ∷ codes "illegal_parameter"
    ∷ codes "protocol_version"
    ∷ []

unfoldable pub named_alert : Text → Option Alert
named_alert text =
    and_then (find (λ name. contains text name) printed_alerts) (λ name. some (fatal name))

unfoldable pub parse_alert : Text → Option Alert
parse_alert text = elim (value_after text (codes "SSL alert number ")) [
  | some rest ↦ numbered_alert rest
  | none ↦ named_alert text
]

abbrev pub header_of : Text × Text → MessageField
header_of (name, value) = single (trim name) (trim value)

-- The loop over the lines after the status line: the headers, and the lines after the first that
-- is blank.
unfoldable pub read_headers : List Text → List MessageField × List Text
read_headers [] = ([], [])
read_headers (line ∷ more) =
    let (headers, body) = read_headers more in
    if is_empty (trim line) then ([], more) else elim (split_once line (codes ":")) [
      | none ↦ (headers, body)
      | some header ↦ (header_of header ∷ headers, body)
    ]

unfoldable pub excerpt : Text → Option Text
excerpt body = if is_empty (trim body) then none else some (take 512 body)

abbrev pub second : List Text → Option Text
second [] = none
second (_ ∷ []) = none
second (_ ∷ w ∷ _) = some w

unfoldable pub status_of : Text → Option ℕ
status_of line = and_then (second (words line)) (parse_unsigned u16_max)

unfoldable pub http_of : List Text → Option HttpOutcome
unfolding read_headers excerpt status_of
http_of [] = none
http_of (status_line ∷ more) = and_then (status_of status_line) λ status.
    let (headers, body) = read_headers more in
    some (record {
      status = status;
      headers = headers;
      body_excerpt = excerpt (join (codes "\n") body);
    })

unfoldable pub parse_http : Text → Option HttpOutcome
unfolding http_of
parse_http text = and_then (find_from text (codes "HTTP/1.")) (λ block. http_of (lines block))

abbrev pub drop_numeric : (ℕ → Bool) → Text → Option Text
drop_numeric numeric [] = none
drop_numeric numeric (c ∷ s) = if numeric c then some s else none

abbrev pub names_of : Text → Option (Text × Text) → Text × Text
names_of subject none = (trim subject, [])
names_of subject (some (s, i)) = (trim s, trim i)

abbrev pub bare_certificate : Text × Text → Certificate
bare_certificate (subject, issuer) = record {
  subject = subject;
  issuer = issuer;
  not_before = none;
  not_after = none;
  signature_algorithm = none;
  public_key_algorithm = none;
  sha256_fingerprint = none;
}

-- The test `numeric` is `char::is_numeric`, a table of Unicode.
unfoldable pub certificate_line : (ℕ → Bool) → Text → Option Certificate
certificate_line numeric line = and_then (drop_numeric numeric (trim line)) λ rest.
    and_then (strip_prefix (trim_start rest) (codes "s:"))
      λ subject. some (bare_certificate (names_of subject (split_once subject (codes " i:"))))

unfoldable pub parse_openssl_certs : (ℕ → Bool) → Text → List Certificate
unfolding certificate_line
parse_openssl_certs numeric stdout = filter_map (certificate_line numeric) (lines stdout)

-- Written and read, where the line has two numbers or more.
abbrev pub counts_of : List ℕ → ℕ × ℕ
counts_of (read ∷ written ∷ _) = (written, read)
counts_of _ = (0, 0)

unfoldable pub byte_counts : Text → ℕ × ℕ
byte_counts text = elim (find (λ l. contains l (codes "SSL handshake has read")) (lines text)) [
  | none ↦ (0, 0)
  | some line ↦ counts_of (filter_map (parse_unsigned u64_max) (words line))
]

abbrev pub is_mechanism : Text → Bool
is_mechanism part =
    eq_ignore_ascii_case part (codes "ECDH") || eq_ignore_ascii_case part (codes "ECDHE")

unfoldable pub group_field : Text → List Text → Text
group_field value [] = value
group_field value (first ∷ []) = first
group_field value (first ∷ group ∷ _) = if is_mechanism first then group else first

unfoldable pub strip_key_size : Text → Text
unfolding group_field
strip_key_size value = group_field value (map trim (split_on b',' value))

unfoldable pub explains : Text → Bool
explains line =
    let lower = to_ascii_lowercase line in
    contains lower (codes "error")
    || contains lower (codes "alert")
    || contains lower (codes "failed")

unfoldable pub first_error_line : Text → Option Text
unfolding explains
first_error_line text =
    and_then (find explains (map trim (lines text))) (λ line. some (take 300 line))
