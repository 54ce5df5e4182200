-- ===== src/Api/Cavp.antt =====
-- The packs of questions and the sessions (services/api/src/routes/cavp.rs).
pub mod Sessions
use pqc_sec_inspection_cours.Prelude.{
  ℕ, Bool, false, Option, none, some, List, [], ◌∷◌, ◌++◌, find, update_where, unwrap_or, Text,
  codes, text_eq, show_int, ◌==◌, ℤ, pos, int_eq, Result, ok, err, ok_or, if◌then◌else◌,
}
use pqc_sec_inspection_cours.Json.{Json, and_then}
use pqc_sec_inspection_cours.Domain.Status.{Capability}
use pqc_sec_inspection_cours.Domain.Jobs.{Uuid}
use pqc_sec_inspection_cours.Cavp.Report.{
  ValidateError, unknown_parameter_set, mode_mismatch, vs_id_mismatch, missing_test_groups,
  ValidationReport, AnswerKey,
}
use pqc_sec_inspection_cours.Cavp.Grade.{validate}
use pqc_sec_inspection_cours.Api.Errors.{ApiError, bad_request, not_found, json, map_err}
use pqc_sec_inspection_cours.Api.Database.{
  Db, Pack, Session, Services, Handler, pure, lift, ◌>>=◌, ◌>>◌, statement, query, one,
}

-- `Display`
unfoldable pub reason_of : ValidateError → Text
reason_of (ValidateError.json e) = codes "results payload is not valid JSON: " ++ e
reason_of (unknown_parameter_set name) = codes "unknown parameter set " ++ name
reason_of (mode_mismatch got want) =
    codes "results are for " ++ (got ++ (codes ", expected " ++ want))
reason_of (vs_id_mismatch got want) =
    codes "results are for vsId " ++ (show_int got ++ (codes ", expected " ++ show_int want))
reason_of missing_test_groups = codes "results are missing the testGroups array"

pub record PackDetail (Value : Type 0) : Type 0 where
  pub slug : Text
  pub capability : Capability
  pub parameter_set : Text
  pub vs_id : ℤ
  pub registration : Value
  pub prompt : Value
  pub example : Value

pub record SessionDetail (Value : Type 0) : Type 0 where
  pub id : Uuid
  pub slug : Text
  pub capability : Capability
  pub parameter_set : Text
  pub vs_id : ℤ
  pub prompt : Value
  pub submitted : Option Value
  pub validation : Option Value

-- `unwrap_or` of a result
abbrev pub ok_or_else : {Value : Type 0} → Value → Result Value Text → Value
ok_or_else other (ok value) = value
ok_or_else other (err _) = other

-- `UPDATE cavp_sessions SET submitted = $2, validation = $3 WHERE id = $1`
abbrev pub store :
    {Value : Type 0} → Uuid → (submitted validation : Value) → Db Value → Unit {0} × Db Value
store id submitted validation db = (
  tt,
  record db {
    sessions =
        update_where (λ s. s.id == id)
          (λ s. record s { submitted = some submitted; validation = some validation }) db.sessions;
  },
)

-- The parameters: `hex::decode`, and the conversions of an answer key and of a report.
module _ (j : Json) (decode : Text → Result (List ℕ) Text) (services : Services)
    (from_value : Json.Value j → Result AnswerKey Text)
    (to_value : ValidationReport → Result (Json.Value j) Text) where
  open j use {Value, null, from_str, get, as_i64, as_array}

  unfoldable pub is_first_case : Value → Bool
  is_first_case c = elim (and_then (get c (codes "tcId")) as_i64) [
    | none ↦ false
    | some n ↦ int_eq n (pos 1)
  ]

  unfoldable pub example_answer : Value → Value
  example_answer answer_key = unwrap_or null (
      and_then (and_then (get answer_key (codes "cases")) as_array)
        (λ cases. find is_first_case cases))

  unfoldable pub fetch_pack : Text → Handler Value (Pack Value)
  fetch_pack slug = do
    row ← query services (λ db. find (λ p. text_eq p.slug slug) db.packs)
    lift (ok_or row (not_found (codes "cavp pack")))

  unfoldable pub get_pack : Text → Handler Value (PackDetail Value)
  get_pack slug = do
    pack ← fetch_pack slug
    pure (record {
      slug = slug;
      capability = pack.capability;
      parameter_set = pack.parameter_set;
      vs_id = pack.vs_id;
      registration = pack.registration;
      prompt = pack.prompt;
      example = example_answer pack.answer_key;
    })

  abbrev pub new_session : Pack Value → Uuid → Db Value → Session Value
  new_session pack pack_id db = record {
    id = services.uuid db.clock 0;
    pack_id = pack_id;
    capability = pack.capability;
    parameter_set = pack.parameter_set;
    vs_id = pack.vs_id;
    prompt = pack.prompt;
    submitted = none;
    validation = none;
  }

  abbrev pub insert_session : Session Value → Db Value → Uuid × Db Value
  insert_session session db = (session.id, record db { sessions = db.sessions ++ session ∷ [] })

  unfoldable pub create_session : Text → Handler Value (SessionDetail Value)
  create_session slug = do
    pack ← fetch_pack slug
    row ← query services (λ db. find (λ p. text_eq p.slug slug) db.packs)
    again ← lift (one row)
    id ← statement services (λ db. insert_session (new_session pack again.id db) db)
    pure (record {
      id = id;
      slug = slug;
      capability = pack.capability;
      parameter_set = pack.parameter_set;
      vs_id = pack.vs_id;
      prompt = pack.prompt;
      submitted = none;
      validation = none;
    })

  -- The row of the join of a session and its pack.
  unfoldable pub detail_of : Db Value → Uuid → Option (SessionDetail Value)
  detail_of db id = and_then (find (λ s. s.id == id) db.sessions) λ s.
      and_then (find (λ p. p.id == s.pack_id) db.packs) λ p. some (record {
        id = s.id;
        slug = p.slug;
        capability = s.capability;
        parameter_set = s.parameter_set;
        vs_id = s.vs_id;
        prompt = s.prompt;
        submitted = s.submitted;
        validation = s.validation;
      })

  unfoldable pub get_session : Uuid → Handler Value (SessionDetail Value)
  get_session id = do
    row ← query services (λ db. detail_of db id)
    lift (ok_or row (not_found (codes "cavp session")))

  unfoldable pub validate_session : Uuid → Text → Handler Value ValidationReport
  validate_session id results = do
    session ← query services (λ db. find (λ s. s.id == id) db.sessions)
    s ← lift (ok_or session (not_found (codes "cavp session")))
    pack ← query services (λ db. find (λ p. p.id == s.pack_id) db.packs)
    p ← lift (one pack)
    key ← lift (map_err json (from_value p.answer_key))
    report ← lift (map_err (λ e. bad_request (reason_of e)) (validate j decode results key))
    validation ← lift (map_err json (to_value report))
    statement services (store id (ok_or_else null (from_str results)) validation)
    pure report
