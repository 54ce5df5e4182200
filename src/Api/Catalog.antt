-- ===== src/Api/Catalog.antt =====
-- The creation of an endpoint (services/api/src/routes/catalog.rs).
pub mod Upserted
use pqc_sec_inspection_cours.Prelude.{
  ℕ, Bool, true, not, Option, List, [], ◌∷◌, is_empty, Text, codes, text_eq, trim, ℤ, if◌then◌else◌,
  reject_if,
}
use pqc_sec_inspection_cours.Domain.Jobs.{Uuid}
use pqc_sec_inspection_cours.Domain.Models.{Endpoint}
use pqc_sec_inspection_cours.Api.Errors.{bad_request}
use pqc_sec_inspection_cours.Api.Database.{
  Db, Services, Handler, pure, lift, ◌>>=◌, ◌>>◌, statement,
}
use pqc_sec_inspection_cours.Api.Creation.{is_port}

pub record NewEndpoint : Type 0 where
  pub slug : Text
  pub label : Text
  pub label_zh : Text
  pub host : Text
  pub port : ℤ  -- i32
  pub notes : Option Text

-- The row of an `INSERT`, and of the `UPDATE` on a conflict.
abbrev pub inserted : Uuid → NewEndpoint → Endpoint
inserted id body = record {
  id = id;
  slug = body.slug;
  label = body.label;
  label_zh = body.label_zh;
  host = body.host;
  port = body.port;
  notes = body.notes;
  enabled = true;
}

abbrev pub overwritten : NewEndpoint → Endpoint → Endpoint
overwritten body row = record row {
  label = body.label;
  label_zh = body.label_zh;
  host = body.host;
  port = body.port;
  notes = body.notes;
}

-- `ON CONFLICT (slug) DO UPDATE`: the row that is returned, and the table.
unfoldable pub upsert : Uuid → NewEndpoint → List Endpoint → Endpoint × List Endpoint
upsert id body [] = (inserted id body, inserted id body ∷ [])
upsert id body (row ∷ rows) =
    let (result, rest) = upsert id body rows in
    if text_eq row.slug body.slug
    then (overwritten body row, overwritten body row ∷ rows)
    else (result, row ∷ rest)

module _ {Value : Type 0} (services : Services) where
  abbrev pub upsert_endpoint : NewEndpoint → Db Value → Endpoint × Db Value
  upsert_endpoint body db =
      let (row, rows) = upsert (services.uuid db.clock 0) body db.endpoints in
      (row, record db { endpoints = rows })

  unfoldable pub create_endpoint : NewEndpoint → Handler Value Endpoint
  create_endpoint body = do
    lift (reject_if (is_empty (trim body.slug)) (bad_request (codes "slug is required")))
    lift (reject_if (not (is_port body.port)) (bad_request (codes "port must be 1-65535")))
    row ← statement services (upsert_endpoint body)
    pure row
