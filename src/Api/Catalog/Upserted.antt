-- ===== src/Api/Catalog/Upserted.antt =====
-- What the creation of an endpoint leaves (services/api/src/routes/catalog.rs).
use pqc_sec_inspection_cours.Prelude.{
  ◌≢◌, ◌≡◌, refl, ap, ◌∙◌, ◌⊎◌, inl, inr, Bool, true, false, not, Option, none, some, List, [], ◌∷◌,
  find, is_empty, is_empty_iff, Text, text_eq, text_eq_iff, trim, Bool-cases, Result, ok, err,
  if◌then◌else◌,
}
use pqc_sec_inspection_cours.Domain.Jobs.{Uuid}
use pqc_sec_inspection_cours.Domain.Models.{Endpoint}
use pqc_sec_inspection_cours.Api.Errors.{ApiError, database, reject_if-eq-ok, reject_if-eq-err}
use pqc_sec_inspection_cours.Worker.World.{works, lost}
use pqc_sec_inspection_cours.Api.Database.{Db, Services}
use pqc_sec_inspection_cours.Api.Outcome.{Holds, Holds-lift, Holds-statement, Holds-pure}
use pqc_sec_inspection_cours.Api.Creation.{is_port, is_port-bounds, bounds-is_port, IsPort}
use pqc_sec_inspection_cours.Api.Catalog.{NewEndpoint, overwritten, upsert, create_endpoint}

abbrev pub by_slug : Text → List Endpoint → Option Endpoint
by_slug slug rows = find (λ e. text_eq e.slug slug) rows

-- The endpoint of the name before, if there was one: its flag is kept.
abbrev pub flag_of : Option Endpoint → Bool
flag_of none = true
flag_of (some row) = row.enabled

-- The table after, against the table before.
abbrev pub Replaces : NewEndpoint → Endpoint → (before after : List Endpoint) → Type 0
Replaces body row before after =
    (by_slug body.slug after ≡ some row)
    × (row.host ≡ body.host)
    × (row.port ≡ body.port)
    × (row.label ≡ body.label)
    × (row.notes ≡ body.notes)
    × (row.enabled ≡ flag_of (by_slug body.slug before))
    × ((other : Text)
        → text_eq body.slug other ≡ false
        → by_slug other after ≡ by_slug other before)

same_slug : (slug : Text) → text_eq slug slug ≡ true
same_slug slug = (text_eq_iff slug slug).1 refl

upsert-hit :
    (id : Uuid) (body : NewEndpoint) (row : Endpoint) (rows : List Endpoint)
    → text_eq row.slug body.slug ≡ true
    → upsert id body (row ∷ rows) ≡ (overwritten body row, overwritten body row ∷ rows)
unfolding upsert
upsert-hit id body row rows h = rw (h, upsert) refl

upsert-miss :
    (id : Uuid) (body : NewEndpoint) (row : Endpoint) (rows : List Endpoint)
    → text_eq row.slug body.slug ≡ false
    → upsert id body (row ∷ rows) ≡ ((upsert id body rows).0, row ∷ (upsert id body rows).1)
unfolding upsert
upsert-miss id body row rows h = rw (h, upsert) refl

upsert-Replaces :
    (id : Uuid) (body : NewEndpoint) (rows : List Endpoint)
    → Replaces body (upsert id body rows).0 rows (upsert id body rows).1
upsert-Replaces id body [] =
    (unfold upsert in
      (rw (same_slug body.slug) refl, refl, refl, refl, refl, refl, λ other h. rw h refl))
upsert-Replaces id body (row ∷ rows) = elim (Bool-cases (text_eq row.slug body.slug)) [
  | inl e ↦ rw (upsert-hit id body row rows e) (
    rw e refl,
    refl,
    refl,
    refl,
    refl,
    rw e refl,
    λ other h. rw (ap (λ t. text_eq t other) ((text_eq_iff row.slug body.slug).0 e) ∙ h) refl,
  )
  | inr e ↦
      (let (found, host, port, label, notes, flag, others) = upsert-Replaces id body rows in
        rw (upsert-miss id body row rows e) (
          rw e found,
          host,
          port,
          label,
          notes,
          rw e flag,
          λ other h. ap (λ o. if text_eq row.slug other then some row else o) (others other h),
        ))
]

-- A request whose name is not blank and whose port is from 1 to 65535.
pub record IsValid (body : NewEndpoint) : Type 0 where
  pub named : trim body.slug ≢ []
  pub port : IsPort body.port

-- The endpoint of a valid request is stored.
abbrev pub IsStored : NewEndpoint → Endpoint → (before after : List Endpoint) → Type 0
IsStored body row before after = IsValid body × Replaces body row before after

-- An endpoint is answered when it is stored. An error is answered when nothing is stored, for a
-- request that is not valid or by a call that failed, or when an endpoint is stored and the answer of that statement is lost; it is then the error of the answer that
-- was lost.
abbrev pub Upserted :
    {Value : Type 0}
    → Services
    → NewEndpoint
    → Db Value
    → Result Endpoint ApiError
    → Db Value
    → Type 0
Upserted services body db (ok row) after = IsStored body row db.endpoints after.endpoints
Upserted services body db (err e) after =
    ((after.endpoints ≡ db.endpoints) × ((¬ IsValid body) ⊎ (services.fault db.clock ≢ works)))
    ⊎ ((row : Endpoint) × IsStored body row db.endpoints after.endpoints
        × (m : Text) × (services.fault db.clock ≡ lost m)
        × (e ≡ database m))

-- Whatever calls fail on the way: an endpoint is answered only when its name is not blank and its
-- port is from 1 to 65535, and then it is what its name finds, with the host, the port, the label
-- and the notes of the request; whether it is enabled stays as it was, and a new endpoint is; and
-- every other name finds what it found. When an error is answered, no endpoint is changed, and the
-- name is blank, the port is none of these or the call of the database failed; or the same was
-- stored for such a request, the database's answer to the storing was lost, and that is the error.
pub create_endpoint-Upserted :
    {Value : Type 0} (services : Services) (body : NewEndpoint) (db : Db Value)
    → Holds (Upserted services body db) (create_endpoint services body) db
unfolding create_endpoint
create_endpoint-Upserted services body db =
    let stored = upsert-Replaces _ body db.endpoints in
    Holds-lift _ _ _ db
      (λ _ named.
        Holds-lift _ _ _ _
          (λ _ ported.
            Holds-statement _ _ services _ _
              (Holds-pure _ _ _
                (valid (reject_if-eq-ok _ _ named) (reject_if-eq-ok _ _ ported), stored))
              (λ e f. inl (refl, inr f))
              (λ m f. inr (
                _,
                (valid (reject_if-eq-ok _ _ named) (reject_if-eq-ok _ _ ported), stored),
                m,
                f,
                refl,
              )))
          (λ e h. inl (refl, inl (no_port (reject_if-eq-err _ _ _ h)))))
      (λ e h. inl (refl, inl (blank (reject_if-eq-err _ _ _ h))))
  where
    blank : is_empty (trim body.slug) ≡ true → ¬ IsValid body
    blank h v = v.named ((is_empty_iff (trim body.slug)).0 h)

    no_port : not (is_port body.port) ≡ true → ¬ IsValid body
    no_port h v = absurd (cc (h, bounds-is_port body.port v.port))

    not_blank : (t : Text) → is_empty t ≡ false → t ≢ []
    not_blank [] h = cc
    not_blank (c ∷ t) h = λ e. cc

    valid : is_empty (trim body.slug) ≡ false → not (is_port body.port) ≡ false → IsValid body
    valid named ported = record {
      named = not_blank (trim body.slug) named;
      port = is_port-bounds body.port ported;
    }
