-- ===== src/Api/Errors.antt =====
-- The error of every handler and the answer that it becomes (services/api/src/error.rs).
use pqc_sec_inspection_cours.Prelude.{
  Option, none, some, ok_or, refl, Bool, true, false, reject_if, ◌≡◌, Result, ok, err, ℕ, Text,
  ◌++◌, codes,
}

-- `row_not_found` is `Database` of `sqlx::Error::RowNotFound`, `database` of any other error.
pub data ApiError : Type 0 where
  bad_request : (reason : Text) → ApiError
  not_found : (what : Text) → ApiError
  conflict : (reason : Text) → ApiError
  row_not_found : ApiError
  database redis json other : (error : Text) → ApiError

-- `into_response`: the status and the text under `error`.
unfoldable pub into_response : ApiError → ℕ × Text
into_response (bad_request reason) = (400, reason)
into_response (not_found what) = (404, what ++ codes " not found")
into_response (conflict reason) = (409, reason)
into_response row_not_found = (404, codes "not found")
into_response (database _) = (500, codes "internal error")
into_response (redis _) = (500, codes "internal error")
into_response (json _) = (500, codes "internal error")
into_response (other _) = (500, codes "internal error")

-- An error of a library, as an error of the API.
abbrev pub map_err : {A E : Type 0} → (E → ApiError) → Result A E → Result A ApiError
map_err f (ok a) = ok a
map_err f (err e) = err (f e)

pub map_err-eq-ok :
    {A E : Type 0} (f : E → ApiError) (r : Result A E) (a : A) → map_err f r ≡ ok a → r ≡ ok a
map_err-eq-ok f (ok a) b h = cc
map_err-eq-ok f (err e) b h = cc

pub map_err-eq-err :
    {A E : Type 0} (f : E → ApiError) (r : Result A E) (e : ApiError)
    → map_err f r ≡ err e
    → (x : E) × (r ≡ err x)
map_err-eq-err f (ok a) e h = cc
map_err-eq-err f (err x) e h = (x, refl)

pub ok_or-eq-err : {A : Type 0} (o : Option A) (x e : ApiError) → ok_or o x ≡ err e → o ≡ none
ok_or-eq-err none x e h = refl
ok_or-eq-err (some a) x e h = cc

-- A check that rejects.
pub reject_if-eq-err : {E : Type 0} (b : Bool) (x e : E) → reject_if b x ≡ err e → b ≡ true
reject_if-eq-err true x e h = refl
reject_if-eq-err false x e h = cc

-- A check that does not reject.
pub reject_if-eq-ok : {E : Type 0} (b : Bool) (e : E) → reject_if b e ≡ ok tt → b ≡ false
reject_if-eq-ok true e h = cc
reject_if-eq-ok false e h = refl
