-- ===== src/Prelude/Outcome.antt =====
-- Rust's `Result<T, E>`, with its binds for `do` blocks.
use mathlib.Core.Path.{◌≡◌, refl}
use mathlib.Core.Logic.{◌⊎◌, inl, inr, ◌↔◌}
use mathlib.Core.Bool.{Bool, true, false, not}
use mathlib.Core.Option.{Option, none, some}

pub data Result {ℓ κ} (A : Type ℓ) (E : Type κ) : Type (ℓ ⊔ κ) where
  ok : A → Result A E
  err : E → Result A E

-- The `?` operator. `abbrev`, so that `ok a >>= f` computes wherever it stands.
infixl 5 ◌>>=◌ ◌>>◌
abbrev pub ◌>>=◌ {ℓ κ μ} :
    {A : Type ℓ} {B : Type κ} {E : Type μ} → Result A E → (A → Result B E) → Result B E
ok a >>= f = f a
err e >>= f = err e

abbrev pub ◌>>◌ {κ μ} : {B : Type κ} {E : Type μ} → Result (Unit {0}) E → Result B E → Result B E
m >> k = m >>= λ _. k

-- `if test { return Err(e) }`
abbrev pub reject_if {μ} : {E : Type μ} → Bool → E → Result (Unit {0}) E
reject_if true e = err e
reject_if false e = ok tt

-- `ok_or`
abbrev pub ok_or {ℓ μ} : {A : Type ℓ} {E : Type μ} → Option A → E → Result A E
ok_or none e = err e
ok_or (some a) e = ok a

-- A split on a computed result that keeps the equation.
pub Result-cases {ℓ μ} :
    {A : Type ℓ} {E : Type μ} (r : Result A E) → ((a : A) × (r ≡ ok a)) ⊎ ((e : E) × (r ≡ err e))
Result-cases (ok a) = inl (a, refl)
Result-cases (err e) = inr (e, refl)

-- A `?` that goes on to a result had one: what comes after gives it.
module _ {ℓ κ μ} {A : Type ℓ} {B : Type κ} {E : Type μ} {b : B} where
  pub >>=-eq-ok :
      (r : Result A E) (next : A → Result B E)
      → (r >>= next) ≡ ok b
      → (a : A) × (next a ≡ ok b) × (r ≡ ok a)
  >>=-eq-ok (err e) next p = cc
  >>=-eq-ok (ok a) next p = (a, p, refl)

pub ok_or-eq-ok {ℓ μ} :
    {A : Type ℓ} {E : Type μ} (o : Option A) (e : E) {a : A} → ok_or o e ≡ ok a → o ≡ some a
ok_or-eq-ok none e h = cc
ok_or-eq-ok (some a) e h = cc

-- `if !test { return Err(e) }` goes on exactly when the test passes.
pub reject_if-not_iff {μ} :
    {E : Type μ} (b : Bool) (e : E) → (reject_if (not b) e ≡ ok tt) ↔ (b ≡ true)
reject_if-not_iff true e = (λ _. refl, λ _. refl)
reject_if-not_iff false e = (λ h. cc, λ h. cc)
