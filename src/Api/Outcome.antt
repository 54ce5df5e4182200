-- ===== src/Api/Outcome.antt =====
-- Rules for what a handler answers and leaves.
use pqc_sec_inspection_cours.Prelude.{ℕ, ◌≤◌, ◌<◌, ◌≡◌, ◌≢◌, refl, Text, Result, ok, err}
use pqc_sec_inspection_cours.Worker.World.{Fault, works, refused, lost}
use pqc_sec_inspection_cours.Api.Errors.{ApiError, database, redis}
use pqc_sec_inspection_cours.Api.Database.{
  Db, Services, Handler, continue, pure, ◌>>=◌, lift, tick, answer, statement, query, push,
}

-- A call that failed, from the number `since` on and before `until`.
pub record FailedCall (services : Services) (since until : ℕ) : Type 0 where
  pub call : ℕ
  pub after_since : since ≤ call
  pub before_until : call < until
  pub fails : services.fault call ≢ works

pub lost-ne-works : (fault : Fault) (m : Text) → fault ≡ lost m → fault ≢ works
lost-ne-works fault m e = λ q. cc (e, q)

module _ {Value : Type 0} where
  -- `Q` of the answer and of the database that is left.
  unfoldable pub Holds :
      {A : Type 0} → (Result A ApiError → Db Value → Type 0) → Handler Value A → Db Value → Type 0
  Holds Q m db = let (r, after) = m db in Q r after

  module _ {A : Type 0} (Q : Result A ApiError → Db Value → Type 0) where
    pub Holds-pure : (a : A) (db : Db Value) → Q (ok a) db → Holds Q (pure a) db
    unfolding Holds pure
    Holds-pure a db h = h

    -- A part of a handler that is itself made of two.
    continue-assoc :
        {B C : Type 0} (r : Result B ApiError) (f : B → Handler Value C) (g : C → Handler Value A)
        (db : Db Value)
        → Holds Q (continue r (λ b. f b >>= g)) db
        → (let (s, left) = continue r f db in Holds Q (continue s g) left)
    unfolding ◌>>=◌ Holds
    continue-assoc (ok b) f g db h = h
    continue-assoc (err e) f g db h = h

    pub Holds-assoc :
        {B C : Type 0} (m : Handler Value B) (f : B → Handler Value C) (g : C → Handler Value A)
        (db : Db Value)
        → Holds Q (m >>= λ b. f b >>= g) db
        → Holds Q ((m >>= f) >>= g) db
    unfolding ◌>>=◌ Holds
    Holds-assoc m f g db h = continue-assoc (m db).0 f g (m db).1 h

    module _ {B : Type 0} (next : B → Handler Value A) where
      -- A step with this result goes on or ends.
      goes_on :
          (r : Result B ApiError) (db : Db Value)
          → ((b : B) → r ≡ ok b → Holds Q (next b) db)
          → ((e : ApiError) → r ≡ err e → Q (err e) db)
          → Holds Q (continue r next) db
      unfolding Holds
      goes_on (ok b) db h k = h b refl
      goes_on (err e) db h k = k e refl

      call :
          (wrap : Text → ApiError) (fault : Fault) (b : B) (before after : Db Value)
          → Holds Q (next b) after
          → ((e : ApiError) → fault ≢ works → Q (err e) before)
          → ((m : Text) → fault ≡ lost m → Q (err (wrap m)) after)
          → let (r, left) = answer wrap fault (ok b) before after in Holds Q (continue r next) left
      unfolding Holds
      call wrap works b before after h k l = h
      call wrap (refused e) b before after h k l = k (wrap e) (λ q. cc)
      call wrap (lost e) b before after h k l = l e refl

      pub Holds-lift :
          (r : Result B ApiError) (db : Db Value)
          → ((b : B) → r ≡ ok b → Holds Q (next b) db)
          → ((e : ApiError) → r ≡ err e → Q (err e) db)
          → Holds Q (lift r >>= next) db
      unfolding ◌>>=◌ lift Holds
      Holds-lift r db h k = goes_on r db h k

      pub Holds-lift_ok :
          (b : B) (db : Db Value) → Holds Q (next b) db → Holds Q (lift (ok b) >>= next) db
      unfolding ◌>>=◌ lift Holds
      Holds-lift_ok b db h = h

      module _ (services : Services) where
        pub Holds-query :
            (f : Db Value → B) (db : Db Value)
            → Holds Q (next (f db)) (tick db)
            → ((e : ApiError) → services.fault db.clock ≢ works → Q (err e) (tick db))
            → Holds Q (query services f >>= next) db
        unfolding ◌>>=◌ query Holds
        Holds-query f db h k =
            call database (services.fault db.clock) (f db) (tick db) (tick db) h k
              (λ m e. k (database m) (lost-ne-works _ m e))

        pub Holds-statement :
            (f : Db Value → B × Db Value) (db : Db Value)
            → Holds Q (next (f (tick db)).0) (f (tick db)).1
            → ((e : ApiError) → services.fault db.clock ≢ works → Q (err e) (tick db))
            → ((m : Text) → services.fault db.clock ≡ lost m → Q (err (database m)) (f (tick db)).1)
            → Holds Q (statement services f >>= next) db
        unfolding ◌>>=◌ statement Holds
        Holds-statement f db h k l =
            call database (services.fault db.clock) (f (tick db)).0 (tick db) (f (tick db)).1 h k l

    module _ (next : Unit {0} → Handler Value A) (services : Services) where
      pub Holds-push :
          (f : Db Value → Db Value) (db : Db Value)
          → Holds Q (next tt) (f (tick db))
          → ((e : ApiError) → services.fault db.clock ≢ works → Q (err e) (tick db))
          → ((m : Text) → services.fault db.clock ≡ lost m → Q (err (redis m)) (f (tick db)))
          → Holds Q (push services f >>= next) db
      unfolding ◌>>=◌ push Holds
      Holds-push f db h k l =
          call next redis (services.fault db.clock) tt (tick db) (f (tick db)) h k l
