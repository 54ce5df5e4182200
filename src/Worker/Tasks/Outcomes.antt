-- ===== src/Worker/Tasks/Outcomes.antt =====
-- Rules for all that an action may come to: its value and the world that it leaves, or the world
-- that an error leaves.
use pqc_sec_inspection_cours.Prelude.{Text, Result, ok, err}
use pqc_sec_inspection_cours.Worker.World.{
  Fault, works, refused, lost, World, Env, Action, pure, continue, answer, tick, ◌>>=◌, perform,
  query,
}

module _ {Json : Type 0} where
  abbrev pub Comes :
      {A : Type 0}
      → (A → World Json → Type 0)
      → (World Json → Type 0)
      → Result A Text × World Json
      → Type 0
  Comes Q R (ok a, w) = Q a w
  Comes Q R (err e, w) = R w

  pub record Ends {A : Type 0} (m : Action Json A) (w : World Json) (Q : A → World Json → Type 0)
      (R : World Json → Type 0) : Type 0 where
    pub comes : Comes Q R (m w)

  pub Ends-pure :
      {A : Type 0} {Q : A → World Json → Type 0} {R : World Json → Type 0} (a : A) (w : World Json)
      → Q a w
      → Ends (pure a) w Q R
  unfolding pure
  Ends-pure a w q = record { comes = q }

  pub Ends-bind :
      {A B : Type 0} {Q : A → World Json → Type 0} {S : B → World Json → Type 0}
      {R : World Json → Type 0} (m : Action Json A) (f : A → Action Json B) (w : World Json)
      → Ends m w Q R
      → ((a : A) (u : World Json) → Q a u → Ends (f a) u S R)
      → Ends (m >>= f) w S R
  unfolding ◌>>=◌
  Ends-bind {A = A} {Q = Q} {S = S} {R = R} m f w h k = record { comes = cases (m w) h.comes }
    where
      cases : (r : Result A Text × World Json) → Comes Q R r → Comes S R (continue r.0 f r.1)
      cases (ok a, u) q = (k a u q).comes
      cases (err e, u) q = q

  module _ (env : Env Json) where
    pub Ends-perform :
        {Q : Unit {0} → World Json → Type 0} {R : World Json → Type 0} (f : World Json → World Json)
        (w : World Json)
        → Q tt (f (tick w))
        → R (tick w)
        → R (f (tick w))
        → Ends (perform env f) w Q R
    unfolding perform
    Ends-perform {Q = Q} {R = R} f w q r s = record { comes = cases (env.fault w.clock) }
      where
        cases : (fault : Fault) → Comes Q R (answer fault (ok tt) (tick w) (f (tick w)))
        cases works = q
        cases (refused e) = r
        cases (lost e) = s

    pub Ends-query :
        {A : Type 0} {Q : A → World Json → Type 0} {R : World Json → Type 0} (f : World Json → A)
        (w : World Json)
        → Q (f w) (tick w)
        → R (tick w)
        → Ends (query env f) w Q R
    unfolding query
    Ends-query {Q = Q} {R = R} f w q r = record { comes = cases (env.fault w.clock) }
      where
        cases : (fault : Fault) → Comes Q R (answer fault (ok (f w)) (tick w) (tick w))
        cases works = q
        cases (refused e) = r
        cases (lost e) = r
