-- ===== src/Worker/Rules.antt =====
-- Rules for the worker's actions: invariants that hold whatever the environment does, and
-- outcomes where every call works.
use pqc_sec_inspection_cours.Prelude.{
  ℕ, ◌≡◌, refl, Bool, true, false, List, [], ◌∷◌, Text, if◌then◌else◌, Result, ok, err, All,
  update_where, Bool-cases, inl, inr,
}
use pqc_sec_inspection_cours.Worker.World.{
  World, Env, Fault, works, refused, lost, Action, pure, ◌>>=◌, continue, answer, tick, perform,
  query, insert,
}

module _ {Json : Type 0} where
  -- `m` keeps `P`, whether it returns or fails.
  pub record Keeps {A : Type 0} (P : World Json → Type 0) (m : Action Json A) : Type 0 where
    pub at : (w : World Json) → P w → P (m w).1

  -- `m` returns from `w` with `Q` of its value and of the world that it leaves.
  pub record Yields {A : Type 0} (m : Action Json A) (w : World Json) (Q : A → World Json → Type 0)
      : Type 0 where
    pub value : A
    pub returns : (m w).0 ≡ ok value
    pub post : Q value (m w).1

  pub Keeps-pure : {A : Type 0} {P : World Json → Type 0} (value : A) → Keeps P (pure value)
  unfolding pure
  Keeps-pure value = record { at = λ _ kept. kept }

  Keeps-continue :
      {A B : Type 0} {P : World Json → Type 0} (r : Result A Text) (f : A → Action Json B)
      (w : World Json)
      → ((a : A) → Keeps P (f a))
      → P w
      → P (continue r f w).1
  Keeps-continue (ok a) f w kf h = (kf a).at w h
  Keeps-continue (err e) f w kf h = h

  pub Keeps-bind :
      {A B : Type 0} {P : World Json → Type 0} (m : Action Json A) (f : A → Action Json B)
      → Keeps P m
      → ((a : A) → Keeps P (f a))
      → Keeps P (m >>= f)
  unfolding ◌>>=◌
  Keeps-bind m f km kf = record { at = λ w h. Keeps-continue (m w).0 f (m w).1 kf (km.at w h) }

  pub Keeps-if :
      {A : Type 0} {P : World Json → Type 0} (b : Bool) (m n : Action Json A)
      → Keeps P m
      → Keeps P n
      → Keeps P (if b then m else n)
  Keeps-if true m n km kn = km
  Keeps-if false m n km kn = kn

  module _ (env : Env Json) where
    -- Every call works.
    abbrev pub Works : Type 0
    Works = (n : ℕ) → env.fault n ≡ works

    Keeps-answer :
        {A : Type 0} (P : World Json → Type 0) (fault : Fault) (r : Result A Text)
        (w w' : World Json)
        → P w
        → P w'
        → P (answer fault r w w').1
    Keeps-answer P works r w w' h h' = h'
    Keeps-answer P (refused e) r w w' h h' = h
    Keeps-answer P (lost e) r w w' h h' = h'

    pub Keeps-perform :
        {P : World Json → Type 0} (f : World Json → World Json)
        → ((w : World Json) → P w → P (tick w))
        → ((w : World Json) → P w → P (f w))
        → Keeps P (perform env f)
    unfolding perform
    Keeps-perform {P} f ticks keeps = record {
      at = λ w h.
          Keeps-answer P (env.fault w.clock) (ok tt) (tick w) (f (tick w)) (ticks w h)
            (keeps (tick w) (ticks w h));
    }

    pub Keeps-query :
        {A : Type 0} {P : World Json → Type 0} (f : World Json → A)
        → ((w : World Json) → P w → P (tick w))
        → Keeps P (query env f)
    unfolding query
    Keeps-query {P} f ticks = record {
      at = λ w h.
          Keeps-answer P (env.fault w.clock) (ok (f w)) (tick w) (tick w) (ticks w h) (ticks w h);
    }

    pub Keeps-insert :
        {P : World Json → Type 0} (taken : World Json → Bool) (f : World Json → World Json)
        → ((w : World Json) → P w → P (tick w))
        → ((w : World Json) → P w → P (f w))
        → Keeps P (insert env taken f)
    unfolding insert
    Keeps-insert {P} taken f ticks keeps = record {
      at = λ w h. elim (Bool-cases (taken w)) [
        | inl e ↦
            rw (e, insert)
              (Keeps-answer P (env.fault w.clock) (err env.duplicate_key) (tick w) (tick w)
                (ticks w h) (ticks w h))
        | inr e ↦
            rw (e, insert)
              (Keeps-answer P (env.fault w.clock) (ok tt) (tick w) (f (tick w)) (ticks w h)
                (keeps (tick w) (ticks w h)))
      ];
    }

  pub Yields-pure :
      {A : Type 0} {Q : A → World Json → Type 0} (a : A) (w : World Json)
      → Q a w
      → Yields (pure a) w Q
  unfolding pure
  Yields-pure a w q = record { value = a; returns = refl; post = q }

  pub Yields-weaken :
      {A : Type 0} {Q R : A → World Json → Type 0} (m : Action Json A) (w : World Json)
      → ((a : A) (w' : World Json) → Q a w' → R a w')
      → Yields m w Q
      → Yields m w R
  Yields-weaken m w k y = record {
    value = y.value;
    returns = y.returns;
    post = k y.value (m w).1 y.post;
  }

  continue-ok :
      {A B : Type 0} (m : Action Json A) (f : A → Action Json B) (w : World Json) (a : A)
      → (m w).0 ≡ ok a
      → (m >>= f) w ≡ f a (m w).1
  unfolding ◌>>=◌
  continue-ok m f w a e = rw (e, continue) refl

  pub Yields-bind :
      {A B : Type 0} {Q : A → World Json → Type 0} {R : B → World Json → Type 0} (m : Action Json A)
      (f : A → Action Json B) (w : World Json)
      → Yields m w Q
      → ((a : A) (w' : World Json) → Q a w' → Yields (f a) w' R)
      → Yields (m >>= f) w R
  Yields-bind {R = R} m f w y k =
      let next = k y.value (m w).1 y.post in
      let e = continue-ok m f w y.value y.returns in
      record { value = next.value; returns = rw e next.returns; post = rw e next.post }

  pub Yields-if :
      {A : Type 0} {Q : A → World Json → Type 0} (b : Bool) (m n : Action Json A) (w : World Json)
      → (b ≡ true → Yields m w Q)
      → (b ≡ false → Yields n w Q)
      → Yields (if b then m else n) w Q
  Yields-if true m n w ym yn = ym refl
  Yields-if false m n w ym yn = yn refl

  pub Yields-perform :
      (env : Env Json) {Q : Unit {0} → World Json → Type 0} (f : World Json → World Json)
      (w : World Json)
      → Works env
      → Q tt (f (tick w))
      → Yields (perform env f) w Q
  unfolding perform
  Yields-perform env f w works_all q = record {
    value = tt;
    returns = rw (works_all w.clock) refl;
    post = rw (works_all w.clock) q;
  }

  pub Yields-insert :
      (env : Env Json) {Q : Unit {0} → World Json → Type 0} (taken : World Json → Bool)
      (f : World Json → World Json) (w : World Json)
      → Works env
      → taken w ≡ false
      → Q tt (f (tick w))
      → Yields (insert env taken f) w Q
  unfolding insert
  Yields-insert env taken f w works_all free q = record {
    value = tt;
    returns = rw (free, works_all w.clock, insert) refl;
    post = rw (free, works_all w.clock, insert) q;
  }

  pub Yields-query :
      {A : Type 0} (env : Env Json) {Q : A → World Json → Type 0} (f : World Json → A)
      (w : World Json)
      → Works env
      → Q (f w) (tick w)
      → Yields (query env f) w Q
  unfolding query
  Yields-query env f w works_all q = record {
    value = f w;
    returns = rw (works_all w.clock) refl;
    post = rw (works_all w.clock) q;
  }

module _ {ℓ} {A : Type ℓ} where
  -- An update keeps what its change keeps in the rows that it selects.
  pub All-update_where :
      (P : A → Type 0) (p : A → Bool) (f : A → A) (xs : List A)
      → ((a : A) → P a → P (f a))
      → All P xs
      → All P (update_where p f xs)
  All-update_where P p f [] k h = tt
  All-update_where P p f (x ∷ xs) k h = (
    elim (Bool-cases (p x)) [ inl e ↦ rw e (k x h.0) | inr e ↦ rw e h.0 ],
    All-update_where P p f xs k h.1,
  )

  -- It establishes what its change establishes.
  pub All-update_where_self :
      (P : A → Type 0) (p : A → Bool) (f : A → A) (xs : List A)
      → ((a : A) → P (f a))
      → ((a : A) → p a ≡ false → P a)
      → All P (update_where p f xs)
  All-update_where_self P p f [] k h = tt
  All-update_where_self P p f (x ∷ xs) k h = (
    elim (Bool-cases (p x)) [ inl e ↦ rw e (k x) | inr e ↦ rw e (h x e) ],
    All-update_where_self P p f xs k h,
  )

  -- An update, with the test of the rows that it changes.
  pub All-update_where_hit :
      (P Q : A → Type 0) (p : A → Bool) (f : A → A) (xs : List A)
      → ((a : A) → p a ≡ true → P a → Q (f a))
      → ((a : A) → p a ≡ false → P a → Q a)
      → All P xs
      → All Q (update_where p f xs)
  All-update_where_hit P Q p f [] hit miss h = tt
  All-update_where_hit P Q p f (x ∷ xs) hit miss h = (
    elim (Bool-cases (p x)) [ inl e ↦ rw e (hit x e h.0) | inr e ↦ rw e (miss x e h.0) ],
    All-update_where_hit P Q p f xs hit miss h.1,
  )
