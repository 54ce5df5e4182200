-- ===== src/Worker/Kem/Run/Rounds.antt =====
-- The fuel of the probing loop (services/worker/src/kem.rs).
use pqc_sec_inspection_cours.Prelude.{
  ℕ, zero, suc, ◌≤◌, ◌≡◌, refl, inl, inr, Bool, true, false, List, [], ◌∷◌, ◌++◌, Text, length,
  arith, if◌then◌else◌, Option-cases, ok, err, Result,
}
use pqc_sec_inspection_cours.Domain.Jobs.{KemJob}
use pqc_sec_inspection_cours.Worker.World.{World, Env, Action, ◌>>=◌, continue}
use pqc_sec_inspection_cours.Worker.Kem.Run.{others, chosen, probe_rounds}
use pqc_sec_inspection_cours.Worker.Kem.Run.Offers.{length-others-lt}

module _ {Json : Type 0} where
  continue-cong :
      {A B : Type 0} (r : Result A Text) (f g : A → Action Json B) (w : World Json)
      → ((a : A) → f a w ≡ g a w)
      → continue r f w ≡ continue r g w
  continue-cong (ok a) f g w h = h a
  continue-cong (err e) f g w h = refl

  >>=-cong :
      {A B : Type 0} (m : Action Json A) (f g : A → Action Json B) (w : World Json)
      → ((a : A) (w' : World Json) → f a w' ≡ g a w')
      → (m >>= f) w ≡ (m >>= g) w
  unfolding ◌>>=◌
  >>=-cong m f g w h = continue-cong (m w).0 f g (m w).1 (λ a. h a (m w).1)

  if-cong :
      {A : Type 0} (b : Bool) (m f g : Action Json A) (w : World Json)
      → (b ≡ false → f w ≡ g w)
      → (if b then m else f) w ≡ (if b then m else g) w
  if-cong true m f g w h = refl
  if-cong false m f g w h = h refl

  module _ (env : Env Json) (job : KemJob) (adapter : Text) where
    -- Two amounts of fuel that are enough give the same run.
    two_fuels :
        (m n : ℕ) (remaining order : List Text) (w : World Json)
        → length remaining ≤ m
        → length remaining ≤ n
        → probe_rounds env job m adapter remaining order w
          ≡ probe_rounds env job n adapter remaining order w
    unfolding probe_rounds
    two_fuels zero zero remaining order w hm hn = refl
    two_fuels zero (suc n) [] order w hm hn = refl
    two_fuels zero (suc n) (g ∷ gs) order w hm hn = absurd (omega (arith, hm))
    two_fuels (suc m) zero [] order w hm hn = refl
    two_fuels (suc m) zero (g ∷ gs) order w hm hn = absurd (omega (arith, hn))
    two_fuels (suc m) (suc n) [] order w hm hn = refl
    two_fuels (suc m) (suc n) (g ∷ gs) order w hm hn = >>=-cong _ _ _ w λ r w1.
        elim (Option-cases (chosen r)) [
          | inl e ↦ rw e refl
          | inr (group, e) ↦ rw e (
              >>=-cong _ _ _ w1 λ _ w2. if-cong _ _ _ _ w2 λ goes_on.
                let fewer = length-others-lt group (g ∷ gs) goes_on in
                two_fuels m n (others group (g ∷ gs)) (order ++ group ∷ []) w2
                  (omega (arith, fewer, hm)) (omega (arith, fewer, hn)))
        ]

    -- The loop on any fuel that is at least the length of the offer does what it does on that
    -- length, in every world and whatever the adapters answer: fuel never cuts it short.
    pub probe_rounds_fuel :
        (fuel : ℕ) (remaining order : List Text) (w : World Json)
        → length remaining ≤ fuel
        → probe_rounds env job fuel adapter remaining order w
          ≡ probe_rounds env job (length remaining) adapter remaining order w
    probe_rounds_fuel fuel remaining order w h =
        two_fuels fuel (length remaining) remaining order w h (omega arith)
