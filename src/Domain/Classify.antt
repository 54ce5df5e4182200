-- ===== src/Domain/Classify.antt =====
-- The verdict on a probe (crates/pqcas-domain/src/lib.rs).
use pqc_sec_inspection_cours.Prelude.{
  ◌≡◌, refl, ◌↔◌, Bool, true, false, not, List, [], ◌∷◌, ◌++◌, arith, any, Some, Text,
  to_ascii_lowercase, eq_ignore_ascii_case, eq_ignore_ascii_case_iff, if◌then◌else◌,
}
use pqc_sec_inspection_cours.Proto.{ProbeResponse, Capabilities}
use pqc_sec_inspection_cours.Domain.Status.{ResultStatus}

-- Does the adapter advertise `alg`, in any case.
unfoldable pub known : Capabilities → Text → Bool
known caps alg = any (λ k. eq_ignore_ascii_case k alg) (caps.kem_groups ++ caps.sig_algs)

unfoldable pub outcome : Bool → ResultStatus
outcome true = ResultStatus.passed
outcome false = ResultStatus.failed

module _ {Json : Type 0} where
  unfoldable pub classify : ProbeResponse Json → List Text → Capabilities → ResultStatus
  unfolding known outcome
  classify response offered caps =
      if not (any (known caps) offered)
      then ResultStatus.unsupported
      else outcome response.handshake_success

abbrev pub Same : Text → Text → Type 0
Same s t = to_ascii_lowercase s ≡ to_ascii_lowercase t

-- The adapter advertises `alg` as a group or as a signature algorithm.
abbrev pub Advertises : Capabilities → Text → Type 0
Advertises caps alg = Some (λ k. Same k alg) (caps.kem_groups ++ caps.sig_algs)

pub any-Some {ℓ} :
    {A : Type ℓ} (p : A → Bool) (P : A → Type 0)
    → ((a : A) → (p a ≡ true) ↔ P a)
    → (xs : List A) → (any p xs ≡ true) ↔ Some P xs
any-Some p P iff [] = (λ e. cc, λ h. absurd h)
any-Some p P iff (x ∷ xs) = ground (arith, iff x, any-Some p P iff xs)

known_iff : (caps : Capabilities) (alg : Text) → (known caps alg ≡ true) ↔ Advertises caps alg
unfolding known
known_iff caps alg =
    any-Some (λ k. eq_ignore_ascii_case k alg) (λ k. Same k alg)
      (λ k. eq_ignore_ascii_case_iff k alg) (caps.kem_groups ++ caps.sig_algs)

-- The three verdicts, for a test `b` that decides `P`.
verdict_cases :
    {P : Type 0} (b h : Bool)
    → (b ≡ true) ↔ P
    → let v = if not b then ResultStatus.unsupported else outcome h in
      ((v ≡ ResultStatus.unsupported) ↔ (¬ P))
      × ((v ≡ ResultStatus.passed) ↔ (P × (h ≡ true)))
      × ((v ≡ ResultStatus.failed) ↔ (P × (h ≡ false)))
unfolding outcome
verdict_cases true true e =
    ((λ v. cc, λ n. absurd (n (e.0 refl))), (λ _. (e.0 refl, refl), λ _. refl), (λ v. cc, λ p. cc))
verdict_cases true false e =
    ((λ v. cc, λ n. absurd (n (e.0 refl))), (λ v. cc, λ p. cc), (λ _. (e.0 refl, refl), λ _. refl))
verdict_cases false h e = (
  (λ _. λ p. no_true (e.1 p), λ _. refl),
  (λ v. cc, λ p. absurd (no_true (e.1 p.0))),
  (λ v. cc, λ p. absurd (no_true (e.1 p.0))),
)
  where
    no_true : false ≡ true → ⊥
    no_true q = cc

module _ {Json : Type 0} where
  -- The verdict is `unsupported` exactly when no offered algorithm is advertised, letter case
  -- aside; it is `passed` or `failed` exactly when one is, by the outcome of the handshake. It is
  -- never `pending` or `disabled`.
  pub classify_cases :
      (r : ProbeResponse Json) (offered : List Text) (caps : Capabilities)
      → ((classify r offered caps ≡ ResultStatus.unsupported) ↔ (¬ Some (Advertises caps) offered))
        × ((classify r offered caps ≡ ResultStatus.passed)
            ↔ (Some (Advertises caps) offered × (r.handshake_success ≡ true)))
        × ((classify r offered caps ≡ ResultStatus.failed)
            ↔ (Some (Advertises caps) offered × (r.handshake_success ≡ false)))
  unfolding classify
  classify_cases r offered caps =
      verdict_cases (any (known caps) offered) r.handshake_success
        (any-Some (known caps) (Advertises caps) (known_iff caps) offered)
