-- ===== src/Adapter/Stacks/Mock.antt =====
-- The stand-in's answers under the worker's verdict (adapters/cli/src/backend.rs,
-- crates/pqcas-domain/src/lib.rs).
use pqc_sec_inspection_cours.Prelude.{
  ◌≡◌, refl, ◌↔◌, ◌≢◌, inl, arith, Bool, true, false, not, ◌||◌, List, [], ◌∷◌, any, is_empty, Text,
  Some, Some-append_left, eq_ignore_ascii_case, eq_ignore_ascii_case_iff, if◌then◌else◌,
}
use pqc_sec_inspection_cours.Proto.{ProbeRequest, ProbeResponse}
use pqc_sec_inspection_cours.Domain.Status.{ResultStatus}
use pqc_sec_inspection_cours.Domain.Classify.{classify, classify_cases, Same, any-Some}
use pqc_sec_inspection_cours.Adapter.Config.{Config, kem_group_list, sig_alg_list, advertised}
use pqc_sec_inspection_cours.Adapter.Response.{build_response}
use pqc_sec_inspection_cours.Adapter.Stacks.{
  is_vulnerable, offered_first, group_ok, sig_ok, mock_refusal, mock_success, mock_response,
}

-- A list has the text, letter case aside.
abbrev pub Lists : List Text → Text → Type 0
Lists list t = Some (λ k. Same k t) list

known_iff :
    (list : List Text) (t : Text)
    → list ≢ []
    → ((is_empty list || any (λ k. eq_ignore_ascii_case k t) list) ≡ true) ↔ Lists list t
known_iff [] t n = absurd (n refl)
known_iff (k ∷ list) t n =
    any-Some (λ k. eq_ignore_ascii_case k t) (λ k. Same k t) (λ k. eq_ignore_ascii_case_iff k t)
      (k ∷ list)

module _ {Json : Type 0} (offer : List Text → List Text → Json) (config : Config) where
  group_ok_iff :
      (group : Text)
      → kem_group_list config ≢ []
      → (group_ok offer config group ≡ true) ↔ Lists (kem_group_list config) group
  unfolding group_ok
  group_ok_iff group n = known_iff (kem_group_list config) group n

  sig_ok_iff :
      (sig : Text)
      → sig ≢ []
      → sig_alg_list config ≢ []
      → (sig_ok offer config sig ≡ true) ↔ Lists (sig_alg_list config) sig
  unfolding sig_ok
  sig_ok_iff [] m n = absurd (m refl)
  sig_ok_iff (c ∷ sig) m n = known_iff (sig_alg_list config) (c ∷ sig) n

  -- Both tests pass.
  Accepts : ProbeRequest → Type 0
  Accepts request =
      (group_ok offer config (offered_first offer request.kem_groups) ≡ true)
      × (sig_ok offer config (offered_first offer request.sig_algs) ≡ true)

  choose_iff :
      (a b : Bool) (first second third : ProbeResponse Json)
      → first.handshake_success ≡ false
      → second.handshake_success ≡ true
      → let chosen = if false then third else if not a || not b then first else second in
        (chosen.handshake_success ≡ true) ↔ ((a ≡ true) × (b ≡ true))
  choose_iff true true first second third f t = ground arith
  choose_iff true false first second third f t = ground arith
  choose_iff false b first second third f t = ground arith

  mock_response-success :
      (request : ProbeRequest)
      → is_vulnerable offer request ≡ false
      → ((mock_response offer config request).handshake_success ≡ true) ↔ Accepts request
  unfolding mock_response Accepts mock_refusal mock_success build_response
  mock_response-success request v =
      rw (v, mock_response) (choose_iff _ _ _ _ (mock_refusal offer config request [] []) refl refl)

  Accepts-iff :
      (request : ProbeRequest) (group sig : Text)
      → request.kem_groups ≡ group ∷ []
      → request.sig_algs ≡ sig ∷ []
      → sig ≢ []
      → kem_group_list config ≢ []
      → sig_alg_list config ≢ []
      → Accepts request ↔ (Lists (kem_group_list config) group × Lists (sig_alg_list config) sig)
  unfolding Accepts offered_first
  Accepts-iff request group sig eg es n ng ns =
      let g = group_ok_iff group ng in
      let s = sig_ok_iff sig n ns in
      rw (eg, es) (λ (p, q). (g.0 p, s.0 q), λ (p, q). (g.1 p, s.1 q))

  -- The stand-in lists groups and signature algorithms; the request offers one of each, for a
  -- target that is not the vulnerable one. Then the verdict on the stand-in's answer, by what it
  -- advertises, is `passed` exactly when the group is in its list of groups and the signature
  -- algorithm in its list of signature algorithms, letter case aside.
  pub mock_response-classify :
      (request : ProbeRequest) (group sig : Text)
      → request.kem_groups ≡ group ∷ []
      → request.sig_algs ≡ sig ∷ []
      → sig ≢ []
      → kem_group_list config ≢ []
      → sig_alg_list config ≢ []
      → is_vulnerable offer request ≡ false
      → (classify (mock_response offer config request) (group ∷ sig ∷ []) (advertised config)
          ≡ ResultStatus.passed)
        ↔ (Lists (kem_group_list config) group × Lists (sig_alg_list config) sig)
  unfolding advertised
  mock_response-classify request group sig eg es n ng ns v =
      let response = mock_response offer config request in
      let (_, passed_iff, _) = classify_cases response (group ∷ sig ∷ []) (advertised config) in
      let success = mock_response-success request v in
      let listed = Accepts-iff request group sig eg es n ng ns in
      (
        λ e. listed.0 (success.0 (passed_iff.0 e).1),
        λ h.
            passed_iff.1
              (inl (Some-append_left _ (kem_group_list config) _ h.0), success.1 (listed.1 h)),
      )
