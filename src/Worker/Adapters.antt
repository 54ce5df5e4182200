-- ===== src/Worker/Adapters.antt =====
-- The client side of the adapter contract (services/worker/src/adapters.rs). The map of base
-- addresses is a list in the order of its keys.
use pqc_sec_inspection_cours.Prelude.{
  ℕ, Bool, not, Option, none, some, List, [], ◌∷◌, ◌++◌, map, Text, codes, text_eq, trim, leb, ltb,
  ◌&&◌, if◌then◌else◌, is_some, Result, ok, err,
}
use pqc_sec_inspection_cours.Proto.{ProbeRequest, ProbeResponse, Capabilities, tcp, failure}
use pqc_sec_inspection_cours.Worker.World.{Env, ProbeReply, unreachable, answered, Action, tick}

unfoldable pub lookup {ℓ} : {V : Type ℓ} → Text → List (Text × V) → Option V
unfolding text_eq
lookup k [] = none
lookup k ((j, v) ∷ m) = if text_eq j k then some v else lookup k m

not_configured : Text → Text
not_configured adapter = codes "adapter " ++ (adapter ++ codes " is not configured")

-- `StatusCode::is_success`
abbrev is_success : ℕ → Bool
is_success status = leb 200 status && ltb status 300

module _ {Json : Type 0} (env : Env Json) where
  unfoldable pub names : List Text
  names = map (λ b. b.0) env.bases

  unfoldable pub is_configured : Text → Bool
  unfolding lookup
  is_configured adapter = is_some (lookup adapter env.bases)

  -- A fetched answer is remembered; the newest entry of the cache comes first.
  unfoldable pub remember : Text → Result Capabilities Text → Action Json Capabilities
  remember adapter (ok caps) w =
      (ok caps, record w { capabilities = (adapter, caps) ∷ w.capabilities })
  remember adapter (err e) w = (err e, w)

  unfoldable pub capabilities : Text → Action Json Capabilities
  unfolding lookup remember not_configured
  capabilities adapter w = elim (lookup adapter w.capabilities) [
    | some cached ↦ (ok cached, w)
    | none ↦ elim (lookup adapter env.bases) [
      | none ↦ (err (not_configured adapter), w)
      | some base ↦ remember adapter (env.capabilities_reply w.clock base) (tick w)
    ]
  ]

  unfoldable pub read_reply : Text → ProbeReply Json → ProbeResponse Json
  read_reply adapter (unreachable e) =
      failure env.null adapter tcp (codes "adapter unreachable: " ++ e)
  read_reply adapter (answered status shown body decoded) =
      if not (is_success status)
      then failure env.null adapter tcp
          (codes "adapter returned " ++ (shown ++ (codes ": " ++ trim body)))
      else elim decoded [
        | ok parsed ↦ parsed
        | err e ↦ failure env.null adapter tcp (codes "adapter sent an unreadable report: " ++ e)
      ]

  -- Run one handshake. Every failure to reach the adapter is itself a response.
  unfoldable pub probe : Text → ProbeRequest → Action Json (ProbeResponse Json)
  unfolding lookup read_reply not_configured
  probe adapter request w = elim (lookup adapter env.bases) [
    | none ↦ (ok (failure env.null adapter tcp (not_configured adapter)), w)
    | some base ↦ (ok (read_reply adapter (env.probe_reply w.clock base request)), tick w)
  ]
