-- ===== src/Worker/World.antt =====
-- What the worker's actions read and write: the tables of the database, the events published on
-- Redis, the acknowledged deliveries and the capability cache. `clock` counts the calls of
-- services outside the worker. What such a call answers is a function of its number, so an
-- environment may answer the same question differently at another time.
use pqc_sec_inspection_cours.Prelude.{
  ℕ, suc, Bool, List, [], ◌∷◌, ◌++◌, Text, Result, ok, err, if◌then◌else◌,
}
use pqc_sec_inspection_cours.Proto.{ProbeRequest, ProbeResponse, Capabilities}
use pqc_sec_inspection_cours.Domain.Jobs.{Channel, Event}
use pqc_sec_inspection_cours.Domain.Models.{
  Test, Subtask, SubtaskReport, KemRun, KemRunLog, KemMatrixCell,
}

pub record World (Json : Type 0) : Type 0 where
  pub tests : List Test
  pub subtasks : List Subtask
  pub reports : List (SubtaskReport Json)
  pub kem_runs : List KemRun
  pub kem_logs : List KemRunLog
  pub kem_cells : List KemMatrixCell
  pub published : List (Channel × Event)
  pub acked : List (Text × Text)
  pub capabilities : List (Text × Capabilities)
  pub seq : ℕ  -- of the console of the KEM run in hand
  pub clock : ℕ

-- A call of the database or of Redis works, is refused with no effect, or has its effect while
-- its answer is lost.
pub data Fault : Type 0 where
  works : Fault
  refused : (error : Text) → Fault
  lost : (error : Text) → Fault

-- What comes back from an adapter's `POST /probe`: no answer, or a status, as a number and as it
-- prints, with the text of the body and what it decodes to.
pub data ProbeReply (Json : Type 0) : Type 0 where
  unreachable : (error : Text) → ProbeReply Json
  answered :
      (status : ℕ) (shown body : Text) (decoded : Result (ProbeResponse Json) Text)
      → ProbeReply Json

pub record Env (Json : Type 0) : Type 0 where
  pub bases : List (Text × Text)
  pub fault : ℕ → Fault
  pub probe_reply : ℕ → Text → ProbeRequest → ProbeReply Json
  pub capabilities_reply : ℕ → Text → Result Capabilities Text
  pub null : Json  -- `serde_json::Value::Null`
  pub duplicate_key : Text  -- how a violated primary key prints

-- An action of the worker: `anyhow::Result`, with the error as it prints.
abbrev pub Action : Type 0 → Type 0 → Type 0
Action Json A = World Json → Result A Text × World Json

module _ {Json : Type 0} where
  unfoldable pub pure : {A : Type 0} → A → Action Json A
  pure a w = (ok a, w)

  unfoldable pub fail : {A : Type 0} → Text → Action Json A
  fail e w = (err e, w)

  abbrev pub continue :
      {A B : Type 0} → Result A Text → (A → Action Json B) → World Json → Result B Text × World Json
  continue (ok a) f w = f a w
  continue (err e) f w = (err e, w)

  infixl 5 ◌>>=◌ ◌>>◌
  unfoldable pub ◌>>=◌ : {A B : Type 0} → Action Json A → (A → Action Json B) → Action Json B
  ◌>>=◌ m f w = let (r, w') = m w in continue r f w'

  abbrev pub ◌>>◌ : {A B : Type 0} → Action Json A → Action Json B → Action Json B
  m >> n = m >>= λ _. n

  abbrev pub tick : World Json → World Json
  tick w = record w { clock = suc w.clock }

  -- A statement with effect `f`, a query of `f`, and a call of which only the failure matters.
  abbrev pub answer :
      {A : Type 0} → Fault → Result A Text → World Json → World Json → Result A Text × World Json
  answer works r w w' = (r, w')
  answer (refused e) r w w' = (err e, w)
  answer (lost e) r w w' = (err e, w')

  module _ (env : Env Json) where
    unfoldable pub perform : (World Json → World Json) → Action Json (Unit {0})
    perform f w = answer (env.fault w.clock) (ok tt) (tick w) (f (tick w))

    unfoldable pub query : {A : Type 0} → (World Json → A) → Action Json A
    query f w = answer (env.fault w.clock) (ok (f w)) (tick w) (tick w)

    unfoldable pub publish : Channel → Event → Action Json (Unit {0})
    publish channel event =
        perform λ w. record w { published = w.published ++ (channel, event) ∷ [] }

    -- An `INSERT` under a primary key: it is refused where the test finds the key taken.
    unfoldable pub insert : (World Json → Bool) → (World Json → World Json) → Action Json (Unit {0})
    insert taken f w =
        if taken w
        then answer (env.fault w.clock) (err env.duplicate_key) (tick w) (tick w)
        else answer (env.fault w.clock) (ok tt) (tick w) (f (tick w))
