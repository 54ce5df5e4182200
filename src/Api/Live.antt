-- ===== src/Api/Live.antt =====
-- The streams of events that a browser follows (services/api/src/routes/sse.rs, and `events` of
-- services/api/src/routes/tests.rs and of services/api/src/routes/kem.rs).
use mathlib.Core.Option
use pqc_sec_inspection_cours.Prelude.{List, Text, Result, codes, find, ok_or, ◌==◌, true}
use pqc_sec_inspection_cours.Domain.Jobs.{Uuid, Channel, test_channel, kem_channel}
use pqc_sec_inspection_cours.Api.Errors.{other, not_found, map_err}
use pqc_sec_inspection_cours.Api.Database.{Services, Handler, pure, lift, ◌>>=◌, ◌>>◌, query, push}
use pqc_sec_inspection_cours.Api.Health.{relay}
use pqc_sec_inspection_cours.Api.Reading.{fetch_test}

-- `opened` is what `Client::open` makes of the configured address, and `messages` what Redis
-- sends to the subscribers of a channel from then on.
module _ {Value : Type 0} (services : Services) (opened : Result (Unit {0}) Text)
    (messages : Channel → List (Result Text Text)) where
  -- A call of Redis that leaves the streams as they are.
  abbrev pub redis_call : Handler Value (Unit {0})
  redis_call = push services (λ db. db)

  unfoldable pub subscribe : Channel → Handler Value (List Text)
  subscribe channel = do
    lift (map_err other opened)
    redis_call
    redis_call
    pure (relay (messages channel))

  unfoldable pub test_events : Uuid → Handler Value (List Text)
  unfolding subscribe
  test_events id = do fetch_test services id; subscribe (test_channel id)

  -- `SELECT true` finds whether the run is there.
  unfoldable pub run_events : Uuid → Handler Value (List Text)
  unfolding subscribe
  run_events id = do
    row ← query services (λ db. Option.map (λ _. true) (find (λ r. r.id == id) db.kem_runs))
    lift (ok_or row (not_found (codes "kem run")))
    subscribe (kem_channel id)
