-- ===== src/Tests/Kem.antt =====
-- KEM runs on concrete inputs.
use pqc_sec_inspection_cours.Prelude.{
  Result, err, ℕ, ◌≡◌, refl, Option, none, some, List, [], ◌∷◌, Text, codes, text_eq, text_ne,
  contains, to_ascii_lowercase, contains_text, head?, true, ok, arith,
}
use pqc_sec_inspection_cours.Proto.{ProbeResponse, failure, no_negotiated, tls_handshake, complete}
use pqc_sec_inspection_cours.Domain.Status.{TaskStatus, KemRunMode}
use pqc_sec_inspection_cours.Domain.Jobs.{ProbeJob, KemJob}
use pqc_sec_inspection_cours.Domain.Models.{KemRun, KemRunLog}
use pqc_sec_inspection_cours.Worker.World.{World, Env, answered}
use pqc_sec_inspection_cours.Worker.Adapters.{probe}
use pqc_sec_inspection_cours.Worker.Rules.{Yields}
use pqc_sec_inspection_cours.Worker.Stream.{Delivery}
use pqc_sec_inspection_cours.Worker.Delivery.{IsAcked, deliver, deliver-redelivered}
use pqc_sec_inspection_cours.Worker.Kem.Order.{evaluate_order, pq_level}
use pqc_sec_inspection_cours.Worker.Kem.Order.Laws.{misplaced, evaluate_order-misplaced}
use pqc_sec_inspection_cours.Worker.Kem.Texts.{request_for}
use pqc_sec_inspection_cours.Worker.Kem.Run.{handle_kem, probe_rounds, chosen}
use pqc_sec_inspection_cours.Worker.Kem.Run.Numbering.{Fresh}
use pqc_sec_inspection_cours.Worker.Kem.Run.Fresh.{IsClosed, handle_kem-closes}
use pqc_sec_inspection_cours.Worker.Kem.Run.Redelivered.{StillRunning}
use pqc_sec_inspection_cours.Worker.Kem.Run.Offers.{offered, Distinct}
use pqc_sec_inspection_cours.Worker.Kem.Run.Rounds.{probe_rounds_fuel}
use pqc_sec_inspection_cours.Worker.Kem.Run.Recovery.{Prefers, probe_rounds-recovers}
use pqc_sec_inspection_cours.Tests.Worker.{env, world}

abbrev order : List Text
order = codes "X25519" ∷ codes "MLKEM512" ∷ codes "SecP384r1MLKEM1024" ∷ []

-- A server that puts its post-quantum groups behind a classical one, the weaker one first.
evaluate_order_run : evaluate_order order ≡ codes "MLKEM512" ∷ codes "SecP384r1MLKEM1024" ∷ []
unfolding evaluate_order pq_level codes to_ascii_lowercase contains text_eq contains_text
evaluate_order_run = refl

evaluate_order-misplaced_example : evaluate_order order ≡ misplaced [] order
evaluate_order-misplaced_example = evaluate_order-misplaced order

abbrev run : KemRun
run = record {
  id = 20;
  mode = KemRunMode.priority;
  endpoint_id = 30;
  status = TaskStatus.pending;
  kem_groups = order;
  created_at = 0;
  finished_at = none;
}

abbrev kem_job : KemJob
kem_job = record {
  run_id = 20;
  mode = KemRunMode.priority;
  host = codes "lab.test";
  port = 443;
  kem_groups = order;
}

handle_kem-closes_example :
    Yields (handle_kem env kem_job) (record world { kem_runs = run ∷ [] }) (λ _. IsClosed kem_job)
handle_kem-closes_example =
    handle_kem-closes env kem_job (λ _. refl) (record world { kem_runs = run ∷ [] }) tt

-- The run's log, as a first delivery that was cut off left it.
abbrev line_of : ℕ → KemRunLog
line_of seq = record {
  run_id = 20;
  seq = seq;
  at = 0;
  level = codes "info";
  message = codes "=== run_priority_test (lab.test:443) ===";
}

abbrev old_lines : List KemRunLog
old_lines = line_of 1 ∷ line_of 2 ∷ []

abbrev interrupted : World (Unit {0})
interrupted = record world { kem_runs = run ∷ []; kem_logs = old_lines }

probe_rounds_fuel_example :
    probe_rounds env kem_job 9 (codes "openssl") order [] world
    ≡ probe_rounds env kem_job 3 (codes "openssl") order [] world
probe_rounds_fuel_example =
    probe_rounds_fuel env kem_job (codes "openssl") 9 order [] world (omega arith)

-- A server that prefers a hybrid group to a classical one, and does not know the third.
abbrev prefs : List Text
prefs = codes "SecP384r1MLKEM1024" ∷ codes "x25519" ∷ []

abbrev pick : Option Text → ProbeResponse (Unit {0})
pick none = failure tt (codes "openssl") tls_handshake (codes "no shared group")
pick (some group) = record (failure tt (codes "openssl") complete []) {
  handshake_success = true;
  negotiated = record no_negotiated { group = some group };
  error_summary = none;
}

abbrev choosy : Env (Unit {0})
choosy = record env {
  probe_reply = λ n base request.
      answered 200 (codes "200 OK") [] (ok (pick (head? (offered prefs request.kem_groups))));
}

chosen-pick : (o : Option Text) → chosen (pick o) ≡ o
unfolding chosen
chosen-pick none = refl
chosen-pick (some group) = refl

server : Prefers choosy kem_job (codes "openssl") prefs
unfolding probe text_eq codes request_for
server = record {
  response = λ w offer. pick (head? (offered prefs offer));
  answers = λ w offer. refl;
  picks = λ w offer. chosen-pick (head? (offered prefs offer));
}

prefs-Distinct : Distinct prefs
prefs-Distinct = (
  (
    text_ne (to_ascii_lowercase (codes "x25519")) (to_ascii_lowercase (codes "SecP384r1MLKEM1024"))
        (unfold codes text_eq to_ascii_lowercase in refl),
    tt,
  ),
  (tt, tt),
)

probe_rounds-recovers_example :
    Yields
      (probe_rounds choosy kem_job 3 (codes "openssl") order [])
      world
      (λ found w. (found ≡ offered prefs order) × Fresh 20 w)
probe_rounds-recovers_example =
    probe_rounds-recovers choosy (λ _. refl) kem_job (codes "openssl") prefs server prefs-Distinct
      order world tt

abbrev delivery : Delivery
delivery = record { stream = codes "jobs:kem"; id = codes "1700000000000-0"; payload = codes "{…}" }

-- No payload decodes as a probe job, and every one as this KEM job.
abbrev no_probe : Text → Result ProbeJob Text
no_probe payload = err (codes "missing field `subtask_id`")

abbrev one_kem : Text → Result KemJob Text
one_kem payload = ok kem_job

deliver-redelivered_example :
    Yields
      (deliver no_probe one_kem env delivery)
      interrupted
      (λ _ w. IsAcked delivery w × StillRunning kem_job w)
deliver-redelivered_example =
    deliver-redelivered no_probe one_kem env (λ _. refl) delivery kem_job old_lines refl refl
      interrupted refl refl refl
