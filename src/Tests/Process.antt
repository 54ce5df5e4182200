-- ===== src/Tests/Process.antt =====
-- A worker with two permits that is handed three entries, is told to stop and exits; and what
-- Redis answers for the entries of a stream.
use mathlib.Core.Option
use pqc_sec_inspection_cours.Prelude.{
  ◌≡◌, refl, ap, ◌≤◌, true, Option, none, some, List, [], ◌∷◌, map, All, Text, codes, text_eq, ok,
}
use pqc_sec_inspection_cours.Worker.Stream.{Delivery, Redis, collect, claimed}
use pqc_sec_inspection_cours.Worker.Adapters.{lookup}
use pqc_sec_inspection_cours.Worker.Stream.Entries.{
  Entry, HasOnce, Wire, deliveries, read_answer, claim_answer, read-claimed,
}
use pqc_sec_inspection_cours.Worker.Process.{
  exited, Process, start, take_new, spawn, end_job, end_task, shut_down, exit, without, reads,
  spawns, job_ends, acks, ack_fails, shuts_down, exits, Runs, Reach, begin, next,
}
use pqc_sec_inspection_cours.Worker.Process.Permits.{
  in_flight, Nothing, Reach-in_flight, Reach-exited,
}
use pqc_sec_inspection_cours.Worker.Process.Delivered.{IsKept, Reach-kept}
use pqc_sec_inspection_cours.Worker.Process.Drained.{Reach-drained}

abbrev delivery : Text → Delivery
delivery id = record { stream = codes "jobs:probe"; id = id; payload = codes "{…}" }

abbrev first : Delivery
first = delivery (codes "1-0")

abbrev second : Delivery
second = delivery (codes "2-0")

abbrev third : Delivery
third = delivery (codes "3-0")

abbrev three : List Delivery
three = first ∷ second ∷ third ∷ []

-- Two tasks are in flight and the third entry waits; then the worker is told to stop.
abbrev busy : Process
busy =
    spawn second (third ∷ []) 0
      (spawn first (second ∷ third ∷ []) 1 (take_new three three (start 2 [] [])))

abbrev busy_reached : Reach 2 [] [] busy
busy_reached =
    next
      (next (next begin (reads (λ _. true) three refl refl))
        (spawns first (second ∷ third ∷ []) 1 refl refl refl))
      (spawns second (third ∷ []) 0 refl refl refl)

Reach-in_flight_example : in_flight busy ≤ 2
Reach-in_flight_example = Reach-in_flight busy_reached

abbrev stopping_reached : Reach 2 [] [] (shut_down busy)
stopping_reached = next busy_reached (shuts_down refl)

Reach-drained_example :
    (t : Process) × Runs 2 (shut_down busy) t
    × (t.phase ≡ exited)
    × (t.finished ≡ second ∷ first ∷ [])
Reach-drained_example = Reach-drained stopping_reached refl

-- Both jobs end; the acknowledgement of the second entry fails.
abbrev all_handled : Process
all_handled = end_job first [] (end_job second (first ∷ []) (shut_down busy))

abbrev stopped : Process
stopped =
    exit
      (end_task [] (without first three) (end_task (second ∷ []) (without first three) all_handled))

abbrev stopped_reached : Reach 2 [] [] stopped
stopped_reached =
    next
      (next
        (next
          (next (next stopping_reached (job_ends [] second (first ∷ []) refl))
            (job_ends [] first [] refl))
          (acks [] first (second ∷ []) refl))
        (ack_fails [] second [] refl))
      (exits refl refl)

Reach-exited_example : Nothing stopped
Reach-exited_example = Reach-exited stopped_reached refl

-- The first entry is acknowledged, the second handled and pending, the third pending.
Reach-kept_example : All (IsKept (second ∷ third ∷ []) (second ∷ first ∷ [])) three
unfolding text_eq codes
Reach-kept_example = Reach-kept stopped_reached

-- The values of the wire, as pairs.
data Wired : Type 0 where
  nil : Wired
  bulk : Text → Wired
  cons : Wired → Wired → Wired

abbrev array : List Wired → Wired
array [] = nil
array (v ∷ vs) = cons v (array vs)

abbrev elements : Wired → Option (List Wired)
elements nil = some []
elements (bulk t) = none
elements (cons v vs) = Option.map (λ l. v ∷ l) (elements vs)

abbrev to_text : Wired → Option Text
to_text (bulk t) = some t
to_text _ = none

abbrev text_before : Option Text → Option (List Text) → Option (List Text)
text_before (some t) (some ts) = some (t ∷ ts)
text_before (some t) none = none
text_before none ts = none

abbrev to_texts : Wired → Option (List Text)
to_texts nil = some []
to_texts (bulk t) = none
to_texts (cons v vs) = text_before (to_text v) (to_texts vs)

abbrev redis : Redis Wired
redis = record {
  elements = elements;
  to_text = to_text;
  to_texts = to_texts;
  create_group = λ n arguments. ok (codes "OK");
  read_group = λ n group consumer block_ms count streams ids. ok none;
  auto_claim = λ n arguments. ok nil;
}

elements-array : (vs : List Wired) → elements (array vs) ≡ some vs
elements-array [] = refl
elements-array (v ∷ vs) = ap (Option.map (λ l. v ∷ l)) (elements-array vs)

to_texts-array : (ts : List Text) → to_texts (array (map bulk ts)) ≡ some ts
to_texts-array [] = refl
to_texts-array (t ∷ ts) = ap (text_before (some t)) (to_texts-array ts)

abbrev wire : Wire redis
wire = record {
  bulk = bulk;
  array = array;
  elements-array = elements-array;
  to_text-bulk = λ t. refl;
  to_texts-array = to_texts-array;
}

abbrev entries : List Entry
entries =
    record {
      id = codes "1-0";
      fields = (codes "trace", codes "job") ∷ (codes "job", codes "{}") ∷ [];
    }
    ∷ record { id = codes "2-0"; fields = (codes "trace", codes "x") ∷ [] }
    ∷ []

one_job : All (λ e. HasOnce (codes "job") e.fields) entries
unfolding lookup text_eq codes
one_job = (((λ e. cc e), ((λ _. refl), tt)), (((λ _. refl), tt), tt))

read-claimed_example :
    (collect redis (read_answer redis wire (codes "jobs:kem") entries)
      ≡ deliveries (codes "jobs:kem") entries)
    × (claimed redis (codes "jobs:kem") (claim_answer redis wire nil nil entries)
        ≡ deliveries (codes "jobs:kem") entries)
read-claimed_example = read-claimed redis wire (codes "jobs:kem") entries nil nil one_job
