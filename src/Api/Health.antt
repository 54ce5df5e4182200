-- ===== src/Api/Health.antt =====
-- The probes of the API's health (services/api/src/routes/health.rs) and the relay of events to a
-- browser (services/api/src/routes/sse.rs).
use pqc_sec_inspection_cours.Prelude.{
  ℕ, Bool, true, false, ◌&&◌, List, [], ◌∷◌, ◌++◌, filter, filter_map, length, ltb, map, none, some,
  Option, Text, codes, text_eq, show_nat, if◌then◌else◌, Result, ok, err,
}
use pqc_sec_inspection_cours.Domain.Status.{TaskStatus, task_str, ExecStatus}
use pqc_sec_inspection_cours.Api.Database.{Db, Services, query, tick}

pub record Readiness : Type 0 where
  pub code : ℕ
  pub ready : Bool
  pub db : Bool
  pub redis : Bool

abbrev pub is_ok : {A E : Type 0} → Result A E → Bool
is_ok (ok _) = true
is_ok (err _) = false

abbrev pub or_default : {A E : Type 0} → A → Result A E → A
or_default d (ok a) = a
or_default d (err _) = d

-- `push_str` of the line of one status.
abbrev pub gauge : TaskStatus × ℕ → Text
gauge (status, count) =
    codes "pqcas_tests_total{status=\""
    ++ (task_str status ++ (codes "\"} " ++ (show_nat count ++ codes "\n")))

abbrev pub is_waiting : ExecStatus → Bool
is_waiting ExecStatus.queued = true
is_waiting _ = false

abbrev pub lines : List Text → Text
lines [] = []
lines (l ∷ ls) = l ++ lines ls

module _ {Value : Type 0} (services : Services) where
  -- A call of which only matters whether it works.
  abbrev pub works_now : Db Value → Bool
  works_now db = is_ok (query services (λ u. tt {0}) db).0

  -- `SELECT 1` and `PING`: both are made, whatever the first answers.
  unfoldable pub readyz : Db Value → Readiness × Db Value
  unfolding query
  readyz db =
      let first = works_now db in
      let second = works_now (tick db) in
      (
        record {
          code = if first && second then 200 else 503;
          ready = first && second;
          db = first;
          redis = second;
        },
        tick (tick db),
      )

  abbrev pub count_of : Db Value → TaskStatus → Option (TaskStatus × ℕ)
  count_of db status =
      let n = length (filter (λ t. text_eq (task_str t.status) (task_str status)) db.tests) in
      if ltb 0 n then some (status, n) else none

  -- `groups` is the order in which `GROUP BY` lists the statuses.
  unfoldable pub metrics : (groups : List TaskStatus) → Db Value → (ℕ × Text) × Db Value
  unfolding query
  metrics groups db =
      let counts = or_default [] (query services (λ u. filter_map (count_of u) groups) db).0 in
      let queued =
        or_default 0
          (query services (λ u. length (filter (λ s. is_waiting s.exec_status) u.subtasks))
            (tick db)).0 in
      (
        (
          200,
          codes "# HELP pqcas_tests_total Tests by status\n# TYPE pqcas_tests_total gauge\n"
              ++ (lines (map gauge counts)
                  ++ (codes "# HELP pqcas_subtasks_queued Subtasks waiting for a worker\n"
                      ++ (codes "# TYPE pqcas_subtasks_queued gauge\npqcas_subtasks_queued "
                          ++ (show_nat queued ++ codes "\n")))),
        ),
        tick (tick db),
      )

-- The messages of a subscription, as a browser gets them: malformed payloads are dropped.
abbrev pub payload_of : Result Text Text → Option Text
payload_of (ok payload) = some payload
payload_of (err _) = none

unfoldable pub relay : List (Result Text Text) → List Text
relay messages = filter_map payload_of messages
