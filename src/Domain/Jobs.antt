-- ===== src/Domain/Jobs.antt =====
-- Payloads on the Redis streams and the events published for the browser
-- (crates/pqcas-domain/src/jobs.rs). A `Uuid` is a number; it is only compared.
use pqc_sec_inspection_cours.Prelude.{ℕ, Option, List, Text, codes}
use pqc_sec_inspection_cours.Domain.Status.{ExecStatus, KemRunMode, ResultStatus}

abbrev pub Uuid : Type 0
Uuid = ℕ

abbrev pub stream_probe : Text
stream_probe = codes "jobs:probe"

abbrev pub stream_kem : Text
stream_kem = codes "jobs:kem"

abbrev pub consumer_group : Text
consumer_group = codes "workers"

-- The channels that `test_channel` and `kem_channel` name: `events:test:` or `events:kem:` and the
-- printed id.
pub data Channel : Type 0 where
  test_channel : Uuid → Channel
  kem_channel : Uuid → Channel

-- One subtask handed to a worker: a single handshake against one target.
pub record ProbeJob : Type 0 where
  pub test_id : Uuid
  pub subtask_id : Uuid
  pub host : Text
  pub port : ℕ  -- u16
  pub http_path : Text
  pub adapter : Text
  pub group_name : Text
  pub sig_alg : Text
  pub timeout_ms : ℕ  -- u64

pub record KemJob : Type 0 where
  pub run_id : Uuid
  pub mode : KemRunMode
  pub host : Text
  pub port : ℕ  -- u16
  pub kem_groups : List Text

pub data TestEvent : Type 0 where
  subtask_updated :
      (subtask_id : Uuid) (exec_status : ExecStatus) (result_status : ResultStatus)
      (group_name sig_alg : Text)
      → TestEvent
  test_finished : (test_id : Uuid) (passed failed : ℕ) → TestEvent

-- The time stamp of a log line is left out.
pub data KemEvent : Type 0 where
  log : (seq : ℕ) (level message : Text) → KemEvent
  cell : (kem adapter : Text) (verdict : ResultStatus) (detail : Option Text) → KemEvent
  finished : (run_id : Uuid) → KemEvent

pub data Event : Type 0 where
  test : TestEvent → Event
  kem : KemEvent → Event
