-- ===== src/Tests/Laboratory.antt =====
-- A small database and its services, for the runs of the API's handlers.
use pqc_sec_inspection_cours.Prelude.{
  ◌≡◌, refl, ℕ, ◌+◌, ◌*◌, inl, inr, true, none, List, [], ◌∷◌, All, Some, Text, codes, pos,
}
use pqc_sec_inspection_cours.Domain.Status.{Capability, ExecStatus, ResultStatus, ReportStatus}
use pqc_sec_inspection_cours.Domain.Models.{Algorithm, Endpoint, Subtask}
use pqc_sec_inspection_cours.Worker.World.{works}
use pqc_sec_inspection_cours.Api.Database.{Db, Services, Session, Pack}
use pqc_sec_inspection_cours.Api.Creation.{NewTest}
use pqc_sec_inspection_cours.Api.Tests.{Settings}
use pqc_sec_inspection_cours.Api.Tests.Atomic.{ReturnsRows}
use pqc_sec_inspection_cours.Tests.Documents.{Doc}

abbrev pub healthy : Services
healthy = record {
  fault = λ n. works;
  uuid = λ call index. 100 * call + index;
  now = λ call. call;
  returned = λ call rows. rows;
  carried_out = λ call. 0;
}

pub in_order : ReturnsRows healthy
in_order call rows = each rows (λ r h. h)
  where
    each :
        (some_rows : List Subtask)
        → ((r : Subtask) → Some (λ row. r ≡ row) some_rows → Some (λ row. r ≡ row) rows)
        → All (λ r. Some (λ row. r ≡ row) rows) some_rows
    each [] into = tt
    each (r ∷ some_rows) into = (into r (inl refl), each some_rows (λ q h. into q (inr h)))

abbrev pub algorithm : Text → Text → Algorithm
algorithm kind name = record {
  id = 1;
  kind = kind;
  name = name;
  display_name = name;
  family = none;
  enabled = true;
  sort_order = pos 0;
}

abbrev pub lab_site : Endpoint
lab_site = record {
  id = 7;
  slug = codes "lab";
  label = codes "Lab";
  label_zh = codes "Lab";
  host = codes "example.org";
  port = pos 443;
  notes = none;
  enabled = true;
}

abbrev pub stored : (test_id id n : ℕ) → Subtask
stored test_id id n = record {
  id = id;
  test_id = test_id;
  ordinal = pos n;
  group_name = codes "mlkem768";
  sig_alg = codes "mldsa65";
  exec_status = ExecStatus.queued;
  result_status = ResultStatus.pending;
  report_status = ReportStatus.missing;
  failed_stage = none;
  error_summary = none;
  started_at = none;
  finished_at = none;
}

abbrev pub pack : Pack Doc
pack = record {
  id = 5;
  slug = codes "mldsa";
  capability = Capability.key_gen;
  parameter_set = codes "ML-DSA-65";
  vs_id = pos 7;
  prompt = Doc.null;
  registration = Doc.null;
  answer_key = Doc.null;
}

abbrev pub lesson : Session Doc
lesson = record {
  id = 9;
  pack_id = 5;
  capability = Capability.key_gen;
  parameter_set = codes "ML-DSA-65";
  vs_id = pos 7;
  prompt = Doc.null;
  submitted = none;
  validation = none;
}

-- Two tests, of three cells and of one.
abbrev pub database : Db Doc
database = record {
  algorithms =
      algorithm (codes "kem_group") (codes "mlkem768")
      ∷ algorithm (codes "sig_alg") (codes "mldsa65")
      ∷ algorithm (codes "sig_alg") (codes "mldsa44")
      ∷ [];
  endpoints = lab_site ∷ [];
  tests = [];
  subtasks = stored 1 11 0 ∷ stored 2 20 0 ∷ stored 1 12 1 ∷ stored 1 13 2 ∷ [];
  reports = [];
  kem_runs = [];
  kem_logs = [];
  kem_cells = [];
  packs = pack ∷ [];
  sessions = lesson ∷ [];
  probe_jobs = [];
  kem_jobs = [];
  clock = 0;
}

abbrev pub settings : Settings
settings = record {
  max_subtasks_per_test = 512;
  default_adapter = codes "openssl";
  probe_timeout_ms = 15_000;
}

abbrev pub selection : NewTest
selection = record {
  host = codes "example.org";
  port = pos 443;
  http_path = codes "/";
  tool = codes "tls";
  plugin = codes "openssl";
  groups = codes "mlkem768" ∷ [];
  sig_algs = codes "mldsa65" ∷ codes " mldsa44" ∷ [];
}
