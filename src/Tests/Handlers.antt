-- ===== src/Tests/Handlers.antt =====
-- The handlers of the API on a concrete database.
use pqc_sec_inspection_cours.Api.Live.{subscribe, test_events, run_events}
use pqc_sec_inspection_cours.Api.Health.{relay}
use pqc_sec_inspection_cours.Api.Errors.{not_found}
use pqc_sec_inspection_cours.Domain.Jobs.{Channel}
use pqc_sec_inspection_cours.Api.Reading.{fetch_test}
use pqc_sec_inspection_cours.Api.Database.{push, Db}
use pqc_sec_inspection_cours.Prelude.{
  List, err, ◌≡◌, ◌≢◌, refl, arith, none, some, [], ◌∷◌, Text, codes, text_eq, trim, starts_with,
  contains_text, pos, as_i32, as_i64, as_u16, ok, Result,
}
use pqc_sec_inspection_cours.Json.{Json}
use pqc_sec_inspection_cours.Domain.Status.{TaskStatus, KemRunMode}
use pqc_sec_inspection_cours.Domain.Models.{Test, Matrix}
use pqc_sec_inspection_cours.Cavp.Report.{AnswerKey, ValidationReport}
use pqc_sec_inspection_cours.Api.Database.{◌>>=◌, lift, pure, query, statement}
use pqc_sec_inspection_cours.Api.Outcome.{Holds}
use pqc_sec_inspection_cours.Api.Selection.{dedupe, adapter_for}
use pqc_sec_inspection_cours.Api.Grid.{expand}
use pqc_sec_inspection_cours.Api.Creation.{check_new_test, subtask_count}
use pqc_sec_inspection_cours.Api.Tests.{
  create_test, reject_unknown, unknown_names, enqueue_probes, subtask_rows,
}
use pqc_sec_inspection_cours.Api.Tests.Atomic.{Atomic, create_test-Atomic}
use pqc_sec_inspection_cours.Api.Tests.Shown.{IsFresh, create_test-get_matrix}
use pqc_sec_inspection_cours.Api.Reading.{get_matrix}
use pqc_sec_inspection_cours.Api.Subtasks.{SubtaskDetail, get_subtask}
use pqc_sec_inspection_cours.Api.Subtasks.Neighbours.{get_subtask-neighbours}
use pqc_sec_inspection_cours.Api.KemRuns.{NewKemRun, create_run}
use pqc_sec_inspection_cours.Api.KemRuns.Created.{Created, create_run-Created}
use pqc_sec_inspection_cours.Api.Cavp.{validate_session}
use pqc_sec_inspection_cours.Api.Cavp.Sessions.{Settled, validate_session-Settled}
use pqc_sec_inspection_cours.Api.Catalog.{NewEndpoint, create_endpoint}
use pqc_sec_inspection_cours.Api.Catalog.Upserted.{Upserted, create_endpoint-Upserted}
use pqc_sec_inspection_cours.Tests.Documents.{Doc, reads, unhex}
use pqc_sec_inspection_cours.Tests.Laboratory.{
  healthy, in_order, stored, database, settings, selection,
}

get_subtask-neighbours_example :
    (d : SubtaskDetail Doc) × ((get_subtask healthy 12 database).0 ≡ ok d)
    × (d.subtask ≡ stored 1 12 1)
    × (d.previous_id ≡ some 11)
    × (d.next_id ≡ some 13)
    × (d.position ≡ pos 2)
    × (d.total ≡ as_i64 3)
get_subtask-neighbours_example =
    get_subtask-neighbours database (stored 1 11 0 ∷ []) (stored 1 12 1) (stored 1 13 2 ∷ []) refl
      (refl, (refl, (refl, tt))) healthy refl (λ n. refl)

create_test-Atomic_example :
    Holds
      (Atomic healthy settings selection database)
      (create_test healthy settings selection)
      database
create_test-Atomic_example = create_test-Atomic healthy settings selection in_order database

abbrev pub created_test : Test
created_test = record {
  id = 300;
  host = codes "example.org";
  port = pos 443;
  http_path = codes "/";
  method = codes "GET";
  tool = codes "tls";
  plugin = codes "openssl";
  status = TaskStatus.pending;
  group_count = pos 1;
  sig_alg_count = pos 2;
  subtask_count = pos 2;
  created_at = 3;
  started_at = none;
  finished_at = none;
}

pub created_run : (create_test healthy settings selection database).0 ≡ ok created_test
unfolding create_test reject_unknown unknown_names enqueue_probes subtask_rows ◌>>=◌ lift pure query
    statement dedupe expand check_new_test subtask_count codes trim text_eq contains_text
    starts_with as_i32 as_u16 adapter_for
created_run = refl

pub rows-IsFresh : IsFresh 300 database.subtasks
rows-IsFresh = (refl, (refl, (refl, (refl, tt))))

pub some_group : dedupe selection.groups ≢ []
unfolding dedupe codes trim text_eq contains_text
some_group e = cc

pub some_alg : dedupe selection.sig_algs ≢ []
unfolding dedupe codes trim text_eq contains_text
some_alg e = cc

create_test-get_matrix_example :
    (m : Matrix) × ((get_matrix healthy 300 (create_test healthy settings selection database).1).0
      ≡ ok m)
    × (m.groups ≡ dedupe selection.groups)
    × (m.sig_algs ≡ dedupe selection.sig_algs)
create_test-get_matrix_example =
    create_test-get_matrix healthy settings selection healthy database created_test in_order
      (omega arith) some_group some_alg created_run rows-IsFresh (λ n. refl)

abbrev compat_run : NewKemRun
compat_run = record {
  mode = KemRunMode.group_compat;
  endpoint = codes "lab";
  kem_groups = codes "mlkem768" ∷ [];
}

create_run-Created_example :
    Holds (Created healthy compat_run database) (create_run healthy compat_run) database
create_run-Created_example = create_run-Created healthy compat_run database

abbrev library : Json
library = reads Doc.null

abbrev reads_key : Doc → Result AnswerKey Text
reads_key d =
    ok (record {
      vs_id = pos 7;
      mode = codes "keyGen";
      parameter_set = codes "ML-DSA-65";
      cases = [];
    })

abbrev shows : ValidationReport → Result Doc Text
shows report = ok Doc.null

validate_session-Settled_example :
    Holds
      (Settled library unhex healthy reads_key shows 9 (codes "{}") database)
      (validate_session library unhex healthy reads_key shows 9 (codes "{}"))
      database
validate_session-Settled_example =
    validate_session-Settled library unhex healthy reads_key shows 9 (codes "{}") database

abbrev renamed_site : NewEndpoint
renamed_site = record {
  slug = codes "lab";
  label = codes "Lab 2";
  label_zh = codes "Lab 2";
  host = codes "lab.example.org";
  port = pos 8443;
  notes = none;
}

create_endpoint-Upserted_example :
    Holds (Upserted healthy renamed_site database) (create_endpoint healthy renamed_site) database
create_endpoint-Upserted_example = create_endpoint-Upserted healthy renamed_site database

-- The browser of a test gets what is sent on its channel, without what cannot be read; the stream
-- of a test that is not there is refused before Redis is called.
abbrev sent : Channel → List (Result Text Text)
sent channel = ok (codes "a") ∷ err (codes "not UTF-8") ∷ ok (codes "b") ∷ []

abbrev followed : Db Doc
followed = record database { tests = created_test ∷ [] }

events_run :
    ((test_events healthy (ok tt) sent 300 followed).0 ≡ ok (codes "a" ∷ codes "b" ∷ []))
    × (test_events healthy (ok tt) sent 301 followed
        ≡ (err (not_found (codes "test")), record followed { clock = 1 }))
    × ((run_events healthy (ok tt) sent 1 followed).0 ≡ err (not_found (codes "kem run")))
unfolding test_events run_events subscribe fetch_test ◌>>=◌ lift pure query push relay
events_run = (refl, refl, refl)
