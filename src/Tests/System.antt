-- ===== src/Tests/System.antt =====
-- A test that is created and then handled by a worker with one adapter.
use pqc_sec_inspection_cours.Prelude.{
  refl, List, [], ◌∷◌, All, All-self, Text, Result, ok, err, codes, trim, text_eq, contains_text,
  starts_with, as_i32, as_u16,
}
use pqc_sec_inspection_cours.Domain.Jobs.{ProbeJob}
use pqc_sec_inspection_cours.Worker.World.{World}
use pqc_sec_inspection_cours.Worker.Store.{of_test}
use pqc_sec_inspection_cours.Worker.Rules.{Yields}
use pqc_sec_inspection_cours.Worker.Closing.{IsOver}
use pqc_sec_inspection_cours.Worker.Delivery.Batch.{AllAcked, AllCarry, deliver_all}
use pqc_sec_inspection_cours.Worker.Stream.{Delivery}
use pqc_sec_inspection_cours.Api.Tests.{
  create_test, reject_unknown, unknown_names, enqueue_probes, subtask_rows,
}
use pqc_sec_inspection_cours.Api.Database.{◌>>=◌, lift, pure, query, statement, push}
use pqc_sec_inspection_cours.Api.Selection.{dedupe, adapter_for}
use pqc_sec_inspection_cours.Api.Grid.{expand}
use pqc_sec_inspection_cours.Api.Creation.{check_new_test, subtask_count}
use pqc_sec_inspection_cours.System.{HasClosed, create_test-deliver_all}
use pqc_sec_inspection_cours.System.Queued.{ReturnsAll}
use pqc_sec_inspection_cours.Tests.Worker.{env, world}
use pqc_sec_inspection_cours.Tests.Laboratory.{healthy, database, settings, selection, in_order}
use pqc_sec_inspection_cours.Tests.Handlers.{
  created_test, created_run, rows-IsFresh, some_group, some_alg,
}

every_row : ReturnsAll healthy
every_row call rows = All-self rows

-- The worker finds the tables as the API left them.
abbrev shared : World (Unit {0})
shared = record world {
  subtasks = (create_test healthy settings selection database).1.subtasks;
  tests = (create_test healthy settings selection database).1.tests;
}

abbrev queued : List ProbeJob
queued = (create_test healthy settings selection database).1.probe_jobs

-- The payload of an entry counts the jobs.
abbrev nth : List ProbeJob → Text → Result ProbeJob Text
nth [] payload = err (codes "no job")
nth (job ∷ jobs) [] = ok job
nth (job ∷ jobs) (_ ∷ payload) = nth jobs payload

abbrev entries : List Delivery
entries =
    record { stream = codes "jobs:probe"; id = codes "1-0"; payload = [] }
    ∷ record { stream = codes "jobs:probe"; id = codes "2-0"; payload = 1 ∷ [] }
    ∷ []

entries_carry : AllCarry (nth queued) entries queued
unfolding create_test reject_unknown unknown_names enqueue_probes subtask_rows ◌>>=◌ lift pure query
    statement push dedupe expand check_new_test subtask_count codes trim text_eq contains_text
    starts_with as_i32 as_u16 adapter_for
entries_carry = (refl, refl, (refl, refl, tt))

create_test-deliver_all_example :
    Yields (deliver_all (nth queued) (λ _. err (codes "no job")) env entries) shared (λ _ w.
      AllAcked entries w.acked × All IsOver (of_test 300 w.subtasks) × HasClosed 300 w.tests)
create_test-deliver_all_example =
    create_test-deliver_all healthy settings selection env (nth queued) (λ _. err (codes "no job"))
      database created_test shared queued entries in_order every_row some_group some_alg created_run
      rows-IsFresh (λ n. refl) refl refl refl entries_carry
