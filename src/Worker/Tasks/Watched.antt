-- ===== src/Worker/Tasks/Watched.antt =====
-- What every turn preserves: no row of the test and no closing is forgotten
-- (services/worker/src/probe.rs and store.rs), in every order of the turns.
use pqc_sec_inspection_cours.Prelude.{
  ◌≡◌, refl, sym, ◌⊎◌, inl, inr, true, List, [], ◌∷◌, ◌++◌, All, All-imp, Some, ◌==◌, subst,
}
use pqc_sec_inspection_cours.Domain.Jobs.{Uuid, ProbeJob}
use pqc_sec_inspection_cours.Domain.Models.{Subtask}
use pqc_sec_inspection_cours.Worker.World.{World, Env}
use pqc_sec_inspection_cours.Worker.Closing.{IsOver}
use pqc_sec_inspection_cours.Worker.Probe.Due.{All-filter, filter-All}
use pqc_sec_inspection_cours.Worker.Probe.Ended.{IsClosed}
use pqc_sec_inspection_cours.Worker.Tasks.{
  Stage, advance, Task, Floor, task_at, floor_of, IsElsewhere, Step, turn, elsewhere, Runs, begin,
  next,
}
use pqc_sec_inspection_cours.Worker.Tasks.Tables.{AllOver, AllClosed}
use pqc_sec_inspection_cours.Worker.Tasks.Turns.{IsOpen, WillClose}
use pqc_sec_inspection_cours.Worker.Tasks.Sound.{advance-Sound}

module _ {A : Type 0} (P : A → Type 0) where
  -- One element of a list, and the others.
  Some-split :
      (before : List A) (a : A) (after : List A)
      → Some P (before ++ a ∷ after)
      → P a ⊎ Some P (before ++ after)
  Some-split [] a after h = h
  Some-split (b ∷ before) a after (inl h) = inr (inl h)
  Some-split (b ∷ before) a after (inr h) = elim (Some-split before a after h) [
    | inl here ↦ inl here
    | inr there ↦ inr (inr there)
  ]

  Some-insert :
      (before : List A) (a : A) (after : List A)
      → P a ⊎ Some P (before ++ after)
      → Some P (before ++ a ∷ after)
  Some-insert [] a after h = h
  Some-insert (b ∷ before) a after (inl here) = inr (Some-insert before a after (inl here))
  Some-insert (b ∷ before) a after (inr (inl h)) = inl h
  Some-insert (b ∷ before) a after (inr (inr h)) = inr (Some-insert before a after (inr h))

  pub All-here : (before : List A) (a : A) (after : List A) → All P (before ++ a ∷ after) → P a
  All-here [] a after h = h.0
  All-here (b ∷ before) a after h = All-here before a after h.1

  pub All-replace :
      (before : List A) (a c : A) (after : List A)
      → P c
      → All P (before ++ a ∷ after)
      → All P (before ++ c ∷ after)
  All-replace [] a c after new h = (new, h.1)
  All-replace (b ∷ before) a c after new h = (h.0, All-replace before a c after new h.1)

module _ {Json : Type 0} where
  abbrev pub HasOpen : Uuid → Task Json → Type 0
  HasOpen i k = IsOpen k.stage × (k.job.subtask_id ≡ i)

  abbrev pub Awaited : List (Task Json) → Subtask → Type 0
  Awaited tasks s = IsOver s ⊎ Some (HasOpen s.id) tasks

  -- Nothing of the test is forgotten: each row is over or open in a task, and once all are over
  -- the test is closed or some task will close it.
  pub record Watched (id : Uuid) (s : Floor Json) : Type 0 where
    pub own : All (λ k. k.job.test_id ≡ id) s.tasks
    pub rows : All (λ r. (r.test_id == id) ≡ true → Awaited s.tasks r) s.world.subtasks
    pub closing :
        AllOver id s.world.subtasks
        → AllClosed id s.world.tests ⊎ Some (λ k. WillClose k.stage) s.tasks

  module _ (env : Env Json) where
    turn-Watched :
        (before : List (Task Json)) (job : ProbeJob) (stage : Stage Json) (after : List (Task Json))
        (w : World Json)
        → Watched job.test_id (floor_of (before ++ task_at job stage ∷ after) w)
        → Watched job.test_id (
            floor_of
              (before ++ task_at job (advance env job stage w).0 ∷ after)
              (advance env job stage w).1)
    turn-Watched before job stage after w h =
        let Other : Uuid → Type 0 = λ i. Some (HasOpen i) (before ++ after) in
        let Else : Type 0 = Some (λ (k : Task Json). WillClose k.stage) (before ++ after) in
        let (due, closing) = advance-Sound env Other Else job stage w (
          All-imp
              (λ r due same. elim (due same) [
                | inl over ↦ inl over
                | inr m ↦ inr (Some-split (HasOpen r.id) before (task_at job stage) after m)
              ])
              w.subtasks h.rows,
          λ over. elim (h.closing over) [
            | inl closed ↦ inl closed
            | inr m ↦ inr (Some-split (λ k. WillClose k.stage) before (task_at job stage) after m)
          ],
        ) in
        let moved : Task Json = task_at job (advance env job stage w).0 in
        record {
          own =
              All-replace (λ k. k.job.test_id ≡ job.test_id) before (task_at job stage) moved after
                refl h.own;
          rows =
              All-imp
                (λ r due_now same. elim (due_now same) [
                  | inl over ↦ inl over
                  | inr m ↦ inr (Some-insert (HasOpen r.id) before moved after m)
                ])
                (advance env job stage w).1.subtasks due;
          closing = λ over. elim (closing over) [
            | inl closed ↦ inl closed
            | inr m ↦ inr (Some-insert (λ k. WillClose k.stage) before moved after m)
          ];
        }

    elsewhere-Watched :
        (id : Uuid) (s : Floor Json) (w : World Json)
        → IsElsewhere id s.world w
        → Watched id s
        → Watched id (floor_of s.tasks w)
    elsewhere-Watched id s w e h = record {
      own = h.own;
      rows =
          filter-All (Awaited s.tasks) (λ r. r.test_id == id) w.subtasks
            (subst (All (Awaited s.tasks)) (sym e.0)
              (All-filter (Awaited s.tasks) (λ r. r.test_id == id) s.world.subtasks h.rows));
      closing = λ over. elim (h.closing (subst (All IsOver) e.0 over)) [
        | inl closed ↦ inl (subst (All IsClosed) (sym e.1) closed)
        | inr m ↦ inr m
      ];
    }

    Step-Watched : (id : Uuid) {s t : Floor Json} → Step env id s t → Watched id s → Watched id t
    Step-Watched id {s} (turn before job stage after e) h =
        let here : Watched id (floor_of (before ++ task_at job stage ∷ after) s.world) =
          subst (λ tasks. Watched id (floor_of tasks s.world)) e h in
        subst
          (λ i.
            Watched i (floor_of (before ++ task_at job stage ∷ after) s.world)
            → Watched i (
                floor_of (before ++ task_at job (advance env job stage s.world).0 ∷ after)
                  (advance env job stage s.world).1))
          (All-here (λ k. k.job.test_id ≡ id) before (task_at job stage) after here.own)
          (turn-Watched before job stage after s.world) here
    Step-Watched id {s} (elsewhere w e) h = elsewhere-Watched id s w e h

    pub Runs-Watched :
        (id : Uuid) {s t : Floor Json} → Runs env id s t → Watched id s → Watched id t
    Runs-Watched id begin h = h
    Runs-Watched id (next r step) h = Step-Watched id step (Runs-Watched id r h)
