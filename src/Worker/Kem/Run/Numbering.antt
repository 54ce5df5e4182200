-- ===== src/Worker/Kem/Run/Numbering.antt =====
-- The numbers of the log lines of a KEM run (services/worker/src/kem.rs).
use pqc_sec_inspection_cours.Prelude.{
  ℕ, zero, suc, ◌≤◌, ◌≡◌, refl, inl, inr, false, Option, none, some, List, [], ◌∷◌, ◌++◌, Text, All,
  arith, Option-cases, Result, ok, err,
}
use pqc_sec_inspection_cours.Proto.{ProbeRequest, Capabilities, HttpOutcome}
use pqc_sec_inspection_cours.Domain.Status.{
  ResultStatus, KemRunMode, library_compat, group_compat, priority,
}
use pqc_sec_inspection_cours.Domain.Jobs.{Uuid, KemJob, Channel, Event}
use pqc_sec_inspection_cours.Domain.Models.{KemRunLog}
use pqc_sec_inspection_cours.Worker.World.{World, Env, Action, pure, fail, publish}
use pqc_sec_inspection_cours.Worker.Adapters.{capabilities, probe}
use pqc_sec_inspection_cours.Worker.Probe.{attempt}
use pqc_sec_inspection_cours.Worker.Rules.{
  Keeps, Keeps-pure, Keeps-bind, Keeps-if, Keeps-perform, Keeps-insert,
}
use pqc_sec_inspection_cours.Worker.Kem.Console.{
  is_logged, line, bump_seq, insert_line, publish_line, log_line, put_cell,
}
use pqc_sec_inspection_cours.Worker.Kem.Run

-- Every log line of the run has a number that the console has passed.
abbrev pub IsBelow : Uuid → ℕ → KemRunLog → Type 0
IsBelow run_id n l = l.run_id ≡ run_id → l.seq ≤ n

pub All-IsBelow-suc :
    (run_id : Uuid) (n : ℕ) (ls : List KemRunLog)
    → All (IsBelow run_id n) ls
    → All (IsBelow run_id (suc n)) ls
All-IsBelow-suc run_id n [] h = tt
All-IsBelow-suc run_id n (l ∷ ls) h = (λ e. omega (arith, h.0 e), All-IsBelow-suc run_id n ls h.1)

pub All-concat :
    (run_id : Uuid) (n : ℕ) (ls : List KemRunLog) (l : KemRunLog)
    → All (IsBelow run_id n) ls
    → l.seq ≤ n
    → All (IsBelow run_id n) (ls ++ l ∷ [])
All-concat run_id n [] l h k = (λ _. k, tt)
All-concat run_id n (m ∷ ls) l h k = (h.0, All-concat run_id n ls l h.1 k)

-- The next number is free.
pub is_logged-suc :
    (run_id : Uuid) (n : ℕ) (ls : List KemRunLog)
    → All (IsBelow run_id n) ls
    → is_logged run_id (suc n) ls ≡ false
is_logged-suc run_id n [] h = refl
is_logged-suc run_id n (l ∷ ls) h = ground (arith, is_logged-suc run_id n ls h.1, h.0)

module _ {Json : Type 0} where
  abbrev pub Fresh : Uuid → World Json → Type 0
  Fresh run_id w = All (IsBelow run_id w.seq) w.kem_logs

  -- An action that leaves the log and the console alone.
  abbrev pub Frames : {A : Type 0} → Action Json A → Type 0
  Frames m = (w : World Json) → ((m w).1.seq ≡ w.seq) × ((m w).1.kem_logs ≡ w.kem_logs)

  pub Frames-Keeps :
      {A : Type 0} (run_id : Uuid) (m : Action Json A) → Frames m → Keeps (Fresh run_id) m
  Frames-Keeps run_id m f = record { at = λ w h. rw ((f w).0, (f w).1) h }

  pub attempt-Keeps :
      {A : Type 0} (run_id : Uuid) (m : Action Json A)
      → Keeps (Fresh run_id) m
      → Keeps (Fresh run_id) (attempt m)
  unfolding attempt
  attempt-Keeps run_id m k = record { at = λ w h. k.at w h }

  pub for_each-Keeps :
      {A : Type 0} (run_id : Uuid) (xs : List A) (body : A → Action Json (Unit {0}))
      → ((x : A) → Keeps (Fresh run_id) (body x))
      → Keeps (Fresh run_id) (Run.for_each xs body)
  unfolding Run.for_each
  for_each-Keeps run_id [] body k = Keeps-pure tt
  for_each-Keeps run_id (x ∷ xs) body k =
      Keeps-bind _ _ (k x) (λ _. for_each-Keeps run_id xs body k)

  module _ (env : Env Json) where
    pub probe-Frames : (adapter : Text) (r : ProbeRequest) → Frames (probe env adapter r)
    unfolding probe
    probe-Frames adapter r w = ground arith

    pub capabilities-Frames : (adapter : Text) → Frames (capabilities env adapter)
    unfolding capabilities
    capabilities-Frames adapter w = ground arith

    pub preferred-Frames : (cs : List Text) → Frames (Run.preferred_from env cs)
    unfolding Run.preferred_from pure fail
    preferred-Frames [] w = ground arith
    preferred-Frames (c ∷ cs) w = ground (arith, preferred-Frames cs w)

    module _ (run_id : Uuid) where
      pub bump_seq-Keeps : Keeps (Fresh run_id) (bump_seq env run_id)
      unfolding bump_seq pure
      bump_seq-Keeps = record { at = λ w h. All-IsBelow-suc run_id w.seq w.kem_logs h }

      pub insert_line-Keeps :
          (level message : Text) → Keeps (Fresh run_id) (insert_line env run_id level message)
      unfolding insert_line
      insert_line-Keeps level message =
          Keeps-insert env _ _ (λ w h. h)
            λ w h.
              All-concat run_id w.seq w.kem_logs (line env run_id level message w) h (omega arith)

      pub publish-Keeps : (c : Channel) (e : Event) → Keeps (Fresh run_id) (publish env c e)
      unfolding publish
      publish-Keeps c e = Keeps-perform env _ (λ w h. h) (λ w h. h)

      pub publish_line-Keeps :
          (level message : Text) → Keeps (Fresh run_id) (publish_line env run_id level message)
      unfolding publish_line
      publish_line-Keeps level message = record { at = λ w h. (publish-Keeps _ _).at w h }

      pub log_line-Keeps :
          (level message : Text) → Keeps (Fresh run_id) (log_line env run_id level message)
      unfolding log_line
      log_line-Keeps level message = Keeps-bind _ _ bump_seq-Keeps λ _.
          Keeps-bind _ _ (insert_line-Keeps level message) λ _. publish_line-Keeps level message

      pub put_cell-Keeps :
          (kem adapter : Text) (v : ResultStatus) (d : Option Text)
          → Keeps (Fresh run_id) (put_cell env run_id kem adapter v d)
      unfolding put_cell
      put_cell-Keeps kem adapter v d =
          Keeps-bind _ _ (Keeps-perform env _ (λ w h. h) (λ w h. h)) λ _. publish-Keeps _ _

    module _ (job : KemJob) where
      abbrev pub Keep : {A : Type 0} → Action Json A → Type 0
      Keep m = Keeps (Fresh job.run_id) m

      pub logs : (level message : Text) → Keep (Run.log env job level message)
      unfolding Run.log
      logs level message = log_line-Keeps job.run_id level message

      pub probes : (adapter : Text) (r : ProbeRequest) → Keep (probe env adapter r)
      probes adapter r = Frames-Keeps job.run_id _ (probe-Frames adapter r)

      pub asks : (adapter : Text) → Keep (capabilities env adapter)
      asks adapter = Frames-Keeps job.run_id _ (capabilities-Frames adapter)

      pub prefers : Keep (Run.preferred_adapter env)
      unfolding Run.preferred_adapter
      prefers = Frames-Keeps job.run_id _ (preferred-Frames Run.candidates)

      pub advertises-Keep :
          (kem adapter : Text) (r : Result Capabilities Text)
          → Keep (Run.advertises env job kem adapter r)
      unfolding Run.advertises
      advertises-Keep kem adapter (ok caps) = Keeps-pure _
      advertises-Keep kem adapter (err e) = Keeps-bind _ _ (logs _ _) λ _. Keeps-pure _

      pub probe_cell-Keep : (kem adapter : Text) → Keep (Run.probe_cell env job kem adapter)
      unfolding Run.probe_cell
      probe_cell-Keep kem adapter =
          Keeps-bind _ _ (probes _ _)
            λ r. Keeps-bind _ _ (put_cell-Keeps job.run_id _ _ _ _) λ _. logs _ _

      pub matrix_cell-Keep : (kem adapter : Text) → Keep (Run.matrix_cell env job kem adapter)
      unfolding Run.matrix_cell Run.configured_cell
      matrix_cell-Keep kem adapter = Keeps-if _ _ _ (put_cell-Keeps job.run_id _ _ _ _) (
          Keeps-bind _ _ (attempt-Keeps job.run_id _ (asks adapter)) λ caps.
            Keeps-bind _ _ (advertises-Keep kem adapter caps) λ supported.
              Keeps-if _ _ _ (put_cell-Keeps job.run_id _ _ _ _) (probe_cell-Keep kem adapter))

      pub library_compat-Keep : Keep (Run.library_compat_run env job)
      unfolding Run.library_compat_run
      library_compat-Keep = Keeps-bind _ _ (logs _ _) λ _.
          Keeps-bind _ _
            (for_each-Keeps job.run_id Run.matrix_kems _ λ kem.
              for_each-Keeps job.run_id Run.matrix_adapters _
                (λ adapter. matrix_cell-Keep kem adapter))
            λ _. logs _ _

      pub show_http-Keep : (http : Option HttpOutcome) → Keep (Run.show_http env job http)
      unfolding Run.show_http Run.show_header
      show_http-Keep none = Keeps-pure _
      show_http-Keep (some http) = Keeps-bind _ _ (logs _ _) λ _. Keeps-bind _ _ (logs _ _) λ _.
          Keeps-bind _ _ (for_each-Keeps job.run_id http.headers _ (λ h. logs _ _))
            λ _. Keeps-bind _ _ (logs _ _) λ _. logs _ _

      pub group_compat-Keep : Keep (Run.group_compat_run env job)
      unfolding Run.group_compat_run Run.report_handshake
      group_compat-Keep = Keeps-bind _ _ prefers λ adapter. Keeps-bind _ _ (logs _ _) λ _.
          Keeps-bind _ _ (logs _ _) λ _. Keeps-bind _ _ (probes _ _) λ r.
            Keeps-if _ _ _ (Keeps-bind _ _ (logs _ _) λ _. logs _ _)
              (Keeps-bind _ _ (show_http-Keep r.http) λ _. logs _ _)

      pub rounds-Keep :
          (fuel : ℕ) (adapter : Text) (remaining order : List Text)
          → Keep (Run.probe_rounds env job fuel adapter remaining order)
      unfolding Run.probe_rounds
      rounds-Keep zero adapter remaining order = Keeps-pure _
      rounds-Keep (suc fuel) adapter [] order = Keeps-pure _
      rounds-Keep (suc fuel) adapter (g ∷ gs) order = Keeps-bind _ _ (probes _ _) λ r.
          elim (Option-cases (Run.chosen r)) [
            | inl e ↦ rw e (Keeps-pure order)
            | inr (group, e) ↦ rw e (
                Keeps-bind _ _ (logs _ _)
                  λ _. Keeps-if _ _ _ (Keeps-pure _) (rounds-Keep fuel adapter _ _))
          ]

      pub report_findings-Keep : (fs : List Text) → Keep (Run.report_findings env job fs)
      unfolding Run.report_findings
      report_findings-Keep [] = logs _ _
      report_findings-Keep (f ∷ fs) =
          for_each-Keeps job.run_id (f ∷ fs) _ (λ g. unfold Run.warn in logs _ _)

      pub priority-Keep : Keep (Run.priority_run env job)
      unfolding Run.priority_run
      priority-Keep = Keeps-bind _ _ prefers λ adapter. Keeps-bind _ _ (logs _ _) λ _.
          Keeps-bind _ _ (logs _ _) λ _. Keeps-bind _ _ (asks _) λ caps.
            Keeps-bind _ _ (rounds-Keep _ _ _ _)
              λ order. Keeps-bind _ _ (report_findings-Keep _) λ _. logs _ _

      pub run_mode-Keeps :
          (mode : KemRunMode) → Keeps (Fresh job.run_id) (Run.run_mode env job mode)
      unfolding Run.run_mode
      run_mode-Keeps library_compat = library_compat-Keep
      run_mode-Keeps group_compat = group_compat-Keep
      run_mode-Keeps priority = priority-Keep
