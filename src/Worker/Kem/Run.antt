-- ===== src/Worker/Kem/Run.antt =====
-- The three modes of a KEM run (services/worker/src/kem.rs).
pub mod Numbering
pub mod Fresh
pub mod Offers
pub mod Rounds
pub mod Recovery
pub mod Redelivered
use pqc_sec_inspection_cours.Prelude.{
  ℕ, zero, suc, Bool, true, false, not, Option, none, some, List, [], ◌∷◌, ◌++◌, map, head?, length,
  filter, any, is_empty, Text, codes, join, show_nat, text_eq, eq_ignore_ascii_case, unwrap_or,
  or_else, update_where, ◌==◌, ◌&&◌, if◌then◌else◌, Result, ok, err,
}
use pqc_sec_inspection_cours.Proto.{
  ProbeRequest, ProbeResponse, Target, new_request, Capabilities, HttpOutcome, MessageField,
}
use pqc_sec_inspection_cours.Domain.Status.{
  ResultStatus, TaskStatus, KemRunMode, library_compat, group_compat, priority,
}
use pqc_sec_inspection_cours.Domain.Jobs.{Uuid, KemJob}
use pqc_sec_inspection_cours.Domain.Models.{KemRun}
use pqc_sec_inspection_cours.Worker.World.{World, Env, Action, pure, fail, ◌>>=◌, ◌>>◌, perform}
use pqc_sec_inspection_cours.Worker.Adapters.{names, is_configured, capabilities, probe}
use pqc_sec_inspection_cours.Worker.Probe.{attempt}
use pqc_sec_inspection_cours.Worker.Kem.Order.{evaluate_order}
use pqc_sec_inspection_cours.Worker.Kem.Console.{log_line, put_cell, finish}
use pqc_sec_inspection_cours.Worker.Kem.Texts.{
  request_for, unknown, status_text, banner, info, result, rule, pass_text, quoted, result_line,
  failure_reason,
}

abbrev pub matrix_adapters : List Text
matrix_adapters =
    codes "openssl"
    ∷ codes "boringssl"
    ∷ codes "wolfssl"
    ∷ codes "go"
    ∷ codes "bouncycastle"
    ∷ codes "aws-lc"
    ∷ codes "nss"
    ∷ codes "circl"
    ∷ []

abbrev pub matrix_kems : List Text
matrix_kems =
    codes "MLKEM1024"
    ∷ codes "MLKEM768"
    ∷ codes "SecP256r1MLKEM768"
    ∷ codes "SecP384r1MLKEM1024"
    ∷ codes "X25519Kyber768Draft00"
    ∷ codes "X25519MLKEM768"
    ∷ []

abbrev pub candidates : List Text
candidates = codes "openssl" ∷ codes "go" ∷ codes "boringssl" ∷ codes "wolfssl" ∷ []

abbrev pub pass_or_fail : Bool → ResultStatus
pass_or_fail true = ResultStatus.passed
pass_or_fail false = ResultStatus.failed

-- The groups that were not chosen: `remaining.retain(…)`.
unfoldable pub others : Text → List Text → List Text
others group remaining = filter (λ g. not (eq_ignore_ascii_case g group)) remaining

module _ {Json : Type 0} where
  -- `for x in xs { body(x)?; }`
  unfoldable pub for_each :
      {A : Type 0} → List A → (A → Action Json (Unit {0})) → Action Json (Unit {0})
  for_each [] body = pure tt
  for_each (x ∷ xs) body = body x >> for_each xs body

  -- The group that the server chose, if the handshake succeeded and names one.
  unfoldable pub chosen : ProbeResponse Json → Option Text
  chosen r = if r.handshake_success then r.negotiated.group else none

  module _ (env : Env Json) where
    unfoldable pub preferred_from : List Text → Action Json Text
    preferred_from [] = elim (head? (names env)) [
      | none ↦ fail (codes "no adapters are configured")
      | some name ↦ pure name
    ]
    preferred_from (candidate ∷ rest) =
        if is_configured env candidate then pure candidate else preferred_from rest

    unfoldable pub preferred_adapter : Action Json Text
    preferred_adapter = preferred_from candidates

    module _ (job : KemJob) where
      unfoldable pub log : Text → Text → Action Json (Unit {0})
      log level message = log_line env job.run_id level message

      -- Does the adapter advertise the group; an adapter that cannot say so does not.
      unfoldable pub advertises : Text → Text → Result Capabilities Text → Action Json Bool
      advertises kem adapter (ok caps) =
          pure (any (λ g. eq_ignore_ascii_case g kem) caps.kem_groups)
      advertises kem adapter (err e) = do
        log info (adapter ++ (codes ": capabilities unavailable (" ++ (e ++ codes ")")))
        pure false

      unfoldable pub probe_cell : Text → Text → Action Json (Unit {0})
      probe_cell kem adapter = do
        response ← probe env adapter (request_for job (kem ∷ []))
        put_cell env job.run_id kem adapter (pass_or_fail response.handshake_success)
            response.error_summary
        log info (
            adapter
            ++ (codes " × " ++ (kem ++ (codes ": " ++ pass_text response.handshake_success))))

      unfoldable pub configured_cell : Text → Text → Action Json (Unit {0})
      configured_cell kem adapter = do
        caps ← attempt (capabilities env adapter)
        supported ← advertises kem adapter caps
        if not supported
            then put_cell env job.run_id kem adapter ResultStatus.unsupported none
            else probe_cell kem adapter

      unfoldable pub matrix_cell : Text → Text → Action Json (Unit {0})
      matrix_cell kem adapter =
          if not (is_configured env adapter)
          then put_cell env job.run_id kem adapter ResultStatus.disabled none
          else configured_cell kem adapter

      unfoldable pub library_compat_run : Action Json (Unit {0})
      library_compat_run = do
        log info (banner (codes "run_library_compat") job)
        for_each matrix_kems (λ kem. for_each matrix_adapters (λ adapter. matrix_cell kem adapter))
        log result (codes "Result: compatibility matrix complete")

      unfoldable pub show_header : MessageField → Action Json (Unit {0})
      show_header header =
          log info (header.label ++ (codes ": " ++ join (codes ", ") header.values))

      unfoldable pub show_http : Option HttpOutcome → Action Json (Unit {0})
      show_http none = pure tt
      show_http (some http) = do
        log info rule
        log info
            (codes "HTTP/1.1 " ++ (show_nat http.status ++ (codes " " ++ status_text http.status)))
        for_each http.headers show_header
        log info rule
        log info (codes "response success")

      unfoldable pub report_handshake : ProbeResponse Json → Action Json (Unit {0})
      report_handshake response =
          if not response.handshake_success
          then (do
            log info (codes "key_gen TLS 完整交握失敗：")
            log result (codes "Result: HandshakeFailed - " ++ failure_reason response))
          else (do show_http response.http; log result (result_line response))

      unfoldable pub group_compat_run : Action Json (Unit {0})
      group_compat_run = do
        adapter ← preferred_adapter
        log info (banner (codes "run_full_handshake") job)
        log info (codes "Using KEMs: " ++ join (codes ", ") job.kem_groups)
        response ← probe env adapter (request_for job job.kem_groups)
        report_handshake response

      -- The probing loop, on fuel: each round that goes on has fewer groups left.
      unfoldable pub probe_rounds : ℕ → Text → List Text → List Text → Action Json (List Text)
      probe_rounds zero adapter remaining order = pure order
      probe_rounds (suc fuel) adapter [] order = pure order
      probe_rounds (suc fuel) adapter (g ∷ gs) order = do
        response ← probe env adapter (request_for job (g ∷ gs))
        elim (chosen response) [
          | none ↦ pure order
          | some group ↦ (do
            log info group
            if length (others group (g ∷ gs)) == length (g ∷ gs)
                then pure (order ++ group ∷ [])
                else probe_rounds fuel adapter (others group (g ∷ gs)) (order ++ group ∷ []))
        ]

      unfoldable pub warn : Text → Action Json (Unit {0})
      warn group = log (codes "finding_warn") (codes "[-] 伺服器將安全性較高演算法放在後面：" ++ group)

      unfoldable pub report_findings : List Text → Action Json (Unit {0})
      report_findings [] = log (codes "finding_ok") (codes "[+] 伺服器的演算法指定順序符合安全性等級從高到低的最佳實踐")
      report_findings (f ∷ fs) = for_each (f ∷ fs) warn

      -- What is offered at first: the job's groups, or all that the adapter has.
      unfoldable pub first_offer : Capabilities → List Text
      first_offer caps = if is_empty job.kem_groups then caps.kem_groups else job.kem_groups

      unfoldable pub priority_run : Action Json (Unit {0})
      priority_run = do
        adapter ← preferred_adapter
        log info (banner (codes "run_priority_test") job)
        log info (codes "=== 演算法指定順序測試 ===")
        caps ← capabilities env adapter
        order ← probe_rounds (length (first_offer caps)) adapter (first_offer caps) []
        report_findings (evaluate_order order)
        log result (codes "Final Order: [" ++ (join (codes ",") (map quoted order) ++ codes "]"))

      unfoldable pub run_mode : KemRunMode → Action Json (Unit {0})
      run_mode library_compat = library_compat_run
      run_mode group_compat = group_compat_run
      run_mode priority = priority_run

      unfoldable pub close_run : Result (Unit {0}) Text → Action Json (Unit {0})
      close_run (ok _) = finish env job.run_id TaskStatus.finished
      close_run (err e) = do
        log result (codes "Result: RunFailed - " ++ e)
        finish env job.run_id TaskStatus.failed

      abbrev pub start_run : KemRun → KemRun
      start_run r = record r { status = TaskStatus.running }

      -- `Console::new`
      unfoldable pub new_console : Action Json (Unit {0})
      new_console w = pure tt (record w { seq = 0 })

      unfoldable pub handle_kem : Action Json (Unit {0})
      handle_kem = do
        perform env
            λ w. record w { kem_runs = update_where (λ r. r.id == job.run_id) start_run w.kem_runs }
        new_console
        outcome ← attempt (run_mode job.mode)
        close_run outcome
