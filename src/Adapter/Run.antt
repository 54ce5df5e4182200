-- ===== src/Adapter/Run.antt =====
-- One probe: the client is launched, fed and read (adapters/cli/src/backend.rs,
-- adapters/cli/src/server.rs).
pub mod Reports
use pqc_sec_inspection_cours.Prelude.{
  ℕ, Bool, Option, none, some, List, [], ◌∷◌, ◌++◌, is_empty, Text, codes, trim, join, show_nat,
  if◌then◌else◌, Result, ok, err,
}
use pqc_sec_inspection_cours.Proto.{
  ProbeRequest, ProbeResponse, Evidence, tcp, tls_handshake, failure,
}
use pqc_sec_inspection_cours.Adapter.Config.{Config, adapter_name}
use pqc_sec_inspection_cours.Adapter.Groups.{Backend, openssl, boringssl, wolfssl, mock}
use pqc_sec_inspection_cours.Adapter.Args.{
  openssl_args, boringssl_args, wolfssl_args, http_request_line,
}
use pqc_sec_inspection_cours.Adapter.Stacks.{
  parse_openssl, parse_boringssl, parse_wolfssl, mock_response,
}

-- What becomes of a client that is launched: it cannot be launched, it does not end in time,
-- waiting for it fails, or it ends and has written these texts.
pub data Ending : Type 0 where
  not_launched : (error : Text) → Ending
  timed_out : Ending
  not_awaited : (error : Text) → Ending
  ended : (stdout stderr : Text) → Ending

-- The operating system and the libraries: what a client does with its arguments, its input and
-- its time limit, the milliseconds that the probe takes, `char::is_numeric`, base64, and the JSON
-- object of an offer.
pub record Host (Json : Type 0) : Type 0 where
  pub launch : Text → Option Text → List Text → Text → ℕ → Ending
  pub elapsed_ms : ℕ
  pub is_numeric : ℕ → Bool
  pub base64 : Text → Text
  pub null : Json
  pub offer : List Text → List Text → Json

module _ {Json : Type 0} (host : Host Json) where
  -- `unreachable!()` at `Mock`, which is handled before.
  unfoldable pub args_of : Backend → ProbeRequest → List Text
  args_of openssl request = openssl_args request
  args_of boringssl request = boringssl_args request
  args_of wolfssl request = wolfssl_args request
  args_of mock request = []

  unfoldable pub parse_output : Config → Backend → ProbeRequest → Text → Text → ProbeResponse Json
  parse_output config openssl request stdout stderr =
      parse_openssl host.offer host.is_numeric (adapter_name config) request stdout stderr
  parse_output config boringssl request stdout stderr =
      parse_boringssl host.offer (adapter_name config) request stdout stderr
  parse_output config wolfssl request stdout stderr =
      parse_wolfssl host.offer (adapter_name config) request stdout stderr
  parse_output config mock request stdout stderr = mock_response host.offer config request

  unfoldable pub transcript : Config → List Text → Text → Text → Text
  transcript config args stdout stderr =
      codes "$ "
      ++ (config.client_bin
          ++ (codes " "
              ++ (join (codes " ") args
                  ++ (codes "\n--- stdout ---\n"
                      ++ (stdout ++ (codes "\n--- stderr ---\n" ++ stderr))))))

  -- The transcript, if raw records are asked for.
  unfoldable pub capture : Bool → Text → ProbeResponse Json → ProbeResponse Json
  capture raw text response =
      if raw
      then record response {
        evidence = record response.evidence { uds_dump_b64 = some (host.base64 text) };
      }
      else response

  unfoldable pub timed : ProbeResponse Json → ProbeResponse Json
  timed response = record response { duration_ms = host.elapsed_ms }

  unfoldable pub report_of : Config → Backend → ProbeRequest → Ending → ProbeResponse Json
  report_of config backend request (not_launched e) =
      failure host.null (adapter_name config) tcp
        (codes "cannot launch " ++ (config.client_bin ++ (codes ": " ++ e)))
  report_of config backend request timed_out =
      failure host.null (adapter_name config) tls_handshake
        (codes "timed out after " ++ (show_nat request.timeout_ms ++ codes " ms"))
  report_of config backend request (not_awaited e) =
      failure host.null (adapter_name config) tcp (codes "client failed: " ++ e)
  report_of config backend request (ended stdout stderr) = timed (
      capture request.capture.raw_records
        (transcript config (args_of backend request) stdout stderr)
        (parse_output config backend request stdout stderr))

  unfoldable pub run_client : Config → Backend → ProbeRequest → ProbeResponse Json
  run_client config backend request = report_of config backend request (
      host.launch config.client_bin config.workdir (args_of backend request)
        (http_request_line request) request.timeout_ms)

  -- `backend::run`
  unfoldable pub run : Config → Backend → ProbeRequest → ProbeResponse Json
  run config mock request = timed (mock_response host.offer config request)
  run config openssl request = run_client config openssl request
  run config boringssl request = run_client config boringssl request
  run config wolfssl request = run_client config wolfssl request

  -- The endpoint `POST /probe`: an error is a bad request with this text.
  unfoldable pub probe_endpoint : Config → Backend → ProbeRequest → Result (ProbeResponse Json) Text
  probe_endpoint config backend request =
      if is_empty (trim request.target.host)
      then err (codes "target host is required")
      else ok (run config backend request)
