-- ===== src/Adapter/Run/Reports.antt =====
-- The reports of a probe, whatever becomes of the client.
use pqc_sec_inspection_cours.Prelude.{
  ◌≡◌, refl, inl, inr, [], if◌then◌else◌, length, codes, not, ◌||◌, ◌++◌, ◌≤◌, arith, Bool, true,
  false, Option, none, some, is_some, List, Text,
}
use pqc_sec_inspection_cours.Proto.{ProbeRequest, ProbeResponse, HttpOutcome, tcp, tls_handshake}
use pqc_sec_inspection_cours.Adapter.Config.{Config}
use pqc_sec_inspection_cours.Adapter.Groups.{Backend, openssl, boringssl, wolfssl, mock}
use pqc_sec_inspection_cours.Adapter.Stacks.{
  is_success, parse_openssl, parse_boringssl, parse_wolfssl, mock_response, mock_refusal,
  mock_success, is_vulnerable, group_ok, sig_ok, combine, offered_first, mock_http,
}
use pqc_sec_inspection_cours.Adapter.Output.{parse_http}
use pqc_sec_inspection_cours.Adapter.Output.Bounds.{
  parse_http-bounded, byte_counts-bounded, first_error_line-bounded,
}
use pqc_sec_inspection_cours.Adapter.Response.Report.{
  Consistent, Bounded, failure-Consistent, build_response-Consistent, build_response-Bounded,
}
use pqc_sec_inspection_cours.Adapter.Run.{
  Host, Ending, not_launched, timed_out, not_awaited, ended, parse_output, capture, timed,
  report_of, run_client, run,
}

is_success-http :
    (cipher : Option Text) (http : Option HttpOutcome)
    → is_some http ≡ true
    → is_success cipher http ≡ true
unfolding is_success
is_success-http none http h = h
is_success-http (some c) http h = refl

if-elim {ℓ} :
    {A : Type ℓ} (P : A → Type 0) (b : Bool) {x y : A} → P x → P y → P (if b then x else y)
if-elim P true h k = h
if-elim P false h k = k

-- The two ways that the stand-in answers; its errors are short.
mock_response-elim :
    {Json : Type 0} (offer : List Text → List Text → Json) (P : ProbeResponse Json → Type 0)
    (config : Config) (request : ProbeRequest)
    → ((alert error : Text)
        → length error ≤ 300
        → P (mock_refusal offer config request alert error))
    → ((group sig : Text) → P (mock_success offer config request group sig))
    → P (mock_response offer config request)
unfolding mock_response codes
mock_response-elim offer P config request refusal success =
    let group = offered_first offer request.kem_groups in
    let known_group = group_ok offer config group in
    let known_sig = sig_ok offer config (offered_first offer request.sig_algs) in
    if-elim P (is_vulnerable offer request)
      (refusal (codes "bad_record_mac") (codes "InvalidTag:") (omega arith))
      (if-elim P (not known_group || not known_sig)
        (refusal (codes "handshake_failure")
          (codes "no shared "
            ++ (if known_group then codes "signature algorithm" else codes "group"))
          (if-elim (λ t. length (codes "no shared " ++ t) ≤ 300) known_group (omega arith)
            (omega arith)))
        (success group (offered_first offer request.sig_algs)))

module _ {Json : Type 0} (host : Host Json) (config : Config) where
  mock-Consistent : (request : ProbeRequest) → Consistent (mock_response host.offer config request)
  unfolding mock_refusal mock_success
  mock-Consistent request =
      mock_response-elim host.offer Consistent config request
        (λ alert error short.
          build_response-Consistent host.offer _ request false _ _ _ none _ _ (λ e. cc))
        (λ group sig. build_response-Consistent host.offer _ request true _ _ _ _ _ _ (λ e. refl))

  parse_output-Consistent :
      (backend : Backend) (request : ProbeRequest) (out error : Text)
      → Consistent (parse_output host config backend request out error)
  unfolding parse_output parse_openssl parse_boringssl parse_wolfssl
  parse_output-Consistent openssl request out error =
      build_response-Consistent host.offer _ request _ _ _ _ (parse_http out) _ _
        (is_success-http _ (parse_http out))
  parse_output-Consistent boringssl request out error =
      build_response-Consistent host.offer _ request _ _ _ _ (parse_http out) _ _
        (is_success-http _ (parse_http out))
  parse_output-Consistent wolfssl request out error =
      build_response-Consistent host.offer _ request _ _ _ _ (parse_http out) _ _
        (is_success-http _ (parse_http out))
  parse_output-Consistent mock request out error = mock-Consistent request

  -- The transcript and the time leave the rest as it is.
  timed-capture-Consistent :
      (raw : Bool) (text : Text) (r : ProbeResponse Json)
      → Consistent r
      → Consistent (timed host (capture host raw text r))
  unfolding Consistent timed capture
  timed-capture-Consistent true text r h = h
  timed-capture-Consistent false text r h = h

  timed-capture-Bounded :
      (raw : Bool) (text : Text) (r : ProbeResponse Json)
      → Bounded r
      → Bounded (timed host (capture host raw text r))
  unfolding Bounded timed capture
  timed-capture-Bounded true text r h = h
  timed-capture-Bounded false text r h = h

  report_of-Consistent :
      (backend : Backend) (request : ProbeRequest) (ending : Ending)
      → Consistent (report_of host config backend request ending)
  unfolding report_of
  report_of-Consistent backend request (not_launched e) =
      failure-Consistent host.null _ tcp _ (inl refl)
  report_of-Consistent backend request timed_out =
      failure-Consistent host.null _ tls_handshake _ (inr refl)
  report_of-Consistent backend request (not_awaited e) =
      failure-Consistent host.null _ tcp _ (inl refl)
  report_of-Consistent backend request (ended out error) =
      timed-capture-Consistent request.capture.raw_records _ _
        (parse_output-Consistent backend request out error)

  -- Whatever the stack, and whether the client could not be launched, did not end in time, could
  -- not be waited for or ended with any output, the report of a probe agrees with itself: the
  -- handshake succeeded exactly when the stage is the request or complete, the stage is complete
  -- exactly when there is an answer, and a success has no error.
  pub run-Consistent :
      (backend : Backend) (request : ProbeRequest) → Consistent (run host config backend request)
  unfolding run run_client capture
  run-Consistent mock request = timed-capture-Consistent false [] _ (mock-Consistent request)
  run-Consistent openssl request = report_of-Consistent openssl request _
  run-Consistent boringssl request = report_of-Consistent boringssl request _
  run-Consistent wolfssl request = report_of-Consistent wolfssl request _

  mock-Bounded : (request : ProbeRequest) → Bounded (mock_response host.offer config request)
  unfolding mock_refusal mock_success codes
  mock-Bounded request =
      mock_response-elim host.offer Bounded config request
        (λ alert error short.
          build_response-Bounded host.offer _ request false _ _ _ none _ (some error) tt
            (omega arith) (omega arith) short)
        (λ group sig.
          build_response-Bounded host.offer _ request true _ _ _ (some (mock_http host.offer)) _
            none (omega arith, omega arith) (omega arith) (omega arith) tt)

  parse_output-Bounded :
      (backend : Backend) (request : ProbeRequest) (out error : Text)
      → Bounded (parse_output host config backend request out error)
  unfolding parse_output parse_openssl parse_boringssl parse_wolfssl
  parse_output-Bounded openssl request out error =
      build_response-Bounded host.offer _ request _ _ _ _ (parse_http out) _ _
        (parse_http-bounded out) (byte_counts-bounded out).0 (byte_counts-bounded out).1
        (first_error_line-bounded (combine out error))
  parse_output-Bounded boringssl request out error =
      build_response-Bounded host.offer _ request _ _ _ _ (parse_http out) _ _
        (parse_http-bounded out) (omega arith) (omega arith)
        (first_error_line-bounded (combine out error))
  parse_output-Bounded wolfssl request out error =
      build_response-Bounded host.offer _ request _ _ _ _ (parse_http out) _ _
        (parse_http-bounded out) (omega arith) (omega arith)
        (first_error_line-bounded (combine out error))
  parse_output-Bounded mock request out error = mock-Bounded request

  -- Whatever a client has written when it ends, the report that is read off it is bounded: the
  -- status of the answer fits 16 bits and the counts of bytes fit 64, the excerpt of the body has
  -- at most 512 characters and the error at most 300.
  pub report_of-Bounded :
      (backend : Backend) (request : ProbeRequest) (out error : Text)
      → Bounded (report_of host config backend request (ended out error))
  unfolding report_of
  report_of-Bounded backend request out error =
      timed-capture-Bounded request.capture.raw_records _ _
        (parse_output-Bounded backend request out error)
