-- ===== src/Api/Cavp/Sessions.antt =====
-- What grading a session leaves (services/api/src/routes/cavp.rs).
use pqc_sec_inspection_cours.Prelude.{
  arith, update_where, suc, ◌≡◌, refl, ap, ◌∙◌, ◌⊎◌, inl, inr, ℕ, Option, none, some, List, find,
  Text, ◌==◌, Result, ok, err, ok_or-eq-ok,
}
use pqc_sec_inspection_cours.Json.{Json}
use pqc_sec_inspection_cours.Worker.World.{lost}
use pqc_sec_inspection_cours.Domain.Jobs.{Uuid}
use pqc_sec_inspection_cours.Cavp.Report.{ValidateError, ValidationReport, AnswerKey}
use pqc_sec_inspection_cours.Cavp.Grade.{validate}
use pqc_sec_inspection_cours.Cavp.Validation.{validate_iff}
use pqc_sec_inspection_cours.Api.Errors.{
  ApiError, database, map_err-eq-ok, map_err-eq-err, ok_or-eq-err,
}
use pqc_sec_inspection_cours.Api.Database.{
  statement, pure, ◌>>◌, Db, Pack, Session, Services, tick, one,
}
use pqc_sec_inspection_cours.Api.Outcome.{
  Holds, Holds-lift, Holds-pure, Holds-query, Holds-statement, FailedCall,
}
use pqc_sec_inspection_cours.Api.Cavp.{ok_or_else, store, validate_session}

one-eq-err : {A : Type 0} (o : Option A) (e : ApiError) → one o ≡ err e → o ≡ none
one-eq-err none e h = refl
one-eq-err (some a) e h = cc

one-eq-ok : {A : Type 0} (o : Option A) {a : A} → one o ≡ ok a → o ≡ some a
one-eq-ok none h = cc
one-eq-ok (some a) h = cc

module _ (j : Json) (decode : Text → Result (List ℕ) Text) (services : Services)
    (from_value : Json.Value j → Result AnswerKey Text)
    (to_value : ValidationReport → Result (Json.Value j) Text) (id : Uuid) (results : Text) where
  open j use {Value, null, from_str}

  -- The session's row, from these tables, holds the parsed submission and this report after.
  pub record IsGraded (db : Db Value) (report : ValidationReport) (after : Db Value) : Type 0 where
    pub session : Session Value
    pub pack : Pack Value
    pub key : AnswerKey
    pub value : Value
    pub shown : Value
    pub session_found : find (λ s. s.id == id) db.sessions ≡ some session
    pub pack_found : find (λ p. p.id == session.pack_id) db.packs ≡ some pack
    pub read : from_value pack.answer_key ≡ ok key
    pub parsed : from_str results ≡ ok value
    pub graded : validate j decode results key ≡ ok report
    pub written : to_value report ≡ ok shown
    pub stored :
        after.sessions
        ≡ update_where
            (λ s. s.id == id)
            (λ s. record {
              id = s.id;
              pack_id = s.pack_id;
              capability = s.capability;
              parameter_set = s.parameter_set;
              vs_id = s.vs_id;
              prompt = s.prompt;
              submitted = some value;
              validation = some shown;
            })
            db.sessions

  -- Why nothing is stored.
  pub data Refused (db : Db Value) (until : ℕ) : Type 0 where
    no_session : find (λ s. s.id == id) db.sessions ≡ none → Refused db until
    no_pack :
        (session : Session Value)
        → find (λ s. s.id == id) db.sessions ≡ some session
        → find (λ p. p.id == session.pack_id) db.packs ≡ none
        → Refused db until
    no_key :
        (session : Session Value) (pack : Pack Value) (e : Text)
        → find (λ s. s.id == id) db.sessions ≡ some session
        → find (λ p. p.id == session.pack_id) db.packs ≡ some pack
        → from_value pack.answer_key ≡ err e
        → Refused db until
    no_report :
        (session : Session Value) (pack : Pack Value) (key : AnswerKey) (e : ValidateError)
        → find (λ s. s.id == id) db.sessions ≡ some session
        → find (λ p. p.id == session.pack_id) db.packs ≡ some pack
        → from_value pack.answer_key ≡ ok key
        → validate j decode results key ≡ err e
        → Refused db until
    not_written :
        (session : Session Value) (pack : Pack Value) (key : AnswerKey) (report : ValidationReport)
        (e : Text)
        → find (λ s. s.id == id) db.sessions ≡ some session
        → find (λ p. p.id == session.pack_id) db.packs ≡ some pack
        → from_value pack.answer_key ≡ ok key
        → validate j decode results key ≡ ok report
        → to_value report ≡ err e
        → Refused db until
    call_failed : FailedCall services db.clock until → Refused db until

  -- A report is answered when it is stored. An error is answered when nothing is stored, for one of
  -- these reasons, or when the report is stored and the answer of that statement, the third call, is lost; it is then the
  -- error of the answer that was lost.
  abbrev pub Settled : Db Value → Result ValidationReport ApiError → Db Value → Type 0
  Settled db (ok report) after = IsGraded db report after
  Settled db (err e) after =
      ((after.sessions ≡ db.sessions) × Refused db after.clock)
      ⊎ ((report : ValidationReport) × IsGraded db report after
          × (m : Text) × (services.fault (suc (suc db.clock)) ≡ lost m)
          × (e ≡ database m))

  IsGraded-of :
      (db : Db Value) (s : Session Value) (p : Pack Value) (key : AnswerKey)
      (report : ValidationReport) (shown : Value) (after : Db Value)
      → find (λ s. s.id == id) db.sessions ≡ some s
      → find (λ p. p.id == s.pack_id) db.packs ≡ some p
      → from_value p.answer_key ≡ ok key
      → validate j decode results key ≡ ok report
      → to_value report ≡ ok shown
      → after.sessions ≡ (store id (ok_or_else null (from_str results)) shown db).1.sessions
      → IsGraded db report after
  IsGraded-of db s p key report shown after sf pf kf gf wf af =
      let accepted = ((validate_iff j decode results key report).0 gf).0 in
      record {
        session = s;
        pack = p;
        key = key;
        value = accepted.value;
        shown = shown;
        session_found = sf;
        pack_found = pf;
        read = kf;
        parsed = accepted.parsed;
        graded = gf;
        written = wf;
        stored = af ∙ ap (λ v. (store id (ok_or_else null v) shown db).1.sessions) accepted.parsed;
      }

  -- The last statement of the handler, two calls after `db`.
  writes :
      (db : Db Value) (s : Session Value) (p : Pack Value) (key : AnswerKey)
      (report : ValidationReport) (shown : Value)
      → find (λ s. s.id == id) db.sessions ≡ some s
      → find (λ p. p.id == s.pack_id) db.packs ≡ some p
      → from_value p.answer_key ≡ ok key
      → validate j decode results key ≡ ok report
      → to_value report ≡ ok shown
      → Holds
          (Settled db)
          (statement services (store id (ok_or_else null (from_str results)) shown) >> pure report)
          (tick (tick db))
  writes db s p key report shown sf pf kf gf wf =
      let stored = IsGraded-of db s p key report shown _ sf pf kf gf wf refl in
      Holds-statement _ _ services _ _ (Holds-pure _ _ _ stored)
        (λ e f. inl (
          refl,
          call_failed (record {
            call = suc (suc db.clock);
            after_since = omega arith;
            before_until = omega arith;
            fails = f;
          }),
        ))
        (λ m f. inr (report, stored, m, f, refl))

  -- Where a session is graded, whatever calls fail on the way: a report is answered only when the
  -- row of the session and that of its pack are there, the pack's key is read, the submission is
  -- JSON and the report is the grader's for it; the session's row, and no other, then holds the
  -- parsed submission and the report. When an error is answered, no session is changed, and the
  -- session or its pack is missing, the pack's key is not read, the grader rejects the submission,
  -- its report is not written as JSON, or one of these calls failed; or the same was stored, the
  -- database's answer to the storing was lost, and that is the error.
  pub validate_session-Settled :
      (db : Db Value)
      → Holds (Settled db) (validate_session j decode services from_value to_value id results) db
  unfolding validate_session
  validate_session-Settled db =
      Holds-query _ _ services _ db
        (Holds-lift _ _ _ (tick db)
          (λ session found.
            Holds-query _ _ services _ (tick db)
              (Holds-lift _ _ _ _
                (λ pack pack_found.
                  Holds-lift _ _ _ _
                    (λ key key_read.
                      Holds-lift _ _ _ _
                        (λ report graded.
                          Holds-lift _ _ _ _
                            (λ shown written.
                              writes db session pack key report shown (ok_or-eq-ok _ _ found)
                                (one-eq-ok _ pack_found) (map_err-eq-ok _ _ _ key_read)
                                (map_err-eq-ok _ _ _ graded) (map_err-eq-ok _ _ _ written))
                            (λ e h.
                              let (x, not_shown) = map_err-eq-err _ _ _ h in
                              refuses (
                                not_written session pack key report x (ok_or-eq-ok _ _ found)
                                  (one-eq-ok _ pack_found) (map_err-eq-ok _ _ _ key_read)
                                  (map_err-eq-ok _ _ _ graded) not_shown)))
                        (λ e h.
                          let (x, not_graded) = map_err-eq-err _ _ _ h in
                          refuses (
                            no_report session pack key x (ok_or-eq-ok _ _ found)
                              (one-eq-ok _ pack_found) (map_err-eq-ok _ _ _ key_read) not_graded)))
                    (λ e h.
                      let (x, not_read) = map_err-eq-err _ _ _ h in
                      refuses (
                        no_key session pack x (ok_or-eq-ok _ _ found) (one-eq-ok _ pack_found)
                          not_read)))
                (λ e h. refuses (no_pack session (ok_or-eq-ok _ _ found) (one-eq-err _ _ h))))
              (λ e f. refuses (
                call_failed (record {
                  call = suc db.clock;
                  after_since = omega arith;
                  before_until = omega arith;
                  fails = f;
                }))))
          (λ e h. refuses (no_session (ok_or-eq-err _ _ _ h))))
        (λ e f. refuses (
          call_failed (record {
            call = db.clock;
            after_since = omega arith;
            before_until = omega arith;
            fails = f;
          })))
    where
      refuses :
          {A : Type 0} {until : ℕ}
          → Refused db until
          → ((db.sessions ≡ db.sessions) × Refused db until) ⊎ A
      refuses r = inl (refl, r)
