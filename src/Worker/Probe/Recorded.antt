-- ===== src/Worker/Probe/Recorded.antt =====
-- The reports of the finished subtasks (services/worker/src/store.rs, function `save_report`).
use pqc_sec_inspection_cours.Prelude.{
  ◌≡◌, refl, sym, inl, inr, false, some, List, [], ◌∷◌, All, Some, update_where, Bool-cases, ◌==◌,
  ==_iff,
}
use pqc_sec_inspection_cours.Proto.{ProbeResponse, stage_str}
use pqc_sec_inspection_cours.Domain.Status.{ExecStatus, ResultStatus}
use pqc_sec_inspection_cours.Domain.Jobs.{Uuid}
use pqc_sec_inspection_cours.Domain.Models.{Time, Subtask, SubtaskReport}
use pqc_sec_inspection_cours.Worker.Store.{report_of, report_status, upsert_report, finish_subtask}
use pqc_sec_inspection_cours.Worker.Rules.{All-update_where_hit}

differs : (a b c : Uuid) → a ≡ b → (b == c) ≡ false → (a == c) ≡ false
differs a b c e other = rw e other

module _ {Json : Type 0} where
  -- The stored report is for the subtask, and the subtask's columns are those of its response.
  pub record IsReportOf (s : Subtask) (report : SubtaskReport Json) : Type 0 where
    pub for_it : report.subtask_id ≡ s.id
    pub status : s.report_status ≡ report_status report.raw
    pub stage : s.failed_stage ≡ some (stage_str report.raw.failed_stage)
    pub summary : s.error_summary ≡ report.raw.error_summary

  -- A finished subtask has its report in the table.
  abbrev pub IsRecorded : List (SubtaskReport Json) → Subtask → Type 0
  IsRecorded reports s = s.exec_status ≡ ExecStatus.finished → Some (IsReportOf s) reports

  upsert-has :
      (P : SubtaskReport Json → Type 0) (r : SubtaskReport Json) (qs : List (SubtaskReport Json))
      → P r
      → Some P (upsert_report r qs)
  unfolding upsert_report
  upsert-has P r [] h = inl h
  upsert-has P r (q ∷ qs) h = elim (Bool-cases (q.subtask_id == r.subtask_id)) [
    | inl e ↦ rw (e, Some) (inl h)
    | inr e ↦ rw (e, Some) (inr (upsert-has P r qs h))
  ]

  upsert-keeps :
      (P : SubtaskReport Json → Type 0) (r : SubtaskReport Json) (qs : List (SubtaskReport Json))
      → ((q : SubtaskReport Json) → P q → (q.subtask_id == r.subtask_id) ≡ false)
      → Some P qs
      → Some P (upsert_report r qs)
  unfolding upsert_report
  upsert-keeps P r [] other h = absurd h
  upsert-keeps P r (q ∷ qs) other (inl h) = rw (other q h, Some) (inl h)
  upsert-keeps P r (q ∷ qs) other (inr h) = elim (Bool-cases (q.subtask_id == r.subtask_id)) [
    | inl e ↦ rw (e, Some) (inr h)
    | inr e ↦ rw (e, Some) (inr (upsert-keeps P r qs other h))
  ]

  -- What storing a report leaves of the rows and the reports.
  pub stored_rows :
      (now : Time) (id : Uuid) (result : ResultStatus) (r : ProbeResponse Json)
      (reports : List (SubtaskReport Json)) (P : Subtask → Type 0) (rows : List Subtask)
      → ((s : Subtask) → P (finish_subtask now result r s))
      → All (λ s. P s × IsRecorded reports s) rows
      → All
          (λ s. P s × IsRecorded (upsert_report (report_of id r) reports) s)
          (update_where (λ s. s.id == id) (finish_subtask now result r) rows)
  stored_rows now id result r reports P rows finished h =
      All-update_where_hit _ _ _ (finish_subtask now result r) rows
        (λ s hit _. (
          finished s,
          λ _. upsert-has _ (report_of id r) reports (record {
            for_it = sym ((==_iff s.id id).0 hit);
            status = refl;
            stage = refl;
            summary = refl;
          }),
        ))
        (λ s miss k. (
          k.0,
          λ e.
              upsert-keeps _ (report_of id r) reports
                (λ q same. differs q.subtask_id s.id id same.for_it miss) (k.1 e),
        ))
        h
