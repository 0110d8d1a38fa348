-- ===== src/Reports/Tests.antt =====
-- Runs of the slice of reportSlice.ts, and its theorems at concrete inputs.
use sentinelmesh.Common.{List, [], ◌∷◌, none, ◌≡◌, refl, arith, map, foldl, str_lt, truncate}
use sentinelmesh.Types.{double, CommunityReport, ReportType, ReporterTier, ReportStatus}
use sentinelmesh.Reports.{
  ReportsState, ReportsAction, report_received, initial_state, upsert, upsert_items, reducer,
}
use sentinelmesh.Reports.Laws.{IsValid}

abbrev report : CommunityReport
report = record {
  id = "r1";
  report_type = ReportType.flooding;
  description = none;
  lat = double 1;
  lng = double 2;
  place_name = none;
  reporter_tier = ReporterTier.newcomer;
  consensus_score = double 3;
  status = ReportStatus.pending;
  confirmation_count = 0;
  denial_count = 0;
  photo_ipfs_cid = none;
  linked_event_id = none;
  created_at = "2026-01-01";
  updated_at = "2026-01-02";
}

abbrev newer : CommunityReport
newer = record report { confirmation_count = 1; updated_at = "2026-01-03" }

abbrev actions : List ReportsAction
actions = report_received report ∷ report_received newer ∷ report_received report ∷ []

abbrev one : ReportsState
one = record initial_state { items = report ∷ [] }

program : Unit {0}
unfolding reducer upsert upsert_items str_lt truncate
program = tt

newest_stays : map (λ r. r.confirmation_count) (foldl reducer initial_state actions).items ≡ 1 ∷ []
unfolding program
newest_stays = refl

one-IsValid : IsValid one
one-IsValid = record { distinct = (refl, tt); bounded = omega arith }
