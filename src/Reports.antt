-- ===== src/Reports.antt =====
-- The Redux slice of community reports (apps/pwa/src/store/reportSlice.ts): at most a hundred
-- reports, keyed by id, the latest arrivals first.
mod Laws
mod Tests
use sentinelmesh.Common.{
  ℕ, String, Bool, true, false, List, [], ◌∷◌, Option, none, some, str_lt, if◌then◌else◌, get_elem?,
  set, truncate, index_by, foldl,
}
use sentinelmesh.Types.{CommunityReport}

pub record ReportsState : Type 0 where
  pub items : List CommunityReport
  pub initialized : Bool
  pub error : Option String

abbrev pub initial_state : ReportsState
initial_state = record { items = []; initialized = false; error = none }

abbrev pub max_items : ℕ
max_items = 100

-- `upsert` on the items; the slice changes nothing else. A stale report returns before truncation.
unfoldable pub upsert_items : List CommunityReport → CommunityReport → List CommunityReport
upsert_items items report = elim (index_by (λ r. r.id) report.id items) [
  | none ↦ truncate max_items (report ∷ items)
  | some idx ↦ elim (get_elem? items idx) [
    | none ↦ truncate max_items items
    | some current ↦
        if str_lt report.updated_at current.updated_at
        then items
        else truncate max_items (set items idx report)
  ]
]

unfoldable pub upsert : ReportsState → CommunityReport → ReportsState
upsert s report = record s { items = upsert_items s.items report }

pub data ReportsAction : Type 0 where
  report_received : CommunityReport → ReportsAction
  reports_hydrated : List CommunityReport → ReportsAction
  reports_hydration_failed : String → ReportsAction

unfoldable pub reducer : ReportsState → ReportsAction → ReportsState
reducer s (report_received report) = upsert s report
reducer s (reports_hydrated reports) =
    let s' = foldl upsert s reports in record s' { initialized = true; error = none }
reducer s (reports_hydration_failed message) = record s { initialized = true; error = some message }
