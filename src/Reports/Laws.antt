-- ===== src/Reports/Laws.antt =====
-- The reports slice stays bounded and keyed, and keeps the freshest version of what it keeps.
use sentinelmesh.Common.{
  ℕ, String, List, [], ◌∷◌, Option, none, some, str_lt, if◌then◌else◌, set, length, ◌≤◌, foldl, map,
  ◌≡◌, refl, arith, Distinct, locate, length-set, map-key-set, includes_of_index_none, Bool-cases,
  inl, inr, find_by, find_by-set, eq_refl, ◌∙◌, ◌<◌, truncate, Distinct-truncate,
  length-truncate-le, truncate-cons, truncate_of_length-le,
}
use sentinelmesh.Types.{CommunityReport}
use sentinelmesh.Reports.{
  ReportsState, ReportsAction, report_received, reports_hydrated, reports_hydration_failed,
  initial_state, max_items, upsert_items, upsert, reducer,
}

abbrev pub ids_of : List CommunityReport → List String
ids_of = map (λ r. r.id)

pub record IsValid (s : ReportsState) : Type 0 where
  pub distinct : Distinct (ids_of s.items)
  pub bounded : length s.items ≤ max_items

upsert-IsValid :
    (s : ReportsState) (report : CommunityReport) → IsValid s → IsValid (upsert s report)
unfolding upsert upsert_items
upsert-IsValid s report v = elim (locate (λ r. r.id) report.id s.items) [
  | inl (e, f) ↦
      rw (e, upsert, upsert_items)
        (record {
          distinct =
              Distinct-truncate (λ r. r.id) max_items (report ∷ s.items)
                (includes_of_index_none (λ r. r.id) report.id s.items e, v.distinct);
          bounded = length-truncate-le max_items (report ∷ s.items);
        })
  | inr (i, c, e, g, f, k) ↦ elim (Bool-cases (str_lt report.updated_at c.updated_at)) [
    | inl old ↦ rw (e, g, old, upsert, upsert_items) v
    | inr new ↦
        rw (e, g, new, upsert, upsert_items)
          (record {
            distinct =
                Distinct-truncate (λ r. r.id) max_items (set s.items i report)
                  (rw (map-key-set (λ r. r.id) report.id s.items i report e refl) v.distinct);
            bounded = length-truncate-le max_items (set s.items i report);
          })
  ]
]

upsert_all-IsValid :
    (reports : List CommunityReport) (s : ReportsState)
    → IsValid s
    → IsValid (foldl upsert s reports)
upsert_all-IsValid [] s v = v
upsert_all-IsValid (report ∷ reports) s v =
    upsert_all-IsValid reports (upsert s report) (upsert-IsValid s report v)

reducer-IsValid : (s : ReportsState) (a : ReportsAction) → IsValid s → IsValid (reducer s a)
unfolding reducer
reducer-IsValid s (report_received report) v = upsert-IsValid s report v
reducer-IsValid s (reports_hydrated reports) v =
    let w = upsert_all-IsValid reports s v in record { distinct = w.distinct; bounded = w.bounded }
reducer-IsValid s (reports_hydration_failed message) v = record {
  distinct = v.distinct;
  bounded = v.bounded;
}

run-IsValid :
    (actions : List ReportsAction) (s : ReportsState)
    → IsValid s
    → IsValid (foldl reducer s actions)
run-IsValid [] s v = v
run-IsValid (a ∷ actions) s v = run-IsValid actions (reducer s a) (reducer-IsValid s a v)

-- Whatever actions are dispatched to the initial state, at most a hundred reports are stored, and
-- no two of them have one id.
reachable_reports-IsValid :
    (actions : List ReportsAction) → IsValid (foldl reducer initial_state actions)
reachable_reports-IsValid actions =
    run-IsValid actions initial_state (record { distinct = tt; bounded = omega arith })

find_by-truncate_head :
    (n : ℕ) (report : CommunityReport) (items : List CommunityReport)
    → 0 < n
    → find_by (λ r. r.id) report.id (truncate n (report ∷ items)) ≡ some report
find_by-truncate_head n report items h =
    let (ys, e) = truncate-cons n report items h in rw (e, eq_refl report.id)

-- The report that stays, of the one stored and the one received.
pub kept : Option CommunityReport → CommunityReport → Option CommunityReport
kept none report = some report
kept (some c) report = if str_lt report.updated_at c.updated_at then some c else some report

-- In a valid state, the report that is stored under its id after `reportReceived` is the received
-- one, unless the stored one has a later timestamp: then that one stays.
find_by-received :
    (s : ReportsState) (report : CommunityReport)
    → IsValid s
    → find_by (λ r. r.id) report.id (reducer s (report_received report)).items
      ≡ kept (find_by (λ r. r.id) report.id s.items) report
unfolding kept reducer upsert upsert_items
find_by-received s report v = elim (locate (λ r. r.id) report.id s.items) [
  | inl (e, f) ↦
      rw (e, f, upsert_items) (find_by-truncate_head max_items report s.items (omega arith))
  | inr (i, c, e, g, f, k) ↦ elim (Bool-cases (str_lt report.updated_at c.updated_at)) [
    | inl old ↦ rw (e, g, f, old, upsert_items) f
    | inr new ↦
        rw
          (
            e,
            g,
            f,
            new,
            upsert_items,
            truncate_of_length-le max_items (set s.items i report)
                (omega (arith, length-set s.items i report, v.bounded)),
          )
          (find_by-set (λ r. r.id) report.id report.id s.items i report e refl
            ∙ rw (eq_refl report.id))
  ]
]
