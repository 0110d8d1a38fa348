-- ===== src/View/Fetches.antt =====
-- The two slices that hold the answer of one fetch (apps/pwa/src/store): communityStatsSlice.ts and
-- insightsEventsSlice.ts. The requests are made outside the reducers; a rejected one has an error
-- whose message may be missing.
use sentinelmesh.Common.{ℕ, String, Bool, true, false, List, [], Option, none, some, get_or}
use sentinelmesh.Types.{Double}

pub record ReporterStat : Type 0 where
  pub pubkey : String
  pub report_count : ℕ
  pub trust_score : Double
  pub tier : String

pub record CommunityStatsState : Type 0 where
  pub reporters : List ReporterStat
  pub total_verified : ℕ
  pub loading : Bool
  pub error : Option String

pub record BucketedEvent : Type 0 where
  pub bucket : String
  pub lat : Double
  pub lng : Double
  pub count : ℕ
  pub event_type : String

pub record InsightsEventsState : Type 0 where
  pub buckets : List BucketedEvent
  pub loading : Bool
  pub error : Option String

-- The actions that a thunk dispatches, with the answer's type.
pub data FetchAction {ℓ} (A : Type ℓ) : Type ℓ where
  pending : FetchAction A
  fulfilled : A → FetchAction A
  rejected : Option String → FetchAction A

abbrev pub no_stats : CommunityStatsState
no_stats = record { reporters = []; total_verified = 0; loading = false; error = none }

abbrev pub no_buckets : InsightsEventsState
no_buckets = record { buckets = []; loading = false; error = none }

unfoldable pub stats_reducer :
    CommunityStatsState → FetchAction (List ReporterStat × ℕ) → CommunityStatsState
stats_reducer s pending = record s { loading = true; error = none }
stats_reducer s (fulfilled answer) = record s {
  loading = false;
  reporters = answer.0;
  total_verified = answer.1;
}
stats_reducer s (rejected message) = record s {
  loading = false;
  error = some (get_or "Error" message);
}

unfoldable pub buckets_reducer :
    InsightsEventsState → FetchAction (List BucketedEvent) → InsightsEventsState
buckets_reducer s pending = record s { loading = true; error = none }
buckets_reducer s (fulfilled answer) = record s { loading = false; buckets = answer }
buckets_reducer s (rejected message) = record s {
  loading = false;
  error = some (get_or "Error" message);
}
