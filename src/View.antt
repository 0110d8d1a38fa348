-- ===== src/View.antt =====
-- The slices of local view state (apps/pwa/src/store): uiSlice.ts, safetyLogSlice.ts,
-- acousticSlice.ts, communityStatsSlice.ts and insightsEventsSlice.ts.
pub mod Routes
pub mod Log
pub mod Acoustic
pub mod Fetches
pub mod Laws
mod Tests
