-- ===== src/Responses.antt =====
-- What the application takes from the answers of its servers, as `JSON.parse` gives them: events and
-- reports (apps/pwa/src/services/safetyDataApi.ts) and routes (mapApiService.ts).
pub mod Values
pub mod Events
pub mod Routes
pub mod Typed
mod Tests
