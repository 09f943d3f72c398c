-- ===== src/Api.antt =====
-- The API client of the dashboard: dashboard/src/lib/api.ts.
pub mod BaseUrl
pub mod Message
pub mod Recovery
mod Tests
