-- ===== src/Service.antt =====
-- How the program starts, reports on itself and answers errors: app/lifecycle, app/health,
-- app/observability/ErrorResponse.ts, and the limits that it is configured with.
pub mod Startup
pub mod Health
pub mod Limits
