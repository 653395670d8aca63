-- ===== src/Tests.antt =====
-- Runs of the model at concrete inputs, beside the cases of the Go tests.
mod Fixtures
mod Stores
mod Pipeline
mod Audits
mod Redactions
mod Queries
mod Followers
mod Alerts
mod Drains
mod Programs
mod Surface
