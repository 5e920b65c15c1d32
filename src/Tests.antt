-- ===== src/Tests.antt =====
-- Concrete orders, records and tables, and the theorems at them.
mod Fixtures
mod Orders
mod Completions
mod Records
mod Statements
mod Pipeline
mod Batches
mod Requests
mod Publications
mod Commits
mod Settings
mod Flow
mod Life
mod Runs
mod Exact
