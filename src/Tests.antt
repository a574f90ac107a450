-- ===== src/Tests.antt =====
-- The theorems at concrete inputs, one example for each.
mod Data
mod Org
mod Retry
mod Budget
mod Forms
mod Skills
mod Ipc
mod Workflows
