-- ===== src/Retry.antt =====
-- Retries of failed prompts: the policy, the table of retry records, and the runtime service's
-- methods over them.
pub mod Classify
pub mod Policy
pub mod Schedule
pub mod Table
pub mod Runtime
pub mod Scheduler
pub mod Claims
pub mod Exhaustion
pub mod Due
pub mod Lost
pub mod Operator
