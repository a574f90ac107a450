-- ===== src/Budget.antt =====
-- The waterfall budget: how the company's daily budget runs down the hierarchy
-- (src/omniclaw/budgets/engine.py) over the tables `budgets` and `budget_allocations`
-- (src/omniclaw/db/models.py, src/omniclaw/db/repository.py). An amount is a number of millionths of
-- a dollar, the unit `_CENT` to which the engine rounds; a percentage is a number of hundredths of a
-- percent, the scale of the columns. Neither is negative here.
pub mod Table
pub mod Split
pub mod Tree
pub mod Shares
pub mod Allocations
pub mod Validation
pub mod Cycle
pub mod Rows
pub mod Ordered
pub mod Conservation
pub mod Persisted
pub mod Daily
pub mod Stored
pub mod Reset
pub mod Spend
pub mod Caps
pub mod Termination
pub mod Progress
