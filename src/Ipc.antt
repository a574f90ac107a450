-- ===== src/Ipc.antt =====
-- The router of queued form files (src/omniclaw/ipc/service.py).
pub mod Outcome
pub mod Frontmatter
pub mod Entries
pub mod Blocks
pub mod RoundTrip
pub mod Stages
pub mod Targets
pub mod Files
pub mod Plan
pub mod FreeNames
pub mod Kept
pub mod Undelivered
pub mod Hints
pub mod Delivery
pub mod Routing
pub mod Request
pub mod Process
pub mod Unharmed
pub mod Placed
pub mod Sent
pub mod Untouched
pub mod Rescued
pub mod Scan
pub mod Tally
pub mod Contexts
pub mod Holder
pub mod Planned
pub mod Agreement
