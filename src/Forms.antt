-- ===== src/Forms.antt =====
-- Forms: the registry of form types and the ledger of their instances
-- (src/omniclaw/db/repository.py, src/omniclaw/db/models.py, src/omniclaw/forms/service.py).
pub mod Json
pub mod Types
pub mod Lifecycle
pub mod Registry
pub mod Ids
pub mod Graph
pub mod Ledger
pub mod Routes
pub mod Projected
pub mod Builtin
pub mod Workflow
pub mod History
pub mod Traced
pub mod Created
pub mod Edges
pub mod Authority
pub mod Creation
pub mod Requests
pub mod StageChecks
pub mod Validation
pub mod Search
pub mod Declared
pub mod Reachable
pub mod Decided
pub mod Conflicts
