-- ===== src/Skills.antt =====
-- The skills of the nodes (src/omniclaw/db/repository.py, src/omniclaw/db/models.py).
pub mod Assignments
pub mod Counted
pub mod Replaced
pub mod Unique
