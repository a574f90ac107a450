-- ===== src/Org.antt =====
-- The nodes of a company (agents and humans) and who manages whom: the tables `nodes` and
-- `hierarchy` of src/omniclaw/db/models.py with the methods of KernelRepository over them
-- (src/omniclaw/db/repository.py). A table is the list of its rows in the order of creation.
pub mod Nodes
pub mod Links
pub mod Gateway
pub mod References
pub mod Managers
pub mod Consistency
