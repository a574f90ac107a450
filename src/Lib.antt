-- ===== src/Lib.antt =====
-- The kernel of OmniClaw (src/omniclaw): a company of human and agent nodes in a hierarchy of managers,
-- the daily budget that runs down this hierarchy, the retries of prompts whose call of a language model
-- failed, the forms that move from node to node along a workflow, and the router that reads such forms from
-- the nodes' outboxes and delivers them. The model follows the code function by function; a row of a table is a record, a table
-- is a list of rows in the order of `created_at`, a method of `KernelRepository` that writes is a
-- function from the table to its result and the new table, and an exception is a value of `Result`.
--
-- How the parts interact: the budget engine reads the nodes and the links, and writes the budgets that
-- the gateway of the language models enforces; a prompt that fails for want of budget is retried after
-- the reset of the budget; the retry scheduler invokes the prompt again through the same path. A form
-- is made from the active version of its type, and moves by the graph of that version to holders who are
-- nodes of the company. The router checks a queued file against the same graph and the same ledger, writes
-- the file's copies to the next holder's inbox and to the archives, and asks for the transition; where the
-- transition is refused it takes the copies back.
--
-- Files:
--   Prelude, Prelude/*: tests, lists, queries over tables, optional columns, dictionaries, sets, texts and
--     their lines, decimal numerals.
--   Result: exceptions (`HTTPException`, `ValueError`).
--   Org/Nodes, Org/Links, Org/Gateway, Org/References: src/omniclaw/db/repository.py, the tables `nodes`
--     and `hierarchy` (`create_node`, `upsert_node_by_name`, `_link_manager_internal`,
--     `list_child_nodes`, `mark_gateway_started`, `resolve_unique_node_reference` and the like).
--     Org/Managers and Org/Consistency hold their theorems.
--   Retry/Classify, Retry/Policy: src/omniclaw/runtime/retry_policy.py; the regular expressions are
--     matched by a small matcher of their own. Retry/Schedule holds the theorems.
--   Retry/Table: src/omniclaw/db/repository.py, the table `agent_task_retries`. Retry/Claims, Retry/Due.
--   Retry/Runtime, Retry/Scheduler: src/omniclaw/runtime/service.py, `_invoke_prompt`,
--     `_handle_failed_prompt_invocation`, `_process_due_retries`, `_retry_now`, `_cancel_retry`.
--     Retry/Exhaustion, Retry/Lost and Retry/Operator hold the theorems.
--   Budget/Table: src/omniclaw/db/repository.py, the tables `budgets`, `budget_allocations` and the costs
--     of `agent_llm_calls`; Budget/Rows has the laws of a write, Budget/Ordered those of
--     the order in which allocations are read.
--   Budget/Split, Budget/Tree: src/omniclaw/budgets/engine.py, `_build_snapshot_tree` and
--     `_ensure_budget`. Theorems in Budget/Shares, Conservation, Persisted, Termination, Progress,
--     Reset, Spend.
--   Budget/Allocations: `replace_team_allocations`, `_validate_direct_children`, `set_node_budget_mode`.
--     Theorems in Budget/Validation and Budget/Stored.
--   Budget/Cycle: `run_budget_cycle`, `due_cycle_date`, `sync_metered_caps`,
--     `recalculate_company_budget`, with the table `budget_cycles`. Theorems in Budget/Daily and
--     Budget/Caps.
--   Forms/Json: the values that graphs and payloads hold.
--   Forms/Types, Forms/Ids, Forms/Ledger: src/omniclaw/db/repository.py, the tables `form_types`,
--     `forms_ledger` and `form_transition_events`, `set_form_type_lifecycle`,
--     `_next_available_form_id`, `create_form_instance`, `transition_form_instance`; Forms/Builtin:
--     `ensure_builtin_message_form_type`. Theorems in
--     Forms/Lifecycle, Forms/Registry, Forms/Traced (with lemmas in Forms/History), Forms/Created, Forms/Conflicts.
--   Forms/Graph, Forms/Routes, Forms/Workflow, Forms/Creation: src/omniclaw/forms/service.py,
--     `_project_workflow_graph`, `_resolve_edge`, `_resolve_next_holder`, `_transition_form`,
--     `_create_form`. Theorems in Forms/Authority (lemmas in Forms/Edges) and
--     Forms/Requests; Forms/Projected has the edge that stands for a decision of a stage.
--   Forms/StageChecks, Forms/Validation: src/omniclaw/forms/service.py,
--     `_validate_stage_graph_definition`, `_validate_initiator_allowlist`. Theorems in Forms/Reachable
--     (lemmas in Forms/Search and Forms/Declared) and Forms/Decided.
--   Skills/Assignments: src/omniclaw/db/repository.py, the table `node_skill_assignments`,
--     `upsert_node_skill_assignment`, `replace_node_skill_assignments_for_source`,
--     `delete_node_skill_assignments`. Theorems in Skills/Replaced and Skills/Unique (lemmas in
--     Skills/Counted).
--   Ipc/*: src/omniclaw/ipc/service.py. Ipc/Frontmatter: `_parse_frontmatter`, `_render_frontmatter`
--     (theorem in Ipc/RoundTrip, lemmas in Ipc/Entries and Ipc/Blocks). Ipc/Stages: what the workflow and
--     the frontmatter say of stages (`_load_stage_graph`, `_frontmatter_decision` and the like).
--     Ipc/Targets: `_resolve_target_node`, `_is_allowed_initiator`, `_resolve_initiator_node_id`.
--     Ipc/Files: paths, the store of files, `_resolve_within_workspace`, `_resolve_unique_path` (theorem in
--     Ipc/FreeNames). Ipc/Plan: the checks of `_process_source_file` before anything is written.
--     Ipc/Undelivered: `_undelivered`, `_write_feedback_message`. Ipc/Hints: `_build_target_agent_hint`
--     and the routed frontmatter. Ipc/Delivery: the copies and `_rollback_routing_files`. Ipc/Routing:
--     `_resolve_active_form_definition`, `_distribute_stage_skill`, the new form. Ipc/Request, Ipc/Process: the whole
--     of `_process_source_file`. Ipc/Scan: `_scan_forms`. Theorems in Ipc/Agreement (lemmas in
--     Ipc/Contexts, Holder, Planned), Ipc/Untouched (lemmas in Ipc/Kept, Unharmed, Sent,
--     Placed), Ipc/Rescued and Ipc/Tally. Ipc/Outcome: a value, or why there is none.
--   Tests/*: every theorem at a concrete input.
--
-- Units and bounds: an amount of money is a natural number of millionths of a dollar, the unit to which
-- the engine rounds; a percentage is a number of hundredths of a percent, the scale of its column; an
-- instant is a number of microseconds since the epoch and a date a number of days. Amounts are not
-- negative: where the source cuts a difference at zero the subtraction of the natural numbers does the
-- same. The recursion over the hierarchy has no bound in the source; here it takes fuel, which bounds
-- the depth of the recursion, and `none` says that it was not enough; a depth that falls along every
-- link is enough. The search for a free form id is on fuel in the same way; where it
-- comes back empty, all the candidates it tried are in use. The search for a free file name
-- takes as fuel the number of entries of the store, and the search over the stages of a workflow takes one
-- more than the number of decisions; both are enough.
--
-- Files: the store of the router is a list of regular files and a list of folders; a path is the list of its
-- parts, without links. The disk is given by which paths it refuses to read, to write, to make and to take
-- away, and which hold no UTF-8. An exception that the router does not catch is an end of the scan of its
-- own (`exception`). Between two steps of one scan no other process changes the store.
--
-- Parameters, for code outside the repository: what the process of an agent returns for a prompt, which
-- paths exist, what the gateway of the language models answers to a new cap, the text that Python
-- gives for a list or a dictionary, which files another process has locked, the clock, the letters beyond
-- ASCII that a form id keeps, and the contents of the file with the workflow of messages.
-- An interface, for a part of the repository that is not modelled: `sync_node_skills` of the service for
-- skills (src/omniclaw/skills/service.py), which answers the router and may change any file.
--
-- Not modelled: the actions on form types and messages, the validation of node graphs, the catalogue of skills and its
-- service, instructions and provisioning; the wake-up of an agent after a delivery and the synchronisation
-- of instructions before a scan, which change none of what is kept here; the gateway's start and
-- stop scripts and the mock mode of the runtime; the texts and views made from snapshots; concurrent
-- sessions of the database, since each method is one transaction here.
mod Prelude
pub mod Result
pub mod Org
pub mod Retry
pub mod Budget
pub mod Forms
pub mod Skills
pub mod Ipc
pub mod Tests
