-- ===== src/Org/Gateway.antt =====
-- The recorded state of an agent's gateway (src/omniclaw/db/repository.py). `now` is the value of
-- `datetime.now(timezone.utc)`.
use omni_claw.Prelude.{
  keep_if_none, ℕ, String, Bool, true, false, ◌&&◌, Option, none, some, List, first_where,
  update_first, is_some, if◌then◌else◌,
}
use omni_claw.Result.{Result, done, raise, value_error}
use omni_claw.Org.Nodes.{Node, is_agent, has_id}

abbrev pub is_agent_with_id : String → Node → Bool
is_agent_with_id node_id n = has_id node_id n && is_agent n

-- The three methods look the agent up, change it, and commit.
unfoldable pub change_agent : String → (Node → Node) → List Node → Result Node × List Node
change_agent node_id change nodes = elim (first_where (is_agent_with_id node_id) nodes) [
  | none ↦ (raise (value_error "agent node not found"), nodes)
  | some n ↦ (done (change n), update_first (is_agent_with_id node_id) change nodes)
]

unfoldable pub started : Option ℕ → String → ℕ → ℕ → Node → Node
started pid host port now n = record n {
  gateway_running = true;
  gateway_pid = pid;
  gateway_host = some host;
  gateway_port = some port;
  gateway_started_at = some now;
  gateway_stopped_at = none;
}

unfoldable pub stopped : ℕ → Node → Node
stopped now n = record n {
  gateway_running = false;
  gateway_pid = none;
  gateway_stopped_at = some now;
}

unfoldable pub reconciled : Bool → Option ℕ → Option String → Option ℕ → ℕ → Node → Node
reconciled running pid host port now n = record n {
  gateway_running = running;
  gateway_pid = if running then pid else none;
  gateway_host = keep_if_none host n.gateway_host;
  gateway_port = keep_if_none port n.gateway_port;
  gateway_started_at =
      if running && is_some n.gateway_started_at
      then n.gateway_started_at
      else if running
      then some now
      else n.gateway_started_at;
  gateway_stopped_at = if running then none else some now;
}

unfoldable pub mark_gateway_started :
    String → Option ℕ → String → ℕ → ℕ → List Node → Result Node × List Node
unfolding change_agent started
mark_gateway_started node_id pid host port now nodes =
    change_agent node_id (started pid host port now) nodes

unfoldable pub mark_gateway_stopped : String → ℕ → List Node → Result Node × List Node
unfolding change_agent stopped
mark_gateway_stopped node_id now nodes = change_agent node_id (stopped now) nodes

unfoldable pub reconcile_gateway_state :
    String → Bool → Option ℕ → Option String → Option ℕ → ℕ → List Node → Result Node × List Node
unfolding change_agent reconciled
reconcile_gateway_state node_id running pid host port now nodes =
    change_agent node_id (reconciled running pid host port now) nodes
