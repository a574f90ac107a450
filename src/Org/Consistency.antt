-- ===== src/Org/Consistency.antt =====
-- What the recorded gateway state means, and that every method keeps it so.
use omni_claw.Prelude.{
  ℕ, String, ◌≡◌, Bool, true, false, Option, none, List, All, All-update_first, arith, is_some,
  first_where, Option-cases, inl, inr,
}
use omni_claw.Org.Nodes.{Node}
use omni_claw.Org.Gateway.{
  is_agent_with_id, change_agent, started, stopped, reconciled, mark_gateway_started,
  mark_gateway_stopped, reconcile_gateway_state,
}

-- A running gateway has a time of start and none of stop; one that does not run has no process.
abbrev ConsistentWhen : Bool → Node → Type 0
ConsistentWhen true n = (is_some n.gateway_started_at ≡ true) × (n.gateway_stopped_at ≡ none)
ConsistentWhen false n = n.gateway_pid ≡ none

abbrev pub IsConsistent : Node → Type 0
IsConsistent n = ConsistentWhen n.gateway_running n

change_agent-IsConsistent :
    (node_id : String) (f : Node → Node)
    → ((n : Node) → IsConsistent n → IsConsistent (f n))
    → (nodes : List Node) → All IsConsistent nodes
    → All IsConsistent (change_agent node_id f nodes).1
unfolding change_agent
change_agent-IsConsistent i f keep nodes h =
    elim (Option-cases (first_where (is_agent_with_id i) nodes)) [
      | inl missing ↦ rw (missing, All) h
      | inr (n, found) ↦
          rw (found, All)
            (All-update_first (is_agent_with_id i) IsConsistent f (λ m _. keep m) nodes h)
    ]

started-IsConsistent :
    (pid : Option ℕ) (host : String) (port now : ℕ) (n : Node)
    → IsConsistent (started pid host port now n)
unfolding started
started-IsConsistent pid host port now n = ground arith

stopped-IsConsistent : (now : ℕ) (n : Node) → IsConsistent (stopped now n)
unfolding stopped
stopped-IsConsistent now n = ground arith

reconciled-IsConsistent :
    (running : Bool) (pid : Option ℕ) (host : Option String) (port : Option ℕ) (now : ℕ) (n : Node)
    → IsConsistent (reconciled running pid host port now n)
unfolding reconciled
reconciled-IsConsistent running pid host port now n = ground arith

-- A call of one of the three methods that record what a gateway does.
pub data GatewayCall : Type 0 where
  start : String → Option ℕ → String → ℕ → GatewayCall
  stop : String → GatewayCall
  reconcile : String → Bool → Option ℕ → Option String → Option ℕ → GatewayCall

abbrev pub record_call : GatewayCall → ℕ → List Node → List Node
record_call (start i pid host port) now nodes = (mark_gateway_started i pid host port now nodes).1
record_call (stop i) now nodes = (mark_gateway_stopped i now nodes).1
record_call (reconcile i running pid host port) now nodes =
    (reconcile_gateway_state i running pid host port now nodes).1

-- Whichever method is called, at whatever time and for whatever node, a table whose gateway states
-- are all consistent stays so: a running gateway has a time of start and no time of stop, and one
-- that is not running has no process id.
pub record_call-IsConsistent :
    (call : GatewayCall) (now : ℕ) (nodes : List Node)
    → All IsConsistent nodes
    → All IsConsistent (record_call call now nodes)
unfolding mark_gateway_started mark_gateway_stopped reconcile_gateway_state
record_call-IsConsistent (start i pid host port) now nodes h =
    change_agent-IsConsistent i _ (λ n _. started-IsConsistent pid host port now n) nodes h
record_call-IsConsistent (stop i) now nodes h =
    change_agent-IsConsistent i _ (λ n _. stopped-IsConsistent now n) nodes h
record_call-IsConsistent (reconcile i running pid host port) now nodes h =
    change_agent-IsConsistent i _ (λ n _. reconciled-IsConsistent running pid host port now n) nodes
      h
