-- ===== src/Org/Nodes.antt =====
-- The table `nodes` and its queries (src/omniclaw/db/repository.py).
use omni_claw.Prelude.{
  keep_if_none, ℕ, String, Bool, true, false, ◌&&◌, Option, none, some, List, [], ◌∷◌, ◌++◌, str_eq,
  where_true, first_where, update_first, is_some, is_truthy, or_else,
}
use omni_claw.Result.{Result, done, raise, value_error}

pub data NodeType : Type 0 where
  agent human : NodeType

pub data NodeStatus : Type 0 where
  draft probation active paused retired : NodeStatus

pub record Node : Type 0 where
  pub id : String
  pub type : NodeType
  pub name : String
  pub role_name : Option String
  pub linux_uid : Option ℕ
  pub linux_username : Option String
  pub linux_password : Option String
  pub workspace_root : Option String
  pub runtime_config_path : Option String
  pub instruction_template_root : Option String
  pub primary_model : Option String
  pub gateway_running : Bool
  pub gateway_pid : Option ℕ
  pub gateway_host : Option String
  pub gateway_port : Option ℕ
  pub gateway_started_at : Option ℕ
  pub gateway_stopped_at : Option ℕ
  pub autonomy_level : ℕ
  pub status : NodeStatus

abbrev pub same_type : NodeType → NodeType → Bool
same_type agent agent = true
same_type human human = true
same_type _ _ = false

abbrev pub is_agent : Node → Bool
is_agent n = same_type n.type agent

abbrev pub is_active : NodeStatus → Bool
is_active active = true
is_active _ = false

abbrev pub has_id : String → Node → Bool
has_id node_id n = str_eq n.id node_id

abbrev pub has_name : String → Node → Bool
has_name name n = str_eq n.name name

-- The filter by `node_type`, which may be absent.
abbrev pub of_type : Option NodeType → Node → Bool
of_type none n = true
of_type (some t) n = same_type n.type t

-- What `create_node` and `upsert_node_by_name` are given beside the type, the name and the status.
pub record NodeFields : Type 0 where
  pub role_name : Option String
  pub linux_uid : Option ℕ
  pub linux_username : Option String
  pub linux_password : Option String
  pub workspace_root : Option String
  pub runtime_config_path : Option String
  pub instruction_template_root : Option String
  pub primary_model : Option String
  pub autonomy_level : ℕ

unfoldable pub new_node : String → NodeType → String → NodeStatus → NodeFields → Node
new_node new_id node_type name status f = record {
  id = new_id;
  type = node_type;
  name = name;
  role_name = f.role_name;
  linux_uid = f.linux_uid;
  linux_username = f.linux_username;
  linux_password = f.linux_password;
  workspace_root = f.workspace_root;
  runtime_config_path = f.runtime_config_path;
  instruction_template_root = f.instruction_template_root;
  primary_model = f.primary_model;
  gateway_running = false;
  gateway_pid = none;
  gateway_host = none;
  gateway_port = none;
  gateway_started_at = none;
  gateway_stopped_at = none;
  autonomy_level = f.autonomy_level;
  status = status;
}

-- `new_id` is the fresh primary key.
unfoldable pub create_node :
    String → NodeType → String → NodeStatus → NodeFields → List Node → Node × List Node
unfolding new_node
create_node new_id node_type name status f nodes =
    let node = new_node new_id node_type name status f in (node, nodes ++ (node ∷ []))

unfoldable pub overwrite : NodeStatus → NodeFields → Node → Node
overwrite status f n = record n {
  status = status;
  role_name = f.role_name;
  linux_uid = f.linux_uid;
  linux_username = f.linux_username;
  linux_password = keep_if_none f.linux_password n.linux_password;
  workspace_root = f.workspace_root;
  runtime_config_path = f.runtime_config_path;
  instruction_template_root = f.instruction_template_root;
  primary_model = f.primary_model;
  autonomy_level = f.autonomy_level;
}

abbrev pub is_named : NodeType → String → Node → Bool
is_named node_type name n = same_type n.type node_type && str_eq n.name name

-- The row, and whether it was created.
unfoldable pub upsert_node_by_name :
    String → NodeType → String → NodeStatus → NodeFields → List Node → (Node × Bool) × List Node
unfolding overwrite create_node
upsert_node_by_name new_id node_type name status f nodes =
    elim (first_where (is_named node_type name) nodes) [
      | some existing ↦ (
        (overwrite status f existing, false),
        update_first (is_named node_type name) (overwrite status f) nodes,
      )
      | none ↦
          let (node, nodes') = create_node new_id node_type name status f nodes in
          ((node, true), nodes')
    ]

-- The id if it is given, else the name: one of them is required.
unfoldable pub get_node :
    Option String → Option String → Option NodeType → List Node → Result (Option Node)
get_node node_id node_name node_type nodes = elim (is_truthy node_id) [
  | true ↦ done (first_where (λ n. of_type node_type n && has_id (or_else node_id "") n) nodes)
  | false ↦ elim (is_truthy node_name) [
    | true ↦
        done (first_where (λ n. of_type node_type n && has_name (or_else node_name "") n) nodes)
    | false ↦ raise (value_error "node_id or node_name is required")
  ]
]

unfoldable pub get_agent_node : Option String → Option String → List Node → Result (Option Node)
unfolding get_node
get_agent_node node_id node_name nodes = get_node node_id node_name (some agent) nodes

unfoldable pub list_agent_nodes : List Node → List Node
list_agent_nodes nodes = where_true is_agent nodes

unfoldable pub list_nodes_with_workspaces : List Node → List Node
list_nodes_with_workspaces nodes = where_true (λ n. is_some n.workspace_root) nodes

unfoldable pub list_active_agent_nodes_with_workspaces : List Node → List Node
list_active_agent_nodes_with_workspaces nodes =
    where_true (λ n. is_agent n && (is_active n.status && is_some n.workspace_root)) nodes

unfoldable pub list_nodes_by_name : String → List Node → List Node
list_nodes_by_name node_name nodes = where_true (has_name node_name) nodes

abbrev update_instructions : Option String → Option String → Node → Node
update_instructions role_name template_root n = record n {
  role_name = keep_if_none role_name n.role_name;
  instruction_template_root = keep_if_none template_root n.instruction_template_root;
}

unfoldable pub update_node_instruction_fields :
    String → Option String → Option String → List Node → Result Node × List Node
update_node_instruction_fields node_id role_name template_root nodes =
    elim (first_where (has_id node_id) nodes) [
      | none ↦ (raise (value_error "node not found"), nodes)
      | some n ↦ (
        done (update_instructions role_name template_root n),
        update_first (has_id node_id) (update_instructions role_name template_root) nodes,
      )
    ]
