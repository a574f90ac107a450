-- ===== src/Tests/Data.antt =====
-- A small company for the examples.
use omni_claw.Prelude.{ℕ, String, false, none, some, List, [], ◌∷◌}
use omni_claw.Org.Nodes.{Node, NodeType, agent, human, active}
use omni_claw.Org.Links.{Link}
use omni_claw.Budget.Table.{metered, Budget, Budgets, Allocation}
use omni_claw.Budget.Tree.{Company}
use omni_claw.Budget.Cycle.{Engine}

abbrev pub person : String → String → NodeType → Node
person id name type = record {
  id = id;
  type = type;
  name = name;
  role_name = none;
  linux_uid = none;
  linux_username = none;
  linux_password = none;
  workspace_root = some "/srv/ada";
  runtime_config_path = some "/srv/ada/config.json";
  instruction_template_root = none;
  primary_model = some "openai/gpt";
  gateway_running = false;
  gateway_pid = none;
  gateway_host = none;
  gateway_port = none;
  gateway_started_at = none;
  gateway_stopped_at = none;
  autonomy_level = 0;
  status = active;
}

abbrev pub boss : Node
boss = person "b" "Boss" human

abbrev pub ada : Node
ada = person "a" "Ada" agent

abbrev pub cem : Node
cem = person "c" "Cem" agent

abbrev pub nodes : List Node
nodes = boss ∷ ada ∷ cem ∷ []

abbrev pub link : String → String → Link
link p c = record { parent_node_id = p; child_node_id = c }

abbrev pub links : List Link
links = link "b" "a" ∷ link "b" "c" ∷ []

abbrev pub allocation : String → ℕ → Allocation
allocation child p = record { manager_node_id = "b"; child_node_id = child; percentage = p }

-- Thirty percent for Ada, seventy for Cem.
abbrev pub company : Company
company = record {
  nodes = nodes;
  links = links;
  allocations = allocation "a" 3000 ∷ allocation "c" 7000 ∷ [];
  calls = record { node_id = "a"; estimated_cost_usd = 40 } ∷ [];
}

abbrev pub row_of_ada : Budget
row_of_ada = record {
  node_id = "a";
  daily_limit_usd = 100;
  virtual_api_key = some "key";
  parent_node_id = some "b";
  allocated_percentage = none;
  budget_mode = metered;
  current_daily_allowance = 100;
  rollover_reserve_usd = 0;
  current_spend = 30;
  review_required_at = none;
}

abbrev pub budgets : Budgets
budgets = row_of_ada ∷ []

abbrev pub engine : Engine
engine = record {
  settings = some (record {
    daily_company_budget_usd = some 1000;
    root_allocator_node = some " Boss ";
    reset_time_utc = some "06:30";
  });
  company = company;
  budgets = budgets;
  cycles = [];
}
