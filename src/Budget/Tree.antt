-- ===== src/Budget/Tree.antt =====
-- The snapshots of a node and of everybody below it (src/omniclaw/budgets/engine.py,
-- `_build_snapshot_tree` and `_ensure_budget`). The recursion has no bound of its own in the source:
-- here it takes fuel, and `none` says that the fuel ran out.
use omni_claw.Prelude.{
  ℕ, zero, suc, ◌+◌, ◌-◌, String, Bool, true, false, ◌&&◌, not, Option, none, some, List, [], ◌∷◌,
  str_eq, ◌==◌, is_some, or_else, given, get_last, dict_update, if◌then◌else◌,
}
use omni_claw.Org.Nodes.{Node, is_agent}
use omni_claw.Org.Links.{Link, list_child_nodes}
use omni_claw.Budget.Table.{
  BudgetMode, metered, free, Budget, no_update, Budgets, Allocation, LlmCall, get_budget,
  upsert_budget, list_budget_allocations, sum_agent_llm_costs,
}
use omni_claw.Budget.Split.{allocation_map, percentage_of, waterfall}

-- The tables that the engine reads and does not write.
pub record Company : Type 0 where
  pub nodes : List Node
  pub links : List Link
  pub allocations : List Allocation
  pub calls : List LlmCall

pub record BudgetSnapshot : Type 0 where
  pub node : Node
  pub budget_mode : BudgetMode
  pub parent_node_id : Option String
  pub allocated_percentage : Option ℕ
  pub incoming_pool_usd : ℕ
  pub self_daily_allowance_usd : ℕ
  pub rollover_reserve_usd : ℕ
  pub available_budget_usd : ℕ
  pub current_spend_usd : ℕ
  pub remaining_budget_usd : ℕ
  pub review_required_at : Option ℕ

abbrev pub Snapshots : Type 0
Snapshots = List (String × BudgetSnapshot)

abbrev pub children_of : Company → Node → List Node
children_of co node = list_child_nodes node.id none co.nodes co.links

abbrev pub is_metered : BudgetMode → Bool
is_metered metered = true
is_metered free = false

abbrev pub same_id : Option String → Option String → Bool
same_id none none = true
same_id (some a) (some b) = str_eq a b
same_id _ _ = false

unfoldable pub ensure_budget : Node → Option String → Budgets → Budget × Budgets
ensure_budget node parent budgets = elim (get_budget node.id budgets) [
  | none ↦
      upsert_budget node.id
        (record no_update {
          parent_node_id = given parent;
          budget_mode = some (if is_agent node then metered else free);
        })
        budgets
  | some b ↦
      if same_id parent b.parent_node_id
      then (b, budgets)
      else upsert_budget node.id (record no_update { parent_node_id = given parent }) budgets
]

unfoldable pub free_root : Bool → Node → Option String → Budget × Budgets → Budget × Budgets
free_root force_root_free node parent (b, budgets) =
    if force_root_free && (not (is_some parent) && is_metered b.budget_mode)
    then upsert_budget node.id
        (record no_update { budget_mode = some free; parent_node_id = given none }) budgets
    else (b, budgets)

-- A metered node's spend is what its calls cost, except at the start of a new cycle.
unfoldable pub reconcile : Bool → ℕ → Node → Budget × Budgets → (Budget × ℕ) × Budgets
reconcile reset_cycle spent node (b, budgets) =
    if is_metered b.budget_mode && (not reset_cycle && not (spent == b.current_spend))
    then (let (b', budgets') =
          upsert_budget node.id (record no_update { current_spend = some spent }) budgets in
        ((b', spent), budgets'))
    else ((b, b.current_spend), budgets)

-- The reserve and the spend that the snapshot starts from.
unfoldable pub carry_over : Bool → Budget → ℕ → ℕ × ℕ
carry_over reset_cycle b current_spend =
    if reset_cycle
    then (b.daily_limit_usd - current_spend, 0)
    else (b.rollover_reserve_usd, current_spend)

-- The node's own part: its row is brought up to date, written, and made a snapshot.
unfoldable pub settle_node :
    Company
    → Bool
    → Bool
    → Node
    → ℕ
    → Option String
    → Option ℕ
    → ℕ
    → Budgets
    → BudgetSnapshot × Budgets
settle_node co reset_cycle force_root_free node gross parent percentage self_allowance budgets =
    let ((b, spend), budgets') =
      reconcile reset_cycle (sum_agent_llm_costs node.id co.calls) node
        (free_root force_root_free node parent (ensure_budget node parent budgets)) in
    let (reserve, current_spend) = carry_over reset_cycle b spend in
    let available = self_allowance + reserve in
    let (persisted, budgets'') =
      upsert_budget node.id
        (record no_update {
          daily_limit_usd = some available;
          current_daily_allowance = some self_allowance;
          current_spend = some current_spend;
          parent_node_id = given parent;
          allocated_percentage = percentage;
          rollover_reserve_usd = some reserve;
          review_required_at = given b.review_required_at;
        })
        budgets' in
    (
      record {
        node = node;
        budget_mode = persisted.budget_mode;
        parent_node_id = parent;
        allocated_percentage = percentage;
        incoming_pool_usd = gross;
        self_daily_allowance_usd = self_allowance;
        rollover_reserve_usd = reserve;
        available_budget_usd = available;
        current_spend_usd = current_spend;
        remaining_budget_usd = available - current_spend;
        review_required_at = persisted.review_required_at;
      },
      budgets'',
    )

-- The last loop: each child's subtree is built, and its snapshots join the results.
unfoldable pub visit_children :
    (Node → ℕ → ℕ → Budgets → Option (Snapshots × Budgets))
    → List (String × ℕ)
    → List (String × ℕ)
    → List Node
    → Snapshots
    → Budgets
    → Option (Snapshots × Budgets)
visit_children visit values allocations [] results budgets = some (results, budgets)
visit_children visit values allocations (c ∷ children) results budgets =
    elim (visit c (or_else (get_last c.id values) 0) (percentage_of allocations c) budgets) [
      | none ↦ none
      | some (below, budgets') ↦
          visit_children visit values allocations children (dict_update results below) budgets'
    ]

unfoldable pub build_snapshot_tree :
    ℕ
    → Company
    → Bool
    → Bool
    → Node
    → ℕ
    → Option String
    → Option ℕ
    → Budgets
    → Option (Snapshots × Budgets)
build_snapshot_tree zero co reset force node gross parent percentage budgets = none
build_snapshot_tree (suc fuel) co reset force node gross parent percentage budgets =
    let children = children_of co node in
    let allocations = allocation_map (list_budget_allocations node.id co.allocations) in
    let (values, self_allowance) = waterfall gross allocations children in
    let (snapshot, budgets') =
      settle_node co reset force node gross parent percentage self_allowance budgets in
    visit_children
      (λ child child_gross child_percentage now.
        build_snapshot_tree fuel co reset false child child_gross (some node.id)
          (some child_percentage) now)
      values allocations children ((node.id, snapshot) ∷ []) budgets'
