-- ===== src/Budget/Table.antt =====
-- The rows of `budgets` and the methods that write and read them (src/omniclaw/db/repository.py).
use Prim.Native.Nat.{Ordering}
use Prim.Native.String.{compare}
use omni_claw.Prelude.{
  ℕ, ◌+◌, String, Bool, true, false, Option, none, some, List, [], ◌∷◌, ◌++◌, str_eq, not, Given,
  unset, or_old, keep_if_none, or_else, first_where, where_true, update_first, if◌then◌else◌,
}

pub data BudgetMode : Type 0 where
  metered free : BudgetMode

pub record Budget : Type 0 where
  pub node_id : String
  pub daily_limit_usd : ℕ
  pub virtual_api_key : Option String
  pub parent_node_id : Option String
  pub allocated_percentage : Option ℕ
  pub budget_mode : BudgetMode
  pub current_daily_allowance : ℕ
  pub rollover_reserve_usd : ℕ
  pub current_spend : ℕ
  pub review_required_at : Option ℕ

-- The keyword arguments of `upsert_budget`.
pub record BudgetUpdate : Type 0 where
  pub virtual_api_key : Option String
  pub daily_limit_usd : Option ℕ
  pub current_daily_allowance : Option ℕ
  pub current_spend : Option ℕ
  pub parent_node_id : Given (Option String)
  pub allocated_percentage : Option ℕ
  pub budget_mode : Option BudgetMode
  pub rollover_reserve_usd : Option ℕ
  pub review_required_at : Given (Option ℕ)

-- No argument beside the node.
abbrev pub no_update : BudgetUpdate
no_update = record {
  virtual_api_key = none;
  daily_limit_usd = none;
  current_daily_allowance = none;
  current_spend = none;
  parent_node_id = unset;
  allocated_percentage = none;
  budget_mode = none;
  rollover_reserve_usd = none;
  review_required_at = unset;
}

-- The defaults of the columns.
unfoldable pub new_budget : String → Budget
new_budget node_id = record {
  node_id = node_id;
  daily_limit_usd = 0;
  virtual_api_key = none;
  parent_node_id = none;
  allocated_percentage = none;
  budget_mode = metered;
  current_daily_allowance = 0;
  rollover_reserve_usd = 0;
  current_spend = 0;
  review_required_at = none;
}

unfoldable pub apply_update : BudgetUpdate → Budget → Budget
apply_update u b = record b {
  virtual_api_key = keep_if_none u.virtual_api_key b.virtual_api_key;
  daily_limit_usd = or_else u.daily_limit_usd b.daily_limit_usd;
  current_daily_allowance = or_else u.current_daily_allowance b.current_daily_allowance;
  current_spend = or_else u.current_spend b.current_spend;
  parent_node_id = or_old u.parent_node_id b.parent_node_id;
  allocated_percentage = keep_if_none u.allocated_percentage b.allocated_percentage;
  budget_mode = or_else u.budget_mode b.budget_mode;
  rollover_reserve_usd = or_else u.rollover_reserve_usd b.rollover_reserve_usd;
  review_required_at = or_old u.review_required_at b.review_required_at;
}

abbrev pub Budgets : Type 0
Budgets = List Budget

abbrev pub of_node : String → Budget → Bool
of_node node_id b = str_eq b.node_id node_id

unfoldable pub get_budget : String → Budgets → Option Budget
get_budget node_id budgets = first_where (of_node node_id) budgets

-- Both branches of the source write the same columns, the first into a new row.
unfoldable pub upsert_budget : String → BudgetUpdate → Budgets → Budget × Budgets
upsert_budget node_id u budgets = elim (get_budget node_id budgets) [
  | none ↦ let b = apply_update u (new_budget node_id) in (b, budgets ++ (b ∷ []))
  | some b ↦ (apply_update u b, update_first (of_node node_id) (apply_update u) budgets)
]

abbrev pub not_after : Ordering → Bool
not_after Ordering.lt = true
not_after Ordering.eq = true
not_after Ordering.gt = false

-- A row of `budget_allocations`.
pub record Allocation : Type 0 where
  pub manager_node_id : String
  pub child_node_id : String
  pub percentage : ℕ

abbrev pub of_manager : String → Allocation → Bool
of_manager manager a = str_eq a.manager_node_id manager

abbrev pub rows_for : String → List (String × ℕ) → List Allocation
rows_for manager [] = []
rows_for manager ((child, percentage) ∷ r) =
    record { manager_node_id = manager; child_node_id = child; percentage = percentage }
    ∷ rows_for manager r

-- The order of the child's id, by code points.
abbrev pub goes_before : Allocation → Allocation → Bool
goes_before a b = not_after (compare a.child_node_id b.child_node_id)

unfoldable pub insert_by_child : Allocation → List Allocation → List Allocation
insert_by_child a [] = a ∷ []
insert_by_child a (b ∷ rows) =
    let rest = insert_by_child a rows in if goes_before a b then a ∷ b ∷ rows else b ∷ rest

unfoldable pub sort_by_child : List Allocation → List Allocation
sort_by_child [] = []
sort_by_child (a ∷ rows) = insert_by_child a (sort_by_child rows)

-- `list_budget_allocations(manager_node_id=…)`. A manager's rows are all written in one transaction,
-- whose time they share, so they come in the order of their children.
unfoldable pub list_budget_allocations : String → List Allocation → List Allocation
list_budget_allocations manager table = sort_by_child (where_true (of_manager manager) table)

-- The manager's rows are deleted and the given ones added; then they are read in their order. The
-- constraint that a child stands once is what the caller has checked.
unfoldable pub replace_budget_allocations :
    String → List (String × ℕ) → List Allocation → List Allocation × List Allocation
replace_budget_allocations manager allocations table =
    let table' =
      where_true (λ a. not (of_manager manager a)) table ++ rows_for manager allocations in
    (sort_by_child (where_true (of_manager manager) table'), table')

-- A row of `agent_llm_calls`, as far as its cost goes.
pub record LlmCall : Type 0 where
  pub node_id : String
  pub estimated_cost_usd : ℕ

-- `sum_agent_llm_costs(node_id=…)`
unfoldable pub sum_agent_llm_costs : String → List LlmCall → ℕ
sum_agent_llm_costs node_id [] = 0
sum_agent_llm_costs node_id (c ∷ calls) =
    let rest = sum_agent_llm_costs node_id calls in
    if str_eq c.node_id node_id then c.estimated_cost_usd + rest else rest
