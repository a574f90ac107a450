-- ===== src/Budget/Reset.antt =====
-- The reserve and the spend of a node when its row is settled (src/omniclaw/budgets/engine.py,
-- `_build_snapshot_tree`).
use omni_claw.Prelude.{
  ℕ, ◌+◌, ◌-◌, String, ◌≡◌, refl, ap, ◌∙◌, Bool, true, ◌&&◌, not, Option, none, some, inl, inr,
  arith, is_some, Bool-cases,
}
use omni_claw.Org.Nodes.{Node}
use omni_claw.Budget.Table.{
  Budget, BudgetUpdate, Budgets, apply_update, get_budget, upsert_budget, sum_agent_llm_costs,
}
use omni_claw.Budget.Tree.{
  Company, is_metered, same_id, ensure_budget, free_root, reconcile, carry_over, settle_node,
}
use omni_claw.Budget.Rows.{get-upsert_self, upsert_found}

-- The row in hand is the node's row in the table, and its limit and spend are those of another row.
record InHand (id : String) (old : Budget) (now : Budget × Budgets) : Type 0 where
  pub found : get_budget id now.1 ≡ some now.0
  pub limit : now.0.daily_limit_usd ≡ old.daily_limit_usd
  pub spend : now.0.current_spend ≡ old.current_spend

-- An update of neither the limit nor the spend.
written :
    (id : String) (old row : Budget) (b : Budgets) (u : BudgetUpdate)
    → u.daily_limit_usd ≡ none
    → u.current_spend ≡ none
    → InHand id old (row, b)
    → InHand id old (upsert_budget id u b)
unfolding apply_update
written id old row b u no_limit no_spend h =
    let e = upsert_found id u b row h.found in
    record {
      found = get-upsert_self id u b;
      limit = ap (λ r. r.daily_limit_usd) e ∙ rw no_limit h.limit;
      spend = ap (λ r. r.current_spend) e ∙ rw no_spend h.spend;
    }

ensured :
    (node : Node) (parent : Option String) (old : Budget) (b : Budgets)
    → get_budget node.id b ≡ some old
    → InHand node.id old (ensure_budget node parent b)
unfolding ensure_budget
ensured node parent old b found =
    let here : InHand node.id old (old, b) = record { found = found; limit = refl; spend = refl } in
    elim (Bool-cases (same_id parent old.parent_node_id)) [
      | inl same ↦ rw (found, same, ensure_budget) here
      | inr other ↦ rw (found, other, ensure_budget) (written node.id old old b _ refl refl here)
    ]

freed :
    (force : Bool) (node : Node) (parent : Option String) (old row : Budget) (b : Budgets)
    → InHand node.id old (row, b)
    → InHand node.id old (free_root force node parent (row, b))
unfolding free_root
freed force node parent old row b h =
    elim (Bool-cases (force && (not (is_some parent) && is_metered row.budget_mode))) [
      | inl e ↦ rw (e, free_root) (written node.id old row b _ refl refl h)
      | inr e ↦ rw (e, free_root) h
    ]

reconcile_at_reset :
    (spent : ℕ) (node : Node) (row : Budget) (b : Budgets)
    → reconcile true spent node (row, b) ≡ ((row, row.current_spend), b)
unfolding reconcile
reconcile_at_reset spent node row b = elim (Bool-cases (is_metered row.budget_mode)) [
  | inl e ↦ rw (e, reconcile) refl
  | inr e ↦ rw (e, reconcile) refl
]

-- At the start of a cycle, what a node with a row did not spend of its cap becomes its reserve, its
-- spend is zero again, and its new cap is the day's allowance and that reserve.
pub reset_rolls_over :
    (co : Company) (force : Bool) (node : Node) (gross : ℕ) (parent : Option String)
    (percentage : Option ℕ) (self : ℕ) (b : Budgets) (old : Budget)
    → get_budget node.id b ≡ some old
    → let (s, _) = settle_node co true force node gross parent percentage self b in
      (s.rollover_reserve_usd ≡ old.daily_limit_usd - old.current_spend)
      × (s.current_spend_usd ≡ 0)
      × (s.available_budget_usd ≡ self + (old.daily_limit_usd - old.current_spend))
      × (s.remaining_budget_usd ≡ s.available_budget_usd)
unfolding settle_node carry_over
reset_rolls_over co force node gross parent percentage self b old found =
    let now = free_root force node parent (ensure_budget node parent b) in
    let (row, table) = ensure_budget node parent b in
    let h = freed force node parent old row table (ensured node parent old b found) in
    let e = reconcile_at_reset (sum_agent_llm_costs node.id co.calls) node now.0 now.1 in
    let reserve =
      ap (λ (t : (Budget × ℕ) × Budgets). t.0.0.daily_limit_usd - t.0.1) e
      ∙ ap (λ t. t - now.0.current_spend) h.limit
      ∙ ap (λ t. old.daily_limit_usd - t) h.spend in
    (reserve, refl, ap (λ t. self + t) reserve, omega arith)
