-- ===== src/Budget/Spend.antt =====
-- A metered node's spend is what its calls cost (src/omniclaw/budgets/engine.py,
-- `_build_snapshot_tree`, the reconciliation).
use omni_claw.Prelude.{
  ℕ, String, ◌≡◌, refl, sym, ap, ◌∙◌, Bool, true, false, ◌&&◌, not, Option, some, inl, inr, arith,
  ◌==◌, is_some, Option-cases, Bool-cases,
}
use omni_claw.Org.Nodes.{Node}
use omni_claw.Budget.Table.{Budget, Budgets, apply_update, get_budget, sum_agent_llm_costs}
use omni_claw.Budget.Tree.{
  Company, is_metered, same_id, ensure_budget, free_root, reconcile, carry_over, settle_node,
}
use omni_claw.Budget.Rows.{get-upsert_self, upsert_found}

abbrev InTable : String → Budget × Budgets → Type 0
InTable id (row, b) = get_budget id b ≡ some row

ensure_budget-InTable :
    (node : Node) (parent : Option String) (b : Budgets)
    → InTable node.id (ensure_budget node parent b)
unfolding ensure_budget
ensure_budget-InTable node parent b = elim (Option-cases (get_budget node.id b)) [
  | inl missing ↦ rw (missing, ensure_budget) (get-upsert_self node.id _ b)
  | inr (row, found) ↦ elim (Bool-cases (same_id parent row.parent_node_id)) [
    | inl same ↦ rw (found, same, ensure_budget) found
    | inr other ↦ rw (found, other, ensure_budget) (get-upsert_self node.id _ b)
  ]
]

free_root-InTable :
    (force : Bool) (node : Node) (parent : Option String) (row : Budget) (b : Budgets)
    → InTable node.id (row, b)
    → InTable node.id (free_root force node parent (row, b))
unfolding free_root
free_root-InTable force node parent row b h =
    elim (Bool-cases (force && (not (is_some parent) && is_metered row.budget_mode))) [
      | inl e ↦ rw (e, free_root) (get-upsert_self node.id _ b)
      | inr e ↦ rw (e, free_root) h
    ]

same_spend :
    (metered_row : Bool) (spent spend : ℕ)
    → (metered_row && (true && not (spent == spend))) ≡ false
    → metered_row ≡ true
    → spend ≡ spent
same_spend metered_row spent spend h k = ground arith

-- Outside a reset the row in hand stays in the table, and if it is metered its spend is the cost.
reconciled :
    (spent : ℕ) (node : Node) (row : Budget) (b : Budgets)
    → InTable node.id (row, b)
    → let ((row', spend), b') = reconcile false spent node (row, b) in
      InTable node.id (row', b') × (is_metered row'.budget_mode ≡ true → spend ≡ spent)
unfolding reconcile
reconciled spent node row b h =
    elim (Bool-cases (is_metered row.budget_mode && (true && not (spent == row.current_spend)))) [
      | inl e ↦ rw (e, reconcile) (get-upsert_self node.id _ b, λ m. refl)
      | inr e ↦
          rw (e, reconcile) (h, same_spend (is_metered row.budget_mode) spent row.current_spend e)
    ]

-- Outside the start of a cycle, the spend in a metered node's snapshot is the sum of the costs of its
-- recorded calls.
pub metered_spend :
    (co : Company) (force : Bool) (node : Node) (gross : ℕ) (parent : Option String)
    (percentage : Option ℕ) (self : ℕ) (b : Budgets)
    → is_metered (settle_node co false force node gross parent percentage self b).0.budget_mode
      ≡ true
    → (settle_node co false force node gross parent percentage self b).0.current_spend_usd
      ≡ sum_agent_llm_costs node.id co.calls
unfolding settle_node carry_over apply_update
metered_spend co force node gross parent percentage self b m =
    let (first, table) = ensure_budget node parent b in
    let now = free_root force node parent (first, table) in
    let spent = sum_agent_llm_costs node.id co.calls in
    let (there, spend) =
      reconciled spent node now.0 now.1
        (free_root-InTable force node parent first table (ensure_budget-InTable node parent b)) in
    let ((row, cost), table') = reconcile false spent node now in
    let e = upsert_found node.id _ table' row there in
    spend (sym (ap (λ r. is_metered r.budget_mode) e) ∙ m)
