-- ===== src/Tests/Budget.antt =====
-- Examples for the waterfall budget.
use omni_claw.Prelude.{
  ℕ, String, ◌≡◌, ◌≢◌, ◌+◌, ◌*◌, ◌↔◌, ◌⊎◌, refl, inl, inr, true, false, Option, none, some, List,
  [], ◌∷◌, All, Distinct, Fresh, keys, arith, is_some, length, or_else, sym, subst, str_eq, eq_iff,
  if◌then◌else◌, Bool-cases, ◌<◌,
}
use omni_claw.Result.{Result, done, raise, is_done, value_error}
use omni_claw.Org.Nodes.{Node}
use omni_claw.Org.Links.{list_child_nodes, link_manager}
use omni_claw.Retry.Policy.{day}
use omni_claw.Budget.Table.{Budgets, get_budget, upsert_budget, apply_update, sum_agent_llm_costs}
use omni_claw.Budget.Tree.{
  Company, Snapshots, children_of, is_metered, settle_node, build_snapshot_tree,
}
use omni_claw.Budget.Tree
use omni_claw.Budget.Cycle
use omni_claw.Org.References.{resolve_unique_node_reference}
use omni_claw.Budget.Conservation.{sum_allowance, subtree_ids, build_snapshot_tree_conserves}
use omni_claw.Budget.Persisted.{IsRecorded, build_snapshot_tree_persists}
use omni_claw.Budget.Termination.{
  DescendsFrom, Returns, SomeNode, build_snapshot_tree-Returns, build_snapshot_tree_diverges,
}
use omni_claw.Budget.Allocations.{
  ℤ, pos, id_of_each, validate_direct_children, replace_team_allocations, Books,
}
use omni_claw.Budget.Validation.{IsAllowed, validate_direct_children_lem}
use omni_claw.Budget.Stored.{Decided, replace_team_allocations_lem}
use omni_claw.Budget.Reset.{reset_rolls_over}
use omni_claw.Budget.Spend.{metered_spend}
use omni_claw.Budget.Cycle.{
  Engine, CycleReport, Client, get_budget_cycle, due_cycle_date, run_budget_cycle,
  recalculate_company_budget, sync_caps,
}
use omni_claw.Budget.Caps.{wanted_caps, sync_caps_lem}
use omni_claw.Budget.Progress.{run_budget_cycle_ends}
use omni_claw.Budget.Daily.{run_budget_cycle_once}
use omni_claw.Tests.Data.{boss, ada, cem, nodes, links, company, row_of_ada, budgets, engine}

abbrev shares : List (String × ℕ)
shares = ("a", 3000) ∷ ("c", 7000) ∷ []

abbrev tree : Option (Snapshots × Budgets)
tree = build_snapshot_tree 2 company true true boss 1000 none none budgets

abbrev outcome : Snapshots × Budgets
outcome = or_else tree ([], [])

tree_returns : tree ≡ some outcome
unfolding build_snapshot_tree Tree.visit_children list_child_nodes
tree_returns = refl

ne : (a b : String) → str_eq a b ≡ false → a ≢ b
ne a b h = ground (arith, eq_iff a b)

three_apart : Distinct ("b" ∷ "a" ∷ "c" ∷ [])
three_apart = ((ne "b" "a" refl, (ne "b" "c" refl, tt)), ((ne "a" "c" refl, tt), (tt, tt)))

once : Distinct (subtree_ids 2 company boss)
unfolding subtree_ids list_child_nodes
once = three_apart

build_snapshot_tree_conserves_example :
    (sum_allowance outcome.0 ≡ 1000) × (keys outcome.0 ≡ subtree_ids 2 company boss)
build_snapshot_tree_conserves_example =
    build_snapshot_tree_conserves 2 company true true boss 1000 none none budgets outcome.0
      outcome.1 once tree_returns

no_stranger : Fresh "z" (subtree_ids 2 company boss)
unfolding subtree_ids list_child_nodes
no_stranger = (ne "z" "b" refl, (ne "z" "a" refl, (ne "z" "c" refl, tt)))

build_snapshot_tree_persists_example :
    All (IsRecorded outcome.1) outcome.0 × (get_budget "z" outcome.1 ≡ get_budget "z" budgets)
build_snapshot_tree_persists_example =
    build_snapshot_tree_persists 2 company true true boss 1000 none none budgets outcome.0 outcome.1
      "z" once tree_returns no_stranger

-- The boss stands above the two agents.
abbrev depth : Node → ℕ
depth n = if str_eq "b" n.id then 1 else 0

descends : (node : Node) → DescendsFrom company depth node
unfolding list_child_nodes
descends node = elim (Bool-cases (str_eq "b" node.id)) [
  | inl own ↦ rw (own) (omega arith, (omega arith, tt))
  | inr other ↦ rw (other) tt
]

depth_bound : (node : Node) → depth node < 2
depth_bound node = elim (Bool-cases (str_eq "b" node.id)) [
  | inl own ↦ rw (own) (omega arith)
  | inr other ↦ rw (other) (omega arith)
]

build_snapshot_tree-Returns_example :
    Returns (build_snapshot_tree 2 company false true boss 1000 none none budgets)
build_snapshot_tree-Returns_example =
    build_snapshot_tree-Returns company depth descends 2 false true boss 1000 none none budgets
      (depth_bound boss)

-- Two agents that were made each other's managers, one call after the other.
abbrev circle : Company
circle = record company { links = (link_manager "c" "a" (link_manager "a" "c" []).1).1 }

abbrev InCircle : Node → Type 0
InCircle n = (n ≡ ada) ⊎ (n ≡ cem)

reports-InCircle : (n : Node) → InCircle n → SomeNode InCircle (children_of circle n)
unfolding list_child_nodes link_manager
reports-InCircle n (inl e) =
    subst (λ m. SomeNode InCircle (children_of circle m)) (sym e) (inl (inr refl))
reports-InCircle n (inr e) =
    subst (λ m. SomeNode InCircle (children_of circle m)) (sym e) (inl (inl refl))

build_snapshot_tree_diverges_example :
    build_snapshot_tree 1000 circle false true ada 1000 none none budgets ≡ none
build_snapshot_tree_diverges_example =
    build_snapshot_tree_diverges circle InCircle reports-InCircle 1000 false true ada 1000 none none
      budgets (inl refl)

abbrev decision : List (Node × ℤ)
decision = (cem, pos 7500) ∷ (ada, pos 2500) ∷ []

validate_direct_children_lem_example :
    (is_done (validate_direct_children boss decision nodes links) ≡ true)
    ↔ IsAllowed (id_of_each (list_child_nodes "b" none nodes links)) decision
validate_direct_children_lem_example = validate_direct_children_lem boss decision nodes links

abbrev books : Books
books = record { budgets = budgets; allocations = company.allocations }

replace_team_allocations_lem_example :
    Decided boss decision "a" books (replace_team_allocations boss decision nodes links books)
replace_team_allocations_lem_example =
    replace_team_allocations_lem boss decision nodes links books "a" (ne "b" "a" refl)

reset_rolls_over_example :
    let (s, _) = settle_node company true false ada 300 (some "b") none 300 budgets in
    (s.rollover_reserve_usd ≡ 70)
    × (s.current_spend_usd ≡ 0)
    × (s.available_budget_usd ≡ 370)
    × (s.remaining_budget_usd ≡ s.available_budget_usd)
unfolding get_budget
reset_rolls_over_example =
    reset_rolls_over company false ada 300 (some "b") none 300 budgets row_of_ada refl

metered_spend_example :
    (settle_node company false false ada 300 (some "b") none 300 budgets).0.current_spend_usd
    ≡ sum_agent_llm_costs "a" company.calls
unfolding settle_node upsert_budget get_budget Tree.reconcile Tree.free_root Tree.ensure_budget
    sum_agent_llm_costs apply_update
metered_spend_example = metered_spend company false ada 300 (some "b") none 300 budgets refl

abbrev no_report : Result CycleReport × Engine
no_report = (raise (value_error ""), engine)

abbrev cycle_run : Option (Result CycleReport × Engine)
cycle_run = run_budget_cycle 2 none 20000 5 false engine

abbrev after_cycle : Result CycleReport × Engine
after_cycle = or_else cycle_run no_report

abbrev report : CycleReport
report = elim after_cycle.0 [
  | done r ↦ r
  | raise e ↦ record {
    already_ran = false;
    cycle = record {
      cycle_date = 0;
      company_budget_usd = 0;
      root_allocator_node_id = none;
      executed_at = 0;
    };
    synced_caps = 0;
    sync_errors = [];
    snapshot_count = 0;
  }
]

cycle_returns : cycle_run ≡ some (done report, after_cycle.1)
unfolding run_budget_cycle Cycle.run_for_date Cycle.load_company_budget_config
    Cycle.resolve_root_allocator resolve_unique_node_reference get_budget_cycle
    Cycle.new_cycle_report Cycle.company_snapshots build_snapshot_tree Tree.visit_children
    list_child_nodes
cycle_returns = refl

run_budget_cycle_once_example :
    (is_some (get_budget_cycle 20000 after_cycle.1.cycles) ≡ true)
    × (get_budget_cycle 19999 after_cycle.1.cycles ≡ get_budget_cycle 19999 engine.cycles)
    × (due_cycle_date (20000 * day + 5) after_cycle.1 ≢ done (some 20000))
run_budget_cycle_once_example =
    run_budget_cycle_once 2 none 20000 5 false engine report after_cycle.1 19999 (20000 * day + 5)
      20000 cycle_returns (λ e. omega arith) (omega arith)

run_budget_cycle_ends_example :
    (is_some (run_budget_cycle 2 none 20000 5 true engine) ≡ true)
    × (is_some (recalculate_company_budget 2 none true engine) ≡ true)
run_budget_cycle_ends_example =
    run_budget_cycle_ends engine depth descends 2 depth_bound none 20000 5 true

abbrev client : Client
client name cap = if str_eq name "Cem" then some "timeout" else none

sync_caps_lem_example :
    let (result, calls) = sync_caps client budgets outcome.0 in
    (calls ≡ wanted_caps budgets outcome.0)
    × (result.synced_count + length result.errors ≡ length calls)
sync_caps_lem_example = sync_caps_lem client budgets outcome.0
