-- ===== src/Budget/Progress.antt =====
-- When the budget cycle and the recalculation come to an end (src/omniclaw/budgets/engine.py,
-- `run_budget_cycle` and `recalculate_company_budget`).
use omni_claw.Prelude.{
  ℕ, ◌<◌, ◌≡◌, refl, Bool, true, false, Option, none, some, inl, inr, Option-cases, Bool-cases,
  is_some,
}
use omni_claw.Result.{Result-cases}
use omni_claw.Org.Nodes.{Node}
use omni_claw.Budget.Tree.{Snapshots}
use omni_claw.Budget.Termination.{DescendsFrom, build_snapshot_tree-Returns}
use omni_claw.Budget.Cycle.{
  Engine, Client, BudgetCycle, CompanyBudgetConfig, load_company_budget_config,
  resolve_root_allocator, get_budget_cycle, company_snapshots, already_ran_report, new_cycle_report,
  run_for_date, run_budget_cycle, recalculate_company_budget,
}

module _ (engine : Engine) (depth : Node → ℕ)
    (down : (node : Node) → DescendsFrom engine.company depth node) (fuel : ℕ)
    (enough : (node : Node) → depth node < fuel) where
  snapshots_return :
      (reset force : Bool) (config : CompanyBudgetConfig) (root : Node)
      → (r : Snapshots × Engine) × (company_snapshots fuel reset force config root engine ≡ some r)
  unfolding company_snapshots
  snapshots_return reset force config root =
      let ((d, b), e) =
        build_snapshot_tree-Returns engine.company depth down fuel reset force root
          config.daily_company_budget_usd none none engine.budgets (enough root) in
      ((d, record engine { budgets = b }), rw (e, company_snapshots) refl)

  new_cycle_returns :
      (client : Option Client) (date now : ℕ) (config : CompanyBudgetConfig) (root : Node)
      → is_some (new_cycle_report fuel client date now config root engine) ≡ true
  unfolding new_cycle_report
  new_cycle_returns client date now config root =
      let ((d, e'), e) = snapshots_return true true config root in rw (e, new_cycle_report) refl

  already_ran_returns :
      (config : CompanyBudgetConfig) (root : Node) (existing : BudgetCycle)
      → is_some (already_ran_report fuel config root existing engine) ≡ true
  unfolding already_ran_report
  already_ran_returns config root existing =
      let ((d, e'), e) = snapshots_return false false config root in rw (e, already_ran_report) refl

  run_for_date_returns :
      (client : Option Client) (date now : ℕ) (force : Bool) (config : CompanyBudgetConfig)
      (root : Node)
      → is_some (run_for_date fuel client date now force config root engine) ≡ true
  unfolding run_for_date
  run_for_date_returns client date now force config root =
      elim (Option-cases (get_budget_cycle date engine.cycles)) [
        | inl missing ↦ rw (missing, run_for_date) (new_cycle_returns client date now config root)
        | inr (existing, found) ↦ elim (Bool-cases force) [
          | inl forced ↦
              rw (found, forced, run_for_date) (new_cycle_returns client date now config root)
          | inr unforced ↦
              rw (found, unforced, run_for_date) (already_ran_returns config root existing)
        ]
      ]

  -- Where a depth falls along every management link of the company, the budget cycle ends, whether it
  -- is forced, has run before, or fails for its settings, with no more recursive calls on top of one
  -- another than a bound on the depths, and so does the recalculation.
  pub run_budget_cycle_ends :
      (client : Option Client) (date now : ℕ) (force : Bool)
      → (is_some (run_budget_cycle fuel client date now force engine) ≡ true)
        × (is_some (recalculate_company_budget fuel client force engine) ≡ true)
  unfolding run_budget_cycle recalculate_company_budget
  run_budget_cycle_ends client date now force =
      elim (Result-cases (load_company_budget_config engine.settings)) [
        | inl (x, failed) ↦ rw (failed, run_budget_cycle, recalculate_company_budget) (refl, refl)
        | inr (config, loaded) ↦
            elim (Result-cases (resolve_root_allocator config engine.company.nodes)) [
              | inl (x, failed) ↦
                  rw (loaded, failed, run_budget_cycle, recalculate_company_budget) (refl, refl)
              | inr (root, found) ↦
                  let ((d, e'), e) = snapshots_return false force config root in
                  rw (loaded, found, e, run_budget_cycle, recalculate_company_budget)
                    (run_for_date_returns client date now force config root, refl)
            ]
      ]
