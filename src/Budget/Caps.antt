-- ===== src/Budget/Caps.antt =====
-- Which caps reach the gateway (src/omniclaw/budgets/engine.py, `sync_metered_caps`).
use omni_claw.Prelude.{
  ℕ, ◌+◌, String, ◌≡◌, refl, ap, List, [], ◌∷◌, inl, inr, arith, Bool-cases, Option-cases, length,
  where_true, map,
}
use omni_claw.Budget.Table.{Budgets}
use omni_claw.Budget.Tree.{BudgetSnapshot, Snapshots}
use omni_claw.Budget.Cycle.{Client, gets_cap, sync_caps}

-- The caps of the snapshots whose node is metered and has a key, in the order of the snapshots.
abbrev pub wanted_caps : Budgets → Snapshots → List (String × ℕ)
wanted_caps budgets snapshots =
    map (λ (e : String × BudgetSnapshot). (e.1.node.name, e.1.available_budget_usd))
      (where_true (λ (e : String × BudgetSnapshot). gets_cap e.1 budgets) snapshots)

-- Exactly the caps of the metered nodes with a key are sent, each once and in the order of the
-- snapshots, and every one of them is counted either as synced or among the errors, whatever the
-- gateway answers.
pub sync_caps_lem :
    (client : Client) (budgets : Budgets) (snapshots : Snapshots)
    → let (result, calls) = sync_caps client budgets snapshots in
      (calls ≡ wanted_caps budgets snapshots)
      × (result.synced_count + length result.errors ≡ length calls)
unfolding sync_caps
sync_caps_lem client budgets [] = (refl, omega arith)
sync_caps_lem client budgets ((k, s) ∷ snapshots) =
    let (sent, counted) = sync_caps_lem client budgets snapshots in
    elim (Bool-cases (gets_cap s budgets)) [
      | inl e ↦ elim (Option-cases (client s.node.name s.available_budget_usd)) [
        | inl fine ↦
            rw (e, fine, sync_caps)
              (
                ap (λ (t : List (String × ℕ)). (s.node.name, s.available_budget_usd) ∷ t) sent,
                omega (arith, counted),
              )
        | inr (error, failed) ↦
            rw (e, failed, sync_caps)
              (
                ap (λ (t : List (String × ℕ)). (s.node.name, s.available_budget_usd) ∷ t) sent,
                omega (arith, counted),
              )
      ]
      | inr e ↦ rw (e, sync_caps) (sent, counted)
    ]
