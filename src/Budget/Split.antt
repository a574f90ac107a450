-- ===== src/Budget/Split.antt =====
-- How one manager's pool is split among the direct reports (src/omniclaw/budgets/engine.py, the
-- first half of `_build_snapshot_tree`).
use omni_claw.Prelude.{
  ℕ, ◌+◌, ◌-◌, ◌*◌, ◌/◌, String, Bool, true, false, ◌&&◌, List, [], ◌∷◌, ltb, ◌==◌, or_else,
  get_last, if◌then◌else◌, min,
}
use omni_claw.Org.Nodes.{Node}
use omni_claw.Budget.Table.{Allocation}

-- 100 percent, in hundredths.
abbrev pub whole : ℕ
whole = 10000

-- `_quantize(gross * percentage / 100)`: the share in millionths of a dollar, half up.
unfoldable pub share : ℕ → ℕ → ℕ
share gross percentage = (gross * percentage + 5000) / 10000

-- `allocation_map`, from the manager's rows.
abbrev pub allocation_map : List Allocation → List (String × ℕ)
allocation_map [] = []
allocation_map (a ∷ rows) = (a.child_node_id, a.percentage) ∷ allocation_map rows

-- `allocation_map.get(child.id, 0)`
abbrev pub percentage_of : List (String × ℕ) → Node → ℕ
percentage_of allocations child = or_else (get_last child.id allocations) 0

-- `allocated_children`: those with a positive percentage, each with it.
unfoldable pub allocated_children : List (String × ℕ) → List Node → List (String × ℕ)
allocated_children allocations [] = []
allocated_children allocations (c ∷ children) =
    let rest = allocated_children allocations children in
    let p = percentage_of allocations c in if ltb 0 p then (c.id, p) ∷ rest else rest

unfoldable pub total_percentage : List (String × ℕ) → ℕ
total_percentage [] = 0
total_percentage ((c, p) ∷ r) = p + total_percentage r

abbrev pub is_nil {ℓ} : {A : Type ℓ} → List A → Bool
is_nil [] = true
is_nil (x ∷ xs) = false

-- The last of them takes what remains if all of the pool is given away.
unfoldable pub child_gross : ℕ → ℕ → ℕ → ℕ → Bool → ℕ
unfolding share
child_gross gross total remaining percentage is_last =
    if is_last && total == whole then remaining else min (share gross percentage) remaining

-- The loop: `child_gross_values`, and what remains of the pool.
unfoldable pub split_pool : ℕ → ℕ → ℕ → List (String × ℕ) → List (String × ℕ) × ℕ
split_pool gross total remaining [] = ([], remaining)
split_pool gross total remaining ((c, p) ∷ r) =
    let g = child_gross gross total remaining p (is_nil r) in
    let (values, left) = split_pool gross total (remaining - g) r in ((c, g) ∷ values, left)

-- The two loops over `children` together.
unfoldable pub waterfall : ℕ → List (String × ℕ) → List Node → List (String × ℕ) × ℕ
unfolding split_pool
waterfall gross allocations children =
    let allocated = allocated_children allocations children in
    split_pool gross (total_percentage allocated) gross allocated
