-- ===== src/Budget/Rows.antt =====
-- What a write to the table `budgets` changes (src/omniclaw/db/repository.py, `upsert_budget`).
use omni_claw.Prelude.{
  String, ◌≡◌, ◌≢◌, refl, true, false, Option, none, some, inl, inr, str_eq, eq_iff, eq_refl, arith,
  Option-cases, first_where-append, first_where-update_first, first_where-update_other,
  first_of_two,
}
use omni_claw.Budget.Table.{
  Budget, BudgetUpdate, Budgets, new_budget, apply_update, of_node, get_budget, upsert_budget,
}

-- The row returned is the old one, or a new one, with the update applied.
pub upsert_row :
    (id : String) (u : BudgetUpdate) (budgets : Budgets)
    → (b : Budget) × ((upsert_budget id u budgets).0 ≡ apply_update u b)
unfolding upsert_budget
upsert_row id u budgets = elim (Option-cases (get_budget id budgets)) [
  | inl missing ↦ (new_budget id, rw (missing, upsert_budget) refl)
  | inr (b, found) ↦ (b, rw (found, upsert_budget) refl)
]

-- The row returned is the row that is then found.
pub get-upsert_self :
    (id : String) (u : BudgetUpdate) (budgets : Budgets)
    → get_budget id (upsert_budget id u budgets).1 ≡ some (upsert_budget id u budgets).0
unfolding upsert_budget get_budget apply_update new_budget
get-upsert_self id u budgets = elim (Option-cases (get_budget id budgets)) [
  | inl missing ↦ rw (missing, upsert_budget) (rw (first_where-append, missing, eq_refl))
  | inr (b, found) ↦
      rw (found, upsert_budget)
        (first_where-update_first (of_node id) (apply_update u) (λ x e. e) budgets b found)
]

other_id : (j id k : String) → j ≢ id → str_eq k id ≡ true → str_eq k j ≡ false
other_id j id k ne e = ground (arith, eq_iff k id, eq_iff k j)

first_of_none : (o : Option Budget) → first_of_two o none ≡ o
first_of_none none = refl
first_of_none (some b) = refl

-- The other nodes' rows stay.
pub get-upsert_other :
    (j id : String) (u : BudgetUpdate) (budgets : Budgets)
    → j ≢ id
    → get_budget j (upsert_budget id u budgets).1 ≡ get_budget j budgets
unfolding upsert_budget get_budget apply_update new_budget
get-upsert_other j id u budgets ne = elim (Option-cases (get_budget id budgets)) [
  | inl missing ↦
      rw (missing, upsert_budget)
        (rw (first_where-append, other_id j id id ne (eq_refl id))
          (first_of_none (get_budget j budgets)))
  | inr (b, found) ↦
      rw (found, upsert_budget)
        (first_where-update_other (of_node id) (of_node j) (apply_update u)
          (λ x e. other_id j id x.node_id ne e) (λ x e. other_id j id x.node_id ne e) budgets)
]

-- Where the row is there, it is the one that is updated.
pub upsert_found :
    (id : String) (u : BudgetUpdate) (budgets : Budgets) (row : Budget)
    → get_budget id budgets ≡ some row
    → (upsert_budget id u budgets).0 ≡ apply_update u row
unfolding upsert_budget
upsert_found id u budgets row found = rw (found, upsert_budget) refl
