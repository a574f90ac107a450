-- ===== src/Budget/Allocations.antt =====
-- A manager's own decisions about the budget: how the pool is split among the direct reports, and
-- the budget mode of a node (src/omniclaw/budgets/engine.py, `set_node_budget_mode`,
-- `replace_team_allocations`, `_validate_direct_children`).
use omni_claw.Prelude.{
  ℕ, ◌+◌, String, str_append, Bool, true, false, not, Option, none, some, List, [], ◌∷◌, str_eq,
  leb, any_where, given,
}
use omni_claw.Result.{Result, done, raise, Error, http, require}
use omni_claw.Org.Nodes.{Node}
use omni_claw.Org.Links.{Link, get_manager_node, list_child_nodes}
use omni_claw.Budget.Table.{
  BudgetMode, Budget, Budgets, no_update, get_budget, upsert_budget, Allocation,
  replace_budget_allocations,
}
use omni_claw.Budget.Split.{whole}

-- A percentage as a request has it: it may be negative.
pub data ℤ : Type 0 where
  pos negsuc : ℕ → ℤ

abbrev pub is_negative : ℤ → Bool
is_negative (pos n) = false
is_negative (negsuc n) = true

abbrev pub to_ℕ : ℤ → ℕ
to_ℕ (pos n) = n
to_ℕ (negsuc n) = 0

abbrev pub contains : String → List String → Bool
contains k ks = any_where (λ j. str_eq j k) ks

abbrev pub ids_of : List (Node × ℤ) → List String
ids_of [] = []
ids_of ((c, p) ∷ allocations) = c.id ∷ ids_of allocations

abbrev pub id_of_each : List Node → List String
id_of_each [] = []
id_of_each (c ∷ children) = c.id ∷ id_of_each children

abbrev pub not_a_report : Node → Node → Error
not_a_report child manager = http 403 (
    str_append "node '" (
      str_append child.name
        (str_append "' is not a direct report of '" (str_append manager.name "'"))))

abbrev pub duplicate : Node → Error
duplicate child = http 422 (str_append "duplicate allocation for '" (str_append child.name "'"))

abbrev pub negative : Error
negative = http 422 "allocation percentage cannot be negative"

abbrev pub too_much : Error
too_much = http 422 "allocation percentages cannot exceed 100"

-- The loop over the allocations with what it has seen and added up, and the test after it.
unfoldable pub check_allocations :
    Node → List String → List (Node × ℤ) → List String → ℕ → Result (Unit {0})
check_allocations manager direct_children [] seen total =
    require (leb total whole) too_much (done tt)
check_allocations manager direct_children ((child, percentage) ∷ allocations) seen total =
    let rest =
      check_allocations manager direct_children allocations (child.id ∷ seen)
        (total + to_ℕ percentage) in
    require (contains child.id direct_children) (not_a_report child manager) (
      require (not (contains child.id seen)) (duplicate child)
        (require (not (is_negative percentage)) negative rest))

unfoldable pub validate_direct_children :
    Node → List (Node × ℤ) → List Node → List Link → Result (Unit {0})
validate_direct_children manager allocations nodes links =
    check_allocations manager (id_of_each (list_child_nodes manager.id none nodes links))
      allocations [] 0

-- The two tables that an allocation writes.
pub record Books : Type 0 where
  pub budgets : Budgets
  pub allocations : List Allocation

abbrev pub id_of : Option Node → Option String
id_of none = none
id_of (some n) = some n.id

abbrev pub manager_id_for_node : Node → List Node → List Link → Option String
manager_id_for_node node nodes links = id_of (get_manager_node node.id nodes links)

-- What is stored: a node's id and its percentage.
abbrev pub stored_pairs : List (Node × ℤ) → List (String × ℕ)
stored_pairs [] = []
stored_pairs ((c, p) ∷ allocations) = (c.id, to_ℕ p) ∷ stored_pairs allocations

-- After the validation nothing can fail.
unfoldable pub store_allocations :
    Node → List (Node × ℤ) → List Node → List Link → Books → List Allocation × Books
store_allocations manager allocations nodes links books =
    let (stored, table) =
      replace_budget_allocations manager.id (stored_pairs allocations) books.allocations in
    let (_, budgets) =
      upsert_budget manager.id
        (record no_update {
          parent_node_id = given (manager_id_for_node manager nodes links);
          review_required_at = given none;
        })
        books.budgets in
    (stored, record { budgets = budgets; allocations = table })

unfoldable pub replace_team_allocations :
    Node → List (Node × ℤ) → List Node → List Link → Books → Result (List Allocation) × Books
replace_team_allocations manager allocations nodes links books =
    elim (validate_direct_children manager allocations nodes links) [
      | raise e ↦ (raise e, books)
      | done _ ↦
          let (stored, books') = store_allocations manager allocations nodes links books in
          (done stored, books')
    ]

abbrev parent_of : Option Budget → Option String → Option String
parent_of none manager = manager
parent_of (some b) manager = b.parent_node_id

unfoldable pub set_node_budget_mode :
    Node → BudgetMode → List Node → List Link → Budgets → Budget × Budgets
set_node_budget_mode node mode nodes links budgets =
    let parent = parent_of (get_budget node.id budgets) (manager_id_for_node node nodes links) in
    upsert_budget node.id
      (record no_update { parent_node_id = given parent; budget_mode = some mode }) budgets
