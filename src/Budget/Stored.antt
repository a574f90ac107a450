-- ===== src/Budget/Stored.antt =====
-- What a manager's decision changes (src/omniclaw/budgets/engine.py, `replace_team_allocations`).
use mathlib.Core.List.{Perm}
use omni_claw.Prelude.{
  ℕ, String, ◌≡◌, ◌≢◌, refl, sym, ap, subst, false, not, none, some, List, [], ◌∷◌, append-nil, inl,
  inr, arith, str_eq, eq_iff, eq_refl, where_true, where_true-append, Bool-cases, given,
}
use omni_claw.Result.{Result, done, raise, Result-cases}
use omni_claw.Org.Nodes.{Node}
use omni_claw.Org.Links.{Link}
use omni_claw.Budget.Table.{
  Budget, no_update, apply_update, get_budget, upsert_budget, Allocation, of_manager, rows_for,
  replace_budget_allocations, list_budget_allocations, sort_by_child,
}
use omni_claw.Budget.Ordered.{InOrder, sort_by_child-InOrder, sort_by_child-Perm}
use omni_claw.Budget.Allocations.{
  ℤ, Books, stored_pairs, manager_id_for_node, store_allocations, replace_team_allocations,
  validate_direct_children,
}
use omni_claw.Budget.Rows.{upsert_row, get-upsert_self, get-upsert_other}

own_rows :
    (m : String) (pairs : List (String × ℕ))
    → where_true (of_manager m) (rows_for m pairs) ≡ rows_for m pairs
own_rows m [] = refl
own_rows m ((c, p) ∷ pairs) = rw (eq_refl, own_rows m pairs) refl

no_rows :
    (m k : String) (pairs : List (String × ℕ))
    → m ≢ k
    → where_true (of_manager k) (rows_for m pairs) ≡ []
no_rows m k [] ne = refl
no_rows m k ((c, p) ∷ pairs) ne =
    let other : str_eq m k ≡ false = ground (arith, eq_iff m k) in
    rw (other, no_rows m k pairs ne) refl

deleted :
    (m : String) (table : List Allocation)
    → where_true (of_manager m) (where_true (λ a. not (of_manager m a)) table) ≡ []
deleted m [] = refl
deleted m (a ∷ table) = elim (Bool-cases (of_manager m a)) [
  | inl e ↦ rw (e, deleted m table) refl
  | inr e ↦ rw (e) (rw (e, deleted m table) refl)
]

undeleted :
    (m k : String) (table : List Allocation)
    → m ≢ k
    → where_true (of_manager k) (where_true (λ a. not (of_manager m a)) table)
      ≡ where_true (of_manager k) table
undeleted m k [] ne = refl
undeleted m k (a ∷ table) ne = elim (Bool-cases (of_manager m a)) [
  | inl e ↦
      let other : of_manager k a ≡ false =
        ground (arith, eq_iff a.manager_node_id m, eq_iff a.manager_node_id k) in
      rw (e, other, undeleted m k table ne) refl
  | inr e ↦ elim (Bool-cases (of_manager k a)) [
    | inl f ↦ rw (e, f, undeleted m k table ne) refl
    | inr f ↦ rw (e, f, undeleted m k table ne) refl
  ]
]

module _ (m : String) (pairs : List (String × ℕ)) (table : List Allocation) where
  replaced-own :
      where_true (of_manager m) (replace_budget_allocations m pairs table).1 ≡ rows_for m pairs
  unfolding replace_budget_allocations
  replaced-own = rw (where_true-append, deleted m table) (own_rows m pairs)

  replace_budget_allocations-rows :
      (replace_budget_allocations m pairs table).0 ≡ sort_by_child (rows_for m pairs)
  unfolding replace_budget_allocations
  replace_budget_allocations-rows = ap sort_by_child replaced-own

  list-replace_self :
      list_budget_allocations m (replace_budget_allocations m pairs table).1
      ≡ (replace_budget_allocations m pairs table).0
  unfolding list_budget_allocations replace_budget_allocations
  list-replace_self = refl

  list-replace_other :
      (k : String)
      → m ≢ k
      → list_budget_allocations k (replace_budget_allocations m pairs table).1
        ≡ list_budget_allocations k table
  unfolding list_budget_allocations replace_budget_allocations
  list-replace_other k ne = ap sort_by_child (
      rw (where_true-append, undeleted m k table ne, no_rows m k pairs ne)
        (append-nil (where_true (of_manager k) table)))

-- A refusal changes no table. Where the allocations are stored, the manager has exactly the given
-- rows, which are returned in the order of the children's ids, and a row of `budgets` without a pending
-- review; another node's rows in both tables are as before.
abbrev pub Decided :
    Node → List (Node × ℤ) → String → Books → Result (List Allocation) × Books → Type 0
Decided manager allocations other books (raise e, books') = books' ≡ books
Decided manager allocations other books (done stored, books') =
    Perm stored (rows_for manager.id (stored_pairs allocations))
    × InOrder stored
    × (list_budget_allocations manager.id books'.allocations ≡ stored)
    × (list_budget_allocations other books'.allocations
        ≡ list_budget_allocations other books.allocations)
    × (row : Budget) × (get_budget manager.id books'.budgets ≡ some row)
    × (row.review_required_at ≡ none)
    × (get_budget other books'.budgets ≡ get_budget other books.budgets)

stored-Decided :
    (manager : Node) (allocations : List (Node × ℤ)) (nodes : List Node) (links : List Link)
    (books : Books) (other : String)
    → manager.id ≢ other
    → let (stored, books') = store_allocations manager allocations nodes links books in
      Decided manager allocations other books (done stored, books')
unfolding store_allocations apply_update
stored-Decided manager allocations nodes links books other ne =
    let pairs = stored_pairs allocations in
    let rows = replace_budget_allocations-rows manager.id pairs books.allocations in
    let u = record no_update {
      parent_node_id = given (manager_id_for_node manager nodes links);
      review_required_at = given none;
    } in
    (
      subst (λ rows. Perm rows (rows_for manager.id pairs)) (sym rows)
          (sort_by_child-Perm (rows_for manager.id pairs)),
      subst InOrder (sym rows) (sort_by_child-InOrder (rows_for manager.id pairs)),
      list-replace_self manager.id pairs books.allocations,
      list-replace_other manager.id pairs books.allocations other ne,
      (upsert_budget manager.id u books.budgets).0,
      get-upsert_self manager.id u books.budgets,
      ap (λ r. r.review_required_at) (upsert_row manager.id u books.budgets).1,
      get-upsert_other other manager.id u books.budgets (λ e. ne (sym e)),
    )

-- A refused replacement of a team's allocations changes no table; one that is accepted returns the
-- manager's new rows, exactly the given ones in the order of the children's ids, clears the manager's pending review, and leaves every
-- other node's rows in both tables alone.
pub replace_team_allocations_lem :
    (manager : Node) (allocations : List (Node × ℤ)) (nodes : List Node) (links : List Link)
    (books : Books) (other : String)
    → manager.id ≢ other
    → Decided manager allocations other books
        (replace_team_allocations manager allocations nodes links books)
unfolding replace_team_allocations
replace_team_allocations_lem manager allocations nodes links books other ne =
    elim (Result-cases (validate_direct_children manager allocations nodes links)) [
      | inl (e, refused) ↦ rw (refused, replace_team_allocations) refl
      | inr (_, accepted) ↦
          rw (accepted, replace_team_allocations)
            (stored-Decided manager allocations nodes links books other ne)
    ]
