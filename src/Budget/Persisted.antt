-- ===== src/Budget/Persisted.antt =====
-- The snapshots agree with the table `budgets` (src/omniclaw/budgets/engine.py,
-- `_build_snapshot_tree`): what one visit wrote no later visit changes.
use omni_claw.Prelude.{
  ℕ, zero, suc, ◌+◌, String, ◌≡◌, ◌≢◌, refl, sym, ap, subst, ◌∙◌, Bool, false, ◌&&◌, not, Option,
  none, some, List, [], ◌∷◌, ◌++◌, append_assoc, inl, inr, ◌==◌, is_some, given, dict_update, All,
  All-append, All-append_left, All-append_right, Fresh, Distinct, Distinct-append_left,
  Distinct-append_right, keys, Option-cases, Bool-cases, some_inj,
}
use omni_claw.Org.Nodes.{Node}
use omni_claw.Budget.Table.{
  Budget, no_update, Budgets, apply_update, get_budget, upsert_budget, list_budget_allocations,
  sum_agent_llm_costs,
}
use omni_claw.Budget.Split.{allocation_map, percentage_of, waterfall}
use omni_claw.Budget.Tree.{
  Company, BudgetSnapshot, Snapshots, children_of, is_metered, same_id, ensure_budget, free_root,
  reconcile, carry_over, settle_node, visit_children, build_snapshot_tree,
}
use omni_claw.Budget.Shares.{gross_of}
use omni_claw.Budget.Rows.{upsert_row, get-upsert_self, get-upsert_other}
use omni_claw.Budget.Conservation.{
  Visit, Conserves, below_all, subtree_ids, appended, joined, build_snapshot_tree_conserves,
}

-- The node's row says what its snapshot says.
pub record IsRecorded (budgets : Budgets) (entry : String × BudgetSnapshot) : Type 0 where
  pub row : Budget
  pub found : get_budget entry.0 budgets ≡ some row
  pub limit : row.daily_limit_usd ≡ entry.1.available_budget_usd
  pub allowance : row.current_daily_allowance ≡ entry.1.self_daily_allowance_usd
  pub reserve : row.rollover_reserve_usd ≡ entry.1.rollover_reserve_usd
  pub spend : row.current_spend ≡ entry.1.current_spend_usd
  pub parent : row.parent_node_id ≡ entry.1.parent_node_id
  pub mode : row.budget_mode ≡ entry.1.budget_mode

ensure-other :
    (j : String) (node : Node) (parent : Option String) (b : Budgets)
    → j ≢ node.id
    → get_budget j (ensure_budget node parent b).1 ≡ get_budget j b
unfolding ensure_budget
ensure-other j node parent b ne = elim (Option-cases (get_budget node.id b)) [
  | inl missing ↦ rw (missing, ensure_budget) (get-upsert_other j node.id _ b ne)
  | inr (row, found) ↦ elim (Bool-cases (same_id parent row.parent_node_id)) [
    | inl same ↦ rw (found, same, ensure_budget) refl
    | inr other ↦ rw (found, other, ensure_budget) (get-upsert_other j node.id _ b ne)
  ]
]

free_root-other :
    (j : String) (force : Bool) (node : Node) (parent : Option String) (row : Budget) (b : Budgets)
    → j ≢ node.id
    → get_budget j (free_root force node parent (row, b)).1 ≡ get_budget j b
unfolding free_root
free_root-other j force node parent row b ne =
    elim (Bool-cases (force && (not (is_some parent) && is_metered row.budget_mode))) [
      | inl e ↦ rw (e, free_root) (get-upsert_other j node.id _ b ne)
      | inr e ↦ rw (e, free_root) refl
    ]

reconcile-other :
    (j : String) (reset : Bool) (spent : ℕ) (node : Node) (row : Budget) (b : Budgets)
    → j ≢ node.id
    → get_budget j (reconcile reset spent node (row, b)).1 ≡ get_budget j b
unfolding reconcile
reconcile-other j reset spent node row b ne =
    elim (Bool-cases
      (is_metered row.budget_mode && (not reset && not (spent == row.current_spend)))) [
        | inl e ↦ rw (e, reconcile) (get-upsert_other j node.id _ b ne)
        | inr e ↦ rw (e, reconcile) refl
      ]

module _ (co : Company) (reset force : Bool) (node : Node) (gross : ℕ) (parent : Option String)
    (percentage : Option ℕ) (self : ℕ) (b : Budgets) where
  settle_node-other :
      (j : String)
      → j ≢ node.id
      → get_budget j (settle_node co reset force node gross parent percentage self b).1
        ≡ get_budget j b
  unfolding settle_node
  settle_node-other j ne =
      let ensured = ensure_budget node parent b in
      let freed = free_root force node parent ensured in
      let spent = sum_agent_llm_costs node.id co.calls in
      get-upsert_other j node.id _ (reconcile reset spent node freed).1 ne
      ∙ reconcile-other j reset spent node freed.0 freed.1 ne
      ∙ free_root-other j force node parent ensured.0 ensured.1 ne
      ∙ ensure-other j node parent b ne

  settle_node-IsRecorded :
      let (snapshot, b') = settle_node co reset force node gross parent percentage self b in
      IsRecorded b' (node.id, snapshot)
  unfolding settle_node apply_update
  settle_node-IsRecorded =
      let ((old, spend), now) =
        reconcile reset (sum_agent_llm_costs node.id co.calls) node
          (free_root force node parent (ensure_budget node parent b)) in
      let (reserve, current_spend) = carry_over reset old spend in
      let u = record no_update {
        daily_limit_usd = some (self + reserve);
        current_daily_allowance = some self;
        current_spend = some current_spend;
        parent_node_id = given parent;
        allocated_percentage = percentage;
        rollover_reserve_usd = some reserve;
        review_required_at = given old.review_required_at;
      } in
      let (before, applied) = upsert_row node.id u now in
      record {
        row = (upsert_budget node.id u now).0;
        found = get-upsert_self node.id u now;
        limit = ap (λ r. r.daily_limit_usd) applied;
        allowance = ap (λ r. r.current_daily_allowance) applied;
        reserve = ap (λ r. r.rollover_reserve_usd) applied;
        spend = ap (λ r. r.current_spend) applied;
        parent = ap (λ r. r.parent_node_id) applied;
        mode = refl;
      }

-- The rows of other nodes than these stay.
abbrev Keeps : List String → Budgets → Budgets → Type 0
Keeps ks b b' = (j : String) → Fresh j ks → get_budget j b' ≡ get_budget j b

kept :
    (k : String) (s : BudgetSnapshot) (b b' : Budgets)
    → get_budget k b' ≡ get_budget k b
    → IsRecorded b (k, s)
    → IsRecorded b' (k, s)
kept k s b b' same r = record {
  row = r.row;
  found = same ∙ r.found;
  limit = r.limit;
  allowance = r.allowance;
  reserve = r.reserve;
  spend = r.spend;
  parent = r.parent;
  mode = r.mode;
}

all_kept :
    (ks : List String) (b b' : Budgets) (d : Snapshots)
    → Keeps ks b b'
    → Distinct (keys d ++ ks)
    → All (IsRecorded b) d
    → All (IsRecorded b') d
all_kept ks b b' [] keeps h r = tt
all_kept ks b b' ((k, s) ∷ d) keeps (fresh, h) (first, r) = (
  kept k s b b' (keeps k (All-append_right (λ j. k ≢ j) (keys d) ks fresh)) first,
  all_kept ks b b' d keeps h r,
)

finished :
    (results d : Snapshots) (b b' : Budgets)
    → ◌≡◌ {A = Snapshots × Budgets} (results, b) (d, b')
    → All (IsRecorded b) results
    → All (IsRecorded b') d × Keeps [] b b'
finished results d b b' e r = (
  subst (λ (t : Snapshots × Budgets). All (IsRecorded t.1) t.0) e r,
  λ j h. ap (λ (t : Snapshots × Budgets). get_budget j t.1) (sym e),
)

-- A visit that, where it returns, leaves a row for each of its snapshots and the other rows alone.
abbrev Records : Visit → (Node → List String) → Type 0
Records visit walk =
    (c : Node) (g p : ℕ) (b : Budgets) (d : Snapshots) (b' : Budgets)
    → Distinct (walk c)
    → visit c g p b ≡ some (d, b')
    → All (IsRecorded b') d × Keeps (walk c) b b'

module _ (visit : Visit) (walk : Node → List String) (conserves : Conserves visit walk)
    (records : Records visit walk) where
  visit_children_records :
      (values allocations : List (String × ℕ)) (children : List Node) (results : Snapshots)
      (b : Budgets) (d : Snapshots) (b' : Budgets)
      → Distinct (keys results ++ below_all walk children)
      → All (IsRecorded b) results
      → visit_children visit values allocations children results b ≡ some (d, b')
      → All (IsRecorded b') d × Keeps (below_all walk children) b b'
  unfolding visit_children
  visit_children_records values allocations [] results b d b' h r e =
      finished results d b b' (some_inj e) r
  visit_children_records values allocations (c ∷ children) results b d b' h r e =
      elim (Option-cases (visit c (gross_of values c) (percentage_of allocations c) b)) [
        | inl stopped ↦
            let e' : ◌≡◌ {A = Option (Snapshots × Budgets)} none (some (d, b')) =
              rw (stopped, visit_children) at e in
            cc
        | inr ((below, now), returned) ↦
            let more = below_all walk children in
            let own =
              Distinct-append_left (walk c) more
                (Distinct-append_right (keys results) (walk c ++ more) h) in
            let (_, walked) =
              conserves c (gross_of values c) (percentage_of allocations c) b below now own
                returned in
            let (recorded, keeps) =
              records c (gross_of values c) (percentage_of allocations c) b below now own
                returned in
            let apart =
              Distinct-append_left (keys results ++ walk c) more
                (subst Distinct (sym (append_assoc (keys results) (walk c) more)) h) in
            let both =
              subst (All (IsRecorded now)) (sym (appended results below (walk c) more walked h)) (
                All-append (IsRecorded now) results below
                  (all_kept (walk c) b now results keeps apart r) recorded) in
            let (recorded', keeps') =
              visit_children_records values allocations children (dict_update results below) now d
                b' (subst Distinct (sym (joined results below (walk c) more walked h).1) h) both
                (rw (returned, visit_children) at e) in
            (
              recorded',
              λ j fresh.
                  keeps' j (All-append_right (λ k. j ≢ k) (walk c) more fresh)
                  ∙ keeps j (All-append_left (λ k. j ≢ k) (walk c) more fresh),
            )
      ]

build-Records :
    (fuel : ℕ) (co : Company) (reset force : Bool) (node : Node) (gross : ℕ)
    (parent : Option String) (percentage : Option ℕ) (b : Budgets) (d : Snapshots) (b' : Budgets)
    → Distinct (subtree_ids fuel co node)
    → build_snapshot_tree fuel co reset force node gross parent percentage b ≡ some (d, b')
    → All (IsRecorded b') d × Keeps (subtree_ids fuel co node) b b'
unfolding subtree_ids build_snapshot_tree
build-Records zero co reset force node gross parent percentage b d b' h e = cc
build-Records (suc fuel) co reset force node gross parent percentage b d b' h e =
    let children = children_of co node in
    let allocations = allocation_map (list_budget_allocations node.id co.allocations) in
    let (values, self) = waterfall gross allocations children in
    let (snapshot, now) = settle_node co reset force node gross parent percentage self b in
    let (recorded, keeps) =
      visit_children_records
        (λ c g p n. build_snapshot_tree fuel co reset false c g (some node.id) (some p) n)
        (subtree_ids fuel co)
        (λ c g p n m n'.
          build_snapshot_tree_conserves fuel co reset false c g (some node.id) (some p) n m n')
        (λ c g p n m n'. build-Records fuel co reset false c g (some node.id) (some p) n m n')
        values allocations children ((node.id, snapshot) ∷ []) now d b' h
        (settle_node-IsRecorded co reset force node gross parent percentage self b, tt) e in
    (
      recorded,
      λ j (ne, fresh).
          keeps j fresh ∙ settle_node-other co reset force node gross parent percentage self b j ne,
    )

-- After the walk over a subtree, no node of which is met twice, the row of each of its nodes holds
-- the cap, the allowance, the reserve, the spend, the manager and the mode that the node's snapshot
-- says, and the row of any other node is as before.
pub build_snapshot_tree_persists :
    (fuel : ℕ) (co : Company) (reset force : Bool) (node : Node) (gross : ℕ)
    (parent : Option String) (percentage : Option ℕ) (b : Budgets) (d : Snapshots) (b' : Budgets)
    (j : String)
    → Distinct (subtree_ids fuel co node)
    → build_snapshot_tree fuel co reset force node gross parent percentage b ≡ some (d, b')
    → Fresh j (subtree_ids fuel co node)
    → All (IsRecorded b') d × (get_budget j b' ≡ get_budget j b)
build_snapshot_tree_persists fuel co reset force node gross parent percentage b d b' j h e fresh =
    let (recorded, keeps) =
      build-Records fuel co reset force node gross parent percentage b d b' h e in
    (recorded, keeps j fresh)
