-- ===== src/Budget/Conservation.antt =====
-- No money is made or lost on the way down the hierarchy (src/omniclaw/budgets/engine.py,
-- `_build_snapshot_tree`).
use omni_claw.Prelude.{
  ℕ, zero, suc, ◌+◌, String, ◌≡◌, ◌≢◌, All-append_right, sym, ap, subst, ◌∙◌, Bool, false, Option,
  none, some, List, [], ◌∷◌, ◌++◌, append_assoc, append-nil, arith, dict_update, Fresh, Distinct,
  keys, keys-append, Distinct-append_left, Distinct-append_right, dict_update-Distinct,
  Option-cases, inl, inr, some_inj,
}
use omni_claw.Org.Nodes.{Node}
use omni_claw.Budget.Table.{Budgets, list_budget_allocations}
use omni_claw.Budget.Split.{allocation_map, percentage_of, waterfall}
use omni_claw.Budget.Tree.{
  Company, Snapshots, children_of, settle_node, visit_children, build_snapshot_tree,
}
use omni_claw.Budget.Shares.{gross_of, sum_gross, ids, waterfall_conserves, sum_gross-values}

-- What all the nodes of the snapshots may spend of the day's money.
abbrev pub sum_allowance : Snapshots → ℕ
sum_allowance [] = 0
sum_allowance ((k, s) ∷ d) = s.self_daily_allowance_usd + sum_allowance d

sum_allowance-append :
    (d e : Snapshots) → sum_allowance (d ++ e) ≡ sum_allowance d + sum_allowance e
sum_allowance-append [] e = omega arith
sum_allowance-append ((k, s) ∷ d) e = omega (arith, sum_allowance-append d e)

-- The nodes of a subtree as the recursion meets them, down to a depth.
abbrev pub below_all : (Node → List String) → List Node → List String
below_all walk [] = []
below_all walk (c ∷ children) = walk c ++ below_all walk children

unfoldable pub subtree_ids : ℕ → Company → Node → List String
subtree_ids zero co node = node.id ∷ []
subtree_ids (suc fuel) co node = node.id ∷ below_all (subtree_ids fuel co) (children_of co node)

abbrev pub Visit : Type 0
Visit = Node → ℕ → ℕ → Budgets → Option (Snapshots × Budgets)

-- A visit that, where it returns, hands on all of the pool that it is given to the nodes it walks.
abbrev pub Conserves : Visit → (Node → List String) → Type 0
Conserves visit walk =
    (c : Node) (g p : ℕ) (b : Budgets) (d : Snapshots) (b' : Budgets)
    → Distinct (walk c)
    → visit c g p b ≡ some (d, b')
    → (sum_allowance d ≡ g) × (keys d ≡ walk c)

finished :
    (results d : Snapshots)
    → results ≡ d
    → (sum_allowance d ≡ sum_allowance results + 0) × (keys d ≡ keys results ++ [])
finished results d e =
    subst (λ t. (sum_allowance t ≡ sum_allowance results + 0) × (keys t ≡ keys results ++ [])) e
      (omega arith, sym (append-nil (keys results)))

-- Without a common node the update of the results appends.
pub appended :
    (results below : Snapshots) (ks more : List String)
    → keys below ≡ ks
    → Distinct (keys results ++ (ks ++ more))
    → dict_update results below ≡ results ++ below
appended results below ks more walked h = dict_update-Distinct results below (
    subst (λ t. Distinct (keys results ++ t)) (sym walked)
      (Distinct-append_left (keys results ++ ks) more
        (subst Distinct (sym (append_assoc (keys results) ks more)) h)))

-- The snapshots of one child's subtree join the results.
pub joined :
    (results below : Snapshots) (ks more : List String)
    → keys below ≡ ks
    → Distinct (keys results ++ (ks ++ more))
    → (sum_allowance (dict_update results below) ≡ sum_allowance results + sum_allowance below)
      × (keys (dict_update results below) ++ more ≡ keys results ++ (ks ++ more))
joined results below ks more walked h =
    let together = appended results below ks more walked h in
    (
      ap sum_allowance together ∙ sum_allowance-append results below,
      ap (λ t. keys t ++ more) together
          ∙ ap (λ t. t ++ more) (keys-append results below)
          ∙ ap (λ t. (keys results ++ t) ++ more) walked
          ∙ append_assoc (keys results) ks more,
    )

module _ (visit : Visit) (walk : Node → List String) (conserves : Conserves visit walk) where
  visit_children_conserves :
      (values allocations : List (String × ℕ)) (children : List Node) (results : Snapshots)
      (b : Budgets) (d : Snapshots) (b' : Budgets)
      → Distinct (keys results ++ below_all walk children)
      → visit_children visit values allocations children results b ≡ some (d, b')
      → (sum_allowance d ≡ sum_allowance results + sum_gross values children)
        × (keys d ≡ keys results ++ below_all walk children)
  unfolding visit_children
  visit_children_conserves values allocations [] results b d b' h e =
      finished results d (ap (λ t. t.0) (some_inj e))
  visit_children_conserves values allocations (c ∷ children) results b d b' h e =
      elim (Option-cases (visit c (gross_of values c) (percentage_of allocations c) b)) [
        | inl stopped ↦
            let e' : ◌≡◌ {A = Option (Snapshots × Budgets)} none (some (d, b')) =
              rw (stopped, visit_children) at e in
            cc
        | inr ((below, now), returned) ↦
            let more = below_all walk children in
            let (total, walked) =
              conserves c (gross_of values c) (percentage_of allocations c) b below now
                (Distinct-append_left (walk c) more
                  (Distinct-append_right (keys results) (walk c ++ more) h))
                returned in
            let (sum, order) = joined results below (walk c) more walked h in
            let (total', walked') =
              visit_children_conserves values allocations children (dict_update results below) now d
                b' (subst Distinct (sym order) h) (rw (returned, visit_children) at e) in
            (omega (arith, sum, total, total'), walked' ∙ order)
      ]

-- The nodes of the walks have the children among them.
ids-Fresh :
    (fuel : ℕ) (co : Company) (k : String) (children : List Node)
    → Fresh k (below_all (subtree_ids fuel co) children)
    → Fresh k (ids children)
unfolding subtree_ids
ids-Fresh fuel co k [] h = tt
ids-Fresh zero co k (c ∷ children) (ne, h) = (ne, ids-Fresh zero co k children h)
ids-Fresh (suc fuel) co k (c ∷ children) (ne, h) = (
  ne,
  ids-Fresh (suc fuel) co k children (
      All-append_right (λ j. k ≢ j) (below_all (subtree_ids fuel co) (children_of co c))
        (below_all (subtree_ids (suc fuel) co) children) h),
)

ids-Distinct :
    (fuel : ℕ) (co : Company) (children : List Node)
    → Distinct (below_all (subtree_ids fuel co) children)
    → Distinct (ids children)
unfolding subtree_ids
ids-Distinct fuel co [] h = tt
ids-Distinct zero co (c ∷ children) (fresh, h) =
    (ids-Fresh zero co c.id children fresh, ids-Distinct zero co children h)
ids-Distinct (suc fuel) co (c ∷ children) (fresh, h) =
    let below = below_all (subtree_ids fuel co) (children_of co c) in
    let rest = below_all (subtree_ids (suc fuel) co) children in
    (
      ids-Fresh (suc fuel) co c.id children (All-append_right (λ j. c.id ≢ j) below rest fresh),
      ids-Distinct (suc fuel) co children (Distinct-append_right below rest h),
    )

-- The snapshots of a subtree, no node of which is met twice, are those of exactly its nodes, in the
-- order of the walk, and the daily allowances in them add up to exactly the pool that the subtree was
-- given.
pub build_snapshot_tree_conserves :
    (fuel : ℕ) (co : Company) (reset force : Bool) (node : Node) (gross : ℕ)
    (parent : Option String) (percentage : Option ℕ) (b : Budgets) (d : Snapshots) (b' : Budgets)
    → Distinct (subtree_ids fuel co node)
    → build_snapshot_tree fuel co reset force node gross parent percentage b ≡ some (d, b')
    → (sum_allowance d ≡ gross) × (keys d ≡ subtree_ids fuel co node)
unfolding subtree_ids build_snapshot_tree settle_node
build_snapshot_tree_conserves zero co reset force node gross parent percentage b d b' h e = cc
build_snapshot_tree_conserves (suc fuel) co reset force node gross parent percentage b d b' h e =
    let children = children_of co node in
    let allocations = allocation_map (list_budget_allocations node.id co.allocations) in
    let (values, self_allowance) = waterfall gross allocations children in
    let (snapshot, now) =
      settle_node co reset force node gross parent percentage self_allowance b in
    let (pool, given_out) = waterfall_conserves gross allocations children in
    let (total, order) =
      visit_children_conserves
        (λ c g p n. build_snapshot_tree fuel co reset false c g (some node.id) (some p) n)
        (subtree_ids fuel co)
        (λ c g p n m n'.
          build_snapshot_tree_conserves fuel co reset false c g (some node.id) (some p) n m n')
        values allocations children ((node.id, snapshot) ∷ []) now d b' h e in
    (
      omega (
        arith,
        total,
        pool,
        sum_gross-values allocations values children given_out (ids-Distinct fuel co children h.1),
      ),
      order,
    )
