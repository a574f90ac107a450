-- ===== src/Budget/Termination.antt =====
-- When the walk over the hierarchy ends (src/omniclaw/budgets/engine.py, `_build_snapshot_tree`). The
-- recursion follows the management links, so it ends exactly as far as they lead down.
use omni_claw.Prelude.{
  ℕ, zero, suc, ◌<◌, String, ◌≡◌, ◌⊎◌, inl, inr, refl, Bool, false, Option, none, some, List, [],
  ◌∷◌, All, Option-cases, arith, dict_update,
}
use omni_claw.Org.Nodes.{Node}
use omni_claw.Budget.Table.{Budgets, list_budget_allocations}
use omni_claw.Budget.Split.{allocation_map, percentage_of, waterfall}
use omni_claw.Budget.Tree.{
  Company, Snapshots, children_of, settle_node, visit_children, build_snapshot_tree,
}
use omni_claw.Budget.Shares.{gross_of}

abbrev Visit : Type 0
Visit = Node → ℕ → ℕ → Budgets → Option (Snapshots × Budgets)

abbrev pub Returns : Option (Snapshots × Budgets) → Type 0
Returns o = (r : Snapshots × Budgets) × (o ≡ some r)

-- Some node of a list has the property.
abbrev pub SomeNode : (Node → Type 0) → List Node → Type 0
SomeNode P [] = ⊥
SomeNode P (c ∷ children) = P c ⊎ SomeNode P children

-- The loop over the children ends where every visit does.
visit_children-Returns :
    (visit : Visit) (values allocations : List (String × ℕ)) (children : List Node)
    (results : Snapshots) (b : Budgets)
    → All (λ c. (g p : ℕ) (n : Budgets) → Returns (visit c g p n)) children
    → Returns (visit_children visit values allocations children results b)
unfolding visit_children
visit_children-Returns visit values allocations [] results b h = ((results, b), refl)
visit_children-Returns visit values allocations (c ∷ children) results b (first, h) =
    let ((below, now), e) = first (gross_of values c) (percentage_of allocations c) b in
    rw (e, visit_children)
      (visit_children-Returns visit values allocations children (dict_update results below) now h)

-- One visit without an end stops the loop.
visit_children-diverges :
    (visit : Visit) (values allocations : List (String × ℕ)) (children : List Node)
    (results : Snapshots) (b : Budgets)
    → SomeNode (λ c. (g p : ℕ) (n : Budgets) → visit c g p n ≡ none) children
    → visit_children visit values allocations children results b ≡ none
unfolding visit_children
visit_children-diverges visit values allocations [] results b h = absurd h
visit_children-diverges visit values allocations (c ∷ children) results b (inl h) =
    rw (h (gross_of values c) (percentage_of allocations c) b, visit_children) refl
visit_children-diverges visit values allocations (c ∷ children) results b (inr h) =
    elim (Option-cases (visit c (gross_of values c) (percentage_of allocations c) b)) [
      | inl e ↦ rw (e, visit_children) refl
      | inr ((below, now), e) ↦
          rw (e, visit_children)
            (visit_children-diverges visit values allocations children (dict_update results below)
              now h)
    ]

module _ (co : Company) (depth : Node → ℕ) where
  -- Every report of a node is less deep than the node.
  abbrev pub DescendsFrom : Node → Type 0
  DescendsFrom node = All (λ c. depth c < depth node) (children_of co node)

  below :
      (n : ℕ) (children : List Node) (fuel : ℕ)
      → n < suc fuel
      → All (λ c. depth c < n) children
      → All (λ c. depth c < fuel) children
  below n [] fuel le h = tt
  below n (c ∷ children) fuel le (lt, h) = (omega arith, below n children fuel le h)

  map_all :
      (P Q : Node → Type 0) (children : List Node)
      → ((c : Node) → P c → Q c)
      → All P children
      → All Q children
  map_all P Q [] f h = tt
  map_all P Q (c ∷ children) f (p, h) = (f c p, map_all P Q children f h)

  -- Where a depth falls along every management link of the company, the walk from a node returns
  -- its snapshots, and more recursive calls on top of one another than the node's depth are never
  -- made.
  pub build_snapshot_tree-Returns :
      ((node : Node) → DescendsFrom node)
      → (fuel : ℕ) (reset force : Bool) (node : Node) (gross : ℕ) (parent : Option String)
        (percentage : Option ℕ) (b : Budgets)
      → depth node < fuel
      → Returns (build_snapshot_tree fuel co reset force node gross parent percentage b)
  unfolding build_snapshot_tree
  build_snapshot_tree-Returns down zero reset force node gross parent percentage b lt =
      absurd (omega arith)
  build_snapshot_tree-Returns down (suc fuel) reset force node gross parent percentage b lt =
      let children = children_of co node in
      let allocations = allocation_map (list_budget_allocations node.id co.allocations) in
      let (values, self_allowance) = waterfall gross allocations children in
      let (snapshot, now) =
        settle_node co reset force node gross parent percentage self_allowance b in
      visit_children-Returns
        (λ c g p n. build_snapshot_tree fuel co reset false c g (some node.id) (some p) n) values
        allocations children ((node.id, snapshot) ∷ []) now
        (map_all (λ c. depth c < fuel)
          (λ c.
            (g p : ℕ) (n : Budgets)
            → Returns (build_snapshot_tree fuel co reset false c g (some node.id) (some p) n))
          children
          (λ c l g p n.
            build_snapshot_tree-Returns down fuel reset false c g (some node.id) (some p) n l)
          (below (depth node) children fuel lt (down node)))

module _ (co : Company) (Looping : Node → Type 0) where
  map_some :
      (P Q : Node → Type 0) (children : List Node)
      → ((c : Node) → P c → Q c)
      → SomeNode P children
      → SomeNode Q children
  map_some P Q [] f h = absurd h
  map_some P Q (c ∷ children) f (inl p) = inl (f c p)
  map_some P Q (c ∷ children) f (inr h) = inr (map_some P Q children f h)

  -- From a node of a set in which every node has a report in the set, as the nodes of a management
  -- cycle have, the walk never returns, whatever the number of recursive calls it may make.
  pub build_snapshot_tree_diverges :
      ((node : Node) → Looping node → SomeNode Looping (children_of co node))
      → (fuel : ℕ) (reset force : Bool) (node : Node) (gross : ℕ) (parent : Option String)
        (percentage : Option ℕ) (b : Budgets)
      → Looping node
      → build_snapshot_tree fuel co reset force node gross parent percentage b ≡ none
  unfolding build_snapshot_tree
  build_snapshot_tree_diverges step zero reset force node gross parent percentage b h = refl
  build_snapshot_tree_diverges step (suc fuel) reset force node gross parent percentage b h =
      let children = children_of co node in
      let allocations = allocation_map (list_budget_allocations node.id co.allocations) in
      let (values, self_allowance) = waterfall gross allocations children in
      let (snapshot, now) =
        settle_node co reset force node gross parent percentage self_allowance b in
      visit_children-diverges
        (λ c g p n. build_snapshot_tree fuel co reset false c g (some node.id) (some p) n) values
        allocations children ((node.id, snapshot) ∷ []) now
        (map_some Looping
          (λ c.
            (g p : ℕ) (n : Budgets)
            → build_snapshot_tree fuel co reset false c g (some node.id) (some p) n ≡ none)
          children
          (λ c l g p n.
            build_snapshot_tree_diverges step fuel reset false c g (some node.id) (some p) n l)
          (step node h))
