-- ===== src/Budget/Shares.antt =====
-- What the split of one pool guarantees (src/omniclaw/budgets/engine.py).
use omni_claw.Prelude.{
  ℕ, ◌+◌, ◌-◌, ◌*◌, ◌≤◌, String, ◌≡◌, refl, sym, ap, subst, ◌∙◌, Bool, false, List, [], ◌∷◌, inl,
  inr, arith, ltb, Bool-cases, or_else, get_last, All, Fresh, Distinct, keys, get_last-Fresh,
  get_last-other, ne_sym, eq_refl,
}
use omni_claw.Org.Nodes.{Node}
use omni_claw.Budget.Split.{
  whole, share, percentage_of, allocated_children, total_percentage, is_nil, child_gross,
  split_pool, waterfall,
}

abbrev pub sum_values : List (String × ℕ) → ℕ
sum_values [] = 0
sum_values ((c, g) ∷ m) = g + sum_values m

child_gross-le :
    (gross total remaining p : ℕ) (last : Bool)
    → child_gross gross total remaining p last ≤ remaining
unfolding child_gross
child_gross-le gross total remaining p last = ground arith

split_conserves :
    (gross total remaining : ℕ) (allocated : List (String × ℕ))
    → let (values, left) = split_pool gross total remaining allocated in
      sum_values values + left ≡ remaining
unfolding split_pool
split_conserves gross total remaining [] = omega arith
split_conserves gross total remaining ((c, p) ∷ r) =
    let g = child_gross gross total remaining p (is_nil r) in
    omega (
      arith,
      child_gross-le gross total remaining p (is_nil r),
      split_conserves gross total (remaining - g) r,
    )

split_keys :
    (gross total remaining : ℕ) (allocated : List (String × ℕ))
    → keys (split_pool gross total remaining allocated).0 ≡ keys allocated
unfolding split_pool
split_keys gross total remaining [] = refl
split_keys gross total remaining ((c, p) ∷ r) =
    ap (λ (t : List String). c ∷ t)
      (split_keys gross total (remaining - child_gross gross total remaining p (is_nil r)) r)

-- Nothing is left where the shares are the whole.
split_all :
    (gross remaining : ℕ) (c : String × ℕ) (r : List (String × ℕ))
    → (split_pool gross whole remaining (c ∷ r)).1 ≡ 0
unfolding split_pool child_gross
split_all gross remaining (c, p) [] = omega arith
split_all gross remaining (c, p) (d ∷ r) =
    split_all gross (remaining - child_gross gross whole remaining p false) d r

-- The children of a manager get, together with what the manager keeps, exactly the manager's pool,
-- and the pools that are given are those of the children with a positive percentage, in order.
pub waterfall_conserves :
    (gross : ℕ) (allocations : List (String × ℕ)) (children : List Node)
    → let (values, left) = waterfall gross allocations children in
      (sum_values values + left ≡ gross)
      × (keys values ≡ keys (allocated_children allocations children))
unfolding waterfall total_percentage
waterfall_conserves gross allocations children =
    let allocated = allocated_children allocations children in
    (
      split_conserves gross (total_percentage allocated) gross allocated,
      split_keys gross (total_percentage allocated) gross allocated,
    )

-- Where the percentages of the children add up to one hundred, the children get exactly the whole
-- pool and the manager keeps nothing.
pub waterfall-whole :
    (gross : ℕ) (allocations : List (String × ℕ)) (children : List Node)
    → total_percentage (allocated_children allocations children) ≡ whole
    → let (values, left) = waterfall gross allocations children in
      (left ≡ 0) × (sum_values values ≡ gross)
unfolding waterfall total_percentage
waterfall-whole gross allocations children e =
    let empty = nothing_left (allocated_children allocations children) e in
    (empty, omega (arith, empty, (waterfall_conserves gross allocations children).0))
  where
    nothing_left :
        (allocated : List (String × ℕ))
        → total_percentage allocated ≡ whole
        → (split_pool gross (total_percentage allocated) gross allocated).1 ≡ 0
    nothing_left [] h = absurd (omega arith)
    nothing_left (c ∷ r) h =
        subst (λ t. (split_pool gross t gross (c ∷ r)).1 ≡ 0) (sym h) (split_all gross gross c r)

-- A share is the exact fraction of the pool, to within half a millionth of a dollar.
pub share_exact :
    (gross p : ℕ)
    → (gross * p ≤ share gross p * 10000 + 5000) × (share gross p * 10000 ≤ gross * p + 5000)
unfolding share
share_exact gross p = omega arith

-- The children's pools, read off the dictionary of the loop.
abbrev pub gross_of : List (String × ℕ) → Node → ℕ
gross_of values c = or_else (get_last c.id values) 0

abbrev pub sum_gross : List (String × ℕ) → List Node → ℕ
sum_gross values [] = 0
sum_gross values (c ∷ children) = gross_of values c + sum_gross values children

abbrev pub ids : List Node → List String
ids [] = []
ids (c ∷ children) = c.id ∷ ids children

allocated-Fresh :
    (k : String) (allocations : List (String × ℕ)) (children : List Node)
    → Fresh k (ids children)
    → Fresh k (keys (allocated_children allocations children))
unfolding allocated_children
allocated-Fresh k allocations [] h = tt
allocated-Fresh k allocations (c ∷ children) (ne, h) =
    elim (Bool-cases (ltb 0 (percentage_of allocations c))) [
      | inl e ↦ rw (e, All, keys) (ne, allocated-Fresh k allocations children h)
      | inr e ↦ rw (e, All, keys) (allocated-Fresh k allocations children h)
    ]

sum_gross-other :
    (k : String) (g : ℕ) (values : List (String × ℕ)) (children : List Node)
    → Fresh k (ids children)
    → sum_gross ((k, g) ∷ values) children ≡ sum_gross values children
sum_gross-other k g values [] h = refl
sum_gross-other k g values (c ∷ children) (ne, h) =
    rw (get_last-other c.id k g values (ne_sym ne)) (rw (sum_gross-other k g values children h))

gross_of-first :
    (c : Node) (g : ℕ) (values : List (String × ℕ))
    → Fresh c.id (keys values)
    → gross_of ((c.id, g) ∷ values) c ≡ g
gross_of-first c g values h = rw (get_last-Fresh c.id values h, eq_refl)

gross_of-none :
    (c : Node) (values : List (String × ℕ)) → Fresh c.id (keys values) → gross_of values c ≡ 0
gross_of-none c values h = rw (get_last-Fresh c.id values h)

first_child :
    (c : Node) (g : ℕ) (rest : List (String × ℕ)) (children : List Node)
    → Fresh c.id (keys rest)
    → Fresh c.id (ids children)
    → sum_gross ((c.id, g) ∷ rest) (c ∷ children) ≡ g + sum_gross rest children
first_child c g rest children h k =
    ap (λ t. t + sum_gross ((c.id, g) ∷ rest) children) (gross_of-first c g rest h)
    ∙ ap (λ t. g + t) (sum_gross-other c.id g rest children k)

with_first :
    (c : Node) (g : ℕ) (rest values : List (String × ℕ)) (children : List Node)
    → values ≡ (c.id, g) ∷ rest
    → Fresh c.id (keys rest)
    → Fresh c.id (ids children)
    → sum_gross rest children ≡ sum_values rest
    → sum_gross values (c ∷ children) ≡ sum_values values
with_first c g rest values children shape h k ih =
    subst (λ v. sum_gross v (c ∷ children) ≡ sum_values v) (sym shape)
      (first_child c g rest children h k ∙ ap (λ t. g + t) ih)

no_values : (values : List (String × ℕ)) → keys values ≡ [] → sum_values values ≡ 0
no_values [] e = refl
no_values (x ∷ values) e = cc

first_value :
    (k : String) (ks : List String) (values : List (String × ℕ))
    → keys values ≡ k ∷ ks
    → (g : ℕ) × (rest : List (String × ℕ)) × (values ≡ (k, g) ∷ rest) × (keys rest ≡ ks)
first_value k ks [] e = cc
first_value k ks ((j, g) ∷ rest) e = (g, rest, cc, cc)

-- Read child by child, the dictionary of the loop adds up to what the loop gave out.
pub sum_gross-values :
    (allocations values : List (String × ℕ)) (children : List Node)
    → keys values ≡ keys (allocated_children allocations children)
    → Distinct (ids children)
    → sum_gross values children ≡ sum_values values
unfolding allocated_children
sum_gross-values allocations values [] e h = sym (no_values values e)
sum_gross-values allocations values (c ∷ children) e (fresh, h) =
    elim (Bool-cases (ltb 0 (percentage_of allocations c))) [
      | inl some_share ↦
          let (g, rest, shape, ks) =
            first_value c.id (keys (allocated_children allocations children)) values
              (rw (some_share, keys) at e) in
          let fresh' : Fresh c.id (keys rest) =
            subst (Fresh c.id) (sym ks) (allocated-Fresh c.id allocations children fresh) in
          with_first c g rest values children shape fresh' fresh
            (sum_gross-values allocations rest children ks h)
      | inr no_share ↦
          let ks : keys values ≡ keys (allocated_children allocations children) =
            rw (no_share, keys) at e in
          let fresh' : Fresh c.id (keys values) =
            subst (Fresh c.id) (sym ks) (allocated-Fresh c.id allocations children fresh) in
          omega (
            arith,
            gross_of-none c values fresh',
            sum_gross-values allocations values children ks h,
          )
    ]
