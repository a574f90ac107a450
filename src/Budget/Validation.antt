-- ===== src/Budget/Validation.antt =====
-- Which allocations a manager may make (src/omniclaw/budgets/engine.py, `_validate_direct_children`).
use omni_claw.Prelude.{
  ℕ, ◌+◌, ◌≤◌, String, ◌≡◌, refl, Bool, true, false, not, List, [], ◌∷◌, inl, inr, arith, str_eq,
  ◌∙◌, ◌↔◌, none, eq_iff, All, Fresh, Distinct, Bool-cases,
}
use omni_claw.Result.{Result, Error, require, is_done}
use omni_claw.Org.Nodes.{Node}
use omni_claw.Org.Links.{Link, list_child_nodes}
use omni_claw.Budget.Split.{whole}
use omni_claw.Budget.Allocations.{
  ℤ, is_negative, to_ℕ, contains, ids_of, id_of_each, not_a_report, duplicate, negative,
  check_allocations, validate_direct_children,
}

abbrev pub total_of : List (Node × ℤ) → ℕ
total_of [] = 0
total_of ((c, p) ∷ allocations) = to_ℕ p + total_of allocations

-- Direct reports only, none of them twice, no negative percentage, and at most one hundred in all.
pub record IsAllowed (direct : List String) (allocations : List (Node × ℤ)) : Type 0 where
  pub reports : All (λ k. contains k direct ≡ true) (ids_of allocations)
  pub once : Distinct (ids_of allocations)
  pub signs : All (λ (a : Node × ℤ). is_negative a.1 ≡ false) allocations
  pub sum : total_of allocations ≤ whole

-- The same with what the loop has seen and added up before.
record Continues (direct seen : List String) (total : ℕ) (allocations : List (Node × ℤ))
    : Type 0 where
  pub reports : All (λ k. contains k direct ≡ true) (ids_of allocations)
  pub new : All (λ k. contains k seen ≡ false) (ids_of allocations)
  pub once : Distinct (ids_of allocations)
  pub signs : All (λ (a : Node × ℤ). is_negative a.1 ≡ false) allocations
  pub sum : total + total_of allocations ≤ whole

pass-guards :
    (a b c : Bool) (e f g : Error) (r : Result (Unit {0}))
    → is_done (require a e (require (not b) f (require (not c) g r))) ≡ true
    → (a ≡ true) × (b ≡ false) × (c ≡ false) × (is_done r ≡ true)
pass-guards true false false e f g r h = (refl, refl, refl, h)
pass-guards true false true e f g r h = cc
pass-guards true true c e f g r h = cc
pass-guards false b c e f g r h = cc

guards-pass :
    (a b c : Bool) (e f g : Error) (r : Result (Unit {0}))
    → a ≡ true
    → b ≡ false
    → c ≡ false
    → is_done (require a e (require (not b) f (require (not c) g r))) ≡ is_done r
guards-pass a b c e f g r ha hb hc = rw (ha, hb, hc) refl

-- Not the one just seen, and none of those seen before.
not_seen :
    (k : String) (seen ks : List String)
    → All (λ j. contains j (k ∷ seen) ≡ false) ks
    → Fresh k ks × All (λ j. contains j seen ≡ false) ks
not_seen k seen [] h = (tt, tt)
not_seen k seen (j ∷ ks) (first, h) =
    let (fresh, rest) = not_seen k seen ks h in
    elim (Bool-cases (str_eq k j)) [
      | inl same ↦ let e : true ≡ false = rw (same) at first in cc
      | inr other ↦ ((ground (arith, eq_iff k j), fresh), (rw (other) at first, rest))
    ]

unseen :
    (k : String) (seen ks : List String)
    → Fresh k ks
    → All (λ j. contains j seen ≡ false) ks
    → All (λ j. contains j (k ∷ seen) ≡ false) ks
unseen k seen [] fresh h = tt
unseen k seen (j ∷ ks) (ne, fresh) (first, h) =
    let other : str_eq k j ≡ false = ground (arith, eq_iff k j) in
    (rw (other) first, unseen k seen ks fresh h)

passes :
    (manager : Node) (direct seen : List String) (total : ℕ) (allocations : List (Node × ℤ))
    → is_done (check_allocations manager direct allocations seen total) ≡ true
    → Continues direct seen total allocations
unfolding check_allocations
passes manager direct seen total [] h = record {
  reports = tt;
  new = tt;
  once = tt;
  signs = tt;
  sum = ground arith;
}
passes manager direct seen total ((c, p) ∷ allocations) h =
    let (known, new, positive, rest) =
      pass-guards (contains c.id direct) (contains c.id seen) (is_negative p)
        (not_a_report c manager) (duplicate c) negative
        (check_allocations manager direct allocations (c.id ∷ seen) (total + to_ℕ p)) h in
    let ih = passes manager direct (c.id ∷ seen) (total + to_ℕ p) allocations rest in
    let (fresh, new') = not_seen c.id seen (ids_of allocations) ih.new in
    record {
      reports = (known, ih.reports);
      new = (new, new');
      once = (fresh, ih.once);
      signs = (positive, ih.signs);
      sum = omega (arith, ih.sum);
    }

passed :
    (manager : Node) (direct seen : List String) (total : ℕ) (allocations : List (Node × ℤ))
    → Continues direct seen total allocations
    → is_done (check_allocations manager direct allocations seen total) ≡ true
unfolding check_allocations
passed manager direct seen total [] h = let le = h.sum in ground arith
passed manager direct seen total ((c, p) ∷ allocations) h =
    guards-pass (contains c.id direct) (contains c.id seen) (is_negative p) (not_a_report c manager)
      (duplicate c) negative
      (check_allocations manager direct allocations (c.id ∷ seen) (total + to_ℕ p)) h.reports.0
      h.new.0 h.signs.0
    ∙ passed manager direct (c.id ∷ seen) (total + to_ℕ p) allocations (record {
      reports = h.reports.1;
      new = unseen c.id seen (ids_of allocations) h.once.0 h.new.1;
      once = h.once.1;
      signs = h.signs.1;
      sum = omega (arith, h.sum);
    })

none_seen : (ks : List String) → All (λ k. contains k [] ≡ false) ks
none_seen [] = tt
none_seen (k ∷ ks) = (refl, none_seen ks)

-- The validation accepts the allocations of exactly those requests that name direct reports only, no
-- report twice, no negative percentage, and at most one hundred percent in all.
pub validate_direct_children_lem :
    (manager : Node) (allocations : List (Node × ℤ)) (nodes : List Node) (links : List Link)
    → (is_done (validate_direct_children manager allocations nodes links) ≡ true)
      ↔ IsAllowed (id_of_each (list_child_nodes manager.id none nodes links)) allocations
unfolding validate_direct_children
validate_direct_children_lem manager allocations nodes links =
    let direct = id_of_each (list_child_nodes manager.id none nodes links) in
    (
      (λ h.
          let c = passes manager direct [] 0 allocations h in
          record {
            reports = c.reports;
            once = c.once;
            signs = c.signs;
            sum = omega (arith, c.sum);
          }),
      (λ a. passed manager direct [] 0 allocations (record {
        reports = a.reports;
        new = none_seen (ids_of allocations);
        once = a.once;
        signs = a.signs;
        sum = omega (arith, a.sum);
      })),
    )
