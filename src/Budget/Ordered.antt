-- ===== src/Budget/Ordered.antt =====
-- The order in which a manager's allocations are read (src/omniclaw/db/repository.py,
-- `list_budget_allocations`, `replace_budget_allocations`).
use Prim.Native.Nat.{Ordering, compare as compare_ℕ}
use Prim.Native.Nat.compare as steps
use Prim.Native.String.{String, compare, then}
use Prim.Native.String.compare
use mathlib.Core.List.{Perm}
use mathlib.Core.List.Perm
use omni_claw.Prelude.{
  ℕ, zero, suc, code, ◌≡◌, refl, sym, ap, ◌∙◌, ◌⊎◌, inl, inr, true, false, List, [], ◌∷◌,
  Bool-cases,
}
use omni_claw.Budget.Table.{Allocation, not_after, goes_before, insert_by_child, sort_by_child}

Ordering-cases : (o : Ordering) → (o ≡ Ordering.lt) ⊎ ((o ≡ Ordering.eq) ⊎ (o ≡ Ordering.gt))
Ordering-cases Ordering.lt = inl refl
Ordering-cases Ordering.eq = inr (inl refl)
Ordering-cases Ordering.gt = inr (inr refl)

abbrev flip : Ordering → Ordering
flip Ordering.lt = Ordering.gt
flip Ordering.eq = Ordering.eq
flip Ordering.gt = Ordering.lt

flip-then : (o p : Ordering) → flip (then o p) ≡ then (flip o) (flip p)
flip-then Ordering.lt p = refl
flip-then Ordering.eq p = refl
flip-then Ordering.gt p = refl

number_flips : (m n : ℕ) → compare_ℕ n m ≡ flip (compare_ℕ m n)
number_flips zero zero = steps.zero-zero ∙ ap flip (sym steps.zero-zero)
number_flips zero (suc n) = steps.suc-zero n ∙ ap flip (sym (steps.zero-suc n))
number_flips (suc m) zero = steps.zero-suc m ∙ ap flip (sym (steps.suc-zero m))
number_flips (suc m) (suc n) =
    steps.suc-suc n m ∙ number_flips m n ∙ ap flip (sym (steps.suc-suc m n))

text_flips : (s t : String) → compare t s ≡ flip (compare s t)
text_flips String.[] String.[] = compare.nil-nil ∙ ap flip (sym compare.nil-nil)
text_flips String.[] (String.◌∷◌ d t) = compare.cons-nil d t ∙ ap flip (sym (compare.nil-cons d t))
text_flips (String.◌∷◌ c s) String.[] = compare.nil-cons c s ∙ ap flip (sym (compare.cons-nil c s))
text_flips (String.◌∷◌ c s) (String.◌∷◌ d t) =
    let o = compare_ℕ (code c) (code d) in
    compare.cons-cons d c t s
    ∙ ap (λ p. then p (compare t s)) (number_flips (code c) (code d))
    ∙ ap (then (flip o)) (text_flips s t)
    ∙ sym (flip-then o (compare s t))
    ∙ ap flip (sym (compare.cons-cons c d s t))

goes_before-total : (a b : Allocation) → goes_before a b ≡ false → goes_before b a ≡ true
goes_before-total a b h =
    ap not_after (text_flips a.child_node_id b.child_node_id)
    ∙ turned (compare a.child_node_id b.child_node_id) h
  where
    turned : (o : Ordering) → not_after o ≡ false → not_after (flip o) ≡ true
    turned Ordering.lt e = cc
    turned Ordering.eq e = cc
    turned Ordering.gt e = refl

-- No row has a child whose id comes after that of the next row's child.
abbrev pub InOrder : List Allocation → Type 0
InOrder [] = Unit {0}
InOrder (a ∷ []) = Unit {0}
InOrder (a ∷ b ∷ rows) = (goes_before a b ≡ true) × InOrder (b ∷ rows)

insert-InOrder :
    (a b : Allocation) (rows : List Allocation)
    → goes_before b a ≡ true
    → InOrder (b ∷ rows)
    → InOrder (b ∷ insert_by_child a rows)
unfolding insert_by_child
insert-InOrder a b [] first h = (first, tt)
insert-InOrder a b (c ∷ rows) first (here, h) = elim (Bool-cases (goes_before a c)) [
  | inl e ↦ rw (e) (first, (e, h))
  | inr e ↦ rw (e) (here, insert-InOrder a c rows (goes_before-total a c e) h)
]

insert_by_child-InOrder :
    (a : Allocation) (rows : List Allocation) → InOrder rows → InOrder (insert_by_child a rows)
unfolding insert_by_child
insert_by_child-InOrder a [] h = tt
insert_by_child-InOrder a (b ∷ rows) h = elim (Bool-cases (goes_before a b)) [
  | inl e ↦ rw (e) (e, h)
  | inr e ↦ rw (e) (insert-InOrder a b rows (goes_before-total a b e) h)
]

pub sort_by_child-InOrder : (rows : List Allocation) → InOrder (sort_by_child rows)
unfolding sort_by_child
sort_by_child-InOrder [] = tt
sort_by_child-InOrder (a ∷ rows) =
    insert_by_child-InOrder a (sort_by_child rows) (sort_by_child-InOrder rows)

insert_by_child-Perm :
    (a : Allocation) (rows : List Allocation) → Perm (insert_by_child a rows) (a ∷ rows)
unfolding insert_by_child
insert_by_child-Perm a [] = Perm.refl _
insert_by_child-Perm a (b ∷ rows) = elim (Bool-cases (goes_before a b)) [
  | inl e ↦ rw e (Perm.refl _)
  | inr e ↦ rw e (Perm.trans (Perm.cons b (insert_by_child-Perm a rows)) (Perm.swap a b rows))
]

pub sort_by_child-Perm : (rows : List Allocation) → Perm (sort_by_child rows) rows
unfolding sort_by_child
sort_by_child-Perm [] = Perm.refl _
sort_by_child-Perm (a ∷ rows) =
    Perm.trans (insert_by_child-Perm a (sort_by_child rows)) (Perm.cons a (sort_by_child-Perm rows))
