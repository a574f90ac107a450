-- ===== src/Prelude/Queries.antt =====
-- Laws of the filtered queries over a table.
use mathlib.Core.Path.{◌≡◌, refl}
use mathlib.Core.Bool.{Bool, true, false}
use mathlib.Core.Logic.{inl, inr}
use mathlib.Core.Option.{Option, none, some}
use mathlib.Core.List.{List, [], ◌∷◌, ◌++◌}
use native.Mathlib.Omega.{arith}
use omni_claw.Prelude.Tests.{Bool-cases}
use omni_claw.Prelude.Lists.{where_true, first_where, update_first, All}

abbrev pub first_of_two {ℓ} : {A : Type ℓ} → Option A → Option A → Option A
first_of_two none y = y
first_of_two (some x) y = some x

module _ {ℓ} {A : Type ℓ} (p : A → Bool) where
  pub where_true-append :
      (xs ys : List A) → where_true p (xs ++ ys) ≡ where_true p xs ++ where_true p ys
  where_true-append [] ys = refl
  where_true-append (x ∷ xs) ys = elim (Bool-cases (p x)) [
    | inl e ↦ rw (e, where_true-append xs ys)
    | inr e ↦ rw (e, where_true-append xs ys)
  ]

  pub first_where-append :
      (xs ys : List A)
      → first_where p (xs ++ ys) ≡ first_of_two (first_where p xs) (first_where p ys)
  first_where-append [] ys = refl
  first_where-append (x ∷ xs) ys = elim (Bool-cases (p x)) [
    | inl e ↦ rw e
    | inr e ↦ rw (e, first_where-append xs ys)
  ]

  pub where_true-none : (xs : List A) → first_where p xs ≡ none → where_true p xs ≡ []
  where_true-none [] h = refl
  where_true-none (x ∷ xs) h = elim (Bool-cases (p x)) [
    | inl e ↦ let f : some x ≡ none = rw e at h in cc
    | inr e ↦ rw e (where_true-none xs (rw e at h))
  ]

  pub first_where-true : (xs : List A) (x : A) → first_where p xs ≡ some x → p x ≡ true
  first_where-true [] x h = cc
  first_where-true (y ∷ xs) x h = elim (Bool-cases (p y)) [
    | inl e ↦ let f : some y ≡ some x = rw e at h in ground arith
    | inr e ↦ first_where-true xs x (rw e at h)
  ]

  -- The row that the update changes is the one that the query finds, where the change keeps the key.
  pub first_where-update_first :
      (f : A → A) (keep : (x : A) → p x ≡ true → p (f x) ≡ true) (xs : List A) (x : A)
      → first_where p xs ≡ some x
      → first_where p (update_first p f xs) ≡ some (f x)
  first_where-update_first f keep [] x h = cc
  first_where-update_first f keep (y ∷ xs) x h = elim (Bool-cases (p y)) [
    | inl e ↦ let same : some y ≡ some x = rw e at h in rw (e, keep y e) (cc)
    | inr e ↦ rw (e, e) (first_where-update_first f keep xs x (rw e at h))
  ]

  pub first_where-update_other :
      (q : A → Bool) (f : A → A)
      → ((x : A) → p x ≡ true → q x ≡ false)
      → ((x : A) → p x ≡ true → q (f x) ≡ false)
      → (xs : List A) → first_where q (update_first p f xs) ≡ first_where q xs
  first_where-update_other q f old new [] = refl
  first_where-update_other q f old new (y ∷ xs) = elim (Bool-cases (p y)) [
    | inl e ↦ rw (e, new y e, old y e)
    | inr e ↦ rw (e, first_where-update_other q f old new xs)
  ]

  pub All-update_first {κ} :
      (P : A → Type κ) (f : A → A)
      → ((x : A) → p x ≡ true → P x → P (f x))
      → (xs : List A) → All P xs
      → All P (update_first p f xs)
  All-update_first P f keep [] h = h
  All-update_first P f keep (x ∷ xs) (hx, h) = elim (Bool-cases (p x)) [
    | inl e ↦ rw (e, All) (keep x e hx, h)
    | inr e ↦ rw (e, All) (hx, All-update_first P f keep xs h)
  ]

module _ {ℓ κ} {A : Type ℓ} (P : A → Type κ) where
  pub All-append : (xs ys : List A) → All P xs → All P ys → All P (xs ++ ys)
  All-append [] ys h k = k
  All-append (x ∷ xs) ys (hx, h) k = (hx, All-append xs ys h k)

  pub All-append_left : (xs ys : List A) → All P (xs ++ ys) → All P xs
  All-append_left [] ys h = tt
  All-append_left (x ∷ xs) ys (hx, h) = (hx, All-append_left xs ys h)

  pub All-append_right : (xs ys : List A) → All P (xs ++ ys) → All P ys
  All-append_right [] ys h = h
  All-append_right (x ∷ xs) ys (hx, h) = All-append_right xs ys h
