-- ===== src/Prelude/Keys.antt =====
-- Lists of keys that hold no key twice, and the dictionaries that have them.
use mathlib.Core.Path.{◌≡◌, refl, sym, ap}
use mathlib.Core.Logic.{◌≢◌}
use mathlib.Core.Bool.{false}
use mathlib.Core.Option.{none}
use mathlib.Core.List.{List, [], ◌∷◌, ◌++◌, append_assoc, append-nil}
use Prim.Native.String.{String}
use native.Mathlib.Omega.{arith}
use text.Mathlib.Text.{◌==◌ as str_eq}
use text.Mathlib.TextEquality.{eq_iff}
use omni_claw.Prelude.Lists.{All}
use omni_claw.Prelude.Queries.{All-append_left, All-append_right}
use omni_claw.Prelude.Columns.{get_last, dict_put, dict_update}

-- The key is none of these.
abbrev pub Fresh : String → List String → Type 0
Fresh k ks = All (λ j. k ≢ j) ks

abbrev pub Distinct : List String → Type 0
Distinct [] = Unit
Distinct (k ∷ ks) = Fresh k ks × Distinct ks

pub Distinct-append_left : (xs ys : List String) → Distinct (xs ++ ys) → Distinct xs
Distinct-append_left [] ys h = tt
Distinct-append_left (x ∷ xs) ys (fresh, h) =
    (All-append_left (λ j. x ≢ j) xs ys fresh, Distinct-append_left xs ys h)

pub Distinct-append_right : (xs ys : List String) → Distinct (xs ++ ys) → Distinct ys
Distinct-append_right [] ys h = h
Distinct-append_right (x ∷ xs) ys (fresh, h) = Distinct-append_right xs ys h

pub ne_sym : {a b : String} → a ≢ b → b ≢ a
ne_sym ne e = ne (sym e)

-- A key in the middle is not among those before it.
pub Distinct-middle :
    (xs : List String) (k : String) (ys : List String) → Distinct (xs ++ (k ∷ ys)) → Fresh k xs
Distinct-middle [] k ys h = tt
Distinct-middle (x ∷ xs) k ys (fresh, h) =
    (ne_sym (All-append_right (λ j. x ≢ j) xs (k ∷ ys) fresh).0, Distinct-middle xs k ys h)

abbrev pub keys {ℓ} : {V : Type ℓ} → List (String × V) → List String
keys [] = []
keys ((k, v) ∷ m) = k ∷ keys m

str_ne : (j k : String) → k ≢ j → str_eq j k ≡ false
str_ne j k ne = ground (arith, eq_iff j k)

module _ {ℓ} {V : Type ℓ} where
  pub keys-append : (d e : List (String × V)) → keys (d ++ e) ≡ keys d ++ keys e
  keys-append [] e = refl
  keys-append ((k, v) ∷ d) e = ap (λ (t : List String). k ∷ t) (keys-append d e)

  pub get_last-Fresh : (k : String) (m : List (String × V)) → Fresh k (keys m) → get_last k m ≡ none
  get_last-Fresh k [] h = refl
  get_last-Fresh k ((j, v) ∷ m) (ne, h) = rw (get_last-Fresh k m h, str_ne j k ne)

  pub get_last-other :
      (k j : String) (v : V) (m : List (String × V))
      → k ≢ j
      → get_last k ((j, v) ∷ m) ≡ get_last k m
  get_last-other k j v m ne = ground (arith, eq_iff j k)

  pub dict_put-Fresh :
      (k : String) (v : V) (d : List (String × V))
      → Fresh k (keys d)
      → dict_put k v d ≡ d ++ ((k, v) ∷ [])
  dict_put-Fresh k v [] h = refl
  dict_put-Fresh k v ((j, w) ∷ d) (ne, h) = rw (str_ne j k ne, dict_put-Fresh k v d h)

  -- Without a common key the update of a dictionary appends.
  pub dict_update-Distinct :
      (d e : List (String × V)) → Distinct (keys d ++ keys e) → dict_update d e ≡ d ++ e
  dict_update-Distinct d [] h = rw append-nil
  dict_update-Distinct d ((k, v) ∷ e) h =
      rw (dict_put-Fresh k v d (Distinct-middle (keys d) k (keys e) h)) (
        rw (dict_update-Distinct (d ++ ((k, v) ∷ [])) e (rw (keys-append, append_assoc) h))
          (append_assoc d ((k, v) ∷ []) e))
