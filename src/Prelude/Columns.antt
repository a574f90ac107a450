-- ===== src/Prelude/Columns.antt =====
-- Keyword arguments that may be left out, and Python dictionaries that a loop fills.
use mathlib.Core.Option.{Option, none, some}
use mathlib.Core.List.{List, [], ◌∷◌}
use Prim.Native.String.{String}
use text.Mathlib.Text.{◌==◌ as str_eq}
use omni_claw.Prelude.Tests.{if◌then◌else◌}

-- An argument whose default is `_UNSET`.
pub data Given {ℓ} (A : Type ℓ) : Type ℓ where
  unset : Given A
  given : A → Given A

abbrev pub or_old {ℓ} : {A : Type ℓ} → Given A → A → A
or_old unset old = old
or_old (given new) old = new

-- An argument whose default is `None`, where `None` leaves the column alone.
abbrev pub keep_if_none {ℓ} : {A : Type ℓ} → Option A → Option A → Option A
keep_if_none none old = old
keep_if_none (some new) old = some new

-- The writes of a dictionary in order: the last one for a key counts.
abbrev pub get_last {ℓ} : {V : Type ℓ} → String → List (String × V) → Option V
get_last k [] = none
get_last k ((j, v) ∷ m) = elim (get_last k m) [
  | some w ↦ some w
  | none ↦ if str_eq j k then some v else none
]

-- `d[k] = v`: in place if the key is there, else at the end.
abbrev pub dict_put {ℓ} : {V : Type ℓ} → String → V → List (String × V) → List (String × V)
dict_put k v [] = (k, v) ∷ []
dict_put k v ((j, w) ∷ m) =
    let rest = dict_put k v m in if str_eq j k then (j, v) ∷ m else (j, w) ∷ rest

-- `d.update(e)`
abbrev pub dict_update {ℓ} :
    {V : Type ℓ} → List (String × V) → List (String × V) → List (String × V)
dict_update d [] = d
dict_update d ((k, v) ∷ e) = dict_update (dict_put k v d) e

-- `d.get(k)`
abbrev pub dict_get {ℓ} : {V : Type ℓ} → String → List (String × V) → Option V
dict_get k [] = none
dict_get k ((j, v) ∷ m) = let rest = dict_get k m in if str_eq j k then some v else rest
