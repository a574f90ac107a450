-- ===== src/Prelude/Sets.antt =====
-- Python's `set` and `sorted` on texts.
use Prim.Native.Nat.{Ordering}
use Prim.Native.String.{String, compare}
use mathlib.Core.List.{List, [], ◌∷◌}
use text.Mathlib.Text.{◌==◌ as str_eq}
use omni_claw.Prelude.Lists.{any_where}
use omni_claw.Prelude.Tests.{if◌then◌else◌}

-- A set of strings, and `sorted`, by code points.
abbrev pub set_of : List String → List String
set_of [] = []
set_of (s ∷ r) = let rest = set_of r in if any_where (str_eq s) rest then rest else s ∷ rest

abbrev pub place : Ordering → String → String → List String → List String → List String
place Ordering.lt s t ts rest = s ∷ t ∷ ts
place Ordering.eq s t ts rest = s ∷ t ∷ ts
place Ordering.gt s t ts rest = t ∷ rest

abbrev pub insert : String → List String → List String
insert s [] = s ∷ []
insert s (t ∷ ts) = let rest = insert s ts in place (compare s t) s t ts rest

abbrev pub sorted : List String → List String
sorted [] = []
sorted (s ∷ r) = insert s (sorted r)
