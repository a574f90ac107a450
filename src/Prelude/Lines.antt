-- ===== src/Prelude/Lines.antt =====
-- The lines of a text.
use Prim.Native.Nat.{ℕ}
use Prim.Native.Char.{Char, code}
use Prim.Native.String.{String, ◌++◌ as str_append}
use mathlib.Core.Bool.{Bool, true, false, ◌&&◌, ◌||◌}
use mathlib.Core.List.{List, [], ◌∷◌}
use omni_claw.Prelude.Tests.{leb, ◌==◌, if◌then◌else◌}
use omni_claw.Prelude.Text.{is_empty}

-- Every character passes the test.
unfoldable pub all_chars : (ℕ → Bool) → String → Bool
all_chars p String.[] = true
all_chars p (String.◌∷◌ c s) = p (code c) && all_chars p s

unfoldable pub first_char : (ℕ → Bool) → String → Bool
first_char p String.[] = false
first_char p (String.◌∷◌ c s) = p (code c)

unfoldable pub last_char : (ℕ → Bool) → String → Bool
last_char p String.[] = false
last_char p (String.◌∷◌ c s) = let rest = last_char p s in if is_empty s then p (code c) else rest

-- The characters at which `splitlines` cuts.
unfoldable pub is_break : ℕ → Bool
is_break c = leb 10 c && leb c 13 || leb 28 c && leb c 30 || c == 0x85 || c == 0x2028 || c == 0x2029

abbrev pub is_newline : ℕ → Bool
is_newline c = c == b'\n'

-- The character joins the line that follows.
abbrev pub onto_first : Char → List String → List String
onto_first c [] = String.◌∷◌ c String.[] ∷ []
onto_first c (l ∷ ls) = String.◌∷◌ c l ∷ ls

-- `s.splitlines()`; the flag says that a "\r" stands before, which a "\n" goes with.
unfoldable pub splitlines : Bool → String → List String
unfolding is_break
splitlines after_return String.[] = []
splitlines after_return (String.◌∷◌ c s) =
    let rest = splitlines (code c == b'\r') s in
    if after_return && is_newline (code c)
    then rest
    else if is_break (code c)
    then "" ∷ rest
    else onto_first c rest

-- `s.split("\n")`
unfoldable pub split_newlines : String → List String
split_newlines String.[] = "" ∷ []
split_newlines (String.◌∷◌ c s) =
    let rest = split_newlines s in if is_newline (code c) then "" ∷ rest else onto_first c rest

-- `"\n".join(lines)`
unfoldable pub join_lines : List String → String
join_lines [] = ""
join_lines (l ∷ []) = l
join_lines (l ∷ m ∷ ls) = str_append l (str_append "\n" (join_lines (m ∷ ls)))
