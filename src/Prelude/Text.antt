-- ===== src/Prelude/Text.antt =====
-- Python's `str` methods that the kernel uses, over the native texts.
use Prim.Native.Nat.{ℕ, zero, suc, ◌+◌, ◌-◌, ◌*◌, ◌/◌, ◌%◌}
use Prim.Native.Char.{code}
use Prim.Native.String.{String, ◌++◌ as str_append}
use mathlib.Core.Bool.{Bool, true, false, ◌&&◌, ◌||◌, not}
use mathlib.Core.Option.{Option, none, some}
use mathlib.Core.List.{List, [], ◌∷◌}
use omni_claw.Prelude.Lists.{get_or}
use omni_claw.Prelude.Tests.{leb, ltb, ◌==◌, if◌then◌else◌}

abbrev pub is_empty : String → Bool
is_empty String.[] = true
is_empty (String.◌∷◌ c s) = false

-- Truth of an optional text: neither `None` nor "".
abbrev pub is_truthy : Option String → Bool
is_truthy none = false
is_truthy (some String.[]) = false
is_truthy (some (String.◌∷◌ c s)) = true

-- `str.isspace` of one character.
unfoldable pub is_space : ℕ → Bool
is_space c =
    leb 9 c && leb c 13
    || leb 28 c && leb c 32
    || c == 0x85
    || c == 0xa0
    || c == 0x1680
    || leb 0x2000 c && leb c 0x200a
    || c == 0x2028
    || c == 0x2029
    || c == 0x202f
    || c == 0x205f
    || c == 0x3000

-- `s.lstrip(chars)` by a test for the characters
unfoldable pub trim_start : (ℕ → Bool) → String → String
trim_start p String.[] = String.[]
trim_start p (String.◌∷◌ c s) =
    let rest = trim_start p s in if p (code c) then rest else String.◌∷◌ c s

-- `s.rstrip(chars)`
unfoldable pub trim_end : (ℕ → Bool) → String → String
trim_end p String.[] = String.[]
trim_end p (String.◌∷◌ c s) =
    let rest = trim_end p s in if p (code c) && is_empty rest then String.[] else String.◌∷◌ c rest

-- `s.strip(chars)`
unfoldable pub trim : (ℕ → Bool) → String → String
unfolding trim_start trim_end
trim p s = trim_end p (trim_start p s)

-- `s.strip()`
unfoldable pub strip : String → String
unfolding trim is_space
strip s = trim is_space s

-- `(s or "").strip()`
unfoldable pub strip_or_empty : Option String → String
unfolding strip
strip_or_empty none = String.[]
strip_or_empty (some s) = strip s

-- The code points of a text.
abbrev pub codes : String → List ℕ
codes String.[] = []
codes (String.◌∷◌ c s) = code c ∷ codes s

-- `s.split(sep, 1)` where the separator occurs: the texts before and after its first place.
unfoldable pub split_once : ℕ → String → Option (String × String)
split_once sep String.[] = none
split_once sep (String.◌∷◌ c s) =
    let rest = split_once sep s in
    if code c == sep
    then some (String.[], s)
    else elim rest [ none ↦ none | some (a, b) ↦ some (String.◌∷◌ c a, b) ]

abbrev pub is_digit : ℕ → Bool
is_digit c = leb b'0' c && leb c b'9'

-- The digits of `int(text)`: single underscores may stand between digits. `need` says that a digit
-- has to come next.
unfoldable pub scan_digits : Bool → ℕ → String → Option ℕ
scan_digits need acc String.[] = if need then none else some acc
scan_digits need acc (String.◌∷◌ c s) =
    let digit = scan_digits false (acc * 10 + (code c - b'0')) s in
    let underscore = scan_digits true acc s in
    if is_digit (code c) then digit else if code c == b'_' && not need then underscore else none

-- A sign and a magnitude.
unfoldable pub signed_digits : String → Option (Bool × ℕ)
unfolding scan_digits
signed_digits String.[] = none
signed_digits (String.◌∷◌ c s) =
    if code c == b'-'
    then elim (scan_digits true 0 s) [ none ↦ none | some n ↦ some (true, n) ]
    else if code c == b'+'
    then elim (scan_digits true 0 s) [ none ↦ none | some n ↦ some (false, n) ]
    else elim (scan_digits true 0 (String.◌∷◌ c s)) [ none ↦ none | some n ↦ some (false, n) ]

-- `int(text)` over ASCII digits: `none` is the `ValueError`, the Boolean says "negative".
unfoldable pub parse_int : String → Option (Bool × ℕ)
unfolding signed_digits strip
parse_int s = signed_digits (strip s)

-- The first `n` characters.
abbrev pub text_take : ℕ → String → String
text_take zero s = String.[]
text_take (suc n) String.[] = String.[]
text_take (suc n) (String.◌∷◌ c s) = String.◌∷◌ c (text_take n s)

abbrev pub digit : ℕ → String
digit n = get_or ("0" ∷ "1" ∷ "2" ∷ "3" ∷ "4" ∷ "5" ∷ "6" ∷ "7" ∷ "8" ∷ "9" ∷ []) n ""

-- `str(n)`. A number has no more digits than its value and one.
unfoldable pub digits : ℕ → ℕ → String
digits zero n = ""
digits (suc fuel) n =
    let front = digits fuel (n / 10) in
    if ltb n 10 then digit n else str_append front (digit (n % 10))

unfoldable pub decimal : ℕ → String
unfolding digits
decimal n = digits (suc n) n
