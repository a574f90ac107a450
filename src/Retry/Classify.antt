-- ===== src/Retry/Classify.antt =====
-- How a failed model call is classed by its message (src/omniclaw/runtime/retry_policy.py): the
-- regular expressions, a search for one in a text, and `classify_llm_failure`.
use omni_claw.Prelude.{
  ℕ, ◌+◌, code, String, Bool, true, false, ◌&&◌, ◌||◌, not, Option, none, some, List, [], ◌∷◌, leb,
  ◌==◌, if◌then◌else◌, any_where, codes, is_digit, is_empty, is_space, strip_or_empty,
}

pub data RetryFailureClass : Type 0 where
  transient budget_recoverable terminal : RetryFailureClass

-- What the patterns are made of: a character in either case, `s?` of "credits?", `\s*`, `.*`, `\b`.
pub data Item : Type 0 where
  letter : ℕ → Item
  optional : ℕ → Item
  spaces : Item
  anything : Item
  boundary : Item

-- `re.IGNORECASE`: the ASCII letters fold, and the four other characters that fold to one of them.
unfoldable pub fold_case : ℕ → ℕ
fold_case c =
    if leb b'A' c && leb c b'Z'
    then c + 32
    else if c == 0x130 || c == 0x131
    then b'i'
    else if c == 0x17f
    then b's'
    else if c == 0x212a
    then b'k'
    else c

-- `\w` of an ASCII character.
unfoldable pub is_word : Option ℕ → Bool
is_word none = false
is_word (some c) = is_digit c || leb b'A' c && leb c b'Z' || leb b'a' c && leb c b'z' || c == b'_'

abbrev head_of : List ℕ → Option ℕ
head_of [] = none
head_of (c ∷ t) = some c

abbrev differ : Bool → Bool → Bool
differ a b = a && not b || not a && b

-- A match of the items that begins here, after the character `prev`.
unfoldable pub match_here : List Item → Option ℕ → List ℕ → Bool
unfolding fold_case is_word is_space
match_here [] prev t = true
match_here (letter x ∷ r) prev [] = false
match_here (letter x ∷ r) prev (c ∷ t) = fold_case c == x && match_here r (some c) t
match_here (optional x ∷ r) prev [] = match_here r prev []
match_here (optional x ∷ r) prev (c ∷ t) =
    match_here r prev (c ∷ t) || fold_case c == x && match_here r (some c) t
match_here (spaces ∷ r) prev [] = match_here r prev []
match_here (spaces ∷ r) prev (c ∷ t) =
    match_here r prev (c ∷ t) || is_space c && match_here (spaces ∷ r) (some c) t
match_here (anything ∷ r) prev [] = match_here r prev []
match_here (anything ∷ r) prev (c ∷ t) =
    match_here r prev (c ∷ t) || not (c == 10) && match_here (anything ∷ r) (some c) t
match_here (boundary ∷ r) prev t =
    differ (is_word prev) (is_word (head_of t)) && match_here r prev t

-- `pattern.search(text)`
unfoldable pub search_from : List Item → Option ℕ → List ℕ → Bool
unfolding match_here
search_from p prev [] = match_here p prev []
search_from p prev (c ∷ t) = match_here p prev (c ∷ t) || search_from p (some c) t

-- A pattern that is a plain text.
abbrev words : String → List Item
words String.[] = []
words (String.◌∷◌ c s) = letter (code c) ∷ words s

abbrev then_items : List Item → List Item → List Item
then_items [] q = q
then_items (x ∷ p) q = x ∷ then_items p q

abbrev pub budget_patterns : List (List Item)
budget_patterns =
    then_items (words "insufficient credit") (optional b's' ∷ [])
    ∷ words "insufficient balance"
    ∷ words "quota exceeded"
    ∷ words "budget exceeded"
    ∷ words "payment required"
    ∷ words "credit balance"
    ∷ []

abbrev pub terminal_patterns : List (List Item)
terminal_patterns =
    words "invalid api key"
    ∷ words "authentication"
    ∷ words "unauthorized"
    ∷ words "forbidden"
    ∷ words "unsupported model"
    ∷ then_items (words "model ") (anything ∷ words " does not exist")
    ∷ words "invalid request"
    ∷ words "malformed"
    ∷ []

abbrev status_429 : List Item
status_429 = boundary ∷ then_items (words "429") (boundary ∷ [])

-- `temporar(?:y|ily) unavailable` is one pattern for each alternative.
abbrev pub transient_patterns : List (List Item)
transient_patterns =
    status_429
    ∷ then_items (words "rate") (spaces ∷ words "limit")
    ∷ words "too many requests"
    ∷ words "overloaded"
    ∷ words "temporary unavailable"
    ∷ words "temporarily unavailable"
    ∷ words "timeout"
    ∷ words "connection reset"
    ∷ words "service unavailable"
    ∷ words "bad gateway"
    ∷ []

unfoldable pub matches_any : List (List Item) → String → Bool
unfolding search_from
matches_any patterns text = any_where (λ p. search_from p none (codes text)) patterns

unfoldable pub classify_llm_failure : Option String → RetryFailureClass
unfolding strip_or_empty matches_any
classify_llm_failure message =
    let text = strip_or_empty message in
    if is_empty text
    then transient
    else if matches_any budget_patterns text
    then budget_recoverable
    else if matches_any terminal_patterns text
    then terminal
    else if matches_any transient_patterns text
    then transient
    else transient
