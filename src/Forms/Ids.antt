-- ===== src/Forms/Ids.antt =====
-- The ids of forms (src/omniclaw/db/repository.py, `_normalize_form_id_hint` and
-- `_next_available_form_id`).
use omni_claw.Prelude.{
  ℕ, zero, suc, ◌-◌, String, Bool, false, ◌&&◌, ◌||◌, Option, none, some, code, str_append, str_eq,
  is_empty, leb, ◌==◌, is_digit, strip, decimal, text_take, if◌then◌else◌,
}

-- The character with this place in a text, as a text.
abbrev pub letter_at : ℕ → String → String
letter_at i String.[] = String.[]
letter_at zero (String.◌∷◌ c s) = String.◌∷◌ c String.[]
letter_at (suc i) (String.◌∷◌ c s) = letter_at i s

-- `lower()`, as far as the result holds ASCII: beside the capitals, two other letters have a lower
-- case with an ASCII letter, U+0130 and U+212A. Any other character stays here.
unfoldable pub lower : String → String
lower String.[] = String.[]
lower (String.◌∷◌ c s) =
    let rest = lower s in
    if leb b'A' (code c) && leb (code c) b'Z'
    then str_append (letter_at (code c - b'A') "abcdefghijklmnopqrstuvwxyz") rest
    else if code c == 0x130
    then str_append "i̇" rest
    else if code c == 0x212a
    then str_append "k" rest
    else String.◌∷◌ c rest

-- The text without the suffix, where it ends with it.
unfoldable pub drop_suffix : String → String → String
drop_suffix suffix String.[] = String.[]
drop_suffix suffix (String.◌∷◌ c s) =
    let rest = drop_suffix suffix s in
    if str_eq (String.◌∷◌ c s) suffix then String.[] else String.◌∷◌ c rest

-- A space becomes a dash, and what is not in `[a-z0-9_-]` goes.
unfoldable pub keep_id_chars : String → String
keep_id_chars String.[] = String.[]
keep_id_chars (String.◌∷◌ c s) =
    let rest = keep_id_chars s in
    if code c == b' '
    then str_append "-" rest
    else if leb b'a' (code c) && leb (code c) b'z'
        || is_digit (code c)
        || code c == b'_'
        || code c == b'-'
    then String.◌∷◌ c rest
    else rest

abbrev starts_with_dash : String → Bool
starts_with_dash String.[] = false
starts_with_dash (String.◌∷◌ c s) = code c == b'-'

-- `re.sub("-+", "-", …)`
unfoldable pub collapse_dashes : String → String
collapse_dashes String.[] = String.[]
collapse_dashes (String.◌∷◌ c s) =
    let rest = collapse_dashes s in
    if code c == b'-' && starts_with_dash rest then rest else String.◌∷◌ c rest

-- `strip("-")` of a text in which no two dashes follow each other.
abbrev drop_first_dash : String → String
drop_first_dash String.[] = String.[]
drop_first_dash (String.◌∷◌ c s) = if code c == b'-' then s else String.◌∷◌ c s

-- All but the last step.
unfoldable pub clean_form_id : String → String
unfolding strip lower drop_suffix keep_id_chars collapse_dashes
clean_form_id form_id_hint =
    let cleaned = drop_suffix ".markdown" (drop_suffix ".md" (lower (strip form_id_hint))) in
    let dashed = collapse_dashes (keep_id_chars cleaned) in drop_suffix "-" (drop_first_dash dashed)

-- `cleaned[:64]`, or "form" where nothing is left.
abbrev pub fit_form_id : String → String
fit_form_id cleaned = if is_empty cleaned then "form" else text_take 64 cleaned

unfoldable pub normalize_form_id_hint : String → String
normalize_form_id_hint form_id_hint = fit_form_id (clean_form_id form_id_hint)

-- The loop, on fuel, over a test for the ids that are in use; `none`: the fuel ran out.
unfoldable pub find_form_id : ℕ → (String → Bool) → String → String → ℕ → Option String
find_form_id zero used base candidate suffix = none
find_form_id (suc fuel) used base candidate suffix =
    let next =
      find_form_id fuel used base
        (normalize_form_id_hint (str_append base (str_append "-" (decimal suffix)))) (suc suffix) in
    if used candidate then next else some candidate

unfoldable pub next_available_form_id : ℕ → (String → Bool) → String → Option String
next_available_form_id fuel used form_id_hint =
    let base = normalize_form_id_hint form_id_hint in find_form_id fuel used base base 2
