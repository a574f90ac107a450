-- ===== src/Ipc/Frontmatter.antt =====
-- The frontmatter of a form file, read and written (src/omniclaw/ipc/service.py, `_parse_frontmatter`
-- and `_render_frontmatter`). The values that are written are texts.
use omni_claw.Prelude.{
  ℕ, String, str_append, Bool, false, ◌||◌, not, Option, none, some, List, [], ◌∷◌, ◌++◌, map, ◌==◌,
  str_eq, code, all_chars, ◌&&◌, is_empty, strip, trim, trim_end, split_once, is_newline,
  splitlines, split_newlines, join_lines, dict_put, if◌then◌else◌,
}
use text.Mathlib.Text.{starts_with}
use omni_claw.Ipc.Outcome.{Checked, refused, accepted, ◌>>=◌}

abbrev pub Fields : Type 0
Fields = List (String × String)

-- `line.strip() == "---"`
abbrev pub is_delimiter : String → Bool
is_delimiter line = str_eq (strip line) "---"

-- The lines before the closing delimiter, and those after it.
unfoldable pub until_delimiter : List String → Option (List String × List String)
until_delimiter [] = none
until_delimiter (l ∷ ls) =
    let rest = until_delimiter ls in
    if is_delimiter l
    then some ([], ls)
    else elim rest [ none ↦ none | some (before, after) ↦ some (l ∷ before, after) ]

-- The dictionary so far, and the block that is being read.
pub record Reader : Type 0 where
  pub fields : Fields
  pub block_key : Option String
  pub block_lines : List String

abbrev pub empty_reader : Fields → Reader
empty_reader fields = record { fields = fields; block_key = none; block_lines = [] }

-- `flush_block`, by the key of the block
unfoldable pub flush_at : Option String → Reader → Reader
flush_at none r = r
flush_at (some k) r =
    empty_reader (dict_put k (trim_end is_newline (join_lines r.block_lines)) r.fields)

abbrev pub flush_block : Reader → Reader
flush_block r = flush_at r.block_key r

abbrev pub is_block_mark : String → Bool
is_block_mark v = str_eq v "|" || str_eq v "|-" || str_eq v "|+"

abbrev pub is_double_quote : ℕ → Bool
is_double_quote c = c == b'"'

abbrev pub is_single_quote : ℕ → Bool
is_single_quote c = c == b'\''

abbrev pub start_or_put : String → String → Reader → Reader
start_or_put k v r =
    if is_block_mark v
    then record r { block_key = some k; block_lines = [] }
    else record r { fields = dict_put k v r.fields }

-- A line outside of a block.
unfoldable pub read_entry : String → Reader → Checked Reader
read_entry line r =
    let stripped = strip line in
    if is_empty stripped then accepted r else elim (split_once b':' stripped) [
      | none ↦ refused (str_append "invalid frontmatter line: '" (str_append line "'"))
      | some (k, v) ↦
          if is_empty (strip k)
          then refused "frontmatter key must not be empty"
          else accepted
              (start_or_put (strip k) (trim is_single_quote (trim is_double_quote (strip v))) r)
    ]

-- `line[2:]` of a line that starts with two spaces.
abbrev pub indented : String → Option String
indented String.[] = none
indented (String.◌∷◌ c String.[]) = none
indented (String.◌∷◌ c (String.◌∷◌ d s)) = if code c == b' ' && code d == b' ' then some s else none

abbrev pub add_line : String → Reader → Reader
add_line l r = record r { block_lines = r.block_lines ++ (l ∷ []) }

-- A line while a block is read: a part of it, or its end.
unfoldable pub read_in_block : Option String → String → Reader → Reader → Checked Reader
read_in_block (some l) line r flushed = accepted (add_line l r)
read_in_block none line r flushed =
    let ended = read_entry line flushed in if is_empty line then accepted (add_line "" r) else ended

unfoldable pub read_at : Option String → String → Reader → Checked Reader
unfolding read_in_block
read_at none line r = read_entry line r
read_at (some k) line r = read_in_block (indented line) line r (flush_at (some k) r)

abbrev pub read_line : String → Reader → Checked Reader
read_line line r = read_at r.block_key line r

unfoldable pub read_lines : List String → Reader → Checked Reader
read_lines [] r = accepted r
read_lines (l ∷ ls) r = read_line l r >>= λ r'. read_lines ls r'

-- The lines between the delimiters, and those behind.
unfoldable pub read_parts : List String → List String → Checked (Fields × String)
read_parts before after =
    read_lines before (empty_reader []) >>= λ r. accepted ((flush_block r).fields, join_lines after)

abbrev pub no_opening : String
no_opening = "missing YAML frontmatter opening delimiter"

abbrev pub bad_opening : String
bad_opening = "invalid YAML frontmatter opening delimiter"

abbrev pub no_closing : String
no_closing = "missing YAML frontmatter closing delimiter"

unfoldable pub parse_lines : List String → Checked (Fields × String)
parse_lines [] = refused bad_opening
parse_lines (first ∷ ls) =
    let inner : Checked (Fields × String) = elim (until_delimiter ls) [
      | none ↦ refused no_closing
      | some (before, after) ↦ read_parts before after
    ] in
    if is_delimiter first then inner else refused bad_opening

-- `_parse_frontmatter`
unfoldable pub parse_frontmatter : String → Checked (Fields × String)
parse_frontmatter content =
    let inner = parse_lines (splitlines false content) in
    if starts_with content "---\n" then inner else refused no_opening

abbrev pub indent : String → String
indent line = str_append "  " line

abbrev pub has_newline : String → Bool
has_newline s = not (all_chars (λ c. not (is_newline c)) s)

-- The lines of one entry.
unfoldable pub render_entry : String → String → List String
render_entry key value =
    let k = strip key in
    let v = trim is_newline value in
    if is_empty k
    then []
    else if has_newline v
    then str_append k ": |" ∷ map indent (split_newlines v)
    else str_append k (str_append ": " (strip v)) ∷ []

unfoldable pub render_fields : Fields → List String
render_fields [] = []
render_fields ((k, v) ∷ m) = render_entry k v ++ render_fields m

abbrev pub behind : String → String
behind body =
    if is_empty body then "\n" else str_append "\n\n" (str_append (trim_end is_newline body) "\n")

-- `_render_frontmatter`
unfoldable pub render_frontmatter : Fields → String → String
render_frontmatter fields body =
    str_append (join_lines ("---" ∷ render_fields fields ++ ("---" ∷ []))) (behind body)
