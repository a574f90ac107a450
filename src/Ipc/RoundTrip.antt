-- ===== src/Ipc/RoundTrip.antt =====
-- What is written as frontmatter is read back (src/omniclaw/ipc/service.py, `_parse_frontmatter` and
-- `_render_frontmatter`).
use omni_claw.Prelude.{
  String, str_append, Bool, true, false, ◌&&◌, ◌||◌, not, some, List, [], ◌∷◌, ◌++◌, all_chars,
  is_empty, is_space, strip, trim, trim_end, trim_start, is_newline, splitlines, join_lines,
  dict_update, if◌then◌else◌, last_char, is_line, is_unix, is_break, trim_end-id, &&-eq-true, ◌≡◌,
  refl, ap, sym, ◌∙◌, arith, All, All-append, append_assoc, Distinct, keys, dict_update-Distinct,
  splitlines-join, splitlines-line, split_newlines-cons, join_lines-nil, splitlines-unix,
  join_lines-split_newlines,
}
use text.Mathlib.TextLemmas as Text
use text.Mathlib.TextLemmas.{nil-append}
use text.Mathlib.Text.{starts_with}
use text.Mathlib.TextPositions.{starts_with-append}
use omni_claw.Ipc.Outcome.{Checked, accepted, ◌>>=◌}
use omni_claw.Ipc.Frontmatter.{
  Fields, Reader, is_delimiter, flush_at, flush_block, empty_reader, read_lines, render_entry,
  render_fields, until_delimiter, read_parts, parse_lines, parse_frontmatter, render_frontmatter,
  behind,
}
use omni_claw.Ipc.Entries.{is_key}
use omni_claw.Ipc.Blocks.{
  is_inline, is_block, WrittenLine, Reads, read_lines-append, entry_lines, Reads-entry,
}

abbrev pub is_entry : String × String → Bool
is_entry (k, v) = is_key k && (is_inline v || is_block v)

abbrev pub AreEntries : Fields → Type 0
AreEntries = All (λ e. is_entry e ≡ true)

fields_lines : (m : Fields) → AreEntries m → All WrittenLine (render_fields m)
unfolding render_fields
fields_lines [] h = tt
fields_lines ((k, v) ∷ m) (h, hs) =
    let (key, value) = &&-eq-true (is_key k) (is_inline v || is_block v) h in
    All-append WrittenLine (render_entry k v) (render_fields m) (entry_lines k v key value)
      (fields_lines m hs)

Reads-fields :
    (m : Fields)
    → AreEntries m
    → (r : Reader) → Reads (render_fields m) r (dict_update (flush_block r).fields m)
unfolding render_fields
Reads-fields [] h r = (r, unfold read_lines in refl, refl)
Reads-fields ((k, v) ∷ m) (h, hs) r =
    let (key, value) = &&-eq-true (is_key k) (is_inline v || is_block v) h in
    let (r', first, kept) = Reads-entry k v key value r in
    let (r'', more, all) = Reads-fields m hs r' in
    (
      r'',
      read_lines-append (render_entry k v) (render_fields m) r
          ∙ ap (λ (step : Checked Reader). step >>= λ r'. read_lines (render_fields m) r') first
          ∙ more,
      all ∙ ap (λ (f : Fields). dict_update f m) kept,
    )

is_delimiter-dashes : is_delimiter "---" ≡ true
unfolding strip trim trim_start trim_end is_space
is_delimiter-dashes = refl

until_delimiter-append :
    (ls after : List String)
    → All WrittenLine ls
    → until_delimiter (ls ++ ("---" ∷ after)) ≡ some (ls, after)
unfolding until_delimiter
until_delimiter-append [] after h = rw is_delimiter-dashes refl
until_delimiter-append (l ∷ ls) after ((d, line), h) =
    rw (d, until_delimiter-append ls after h) refl

line_of_dashes : is_line "---" ≡ true
unfolding all_chars is_break
line_of_dashes = refl

empty_line : is_line "" ≡ true
unfolding all_chars
empty_line = refl

join_lines-cons :
    (l : String) (ls : List String) (m : String)
    → join_lines (l ∷ (ls ++ (m ∷ [])))
      ≡ str_append l (str_append "\n" (join_lines (ls ++ (m ∷ []))))
unfolding join_lines
join_lines-cons l [] m = refl
join_lines-cons l (k ∷ ls) m = refl

-- A body that is written as it is.
abbrev pub is_body : String → Bool
is_body body = is_unix body && not (last_char is_newline body)

-- What is read behind the closing delimiter.
abbrev pub returned : String → String
returned body = if is_empty body then "" else str_append "\n" body

behind-rest :
    (body : String)
    → is_body body ≡ true
    → (rest : String) × (behind body ≡ str_append "\n" rest)
      × (join_lines (splitlines false rest) ≡ returned body)
behind-rest String.[] h = ("", refl, unfold splitlines join_lines in refl)
behind-rest (String.◌∷◌ c s) h =
    let body = String.◌∷◌ c s in
    let (unix, ends) = &&-eq-true (is_unix body) (not (last_char is_newline body)) h in
    let (l, ls, e) = split_newlines-cons body in
    let lines : splitlines false (str_append "\n" (str_append body "\n")) ≡ "" ∷ l ∷ ls =
      ap (λ (t : String). splitlines false t)
        (sym (nil-append (str_append "\n" (str_append body "\n"))))
      ∙ splitlines-line "" (str_append body "\n") empty_line
      ∙ ap (λ (t : List String). "" ∷ t) (splitlines-unix body unix ∙ e) in
    (
      str_append "\n" (str_append body "\n"),
      ap (λ (t : String). str_append "\n\n" (str_append t "\n"))
            (trim_end-id is_newline body (ground arith))
          ∙ Text.append_assoc "\n" "\n" (str_append body "\n"),
      ap join_lines lines
          ∙ join_lines-nil l ls
          ∙ ap (λ (t : String). str_append "\n" t)
              (ap join_lines (sym e) ∙ join_lines-split_newlines body),
    )

module _ (m : Fields) (hm : AreEntries m) where
  abbrev header : List String
  header = render_fields m ++ ("---" ∷ [])

  header_lines : All (λ l. is_line l ≡ true) ("---" ∷ header)
  header_lines = (line_of_dashes, lines_of (render_fields m) (fields_lines m hm))
    where
      lines_of :
          (ls : List String) → All WrittenLine ls → All (λ l. is_line l ≡ true) (ls ++ ("---" ∷ []))
      lines_of [] h = (line_of_dashes, tt)
      lines_of (l ∷ ls) ((d, line), h) = (line, lines_of ls h)

  starts : (t : String) → starts_with (str_append (join_lines ("---" ∷ header)) t) "---\n" ≡ true
  starts t =
      let x = join_lines header in
      let shape : str_append (join_lines ("---" ∷ header)) t ≡ str_append "---\n" (str_append x t) =
        ap (λ (u : String). str_append u t) (join_lines-cons "---" (render_fields m) "---")
        ∙ ap (λ (u : String). str_append u t) (sym (Text.append_assoc "---" "\n" x))
        ∙ Text.append_assoc "---\n" x t in
      ap (λ (u : String). starts_with u "---\n") shape ∙ starts_with-append "---\n" (str_append x t)

  parse_header :
      Distinct (keys m)
      → (after : List String)
      → parse_lines (("---" ∷ header) ++ after) ≡ accepted (m, join_lines after)
  unfolding parse_lines read_parts flush_at
  parse_header distinct after =
      let (r, read, fields) = Reads-fields m hm (empty_reader []) in
      let whole : (flush_block r).fields ≡ m = fields ∙ dict_update-Distinct [] m distinct in
      let cut : until_delimiter (header ++ after) ≡ some (render_fields m, after) =
        ap until_delimiter (append_assoc (render_fields m) ("---" ∷ []) after)
        ∙ until_delimiter-append (render_fields m) after (fields_lines m hm) in
      rw (is_delimiter-dashes, cut, read)
        (ap (λ (f : Fields). accepted (f, join_lines after)) whole)

-- The frontmatter that the router writes is read back as the same fields in the same order, where the
-- keys are distinct, not empty, one line each, free of colons and of space at their ends; each value is
-- either one line without space or quotes at its ends that is no block mark, or a text of several lines
-- that neither starts nor ends with a newline and has no line that is a delimiter; and the values of
-- several lines and the body, which does not end in a newline, have no other line breaks than newlines.
-- A body that is not empty comes back with one empty line before it.
pub parse_frontmatter-render_frontmatter :
    (m : Fields) (body : String)
    → AreEntries m
    → Distinct (keys m)
    → is_body body ≡ true
    → parse_frontmatter (render_frontmatter m body) ≡ accepted (m, returned body)
unfolding parse_frontmatter render_frontmatter
parse_frontmatter-render_frontmatter m body hm distinct hb =
    let (rest, shape, lines) = behind-rest body hb in
    let cut : splitlines false (render_frontmatter m body)
        ≡ ("---" ∷ header m hm) ++ splitlines false rest =
      ap (λ (t : String). splitlines false (str_append (join_lines ("---" ∷ header m hm)) t)) shape
      ∙ splitlines-join "---" (header m hm) rest (header_lines m hm) in
    rw (starts m hm (behind body), cut)
      (parse_header m hm distinct (splitlines false rest)
        ∙ ap (λ (t : String). accepted (m, t)) lines)
