-- ===== src/Ipc/Blocks.antt =====
-- The lines of one written entry, and how the reader takes them (src/omniclaw/ipc/service.py,
-- `_parse_frontmatter` and `_render_frontmatter`).
use omni_claw.Prelude.{
  ℕ, String, str_append, Bool, true, false, ◌&&◌, ◌||◌, not, Option, none, some, List, [], ◌∷◌,
  ◌++◌, map, all_chars, any_where, is_space, strip, trim, trim_end, trim_start, is_newline,
  split_newlines, join_lines, dict_put, edge, first_char, last_char, is_line, is_unix, is_break,
  trim_end-id, trim-id, Bool-cases, inl, inr, ◌≡◌, refl, ap, ◌∙◌, arith, all_chars-edge,
  all_chars_mono, all_chars-append, All, append_assoc, append-nil, single-append,
  split_newlines-IsLine, join_lines-split_newlines,
}
use text.Mathlib.TextLemmas.{cons-append}
use omni_claw.Ipc.Outcome.{Checked, refused, accepted, ◌>>=◌}
use omni_claw.Ipc.Frontmatter.{
  Fields, Reader, is_delimiter, is_block_mark, start_or_put, has_newline, indented, read_at,
  read_line, flush_at, flush_block, read_in_block, read_lines, indent, render_entry,
}
use omni_claw.Ipc.Entries.{is_key, is_bare, read_at-written, is_delimiter-written}

-- A value on the line of its key.
abbrev pub is_inline : String → Bool
is_inline v = is_bare v && (is_line v && not (is_block_mark v))

-- A value of several lines.
abbrev pub is_block : String → Bool
is_block v =
    has_newline v
    && (not (edge is_newline v) && (is_unix v && not (any_where is_delimiter (split_newlines v))))

-- A line that is no delimiter.
abbrev pub WrittenLine : String → Type 0
WrittenLine l = (is_delimiter l ≡ false) × (is_line l ≡ true)

-- The lines are read from here, and leave these fields behind.
abbrev pub Reads : List String → Reader → Fields → Type 0
Reads ls r fields =
    (r' : Reader) × (read_lines ls r ≡ accepted r') × ((flush_block r').fields ≡ fields)

pub read_lines-append :
    (ls ms : List String) (r : Reader)
    → read_lines (ls ++ ms) r ≡ (read_lines ls r >>= λ r'. read_lines ms r')
unfolding read_lines
read_lines-append [] ms r = refl
read_lines-append (l ∷ ls) ms r = after (read_line l r) (read_lines-append ls ms)
  where
    after :
        (step : Checked Reader)
        → ((r' : Reader)
            → read_lines (ls ++ ms) r' ≡ (read_lines ls r' >>= λ r''. read_lines ms r''))
        → (step >>= λ r'. read_lines (ls ++ ms) r')
          ≡ ((step >>= λ r'. read_lines ls r') >>= λ r'. read_lines ms r')
    after (refused why) ih = refl
    after (accepted r') ih = ih r'

flushed-none : (b : Option String) (r : Reader) → r.block_key ≡ b → (flush_at b r).block_key ≡ none
unfolding flush_at
flushed-none none r e = e
flushed-none (some k) r e = refl

abbrev in_block : Fields → String → List String → Reader
in_block f k seen = record { fields = f; block_key = some k; block_lines = seen }

indented-indent : (l : String) → indented (indent l) ≡ some l
indented-indent l = rw (cons-append, single-append) refl

read_lines-indent :
    (f : Fields) (k : String) (seen ls : List String)
    → read_lines (map indent ls) (in_block f k seen) ≡ accepted (in_block f k (seen ++ ls))
unfolding read_lines read_at
read_lines-indent f k seen [] = rw append-nil refl
read_lines-indent f k seen (l ∷ ls) =
    rw (indented-indent l, read_in_block)
      (read_lines-indent f k (seen ++ (l ∷ [])) ls
        ∙ ap (λ (t : List String). accepted (in_block f k t)) (append_assoc seen (l ∷ []) ls))

bare_mark : is_bare "|" ≡ true
unfolding first_char last_char is_space
bare_mark = refl

line_of_mark : is_line "|" ≡ true
unfolding all_chars is_break
line_of_mark = refl

line_of_mark_entry : is_line ": |" ≡ true
unfolding all_chars is_break
line_of_mark_entry = refl

line_of_colon : is_line ": " ≡ true
unfolding all_chars is_break
line_of_colon = refl

is_delimiter-indent : (l : String) → is_delimiter (indent l) ≡ is_delimiter l
unfolding strip trim trim_start is_space
is_delimiter-indent l = rw (cons-append, single-append) refl

is_line-indent : (l : String) → is_line (indent l) ≡ is_line l
unfolding is_break all_chars
is_line-indent l = rw (cons-append, single-append) refl

lines-indent :
    (ls : List String)
    → any_where is_delimiter ls ≡ false
    → All (λ l. is_line l ≡ true) ls
    → All WrittenLine (map indent ls)
lines-indent [] h p = tt
lines-indent (l ∷ ls) h (p, ps) = (
  (is_delimiter-indent l ∙ ground arith, is_line-indent l ∙ p),
  lines-indent ls (ground arith) ps,
)

module _ (k v : String) (hk : is_key k ≡ true) where
  inline_lines : is_inline v ≡ true → render_entry k v ≡ str_append k (str_append ": " v) ∷ []
  unfolding render_entry strip
  inline_lines h =
      let plain : all_chars (λ c. not (is_newline c)) v ≡ true =
        all_chars_mono (λ c. not (is_break c)) (λ c. not (is_newline c)) not_newline v
          (ground arith) in
      rw
        (
          trim-id is_space k (ground arith),
          trim-id is_newline v (all_chars-edge is_newline v plain),
          plain,
          trim-id is_space v (ground arith),
        )
        (ground arith)
    where
      not_newline : (c : ℕ) → not (is_break c) ≡ true → not (is_newline c) ≡ true
      not_newline c h = unfold is_break in ground arith

  block_lines :
      is_block v ≡ true → render_entry k v ≡ str_append k ": |" ∷ map indent (split_newlines v)
  unfolding render_entry strip
  block_lines h =
      rw (trim-id is_space k (ground arith), trim-id is_newline v (ground arith)) (ground arith)

  Reads-inline :
      is_inline v ≡ true
      → (r : Reader) → Reads (render_entry k v) r (dict_put k v (flush_block r).fields)
  unfolding read_lines
  Reads-inline h r =
      let f = flush_block r in
      let r' : Reader = record f { fields = dict_put k v f.fields } in
      let put : start_or_put k v f ≡ r' = ground arith in
      let read : read_line (str_append k (str_append ": " v)) r ≡ accepted r' =
        read_at-written k v hk (ground arith) r.block_key r ∙ ap accepted put in
      let idle : f.block_key ≡ none = flushed-none r.block_key r refl in
      (
        r',
        rw (inline_lines h, read) refl,
        unfold flush_at in ap (λ (b : Option String). (flush_at b r').fields) idle,
      )

  Reads-block :
      is_block v ≡ true
      → (r : Reader) → Reads (render_entry k v) r (dict_put k v (flush_block r).fields)
  unfolding read_lines flush_at
  Reads-block h r =
      let f = flush_block r in
      let ls = split_newlines v in
      let read : read_line (str_append k ": |") r ≡ accepted (in_block f.fields k []) =
        read_at-written k "|" hk bare_mark r.block_key r in
      let text : trim_end is_newline (join_lines ls) ≡ v =
        ap (λ (t : String). trim_end is_newline t) (join_lines-split_newlines v)
        ∙ trim_end-id is_newline v (ground arith) in
      (
        in_block f.fields k ls,
        rw (block_lines h, read) (read_lines-indent f.fields k [] ls),
        ap (λ (t : String). dict_put k t f.fields) text,
      )

  written-line :
      is_bare v ≡ true → is_line v ≡ true → WrittenLine (str_append k (str_append ": " v))
  written-line bare line = (
    is_delimiter-written k v hk bare,
    all_chars-append (λ c. not (is_break c)) k (str_append ": " v)
        ∙ ap (λ b. is_line k && b) (all_chars-append (λ c. not (is_break c)) ": " v)
        ∙ ground (arith, line_of_colon),
  )

  pub entry_lines : (is_inline v || is_block v) ≡ true → All WrittenLine (render_entry k v)
  entry_lines h = elim (Bool-cases (is_inline v)) [
    | inl inline ↦ rw (inline_lines inline) (written-line (ground arith) (ground arith), tt)
    | inr other ↦
        let block : is_block v ≡ true = ground arith in
        rw (block_lines block) (
          written-line_of_mark,
          lines-indent (split_newlines v) (ground arith) (split_newlines-IsLine v (ground arith)),
        )
  ]
    where
      written-line_of_mark : WrittenLine (str_append k ": |")
      written-line_of_mark = (
        is_delimiter-written k "|" hk bare_mark,
        all_chars-append (λ c. not (is_break c)) k ": |" ∙ ground (arith, line_of_mark_entry),
      )

  pub Reads-entry :
      (is_inline v || is_block v) ≡ true
      → (r : Reader) → Reads (render_entry k v) r (dict_put k v (flush_block r).fields)
  Reads-entry h r = elim (Bool-cases (is_inline v)) [
    | inl inline ↦ Reads-inline inline r
    | inr other ↦ Reads-block (ground arith) r
  ]
