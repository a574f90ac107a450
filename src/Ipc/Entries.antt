-- ===== src/Ipc/Entries.antt =====
-- The reader meets a written entry (src/omniclaw/ipc/service.py, `_parse_frontmatter` and
-- `_render_frontmatter`).
use omni_claw.Prelude.{
  String, str_append, Bool, true, false, ◌&&◌, not, Option, none, some, ◌==◌, code, all_chars,
  is_empty, is_space, strip, trim, trim_end, trim_start, split_once, edge, first_char, is_line,
  trim_end-id, trim-id, trim_start-append, trim_end-append, split_once-append, Bool-cases, inl, inr,
  Char, single-append, is_empty-append, ◌≡◌, refl, ap, sym, ◌∙◌, arith, eq_iff,
}
use text.Mathlib.TextLemmas.{append_assoc, append-nil, cons-append}
use omni_claw.Ipc.Outcome.{accepted}
use omni_claw.Ipc.Frontmatter.{
  Reader, is_delimiter, is_double_quote, is_single_quote, read_entry, start_or_put, indented,
  read_at, flush_at, read_in_block,
}

-- A key that is written as it is.
abbrev pub is_key : String → Bool
is_key k =
    not (is_empty k) && (not (edge is_space k) && (all_chars (λ c. not (c == b':')) k && is_line k))

-- A value that no `strip` shortens.
abbrev pub is_bare : String → Bool
is_bare v = not (edge is_space v) && (not (edge is_double_quote v) && not (edge is_single_quote v))

colon_tail : String → String
colon_tail String.[] = ""
colon_tail (String.◌∷◌ c s) = str_append " " (String.◌∷◌ c s)

tail_lem :
    (v : String)
    → edge is_space v ≡ false
    → trim_end is_space (str_append ": " v) ≡ str_append ":" (colon_tail v)
unfolding colon_tail trim_end is_space
tail_lem String.[] h = refl
tail_lem (String.◌∷◌ c s) h =
    let same = trim_end-id is_space (String.◌∷◌ c s) (ground arith) in
    trim_end-append is_space ": " (String.◌∷◌ c s) (rw same refl)
    ∙ ap (λ (t : String). str_append ": " t) same
    ∙ append_assoc ":" " " (String.◌∷◌ c s)

strip-colon_tail : (v : String) → edge is_space v ≡ false → strip (colon_tail v) ≡ v
unfolding colon_tail strip trim trim_start is_space
strip-colon_tail String.[] h = refl
strip-colon_tail (String.◌∷◌ c s) h =
    ap strip (single-append " " (String.◌∷◌ c s)) ∙ trim-id is_space (String.◌∷◌ c s) h

colon_split : (w : String) → split_once b':' (str_append ":" w) ≡ some ("", w)
unfolding split_once
colon_split w = ap (λ (t : String). split_once b':' t) (single-append ":" w)

indented_dark :
    (c : Char) (t : String) → is_space (code c) ≡ false → indented (String.◌∷◌ c t) ≡ none
unfolding is_space
indented_dark c String.[] h = refl
indented_dark c (String.◌∷◌ d t) h = ground arith

indented-append :
    (s t : String)
    → is_empty s ≡ false
    → first_char is_space s ≡ false
    → indented (str_append s t) ≡ none
unfolding first_char
indented-append String.[] t e h = cc
indented-append (String.◌∷◌ c s) t e h = rw cons-append (indented_dark c (str_append s t) h)

module _ (k v : String) (hk : is_key k ≡ true) (hv : is_bare v ≡ true) where
  written : String
  written = str_append k (str_append ": " v)

  strip-written : strip written ≡ str_append k (str_append ":" (colon_tail v))
  unfolding written strip trim
  strip-written =
      let tail = tail_lem v (ground arith) in
      let filled : is_empty (trim_end is_space (str_append ": " v)) ≡ false =
        rw (tail, single-append) refl in
      ap (λ (t : String). trim_end is_space t)
        (trim_start-append is_space k (str_append ": " v) (ground arith) (ground arith))
      ∙ trim_end-append is_space k (str_append ": " v) filled
      ∙ ap (λ (t : String). str_append k t) tail

  split-written : split_once b':' (strip written) ≡ some (k, colon_tail v)
  split-written =
      ap (λ (t : String). split_once b':' t) strip-written
      ∙ split_once-append b':' k (str_append ":" (colon_tail v)) (ground arith) "" (colon_tail v)
          (colon_split (colon_tail v))
      ∙ ap (λ (t : String). some (t, colon_tail v)) (append-nil k)

  pub is_delimiter-written : is_delimiter (str_append k (str_append ": " v)) ≡ false
  unfolding written split_once
  is_delimiter-written = elim (Bool-cases (is_delimiter written)) [
    | inr e ↦ e
    | inl e ↦
        let same : strip written ≡ "---" = (eq_iff (strip written) "---").0 e in
        let none_some : ◌≡◌ {A = Option (String × String)} none (some (k, colon_tail v)) =
          ap (λ (t : String). split_once b':' t) (sym same) ∙ split-written in
        cc
  ]

  -- The line of the entry is read back as the key and the value.
  pub read_entry-written :
      (r : Reader) → read_entry (str_append k (str_append ": " v)) r ≡ accepted (start_or_put k v r)
  unfolding written read_entry
  read_entry-written r =
      let filled : is_empty (strip written) ≡ false =
        ap is_empty strip-written
        ∙ is_empty-append k (str_append ":" (colon_tail v)) (ground arith) in
      let key : strip k ≡ k = unfold strip in trim-id is_space k (ground arith) in
      let named : is_empty (strip k) ≡ false = rw key (ground arith) in
      rw
        (
          filled,
          split-written,
          named,
          key,
          strip-colon_tail v (ground arith),
          trim-id is_double_quote v (ground arith),
          trim-id is_single_quote v (ground arith),
          read_entry,
        )
        refl

  not_indented : indented (str_append k (str_append ": " v)) ≡ none
  not_indented = indented-append k (str_append ": " v) (ground arith) (ground arith)

  -- It ends a block that is being read.
  pub read_at-written :
      (b : Option String) (r : Reader)
      → read_at b (str_append k (str_append ": " v)) r ≡ accepted (start_or_put k v (flush_at b r))
  unfolding read_at flush_at
  read_at-written none r = read_entry-written r
  read_at-written (some key) r =
      rw (not_indented, is_empty-append k (str_append ": " v) (ground arith), read_in_block)
        (read_entry-written (flush_at (some key) r))
