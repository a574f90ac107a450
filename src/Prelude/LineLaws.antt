-- ===== src/Prelude/LineLaws.antt =====
-- Laws of `strip`, `split`, `splitlines` and `join`.
use Prim.Native.Nat.{ℕ}
use Prim.Native.Char.{Char, code}
use Prim.Native.String.{String, ◌++◌ as str_append}
use mathlib.Core.Path.{◌≡◌, refl, ap, sym, subst, ◌∙◌}
use mathlib.Core.Bool.{Bool, true, false, ◌&&◌, ◌||◌, not}
use mathlib.Core.Logic.{inl, inr}
use mathlib.Core.Option.{some}
use mathlib.Core.List.{List, [], ◌∷◌, ◌++◌}
use native.Mathlib.Omega.{arith}
use text.Mathlib.TextLemmas.{append_assoc, nil-append, cons-append}
use text.Mathlib.TextEquality.{Char-path}
use omni_claw.Prelude.Tests.{◌==◌, Bool-cases, &&-eq-true}
use omni_claw.Prelude.Lists.{All}
use omni_claw.Prelude.Text.{is_empty, trim_start, trim_end, trim, split_once}
use omni_claw.Prelude.Lines.{
  all_chars, first_char, last_char, is_break, is_newline, onto_first, splitlines, split_newlines,
  join_lines,
}

pub single-append : (c : Char) (s : String) → str_append (String.◌∷◌ c String.[]) s ≡ String.◌∷◌ c s
single-append c s = cons-append c String.[] s ∙ ap (λ (t : String). String.◌∷◌ c t) (nil-append s)

pub is_empty-append : (s t : String) → is_empty s ≡ false → is_empty (str_append s t) ≡ false
is_empty-append String.[] t h = cc
is_empty-append (String.◌∷◌ c s) t h = rw cons-append refl

-- A character that `strip` would take stands at an end.
abbrev pub edge : (ℕ → Bool) → String → Bool
edge p s = first_char p s || last_char p s

module _ (p : ℕ → Bool) where
  pub trim_start-id : (s : String) → first_char p s ≡ false → trim_start p s ≡ s
  unfolding first_char trim_start
  trim_start-id String.[] h = refl
  trim_start-id (String.◌∷◌ c s) h = rw h

  pub trim_end-id : (s : String) → last_char p s ≡ false → trim_end p s ≡ s
  unfolding last_char trim_end
  trim_end-id String.[] h = refl
  trim_end-id (String.◌∷◌ c String.[]) h = rw h
  trim_end-id (String.◌∷◌ c (String.◌∷◌ d s)) h = rw (trim_end-id (String.◌∷◌ d s) h) (ground arith)

  pub trim-id : (s : String) → edge p s ≡ false → trim p s ≡ s
  unfolding trim
  trim-id s h = rw (trim_start-id s (ground arith)) (trim_end-id s (ground arith))

  pub trim_start-append :
      (s t : String)
      → first_char p s ≡ false
      → is_empty s ≡ false
      → trim_start p (str_append s t) ≡ str_append s t
  unfolding first_char trim_start
  trim_start-append String.[] t h e = cc
  trim_start-append (String.◌∷◌ c s) t h e = rw (cons-append c s t, h)

  pub trim_end-append :
      (s t : String)
      → is_empty (trim_end p t) ≡ false
      → trim_end p (str_append s t) ≡ str_append s (trim_end p t)
  unfolding trim_end
  trim_end-append String.[] t h = rw (nil-append, nil-append)
  trim_end-append (String.◌∷◌ c s) t h =
      rw (cons-append c s t, trim_end-append s t h, not_empty s, cons-append c s (trim_end p t))
        (ground arith)
    where
      not_empty : (s : String) → is_empty (str_append s (trim_end p t)) ≡ false
      not_empty String.[] = rw nil-append h
      not_empty (String.◌∷◌ c s) = rw cons-append refl

  pub all_chars-append :
      (s t : String) → all_chars p (str_append s t) ≡ all_chars p s && all_chars p t
  unfolding all_chars
  all_chars-append String.[] t = rw nil-append
  all_chars-append (String.◌∷◌ c s) t = rw cons-append (ground (arith, all_chars-append s t))

pub all_chars-edge :
    (p : ℕ → Bool) (s : String) → all_chars (λ c. not (p c)) s ≡ true → edge p s ≡ false
unfolding all_chars first_char last_char
all_chars-edge p String.[] h = refl
all_chars-edge p (String.◌∷◌ c s) h = ground (arith, all_chars-edge p s)

pub all_chars_mono :
    (p q : ℕ → Bool)
    → ((c : ℕ) → p c ≡ true → q c ≡ true)
    → (s : String) → all_chars p s ≡ true
    → all_chars q s ≡ true
unfolding all_chars
all_chars_mono p q imp String.[] h = refl
all_chars_mono p q imp (String.◌∷◌ c s) h = ground (arith, imp (code c), all_chars_mono p q imp s)

pub split_once-append :
    (sep : ℕ) (s t : String)
    → all_chars (λ d. not (d == sep)) s ≡ true
    → (a b : String) → split_once sep t ≡ some (a, b)
    → split_once sep (str_append s t) ≡ some (str_append s a, b)
unfolding split_once all_chars
split_once-append sep String.[] t h a b e = rw (nil-append, nil-append) e
split_once-append sep (String.◌∷◌ d s) t h a b e =
    let (other, hs) = &&-eq-true (not (code d == sep)) (all_chars (λ c. not (c == sep)) s) h in
    let differs : (code d == sep) ≡ false = ground arith in
    rw (cons-append d s t, cons-append d s a, differs, split_once-append sep s t hs a b e) refl

-- No character cuts the line.
abbrev pub is_line : String → Bool
is_line s = all_chars (λ c. not (is_break c)) s

pub splitlines-line :
    (l rest : String)
    → is_line l ≡ true
    → splitlines false (str_append l (str_append "\n" rest)) ≡ l ∷ splitlines false rest
unfolding all_chars splitlines
splitlines-line String.[] rest h = rw (nil-append, cons-append, nil-append) refl
splitlines-line (String.◌∷◌ c l) rest h =
    rw (cons-append c l (str_append "\n" rest)) (ground (arith, splitlines-line l rest))

pub splitlines-join :
    (l : String) (ls : List String) (rest : String)
    → All (λ m. is_line m ≡ true) (l ∷ ls)
    → splitlines false (str_append (join_lines (l ∷ ls)) (str_append "\n" rest))
      ≡ (l ∷ ls) ++ splitlines false rest
unfolding join_lines
splitlines-join l [] rest (h, _) = splitlines-line l rest h
splitlines-join l (m ∷ ls) rest (h, hs) =
    rw (append_assoc, append_assoc)
      (splitlines-line l _ h ∙ ap (λ (t : List String). l ∷ t) (splitlines-join m ls rest hs))

-- "\n" is the only cut in the text.
abbrev pub is_unix : String → Bool
is_unix s = all_chars (λ c. not (is_break c) || is_newline c) s

pub split_newlines-cons :
    (s : String) → (l : String) × (ls : List String) × (split_newlines s ≡ l ∷ ls)
unfolding split_newlines
split_newlines-cons String.[] = ("", [], refl)
split_newlines-cons (String.◌∷◌ c s) = elim (Bool-cases (is_newline (code c))) [
  | inl cut ↦ ("", split_newlines s, rw cut refl)
  | inr same ↦ let (l, ls, e) = split_newlines-cons s in (String.◌∷◌ c l, ls, rw (same, e) refl)
]

join_lines-onto_first :
    (c : Char) (ls : List String) → join_lines (onto_first c ls) ≡ String.◌∷◌ c (join_lines ls)
unfolding join_lines
join_lines-onto_first c [] = refl
join_lines-onto_first c (l ∷ []) = refl
join_lines-onto_first c (l ∷ m ∷ ls) = cons-append c l _

pub join_lines-nil :
    (l : String) (ls : List String)
    → join_lines ("" ∷ l ∷ ls) ≡ str_append "\n" (join_lines (l ∷ ls))
unfolding join_lines
join_lines-nil l ls = nil-append _

newline-append :
    (c : Char) (s : String) → is_newline (code c) ≡ true → str_append "\n" s ≡ String.◌∷◌ c s
newline-append c s h =
    let newline : Char = "\n" in
    let same : newline ≡ c = Char-path newline c (ground arith) in
    single-append newline s ∙ ap (λ (d : Char). String.◌∷◌ d s) same

pub join_lines-split_newlines : (s : String) → join_lines (split_newlines s) ≡ s
unfolding split_newlines
join_lines-split_newlines String.[] = unfold join_lines in refl
join_lines-split_newlines (String.◌∷◌ c s) = elim (Bool-cases (is_newline (code c))) [
  | inl cut ↦
      let (l, ls, e) = split_newlines-cons s in
      let whole : join_lines (l ∷ ls) ≡ s = ap join_lines (sym e) ∙ join_lines-split_newlines s in
      rw (cut, e)
        (join_lines-nil l ls
          ∙ ap (λ (t : String). str_append "\n" t) whole
          ∙ newline-append c s cut)
  | inr same ↦
      rw (same, join_lines-onto_first)
        (ap (λ (t : String). String.◌∷◌ c t) (join_lines-split_newlines s))
]

pub splitlines-unix :
    (s : String) → is_unix s ≡ true → splitlines false (str_append s "\n") ≡ split_newlines s
unfolding splitlines split_newlines all_chars
splitlines-unix String.[] h = refl
splitlines-unix (String.◌∷◌ c s) h = rw (cons-append c s "\n") (ground (arith, splitlines-unix s))

pub split_newlines-IsLine :
    (s : String) → is_unix s ≡ true → All (λ l. is_line l ≡ true) (split_newlines s)
unfolding split_newlines all_chars
split_newlines-IsLine String.[] h = (refl, tt)
split_newlines-IsLine (String.◌∷◌ c s) h =
    let (l, ls, e) = split_newlines-cons s in
    let ih : All (λ l. is_line l ≡ true) (l ∷ ls) =
      subst (λ (t : List String). All (λ l. is_line l ≡ true) t) e
        (split_newlines-IsLine s (ground arith)) in
    elim (Bool-cases (is_newline (code c))) [
      | inl cut ↦ rw (cut, e) (refl, ih)
      | inr same ↦ rw (same, e) (ground (arith), ih.1)
    ]

module _ (p : ℕ → Bool) where
  first_char-trim_start : (s : String) → first_char p (trim_start p s) ≡ false
  unfolding first_char trim_start
  first_char-trim_start String.[] = refl
  first_char-trim_start (String.◌∷◌ c s) = ground (arith, first_char-trim_start s)

  last_char-trim_end : (s : String) → last_char p (trim_end p s) ≡ false
  unfolding last_char trim_end
  last_char-trim_end String.[] = refl
  last_char-trim_end (String.◌∷◌ c s) = ground (arith, last_char-trim_end s)

  first_char-trim_end : (s : String) → first_char p s ≡ false → first_char p (trim_end p s) ≡ false
  unfolding first_char trim_end
  first_char-trim_end String.[] h = refl
  first_char-trim_end (String.◌∷◌ c s) h = ground arith

  pub trim_idem : (s : String) → trim p (trim p s) ≡ trim p s
  unfolding trim
  trim_idem s = trim-id p (trim p s) (
      ground (
        arith,
        first_char-trim_end (trim_start p s) (first_char-trim_start s),
        last_char-trim_end (trim_start p s),
      ))
