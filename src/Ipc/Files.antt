-- ===== src/Ipc/Files.antt =====
-- The files that the router reads, writes and moves (src/omniclaw/ipc/service.py,
-- `_resolve_workspace_root`, `_resolve_within_workspace`, `_resolve_unique_path`,
-- `_safe_relative_path`). A path is the list of its parts below the root; links are left out. The
-- store holds the regular files and the folders that exist.
use omni_claw.Prelude.{
  ℕ, zero, suc, ◌+◌, String, code, str_append, Bool, true, false, ◌&&◌, ◌||◌, not, Option, none,
  some, List, [], ◌∷◌, ◌++◌, ◌==◌, str_eq, is_empty, is_truthy, strip, trim, decimal, length,
  or_else, any_where, where_true, first_where, onto_first, if◌then◌else◌,
}
use text.Mathlib.Text.{starts_with}
use omni_claw.Org.Nodes.{Node}
use omni_claw.Ipc.Outcome.{Checked, accepted, unless}

abbrev pub FilePath : Type 0
FilePath = List String

abbrev pub same_path : FilePath → FilePath → Bool
same_path [] [] = true
same_path [] (y ∷ ys) = false
same_path (x ∷ xs) [] = false
same_path (x ∷ xs) (y ∷ ys) = str_eq x y && same_path xs ys

pub record File : Type 0 where
  pub path : FilePath
  pub content : String

pub record Store : Type 0 where
  pub files : List File
  pub folders : List FilePath

abbrev pub at_path : FilePath → File → Bool
at_path p f = same_path f.path p

abbrev pub is_file : FilePath → Store → Bool
is_file p s = any_where (at_path p) s.files

abbrev pub is_dir : FilePath → Store → Bool
is_dir p s = any_where (same_path p) s.folders

abbrev pub exists : FilePath → Store → Bool
exists p s = is_file p s || is_dir p s

-- The parts between the slashes.
unfoldable pub split_slashes : String → List String
split_slashes String.[] = "" ∷ []
split_slashes (String.◌∷◌ c s) =
    let rest = split_slashes s in if code c == b'/' then "" ∷ rest else onto_first c rest

abbrev pub drop_last : FilePath → FilePath
drop_last [] = []
drop_last (x ∷ []) = []
drop_last (x ∷ y ∷ ys) = x ∷ drop_last (y ∷ ys)

abbrev is_idle : String → Bool
is_idle part = is_empty part || str_eq part "."

-- `resolve()` of the parts behind a path.
unfoldable pub walk : FilePath → List String → FilePath
walk base [] = base
walk base (part ∷ parts) =
    let next =
      if is_idle part
      then base
      else if str_eq part ".."
      then drop_last base
      else base ++ (part ∷ []) in
    walk next parts

-- `_resolve_workspace_root`, of an absolute path.
unfoldable pub resolve_workspace_root : Node → Store → Option FilePath
resolve_workspace_root n store =
    let root = walk [] (split_slashes (or_else n.workspace_root "")) in
    if is_truthy n.workspace_root && exists root store then some root else none

abbrev starts_in : FilePath → FilePath → Bool
starts_in [] path = true
starts_in (x ∷ xs) [] = false
starts_in (x ∷ xs) (y ∷ ys) = str_eq x y && starts_in xs ys

abbrev is_slash : ℕ → Bool
is_slash c = c == b'/'

-- `_resolve_within_workspace`
unfoldable pub resolve_within_workspace : FilePath → String → Option FilePath
resolve_within_workspace root relative =
    let normalized = trim is_slash (strip relative) in
    let candidate = walk root (split_slashes normalized) in
    if is_empty normalized then none else if starts_in root candidate then some candidate else none

-- `_safe_relative_path`
unfoldable pub safe_relative_path : String → Checked FilePath
safe_relative_path raw =
    let value = strip raw in
    let parts = where_true (λ p. not (is_idle p)) (split_slashes value) in
    unless (is_empty value) "path is empty" (
      unless (starts_with value "/") "absolute paths are not allowed" (
        unless (any_where (λ p. str_eq p "..") parts) "path traversal components are not allowed"
          (accepted parts)))

-- The text before the last dot, and the text from it.
unfoldable pub at_last_dot : String → Option (String × String)
at_last_dot String.[] = none
at_last_dot (String.◌∷◌ c s) = elim (at_last_dot s) [
  | some (a, b) ↦ some (String.◌∷◌ c a, b)
  | none ↦ if code c == b'.' then some ("", String.◌∷◌ c s) else none
]

abbrev is_longer : String → Bool
is_longer String.[] = false
is_longer (String.◌∷◌ c String.[]) = false
is_longer (String.◌∷◌ c (String.◌∷◌ d s)) = true

-- `path.stem` and `path.suffix` of a name
unfoldable pub stem_suffix : String → String × String
stem_suffix name = elim (at_last_dot name) [
  | none ↦ (name, "")
  | some (stem, suffix) ↦
      if not (is_empty stem) && is_longer suffix then (stem, suffix) else (name, "")
]

abbrev pub numbered : String → ℕ → String
numbered name counter =
    let (stem, suffix) = stem_suffix name in
    str_append stem (str_append "-" (str_append (decimal counter) suffix))

-- The loop of `_resolve_unique_path`, on fuel.
unfoldable pub free_name : ℕ → Store → FilePath → String → ℕ → FilePath
free_name zero store dir name counter = dir ++ (numbered name counter ∷ [])
free_name (suc fuel) store dir name counter =
    let next = free_name fuel store dir name (suc counter) in
    let candidate = dir ++ (numbered name counter ∷ []) in
    if exists candidate store then next else candidate

abbrev pub entries : Store → ℕ
entries store = length store.files + length store.folders

-- `_resolve_unique_path` of a name in a folder. There are fewer entries than numbers.
unfoldable pub resolve_unique_path : FilePath → String → Store → FilePath
resolve_unique_path dir name store =
    let path = dir ++ (name ∷ []) in
    let other = free_name (entries store) store dir name 1 in
    if exists path store then other else path

-- The first parts of the path, which `mkdir(parents=True)` makes too.
abbrev parents : FilePath → FilePath → List FilePath
parents done [] = done ∷ []
parents done (x ∷ xs) = done ∷ parents (done ++ (x ∷ [])) xs

-- `path.mkdir(parents=True, exist_ok=True)`
unfoldable pub make_dir : FilePath → Store → Store
make_dir path store =
    let new = where_true (λ p. not (is_dir p store)) (parents [] path) in
    record store { folders = store.folders ++ new }

-- Which paths the operating system refuses to read, to write and to take away, which hold no UTF-8,
-- which folders it refuses to make, and its words. Where `mkdir` stands in a `try` with the write behind
-- it, a refusal of the folder counts as one of the write.
pub record Disk : Type 0 where
  pub words : FilePath → String
  pub unreadable : FilePath → Bool
  pub undecodable : FilePath → Bool
  pub unmakeable : FilePath → Bool
  pub unwritable : FilePath → Bool
  pub fixed : FilePath → Bool

unfoldable pub read_file : FilePath → Store → Option String
read_file path store = elim (first_where (at_path path) store.files) [
  | none ↦ none
  | some f ↦ some f.content
]

abbrev pub others : FilePath → List File → List File
others path files = where_true (λ f. not (at_path path f)) files

-- What stands at a path after a write; a file that was there is replaced.
unfoldable pub put_file : FilePath → String → Store → Store
put_file path content store = record store {
  files = others path store.files ++ (record { path = path; content = content } ∷ []);
}

unfoldable pub remove_file : FilePath → Store → Store
remove_file path store = record store { files = others path store.files }

-- `shutil.move` of a file that is there.
unfoldable pub move_file : FilePath → FilePath → Store → Store
unfolding put_file remove_file read_file
move_file from to store = elim (read_file from store) [
  | none ↦ store
  | some content ↦ put_file to content (remove_file from store)
]

-- "/" and the parts
unfoldable pub show_path : FilePath → String
show_path [] = ""
show_path (part ∷ parts) = str_append "/" (str_append part (show_path parts))
