-- ===== src/Ipc/Kept.antt =====
-- What a write, a removal and a move leave alone (src/omniclaw/ipc/service.py, the calls of
-- `write_text`, `unlink`, `mkdir` and `shutil.move`).
use omni_claw.Prelude.{
  String, true, false, Option, none, some, List, [], ◌∷◌, ◌++◌, ◌≡◌, refl, sym, subst, ◌∙◌, ◌⊎◌,
  inl, inr, Bool-cases, Option-cases, any_where, first_where, arith,
}
use omni_claw.Ipc.Files.{
  FilePath, File, Store, same_path, at_path, is_file, others, read_file, put_file, remove_file,
  move_file, make_dir, resolve_unique_path,
}
use omni_claw.Ipc.FreeNames.{same_path-eq, same_path_comm, resolve_unique_path-free}

-- Every file but the source has in the second store the content that it has in the first.
abbrev pub Keeps : FilePath → Store → Store → Type 0
Keeps source before after =
    (p : FilePath) (content : String)
    → same_path p source ≡ false
    → read_file p before ≡ some content
    → read_file p after ≡ some content

pub Keeps-refl : (source : FilePath) (s : Store) → Keeps source s s
Keeps-refl source s p content apart there = there

pub Keeps-trans :
    (source : FilePath) (a b c : Store) → Keeps source a b → Keeps source b c → Keeps source a c
Keeps-trans source a b c first second p content apart there =
    second p content apart (first p content apart there)

-- No file of the store, or the source.
abbrev pub Free : FilePath → Store → FilePath → Type 0
Free source before q = (is_file q before ≡ false) ⊎ (q ≡ source)

first-any :
    (p q : FilePath) (files : List File) (f : File)
    → same_path p q ≡ true
    → first_where (at_path p) files ≡ some f
    → any_where (at_path q) files ≡ true
first-any p q [] f same h = cc
first-any p q (g ∷ files) f same h = elim (Bool-cases (at_path p g)) [
  | inl own ↦
      let e : same_path g.path q ≡ true =
        subst (λ (x : FilePath). same_path g.path x ≡ true) (same_path-eq p q same) own in
      rw e refl
  | inr other ↦ ground (arith, first-any p q files f same (rw other at h))
]

read_file-first :
    (p : FilePath) (s : Store) (content : String)
    → read_file p s ≡ some content
    → (f : File) × (first_where (at_path p) s.files ≡ some f)
unfolding read_file
read_file-first p s content h = elim (Option-cases (first_where (at_path p) s.files)) [
  | inl absent ↦ let k : none ≡ some content = rw (absent, read_file) at h in cc
  | inr there ↦ there
]

-- A file of the store has another path than one that no file has.
pub free-apart :
    (before : Store) (q p : FilePath) (content : String)
    → is_file q before ≡ false
    → read_file p before ≡ some content
    → same_path p q ≡ false
free-apart before q p content free there = elim (Bool-cases (same_path p q)) [
  | inl same ↦
      let (f, found) = read_file-first p before content there in
      let k = first-any p q before.files f same found in cc
  | inr other ↦ other
]

Free-apart :
    (source : FilePath) (before : Store) (q p : FilePath) (content : String)
    → Free source before q
    → same_path p source ≡ false
    → read_file p before ≡ some content
    → same_path p q ≡ false
Free-apart source before q p content (inr e) apart there =
    subst (λ (x : FilePath). same_path p x ≡ false) (sym e) apart
Free-apart source before q p content (inl free) apart there =
    free-apart before q p content free there

first-others :
    (p q : FilePath) (files : List File)
    → same_path p q ≡ false
    → first_where (at_path p) (others q files) ≡ first_where (at_path p) files
first-others p q [] h = refl
first-others p q (f ∷ files) h = elim (Bool-cases (at_path q f)) [
  | inl gone ↦
      let other : at_path p f ≡ false =
        subst (λ (x : FilePath). same_path x p ≡ false) (sym (same_path-eq f.path q gone))
          (same_path_comm q p ∙ h) in
      rw (gone, other) (first-others p q files h)
  | inr kept ↦ rw (kept, first-others p q files h) refl
]

first-put :
    (p : FilePath) (files : List File) (g : File)
    → same_path g.path p ≡ false
    → first_where (at_path p) (files ++ (g ∷ [])) ≡ first_where (at_path p) files
first-put p [] g h = rw h refl
first-put p (f ∷ files) g h = rw (first-put p files g h) refl

pub read_file-first_where :
    (p : FilePath) (a b : Store)
    → first_where (at_path p) a.files ≡ first_where (at_path p) b.files
    → read_file p a ≡ read_file p b
unfolding read_file
read_file-first_where p a b e = rw (e, read_file) refl

module _ (source : FilePath) (before : Store) (s : Store) where
  pub Keeps-remove_file :
      (q : FilePath)
      → Free source before q
      → Keeps source before s
      → Keeps source before (remove_file q s)
  unfolding remove_file read_file
  Keeps-remove_file q free keeps p content apart there =
      let other = Free-apart source before q p content free apart there in
      read_file-first_where p (remove_file q s) s (first-others p q s.files other)
      ∙ keeps p content apart there

  pub Keeps-put_file :
      (q : FilePath) (new : String)
      → Free source before q
      → Keeps source before s
      → Keeps source before (put_file q new s)
  unfolding put_file read_file
  Keeps-put_file q new free keeps p content apart there =
      let other = Free-apart source before q p content free apart there in
      let same =
        first-put p (others q s.files) (record { path = q; content = new })
          (same_path_comm q p ∙ other)
        ∙ first-others p q s.files other in
      read_file-first_where p (put_file q new s) s same ∙ keeps p content apart there

  pub Keeps-make_dir :
      (dir : FilePath) → Keeps source before s → Keeps source before (make_dir dir s)
  unfolding make_dir read_file
  Keeps-make_dir dir keeps p content apart there = keeps p content apart there

pub Keeps-move_file :
    (source : FilePath) (before s : Store) (from to : FilePath)
    → Free source before from
    → Free source before to
    → Keeps source before s
    → Keeps source before (move_file from to s)
unfolding move_file
Keeps-move_file source before s from to free_from free_to keeps = by_content (read_file from s) refl
  where
    by_content :
        (o : Option String) → read_file from s ≡ o → Keeps source before (move_file from to s)
    by_content none gone = rw (gone, move_file) keeps
    by_content (some new) there =
        let step : Keeps source before (put_file to new (remove_file from s)) =
          Keeps-put_file source before (remove_file from s) to new free_to
            (Keeps-remove_file source before s from free_from keeps) in
        rw (there, move_file) step

-- A path that is chosen for a name is free.
pub resolve_unique_path-Free :
    (source : FilePath) (s : Store) (dir : FilePath) (name : String)
    → Free source s (resolve_unique_path dir name s)
resolve_unique_path-Free source s dir name =
    let free = resolve_unique_path-free s dir name in inl (ground (arith, free))

-- The same, where the files are those of another store.
pub resolve_unique_path-Free_made :
    (source : FilePath) (s : Store) (made dir : FilePath) (name : String)
    → Free source s (resolve_unique_path dir name (make_dir made s))
unfolding make_dir
resolve_unique_path-Free_made source s made dir name =
    let free = resolve_unique_path-free (make_dir made s) dir name in inl (ground (arith, free))
