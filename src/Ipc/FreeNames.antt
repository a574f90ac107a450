-- ===== src/Ipc/FreeNames.antt =====
-- A name that no file has (src/omniclaw/ipc/service.py, `_resolve_unique_path`).
use omni_claw.Prelude.{
  ℕ, zero, suc, ◌+◌, ◌≤◌, ◌<◌, String, Bool, true, false, ◌&&◌, ◌||◌, not, List, [], ◌∷◌, ◌++◌, ◌≡◌,
  refl, sym, ap, subst, ◌∙◌, inl, inr, map, arith, str_eq, eq_iff, Bool-cases, length, any_where,
  where_true, decimal_inj,
}
use text.Mathlib.TextLemmas.{append_cancel_left, append_cancel_right}
use omni_claw.Ipc.Files.{
  FilePath, File, Store, same_path, at_path, exists, numbered, free_name, entries,
  resolve_unique_path,
}

pub same_path_refl : (p : FilePath) → same_path p p ≡ true
same_path_refl [] = refl
same_path_refl (x ∷ p) = rw ((eq_iff x x).1 refl) (same_path_refl p)

pub same_path-eq : (p q : FilePath) → same_path p q ≡ true → p ≡ q
same_path-eq [] [] h = refl
same_path-eq [] (y ∷ q) h = cc
same_path-eq (x ∷ p) [] h = cc
same_path-eq (x ∷ p) (y ∷ q) h = elim (Bool-cases (str_eq x y)) [
  | inl same ↦
      let rest = same_path-eq p q (rw same at h) in
      let head : x ≡ y = (eq_iff x y).0 same in
      ap (λ (z : String). z ∷ p) head ∙ ap (λ (r : FilePath). y ∷ r) rest
  | inr other ↦ let k : false ≡ true = rw other at h in cc
]

pub same_path_comm : (p q : FilePath) → same_path p q ≡ same_path q p
same_path_comm [] [] = refl
same_path_comm [] (y ∷ q) = refl
same_path_comm (x ∷ p) [] = refl
same_path_comm (x ∷ p) (y ∷ q) =
    let heads : str_eq x y ≡ str_eq y x = ground (arith, eq_iff x y, eq_iff y x) in
    rw (heads, same_path_comm p q) refl

abbrev has : FilePath → List FilePath → Bool
has p ps = any_where (λ q. same_path q p) ps

abbrev without : FilePath → List FilePath → List FilePath
without p ps = where_true (λ q. not (same_path q p)) ps

length-without-le : (p : FilePath) (ps : List FilePath) → length (without p ps) ≤ length ps
length-without-le p [] = omega arith
length-without-le p (q ∷ ps) = elim (Bool-cases (same_path q p)) [
  | inl same ↦ rw same (omega (arith, length-without-le p ps))
  | inr other ↦ rw other (omega (arith, length-without-le p ps))
]

length-without :
    (p : FilePath) (ps : List FilePath) → has p ps ≡ true → length (without p ps) < length ps
length-without p [] h = cc
length-without p (q ∷ ps) h = elim (Bool-cases (same_path q p)) [
  | inl same ↦ rw same (omega (arith, length-without-le p ps))
  | inr other ↦ rw other (omega (arith, length-without p ps (rw other at h)))
]

has-without :
    (p q : FilePath) (ps : List FilePath) → same_path p q ≡ false → has q (without p ps) ≡ has q ps
has-without p q [] h = refl
has-without p q (r ∷ ps) h = elim (Bool-cases (same_path r p)) [
  | inl same ↦
      let other : same_path r q ≡ false =
        subst (λ (x : FilePath). same_path x q ≡ false) (sym (same_path-eq r p same)) h in
      rw (same, other) (has-without p q ps h)
  | inr apart ↦ rw (apart, has-without p q ps h) refl
]

-- The paths of a store.
abbrev paths : Store → List FilePath
paths store = map (λ (f : File). f.path) store.files ++ store.folders

has-paths :
    (p : FilePath) (files : List File) (folders : List FilePath)
    → has p (map (λ (f : File). f.path) files ++ folders)
      ≡ any_where (at_path p) files || any_where (same_path p) folders
has-paths p [] [] = refl
has-paths p [] (q ∷ folders) = rw (same_path_comm q p, has-paths p [] folders) refl
has-paths p (f ∷ files) folders = rw (has-paths p files folders) (ground arith)

length-paths :
    (files : List File) (folders : List FilePath)
    → length (map (λ (f : File). f.path) files ++ folders) ≡ length files + length folders
length-paths [] folders = omega arith
length-paths (f ∷ files) folders = omega (arith, length-paths files folders)

numbered_inj : (name : String) (i j : ℕ) → numbered name i ≡ numbered name j → i ≡ j
numbered_inj name i j h =
    decimal_inj i j
      (append_cancel_right _ _ _ (append_cancel_left _ _ _ (append_cancel_left _ _ _ h)))

same_path-last :
    (dir : FilePath) (a b : String)
    → same_path (dir ++ (a ∷ [])) (dir ++ (b ∷ [])) ≡ (str_eq a b && true)
same_path-last [] a b = refl
same_path-last (x ∷ dir) a b = rw ((eq_iff x x).1 refl) (same_path-last dir a b)

numbered_apart :
    (dir : FilePath) (name : String) (i j : ℕ)
    → i < j
    → same_path (dir ++ (numbered name i ∷ [])) (dir ++ (numbered name j ∷ [])) ≡ false
numbered_apart dir name i j less = elim (Bool-cases (str_eq (numbered name i) (numbered name j))) [
  | inl same ↦
      let e = numbered_inj name i j ((eq_iff (numbered name i) (numbered name j)).0 same) in
      absurd (omega (arith, e, less))
  | inr other ↦ same_path-last dir (numbered name i) (numbered name j) ∙ rw other refl
]

module _ (store : Store) (dir : FilePath) (name : String) where
  abbrev candidate : ℕ → FilePath
  candidate j = dir ++ (numbered name j ∷ [])

  -- The entries that are left can only be those of the candidates to come.
  free_name-free :
      (fuel c : ℕ) (left : List FilePath)
      → length left ≤ fuel
      → ((j : ℕ) → c ≤ j → exists (candidate j) store ≡ has (candidate j) left)
      → exists (free_name fuel store dir name c) store ≡ false
  unfolding free_name
  free_name-free zero c [] few agree = agree c (omega arith)
  free_name-free zero c (p ∷ left) few agree = absurd (omega (arith, few))
  free_name-free (suc fuel) c left few agree = elim (Bool-cases (exists (candidate c) store)) [
    | inr free ↦ rw (free, free_name) free
    | inl taken ↦
        let fewer = length-without (candidate c) left (sym (agree c (omega arith)) ∙ taken) in
        rw (taken, free_name)
          (free_name-free fuel (suc c) (without (candidate c) left) (omega (arith, fewer, few))
            (λ j later.
              agree j (omega (arith, later))
              ∙ sym (
                  has-without (candidate c) (candidate j) left
                    (numbered_apart dir name c j (omega (arith, later))))))
  ]

  -- The path that is chosen for a name in a folder is the path of no file and no folder: the numbers
  -- that are tried are enough, however many files have been numbered before.
  pub resolve_unique_path-free : exists (resolve_unique_path dir name store) store ≡ false
  unfolding resolve_unique_path
  resolve_unique_path-free = elim (Bool-cases (exists (dir ++ (name ∷ [])) store)) [
    | inr free ↦ rw (free, resolve_unique_path) free
    | inl taken ↦
        rw (taken, resolve_unique_path)
          (free_name-free (entries store) 1 (paths store)
            (omega (arith, length-paths store.files store.folders))
            (λ j later. sym (has-paths (candidate j) store.files store.folders)))
  ]
