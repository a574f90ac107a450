-- ===== src/Ipc/Rescued.antt =====
-- What becomes of a queued file that cannot be routed (src/omniclaw/ipc/service.py, `_undelivered`).
use omni_claw.Prelude.{
  String, true, false, ◌||◌, Option, none, some, List, [], ◌∷◌, ◌++◌, ◌≡◌, refl, ◌∙◌, inl, inr,
  Bool-cases, Option-cases, arith, first_where,
}
use omni_claw.Org.Nodes.{Node}
use omni_claw.Ipc.Files.{
  FilePath, File, Store, at_path, is_file, others, make_dir, resolve_workspace_root,
  resolve_within_workspace, resolve_unique_path, put_file, move_file, remove_file, read_file,
  show_path,
}
use omni_claw.Ipc.Plan.{Failure}
use omni_claw.Ipc.Undelivered.{
  Router, Buried, name_of, move_to, bury, write_at, write_feedback_message,
  resolve_feedback_recipient, undelivered_item,
}
use omni_claw.Ipc.FreeNames.{same_path_refl, resolve_unique_path-free}
use omni_claw.Ipc.Kept.{Keeps-refl, Keeps-put_file, free-apart}

-- The text is at the source, or at the path that is reported.
pub data IsRescued (source : FilePath) (content : String) (reported : Option String) (s : Store)
    : Type 0 where
  left_alone :
      reported ≡ none → read_file source s ≡ some content → IsRescued source content reported s
  moved_to :
      (dead : FilePath)
      → reported ≡ some (show_path dead)
      → read_file dead s ≡ some content
      → IsRescued source content reported s

no-others : (q : FilePath) (files : List File) → first_where (at_path q) (others q files) ≡ none
no-others q [] = refl
no-others q (f ∷ files) = elim (Bool-cases (at_path q f)) [
  | inl gone ↦ rw gone (no-others q files)
  | inr kept ↦ rw (kept, kept) (no-others q files)
]

first-last :
    (q : FilePath) (files : List File) (g : File)
    → first_where (at_path q) files ≡ none
    → at_path q g ≡ true
    → first_where (at_path q) (files ++ (g ∷ [])) ≡ some g
first-last q [] g h own = rw own refl
first-last q (f ∷ files) g h own = elim (Bool-cases (at_path q f)) [
  | inl there ↦ let k : some f ≡ none = rw there at h in cc
  | inr apart ↦ rw apart (first-last q files g (rw apart at h) own)
]

read_file-put_file :
    (q : FilePath) (content : String) (s : Store)
    → read_file q (put_file q content s) ≡ some content
unfolding read_file put_file
read_file-put_file q content s =
    let found =
      first-last q (others q s.files) (record { path = q; content = content }) (no-others q s.files)
        (same_path_refl q) in
    rw (found, read_file) refl

read_file-make_dir : (p dir : FilePath) (s : Store) → read_file p (make_dir dir s) ≡ read_file p s
unfolding make_dir read_file
read_file-make_dir p dir s = refl

module _ (router : Router) (source : FilePath) (content : String) where
  move_to-IsRescued :
      (dead : FilePath) (s : Store)
      → read_file source s ≡ some content
      → IsRescued source content
          (move_to router source dead s).path
          (move_to router source dead s).store
  unfolding move_file
  move_to-IsRescued dead s there =
      elim (Bool-cases (router.disk.fixed source || router.disk.unwritable dead)) [
        | inl refuses ↦ rw refuses (left_alone refl there)
        | inr takes ↦ rw takes (
            moved_to dead refl
              (rw (there, move_file) (read_file-put_file dead content (remove_file source s))))
      ]

  bury-IsRescued :
      (sender : Node) (s : Store)
      → read_file source s ≡ some content
      → IsRescued source content
          (bury router sender source s).path
          (bury router sender source s).store
  unfolding bury
  bury-IsRescued sender s there = elim (Bool-cases (is_file source s)) [
    | inr gone ↦ rw (gone, bury) (left_alone refl there)
    | inl found ↦ elim (Option-cases (resolve_workspace_root sender s)) [
      | inl homeless ↦ rw (found, homeless, bury) (left_alone refl there)
      | inr (workspace, home) ↦
          elim (Option-cases (resolve_within_workspace workspace router.dead_letter_rel)) [
            | inl outside ↦ rw (found, home, outside, bury) (left_alone refl there)
            | inr (dir, inside) ↦
                rw (found, home, inside, bury)
                  (move_to-IsRescued (resolve_unique_path dir (name_of source) (make_dir dir s))
                    (make_dir dir s) (read_file-make_dir source dir s ∙ there))
          ]
    ]
  ]

write_at-keeps :
    (router : Router) (p path : FilePath) (content new : String) (s : Store)
    → is_file path s ≡ false
    → read_file p s ≡ some content
    → read_file p (write_at router path new s).1 ≡ some content
write_at-keeps router p path content new s free there =
    elim (Bool-cases (router.disk.unwritable path)) [
      | inl refuses ↦ rw refuses there
      | inr takes ↦ rw takes (
          Keeps-put_file path s s path new (inr refl) (Keeps-refl path s) p content
            (free-apart s path p content free there) there)
    ]

-- The feedback overwrites nothing.
write_feedback_message-keeps :
    (router : Router) (sender : Node) (source : FilePath) (failure : Failure) (s : Store)
    (p : FilePath) (content : String)
    → read_file p s ≡ some content
    → read_file p (write_feedback_message router sender source failure s).1 ≡ some content
unfolding write_feedback_message
write_feedback_message-keeps router sender source failure s p content there =
    let recipient = resolve_feedback_recipient sender failure.target router.nodes s in
    elim (Option-cases (resolve_workspace_root recipient s)) [
      | inl homeless ↦ rw (homeless, write_feedback_message) there
      | inr (workspace, home) ↦
          elim (Option-cases (resolve_within_workspace workspace router.inbox_new_rel)) [
            | inl outside ↦ rw (home, outside, write_feedback_message) there
            | inr (inbox, inside) ↦
                rw (home, inside, write_feedback_message)
                  (write_at-keeps router p _ content _ (make_dir inbox s)
                    (unique-free (make_dir inbox s) inbox _) (read_file-make_dir p inbox s ∙ there))
          ]
    ]
  where
    unique-free :
        (t : Store) (dir : FilePath) (name : String)
        → is_file (resolve_unique_path dir name t) t ≡ false
    unique-free t dir name = let free = resolve_unique_path-free t dir name in ground (arith, free)

-- What `_undelivered` sets aside is not lost: the text that stands at the file's place when it is called,
-- which after a rollback is the routed one, is afterwards at the path of the dead letter that the report
-- names, or, where the report names none, still at its place.
pub undelivered_item-IsRescued :
    (router : Router) (sender : Node) (source : FilePath) (failure : Failure) (s : Store)
    (content : String)
    → read_file source s ≡ some content
    → IsRescued source content
        (undelivered_item router sender source failure s).0.dead_letter_path
        (undelivered_item router sender source failure s).1
unfolding undelivered_item
undelivered_item-IsRescued router sender source failure s content there =
    afterwards (bury-IsRescued router source content sender s there)
  where
    buried : Buried
    buried = bury router sender source s

    afterwards :
        IsRescued source content buried.path buried.store
        → IsRescued source content buried.path
            (write_feedback_message router sender source failure buried.store).1
    afterwards (left_alone e kept) =
        left_alone e (
          write_feedback_message-keeps router sender source failure buried.store source content
            kept)
    afterwards (moved_to dead e kept) =
        moved_to dead e
          (write_feedback_message-keeps router sender source failure buried.store dead content kept)
