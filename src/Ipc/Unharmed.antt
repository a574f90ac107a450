-- ===== src/Ipc/Unharmed.antt =====
-- Which files a routed or an undelivered file touches (src/omniclaw/ipc/service.py,
-- `_process_source_file`, `_undelivered`, `_rollback_routing_files`).
use omni_claw.Prelude.{
  String, ◌&&◌, ◌||◌, not, Option, none, some, ◌≡◌, refl, inl, inr, Bool-cases, Option-cases,
}
use omni_claw.Org.Nodes.{Node}
use omni_claw.Ipc.Files.{
  FilePath, Store, is_file, exists, make_dir, resolve_workspace_root, resolve_within_workspace,
  resolve_unique_path, drop_last,
}
use omni_claw.Ipc.Plan.{Failure}
use omni_claw.Ipc.Undelivered.{
  Router, name_of, move_to, bury, write_at, write_feedback_message, resolve_feedback_recipient,
  undelivered_item,
}
use omni_claw.Ipc.Delivery.{
  Copies, write_to, write_option, unlink, then_do, write_copies, discard, discard_option,
  rollback_routing_files,
}
use omni_claw.Ipc.Kept.{
  Keeps, Keeps-refl, Keeps-trans, Free, Keeps-put_file, Keeps-remove_file, Keeps-make_dir,
  Keeps-move_file, resolve_unique_path-Free_made,
}

module _ (router : Router) (source : FilePath) (before : Store) where
  move_to-Keeps :
      (dead : FilePath) (s : Store)
      → Free source before dead
      → Keeps source before s
      → Keeps source before (move_to router source dead s).store
  move_to-Keeps dead s free keeps =
      elim (Bool-cases (router.disk.fixed source || router.disk.unwritable dead)) [
        | inl refuses ↦ rw refuses keeps
        | inr takes ↦ rw takes (Keeps-move_file source before s source dead (inr refl) free keeps)
      ]

  bury-Keeps : (sender : Node) → Keeps source before (bury router sender source before).store
  unfolding bury
  bury-Keeps sender = elim (Bool-cases (is_file source before)) [
    | inr gone ↦ rw (gone, bury) (Keeps-refl source before)
    | inl there ↦ elim (Option-cases (resolve_workspace_root sender before)) [
      | inl homeless ↦ rw (there, homeless, bury) (Keeps-refl source before)
      | inr (workspace, home) ↦
          elim (Option-cases (resolve_within_workspace workspace router.dead_letter_rel)) [
            | inl outside ↦ rw (there, home, outside, bury) (Keeps-refl source before)
            | inr (dir, inside) ↦
                rw (there, home, inside, bury)
                  (move_to-Keeps (resolve_unique_path dir (name_of source) (make_dir dir before))
                    (make_dir dir before)
                    (resolve_unique_path-Free_made source before dir dir (name_of source))
                    (Keeps-make_dir source before before dir (Keeps-refl source before)))
          ]
    ]
  ]

  write_at-Keeps :
      (path : FilePath) (content : String) (s : Store)
      → Free source before path
      → Keeps source before s
      → Keeps source before (write_at router path content s).1
  write_at-Keeps path content s free keeps = elim (Bool-cases (router.disk.unwritable path)) [
    | inl refuses ↦ rw refuses keeps
    | inr takes ↦ rw takes (Keeps-put_file source before s path content free keeps)
  ]

  write_feedback_message-Keeps :
      (sender : Node) (failure : Failure)
      → Keeps source before (write_feedback_message router sender source failure before).1
  unfolding write_feedback_message
  write_feedback_message-Keeps sender failure =
      let recipient = resolve_feedback_recipient sender failure.target router.nodes before in
      elim (Option-cases (resolve_workspace_root recipient before)) [
        | inl homeless ↦ rw (homeless, write_feedback_message) (Keeps-refl source before)
        | inr (workspace, home) ↦
            elim (Option-cases (resolve_within_workspace workspace router.inbox_new_rel)) [
              | inl outside ↦ rw (home, outside, write_feedback_message) (Keeps-refl source before)
              | inr (inbox, inside) ↦
                  rw (home, inside, write_feedback_message)
                    (write_at-Keeps _ _ (make_dir inbox before)
                      (resolve_unique_path-Free_made source before inbox inbox _)
                      (Keeps-make_dir source before before inbox (Keeps-refl source before)))
            ]
      ]

pub undelivered_item-Keeps :
    (router : Router) (sender : Node) (source : FilePath) (failure : Failure) (s : Store)
    → Keeps source s (undelivered_item router sender source failure s).1
unfolding undelivered_item
undelivered_item-Keeps router sender source failure s =
    Keeps-trans source s (bury router sender source s).store _ (bury-Keeps router source s sender) (
      write_feedback_message-Keeps router source (bury router sender source s).store sender failure)

-- The places of the copies are free.
pub record FreeCopies (source : FilePath) (before : Store) (copies : Copies) : Type 0 where
  pub delivery : (p : FilePath) → copies.delivery ≡ some p → Free source before p
  pub archive : Free source before copies.archive
  pub backup : Free source before copies.backup

module _ (router : Router) (source : FilePath) (before : Store) where
  write_to-Keeps :
      (path : FilePath) (content : String) (s : Store)
      → Free source before path
      → Keeps source before s
      → Keeps source before (write_to router path content s).1
  write_to-Keeps path content s free keeps = elim (Bool-cases (router.disk.unwritable path)) [
    | inl refuses ↦ rw refuses keeps
    | inr takes ↦ rw takes (Keeps-put_file source before s path content free keeps)
  ]

  write_option-Keeps :
      (o : Option FilePath) (content : String) (s : Store)
      → ((p : FilePath) → o ≡ some p → Free source before p)
      → Keeps source before s
      → Keeps source before (write_option router o content s).1
  write_option-Keeps none content s free keeps = keeps
  write_option-Keeps (some path) content s free keeps =
      write_to-Keeps path content s (free path refl) keeps

  unlink-Keeps :
      (s : Store) → Keeps source before s → Keeps source before (unlink router source s).1
  unlink-Keeps s keeps = elim (Bool-cases (router.disk.fixed source)) [
    | inl refuses ↦ rw refuses keeps
    | inr takes ↦ rw takes (Keeps-remove_file source before s source (inr refl) keeps)
  ]

  then_do-Keeps :
      (r : Option String × Store) (next : Store → Option String × Store)
      → Keeps source before r.1
      → ((s : Store) → Keeps source before s → Keeps source before (next s).1)
      → Keeps source before (then_do router r next).1
  then_do-Keeps (some words, s) next keeps step = keeps
  then_do-Keeps (none, s) next keeps step = step s keeps

  pub write_copies-Keeps :
      (copies : Copies) (content : String) (s : Store)
      → FreeCopies source before copies
      → Keeps source before s
      → Keeps source before (write_copies router copies content source s).1
  unfolding write_copies
  write_copies-Keeps copies content s free keeps =
      let end : Store → Option String × Store = λ t. unlink router source t in
      let back_up : Store → Option String × Store = λ t.
        then_do router
          (write_to router copies.backup content (make_dir (drop_last copies.backup) t)) end in
      let store : Store → Option String × Store =
        λ t. then_do router (write_to router copies.archive content t) back_up in
      then_do-Keeps (write_option router copies.delivery content s) store
        (write_option-Keeps copies.delivery content s free.delivery keeps)
        λ s1 k1.
          then_do-Keeps (write_to router copies.archive content s1) back_up
            (write_to-Keeps copies.archive content s1 free.archive k1)
            λ s2 k2.
              then_do-Keeps
                (write_to router copies.backup content (make_dir (drop_last copies.backup) s2)) end
                (write_to-Keeps copies.backup content (make_dir (drop_last copies.backup) s2)
                  free.backup (Keeps-make_dir source before s2 (drop_last copies.backup) k2))
                λ s3 k3. unlink-Keeps s3 k3

  discard-Keeps :
      (path : FilePath) (s : Store)
      → Free source before path
      → Keeps source before s
      → Keeps source before (discard router path s)
  discard-Keeps path s free keeps = elim (Bool-cases (router.disk.fixed path)) [
    | inl refuses ↦ rw refuses keeps
    | inr takes ↦ rw takes (Keeps-remove_file source before s path free keeps)
  ]

  discard_option-Keeps :
      (o : Option FilePath) (s : Store)
      → ((p : FilePath) → o ≡ some p → Free source before p)
      → Keeps source before s
      → Keeps source before (discard_option router o s)
  discard_option-Keeps none s free keeps = keeps
  discard_option-Keeps (some path) s free keeps = discard-Keeps path s (free path refl) keeps

  pub rollback_routing_files-Keeps :
      (copies : Copies) (s : Store)
      → FreeCopies source before copies
      → Keeps source before s
      → Keeps source before (rollback_routing_files router copies source s)
  unfolding rollback_routing_files
  rollback_routing_files-Keeps copies s free keeps =
      let s' = discard router copies.backup (discard_option router copies.delivery s) in
      let now : Keeps source before s' =
        discard-Keeps copies.backup _ free.backup
          (discard_option-Keeps copies.delivery s free.delivery keeps) in
      elim (Bool-cases (
        is_file copies.archive s'
        && (not (exists source s')
            && not (router.disk.fixed copies.archive || router.disk.unwritable source)))) [
              | inl back ↦
                  rw (back, rollback_routing_files)
                    (Keeps-move_file source before s' copies.archive source free.archive (inr refl)
                      now)
              | inr stays ↦ rw (stays, rollback_routing_files) now
            ]
