-- ===== src/Ipc/Delivery.antt =====
-- The files of a routed form: where they go, how they are written, and how a refused transition takes
-- them back (src/omniclaw/ipc/service.py, `_process_source_file` from the archive folder to the
-- removal of the source, `_resolve_archive_copy_path`, `_rollback_routing_files`).
use omni_claw.Prelude.{
  ℕ, String, code, str_append, Bool, false, ◌&&◌, ◌||◌, not, Option, none, some, [], ◌∷◌, ◌++◌,
  is_empty, leb, ◌==◌, is_digit, trim, if◌then◌else◌,
}
use omni_claw.Org.Nodes.{Node}
use omni_claw.Ipc.Outcome.{Outcome, Halt, told, thrown, refused, accepted, ◌>>=◌}
use omni_claw.Ipc.Targets.{in_quotes}
use omni_claw.Ipc.Files.{
  FilePath, Store, drop_last, is_file, exists, resolve_workspace_root, resolve_within_workspace,
  resolve_unique_path, make_dir, put_file, remove_file, move_file,
}
use omni_claw.Ipc.Undelivered.{Router}

-- The three copies.
pub record Copies : Type 0 where
  pub delivery : Option FilePath
  pub archive : FilePath
  pub backup : FilePath

abbrev is_slug_char : ℕ → Bool
is_slug_char c =
    leb b'A' c && leb c b'Z' || leb b'a' c && leb c b'z' || is_digit c || c == b'_' || c == b'-'

-- `re.sub(r"[^A-Za-z0-9_-]+", "_", stage)`; the flag says that the text before was replaced.
unfoldable pub slug : Bool → String → String
slug replaced String.[] = ""
slug replaced (String.◌∷◌ c s) =
    let rest = slug (not (is_slug_char (code c))) s in
    if is_slug_char (code c)
    then String.◌∷◌ c rest
    else if replaced
    then rest
    else str_append "_" rest

abbrev is_underscore : ℕ → Bool
is_underscore c = c == b'_'

-- `… .strip("_") or "stage"`
unfoldable pub stage_slug : String → String
unfolding slug trim
stage_slug stage =
    let s = trim is_underscore (slug false stage) in if is_empty s then "stage" else s

-- `_resolve_archive_copy_path`; the stamp is the time in the name.
unfoldable pub resolve_archive_copy_path :
    FilePath → String → String → String → String → String → Store → FilePath
resolve_archive_copy_path root form_type form_id stamp stage filename store =
    resolve_unique_path (root ++ (form_type ∷ form_id ∷ []))
      (str_append stamp (str_append "-" (str_append (stage_slug stage) (str_append "-" filename))))
      store

-- A folder of a workspace, made where it is missing, and a free path in it.
abbrev pub place_in : FilePath → String → Store → FilePath × Store
place_in dir name store =
    let store' = make_dir dir store in (resolve_unique_path dir name store', store')

module _ (router : Router) where
  abbrev no_workspace : Node → String
  no_workspace n = in_quotes "target node '" n.name "' has no valid workspace_root"

  abbrev pub unmade {κ} : {V : Type κ} → FilePath → Outcome Halt V
  unmade dir = refused (thrown (router.disk.words dir))

  -- The path in the target's inbox, `none` where there is no target.
  unfoldable pub place_delivery :
      Option Node → String → Store → Outcome Halt (Option FilePath) × Store
  place_delivery none name store = (accepted none, store)
  place_delivery (some n) name store = elim (resolve_workspace_root n store) [
    | none ↦ (refused (told (no_workspace n)), store)
    | some workspace ↦ elim (resolve_within_workspace workspace router.inbox_new_rel) [
      | none ↦ (refused (told "invalid target inbox path configuration"), store)
      | some inbox ↦
          let (path, store') = place_in inbox name store in
          let placed : Outcome Halt (Option FilePath) × Store = (accepted (some path), store') in
          if router.disk.unmakeable inbox then (unmade inbox, store) else placed
    ]
  ]

  -- The paths of the archive and the delivery; a folder that was made stays.
  unfoldable pub place_copies :
      FilePath → Option Node → String → Store → Outcome Halt (FilePath × Option FilePath) × Store
  place_copies workspace target name store =
      elim (resolve_within_workspace workspace router.archive_rel) [
        | none ↦ (refused (told "invalid sender archive path configuration"), store)
        | some dir ↦
            let (archive, store') = place_in dir name store in
            let (delivery, store'') = place_delivery target name store' in
            let placed : Outcome Halt (FilePath × Option FilePath) × Store =
              (delivery >>= λ d. accepted (archive, d), store'') in
            if router.disk.unmakeable dir then (unmade dir, store) else placed
      ]

  -- A write, or the words of the disk.
  abbrev pub write_to : FilePath → String → Store → Option String × Store
  write_to path content store =
      if router.disk.unwritable path
      then (some (router.disk.words path), store)
      else (none, put_file path content store)

  abbrev pub write_option : Option FilePath → String → Store → Option String × Store
  write_option none content store = (none, store)
  write_option (some path) content store = write_to path content store

  abbrev pub unlink : FilePath → Store → Option String × Store
  unlink path store =
      if router.disk.fixed path
      then (some (router.disk.words path), store)
      else (none, remove_file path store)

  -- One step after the other, up to the first that fails.
  abbrev pub then_do :
      Option String × Store → (Store → Option String × Store) → Option String × Store
  then_do (some words, store) next = (some words, store)
  then_do (none, store) next = next store

  -- The writes and the removal of the source.
  unfoldable pub write_copies : Copies → String → FilePath → Store → Option String × Store
  write_copies copies content source store =
      then_do (write_option copies.delivery content store) λ s1.
        then_do (write_to copies.archive content s1) λ s2.
          then_do (write_to copies.backup content (make_dir (drop_last copies.backup) s2))
            λ s3. unlink source s3

  -- `if path.exists(): path.unlink()`, where an error is passed over.
  abbrev pub discard : FilePath → Store → Store
  discard path store = if router.disk.fixed path then store else remove_file path store

  abbrev pub discard_option : Option FilePath → Store → Store
  discard_option none store = store
  discard_option (some path) store = discard path store

  -- `_rollback_routing_files`
  unfoldable pub rollback_routing_files : Copies → FilePath → Store → Store
  rollback_routing_files copies source store =
      let store' = discard copies.backup (discard_option copies.delivery store) in
      if is_file copies.archive store'
        && (not (exists source store')
            && not (router.disk.fixed copies.archive || router.disk.unwritable source))
      then move_file copies.archive source store'
      else store'
