-- ===== src/Ipc/Undelivered.antt =====
-- A file that cannot be routed: the dead letter and the feedback (src/omniclaw/ipc/service.py,
-- `_undelivered`, `_write_feedback_message`, `_resolve_feedback_recipient`, `_categorize_failure`).
use omni_claw.Prelude.{
  String, str_append, Bool, ◌||◌, not, Option, none, some, List, [], ◌∷◌, is_empty, is_some,
  or_else, if◌then◌else◌,
}
use text.Mathlib.Text.{find?}
use omni_claw.Org.Nodes.{Node}
use omni_claw.Forms.Ids.{lower}
use omni_claw.Ipc.Outcome.{refused, accepted}
use omni_claw.Ipc.Frontmatter.{render_frontmatter}
use omni_claw.Ipc.Stages.{optional_str}
use omni_claw.Ipc.Targets.{resolve_node_reference}
use omni_claw.Ipc.Files.{
  FilePath, Store, Disk, is_file, resolve_workspace_root, resolve_within_workspace,
  resolve_unique_path, stem_suffix, make_dir, put_file, move_file, show_path,
}
use omni_claw.Ipc.Plan.{Failure}

-- The settings that the router reads, the nodes of the company, and the disk.
pub record Router : Type 0 where
  pub nodes : List Node
  pub queue_paths : List String
  pub archive_rel : String
  pub dead_letter_rel : String
  pub inbox_new_rel : String
  pub disk : Disk

pub data Status : Type 0 where
  routed undelivered : Status

-- What the scan reports of one file.
pub record Item : Type 0 where
  pub status : Status
  pub form_id : Option String
  pub form_type : Option String
  pub sender : String
  pub target : Option String
  pub stage : Option String
  pub decision : Option String
  pub next_stage : Option String
  pub source_path : String
  pub delivery_path : Option String
  pub archive_path : Option String
  pub backup_path : Option String
  pub dead_letter_path : Option String
  pub feedback_path : Option String
  pub failure_reason : Option String

abbrev mentions : String → String → Bool
mentions word s = is_some (find? s word)

-- `_categorize_failure`: a code, and the field that is wrong.
unfoldable pub categorize_failure : String → String × String
unfolding lower
categorize_failure reason =
    let lowered = lower reason in
    if mentions "target" lowered
    then ("TARGET_UNRESOLVED", "target")
    else if mentions "decision" lowered
    then ("DECISION_INVALID", "decision")
    else if mentions "stage" lowered
    then ("STAGE_INVALID", "stage")
    else if mentions "frontmatter" lowered
    then ("FRONTMATTER_INVALID", "frontmatter")
    else ("IPC_UNDELIVERED", "unknown")

-- The last part of a path.
abbrev pub name_of : FilePath → String
name_of [] = ""
name_of (x ∷ []) = x
name_of (x ∷ y ∷ ys) = name_of (y ∷ ys)

-- `_resolve_feedback_recipient`
unfoldable pub resolve_feedback_recipient : Node → Option String → List Node → Store → Node
resolve_feedback_recipient sender target nodes store = elim (optional_str target) [
  | none ↦ sender
  | some candidate ↦ elim (resolve_node_reference candidate nodes) [
    | refused why ↦ sender
    | accepted n ↦ if is_some (resolve_workspace_root n store) then n else sender
  ]
]

abbrev feedback_body : String
feedback_body =
    "The queued form could not be routed.\nReview the structured fields in frontmatter, correct the source form, and requeue if needed."

abbrev feedback : Node → Failure → FilePath → String → String
feedback recipient failure source source_name =
    let (code, field) = categorize_failure failure.reason in
    render_frontmatter
      (("type", "MESSAGE")
        ∷ ("sender", "Kernel_IPC")
        ∷ ("target", recipient.name)
        ∷ ("subject", str_append "IPC validation feedback: " source_name)
        ∷ ("error_code", code)
        ∷ ("error_message", failure.reason)
        ∷ ("invalid_field", field)
        ∷ ("original_source_path", show_path source)
        ∷ ("original_target", or_else failure.target "")
        ∷ ("original_stage", or_else failure.stage "")
        ∷ ("original_decision", or_else failure.decision "")
        ∷ [])
      feedback_body

-- The dead letter's path, what the disk says against it, and the store.
pub record Buried : Type 0 where
  pub path : Option String
  pub error : Option String
  pub store : Store

module _ (router : Router) where
  abbrev pub write_at : FilePath → String → Store → Option String × Store
  write_at path content store =
      if router.disk.unwritable path
      then (none, store)
      else (some (show_path path), put_file path content store)

  -- `_write_feedback_message`
  unfoldable pub write_feedback_message : Node → FilePath → Failure → Store → Option String × Store
  write_feedback_message sender source failure store =
      let recipient = resolve_feedback_recipient sender failure.target router.nodes store in
      elim (resolve_workspace_root recipient store) [
        | none ↦ (none, store)
        | some workspace ↦ elim (resolve_within_workspace workspace router.inbox_new_rel) [
          | none ↦ (none, store)
          | some inbox ↦
              let source_name =
                if is_empty (name_of source) then "undelivered.md" else name_of source in
              let store' = make_dir inbox store in
              let path =
                resolve_unique_path inbox (str_append (stem_suffix source_name).0 "-feedback.md")
                  store' in
              write_at path (feedback recipient failure source source_name) store'
        ]
      ]

  abbrev pub move_to : FilePath → FilePath → Store → Buried
  move_to source dead store =
      if router.disk.fixed source || router.disk.unwritable dead
      then record { path = none; error = some (router.disk.words dead); store = store }
      else record {
        path = some (show_path dead);
        error = none;
        store = move_file source dead store;
      }

  -- The source goes to the dead letters, where it is still there.
  unfoldable pub bury : Node → FilePath → Store → Buried
  bury sender source store =
      let kept : Buried = record { path = none; error = none; store = store } in
      if not (is_file source store) then kept else elim (resolve_workspace_root sender store) [
        | none ↦ kept
        | some workspace ↦ elim (resolve_within_workspace workspace router.dead_letter_rel) [
          | none ↦ kept
          | some dir ↦
              let store' = make_dir dir store in
              move_to source (resolve_unique_path dir (name_of source) store') store'
        ]
      ]

  abbrev details : Failure → Buried → String
  details failure buried = elim buried.error [
    | none ↦ failure.reason
    | some words ↦ str_append failure.reason (str_append "; dead-letter move failed: " words)
  ]

  -- `_undelivered`
  unfoldable pub undelivered_item : Node → FilePath → Failure → Store → Item × Store
  undelivered_item sender source failure store =
      let buried = bury sender source store in
      let (feedback_path, store') = write_feedback_message sender source failure buried.store in
      (
        record {
          status = undelivered;
          form_id = failure.form_id;
          form_type = failure.form_type;
          sender = sender.name;
          target = failure.target;
          stage = failure.stage;
          decision = failure.decision;
          next_stage = failure.next_stage;
          source_path = show_path source;
          delivery_path = none;
          archive_path = none;
          backup_path = none;
          dead_letter_path = buried.path;
          feedback_path = feedback_path;
          failure_reason = some (details failure buried);
        },
        store',
      )
