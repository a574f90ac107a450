-- ===== src/Ipc/Routing.antt =====
-- What stands behind the checks of a queued file: the active definition, the skills of the next
-- holders, and the form itself (src/omniclaw/ipc/service.py, `_resolve_active_form_definition`,
-- `_resolve_skill_distribution_nodes`, `_distribute_stage_skill`, `_build_form_id`, and the part of
-- `_process_source_file` up to the form id).
use omni_claw.Prelude.{
  ℕ, String, code, str_append, Bool, true, ◌&&◌, ◌||◌, Option, none, some, List, [], ◌∷◌, ◌++◌,
  is_empty, leb, ltb, ◌==◌, str_eq, is_digit, strip, trim, text_take, any_where, if◌then◌else◌,
}
use omni_claw.Result.{Result, raise, done, Error, http, value_error, transition_conflict}
use omni_claw.Org.Nodes.{Node, has_id, list_active_agent_nodes_with_workspaces}
use omni_claw.Forms.Json.{Json, Members}
use omni_claw.Forms.Ids.{drop_suffix}
use omni_claw.Forms.Types.{FormTypes, FormTypeDefinition, get_form_type_definition}
use omni_claw.Forms.Builtin.{ensure_builtin_message_form_type}
use omni_claw.Forms.Ledger.{FormLedger, Ledger}
use omni_claw.Forms.Creation.{CreateRequest, create_form}
use omni_claw.Ipc.Outcome.{Outcome, Halt, told, thrown, refused, accepted}
use omni_claw.Ipc.Frontmatter.{Fields}
use omni_claw.Ipc.Stages.{filled}
use omni_claw.Ipc.Targets.{TargetMode, no_holder, single, any_agent, in_quotes}
use omni_claw.Ipc.Files.{FilePath, Store, show_path}
use omni_claw.Ipc.Plan.{Failure, Route, at_choice}
use omni_claw.Ipc.Undelivered.{Router}

-- What a call of the skills service answers, and what it leaves of the files.
abbrev pub Synced : Type 0
Synced = Outcome Halt (Unit {0}) × Store

-- The rest of what the router stands on: the company's folders, the workflow of messages in them, the
-- skills service (src/omniclaw/skills/service.py, a component of its own: `sync_node_skills` rebuilds the
-- skills of a node's workspace, and may change any file here), the text that Python gives for a list,
-- the letters beyond ASCII, and the fuel for the search of a form id.
pub record Company : Type 0 where
  pub router : Router
  pub forms_root : FilePath
  pub form_archive_root : FilePath
  pub message_workflow : Option Members
  pub sync_node_skills : Node → Store → Synced
  pub repr : Json → String
  pub is_letter : ℕ → Bool
  pub fuel : ℕ

-- What changes while files are processed.
pub record World : Type 0 where
  pub types : FormTypes
  pub ledger : Ledger
  pub store : Store

-- Why a run has no result: an exception that nothing catches, with what stands then, or a search for a
-- form id that ran out of fuel.
pub data Stop : Type 0 where
  exception : String → World → Stop
  no_fuel : Stop

-- The time of an event, and as the archive writes it.
pub record Moment : Type 0 where
  pub at : ℕ
  pub stamp : String

abbrev is_kept : (ℕ → Bool) → ℕ → Bool
is_kept is_letter c =
    is_digit c
    || leb b'a' c && leb c b'z'
    || leb b'A' c && leb c b'Z'
    || c == b'-'
    || c == b'_'
    || ltb 127 c && is_letter c

unfoldable pub keep_chars : (ℕ → Bool) → String → String
keep_chars is_letter String.[] = ""
keep_chars is_letter (String.◌∷◌ c s) =
    let rest = keep_chars is_letter s in
    if code c == b' '
    then str_append "-" rest
    else if is_kept is_letter (code c)
    then String.◌∷◌ c rest
    else rest

abbrev is_dash : ℕ → Bool
is_dash c = c == b'-'

-- `_build_form_id`
unfoldable pub build_form_id : (ℕ → Bool) → String → String
unfolding keep_chars drop_suffix trim strip
build_form_id is_letter source_name =
    let cleaned =
      trim is_dash
        (keep_chars is_letter (drop_suffix ".markdown" (drop_suffix ".md" (strip source_name)))) in
    if is_empty cleaned then "form" else text_take 64 cleaned

abbrev pub detail : Error → String
detail (http n s) = s
detail (value_error s) = s
detail (transition_conflict s) = s

abbrev ok_or_none : Result FormTypeDefinition × FormTypes → Option FormTypeDefinition × FormTypes
ok_or_none (done d, types) = (some d, types)
ok_or_none (raise e, types) = (none, types)

abbrev pub name_of_node : Option Node → Option String
name_of_node none = none
name_of_node (some n) = some n.name

module _ (company : Company) where
  abbrev pub nodes : List Node
  nodes = company.router.nodes

  -- `_resolve_active_form_definition`
  unfoldable pub resolve_active_form_definition :
      String → FormTypes → Option FormTypeDefinition × FormTypes
  resolve_active_form_definition form_type types =
      if str_eq form_type "message"
      then ok_or_none (
          ensure_builtin_message_form_type company.repr
            (show_path (company.forms_root ++ ("message" ∷ "workflow.json" ∷ [])))
            company.message_workflow types)
      else (get_form_type_definition form_type none true types, types)

  abbrev add_holder : Option Node → List Node → List Node
  add_holder none chosen = chosen
  add_holder (some n) chosen = if any_where (has_id n.id) chosen then chosen else chosen ++ (n ∷ [])

  -- `_resolve_skill_distribution_nodes`
  unfoldable pub resolve_skill_distribution_nodes : TargetMode → Option Node → List Node
  resolve_skill_distribution_nodes any_agent holder =
      add_holder holder (list_active_agent_nodes_with_workspaces nodes)
  resolve_skill_distribution_nodes single holder = add_holder holder []
  resolve_skill_distribution_nodes no_holder holder = add_holder holder []

  abbrev unsynced : Node → Halt → Halt
  unsynced n (thrown words) = thrown words
  unsynced n (told why) =
      told
        (in_quotes "failed to reconcile approved skills for node '" n.name (str_append "': " why))

  -- `_distribute_stage_skill`, up to the first node that fails.
  unfoldable pub distribute_stage_skill : List Node → Store → Synced
  distribute_stage_skill [] store = (accepted tt, store)
  distribute_stage_skill (n ∷ more) store =
      let (answer, store') = company.sync_node_skills n store in
      let rest = distribute_stage_skill more store' in
      elim answer [ accepted _ ↦ rest | refused halt ↦ (refused (unsynced n halt), store') ]

  abbrev or_option : Option String → Option String → Option String
  or_option none other = other
  or_option (some s) other = some s

  -- A reason, once the target is known.
  abbrev pub at_target : Fields → Route → String → Failure
  at_target fields route reason = record (at_choice route.form_type fields route.choice reason) {
    target = or_option (name_of_node route.target.node) (filled "target" fields);
  }

  unfoldable pub check_distribution : Route → Store → Synced
  check_distribution route store = elim route.skill [
    | none ↦ (accepted tt, store)
    | some skill ↦
        distribute_stage_skill
          (resolve_skill_distribution_nodes route.target.mode route.target.node) store
  ]

  abbrev pub create_request : Node → Route → String → ℕ → CreateRequest
  create_request sender route source_name at = record {
    type_key = some route.form_type;
    version = some route.definition.version;
    initial_status = some route.choice.stage;
    initial_holder_node_id = some sender.id;
    form_id_hint = some (build_form_id company.is_letter source_name);
    actor_node_id = some sender.id;
    decision_key = none;
    payload = none;
    at = at;
  }

  abbrev created : Fields → Route → Result FormLedger × Ledger → Outcome Failure String × Ledger
  created fields route (done form, ledger) = (accepted form.form_id, ledger)
  created fields route (raise e, ledger) = (
    refused
        (record (at_target fields route
          (str_append "unable to create form instance: " (detail e))) { form_id = none }),
    ledger,
  )

  -- The id of the form, which is created where it is new. `none`: out of fuel.
  unfoldable pub ensure_form :
      Node
      → Route
      → Fields
      → String
      → ℕ
      → FormTypes
      → Ledger
      → Option (Outcome Failure String × Ledger)
  ensure_form sender route fields source_name at types ledger = elim route.existing [
    | some form ↦ some (accepted form.form_id, ledger)
    | none ↦
        elim (create_form company.fuel company.repr (create_request sender route source_name at)
          nodes types ledger) [ none ↦ none | some r ↦ some (created fields route r) ]
  ]
