-- ===== src/Tests/Ipc.antt =====
-- Examples for the router of form files.
use omni_claw.Prelude.{
  ℕ, String, true, false, none, some, Option, List, [], ◌∷◌, ◌≡◌, refl, sym, ◌∙◌, ◌≢◌, str_eq,
  eq_iff, Distinct, keys, first_char, last_char, is_space, all_chars, is_break, split_newlines,
  strip, subst, inr,
}
use omni_claw.Org.Nodes.{Node}
use omni_claw.Forms.Json.{Json, field, text, object, member, no_members, Members, boolean, null}
use omni_claw.Forms.Types.{FormTypeDefinition, active}
use omni_claw.Ipc.Outcome.{accepted, refused}
use omni_claw.Ipc.Frontmatter.{Fields, parse_frontmatter, render_frontmatter}
use omni_claw.Ipc.Files.{
  File, Store, Disk, FilePath, exists, read_file, remove_file, drop_last, resolve_unique_path,
}
use omni_claw.Ipc.Undelivered.{Router, Item, undelivered_item}
use omni_claw.Ipc.Request.{Letter, routing_request}
use omni_claw.Ipc.Process.{Run, process_source_file, unread}
use omni_claw.Ipc.Routing.{Company, World, Moment}
use omni_claw.Ipc.Scan.{Claim, claimed, Scan, Scanned, scan_forms}
use omni_claw.Ipc.RoundTrip.{returned, parse_frontmatter-render_frontmatter}
use omni_claw.Ipc.FreeNames.{resolve_unique_path-free}
use omni_claw.Ipc.Kept.{Keeps-refl, Keeps-remove_file}
use omni_claw.Ipc.Untouched.{Ends, process_source_file-Keeps}
use omni_claw.Ipc.Rescued.{IsRescued, undelivered_item-IsRescued}
use omni_claw.Ipc.Tally.{IsTallied, Tallies, scan_forms-IsTallied}
use omni_claw.Result.{Result, done, raise}
use omni_claw.Forms.Ledger.{FormLedger, Ledger, Details}
use omni_claw.Forms.Workflow.{find_form, transition_form}
use omni_claw.Ipc.Stages.{as_members}
use omni_claw.Ipc.Plan.{Route, plan_route}
use omni_claw.Ipc.Targets.{single}
use omni_claw.Ipc.Delivery.{Copies}
use omni_claw.Ipc.Agreement.{transition_form-follows_route}
use omni_claw.Tests.Data.{ada, cem}

abbrev file : String
file =
    "---\nform_type: memo\nsubject: \"Hello: all\"\ndecision: send\nnote: |\n  one\n\n  two\n---\n\nBody\ntext\n"

abbrev stage : Members → Json
stage m = object m

abbrev graph : Members
graph = member "start_stage" (text "draft") (
    member "stages"
      (object (
        member "draft"
          (object
            (member "decisions" (object (member "send" (text "review") no_members)) no_members))
          (member "review"
            (object (
              member "target" (text "Cem") (
                member "required_skill" (text "reviewing") (
                  member "decisions" (object (member "back" (text "draft") no_members))
                    no_members))))
            (member "done" (object (member "is_terminal" (boolean true) no_members)) no_members))))
      no_members)

abbrev memo : FormTypeDefinition
memo = record {
  type_key = "memo";
  version = "1.0.0";
  lifecycle_state = active;
  description = none;
  workflow_graph = graph;
  stage_metadata = no_members;
  validation_errors = none;
}

abbrev home : String → Node → Node
home path n = record n { workspace_root = some path }

abbrev disk : Disk
disk = record {
  words = λ p. "Permission denied";
  undecodable = λ p. false;
  unmakeable = λ p. false;
  unreadable = λ p. false;
  unwritable = λ p. false;
  fixed = λ p. false;
}

abbrev router : Router
router = record {
  nodes = home "/srv/ada" ada ∷ home "/srv/cem" cem ∷ [];
  queue_paths = "outbox/send" ∷ "outbox/pending" ∷ [];
  archive_rel = "outbox/archive";
  dead_letter_rel = "outbox/dead-letter";
  inbox_new_rel = "inbox/new";
  disk = disk;
}

-- What the rebuilding of the skills takes away.
abbrev old_skill : FilePath
old_skill = "srv" ∷ "cem" ∷ "skills" ∷ "old.md" ∷ []

abbrev company : Company
company = record {
  router = router;
  forms_root = "co" ∷ "forms" ∷ [];
  form_archive_root = "co" ∷ "form_archive" ∷ [];
  message_workflow = none;
  sync_node_skills = λ n store. (accepted tt, remove_file old_skill store);
  repr = λ v. "";
  is_letter = λ c. true;
  fuel = 3;
}

abbrev source : FilePath
source = "srv" ∷ "ada" ∷ "outbox" ∷ "send" ∷ "note.md" ∷ []

-- A file of another node.
abbrev letter_of_cem : FilePath
letter_of_cem = "srv" ∷ "cem" ∷ "inbox" ∷ "new" ∷ "note.md" ∷ []

abbrev world : World
world = record {
  types = memo ∷ [];
  ledger = record { forms = []; events = [] };
  store = record {
    files =
        record { path = source; content = file }
        ∷ record {
          path = "co" ∷ "forms" ∷ "memo" ∷ "skills" ∷ "reviewing" ∷ "SKILL.md" ∷ [];
          content = "";
        }
        ∷ record { path = old_skill; content = "old" }
        ∷ record { path = letter_of_cem; content = "mine" }
        ∷ [];
    folders =
        ("srv" ∷ "ada" ∷ []) ∷ ("srv" ∷ "cem" ∷ []) ∷ ("srv" ∷ "ada" ∷ "outbox" ∷ "send" ∷ []) ∷ [];
  };
}

abbrev noon : ℕ → Moment
noon n = record { at = 5; stamp = "20260101T120000Z" }

abbrev scanned : Scanned
scanned = scan_forms company (λ p. claimed) noon 10 world

-- The example fields, with a block.
abbrev fields : Fields
fields = ("form_type", "memo") ∷ ("note", "one\n\ntwo") ∷ ("decision", "") ∷ []

text_not : (a b : String) → str_eq a b ≡ false → a ≢ b
text_not a b e same =
    let own : str_eq a b ≡ true = (eq_iff a b).1 same in let k : true ≡ false = sym own ∙ e in cc

fields-Distinct : Distinct (keys fields)
fields-Distinct = (
  (text_not "form_type" "note" refl, (text_not "form_type" "decision" refl, tt)),
  ((text_not "note" "decision" refl, tt), (tt, tt)),
)

parse_frontmatter-render_frontmatter_example :
    parse_frontmatter (render_frontmatter fields "Body\ntext")
    ≡ accepted (fields, returned "Body\ntext")
unfolding first_char is_space last_char all_chars is_break split_newlines strip
parse_frontmatter-render_frontmatter_example =
    parse_frontmatter-render_frontmatter fields "Body\ntext" (refl, (refl, (refl, tt)))
      fields-Distinct refl

abbrev no_details : Details
no_details = record {
  message_name = none;
  sender_node_id = none;
  target_node_id = none;
  subject = none;
  source_path = none;
  delivery_path = none;
  archive_path = none;
  dead_letter_path = none;
  failure_reason = none;
  queued_at = none;
  routed_at = none;
  archived_at = none;
  dead_lettered_at = none;
}

-- A form that stands at the first stage, and the route of its file.
abbrev form : FormLedger
form = record {
  form_id = "memo-1";
  type = "memo";
  form_type_key = some "memo";
  form_type_version = some "1.0.0";
  current_status = "draft";
  current_holder_node = some "a";
  details = no_details;
  version = 1;
  history_log = [];
}

abbrev ledger : Ledger
ledger = record { forms = form ∷ []; events = [] }

abbrev letter : Letter
letter = record {
  sender = home "/srv/ada" ada;
  workspace = "srv" ∷ "ada" ∷ [];
  source = source;
  fields = ("form_id", "memo-1") ∷ ("decision", "send") ∷ [];
  body = "";
}

abbrev review : Json
review = object (
    member "target" (text "Cem") (
      member "required_skill" (text "reviewing")
        (member "decisions" (object (member "back" (text "draft") no_members)) no_members)))

abbrev route : Route
route = record {
  form_type = "memo";
  definition = memo;
  graph = record {
    start_stage = "draft";
    end_stage = "done";
    stages = as_members (field "stages" graph);
    initiator_allowlist = null;
  };
  choice = record { stage = "draft"; decision = "send"; next_stage = "review"; next = review };
  skill = some "reviewing";
  existing = some form;
  initiator = "a";
  target = record { node = some (home "/srv/cem" cem); mode = single; context = [] };
}

abbrev copies : Copies
copies = record { delivery = some ("x" ∷ []); archive = "y" ∷ []; backup = "z" ∷ [] }

abbrev moved : Result FormLedger × Ledger
moved =
    transition_form company.repr (routing_request letter route "memo-1" copies 7) router.nodes
      (memo ∷ []) ledger

abbrev form_of : Result FormLedger → FormLedger
form_of (done f) = f
form_of (raise e) = form

-- The name is taken.
resolve_unique_path-free_example :
    exists (resolve_unique_path (drop_last source) "note.md" world.store) world.store ≡ false
resolve_unique_path-free_example = resolve_unique_path-free world.store (drop_last source) "note.md"

there : read_file source world.store ≡ some file
unfolding read_file
there = refl

undelivered_item-IsRescued_example :
    IsRescued source file
      (undelivered_item router
        (home "/srv/ada" ada)
        source
        (unread company "no")
        world.store).0.dead_letter_path
      (undelivered_item router (home "/srv/ada" ada) source (unread company "no") world.store).1
undelivered_item-IsRescued_example =
    undelivered_item-IsRescued router (home "/srv/ada" ada) source (unread company "no") world.store
      file there

abbrev scan_of : Scanned → Scan
scan_of (accepted s) = s
scan_of (refused why) = record {
  scanned = 0;
  routed_count = 0;
  undelivered_count = 0;
  skipped = 0;
  items = [];
  world = world;
}

scanned-there : scanned ≡ accepted (scan_of scanned)
unfolding omni_claw.Ipc.Delivery.slug omni_claw.Ipc.Delivery.stage_slug
    omni_claw.Ipc.Delivery.resolve_archive_copy_path omni_claw.Ipc.Delivery.place_delivery
    omni_claw.Ipc.Delivery.place_copies omni_claw.Ipc.Delivery.write_copies
    omni_claw.Ipc.Delivery.rollback_routing_files omni_claw.Ipc.Files.split_slashes
    omni_claw.Ipc.Files.walk omni_claw.Ipc.Files.resolve_workspace_root
    omni_claw.Ipc.Files.resolve_within_workspace omni_claw.Ipc.Files.safe_relative_path
    omni_claw.Ipc.Files.at_last_dot omni_claw.Ipc.Files.stem_suffix omni_claw.Ipc.Files.free_name
    omni_claw.Ipc.Files.resolve_unique_path omni_claw.Ipc.Files.make_dir
    omni_claw.Ipc.Files.read_file omni_claw.Ipc.Files.put_file omni_claw.Ipc.Files.remove_file
    omni_claw.Ipc.Files.move_file omni_claw.Ipc.Files.show_path
    omni_claw.Ipc.Frontmatter.until_delimiter omni_claw.Ipc.Frontmatter.flush_at
    omni_claw.Ipc.Frontmatter.read_entry omni_claw.Ipc.Frontmatter.read_in_block
    omni_claw.Ipc.Frontmatter.read_at omni_claw.Ipc.Frontmatter.read_lines
    omni_claw.Ipc.Frontmatter.read_parts omni_claw.Ipc.Frontmatter.parse_lines
    omni_claw.Ipc.Frontmatter.parse_frontmatter omni_claw.Ipc.Frontmatter.render_entry
    omni_claw.Ipc.Frontmatter.render_fields omni_claw.Ipc.Frontmatter.render_frontmatter
    omni_claw.Ipc.Hints.describe_target omni_claw.Ipc.Hints.describe_stage_target
    omni_claw.Ipc.Hints.labels omni_claw.Ipc.Hints.build_target_agent_hint
    omni_claw.Ipc.Hints.routed_fields omni_claw.Ipc.Plan.choose_stage
    omni_claw.Ipc.Plan.resolve_master_skill_dir omni_claw.Ipc.Plan.check_skill
    omni_claw.Ipc.Plan.check_form omni_claw.Ipc.Plan.check_route omni_claw.Ipc.Plan.plan_route
    omni_claw.Ipc.Process.finish_route omni_claw.Ipc.Process.send_copies
    omni_claw.Ipc.Process.deliver omni_claw.Ipc.Process.follow_route
    omni_claw.Ipc.Process.route_letter omni_claw.Ipc.Process.process_source_file
    omni_claw.Ipc.Routing.keep_chars omni_claw.Ipc.Routing.build_form_id
    omni_claw.Ipc.Routing.resolve_active_form_definition
    omni_claw.Ipc.Routing.resolve_skill_distribution_nodes
    omni_claw.Ipc.Routing.distribute_stage_skill omni_claw.Ipc.Routing.check_distribution
    omni_claw.Ipc.Routing.ensure_form omni_claw.Ipc.Scan.is_form_file omni_claw.Ipc.Scan.names_in
    omni_claw.Ipc.Scan.scan_claimed omni_claw.Ipc.Scan.scan_names omni_claw.Ipc.Scan.scan_queues
    omni_claw.Ipc.Scan.scan_senders omni_claw.Ipc.Scan.scan_forms omni_claw.Ipc.Stages.optional_str
    omni_claw.Ipc.Stages.upper omni_claw.Ipc.Stages.resolve_form_type
    omni_claw.Ipc.Stages.load_stage_graph omni_claw.Ipc.Targets.resolve_existing_form
    omni_claw.Ipc.Targets.resolve_initiator_node_id omni_claw.Ipc.Targets.on_allowlist
    omni_claw.Ipc.Targets.is_allowed_initiator omni_claw.Ipc.Targets.resolve_target
    omni_claw.Ipc.Targets.resolve_target_node omni_claw.Ipc.Targets.routing_context
    omni_claw.Ipc.Undelivered.categorize_failure
    omni_claw.Ipc.Undelivered.resolve_feedback_recipient
    omni_claw.Ipc.Undelivered.write_feedback_message omni_claw.Ipc.Undelivered.bury
    omni_claw.Ipc.Undelivered.undelivered_item omni_claw.Forms.Ledger.get_form_ledger
    omni_claw.Forms.Ledger.list_form_transition_events omni_claw.Forms.Ledger.create_form_instance
    omni_claw.Forms.Ledger.apply_settings omni_claw.Forms.Ledger.max_sequence
    omni_claw.Forms.Ledger.move_entry omni_claw.Forms.Ledger.transition_form_instance
    omni_claw.Forms.Workflow.plan_transition omni_claw.Forms.Workflow.transition_with_graph
    omni_claw.Forms.Workflow.resolve_actor_node_id omni_claw.Forms.Workflow.authorize
    omni_claw.Forms.Workflow.lookup_form omni_claw.Forms.Workflow.with_actor
    omni_claw.Forms.Workflow.find_form omni_claw.Forms.Workflow.transition_form
    omni_claw.Forms.Routes.candidates omni_claw.Forms.Routes.resolve_edge
    omni_claw.Forms.Routes.require_node omni_claw.Forms.Routes.resolve_unique_node_id_by_name
    omni_claw.Forms.Routes.apply_strategy omni_claw.Forms.Routes.resolve_next_holder
    omni_claw.Forms.Graph.name_before_braces omni_claw.Forms.Graph.rule_from_target
    omni_claw.Forms.Graph.holder_rule_from_stage_target omni_claw.Forms.Graph.infer_end_stage
    omni_claw.Forms.Graph.stage_decisions omni_claw.Forms.Graph.decision_edges
    omni_claw.Forms.Graph.stage_edges omni_claw.Forms.Graph.project_stage_graph
    omni_claw.Forms.Graph.node_status omni_claw.Forms.Graph.node_edges
    omni_claw.Forms.Graph.project_node_graph omni_claw.Forms.Graph.project_workflow_graph
    omni_claw.Forms.Creation.all_key_chars omni_claw.Forms.Creation.is_type_key
    omni_claw.Forms.Creation.plan_form omni_claw.Forms.Creation.create_form
    omni_claw.Forms.Types.upsert_form_type_definition omni_claw.Forms.Types.get_form_type_definition
    omni_claw.Forms.Types.set_form_type_lifecycle omni_claw.Forms.Types.delete_form_type_definition
    omni_claw.Forms.Json.get_member omni_claw.Forms.Ids.lower omni_claw.Forms.Ids.drop_suffix
    omni_claw.Forms.Ids.keep_id_chars omni_claw.Forms.Ids.collapse_dashes
    omni_claw.Forms.Ids.clean_form_id omni_claw.Forms.Ids.normalize_form_id_hint
    omni_claw.Forms.Ids.find_form_id omni_claw.Forms.Ids.next_available_form_id
    omni_claw.Forms.Builtin.ensure_builtin_message_form_type omni_claw.Org.Nodes.new_node
    omni_claw.Org.Nodes.create_node omni_claw.Org.Nodes.overwrite
    omni_claw.Org.Nodes.upsert_node_by_name omni_claw.Org.Nodes.get_node
    omni_claw.Org.Nodes.get_agent_node omni_claw.Org.Nodes.list_agent_nodes
    omni_claw.Org.Nodes.list_nodes_with_workspaces
    omni_claw.Org.Nodes.list_active_agent_nodes_with_workspaces
    omni_claw.Org.Nodes.list_nodes_by_name omni_claw.Org.Nodes.update_node_instruction_fields
    omni_claw.Org.References.hex_run omni_claw.Org.References.looks_like_uuid
    omni_claw.Org.References.resolve_unique_node_reference omni_claw.Org.References.lookup_error
    omni_claw.Prelude.is_space omni_claw.Prelude.trim_start omni_claw.Prelude.trim_end
    omni_claw.Prelude.trim omni_claw.Prelude.strip omni_claw.Prelude.strip_or_empty
    omni_claw.Prelude.split_once omni_claw.Prelude.scan_digits omni_claw.Prelude.signed_digits
    omni_claw.Prelude.parse_int omni_claw.Prelude.digits omni_claw.Prelude.decimal
    omni_claw.Prelude.all_chars omni_claw.Prelude.first_char omni_claw.Prelude.last_char
    omni_claw.Prelude.is_break omni_claw.Prelude.splitlines omni_claw.Prelude.split_newlines
    omni_claw.Prelude.join_lines omni_claw.Ipc.Process.follow_form
scanned-there = refl

scan_forms-IsTallied_example : Tallies company 10 scanned
scan_forms-IsTallied_example = scan_forms-IsTallied company (λ p. claimed) noon 10 world

-- The scan is returned, and its numbers are right.
scanned-IsTallied : IsTallied 10 (scan_of scanned)
scanned-IsTallied = subst (Tallies company 10) scanned-there scan_forms-IsTallied_example

abbrev processed : Run
processed =
    process_source_file company (home "/srv/ada" ada) ("srv" ∷ "ada" ∷ []) source (noon 0) world

abbrev outcome_of : Run → Item × World
outcome_of (accepted r) = r
outcome_of (refused why) =
    ((undelivered_item router ada source (unread company "") world.store).0, world)

processed-there : processed ≡ accepted (outcome_of processed)
unfolding omni_claw.Ipc.Files.split_slashes omni_claw.Ipc.Files.safe_relative_path
    omni_claw.Ipc.Files.move_file omni_claw.Ipc.Frontmatter.until_delimiter
    omni_claw.Ipc.Frontmatter.flush_at omni_claw.Ipc.Frontmatter.read_entry
    omni_claw.Ipc.Frontmatter.read_at omni_claw.Ipc.Frontmatter.read_lines
    omni_claw.Ipc.Frontmatter.read_parts omni_claw.Ipc.Frontmatter.parse_lines
    omni_claw.Ipc.Frontmatter.parse_frontmatter omni_claw.Ipc.Plan.choose_stage
    omni_claw.Ipc.Plan.resolve_master_skill_dir omni_claw.Ipc.Plan.check_skill
    omni_claw.Ipc.Plan.check_form omni_claw.Ipc.Plan.check_route omni_claw.Ipc.Plan.plan_route
    omni_claw.Ipc.Process.follow_route omni_claw.Ipc.Process.route_letter
    omni_claw.Ipc.Process.process_source_file omni_claw.Ipc.Routing.resolve_active_form_definition
    omni_claw.Ipc.Routing.resolve_skill_distribution_nodes
    omni_claw.Ipc.Routing.distribute_stage_skill omni_claw.Ipc.Routing.check_distribution
    omni_claw.Ipc.Routing.ensure_form omni_claw.Ipc.Stages.optional_str
    omni_claw.Ipc.Stages.resolve_form_type omni_claw.Ipc.Stages.load_stage_graph
    omni_claw.Ipc.Targets.resolve_existing_form omni_claw.Ipc.Targets.resolve_initiator_node_id
    omni_claw.Ipc.Targets.is_allowed_initiator omni_claw.Ipc.Targets.resolve_target
    omni_claw.Ipc.Targets.resolve_target_node omni_claw.Forms.Ledger.create_form_instance
    omni_claw.Forms.Routes.require_node omni_claw.Forms.Graph.stage_decisions
    omni_claw.Forms.Creation.is_type_key omni_claw.Forms.Creation.plan_form
    omni_claw.Forms.Creation.create_form omni_claw.Forms.Types.get_form_type_definition
    omni_claw.Forms.Json.get_member omni_claw.Forms.Ids.lower omni_claw.Forms.Ids.find_form_id
    omni_claw.Forms.Ids.next_available_form_id omni_claw.Org.Nodes.get_agent_node
    omni_claw.Org.References.resolve_unique_node_reference omni_claw.Prelude.strip_or_empty
    omni_claw.Prelude.split_once omni_claw.Prelude.splitlines omni_claw.Ipc.Process.follow_form
    omni_claw.Ipc.Process.deliver omni_claw.Ipc.Delivery.place_copies
    omni_claw.Ipc.Files.resolve_within_workspace omni_claw.Ipc.Files.walk
    omni_claw.Ipc.Delivery.place_delivery omni_claw.Ipc.Files.resolve_workspace_root
    omni_claw.Ipc.Files.make_dir
processed-there = refl

spared :
    (n : Node) (s : Store)
    → read_file letter_of_cem s ≡ some "mine"
    → read_file letter_of_cem (company.sync_node_skills n s).1 ≡ some "mine"
spared n s there =
    Keeps-remove_file old_skill s s old_skill (inr refl) (Keeps-refl old_skill s) letter_of_cem
      "mine" refl there

mine : read_file letter_of_cem world.store ≡ some "mine"
unfolding read_file
mine = refl

process_source_file-Keeps_example :
    Ends company (λ s. read_file letter_of_cem s ≡ some "mine") processed
process_source_file-Keeps_example =
    process_source_file-Keeps company (home "/srv/ada" ada) ("srv" ∷ "ada" ∷ []) source (noon 0)
      world letter_of_cem "mine" spared refl mine

still_mine : read_file letter_of_cem (outcome_of processed).1.store ≡ some "mine"
still_mine =
    subst (Ends company (λ s. read_file letter_of_cem s ≡ some "mine")) processed-there
      process_source_file-Keeps_example

route-planned :
    plan_route company.forms_root letter.sender router.nodes ledger world.store "memo" letter.fields
      memo
    ≡ accepted route
unfolding omni_claw.Ipc.Files.split_slashes omni_claw.Ipc.Files.safe_relative_path
    omni_claw.Ipc.Plan.choose_stage omni_claw.Ipc.Plan.resolve_master_skill_dir
    omni_claw.Ipc.Plan.check_skill omni_claw.Ipc.Plan.check_form omni_claw.Ipc.Plan.check_route
    omni_claw.Ipc.Plan.plan_route omni_claw.Ipc.Stages.optional_str
    omni_claw.Ipc.Stages.load_stage_graph omni_claw.Ipc.Targets.resolve_existing_form
    omni_claw.Ipc.Targets.resolve_initiator_node_id omni_claw.Ipc.Targets.resolve_target
    omni_claw.Ipc.Targets.resolve_target_node omni_claw.Forms.Ledger.get_form_ledger
    omni_claw.Forms.Graph.stage_decisions omni_claw.Forms.Json.get_member omni_claw.Forms.Ids.lower
    omni_claw.Org.References.resolve_unique_node_reference
route-planned = refl

form-found :
    find_form (routing_request letter route "memo-1" copies 7) router.nodes ledger
    ≡ done (form, "a")
unfolding omni_claw.Forms.Ledger.get_form_ledger omni_claw.Forms.Workflow.resolve_actor_node_id
    omni_claw.Forms.Workflow.lookup_form omni_claw.Forms.Workflow.with_actor
    omni_claw.Forms.Workflow.find_form omni_claw.Forms.Routes.require_node
    omni_claw.Org.Nodes.get_agent_node omni_claw.Prelude.strip_or_empty
form-found = refl

form-moved : moved ≡ (done (form_of moved.0), moved.1)
unfolding omni_claw.Forms.Ledger.get_form_ledger omni_claw.Forms.Ledger.apply_settings
    omni_claw.Forms.Ledger.move_entry omni_claw.Forms.Ledger.transition_form_instance
    omni_claw.Forms.Workflow.plan_transition omni_claw.Forms.Workflow.transition_with_graph
    omni_claw.Forms.Workflow.resolve_actor_node_id omni_claw.Forms.Workflow.authorize
    omni_claw.Forms.Workflow.lookup_form omni_claw.Forms.Workflow.with_actor
    omni_claw.Forms.Workflow.find_form omni_claw.Forms.Workflow.transition_form
    omni_claw.Forms.Routes.candidates omni_claw.Forms.Routes.resolve_edge
    omni_claw.Forms.Routes.require_node omni_claw.Forms.Routes.resolve_unique_node_id_by_name
    omni_claw.Forms.Routes.apply_strategy omni_claw.Forms.Routes.resolve_next_holder
    omni_claw.Forms.Graph.rule_from_target omni_claw.Forms.Graph.holder_rule_from_stage_target
    omni_claw.Forms.Graph.stage_decisions omni_claw.Forms.Graph.decision_edges
    omni_claw.Forms.Graph.stage_edges omni_claw.Forms.Graph.project_stage_graph
    omni_claw.Forms.Graph.project_workflow_graph omni_claw.Forms.Types.get_form_type_definition
    omni_claw.Forms.Json.get_member omni_claw.Org.Nodes.get_agent_node
    omni_claw.Org.References.resolve_unique_node_reference omni_claw.Prelude.strip_or_empty
form-moved = refl

transition_form-follows_route_example :
    ((form_of moved.0).current_status ≡ "review")
    × ((form_of moved.0).current_holder_node ≡ some "c")
unfolding omni_claw.Forms.Graph.stage_decisions omni_claw.Forms.Types.get_form_type_definition
    omni_claw.Forms.Json.get_member
transition_form-follows_route_example =
    transition_form-follows_route company.repr letter route "memo-1" copies 7 router.nodes
      company.forms_root ledger ledger moved.1 world.store "memo" memo (memo ∷ []) form
      (form_of moved.0) "a"
      (object (member "decisions" (object (member "send" (text "review") no_members)) no_members))
      route-planned form-found refl refl refl refl form-moved
