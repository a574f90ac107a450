-- ===== src/Ipc/Request.antt =====
-- A file that is being processed, the request for its transition, and its report
-- (src/omniclaw/ipc/service.py, `_process_source_file`).
use omni_claw.Prelude.{
  ℕ, String, Option, none, some, List, [], ◌∷◌, is_truthy, or_else, if◌then◌else◌,
}
use omni_claw.Org.Nodes.{Node}
use omni_claw.Forms.Json.{Json, null, text, object, Members, no_members, member}
use omni_claw.Forms.Ledger.{FormLedger, Details, set_details}
use omni_claw.Forms.Workflow.{TransitionRequest}
use omni_claw.Ipc.Frontmatter.{Fields}
use omni_claw.Ipc.Stages.{filled}
use omni_claw.Ipc.Targets.{node_by_id, routing_context}
use omni_claw.Ipc.Files.{FilePath, show_path}
use omni_claw.Ipc.Plan.{Failure, Route, at_choice}
use omni_claw.Ipc.Undelivered.{Item, routed, name_of}
use omni_claw.Ipc.Delivery.{Copies}
use omni_claw.Ipc.Routing.{name_of_node}

-- A dictionary of texts as JSON.
abbrev pub to_members : Fields → Members
to_members [] = no_members
to_members ((k, v) ∷ m) = member k (text v) (to_members m)

abbrev text_or_null : Option String → Json
text_or_null none = null
text_or_null (some s) = text s

abbrev show_option : Option FilePath → Option String
show_option none = none
show_option (some path) = some (show_path path)

abbrev pub id_of : Option Node → Option String
id_of none = none
id_of (some n) = some n.id

-- A file that is being processed: its sender with the workspace, its path, its fields and its body.
pub record Letter : Type 0 where
  pub sender : Node
  pub workspace : FilePath
  pub source : FilePath
  pub fields : Fields
  pub body : String

abbrev payload : Letter → Route → Copies → Json
payload letter route copies = object (
    member "source_path" (text (show_path letter.source)) (
      member "delivery_path" (text_or_null (show_option copies.delivery)) (
        member "archive_path" (text (show_path copies.archive)) (
          member "backup_path" (text (show_path copies.backup)) (
            member "stage" (text route.choice.next_stage)
              (member "required_skill" (text_or_null route.skill) no_members))))))

abbrev pub columns : Letter → Route → Copies → Details → Details
columns letter route copies d = record d {
  source_path = some (show_path letter.source);
  delivery_path = show_option copies.delivery;
  archive_path = some (show_path copies.archive);
  message_name = some (name_of letter.source);
  subject = filled "subject" letter.fields;
  target_node_id = id_of route.target.node;
  failure_reason = none;
}

-- The request of the transition.
abbrev pub routing_request : Letter → Route → String → Copies → ℕ → TransitionRequest
routing_request letter route form_id copies at = record {
  form_id = some form_id;
  actor_node_id = some letter.sender.id;
  actor_node_name = none;
  decision_key = some route.choice.decision;
  to_status = none;
  context = to_members (routing_context route.initiator route.target);
  payload = some (payload letter route copies);
  set_fields = set_details (columns letter route copies) ∷ [];
  at = at;
}

-- A reason, once the form is known.
abbrev pub at_form : Letter → Route → String → String → Failure
at_form letter route form_id reason =
    record (at_choice route.form_type letter.fields route.choice reason) {
      form_id = some form_id;
      target = name_of_node route.target.node;
    }

abbrev pub holder_of : FormLedger → List Node → Option Node
holder_of form nodes =
    if is_truthy form.current_holder_node
    then node_by_id (or_else form.current_holder_node "") nodes
    else none

abbrev first_node : Option Node → Option Node → Option Node
first_node none other = other
first_node (some n) other = some n

abbrev pub routed_item : Letter → Route → String → Copies → Option Node → Item
routed_item letter route form_id copies holder = record {
  status = routed;
  form_id = some form_id;
  form_type = some route.form_type;
  sender = letter.sender.name;
  target = name_of_node (first_node holder route.target.node);
  stage = some route.choice.stage;
  decision = some route.choice.decision;
  next_stage = some route.choice.next_stage;
  source_path = show_path letter.source;
  delivery_path = show_option copies.delivery;
  archive_path = some (show_path copies.archive);
  backup_path = some (show_path copies.backup);
  dead_letter_path = none;
  feedback_path = none;
  failure_reason = none;
}
