-- ===== src/Forms/Creation.antt =====
-- The action that creates a form (src/omniclaw/forms/service.py, `_create_form`).
use omni_claw.Prelude.{
  ℕ, String, code, str_append, Bool, true, false, ◌&&◌, ◌||◌, not, List, Option, none, some,
  is_empty, is_truthy, is_digit, leb, ◌==◌, or_else, if◌then◌else◌,
}
use omni_claw.Result.{Result, raise, done, ◌>>=◌, require, or_raise, Error, http}
use omni_claw.Org.Nodes.{Node}
use omni_claw.Forms.Json.{Json, field}
use omni_claw.Forms.Types.{FormTypes, FormTypeDefinition, get_form_type_definition}
use omni_claw.Forms.Graph.{project_workflow_graph}
use omni_claw.Forms.Ledger.{FormLedger, Ledger, Details, NewForm, create_form_instance}
use omni_claw.Forms.Routes.{bad, require_node, str_or_empty}
use omni_claw.Forms.Workflow.{require_text}

abbrev is_small : ℕ → Bool
is_small c = leb b'a' c && leb c b'z'

unfoldable pub all_key_chars : String → Bool
all_key_chars String.[] = true
all_key_chars (String.◌∷◌ c s) =
    (is_small (code c) || is_digit (code c) || code c == b'_') && all_key_chars s

-- `^[a-z][a-z0-9_]*$`
unfoldable pub is_type_key : String → Bool
unfolding all_key_chars
is_type_key String.[] = false
is_type_key (String.◌∷◌ c s) = is_small (code c) && all_key_chars s

pub record CreateRequest : Type 0 where
  pub type_key : Option String
  pub version : Option String
  pub initial_status : Option String
  pub initial_holder_node_id : Option String
  pub form_id_hint : Option String
  pub actor_node_id : Option String
  pub decision_key : Option String
  pub payload : Option Json
  pub at : ℕ

abbrev no_details : Option String → Details
no_details sender = record {
  message_name = none;
  sender_node_id = sender;
  target_node_id = none;
  subject = none;
  source_path = none;
  delivery_path = none;
  archive_path = none;
  dead_letter_path = none;
  failure_reason = none;
  queued_at = none;
  routed_at = none;
  archived_at = none;
  dead_lettered_at = none;
}

-- The value, or the other one where it is `None` or "".
abbrev or_if_empty : Option String → String → String
or_if_empty value other = if is_truthy value then or_else value "" else other

abbrev pub wanted_version : String → Option String → FormTypes → Option FormTypeDefinition
wanted_version type_key version types =
    if is_truthy version
    then get_form_type_definition type_key version false types
    else get_form_type_definition type_key none true types

abbrev the_new_form : CreateRequest → String → FormTypeDefinition → String → String → NewForm
the_new_form request type_key definition status holder = record {
  form_id_hint = or_if_empty request.form_id_hint (str_append type_key (str_append "-" status));
  form_type_key = type_key;
  form_type_version = definition.version;
  current_status = status;
  current_holder_node = some holder;
  actor_node_id = request.actor_node_id;
  decision_key = request.decision_key;
  event_payload = request.payload;
  details = no_details request.actor_node_id;
  at = request.at;
}

abbrev no_status : Error
no_status = bad "initial status could not be resolved"

abbrev wrong_key : Error
wrong_key = bad "form type key must be snake_case (regex: ^[a-z][a-z0-9_]*$)"

abbrev no_type : String → Error
no_type type_key = http 404 (str_append "active form type '" (str_append type_key "' not found"))

-- The checks in their order, up to the arguments of `create_form_instance`.
unfoldable pub plan_form : (Json → String) → CreateRequest → List Node → FormTypes → Result NewForm
plan_form repr request nodes types = require_text request.type_key "type_key" >>= λ type_key.
    require (is_type_key type_key) wrong_key (
      or_raise (no_type type_key) (wanted_version type_key request.version types) >>= λ definition.
      let graph = project_workflow_graph definition.workflow_graph in
      let status =
        or_if_empty request.initial_status (str_or_empty repr (field "initial_status" graph)) in
      require (not (is_empty status)) no_status (
        require_text request.initial_holder_node_id "initial_holder_node_id" >>= λ holder.
        (require_node holder nodes >>= λ _.
        done (the_new_form request type_key definition status holder))))

-- `none`: the search for a free id ran out of fuel.
unfoldable pub create_form :
    ℕ
    → (Json → String)
    → CreateRequest
    → List Node
    → FormTypes
    → Ledger
    → Option (Result FormLedger × Ledger)
create_form fuel repr request nodes types ledger = elim (plan_form repr request nodes types) [
  | raise e ↦ some (raise e, ledger)
  | done n ↦ elim (create_form_instance fuel n ledger) [
    | none ↦ none
    | some (f, ledger') ↦ some (done f, ledger')
  ]
]
