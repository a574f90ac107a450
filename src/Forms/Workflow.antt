-- ===== src/Forms/Workflow.antt =====
-- The action that moves a form along its workflow (src/omniclaw/forms/service.py,
-- `_transition_form` and `_transition_with_graph`).
use omni_claw.Prelude.{
  ℕ, String, str_append, Bool, true, false, ◌&&◌, ◌||◌, not, Option, none, some, List, str_eq,
  is_empty, is_truthy, strip, strip_or_empty, or_else, if◌then◌else◌,
}
use omni_claw.Result.{
  Result, raise, done, ◌>>=◌, require, or_raise, Error, http, transition_conflict,
}
use omni_claw.Org.Nodes.{Node}
use omni_claw.Forms.Json.{Json, object, Members, field}
use omni_claw.Forms.Types.{FormTypes, FormTypeDefinition, get_form_type_definition}
use omni_claw.Forms.Graph.{project_workflow_graph}
use omni_claw.Forms.Ledger.{
  FormLedger, Ledger, Setting, Transition, get_form_ledger, transition_form_instance,
}
use omni_claw.Forms.Routes.{
  bad, quoted, require_node, resolve_edge, resolve_next_holder, resolve_unique_node_id_by_name,
  str_or_empty,
}

-- The request for a transition, with the time of the event.
pub record TransitionRequest : Type 0 where
  pub form_id : Option String
  pub actor_node_id : Option String
  pub actor_node_name : Option String
  pub decision_key : Option String
  pub to_status : Option String
  pub context : Members
  pub payload : Option Json
  pub set_fields : List Setting
  pub at : ℕ

abbrev pub text_of_edge : (Json → String) → String → Json → String
text_of_edge repr key (object e) = str_or_empty repr (field key e)
text_of_edge repr key _ = ""

abbrev pub the_transition :
    (Json → String) → TransitionRequest → FormLedger → String → Json → Option String → Transition
the_transition repr request form actor edge holder = record {
  form_id = form.form_id;
  expected_from_status = form.current_status;
  to_status = text_of_edge repr "to" edge;
  new_holder_node_id = holder;
  actor_node_id = some actor;
  decision_key = some (text_of_edge repr "decision" edge);
  event_payload = request.payload;
  set_fields = request.set_fields;
  at = request.at;
}

-- A conflict becomes a 409.
abbrev pub as_conflict : Result FormLedger × Ledger → Result FormLedger × Ledger
as_conflict (raise (transition_conflict detail), ledger) = (raise (http 409 detail), ledger)
as_conflict (r, ledger) = (r, ledger)

-- What `_transition_with_graph` asks of the repository: `transition_form_instance` with this.
unfoldable pub plan_transition :
    (Json → String)
    → TransitionRequest
    → FormLedger
    → FormTypeDefinition
    → String
    → List Node
    → Result Transition
plan_transition repr request form definition actor nodes =
    resolve_edge (project_workflow_graph definition.workflow_graph) form.current_status
      request.decision_key request.to_status
    >>= λ edge.
        (resolve_next_holder repr form edge (some actor) request.context nodes >>= λ holder.
        done (the_transition repr request form actor edge holder))

unfoldable pub transition_with_graph :
    (Json → String)
    → TransitionRequest
    → FormLedger
    → FormTypeDefinition
    → String
    → List Node
    → Ledger
    → Result FormLedger × Ledger
transition_with_graph repr request form definition actor nodes ledger =
    elim (plan_transition repr request form definition actor nodes) [
      | raise e ↦ (raise e, ledger)
      | done t ↦ as_conflict (transition_form_instance t ledger)
    ]

abbrev optional_str : Option String → Option String
optional_str none = none
optional_str (some s) = let parsed = strip s in if is_empty parsed then none else some parsed

abbrev by_optional_name : Option String → List Node → Result (Option String)
by_optional_name none nodes = done none
by_optional_name (some name) nodes =
    resolve_unique_node_id_by_name name nodes >>= λ id. done (some id)

abbrev different : String → String → Error
different id name = bad (
    quoted "actor_node_id and actor_node_name resolve to different nodes: actor_node_id='" id
      (quoted "' actor_node_name='" name "'"))

abbrev agree : Option String → Option String → Bool
agree (some a) (some b) = not (is_truthy (some b)) || str_eq a b
agree _ _ = true

abbrev choose : Option String → Option String → List Node → Result String
choose (some id) by_name nodes = require_node id nodes >>= λ _. done id
choose none (some id) nodes =
    require (not (is_empty id)) (bad "actor_node_id or actor_node_name is required") (done id)
choose none none nodes = raise (bad "actor_node_id or actor_node_name is required")

unfoldable pub resolve_actor_node_id : Option String → Option String → List Node → Result String
resolve_actor_node_id actor_node_id actor_node_name nodes =
    let id = optional_str actor_node_id in
    let name = optional_str actor_node_name in
    by_optional_name name nodes >>= λ by_name.
    require (agree id by_name) (different (or_else id "") (or_else name ""))
      (choose id by_name nodes)

abbrev pub require_text : Option String → String → Result String
require_text value name =
    let parsed = strip_or_empty value in
    require (not (is_empty parsed)) (bad (str_append name " is required")) (done parsed)

abbrev unbound : Error
unbound = bad "form is missing type/version binding"

abbrev not_holder : String → String → Error
not_holder holder actor = http 403 (
    quoted "actor must match current form holder for decision: holder='" holder
      (quoted "' actor='" actor "'"))

-- May this actor decide? Nobody holds the form, or the actor does.
abbrev pub may_decide : Option String → String → Bool
may_decide none actor = true
may_decide (some holder) actor = is_empty holder || str_eq holder actor

abbrev no_form : String → Error
no_form form_id = http 404 (quoted "form '" form_id "' not found")

abbrev no_definition : String → String → Error
no_definition key version =
    http 404 (quoted "form type definition missing for '" key (quoted "' version '" version "'"))

-- The checks before the transition, in their order.
unfoldable pub authorize : FormLedger → String → FormTypes → Result FormTypeDefinition
authorize form actor types =
    let key = or_else form.form_type_key "" in
    let version = or_else form.form_type_version "" in
    require (is_truthy form.form_type_key && is_truthy form.form_type_version) unbound (
      require (may_decide form.current_holder_node actor)
        (not_holder (or_else form.current_holder_node "") actor)
        (or_raise (no_definition key version)
          (get_form_type_definition key (some version) false types)))

unfoldable pub lookup_form : String → Ledger → String → Result (FormLedger × String)
lookup_form actor ledger form_id = elim (get_form_ledger form_id ledger.forms) [
  | none ↦ raise (no_form form_id)
  | some form ↦ done (form, actor)
]

unfoldable pub with_actor :
    TransitionRequest → List Node → Ledger → String → Result (FormLedger × String)
with_actor request nodes ledger form_id =
    resolve_actor_node_id request.actor_node_id request.actor_node_name nodes >>= λ actor.
    lookup_form actor ledger form_id

unfoldable pub find_form : TransitionRequest → List Node → Ledger → Result (FormLedger × String)
find_form request nodes ledger =
    require_text request.form_id "form_id" >>= with_actor request nodes ledger

-- `_transition_form`
unfoldable pub transition_form :
    (Json → String)
    → TransitionRequest
    → List Node
    → FormTypes
    → Ledger
    → Result FormLedger × Ledger
transition_form repr request nodes types ledger = elim (find_form request nodes ledger) [
  | raise e ↦ (raise e, ledger)
  | done (form, actor) ↦ elim (authorize form actor types) [
    | raise e ↦ (raise e, ledger)
    | done definition ↦ transition_with_graph repr request form definition actor nodes ledger
  ]
]
