-- ===== src/Tests/Forms.antt =====
-- Examples for the forms.
use omni_claw.Prelude.{
  decimal, String, ◌≡◌, ◌≢◌, refl, true, false, none, some, [], ◌∷◌, ◌++◌, or_else, arith, str_eq,
  eq_iff, any_where, where_true,
}
use omni_claw.Result.{Result, done, raise, transition_conflict}
use omni_claw.Forms.Json.{Json, text, object, member, no_members, Members}
use omni_claw.Forms.Types.{
  FormTypes, FormTypeDefinition, draft, active, is_active_of, set_state, get_form_type_definition,
  set_form_type_lifecycle,
}
use omni_claw.Forms.Lifecycle.{UniqueVersions, set_form_type_lifecycle-active}
use omni_claw.Forms.Registry.{call_registry, upsert, call_registry-UniqueVersions}
use omni_claw.Forms.Ledger.{
  FormLedger, FormTransitionEvent, Ledger, NewForm, Details, Transition, set_status, has_form_id,
  conflict, create_form_instance, transition_form_instance,
}
use omni_claw.Forms.Traced.{IsTraced, transition_form_instance-IsTraced}
use omni_claw.Forms.Created.{Fits, create_form_instance-IsTraced}
use omni_claw.Forms.Conflicts.{
  transition_form_instance-conflict, transition_form_instance-set_status,
}
use omni_claw.Forms.Workflow.{TransitionRequest, transition_form}
use omni_claw.Forms.Requests.{transition, Untouched, call_form-IsTraced}
use omni_claw.Forms.Ids
use omni_claw.Forms.Ledger
use omni_claw.Forms.Graph
use omni_claw.Forms.Routes
use omni_claw.Forms.Workflow
use omni_claw.Tests.Data.{nodes}

abbrev graph : Members
graph = member "start_stage" (text "draft") (
    member "stages"
      (object (
        member "draft"
          (object
            (member "decisions" (object (member "send" (text "review") no_members)) no_members))
          (member "review" (object (member "target" (text "{{initiator}}") no_members))
            no_members)))
      no_members)

abbrev definition : FormTypeDefinition
definition = record {
  type_key = "memo";
  version = "1.0.0";
  lifecycle_state = draft;
  description = none;
  workflow_graph = graph;
  stage_metadata = no_members;
  validation_errors = none;
}

abbrev types : FormTypes
types = definition ∷ []

at_most_one : UniqueVersions types
at_most_one k v = ground arith

set_form_type_lifecycle-active_example :
    let (result, table') = set_form_type_lifecycle "memo" "1.0.0" active none true types in
    let now = set_state active none definition in
    (result ≡ done now)
    × (where_true (is_active_of "memo") table' ≡ now ∷ [])
    × (get_form_type_definition "memo" none true table' ≡ some now)
set_form_type_lifecycle-active_example =
    set_form_type_lifecycle-active "memo" "1.0.0" none types definition at_most_one refl

abbrev no_details : Details
no_details = record {
  message_name = none;
  sender_node_id = none;
  target_node_id = none;
  subject = none;
  source_path = none;
  delivery_path = none;
  archive_path = none;
  dead_letter_path = none;
  failure_reason = none;
  queued_at = none;
  routed_at = none;
  archived_at = none;
  dead_lettered_at = none;
}

abbrev memo : NewForm
memo = record {
  form_id_hint = " First Memo.md";
  form_type_key = "memo";
  form_type_version = "1.0.0";
  current_status = "draft";
  current_holder_node = some "a";
  actor_node_id = some "a";
  decision_key = none;
  event_payload = none;
  details = no_details;
  at = 7;
}

abbrev empty : Ledger
empty = record { forms = []; events = [] }

empty-IsTraced : IsTraced empty
empty-IsTraced = record { apart = tt; traced = tt; owned = tt }

abbrev created : FormLedger × Ledger
created = or_else (create_form_instance 1 memo empty) (
  record {
    form_id = "";
    type = "";
    form_type_key = none;
    form_type_version = none;
    current_status = "";
    current_holder_node = none;
    details = no_details;
    version = 0;
    history_log = [];
  },
  empty,
)

creates : create_form_instance 1 memo empty ≡ some created
unfolding create_form_instance Ids.next_available_form_id Ids.find_form_id
creates = refl

created-IsTraced : IsTraced created.1
unfolding create_form_instance Ids.next_available_form_id Ids.find_form_id
created-IsTraced = (create_form_instance-IsTraced 1 memo empty empty-IsTraced).0

-- A second form with the same hint: its first id is in use.
abbrev created_again : FormLedger × Ledger
created_again = or_else (create_form_instance 2 memo created.1) created

second_id : created_again.0.form_id ≡ "first-memo-2"
unfolding create_form_instance Ids.next_available_form_id Ids.find_form_id
    Ids.normalize_form_id_hint Ids.clean_form_id decimal
second_id = refl

create_form_instance-IsTraced_example :
    IsTraced created_again.1
    × Fits created_again.0.form_id
    × (any_where (has_form_id created_again.0.form_id) created.1.forms ≡ false)
unfolding create_form_instance Ids.next_available_form_id Ids.find_form_id
    Ids.normalize_form_id_hint Ids.clean_form_id decimal
create_form_instance-IsTraced_example =
    create_form_instance-IsTraced 2 memo created.1 created-IsTraced

abbrev send : Transition
send = record {
  form_id = "first-memo";
  expected_from_status = "draft";
  to_status = "review";
  new_holder_node_id = some "b";
  actor_node_id = some "a";
  decision_key = some "send";
  event_payload = none;
  set_fields = [];
  at = 9;
}

transition_form_instance-IsTraced_example : IsTraced (transition_form_instance send created.1).1
transition_form_instance-IsTraced_example =
    transition_form_instance-IsTraced send created.1 tt created-IsTraced

abbrev entry_of : Result FormLedger → FormLedger
entry_of (done f) = f
entry_of (raise e) = created.0

abbrev sent : FormLedger
sent = entry_of (transition_form_instance send created.1).0

abbrev after_send : Ledger
after_send = (transition_form_instance send created.1).1

sends : transition_form_instance send created.1 ≡ (done sent, after_send)
unfolding transition_form_instance create_form_instance Ledger.get_form_ledger
    Ids.next_available_form_id Ids.find_form_id Ids.normalize_form_id_hint Ids.clean_form_id
    Ledger.move_entry Ledger.apply_settings
sends = refl

ne : (a b : String) → str_eq a b ≡ false → a ≢ b
ne a b h = ground (arith, eq_iff a b)

transition_form_instance-conflict_example :
    transition_form_instance send after_send
    ≡ (raise (transition_conflict (conflict send sent)), after_send)
transition_form_instance-conflict_example =
    transition_form_instance-conflict send send created.1 sent after_send tt sends refl refl
      (ne "review" "draft" refl)

abbrev forged : Transition
forged = record send { set_fields = set_status "APPROVED" ∷ [] }

abbrev forged_entry : FormLedger
forged_entry = entry_of (transition_form_instance forged created.1).0

abbrev after_forged : Ledger
after_forged = (transition_form_instance forged created.1).1

forges : transition_form_instance forged created.1 ≡ (done forged_entry, after_forged)
unfolding transition_form_instance create_form_instance Ledger.get_form_ledger
    Ids.next_available_form_id Ids.find_form_id Ids.normalize_form_id_hint Ids.clean_form_id
    Ledger.move_entry Ledger.apply_settings
forges = refl

transition_form_instance-set_status_example :
    (forged_entry.current_status ≡ "APPROVED")
    × (e : FormTransitionEvent) × (after_forged.events ≡ created.1.events ++ (e ∷ []))
    × (e.to_status ≡ "review")
transition_form_instance-set_status_example =
    transition_form_instance-set_status forged "APPROVED" created.1 forged_entry after_forged refl
      forges

abbrev request : TransitionRequest
request = record {
  form_id = some "first-memo";
  actor_node_id = some "a";
  actor_node_name = none;
  decision_key = some "send";
  to_status = none;
  context = member "initiator_node_id" (text "b") no_members;
  payload = none;
  set_fields = [];
  at = 9;
}

abbrev repr : Json → String
repr v = "{}"

abbrev outcome : Result FormLedger × Ledger
outcome = transition_form repr request nodes types created.1

call_form-IsTraced_example : IsTraced outcome.1 × Untouched created.1 outcome
call_form-IsTraced_example =
    call_form-IsTraced 1 repr nodes types (transition request) created.1 tt created-IsTraced

call_registry-UniqueVersions_example :
    UniqueVersions (call_registry (upsert "memo" "1.1.0" draft graph no_members none none) types)
call_registry-UniqueVersions_example =
    call_registry-UniqueVersions (upsert "memo" "1.1.0" draft graph no_members none none) types
      at_most_one
