-- ===== src/Forms/Ledger.antt =====
-- The tables `forms_ledger` and `form_transition_events` (src/omniclaw/db/models.py) and the methods
-- that write them (src/omniclaw/db/repository.py). Each method is one transaction; where it raises
-- before the commit the tables stay as they were.
use omni_claw.Prelude.{
  ℕ, suc, ◌+◌, String, str_append, Bool, Option, none, some, List, [], ◌∷◌, ◌++◌, str_eq, max,
  any_where, first_where, where_true, update_first, if◌then◌else◌, not, ◌&&◌,
}
use omni_claw.Result.{Result, raise, done, value_error, transition_conflict}
use omni_claw.Forms.Json.{Json}
use omni_claw.Forms.Ids.{next_available_form_id}

-- The columns that the workflow itself does not read.
pub record Details : Type 0 where
  pub message_name : Option String
  pub sender_node_id : Option String
  pub target_node_id : Option String
  pub subject : Option String
  pub source_path : Option String
  pub delivery_path : Option String
  pub archive_path : Option String
  pub dead_letter_path : Option String
  pub failure_reason : Option String
  pub queued_at : Option ℕ
  pub routed_at : Option ℕ
  pub archived_at : Option ℕ
  pub dead_lettered_at : Option ℕ

-- `history_log` is kept decoded: a status and an instant for each entry.
pub record FormLedger : Type 0 where
  pub form_id : String
  pub type : String
  pub form_type_key : Option String
  pub form_type_version : Option String
  pub current_status : String
  pub current_holder_node : Option String
  pub details : Details
  pub version : ℕ
  pub history_log : List (String × ℕ)

pub record FormTransitionEvent : Type 0 where
  pub form_id : String
  pub sequence : ℕ
  pub from_status : Option String
  pub to_status : String
  pub decision_key : Option String
  pub actor_node_id : Option String
  pub previous_holder_node_id : Option String
  pub new_holder_node_id : Option String
  pub payload : Option Json
  pub created_at : ℕ

pub record Ledger : Type 0 where
  pub forms : List FormLedger
  pub events : List FormTransitionEvent

abbrev pub has_form_id : String → FormLedger → Bool
has_form_id form_id f = str_eq f.form_id form_id

abbrev pub of_form : String → FormTransitionEvent → Bool
of_form form_id e = str_eq e.form_id form_id

unfoldable pub get_form_ledger : String → List FormLedger → Option FormLedger
get_form_ledger form_id forms = first_where (has_form_id form_id) forms

-- In the order of the sequence, which is the order of insertion.
unfoldable pub list_form_transition_events :
    String → List FormTransitionEvent → List FormTransitionEvent
list_form_transition_events form_id events = where_true (of_form form_id) events

-- The arguments of `create_form_instance`; `at` is the time of the event.
pub record NewForm : Type 0 where
  pub form_id_hint : String
  pub form_type_key : String
  pub form_type_version : String
  pub current_status : String
  pub current_holder_node : Option String
  pub actor_node_id : Option String
  pub decision_key : Option String
  pub event_payload : Option Json
  pub details : Details
  pub at : ℕ

abbrev pub new_entry : String → NewForm → FormLedger
new_entry form_id n = record {
  form_id = form_id;
  type = n.form_type_key;
  form_type_key = some n.form_type_key;
  form_type_version = some n.form_type_version;
  current_status = n.current_status;
  current_holder_node = n.current_holder_node;
  details = n.details;
  version = 1;
  history_log = (n.current_status, n.at) ∷ [];
}

abbrev pub first_event : String → NewForm → FormTransitionEvent
first_event form_id n = record {
  form_id = form_id;
  sequence = 1;
  from_status = none;
  to_status = n.current_status;
  decision_key = n.decision_key;
  actor_node_id = n.actor_node_id;
  previous_holder_node_id = none;
  new_holder_node_id = n.current_holder_node;
  payload = n.event_payload;
  created_at = n.at;
}

-- `none`: the search for a free id ran out of fuel.
unfoldable pub create_form_instance : ℕ → NewForm → Ledger → Option (FormLedger × Ledger)
create_form_instance fuel n ledger =
    elim (next_available_form_id fuel (λ id. any_where (has_form_id id) ledger.forms)
      n.form_id_hint) [
        | none ↦ none
        | some form_id ↦ some (
          new_entry form_id n,
          record {
            forms = ledger.forms ++ (new_entry form_id n ∷ []);
            events = ledger.events ++ (first_event form_id n ∷ []);
          },
        )
      ]

-- An entry of `set_fields`, with a value of the column's type; `other` is a name that is no column.
-- An attribute that is not kept here is a `set_details` that changes nothing. The version counter, which
-- the database library keeps itself, is left out.
pub data Setting : Type 0 where
  set_status : String → Setting
  set_form_id set_type : String → Setting
  set_holder set_type_key set_type_version : Option String → Setting
  set_history : List (String × ℕ) → Setting
  set_details : (Details → Details) → Setting
  other : String → Setting

abbrev unknown : String → String
unknown key = str_append "unknown forms_ledger field '" (str_append key "'")

-- The loop over `set_fields`.
unfoldable pub apply_settings : List Setting → FormLedger → Result FormLedger
apply_settings [] entry = done entry
apply_settings (set_status s ∷ r) entry = apply_settings r (record entry { current_status = s })
apply_settings (set_form_id k ∷ r) entry = apply_settings r (record entry { form_id = k })
apply_settings (set_holder h ∷ r) entry =
    apply_settings r (record entry { current_holder_node = h })
apply_settings (set_type k ∷ r) entry = apply_settings r (record entry { type = k })
apply_settings (set_type_key k ∷ r) entry = apply_settings r (record entry { form_type_key = k })
apply_settings (set_type_version v ∷ r) entry =
    apply_settings r (record entry { form_type_version = v })
apply_settings (set_history h ∷ r) entry = apply_settings r (record entry { history_log = h })
apply_settings (set_details f ∷ r) entry =
    apply_settings r (record entry { details = f entry.details })
apply_settings (other key ∷ r) entry = raise (value_error (unknown key))

-- `max(sequence)` of the form's events, 0 where it has none.
unfoldable pub max_sequence : String → List FormTransitionEvent → ℕ
max_sequence form_id [] = 0
max_sequence form_id (e ∷ events) =
    let rest = max_sequence form_id events in
    if of_form form_id e then max e.sequence rest else rest

-- The arguments of `transition_form_instance`.
pub record Transition : Type 0 where
  pub form_id : String
  pub expected_from_status : String
  pub to_status : String
  pub new_holder_node_id : Option String
  pub actor_node_id : Option String
  pub decision_key : Option String
  pub event_payload : Option Json
  pub set_fields : List Setting
  pub at : ℕ

abbrev pub conflict : Transition → FormLedger → String
conflict t entry = str_append "concurrent transition conflict: expected status '" (
    str_append t.expected_from_status (str_append "', got '" (str_append entry.current_status "'")))

abbrev pub missing : String → String
missing form_id = str_append "form '" (str_append form_id "' not found")

-- The entry with its new status and holder, before `set_fields`.
abbrev pub moved : Transition → FormLedger → FormLedger
moved t entry = record entry {
  current_status = t.to_status;
  current_holder_node = t.new_holder_node_id;
}

-- The history grows, and the commit counts the version of the row up.
abbrev pub logged : Transition → FormLedger → FormLedger
logged t entry = record entry {
  history_log = entry.history_log ++ ((t.to_status, t.at) ∷ []);
  version = suc entry.version;
}

abbrev pub transition_event : Transition → FormLedger → ℕ → FormTransitionEvent
transition_event t entry sequence = record {
  form_id = t.form_id;
  sequence = sequence;
  from_status = some entry.current_status;
  to_status = t.to_status;
  decision_key = t.decision_key;
  actor_node_id = t.actor_node_id;
  previous_holder_node_id = entry.current_holder_node;
  new_holder_node_id = t.new_holder_node_id;
  payload = t.event_payload;
  created_at = t.at;
}

abbrev pub commit : Transition → FormLedger → FormLedger → Ledger → Ledger
commit t entry now ledger = record {
  forms = update_first (has_form_id t.form_id) (λ f. now) ledger.forms;
  events =
      ledger.events ++ (transition_event t entry (max_sequence t.form_id ledger.events + 1) ∷ []);
}

abbrev pub clash : Transition → String
clash t = str_append "concurrent transition conflict for form '" (str_append t.form_id "'")

-- The new id is that of another form: the commit breaks the primary key.
abbrev pub clashes : Transition → FormLedger → Ledger → Bool
clashes t set ledger =
    not (str_eq set.form_id t.form_id) && any_where (has_form_id set.form_id) ledger.forms

unfoldable pub move_entry : Transition → FormLedger → Ledger → Result FormLedger × Ledger
move_entry t entry ledger = elim (apply_settings t.set_fields (moved t entry)) [
  | raise e ↦ (raise e, ledger)
  | done set ↦
      let written : Result FormLedger × Ledger =
        (done (logged t set), commit t entry (logged t set) ledger) in
      if clashes t set ledger then (raise (transition_conflict (clash t)), ledger) else written
]

unfoldable pub transition_form_instance : Transition → Ledger → Result FormLedger × Ledger
transition_form_instance t ledger = elim (get_form_ledger t.form_id ledger.forms) [
  | none ↦ (raise (value_error (missing t.form_id)), ledger)
  | some entry ↦
      let moved_entry = move_entry t entry ledger in
      if str_eq entry.current_status t.expected_from_status
      then moved_entry
      else (raise (transition_conflict (conflict t entry)), ledger)
]
