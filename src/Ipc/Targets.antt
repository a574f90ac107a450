-- ===== src/Ipc/Targets.antt =====
-- Who may start a form, and to which node a stage leads (src/omniclaw/ipc/service.py,
-- `_resolve_initiator_node_id`, `_is_allowed_initiator`, `_resolve_target_node`).
use omni_claw.Prelude.{
  ℕ, suc, String, str_append, Bool, true, false, Option, none, some, List, [], ◌∷◌, str_eq,
  any_where, decimal, is_truthy, or_else, strip, dict_get, dict_put, dict_update, if◌then◌else◌,
}
use omni_claw.Result.{raise, done}
use omni_claw.Org.Nodes.{Node, get_node}
use omni_claw.Org.References.{Lookup, found, resolve_unique_node_reference, lookup_error}
use omni_claw.Forms.Json.{Json, null, array, Items, no_items, item, filled_text}
use omni_claw.Forms.Graph.{variable_name}
use omni_claw.Forms.Ledger.{FormLedger, Ledger, get_form_ledger}
use omni_claw.Ipc.Outcome.{Checked, refused, accepted, ◌>>=◌, or_refuse}
use omni_claw.Ipc.Frontmatter.{Fields}
use omni_claw.Ipc.Stages.{filled, first_filled, is_no_target}

-- `get_node(node_id=…)` with an id that is not empty.
abbrev pub node_by_id : String → List Node → Option Node
node_by_id id nodes = elim (get_node (some id) none none nodes) [ done n ↦ n | raise e ↦ none ]

abbrev pub checked_lookup : String → Lookup → Checked Node
checked_lookup value (found n) = accepted n
checked_lookup value other = refused (or_else (lookup_error value other) "")

-- `_resolve_node_reference`
abbrev pub resolve_node_reference : String → List Node → Checked Node
resolve_node_reference value nodes =
    checked_lookup value (resolve_unique_node_reference value nodes)

abbrev pub in_quotes : String → String → String → String
in_quotes before raw after = str_append before (str_append raw after)

-- `_resolve_existing_form`
unfoldable pub resolve_existing_form : Fields → Ledger → Checked (Option FormLedger)
resolve_existing_form fields ledger = elim (filled "form_id" fields) [
  | none ↦ accepted none
  | some id ↦ elim (get_form_ledger id ledger.forms) [
    | none ↦ refused (in_quotes "form_id '" id "' not found")
    | some form ↦ accepted (some form)
  ]
]

abbrev sender_of : Option FormLedger → Option String
sender_of none = none
sender_of (some form) =
    if is_truthy form.details.sender_node_id then form.details.sender_node_id else none

abbrev named_initiator : Node → Fields → List Node → Checked String
named_initiator sender fields nodes = elim (filled "initiator" fields) [
  | none ↦ accepted sender.id
  | some raw ↦ elim (resolve_node_reference raw nodes) [
    | refused why ↦ refused (in_quotes "initiator '" raw "' could not be resolved")
    | accepted n ↦ accepted n.id
  ]
]

-- `_resolve_initiator_node_id`
unfoldable pub resolve_initiator_node_id :
    Node → Fields → Option FormLedger → List Node → Checked String
resolve_initiator_node_id sender fields existing nodes = elim (sender_of existing) [
  | some id ↦ accepted id
  | none ↦ elim (filled "initiator_node_id" fields) [
    | none ↦ named_initiator sender fields nodes
    | some raw ↦ elim (node_by_id raw nodes) [
      | none ↦ refused (in_quotes "initiator_node_id '" raw "' not found")
      | some n ↦ accepted n.id
    ]
  ]
]

abbrev invalid_at : ℕ → String
invalid_at index =
    in_quotes "workflow initiator_allowlist contains invalid reference at index " (decimal index)
      ": must be non-empty node name/id or '{{any}}'"

abbrev unresolved_at : ℕ → String → String
unresolved_at index reason =
    in_quotes "workflow initiator_allowlist[" (decimal index) (str_append "] invalid: " reason)

abbrev pub any_node : String
any_node = "{{any}}"

-- The loop over the list, with the ids so far: may the sender start the form?
unfoldable pub on_allowlist : Node → List Node → ℕ → List String → Items → Checked Bool
on_allowlist sender nodes index ids no_items = accepted (any_where (str_eq sender.id) ids)
on_allowlist sender nodes index ids (item v more) = elim (filled_text v) [
  | none ↦ refused (invalid_at index)
  | some raw ↦ elim (str_eq (strip raw) any_node) [
    | true ↦ accepted true
    | false ↦ elim (resolve_node_reference (strip raw) nodes) [
      | refused why ↦ refused (unresolved_at index why)
      | accepted n ↦ on_allowlist sender nodes (suc index) (n.id ∷ ids) more
    ]
  ]
]

abbrev empty_list : String
empty_list = "workflow initiator_allowlist must be a non-empty array when provided"

abbrev not_listed : Node → String
not_listed sender =
    in_quotes "sender '" sender.name
      "' is not allowed to initiate this form (not in workflow initiator_allowlist)"

abbrev listed : Node → Bool → Checked (Unit {0})
listed sender true = accepted tt
listed sender false = refused (not_listed sender)

-- `_is_allowed_initiator`
unfoldable pub is_allowed_initiator : Node → Json → List Node → Checked (Unit {0})
is_allowed_initiator sender null nodes = accepted tt
is_allowed_initiator sender (array (item v more)) nodes =
    on_allowlist sender nodes 0 [] (item v more) >>= listed sender
is_allowed_initiator sender _ nodes = refused empty_list

pub data TargetMode : Type 0 where
  no_holder single any_agent : TargetMode

pub record Target : Type 0 where
  pub node : Option Node
  pub mode : TargetMode
  pub context : Fields

abbrev pub no_target : Target
no_target = record { node = none; mode = no_holder; context = [] }

abbrev pub one_node : TargetMode → Node → Fields → Target
one_node mode n context = record { node = some n; mode = mode; context = context }

abbrev of_initiator : String → List Node → Checked Target
of_initiator initiator nodes =
    or_refuse "initiator_node_id points to unknown node" (node_by_id initiator nodes) >>= λ n.
    accepted (one_node single n (("initiator_node_id", n.id) ∷ []))

abbrev of_any : Fields → List Node → Checked Target
of_any fields nodes =
    or_refuse "target is required for stages targeting {{any}}"
      (first_filled (filled "target_node_id" fields) (filled "target" fields))
    >>= λ candidate.
        (resolve_node_reference candidate nodes >>= λ n.
        accepted (one_node any_agent n (("target_node_id", n.id) ∷ [])))

abbrev pub id_field : String → String
id_field name = str_append name "_node_id"

abbrev of_variable : String → String → Fields → List Node → Checked Target
of_variable target name fields nodes =
    or_refuse (in_quotes "target reference '" target "' requires frontmatter field")
      (first_filled (filled (id_field name) fields) (filled name fields))
    >>= λ candidate.
        (resolve_node_reference candidate nodes >>= λ n.
        accepted (one_node single n ((id_field name, n.id) ∷ [])))

-- A target that is not blank, stripped. A variable that is named "initiator" or "any" is one of the
-- two texts before.
unfoldable pub resolve_target : String → Fields → String → List Node → Checked Target
resolve_target target fields initiator nodes =
    if is_no_target target
    then accepted no_target
    else if str_eq target "{{initiator}}"
    then of_initiator initiator nodes
    else if str_eq target any_node
    then of_any fields nodes
    else elim (variable_name target) [
      | some name ↦ of_variable target name fields nodes
      | none ↦ resolve_node_reference target nodes >>= λ n. accepted (one_node single n [])
    ]

-- `_resolve_target_node`
unfoldable pub resolve_target_node : Json → Fields → String → List Node → Checked Target
resolve_target_node spec fields initiator nodes = elim (filled_text spec) [
  | none ↦ accepted no_target
  | some raw ↦ resolve_target (strip raw) fields initiator nodes
]

abbrev pub set_default : String → Option Node → Fields → Fields
set_default key none context = context
set_default key (some n) context = elim (dict_get key context) [
  | some v ↦ context
  | none ↦ dict_put key n.id context
]

-- The context of the transition.
unfoldable pub routing_context : String → Target → Fields
routing_context initiator target =
    set_default "target_node_id" target.node
      (dict_update (("initiator_node_id", initiator) ∷ []) target.context)
