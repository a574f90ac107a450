-- ===== src/Forms/Routes.antt =====
-- Where a form may go next: the edges of its workflow that fit, and the next holder
-- (src/omniclaw/forms/service.py, `_resolve_edge`, `_resolve_next_holder`). The text that Python gives
-- for a list or a dictionary is a parameter, `repr`.
use omni_claw.Prelude.{
  String, str_append, Bool, true, false, ◌&&◌, Option, none, some, List, [], ◌∷◌, str_eq, is_empty,
  strip, decimal, length, is_some, if◌then◌else◌,
}
use omni_claw.Result.{Result, raise, done, ◌>>=◌, require, Error, http}
use omni_claw.Org.Nodes.{Node, get_node, list_nodes_by_name}
use omni_claw.Forms.Json.{
  Json, null, boolean, number, text, array, object, Items, no_items, item, Members, field,
  is_text_of, is_true,
}
use omni_claw.Forms.Ledger.{FormLedger}

abbrev pub bad : String → Error
bad detail = http 400 detail

abbrev pub quoted : String → String → String → String
quoted before raw after = str_append before (str_append raw after)

-- The text of an optional value in an f-string.
abbrev shown : Option String → String
shown none = "None"
shown (some s) = s

abbrev pub str_of : (Json → String) → Json → String
str_of repr null = "None"
str_of repr (boolean true) = "True"
str_of repr (boolean false) = "False"
str_of repr (number s) = s
str_of repr (text s) = s
str_of repr v = repr v

-- `str(value or "")`
abbrev pub str_or_empty : (Json → String) → Json → String
str_or_empty repr v = if is_true v then str_of repr v else ""

abbrev leads : Json → Option String → Bool
leads v none = true
leads v (some s) = is_text_of s v

-- Is this an edge that the request can mean?
abbrev pub is_candidate : String → Option String → Option String → Json → Bool
is_candidate from decision_key to_status (object e) =
    is_text_of from (field "from" e)
    && (leads (field "decision" e) decision_key && leads (field "to" e) to_status)
is_candidate from decision_key to_status v = false

unfoldable pub candidates : String → Option String → Option String → Items → List Json
candidates from decision_key to_status no_items = []
candidates from decision_key to_status (item v more) =
    let rest = candidates from decision_key to_status more in
    if is_candidate from decision_key to_status v then v ∷ rest else rest

abbrev no_edge : String → Option String → Option String → Error
no_edge from decision_key to_status = bad (
    quoted "no decision edge found from status '" from (
      quoted "' for decision '" (shown decision_key)
        (quoted "' and to_status '" (shown to_status) "'")))

abbrev ambiguous : String → Error
ambiguous from = bad (
    quoted "ambiguous decision from status '" from
      "'; specify to_status or decision_key more precisely")

abbrev pub the_candidate : String → Option String → Option String → List Json → Result Json
the_candidate from decision_key to_status [] = raise (no_edge from decision_key to_status)
the_candidate from decision_key to_status (e ∷ []) = done e
the_candidate from decision_key to_status (e ∷ f ∷ r) = raise (ambiguous from)

abbrev pub edge_among : String → Option String → Option String → Json → Result Json
edge_among from decision_key to_status (array edges) =
    the_candidate from decision_key to_status (candidates from decision_key to_status edges)
edge_among from decision_key to_status _ = raise (bad "workflow graph edges are invalid")

unfoldable pub resolve_edge : Members → String → Option String → Option String → Result Json
resolve_edge graph from decision_key to_status =
    edge_among from decision_key to_status (field "edges" graph)

unfoldable pub require_node : String → List Node → Result (Unit {0})
require_node node_id nodes = get_node (some node_id) none none nodes >>= λ found.
    require (is_some found) (bad (quoted "node '" node_id "' not found")) (done tt)

abbrev pub unique_id : String → List Node → Result String
unique_id name [] = raise (bad (quoted "node name '" name "' not found"))
unique_id name (n ∷ []) = done n.id
unique_id name (n ∷ m ∷ r) = raise (
    bad (
      quoted "node name '" name (
        quoted "' is not unique (" (decimal (length (n ∷ m ∷ r)))
          " matches); use static_node with explicit node id")))

unfoldable pub resolve_unique_node_id_by_name : String → List Node → Result String
resolve_unique_node_id_by_name name nodes = unique_id name (list_nodes_by_name name nodes)

abbrev str_if_given : (Json → String) → Json → Option String
str_if_given repr null = none
str_if_given repr v = some (str_of repr v)

-- What the strategy of the rule says, before the node is looked up.
unfoldable pub apply_strategy :
    (Json → String)
    → Option String
    → String
    → Json
    → Option String
    → Members
    → List Node
    → Result (Option String)
apply_strategy repr holder strategy value actor_node_id context nodes =
    let by_name : Result (Option String) = elim value [
      | text s ↦
          (if is_empty (strip s)
            then raise (bad "static_node_name strategy requires non-empty value")
            else (resolve_unique_node_id_by_name (strip s) nodes >>= λ id. done (some id)))
      | _ ↦ raise (bad "static_node_name strategy requires non-empty value")
    ] in
    let by_field : Result (Option String) = elim value [
      | text s ↦
          (if is_empty s
            then raise (bad "field_ref strategy requires non-empty value")
            else done (str_if_given repr (field s context)))
      | _ ↦ raise (bad "field_ref strategy requires non-empty value")
    ] in
    if str_eq strategy "none"
    then done none
    else if str_eq strategy "static_node"
    then done (str_if_given repr value)
    else if str_eq strategy "static_node_name"
    then by_name
    else if str_eq strategy "field_ref"
    then by_field
    else if str_eq strategy "previous_holder"
    then done holder
    else if str_eq strategy "previous_actor"
    then done actor_node_id
    else raise (bad (quoted "unsupported next_holder strategy '" strategy "'"))

abbrev pub check_resolved : List Node → Option String → Result (Option String)
check_resolved nodes none = done none
check_resolved nodes (some id) = require_node id nodes >>= λ _. done (some id)

abbrev pub rule_of : Json → Json
rule_of (object e) = field "next_holder" e
rule_of _ = null

abbrev pub holder_by :
    (Json → String)
    → Option String
    → Json
    → Option String
    → Members
    → List Node
    → Result (Option String)
holder_by repr holder (object rule) actor_node_id context nodes =
    apply_strategy repr holder (str_or_empty repr (field "strategy" rule)) (field "value" rule)
      actor_node_id context nodes
holder_by repr holder _ actor_node_id context nodes =
    raise (bad "decision edge missing next_holder rule")

unfoldable pub resolve_next_holder :
    (Json → String)
    → FormLedger
    → Json
    → Option String
    → Members
    → List Node
    → Result (Option String)
resolve_next_holder repr form edge actor_node_id context nodes =
    holder_by repr form.current_holder_node (rule_of edge) actor_node_id context nodes
    >>= check_resolved nodes
