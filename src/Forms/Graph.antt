-- ===== src/Forms/Graph.antt =====
-- A workflow graph in its flat form: edges between statuses, each with the rule for the next holder
-- (src/omniclaw/forms/service.py, `_project_workflow_graph` and what it calls).
use omni_claw.Prelude.{
  ℕ, String, code, str_append, Bool, true, false, ◌&&◌, ◌||◌, not, Option, none, some, str_eq, leb,
  ◌==◌, is_empty, is_digit, strip, if◌then◌else◌,
}
use omni_claw.Org.References.{looks_like_uuid}
use omni_claw.Forms.Ids.{lower}
use omni_claw.Forms.Json.{
  Json, null, boolean, text, array, object, Items, no_items, item, Members, no_members, member,
  field, filled_text, is_true,
}

abbrev pub one : String → Json → Json
one k v = object (member k v no_members)

abbrev pub two : String → Json → String → Json → Json
two k v j w = object (member k v (member j w no_members))

abbrev is_name_start : ℕ → Bool
is_name_start c = leb b'a' c && leb c b'z' || leb b'A' c && leb c b'Z' || c == b'_'

-- The name in a text that goes on with a name and then "}}" to its end.
unfoldable pub name_before_braces : Bool → String → Option String
name_before_braces first String.[] = none
name_before_braces first (String.◌∷◌ c s) =
    let rest = name_before_braces false s in
    if is_name_start (code c) || (not first && is_digit (code c))
    then elim rest [ none ↦ none | some name ↦ some (String.◌∷◌ c name) ]
    else if not first && str_eq (String.◌∷◌ c s) "}}"
    then some ""
    else none

-- `re.fullmatch(r"\{\{([a-zA-Z_][a-zA-Z0-9_]*)\}\}", target)`
abbrev pub variable_name : String → Option String
variable_name String.[] = none
variable_name (String.◌∷◌ c String.[]) = none
variable_name (String.◌∷◌ c (String.◌∷◌ d s)) =
    let name = name_before_braces true s in if code c == b'{' && code d == b'{' then name else none

unfoldable pub rule_from_target : String → Json
unfolding lower
rule_from_target target =
    if str_eq (lower target) "none"
      || str_eq (lower target) "null"
      || str_eq (lower target) "{{none}}"
    then one "strategy" (text "none")
    else if str_eq target "{{initiator}}"
    then two "strategy" (text "field_ref") "value" (text "initiator_node_id")
    else if str_eq target "{{any}}"
    then two "strategy" (text "field_ref") "value" (text "target_node_id")
    else elim (variable_name target) [
      | some name ↦ two "strategy" (text "field_ref") "value" (text (str_append name "_node_id"))
      | none ↦
          two "strategy"
            (text (if looks_like_uuid target then "static_node" else "static_node_name")) "value"
            (text target)
    ]

unfoldable pub holder_rule_from_stage_target : Json → Json
holder_rule_from_stage_target target_value = elim (filled_text target_value) [
  | none ↦ one "strategy" (text "none")
  | some target ↦ rule_from_target (strip target)
]

abbrev pub first_terminal : Members → Json
first_terminal no_members = null
first_terminal (member k (object m) rest) = elim (field "is_terminal" m) [
  | boolean true ↦ text k
  | _ ↦ first_terminal rest
]
first_terminal (member k v rest) = first_terminal rest

-- `_infer_stage_graph_end_stage`, where the graph has the stages.
unfoldable pub infer_end_stage : Members → Members → Json
infer_end_stage graph stages = elim (filled_text (field "end_stage" graph)) [
  | some s ↦ text (strip s)
  | none ↦ first_terminal stages
]

-- `_stage_decisions`
unfoldable pub stage_decisions : Members → Json
stage_decisions stage = elim (field "decisions" stage) [ null ↦ field "transitions" stage | v ↦ v ]

abbrev pub edge : Json → Json → Json → Json → Json
edge from to decision holder = object (
    member "from" from
      (member "to" to (member "decision" decision (member "next_holder" holder no_members))))

-- The holder rule of the stage to which a decision leads.
abbrev pub target_rule : Json → Json
target_rule (object stage) = holder_rule_from_stage_target (field "target" stage)
target_rule _ = holder_rule_from_stage_target null

-- One edge for each decision that has a name and a stage to go to, before the rest of the edges.
unfoldable pub decision_edges : Members → String → Members → Items → Items
decision_edges stages stage_name no_members rest = rest
decision_edges stages stage_name (member decision next more) rest =
    let others = decision_edges stages stage_name more rest in
    elim (filled_text next) [
      | none ↦ others
      | some to ↦
          if is_empty (strip decision)
          then others
          else item
              (edge (text stage_name) (text to) (text (strip decision))
                (target_rule (field to stages)))
              others
    ]

-- The loop over the stages.
unfoldable pub stage_edges : Members → Members → Items
stage_edges stages no_members = no_items
stage_edges stages (member name (object stage) more) =
    let others = stage_edges stages more in
    elim (stage_decisions stage) [
      | object decisions ↦ decision_edges stages name decisions others
      | _ ↦ others
    ]
stage_edges stages (member name v more) = stage_edges stages more

abbrev pub first_name : Members → Json
first_name no_members = null
first_name (member k v m) = text k

abbrev start_of : Json → Members → Json
start_of start stages = elim (filled_text start) [ some s ↦ start | none ↦ first_name stages ]

abbrev or_end : Json → Json → Json
or_end archive end_status = if is_true archive then archive else end_status

abbrev flat : Json → Items → Members → Json → Members
flat initial edges graph end_status = member "initial_status" initial (
    member "edges" (array edges) (
      member "dispatch_decision" (field "dispatch_decision" graph) (
        member "acknowledge_decision" (field "acknowledge_decision" graph) (
          member "archive_status" (or_end (field "archive_status" graph) end_status)
            (member "end_status" end_status no_members)))))

unfoldable pub project_stage_graph : Members → Members → Members
project_stage_graph graph stages =
    flat (start_of (field "start_stage" graph) stages) (stage_edges stages stages) graph
      (infer_end_stage graph stages)

-- `status_by_node_key`
unfoldable pub node_status : Json → Option String
node_status (object node) = elim (filled_text (field "status" node)) [
  | none ↦ none
  | some s ↦ some (strip s)
]
node_status _ = none

abbrev status_of_key : Members → Json → Option String
status_of_key nodes (text k) = node_status (field k nodes)
status_of_key nodes _ = none

-- The holder of the node that is gone to, or the edge's own rule.
abbrev node_holder : Members → Json → Members → Json
node_holder nodes (text k) e = elim (field k nodes) [
  | object node ↦ elim (field "holder" node) [
    | object rule ↦ object rule
    | _ ↦ field "next_holder" e
  ]
  | _ ↦ field "next_holder" e
]
node_holder nodes _ e = field "next_holder" e

unfoldable pub node_edges : Members → Items → Items
node_edges nodes no_items = no_items
node_edges nodes (item (object e) more) =
    let others = node_edges nodes more in
    elim (status_of_key nodes (field "from" e)) [
      | none ↦ others
      | some from ↦ elim (status_of_key nodes (field "to" e)) [
        | none ↦ others
        | some to ↦
            item
              (edge (text from) (text to) (field "decision" e) (node_holder nodes (field "to" e) e))
              others
      ]
    ]
node_edges nodes (item v more) = node_edges nodes more

abbrev edges_in : Json → Members → Items
edges_in (array edges) nodes = node_edges nodes edges
edges_in _ nodes = no_items

abbrev text_or_null : Option String → Json
text_or_null none = null
text_or_null (some s) = text s

unfoldable pub project_node_graph : Members → Members → Members
project_node_graph graph nodes =
    let end_status = text_or_null (status_of_key nodes (field "end_node" graph)) in
    flat (text_or_null (status_of_key nodes (field "start_node" graph)))
      (edges_in (field "edges" graph) nodes) graph end_status

-- The first component of `_project_workflow_graph`.
unfoldable pub project_workflow_graph : Members → Members
project_workflow_graph graph = elim (field "stages" graph) [
  | object stages ↦ project_stage_graph graph stages
  | _ ↦ elim (field "nodes" graph) [ object nodes ↦ project_node_graph graph nodes | _ ↦ graph ]
]
