-- ===== src/Ipc/Hints.antt =====
-- The hint for the reader of a routed form, who may act next (src/omniclaw/ipc/service.py,
-- `_build_target_agent_hint`, `_describe_stage_target`, `_describe_target_spec`), and the frontmatter
-- that is routed.
use omni_claw.Prelude.{
  String, str_append, Bool, not, Option, none, some, List, [], ◌∷◌, map, str_eq, is_empty, or_else,
  strip, any_where, where_true, join_lines, dict_put, dict_update, if◌then◌else◌,
}
use omni_claw.Org.Nodes.{Node}
use omni_claw.Forms.Json.{Json, Members, no_members, member, field, filled_text}
use omni_claw.Forms.Graph.{variable_name}
use omni_claw.Ipc.Outcome.{refused, accepted}
use omni_claw.Ipc.Frontmatter.{Fields}
use omni_claw.Ipc.Stages.{filled, first_filled, decisions_of, is_no_target}
use omni_claw.Ipc.Targets.{node_by_id, resolve_node_reference, id_field, any_node}
use omni_claw.Ipc.Plan.{Route, target_of}

abbrev name_or : String → Option Node → String
name_or other none = other
name_or other (some n) = n.name

abbrev by_reference : String → List Node → String
by_reference value nodes = elim (resolve_node_reference value nodes) [
  | refused why ↦ value
  | accepted n ↦ n.name
]

abbrev by_candidate : String → Option String → List Node → String
by_candidate target none nodes = target
by_candidate target (some candidate) nodes = by_reference candidate nodes

-- A target that is not blank, stripped.
unfoldable pub describe_target : String → Fields → String → List Node → String
describe_target target fields initiator nodes =
    if is_no_target target
    then "none"
    else if str_eq target "{{initiator}}"
    then name_or "{{initiator}}" (node_by_id initiator nodes)
    else if str_eq target any_node
    then any_node
    else elim (variable_name target) [
      | some name ↦
          by_candidate target (first_filled (filled (id_field name) fields) (filled name fields))
            nodes
      | none ↦ by_reference target nodes
    ]

-- `_describe_target_spec` of a stage's target
unfoldable pub describe_stage_target : Json → Fields → String → List Node → String
describe_stage_target stage fields initiator nodes = elim (filled_text (target_of stage)) [
  | none ↦ "none"
  | some raw ↦ describe_target (strip raw) fields initiator nodes
]

-- The decisions that have a name and a next stage, each with the label of its target.
unfoldable pub labels : Members → Members → Fields → String → List Node → List (String × String)
labels stages no_members fields initiator nodes = []
labels stages (member decision next more) fields initiator nodes =
    let rest = labels stages more fields initiator nodes in
    elim (filled_text next) [
      | none ↦ rest
      | some name ↦
          if is_empty (strip decision)
          then rest
          else (
            strip decision,
            describe_stage_target (field (strip name) stages) fields initiator nodes,
          )
            ∷ rest
    ]

abbrev label_line : String × String → String
label_line (decision, label) = str_append decision (str_append ": " label)

abbrev is_led : String × String → Bool
is_led (decision, label) = not (str_eq label "none")

-- `_build_target_agent_hint`
unfoldable pub build_target_agent_hint : Members → String → Fields → String → List Node → String
build_target_agent_hint stages stage_name fields initiator nodes =
    let found = labels stages (decisions_of (field stage_name stages)) fields initiator nodes in
    if any_where is_led found
    then str_append "Leave one option that matches the chosen decision and delete the others:\n"
        (join_lines (map label_line found))
    else ""

-- `d.pop(key, None)`
abbrev drop_key : String → Fields → Fields
drop_key key fields = where_true (λ e. not (str_eq e.0 key)) fields

abbrev drop_keys : List String → Fields → Fields
drop_keys [] fields = fields
drop_keys (k ∷ ks) fields = drop_keys ks (drop_key k fields)

abbrev transient_keys : List String
transient_keys =
    "in_reply_to" ∷ "initiator_node_id" ∷ "target_node_id" ∷ "agent" ∷ "stage_skill"
    ∷ "target_agent" ∷ "previous_decision" ∷ "previous_transition" ∷ "transition" ∷ []

-- The frontmatter that is routed.
unfoldable pub routed_fields : Node → Route → String → Fields → List Node → Fields
routed_fields sender route form_id fields nodes =
    let base = dict_update (drop_keys transient_keys fields) (
      ("form_type", route.form_type)
      ∷ ("form_id", form_id)
      ∷ ("stage", route.choice.next_stage)
      ∷ ("agent", name_or "" route.target.node)
      ∷ ("stage_skill", or_else route.skill "")
      ∷ ("decision", "")
      ∷ ("sender", sender.name)
      ∷ ("target", "")
      ∷ []) in
    dict_put "target_agent"
      (build_target_agent_hint route.graph.stages route.choice.next_stage base route.initiator
        nodes)
      base
