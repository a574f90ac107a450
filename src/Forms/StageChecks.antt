-- ===== src/Forms/StageChecks.antt =====
-- The checks of one stage after the other (src/omniclaw/forms/service.py,
-- `_validate_stage_graph_definition` up to the last of the stages, `_is_dynamic_target`).
use omni_claw.Prelude.{
  String, str_append, Bool, true, false, ◌&&◌, ◌||◌, not, Option, none, some, List, [], ◌∷◌, ◌++◌,
  str_eq, is_empty, is_some, any_where, strip, if◌then◌else◌,
}
use omni_claw.Org.Nodes.{Node}
use omni_claw.Org.References.{resolve_unique_node_reference, lookup_error}
use omni_claw.Forms.Ids.{lower}
use omni_claw.Forms.Json.{
  Json, null, boolean, text, object, Members, no_members, member, get_member, field, filled_text,
  is_text_of,
}
use omni_claw.Forms.Graph.{stage_decisions, variable_name}
use omni_claw.Forms.Routes.{str_of}

abbrev pub in_quotes : String → String → String → String
in_quotes before raw after = str_append before (str_append raw after)

-- `errors.append(…)` where a test holds
abbrev pub error_if : Bool → String → List String
error_if true why = why ∷ []
error_if false why = []

abbrev pub has_stage : String → Members → Bool
has_stage name stages = is_some (get_member name stages)

abbrev pub at_stage : String → String → String
at_stage name rest = in_quotes "workflow_graph.stages['" name (str_append "']" rest)

abbrev pub at_decision : String → String → String → String
at_decision name decision rest =
    at_stage name (in_quotes ".decisions['" decision (str_append "'] " rest))

abbrev pub type_errors : (Json → String) → String → Members → List String
type_errors repr type_key graph = elim (field "form_type" graph) [
  | null ↦ []
  | v ↦ error_if (not (is_text_of type_key v)) (
      in_quotes "workflow_graph.form_type '" (str_of repr v)
        (in_quotes "' must match type_key '" type_key "'"))
]

abbrev pub raw_stages : Json → Members
raw_stages (object m) = m
raw_stages _ = no_members

abbrev pub is_without_stages : Members → Bool
is_without_stages no_members = true
is_without_stages (member k v m) = false

-- The first of the names that are not blank.
unfoldable pub first_stage_name : Members → Json
first_stage_name no_members = null
first_stage_name (member k v m) =
    let rest = first_stage_name m in if is_empty (strip k) then rest else text k

abbrev pub start_value : Json → Members → Json
start_value null stages = first_stage_name stages
start_value v stages = v

-- A stage that the graph names, and what is wrong with it.
unfoldable pub named_stage : String → Json → Members → Option String × List String
named_stage key v stages = elim (filled_text v) [
  | none ↦ (none, str_append key " is required" ∷ [])
  | some s ↦ (
    some s,
    error_if (not (has_stage s stages))
        (in_quotes (str_append key " '") s "' is not defined in workflow_graph.stages"),
  )
]

abbrev pub is_true_value : Json → Bool
is_true_value (boolean b) = b
is_true_value _ = false

-- `target.lower() in {"none", "null", "{{none}}"}`
abbrev names_nobody : String → Bool
names_nobody target =
    str_eq (lower target) "none" || str_eq (lower target) "null" || str_eq (lower target) "{{none}}"

-- `_is_dynamic_target`
abbrev is_dynamic_target : String → Bool
is_dynamic_target target =
    str_eq target "{{initiator}}" || str_eq target "{{any}}" || is_some (variable_name target)

abbrev target_is_none : Json → Bool
target_is_none null = true
target_is_none (text s) = not (is_empty (strip s)) && names_nobody (strip s)
target_is_none _ = false

abbrev is_target : Json → Bool
is_target null = true
is_target v = is_some (filled_text v)

-- The target as it is looked up: stripped, unless it is blank.
abbrev looked_up : Json → String
looked_up (text s) = if is_empty (strip s) then s else strip s
looked_up _ = ""

abbrev pub reference_errors : String → Option String → List String
reference_errors before none = []
reference_errors before (some why) = str_append before why ∷ []

unfoldable pub target_errors : String → Bool → Json → List Node → List String
target_errors name is_terminal target nodes =
    let t = looked_up target in
    error_if (not (is_target target)) (at_stage name ".target must be a non-empty string or null")
    ++ error_if (not is_terminal && target_is_none target)
        (at_stage name ".target is required for non-terminal stage")
    ++ (if not (is_empty t) && not (target_is_none target) && not (is_dynamic_target t)
        then reference_errors (at_stage name ".target invalid: ")
            (lookup_error t (resolve_unique_node_reference t nodes))
        else [])

-- `required_skill.strip()`, "" where it is no text.
abbrev pub skill_of : Json → String
skill_of (text s) = strip s
skill_of _ = ""

abbrev is_null : Json → Bool
is_null null = true
is_null _ = false

unfoldable pub skill_errors : String → Bool → Json → Json → List String
skill_errors name is_terminal target skill =
    if not is_terminal || not (target_is_none target)
    then error_if (is_empty (skill_of skill)) (
        at_stage name
          ".required_skill is required (non-terminal stage or terminal stage with holder target)")
    else error_if (not (is_null skill) && is_empty (skill_of skill))
        (at_stage name ".required_skill must be non-empty when provided")

abbrev pub same_pair : String × String → String × String → Bool
same_pair (a, b) (c, d) = str_eq a c && str_eq b d

-- The pairs of stage and decision so far, the edges from stage to stage, and the errors.
pub record Checks : Type 0 where
  pub seen : List (String × String)
  pub edges : List (String × String)
  pub errors : List String

abbrev pub add_errors : List String → Checks → Checks
add_errors more c = record c { errors = c.errors ++ more }

abbrev pub duplicate : String → String → String
duplicate name decision =
    in_quotes "workflow_graph decisions must be unique by (stage, decision); duplicate found for ("
      name (in_quotes ", " decision ")")

-- A decision that has a name and a next stage.
abbrev pub add_edge : Members → String → String → String → Checks → Checks
add_edge stages name decision next c = record {
  seen = (name, strip decision) ∷ c.seen;
  edges = c.edges ++ ((name, next) ∷ []);
  errors =
      c.errors
      ++ (error_if (not (has_stage next stages))
            (at_decision name decision (in_quotes "references unknown stage '" next "'"))
          ++ error_if (any_where (same_pair (name, strip decision)) c.seen)
              (duplicate name (strip decision)));
}

abbrev pub check_decision : Members → String → String → Option String → Checks → Checks
check_decision stages name decision next c =
    if is_empty (strip decision)
    then add_errors (at_stage name ".decisions contains empty decision key" ∷ []) c
    else elim next [
      | none ↦ add_errors (at_decision name decision "target is required" ∷ []) c
      | some to ↦ add_edge stages name decision to c
    ]

unfoldable pub check_decisions : Members → String → Members → Checks → Checks
check_decisions stages name no_members c = c
check_decisions stages name (member decision next more) c =
    check_decisions stages name more (check_decision stages name decision (filled_text next) c)

abbrev is_decisions : Json → Bool
is_decisions null = true
is_decisions (object m) = true
is_decisions _ = false

abbrev pub decisions_in : Json → Members
decisions_in (object m) = m
decisions_in _ = no_members

abbrev pub decisions_errors : String → Bool → Json → List String
decisions_errors name is_terminal decisions =
    error_if (not (is_decisions decisions)) (at_stage name ".decisions must be an object")
    ++ error_if (not is_terminal && is_without_stages (decisions_in decisions))
        (at_stage name " requires non-empty decisions unless is_terminal=true")
    ++ error_if (is_terminal && not (is_without_stages (decisions_in decisions)))
        (at_stage name " is terminal and must not declare decisions")

-- One stage.
abbrev pub check_stage : Members → List Node → String → Json → Checks → Checks
check_stage stages nodes name (object stage) c =
    let is_terminal = is_true_value (field "is_terminal" stage) in
    let target = field "target" stage in
    let decisions = stage_decisions stage in
    if is_empty (strip name)
    then add_errors ("workflow_graph.stages keys must be non-empty strings" ∷ []) c
    else check_decisions stages name (decisions_in decisions) (
        add_errors
          (target_errors name is_terminal target nodes
            ++ (skill_errors name is_terminal target (field "required_skill" stage)
                ++ decisions_errors name is_terminal decisions))
          c)
check_stage stages nodes name v c =
    add_errors
      (if is_empty (strip name)
        then "workflow_graph.stages keys must be non-empty strings" ∷ []
        else at_stage name " must be an object" ∷ [])
      c

-- The loop over the stages.
unfoldable pub check_stages : Members → List Node → Members → Checks → Checks
check_stages stages nodes no_members c = c
check_stages stages nodes (member name v more) c =
    check_stages stages nodes more (check_stage stages nodes name v c)
