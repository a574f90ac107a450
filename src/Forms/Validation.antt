-- ===== src/Forms/Validation.antt =====
-- Which stage graphs are accepted as workflows (src/omniclaw/forms/service.py,
-- `_validate_stage_graph_definition`, `_validate_initiator_allowlist`, `_is_dynamic_target`).
use omni_claw.Prelude.{
  ℕ, zero, suc, String, str_append, Bool, true, false, ◌&&◌, ◌||◌, not, Option, none, some, List,
  [], ◌∷◌, ◌++◌, str_eq, is_empty, any_where, where_true, length, strip, decimal, sorted, set_of,
  if◌then◌else◌,
}
use omni_claw.Org.Nodes.{Node}
use omni_claw.Org.References.{resolve_unique_node_reference, lookup_error}
use omni_claw.Forms.Json.{
  Json, null, array, object, Items, no_items, item, Members, no_members, member, field, filled_text,
}
use omni_claw.Forms.StageChecks.{
  in_quotes, error_if, type_errors, raw_stages, is_without_stages, start_value, named_stage,
  reference_errors, skill_of, Checks, check_stages,
}

-- The stages to which edges lead from a stage are marked, and put on the stack where they are new.
abbrev pub is_marked : String → List String → Bool
is_marked name marked = any_where (λ m. str_eq m name) marked

unfoldable pub mark_next :
    String → List (String × String) → List String → List String → List String × List String
mark_next stage [] marked stack = (marked, stack)
mark_next stage ((from, to) ∷ edges) marked stack =
    let new = mark_next stage edges (to ∷ marked) (to ∷ stack) in
    let old = mark_next stage edges marked stack in
    if str_eq from stage && not (is_marked to marked) then new else old

-- The search over the edges; `none`: out of fuel, which is more than the edges are.
unfoldable pub reach : ℕ → List (String × String) → List String → List String → Option (List String)
reach fuel edges marked [] = some marked
reach zero edges marked (stage ∷ stack) = none
reach (suc fuel) edges marked (stage ∷ stack) =
    let (marked', stack') = mark_next stage edges marked stack in reach fuel edges marked' stack'

abbrev pub names_of : Members → List String
names_of no_members = []
names_of (member k v m) = k ∷ names_of m

abbrev join_commas : List String → String
join_commas [] = ""
join_commas (s ∷ []) = s
join_commas (s ∷ t ∷ r) = str_append s (str_append ", " (join_commas (t ∷ r)))

abbrev pub is_nothing : List String → Bool
is_nothing [] = true
is_nothing (s ∷ r) = false

abbrev pub unmarked : List String → Members → List String
unmarked marked stages = where_true (λ s. not (is_marked s marked)) (names_of stages)

abbrev pub unreached : Members → String → String → List String → List String
unreached stages start end marked =
    error_if (not (is_nothing (unmarked marked stages)))
      (str_append "unreachable workflow stages: " (join_commas (sorted (unmarked marked stages))))
    ++ error_if (not (is_marked end marked))
        (in_quotes "workflow_graph.end_stage '" end "' is not reachable from start_stage")

abbrev pub searched : Members → String → String → Option (List String) → List String
searched stages start end none = []
searched stages start end (some marked) = unreached stages start end marked

abbrev pub reach_errors :
    Members → Option String → Option String → List (String × String) → List String
reach_errors stages (some start) (some end) edges =
    searched stages start end (reach (suc (length edges)) edges (start ∷ []) (start ∷ []))
reach_errors stages _ _ edges = []

abbrev pub end_errors : Option String → List (String × String) → List String
end_errors none edges = []
end_errors (some end) edges =
    error_if (any_where (λ e. str_eq e.0 end) edges)
      "workflow_graph.end_stage must not have outgoing decisions"

abbrev not_reference : ℕ → String
not_reference index =
    in_quotes "workflow_graph.initiator_allowlist[" (decimal index)
      "] must be a non-empty node name/id or '{{any}}'"

unfoldable pub allowlist_items : List Node → ℕ → Items → List String
allowlist_items nodes index no_items = []
allowlist_items nodes index (item v more) =
    let rest = allowlist_items nodes (suc index) more in
    elim (filled_text v) [
      | none ↦ not_reference index ∷ rest
      | some raw ↦
          (if str_eq (strip raw) "{{any}}"
            then []
            else reference_errors
                (in_quotes "workflow_graph.initiator_allowlist[" (decimal index) "] invalid: ")
                (lookup_error (strip raw) (resolve_unique_node_reference (strip raw) nodes)))
          ++ rest
    ]

-- `_validate_initiator_allowlist`
unfoldable pub validate_initiator_allowlist : List Node → Json → List String
validate_initiator_allowlist nodes null = []
validate_initiator_allowlist nodes (array (item v more)) = allowlist_items nodes 0 (item v more)
validate_initiator_allowlist nodes _ =
    "workflow_graph.initiator_allowlist must be a non-empty array when provided" ∷ []

-- The skills that the stages ask for.
abbrev skill_in : Json → String
skill_in (object stage) = skill_of (field "required_skill" stage)
skill_in _ = ""

unfoldable pub required_skills : Members → List String
required_skills no_members = []
required_skills (member name v more) =
    let rest = required_skills more in
    if is_empty (strip name) || is_empty (skill_in v) then rest else skill_in v ∷ rest

-- The files of the skills that are there, by their path.
unfoldable pub missing_skills : (String → String) → (String → Bool) → List String → List String
missing_skills path_of is_there [] = []
missing_skills path_of is_there (skill ∷ more) =
    error_if (not (is_there skill))
      (in_quotes "required skill '" skill (str_append "' missing at " (path_of skill)))
    ++ missing_skills path_of is_there more

-- Everything before the search.
unfoldable pub local_errors :
    (Json → String)
    → String
    → Members
    → Members
    → List Node
    → Option String × List String
    → Option String × List String
    → Checks
    → List String
local_errors repr type_key graph stages nodes (start, start_errors) (end, end_problems) checks =
    type_errors repr type_key graph
    ++ (error_if (is_without_stages stages) "workflow_graph.stages must be a non-empty object"
        ++ (start_errors ++ (end_problems ++ (checks.errors ++ end_errors end checks.edges))))

abbrev pub no_checks : Checks
no_checks = record { seen = []; edges = []; errors = [] }

-- `_validate_stage_graph_definition`; what `_workspace_form_skills_root` holds is a parameter.
unfoldable pub validate_stage_graph_definition :
    (Json → String)
    → (String → String)
    → (String → Bool)
    → List Node
    → String
    → Members
    → List String
validate_stage_graph_definition repr path_of is_there nodes type_key graph =
    let stages = raw_stages (field "stages" graph) in
    let start =
      named_stage "workflow_graph.start_stage" (start_value (field "start_stage" graph) stages)
        stages in
    let end = named_stage "workflow_graph.end_stage" (field "end_stage" graph) stages in
    let checks = check_stages stages nodes stages no_checks in
    let local = local_errors repr type_key graph stages nodes start end checks in
    let late : List String =
      if is_nothing local then reach_errors stages start.0 end.0 checks.edges else [] in
    local
    ++ (late
        ++ (validate_initiator_allowlist nodes (field "initiator_allowlist" graph)
            ++ missing_skills path_of is_there (sorted (set_of (required_skills stages)))))
