-- ===== src/Ipc/Stages.antt =====
-- The stages of a workflow, and what the frontmatter says of them (src/omniclaw/ipc/service.py,
-- `_load_stage_graph` up to `_stage_target_is_none`).
use omni_claw.Prelude.{
  String, code, str_append, Bool, true, false, ◌&&◌, ◌||◌, Option, none, some, leb, ◌==◌, ◌-◌,
  str_eq, is_empty, strip, dict_get, if◌then◌else◌,
}
use omni_claw.Forms.Json.{
  Json, null, boolean, text, object, Members, no_members, member, field, filled_text,
}
use omni_claw.Forms.Ids.{lower, letter_at}
use omni_claw.Forms.Graph.{first_terminal, stage_decisions}
use omni_claw.Ipc.Outcome.{Checked, accepted, ◌>>=◌, or_refuse}
use omni_claw.Ipc.Frontmatter.{Fields}

-- `_optional_str` of a value of the frontmatter
unfoldable pub optional_str : Option String → Option String
unfolding strip
optional_str none = none
optional_str (some raw) = let s = strip raw in if is_empty s then none else some s

abbrev pub filled : String → Fields → Option String
filled key fields = optional_str (dict_get key fields)

abbrev pub first_filled : Option String → Option String → Option String
first_filled none other = other
first_filled (some s) other = some s

-- `upper()`, as far as it can give "MESSAGE": beside the small letters, the long s and the sharp s
-- become an S.
unfoldable pub upper : String → String
upper String.[] = String.[]
upper (String.◌∷◌ c s) =
    let rest = upper s in
    if leb b'a' (code c) && leb (code c) b'z'
    then str_append (letter_at (code c - b'a') "ABCDEFGHIJKLMNOPQRSTUVWXYZ") rest
    else if code c == 0x17f
    then str_append "S" rest
    else if code c == 0xdf
    then str_append "SS" rest
    else String.◌∷◌ c rest

abbrev of_legacy_type : Option String → Option String
of_legacy_type none = none
of_legacy_type (some s) = some (if str_eq (upper s) "MESSAGE" then "message" else s)

-- `_resolve_form_type`
unfoldable pub resolve_form_type : Fields → Option String
unfolding upper
resolve_form_type fields =
    first_filled (filled "form_type" fields) (of_legacy_type (filled "type" fields))

-- `_frontmatter_decision`; `_resolve_decision_key` gives "" for `None`.
abbrev pub frontmatter_decision : Fields → Option String
frontmatter_decision fields = first_filled (filled "decision" fields) (filled "transition" fields)

pub record StageGraph : Type 0 where
  pub start_stage : String
  pub end_stage : String
  pub stages : Members
  pub initiator_allowlist : Json

abbrev pub stripped : Json → Option String
stripped v = elim (filled_text v) [ none ↦ none | some s ↦ some (strip s) ]

-- The name of the first stage, unless it is "".
abbrev first_stage : Members → Option String
first_stage no_members = none
first_stage (member k v m) = if is_empty k then none else some (strip k)

abbrev pub start_of : Members → Members → Option String
start_of graph stages = first_filled (stripped (field "start_stage" graph)) (first_stage stages)

abbrev pub end_of : Members → Members → Option String
end_of graph stages =
    first_filled (stripped (field "end_stage" graph)) (stripped (first_terminal stages))

abbrev pub stages_of : Json → Option Members
stages_of (object (member k v m)) = some (member k v m)
stages_of _ = none

-- `_load_stage_graph`
unfoldable pub load_stage_graph : Members → Checked StageGraph
load_stage_graph graph =
    or_refuse "active form workflow must define workflow_graph.stages"
      (stages_of (field "stages" graph))
    >>= λ stages.
        (or_refuse "workflow_graph.start_stage is required" (start_of graph stages) >>= λ start.
        (or_refuse "workflow_graph.end_stage is required" (end_of graph stages) >>= λ end.
        accepted (record {
          start_stage = start;
          end_stage = end;
          stages = stages;
          initiator_allowlist = field "initiator_allowlist" graph;
        })))

-- `_resolve_current_stage`
abbrev pub current_stage : Fields → StageGraph → String
current_stage fields graph = elim (filled "stage" fields) [ some s ↦ s | none ↦ graph.start_stage ]

abbrev pub as_members : Json → Members
as_members (object m) = m
as_members _ = no_members

-- `_stage_decisions`, as far as it is a dictionary.
abbrev pub decisions_of : Json → Members
decisions_of (object stage) = as_members (stage_decisions stage)
decisions_of _ = no_members

-- `_required_skill_name`
abbrev pub required_skill_name : Json → Option String
required_skill_name (object stage) = stripped (field "required_skill" stage)
required_skill_name _ = none

abbrev is_true_value : Json → Bool
is_true_value (boolean b) = b
is_true_value _ = false

-- `_is_terminal_stage`
abbrev pub is_terminal_stage : Json → Bool
is_terminal_stage (object stage) = is_true_value (field "is_terminal" stage)
is_terminal_stage _ = false

-- `target.lower() in {"none", "null", "{{none}}"}`
abbrev pub is_no_target : String → Bool
is_no_target target =
    str_eq (lower target) "none" || str_eq (lower target) "null" || str_eq (lower target) "{{none}}"

abbrev is_none_value : Json → Bool
is_none_value null = true
is_none_value (text s) = is_no_target (strip s)
is_none_value _ = false

-- `_stage_target_is_none`
abbrev pub stage_target_is_none : Json → Bool
stage_target_is_none (object stage) = is_none_value (field "target" stage)
stage_target_is_none _ = false
