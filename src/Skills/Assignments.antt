-- ===== src/Skills/Assignments.antt =====
-- The table `node_skill_assignments` and three of its writers (src/omniclaw/db/repository.py,
-- src/omniclaw/db/models.py, src/omniclaw/db/enums.py). The order of the rows stands for the order of
-- their creation.
use omni_claw.Prelude.{
  ℕ, String, Bool, true, false, ◌&&◌, not, Option, none, some, List, [], ◌∷◌, ◌++◌, map, length,
  str_eq, first_where, set_of, sorted, where_true, update_first, any_where,
}

pub data NodeSkillAssignmentSource : Type 0 where
  manual default form_stage : NodeSkillAssignmentSource

abbrev pub same_source : NodeSkillAssignmentSource → NodeSkillAssignmentSource → Bool
same_source manual manual = true
same_source manual default = false
same_source manual form_stage = false
same_source default manual = false
same_source default default = true
same_source default form_stage = false
same_source form_stage manual = false
same_source form_stage default = false
same_source form_stage form_stage = true

pub record NodeSkillAssignment : Type 0 where
  pub node_id : String
  pub skill_id : String
  pub assignment_source : NodeSkillAssignmentSource
  pub assigned_by_node_id : Option String

abbrev pub Assignments : Type 0
Assignments = List NodeSkillAssignment

abbrev pub is_of_source : String → NodeSkillAssignmentSource → NodeSkillAssignment → Bool
is_of_source node source a = str_eq a.node_id node && same_source a.assignment_source source

abbrev pub is_assignment : String → String → NodeSkillAssignmentSource → NodeSkillAssignment → Bool
is_assignment node skill source a = str_eq a.skill_id skill && is_of_source node source a

unfoldable pub upsert_node_skill_assignment :
    String
    → String
    → NodeSkillAssignmentSource
    → Option String
    → Assignments
    → NodeSkillAssignment × Assignments
upsert_node_skill_assignment node skill source by table =
    let row : NodeSkillAssignment = record {
      node_id = node;
      skill_id = skill;
      assignment_source = source;
      assigned_by_node_id = by;
    } in
    elim (first_where (is_assignment node skill source) table) [
      | none ↦ (row, table ++ (row ∷ []))
      | some found ↦ (
        record found { assigned_by_node_id = by },
        update_first (is_assignment node skill source) (λ a. record a { assigned_by_node_id = by })
            table,
      )
    ]

-- The truth of a string.
abbrev pub is_text : String → Bool
is_text s = not (str_eq s "")

abbrev pub normalized_skill_ids : List String → List String
normalized_skill_ids ids = sorted (set_of (where_true is_text ids))

abbrev pub assignment :
    String → NodeSkillAssignmentSource → Option String → String → NodeSkillAssignment
assignment node source by skill = record {
  node_id = node;
  skill_id = skill;
  assignment_source = source;
  assigned_by_node_id = by;
}

-- The first component is what the call returns: the rows of the node from the source.
unfoldable pub replace_node_skill_assignments_for_source :
    String
    → NodeSkillAssignmentSource
    → List String
    → Option String
    → Assignments
    → List NodeSkillAssignment × Assignments
replace_node_skill_assignments_for_source node source ids by table =
    let kept = where_true (λ a. not (is_of_source node source a)) table in
    let table' = kept ++ map (assignment node source by) (normalized_skill_ids ids) in
    (where_true (is_of_source node source) table', table')

-- `if skill_ids` and `if normalized_skill_ids`: without an id left, every skill is meant.
abbrev pub is_chosen : List String → String → Bool
is_chosen [] skill = true
is_chosen (i ∷ ids) skill = any_where (str_eq skill) (i ∷ ids)

abbrev pub or_empty : Option (List String) → List String
or_empty none = []
or_empty (some ids) = ids

abbrev pub is_from : Option NodeSkillAssignmentSource → NodeSkillAssignmentSource → Bool
is_from none s = true
is_from (some source) s = same_source s source

abbrev pub is_deleted :
    String → Option (List String) → Option NodeSkillAssignmentSource → NodeSkillAssignment → Bool
is_deleted node ids source a =
    str_eq a.node_id node
    && (is_chosen (where_true is_text (or_empty ids)) a.skill_id
        && is_from source a.assignment_source)

unfoldable pub delete_node_skill_assignments :
    String → Option (List String) → Option NodeSkillAssignmentSource → Assignments → ℕ × Assignments
delete_node_skill_assignments node ids source table = (
  length (where_true (is_deleted node ids source) table),
  where_true (λ a. not (is_deleted node ids source a)) table,
)
