-- ===== src/Tests/Skills.antt =====
-- Examples for the skills of the nodes.
use omni_claw.Prelude.{
  Bool, false, ◌≡◌, ◌≤◌, ◌+◌, String, refl, true, none, some, List, [], ◌∷◌, arith, length,
  if◌then◌else◌,
}
use omni_claw.Skills.Assignments.{
  Assignments, NodeSkillAssignment, manual, default, is_assignment,
  replace_node_skill_assignments_for_source, delete_node_skill_assignments, assignment,
}
use omni_claw.Skills.Counted.{count}
use omni_claw.Skills.Replaced.{
  replace_node_skill_assignments_for_source_lem, delete_node_skill_assignments_lem,
}
use omni_claw.Skills.Unique.{
  UniqueAssignments, call_assignments, replace, call_assignments-UniqueAssignments,
}

abbrev table : Assignments
table =
    assignment "n-ada" manual none "review"
    ∷ assignment "n-ada" default none "report"
    ∷ assignment "n-cem" manual (some "n-ada") "report"
    ∷ []

abbrev ids : List String
ids = "send" ∷ "" ∷ "archive" ∷ "send" ∷ []

replaced :
    (replace_node_skill_assignments_for_source "n-ada" manual ids none table).0
    ≡ assignment "n-ada" manual none "archive" ∷ assignment "n-ada" manual none "send" ∷ []
unfolding replace_node_skill_assignments_for_source
replaced = refl

replace_node_skill_assignments_for_source_lem_example :
    count "n-ada" "send" manual
      (replace_node_skill_assignments_for_source "n-ada" manual ids none table).1
    ≡ 1
replace_node_skill_assignments_for_source_lem_example =
    replace_node_skill_assignments_for_source_lem "n-ada" manual ids none table "n-ada" "send"
      manual

-- Without a skill that is meant, every assignment of the node goes.
delete_node_skill_assignments_lem_example :
    let (deleted, table') = delete_node_skill_assignments "n-ada" (some []) none table in
    (count "n-ada" "report" default table' ≡ 0) × (deleted + length table' ≡ length table)
delete_node_skill_assignments_lem_example =
    delete_node_skill_assignments_lem "n-ada" (some []) none table "n-ada" "report" default

abbrev lone_row : NodeSkillAssignment
lone_row = assignment "n-ada" manual none "send"

abbrev lone : Assignments
lone = lone_row ∷ []

call_assignments-UniqueAssignments_example :
    UniqueAssignments (call_assignments (replace "n-ada" manual ids none) lone)
call_assignments-UniqueAssignments_example =
    call_assignments-UniqueAssignments (replace "n-ada" manual ids none) lone
      (λ node skill source. at_most_one (is_assignment node skill source lone_row))
  where
    at_most_one : (b : Bool) → length (if b then lone_row ∷ [] else []) ≤ 1
    at_most_one true = omega arith
    at_most_one false = omega arith
