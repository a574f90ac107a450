-- ===== src/Skills/Unique.antt =====
-- No assignment stands twice (src/omniclaw/db/models.py, `uq_node_skill_assignments_node_skill_source`,
-- and the writers of `node_skill_assignments`).
use omni_claw.Prelude.{
  ℕ, suc, ◌≤◌, String, ◌≡◌, refl, ap, sym, subst, Bool, true, false, ◌&&◌, Option, none, List, [],
  ◌∷◌, ◌++◌, inl, inr, arith, str_eq, length-append, first_where, where_true, where_true-append,
  where_true-none, update_first, any_where, Option-cases, Bool-cases, if◌then◌else◌,
}
use omni_claw.Skills.Assignments.{
  NodeSkillAssignmentSource, NodeSkillAssignment, Assignments, same_source, is_assignment, is_text,
  upsert_node_skill_assignment, replace_node_skill_assignments_for_source,
  delete_node_skill_assignments,
}
use omni_claw.Skills.Counted.{count, once, is_assignment-fields}
use omni_claw.Skills.Replaced.{
  replace_node_skill_assignments_for_source_lem, delete_node_skill_assignments_lem,
}

-- The constraint on the table.
abbrev pub UniqueAssignments : Assignments → Type 0
UniqueAssignments table =
    (node skill : String) (source : NodeSkillAssignmentSource) → count node skill source table ≤ 1

pub data AssignmentCall : Type 0 where
  upsert : String → String → NodeSkillAssignmentSource → Option String → AssignmentCall
  replace : String → NodeSkillAssignmentSource → List String → Option String → AssignmentCall
  delete : String → Option (List String) → Option NodeSkillAssignmentSource → AssignmentCall

abbrev pub call_assignments : AssignmentCall → Assignments → Assignments
call_assignments (upsert n k s by) table = (upsert_node_skill_assignment n k s by table).1
call_assignments (replace n s ids by) table =
    (replace_node_skill_assignments_for_source n s ids by table).1
call_assignments (delete n ids s) table = (delete_node_skill_assignments n ids s table).1

abbrev sign : Option String → NodeSkillAssignment → NodeSkillAssignment
sign by a = record a { assigned_by_node_id = by }

count-update_first :
    (p : NodeSkillAssignment → Bool) (by : Option String) (node skill : String)
    (source : NodeSkillAssignmentSource) (table : Assignments)
    → count node skill source (update_first p (sign by) table) ≡ count node skill source table
count-update_first p by node skill source [] = refl
count-update_first p by node skill source (a ∷ table) = elim (Bool-cases (p a)) [
  | inl e ↦ elim (Bool-cases (is_assignment node skill source a)) [
    | inl own ↦ rw (e, own) refl
    | inr foreign ↦ rw (e, foreign) refl
  ]
  | inr e ↦ elim (Bool-cases (is_assignment node skill source a)) [
    | inl own ↦ rw (e, own) (ap (λ n. suc n) (count-update_first p by node skill source table))
    | inr foreign ↦ rw (e, foreign) (count-update_first p by node skill source table)
  ]
]

count-append :
    (row : NodeSkillAssignment) (table : Assignments)
    → first_where (is_assignment row.node_id row.skill_id row.assignment_source) table ≡ none
    → (node skill : String) (source : NodeSkillAssignmentSource) → count node skill source table ≤ 1
    → count node skill source (table ++ (row ∷ [])) ≤ 1
count-append row table missing node skill source h =
    rw (where_true-append, length-append)
      (elim (Bool-cases (is_assignment node skill source row)) [
        | inl own ↦
            let (en, ek, es) = is_assignment-fields node skill source row own in
            let empty : where_true (is_assignment node skill source) table ≡ [] =
              rw (en, ek, es) at
                (where_true-none (is_assignment row.node_id row.skill_id row.assignment_source)
                  table missing) in
            rw (empty, own) (omega arith)
        | inr foreign ↦ rw foreign (omega (arith, h))
      ])

upsert_lem :
    (n k : String) (s : NodeSkillAssignmentSource) (by : Option String) (table : Assignments)
    (node skill : String) (source : NodeSkillAssignmentSource)
    → count node skill source table ≤ 1
    → count node skill source (upsert_node_skill_assignment n k s by table).1 ≤ 1
unfolding upsert_node_skill_assignment
upsert_lem n k s by table node skill source h =
    let row : NodeSkillAssignment = record {
      node_id = n;
      skill_id = k;
      assignment_source = s;
      assigned_by_node_id = by;
    } in
    elim (Option-cases (first_where (is_assignment n k s) table)) [
      | inl missing ↦
          let shape : (upsert_node_skill_assignment n k s by table).1 ≡ table ++ (row ∷ []) =
            rw (missing, upsert_node_skill_assignment) refl in
          subst (λ (t : Assignments). count node skill source t ≤ 1) (sym shape)
            (count-append row table missing node skill source h)
      | inr (x, found) ↦
          let shape : (upsert_node_skill_assignment n k s by table).1
              ≡ update_first (is_assignment n k s) (sign by) table =
            rw (found, upsert_node_skill_assignment) refl in
          subst (λ (t : Assignments). count node skill source t ≤ 1) (sym shape)
            (omega (arith, h, count-update_first (is_assignment n k s) by node skill source table))
    ]

once_or : (b c : Bool) (n : ℕ) → n ≤ 1 → (if b then once c else n) ≤ 1
once_or true true n h = omega arith
once_or true false n h = omega arith
once_or false c n h = h

zero_or : (b : Bool) (n : ℕ) → n ≤ 1 → (if b then 0 else n) ≤ 1
zero_or true n h = omega arith
zero_or false n h = h

-- No call inserts an assignment that the constraint of the table forbids: where no node has a skill
-- from a source twice, no node has after the call.
pub call_assignments-UniqueAssignments :
    (call : AssignmentCall) (table : Assignments)
    → UniqueAssignments table
    → UniqueAssignments (call_assignments call table)
call_assignments-UniqueAssignments (upsert n k s by) table h node skill source =
    upsert_lem n k s by table node skill source (h node skill source)
call_assignments-UniqueAssignments (replace n s ids by) table h node skill source =
    rw (replace_node_skill_assignments_for_source_lem n s ids by table node skill source) (
      once_or (str_eq n node && same_source s source)
        (is_text skill && any_where (str_eq skill) ids) (count node skill source table)
        (h node skill source))
call_assignments-UniqueAssignments (delete n ids s) table h node skill source =
    let (gone, _) = delete_node_skill_assignments_lem n ids s table node skill source in
    rw gone (zero_or _ (count node skill source table) (h node skill source))
