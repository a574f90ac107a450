-- ===== src/Skills/Counted.antt =====
-- How often an assignment stands in `node_skill_assignments` after a write
-- (src/omniclaw/db/repository.py).
use omni_claw.Prelude.{
  set_of, place, insert, sorted, ℕ, String, ◌≡◌, refl, Bool, true, false, ◌&&◌, not, Option, List,
  [], ◌∷◌, map, inl, inr, arith, length, str_eq, eq_iff, where_true, any_where, Bool-cases,
  if◌then◌else◌,
}
use Prim.Native.Nat.{Ordering}
use Prim.Native.String.{compare}
use omni_claw.Skills.Assignments.{
  NodeSkillAssignmentSource, manual, default, form_stage, NodeSkillAssignment, Assignments,
  same_source, is_assignment, is_text, normalized_skill_ids, assignment,
}

abbrev pub count : String → String → NodeSkillAssignmentSource → Assignments → ℕ
count node skill source table = length (where_true (is_assignment node skill source) table)

abbrev pub occurrences : String → List String → ℕ
occurrences s ids = length (where_true (λ i. str_eq i s) ids)

occurrences-insert :
    (s i : String) (ids : List String) → occurrences s (insert i ids) ≡ occurrences s (i ∷ ids)
occurrences-insert s i [] = refl
occurrences-insert s i (j ∷ ids) = placed (occurrences-insert s i ids) (compare i j)
  where
    placed :
        occurrences s (insert i ids) ≡ occurrences s (i ∷ ids)
        → (o : Ordering)
        → occurrences s (place o i j ids (insert i ids)) ≡ occurrences s (i ∷ j ∷ ids)
    placed h Ordering.lt = refl
    placed h Ordering.eq = refl
    placed h Ordering.gt = ground (arith, h)

occurrences-sorted :
    (s : String) (ids : List String) → occurrences s (sorted ids) ≡ occurrences s ids
occurrences-sorted s [] = refl
occurrences-sorted s (i ∷ ids) =
    ground (arith, occurrences-insert s i (sorted ids), occurrences-sorted s ids)

abbrev pub once : Bool → ℕ
once true = 1
once false = 0

any_where-set_of :
    (s : String) (ids : List String) → any_where (str_eq s) (set_of ids) ≡ any_where (str_eq s) ids
any_where-set_of s [] = refl
any_where-set_of s (i ∷ ids) =
    ground (arith, any_where-set_of s ids, any_where-set_of i ids, eq_iff s i)

occurrences-set_of :
    (s : String) (ids : List String) → occurrences s (set_of ids) ≡ once (any_where (str_eq s) ids)
occurrences-set_of s [] = refl
occurrences-set_of s (i ∷ ids) = ground (
  arith,
  occurrences-set_of s ids,
  any_where-set_of s ids,
  any_where-set_of i ids,
  eq_iff i s,
  eq_iff s i,
)

any_where-is_text :
    (s : String) (ids : List String)
    → any_where (str_eq s) (where_true is_text ids) ≡ is_text s && any_where (str_eq s) ids
any_where-is_text s [] = ground arith
any_where-is_text s (i ∷ ids) = ground (arith, any_where-is_text s ids, eq_iff s i)

pub occurrences-normalized :
    (s : String) (ids : List String)
    → occurrences s (normalized_skill_ids ids) ≡ once (is_text s && any_where (str_eq s) ids)
occurrences-normalized s ids =
    rw
      (
        occurrences-sorted s (set_of (where_true is_text ids)),
        occurrences-set_of s (where_true is_text ids),
        any_where-is_text s ids,
      )
      refl

pub same_source-eq : (s t : NodeSkillAssignmentSource) → same_source s t ≡ true → s ≡ t
same_source-eq manual manual h = refl
same_source-eq manual default h = cc
same_source-eq manual form_stage h = cc
same_source-eq default manual h = cc
same_source-eq default default h = refl
same_source-eq default form_stage h = cc
same_source-eq form_stage manual h = cc
same_source-eq form_stage default h = cc
same_source-eq form_stage form_stage h = refl

pub same_source-sym : (s t : NodeSkillAssignmentSource) → same_source s t ≡ same_source t s
same_source-sym manual manual = refl
same_source-sym manual default = refl
same_source-sym manual form_stage = refl
same_source-sym default manual = refl
same_source-sym default default = refl
same_source-sym default form_stage = refl
same_source-sym form_stage manual = refl
same_source-sym form_stage default = refl
same_source-sym form_stage form_stage = refl

pub is_assignment-fields :
    (node skill : String) (source : NodeSkillAssignmentSource) (a : NodeSkillAssignment)
    → is_assignment node skill source a ≡ true
    → (a.node_id ≡ node) × (a.skill_id ≡ skill) × (a.assignment_source ≡ source)
is_assignment-fields node skill source a h = (
  ground (arith, eq_iff a.node_id node),
  ground (arith, eq_iff a.skill_id skill),
  same_source-eq a.assignment_source source (ground arith),
)

-- A deletion takes an assignment away or leaves all its rows.
pub count-where_true :
    (node skill : String) (source : NodeSkillAssignmentSource) (p : NodeSkillAssignment → Bool)
    (b : Bool)
    → ((a : NodeSkillAssignment) → is_assignment node skill source a ≡ true → p a ≡ b)
    → (table : Assignments)
    → count node skill source (where_true (λ a. not (p a)) table)
      ≡ (if b then 0 else count node skill source table)
count-where_true node skill source p true all [] = refl
count-where_true node skill source p false all [] = refl
count-where_true node skill source p b all (a ∷ table) =
    elim (Bool-cases (is_assignment node skill source a)) [
      | inl own ↦ elim (Bool-cases (p a)) [
        | inl e ↦
            ground (arith, own, e, all a own, count-where_true node skill source p b all table)
        | inr e ↦
            ground (arith, own, e, all a own, count-where_true node skill source p b all table)
      ]
      | inr foreign ↦ elim (Bool-cases (p a)) [
        | inl e ↦ rw (e, foreign) (count-where_true node skill source p b all table)
        | inr e ↦ rw (e, foreign) (count-where_true node skill source p b all table)
      ]
    ]

pub count-map :
    (node skill : String) (source : NodeSkillAssignmentSource) (n : String)
    (s : NodeSkillAssignmentSource) (by : Option String) (ids : List String)
    → count node skill source (map (assignment n s by) ids)
      ≡ (if str_eq n node && same_source s source then occurrences skill ids else 0)
count-map node skill source n s by [] = ground arith
count-map node skill source n s by (i ∷ ids) =
    ground (arith, count-map node skill source n s by ids)
