-- ===== src/Skills/Replaced.antt =====
-- What a write does to every assignment (src/omniclaw/db/repository.py, the writers of
-- `node_skill_assignments`).
use omni_claw.Prelude.{
  ℕ, ◌+◌, String, ◌≡◌, refl, ap, subst, ◌∙◌, Bool, true, false, ◌&&◌, ◌||◌, not, Option, List, [],
  ◌∷◌, ◌++◌, map, inl, inr, arith, length, str_eq, eq_iff, length-append, where_true,
  where_true-append, any_where, Bool-cases, if◌then◌else◌,
}
use omni_claw.Skills.Assignments.{
  NodeSkillAssignmentSource, NodeSkillAssignment, Assignments, same_source, is_of_source,
  is_assignment, is_text, is_chosen, is_from, or_empty, normalized_skill_ids, assignment,
  is_deleted, replace_node_skill_assignments_for_source, delete_node_skill_assignments,
}
use omni_claw.Skills.Counted.{
  count, once, occurrences-normalized, same_source-sym, is_assignment-fields, count-where_true,
  count-map,
}

str_eq-sym : (s t : String) → str_eq s t ≡ str_eq t s
str_eq-sym s t = ground (arith, eq_iff s t, eq_iff t s)

is_of_source-own :
    (node skill n : String) (source s : NodeSkillAssignmentSource) (a : NodeSkillAssignment)
    → is_assignment node skill source a ≡ true
    → is_of_source n s a ≡ (str_eq n node && same_source s source)
is_of_source-own node skill n source s a h =
    let (en, _, es) = is_assignment-fields node skill source a h in
    rw (en, es, str_eq-sym node n, same_source-sym source s) refl

-- After the skills of a node from one source are replaced, the node has from this source each skill
-- whose id is given and not empty, once, whatever was there and however often the id is given, and no
-- other; the assignments of other nodes and from other sources stand as often as before.
pub replace_node_skill_assignments_for_source_lem :
    (n : String) (s : NodeSkillAssignmentSource) (ids : List String) (by : Option String)
    (table : Assignments) (node skill : String) (source : NodeSkillAssignmentSource)
    → count node skill source (replace_node_skill_assignments_for_source n s ids by table).1 ≡ (
        if str_eq n node && same_source s source
        then once (is_text skill && any_where (str_eq skill) ids)
        else count node skill source table)
unfolding replace_node_skill_assignments_for_source
replace_node_skill_assignments_for_source_lem n s ids by table node skill source =
    let own = str_eq n node && same_source s source in
    let kept = where_true (λ a. not (is_of_source n s a)) table in
    let added = map (assignment n s by) (normalized_skill_ids ids) in
    let parts : count node skill source (kept ++ added)
        ≡ count node skill source kept + count node skill source added =
      ap (λ (t : Assignments). length t)
        (where_true-append (is_assignment node skill source) kept added)
      ∙ length-append (where_true (is_assignment node skill source) kept)
          (where_true (is_assignment node skill source) added) in
    total own (count node skill source (kept ++ added)) (count node skill source table)
      (once (is_text skill && any_where (str_eq skill) ids)) parts
      (count-where_true node skill source (is_of_source n s) own
        (is_of_source-own node skill n source s) table)
      (count-map node skill source n s by (normalized_skill_ids ids))
      (occurrences-normalized skill ids)
  where
    total :
        (b : Bool) (all old new : ℕ) {kept added there : ℕ}
        → all ≡ kept + added
        → kept ≡ (if b then 0 else old)
        → added ≡ (if b then there else 0)
        → there ≡ new
        → all ≡ (if b then new else old)
    total true all old new e f g h = omega (arith, e, f, g, h)
    total false all old new e f g h = omega (arith, e, f, g, h)

-- Is no id given that is not empty?
abbrev pub are_blank : List String → Bool
are_blank [] = true
are_blank (i ∷ ids) = not (is_text i) && are_blank ids

any_text :
    (skill : String) (ids : List String)
    → any_where (str_eq skill) (where_true is_text ids)
      ≡ (is_text skill && any_where (str_eq skill) ids)
any_text skill [] = ground arith
any_text skill (i ∷ ids) = elim (Bool-cases (is_text i)) [
  | inl e ↦ elim (Bool-cases (str_eq skill i)) [
    | inl own ↦
        let same : skill ≡ i = ground (arith, eq_iff skill i) in
        let text : is_text skill ≡ true = ap is_text same ∙ e in rw (e, own, text) refl
    | inr other ↦ rw (e, other) (any_text skill ids)
  ]
  | inr e ↦ elim (Bool-cases (str_eq skill i)) [
    | inl own ↦
        let same : skill ≡ i = ground (arith, eq_iff skill i) in
        let text : is_text skill ≡ false = ap is_text same ∙ e in
        rw (e, any_text skill ids, text) refl
    | inr other ↦ rw (e, other) (any_text skill ids)
  ]
]

-- With an id left, the skill is among the ids; without one, all skills are meant.
is_chosen-lem :
    (skill : String) (ids : List String)
    → is_chosen (where_true is_text ids) skill
      ≡ (are_blank ids || is_text skill && any_where (str_eq skill) ids)
is_chosen-lem skill [] = refl
is_chosen-lem skill (i ∷ ids) = elim (Bool-cases (is_text i)) [
  | inl e ↦ let h = any_text skill (i ∷ ids) in rw (e) (rw (e) at h)
  | inr e ↦ elim (Bool-cases (str_eq skill i)) [
    | inl own ↦
        let same : skill ≡ i = ground (arith, eq_iff skill i) in
        let text : is_text skill ≡ false = ap is_text same ∙ e in
        rw (e, is_chosen-lem skill ids, text) refl
    | inr other ↦ rw (e, other) (is_chosen-lem skill ids)
  ]
]

-- A deletion says how many rows it took. Where only empty ids or none are given it takes every row of
-- the node, otherwise every row of the node whose skill is among the ids and not empty; with a source
-- given, only rows from this source. All else stands as often as before.
pub delete_node_skill_assignments_lem :
    (n : String) (ids : Option (List String)) (s : Option NodeSkillAssignmentSource)
    (table : Assignments) (node skill : String) (source : NodeSkillAssignmentSource)
    → let (deleted, table') = delete_node_skill_assignments n ids s table in
      let given = or_empty ids in
      (count node skill source table' ≡ (
        if str_eq node n
          && ((are_blank given || is_text skill && any_where (str_eq skill) given)
              && is_from s source)
        then 0
        else count node skill source table))
      × (deleted + length table' ≡ length table)
unfolding delete_node_skill_assignments
delete_node_skill_assignments_lem n ids s table node skill source = (
  subst
      (λ b.
        count node skill source (delete_node_skill_assignments n ids s table).1
        ≡ (if str_eq node n && (b && is_from s source) then 0 else count node skill source table))
      (is_chosen-lem skill (or_empty ids))
      (count-where_true node skill source (is_deleted n ids s)
        (str_eq node n && (is_chosen (where_true is_text (or_empty ids)) skill && is_from s source))
        (λ a h.
          let (en, ek, es) = is_assignment-fields node skill source a h in rw (en, ek, es) refl)
        table),
  both table,
)
  where
    both :
        (t : Assignments)
        → length (where_true (is_deleted n ids s) t)
            + length (where_true (λ a. not (is_deleted n ids s a)) t)
          ≡ length t
    both [] = refl
    both (a ∷ t) = elim (Bool-cases (is_deleted n ids s a)) [
      | inl e ↦ rw e (omega (arith, both t))
      | inr e ↦ rw e (omega (arith, both t))
    ]
