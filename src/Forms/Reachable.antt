-- ===== src/Forms/Reachable.antt =====
-- What the validation of a stage graph promises (src/omniclaw/forms/service.py,
-- `_validate_stage_graph_definition`).
use omni_claw.Prelude.{
  suc, String, Bool, true, false, not, Option, none, some, List, [], ◌∷◌, ◌++◌, ◌≡◌, refl, sym, ap,
  subst, ◌∙◌, inl, inr, str_eq, eq_iff, length, All, Bool-cases, arith, if◌then◌else◌,
}
use omni_claw.Org.Nodes.{Node}
use omni_claw.Forms.Json.{
  Json, text, object, Members, no_members, member, get_member, field, filled_text,
}
use omni_claw.Forms.StageChecks.{
  Checks, check_stages, raw_stages, error_if, type_errors, is_without_stages, named_stage,
  start_value, has_stage,
}
use omni_claw.Forms.Validation.{
  is_marked, no_checks, is_nothing, unmarked, unreached, end_errors, searched, reach_errors,
  local_errors, validate_stage_graph_definition,
}
use omni_claw.Forms.Search.{Reaches, at_start, AreLeads, reach-AreReached, reach-ends}
use omni_claw.Forms.Declared.{check_stages-AreLeads, filled_text-text}

-- A list of errors in two parts is empty where both are.
pub no_error : (a b : List String) → a ++ b ≡ [] → (a ≡ []) × (b ≡ [])
no_error [] b h = (refl, h)
no_error (x ∷ a) b h = cc

marked-Reaches :
    (stages : Members) (start k : String) (marked : List String)
    → All (Reaches stages start) marked
    → is_marked k marked ≡ true
    → Reaches stages start k
marked-Reaches stages start k [] h m = cc
marked-Reaches stages start k (x ∷ marked) (hx, h) m = elim (Bool-cases (str_eq x k)) [
  | inl own ↦ subst (Reaches stages start) ((eq_iff x k).0 own) hx
  | inr other ↦ marked-Reaches stages start k marked h (rw other at m)
]

-- No name is left over, so each is marked.
all_marked :
    (marked : List String) (stages : Members) (k : String) (v : Json)
    → unmarked marked stages ≡ []
    → get_member k stages ≡ some v
    → is_marked k marked ≡ true
unfolding get_member
all_marked marked no_members k v e there = cc
all_marked marked (member j w m) k v e there = elim (Bool-cases (is_marked j marked)) [
  | inr new ↦ let no_way : j ∷ unmarked marked m ≡ [] = rw new at e in cc
  | inl old ↦ elim (Bool-cases (str_eq j k)) [
    | inl own ↦ subst (λ (x : String). is_marked x marked ≡ true) ((eq_iff j k).0 own) old
    | inr other ↦ all_marked marked m k v (rw old at e) (rw (other, get_member) at there)
  ]
]

pub error_if_none : (test : Bool) (why : String) → error_if test why ≡ [] → test ≡ false
error_if_none true why h = cc
error_if_none false why h = refl

is_nothing-nil : (xs : List String) → not (is_nothing xs) ≡ false → xs ≡ []
is_nothing-nil [] h = refl
is_nothing-nil (x ∷ xs) h = cc

unreached-Reaches :
    (stages : Members) (start end : String) (edges : List (String × String)) (k : String) (v : Json)
    → AreLeads stages edges
    → reach_errors stages (some start) (some end) edges ≡ []
    → get_member k stages ≡ some v
    → Reaches stages start k
unreached-Reaches stages start end edges k v real clean there =
    let (marked, found) = reach-ends edges start in
    let none_left : unreached stages start end marked ≡ [] =
      ap (searched stages start end) (sym found) ∙ clean in
    let (first, _) = no_error _ _ none_left in
    let whole = is_nothing-nil (unmarked marked stages) (error_if_none _ _ first) in
    marked-Reaches stages start k marked
      (reach-AreReached stages start (suc (length edges)) edges (start ∷ []) (start ∷ []) marked
        real (at_start, tt) (at_start, tt) found)
      (all_marked marked stages k v whole there)

-- A stage that the graph names without error.
record IsNamed (v : Json) (stages : Members) (o : Option String) : Type 0 where
  name : String
  given : filled_text v ≡ some name
  found : o ≡ some name
  there : has_stage name stages ≡ true

named_stage-IsNamed :
    (key : String) (v : Json) (stages : Members)
    → (named_stage key v stages).1 ≡ []
    → IsNamed v stages (named_stage key v stages).0
unfolding named_stage
named_stage-IsNamed key v stages h = by_text (filled_text v) refl
  where
    by_text :
        (o : Option String) → filled_text v ≡ o → IsNamed v stages (named_stage key v stages).0
    by_text none e = let k = rw (e, named_stage) at h in cc
    by_text (some s) e =
        let known = error_if_none _ _ (rw (e, named_stage) at h) in
        rw (e, named_stage)
          (record { name = s; given = e; found = refl; there = ground (arith, known) })

-- The parts of the errors before the search.
pub local_errors-parts :
    (repr : Json → String) (type_key : String) (graph stages : Members) (nodes : List Node)
    (start end : Option String × List String) (checks : Checks)
    → local_errors repr type_key graph stages nodes start end checks ≡ []
    → (start.1 ≡ []) × (end.1 ≡ []) × (checks.errors ≡ [])
unfolding local_errors
local_errors-parts repr type_key graph stages nodes (start, se) (end, ee) checks h =
    let (_, h1) = no_error (type_errors repr type_key graph) _ h in
    let (_, h2) =
      no_error
        (error_if (is_without_stages stages) "workflow_graph.stages must be a non-empty object") _
        h1 in
    let (starts, h3) = no_error se _ h2 in
    let (ends, h4) = no_error ee _ h3 in
    let (clean, _) = no_error checks.errors (end_errors end checks.edges) h4 in
    (starts, ends, clean)

module _ (repr : Json → String) (path_of : String → String) (is_there : String → Bool)
    (nodes : List Node) (type_key : String) (graph : Members) where
  abbrev pub S : Members
  S = raw_stages (field "stages" graph)

  abbrev pub start_stage : Option String × List String
  start_stage =
      named_stage "workflow_graph.start_stage" (start_value (field "start_stage" graph) S) S

  abbrev pub end_stage : Option String × List String
  end_stage = named_stage "workflow_graph.end_stage" (field "end_stage" graph) S

  abbrev pub checks : Checks
  checks = check_stages S nodes S no_checks

  -- Nothing is wrong before the search, nor in it.
  pub clean_parts :
      validate_stage_graph_definition repr path_of is_there nodes type_key graph ≡ []
      → (local_errors repr type_key graph S nodes start_stage end_stage checks ≡ [])
        × (reach_errors S start_stage.0 end_stage.0 checks.edges ≡ [])
  unfolding validate_stage_graph_definition
  clean_parts clean =
      let local = local_errors repr type_key graph S nodes start_stage end_stage checks in
      let searched : List String =
        if is_nothing local then reach_errors S start_stage.0 end_stage.0 checks.edges else [] in
      let (none_before, rest) = no_error local _ clean in
      let (none_in, _) = no_error searched _ rest in
      (
        none_before,
        subst
            (λ (l : List String).
              (if is_nothing l then reach_errors S start_stage.0 end_stage.0 checks.edges else [])
              ≡ [])
            none_before none_in,
      )

  all_reached :
      (k : String) (v : Json)
      → validate_stage_graph_definition repr path_of is_there nodes type_key graph ≡ []
      → get_member k S ≡ some v
      → (start : String) × (start_value (field "start_stage" graph) S ≡ text start)
        × (has_stage start S ≡ true)
        × Reaches S start k
  all_reached k v clean there =
      let (before, none_in) = clean_parts clean in
      let (starts, ends, _) =
        local_errors-parts repr type_key graph S nodes start_stage end_stage checks before in
      let start =
        named_stage-IsNamed "workflow_graph.start_stage" (start_value (field "start_stage" graph) S)
          S starts in
      let end = named_stage-IsNamed "workflow_graph.end_stage" (field "end_stage" graph) S ends in
      let found : reach_errors S (some start.name) (some end.name) checks.edges ≡ [] =
        ap (λ (o : Option String). reach_errors S o (some end.name) checks.edges) (sym start.found)
        ∙ ap (λ (o : Option String). reach_errors S start_stage.0 o checks.edges) (sym end.found)
        ∙ none_in in
      (
        start.name,
        filled_text-text _ start.name start.given,
        start.there,
        unreached-Reaches S start.name end.name checks.edges k v
            (check_stages-AreLeads S nodes S no_checks (λ j w h. h) tt) found there,
      )

  -- A workflow that is accepted without an error names a start among its stages, and each of its stages
  -- can be reached from there by decisions that stages of the workflow declare.
  pub validate_stage_graph_definition-Reaches :
      (stages : Members) (k : String) (v : Json)
      → validate_stage_graph_definition repr path_of is_there nodes type_key graph ≡ []
      → field "stages" graph ≡ object stages
      → get_member k stages ≡ some v
      → (start : String) × (start_value (field "start_stage" graph) stages ≡ text start)
        × (has_stage start stages ≡ true)
        × Reaches stages start k
  validate_stage_graph_definition-Reaches stages k v clean is_dict there =
      subst
        (λ (M : Members).
          get_member k M ≡ some v
          → (start : String) × (start_value (field "start_stage" graph) M ≡ text start)
            × (has_stage start M ≡ true)
            × Reaches M start k)
        (ap raw_stages is_dict) (all_reached k v clean) there
