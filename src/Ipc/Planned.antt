-- ===== src/Ipc/Planned.antt =====
-- What stands behind a route that the router has planned (src/omniclaw/ipc/service.py,
-- `_process_source_file`), and the edge of the flat workflow that it takes
-- (src/omniclaw/forms/service.py, `_project_workflow_graph`).
use omni_claw.Prelude.{
  String, true, Option, none, some, List, ◌≡◌, refl, sym, ap, subst, ◌∙◌, eq_iff, some_inj,
}
use omni_claw.Org.Nodes.{Node}
use omni_claw.Forms.Json.{
  Json, null, boolean, number, text, object, array, or_null, no_members, Members, member, field,
  get_member,
}
use omni_claw.Forms.Types.{FormTypeDefinition}
use omni_claw.Forms.Ledger.{Ledger}
use omni_claw.Forms.Graph.{
  stage_edges, project_workflow_graph, project_stage_graph, target_rule,
  holder_rule_from_stage_target, stage_decisions,
}
use omni_claw.Forms.Routes.{rule_of, is_candidate}
use omni_claw.Forms.Workflow.{text_of_edge}
use omni_claw.Forms.Projected.{edge_of, HasDecision}
use omni_claw.Ipc.Outcome.{
  Checked, refused, accepted, or_refuse, or_refuse-accepted, bind_accepted, accepted_inj,
}
use omni_claw.Ipc.Frontmatter.{Fields}
use omni_claw.Ipc.Files.{FilePath, Store}
use omni_claw.Ipc.Stages.{
  StageGraph, load_stage_graph, frontmatter_decision, stripped, decisions_of, current_stage,
  stages_of, start_of, end_of, as_members,
}
use omni_claw.Ipc.Targets.{resolve_target_node, resolve_existing_form, resolve_initiator_node_id}
use omni_claw.Ipc.Plan.{
  Failure, Route, Choice, noted, early, at_choice, choose_stage, check_route, check_skill,
  check_form, plan_route, target_of,
}
use omni_claw.Ipc.Request.{Letter}

noted-accepted {κ} :
    {V : Type κ} (tell : String → Failure) (r : Checked V) (v : V)
    → noted tell r ≡ accepted v
    → r ≡ accepted v
noted-accepted tell (refused why) v h = cc
noted-accepted tell (accepted w) v h = ap accepted (accepted_inj h)

-- What the choice of the stages found.
pub record Chosen (fields : Fields) (graph : StageGraph) (choice : Choice) : Type 0 where
  pub payload : Json
  pub there : get_member choice.stage graph.stages ≡ some payload
  pub decided : frontmatter_decision fields ≡ some choice.decision
  pub leads : stripped (field choice.decision (decisions_of payload)) ≡ some choice.next_stage
  pub next : get_member choice.next_stage graph.stages ≡ some choice.next

choose_stage-Chosen :
    (form_type : String) (fields : Fields) (graph : StageGraph) (choice : Choice)
    → choose_stage form_type fields graph ≡ accepted choice
    → Chosen fields graph choice
unfolding choose_stage
choose_stage-Chosen form_type fields graph choice h =
    let (payload, there, rest) =
      bind_accepted (or_refuse _ (get_member (current_stage fields graph) graph.stages)) _ choice
        h in
    let (decision, decided, rest2) =
      bind_accepted (or_refuse _ (frontmatter_decision fields)) _ choice rest in
    let (next_stage, leads, rest3) =
      bind_accepted (or_refuse _ (stripped (field decision (decisions_of payload)))) _ choice
        rest2 in
    let (next, found, last) =
      bind_accepted (or_refuse _ (get_member next_stage graph.stages)) _ choice rest3 in
    subst (Chosen fields graph) (accepted_inj last) (record {
      payload = payload;
      there = or_refuse-accepted _ _ payload there;
      decided = or_refuse-accepted _ _ decision decided;
      leads = or_refuse-accepted _ _ next_stage leads;
      next = or_refuse-accepted _ _ next found;
    })

check_route-target :
    (forms_root : FilePath) (sender : Node) (nodes : List Node) (ledger : Ledger) (store : Store)
    (form_type : String) (fields : Fields) (definition : FormTypeDefinition) (graph : StageGraph)
    (choice : Choice) (route : Route)
    → check_route forms_root sender nodes ledger store form_type fields definition graph choice
      ≡ accepted route
    → (route.graph ≡ graph)
      × (route.choice ≡ choice)
      × (resolve_target_node (target_of choice.next) fields route.initiator nodes
          ≡ accepted route.target)
unfolding check_route
check_route-target forms_root sender nodes ledger store form_type fields definition graph choice
      route h =
    let told = at_choice form_type fields choice in
    let (skill, _, rest) =
      bind_accepted (noted told (check_skill forms_root form_type store choice)) _ route h in
    let (existing, _, rest2) =
      bind_accepted (noted told (resolve_existing_form fields ledger)) _ route rest in
    let (_, _, rest3) =
      bind_accepted (check_form told sender graph choice nodes existing) _ route rest2 in
    let (initiator, _, rest4) =
      bind_accepted (noted told (resolve_initiator_node_id sender fields existing nodes)) _ route
        rest3 in
    let (target, got, last) =
      bind_accepted
        (noted told (resolve_target_node (target_of choice.next) fields initiator nodes)) _ route
        rest4 in
    let same = accepted_inj last in
    (
      ap (λ (r : Route). r.graph) (sym same),
      ap (λ (r : Route). r.choice) (sym same),
      subst
          (λ (r : Route).
            resolve_target_node (target_of choice.next) fields r.initiator nodes
            ≡ accepted r.target)
          same (noted-accepted told _ target got),
    )

stages_of_lem : (v : Json) (stages : Members) → stages_of v ≡ some stages → v ≡ object stages
stages_of_lem (object (member k v m)) stages h = ap object (some_inj h)
stages_of_lem (object no_members) stages h = cc
stages_of_lem null stages h = cc
stages_of_lem (boolean b) stages h = cc
stages_of_lem (number n) stages h = cc
stages_of_lem (text s) stages h = cc
stages_of_lem (array r) stages h = cc

load_stage_graph-stages :
    (workflow : Members) (graph : StageGraph)
    → load_stage_graph workflow ≡ accepted graph
    → field "stages" workflow ≡ object graph.stages
unfolding load_stage_graph
load_stage_graph-stages workflow graph h =
    let (stages, there, rest) =
      bind_accepted (or_refuse _ (stages_of (field "stages" workflow))) _ graph h in
    let (start, _, rest2) = bind_accepted (or_refuse _ (start_of workflow stages)) _ graph rest in
    let (end, _, last) = bind_accepted (or_refuse _ (end_of workflow stages)) _ graph rest2 in
    stages_of_lem _ stages (or_refuse-accepted _ _ stages there)
    ∙ ap (λ (g : StageGraph). object g.stages) (accepted_inj last)

pub project_workflow_graph-edges :
    (workflow stages : Members)
    → field "stages" workflow ≡ object stages
    → field "edges" (project_workflow_graph workflow) ≡ array (stage_edges stages stages)
unfolding project_workflow_graph project_stage_graph get_member stage_edges
project_workflow_graph-edges workflow stages there = rw (there, project_workflow_graph) refl

or_null_lem : (o : Option Json) (s : String) → or_null o ≡ text s → o ≡ some (text s)
or_null_lem none s h = cc
or_null_lem (some v) s h = ap some h

as_members-object :
    (v : Json) (key s : String)
    → field key (as_members v) ≡ text s
    → (m : Members) × (v ≡ object m) × (get_member key m ≡ some (text s))
unfolding get_member
as_members-object (object m) key s h = (m, refl, or_null_lem (get_member key m) s h)
as_members-object null key s h = cc
as_members-object (boolean b) key s h = cc
as_members-object (number n) key s h = cc
as_members-object (text t) key s h = cc
as_members-object (array r) key s h = cc

-- A decision of the stage that is written without blanks is one of its dictionary.
pub decisions_of-HasDecision :
    (payload : Json) (decision to : String)
    → field decision (decisions_of payload) ≡ text to
    → HasDecision payload decision to
unfolding get_member
decisions_of-HasDecision (object stage) decision to h =
    as_members-object (stage_decisions stage) decision to h
decisions_of-HasDecision null decision to h = cc
decisions_of-HasDecision (boolean b) decision to h = cc
decisions_of-HasDecision (number n) decision to h = cc
decisions_of-HasDecision (text t) decision to h = cc
decisions_of-HasDecision (array r) decision to h = cc

target_rule_lem : (v : Json) → target_rule v ≡ holder_rule_from_stage_target (target_of v)
target_rule_lem (object stage) = refl
target_rule_lem null = refl
target_rule_lem (boolean b) = refl
target_rule_lem (number n) = refl
target_rule_lem (text s) = refl
target_rule_lem (array r) = refl

-- The rule that an edge of a decision carries.
pub edge_of-rule :
    (stages : Members) (stage decision to : String) (next : Json)
    → get_member to stages ≡ some next
    → rule_of (edge_of stages stage decision to) ≡ holder_rule_from_stage_target (target_of next)
unfolding get_member
edge_of-rule stages stage decision to next there =
    ap (λ (o : Option Json). target_rule (or_null o)) there ∙ target_rule_lem next

pub edge_of-fits :
    (stages : Members) (stage decision to : String)
    → is_candidate stage (some decision) none (edge_of stages stage decision to) ≡ true
unfolding get_member
edge_of-fits stages stage decision to =
    rw ((eq_iff stage stage).1 refl, (eq_iff decision decision).1 refl) refl

pub edge_of-to :
    (repr : Json → String) (stages : Members) (stage decision to : String)
    → text_of_edge repr "to" (edge_of stages stage decision to) ≡ to
unfolding get_member
edge_of-to repr stages stage decision String.[] = refl
edge_of-to repr stages stage decision (String.◌∷◌ c s) = refl

-- What the router asks of the ledger, for a planned route.
pub record Planned (definition : FormTypeDefinition) (letter : Letter) (nodes : List Node)
    (route : Route) : Type 0 where
  pub stages : field "stages" definition.workflow_graph ≡ object route.graph.stages
  pub chosen : Chosen letter.fields route.graph route.choice
  pub aimed :
      resolve_target_node (target_of route.choice.next) letter.fields route.initiator nodes
      ≡ accepted route.target

pub plan_route-Planned :
    (forms_root : FilePath) (letter : Letter) (nodes : List Node) (ledger : Ledger) (store : Store)
    (form_type : String) (definition : FormTypeDefinition) (route : Route)
    → plan_route forms_root letter.sender nodes ledger store form_type letter.fields definition
      ≡ accepted route
    → Planned definition letter nodes route
unfolding plan_route
plan_route-Planned forms_root letter nodes ledger store form_type definition route h =
    let told = early (some form_type) letter.fields in
    let (graph, loaded, rest) =
      bind_accepted (noted told (load_stage_graph definition.workflow_graph)) _ route h in
    let (choice, made, last) =
      bind_accepted (choose_stage form_type letter.fields graph) _ route rest in
    let (same_graph, same_choice, aimed) =
      check_route-target forms_root letter.sender nodes ledger store form_type letter.fields
        definition graph choice route last in
    record {
      stages =
          load_stage_graph-stages definition.workflow_graph graph
            (noted-accepted told _ graph loaded)
          ∙ ap (λ (g : StageGraph). object g.stages) (sym same_graph);
      chosen =
          subst (λ (g : StageGraph). Chosen letter.fields g route.choice) (sym same_graph)
            (subst (Chosen letter.fields graph) (sym same_choice)
              (choose_stage-Chosen form_type letter.fields graph choice made));
      aimed =
          subst
            (λ (c : Choice).
              resolve_target_node (target_of c.next) letter.fields route.initiator nodes
              ≡ accepted route.target)
            (sym same_choice) aimed;
    }
