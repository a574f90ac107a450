-- ===== src/Ipc/Agreement.antt =====
-- The route of the router and the transition of the ledger (src/omniclaw/ipc/service.py,
-- `_process_source_file`, and src/omniclaw/forms/service.py, `_transition_form`).
use omni_claw.Prelude.{
  String, false, Option, none, some, List, [], ◌∷◌, ◌≡◌, refl, sym, ap, subst, ◌∙◌, inl, inr,
  is_empty, strip, Bool-cases, ℕ, or_else, some_inj, is_space, trim_idem,
}
use omni_claw.Result.{done, bind_done, done_inj}
use omni_claw.Org.Nodes.{Node}
use omni_claw.Forms.Json.{Json, text, array, Items, field, get_member, filled_text}
use omni_claw.Forms.Types.{FormTypes, FormTypeDefinition, get_form_type_definition}
use omni_claw.Forms.Ledger.{
  FormLedger, Ledger, set_details, Details, apply_settings, Transition, transition_form_instance,
}
use omni_claw.Forms.Conflicts.{transition_form_instance-Accepted}
use omni_claw.Forms.Graph.{stage_edges, project_workflow_graph}
use omni_claw.Forms.Routes.{candidates, rule_of, resolve_edge, resolve_next_holder}
use omni_claw.Forms.Workflow.{
  TransitionRequest, text_of_edge, find_form, plan_transition, transition_form,
}
use omni_claw.Forms.Edges.{edge_among_lem}
use omni_claw.Forms.Authority.{transition_form-Steps, authorize-held}
use omni_claw.Forms.Projected.{Among-stage, candidates-one, edge_of}
use omni_claw.Ipc.Outcome.{accepted}
use omni_claw.Ipc.Frontmatter.{Fields}
use omni_claw.Ipc.Files.{FilePath, Store}
use omni_claw.Ipc.Stages.{frontmatter_decision, optional_str, stripped, decisions_of, filled}
use omni_claw.Ipc.Plan.{Route, plan_route, target_of}
use omni_claw.Ipc.Delivery.{Copies}
use omni_claw.Ipc.Request.{columns, Letter, routing_request, id_of}
use omni_claw.Ipc.Holder.{held_by, resolve_target_node-held}
use omni_claw.Ipc.Planned.{
  Planned, plan_route-Planned, project_workflow_graph-edges, decisions_of-HasDecision, edge_of-rule,
  edge_of-fits, edge_of-to,
}

-- A decision in the frontmatter has a name, without blanks around it.
optional_str-stripped :
    (o : Option String) (s : String)
    → optional_str o ≡ some s
    → (strip s ≡ s) × (is_empty s ≡ false)
unfolding optional_str strip
optional_str-stripped none s h = cc
optional_str-stripped (some raw) s h = elim (Bool-cases (is_empty (strip raw))) [
  | inl blank ↦ let k : none ≡ some s = rw blank at h in cc
  | inr filled ↦
      let it : strip raw ≡ s = some_inj (rw filled at h) in
      (
        subst (λ (x : String). strip x ≡ x) it (trim_idem is_space raw),
        subst (λ (x : String). is_empty x ≡ false) it filled,
      )
]

frontmatter_decision-stripped :
    (fields : Fields) (s : String)
    → frontmatter_decision fields ≡ some s
    → (strip s ≡ s) × (is_empty s ≡ false)
frontmatter_decision-stripped fields s h = by_decision (filled "decision" fields) refl
  where
    by_decision :
        (o : Option String) → filled "decision" fields ≡ o → (strip s ≡ s) × (is_empty s ≡ false)
    by_decision none absent = optional_str-stripped _ s (rw absent at h)
    by_decision (some d) there = optional_str-stripped _ s (there ∙ rw there at h)

-- The next stage has a name.
stripped-filled : (to s : String) → stripped (text to) ≡ some s → is_empty (strip to) ≡ false
stripped-filled to s h = elim (Bool-cases (is_empty (strip to))) [
  | inl blank ↦ let k : none ≡ some s = rw (blank, stripped, filled_text) at h in cc
  | inr filled ↦ filled
]

-- The edge that a planned transition takes, and what the transition asks for.
record Taken (repr : Json → String) (request : TransitionRequest) (nodes : List Node)
    (form : FormLedger) (definition : FormTypeDefinition) (actor : String) (t : Transition)
    : Type 0 where
  edges : Items
  edge : Json
  graph : field "edges" (project_workflow_graph definition.workflow_graph) ≡ array edges
  one : candidates form.current_status request.decision_key request.to_status edges ≡ edge ∷ []
  held :
      resolve_next_holder repr form edge (some actor) request.context nodes
      ≡ done t.new_holder_node_id
  to : t.to_status ≡ text_of_edge repr "to" edge
  settings : t.set_fields ≡ request.set_fields

plan_transition-Taken :
    (repr : Json → String) (request : TransitionRequest) (nodes : List Node) (form : FormLedger)
    (definition : FormTypeDefinition) (actor : String) (t : Transition)
    → plan_transition repr request form definition actor nodes ≡ done t
    → Taken repr request nodes form definition actor t
unfolding plan_transition resolve_edge
plan_transition-Taken repr request nodes form definition actor t h =
    let (edge, chosen, rest) = bind_done _ _ t h in
    let (holder, next, last) = bind_done _ _ t rest in
    let (edges, graph, one) =
      edge_among_lem form.current_status request.decision_key request.to_status
        (field "edges" (project_workflow_graph definition.workflow_graph)) edge chosen in
    let same = done_inj last in
    record {
      edges = edges;
      edge = edge;
      graph = graph;
      one = one;
      held = next ∙ ap (λ (u : Transition). done u.new_holder_node_id) same;
      to = ap (λ (u : Transition). u.to_status) (sym same);
      settings = ap (λ (u : Transition). u.set_fields) (sym same);
    }

array_inj : {a b : Items} → array a ≡ array b → a ≡ b
array_inj h = cc

-- Details alone leave the new status and the new holder.
details-kept :
    (t : Transition) (change : Details → Details) (ledger ledger' : Ledger) (f : FormLedger)
    → t.set_fields ≡ set_details change ∷ []
    → transition_form_instance t ledger ≡ (done f, ledger')
    → (f.current_status ≡ t.to_status) × (f.current_holder_node ≡ t.new_holder_node_id)
unfolding apply_settings
details-kept t change ledger ledger' f only h =
    let (entry, _, a) = transition_form_instance-Accepted t ledger f ledger' h in
    let it = done_inj (rw only at a.applied) in
    (
      ap (λ (x : FormLedger). x.current_status) a.result
          ∙ ap (λ (x : FormLedger). x.current_status) (sym it),
      ap (λ (x : FormLedger). x.current_holder_node) a.result
          ∙ ap (λ (x : FormLedger). x.current_holder_node) (sym it),
    )

module _ (repr : Json → String) (letter : Letter) (route : Route) (form_id : String)
    (copies : Copies) (at : ℕ) (nodes : List Node) where
  abbrev request : TransitionRequest
  request = routing_request letter route form_id copies at

  -- The edge of the planned decision is the one that the transition takes.
  Planned-edge :
      (definition : FormTypeDefinition) (form : FormLedger) (actor : String) (t : Transition)
      (payload : Json)
      → Planned definition letter nodes route
      → Taken repr request nodes form definition actor t
      → form.current_status ≡ route.choice.stage
      → get_member route.choice.stage route.graph.stages ≡ some payload
      → field route.choice.decision (decisions_of payload) ≡ text route.choice.next_stage
      → (edge : Json) × (resolve_next_holder repr form edge (some actor) request.context nodes
          ≡ done t.new_holder_node_id)
        × (t.to_status ≡ text_of_edge repr "to" edge)
        × (edge_of route.graph.stages route.choice.stage route.choice.decision
              route.choice.next_stage
            ≡ edge)
  Planned-edge definition form actor t payload planned taken status there leads =
      let S = route.graph.stages in
      let chosen = planned.chosen in
      let same_payload : chosen.payload ≡ payload = some_inj (sym chosen.there ∙ there) in
      let filled = stripped-filled route.choice.next_stage route.choice.next_stage (
        ap stripped (sym leads)
        ∙ ap (λ (p : Json). stripped (field route.choice.decision (decisions_of p)))
            (sym same_payload)
        ∙ chosen.leads) in
      let (bare, named) =
        frontmatter_decision-stripped letter.fields route.choice.decision chosen.decided in
      let among =
        Among-stage S S route.choice.stage route.choice.decision route.choice.next_stage payload
          there
          (decisions_of-HasDecision payload route.choice.decision route.choice.next_stage leads)
          filled bare named in
      let all : array taken.edges ≡ array (stage_edges S S) =
        sym taken.graph ∙ project_workflow_graph-edges definition.workflow_graph S planned.stages in
      let one : candidates route.choice.stage (some route.choice.decision) none (stage_edges S S)
          ≡ taken.edge ∷ [] =
        subst
          (λ (s : String).
            candidates s (some route.choice.decision) none (stage_edges S S) ≡ taken.edge ∷ [])
          status
          (subst
            (λ (es : Items).
              candidates form.current_status (some route.choice.decision) none es ≡ taken.edge ∷ [])
            (array_inj all) taken.one) in
      (
        taken.edge,
        taken.held,
        taken.to,
        candidates-one route.choice.stage (some route.choice.decision) none _ taken.edge
            (stage_edges S S) among
            (edge_of-fits S route.choice.stage route.choice.decision route.choice.next_stage) one,
      )

  -- Where a file's route has been planned on a version of a workflow, and the form that the transition
  -- finds has this version's type and stands at the file's stage, and the stage writes the name of the
  -- next stage without blanks around it: a transition that is accepted gives the form the next stage of
  -- the route as its status, and the node to which the router delivers the file, or nobody where the
  -- stage has no target, as its holder.
  pub transition_form-follows_route :
      (forms_root : FilePath) (before ledger ledger' : Ledger) (store : Store) (form_type : String)
      (definition : FormTypeDefinition) (types : FormTypes) (form f : FormLedger) (actor : String)
      (payload : Json)
      → plan_route forms_root letter.sender nodes before store form_type letter.fields definition
        ≡ accepted route
      → find_form request nodes ledger ≡ done (form, actor)
      → form.current_status ≡ route.choice.stage
      → get_form_type_definition
          (or_else form.form_type_key "")
          (some (or_else form.form_type_version ""))
          false
          types
        ≡ some definition
      → get_member route.choice.stage route.graph.stages ≡ some payload
      → field route.choice.decision (decisions_of payload) ≡ text route.choice.next_stage
      → transition_form repr request nodes types ledger ≡ (done f, ledger')
      → (f.current_status ≡ route.choice.next_stage)
        × (f.current_holder_node ≡ id_of route.target.node)
  unfolding resolve_next_holder
  transition_form-follows_route forms_root before ledger ledger' store form_type definition types
        form f actor payload route_ok found status bound there leads ok =
      let planned =
        plan_route-Planned forms_root letter nodes before store form_type definition route
          route_ok in
      let s = transition_form-Steps repr request nodes types ledger f ledger' ok in
      let same_form : form ≡ s.form =
        ap (λ (p : FormLedger × String). p.0) (done_inj (sym found ∙ s.found)) in
      let (_, own) =
        authorize-held repr request nodes s.form s.actor types s.definition s.allowed in
      let same_definition : definition ≡ s.definition = some_inj (
        sym bound
        ∙ ap
            (λ (x : FormLedger).
              get_form_type_definition (or_else x.form_type_key "")
                (some (or_else x.form_type_version "")) false types)
            same_form
        ∙ own) in
      let taken =
        plan_transition-Taken repr request nodes s.form s.definition s.actor s.t s.planned in
      let (edge, held, to, it) =
        Planned-edge s.definition s.form s.actor s.t payload
          (subst (λ (d : FormTypeDefinition). Planned d letter nodes route) same_definition planned)
          taken (ap (λ (x : FormLedger). x.current_status) (sym same_form) ∙ status) there leads in
      let (new_status, new_holder) =
        details-kept s.t (columns letter route copies) ledger ledger' f taken.settings s.move in
      let rule =
        ap rule_of (sym it)
        ∙ edge_of-rule route.graph.stages route.choice.stage route.choice.decision
            route.choice.next_stage route.choice.next planned.chosen.next in
      (
        new_status
            ∙ to
            ∙ ap (text_of_edge repr "to") (sym it)
            ∙ edge_of-to repr route.graph.stages route.choice.stage route.choice.decision
                route.choice.next_stage,
        new_holder
            ∙ resolve_target_node-held repr s.form.current_holder_node (some s.actor) nodes
                letter.fields route.initiator route.target s.t.new_holder_node_id
                (target_of route.choice.next) planned.aimed
                (ap
                    (λ (r : Json).
                      held_by repr s.form.current_holder_node (some s.actor) nodes r
                        request.context)
                    (sym rule)
                  ∙ held),
      )
