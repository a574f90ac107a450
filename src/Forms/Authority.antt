-- ===== src/Forms/Authority.antt =====
-- Who may move a form, and where to (src/omniclaw/forms/service.py, `_transition_form`).
use omni_claw.Prelude.{
  String, ◌≡◌, sym, ap, subst, ◌∙◌, true, false, some, List, [], ◌∷◌, inl, inr, or_else,
  Option-cases,
}
use omni_claw.Result.{
  Result, raise, done, Error, transition_conflict, http, value_error, Result-cases, bind_done,
  require_done, or_raise_done, done_inj, is_done,
}
use omni_claw.Org.Nodes.{Node}
use omni_claw.Forms.Json.{Json, array, Items, field}
use omni_claw.Forms.Types.{FormTypes, FormTypeDefinition, get_form_type_definition}
use omni_claw.Forms.Graph.{project_workflow_graph}
use omni_claw.Forms.Ledger.{
  FormLedger, Ledger, Transition, get_form_ledger, transition_form_instance,
}
use omni_claw.Forms.Conflicts.{Accepted}
use omni_claw.Forms.Routes.{candidates, resolve_edge}
use omni_claw.Forms.Workflow.{
  TransitionRequest, text_of_edge, as_conflict, plan_transition, transition_with_graph,
  resolve_actor_node_id, may_decide, authorize, require_text, lookup_form, with_actor, find_form,
  transition_form,
}
use omni_claw.Forms.Edges.{IsKnown, edge_among_lem, resolve_next_holder-IsKnown}

-- What stands behind an accepted move: the form, the actor, the version of its type, and the edge.
pub record IsSanctioned (repr : Json → String) (request : TransitionRequest) (nodes : List Node)
    (types : FormTypes) (ledger : Ledger) (f : FormLedger) (ledger' : Ledger) : Type 0 where
  pub form : FormLedger
  pub actor : String
  pub definition : FormTypeDefinition
  pub edges : Items
  pub edge : Json
  pub t : Transition
  pub asked : require_text request.form_id "form_id" ≡ done t.form_id
  pub there : get_form_ledger t.form_id ledger.forms ≡ some form
  pub named : resolve_actor_node_id request.actor_node_id request.actor_node_name nodes ≡ done actor
  pub held : may_decide form.current_holder_node actor ≡ true
  pub bound :
      get_form_type_definition
        (or_else form.form_type_key "")
        (some (or_else form.form_type_version ""))
        false
        types
      ≡ some definition
  pub graph : field "edges" (project_workflow_graph definition.workflow_graph) ≡ array edges
  pub one : candidates form.current_status request.decision_key request.to_status edges ≡ edge ∷ []
  pub from : t.expected_from_status ≡ form.current_status
  pub target : t.to_status ≡ text_of_edge repr "to" edge
  pub holder : IsKnown nodes t.new_holder_node_id
  pub fields : t.set_fields ≡ request.set_fields
  pub move : transition_form_instance t ledger ≡ (done f, ledger')
  pub result : Accepted t ledger f ledger' form

not_done :
    (x : Error) (l : Ledger) (f : FormLedger) (l' : Ledger)
    → ◌≡◌ {A = Result FormLedger × Ledger} (raise x, l) (done f, l')
    → ⊥
not_done x l f l' e =
    let k : false ≡ true = ap (λ (p : Result FormLedger × Ledger). is_done p.0) e in cc

module _ (repr : Json → String) (request : TransitionRequest) (nodes : List Node) where
  lookup_form-found :
      (who id : String) (ledger : Ledger) (form : FormLedger) (actor : String)
      → lookup_form who ledger id ≡ done (form, actor)
      → (get_form_ledger id ledger.forms ≡ some form) × (who ≡ actor)
  unfolding lookup_form
  lookup_form-found who id ledger form actor h =
      elim (Option-cases (get_form_ledger id ledger.forms)) [
        | inl absent ↦
            let k : false ≡ true =
              ap (λ (r : Result (FormLedger × String)). is_done r)
                (rw (absent, lookup_form) at h) in
            cc
        | inr (x, found) ↦
            let g = done_inj (rw (found, lookup_form) at h) in
            (
              found ∙ ap (λ (p : FormLedger × String). some p.0) g,
              ap (λ (p : FormLedger × String). p.1) g,
            )
      ]

  pub find_form-found :
      (ledger : Ledger) (form : FormLedger) (actor : String)
      → find_form request nodes ledger ≡ done (form, actor)
      → ((id : String) × (require_text request.form_id "form_id" ≡ done id)
          × (get_form_ledger id ledger.forms ≡ some form))
        × (resolve_actor_node_id request.actor_node_id request.actor_node_name nodes ≡ done actor)
  unfolding find_form with_actor
  find_form-found ledger form actor h =
      let (id, asked, rest) =
        bind_done (require_text request.form_id "form_id") (with_actor request nodes ledger)
          (form, actor) h in
      let (who, named, last) =
        bind_done (resolve_actor_node_id request.actor_node_id request.actor_node_name nodes)
          (λ a. lookup_form a ledger id) (form, actor) rest in
      let (found, same) = lookup_form-found who id ledger form actor last in
      ((id, asked, found), named ∙ ap done same)

  pub authorize-held :
      (form : FormLedger) (actor : String) (types : FormTypes) (d : FormTypeDefinition)
      → authorize form actor types ≡ done d
      → (may_decide form.current_holder_node actor ≡ true)
        × (get_form_type_definition
              (or_else form.form_type_key "")
              (some (or_else form.form_type_version ""))
              false
              types
            ≡ some d)
  unfolding authorize
  authorize-held form actor types d h =
      let (_, rest) = require_done _ _ _ d h in
      let (held, last) = require_done _ _ _ d rest in (held, or_raise_done _ _ d last)

  as_conflict_done :
      (r : Result FormLedger × Ledger) (f : FormLedger) (ledger' : Ledger)
      → as_conflict r ≡ (done f, ledger')
      → r ≡ (done f, ledger')
  as_conflict_done (done x, l) f ledger' h = h
  as_conflict_done (raise (http n s), l) f ledger' h = h
  as_conflict_done (raise (value_error s), l) f ledger' h = h
  as_conflict_done (raise (transition_conflict s), l) f ledger' h =
      let k : false ≡ true = ap (λ (p : Result FormLedger × Ledger). is_done p.0) h in cc

  pub plan_transition-parts :
      (form : FormLedger) (d : FormTypeDefinition) (actor : String) (t : Transition)
      → plan_transition repr request form d actor nodes ≡ done t
      → (edges : Items) × (edge : Json) × (field "edges" (project_workflow_graph d.workflow_graph)
          ≡ array edges)
        × (candidates form.current_status request.decision_key request.to_status edges ≡ edge ∷ [])
        × (t.expected_from_status ≡ form.current_status)
        × (t.to_status ≡ text_of_edge repr "to" edge)
        × (t.set_fields ≡ request.set_fields)
        × (t.form_id ≡ form.form_id)
        × IsKnown nodes t.new_holder_node_id
  unfolding plan_transition resolve_edge
  plan_transition-parts form d actor t h =
      let (edge, chosen, rest) = bind_done _ _ t h in
      let (holder, next, last) = bind_done _ _ t rest in
      let (edges, graph, one) =
        edge_among_lem form.current_status request.decision_key request.to_status
          (field "edges" (project_workflow_graph d.workflow_graph)) edge chosen in
      let same = done_inj last in
      (
        edges,
        edge,
        graph,
        one,
        ap (λ (u : Transition). u.expected_from_status) (sym same),
        ap (λ (u : Transition). u.to_status) (sym same),
        ap (λ (u : Transition). u.set_fields) (sym same),
        ap (λ (u : Transition). u.form_id) (sym same),
        subst (λ (u : Transition). IsKnown nodes u.new_holder_node_id) same
            (resolve_next_holder-IsKnown repr form edge (some actor) request.context nodes holder
              next),
      )

  with_graph-move :
      (form : FormLedger) (d : FormTypeDefinition) (actor : String) (ledger : Ledger)
      (f : FormLedger) (ledger' : Ledger)
      → transition_with_graph repr request form d actor nodes ledger ≡ (done f, ledger')
      → (t : Transition) × (plan_transition repr request form d actor nodes ≡ done t)
        × (transition_form_instance t ledger ≡ (done f, ledger'))
  unfolding transition_with_graph
  with_graph-move form d actor ledger f ledger' h =
      elim (Result-cases (plan_transition repr request form d actor nodes)) [
        | inl (e, refused) ↦
            absurd (not_done e ledger f ledger' (rw (refused, transition_with_graph) at h))
        | inr (t, planned) ↦
            (t, planned, as_conflict_done _ f ledger' (rw (planned, transition_with_graph) at h))
      ]

  -- The steps of an accepted move.
  pub record Steps (types : FormTypes) (ledger : Ledger) (f : FormLedger) (ledger' : Ledger)
      : Type 0 where
    pub form : FormLedger
    pub actor : String
    pub definition : FormTypeDefinition
    pub t : Transition
    pub found : find_form request nodes ledger ≡ done (form, actor)
    pub allowed : authorize form actor types ≡ done definition
    pub planned : plan_transition repr request form definition actor nodes ≡ done t
    pub move : transition_form_instance t ledger ≡ (done f, ledger')

  pub transition_form-Steps :
      (types : FormTypes) (ledger : Ledger) (f : FormLedger) (ledger' : Ledger)
      → transition_form repr request nodes types ledger ≡ (done f, ledger')
      → Steps types ledger f ledger'
  unfolding transition_form
  transition_form-Steps types ledger f ledger' h =
      elim (Result-cases (find_form request nodes ledger)) [
        | inl (e, refused) ↦
            absurd (not_done e ledger f ledger' (rw (refused, transition_form) at h))
        | inr ((form, actor), found) ↦ elim (Result-cases (authorize form actor types)) [
          | inl (e, refused) ↦
              absurd (not_done e ledger f ledger' (rw (found, refused, transition_form) at h))
          | inr (d, allowed) ↦
              let (t, planned, move) =
                with_graph-move form d actor ledger f ledger'
                  (rw (found, allowed, transition_form) at h) in
              record {
                form = form;
                actor = actor;
                definition = d;
                t = t;
                found = found;
                allowed = allowed;
                planned = planned;
                move = move;
              }
        ]
      ]
