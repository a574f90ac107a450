-- ===== src/Ipc/Holder.antt =====
-- The node to which the router delivers a form and the node that the workflow's rule makes its holder
-- (src/omniclaw/ipc/service.py, `_resolve_target_node`; src/omniclaw/forms/service.py,
-- `_holder_rule_from_stage_target` and `_resolve_next_holder`).
use omni_claw.Prelude.{
  String, true, false, Option, none, some, List, [], ◌∷◌, ◌≡◌, refl, sym, ap, subst, ◌∙◌, inl, inr,
  str_eq, is_empty, strip, is_space, trim_idem, if◌then◌else◌, Bool-cases, Option-cases,
  first_where-true, eq_iff,
}
use omni_claw.Result.{Result, raise, done, ◌>>=◌, bind_done, done_inj}
use omni_claw.Org.Nodes.{Node, has_id, list_nodes_by_name}
use omni_claw.Org.References.{
  Lookup, found, empty_reference, id_not_found, name_not_found, name_not_unique, looks_like_uuid,
  by_id, unique, resolve_unique_node_reference,
}
use omni_claw.Forms.Json.{Json, text, Members, field, get_member, filled_text}
use omni_claw.Forms.Graph.{variable_name, rule_from_target, holder_rule_from_stage_target, one, two}
use omni_claw.Forms.Routes.{
  bad, holder_by, apply_strategy, check_resolved, resolve_unique_node_id_by_name, require_node,
}
use omni_claw.Ipc.Outcome.{
  Checked, accepted, ◌>>=◌ as ◌>>>◌, or_refuse, bind_accepted, accepted_inj,
}
use omni_claw.Ipc.Frontmatter.{Fields}
use omni_claw.Ipc.Stages.{is_no_target, filled, first_filled}
use omni_claw.Ipc.Targets.{
  Target, node_by_id, checked_lookup, resolve_node_reference, resolve_target, resolve_target_node,
  routing_context, any_node, id_field, TargetMode, single, any_agent, one_node, no_target,
}
use omni_claw.Ipc.Request.{to_members, id_of}
use omni_claw.Ipc.Contexts.{routing_context-lem}

strip_idem : (s : String) → strip (strip s) ≡ strip s
unfolding strip
strip_idem s = trim_idem is_space s

checked_lookup-found :
    (value : String) (l : Lookup) (n : Node) → checked_lookup value l ≡ accepted n → l ≡ found n
checked_lookup-found value (found m) n h = ap found (accepted_inj h)
checked_lookup-found value empty_reference n h = cc
checked_lookup-found value id_not_found n h = cc
checked_lookup-found value name_not_found n h = cc
checked_lookup-found value (name_not_unique c) n h = cc

-- How a reference without blanks around it names its node.
data Named (t : String) (nodes : List Node) (n : Node) : Type 0 where
  by_its_id : looks_like_uuid t ≡ true → n.id ≡ t → Named t nodes n
  by_its_name :
      looks_like_uuid t ≡ false
      → is_empty t ≡ false
      → list_nodes_by_name t nodes ≡ n ∷ []
      → Named t nodes n

by_id-found : (o : Option Node) (n : Node) → by_id o ≡ found n → o ≡ some n
by_id-found none n h = cc
by_id-found (some m) n h = cc

unique-found : (ns : List Node) (n : Node) → unique ns ≡ found n → ns ≡ n ∷ []
unique-found [] n h = cc
unique-found (m ∷ []) n h = let e : m ≡ n = cc in ap (λ (x : Node). x ∷ []) e
unique-found (m ∷ k ∷ r) n h = cc

reference-Named :
    (t : String) (nodes : List Node) (n : Node)
    → strip t ≡ t
    → resolve_node_reference t nodes ≡ accepted n
    → Named t nodes n
unfolding resolve_unique_node_reference
reference-Named t nodes n same h =
    let l = rw same at (checked_lookup-found t _ n h) in
    elim (Bool-cases (is_empty t)) [
      | inl blank ↦ let k : empty_reference ≡ found n = rw blank at l in cc
      | inr filled ↦ elim (Bool-cases (looks_like_uuid t)) [
        | inl is_id ↦
            let there = by_id-found _ n (rw (filled, is_id) at l) in
            by_its_id is_id ((eq_iff n.id t).0 (first_where-true (has_id t) nodes n there))
        | inr no_id ↦ by_its_name no_id filled (unique-found _ n (rw (filled, no_id) at l))
      ]
    ]

check_resolved_lem :
    (nodes : List Node) (o h : Option String) → check_resolved nodes o ≡ done h → o ≡ h
check_resolved_lem nodes none h e = done_inj e
check_resolved_lem nodes (some id) h e =
    let (u, ok, rest) = bind_done (require_node id nodes) _ h e in done_inj rest

module _ (repr : Json → String) (holder actor : Option String) (nodes : List Node) where
  -- The holder that a rule gives.
  abbrev pub held_by : Json → Members → Result (Option String)
  held_by rule context = holder_by repr holder rule actor context nodes >>= check_resolved nodes

  reference-held :
      (t : String) (n : Node) (context : Members) (h : Option String)
      → strip t ≡ t
      → Named t nodes n
      → held_by
          (two "strategy"
            (text (if looks_like_uuid t then "static_node" else "static_node_name"))
            "value"
            (text t))
          context
        ≡ done h
      → h ≡ some n.id
  unfolding get_member apply_strategy resolve_unique_node_id_by_name
  reference-held t n context h same (by_its_id is_id own) e =
      let (o, got, checked) = bind_done _ (check_resolved nodes) h e in
      let it : some t ≡ o = done_inj (rw is_id at got) in
      sym (it ∙ check_resolved_lem nodes o h checked) ∙ ap some (sym own)
  reference-held t n context h same (by_its_name no_id filled listed) e =
      let (o, got, checked) = bind_done _ (check_resolved nodes) h e in
      let it : some n.id ≡ o = done_inj (rw (no_id, same, filled, listed) at got) in
      sym (it ∙ check_resolved_lem nodes o h checked)

  field-held :
      (key v : String) (context : Members) (h : Option String)
      → field key context ≡ text v
      → held_by (two "strategy" (text "field_ref") "value" (text key)) context ≡ done h
      → h ≡ some v
  unfolding get_member apply_strategy
  field-held key v context h has e =
      let (o, got, checked) = bind_done _ (check_resolved nodes) h e in
      elim (Bool-cases (is_empty key)) [
        | inl blank ↦
            let k : raise (bad "field_ref strategy requires non-empty value") ≡ done o =
              rw blank at got in
            cc
        | inr filled ↦
            let it : some v ≡ o = done_inj (rw (filled, has) at got) in
            sym (it ∙ check_resolved_lem nodes o h checked)
      ]

  no_holder_held :
      (context : Members) (h : Option String)
      → held_by (one "strategy" (text "none")) context ≡ done h
      → h ≡ none
  unfolding get_member apply_strategy
  no_holder_held context h e = sym (done_inj e)

  module _ (fields : Fields) (initiator : String) (target : Target) (h : Option String) where
    -- The conclusion, for a target that was resolved.
    abbrev Agrees : Json → Type 0
    Agrees rule =
        held_by rule (to_members (routing_context initiator target)) ≡ done h
        → h ≡ id_of target.node

    by_rule : {r q : Json} → q ≡ r → Agrees r → Agrees q
    by_rule same agrees = subst Agrees (sym same) agrees

    named_field_held :
        (key : String) (mode : TargetMode) (n : Node)
        → one_node mode n ((key, n.id) ∷ []) ≡ target
        → Agrees (two "strategy" (text "field_ref") "value" (text key))
    named_field_held key mode n it e =
        field-held key n.id _ h
          (routing_context-lem initiator key n.id target (ap (λ (x : Target). x.context) (sym it)))
          e
        ∙ ap (λ (x : Target). id_of x.node) it

    chosen_held :
        (key words : String) (mode : TargetMode) (candidate : Option String)
        → (or_refuse words candidate >>> λ c.
            (resolve_node_reference c nodes >>> λ n. accepted (one_node mode n ((key, n.id) ∷ []))))
          ≡ accepted target
        → Agrees (two "strategy" (text "field_ref") "value" (text key))
    chosen_held key words mode candidate ok e =
        let place : Node → Checked Target = λ n. accepted (one_node mode n ((key, n.id) ∷ [])) in
        let (c, _, rest) =
          bind_accepted (or_refuse words candidate) (λ c. resolve_node_reference c nodes >>> place)
            target ok in
        let (n, _, last) = bind_accepted (resolve_node_reference c nodes) place target rest in
        named_field_held key mode n (accepted_inj last) e

    initiator_held :
        resolve_target "{{initiator}}" fields initiator nodes ≡ accepted target
        → Agrees (rule_from_target "{{initiator}}")
    unfolding resolve_target rule_from_target
    initiator_held ok e =
        let (n, _, last) =
          bind_accepted
            (or_refuse "initiator_node_id points to unknown node" (node_by_id initiator nodes))
            (λ n. accepted (one_node single n (("initiator_node_id", n.id) ∷ []))) target ok in
        named_field_held "initiator_node_id" single n (accepted_inj last) e

    any_held :
        resolve_target any_node fields initiator nodes ≡ accepted target
        → Agrees (rule_from_target any_node)
    unfolding resolve_target rule_from_target
    any_held ok e =
        chosen_held "target_node_id" "target is required for stages targeting {{any}}" any_agent
          (first_filled (filled "target_node_id" fields) (filled "target" fields)) ok e

    resolve_target-held :
        (t : String)
        → strip t ≡ t
        → resolve_target t fields initiator nodes ≡ accepted target
        → Agrees (rule_from_target t)
    unfolding resolve_target rule_from_target
    resolve_target-held t same ok e = elim (Bool-cases (is_no_target t)) [
      | inl nobody ↦
          let it : accepted no_target ≡ accepted target = rw (nobody, resolve_target) at ok in
          let rule : rule_from_target t ≡ one "strategy" (text "none") =
            rw (nobody, rule_from_target) refl in
          by_rule rule
            (λ g. no_holder_held _ h g ∙ ap (λ (x : Target). id_of x.node) (accepted_inj it)) e
      | inr somebody ↦ elim (Bool-cases (str_eq t "{{initiator}}")) [
        | inl first ↦
            let it : "{{initiator}}" ≡ t = sym ((eq_iff t "{{initiator}}").0 first) in
            subst
              (λ (x : String).
                resolve_target x fields initiator nodes ≡ accepted target
                → Agrees (rule_from_target x))
              it initiator_held ok e
        | inr not_first ↦ elim (Bool-cases (str_eq t any_node)) [
          | inl any ↦
              let it : any_node ≡ t = sym ((eq_iff t any_node).0 any) in
              subst
                (λ (x : String).
                  resolve_target x fields initiator nodes ≡ accepted target
                  → Agrees (rule_from_target x))
                it any_held ok e
          | inr not_any ↦ elim (Option-cases (variable_name t)) [
            | inl plain ↦
                let rule : rule_from_target t
                    ≡ two "strategy"
                        (text (if looks_like_uuid t then "static_node" else "static_node_name"))
                        "value" (text t) =
                  rw (somebody, not_first, not_any, plain, rule_from_target) refl in
                let (n, named, last) =
                  bind_accepted (resolve_node_reference t nodes)
                    (λ n. accepted (one_node single n [])) target
                    (rw (somebody, not_first, not_any, plain, resolve_target) at ok) in
                by_rule rule
                  (λ g.
                    reference-held t n _ h same (reference-Named t nodes n same named) g
                    ∙ ap (λ (x : Target). id_of x.node) (accepted_inj last))
                  e
            | inr (name, variable) ↦
                let rule : rule_from_target t
                    ≡ two "strategy" (text "field_ref") "value" (text (id_field name)) =
                  rw (somebody, not_first, not_any, variable, rule_from_target) refl in
                by_rule rule
                  (chosen_held (id_field name) _ single _
                    (rw (somebody, not_first, not_any, variable, resolve_target) at ok))
                  e
          ]
        ]
      ]
    ]

    -- A target in the frontmatter's words that is resolved is the next holder that the stage's rule gives.
    pub resolve_target_node-held :
        (spec : Json)
        → resolve_target_node spec fields initiator nodes ≡ accepted target
        → Agrees (holder_rule_from_stage_target spec)
    unfolding resolve_target_node holder_rule_from_stage_target
    resolve_target_node-held spec ok e = by_text (filled_text spec) refl
      where
        by_text : (o : Option String) → filled_text spec ≡ o → h ≡ id_of target.node
        by_text none blank =
            let it : accepted no_target ≡ accepted target = rw (blank, resolve_target_node) at ok in
            let rule : holder_rule_from_stage_target spec ≡ one "strategy" (text "none") =
              rw (blank, holder_rule_from_stage_target) refl in
            by_rule rule
              (λ g. no_holder_held _ h g ∙ ap (λ (x : Target). id_of x.node) (accepted_inj it)) e
        by_text (some raw) given =
            let rule : holder_rule_from_stage_target spec ≡ rule_from_target (strip raw) =
              rw (given, holder_rule_from_stage_target) refl in
            by_rule rule
              (resolve_target-held (strip raw) (strip_idem raw)
                (rw (given, resolve_target_node) at ok))
              e
