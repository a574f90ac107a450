-- ===== src/Forms/Projected.antt =====
-- The edge that stands for a decision of a stage, in the flat form of the workflow
-- (src/omniclaw/forms/service.py, `_project_workflow_graph` and `_resolve_edge`).
use omni_claw.Prelude.{
  String, true, false, Option, some, List, [], ◌∷◌, ◌≡◌, refl, ap, sym, subst, some_inj, ◌∙◌, ◌⊎◌,
  inl, inr, str_eq, eq_iff, is_empty, strip, Bool-cases, Option-cases,
}
use omni_claw.Forms.Json.{
  Json, null, boolean, number, text, array, object, Items, no_items, item, Members, no_members,
  member, field, filled_text, get_member,
}
use omni_claw.Forms.Graph.{edge, target_rule, decision_edges, stage_edges, stage_decisions}
use omni_claw.Forms.Routes.{candidates, is_candidate}

-- The value is one of the items.
abbrev pub Among : Json → Items → Type 0
Among v no_items = ⊥
Among v (item w more) = (v ≡ w) ⊎ Among v more

abbrev Listed : Json → List Json → Type 0
Listed v [] = ⊥
Listed v (w ∷ more) = (v ≡ w) ⊎ Listed v more

Listed-candidates :
    (from : String) (d s : Option String) (v : Json) (edges : Items)
    → Among v edges
    → is_candidate from d s v ≡ true
    → Listed v (candidates from d s edges)
unfolding candidates
Listed-candidates from d s v no_items m h = elim m [ ]
Listed-candidates from d s v (item w more) m h = elim (Bool-cases (is_candidate from d s w)) [
  | inl fits ↦
      rw fits (elim m [ inl e ↦ inl e | inr r ↦ inr (Listed-candidates from d s v more r h) ])
  | inr other ↦ rw other (elim m [
    | inl e ↦
        let clash : true ≡ false = sym h ∙ ap (λ (j : Json). is_candidate from d s j) e ∙ other in
        cc
    | inr r ↦ Listed-candidates from d s v more r h
  ])
]

-- An edge that fits is the one that is chosen.
pub candidates-one :
    (from : String) (d s : Option String) (v e : Json) (edges : Items)
    → Among v edges
    → is_candidate from d s v ≡ true
    → candidates from d s edges ≡ e ∷ []
    → v ≡ e
candidates-one from d s v e edges m h one =
    elim (subst (Listed v) one (Listed-candidates from d s v edges m h)) [
      | inl same ↦ same
      | inr nothing ↦ absurd nothing
    ]

-- What one decision adds before the edges behind it.
data Step (stages : Members) (name decision : String) (next : Json) (others : Items)
    : Items → Type 0 where
  passed : {all : Items} → all ≡ others → Step stages name decision next others all
  added :
      {all : Items} (to : String)
      → filled_text next ≡ some to
      → all
        ≡ item
            (edge (text name) (text to) (text (strip decision)) (target_rule (field to stages)))
            others
      → Step stages name decision next others all

decision-Step :
    (stages : Members) (name decision : String) (next : Json) (more : Members) (rest : Items)
    → Step stages name decision next
        (decision_edges stages name more rest)
        (decision_edges stages name (member decision next more) rest)
unfolding decision_edges
decision-Step stages name decision next more rest = elim (Option-cases (filled_text next)) [
  | inl blank ↦ passed (rw (blank, decision_edges) refl)
  | inr (to, filled) ↦ elim (Bool-cases (is_empty (strip decision))) [
    | inl unnamed ↦ passed (rw (filled, unnamed, decision_edges) refl)
    | inr named ↦ added to filled (rw (filled, named, decision_edges) refl)
  ]
]

keep-Step :
    {stages : Members} {name decision : String} {next : Json} {others all : Items} (v : Json)
    → Step stages name decision next others all
    → Among v others
    → Among v all
keep-Step v (passed e) m = subst (Among v) (sym e) m
keep-Step v (added to filled e) m = subst (Among v) (sym e) (inr m)

Among-behind :
    (stages decisions : Members) (name : String) (v : Json) (rest : Items)
    → Among v rest
    → Among v (decision_edges stages name decisions rest)
Among-behind stages no_members name v rest m = unfold decision_edges in m
Among-behind stages (member decision next more) name v rest m =
    keep-Step v (decision-Step stages name decision next more rest)
      (Among-behind stages more name v rest m)

-- The edge that a decision of a stage stands for.
abbrev pub edge_of : Members → String → String → String → Json
edge_of stages name decision to =
    edge (text name) (text to) (text decision) (target_rule (field to stages))

added_edge :
    (stages : Members) (name decision to : String) (more : Members) (rest : Items)
    → is_empty (strip to) ≡ false
    → strip decision ≡ decision
    → is_empty decision ≡ false
    → decision_edges stages name (member decision (text to) more) rest
      ≡ item (edge_of stages name decision to) (decision_edges stages name more rest)
unfolding decision_edges
added_edge stages name decision to more rest filled same named =
    rw (filled, same, named, decision_edges) refl

Among-decision :
    (stages decisions : Members) (name decision to : String) (rest : Items)
    → get_member decision decisions ≡ some (text to)
    → is_empty (strip to) ≡ false
    → strip decision ≡ decision
    → is_empty decision ≡ false
    → Among (edge_of stages name decision to) (decision_edges stages name decisions rest)
unfolding get_member
Among-decision stages no_members name decision to rest found filled same named = cc
Among-decision stages (member k next more) name decision to rest found filled same named =
    elim (Bool-cases (str_eq k decision)) [
      | inr other ↦ keep-Step _ (decision-Step stages name k next more rest) (
          Among-decision stages more name decision to rest (rw (other, get_member) at found) filled
            same named)
      | inl own ↦
          let key : k ≡ decision = (eq_iff k decision).0 own in
          let value : next ≡ text to = some_inj (rw (own, get_member) at found) in
          subst
            (λ (j : String).
              Among (edge_of stages name decision to)
                (decision_edges stages name (member j next more) rest))
            (sym key)
            (subst
              (λ (w : Json).
                Among (edge_of stages name decision to)
                  (decision_edges stages name (member decision w more) rest))
              (sym value)
              (subst (Among (edge_of stages name decision to))
                (sym (added_edge stages name decision to more rest filled same named)) (inl refl)))
    ]

-- A dictionary of decisions, found in a stage.
abbrev pub HasDecision : Json → String → String → Type 0
HasDecision (object stage) decision to =
    (decisions : Members) × (stage_decisions stage ≡ object decisions)
    × (get_member decision decisions ≡ some (text to))
HasDecision _ decision to = ⊥

-- The edges of the stages behind a stage stay, whatever its decisions are.
kept_behind :
    (stages stage : Members) (name : String) (more : Members) (v decisions : Json)
    → stage_decisions stage ≡ decisions
    → Among v (stage_edges stages more)
    → Among v (stage_edges stages (member name (object stage) more))
unfolding stage_edges
kept_behind stages stage name more v (object decisions) e m =
    let shape : stage_edges stages (member name (object stage) more)
        ≡ decision_edges stages name decisions (stage_edges stages more) =
      rw (e, stage_edges) refl in
    subst (Among v) (sym shape) (Among-behind stages decisions name v (stage_edges stages more) m)
kept_behind stages stage name more v null e m = rw (e, stage_edges) m
kept_behind stages stage name more v (boolean b) e m = rw (e, stage_edges) m
kept_behind stages stage name more v (number n) e m = rw (e, stage_edges) m
kept_behind stages stage name more v (text s) e m = rw (e, stage_edges) m
kept_behind stages stage name more v (array r) e m = rw (e, stage_edges) m

stage_edges-behind :
    (stages : Members) (name : String) (value : Json) (more : Members) (v : Json)
    → Among v (stage_edges stages more)
    → Among v (stage_edges stages (member name value more))
unfolding stage_edges
stage_edges-behind stages name (object stage) more v m =
    kept_behind stages stage name more v (stage_decisions stage) refl m
stage_edges-behind stages name null more v m = m
stage_edges-behind stages name (boolean b) more v m = m
stage_edges-behind stages name (number n) more v m = m
stage_edges-behind stages name (text s) more v m = m
stage_edges-behind stages name (array r) more v m = m

-- The decisions of a stage are edges of the workflow.
pub Among-stage :
    (stages all : Members) (name decision to : String) (payload : Json)
    → get_member name all ≡ some payload
    → HasDecision payload decision to
    → is_empty (strip to) ≡ false
    → strip decision ≡ decision
    → is_empty decision ≡ false
    → Among (edge_of stages name decision to) (stage_edges stages all)
unfolding get_member stage_edges decision_edges
Among-stage stages no_members name decision to payload found has filled same named = cc
Among-stage stages (member k value more) name decision to payload found has filled same named =
    elim (Bool-cases (str_eq k name)) [
      | inr other ↦ stage_edges-behind stages k value more _ (
          Among-stage stages more name decision to payload (rw (other, get_member) at found) has
            filled same named)
      | inl own ↦
          let key : k ≡ name = (eq_iff k name).0 own in
          let same_value : value ≡ payload = some_inj (rw (own, get_member) at found) in
          subst
            (λ (j : String).
              Among (edge_of stages name decision to) (stage_edges stages (member j value more)))
            (sym key)
            (subst
              (λ (w : Json).
                Among (edge_of stages name decision to) (stage_edges stages (member name w more)))
              (sym same_value) (at_stage payload has))
    ]
  where
    at_stage :
        (p : Json)
        → HasDecision p decision to
        → Among (edge_of stages name decision to) (stage_edges stages (member name p more))
    at_stage (object stage) (decisions, is_dict, got) =
        let shape : stage_edges stages (member name (object stage) more)
            ≡ decision_edges stages name decisions (stage_edges stages more) =
          rw (is_dict, stage_edges) refl in
        subst (Among (edge_of stages name decision to)) (sym shape) (
          Among-decision stages decisions name decision to (stage_edges stages more) got filled same
            named)
    at_stage null h = absurd h
    at_stage (boolean b) h = absurd h
    at_stage (number n) h = absurd h
    at_stage (text s) h = absurd h
    at_stage (array r) h = absurd h
