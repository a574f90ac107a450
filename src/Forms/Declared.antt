-- ===== src/Forms/Declared.antt =====
-- The edges that the checks collect are decisions that the stages declare
-- (src/omniclaw/forms/service.py, `_validate_stage_graph_definition`).
use omni_claw.Prelude.{
  String, Option, none, some, List, [], ◌∷◌, ◌≡◌, refl, ap, subst, inl, inr, All-append, Bool-cases,
  some_inj, is_empty, strip,
}
use omni_claw.Org.Nodes.{Node}
use omni_claw.Forms.Json.{
  Json, null, boolean, number, text, array, object, Members, no_members, member, filled_text,
}
use omni_claw.Forms.Graph.{stage_decisions}
use omni_claw.Forms.StageChecks.{
  Checks, check_decision, check_decisions, check_stage, check_stages, decisions_in,
}
use omni_claw.Forms.Search.{HasMember, Leads, by_decision, AreLeads}

pub filled_text-text : (v : Json) (s : String) → filled_text v ≡ some s → v ≡ text s
filled_text-text (text t) s h = elim (Bool-cases (is_empty (strip t))) [
  | inl blank ↦ let k : none ≡ some s = rw (blank, filled_text) at h in cc
  | inr filled ↦ ap text (some_inj (rw (filled, filled_text) at h))
]
filled_text-text null s h = cc
filled_text-text (boolean b) s h = cc
filled_text-text (number n) s h = cc
filled_text-text (array r) s h = cc
filled_text-text (object m) s h = cc

module _ (stages : Members) where
  module _ (name : String) (stage decisions : Members) (here : HasMember name (object stage) stages)
      (dict : stage_decisions stage ≡ object decisions) where
    check_decision-AreLeads :
        (decision : String) (next : Json) (o : Option String) (c : Checks)
        → HasMember decision next decisions
        → filled_text next ≡ o
        → AreLeads stages c.edges
        → AreLeads stages (check_decision stages name decision o c).edges
    check_decision-AreLeads decision next none c there e real =
        elim (Bool-cases (is_empty (strip decision))) [
          | inl blank ↦ rw blank real
          | inr named ↦ rw named real
        ]
    check_decision-AreLeads decision next (some to) c there e real =
        elim (Bool-cases (is_empty (strip decision))) [
          | inl blank ↦ rw blank real
          | inr named ↦ rw named (
              All-append (λ e. Leads stages e.0 e.1) c.edges ((name, to) ∷ []) real
                (
                  by_decision stage decisions decision here dict (
                      subst (λ (w : Json). HasMember decision w decisions)
                        (filled_text-text next to e) there),
                  tt,
                ))
        ]

    check_decisions-AreLeads :
        (more : Members) (c : Checks)
        → ((d : String) (w : Json) → HasMember d w more → HasMember d w decisions)
        → AreLeads stages c.edges
        → AreLeads stages (check_decisions stages name more c).edges
    unfolding check_decisions
    check_decisions-AreLeads no_members c among real = real
    check_decisions-AreLeads (member d next more) c among real =
        check_decisions-AreLeads more (check_decision stages name d (filled_text next) c)
          (λ e w h. among e w (inr h))
          (check_decision-AreLeads d next (filled_text next) c (among d next (inl (refl, refl)))
            refl real)

  decisions-AreLeads :
      (name : String) (stage : Members) (v : Json) (c : Checks)
      → HasMember name (object stage) stages
      → stage_decisions stage ≡ v
      → AreLeads stages c.edges
      → AreLeads stages (check_decisions stages name (decisions_in v) c).edges
  unfolding check_decisions
  decisions-AreLeads name stage (object ds) c here dict real =
      check_decisions-AreLeads name stage ds here dict ds c (λ d w h. h) real
  decisions-AreLeads name stage null c here dict real = real
  decisions-AreLeads name stage (boolean b) c here dict real = real
  decisions-AreLeads name stage (number n) c here dict real = real
  decisions-AreLeads name stage (text s) c here dict real = real
  decisions-AreLeads name stage (array r) c here dict real = real

  module _ (nodes : List Node) where
    check_stage-AreLeads :
        (name : String) (v : Json) (c : Checks)
        → HasMember name v stages
        → AreLeads stages c.edges
        → AreLeads stages (check_stage stages nodes name v c).edges
    check_stage-AreLeads name (object stage) c here real =
        elim (Bool-cases (is_empty (strip name))) [
          | inl blank ↦ rw blank real
          | inr named ↦
              rw named (decisions-AreLeads name stage (stage_decisions stage) _ here refl real)
        ]
    check_stage-AreLeads name null c here real = real
    check_stage-AreLeads name (boolean b) c here real = real
    check_stage-AreLeads name (number n) c here real = real
    check_stage-AreLeads name (text s) c here real = real
    check_stage-AreLeads name (array r) c here real = real

    pub check_stages-AreLeads :
        (more : Members) (c : Checks)
        → ((k : String) (v : Json) → HasMember k v more → HasMember k v stages)
        → AreLeads stages c.edges
        → AreLeads stages (check_stages stages nodes more c).edges
    unfolding check_stages
    check_stages-AreLeads no_members c among real = real
    check_stages-AreLeads (member k v more) c among real =
        check_stages-AreLeads more (check_stage stages nodes k v c) (λ j w h. among j w (inr h))
          (check_stage-AreLeads k v c (among k v (inl (refl, refl))) real)
