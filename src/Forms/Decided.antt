-- ===== src/Forms/Decided.antt =====
-- Where the decisions of an accepted workflow lead (src/omniclaw/forms/service.py,
-- `_validate_stage_graph_definition`).
use omni_claw.Prelude.{
  String, Bool, true, not, Option, none, some, List, [], ◌∷◌, ◌++◌, ◌≡◌, refl, sym, ap, subst, inl,
  inr, str_eq, eq_iff, Bool-cases, arith, some_inj, is_empty, strip,
}
use omni_claw.Org.Nodes.{Node}
use omni_claw.Forms.Json.{
  Json, null, boolean, number, text, array, object, Members, no_members, member, get_member, field,
  filled_text,
}
use omni_claw.Forms.Graph.{stage_decisions}
use omni_claw.Forms.StageChecks.{
  Checks, check_decision, check_decisions, check_stage, check_stages, decisions_in, error_if,
  has_stage, at_decision, in_quotes, raw_stages,
}
use omni_claw.Forms.Validation.{no_checks, validate_stage_graph_definition}
use omni_claw.Forms.Search.{HasMember}
use omni_claw.Forms.Declared.{filled_text-text}
use omni_claw.Forms.Reachable.{clean_parts, local_errors-parts, no_error, error_if_none}

-- The value names a stage.
abbrev pub NamesStage : Members → Json → Type 0
NamesStage stages w = (next : String) × (w ≡ text next) × (has_stage next stages ≡ true)

no_cons : (xs : List String) (x : String) → xs ++ (x ∷ []) ≡ [] → ⊥
no_cons [] x h = cc
no_cons (y ∷ xs) x h = cc

module _ (stages : Members) (name : String) where
  check_decision-clean :
      (decision : String) (next : Json) (o : Option String) (c : Checks)
      → filled_text next ≡ o
      → (check_decision stages name decision o c).errors ≡ []
      → (c.errors ≡ []) × NamesStage stages next
  check_decision-clean decision next none c e h = elim (Bool-cases (is_empty (strip decision))) [
    | inl blank ↦ absurd (no_cons c.errors _ (rw blank at h))
    | inr named ↦ absurd (no_cons c.errors _ (rw named at h))
  ]
  check_decision-clean decision next (some to) c e h =
      elim (Bool-cases (is_empty (strip decision))) [
        | inl blank ↦ absurd (no_cons c.errors _ (rw blank at h))
        | inr named ↦
            let (before, late) = no_error c.errors _ (rw named at h) in
            let (known, _) =
              no_error
                (error_if (not (has_stage to stages))
                  (at_decision name decision (in_quotes "references unknown stage '" to "'")))
                _ late in
            let is_known = error_if_none _ _ known in
            (before, (to, filled_text-text next to e, ground (arith, is_known)))
      ]

  check_decisions-clean :
      (ds : Members) (c : Checks)
      → (check_decisions stages name ds c).errors ≡ []
      → (c.errors ≡ []) × ((d : String) (w : Json) → HasMember d w ds → NamesStage stages w)
  unfolding check_decisions
  check_decisions-clean no_members c h = (h, λ d w m. absurd m)
  check_decisions-clean (member d next more) c h =
      let (after, behind) =
        check_decisions-clean more (check_decision stages name d (filled_text next) c) h in
      let (before, own) = check_decision-clean d next (filled_text next) c refl after in
      (
        before,
        λ e w m. elim m [
          | inl (_, same) ↦ subst (NamesStage stages) (sym same) own
          | inr other ↦ behind e w other
        ],
      )

-- The value is a stage, and each decision of it leads to a stage.
abbrev IsDecided : Members → Json → Type 0
IsDecided stages (object stage) =
    (d : String) (w : Json)
    → HasMember d w (decisions_in (stage_decisions stage))
    → NamesStage stages w
IsDecided stages v = ⊥

module _ (stages : Members) (nodes : List Node) where
  -- A value that is no object is an error.
  not_object : (name : String) (c : Checks) → (check_stage stages nodes name null c).errors ≡ [] → ⊥
  not_object name c h = elim (Bool-cases (is_empty (strip name))) [
    | inl blank ↦ no_cons c.errors _ (rw blank at h)
    | inr named ↦ no_cons c.errors _ (rw named at h)
  ]

  check_stage-clean :
      (name : String) (v : Json) (c : Checks)
      → (check_stage stages nodes name v c).errors ≡ []
      → (c.errors ≡ []) × IsDecided stages v
  check_stage-clean name (object stage) c h = elim (Bool-cases (is_empty (strip name))) [
    | inl blank ↦ absurd (no_cons c.errors _ (rw blank at h))
    | inr named ↦
        let (after, decided) =
          check_decisions-clean stages name (decisions_in (stage_decisions stage)) _
            (rw named at h) in
        let (before, _) = no_error c.errors _ after in (before, decided)
  ]
  check_stage-clean name null c h = absurd (not_object name c h)
  check_stage-clean name (boolean b) c h = absurd (not_object name c h)
  check_stage-clean name (number n) c h = absurd (not_object name c h)
  check_stage-clean name (text s) c h = absurd (not_object name c h)
  check_stage-clean name (array r) c h = absurd (not_object name c h)

  check_stages-clean :
      (more : Members) (c : Checks)
      → (check_stages stages nodes more c).errors ≡ []
      → (c.errors ≡ []) × ((k : String) (v : Json) → HasMember k v more → IsDecided stages v)
  unfolding check_stages
  check_stages-clean no_members c h = (h, λ k v m. absurd m)
  check_stages-clean (member k v more) c h =
      let (after, behind) = check_stages-clean more (check_stage stages nodes k v c) h in
      let (before, own) = check_stage-clean k v c after in
      (
        before,
        λ j w m. elim m [
          | inl (_, same) ↦ subst (IsDecided stages) (sym same) own
          | inr other ↦ behind j w other
        ],
      )

get_member-HasMember :
    (k : String) (v : Json) (m : Members) → get_member k m ≡ some v → HasMember k v m
unfolding get_member
get_member-HasMember k v no_members h = cc
get_member-HasMember k v (member j w m) h = elim (Bool-cases (str_eq j k)) [
  | inl own ↦ inl (sym ((eq_iff j k).0 own), sym (some_inj (rw (own, get_member) at h)))
  | inr other ↦ inr (get_member-HasMember k v m (rw (other, get_member) at h))
]

-- In a workflow that is accepted without an error, every decision of every stage leads to a stage of the
-- workflow.
pub validate_stage_graph_definition-NamesStage :
    (repr : Json → String) (path_of : String → String) (is_there : String → Bool)
    (nodes : List Node) (type_key : String) (graph stages stage decisions : Members)
    (name decision : String) (w : Json)
    → validate_stage_graph_definition repr path_of is_there nodes type_key graph ≡ []
    → field "stages" graph ≡ object stages
    → get_member name stages ≡ some (object stage)
    → stage_decisions stage ≡ object decisions
    → get_member decision decisions ≡ some w
    → NamesStage stages w
validate_stage_graph_definition-NamesStage repr path_of is_there nodes type_key graph stages stage
      decisions name decision w clean is_dict there dict made =
    let (local, _) = clean_parts repr path_of is_there nodes type_key graph clean in
    let S = raw_stages (field "stages" graph) in
    let (_, _, no_errors) =
      local_errors-parts repr type_key graph S nodes _ _ (check_stages S nodes S no_checks) local in
    let all_decided : (k : String) (v : Json) → HasMember k v stages → IsDecided stages v =
      subst (λ (M : Members). (k : String) (v : Json) → HasMember k v M → IsDecided M v)
        (ap raw_stages is_dict) (check_stages-clean S nodes S no_checks no_errors).1 in
    all_decided name (object stage) (get_member-HasMember name (object stage) stages there) decision
      w
      (subst (λ (v : Json). HasMember decision w (decisions_in v)) (sym dict)
        (get_member-HasMember decision w decisions made))
