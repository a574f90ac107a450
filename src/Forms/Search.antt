-- ===== src/Forms/Search.antt =====
-- The search for the stages that can be reached (src/omniclaw/forms/service.py,
-- `_validate_stage_graph_definition`).
use omni_claw.Prelude.{
  ℕ, zero, suc, ◌+◌, ◌≤◌, ◌<◌, String, true, false, ◌&&◌, not, some, List, [], ◌∷◌, ◌≡◌, refl, sym,
  subst, ◌⊎◌, inl, inr, str_eq, eq_iff, length, All, Bool-cases, arith, if◌then◌else◌, some_inj,
  &&-eq-true,
}
use omni_claw.Forms.Json.{Json, text, object, Members, no_members, member}
use omni_claw.Forms.Graph.{stage_decisions}
use omni_claw.Forms.Validation.{is_marked, mark_next, reach}

-- The dictionary has this member.
abbrev pub HasMember : String → Json → Members → Type 0
HasMember k v no_members = ⊥
HasMember k v (member j w m) = ((k ≡ j) × (v ≡ w)) ⊎ HasMember k v m

-- A decision of the first stage leads to the second.
pub data Leads (stages : Members) (from to : String) : Type 0 where
  by_decision :
      (stage decisions : Members) (decision : String)
      → HasMember from (object stage) stages
      → stage_decisions stage ≡ object decisions
      → HasMember decision (text to) decisions
      → Leads stages from to

-- The stages to which decisions lead from the start.
pub data Reaches (stages : Members) (start : String) : String → Type 0 where
  at_start : Reaches stages start start
  onward : {a b : String} → Reaches stages start a → Leads stages a b → Reaches stages start b

abbrev pub AreLeads : Members → List (String × String) → Type 0
AreLeads stages = All (λ e. Leads stages e.0 e.1)

module _ (stages : Members) (start : String) where
  abbrev AreReached : List String → Type 0
  AreReached = All (Reaches stages start)

  mark_next-AreReached :
      (stage : String) (edges : List (String × String)) (marked stack : List String)
      → AreLeads stages edges
      → Reaches stages start stage
      → AreReached marked
      → AreReached stack
      → AreReached (mark_next stage edges marked stack).0
        × AreReached (mark_next stage edges marked stack).1
  unfolding mark_next
  mark_next-AreReached stage [] marked stack real here hm hs = (hm, hs)
  mark_next-AreReached stage ((from, to) ∷ edges) marked stack (lead, real) here hm hs =
      elim (Bool-cases (str_eq from stage && not (is_marked to marked))) [
        | inl new ↦
            let own =
              (eq_iff from stage).0
                (&&-eq-true (str_eq from stage) (not (is_marked to marked)) new).0 in
            let there : Reaches stages start to =
              onward here (subst (λ (x : String). Leads stages x to) own lead) in
            rw (new, mark_next)
              (mark_next-AreReached stage edges (to ∷ marked) (to ∷ stack) real here (there, hm)
                (there, hs))
        | inr old ↦
            rw (old, mark_next) (mark_next-AreReached stage edges marked stack real here hm hs)
      ]

  pub reach-AreReached :
      (fuel : ℕ) (edges : List (String × String)) (marked stack all : List String)
      → AreLeads stages edges
      → AreReached marked
      → AreReached stack
      → reach fuel edges marked stack ≡ some all
      → AreReached all
  unfolding reach
  reach-AreReached zero edges marked [] all real hm hs e = subst AreReached (some_inj e) hm
  reach-AreReached (suc fuel) edges marked [] all real hm hs e = subst AreReached (some_inj e) hm
  reach-AreReached zero edges marked (stage ∷ stack) all real hm hs e = cc
  reach-AreReached (suc fuel) edges marked (stage ∷ stack) all real hm (here, hs) e =
      let (hm', hs') = mark_next-AreReached stage edges marked stack real here hm hs in
      reach-AreReached fuel edges _ _ all real hm' hs' e

-- The targets of edges that are not marked yet.
abbrev waiting : List (String × String) → List String → ℕ
waiting [] marked = 0
waiting ((from, to) ∷ edges) marked =
    let rest = waiting edges marked in if is_marked to marked then rest else suc rest

waiting-length :
    (edges : List (String × String)) (marked : List String) → waiting edges marked ≤ length edges
waiting-length [] marked = omega arith
waiting-length ((from, to) ∷ edges) marked = elim (Bool-cases (is_marked to marked)) [
  | inl e ↦ rw e (omega (arith, waiting-length edges marked))
  | inr e ↦ rw e (omega (arith, waiting-length edges marked))
]

waiting-mark :
    (edges : List (String × String)) (marked : List String) (to : String)
    → waiting edges (to ∷ marked) ≤ waiting edges marked
waiting-mark [] marked to = omega arith
waiting-mark ((from, t) ∷ edges) marked to = ground (arith, waiting-mark edges marked to)

abbrev HasTarget : String → List (String × String) → Type 0
HasTarget t [] = ⊥
HasTarget t ((from, to) ∷ edges) = (to ≡ t) ⊎ HasTarget t edges

waiting-target :
    (edges : List (String × String)) (marked : List String) (t : String)
    → HasTarget t edges
    → is_marked t marked ≡ false
    → waiting edges (t ∷ marked) < waiting edges marked
waiting-target [] marked t m new = elim m [ ]
waiting-target ((from, to) ∷ edges) marked t (inl own) new =
    let self : str_eq t to ≡ true = (eq_iff t to).1 (sym own) in
    let fresh : is_marked to marked ≡ false =
      subst (λ (x : String). is_marked x marked ≡ false) (sym own) new in
    rw (self, fresh) (omega (arith, waiting-mark edges marked t))
waiting-target ((from, to) ∷ edges) marked t (inr behind) new =
    ground (arith, waiting-target edges marked t behind new)

-- What is put on the stack was waiting.
mark_next-waiting :
    (stage : String) (all edges : List (String × String)) (marked stack : List String)
    → ((t : String) → HasTarget t edges → HasTarget t all)
    → length (mark_next stage edges marked stack).1
        + waiting all (mark_next stage edges marked stack).0
      ≤ length stack + waiting all marked
unfolding mark_next
mark_next-waiting stage all [] marked stack among = omega arith
mark_next-waiting stage all ((from, to) ∷ edges) marked stack among =
    elim (Bool-cases (str_eq from stage && not (is_marked to marked))) [
      | inl new ↦
          let fresh : is_marked to marked ≡ false = ground (arith, new) in
          rw (new, mark_next)
            (omega (
              arith,
              mark_next-waiting stage all edges (to ∷ marked) (to ∷ stack) (λ t h. among t (inr h)),
              waiting-target all marked to (among to (inl refl)) fresh,
            ))
      | inr old ↦
          rw (old, mark_next)
            (mark_next-waiting stage all edges marked stack (λ t h. among t (inr h)))
    ]

reach-enough :
    (fuel : ℕ) (edges : List (String × String)) (marked stack : List String)
    → length stack + waiting edges marked ≤ fuel
    → (all : List String) × (reach fuel edges marked stack ≡ some all)
unfolding reach
reach-enough zero edges marked [] h = (marked, refl)
reach-enough (suc fuel) edges marked [] h = (marked, refl)
reach-enough zero edges marked (stage ∷ stack) h = absurd (omega (arith, h))
reach-enough (suc fuel) edges marked (stage ∷ stack) h =
    reach-enough fuel edges _ _
      (omega (arith, h, mark_next-waiting stage edges edges marked stack (λ t k. k)))

-- The search from the start ends.
pub reach-ends :
    (edges : List (String × String)) (start : String)
    → (all : List String) × (reach (suc (length edges)) edges (start ∷ []) (start ∷ []) ≡ some all)
reach-ends edges start =
    reach-enough (suc (length edges)) edges (start ∷ []) (start ∷ [])
      (omega (arith, waiting-length edges (start ∷ [])))
