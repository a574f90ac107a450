-- ===== src/Forms/Requests.antt =====
-- What a request does to the ledger as a whole (src/omniclaw/forms/service.py, `_create_form` and
-- `_transition_form`).
use omni_claw.Prelude.{
  ℕ, ◌≡◌, refl, String, Option, none, some, List, inl, inr, Option-cases, Bool-cases, str_eq, sym,
  subst,
}
use omni_claw.Result.{Result, raise, done, http, value_error, transition_conflict, Result-cases}
use omni_claw.Org.Nodes.{Node}
use omni_claw.Forms.Json.{Json}
use omni_claw.Forms.Types.{FormTypes, FormTypeDefinition}
use omni_claw.Forms.Ledger.{
  FormLedger, Ledger, Transition, get_form_ledger, apply_settings, moved, clashes, move_entry,
  create_form_instance, transition_form_instance, NewForm,
}
use omni_claw.Forms.History.{KeepsTrace}
use omni_claw.Forms.Traced.{IsTraced, transition_form_instance-IsTraced}
use omni_claw.Forms.Authority.{plan_transition-parts}
use omni_claw.Forms.Created.{InUse, Created, create_form_instance-IsTraced}
use omni_claw.Forms.Workflow.{
  TransitionRequest, as_conflict, plan_transition, transition_with_graph, authorize, find_form,
  transition_form,
}
use omni_claw.Forms.Creation.{CreateRequest, plan_form, create_form}

-- The actions of the service on the ledger.
pub data FormCall : Type 0 where
  create : CreateRequest → FormCall
  transition : TransitionRequest → FormCall

abbrev pub KeepsHistory : FormCall → Type 0
KeepsHistory (create request) = Unit {0}
KeepsHistory (transition request) = KeepsTrace request.set_fields

module _ (fuel : ℕ) (repr : Json → String) (nodes : List Node) (types : FormTypes) where
  abbrev pub call_form : FormCall → Ledger → Option (Result FormLedger × Ledger)
  call_form (create request) ledger = create_form fuel repr request nodes types ledger
  call_form (transition request) ledger = some (transition_form repr request nodes types ledger)

as_conflict-ledger : (r : Result FormLedger × Ledger) → (as_conflict r).1 ≡ r.1
as_conflict-ledger (done f, l) = refl
as_conflict-ledger (raise (http n s), l) = refl
as_conflict-ledger (raise (value_error s), l) = refl
as_conflict-ledger (raise (transition_conflict s), l) = refl

-- A refusal of the repository leaves the ledger alone.
abbrev pub Untouched : Ledger → Result FormLedger × Ledger → Type 0
Untouched ledger (raise e, ledger') = ledger' ≡ ledger
Untouched ledger (done f, ledger') = Unit {0}

as_conflict-Untouched :
    (ledger : Ledger) (r : Result FormLedger × Ledger)
    → Untouched ledger r
    → Untouched ledger (as_conflict r)
as_conflict-Untouched ledger (done f, l) h = h
as_conflict-Untouched ledger (raise (http n s), l) h = h
as_conflict-Untouched ledger (raise (value_error s), l) h = h
as_conflict-Untouched ledger (raise (transition_conflict s), l) h = h

transition-Untouched :
    (t : Transition) (ledger : Ledger) → Untouched ledger (transition_form_instance t ledger)
unfolding transition_form_instance move_entry
transition-Untouched t ledger = elim (Option-cases (get_form_ledger t.form_id ledger.forms)) [
  | inl absent ↦ rw (absent, transition_form_instance) refl
  | inr (entry, found) ↦ elim (Bool-cases (str_eq entry.current_status t.expected_from_status)) [
    | inr stale ↦ rw (found, stale, transition_form_instance) refl
    | inl fresh ↦ elim (Result-cases (apply_settings t.set_fields (moved t entry))) [
      | inl (e, refused) ↦ rw (found, fresh, refused, transition_form_instance, move_entry) refl
      | inr (set, applied) ↦ elim (Bool-cases (clashes t set ledger)) [
        | inl taken ↦ rw (found, fresh, applied, taken, transition_form_instance, move_entry) refl
        | inr apart ↦ rw (found, fresh, applied, apart, transition_form_instance, move_entry) tt
      ]
    ]
  ]
]

module _ (repr : Json → String) (request : TransitionRequest) (nodes : List Node)
    (types : FormTypes) (ledger : Ledger) where
  with_graph-IsTraced :
      (form : FormLedger) (d : FormTypeDefinition) (actor : String)
      → KeepsTrace request.set_fields
      → IsTraced ledger
      → let r = transition_with_graph repr request form d actor nodes ledger in
        IsTraced r.1 × Untouched ledger r
  unfolding transition_with_graph
  with_graph-IsTraced form d actor keeps h =
      elim (Result-cases (plan_transition repr request form d actor nodes)) [
        | inl (e, refused) ↦ rw (refused, transition_with_graph) (h, refl)
        | inr (t, planned) ↦
            let (_, _, _, _, _, _, fields, _, _) =
              plan_transition-parts repr request nodes form d actor t planned in
            let keeps' = subst KeepsTrace (sym fields) keeps in
            let same = as_conflict-ledger (transition_form_instance t ledger) in
            rw (planned, transition_with_graph)
              (
                subst IsTraced (sym same) (transition_form_instance-IsTraced t ledger keeps' h),
                as_conflict-Untouched ledger (transition_form_instance t ledger)
                    (transition-Untouched t ledger),
              )
      ]

  transition_form-IsTraced :
      KeepsTrace request.set_fields
      → IsTraced ledger
      → let r = transition_form repr request nodes types ledger in IsTraced r.1 × Untouched ledger r
  unfolding transition_form
  transition_form-IsTraced keeps h = elim (Result-cases (find_form request nodes ledger)) [
    | inl (e, refused) ↦ rw (refused, transition_form) (h, refl)
    | inr ((form, actor), found) ↦ elim (Result-cases (authorize form actor types)) [
      | inl (e, refused) ↦ rw (found, refused, transition_form) (h, refl)
      | inr (d, allowed) ↦
          rw (found, allowed, transition_form) (with_graph-IsTraced form d actor keeps h)
    ]
  ]

-- What an action leaves: a whole ledger, as it was where the action is refused. A creation that does
-- not come back has tried as many ids as it may, and all are in use; a transition comes back.
abbrev pub Leaves :
    ℕ
    → (Json → String)
    → List Node
    → FormTypes
    → FormCall
    → Ledger
    → Option (Result FormLedger × Ledger)
    → Type 0
Leaves fuel repr nodes types (create request) ledger none =
    (n : NewForm) × (plan_form repr request nodes types ≡ done n) × InUse fuel n ledger
Leaves fuel repr nodes types (transition request) ledger none = ⊥
Leaves fuel repr nodes types call ledger (some r) = IsTraced r.1 × Untouched ledger r

module _ (fuel : ℕ) (repr : Json → String) (nodes : List Node) (types : FormTypes) where
  made-Leaves :
      (request : CreateRequest) (n : NewForm) (ledger : Ledger)
      → plan_form repr request nodes types ≡ done n
      → (o : Option (FormLedger × Ledger)) → create_form_instance fuel n ledger ≡ o
      → Created fuel n ledger o
      → Leaves fuel repr nodes types
          (create request)
          ledger
          (create_form fuel repr request nodes types ledger)
  unfolding create_form
  made-Leaves request n ledger planned none e stuck =
      rw (planned, e, create_form) (n, planned, stuck)
  made-Leaves request n ledger planned (some (f, ledger')) e (whole, _, _) =
      rw (planned, e, create_form) (whole, tt)

  create_form-Leaves :
      (request : CreateRequest) (ledger : Ledger)
      → IsTraced ledger
      → Leaves fuel repr nodes types
          (create request)
          ledger
          (create_form fuel repr request nodes types ledger)
  unfolding create_form
  create_form-Leaves request ledger h = elim (Result-cases (plan_form repr request nodes types)) [
    | inl (x, refused) ↦ rw (refused, create_form) (h, refl)
    | inr (n, planned) ↦
        made-Leaves request n ledger planned _ refl (create_form_instance-IsTraced fuel n ledger h)
  ]

  -- Whatever the two actions on forms do, accepted or refused, the ledger stays whole, unless a
  -- transition sets the status or the id by a field: ids are distinct, and the events of each form count
  -- from one, hang together and end in its status. A refused action changes nothing. A transition always
  -- comes back, and a creation does where one of the first `fuel` candidates for its id is not in use.
  pub call_form-IsTraced :
      (call : FormCall) (ledger : Ledger)
      → KeepsHistory call
      → IsTraced ledger
      → Leaves fuel repr nodes types call ledger (call_form fuel repr nodes types call ledger)
  call_form-IsTraced (create request) ledger keeps h = create_form-Leaves request ledger h
  call_form-IsTraced (transition request) ledger keeps h =
      transition_form-IsTraced repr request nodes types ledger keeps h
