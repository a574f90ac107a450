-- ===== src/Forms/Traced.antt =====
-- Every operation on the ledger keeps the histories whole (src/omniclaw/db/repository.py,
-- `create_form_instance` and `transition_form_instance`).
use omni_claw.Prelude.{
  ◌+◌, String, ◌≡◌, ◌≢◌, refl, sym, ap, subst, ◌∙◌, Bool, true, false, none, some, List, [], ◌∷◌,
  ◌++◌, append-nil, inl, inr, arith, str_eq, eq_iff, All, All-append, length, any_where,
  first_where, first_where-true, where_true, where_true-append, update_first, Fresh, Distinct,
  Bool-cases, Option-cases, some_inj, ne_sym,
}
use omni_claw.Result.{Result-cases}
use omni_claw.Forms.Ledger.{
  FormLedger, FormTransitionEvent, Ledger, has_form_id, of_form, get_form_ledger,
  list_form_transition_events, apply_settings, max_sequence, Transition, moved, logged,
  transition_event, commit, clashes, move_entry, transition_form_instance,
}
use omni_claw.Forms.History.{
  Traces, Traces-append, Traces-max_of, max_sequence-of_form, KeepsTrace, settings-form_id,
  settings-current_status,
}

abbrev pub form_ids : List FormLedger → List String
form_ids [] = []
form_ids (f ∷ forms) = f.form_id ∷ form_ids forms

abbrev pub TracedBy : List FormTransitionEvent → FormLedger → Type 0
TracedBy events f = Traces none 1 (list_form_transition_events f.form_id events) f.current_status

abbrev pub holds_id : String → List String → Bool
holds_id k ids = any_where (λ i. str_eq i k) ids

-- No id stands twice; each form's events count from one, hang together and end in its status; and
-- each event is one of a form that is there.
pub record IsTraced (ledger : Ledger) : Type 0 where
  pub apart : Distinct (form_ids ledger.forms)
  pub traced : All (TracedBy ledger.events) ledger.forms
  pub owned :
      All
        (λ (e : FormTransitionEvent). holds_id e.form_id (form_ids ledger.forms) ≡ true)
        ledger.events

pub events-append_own :
    (k : String) (events : List FormTransitionEvent) (e : FormTransitionEvent)
    → e.form_id ≡ k
    → list_form_transition_events k (events ++ (e ∷ []))
      ≡ list_form_transition_events k events ++ (e ∷ [])
unfolding list_form_transition_events
events-append_own k events e same =
    let own : of_form k e ≡ true = ground (arith, eq_iff e.form_id k) in
    rw (where_true-append, own) refl

events-append_other :
    (k : String) (events : List FormTransitionEvent) (e : FormTransitionEvent)
    → k ≢ e.form_id
    → list_form_transition_events k (events ++ (e ∷ [])) ≡ list_form_transition_events k events
unfolding list_form_transition_events
events-append_other k events e ne =
    let foreign : of_form k e ≡ false = ground (arith, eq_iff e.form_id k) in
    rw (where_true-append, foreign) (append-nil (where_true (of_form k) events))

other_TracedBy :
    (events : List FormTransitionEvent) (e : FormTransitionEvent) (f : FormLedger)
    → f.form_id ≢ e.form_id
    → TracedBy events f
    → TracedBy (events ++ (e ∷ [])) f
other_TracedBy events e f ne h =
    subst (λ t. Traces none 1 t f.current_status) (sym (events-append_other f.form_id events e ne))
      h

pub others_TracedBy :
    (events : List FormTransitionEvent) (e : FormTransitionEvent) (forms : List FormLedger)
    → Fresh e.form_id (form_ids forms)
    → All (TracedBy events) forms
    → All (TracedBy (events ++ (e ∷ []))) forms
others_TracedBy events e [] fresh h = tt
others_TracedBy events e (f ∷ forms) (ne, fresh) (first, h) =
    (other_TracedBy events e f (ne_sym ne) first, others_TracedBy events e forms fresh h)

module _ (k : String) (now : FormLedger) (same : now.form_id ≡ k) where
  ids-update_first :
      (forms : List FormLedger)
      → form_ids (update_first (has_form_id k) (λ f. now) forms) ≡ form_ids forms
  ids-update_first [] = refl
  ids-update_first (f ∷ forms) = elim (Bool-cases (has_form_id k f)) [
    | inl own ↦
        let e : now.form_id ≡ f.form_id = ground (arith, eq_iff f.form_id k) in
        rw (own) (ap (λ (i : String). i ∷ form_ids forms) e)
    | inr foreign ↦ rw (foreign) (ap (λ (t : List String). f.form_id ∷ t) (ids-update_first forms))
  ]

  update_first-TracedBy :
      (events : List FormTransitionEvent) (e : FormTransitionEvent) (forms : List FormLedger)
      → e.form_id ≡ k
      → Distinct (form_ids forms)
      → All (TracedBy events) forms
      → TracedBy (events ++ (e ∷ [])) now
      → All (TracedBy (events ++ (e ∷ []))) (update_first (has_form_id k) (λ f. now) forms)
  update_first-TracedBy events e [] key apart h first = tt
  update_first-TracedBy events e (f ∷ forms) key (fresh, apart) (old, h) first =
      elim (Bool-cases (has_form_id k f)) [
        | inl own ↦
            let at : f.form_id ≡ e.form_id = ground (arith, eq_iff f.form_id k) in
            rw (own, All)
              (
                first,
                others_TracedBy events e forms (subst (λ i. Fresh i (form_ids forms)) at fresh) h,
              )
        | inr foreign ↦
            let ne : f.form_id ≢ e.form_id = ground (arith, eq_iff f.form_id k) in
            rw (foreign, All)
              (
                other_TracedBy events e f ne old,
                update_first-TracedBy events e forms key apart h first,
              )
      ]

found_TracedBy :
    (k : String) (events : List FormTransitionEvent) (forms : List FormLedger) (f : FormLedger)
    → All (TracedBy events) forms
    → first_where (has_form_id k) forms ≡ some f
    → TracedBy events f × (f.form_id ≡ k) × (holds_id k (form_ids forms) ≡ true)
found_TracedBy k events [] f h found = cc
found_TracedBy k events (x ∷ forms) f (first, h) found = elim (Bool-cases (has_form_id k x)) [
  | inl own ↦
      let e = some_inj (rw (own) at found) in
      (
        subst (TracedBy events) e first,
        ap (λ (y : FormLedger). y.form_id) (sym e) ∙ ground (arith, eq_iff x.form_id k),
        rw (own) refl,
      )
  | inr foreign ↦
      let (traced, key, there) = found_TracedBy k events forms f h (rw (foreign) at found) in
      (traced, key, rw (foreign) there)
]

next_sequence :
    (k : String) (events : List FormTransitionEvent) (final : String)
    → Traces none 1 (list_form_transition_events k events) final
    → max_sequence k events + 1 ≡ 1 + length (list_form_transition_events k events)
next_sequence k events final h = omega (
  arith,
  max_sequence-of_form k events,
  Traces-max_of none 0 (list_form_transition_events k events) final h,
)

-- The entry after a move, with its new event.
moved_TracedBy :
    (t : Transition) (entry set : FormLedger) (events : List FormTransitionEvent)
    → TracedBy events entry
    → entry.form_id ≡ t.form_id
    → set.form_id ≡ t.form_id
    → set.current_status ≡ t.to_status
    → TracedBy
        (events ++ (transition_event t entry (max_sequence t.form_id events + 1) ∷ []))
        (logged t set)
moved_TracedBy t entry set events h key key' status =
    let e = transition_event t entry (max_sequence t.form_id events + 1) in
    let own =
      subst (λ k. Traces none 1 (list_form_transition_events k events) entry.current_status) key
        h in
    let whole =
      Traces-append none 1 (list_form_transition_events t.form_id events) entry.current_status e own
        (next_sequence t.form_id events entry.current_status own) refl in
    let appended = events-append_own set.form_id events e (sym key') in
    subst (λ s. Traces none 1 (list_form_transition_events set.form_id (events ++ (e ∷ []))) s)
      (sym status)
      (subst (λ l. Traces none 1 l t.to_status) (sym appended)
        (subst (λ k. Traces none 1 (list_form_transition_events k events ++ (e ∷ [])) t.to_status)
          (sym key') whole))

commit-IsTraced :
    (t : Transition) (entry set : FormLedger) (ledger : Ledger)
    → IsTraced ledger
    → get_form_ledger t.form_id ledger.forms ≡ some entry
    → set.form_id ≡ entry.form_id
    → set.current_status ≡ t.to_status
    → IsTraced (commit t entry (logged t set) ledger)
unfolding get_form_ledger
commit-IsTraced t entry set ledger h found id status =
    let (old, key, there) =
      found_TracedBy t.form_id ledger.events ledger.forms entry h.traced found in
    let key' = id ∙ key in
    let same = ids-update_first t.form_id (logged t set) key' ledger.forms in
    let e = transition_event t entry (max_sequence t.form_id ledger.events + 1) in
    record {
      apart = subst Distinct (sym same) h.apart;
      traced =
          update_first-TracedBy t.form_id (logged t set) key' ledger.events e ledger.forms refl
            h.apart h.traced (moved_TracedBy t entry set ledger.events old key key' status);
      owned =
          subst
            (λ ids.
              All (λ (x : FormTransitionEvent). holds_id x.form_id ids ≡ true)
                (ledger.events ++ (e ∷ [])))
            (sym same)
            (All-append
              (λ (x : FormTransitionEvent). holds_id x.form_id (form_ids ledger.forms) ≡ true)
              ledger.events (e ∷ []) h.owned (there, tt));
    }

-- A form that keeps its id clashes with no other.
pub no_clash :
    (t : Transition) (entry set : FormLedger) (ledger : Ledger)
    → get_form_ledger t.form_id ledger.forms ≡ some entry
    → set.form_id ≡ entry.form_id
    → clashes t set ledger ≡ false
unfolding get_form_ledger
no_clash t entry set ledger found same =
    let own = first_where-true (has_form_id t.form_id) ledger.forms entry found in
    let e : str_eq set.form_id t.form_id ≡ true = ap (λ i. str_eq i t.form_id) same ∙ own in
    rw (e) refl

-- A transition, accepted or refused, keeps the ledger whole, unless it sets the status or the id of
-- the form by a field: in a ledger where the events of each form count from one, hang together and end
-- in the form's status, they do so afterwards.
pub transition_form_instance-IsTraced :
    (t : Transition) (ledger : Ledger)
    → KeepsTrace t.set_fields
    → IsTraced ledger
    → IsTraced (transition_form_instance t ledger).1
unfolding transition_form_instance move_entry
transition_form_instance-IsTraced t ledger keeps h =
    elim (Option-cases (get_form_ledger t.form_id ledger.forms)) [
      | inl absent ↦ rw (absent, transition_form_instance) h
      | inr (entry, found) ↦
          elim (Bool-cases (str_eq entry.current_status t.expected_from_status)) [
            | inr stale ↦ rw (found, stale, transition_form_instance) h
            | inl fresh ↦ elim (Result-cases (apply_settings t.set_fields (moved t entry))) [
              | inl (e, refused) ↦
                  rw (found, fresh, refused, transition_form_instance, move_entry) h
              | inr (set, applied) ↦
                  rw
                    (
                      found,
                      fresh,
                      applied,
                      transition_form_instance,
                      move_entry,
                      no_clash t entry set ledger found
                          (settings-form_id t.set_fields (moved t entry) set keeps applied),
                    )
                    (commit-IsTraced t entry set ledger h found
                      (settings-form_id t.set_fields (moved t entry) set keeps applied)
                      (settings-current_status t.set_fields (moved t entry) set keeps applied))
            ]
          ]
    ]
