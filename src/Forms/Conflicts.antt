-- ===== src/Forms/Conflicts.antt =====
-- Two transitions from one status, and a transition that sets the status itself
-- (src/omniclaw/db/repository.py, `transition_form_instance`).
use omni_claw.Prelude.{
  ◌+◌, String, ◌≡◌, ◌≢◌, refl, sym, ap, ◌∙◌, true, false, some, List, [], ◌∷◌, ◌++◌, inl, inr,
  arith, str_eq, eq_iff, first_where, update_first, first_where-true, first_where-update_first,
  Bool-cases, Option-cases,
}
use omni_claw.Result.{Result, raise, done, Error, transition_conflict, is_done, Result-cases}
use omni_claw.Forms.Ledger.{
  FormLedger, FormTransitionEvent, Ledger, has_form_id, get_form_ledger, set_status, apply_settings,
  max_sequence, Transition, conflict, moved, logged, transition_event, commit, clashes, move_entry,
  transition_form_instance,
}
use omni_claw.Forms.History.{KeepsTrace, settings-form_id, settings-current_status}

stale :
    (t : Transition) (entry : FormLedger) (ledger : Ledger)
    → get_form_ledger t.form_id ledger.forms ≡ some entry
    → entry.current_status ≢ t.expected_from_status
    → transition_form_instance t ledger ≡ (raise (transition_conflict (conflict t entry)), ledger)
unfolding transition_form_instance
stale t entry ledger found ne =
    let e : str_eq entry.current_status t.expected_from_status ≡ false =
      ground (arith, eq_iff entry.current_status t.expected_from_status) in
    rw (found, e, transition_form_instance) refl

not_done :
    (x : Error) (l : Ledger) (f : FormLedger) (l' : Ledger)
    → ◌≡◌ {A = Result FormLedger × Ledger} (raise x, l) (done f, l')
    → ⊥
not_done x l f l' e =
    let k : false ≡ true = ap (λ (p : Result FormLedger × Ledger). is_done p.0) e in cc

-- What an accepted move did.
pub record Accepted (t : Transition) (ledger : Ledger) (f : FormLedger) (ledger' : Ledger)
    (entry : FormLedger) : Type 0 where
  pub set : FormLedger
  pub applied : apply_settings t.set_fields (moved t entry) ≡ done set
  pub result : f ≡ logged t set
  pub table : ledger' ≡ commit t entry (logged t set) ledger

move_entry-Accepted :
    (t : Transition) (entry : FormLedger) (ledger : Ledger) (f : FormLedger) (ledger' : Ledger)
    → move_entry t entry ledger ≡ (done f, ledger')
    → Accepted t ledger f ledger' entry
unfolding move_entry
move_entry-Accepted t entry ledger f ledger' e =
    elim (Result-cases (apply_settings t.set_fields (moved t entry))) [
      | inl (x, refused) ↦ absurd (not_done x ledger f ledger' (rw (refused, move_entry) at e))
      | inr (set, applied) ↦ elim (Bool-cases (clashes t set ledger)) [
        | inl taken ↦ absurd (not_done _ ledger f ledger' (rw (applied, taken, move_entry) at e))
        | inr apart ↦
            let g : ◌≡◌ {A = Result FormLedger × Ledger}
                (done (logged t set), commit t entry (logged t set) ledger) (done f, ledger') =
              rw (applied, apart, move_entry) at e in
            record {
              set = set;
              applied = applied;
              result = sym (done_inj (ap (λ (p : Result FormLedger × Ledger). p.0) g));
              table = ap (λ (p : Result FormLedger × Ledger). p.1) (sym g);
            }
      ]
    ]
  where
    done_inj : {a b : FormLedger} → done a ≡ done b → a ≡ b
    done_inj e = cc

pub transition_form_instance-Accepted :
    (t : Transition) (ledger : Ledger) (f : FormLedger) (ledger' : Ledger)
    → transition_form_instance t ledger ≡ (done f, ledger')
    → (entry : FormLedger) × (get_form_ledger t.form_id ledger.forms ≡ some entry)
      × Accepted t ledger f ledger' entry
unfolding transition_form_instance
transition_form_instance-Accepted t ledger f ledger' e =
    elim (Option-cases (get_form_ledger t.form_id ledger.forms)) [
      | inl absent ↦
          absurd (not_done _ ledger f ledger' (rw (absent, transition_form_instance) at e))
      | inr (entry, found) ↦
          elim (Bool-cases (str_eq entry.current_status t.expected_from_status)) [
            | inr ne ↦
                absurd (not_done _ ledger f ledger' (rw (found, ne, transition_form_instance) at e))
            | inl same ↦ (
              entry,
              found,
              move_entry-Accepted t entry ledger f ledger'
                  (rw (found, same, transition_form_instance) at e),
            )
          ]
    ]

key_kept :
    (k : String) (set : FormLedger) (forms : List FormLedger) (entry : FormLedger)
    → set.form_id ≡ entry.form_id
    → first_where (has_form_id k) forms ≡ some entry
    → first_where (has_form_id k) (update_first (has_form_id k) (λ f. set) forms) ≡ some set
key_kept k set forms entry same found =
    let own = first_where-true (has_form_id k) forms entry found in
    first_where-update_first (has_form_id k) (λ f. set) (λ x e. ap (λ i. str_eq i k) same ∙ own)
      forms entry found

-- Of two transitions of one form that expect the same status, of which the first leads to another
-- status and sets neither the status nor the id by a field, only the first goes through: the second one raises the conflict and
-- changes nothing.
pub transition_form_instance-conflict :
    (t u : Transition) (ledger : Ledger) (f : FormLedger) (ledger' : Ledger)
    → KeepsTrace t.set_fields
    → transition_form_instance t ledger ≡ (done f, ledger')
    → u.form_id ≡ t.form_id
    → u.expected_from_status ≡ t.expected_from_status
    → t.to_status ≢ t.expected_from_status
    → transition_form_instance u ledger' ≡ (raise (transition_conflict (conflict u f)), ledger')
unfolding get_form_ledger
transition_form_instance-conflict t u ledger f ledger' keeps e form expected moves =
    let (entry, found, a) = transition_form_instance-Accepted t ledger f ledger' e in
    let now : get_form_ledger t.form_id ledger'.forms ≡ some f =
      ap (λ (l : Ledger). get_form_ledger t.form_id l.forms) a.table
      ∙ key_kept t.form_id (logged t a.set) ledger.forms entry
          (settings-form_id t.set_fields (moved t entry) a.set keeps a.applied) found
      ∙ ap some (sym a.result) in
    let status : f.current_status ≡ t.to_status =
      ap (λ (x : FormLedger). x.current_status) a.result
      ∙ settings-current_status t.set_fields (moved t entry) a.set keeps a.applied in
    stale u f ledger' (ap (λ k. get_form_ledger k ledger'.forms) form ∙ now)
      (λ s. moves (sym status ∙ s ∙ expected))

-- A transition whose one field is the status goes through to that status, wherever the workflow leads,
-- while the event that it records says that the form went to the workflow's status.
pub transition_form_instance-set_status :
    (t : Transition) (s : String) (ledger : Ledger) (f : FormLedger) (ledger' : Ledger)
    → t.set_fields ≡ set_status s ∷ []
    → transition_form_instance t ledger ≡ (done f, ledger')
    → (f.current_status ≡ s)
      × (e : FormTransitionEvent) × (ledger'.events ≡ ledger.events ++ (e ∷ []))
      × (e.to_status ≡ t.to_status)
unfolding apply_settings
transition_form_instance-set_status t s ledger f ledger' fields e =
    let (entry, found, a) = transition_form_instance-Accepted t ledger f ledger' e in
    let g = ap (λ x. apply_settings x (moved t entry)) (sym fields) ∙ a.applied in
    let status : a.set.current_status ≡ s = status_of a.set entry g in
    (
      ap (λ (x : FormLedger). x.current_status) a.result ∙ status,
      transition_event t entry (max_sequence t.form_id ledger.events + 1),
      ap (λ (l : Ledger). l.events) a.table,
      refl,
    )
  where
    status_of :
        (set entry : FormLedger)
        → done (record (moved t entry) { current_status = s }) ≡ done set
        → set.current_status ≡ s
    status_of set entry g = cc
