-- ===== src/Forms/History.antt =====
-- The events of a form tell its whole history (src/omniclaw/db/repository.py,
-- `create_form_instance` and `transition_form_instance`).
use omni_claw.Prelude.{
  ℕ, suc, ◌+◌, String, ◌≡◌, refl, sym, ◌∙◌, Bool, true, false, Option, some, List, [], ◌∷◌, ◌++◌,
  inl, inr, arith, max, All, length, Bool-cases,
}
use omni_claw.Result.{done}
use omni_claw.Forms.Ledger.{
  FormLedger, FormTransitionEvent, of_form, list_form_transition_events, Setting, set_status,
  set_form_id, set_holder, set_type, set_type_key, set_type_version, set_history, set_details,
  other, apply_settings, max_sequence,
}

-- The events count on from a number, each starts from the status in which the one before ended, and
-- the last ends in the final status.
abbrev pub Traces : Option String → ℕ → List FormTransitionEvent → String → Type 0
Traces before n [] final = before ≡ some final
Traces before n (e ∷ events) final =
    (e.sequence ≡ n) × (e.from_status ≡ before) × Traces (some e.to_status) (suc n) events final

pub Traces-append :
    (before : Option String) (n : ℕ) (events : List FormTransitionEvent) (final : String)
    (e : FormTransitionEvent)
    → Traces before n events final
    → e.sequence ≡ n + length events
    → e.from_status ≡ some final
    → Traces before n (events ++ (e ∷ [])) e.to_status
Traces-append before n [] final e h s f = (omega (arith, s), f ∙ sym h, refl)
Traces-append before n (x ∷ events) final e (number, from, h) s f =
    (number, from, Traces-append (some x.to_status) (suc n) events final e h (omega (arith, s)) f)

abbrev max_of : List FormTransitionEvent → ℕ
max_of [] = 0
max_of (e ∷ events) = max e.sequence (max_of events)

pub max_sequence-of_form :
    (k : String) (events : List FormTransitionEvent)
    → max_sequence k events ≡ max_of (list_form_transition_events k events)
unfolding max_sequence list_form_transition_events
max_sequence-of_form k [] = refl
max_sequence-of_form k (e ∷ events) = elim (Bool-cases (of_form k e)) [
  | inl own ↦ rw (own, max_sequence-of_form k events) refl
  | inr foreign ↦ rw (foreign, max_sequence-of_form k events) refl
]

pub Traces-max_of :
    (before : Option String) (n : ℕ) (events : List FormTransitionEvent) (final : String)
    → Traces before (suc n) events final
    → max n (max_of events) ≡ n + length events
Traces-max_of before n [] final h = omega arith
Traces-max_of before n (e ∷ events) final (number, from, h) =
    omega (arith, number, Traces-max_of (some e.to_status) (suc n) events final h)

abbrev is_tracked : Setting → Bool
is_tracked (set_status s) = true
is_tracked (set_form_id k) = true
is_tracked _ = false

-- No setting writes the status or the id.
abbrev pub KeepsTrace : List Setting → Type 0
KeepsTrace settings = All (λ s. is_tracked s ≡ false) settings

pub settings-form_id :
    (settings : List Setting) (e f : FormLedger)
    → KeepsTrace settings
    → apply_settings settings e ≡ done f
    → f.form_id ≡ e.form_id
unfolding apply_settings
settings-form_id [] e f k h = cc
settings-form_id (set_status s ∷ r) e f (t, ts) h = cc
settings-form_id (set_form_id k ∷ r) e f (t, ts) h = cc
settings-form_id (set_holder n ∷ r) e f (t, ts) h =
    settings-form_id r (record e { current_holder_node = n }) f ts h
settings-form_id (set_type k ∷ r) e f (t, ts) h = settings-form_id r (record e { type = k }) f ts h
settings-form_id (set_type_key k ∷ r) e f (t, ts) h =
    settings-form_id r (record e { form_type_key = k }) f ts h
settings-form_id (set_type_version v ∷ r) e f (t, ts) h =
    settings-form_id r (record e { form_type_version = v }) f ts h
settings-form_id (set_history l ∷ r) e f (t, ts) h =
    settings-form_id r (record e { history_log = l }) f ts h
settings-form_id (set_details d ∷ r) e f (t, ts) h =
    settings-form_id r (record e { details = d e.details }) f ts h
settings-form_id (other k ∷ r) e f (t, ts) h = cc

pub settings-current_status :
    (settings : List Setting) (e f : FormLedger)
    → KeepsTrace settings
    → apply_settings settings e ≡ done f
    → f.current_status ≡ e.current_status
unfolding apply_settings
settings-current_status [] e f k h = cc
settings-current_status (set_status s ∷ r) e f (k, ks) h = cc
settings-current_status (set_form_id i ∷ r) e f (k, ks) h = cc
settings-current_status (set_holder n ∷ r) e f (k, ks) h =
    settings-current_status r (record e { current_holder_node = n }) f ks h
settings-current_status (set_type t ∷ r) e f (k, ks) h =
    settings-current_status r (record e { type = t }) f ks h
settings-current_status (set_type_key t ∷ r) e f (k, ks) h =
    settings-current_status r (record e { form_type_key = t }) f ks h
settings-current_status (set_type_version v ∷ r) e f (k, ks) h =
    settings-current_status r (record e { form_type_version = v }) f ks h
settings-current_status (set_history l ∷ r) e f (k, ks) h =
    settings-current_status r (record e { history_log = l }) f ks h
settings-current_status (set_details d ∷ r) e f (k, ks) h =
    settings-current_status r (record e { details = d e.details }) f ks h
settings-current_status (other x ∷ r) e f (k, ks) h = cc
