-- ===== src/Forms/Created.antt =====
-- A new form gets an id of its own and a history that begins with it
-- (src/omniclaw/db/repository.py, `_next_available_form_id` and `create_form_instance`).
use omni_claw.Prelude.{
  ℕ, zero, suc, ◌≤◌, String, ◌≡◌, ◌≢◌, refl, sym, ap, subst, ◌∙◌, Bool, true, false, Option, none,
  some, List, [], ◌∷◌, ◌++◌, inl, inr, arith, str_eq, str_append, eq_iff, eq_refl, decimal,
  is_empty, codes, text_take, All, All-append, length, any_where, Fresh, Distinct, Bool-cases,
  Option-cases, some_inj, ne_sym,
}
use omni_claw.Forms.Ids.{
  find_form_id, clean_form_id, fit_form_id, normalize_form_id_hint, next_available_form_id,
}
use omni_claw.Forms.Ledger.{
  FormLedger, FormTransitionEvent, Ledger, has_form_id, of_form, list_form_transition_events,
  NewForm, new_entry, first_event, create_form_instance,
}
use omni_claw.Forms.History.{Traces}
use omni_claw.Forms.Traced.{
  form_ids, TracedBy, holds_id, IsTraced, events-append_own, others_TracedBy,
}

find_form_id-free :
    (fuel : ℕ) (used : String → Bool) (base candidate : String) (suffix : ℕ) (id : String)
    → find_form_id fuel used base candidate suffix ≡ some id
    → used id ≡ false
unfolding find_form_id
find_form_id-free zero used base candidate suffix id h = cc
find_form_id-free (suc fuel) used base candidate suffix id h = elim (Bool-cases (used candidate)) [
  | inl taken ↦
      find_form_id-free fuel used base
        (normalize_form_id_hint (str_append base (str_append "-" (decimal suffix)))) (suc suffix) id
        (rw (taken, find_form_id) at h)
  | inr free ↦
      let e : some candidate ≡ some id = rw (free, find_form_id) at h in
      ap used (sym (some_inj e)) ∙ free
]

text_take-length : (n : ℕ) (s : String) → length (codes (text_take n s)) ≤ n
text_take-length zero String.[] = omega arith
text_take-length zero (String.◌∷◌ c s) = omega arith
text_take-length (suc n) String.[] = omega arith
text_take-length (suc n) (String.◌∷◌ c s) = omega (arith, text_take-length n s)

text_take-nonempty :
    (n : ℕ) (s : String) → is_empty s ≡ false → 1 ≤ length (codes (text_take (suc n) s))
text_take-nonempty n String.[] h = cc
text_take-nonempty n (String.◌∷◌ c s) h = omega arith

fit_form_id-bounds :
    (s : String) → (1 ≤ length (codes (fit_form_id s))) × (length (codes (fit_form_id s)) ≤ 64)
fit_form_id-bounds s = elim (Bool-cases (is_empty s)) [
  | inl e ↦ rw (e) (omega arith)
  | inr e ↦ rw (e) (text_take-nonempty 63 s e, text_take-length 64 s)
]

abbrev pub Fits : String → Type 0
Fits id = (1 ≤ length (codes id)) × (length (codes id) ≤ 64)

find_form_id-Fits :
    (fuel : ℕ) (used : String → Bool) (base candidate : String) (suffix : ℕ) (id : String)
    → Fits candidate
    → find_form_id fuel used base candidate suffix ≡ some id
    → Fits id
unfolding find_form_id normalize_form_id_hint
find_form_id-Fits zero used base candidate suffix id fits h = cc
find_form_id-Fits (suc fuel) used base candidate suffix id fits h =
    elim (Bool-cases (used candidate)) [
      | inl taken ↦
          let next = str_append base (str_append "-" (decimal suffix)) in
          find_form_id-Fits fuel used base (normalize_form_id_hint next) (suc suffix) id
            (fit_form_id-bounds (clean_form_id next)) (rw (taken, find_form_id) at h)
      | inr free ↦
          let e : some candidate ≡ some id = rw (free, find_form_id) at h in
          subst Fits (some_inj e) fits
    ]

unused-Fresh :
    (id : String) (forms : List FormLedger)
    → any_where (has_form_id id) forms ≡ false
    → Fresh id (form_ids forms)
unused-Fresh id [] h = tt
unused-Fresh id (f ∷ forms) h = elim (Bool-cases (has_form_id id f)) [
  | inl e ↦ let g : true ≡ false = rw (e) at h in cc
  | inr e ↦ (ground (arith, eq_iff f.form_id id), unused-Fresh id forms (rw (e) at h))
]

-- An id that no form has, no event has.
no_events :
    (id : String) (ids : List String) (events : List FormTransitionEvent)
    → holds_id id ids ≡ false
    → All (λ (e : FormTransitionEvent). holds_id e.form_id ids ≡ true) events
    → list_form_transition_events id events ≡ []
unfolding list_form_transition_events
no_events id ids [] h owned = refl
no_events id ids (e ∷ events) h (there, owned) = elim (Bool-cases (of_form id e)) [
  | inl own ↦
      let same : e.form_id ≡ id = ground (arith, eq_iff e.form_id id) in
      let f : true ≡ false = sym there ∙ ap (λ k. holds_id k ids) same ∙ h in cc
  | inr foreign ↦ rw (foreign) (no_events id ids events h owned)
]

holds_ids :
    (k : String) (forms : List FormLedger)
    → any_where (has_form_id k) forms ≡ holds_id k (form_ids forms)
holds_ids k [] = refl
holds_ids k (f ∷ forms) = rw (holds_ids k forms) refl

ids-append :
    (forms : List FormLedger) (f : FormLedger)
    → form_ids (forms ++ (f ∷ [])) ≡ form_ids forms ++ (f.form_id ∷ [])
ids-append [] f = refl
ids-append (x ∷ forms) f = ap (λ (t : List String). x.form_id ∷ t) (ids-append forms f)

Distinct-append_one :
    (ids : List String) (k : String) → Distinct ids → Fresh k ids → Distinct (ids ++ (k ∷ []))
Distinct-append_one [] k h fresh = (tt, tt)
Distinct-append_one (i ∷ ids) k (first, h) (ne, fresh) =
    (All-append (λ j. i ≢ j) ids (k ∷ []) first (ne_sym ne, tt), Distinct-append_one ids k h fresh)

still_held :
    (k i : String) (ids : List String) → holds_id k ids ≡ true → holds_id k (ids ++ (i ∷ [])) ≡ true
still_held k i [] h = cc
still_held k i (j ∷ ids) h = elim (Bool-cases (str_eq j k)) [
  | inl e ↦ rw (e) refl
  | inr e ↦ rw (e) (still_held k i ids (rw (e) at h))
]

all_still_held :
    (i : String) (ids : List String) (events : List FormTransitionEvent)
    → All (λ (e : FormTransitionEvent). holds_id e.form_id ids ≡ true) events
    → All (λ (e : FormTransitionEvent). holds_id e.form_id (ids ++ (i ∷ [])) ≡ true) events
all_still_held i ids [] h = tt
all_still_held i ids (e ∷ events) (first, h) =
    (still_held e.form_id i ids first, all_still_held i ids events h)

now_held : (i : String) (ids : List String) → holds_id i (ids ++ (i ∷ [])) ≡ true
now_held i [] = rw (eq_refl) refl
now_held i (j ∷ ids) = elim (Bool-cases (str_eq j i)) [
  | inl e ↦ rw (e) refl
  | inr e ↦ rw (e) (now_held i ids)
]

module _ (n : NewForm) (ledger : Ledger) (h : IsTraced ledger) (id : String) where
  abbrev entered : Ledger
  entered = record {
    forms = ledger.forms ++ (new_entry id n ∷ []);
    events = ledger.events ++ (first_event id n ∷ []);
  }

  entered-IsTraced : any_where (has_form_id id) ledger.forms ≡ false → IsTraced entered
  entered-IsTraced free =
      let ids = form_ids ledger.forms in
      let e = first_event id n in
      let fresh = unused-Fresh id ledger.forms free in
      let all_ids = ids-append ledger.forms (new_entry id n) in
      let silent =
        no_events id ids ledger.events (sym (holds_ids id ledger.forms) ∙ free) h.owned in
      let told =
        events-append_own id ledger.events e refl
        ∙ ap (λ (l : List FormTransitionEvent). l ++ (e ∷ [])) silent in
      record {
        apart = subst Distinct (sym all_ids) (Distinct-append_one ids id h.apart fresh);
        traced =
            All-append (TracedBy (ledger.events ++ (e ∷ []))) ledger.forms (new_entry id n ∷ [])
              (others_TracedBy ledger.events e ledger.forms fresh h.traced)
              (subst (λ l. Traces none 1 l n.current_status) (sym told) (refl, refl, refl), tt);
        owned =
            subst
              (λ is.
                All (λ (x : FormTransitionEvent). holds_id x.form_id is ≡ true)
                  (ledger.events ++ (e ∷ [])))
              (sym all_ids)
              (All-append
                (λ (x : FormTransitionEvent). holds_id x.form_id (ids ++ (id ∷ [])) ≡ true)
                ledger.events (e ∷ []) (all_still_held id ids ledger.events h.owned)
                (now_held id ids, tt));
      }

-- The ids that the loop tries with its fuel, in their order.
abbrev pub candidate_ids : ℕ → String → String → ℕ → List String
candidate_ids zero base candidate suffix = []
candidate_ids (suc fuel) base candidate suffix =
    candidate
    ∷ candidate_ids fuel base
        (normalize_form_id_hint (str_append base (str_append "-" (decimal suffix)))) (suc suffix)

find_form_id-none :
    (fuel : ℕ) (used : String → Bool) (base candidate : String) (suffix : ℕ)
    → find_form_id fuel used base candidate suffix ≡ none
    → All (λ id. used id ≡ true) (candidate_ids fuel base candidate suffix)
unfolding find_form_id
find_form_id-none zero used base candidate suffix h = tt
find_form_id-none (suc fuel) used base candidate suffix h = elim (Bool-cases (used candidate)) [
  | inl taken ↦ (
    taken,
    find_form_id-none fuel used base
        (normalize_form_id_hint (str_append base (str_append "-" (decimal suffix)))) (suc suffix)
        (rw (taken, find_form_id) at h),
  )
  | inr free ↦ let g : some candidate ≡ none = rw (free, find_form_id) at h in cc
]

-- The first candidates for the id of the form, as many as the fuel says, are all in use.
abbrev pub InUse : ℕ → NewForm → Ledger → Type 0
InUse fuel n ledger =
    let base = normalize_form_id_hint n.form_id_hint in
    All (λ id. any_where (has_form_id id) ledger.forms ≡ true) (candidate_ids fuel base base 2)

pub create_form_instance-none :
    (fuel : ℕ) (n : NewForm) (ledger : Ledger)
    → create_form_instance fuel n ledger ≡ none
    → InUse fuel n ledger
unfolding create_form_instance next_available_form_id
create_form_instance-none fuel n ledger h =
    elim (Option-cases (
      next_available_form_id fuel (λ id. any_where (has_form_id id) ledger.forms) n.form_id_hint)) [
        | inl stopped ↦ find_form_id-none fuel _ _ _ 2 stopped
        | inr (id, got) ↦
            let g : ◌≡◌ {A = Option (FormLedger × Ledger)} (some (new_entry id n, _)) none =
              rw (got, create_form_instance) at h in
            cc
      ]

abbrev pub Created : ℕ → NewForm → Ledger → Option (FormLedger × Ledger) → Type 0
Created fuel n ledger none = InUse fuel n ledger
Created fuel n ledger (some (f, ledger')) =
    IsTraced ledger' × Fits f.form_id × (any_where (has_form_id f.form_id) ledger.forms ≡ false)

-- A form is created wherever one of the first `fuel` candidates for its id is not in use. It gets an id
-- of one to sixty-four characters that no form had, and the ledger stays whole: ids are distinct, and
-- the events of each form, the new one included, count from one, hang together and end in its status.
pub create_form_instance-IsTraced :
    (fuel : ℕ) (n : NewForm) (ledger : Ledger)
    → IsTraced ledger
    → Created fuel n ledger (create_form_instance fuel n ledger)
unfolding create_form_instance next_available_form_id normalize_form_id_hint
create_form_instance-IsTraced fuel n ledger h =
    elim (Option-cases (
      next_available_form_id fuel (λ id. any_where (has_form_id id) ledger.forms) n.form_id_hint)) [
        | inl stopped ↦
            rw (stopped, create_form_instance) (find_form_id-none fuel used base base 2 stopped)
        | inr (id, got) ↦
            let free = find_form_id-free fuel used base base 2 id got in
            let fits =
              find_form_id-Fits fuel used base base 2 id
                (fit_form_id-bounds (clean_form_id n.form_id_hint)) got in
            rw (got, create_form_instance) (entered-IsTraced n ledger h id free, fits, free)
      ]
  where
    used : String → Bool
    used = λ id. any_where (has_form_id id) ledger.forms

    base : String
    base = normalize_form_id_hint n.form_id_hint
