-- ===== src/Ipc/Outcome.antt =====
-- What a step of the router returns: a value, or why the file is not delivered
-- (src/omniclaw/ipc/service.py, the pairs of a value and an error, and the calls of `_undelivered`).
use omni_claw.Prelude.{String, Bool, true, false, ◌≡◌, refl, ◌⊎◌, inl, inr, Option, none, some}

pub data Outcome {κ} (E : Type 0) (V : Type κ) : Type κ where
  refused : E → Outcome E V
  accepted : V → Outcome E V

module _ {κ} {E : Type 0} {V : Type κ} where
  infixl 4 ◌>>=◌
  abbrev pub ◌>>=◌ {μ} : {W : Type μ} → Outcome E V → (V → Outcome E W) → Outcome E W
  step >>= rest = elim step [ refused why ↦ refused why | accepted v ↦ rest v ]

  -- `if test: return …, why`, before the rest of the body.
  abbrev pub unless : Bool → E → Outcome E V → Outcome E V
  unless test why rest = elim test [ true ↦ refused why | false ↦ rest ]

  -- `if value is None: return …, why`
  abbrev pub or_refuse : E → Option V → Outcome E V
  or_refuse why none = refused why
  or_refuse why (some v) = accepted v

  pub bind_accepted {μ} :
      {W : Type μ} (step : Outcome E V) (rest : V → Outcome E W) (w : W)
      → (step >>= rest) ≡ accepted w
      → (v : V) × (step ≡ accepted v) × (rest v ≡ accepted w)
  bind_accepted (refused e) rest w h = cc
  bind_accepted (accepted v) rest w h = (v, refl, h)

  pub unless-accepted :
      (test : Bool) (why : E) (rest : Outcome E V) (v : V)
      → unless test why rest ≡ accepted v
      → (test ≡ false) × (rest ≡ accepted v)
  unless-accepted true why rest v h = cc
  unless-accepted false why rest v h = (refl, h)

  pub or_refuse-accepted :
      (why : E) (o : Option V) (v : V) → or_refuse why o ≡ accepted v → o ≡ some v
  or_refuse-accepted why none v h = cc
  or_refuse-accepted why (some w) v h = cc

  pub accepted_inj : {v w : V} → ◌≡◌ {A = Outcome E V} (accepted v) (accepted w) → v ≡ w
  accepted_inj h = cc

  pub Outcome-cases : (o : Outcome E V) → ((e : E) × (o ≡ refused e)) ⊎ ((v : V) × (o ≡ accepted v))
  Outcome-cases (refused e) = inl (e, refl)
  Outcome-cases (accepted v) = inr (v, refl)

-- Why a step goes no further: a reason that the file's report tells, or an exception that the router
-- does not catch.
pub data Halt : Type 0 where
  told thrown : String → Halt

-- A reason in words.
abbrev pub Checked {κ} : Type κ → Type κ
Checked V = Outcome String V
