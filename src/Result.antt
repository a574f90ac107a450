-- ===== src/Result.antt =====
-- Exceptions that the kernel raises, and methods that change the database and may raise. A commit
-- made before a raise stays, so the state comes back beside the error too.
use omni_claw.Prelude.{ℕ, String, Bool, true, false, Option, none, some, ◌≡◌, refl, ◌⊎◌, inl, inr}

-- `HTTPException(status_code, detail)`, `ValueError(text)`, `TransitionConflictError(text)`
pub data Error : Type 0 where
  http : ℕ → String → Error
  value_error transition_conflict : String → Error

-- How a call ends.
pub data Result {κ} (V : Type κ) : Type κ where
  raise : Error → Result V
  done : V → Result V

infixl 4 ◌>>=◌
abbrev pub ◌>>=◌ {κ μ} : {V : Type κ} {W : Type μ} → Result V → (V → Result W) → Result W
call >>= rest = elim call [ raise e ↦ raise e | done v ↦ rest v ]

-- `if not test: raise e`, before the rest of the body.
abbrev pub require {κ} : {V : Type κ} → Bool → Error → Result V → Result V
require test e rest = elim test [ true ↦ rest | false ↦ raise e ]

abbrev pub is_done {κ} : {V : Type κ} → Result V → Bool
is_done (done v) = true
is_done (raise e) = false

pub Result-cases {κ} :
    {V : Type κ} (r : Result V) → ((e : Error) × (r ≡ raise e)) ⊎ ((v : V) × (r ≡ done v))
Result-cases (raise e) = inl (e, refl)
Result-cases (done v) = inr (v, refl)

-- A call that goes on to the end went through its first part, and through the rest.
pub bind_done {κ μ} :
    {V : Type κ} {W : Type μ} (call : Result V) (rest : V → Result W) (w : W)
    → (call >>= rest) ≡ done w
    → (v : V) × (call ≡ done v) × (rest v ≡ done w)
bind_done (raise e) rest w h = cc
bind_done (done v) rest w h = (v, refl, h)

pub require_done {κ} :
    {V : Type κ} (test : Bool) (e : Error) (rest : Result V) (v : V)
    → require test e rest ≡ done v
    → (test ≡ true) × (rest ≡ done v)
require_done true e rest v h = (refl, h)
require_done false e rest v h = cc

-- `if value is None: raise e`
abbrev pub or_raise {κ} : {V : Type κ} → Error → Option V → Result V
or_raise e none = raise e
or_raise e (some v) = done v

pub or_raise_done {κ} :
    {V : Type κ} (e : Error) (o : Option V) (v : V) → or_raise e o ≡ done v → o ≡ some v
or_raise_done e none v h = cc
or_raise_done e (some w) v h = cc

pub done_inj {κ} : {V : Type κ} {v w : V} → done v ≡ done w → v ≡ w
done_inj h = cc
