-- ===== src/Retry/Schedule.antt =====
-- What the retry policy decides (src/omniclaw/runtime/retry_policy.py).
use omni_claw.Prelude.{
  ℕ, zero, suc, ◌+◌, ◌-◌, ◌*◌, ◌/◌, ◌%◌, ◌≤◌, ◌<◌, String, ◌≡◌, refl, ◌≢◌, Bool, true, Option, none,
  some, inl, inr, ◌↔◌, arith, leb, Bool-cases, Option-cases, strip_or_empty, is_empty, is_some, min,
}
use mathlib.Core.Option
use omni_claw.Retry.Classify.{RetryFailureClass, transient, budget_recoverable, terminal}
use omni_claw.Retry.Policy.{
  max_attempts, second, day, of_clock, clock_time, parse_clock, next_reset, delay_to,
  delay_until_next_reset, transient_delay, fallback_delay, compute_budget_delay_seconds,
  compute_retry_decision,
}

-- A clock time that `time(hour, minute)` accepts.
abbrev pub InDay : ℕ × ℕ → Type 0
InDay (h, m) = (h < 24) × (m < 60)

clock_time-InDay : (a b : Bool × ℕ) {c : ℕ × ℕ} → clock_time a b ≡ some c → InDay c
unfolding clock_time
clock_time-InDay (s, h) (s', m) e = ground arith

pub next_reset_lem :
    (now h m : ℕ)
    → h < 24
    → m < 60
    → let t = next_reset now (h, m) in (now < t) × (t ≤ now + day) × (t % day ≡ of_clock (h, m))
unfolding next_reset
next_reset_lem now h m p q = elim (Bool-cases (leb (now / day * day + of_clock (h, m)) now)) [
  | inl late ↦ rw late (ground arith)
  | inr early ↦ rw early (ground arith)
]

-- The pieces of `parse_clock`, read backwards.
pub parse_clock-InDay : (raw : String) {c : ℕ × ℕ} → parse_clock raw ≡ some c → InDay c
unfolding parse_clock clock_time
parse_clock-InDay raw {c = (h, m)} e = ground arith

delay_to_lem :
    (now : ℕ) (o : Option (ℕ × ℕ)) (d : ℕ)
    → delay_to now o ≡ some d
    → (c : ℕ × ℕ) × (o ≡ some c) × (d ≡ (next_reset now c - now) / second)
unfolding delay_to
delay_to_lem now none d e = cc
delay_to_lem now (some c) d e = (c, refl, cc)

delay_found :
    (now : ℕ) (raw : Option String) (d : ℕ)
    → delay_until_next_reset now raw ≡ some d
    → delay_to now (parse_clock (strip_or_empty raw)) ≡ some d
unfolding delay_until_next_reset
delay_found now raw d e = ground arith

-- Where a reset delay is found, the reset time is a valid clock time, the reset that is waited for
-- is the next one after `now` at that time of day, and waiting the delay ends less than a second
-- before it, never after it.
pub delay_until_next_reset_lem :
    (now : ℕ) (reset_time_utc : Option String) (d : ℕ)
    → delay_until_next_reset now reset_time_utc ≡ some d
    → (c : ℕ × ℕ) × (parse_clock (strip_or_empty reset_time_utc) ≡ some c)
      × (now < next_reset now c)
      × (next_reset now c ≤ now + day)
      × (next_reset now c % day ≡ of_clock c)
      × (now + d * second ≤ next_reset now c)
      × (next_reset now c < now + d * second + second)
delay_until_next_reset_lem now raw d e =
    let ((h, m), parsed, exact) = delay_to_lem now _ d (delay_found now raw d e) in
    let (hour_fits, minute_fits) = parse_clock-InDay (strip_or_empty raw) parsed in
    let (after, soon, at_clock) = next_reset_lem now h m hour_fits minute_fits in
    ((h, m), parsed, after, soon, at_clock, omega arith, omega arith)

-- A decision to retry is made exactly for fewer than eight attempts and a class that is not
-- terminal; the decision then has a delay, and the next attempt is due that delay after `now`.
-- Otherwise it has neither.
pub retry_decision_consistent :
    (attempt_count : ℕ) (c : RetryFailureClass) (now : ℕ) (reset_time_utc : Option String)
    → let d = compute_retry_decision attempt_count c now reset_time_utc in
      ((d.retryable ≡ true) ↔ ((attempt_count < max_attempts) × (c ≢ terminal)))
      × (is_some d.delay_seconds ≡ d.retryable)
      × (d.next_attempt_at ≡ Option.map (λ s. now + s * second) d.delay_seconds)
      × (d.failure_class ≡ c)
unfolding compute_retry_decision
retry_decision_consistent a transient now r = ground arith
retry_decision_consistent a budget_recoverable now r = ground arith
retry_decision_consistent a terminal now r = ground arith

-- The backoff after a transient failure never shrinks from one attempt to the next.
pub transient_delay_mono : (a : ℕ) → transient_delay a ≤ transient_delay (suc a)
transient_delay_mono zero = omega arith
transient_delay_mono (suc zero) = omega arith
transient_delay_mono (suc (suc zero)) = omega arith
transient_delay_mono (suc (suc (suc zero))) = omega arith
transient_delay_mono (suc (suc (suc (suc a)))) =
    let e : (n : ℕ) → min (suc (suc (suc (suc n)))) 4 ≡ 4 = λ n. omega arith in
    rw (e a, e (suc a)) (omega arith)

pub fallback_bounds : (a : ℕ) → (21600 ≤ fallback_delay a) × (fallback_delay a ≤ 86400)
fallback_bounds zero = omega arith
fallback_bounds (suc zero) = omega arith
fallback_bounds (suc (suc a)) = let e : min (suc (suc a)) 2 ≡ 2 = omega arith in rw e (omega arith)

compute_budget_delay_seconds_bounds :
    (a now : ℕ) (r : Option String)
    → (fallback_delay a ≤ compute_budget_delay_seconds a now r)
      × (compute_budget_delay_seconds a now r ≤ 86400)
unfolding compute_budget_delay_seconds
compute_budget_delay_seconds_bounds a now r = elim (Option-cases (delay_until_next_reset now r)) [
  | inl nothing ↦ rw nothing (omega (arith, fallback_bounds a))
  | inr (d, found) ↦
      let (c, _, _, soon, _, before, _) = delay_until_next_reset_lem now r d found in
      rw found (omega (arith, fallback_bounds a))
]

transient_bounds : (a : ℕ) → (60 ≤ transient_delay a) × (transient_delay a ≤ 21600)
transient_bounds zero = omega arith
transient_bounds (suc zero) = omega arith
transient_bounds (suc (suc zero)) = omega arith
transient_bounds (suc (suc (suc zero))) = omega arith
transient_bounds (suc (suc (suc (suc a)))) =
    let e : min (suc (suc (suc (suc a)))) 4 ≡ 4 = omega arith in rw e (omega arith)

-- The least delay after a failure of the class, in seconds.
abbrev pub least_delay : RetryFailureClass → ℕ
least_delay budget_recoverable = 21600
least_delay _ = 60

-- Every delay that the policy gives is at most one day, and at least one minute, or six hours after a
-- failure for want of budget.
pub retry_delay_bounds :
    (attempt_count : ℕ) (c : RetryFailureClass) (now : ℕ) (reset_time_utc : Option String) (s : ℕ)
    → (compute_retry_decision attempt_count c now reset_time_utc).delay_seconds ≡ some s
    → (least_delay c ≤ s) × (s ≤ 86400)
unfolding compute_retry_decision
retry_delay_bounds a transient now r s e = ground (arith, transient_bounds a)
retry_delay_bounds a budget_recoverable now r s e =
    ground (arith, fallback_bounds a, compute_budget_delay_seconds_bounds a now r)
retry_delay_bounds a terminal now r s e = ground arith

reset_delay_le :
    (a now : ℕ) (r : Option String) (d : ℕ)
    → delay_until_next_reset now r ≡ some d
    → d ≤ compute_budget_delay_seconds a now r
unfolding compute_budget_delay_seconds
reset_delay_le a now r d e = rw e (omega arith)

parse_clock_empty : (s : String) → is_empty s ≡ true → parse_clock s ≡ none
unfolding parse_clock
parse_clock_empty String.[] h = refl
parse_clock_empty (String.◌∷◌ x s) h = cc

delay_known :
    (now : ℕ) (r : Option String) (c : ℕ × ℕ)
    → parse_clock (strip_or_empty r) ≡ some c
    → delay_until_next_reset now r ≡ some ((next_reset now c - now) / second)
unfolding delay_until_next_reset
delay_known now r c e = elim (Bool-cases (is_empty (strip_or_empty r))) [
  | inl nothing ↦ cc (parse_clock_empty _ nothing)
  | inr text ↦ rw (text, e)
]

-- A prompt that failed for want of budget, and whose reset time is a valid clock time, is due again
-- no earlier than one second before the next reset of the budget, for any of its first eight
-- attempts.
pub budget_retry_waits_for_reset :
    (attempt_count now : ℕ) (reset_time_utc : Option String) (c : ℕ × ℕ)
    → attempt_count < max_attempts
    → parse_clock (strip_or_empty reset_time_utc) ≡ some c
    → (due : ℕ) × ((compute_retry_decision attempt_count budget_recoverable now
          reset_time_utc).next_attempt_at
        ≡ some due)
      × (next_reset now c < due + second)
unfolding compute_retry_decision
budget_retry_waits_for_reset a now r c h e =
    let d = compute_budget_delay_seconds a now r in
    let found = delay_known now r c e in
    (now + d * second, ground arith, omega (arith, reset_delay_le a now r _ found))
