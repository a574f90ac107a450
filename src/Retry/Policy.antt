-- ===== src/Retry/Policy.antt =====
-- When a failed prompt is tried again (src/omniclaw/runtime/retry_policy.py). A time is a number of
-- microseconds from midnight UTC of day 0; a delay is in seconds, as in the source.
use omni_claw.Prelude.{
  ℕ, ◌+◌, ◌-◌, ◌*◌, ◌/◌, String, Bool, true, false, ◌||◌, ◌&&◌, Option, none, some, List, [], ◌∷◌,
  max, min, leb, ltb, if◌then◌else◌, get_or, is_empty, split_once, parse_int, strip_or_empty,
}
use omni_claw.Retry.Classify.{RetryFailureClass, transient, terminal}

pub record RetryDecision : Type 0 where
  pub failure_class : RetryFailureClass
  pub retryable : Bool
  pub next_attempt_at : Option ℕ
  pub delay_seconds : Option ℕ
  pub max_attempts : ℕ
  pub reason : String

abbrev pub transient_delays_seconds : List ℕ
transient_delays_seconds = 60 ∷ 300 ∷ 900 ∷ 3600 ∷ 21600 ∷ []

abbrev pub budget_delay_fallback_hours : List ℕ
budget_delay_fallback_hours = 6 ∷ 12 ∷ 24 ∷ []

abbrev pub max_attempts : ℕ
max_attempts = 8

abbrev pub second : ℕ
second = 1000000

abbrev pub day : ℕ
day = 86400000000

-- `time(hour=…, minute=…)`: `none` is the `ValueError`.
unfoldable pub clock_time : Bool × ℕ → Bool × ℕ → Option (ℕ × ℕ)
clock_time (neg, h) (neg', m) =
    if (neg && ltb 0 h) || (neg' && ltb 0 m) || leb 24 h || leb 60 m then none else some (h, m)

-- The body of the `try`: `raw.split(":", 1)`, two `int`s and a `time`.
unfoldable pub parse_clock : String → Option (ℕ × ℕ)
unfolding split_once parse_int clock_time
parse_clock raw = elim (split_once b':' raw) [
  | none ↦ none
  | some (hour_text, minute_text) ↦ elim (parse_int hour_text) [
    | none ↦ none
    | some h ↦ elim (parse_int minute_text) [ none ↦ none | some m ↦ clock_time h m ]
  ]
]

-- Microseconds after midnight.
abbrev pub of_clock : ℕ × ℕ → ℕ
of_clock (h, m) = (h * 3600 + m * 60) * second

-- `candidate`: today at the reset time, or a day later if that is not after `now`.
unfoldable pub next_reset : ℕ → ℕ × ℕ → ℕ
next_reset now clock =
    let candidate = now / day * day + of_clock clock in
    if leb candidate now then candidate + day else candidate

unfoldable pub delay_to : ℕ → Option (ℕ × ℕ) → Option ℕ
unfolding next_reset
delay_to now none = none
delay_to now (some clock) = some ((next_reset now clock - now) / second)

unfoldable pub delay_until_next_reset : ℕ → Option String → Option ℕ
unfolding strip_or_empty parse_clock delay_to
delay_until_next_reset now reset_time_utc =
    let raw = strip_or_empty reset_time_utc in
    if is_empty raw then none else delay_to now (parse_clock raw)

-- `xs[min(i, len(xs) - 1)]` of the two tables.
abbrev pub transient_delay : ℕ → ℕ
transient_delay attempt_count = get_or transient_delays_seconds (min attempt_count 4) 0

abbrev pub fallback_delay : ℕ → ℕ
fallback_delay attempt_count = get_or budget_delay_fallback_hours (min attempt_count 2) 0 * 3600

abbrev at_least : ℕ → Option ℕ → ℕ
at_least fallback none = fallback
at_least fallback (some reset) = max reset fallback

unfoldable pub compute_budget_delay_seconds : ℕ → ℕ → Option String → ℕ
compute_budget_delay_seconds attempt_count now reset_time_utc =
    at_least (fallback_delay attempt_count) (delay_until_next_reset now reset_time_utc)

abbrev pub is_terminal : RetryFailureClass → Bool
is_terminal terminal = true
is_terminal _ = false

abbrev pub is_transient : RetryFailureClass → Bool
is_transient transient = true
is_transient _ = false

abbrev retry_after : RetryFailureClass → ℕ → ℕ → String → RetryDecision
retry_after c now delay why = record {
  failure_class = c;
  retryable = true;
  next_attempt_at = some (now + delay * second);
  delay_seconds = some delay;
  max_attempts = max_attempts;
  reason = why;
}

unfoldable pub compute_retry_decision : ℕ → RetryFailureClass → ℕ → Option String → RetryDecision
compute_retry_decision attempt_count failure_class now reset_time_utc =
    if leb max_attempts attempt_count || is_terminal failure_class
    then record {
      failure_class = failure_class;
      retryable = false;
      next_attempt_at = none;
      delay_seconds = none;
      max_attempts = max_attempts;
      reason =
          if leb max_attempts attempt_count then "max attempts reached" else "terminal failure";
    }
    else if is_transient failure_class
    then retry_after failure_class now (transient_delay attempt_count) "transient backoff"
    else retry_after failure_class now
        (compute_budget_delay_seconds attempt_count now reset_time_utc) "budget recovery backoff"
