-- ===== src/Retry/Operator.antt =====
-- What an operator's two actions on a retry do (src/omniclaw/runtime/service.py, `_retry_now` and
-- `_cancel_retry`).
use omni_claw.Prelude.{
  ℕ, ◌≤◌, String, ◌≡◌, refl, true, false, Option, none, some, arith, is_empty, strip_or_empty,
}
use omni_claw.Result.{done}
use omni_claw.Retry.Table.{
  AgentTaskRetry, Retries, StatusUpdate, is_pending, is_due, updated_row, claimed_row,
  get_agent_task_retry, claim_agent_task_retry, update_agent_task_retry_status,
}
use omni_claw.Retry.Scheduler.{retry_now_update, cancel_update, operate, retry_now, cancel_retry}
use omni_claw.Retry.Claims.{get-set_status_self, set_status_result, claim_pending, claim_busy}

module _ (task_key : Option String) (rows : Retries) where
  abbrev key : String
  key = strip_or_empty task_key

  operate-found :
      (u : StatusUpdate) (r : AgentTaskRetry)
      → is_empty key ≡ false
      → get_agent_task_retry key rows ≡ some r
      → operate u task_key rows
        ≡ (done (updated_row u r), (update_agent_task_retry_status key u rows).1)
  unfolding operate
  operate-found u r named found =
      rw (named, found, operate) (rw (set_status_result key u rows r found))

  expedited :
      (now : ℕ) (r : AgentTaskRetry)
      → (is_pending (updated_row (retry_now_update now) r) ≡ true)
        × ((t : ℕ) → now ≤ t → is_due t (updated_row (retry_now_update now) r) ≡ true)
  unfolding updated_row
  expedited now r = (refl, λ t h. ground arith)

  cancelled :
      (now : ℕ) (r : AgentTaskRetry)
      → (is_pending (updated_row (cancel_update now) r) ≡ false)
        × ((t : ℕ) → is_due t (updated_row (cancel_update now) r) ≡ false)
  unfolding updated_row
  cancelled now r = (refl, λ t. refl)

  -- `retry_now` on a task that has a row, whatever its status, succeeds: the row is due from that
  -- moment on, and the next claim gets it.
  pub retry_now-claim :
      (now t : ℕ) (r : AgentTaskRetry)
      → is_empty key ≡ false
      → get_agent_task_retry key rows ≡ some r
      → now ≤ t
      → let rows' = (retry_now now task_key rows).1 in
        (x : AgentTaskRetry) × ((retry_now now task_key rows).0 ≡ done x)
        × (get_agent_task_retry key rows' ≡ some x)
        × (is_due t x ≡ true)
        × ((claim_agent_task_retry key t rows').0 ≡ some (claimed_row t x))
  unfolding retry_now
  retry_now-claim now t r named found later =
      let u = retry_now_update now in
      let e = operate-found u r named found in
      let got = get-set_status_self key u rows r found in
      let (pending, due) = expedited now r in
      (
        updated_row u r,
        rw e,
        rw e got,
        due t later,
        rw e (rw (claim_pending key t _ (updated_row u r) got pending)),
      )

  -- `cancel_retry` on a task that has a row, whatever its status, succeeds: no pass finds the row
  -- due any more, and no claim gets it.
  pub cancel_retry-claim :
      (now t : ℕ) (r : AgentTaskRetry)
      → is_empty key ≡ false
      → get_agent_task_retry key rows ≡ some r
      → let rows' = (cancel_retry now task_key rows).1 in
        (x : AgentTaskRetry) × ((cancel_retry now task_key rows).0 ≡ done x)
        × (get_agent_task_retry key rows' ≡ some x)
        × (is_due t x ≡ false)
        × (claim_agent_task_retry key t rows' ≡ (none, rows'))
  unfolding cancel_retry
  cancel_retry-claim now t r named found =
      let u = cancel_update now in
      let e = operate-found u r named found in
      let got = get-set_status_self key u rows r found in
      let (idle, never) = cancelled now r in
      (
        updated_row u r,
        rw e,
        rw e got,
        never t,
        rw e (rw (claim_busy key t _ (updated_row u r) got idle)),
      )
