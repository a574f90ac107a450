-- ===== src/Retry/Exhaustion.antt =====
-- How failures of one prompt add up (src/omniclaw/runtime/service.py,
-- `_handle_failed_prompt_invocation`).
use omni_claw.Prelude.{
  ℕ, suc, ◌+◌, String, ◌≡◌, refl, ◌∙◌, false, Option, some, List, [], ◌∷◌, arith, leb, length, All,
  if◌then◌else◌,
}
use omni_claw.Org.Nodes.{Node}
use omni_claw.Retry.Classify.{
  RetryFailureClass, transient, budget_recoverable, terminal, classify_llm_failure,
}
use omni_claw.Retry.Policy.{is_terminal, max_attempts, compute_retry_decision}
use omni_claw.Retry.Table.{AgentTaskRetry, get_agent_task_retry}
use omni_claw.Retry.Runtime.{
  PromptRequest, Process, RetryDb, build_task_key, build_failure_message, prior_attempts, retry_row,
  record_failure, handle_failed_prompt_invocation,
}
use omni_claw.Retry.Claims.{get-upsert_self}

abbrev pub failure_class_of : Process → RetryFailureClass
failure_class_of p = classify_llm_failure (some (build_failure_message p))

abbrev pub attempts_of : Node → PromptRequest → RetryDb → ℕ
attempts_of node request db =
    prior_attempts (get_agent_task_retry (build_task_key node request) db.retries)

-- What the retry row says after so many attempts.
abbrev pub status_after : ℕ → String
status_after attempts = if leb attempts max_attempts then "pending" else "exhausted"

module _ (reset : Option String) (node : Node) (request : PromptRequest) where
  record_failure-row :
      (p : Process) (c : RetryFailureClass) (db : RetryDb)
      → is_terminal c ≡ false
      → let prior = attempts_of node request db in
        get_agent_task_retry
          (build_task_key node request)
          (record_failure reset node request p c db).1.retries
        ≡ some
            (retry_row node request p c prior (compute_retry_decision prior c p.finished_at reset))
  unfolding record_failure retry_row
  record_failure-row p c db h =
      rw (h, record_failure)
        (get-upsert_self
          (retry_row node request p c (attempts_of node request db)
            (compute_retry_decision (attempts_of node request db) c p.finished_at reset))
          db.retries)

  decision_status :
      (prior : ℕ) (c : RetryFailureClass) (now : ℕ)
      → is_terminal c ≡ false
      → (compute_retry_decision prior c now reset).retryable ≡ leb (suc prior) max_attempts
  unfolding compute_retry_decision
  decision_status prior transient now h = ground arith
  decision_status prior budget_recoverable now h = ground arith
  decision_status prior terminal now h = cc

  row_says :
      (p : Process) (c : RetryFailureClass) (prior : ℕ)
      → is_terminal c ≡ false
      → let row =
          retry_row node request p c prior (compute_retry_decision prior c p.finished_at reset) in
        (row.attempt_count ≡ suc prior) × (row.status ≡ status_after (suc prior))
  unfolding retry_row
  row_says p c prior h = (omega arith, rw (decision_status prior c p.finished_at h))

  -- The database after these failures of the request, one after the other.
  abbrev pub fail_all : List Process → RetryDb → RetryDb
  fail_all [] db = db
  fail_all (p ∷ ps) db = fail_all ps (handle_failed_prompt_invocation reset node request p db).1

  failed_once :
      (p : Process) (db : RetryDb)
      → is_terminal (failure_class_of p) ≡ false
      → (row : AgentTaskRetry) × (get_agent_task_retry
            (build_task_key node request)
            (handle_failed_prompt_invocation reset node request p db).1.retries
          ≡ some row)
        × (row.attempt_count ≡ suc (attempts_of node request db))
        × (row.status ≡ status_after (suc (attempts_of node request db)))
  unfolding handle_failed_prompt_invocation
  failed_once p db h =
      let c = failure_class_of p in
      let prior = attempts_of node request db in
      (
        retry_row node request p c prior (compute_retry_decision prior c p.finished_at reset),
        record_failure-row p c db h,
        (row_says p c prior h).0,
        (row_says p c prior h).1,
      )

  -- However often a prompt fails without a terminal failure, its retry row counts every failure on
  -- top of those recorded before, and it waits for another attempt up to the eighth failure and is
  -- exhausted from the ninth on.
  pub fail_all-counts :
      (p : Process) (ps : List Process) (db : RetryDb)
      → All (λ q. is_terminal (failure_class_of q) ≡ false) (p ∷ ps)
      → (row : AgentTaskRetry) × (get_agent_task_retry
            (build_task_key node request)
            (fail_all (p ∷ ps) db).retries
          ≡ some row)
        × (row.attempt_count ≡ attempts_of node request db + length (p ∷ ps))
        × (row.status ≡ status_after (attempts_of node request db + length (p ∷ ps)))
  fail_all-counts p [] db (h, _) =
      let (row, found, count, status) = failed_once p db h in
      let e : attempts_of node request db + 1 ≡ suc (attempts_of node request db) = omega arith in
      (row, found, rw e count, rw e status)
  fail_all-counts p (q ∷ ps) db (h, hs) =
      let (row, found, count, status) = failed_once p db h in
      let db' = (handle_failed_prompt_invocation reset node request p db).1 in
      let (last, found', count', status') = fail_all-counts q ps db' hs in
      let one_more : attempts_of node request db' ≡ suc (attempts_of node request db) =
        rw (found, count) refl in
      let total : attempts_of node request db' + length (q ∷ ps)
          ≡ attempts_of node request db + length (p ∷ q ∷ ps) =
        omega (arith, one_more) in
      (last, found', count' ∙ total, rw (← total) status')
