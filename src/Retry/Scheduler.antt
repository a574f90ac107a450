-- ===== src/Retry/Scheduler.antt =====
-- The scheduler's pass over the retries that are due, and what an operator may do with one
-- (src/omniclaw/runtime/service.py: `_process_due_retries`, `_retry_now`, `_cancel_retry`).
use omni_claw.Prelude.{
  unset, given, ℕ, String, Bool, true, false, Option, none, some, List, [], ◌∷◌, if◌then◌else◌,
  is_truthy, is_empty, strip_or_empty,
}
use omni_claw.Result.{http, Result, done, raise}
use omni_claw.Org.Nodes.{Node, get_agent_node}
use omni_claw.Retry.Table.{
  PayloadColumn, no_payload, AgentTaskRetry, Retries, StatusUpdate, get_agent_task_retry,
  claim_agent_task_retry, update_agent_task_retry_status, list_due_agent_task_retries,
}
use omni_claw.Retry.Runtime.{
  RetryDb, InvocationStatus, completed, deferred_retry, build_retry_request, Environment,
  invoke_prompt,
}

-- The default of `limit`.
abbrev pub due_limit : ℕ
due_limit = 20

-- An entry of `processed`.
pub data Outcome : Type 0 where
  node_not_found missing_resume_payload : Outcome
  invoked : InvocationStatus → Outcome

abbrev terminal_update : ℕ → String → StatusUpdate
terminal_update due_before message = record {
  status = "terminal";
  next_attempt_at = none;
  claimed_at = given (some due_before);
  completed_at = given (some due_before);
  last_error_message = given (some message);
  last_run_id = unset;
}

abbrev pub completed_update : Option ℕ → ℕ → StatusUpdate
completed_update claimed_at now = record {
  status = "completed";
  next_attempt_at = none;
  claimed_at = given claimed_at;
  completed_at = given (some now);
  last_error_message = unset;
  last_run_id = unset;
}

-- The call in the branch "deferred_retry": it leaves `next_attempt_at` to its default.
abbrev pub deferred_update : StatusUpdate
deferred_update = record {
  status = "pending";
  next_attempt_at = none;
  claimed_at = given none;
  completed_at = unset;
  last_error_message = unset;
  last_run_id = unset;
}

abbrev pub set_status : String → StatusUpdate → RetryDb → RetryDb
set_status task_key u db = record db {
  retries = (update_agent_task_retry_status task_key u db.retries).1;
}

abbrev pub has_payload : PayloadColumn → Bool
has_payload no_payload = false
has_payload _ = true

-- What follows the invocation. An exception of `_invoke_prompt` is caught nowhere.
unfoldable pub settle :
    ℕ → AgentTaskRetry → Result InvocationStatus × RetryDb → Result Outcome × RetryDb
settle now claimed (raise e, db) = (raise e, db)
settle now claimed (done completed, db) = (
  done (invoked completed),
  set_status claimed.task_key (completed_update claimed.claimed_at now) db,
)
settle now claimed (done deferred_retry, db) =
    (done (invoked deferred_retry), set_status claimed.task_key deferred_update db)

-- The request is built and invoked again.
unfoldable pub resume : Environment → Node → ℕ → AgentTaskRetry → RetryDb → Result Outcome × RetryDb
resume env node now claimed db = elim (build_retry_request claimed) [
  | raise e ↦ (raise e, db)
  | done request ↦ settle now claimed (invoke_prompt env node request db)
]

-- The node of a claimed row, or `none`.
abbrev pub owner : AgentTaskRetry → List Node → Result (Option Node)
owner claimed nodes = get_agent_node (some claimed.node_id) none nodes

-- The body of the loop, once the row is claimed. `now` is the time after the invocation.
unfoldable pub process_claimed :
    Environment → List Node → ℕ → ℕ → AgentTaskRetry → RetryDb → Result Outcome × RetryDb
process_claimed env nodes due_before now claimed db = elim (owner claimed nodes) [
  | raise e ↦ (raise e, db)
  | done found ↦ elim found [
    | none ↦ (
      done node_not_found,
      set_status claimed.task_key (terminal_update due_before "agent node not found for retry") db,
    )
    | some node ↦ elim (is_truthy claimed.last_error_message) [
      | true ↦ resume env node now claimed db
      | false ↦ elim (has_payload claimed.request_payload) [
        | true ↦ resume env node now claimed db
        | false ↦ (
          done missing_resume_payload,
          set_status claimed.task_key
              (terminal_update due_before
                "cannot resume retry without original request payload or error context")
              db,
        )
      ]
    ]
  ]
]

-- One round of the loop: `none` where the row could not be claimed (`continue`).
unfoldable pub process_record :
    Environment → List Node → ℕ → ℕ → AgentTaskRetry → RetryDb → Result (Option Outcome) × RetryDb
process_record env nodes due_before now r db =
    let (claimed, retries') = claim_agent_task_retry r.task_key due_before db.retries in
    let db' = record db { retries = retries' } in
    elim claimed [
      | none ↦ (done none, db')
      | some c ↦
          let (outcome, db'') = process_claimed env nodes due_before now c db' in
          (elim outcome [ raise e ↦ raise e | done o ↦ done (some o) ], db'')
    ]

abbrev add_outcome : Option Outcome → List Outcome → List Outcome
add_outcome none processed = processed
add_outcome (some o) processed = o ∷ processed

-- The loop: an exception ends it, and what was written stays.
unfoldable pub process_records :
    Environment
    → List Node
    → ℕ
    → ℕ
    → List AgentTaskRetry
    → RetryDb
    → Result (List Outcome) × RetryDb
process_records env nodes due_before now [] db = (done [], db)
process_records env nodes due_before now (r ∷ due) db =
    let (outcome, db') = process_record env nodes due_before now r db in
    let rest = process_records env nodes due_before now due db' in
    elim outcome [
      | raise e ↦ (raise e, db')
      | done o ↦
          let (processed, db'') = rest in
          (elim processed [ raise e ↦ raise e | done os ↦ done (add_outcome o os) ], db'')
    ]

unfoldable pub process_due_retries :
    Environment → List Node → ℕ → ℕ → RetryDb → Result (List Outcome) × RetryDb
process_due_retries env nodes due_before now db =
    process_records env nodes due_before now
      (list_due_agent_task_retries due_before due_limit db.retries) db

abbrev pub retry_now_update : ℕ → StatusUpdate
retry_now_update now = record {
  status = "pending";
  next_attempt_at = some now;
  claimed_at = given none;
  completed_at = given none;
  last_error_message = unset;
  last_run_id = unset;
}

abbrev pub cancel_update : ℕ → StatusUpdate
cancel_update now = record {
  status = "cancelled";
  next_attempt_at = none;
  claimed_at = given none;
  completed_at = given (some now);
  last_error_message = unset;
  last_run_id = unset;
}

-- The shape that `_retry_now` and `_cancel_retry` share: check the key, look the row up, update it.
unfoldable pub operate : StatusUpdate → Option String → Retries → Result AgentTaskRetry × Retries
operate u task_key rows =
    let key = strip_or_empty task_key in
    if is_empty key
    then (raise (http 422 "task_key is required"), rows)
    else elim (get_agent_task_retry key rows) [
      | none ↦ (raise (http 404 "Retry task not found"), rows)
      | some _ ↦
          let (updated, rows') = update_agent_task_retry_status key u rows in
          (elim updated [ none ↦ raise (http 404 "Retry task not found") | some r ↦ done r ], rows')
    ]

unfoldable pub retry_now : ℕ → Option String → Retries → Result AgentTaskRetry × Retries
unfolding operate
retry_now now task_key rows = operate (retry_now_update now) task_key rows

unfoldable pub cancel_retry : ℕ → Option String → Retries → Result AgentTaskRetry × Retries
unfolding operate
cancel_retry now task_key rows = operate (cancel_update now) task_key rows
