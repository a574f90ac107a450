-- ===== src/Tests/Retry.antt =====
-- Examples for the retries.
use omni_claw.Prelude.{
  ℕ, ◌+◌, ◌*◌, ◌≤◌, ◌<◌, ◌%◌, String, ◌≡◌, ◌⊎◌, refl, true, false, Option, none, some, [], ◌∷◌,
  ◌++◌, All, arith, length, or_else, where_true, strip_or_empty,
}
use mathlib.Core.List.{Perm}
use omni_claw.Result.{done}
use omni_claw.Retry.Classify.{transient, budget_recoverable, classify_llm_failure}
use omni_claw.Retry.Policy.{
  second, day, parse_clock, of_clock, next_reset, delay_until_next_reset,
  compute_budget_delay_seconds, compute_retry_decision, is_terminal,
}
use omni_claw.Retry.Schedule.{
  delay_until_next_reset_lem, retry_delay_bounds, least_delay, budget_retry_waits_for_reset,
}
use omni_claw.Retry.Table.{
  AgentTaskRetry, Retries, decoded, no_payload, is_due, claimed_row, get_agent_task_retry,
  claim_agent_task_retry, list_due_agent_task_retries,
}
use omni_claw.Retry.Runtime.{
  PromptRequest, Process, RetryDb, deferred_retry, build_task_key, build_failure_message,
  Environment,
}
use omni_claw.Retry.Runtime
use omni_claw.Retry.Table
use omni_claw.Retry.Scheduler
use omni_claw.Org.Nodes.{get_agent_node}
use omni_claw.Retry.Scheduler.{invoked, process_record, retry_now, cancel_retry}
use omni_claw.Retry.Claims.{claim-claim}
use omni_claw.Retry.Exhaustion.{
  failure_class_of, attempts_of, status_after, fail_all, fail_all-counts,
}
use omni_claw.Retry.Due.{EarliestFirst, list_due_lem}
use omni_claw.Retry.Lost.{deferred_retry_is_lost}
use omni_claw.Tests.Data.{nodes, ada}

delay_until_next_reset_lem_example :
    (c : ℕ × ℕ) × (parse_clock (strip_or_empty (some "06:30")) ≡ some c)
    × (1 < next_reset 1 c)
    × (next_reset 1 c ≤ 1 + day)
    × (next_reset 1 c % day ≡ of_clock c)
    × (1 + 23399 * second ≤ next_reset 1 c)
    × (next_reset 1 c < 1 + 23399 * second + second)
unfolding delay_until_next_reset
delay_until_next_reset_lem_example = delay_until_next_reset_lem 1 (some "06:30") 23399 refl

retry_delay_bounds_example : (least_delay budget_recoverable ≤ 43200) × (43200 ≤ 86400)
unfolding compute_retry_decision compute_budget_delay_seconds delay_until_next_reset
retry_delay_bounds_example = retry_delay_bounds 1 budget_recoverable 10 none 43200 refl

budget_retry_waits_for_reset_example :
    (due : ℕ) × ((compute_retry_decision 0 budget_recoverable 1 (some "06:30")).next_attempt_at
      ≡ some due)
    × (next_reset 1 (6, 30) < due + second)
unfolding parse_clock strip_or_empty
budget_retry_waits_for_reset_example =
    budget_retry_waits_for_reset 0 1 (some "06:30") (6, 30) (omega arith) refl

abbrev request : PromptRequest
request = record { prompt = "go"; session_key = "s"; markdown = false; include_logs = false }

abbrev crash : String → Process
crash text = record {
  returncode = 1;
  returncode_text = "1";
  stdout = "";
  stderr = text;
  run_id = "r";
  finished_at = 1000;
}

abbrev row : String → Option ℕ → AgentTaskRetry
row key at = record {
  node_id = "a";
  task_key = key;
  session_key = some "s";
  provider = none;
  model = none;
  failure_class = transient;
  status = "pending";
  attempt_count = 1;
  max_attempts = 8;
  request_payload = decoded (record {
    prompt = some "go";
    session_key = some "s";
    markdown = false;
    include_logs = false;
  });
  last_error_message = some "timeout";
  last_run_id = none;
  next_attempt_at = at;
  claimed_at = none;
  completed_at = none;
}

abbrev rows : Retries
rows = row "t" (some 5) ∷ row "u" (some 3) ∷ row "v" (some 900) ∷ []

claim-claim_example :
    claim_agent_task_retry "t" 8 (claim_agent_task_retry "t" 6 rows).1
    ≡ (none, (claim_agent_task_retry "t" 6 rows).1)
unfolding claim_agent_task_retry
claim-claim_example = claim-claim "t" 6 8 rows (claimed_row 6 (row "t" (some 5))) refl

abbrev no_rows : RetryDb
no_rows = record { retries = []; failures = [] }

failures_retryable :
    All (λ q. is_terminal (failure_class_of q) ≡ false) (crash "timeout" ∷ crash "429" ∷ [])
unfolding classify_llm_failure build_failure_message
failures_retryable = (refl, (refl, tt))

fail_all-counts_example :
    (r : AgentTaskRetry) × (get_agent_task_retry
        (build_task_key ada request)
        (fail_all none ada request (crash "timeout" ∷ crash "429" ∷ []) no_rows).retries
      ≡ some r)
    × (r.attempt_count ≡ attempts_of ada request no_rows + 2)
    × (r.status ≡ status_after (attempts_of ada request no_rows + 2))
fail_all-counts_example =
    fail_all-counts none ada request (crash "timeout") (crash "429" ∷ []) no_rows failures_retryable

list_due_lem_example :
    let listed = list_due_agent_task_retries 10 1 rows in
    (left : Retries) × Perm (listed ++ left) (where_true (is_due 10) rows)
    × EarliestFirst (listed ++ left)
    × (length listed ≤ 1)
    × ((left ≡ []) ⊎ (length listed ≡ 1))
list_due_lem_example = list_due_lem 10 1 rows

-- Ada's invocations time out.
abbrev env : Environment
env = record { run = λ n r. some (crash "timeout"); path_exists = λ p. true; reset_time_utc = none }

abbrev due_db : RetryDb
due_db = record { retries = row "invoke_prompt:a:s" (some 5) ∷ []; failures = [] }

abbrev round_rows : Retries
round_rows = (process_record env nodes 10 1000 (row "invoke_prompt:a:s" (some 5)) due_db).1.retries

abbrev left_behind : AgentTaskRetry
left_behind = or_else (get_agent_task_retry "invoke_prompt:a:s" round_rows) (row "" none)

deferred :
    (process_record env nodes 10 1000 (row "invoke_prompt:a:s" (some 5)) due_db).0
    ≡ done (some (invoked deferred_retry))
unfolding process_record claim_agent_task_retry Scheduler.process_claimed get_agent_node
    Scheduler.resume Runtime.build_retry_request Scheduler.settle Runtime.invoke_prompt
    Runtime.paths_ready Runtime.handle_failed_prompt_invocation Runtime.record_failure
    classify_llm_failure build_failure_message compute_retry_decision build_task_key
deferred = refl

found_after : get_agent_task_retry "invoke_prompt:a:s" round_rows ≡ some left_behind
unfolding process_record claim_agent_task_retry Scheduler.process_claimed get_agent_node
    Scheduler.resume Runtime.build_retry_request Scheduler.settle Runtime.invoke_prompt
    Runtime.paths_ready Runtime.handle_failed_prompt_invocation Runtime.record_failure
    classify_llm_failure build_failure_message compute_retry_decision build_task_key
    get_agent_task_retry Table.update_agent_task_retry_status Table.upsert_agent_task_retry
    Runtime.retry_row
found_after = refl

deferred_retry_is_lost_example :
    (left_behind.status ≡ "pending")
    × (left_behind.next_attempt_at ≡ none)
    × (is_due 999999 left_behind ≡ false)
deferred_retry_is_lost_example =
    deferred_retry_is_lost env nodes 10 1000 (row "invoke_prompt:a:s" (some 5)) due_db left_behind
      999999 deferred found_after
