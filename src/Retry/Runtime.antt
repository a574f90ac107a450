-- ===== src/Retry/Runtime.antt =====
-- Prompts that are invoked, and invoked again (src/omniclaw/runtime/service.py). The agent's process,
-- the file system and the clock are arguments: `run` gives what the process of an invocation returned
-- (`none` where it timed out), and every time is passed in.
use Prim.Native.String.{count}
use omni_claw.Prelude.{
  text_take, ℕ, ◌+◌, String, Bool, true, false, ◌&&◌, not, Option, none, some, List, [], ◌∷◌, ◌++◌,
  str_append, leb, ◌==◌, if◌then◌else◌, or_else, is_truthy, is_empty, strip, strip_or_empty,
  split_once,
}
use omni_claw.Result.{Error, http, value_error, Result, done, raise, ◌>>=◌}
use omni_claw.Org.Nodes.{Node}
use omni_claw.Retry.Classify.{RetryFailureClass, classify_llm_failure}
use omni_claw.Retry.Policy.{RetryDecision, is_terminal, compute_retry_decision}
use omni_claw.Retry.Table.{
  Payload, PayloadColumn, no_payload, undecodable, decoded, AgentTaskRetry, Retries,
  get_agent_task_retry, upsert_agent_task_retry,
}

-- The fields of `RuntimeActionRequest` that an invocation reads.
pub record PromptRequest : Type 0 where
  pub prompt : String
  pub session_key : String
  pub markdown : Bool
  pub include_logs : Bool

-- What `subprocess.run` returned, with the time at which it did.
pub record Process : Type 0 where
  pub returncode : ℕ  -- 0, or the magnitude of any other code
  pub returncode_text : String
  pub stdout : String
  pub stderr : String
  pub run_id : String
  pub finished_at : ℕ

-- A row of `agent_llm_failure_events`; `task_retry` is the key of the retry row that it points to.
pub record FailureEvent : Type 0 where
  pub node_id : String
  pub task_retry : Option String
  pub session_key : Option String
  pub task_key : Option String
  pub provider : Option String
  pub model : Option String
  pub failure_class : RetryFailureClass
  pub error_message : Option String
  pub occurred_at : Option ℕ

-- The two tables that an invocation writes.
pub record RetryDb : Type 0 where
  pub retries : Retries
  pub failures : List FailureEvent

-- `invocation.status` of a call that returns.
pub data InvocationStatus : Type 0 where
  completed deferred_retry : InvocationStatus

abbrev non_empty : String → Option String
non_empty String.[] = none
non_empty s = some s

-- `_provider_for_node`: the part before the first slash.
unfoldable pub provider_for_node : Node → Option String
unfolding strip_or_empty split_once
provider_for_node node =
    let primary_model = strip_or_empty node.primary_model in
    elim (split_once b'/' primary_model) [
      | none ↦ non_empty primary_model
      | some (provider, _) ↦ some provider
    ]

-- `_build_task_key`
unfoldable pub build_task_key : Node → PromptRequest → String
build_task_key node request =
    str_append "invoke_prompt:" (str_append node.id (str_append ":" request.session_key))

-- `_trim_output`
unfoldable pub trim_output : String → String
unfolding strip
trim_output value =
    let stripped = strip value in
    if leb (count stripped) 4000
    then stripped
    else str_append (text_take 4000 stripped) "...<truncated>"

-- `_build_failure_message`
unfoldable pub build_failure_message : Process → String
unfolding trim_output
build_failure_message p =
    let stderr = trim_output p.stderr in
    let stdout = trim_output p.stdout in
    if not (is_empty stderr) && not (is_empty stdout)
    then str_append stderr (str_append " | stdout=" stdout)
    else if not (is_empty stderr)
    then stderr
    else if not (is_empty stdout)
    then stdout
    else str_append "runtime exited with code " p.returncode_text

unfoldable pub serialize_retry_request_payload : PromptRequest → PayloadColumn
serialize_retry_request_payload request = decoded (record {
  prompt = some request.prompt;
  session_key = some request.session_key;
  markdown = request.markdown;
  include_logs = request.include_logs;
})

-- `_deserialize_retry_request_payload`: `none` unless the prompt is a text that is not blank.
unfoldable pub deserialize_retry_request_payload : PayloadColumn → Option (String × Payload)
unfolding strip
deserialize_retry_request_payload no_payload = none
deserialize_retry_request_payload undecodable = none
deserialize_retry_request_payload (decoded p) = elim p.prompt [
  | none ↦ none
  | some prompt ↦ if is_empty (strip prompt) then none else some (prompt, p)
]

abbrev first_truthy : Option String → Option String → String → String
first_truthy a b default =
    if is_truthy a then or_else a "" else if is_truthy b then or_else b "" else default

-- The validator of the field `prompt` (src/omniclaw/runtime/schemas.py).
unfoldable pub validate_prompt : String → Result String
unfolding strip
validate_prompt value =
    let stripped = strip value in
    if is_empty stripped
    then raise (value_error "prompt must not be empty when provided")
    else if leb (count stripped) 8000
    then done stripped
    else raise (value_error "prompt must be <= 8000 characters")

-- `_build_retry_request`: the stored request, or one that describes the failure.
unfoldable pub build_retry_request : AgentTaskRetry → Result PromptRequest
unfolding deserialize_retry_request_payload validate_prompt
build_retry_request r = elim (deserialize_retry_request_payload r.request_payload) [
  | some (prompt, p) ↦ validate_prompt prompt >>= λ text. done (record {
    prompt = text;
    session_key = first_truthy p.session_key r.session_key "cli:retry";
    markdown = p.markdown;
    include_logs = p.include_logs;
  })
  | none ↦
      validate_prompt (
        str_append "Retry previously failed task '" (
          str_append r.task_key
            (str_append "'. Original failure: " (or_else r.last_error_message "None"))))
      >>= λ text. done (record {
        prompt = text;
        session_key = first_truthy r.session_key none "cli:retry";
        markdown = false;
        include_logs = false;
      })
]

abbrev pub prior_attempts : Option AgentTaskRetry → ℕ
prior_attempts none = 0
prior_attempts (some r) = r.attempt_count

-- The row that `_handle_failed_prompt_invocation` upserts.
unfoldable pub retry_row :
    Node → PromptRequest → Process → RetryFailureClass → ℕ → RetryDecision → AgentTaskRetry
retry_row node request p c prior d = record {
  node_id = node.id;
  task_key = build_task_key node request;
  session_key = some request.session_key;
  provider = provider_for_node node;
  model = node.primary_model;
  failure_class = c;
  status = if d.retryable then "pending" else "exhausted";
  attempt_count = prior + 1;
  max_attempts = d.max_attempts;
  request_payload = serialize_retry_request_payload request;
  last_error_message = some (build_failure_message p);
  last_run_id = some p.run_id;
  next_attempt_at = d.next_attempt_at;
  claimed_at = none;
  completed_at = if d.retryable then none else some p.finished_at;
}

unfoldable pub failure_event :
    Node → PromptRequest → Process → RetryFailureClass → Option String → FailureEvent
failure_event node request p c task_retry = record {
  node_id = node.id;
  task_retry = task_retry;
  session_key = some request.session_key;
  task_key = some (build_task_key node request);
  provider = provider_for_node node;
  model = node.primary_model;
  failure_class = c;
  error_message = some (build_failure_message p);
  occurred_at = some p.finished_at;
}

abbrev failed : Error
failed = http 500 "Prompt invocation failed"

-- `_handle_failed_prompt_invocation`, for the class that the message has.
unfoldable pub record_failure :
    Option String
    → Node
    → PromptRequest
    → Process
    → RetryFailureClass
    → RetryDb
    → Result InvocationStatus × RetryDb
record_failure reset_time_utc node request p c db = elim (is_terminal c) [
  | true ↦ (
    raise failed,
    record db { failures = db.failures ++ (failure_event node request p c none ∷ []) },
  )
  | false ↦
      let prior = prior_attempts (get_agent_task_retry (build_task_key node request) db.retries) in
      let decision = compute_retry_decision prior c p.finished_at reset_time_utc in
      let (row, retries') =
        upsert_agent_task_retry (retry_row node request p c prior decision) db.retries in
      let event = failure_event node request p c (some row.task_key) in
      (
        if decision.retryable then done deferred_retry else raise failed,
        record { retries = retries'; failures = db.failures ++ (event ∷ []) },
      )
]

unfoldable pub handle_failed_prompt_invocation :
    Option String → Node → PromptRequest → Process → RetryDb → Result InvocationStatus × RetryDb
handle_failed_prompt_invocation reset_time_utc node request p db =
    record_failure reset_time_utc node request p
      (classify_llm_failure (some (build_failure_message p))) db

-- The process that runs a request for a node, and the paths that exist.
pub record Environment : Type 0 where
  pub run : Node → PromptRequest → Option Process
  pub path_exists : String → Bool
  pub reset_time_utc : Option String

-- `_resolve_workspace_root` and `_resolve_runtime_config_path`, outside the mock mode.
unfoldable pub paths_ready : Environment → Node → Result (Unit {0})
paths_ready env node =
    if not (is_truthy node.workspace_root)
    then raise (http 409 "node has no workspace_root")
    else if not (env.path_exists (or_else node.workspace_root ""))
    then raise (http 409 "workspace root does not exist")
    else if not (is_truthy node.runtime_config_path)
    then raise (http 409 "node has no runtime_config_path")
    else if not (env.path_exists (or_else node.runtime_config_path ""))
    then raise (http 409 "runtime config does not exist")
    else done tt

abbrev after_run :
    Option String
    → Node
    → PromptRequest
    → Option Process
    → RetryDb
    → Result InvocationStatus × RetryDb
after_run reset node request none db = (raise (http 504 "runtime command timed out"), db)
after_run reset node request (some p) db =
    if p.returncode == 0
    then (done completed, db)
    else handle_failed_prompt_invocation reset node request p db

-- `_invoke_prompt`, outside the mock mode.
unfoldable pub invoke_prompt :
    Environment → Node → PromptRequest → RetryDb → Result InvocationStatus × RetryDb
invoke_prompt env node request db =
    if is_empty request.prompt
    then (raise (http 422 "prompt is required for invoke_prompt"), db)
    else elim (paths_ready env node) [
      | raise e ↦ (raise e, db)
      | done _ ↦ after_run env.reset_time_utc node request (env.run node request) db
    ]
