-- ===== src/Retry/Table.antt =====
-- The table `agent_task_retries` (src/omniclaw/db/models.py) and the methods of KernelRepository
-- that write and read it (src/omniclaw/db/repository.py). The task key is unique; the rows stand in
-- the order of creation.
use omni_claw.Prelude.{
  Given, or_old, ℕ, String, Bool, false, ◌&&◌, Option, none, some, List, [], ◌∷◌, ◌++◌, str_eq, leb,
  take, where_true, first_where, update_first, or_else, if◌then◌else◌,
}
use omni_claw.Retry.Classify.{RetryFailureClass}

-- What `json.loads` gives of the stored request: `prompt` is absent where it is no text.
pub record Payload : Type 0 where
  pub prompt : Option String
  pub session_key : Option String
  pub markdown : Bool
  pub include_logs : Bool

-- The column `request_payload_json`: NULL or "", a text that is no JSON object, or a request.
pub data PayloadColumn : Type 0 where
  no_payload : PayloadColumn
  undecodable : PayloadColumn
  decoded : Payload → PayloadColumn

pub record AgentTaskRetry : Type 0 where
  pub node_id : String
  pub task_key : String
  pub session_key : Option String
  pub provider : Option String
  pub model : Option String
  pub failure_class : RetryFailureClass
  pub status : String
  pub attempt_count : ℕ
  pub max_attempts : ℕ
  pub request_payload : PayloadColumn
  pub last_error_message : Option String
  pub last_run_id : Option String
  pub next_attempt_at : Option ℕ
  pub claimed_at : Option ℕ
  pub completed_at : Option ℕ

abbrev pub Retries : Type 0
Retries = List AgentTaskRetry

abbrev pub has_key : String → AgentTaskRetry → Bool
has_key task_key r = str_eq r.task_key task_key

-- The first row with the task key.
unfoldable pub get_agent_task_retry : String → Retries → Option AgentTaskRetry
get_agent_task_retry task_key rows = first_where (has_key task_key) rows

-- Every column is written: the row given is the one that the keyword arguments describe.
unfoldable pub upsert_agent_task_retry : AgentTaskRetry → Retries → AgentTaskRetry × Retries
unfolding get_agent_task_retry
upsert_agent_task_retry row rows = elim (get_agent_task_retry row.task_key rows) [
  | none ↦ (row, rows ++ (row ∷ []))
  | some _ ↦ (row, update_first (has_key row.task_key) (λ _. row) rows)
]

abbrev pub is_pending : AgentTaskRetry → Bool
is_pending r = str_eq r.status "pending"

unfoldable pub claimed_row : ℕ → AgentTaskRetry → AgentTaskRetry
claimed_row at r = record r { status = "claimed"; claimed_at = some at }

unfoldable pub claim_agent_task_retry : String → ℕ → Retries → Option AgentTaskRetry × Retries
unfolding get_agent_task_retry claimed_row
claim_agent_task_retry task_key at rows = elim (get_agent_task_retry task_key rows) [
  | none ↦ (none, rows)
  | some r ↦
      if is_pending r
      then (some (claimed_row at r), update_first (has_key task_key) (claimed_row at) rows)
      else (none, rows)
]

pub record StatusUpdate : Type 0 where
  pub status : String
  pub next_attempt_at : Option ℕ
  pub claimed_at : Given (Option ℕ)
  pub completed_at : Given (Option ℕ)
  pub last_error_message : Given (Option String)
  pub last_run_id : Given (Option String)

-- `next_attempt_at` is written even where the caller leaves it out: its default is `None`.
unfoldable pub updated_row : StatusUpdate → AgentTaskRetry → AgentTaskRetry
updated_row u r = record r {
  status = u.status;
  next_attempt_at = u.next_attempt_at;
  claimed_at = or_old u.claimed_at r.claimed_at;
  completed_at = or_old u.completed_at r.completed_at;
  last_error_message = or_old u.last_error_message r.last_error_message;
  last_run_id = or_old u.last_run_id r.last_run_id;
}

unfoldable pub update_agent_task_retry_status :
    String → StatusUpdate → Retries → Option AgentTaskRetry × Retries
unfolding get_agent_task_retry updated_row
update_agent_task_retry_status task_key u rows = elim (get_agent_task_retry task_key rows) [
  | none ↦ (none, rows)
  | some r ↦ (some (updated_row u r), update_first (has_key task_key) (updated_row u) rows)
]

-- The filter of `list_due_agent_task_retries`.
abbrev is_by : ℕ → Option ℕ → Bool
is_by due_before none = false
is_by due_before (some at) = leb at due_before

abbrev pub is_due : ℕ → AgentTaskRetry → Bool
is_due due_before r = is_pending r && is_by due_before r.next_attempt_at

abbrev pub due_time : AgentTaskRetry → ℕ
due_time r = or_else r.next_attempt_at 0

-- `ORDER BY next_attempt_at, created_at`: a stable insertion into the rows already in order.
unfoldable pub insert_by_due : AgentTaskRetry → Retries → Retries
insert_by_due r [] = r ∷ []
insert_by_due r (x ∷ rows) =
    let rest = insert_by_due r rows in
    if leb (due_time r) (due_time x) then r ∷ x ∷ rows else x ∷ rest

unfoldable pub sort_by_due : Retries → Retries
unfolding insert_by_due
sort_by_due [] = []
sort_by_due (r ∷ rows) = insert_by_due r (sort_by_due rows)

unfoldable pub list_due_agent_task_retries : ℕ → ℕ → Retries → Retries
unfolding sort_by_due
list_due_agent_task_retries due_before limit rows =
    take limit (sort_by_due (where_true (is_due due_before) rows))
