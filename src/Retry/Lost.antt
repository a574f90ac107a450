-- ===== src/Retry/Lost.antt =====
-- What a scheduler pass leaves behind when the prompt fails again
-- (src/omniclaw/runtime/service.py, `_process_due_retries`), and what an operator's action does.
use omni_claw.Prelude.{
  update_first, some_inj, sym, ◌∙◌, subst, ℕ, String, ◌≡◌, refl, true, false, Option, none, some,
  List, inl, inr, arith, Bool-cases, Option-cases, is_truthy,
}
use omni_claw.Result.{Result, done, raise, Result-cases}
use omni_claw.Org.Nodes.{Node}
use omni_claw.Retry.Table.{
  AgentTaskRetry, Retries, StatusUpdate, is_pending, has_key, claimed_row, is_due, updated_row,
  get_agent_task_retry, update_agent_task_retry_status, claim_agent_task_retry,
}
use omni_claw.Retry.Runtime.{
  RetryDb, InvocationStatus, completed, deferred_retry, Environment, build_retry_request,
  invoke_prompt,
}
use omni_claw.Retry.Scheduler.{
  Outcome, invoked, owner, has_payload, deferred_update, set_status, settle, resume,
  process_claimed, process_record,
}
use omni_claw.Retry.Claims.{
  get-set_status_self, get-set_status_missing, claim_pending, claim_busy, claim_missing,
  claimed_keeps, found_has_key,
}

-- A row under the key that no pass, however late, finds due.
abbrev pub NeverDue : String → Retries → Type 0
NeverDue k rows =
    (r : AgentTaskRetry) → get_agent_task_retry k rows ≡ some r → (t : ℕ) → is_due t r ≡ false

without_time :
    (u : StatusUpdate) (r : AgentTaskRetry) (t : ℕ)
    → u.next_attempt_at ≡ none
    → is_due t (updated_row u r) ≡ false
unfolding updated_row
without_time u r t h = ground arith

set_status-NeverDue :
    (k : String) (u : StatusUpdate) (rows : Retries)
    → u.next_attempt_at ≡ none
    → NeverDue k (update_agent_task_retry_status k u rows).1
set_status-NeverDue k u rows h r found t = elim (Option-cases (get_agent_task_retry k rows)) [
  | inl missing ↦
      let e : get_agent_task_retry k rows ≡ some r =
        rw (get-set_status_missing k u rows missing) at found in
      cc
  | inr (x, old) ↦
      let e : some (updated_row u x) ≡ some r = sym (get-set_status_self k u rows x old) ∙ found in
      subst (λ y. is_due t y ≡ false) (some_inj e) (without_time u x t h)
]

-- A result that says "deferred_retry" comes with the update that this branch makes.
abbrev Defers : AgentTaskRetry → Result Outcome × RetryDb → Type 0
Defers c (result, db) =
    result ≡ done (invoked deferred_retry)
    → (before : RetryDb) × (db ≡ set_status c.task_key deferred_update before)

settle-Defers :
    (now : ℕ) (c : AgentTaskRetry) (result : Result InvocationStatus × RetryDb)
    → Defers c (settle now c result)
unfolding settle
settle-Defers now c (raise e, db) h = cc
settle-Defers now c (done completed, db) h = cc
settle-Defers now c (done deferred_retry, db) h = (db, refl)

module _ (env : Environment) (now : ℕ) (c : AgentTaskRetry) (db : RetryDb) where
  resume-Defers : (node : Node) → Defers c (resume env node now c db)
  unfolding resume
  resume-Defers node = elim (Result-cases (build_retry_request c)) [
    | inl (e, bad) ↦ rw (bad, resume, Defers) (λ h. cc)
    | inr (request, built) ↦
        rw (built, resume) (settle-Defers now c (invoke_prompt env node request db))
  ]

  process_claimed-Defers :
      (nodes : List Node) (due_before : ℕ)
      → Defers c (process_claimed env nodes due_before now c db)
  unfolding process_claimed
  process_claimed-Defers nodes due_before = elim (Result-cases (owner c nodes)) [
    | inl (e, bad) ↦ rw (bad, process_claimed, Defers) (λ h. cc)
    | inr (none, missing) ↦ rw (missing, process_claimed, Defers) (λ h. cc)
    | inr (some node, found) ↦ elim (Bool-cases (is_truthy c.last_error_message)) [
      | inl has_error ↦ rw (found, has_error, process_claimed) (resume-Defers node)
      | inr no_error ↦ elim (Bool-cases (has_payload c.request_payload)) [
        | inl has ↦ rw (found, no_error, has, process_claimed) (resume-Defers node)
        | inr lacks ↦ rw (found, no_error, lacks, process_claimed, Defers) (λ h. cc)
      ]
    ]
  ]

pending_row :
    (x : AgentTaskRetry)
    → ((updated_row deferred_update x).status ≡ "pending")
      × ((updated_row deferred_update x).next_attempt_at ≡ none)
unfolding updated_row
pending_row x = (refl, refl)

deferred_row :
    (k : String) (rows : Retries) (r : AgentTaskRetry)
    → get_agent_task_retry k (update_agent_task_retry_status k deferred_update rows).1 ≡ some r
    → (r.status ≡ "pending") × (r.next_attempt_at ≡ none)
deferred_row k rows r found = elim (Option-cases (get_agent_task_retry k rows)) [
  | inl missing ↦
      let e : get_agent_task_retry k rows ≡ some r =
        rw (get-set_status_missing k deferred_update rows missing) at found in
      cc
  | inr (x, old) ↦
      let e = sym (get-set_status_self k deferred_update rows x old) ∙ found in
      subst (λ (y : AgentTaskRetry). (y.status ≡ "pending") × (y.next_attempt_at ≡ none))
        (some_inj e) (pending_row x)
]

abbrev after_claim : Result Outcome × RetryDb → Result (Option Outcome) × RetryDb
after_claim (outcome, db) = (elim outcome [ raise e ↦ raise e | done o ↦ done (some o) ], db)

after_claim-deferred :
    (p : Result Outcome × RetryDb)
    → (after_claim p).0 ≡ done (some (invoked deferred_retry))
    → p.0 ≡ done (invoked deferred_retry)
after_claim-deferred (raise e, db) h = cc
after_claim-deferred (done o, db) h = cc

-- What a round does once the row of the task is found.
process_record-found :
    (env : Environment) (nodes : List Node) (due_before now : ℕ) (due x : AgentTaskRetry)
    (db : RetryDb)
    → get_agent_task_retry due.task_key db.retries ≡ some x
    → is_pending x ≡ true
    → process_record env nodes due_before now due db
      ≡ after_claim (
          process_claimed env nodes due_before now (claimed_row due_before x) (record db {
            retries = update_first (has_key due.task_key) (claimed_row due_before) db.retries;
          }))
unfolding process_record
process_record-found env nodes due_before now due x db found pending =
    let e = claim_pending due.task_key due_before db.retries x found pending in
    rw (e, process_record) (rw e)

process_record-idle :
    (env : Environment) (nodes : List Node) (due_before now : ℕ) (due : AgentTaskRetry)
    (db : RetryDb)
    → (claim_agent_task_retry due.task_key due_before db.retries).0 ≡ none
    → (process_record env nodes due_before now due db).0 ≡ done none
unfolding process_record
process_record-idle env nodes due_before now due db h = rw (h, process_record)

lost_row :
    (k : String) (c : AgentTaskRetry) (db before : RetryDb) (r : AgentTaskRetry)
    → c.task_key ≡ k
    → db ≡ set_status c.task_key deferred_update before
    → get_agent_task_retry k db.retries ≡ some r
    → (r.status ≡ "pending") × (r.next_attempt_at ≡ none) × ((t : ℕ) → is_due t r ≡ false)
lost_row k c db before r key wrote found =
    let found' : get_agent_task_retry c.task_key
          (set_status c.task_key deferred_update before).retries
        ≡ some r =
      rw (key) (rw (wrote, key) at found) in
    let (status, time) = deferred_row c.task_key before.retries r found' in
    (status, time, set_status-NeverDue c.task_key deferred_update before.retries refl r found')

-- When the scheduler resumes a due retry and the prompt fails again so that it is deferred, the row
-- that it leaves under the task's key is pending with no time for the next attempt, and so no later
-- pass, at whatever time, finds it due: the attempt that was just scheduled is lost.
pub deferred_retry_is_lost :
    (env : Environment) (nodes : List Node) (due_before now : ℕ) (due : AgentTaskRetry)
    (db : RetryDb) (r : AgentTaskRetry) (t : ℕ)
    → (process_record env nodes due_before now due db).0 ≡ done (some (invoked deferred_retry))
    → get_agent_task_retry due.task_key (process_record env nodes due_before now due db).1.retries
      ≡ some r
    → (r.status ≡ "pending") × (r.next_attempt_at ≡ none) × (is_due t r ≡ false)
deferred_retry_is_lost env nodes due_before now due db r t h found =
    elim (Option-cases (get_agent_task_retry due.task_key db.retries)) [
      | inl missing ↦ cc (
          process_record-idle env nodes due_before now due db
            (rw (claim_missing due.task_key due_before db.retries missing)))
      | inr (x, got) ↦ elim (Bool-cases (is_pending x)) [
        | inr busy ↦ cc (
            process_record-idle env nodes due_before now due db
              (rw (claim_busy due.task_key due_before db.retries x got busy)))
        | inl pending ↦
            let e = process_record-found env nodes due_before now due x db got pending in
            let c = claimed_row due_before x in
            let db' : RetryDb = record db {
              retries = update_first (has_key due.task_key) (claimed_row due_before) db.retries;
            } in
            let result = process_claimed env nodes due_before now c db' in
            let (before, wrote) =
              process_claimed-Defers env now c db' nodes due_before
                (after_claim-deferred result (rw e at h)) in
            let (status, time, never) =
              lost_row due.task_key c result.1 before r
                (claimed_keeps due_before x ∙ found_has_key due.task_key db.retries x got) wrote
                (rw e at found) in
            (status, time, never t)
      ]
    ]
