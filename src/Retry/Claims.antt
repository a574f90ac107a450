-- ===== src/Retry/Claims.antt =====
-- Laws of the table of retries: what the writes do to the rows that the reads find.
use omni_claw.Prelude.{
  ℕ, String, ◌≡◌, refl, ◌≢◌, true, false, none, some, inl, inr, arith, str_eq, eq_iff, eq_refl,
  update_first, if◌then◌else◌, Bool-cases, Option-cases, first_where-append, first_where-true,
  first_where-update_first, first_where-update_other,
}
use omni_claw.Retry.Table.{
  AgentTaskRetry, Retries, StatusUpdate, has_key, is_pending, claimed_row, updated_row,
  get_agent_task_retry, upsert_agent_task_retry, claim_agent_task_retry,
  update_agent_task_retry_status,
}

keys_apart : (i j k : String) → i ≢ j → str_eq k i ≡ true → str_eq k j ≡ false
keys_apart i j k ne e = ground (arith, eq_iff k i, eq_iff k j)

module _ (k : String) (f : AgentTaskRetry → AgentTaskRetry) where
  -- A change of the row under a key that keeps the key.
  abbrev KeepsKey : Type 0
  KeepsKey = (r : AgentTaskRetry) → (f r).task_key ≡ r.task_key

  get-update_self :
      KeepsKey
      → (rows : Retries) (r : AgentTaskRetry) → get_agent_task_retry k rows ≡ some r
      → get_agent_task_retry k (update_first (has_key k) f rows) ≡ some (f r)
  unfolding get_agent_task_retry
  get-update_self keep rows r h =
      first_where-update_first (has_key k) f (λ x e. rw (keep x) e) rows r h

  get-update_other :
      KeepsKey
      → (j : String) → k ≢ j
      → (rows : Retries)
      → get_agent_task_retry j (update_first (has_key k) f rows) ≡ get_agent_task_retry j rows
  unfolding get_agent_task_retry
  get-update_other keep j ne rows =
      first_where-update_other (has_key k) (has_key j) f (λ x e. keys_apart k j x.task_key ne e)
        (λ x e. rw (keep x) (keys_apart k j x.task_key ne e)) rows

pub found_has_key :
    (k : String) (rows : Retries) (r : AgentTaskRetry)
    → get_agent_task_retry k rows ≡ some r
    → r.task_key ≡ k
unfolding get_agent_task_retry
found_has_key k rows r h = (eq_iff r.task_key k).0 (first_where-true (has_key k) rows r h)

pub claimed_keeps : (at : ℕ) (r : AgentTaskRetry) → (claimed_row at r).task_key ≡ r.task_key
unfolding claimed_row
claimed_keeps at r = refl

updated_keeps : (u : StatusUpdate) (r : AgentTaskRetry) → (updated_row u r).task_key ≡ r.task_key
unfolding updated_row
updated_keeps u r = refl

pub claim_found :
    (k : String) (at : ℕ) (rows : Retries) (r : AgentTaskRetry)
    → get_agent_task_retry k rows ≡ some r
    → claim_agent_task_retry k at rows ≡ (
        if is_pending r
        then (some (claimed_row at r), update_first (has_key k) (claimed_row at) rows)
        else (none, rows))
unfolding claim_agent_task_retry
claim_found k at rows r h = rw (h, claim_agent_task_retry)

pub claim_pending :
    (k : String) (at : ℕ) (rows : Retries) (r : AgentTaskRetry)
    → get_agent_task_retry k rows ≡ some r
    → is_pending r ≡ true
    → claim_agent_task_retry k at rows
      ≡ (some (claimed_row at r), update_first (has_key k) (claimed_row at) rows)
claim_pending k at rows r h pending = rw (claim_found k at rows r h, pending)

pub claim_busy :
    (k : String) (at : ℕ) (rows : Retries) (r : AgentTaskRetry)
    → get_agent_task_retry k rows ≡ some r
    → is_pending r ≡ false
    → claim_agent_task_retry k at rows ≡ (none, rows)
claim_busy k at rows r h busy = rw (claim_found k at rows r h, busy)

pub claim_missing :
    (k : String) (at : ℕ) (rows : Retries)
    → get_agent_task_retry k rows ≡ none
    → claim_agent_task_retry k at rows ≡ (none, rows)
unfolding claim_agent_task_retry
claim_missing k at rows h = rw (h, claim_agent_task_retry)

claimed_not_pending : (at : ℕ) (r : AgentTaskRetry) → is_pending (claimed_row at r) ≡ false
unfolding claimed_row
claimed_not_pending at r = refl

claim_taken :
    (k : String) (at again : ℕ) (rows : Retries) (x : AgentTaskRetry)
    → get_agent_task_retry k rows ≡ some x
    → let rows' = update_first (has_key k) (claimed_row at) rows in
      claim_agent_task_retry k again rows' ≡ (none, rows')
claim_taken k at again rows x found =
    rw
      (claim_found k again _ (claimed_row at x)
        (get-update_self k (claimed_row at) (claimed_keeps at) rows x found))
      (rw (claimed_not_pending at x))

-- A claim that succeeds is the only one: whoever asks for the same task again, at whatever time,
-- gets nothing and changes nothing.
pub claim-claim :
    (k : String) (at again : ℕ) (rows : Retries) (r : AgentTaskRetry)
    → (claim_agent_task_retry k at rows).0 ≡ some r
    → claim_agent_task_retry k again (claim_agent_task_retry k at rows).1
      ≡ (none, (claim_agent_task_retry k at rows).1)
claim-claim k at again rows r h = elim (Option-cases (get_agent_task_retry k rows)) [
  | inl missing ↦ let e : none ≡ some r = rw (claim_missing k at rows missing) at h in cc
  | inr (x, found) ↦ elim (Bool-cases (is_pending x)) [
    | inl pending ↦
        rw (claim_found k at rows x found, pending) (claim_taken k at again rows x found)
    | inr busy ↦ let e : none ≡ some r = rw (claim_found k at rows x found, busy) at h in cc
  ]
]

-- What `get` finds after a status update: the updated row under that key, the same rows elsewhere.
pub get-set_status_self :
    (k : String) (u : StatusUpdate) (rows : Retries) (r : AgentTaskRetry)
    → get_agent_task_retry k rows ≡ some r
    → get_agent_task_retry k (update_agent_task_retry_status k u rows).1 ≡ some (updated_row u r)
unfolding update_agent_task_retry_status
get-set_status_self k u rows r h =
    rw (h, update_agent_task_retry_status)
      (get-update_self k (updated_row u) (updated_keeps u) rows r h)

pub get-set_status_missing :
    (k : String) (u : StatusUpdate) (rows : Retries)
    → get_agent_task_retry k rows ≡ none
    → (update_agent_task_retry_status k u rows).1 ≡ rows
unfolding update_agent_task_retry_status
get-set_status_missing k u rows h = rw (h, update_agent_task_retry_status)

pub get-set_status_other :
    (k j : String) (u : StatusUpdate) (rows : Retries)
    → k ≢ j
    → get_agent_task_retry j (update_agent_task_retry_status k u rows).1
      ≡ get_agent_task_retry j rows
unfolding update_agent_task_retry_status
get-set_status_other k j u rows ne = elim (Option-cases (get_agent_task_retry k rows)) [
  | inl missing ↦ rw (missing, update_agent_task_retry_status)
  | inr (r, found) ↦
      rw (found, update_agent_task_retry_status)
        (get-update_other k (updated_row u) (updated_keeps u) j ne rows)
]

pub set_status_result :
    (k : String) (u : StatusUpdate) (rows : Retries) (r : AgentTaskRetry)
    → get_agent_task_retry k rows ≡ some r
    → (update_agent_task_retry_status k u rows).0 ≡ some (updated_row u r)
unfolding update_agent_task_retry_status
set_status_result k u rows r h = rw (h, update_agent_task_retry_status)

-- The row that an upsert writes is the one found under its key, and the row returned.
pub get-upsert_self :
    (row : AgentTaskRetry) (rows : Retries)
    → get_agent_task_retry row.task_key (upsert_agent_task_retry row rows).1 ≡ some row
unfolding upsert_agent_task_retry
get-upsert_self row rows = elim (Option-cases (get_agent_task_retry row.task_key rows)) [
  | inl missing ↦ rw (missing, upsert_agent_task_retry) (rw (first_where-append, missing, eq_refl))
  | inr (r, found) ↦
      rw (found, upsert_agent_task_retry)
        (first_where-update_first (has_key row.task_key) (λ _. row) (λ x e. eq_refl row.task_key)
          rows r found)
]
