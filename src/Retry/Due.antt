-- ===== src/Retry/Due.antt =====
-- Which retries the scheduler lists, and in what order (src/omniclaw/db/repository.py,
-- `list_due_agent_task_retries`).
use mathlib.Core.List.{Perm}
use mathlib.Core.List.Perm
use omni_claw.Prelude.{
  ◌⊎◌, ℕ, ◌≤◌, ◌≡◌, [], ◌∷◌, ◌++◌, arith, leb, length, drop, All, take-append-drop, length-take-le,
  length-take_of_drop, where_true, Bool-cases, inl, inr, leb→le, leb-false→lt,
}
use omni_claw.Retry.Table.{
  AgentTaskRetry, Retries, is_due, due_time, insert_by_due, sort_by_due,
  list_due_agent_task_retries,
}

-- No row stands behind one that is due later.
abbrev pub EarliestFirst : Retries → Type 0
EarliestFirst [] = Unit
EarliestFirst (r ∷ rows) = All (λ x. due_time r ≤ due_time x) rows × EarliestFirst rows

All_le_trans :
    (r x : AgentTaskRetry) (rows : Retries)
    → due_time r ≤ due_time x
    → All (λ y. due_time x ≤ due_time y) rows
    → All (λ y. due_time r ≤ due_time y) rows
All_le_trans r x [] h all = tt
All_le_trans r x (y ∷ rows) h (hy, all) = (omega arith, All_le_trans r x rows h all)

All-insert_by_due :
    (n : ℕ) (r : AgentTaskRetry) (rows : Retries)
    → n ≤ due_time r
    → All (λ y. n ≤ due_time y) rows
    → All (λ y. n ≤ due_time y) (insert_by_due r rows)
unfolding insert_by_due
All-insert_by_due n r [] h all = (h, tt)
All-insert_by_due n r (x ∷ rows) h (hx, all) = elim (Bool-cases (leb (due_time r) (due_time x))) [
  | inl e ↦ rw (e, All) (h, (hx, all))
  | inr e ↦ rw (e, All) (hx, All-insert_by_due n r rows h all)
]

insert-EarliestFirst :
    (r : AgentTaskRetry) (rows : Retries)
    → EarliestFirst rows
    → EarliestFirst (insert_by_due r rows)
unfolding insert_by_due
insert-EarliestFirst r [] h = (tt, tt)
insert-EarliestFirst r (x ∷ rows) (hx, h) = elim (Bool-cases (leb (due_time r) (due_time x))) [
  | inl e ↦ rw (e, EarliestFirst) ((leb→le _ _ e, All_le_trans r x rows (leb→le _ _ e) hx), (hx, h))
  | inr e ↦
      let later = leb-false→lt _ _ e in
      rw (e, EarliestFirst)
        (All-insert_by_due (due_time x) r rows (omega arith) hx, insert-EarliestFirst r rows h)
]

sort-EarliestFirst : (rows : Retries) → EarliestFirst (sort_by_due rows)
unfolding sort_by_due
sort-EarliestFirst [] = tt
sort-EarliestFirst (r ∷ rows) = insert-EarliestFirst r (sort_by_due rows) (sort-EarliestFirst rows)

insert_by_due-perm : (r : AgentTaskRetry) (rows : Retries) → Perm (insert_by_due r rows) (r ∷ rows)
unfolding insert_by_due
insert_by_due-perm r [] = Perm.refl _
insert_by_due-perm r (x ∷ rows) = elim (Bool-cases (leb (due_time r) (due_time x))) [
  | inl e ↦ rw e (Perm.refl _)
  | inr e ↦ rw e (Perm.trans (Perm.cons x (insert_by_due-perm r rows)) (Perm.swap r x rows))
]

sort_by_due-perm : (rows : Retries) → Perm (sort_by_due rows) rows
unfolding sort_by_due
sort_by_due-perm [] = Perm.refl _
sort_by_due-perm (r ∷ rows) =
    Perm.trans (insert_by_due-perm r (sort_by_due rows)) (Perm.cons r (sort_by_due-perm rows))

-- The listed retries and those left for a later pass are together exactly the pending rows whose
-- time has come, each as often as it stands in the table; in one line they stand earliest first;
-- at most `limit` are listed, and exactly that many if any is left out.
pub list_due_lem :
    (due_before limit : ℕ) (rows : Retries)
    → let listed = list_due_agent_task_retries due_before limit rows in
      (left : Retries) × Perm (listed ++ left) (where_true (is_due due_before) rows)
      × EarliestFirst (listed ++ left)
      × (length listed ≤ limit)
      × ((left ≡ []) ⊎ (length listed ≡ limit))
unfolding list_due_agent_task_retries
list_due_lem t limit rows =
    let sorted = sort_by_due (where_true (is_due t) rows) in
    (
      drop limit sorted,
      rw (take-append-drop limit sorted) (sort_by_due-perm _),
      rw (take-append-drop limit sorted) (sort-EarliestFirst (where_true (is_due t) rows)),
      length-take-le limit sorted,
      length-take_of_drop limit sorted,
    )
