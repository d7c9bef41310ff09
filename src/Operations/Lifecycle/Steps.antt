-- ===== src/Operations/Lifecycle/Steps.antt =====
-- The statements on the queue as steps between tables: those of operations.go and runner.go in
-- internal/gateway/operations, of internal/admin/gateway_operation_service.go, of the manual run in
-- internal/admin/redemption_sync_handler.go, and of the request that redeems a code in
-- internal/auth/handler.go. The conditions of a step stand with its constructor.
use brevyn_cloud.Base.{
  ℕ, ◌≤◌, ◌≡◌, refl, true, false, ◌⊎◌, inl, inr, Text, arith, Bool-cases, All, All-map, is_none,
}
use brevyn_cloud.Errors.{Info}
use brevyn_cloud.Operations.{
  Operation, Queue, CreateFailedInput, create_redemption_sync, ensure_redemption_sync,
  ensure_gateway_provision, create_failed, mark_succeeded, mark_failed, succeed, fail,
}
use brevyn_cloud.Operations.Ids.{ids-update_where}
use brevyn_cloud.Operations.Runner.{
  OperationRecord, Outcome, requeue_stale_running, is_claimable, is_running, claim_next,
  process_claimed,
}
use brevyn_cloud.Operations.Admin.{
  retry, retry_failed, take_manually, start_manual_run, increment_attempt, fail_outside_worker,
}
use brevyn_cloud.Operations.Lifecycle.Queues.{
  with_rows, QueueValid, insert-QueueValid, rows-QueueValid, ids-claim_next, ids-process_claimed,
  requeue_stale-QueueValid, requeue_rows-QueueValid, retry_rows, ids-increment_attempt,
  create_failed-QueueValid,
}
use brevyn_cloud.Operations.Lifecycle.{
  IsLive, IsCurrent, is_done, claim_next-AllLive, process_claimed-AllLive, new_row-IsLive, HasLeft,
  increment_attempt-AllLive, start_manual_run-AllLive, fail_outside_worker-AllLive,
  mark_succeeded-AllLive,
}

-- One statement on the queue: a request or an administrator creates an operation, a worker
-- requeues stale rows, claims a row or finishes a claim, an administrator retries or takes a row by
-- hand, and the request that redeems a code, or the manual run, counts its attempt and settles the
-- row. Where only the API key is missing, the failure is one that can pass, and is written the same
-- way. A claim is finished while no attempt at the row was counted since. Outside the worker a row is
-- taken by hand while it has an attempt left, an attempt is counted while there is another after it,
-- and a failure that can pass is written while the row has an attempt left.
pub data Step : Queue → Queue → Type 0 where
  create :
      (fresh payload redemption : Text) (rid user now : ℕ) (q : Queue)
      → Step q (create_redemption_sync fresh payload rid redemption user now q).1
  ensure :
      (fresh redemption : Text) (rid user now : ℕ) (q : Queue)
      → Step q (ensure_redemption_sync fresh rid redemption user now q).1
  provision :
      (fresh payload user_public_id : Text) (user group now : ℕ) (q : Queue)
      → Step q (ensure_gateway_provision fresh payload user user_public_id group now q).1
  record_failure :
      (fresh : Text) (input : CreateFailedInput) (now : ℕ) (q : Queue)
      → Step q (create_failed fresh input now q).1
  requeue_stale :
      (stale_after : ℕ) (text : Text) (clock now : ℕ) (q : Queue)
      → Step q (with_rows q (requeue_stale_running stale_after text clock now q.rows))
  take :
      (worker : Text) (now : ℕ) (q : Queue) → Step q (with_rows q (claim_next worker now q.rows).1)
  finish :
      (r : OperationRecord) (outcome : Outcome) (clock now : ℕ) (q : Queue)
      → All (IsCurrent r) q.rows
      → Step q (with_rows q (process_claimed r outcome clock now q.rows))
  retry_one :
      (public_id : Text) (now : ℕ) (q : Queue) → Step q (with_rows q (retry public_id now q.rows).1)
  take_by_hand :
      (public_id : Text) (now : ℕ) (q : Queue)
      → HasLeft 0 public_id q.rows
      → Step q (with_rows q (start_manual_run public_id now q.rows))
  count :
      (public_id : Text) (now : ℕ) (q : Queue)
      → HasLeft 1 public_id q.rows
      → Step q (with_rows q (increment_attempt public_id now q.rows))
  settle_failed :
      (public_id : Text) (info : Info) (clock now : ℕ) (q : Queue)
      → (info.retryable ≡ true → HasLeft 0 public_id q.rows)
      → Step q (with_rows q (fail_outside_worker public_id info clock now q.rows))
  settle_succeeded :
      (public_id result : Text) (now : ℕ) (q : Queue)
      → Step q (with_rows q (mark_succeeded public_id result now q.rows))
  retry_all : (now : ℕ) (q : Queue) → Step q (with_rows q (retry_failed now q.rows))

-- Any number of statements.
pub data Reach (q : Queue) : Queue → Type 0 where
  here : Reach q q
  next : {r s : Queue} → Reach q r → Step r s → Reach q s

Step-QueueValid : {q q' : Queue} → Step q q' → QueueValid q → QueueValid q'
unfolding create_redemption_sync ensure_redemption_sync ensure_gateway_provision retry_failed
    start_manual_run take_manually fail_outside_worker mark_failed fail mark_succeeded succeed
Step-QueueValid (create fresh payload redemption rid user now q) h =
    insert-QueueValid _ now q (new_row-IsLive _ _ now refl (λ e. cc) (λ e. cc)) h
Step-QueueValid (ensure fresh redemption rid user now q) h =
    insert-QueueValid _ now q (new_row-IsLive _ _ now refl (λ e. cc) (λ e. cc)) h
Step-QueueValid (provision fresh payload user_public_id user group now q) h =
    insert-QueueValid _ now q (new_row-IsLive _ _ now refl (λ e. cc) (λ e. cc)) h
Step-QueueValid (record_failure fresh input now q) h = create_failed-QueueValid fresh input now q h
Step-QueueValid (requeue_stale stale_after text clock now q) h =
    requeue_stale-QueueValid stale_after text clock now q h
Step-QueueValid (take worker now q) h =
    rows-QueueValid q _ (ids-claim_next worker now q.rows)
      (claim_next-AllLive worker now q.rows h.keys.distinct h.live) h
Step-QueueValid (finish r outcome clock now q current) h =
    rows-QueueValid q _ (ids-process_claimed r outcome clock now q.rows)
      (process_claimed-AllLive r outcome clock now q.rows current h.live) h
Step-QueueValid (retry_one public_id now q) h = elim (retry_rows public_id now q.rows) [
  | inl e ↦ rw e h
  | inr e ↦ rw e (requeue_rows-QueueValid _ now q h)
]
Step-QueueValid (take_by_hand public_id now q left) h =
    rows-QueueValid q _ (ids-update_where _ _ q.rows (λ x. refl))
      (start_manual_run-AllLive public_id now q.rows h.live left) h
Step-QueueValid (count public_id now q left) h =
    rows-QueueValid q _ (ids-increment_attempt public_id now q.rows)
      (increment_attempt-AllLive public_id now q.rows h.live left) h
Step-QueueValid (settle_failed public_id info clock now q left) h =
    rows-QueueValid q _ (ids-update_where _ _ q.rows (λ x. refl))
      (fail_outside_worker-AllLive public_id now q.rows h.live info clock left) h
Step-QueueValid (settle_succeeded public_id result now q) h =
    rows-QueueValid q _ (ids-update_where _ _ q.rows (λ x. refl))
      (mark_succeeded-AllLive public_id now q.rows h.live result) h
Step-QueueValid (retry_all now q) h = requeue_rows-QueueValid _ now q h

-- Along any sequence of these steps a valid table stays valid: every attempt is within its bound,
-- exactly the running rows are locked, and a failed or pending row has an attempt left. A worker
-- finishes a claim only while no attempt at its row was counted since and its maximum was not
-- lowered; and outside the worker a row is taken by hand, or a failure that can pass is written, only
-- while the row has an attempt left, and the request that redeems a code counts its attempt only
-- while there is another left after it.
pub Reach-QueueValid : {q q' : Queue} → Reach q q' → QueueValid q → QueueValid q'
Reach-QueueValid here h = h
Reach-QueueValid (next r step) h = Step-QueueValid step (Reach-QueueValid r h)

-- Where a row can go from here.
abbrev pub HasFuture : Operation → Type 0
HasFuture op =
    (is_done op.status ≡ true)
    ⊎ ((is_running op.status ≡ true) × (is_none op.locked_at ≡ false))
    ⊎ ((t : ℕ) → op.next_run_at ≤ t → is_claimable t op ≡ true)

IsLive-HasFuture : (op : Operation) → IsLive op → HasFuture op
unfolding is_claimable
IsLive-HasFuture op h = elim (Bool-cases (is_done op.status)) [
  | inl over ↦ inl over
  | inr open_still ↦ elim (Bool-cases (is_running op.status)) [
    | inl busy ↦ inr (inl (busy, ground arith))
    | inr idle ↦ inr (inr (λ t due. ground arith))
  ]
]

-- No operation is left behind: after any sequence of these steps from a valid table every row is
-- finished, or is running under a lock that `requeueStaleRunning` can find, or is claimable from its
-- time on. A worker finishes a claim only while no attempt at its row was counted since and its
-- maximum was not lowered; and outside the worker a row is taken by hand, or a failure that can pass
-- is written, only while the row has an attempt left, and the request that redeems a code counts its
-- attempt only while there is another left after it.
pub no_operation_left_behind : {q q' : Queue} → Reach q q' → QueueValid q → All HasFuture q'.rows
no_operation_left_behind r h = All-map _ _ _ IsLive-HasFuture (Reach-QueueValid r h).live
