-- ===== src/Operations/Admin.antt =====
-- The statements on `gateway_operations` outside the worker: the retries of
-- internal/admin/gateway_operation_service.go, the manual run of
-- internal/admin/redemption_sync_handler.go, and the attempt that internal/auth/handler.go counts.
use Prim.Native.Nat.{max}
use brevyn_cloud.Base.{
  ℕ, ◌+◌, Bool, false, not, none, some, List, [], Text, codes, is_blank, trim_space, if◌then◌else◌,
  coalesce, update_where, find,
}
use brevyn_cloud.Errors.{Info}
use brevyn_cloud.Operations.{
  Status, pending, running, succeeded, failed, dead_letter, Operation, has_public_id, backoff,
  mark_failed,
}

-- The columns that both retries set.
unfoldable pub requeue : ℕ → Operation → Operation
requeue now op = record op {
  status = pending;
  max_attempts = max op.max_attempts (op.attempts + 3);
  next_run_at = now;
  locked_at = none;
  locked_by = [];
  completed_at = none;
  updated_at = now;
}

-- What `Retry` answers, before it reads the row again.
pub data RetryAnswer : Type 0 where
  requeued not_found already_succeeded still_running : RetryAnswer

abbrev pub retry_answer : Status → RetryAnswer
retry_answer succeeded = already_succeeded
retry_answer running = still_running
retry_answer _ = requeued

-- `Retry`
unfoldable pub retry : Text → ℕ → List Operation → RetryAnswer × List Operation
retry public_id now rows = elim (find (has_public_id public_id) rows) [
  | none ↦ (not_found, rows)
  | some op ↦ elim (retry_answer op.status) [
    | requeued ↦ (requeued, update_where (has_public_id public_id) (requeue now) rows)
    | answer ↦ (answer, rows)
  ]
]

-- `status IN ('failed', 'dead_letter') AND last_error_retryable = true`
unfoldable pub is_retryable_failure : Operation → Bool
is_retryable_failure op = elim op.status [
  | failed ↦ op.last_error.retryable
  | dead_letter ↦ op.last_error.retryable
  | _ ↦ false
]

-- `RetryFailed`
unfoldable pub retry_failed : ℕ → List Operation → List Operation
retry_failed now = update_where is_retryable_failure (requeue now)

-- The update with which `RetryRedemptionSync` takes the operation for the administrator.
unfoldable pub take_manually : ℕ → Operation → Operation
take_manually now op = record op {
  attempts = op.attempts + 1;
  status = running;
  started_at = coalesce op.started_at now;
  locked_at = some now;
  locked_by = codes "admin-manual";
  updated_at = now;
}

unfoldable pub start_manual_run : Text → ℕ → List Operation → List Operation
start_manual_run public_id now = update_where (has_public_id public_id) (take_manually now)

-- What the manual run, and the request that redeems a code, write when the sync fails: it is put
-- off by the first backoff, whatever the number of attempts.
unfoldable pub fail_outside_worker : Text → Info → (clock now : ℕ) → List Operation → List Operation
fail_outside_worker public_id info clock now =
    mark_failed public_id info (clock + backoff 1) (not info.retryable) now

-- The columns that `incrementGatewayOperationAttempt` sets.
unfoldable pub count_attempt : ℕ → Operation → Operation
count_attempt now op = record op {
  attempts = op.attempts + 1;
  started_at = coalesce op.started_at now;
  updated_at = now;
}

-- `incrementGatewayOperationAttempt`
unfoldable pub increment_attempt : Text → ℕ → List Operation → List Operation
increment_attempt public_id now rows =
    if is_blank (trim_space public_id)
    then rows
    else update_where (has_public_id public_id) (count_attempt now) rows
