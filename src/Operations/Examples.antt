-- ===== src/Operations/Examples.antt =====
-- Runs of the queue on small tables, and the theorems at concrete inputs.
use brevyn_cloud.Base.{
  ◌+◌, ◌*◌, ◌≤◌, ◌≡◌, refl, ap, true, none, some, [], ◌∷◌, codes, arith, All, text_eq, update_where,
  is_blank, is_space, trim_space, trim_left, trim_right, length,
}
use brevyn_cloud.Errors.{
  Info, transient, Err, http_error, classify, classify_answer, classify_status, status_code,
  is_context_error, is_network_timeout, no_info,
}
use brevyn_cloud.Operations.{
  Queue, Operation, NewOperation, pending, dead_letter, minute, hour, backoff, insert, new_row,
  append_row, has_public_id, create_redemption_sync, ensure_redemption_sync, sync_redemption_key,
  sync_redemption,
}
use brevyn_cloud.Operations.Runner.{
  Runner, OperationRecord, done, error, claim_next, claim_batch, claim, candidate, earlier,
  is_claimable, requeue_stale_running, process_claimed, to_record,
}
use brevyn_cloud.Operations.Admin.{
  retry, requeued, start_manual_run, fail_outside_worker, increment_attempt, count_attempt,
}
use brevyn_cloud.Operations.Store.{create-ensure_idem, KeysUnique, insert-KeysUnique}
use brevyn_cloud.Operations.Claims.Exclusive.{claim_batch-Distinct, Distinct, NotClaimed, IsTaken}
use brevyn_cloud.Operations.Recovery.{requeue_stale_running_lem, Both, Recovered}
use brevyn_cloud.Operations.Claims.Workers.{claim_batches_disjoint}
use brevyn_cloud.Operations.Lifecycle.Queues.{QueueValid, with_rows}
use brevyn_cloud.Operations.Lifecycle.{HasLeft}
use brevyn_cloud.Operations.Lifecycle.Steps.{
  Reach, here, next, create, take, count, settle_failed, HasFuture, Reach-QueueValid,
  no_operation_left_behind,
}
use brevyn_cloud.Operations.Attempts.{failing_rounds, failing_rounds_exhaust}
use brevyn_cloud.Operations.Parallel.{process_claimed_comm}
use brevyn_cloud.Operations.Stranded.{IsStranded, manual_run_strands}

abbrev empty_queue : Queue
empty_queue = record { rows = []; next_id = 1 }

abbrev request : NewOperation
request = record {
  public_id = codes "gop_1";
  operation = sync_redemption;
  target_type = codes "redeem_redemption";
  target_id = codes "rr_1";
  redemption_id = some 1;
  user_id = some 7;
  idempotency_key = sync_redemption_key (codes "rr_1");
  status = pending;
  payload = codes "{}";
  next_run_at = 100;
  completed_at = none;
  last_error = no_info;
}

-- A row that waits, one that a lost worker left running, and one whose attempts are used up.
abbrev waiting : Operation
waiting = new_row 1 request 90

abbrev lost : Operation
lost = claim (codes "worker-1") 100 (record waiting { id = 2; public_id = codes "gop_2" })

abbrev used_up : Operation
used_up = record waiting { id = 3; public_id = codes "gop_3"; status = dead_letter; attempts = 8 }

create_runs :
    (create_redemption_sync (codes "gop_1") (codes "{}") 1 (codes "rr_1") 7 90 empty_queue).0
    ≡ some (codes "gop_1")
unfolding create_redemption_sync insert append_row is_blank
create_runs = refl

create-ensure_idem_example :
    let q =
      (create_redemption_sync (codes "gop_1") (codes "{}") 1 (codes "rr_1") 7 90 empty_queue).1 in
    (create_redemption_sync (codes "gop_2") (codes "{}") 1 (codes "rr_1") 7 95 q
      ≡ (some (codes "gop_1"), q))
    × (ensure_redemption_sync (codes "gop_2") 1 (codes "rr_1") 7 95 q ≡ (some (codes "gop_1"), q))
create-ensure_idem_example =
    create-ensure_idem (codes "gop_1") (codes "{}") (codes "rr_1") 1 7 90 empty_queue
      (codes "gop_1") (codes "gop_2") (codes "{}") 95 create_runs

insert-KeysUnique_example : KeysUnique (insert request 90 empty_queue).1
insert-KeysUnique_example = insert-KeysUnique request 90 empty_queue (λ key _. omega arith)

claims_waiting :
    (claim_next (codes "w") 120 (lost ∷ waiting ∷ [])).0
    ≡ some (record (to_record waiting) { attempts = 1 })
unfolding claim_next candidate earlier claim is_claimable new_row to_record
claims_waiting = refl

claim_batch-Distinct_example :
    let (ops, rows') = claim_batch (codes "w") 120 10 (lost ∷ waiting ∷ []) in
    (length ops ≤ 10) × Distinct ops × All (λ r. IsTaken r.db_id rows') ops
claim_batch-Distinct_example = claim_batch-Distinct (codes "w") 120 10 (lost ∷ waiting ∷ [])

claim_batches_disjoint_example :
    let (ops, rows') = claim_batch (codes "w") 120 10 (waiting ∷ []) in
    let (ops', _) =
      claim_batch (codes "v") 121 10 (requeue_stale_running 300 (codes "5m0s") 122 121 rows') in
    All (λ (r : OperationRecord). NotClaimed r.db_id ops') ops
claim_batches_disjoint_example =
    claim_batches_disjoint (codes "w") (codes "v") 120 121 10 10 300 (codes "5m0s") 122
      (waiting ∷ []) (omega arith)

requeue_stale_running_lem_example :
    Both
      (Recovered 200 501)
      (lost ∷ waiting ∷ [])
      (requeue_stale_running 300 (codes "5m0s") 500 501 (lost ∷ waiting ∷ []))
requeue_stale_running_lem_example =
    requeue_stale_running_lem 300 (codes "5m0s") 500 501 (lost ∷ waiting ∷ []) (omega arith)

empty-QueueValid : QueueValid empty_queue
empty-QueueValid = record { live = tt; keys = record { distinct = tt; below = tt } }

-- The request creates the operation, counts its attempt and puts it off, and a worker claims it.
abbrev created : Queue
created = (create_redemption_sync (codes "gop_1") (codes "{}") 1 (codes "rr_1") 7 90 empty_queue).1

abbrev counted : Queue
counted = with_rows created (increment_attempt (codes "gop_1") 95 created.rows)

abbrev timeout : Info
timeout = record no_info { class = transient; retryable = true }

abbrev put_off : Queue
put_off = with_rows counted (fail_outside_worker (codes "gop_1") timeout 96 97 counted.rows)

abbrev claimed : Queue
claimed = with_rows put_off (claim_next (codes "w") (2 * minute) put_off.rows).1

created-HasLeft : HasLeft 1 (codes "gop_1") created.rows
unfolding create_redemption_sync insert new_row is_blank
created-HasLeft = ((λ named. omega arith), tt)

counted-HasLeft : HasLeft 0 (codes "gop_1") counted.rows
unfolding update_where create_redemption_sync insert new_row increment_attempt count_attempt
    trim_space trim_left trim_right is_blank is_space text_eq
counted-HasLeft = ((λ named. omega arith), tt)

request_steps : Reach empty_queue claimed
request_steps =
    next
      (next
        (next (next here (create (codes "gop_1") (codes "{}") (codes "rr_1") 1 7 90 empty_queue))
          (count (codes "gop_1") 95 created created-HasLeft))
        (settle_failed (codes "gop_1") timeout 96 97 counted (λ _. counted-HasLeft)))
      (take (codes "w") (2 * minute) put_off)

Reach-QueueValid_example : QueueValid claimed
Reach-QueueValid_example = Reach-QueueValid request_steps empty-QueueValid

no_operation_left_behind_example : All HasFuture claimed.rows
no_operation_left_behind_example = no_operation_left_behind request_steps empty-QueueValid

backoff_steps : (backoff 1 ≡ minute) × (backoff 3 ≡ 15 * minute) × (backoff 8 ≡ 6 * hour)
unfolding backoff
backoff_steps = (refl, refl, refl)

abbrev worker : Runner
worker = record {
  worker_id = codes "worker-1";
  batch_size = 10;
  stale_after = 5 * minute;
  stale_text = codes "5m0s";
}

abbrev busy : Err
busy = http_error 503 (codes "sub2api request failed")

busy_retryable : (classify sync_redemption (some busy)).retryable ≡ true
unfolding classify classify_answer status_code is_context_error is_network_timeout classify_status
busy_retryable = refl

failing_rounds_exhaust_example :
    (op' : Operation) × (failing_rounds worker busy (λ i. 100 + i * (6 * hour)) 8 (waiting ∷ [])
      ≡ op' ∷ [])
    × (op'.attempts ≡ 8)
    × (op'.status ≡ dead_letter)
unfolding new_row
failing_rounds_exhaust_example =
    failing_rounds_exhaust worker 9 busy 7 (λ i. 100 + i * (6 * hour)) waiting refl busy_retryable
      (λ i. omega arith) (unfold is_claimable in refl) (omega arith)

process_claimed_comm_example :
    process_claimed
      (to_record waiting)
      (done (codes "{}"))
      120
      120
      (process_claimed (to_record lost) (error busy) 121 121 (waiting ∷ lost ∷ []))
    ≡ process_claimed
        (to_record lost)
        (error busy)
        121
        121
        (process_claimed (to_record waiting) (done (codes "{}")) 120 120 (waiting ∷ lost ∷ []))
unfolding new_row claim to_record text_eq
process_claimed_comm_example =
    process_claimed_comm (to_record waiting) (to_record lost) (done (codes "{}")) (error busy) 120
      121 120 121 (waiting ∷ lost ∷ []) (λ e. cc (ap (λ t. text_eq t (codes "gop_1")) e))

retry_accepts : (retry (codes "gop_3") 600 (used_up ∷ [])).0 ≡ requeued
unfolding retry new_row text_eq
retry_accepts = refl

manual_run_strands_example :
    All
      (λ op. has_public_id (codes "gop_3") op ≡ true → IsStranded op)
      (fail_outside_worker
        (codes "gop_3")
        (classify sync_redemption (some busy))
        700
        700
        (start_manual_run (codes "gop_3") 650 (used_up ∷ [])))
unfolding new_row
manual_run_strands_example =
    manual_run_strands (codes "gop_3") (classify sync_redemption (some busy)) 650 700 700
      (used_up ∷ []) busy_retryable (omega arith)
