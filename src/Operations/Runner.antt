-- ===== src/Operations/Runner.antt =====
-- internal/gateway/operations/runner.go: the worker. `clock` is the worker's `time.Now()`, and
-- `now` the database's `now()`.
use brevyn_cloud.Base.{
  ℕ, zero, suc, ◌+◌, ◌-◌, Bool, true, false, ◌&&◌, ◌||◌, not, Option, none, some, List, [], ◌∷◌,
  ◌++◌, Text, codes, leb, ltb, ◌==◌, if◌then◌else◌, coalesce, update_where,
}
use brevyn_cloud.Errors.{Err, classify, gateway_operation_stale, retryable_class}
use brevyn_cloud.Operations.{
  Status, pending, running, failed, dead_letter, Operation, backoff, mark_succeeded, mark_failed,
}

-- `OperationRecord`: what the worker knows of a claimed row.
pub record OperationRecord : Type 0 where
  pub db_id : ℕ
  pub public_id : Text
  pub operation : Text
  pub target_type : Text
  pub target_id : Text
  pub payload : Text
  pub attempts : ℕ
  pub max_attempts : ℕ

abbrev pub is_running : Status → Bool
is_running running = true
is_running _ = false

abbrev pub is_pending : Status → Bool
is_pending pending = true
is_pending _ = false

abbrev pub is_failed : Status → Bool
is_failed failed = true
is_failed _ = false

-- `locked_at IS NOT NULL AND locked_at < $1`
abbrev pub locked_before : ℕ → Option ℕ → Bool
locked_before cutoff none = false
locked_before cutoff (some t) = ltb t cutoff

unfoldable pub is_stale : ℕ → Operation → Bool
is_stale cutoff op = is_running op.status && locked_before cutoff op.locked_at

-- What is written into a row whose worker is gone; `detail` is the text with the worker's name.
unfoldable pub release_stale : (Operation → Text) → ℕ → Operation → Operation
release_stale detail now op =
    let used_up = leb op.max_attempts op.attempts in
    record op {
      status = if used_up then dead_letter else failed;
      last_error = record {
        code = gateway_operation_stale;
        class = retryable_class;
        stage = codes "worker";
        message = codes "worker lock expired; operation requeued";
        detail = detail op;
        retryable = ltb op.attempts op.max_attempts;
      };
      next_run_at = now;
      completed_at = if used_up then some now else op.completed_at;
      locked_at = none;
      locked_by = [];
      updated_at = now;
    }

-- `concat('locked_by=', coalesce(locked_by, ''), '; stale_after=', $2::text)`
unfoldable pub stale_detail : Text → Operation → Text
stale_detail stale_after op =
    codes "locked_by=" ++ (op.locked_by ++ (codes "; stale_after=" ++ stale_after))

-- `requeueStaleRunning`; `stale_text` is how `stale_after` prints.
unfoldable pub requeue_stale_running :
    (stale_after : ℕ) (stale_text : Text) (clock now : ℕ) → List Operation → List Operation
requeue_stale_running stale_after stale_text clock now rows =
    if leb stale_after 0
    then rows
    else update_where (is_stale (clock - stale_after)) (release_stale (stale_detail stale_text) now)
        rows

-- The `WHERE` of `claimNext`
unfoldable pub is_claimable : ℕ → Operation → Bool
is_claimable now op =
    (is_pending op.status || is_failed op.status)
    && leb op.next_run_at now
    && ltb op.attempts op.max_attempts
    && (is_pending op.status || op.last_error.retryable)

-- `ORDER BY next_run_at ASC, id ASC`
unfoldable pub runs_before : Operation → Operation → Bool
runs_before a b = ltb a.next_run_at b.next_run_at || a.next_run_at == b.next_run_at && ltb a.id b.id

-- The one of a claimable row and the best of the rows behind it that runs first.
unfoldable pub earlier : Operation → Option Operation → Operation
earlier op none = op
earlier op (some b) = if runs_before b op then b else op

-- The candidate of `claimNext`: the first row in that order that is claimable.
unfoldable pub candidate : ℕ → List Operation → Option Operation
candidate now [] = none
candidate now (op ∷ rest) =
    let best = candidate now rest in if is_claimable now op then some (earlier op best) else best

-- The columns that a claim sets.
unfoldable pub claim : Text → ℕ → Operation → Operation
claim worker now op = record op {
  status = running;
  attempts = op.attempts + 1;
  locked_at = some now;
  locked_by = worker;
  started_at = coalesce op.started_at now;
  updated_at = now;
}

abbrev pub has_id : ℕ → Operation → Bool
has_id id op = op.id == id

-- `RETURNING …`
unfoldable pub to_record : Operation → OperationRecord
to_record op = record {
  db_id = op.id;
  public_id = op.public_id;
  operation = op.operation;
  target_type = op.target_type;
  target_id = op.target_id;
  payload = op.payload;
  attempts = op.attempts;
  max_attempts = op.max_attempts;
}

-- `claimNext`
unfoldable pub claim_next : Text → ℕ → List Operation → Option OperationRecord × List Operation
claim_next worker now rows = elim (candidate now rows) [
  | none ↦ (none, rows)
  | some op ↦
      (some (to_record (claim worker now op)), update_where (has_id op.id) (claim worker now) rows)
]

-- What `ExecuteGatewayOperation` answers: the marshalled result, or an error.
pub data Outcome : Type 0 where
  done : Text → Outcome
  error : Err → Outcome

-- `processClaimed`, for a given answer of the executor
unfoldable pub process_claimed :
    OperationRecord → Outcome → (clock now : ℕ) → List Operation → List Operation
process_claimed op (done result) clock now rows = mark_succeeded op.public_id result now rows
process_claimed op (error e) clock now rows =
    let info = classify op.operation (some e) in
    let is_dead = not info.retryable || leb op.max_attempts op.attempts in
    let next_run_at = if is_dead then clock else clock + backoff op.attempts in
    mark_failed op.public_id info next_run_at is_dead now rows

-- The claims of `ProcessOnce`: at most `batch_size`, until none is left.
unfoldable pub claim_batch : Text → ℕ → ℕ → List Operation → List OperationRecord × List Operation
claim_batch worker now zero rows = ([], rows)
claim_batch worker now (suc n) rows =
    let (claimed, rows') = claim_next worker now rows in
    elim claimed [
      | none ↦ ([], rows')
      | some op ↦ let (ops, rows'') = claim_batch worker now n rows' in (op ∷ ops, rows'')
    ]

-- The claimed operations, in the order in which their goroutines finish.
unfoldable pub process_all :
    (OperationRecord → Outcome)
    → (clock now : ℕ) → List OperationRecord
    → List Operation
    → List Operation
process_all executor clock now [] rows = rows
process_all executor clock now (op ∷ ops) rows =
    process_all executor clock now ops (process_claimed op (executor op) clock now rows)

pub record Runner : Type 0 where
  pub worker_id : Text
  pub batch_size : ℕ
  pub stale_after : ℕ
  pub stale_text : Text

-- `ProcessOnce`, where the goroutines finish in the order of the claims, and the statements of a
-- round see the same `now()`.
unfoldable pub process_once :
    Runner → (OperationRecord → Outcome) → (clock now : ℕ) → List Operation → List Operation
process_once r executor clock now rows =
    let rows' = requeue_stale_running r.stale_after r.stale_text clock now rows in
    let (ops, rows'') = claim_batch r.worker_id now r.batch_size rows' in
    process_all executor clock now ops rows''
