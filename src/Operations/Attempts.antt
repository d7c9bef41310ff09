-- ===== src/Operations/Attempts.antt =====
-- How often, and how long apart, a failing operation is tried.
use brevyn_cloud.Base.{
  ℕ, zero, suc, ◌+◌, ◌*◌, ◌≤◌, ◌<◌, ◌≡◌, refl, ap, ◌∙◌, true, not, ◌||◌, if◌then◌else◌, some, List,
  [], ◌∷◌, Text, arith, update_where, leb, ◌==◌, ==_refl, text_eq_refl,
}
use brevyn_cloud.Errors.{Err, classify}
use brevyn_cloud.Operations.{
  Operation, failed, dead_letter, minute, hour, backoff, mark_failed, fail,
}
use brevyn_cloud.Operations.Runner.{
  Runner, error, is_stale, is_claimable, candidate, earlier, claim, to_record, claim_next,
  claim_batch, process_claimed, process_all, process_once, requeue_stale_running,
}
use brevyn_cloud.Operations.Claims.Exclusive.{batch_none, batch_some}
use brevyn_cloud.Operations.Claims.{claim_next-none, claim_next-some}

-- The wait after a failure never falls with the number of attempts, and lies between a minute and
-- six hours.
pub backoff_monotone :
    (a b : ℕ) → a ≤ b → (minute ≤ backoff a) × (backoff a ≤ backoff b) × (backoff b ≤ 6 * hour)
unfolding backoff
backoff_monotone a b h = ground arith

candidate_alone :
    (now : ℕ) (op : Operation) → is_claimable now op ≡ true → candidate now (op ∷ []) ≡ some op
unfolding candidate earlier
candidate_alone now op h = rw h

claim_next_alone :
    (worker : Text) (now : ℕ) (op : Operation)
    → is_claimable now op ≡ true
    → claim_next worker now (op ∷ [])
      ≡ (some (to_record (claim worker now op)), claim worker now op ∷ [])
unfolding update_where
claim_next_alone worker now op h =
    claim_next-some worker now (op ∷ []) op (candidate_alone now op h) ∙ rw ==_refl

-- A running row is not claimed.
claim_batch_running :
    (worker : Text) (now n : ℕ) (op : Operation)
    → claim_batch worker now n (claim worker now op ∷ []) ≡ ([], claim worker now op ∷ [])
unfolding claim_batch candidate claim is_claimable
claim_batch_running worker now zero op = refl
claim_batch_running worker now (suc n) op =
    let e = claim_next-none worker now (claim worker now op ∷ []) refl in
    batch_none worker now n (claim worker now op ∷ []) (ap (λ p. p.0) e) ∙ ap (λ p. ([], p.1)) e

-- The one row of a table is claimed, and then nothing is left to claim.
claim_alone :
    (worker : Text) (now n : ℕ) (op : Operation)
    → is_claimable now op ≡ true
    → claim_batch worker now (suc n) (op ∷ [])
      ≡ (to_record (claim worker now op) ∷ [], claim worker now op ∷ [])
claim_alone worker now n op h =
    let e = claim_next_alone worker now op h in
    batch_some worker now n (op ∷ []) _ (ap (λ p. p.0) e)
    ∙ ap
        (λ p. (
          to_record (claim worker now op) ∷ (claim_batch worker now n p.1).0,
          (claim_batch worker now n p.1).1,
        ))
        e
    ∙ ap (λ p. (to_record (claim worker now op) ∷ p.0, p.1)) (claim_batch_running worker now n op)

-- What a claim that fails leaves of its row.
abbrev after_failure : Text → Err → ℕ → ℕ → Operation → Operation
after_failure worker e clock now op =
    let taken = claim worker now op in
    let info = classify op.operation (some e) in
    let is_dead = not info.retryable || leb taken.max_attempts taken.attempts in
    fail info (if is_dead then clock else clock + backoff taken.attempts) is_dead now taken

requeue_idle :
    (stale_after : ℕ) (text : Text) (clock now t : ℕ) (op : Operation)
    → is_claimable t op ≡ true
    → requeue_stale_running stale_after text clock now (op ∷ []) ≡ op ∷ []
unfolding requeue_stale_running update_where is_stale is_claimable
requeue_idle stale_after text clock now t op h = ground arith

-- A round on a table with one claimable row, whose execution fails.
round_alone :
    (r : Runner) (n : ℕ) (e : Err) (clock now : ℕ) (op : Operation)
    → r.batch_size ≡ suc n
    → is_claimable now op ≡ true
    → process_once r (λ _. error e) clock now (op ∷ [])
      ≡ after_failure r.worker_id e clock now op ∷ []
unfolding process_once process_all process_claimed mark_failed update_where to_record claim
round_alone r n e clock now op size h =
    rw
      (
        requeue_idle r.stale_after r.stale_text clock now now op h,
        size,
        claim_alone r.worker_id now n op h,
      )
      (rw (text_eq_refl op.public_id))

-- A failed attempt that was not the last one: the row can be claimed again six hours later.
after_failure_again :
    (worker : Text) (e : Err) (now t : ℕ) (op : Operation)
    → (classify op.operation (some e)).retryable ≡ true
    → op.attempts + 1 < op.max_attempts
    → now + 6 * hour ≤ t
    → let op' = after_failure worker e now now op in
      (op'.status ≡ failed) × (is_claimable t op' ≡ true)
unfolding fail claim is_claimable
after_failure_again worker e now t op retryable more late =
    ground (arith, (backoff_monotone (op.attempts + 1) (op.attempts + 1) (omega arith)).2)

after_failure_status :
    (worker : Text) (e : Err) (now : ℕ) (op : Operation)
    → (classify op.operation (some e)).retryable ≡ true
    → op.attempts + 1 ≤ op.max_attempts
    → (after_failure worker e now now op).status
      ≡ (if op.attempts + 1 == op.max_attempts then dead_letter else failed)
unfolding fail claim
after_failure_status worker e now op retryable bound = ground arith

same_test : (a a' m m' k : ℕ) → a' ≡ a + 1 → m' ≡ m → (a' + suc k == m') ≡ (a + suc (suc k) == m)
same_test a a' m m' k p q = ground arith

after_failure_counts :
    (worker : Text) (e : Err) (now : ℕ) (op : Operation)
    → let op' = after_failure worker e now now op in
      (op'.attempts ≡ op.attempts + 1)
      × (op'.max_attempts ≡ op.max_attempts)
      × (op'.operation ≡ op.operation)
unfolding fail claim
after_failure_counts worker e now op = (refl, refl, refl)

-- The worker's rounds at the given times, all executions failing with `e`.
abbrev pub failing_rounds : Runner → Err → (ℕ → ℕ) → ℕ → List Operation → List Operation
failing_rounds r e times zero rows = rows
failing_rounds r e times (suc k) rows =
    failing_rounds r e (λ i. times (suc i)) k
      (process_once r (λ _. error e) (times 0) (times 0) rows)

-- An operation that is the only row of the table, and whose execution keeps failing with a
-- retryable error, on a worker whose rounds are six hours apart or more, is tried in every round and counted each time: it stays `failed` until
-- its attempts are used up, and is a dead letter in that round.
pub failing_rounds_exhaust :
    (r : Runner) (n : ℕ) (e : Err) (k : ℕ) (times : ℕ → ℕ) (op : Operation)
    → r.batch_size ≡ suc n
    → (classify op.operation (some e)).retryable ≡ true
    → ((i : ℕ) → times i + 6 * hour ≤ times (suc i))
    → is_claimable (times 0) op ≡ true
    → op.attempts + suc k ≤ op.max_attempts
    → (op' : Operation) × (failing_rounds r e times (suc k) (op ∷ []) ≡ op' ∷ [])
      × (op'.attempts ≡ op.attempts + suc k)
      × (op'.status ≡ (if op.attempts + suc k == op.max_attempts then dead_letter else failed))
failing_rounds_exhaust r n e zero times op size retryable apart claimable bound =
    let worker = r.worker_id in
    let (counted, kept, _) = after_failure_counts worker e (times 0) op in
    (
      after_failure worker e (times 0) (times 0) op,
      round_alone r n e (times 0) (times 0) op size claimable,
      counted ∙ omega arith,
      after_failure_status worker e (times 0) op retryable bound,
    )
failing_rounds_exhaust r n e (suc k) times op size retryable apart claimable bound =
    let worker = r.worker_id in
    let op1 = after_failure worker e (times 0) (times 0) op in
    let (counted, kept, same) = after_failure_counts worker e (times 0) op in
    let (_, again) =
      after_failure_again worker e (times 0) (times 1) op retryable (omega arith) (apart 0) in
    let (op', done, total, status) =
      failing_rounds_exhaust r n e k (λ i. times (suc i)) op1 size (rw same retryable)
        (λ i. apart (suc i)) again (omega arith) in
    (
      op',
      ap (failing_rounds r e (λ i. times (suc i)) (suc k))
            (round_alone r n e (times 0) (times 0) op size claimable)
          ∙ done,
      omega arith,
      status
          ∙ ap (λ b. if b then dead_letter else failed)
              (same_test op.attempts op1.attempts op.max_attempts op1.max_attempts k counted kept),
    )
