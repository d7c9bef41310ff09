-- ===== src/Operations/Lifecycle.antt =====
-- The life of an operation under the statements of internal/gateway/operations, of the request
-- that redeems a code and of the administrator: what holds of every row between two statements, in
-- whatever order they come. The statements that count an attempt without a look at the bound, and
-- the ones that are written back for a row as it was read, come with a condition; Stranded shows
-- what the manual run does without it.
pub mod Queues
pub mod Steps
use brevyn_cloud.Base.{
  ℕ, ◌≤◌, ◌<◌, ◌≡◌, refl, sym, subst, ◌||◌, Bool, true, false, not, inl, inr, some, List, [], ◌∷◌,
  Text, arith, Bool-cases, Option-cases, All, All-append, All-Memᴰ, update_where, update_where-All,
  is_none, leb, ◌+◌, is_blank, trim_space,
}
use brevyn_cloud.Errors.{Info, classify}
use brevyn_cloud.Operations.{
  Status, succeeded, dead_letter, Operation, Queue, NewOperation, new_row, insert, succeed, fail,
  has_public_id, mark_succeeded, mark_failed,
}
use brevyn_cloud.Operations.Runner.{
  OperationRecord, Outcome, done, error, release_stale, is_claimable, is_running, is_pending,
  is_failed, candidate, claim, has_id, claim_next, process_claimed,
}
use brevyn_cloud.Operations.Store.{insert_cases}
use brevyn_cloud.Operations.Ids.{ids, AllDistinct, only_row}
use brevyn_cloud.Operations.Claims.{claim_next-none, claim_next-some, candidate-IsFirst}
use brevyn_cloud.Operations.Admin.{
  requeue, take_manually, start_manual_run, count_attempt, increment_attempt, fail_outside_worker,
}

abbrev pub is_done : Status → Bool
is_done succeeded = true
is_done dead_letter = true
is_done _ = false

-- A waiting row can still be attempted, and a failed one may be: no operation is left behind.
-- A row is locked exactly while it runs, and a finished one has its time.
pub record IsLive (op : Operation) : Type 0 where
  pub attempts_bounded : op.attempts ≤ op.max_attempts
  pub pending_has_attempts : is_pending op.status ≡ true → op.attempts < op.max_attempts
  pub failed_has_attempts : is_failed op.status ≡ true → op.attempts < op.max_attempts
  pub failed_retryable : is_failed op.status ≡ true → op.last_error.retryable ≡ true
  pub running_locked : is_running op.status ≡ not (is_none op.locked_at)
  pub done_completed : is_done op.status ≡ true → is_none op.completed_at ≡ false

pub release_stale-IsLive :
    (detail : Operation → Text) (now : ℕ) (op : Operation)
    → IsLive op
    → IsLive (release_stale detail now op)
unfolding release_stale
release_stale-IsLive detail now op h = ground arith

claim-IsLive :
    (worker : Text) (now t : ℕ) (op : Operation)
    → is_claimable t op ≡ true
    → IsLive op
    → IsLive (claim worker now op)
unfolding claim is_claimable
claim-IsLive worker now t op c h = ground arith

succeed-IsLive :
    (result : Text) (now : ℕ) (op : Operation) → IsLive op → IsLive (succeed result now op)
unfolding succeed
succeed-IsLive result now op h = ground arith

-- A failure that is not final is retryable, and leaves an attempt.
fail-IsLive :
    (info : Info) (next now : ℕ) (is_dead : Bool) (op : Operation)
    → (is_dead ≡ false → (info.retryable ≡ true) × (op.attempts < op.max_attempts))
    → IsLive op
    → IsLive (fail info next is_dead now op)
unfolding fail
fail-IsLive info next now true op f h = ground arith
fail-IsLive info next now false op f h = ground (arith, f refl)

pub requeue-IsLive : (now : ℕ) (op : Operation) → IsLive op → IsLive (requeue now op)
unfolding requeue
requeue-IsLive now op h = ground arith

-- The row with this public id, if there is one, has more than `k` attempts left.
abbrev pub HasLeft : ℕ → Text → List Operation → Type 0
HasLeft k public_id =
    All (λ op. has_public_id public_id op ≡ true → op.attempts + k < op.max_attempts)

count_attempt-IsLive :
    (now : ℕ) (op : Operation)
    → op.attempts + 1 < op.max_attempts
    → IsLive op
    → IsLive (count_attempt now op)
unfolding count_attempt
count_attempt-IsLive now op left h = ground arith

take_manually-IsLive :
    (now : ℕ) (op : Operation)
    → op.attempts + 0 < op.max_attempts
    → IsLive op
    → IsLive (take_manually now op)
unfolding take_manually
take_manually-IsLive now op left h = ground arith

pub new_row-IsLive :
    (id : ℕ) (new : NewOperation) (now : ℕ)
    → is_running new.status ≡ false
    → (is_failed new.status ≡ true → new.last_error.retryable ≡ true)
    → (is_done new.status ≡ true → is_none new.completed_at ≡ false)
    → IsLive (new_row id new now)
unfolding new_row
new_row-IsLive id new now a b c = ground arith

abbrev pub AllLive : List Operation → Type 0
AllLive = All IsLive

-- No attempt at the row was counted since the claim: the row was not requeued as stale and claimed
-- again in between. Its maximum may have been raised.
abbrev pub IsCurrent : OperationRecord → Operation → Type 0
IsCurrent r op =
    has_public_id r.public_id op ≡ true
    → (op.attempts ≤ r.attempts) × (r.max_attempts ≤ op.max_attempts)

-- An update that hits one row only, by its key.
update_where_unique :
    (p : Operation → Bool) (f : Operation → Operation) (op : Operation) (rows : List Operation)
    → All (λ x. p x ≡ true → x ≡ op) rows
    → IsLive (f op)
    → AllLive rows
    → AllLive (update_where p f rows)
unfolding update_where
update_where_unique p f op [] only live h = tt
update_where_unique p f op (x ∷ rows) only live h = elim (Bool-cases (p x)) [
  | inl e ↦ (
    rw e (subst (λ o. IsLive (f o)) (sym (only.0 e)) live),
    update_where_unique p f op rows only.1 live h.1,
  )
  | inr e ↦ (rw e h.0, update_where_unique p f op rows only.1 live h.1)
]

-- An update that relies on a fact about the rows it hits.
pub update_where-AllLive :
    (Q : Operation → Type 0) (p : Operation → Bool) (f : Operation → Operation)
    (rows : List Operation)
    → ((op : Operation) → p op ≡ true → Q op → IsLive op → IsLive (f op))
    → All Q rows
    → AllLive rows
    → AllLive (update_where p f rows)
unfolding update_where
update_where-AllLive Q p f [] step q h = tt
update_where-AllLive Q p f (x ∷ rows) step q h = elim (Bool-cases (p x)) [
  | inl e ↦ (rw e (step x e q.0 h.0), update_where-AllLive Q p f rows step q.1 h.1)
  | inr e ↦ (rw e h.0, update_where-AllLive Q p f rows step q.1 h.1)
]

pub insert-AllLive :
    (new : NewOperation) (now : ℕ) (q : Queue)
    → IsLive (new_row q.next_id new now)
    → AllLive q.rows
    → AllLive (insert new now q).1.rows
insert-AllLive new now q live h = elim (insert_cases new now q) [
  | inl e ↦ rw e h
  | inr e ↦ rw e (All-append IsLive q.rows _ h (live, tt))
]

pub claim_next-AllLive :
    (worker : Text) (now : ℕ) (rows : List Operation)
    → AllDistinct (ids rows)
    → AllLive rows
    → AllLive (claim_next worker now rows).1
claim_next-AllLive worker now rows distinct h = elim (Option-cases (candidate now rows)) [
  | inl e ↦ rw (claim_next-none worker now rows e) h
  | inr (op, e) ↦
      let (claimable, op_in, _) = candidate-IsFirst now rows op e in
      rw (claim_next-some worker now rows op e) (
        update_where_unique (has_id op.id) (claim worker now) op rows (only_row rows distinct op_in)
          (claim-IsLive worker now now op claimable (All-Memᴰ IsLive rows op_in h)) h)
]

-- The failure of a current claim: it is final unless an attempt is left.
fail_claimed-IsLive :
    (r : OperationRecord) (info : Info) (next now : ℕ) (op : Operation)
    → op.attempts ≤ r.attempts
    → r.max_attempts ≤ op.max_attempts
    → IsLive op
    → IsLive (fail info next (not info.retryable || leb r.max_attempts r.attempts) now op)
fail_claimed-IsLive r info next now op a m h =
    fail-IsLive info next now _ op (λ e. (ground arith, ground arith)) h

pub process_claimed-AllLive :
    (r : OperationRecord) (outcome : Outcome) (clock now : ℕ) (rows : List Operation)
    → All (IsCurrent r) rows
    → AllLive rows
    → AllLive (process_claimed r outcome clock now rows)
unfolding process_claimed mark_succeeded mark_failed
process_claimed-AllLive r (done result) clock now rows current h =
    update_where-All IsLive _ _ rows (λ op _ live. succeed-IsLive result now op live) h
process_claimed-AllLive r (error e) clock now rows current h =
    let info = classify r.operation (some e) in
    update_where-AllLive (IsCurrent r) _ _ rows
      (λ op same cur live. let (a, m) = cur same in fail_claimed-IsLive r info _ now op a m live)
      current h

-- The request's and the manual run's statements on a row that they name.
module _ (public_id : Text) (now : ℕ) (rows : List Operation) (h : AllLive rows) where
  pub increment_attempt-AllLive :
      HasLeft 1 public_id rows → AllLive (increment_attempt public_id now rows)
  unfolding increment_attempt
  increment_attempt-AllLive left = elim (Bool-cases (is_blank (trim_space public_id))) [
    | inl e ↦ rw (e, increment_attempt) h
    | inr e ↦
        rw (e, increment_attempt)
          (update_where-AllLive _ _ _ rows
            (λ op named room live. count_attempt-IsLive now op (room named) live) left h)
  ]

  pub start_manual_run-AllLive :
      HasLeft 0 public_id rows → AllLive (start_manual_run public_id now rows)
  unfolding start_manual_run
  start_manual_run-AllLive left =
      update_where-AllLive _ _ _ rows
        (λ op named room live. take_manually-IsLive now op (room named) live) left h

  pub fail_outside_worker-AllLive :
      (info : Info) (clock : ℕ)
      → (info.retryable ≡ true → HasLeft 0 public_id rows)
      → AllLive (fail_outside_worker public_id info clock now rows)
  unfolding fail_outside_worker mark_failed
  fail_outside_worker-AllLive info clock left = elim (Bool-cases info.retryable) [
    | inl e ↦
        update_where-AllLive _ _ _ rows
          (λ op named room live.
            fail-IsLive info _ now _ op (λ d. (ground arith, omega (arith, room named))) live)
          (left e) h
    | inr e ↦
        update_where-All IsLive _ _ rows
          (λ op _ live. fail-IsLive info _ now _ op (λ d. absurd (ground (arith, d, e))) live) h
  ]

  pub mark_succeeded-AllLive : (result : Text) → AllLive (mark_succeeded public_id result now rows)
  unfolding mark_succeeded
  mark_succeeded-AllLive result =
      update_where-All IsLive _ _ rows (λ op _ live. succeed-IsLive result now op live) h
