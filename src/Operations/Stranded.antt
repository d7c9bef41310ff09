-- ===== src/Operations/Stranded.antt =====
-- Retries by hand: what an administrator's retry promises, and what the manual run of a redemption
-- (`RetryRedemptionSync`) does to an operation whose attempts are used up.
use brevyn_cloud.Base.{
  ℕ, ◌+◌, ◌≤◌, ◌≡◌, refl, Bool, true, false, not, inl, inr, List, [], ◌∷◌, Text, arith, Bool-cases,
  Option-cases, All, All-intro, update_where, find,
}
use brevyn_cloud.Errors.{Info}
use brevyn_cloud.Operations.{failed, Operation, has_public_id, mark_failed, fail}
use brevyn_cloud.Operations.Runner.{is_claimable, is_stale}
use brevyn_cloud.Operations.Admin.{
  requeued, requeue, retry, take_manually, start_manual_run, fail_outside_worker,
}

-- What an update does to the rows that it hits, if they are hit again.
update_where_hit :
    (p : Operation → Bool) (f : Operation → Operation) (P Q : Operation → Type 0)
    (rows : List Operation)
    → ((op : Operation) → p (f op) ≡ p op)
    → ((op : Operation) → P op → Q (f op))
    → All (λ op. p op ≡ true → P op) rows
    → All (λ op. p op ≡ true → Q op) (update_where p f rows)
unfolding update_where
update_where_hit p f P Q [] same step h = tt
update_where_hit p f P Q (x ∷ rows) same step h = elim (Bool-cases (p x)) [
  | inl e ↦ (rw e (λ _. step x (h.0 e)), update_where_hit p f P Q rows same step h.1)
  | inr e ↦ (rw e (λ hit. absurd (cc (e, hit))), update_where_hit p f P Q rows same step h.1)
]

-- Claimable from `now` on, with three attempts left.
abbrev pub Revived : ℕ → Operation → Type 0
Revived now op =
    (op.attempts + 3 ≤ op.max_attempts) × ((t : ℕ) → now ≤ t → is_claimable t op ≡ true)

requeue_revives : (now : ℕ) (op : Operation) → Revived now (requeue now op)
unfolding requeue is_claimable
requeue_revives now op = (omega arith, λ t le. ground arith)

retry_accepted :
    (public_id : Text) (now : ℕ) (rows : List Operation)
    → (retry public_id now rows).0 ≡ requeued
    → (retry public_id now rows).1 ≡ update_where (has_public_id public_id) (requeue now) rows
unfolding retry
retry_accepted public_id now rows h = elim (Option-cases (find (has_public_id public_id) rows)) [
  | inl e ↦ absurd (ground (arith, e, h))
  | inr (op, e) ↦ ground (arith, e, h)
]

-- A retry that is accepted makes the operation claimable from now on, with at least three attempts
-- left, whatever its last error was.
pub retry_revives :
    (public_id : Text) (now : ℕ) (rows : List Operation)
    → (retry public_id now rows).0 ≡ requeued
    → All (λ op. has_public_id public_id op ≡ true → Revived now op) (retry public_id now rows).1
unfolding retry
retry_revives public_id now rows h = rw (retry_accepted public_id now rows h) (
    update_where_hit _ (requeue now) (λ _. Unit {0}) (Revived now) rows
      (λ op. unfold requeue in refl) (λ op _. requeue_revives now op)
      (All-intro _ rows (λ op _. tt)))

-- No worker will touch the row again: it counts as failed, is never claimable, and never stale.
abbrev pub IsStranded : Operation → Type 0
IsStranded op =
    (op.status ≡ failed)
    × ((t : ℕ) → is_claimable t op ≡ false)
    × ((cutoff : ℕ) → is_stale cutoff op ≡ false)

take_manually_used_up :
    (now : ℕ) (op : Operation)
    → op.max_attempts ≤ op.attempts + 1
    → (take_manually now op).max_attempts ≤ (take_manually now op).attempts
unfolding take_manually
take_manually_used_up now op h = h

fail_strands :
    (info : Info) (next now : ℕ) (op : Operation)
    → info.retryable ≡ true
    → op.max_attempts ≤ op.attempts
    → IsStranded (fail info next (not info.retryable) now op)
unfolding fail is_claimable is_stale
fail_strands info next now op r h = (ground arith, λ t. ground arith, λ c. ground arith)

-- A manual run that fails with a retryable error, on an operation with at most one attempt left,
-- leaves it marked as failed, though no worker will ever claim or requeue it.
pub manual_run_strands :
    (public_id : Text) (info : Info) (start clock now : ℕ) (rows : List Operation)
    → info.retryable ≡ true
    → All (λ op. has_public_id public_id op ≡ true → op.max_attempts ≤ op.attempts + 1) rows
    → All
        (λ op. has_public_id public_id op ≡ true → IsStranded op)
        (fail_outside_worker public_id info clock now (start_manual_run public_id start rows))
unfolding fail_outside_worker start_manual_run mark_failed
manual_run_strands public_id info start clock now rows r h =
    update_where_hit _ _ _ _ _ (λ op. unfold fail in refl) (λ op. fail_strands info _ now op r)
      (update_where_hit _ _ _ _ rows (λ op. unfold take_manually in refl)
        (λ op. take_manually_used_up start op) h)
