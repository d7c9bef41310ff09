-- ===== src/Operations/Claims/Workers.antt =====
-- No operation is claimed by two workers, while the claims of the first are not stale.
use brevyn_cloud.Base.{
  ℕ, zero, suc, ◌+◌, ◌-◌, ◌≤◌, ◌≡◌, refl, ap, subst, true, some, List, [], ◌∷◌, Text, arith, inl,
  inr, Option-cases, Bool-cases, All, All-map, ◌==◌, leb, update_where, update_where-All,
}
use brevyn_cloud.Operations.{Operation}
use brevyn_cloud.Operations.Runner.{
  OperationRecord, is_running, candidate, claim, has_id, to_record, claim_next, claim_batch,
  requeue_stale_running, is_stale, release_stale,
}
use brevyn_cloud.Operations.Claims.{claim_next-none, claim_next-some, claimed_record}
use brevyn_cloud.Operations.Claims.Exclusive.{
  IsTaken, NotClaimed, batch_none, batch_some, claim_batch-IsTaken,
}

-- The row with this id, if there is one, is running under a lock of this time.
abbrev pub IsLocked : (time id : ℕ) → List Operation → Type 0
IsLocked time id =
    All (λ op. (op.id == id) ≡ true → (is_running op.status ≡ true) × (op.locked_at ≡ some time))

claim_next-IsLocked :
    (worker : Text) (now id : ℕ) (rows : List Operation)
    → IsLocked now id rows
    → IsLocked now id (claim_next worker now rows).1
unfolding claim
claim_next-IsLocked worker now id rows h = elim (Option-cases (candidate now rows)) [
  | inl e ↦ rw (claim_next-none worker now rows e) h
  | inr (op, e) ↦
      rw (claim_next-some worker now rows op e)
        (update_where-All _ (has_id op.id) (claim worker now) rows (λ _ _ _ _. (refl, refl)) h)
]

update_where_locks :
    (worker : Text) (now id : ℕ) (rows : List Operation)
    → IsLocked now id (update_where (has_id id) (claim worker now) rows)
unfolding update_where claim
update_where_locks worker now id [] = tt
update_where_locks worker now id (op ∷ rows) = elim (Bool-cases (op.id == id)) [
  | inl e ↦ rw e ((λ same. (refl, refl)), update_where_locks worker now id rows)
  | inr e ↦ rw e ((λ same. absurd (cc (same, e))), update_where_locks worker now id rows)
]

claim_next_locks :
    (worker : Text) (now : ℕ) (rows : List Operation) (r : OperationRecord)
    → (claim_next worker now rows).0 ≡ some r
    → IsLocked now r.db_id (claim_next worker now rows).1
unfolding claim to_record
claim_next_locks worker now rows r h = elim (Option-cases (candidate now rows)) [
  | inl e ↦ absurd (cc (h, ap (λ p. p.0) (claim_next-none worker now rows e)))
  | inr (op, e) ↦
      subst (λ (r : OperationRecord). IsLocked now r.db_id (claim_next worker now rows).1)
        (claimed_record worker now rows op r e h)
        (rw (claim_next-some worker now rows op e) (update_where_locks worker now op.id rows))
]

claim_batch-IsLocked :
    (worker : Text) (now id n : ℕ) (rows : List Operation)
    → IsLocked now id rows
    → IsLocked now id (claim_batch worker now n rows).1
unfolding claim_batch
claim_batch-IsLocked worker now id zero rows h = h
claim_batch-IsLocked worker now id (suc n) rows h =
    let rest = claim_next-IsLocked worker now id rows h in
    elim (Option-cases (claim_next worker now rows).0) [
      | inl e ↦ rw (batch_none worker now n rows e) rest
      | inr (op, e) ↦
          rw (batch_some worker now n rows op e)
            (claim_batch-IsLocked worker now id n (claim_next worker now rows).1 rest)
    ]

-- A round leaves what it claims locked at its time.
claim_batch_locks :
    (worker : Text) (now n : ℕ) (rows : List Operation)
    → All
        (λ r. IsLocked now r.db_id (claim_batch worker now n rows).1)
        (claim_batch worker now n rows).0
unfolding claim_batch
claim_batch_locks worker now zero rows = tt
claim_batch_locks worker now (suc n) rows = elim (Option-cases (claim_next worker now rows).0) [
  | inl e ↦ rw (batch_none worker now n rows e) tt
  | inr (op, e) ↦
      let rows' = (claim_next worker now rows).1 in
      rw (batch_some worker now n rows op e) (
        claim_batch-IsLocked worker now op.db_id n rows' (claim_next_locks worker now rows op e),
        claim_batch_locks worker now n rows',
      )
]

-- The requeueing of stale rows leaves a row that is locked since not long ago.
requeue-IsTaken :
    (stale_after : ℕ) (text : Text) (clock time now id : ℕ) (rows : List Operation)
    → clock ≤ time + stale_after
    → IsLocked time id rows
    → IsTaken id (requeue_stale_running stale_after text clock now rows)
unfolding requeue_stale_running update_where is_stale release_stale
requeue-IsTaken stale_after text clock time now id [] recent h = ground arith
requeue-IsTaken stale_after text clock time now id (op ∷ rows) recent h =
    let rest = requeue-IsTaken stale_after text clock time now id rows recent h.1 in
    elim (Bool-cases (leb stale_after 0)) [
      | inl off ↦
          rw (off, requeue_stale_running)
            ((λ same. (h.0 same).0), rw (off, requeue_stale_running) at rest)
      | inr on ↦ elim (Bool-cases (is_stale (clock - stale_after) op)) [
        | inl stale ↦
            rw (on, stale, requeue_stale_running)
              (
                (λ same. absurd (ground (arith, h.0 same, stale, recent))),
                rw (on, requeue_stale_running) at rest,
              )
        | inr fresh ↦
            rw (on, fresh, requeue_stale_running)
              ((λ same. (h.0 same).0), rw (on, requeue_stale_running) at rest)
      ]
    ]

-- What one worker has claimed in a round, no other worker claims in its round, which begins with
-- the requeueing of stale rows, as long as the claims are no older than the time after which a row
-- is stale; they are not finished in between.
pub claim_batches_disjoint :
    (worker worker' : Text) (now now' n n' stale_after : ℕ) (text : Text) (clock : ℕ)
    (rows : List Operation)
    → clock ≤ now + stale_after
    → let (ops, rows') = claim_batch worker now n rows in
      let (ops', _) =
        claim_batch worker' now' n' (requeue_stale_running stale_after text clock now' rows') in
      All (λ (r : OperationRecord). NotClaimed r.db_id ops') ops
claim_batches_disjoint worker worker' now now' n n' stale_after text clock rows recent =
    let (ops, rows') = claim_batch worker now n rows in
    All-map _ _ ops
      (λ r locked.
        (claim_batch-IsTaken worker' now' r.db_id n' _
          (requeue-IsTaken stale_after text clock now now' r.db_id rows' recent locked)).0)
      (claim_batch_locks worker now n rows)
