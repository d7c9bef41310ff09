-- ===== src/Operations/Claims/Exclusive.antt =====
-- No operation is claimed twice in a round of a worker.
use brevyn_cloud.Base.{
  ℕ, zero, suc, ◌≤◌, ◌≡◌, refl, ap, subst, true, false, none, some, List, [], ◌∷◌, Text, arith, inl,
  inr, Option-cases, Bool-cases, All, All-Memᴰ, length, ◌==◌, update_where, update_where-All,
}
use brevyn_cloud.Operations.{Operation}
use brevyn_cloud.Operations.Runner.{
  OperationRecord, is_running, candidate, claim, has_id, to_record, claim_next, claim_batch,
}
use brevyn_cloud.Operations.Claims.{
  candidate-IsFirst, claimable_attempts, claim_next-none, claim_next-some, claimed_record,
}

-- The row with this id, if there is one, is running.
abbrev pub IsTaken : ℕ → List Operation → Type 0
IsTaken id = All (λ op. (op.id == id) ≡ true → is_running op.status ≡ true)

-- A claim leaves the rows that are taken taken.
claim_next-IsTaken :
    (worker : Text) (now id : ℕ) (rows : List Operation)
    → IsTaken id rows
    → IsTaken id (claim_next worker now rows).1
unfolding claim
claim_next-IsTaken worker now id rows h = elim (Option-cases (candidate now rows)) [
  | inl e ↦ rw (claim_next-none worker now rows e) h
  | inr (op, e) ↦
      rw (claim_next-some worker now rows op e)
        (update_where-All _ (has_id op.id) (claim worker now) rows (λ _ _ _ _. refl) h)
]

update_where_takes :
    (worker : Text) (now id : ℕ) (rows : List Operation)
    → IsTaken id (update_where (has_id id) (claim worker now) rows)
unfolding update_where claim
update_where_takes worker now id [] = tt
update_where_takes worker now id (op ∷ rows) =
    (λ same. ground arith, update_where_takes worker now id rows)

claim_next_takes :
    (worker : Text) (now : ℕ) (rows : List Operation) (r : OperationRecord)
    → (claim_next worker now rows).0 ≡ some r
    → IsTaken r.db_id (claim_next worker now rows).1
unfolding claim to_record
claim_next_takes worker now rows r h = elim (Option-cases (candidate now rows)) [
  | inl e ↦ absurd (cc (h, ap (λ p. p.0) (claim_next-none worker now rows e)))
  | inr (op, e) ↦
      subst (λ (r : OperationRecord). IsTaken r.db_id (claim_next worker now rows).1)
        (claimed_record worker now rows op r e h)
        (rw (claim_next-some worker now rows op e) (update_where_takes worker now op.id rows))
]

taken_not_claimed :
    (worker : Text) (now id : ℕ) (rows : List Operation) (r : OperationRecord)
    → IsTaken id rows
    → (claim_next worker now rows).0 ≡ some r
    → (r.db_id == id) ≡ false
unfolding claim to_record
taken_not_claimed worker now id rows r taken h = elim (Option-cases (candidate now rows)) [
  | inl e ↦ absurd (cc (h, ap (λ p. p.0) (claim_next-none worker now rows e)))
  | inr (op, e) ↦
      let (claimable, op_in, _) = candidate-IsFirst now rows op e in
      let idle = (claimable_attempts now op claimable).1 in
      let running = All-Memᴰ _ rows op_in taken in
      subst (λ (r : OperationRecord). (r.db_id == id) ≡ false)
        (claimed_record worker now rows op r e h)
        (elim (Bool-cases (op.id == id)) [
          | inl same ↦ absurd (cc (running same, idle))
          | inr other ↦ other
        ])
]

module _ (worker : Text) (now n : ℕ) (rows : List Operation) where
  pub batch_none :
      (claim_next worker now rows).0 ≡ none
      → claim_batch worker now (suc n) rows ≡ ([], (claim_next worker now rows).1)
  unfolding claim_batch
  batch_none e = rw (e, claim_batch)

  pub batch_some :
      (op : OperationRecord)
      → (claim_next worker now rows).0 ≡ some op
      → claim_batch worker now (suc n) rows ≡ (
        op ∷ (claim_batch worker now n (claim_next worker now rows).1).0,
        (claim_batch worker now n (claim_next worker now rows).1).1,
      )
  unfolding claim_batch
  batch_some op e = rw (e, claim_batch)

-- None of these is a claim of `id`.
abbrev pub NotClaimed : ℕ → List OperationRecord → Type 0
NotClaimed id = All (λ r. (r.db_id == id) ≡ false)

-- A whole round of claims leaves a taken row taken, and claims it no second time.
pub claim_batch-IsTaken :
    (worker : Text) (now id n : ℕ) (rows : List Operation)
    → IsTaken id rows
    → NotClaimed id (claim_batch worker now n rows).0 × IsTaken id (claim_batch worker now n rows).1
unfolding claim_batch
claim_batch-IsTaken worker now id zero rows h = (tt, h)
claim_batch-IsTaken worker now id (suc n) rows h =
    let rest = claim_next-IsTaken worker now id rows h in
    elim (Option-cases (claim_next worker now rows).0) [
      | inl e ↦ rw (batch_none worker now n rows e) (tt, rest)
      | inr (op, e) ↦
          let (others, taken) =
            claim_batch-IsTaken worker now id n (claim_next worker now rows).1 rest in
          rw (batch_some worker now n rows op e)
            ((taken_not_claimed worker now id rows op h e, others), taken)
    ]

-- Every id stands once in the list.
abbrev pub Distinct : List OperationRecord → Type 0
Distinct [] = Unit
Distinct (r ∷ rs) = NotClaimed r.db_id rs × Distinct rs

-- A round claims at most `batch_size` operations, all different, and leaves each of them running.
pub claim_batch-Distinct :
    (worker : Text) (now n : ℕ) (rows : List Operation)
    → let (ops, rows') = claim_batch worker now n rows in
      (length ops ≤ n) × Distinct ops × All (λ r. IsTaken r.db_id rows') ops
unfolding claim_batch
claim_batch-Distinct worker now zero rows = (omega arith, tt, tt)
claim_batch-Distinct worker now (suc n) rows = elim (Option-cases (claim_next worker now rows).0) [
  | inl e ↦ rw (batch_none worker now n rows e) (omega arith, tt, tt)
  | inr (op, e) ↦
      let rows' = (claim_next worker now rows).1 in
      let (short, distinct, running) = claim_batch-Distinct worker now n rows' in
      let (others, taken) =
        claim_batch-IsTaken worker now op.db_id n rows' (claim_next_takes worker now rows op e) in
      rw (batch_some worker now n rows op e) (omega arith, (others, distinct), (taken, running))
]
