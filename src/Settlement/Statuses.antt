-- ===== src/Settlement/Statuses.antt =====
-- internal/auth/handler.go, `Redeem`: what the tables say of a redemption when its request is over.
use brevyn_cloud.Base.{
  ℕ, ◌≡◌, refl, sym, ◌∙◌, Bool, true, false, not, Option, none, some, List, Text, inl, inr, find,
  Bool-cases, Option-cases, is_blank, trim_space, if◌then◌else◌,
}
use brevyn_cloud.Errors.{Info, no_info, Err, with_stage, classify}
use brevyn_cloud.Operations.{
  Status, succeeded, failed, dead_letter, Operation, has_public_id, succeed, fail, mark_succeeded,
  mark_failed,
}
use brevyn_cloud.Operations.Admin.{count_attempt, increment_attempt, fail_outside_worker}
use brevyn_cloud.Redeem.{Amounts, synced, gateway_failed, Redemption, Database, PendingRedemption}
use brevyn_cloud.Redeem.Outcomes.{failed}
use brevyn_cloud.Subscription.{Client, Reply, ok, error, SyncAnswer}
use brevyn_cloud.Settlement.{
  Services, RedeemResult, is_no_code, apply_redemption_error_info, note_key, record_synced,
  sync_answered, RedeemResponse, sync_failed, redeemed, settle, operation_or, start_result,
  note_answer, with_key, account_id,
}
use brevyn_cloud.Settlement.Rows.{find-updated, HasRedemption, status-updated, error-updated}

-- The status of the operation when the sync has failed.
abbrev pub failure_status : Info → Status
failure_status info = if info.retryable then failed else dead_letter

-- … and when it has succeeded; only the API key can be missing.
abbrev pub success_status : Info → Status
success_status info = if is_no_code info.code then succeeded else failed

pub dead_or_failed :
    (b : Bool) → (if not b then dead_letter else failed) ≡ (if b then failed else dead_letter)
dead_or_failed true = refl
dead_or_failed false = refl

module _ (amounts : Amounts) (pending : PendingRedemption amounts) where
  -- The redemption of the request is found by its public id, and is what `P` says.
  abbrev pub HasPending : (Redemption amounts → Type 0) → List (Redemption amounts) → Type 0
  HasPending P rows =
      HasRedemption amounts pending.redemption_public pending.redemption_db_id P rows

  -- Its operation is found by its public id, and is what `P` says.
  abbrev pub HasOperation : (Operation → Type 0) → List Operation → Type 0
  HasOperation P rows =
      (op : Operation) × (find (has_public_id pending.operation_public) rows ≡ some op) × P op

  -- The tables agree with the answer of a request that has recorded its redemption.
  abbrev pub Agrees : RedeemResponse amounts → Database amounts → Type 0
  Agrees (sync_failed result) db =
      HasPending
        (λ (r : Redemption amounts).
          (r.status ≡ gateway_failed) × (r.error ≡ result.redemption.error))
        db.redemptions
      × HasOperation
          (λ (op : Operation).
            (op.status ≡ failure_status result.redemption.error)
            × (op.last_error ≡ result.redemption.error))
          db.queue.rows
  Agrees (redeemed result) db =
      HasPending
        (λ (r : Redemption amounts). (r.status ≡ synced) × (r.error ≡ result.redemption.error))
        db.redemptions
      × HasOperation (λ (op : Operation). op.status ≡ success_status result.redemption.error)
          db.queue.rows
  Agrees _ db = ⊥

  -- What the sync leaves of the redemptions: a row that is synced if there is no error.
  abbrev Synced : RedeemResult amounts × Option Err → List (Redemption amounts) → Type 0
  Synced (result, some e) rows = HasPending (λ (r : Redemption amounts). Unit) rows
  Synced (result, none) rows =
      HasPending
        (λ (r : Redemption amounts). (r.status ≡ synced) × (r.error ≡ result.redemption.error)) rows

  note_key-Synced :
      (key : Reply Text) (result : RedeemResult amounts) (rows : List (Redemption amounts))
      → Synced (result, none) rows
      → Synced
          ((note_key amounts pending.redemption_db_id key result rows).0, none)
          (note_key amounts pending.redemption_db_id key result rows).1
  unfolding note_key apply_redemption_error_info
  note_key-Synced (ok key) result rows h = h
  note_key-Synced (error e) result rows (r, found, id, (is_synced, same)) =
      error-updated amounts pending.redemption_public pending.redemption_db_id rows synced _
        (r, found, id, is_synced)

  with_key-redemption :
      (key : Reply Text) (result : RedeemResult amounts)
      → (with_key amounts key result).redemption ≡ result.redemption
  with_key-redemption (ok key) result = refl
  with_key-redemption (error e) result = refl

  record_synced-Synced :
      (store_error : Option Err) (wallet : amounts.Amount) (key : Reply Text)
      (result : RedeemResult amounts) (rows : List (Redemption amounts))
      → (result.redemption.error ≡ no_info)
      → HasPending (λ (r : Redemption amounts). Unit) rows
      → Synced
          (record_synced amounts store_error pending wallet key result rows).0
          (record_synced amounts store_error pending wallet key result rows).1
  unfolding record_synced
  record_synced-Synced (some e) wallet key result rows clean here = here
  record_synced-Synced none wallet key result rows clean here =
      let (r, found, id, (is_synced, same)) =
        status-updated amounts pending.redemption_public pending.redemption_db_id rows synced
          no_info (account_id result.account) pending.external_group_id
          result.redemption.gateway_operation here in
      note_key-Synced key _ _
        (r, found, id, (is_synced, rw (with_key-redemption key result) (same ∙ sym clean)))

module _ (amounts : Amounts) (client : Client amounts) (services : Services client)
    (now user : ℕ) where
  pub sync_answered-Synced :
      (settings store_error : Option Err) (pending : PendingRedemption amounts)
      (wallet : amounts.Amount) (rows : List (Redemption amounts))
      (out : SyncAnswer × client.Remote)
      → HasPending amounts pending (λ (r : Redemption amounts). Unit) rows
      → Synced amounts pending
          (sync_answered amounts client services now user settings store_error pending wallet rows
            out).0
          (sync_answered amounts client services now user settings store_error pending wallet rows
            out).1.redemptions
  unfolding sync_answered note_answer start_result with_stage
  sync_answered-Synced settings store_error pending wallet rows (answer, remote) here =
      elim (Option-cases answer.failure) [
        | inr (e, bad) ↦ rw (bad, sync_answered) here
        | inl fine ↦ elim (Option-cases settings) [
          | inr (e, bad) ↦ rw (fine, bad, sync_answered) here
          | inl loaded ↦
              rw (fine, loaded, sync_answered)
                (record_synced-Synced amounts pending store_error wallet
                  (services.ensure_key user (account_id answer.account) pending.external_group_id
                    remote).0
                  (note_answer amounts answer (start_result amounts pending)) rows refl here)
        ]
      ]

module _ (amounts : Amounts) (clock now : ℕ) where
  attempt-counted :
      (id : Text) (rows : List Operation) {op : Operation}
      → find (has_public_id id) rows ≡ some op
      → (op' : Operation) × (find (has_public_id id) (increment_attempt id now rows) ≡ some op')
  unfolding increment_attempt count_attempt
  attempt-counted id rows {op} found = elim (Bool-cases (is_blank (trim_space id))) [
    | inl b ↦ (op, rw (b, increment_attempt) found)
    | inr b ↦
        (count_attempt now op, rw (b, increment_attempt) (find-updated _ _ rows (λ x. refl) found))
  ]

  -- What `settle` leaves agrees with what it answers.
  pub settle-Agrees :
      (payload : Text) (pending : PendingRedemption amounts)
      (out : RedeemResult amounts × Option Err) (db : Database amounts)
      → Synced amounts pending out db.redemptions
      → HasOperation amounts pending (λ (op : Operation). Unit) db.queue.rows
      → Agrees amounts pending
          (settle amounts clock now payload pending out db).0
          (settle amounts clock now payload pending out db).1
  unfolding settle fail_outside_worker mark_failed fail mark_succeeded succeed
      apply_redemption_error_info
  settle-Agrees payload pending (result, some e) db here (op, found, any) =
      let (op', found') = attempt-counted pending.operation_public db.queue.rows found in
      let info =
        classify
          (operation_or (trim_space result.redemption.gateway_operation) pending.gateway_operation)
          (some e) in
      (
        status-updated amounts pending.redemption_public pending.redemption_db_id db.redemptions
            gateway_failed _ _ _ _ here,
        (_, find-updated _ _ _ (λ x. refl) found', (dead_or_failed info.retryable, refl)),
      )
  settle-Agrees payload pending (result, none) db here (op, found, any) =
      let (op', found') = attempt-counted pending.operation_public db.queue.rows found in
      elim (Bool-cases (is_no_code result.redemption.error.code)) [
        | inl clean ↦ rw (clean, settle) (here, (_, find-updated _ _ _ (λ x. refl) found, refl))
        | inr pending_key ↦
            rw (pending_key, settle) (here, (_, find-updated _ _ _ (λ x. refl) found', refl))
      ]
