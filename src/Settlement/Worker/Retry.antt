-- ===== src/Settlement/Worker/Retry.antt =====
-- internal/admin/redemption_sync_handler.go, `RetryRedemptionSync`, and `syncRedemption` of
-- internal/admin/gateway_operation_executor.go: what a run leaves for each of its answers.
use brevyn_cloud.Base.{
  ℕ, ◌≡◌, refl, sym, ap, subst, Bool, true, false, Option, none, some, List, Text, arith, inl, inr,
  find, Bool-cases, Option-cases, is_blank, trim_space, ◌⊎◌,
}
use brevyn_cloud.Operations.{
  Status, succeeded, Operation, Queue, ensure_redemption_sync, has_public_id, fail, mark_failed,
  succeed, mark_succeeded,
}
use brevyn_cloud.Operations.Admin.{start_manual_run, take_manually, fail_outside_worker}
use brevyn_cloud.Errors.{Err, Info, no_info}
use brevyn_cloud.Redeem.{Amounts, synced, gateway_failed, Redemption, RedemptionStatus}
use brevyn_cloud.Subscription.{Client, SyncAnswer, sync_target}
use brevyn_cloud.Settlement.{account_id, update_redemption_status}
use brevyn_cloud.Settlement.Rows.{
  HasRedemption, status-updated, error-updated, find-updated, insert-found,
}
use brevyn_cloud.Settlement.Statuses.{failure_status, dead_or_failed}
use brevyn_cloud.Settlement.Worker.{
  GatewayUser, WorkerServices, LoadedTarget, load_sync_target, is_user_active, is_synced_status,
  RetrySync, redemption_required, redemption_not_found, already_synced, user_not_active,
  redemption_sync_failed, gateway_key_sync_failed, redemption_status_update_failed, retry_synced,
  RetryState, key_failed, retry_key, retry_answered, take_operation, retry_taken,
  retry_redemption_sync, with_operation,
}
use brevyn_cloud.Settlement.Worker.Synced.{load-Loaded}

module _ (amounts : Amounts) (client : Client amounts) (public_id : Text) where
  -- The redemption with the public id has this status and this error.
  abbrev pub HasStatus : RedemptionStatus → Info → List (Redemption amounts) → Type 0
  HasStatus status info rows =
      (id : ℕ) × HasRedemption amounts public_id id
        (λ (r : Redemption amounts). (r.status ≡ status) × (r.error ≡ info)) rows

  -- The operation of the run has this status, if there is one.
  abbrev pub RunStatus : (operation_id : Text) → Status → List Operation → Type 0
  RunStatus operation_id status rows =
      (is_blank operation_id ≡ true)
      ⊎ ((op : Operation) × (find (has_public_id operation_id) rows ≡ some op)
          × (op.status ≡ status))

  -- The tables agree with the answer of the manual run that took this operation.
  abbrev pub RetryAgrees : (operation_id : Text) → RetrySync → RetryState client → Type 0
  RetryAgrees operation_id (redemption_sync_failed info) s =
      HasStatus gateway_failed info s.redemptions
      × RunStatus operation_id (failure_status info) s.queue.rows
  RetryAgrees operation_id (gateway_key_sync_failed info) s =
      HasStatus synced info s.redemptions
      × RunStatus operation_id (failure_status info) s.queue.rows
  RetryAgrees operation_id retry_synced s =
      HasStatus synced no_info s.redemptions × RunStatus operation_id succeeded s.queue.rows
  RetryAgrees operation_id redemption_status_update_failed s = Unit
  RetryAgrees operation_id _ s = ⊥

  -- There is an operation with the id, if the id is not blank.
  abbrev Taken : (operation_id : Text) → List Operation → Type 0
  Taken operation_id rows =
      (is_blank operation_id ≡ true)
      ⊎ ((op : Operation) × (find (has_public_id operation_id) rows ≡ some op))

  module _ (w : WorkerServices client) (clock now : ℕ) (operation_id : Text) where
    failed-RunStatus :
        (info : Info) (rows : List Operation)
        → Taken operation_id rows
        → RunStatus operation_id
            (failure_status info)
            (fail_outside_worker operation_id info clock now rows)
    unfolding fail_outside_worker mark_failed fail
    failed-RunStatus info rows (inl b) = inl b
    failed-RunStatus info rows (inr (op, found)) =
        inr (_, find-updated _ _ rows (λ x. refl) found, dead_or_failed info.retryable)

    key_failed-Agrees :
        (loaded : LoadedTarget amounts) (info : Info) (s : RetryState client)
        → HasRedemption amounts public_id loaded.db_id
            (λ (r : Redemption amounts). r.status ≡ synced)
            s.redemptions
        → Taken operation_id s.queue.rows
        → RetryAgrees operation_id
            (key_failed amounts client w clock now loaded operation_id info s).0
            (key_failed amounts client w clock now loaded operation_id info s).1
    unfolding key_failed
    key_failed-Agrees loaded info s here taken = (
      (loaded.db_id, error-updated amounts public_id loaded.db_id s.redemptions synced info here),
      failed-RunStatus info s.queue.rows taken,
    )

    retry_key-Agrees :
        (result : Text) (loaded : LoadedTarget amounts) (s : RetryState client)
        (out : Option Err × client.Remote)
        → HasRedemption amounts public_id loaded.db_id
            (λ (r : Redemption amounts). (r.status ≡ synced) × (r.error ≡ no_info))
            s.redemptions
        → Taken operation_id s.queue.rows
        → RetryAgrees operation_id
            (retry_key amounts client w clock now result loaded operation_id s out).0
            (retry_key amounts client w clock now result loaded operation_id s out).1
    unfolding retry_key mark_succeeded succeed
    retry_key-Agrees result loaded s (some e, remote) (r, found, id, (is_synced, clean)) taken =
        key_failed-Agrees loaded _ (record s { remote = remote }) (r, found, id, is_synced) taken
    retry_key-Agrees result loaded s (none, remote) here taken =
        elim (Bool-cases (is_blank operation_id)) [
          | inl b ↦ rw b ((loaded.db_id, here), inl refl)
          | inr b ↦ rw b (
            (loaded.db_id, here),
            elim taken [
              | inl blank ↦ absurd (ground (arith, blank, b))
              | inr (op, found) ↦ inr (_, find-updated _ _ s.queue.rows (λ x. refl) found, refl)
            ],
          )
        ]

    retry_answered-Agrees :
        (result : Text) (loaded : LoadedTarget amounts) (s : RetryState client)
        (out : SyncAnswer × client.Remote)
        → HasRedemption amounts public_id loaded.db_id
            (λ (r : Redemption amounts). Unit)
            s.redemptions
        → Taken operation_id s.queue.rows
        → RetryAgrees operation_id
            (retry_answered amounts client w clock now result loaded operation_id s out).0
            (retry_answered amounts client w clock now result loaded operation_id s out).1
    unfolding retry_answered
    retry_answered-Agrees result loaded s (answer, remote) here taken =
        let target = with_operation amounts answer.operation loaded.target in
        let status_updated = λ (status : RedemptionStatus) (info : Info).
          status-updated amounts public_id loaded.db_id s.redemptions status info
            (account_id answer.account) target.external_group_id target.gateway_operation here in
        let rows =
          update_redemption_status amounts loaded.db_id synced no_info (account_id answer.account)
            target.external_group_id target.gateway_operation s.redemptions in
        let s' : RetryState client = record s { redemptions = rows; remote = remote } in
        elim (Option-cases answer.failure) [
          | inr (e, bad) ↦
              rw (bad, retry_answered)
                (
                  (loaded.db_id, status_updated gateway_failed _),
                  failed-RunStatus _ s.queue.rows taken,
                )
          | inl fine ↦ elim (Option-cases w.store_error) [
            | inr (e, lost) ↦ rw (fine, lost, retry_answered) tt
            | inl stored ↦ elim (Option-cases w.first_settings) [
              | inr (e, bad) ↦
                  let (r, found, id, (is_synced, clean)) = status_updated synced no_info in
                  rw (fine, stored, bad, retry_answered)
                    (key_failed-Agrees loaded _ s' (r, found, id, is_synced) taken)
              | inl settings ↦
                  rw (fine, stored, settings, retry_answered)
                    (retry_key-Agrees result loaded s' _ (status_updated synced no_info) taken)
            ]
          ]
        ]

module _ (amounts : Amounts) (client : Client amounts) (w : WorkerServices client)
    (clock now default_group : ℕ) (users : List GatewayUser) (fresh result id : Text) where
  take-Taken :
      (db_id user : ℕ) (public_id : Text) (q : Queue)
      → let taken =
          take_operation amounts client w clock now
            (ensure_redemption_sync fresh db_id public_id user now q) in
        Taken amounts client public_id taken.0 taken.1.rows
  unfolding take_operation ensure_redemption_sync start_manual_run take_manually is_blank
  take-Taken db_id user public_id q =
      let out = ensure_redemption_sync fresh db_id public_id user now q in
      let Result : Option Text × Queue → Type 0 = λ o.
        Taken amounts client public_id (take_operation amounts client w clock now o).0
          (take_operation amounts client w clock now o).1.rows in
      elim (Option-cases out.0) [
        | inl none_left ↦
            subst Result (ap (λ (o : Option Text). (o, out.1)) (sym none_left)) (inl refl)
        | inr (operation_id, e) ↦
            let whole : out ≡ (some operation_id, out.1) = ap (λ (o : Option Text). (o, out.1)) e in
            let (op, found) = insert-found _ now q out.1 operation_id whole in
            subst Result (sym whole) (inr (_, find-updated _ _ out.1.rows (λ x. refl) found))
      ]

  -- The answers that come before anything is changed.
  abbrev pub is_retry_refusal : RetrySync → Bool
  is_retry_refusal redemption_required = true
  is_retry_refusal redemption_not_found = true
  is_retry_refusal already_synced = true
  is_retry_refusal user_not_active = true
  is_retry_refusal _ = false

  -- What a manual run leaves, for each of its answers.
  abbrev pub IsRetried : RetryState client → RetrySync × RetryState client → Type 0
  IsRetried s (answer, s') =
      ((is_retry_refusal answer ≡ true) × (s' ≡ s))
      ⊎ ((loaded : LoadedTarget amounts) × (load_sync_target amounts default_group (trim_space id)
              users s.redemptions
            ≡ some loaded)
          × RetryAgrees amounts client (trim_space id)
              (take_operation amounts client w clock now (
                ensure_redemption_sync fresh loaded.db_id loaded.target.public_id loaded.user.id now
                  s.queue)).0
              answer s')

  taken-IsRetried :
      (s : RetryState client) (loaded : LoadedTarget amounts)
      → load_sync_target amounts default_group (trim_space id) users s.redemptions ≡ some loaded
      → IsRetried s (
          retry_taken amounts client w clock now result loaded s.redemptions s.remote (
            take_operation amounts client w clock now (
              ensure_redemption_sync fresh loaded.db_id loaded.target.public_id loaded.user.id now
                s.queue)))
  unfolding retry_taken
  taken-IsRetried s loaded there =
      let (r, found, same, status) =
        load-Loaded amounts default_group (trim_space id) users s.redemptions loaded there in
      let taken = take_operation amounts client w clock now (
        ensure_redemption_sync fresh loaded.db_id loaded.target.public_id loaded.user.id now
          s.queue) in
      inr (
        loaded,
        there,
        retry_answered-Agrees amounts client (trim_space id) w clock now taken.0 result loaded
            (record { redemptions = s.redemptions; queue = taken.1; remote = s.remote })
            (sync_target amounts client clock w.services.settings
              (w.services.ensure_account loaded.user.id loaded.target.external_group_id)
              loaded.target s.remote)
            (r, found, same, tt)
            (take-Taken loaded.db_id loaded.user.id loaded.target.public_id s.queue),
      )

  -- A manual run of a redemption is refused and changes nothing, or the tables agree with its
  -- answer: where the sync failed the redemption is failed with the error, where only the API key
  -- failed it is synced with the error, else it is synced without one; and the operation that was
  -- taken, if it has an id, is dead or failed as the error is retryable, or succeeded. Where the
  -- update to synced failed, nothing is said of the tables.
  pub retry_settles :
      (s : RetryState client)
      → IsRetried s
          (retry_redemption_sync amounts client w clock now default_group users fresh result id s)
  unfolding retry_redemption_sync
  retry_settles s = elim (Bool-cases (is_blank (trim_space id))) [
    | inl b ↦ rw (b, retry_redemption_sync) (inl (refl, refl))
    | inr b ↦
        elim (Option-cases
          (load_sync_target amounts default_group (trim_space id) users s.redemptions)) [
            | inl missing ↦ rw (b, missing, retry_redemption_sync) (inl (refl, refl))
            | inr (loaded, there) ↦ elim (Bool-cases (is_synced_status loaded.status)) [
              | inl is_synced ↦ rw (b, there, is_synced, retry_redemption_sync) (inl (refl, refl))
              | inr other ↦ elim (Bool-cases (is_user_active loaded.user)) [
                | inr idle ↦ rw (b, there, other, idle, retry_redemption_sync) (inl (refl, refl))
                | inl active ↦
                    let taken =
                      retry_taken amounts client w clock now result loaded s.redemptions s.remote (
                        take_operation amounts client w clock now (
                          ensure_redemption_sync fresh loaded.db_id loaded.target.public_id
                            loaded.user.id now s.queue)) in
                    let same : retry_redemption_sync amounts client w clock now default_group users
                          fresh result id s
                        ≡ taken =
                      rw (b, there, other, active, retry_redemption_sync) in
                    subst (IsRetried s) (sym same) (taken-IsRetried s loaded there)
              ]
            ]
          ]
  ]
