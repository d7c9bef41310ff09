-- ===== src/Settlement/Worker.antt =====
-- internal/admin/gateway_operation_executor.go, `syncRedemption`, and
-- internal/admin/redemption_sync_handler.go, `RetryRedemptionSync`: a recorded redemption is brought
-- to the gateway again, by the worker or by an administrator. The statements that the source runs
-- without a look at their error succeed here; the audit log and the caches are left out.
pub mod Synced
pub mod Retry
pub mod Runs
use brevyn_cloud.Base.{
  ℕ, ◌+◌, Bool, true, false, ◌&&◌, not, Option, none, some, List, [], ◌∷◌, ◌++◌, Text, codes,
  text_eq, is_blank, trim_space, ◌==◌, if◌then◌else◌, find,
}
use brevyn_cloud.Errors.{Info, no_info, Err, stage_error, plain, with_stage, classify}
use brevyn_cloud.Operations.{Operation, Queue, backoff, mark_succeeded, ensure_redemption_sync}
use brevyn_cloud.Operations.Admin.{start_manual_run, fail_outside_worker}
use brevyn_cloud.Redeem.{
  Amounts, Kind, RedemptionStatus, pending_gateway, synced, gateway_failed, Redemption,
  group_or_default, balance, subscription, unsupported,
}
use brevyn_cloud.Subscription.{Client, Reply, ok, error, SyncAnswer, SyncTarget, sync_target}
use brevyn_cloud.Settlement.{
  Services, account_id, operation_or, has_redemption_public_id, update_redemption_status,
  update_redemption_error, SyncState,
}

-- `GatewayUser`, the columns that are read here
pub record GatewayUser : Type 0 where
  pub id : ℕ
  pub public_id : Text
  pub status : Text

-- What else the worker uses: the error of the first load of the settings, `EnsureSub2APIAccount`,
-- `EnsureGatewayAPIKeyForOperation`, and the error of the update to synced, if any.
pub record WorkerServices {amounts : Amounts} (client : Client amounts) : Type 0 where
  pub services : Services client
  pub first_settings : Option Err
  pub ensure_known_account : (user group : ℕ) → client.Remote → Reply ℕ × client.Remote
  pub ensure_operation_key :
      (user account group : ℕ) (operation : Text) → client.Remote → Option Err × client.Remote
  pub store_error : Option Err

-- `SyncTarget` with its row and its user
pub record LoadedTarget (amounts : Amounts) : Type 0 where
  pub db_id : ℕ
  pub user : GatewayUser
  pub status : RedemptionStatus
  pub target : SyncTarget amounts

-- What a run answers.
pub record SyncDone : Type 0 where
  pub redemption_id : Text
  pub external_user_id : ℕ
  pub external_group_id : ℕ
  pub operation : Text

-- The operation of a row that has none.
abbrev pub missing_operation : Kind → Text
missing_operation balance = codes "add_balance"
missing_operation subscription = codes "assign_subscription"
missing_operation (unsupported kind) = []

module _ (amounts : Amounts) where
  -- The row that the query of `LoadSyncTarget` gives, with the defaults.
  unfoldable pub target_of_row :
      (default_group : ℕ) → Redemption amounts → GatewayUser → LoadedTarget amounts
  unfolding group_or_default
  target_of_row default_group r user = record {
    db_id = r.id;
    user = user;
    status = r.status;
    target = record {
      public_id = r.public_id;
      kind = r.kind;
      value = r.value;
      validity_days = r.validity_days;
      external_group_id = group_or_default default_group r.external_group_id;
      gateway_operation =
          if is_blank r.gateway_operation then missing_operation r.kind else r.gateway_operation;
    };
  }

  -- `LoadSyncTarget`; `none` is `pgx.ErrNoRows`.
  unfoldable pub load_sync_target :
      (default_group : ℕ) (public_id : Text)
      → List GatewayUser
      → List (Redemption amounts)
      → Option (LoadedTarget amounts)
  unfolding target_of_row
  load_sync_target default_group public_id users redemptions =
      elim (find (has_redemption_public_id amounts public_id) redemptions) [
        | none ↦ none
        | some r ↦ elim (find (λ (u : GatewayUser). u.id == r.user_id) users) [
          | none ↦ none
          | some user ↦ some (target_of_row default_group r user)
        ]
      ]

  -- The target with the operation that the sync has answered, if it is not blank.
  unfoldable pub with_operation : Text → SyncTarget amounts → SyncTarget amounts
  with_operation operation t = record t {
    gateway_operation = operation_or operation t.gateway_operation;
  }

-- `WithStage` of an error that is there
abbrev pub staged : Text → Err → Err
staged stage e = stage_error (trim_space stage) e

abbrev pub is_synced_status : RedemptionStatus → Bool
is_synced_status synced = true
is_synced_status _ = false

-- `user.status` lets the gateway be called.
abbrev pub is_user_active : GatewayUser → Bool
is_user_active user = text_eq user.status (codes "active")

module _ (amounts : Amounts) (client : Client amounts) (w : WorkerServices client) (clock : ℕ) where
  -- `syncRedemption` from the answer of `EnsureGatewayAPIKeyForOperation` on
  unfoldable pub finish_key :
      LoadedTarget amounts
      → (target : SyncTarget amounts) (account : ℕ) → List (Redemption amounts)
      → Option Err × client.Remote
      → Reply SyncDone × SyncState client
  finish_key loaded target account redemptions (some e, remote) = (
    error (staged (codes "ensure_api_key") e),
    record {
      redemptions =
          update_redemption_error amounts loaded.db_id
            (classify (codes "ensure_api_key") (with_stage (codes "ensure_api_key") (some e)))
            redemptions;
      remote = remote;
    },
  )
  finish_key loaded target account redemptions (none, remote) = (
    ok (record {
      redemption_id = target.public_id;
      external_user_id = account;
      external_group_id = target.external_group_id;
      operation = target.gateway_operation;
    }),
    record { redemptions = redemptions; remote = remote },
  )

  -- … from the account on
  unfoldable pub with_account :
      LoadedTarget amounts
      → (operation_id : Text) (target : SyncTarget amounts) → List (Redemption amounts)
      → Reply ℕ × client.Remote
      → Reply SyncDone × SyncState client
  unfolding finish_key
  with_account loaded operation_id target redemptions (error e, remote) = (
    error (staged (codes "ensure_user") e),
    record { redemptions = redemptions; remote = remote },
  )
  with_account loaded operation_id target redemptions (ok account, remote) =
      finish_key loaded target account redemptions
        (w.ensure_operation_key loaded.user.id account target.external_group_id operation_id remote)

  -- … from the answer of `SyncTargetToSub2API` on, for a redemption that was not synced before
  unfoldable pub finish_target :
      LoadedTarget amounts
      → (operation_id : Text) → List (Redemption amounts)
      → SyncAnswer × client.Remote
      → Reply SyncDone × SyncState client
  unfolding with_account with_operation
  finish_target loaded operation_id redemptions (answer, remote) =
      let target = with_operation amounts answer.operation loaded.target in
      let account = account_id answer.account in
      elim answer.failure [
        | some e ↦ (
          error e,
          record {
            redemptions =
                update_redemption_status amounts loaded.db_id gateway_failed
                  (classify target.gateway_operation (some e)) account target.external_group_id
                  target.gateway_operation redemptions;
            remote = remote;
          },
        )
        | none ↦ elim w.store_error [
          | some e ↦ (
            error (staged (codes "mark_synced") e),
            record { redemptions = redemptions; remote = remote },
          )
          | none ↦
              with_account loaded operation_id target
                (update_redemption_status amounts loaded.db_id synced no_info account
                  target.external_group_id target.gateway_operation redemptions)
                (ok account, remote)
        ]
      ]

  -- … from the loaded settings on
  unfoldable pub sync_loaded :
      LoadedTarget amounts
      → (operation_id : Text) → SyncState client
      → Reply SyncDone × SyncState client
  unfolding finish_target
  sync_loaded loaded operation_id s =
      if is_synced_status loaded.status
      then with_account loaded operation_id loaded.target s.redemptions
          (w.ensure_known_account loaded.user.id loaded.target.external_group_id s.remote)
      else finish_target loaded operation_id s.redemptions (
          sync_target amounts client clock w.services.settings
            (w.services.ensure_account loaded.user.id loaded.target.external_group_id) loaded.target
            s.remote)

  -- `syncRedemption`
  unfoldable pub sync_redemption_operation :
      (default_group : ℕ)
      → List GatewayUser
      → Operation
      → SyncState client
      → Reply SyncDone × SyncState client
  unfolding sync_loaded
  sync_redemption_operation default_group users op s =
      if not (text_eq op.target_type (codes "redeem_redemption"))
      then (
        error (
            plain (
              codes "unsupported gateway operation "
              ++ (op.operation ++ (codes "/" ++ op.target_type)))),
        s,
      )
      else elim (load_sync_target amounts default_group op.target_id users s.redemptions) [
        | none ↦
            (error (staged (codes "load_redemption") (plain (codes "no rows in result set"))), s)
        | some loaded ↦
            if not (is_user_active loaded.user)
            then (
              error (
                  staged (codes "ensure_user")
                    (plain (codes "user is not active: " ++ loaded.user.status))),
              s,
            )
            else elim w.first_settings [
              | some e ↦ (error (staged (codes "settings") e), s)
              | none ↦ sync_loaded loaded op.public_id s
            ]
      ]

-- What `RetryRedemptionSync` answers.
pub data RetrySync : Type 0 where
  redemption_required redemption_not_found already_synced user_not_active : RetrySync
  redemption_sync_failed gateway_key_sync_failed : Info → RetrySync
  redemption_status_update_failed retry_synced : RetrySync

-- The redemptions, the queue and the gateway, which the manual run changes.
pub record RetryState {amounts : Amounts} (client : Client amounts) : Type 0 where
  pub redemptions : List (Redemption amounts)
  pub queue : Queue
  pub remote : client.Remote

module _ (amounts : Amounts) (client : Client amounts) (w : WorkerServices client)
    (clock now : ℕ) where
  -- `RetryRedemptionSync` where the key is missing, or the settings for it
  pub key_failed :
      LoadedTarget amounts
      → (operation_id : Text) → Info
      → RetryState client
      → RetrySync × RetryState client
  key_failed loaded operation_id info s = (
    gateway_key_sync_failed info,
    record s {
      redemptions = update_redemption_error amounts loaded.db_id info s.redemptions;
      queue = record s.queue {
        rows = fail_outside_worker operation_id info clock now s.queue.rows;
      };
    },
  )

  -- … from the answer of `EnsureGatewayAPIKeyForOperation` on; `result` is the marshalled result.
  pub retry_key :
      (result : Text)
      → LoadedTarget amounts
      → (operation_id : Text) → RetryState client
      → Option Err × client.Remote
      → RetrySync × RetryState client
  unfolding key_failed
  retry_key result loaded operation_id s (some e, remote) =
      key_failed loaded operation_id
        (classify (codes "ensure_api_key") (with_stage (codes "ensure_api_key") (some e)))
        (record s { remote = remote })
  retry_key result loaded operation_id s (none, remote) = (
    retry_synced,
    record s {
      queue = record s.queue {
        rows =
            if is_blank operation_id
            then s.queue.rows
            else mark_succeeded operation_id result now s.queue.rows;
      };
      remote = remote;
    },
  )

  -- … from the answer of `SyncTargetToSub2API` on
  pub retry_answered :
      (result : Text)
      → LoadedTarget amounts
      → (operation_id : Text) → RetryState client
      → SyncAnswer × client.Remote
      → RetrySync × RetryState client
  unfolding retry_key with_operation
  retry_answered result loaded operation_id s (answer, remote) =
      let target = with_operation amounts answer.operation loaded.target in
      let account = account_id answer.account in
      elim answer.failure [
        | some e ↦
            let info = classify target.gateway_operation (some e) in
            (
              redemption_sync_failed info,
              record {
                redemptions =
                    update_redemption_status amounts loaded.db_id gateway_failed info account
                      target.external_group_id target.gateway_operation s.redemptions;
                queue = record s.queue {
                  rows = fail_outside_worker operation_id info clock now s.queue.rows;
                };
                remote = remote;
              },
            )
        | none ↦ elim w.store_error [
          | some e ↦ (redemption_status_update_failed, record s { remote = remote })
          | none ↦
              let s' = record s {
                redemptions =
                    update_redemption_status amounts loaded.db_id synced no_info account
                      target.external_group_id target.gateway_operation s.redemptions;
                remote = remote;
              } in
              elim w.first_settings [
                | some e ↦
                    key_failed loaded operation_id
                      (classify (codes "settings") (with_stage (codes "settings") (some e))) s'
                | none ↦ retry_key result loaded operation_id s' (
                    w.ensure_operation_key loaded.user.id account target.external_group_id
                      operation_id remote)
              ]
        ]
      ]

  -- The operation that the administrator takes, of those that `EnsureRedemptionSync` answers; an
  -- error leaves its id empty.
  pub take_operation : Option Text × Queue → Text × Queue
  take_operation (none, queue) = ([], record queue { rows = start_manual_run [] now queue.rows })
  take_operation (some id, queue) = (id, record queue { rows = start_manual_run id now queue.rows })

  -- … from the operation on
  pub retry_taken :
      (result : Text)
      → LoadedTarget amounts
      → List (Redemption amounts)
      → client.Remote
      → Text × Queue
      → RetrySync × RetryState client
  unfolding retry_answered
  retry_taken result loaded redemptions remote (operation_id, queue) =
      retry_answered result loaded operation_id
        (record { redemptions = redemptions; queue = queue; remote = remote })
        (sync_target amounts client clock w.services.settings
          (w.services.ensure_account loaded.user.id loaded.target.external_group_id) loaded.target
          remote)

  -- `RetryRedemptionSync` from the request's id on; `fresh` is a new operation's public id. The
  -- three statuses of a redemption leave none that is not retryable.
  pub retry_redemption_sync :
      (default_group : ℕ) (users : List GatewayUser) (fresh result public_id : Text)
      → RetryState client
      → RetrySync × RetryState client
  unfolding retry_taken take_operation
  retry_redemption_sync default_group users fresh result public_id s =
      if is_blank (trim_space public_id)
      then (redemption_required, s)
      else elim (load_sync_target amounts default_group (trim_space public_id) users
          s.redemptions) [
            | none ↦ (redemption_not_found, s)
            | some loaded ↦
                if is_synced_status loaded.status
                then (already_synced, s)
                else if not (is_user_active loaded.user)
                then (user_not_active, s)
                else retry_taken result loaded s.redemptions s.remote (
                    take_operation (
                      ensure_redemption_sync fresh loaded.db_id loaded.target.public_id
                        loaded.user.id now s.queue))
          ]
