-- ===== src/Settlement.antt =====
-- internal/auth/handler.go, the request `Redeem`, and internal/admin/gateway_operation_executor.go,
-- the same work in the worker: a redemption that is recorded is brought to the gateway, and its row
-- and its operation are settled. `Services` stands for the settings, the accounts and the API keys
-- of internal/redeem/gateway_sync_service.go, which act on the gateway's state.
pub mod Rows
pub mod Statuses
pub mod Requests
pub mod Worker
pub mod Once
mod Examples
use brevyn_cloud.Base.{
  ℕ, ◌+◌, Bool, true, false, not, Option, none, some, List, [], ◌∷◌, Text, codes, text_eq, is_blank,
  trim_space, ◌==◌, ltb, if◌then◌else◌, find, update_where,
}
use brevyn_cloud.Errors.{
  Info, no_info, Code, no_code, gateway_api_key_pending, partial_success, Err, plain, with_stage,
  classify,
}
use brevyn_cloud.Operations.{Operation, Queue, backoff, mark_succeeded, mark_failed}
use brevyn_cloud.Operations.Admin.{increment_attempt, fail_outside_worker}
use brevyn_cloud.Redeem.{
  Amounts, Kind, RedemptionStatus, pending_gateway, synced, gateway_failed, Redemption, Database,
  PendingRedemption, WalletTransaction, wallet_balance, RedeemError, Redeemed, refused, accepted,
  FreshIds, mark_redeemed_locally, normalize_code, group_or_default, balance, subscription,
  unsupported,
}
use brevyn_cloud.Subscription.{
  Client, Reply, ok, error, SyncAnswer, SyncTarget, sync_target, default_operation,
}
use brevyn_cloud.Limits.{Redis, Verdict, allowed, unavailable, blocked, redeem_rules, limit_with}

-- What the sync uses besides the client: the error of `LoadSub2APISettings`, if any,
-- `EnsureSub2APIAccountForGroup`, which answers the gateway's user, and
-- `EnsureGatewayAPIKeyForUser`, which answers the key.
pub record Services {amounts : Amounts} (client : Client amounts) : Type 0 where
  pub settings : Option Err
  pub ensure_account : (user group : ℕ) → client.Remote → Reply ℕ × client.Remote
  pub ensure_key : (user account group : ℕ) → client.Remote → Reply Text × client.Remote

-- `redemptionSummary`, with the six error fields as one `Info`
pub record RedemptionSummary (amounts : Amounts) : Type 0 where
  pub id : Text
  pub code_id : Text
  pub product_name : Text
  pub kind : Kind
  pub value : amounts.Amount
  pub validity_days : ℕ
  pub external_user_id : ℕ
  pub external_group_id : ℕ
  pub gateway_operation : Text
  pub status : RedemptionStatus
  pub error : Info
  pub created_at : ℕ

-- `redeemResult`; the account is `none` if it is not known.
pub record RedeemResult (amounts : Amounts) : Type 0 where
  pub redemption : RedemptionSummary amounts
  pub wallet : amounts.Amount
  pub account : Option ℕ
  pub plain_api_key : Option Text

-- `GatewayAccountSummary.ExternalUserID`, 0 for no account
abbrev pub account_id : Option ℕ → ℕ
account_id none = 0
account_id (some id) = id

abbrev pub is_no_code : Code → Bool
is_no_code no_code = true
is_no_code _ = false

-- What is reported when only the API key is missing.
pub key_pending_info : Err → Info
key_pending_info e =
    record (classify (codes "ensure_api_key") (with_stage (codes "ensure_api_key") (some e))) {
      code = gateway_api_key_pending;
      class = partial_success;
      message = codes "网关到账成功，但 API Key 暂未创建";
      retryable = true;
    }

-- The first text, if it is not blank when trimmed, or the second.
abbrev pub operation_or : Text → Text → Text
operation_or operation otherwise = if is_blank (trim_space operation) then otherwise else operation

module _ (amounts : Amounts) where
  abbrev pub has_redemption_id : ℕ → Redemption amounts → Bool
  has_redemption_id id r = r.id == id

  abbrev pub has_redemption_public_id : Text → Redemption amounts → Bool
  has_redemption_public_id public_id r = text_eq r.public_id public_id

  -- The columns that `UpdateRedemptionStatus` sets.
  pub set_status :
      RedemptionStatus
      → Info
      → (external_user_id external_group_id : ℕ) → (operation : Text) → Redemption amounts
      → Redemption amounts
  set_status status info external_user_id external_group_id operation r = record r {
    status = status;
    error = info;
    external_user_id = external_user_id;
    external_group_id = external_group_id;
    gateway_operation = operation;
  }

  -- `UpdateRedemptionStatus`
  pub update_redemption_status :
      (id : ℕ)
      → RedemptionStatus
      → Info
      → (external_user_id external_group_id : ℕ) → (operation : Text) → List (Redemption amounts)
      → List (Redemption amounts)
  unfolding set_status
  update_redemption_status id status info external_user_id external_group_id operation =
      update_where (has_redemption_id id)
        (set_status status info external_user_id external_group_id operation)

  -- The columns that `UpdateRedemptionError` sets.
  pub set_error : Info → Redemption amounts → Redemption amounts
  set_error info r = record r { error = info }

  -- `UpdateRedemptionError`
  pub update_redemption_error :
      (id : ℕ) → Info → List (Redemption amounts) → List (Redemption amounts)
  unfolding set_error
  update_redemption_error id info = update_where (has_redemption_id id) (set_error info)

  -- The result with which `syncRedemptionToGateway` starts.
  pub start_result : PendingRedemption amounts → RedeemResult amounts
  start_result pending = record {
    redemption = record {
      id = pending.redemption_public;
      code_id = pending.code_public_id;
      product_name = pending.product_name;
      kind = pending.kind;
      value = pending.value;
      validity_days = pending.validity_days;
      external_user_id = 0;
      external_group_id = pending.external_group_id;
      gateway_operation = pending.gateway_operation;
      status = pending_gateway;
      error = no_info;
      created_at = pending.created_at;
    };
    wallet = pending.balance_after;
    account = none;
    plain_api_key = none;
  }

  -- The target of the sync
  pub target_of : PendingRedemption amounts → SyncTarget amounts
  target_of pending = record {
    public_id = pending.redemption_public;
    kind = pending.kind;
    value = pending.value;
    validity_days = pending.validity_days;
    external_group_id = pending.external_group_id;
    gateway_operation = pending.gateway_operation;
  }

  -- The result after the sync of the target
  pub note_answer : SyncAnswer → RedeemResult amounts → RedeemResult amounts
  note_answer answer result =
      let known = ltb 0 (account_id answer.account) in
      record result {
        redemption = record result.redemption {
          gateway_operation = operation_or answer.operation result.redemption.gateway_operation;
          external_user_id =
              if known then account_id answer.account else result.redemption.external_user_id;
        };
        account = if known then answer.account else result.account;
      }

  -- `applyRedemptionErrorInfo`
  pub apply_redemption_error_info : Info → RedeemResult amounts → RedeemResult amounts
  apply_redemption_error_info info result = record result {
    redemption = record result.redemption { error = info };
  }

  abbrev pub with_status : RedemptionStatus → RedeemResult amounts → RedeemResult amounts
  with_status status result = record result {
    redemption = record result.redemption { status = status };
  }

  -- The result with the key, if there is one.
  abbrev pub with_key : Reply Text → RedeemResult amounts → RedeemResult amounts
  with_key (ok key) result = record result { plain_api_key = some key }
  with_key (error e) result = result

  -- The end of `syncRedemptionToGateway`: the key that could not be created is only noted.
  pub note_key :
      (id : ℕ)
      → Reply Text
      → RedeemResult amounts
      → List (Redemption amounts)
      → RedeemResult amounts × List (Redemption amounts)
  unfolding apply_redemption_error_info update_redemption_error key_pending_info
  note_key id (ok key) result redemptions = (result, redemptions)
  note_key id (error e) result redemptions = (
    apply_redemption_error_info (key_pending_info e) result,
    update_redemption_error id (key_pending_info e) redemptions,
  )

  -- … from the key on. `store_error` is the error of the update to synced, if any.
  pub record_synced :
      (store_error : Option Err) (pending : PendingRedemption amounts) (wallet : amounts.Amount)
      (key : Reply Text)
      → RedeemResult amounts
      → List (Redemption amounts)
      → (RedeemResult amounts × Option Err) × List (Redemption amounts)
  unfolding note_key update_redemption_status
  record_synced store_error pending wallet key result redemptions =
      let result' = with_status synced (record (with_key key result) { wallet = wallet }) in
      elim store_error [
        | some e ↦ ((result', some e), redemptions)
        | none ↦
            let (result'', redemptions') = note_key pending.redemption_db_id key result' (
              update_redemption_status pending.redemption_db_id synced no_info
                (account_id result.account) pending.external_group_id
                result.redemption.gateway_operation redemptions) in
            ((result'', none), redemptions')
      ]

-- The state that a sync changes: the redemptions, and the gateway.
pub record SyncState {amounts : Amounts} (client : Client amounts) : Type 0 where
  pub redemptions : List (Redemption amounts)
  pub remote : client.Remote

module _ (amounts : Amounts) (client : Client amounts) (services : Services client)
    (now user : ℕ) where
  -- `syncRedemptionToGateway` from the target's sync on. The settings are loaded a second time.
  pub sync_answered :
      (settings store_error : Option Err) (pending : PendingRedemption amounts)
      (wallet : amounts.Amount)
      → List (Redemption amounts)
      → SyncAnswer × client.Remote
      → (RedeemResult amounts × Option Err) × SyncState client
  unfolding note_answer start_result record_synced
  sync_answered settings store_error pending wallet redemptions (answer, remote) =
      let result = note_answer amounts answer (start_result amounts pending) in
      elim answer.failure [
        | some e ↦ ((result, some e), record { redemptions = redemptions; remote = remote })
        | none ↦ elim settings [
          | some e ↦ (
            (result, with_stage (codes "settings") (some e)),
            record { redemptions = redemptions; remote = remote },
          )
          | none ↦
              let (key, remote') =
                services.ensure_key user (account_id answer.account) pending.external_group_id
                  remote in
              let (out, redemptions') =
                record_synced amounts store_error pending wallet key result redemptions in
              (out, record { redemptions = redemptions'; remote = remote' })
        ]
      ]

  -- `syncRedemptionToGateway`
  pub sync_redemption_to_gateway :
      (settings store_error : Option Err) (pending : PendingRedemption amounts)
      (wallet : amounts.Amount)
      → SyncState client
      → (RedeemResult amounts × Option Err) × SyncState client
  unfolding sync_answered target_of
  sync_redemption_to_gateway settings store_error pending wallet s =
      sync_answered settings store_error pending wallet s.redemptions (
        sync_target amounts client now services.settings
          (services.ensure_account user pending.external_group_id) (target_of amounts pending)
          s.remote)

-- What `Redeem` answers.
pub data RedeemResponse (amounts : Amounts) : Type 0 where
  code_required rate_limit_unavailable : RedeemResponse amounts
  redeem_rate_limited : ℕ → RedeemResponse amounts
  redeem_refused : RedeemError → RedeemResponse amounts
  sync_failed : RedeemResult amounts → RedeemResponse amounts
  redeemed : RedeemResult amounts → RedeemResponse amounts

module _ (amounts : Amounts) (clock now : ℕ) where
  abbrev pub with_rows :
      Database amounts → List (Redemption amounts) → List Operation → Database amounts
  with_rows db redemptions rows = record db {
    redemptions = redemptions;
    queue = record db.queue { rows = rows };
  }

  -- `Redeem` from the sync on: the operation that the request has run itself is settled. `payload`
  -- is the marshalled result. The request ignores the errors of these statements, which always
  -- succeed here.
  pub settle :
      (payload : Text) (pending : PendingRedemption amounts)
      → RedeemResult amounts × Option Err
      → Database amounts
      → RedeemResponse amounts × Database amounts
  unfolding apply_redemption_error_info update_redemption_status
  settle payload pending (result, some e) db =
      let operation =
        operation_or (trim_space result.redemption.gateway_operation) pending.gateway_operation in
      let info = classify operation (some e) in
      (
        sync_failed
            (apply_redemption_error_info amounts info (with_status amounts gateway_failed result)),
        with_rows db
            (update_redemption_status amounts pending.redemption_db_id gateway_failed info
              result.redemption.external_user_id pending.external_group_id operation db.redemptions)
            (fail_outside_worker pending.operation_public info clock now
              (increment_attempt pending.operation_public now db.queue.rows)),
      )
  settle payload pending (result, none) db = (
    redeemed result,
    with_rows db db.redemptions (
        if is_no_code result.redemption.error.code
        then mark_succeeded pending.operation_public payload now db.queue.rows
        else mark_failed pending.operation_public result.redemption.error (clock + backoff 1) false
            now (increment_attempt pending.operation_public now db.queue.rows)),
  )

module _ (amounts : Amounts) (client : Client amounts) (services : Services client) where
  -- The environment of a request: what the second load of the settings and the update to synced
  -- answer, the ids, the default group, and the marshalled result of the operation.
  pub record Request : Type 0 where
    pub user : ℕ
    pub default_group : ℕ
    pub fresh : FreshIds
    pub clock : ℕ
    pub now : ℕ
    pub settings_again : Option Err
    pub store_error : Option Err
    pub payload : Text

  -- `Redeem` from the recorded redemption on
  pub sync_and_settle :
      Request
      → PendingRedemption amounts
      → Database amounts
      → client.Remote
      → RedeemResponse amounts × Database amounts × client.Remote
  unfolding settle sync_redemption_to_gateway
  sync_and_settle q pending db remote =
      let (out, s) =
        sync_redemption_to_gateway amounts client services q.clock q.user q.settings_again
          q.store_error pending (wallet_balance amounts q.user db.wallet)
          (record { redemptions = db.redemptions; remote = remote }) in
      let (response, db') =
        settle amounts q.clock q.now q.payload pending out
          (record db { redemptions = s.redemptions }) in
      (response, db', s.remote)

  -- … from the answer of `markRedeemedLocally` on
  pub redeem_marked :
      Request
      → Redeemed (PendingRedemption amounts) × Database amounts
      → client.Remote
      → RedeemResponse amounts × Database amounts × client.Remote
  unfolding sync_and_settle
  redeem_marked q (refused e, db) remote = (redeem_refused e, db, remote)
  redeem_marked q (accepted pending, db) remote = sync_and_settle q pending db remote

  -- … from the verdict of the limiter on
  pub redeem_limited :
      (hash : Text → Text)
      → Request
      → (code : Text) → Verdict
      → Database amounts
      → client.Remote
      → RedeemResponse amounts × Database amounts × client.Remote
  unfolding redeem_marked
  redeem_limited hash q code unavailable db remote = (rate_limit_unavailable, db, remote)
  redeem_limited hash q code (blocked wait) db remote = (redeem_rate_limited wait, db, remote)
  redeem_limited hash q code allowed db remote =
      redeem_marked q
        (mark_redeemed_locally amounts q.user q.default_group q.fresh q.clock q.now hash code db)
        remote

  -- `Redeem` of a user, with the limiter's store; `hash` is SHA-256 in hexadecimal.
  pub redeem :
      (redis : Redis) (hash : Text → Text)
      → Request
      → (ip code : Text) → Option redis.Store
      → Database amounts
      → client.Remote
      → (RedeemResponse amounts × Database amounts × client.Remote) × Option redis.Store
  unfolding redeem_limited
  redeem redis hash q ip code store db remote =
      let code' = normalize_code code in
      if is_blank code'
      then ((code_required, db, remote), store)
      else let (verdict, store') =
          limit_with redis hash (redeem_rules hash ip q.user (hash (normalize_code code'))) store in
        (redeem_limited hash q code' verdict db remote, store')
