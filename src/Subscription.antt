-- ===== src/Subscription.antt =====
-- internal/redeem/gateway_sync_service.go: how a redemption reaches the gateway. The gateway's
-- client is the record `Client`, an error of a call is an `Err`, and the zero time is 0, which is
-- before every other time.
pub mod Latest
pub mod Resync
pub mod Staged
mod Examples
use brevyn_cloud.Base.{
  ℕ, Bool, true, false, ◌&&◌, ◌||◌, not, Option, none, some, List, [], ◌∷◌, ◌++◌, Text, codes,
  text_eq, is_blank, trim_space, to_lower, contains, find, ltb, leb, ◌==◌, if◌then◌else◌,
}
use brevyn_cloud.Errors.{Err, plain, with_stage}
use brevyn_cloud.Redeem.{Amounts, Kind, balance, subscription, unsupported}

-- `sub2api.AdminSubscription`, the fields that are read here
pub record Subscription : Type 0 where
  pub id : ℕ
  pub expires_at : ℕ
  pub status : Text
  pub notes : Text

pub data Reply {ℓ} (A : Type ℓ) : Type ℓ where
  ok : A → Reply A
  error : Err → Reply A

-- The calls of `sub2api.Client`, on a gateway whose state is `Remote`; the answer `none` is no
-- error. `list` asks for the subscriptions of a user to a group, `extend` for a subscription, days
-- and the idempotency key, `assign` also for a user, a group and notes.
pub record Client (amounts : Amounts) : Type 1 where
  pub Remote : Type 0
  pub list : (user group : ℕ) → Remote → Reply (List Subscription)
  pub extend : (id days : ℕ) (key : Text) → Remote → Option Err × Remote
  pub assign : (user group days : ℕ) (notes key : Text) → Remote → Option Err × Remote
  pub add_balance :
      (user : ℕ) (value : amounts.Amount) (notes key : Text) → Remote → Option Err × Remote

-- `renewableSub2APISubscription`
pub is_renewable : (now : ℕ) → Subscription → Bool
is_renewable now s =
    let status = to_lower (trim_space s.status) in
    (is_blank status || text_eq status (codes "active"))
    && (s.expires_at == 0 || ltb now s.expires_at)

-- `subscription` takes the place of `latest`.
abbrev pub is_later : (s latest : Subscription) → Bool
is_later s latest =
    ltb latest.expires_at s.expires_at || s.expires_at == latest.expires_at && ltb latest.id s.id

-- One turn of the loop.
pub keep_later : (now : ℕ) → Subscription → Option Subscription → Option Subscription
unfolding is_renewable
keep_later now s none = if is_renewable now s then some s else none
keep_later now s (some latest) =
    if is_renewable now s && is_later s latest then some s else some latest

-- `latestRenewableSub2APISubscription`; `best` is what the loop has found so far.
pub latest_from : (now : ℕ) → List Subscription → Option Subscription → Option Subscription
unfolding keep_later
latest_from now [] best = best
latest_from now (s ∷ subscriptions) best = latest_from now subscriptions (keep_later now s best)

pub latest_renewable : (now : ℕ) → List Subscription → Option Subscription
unfolding latest_from
latest_renewable now subscriptions = latest_from now subscriptions none

-- `findSubscriptionAppliedByRedemption`
pub find_applied : (public_id : Text) → List Subscription → Option Subscription
find_applied public_id subscriptions =
    if is_blank (trim_space public_id)
    then none
    else find (λ (s : Subscription). contains s.notes (trim_space public_id)) subscriptions

-- The operations that the sync reports.
pub data SyncOperation : Type 0 where
  lookup_subscription assign_subscription extend_subscription add_balance : SyncOperation

abbrev pub retry_notes : Text → Text
retry_notes public_id = codes "Brevyn retry " ++ public_id

-- What `SyncTargetToSub2API` refuses before it calls the gateway.
unfoldable pub check_target : Kind → (group days : ℕ) → Option Err
check_target balance group days = none
check_target subscription group days =
    if group == 0 || leb days 0
    then some (plain (codes "subscription redemption is missing group or validity"))
    else none
check_target (unsupported kind) group days = some (plain (codes "unsupported redeem kind " ++ kind))

module _ (amounts : Amounts) (client : Client amounts) where
  -- What a call of the client answers, with the operation that made it.
  abbrev pub reports :
      SyncOperation → Option Err × client.Remote → (SyncOperation × Option Err) × client.Remote
  reports operation (e, remote) = ((operation, e), remote)

  -- `syncSub2APISubscription` from the listing on
  pub renew_or_assign :
      (now user group days : ℕ) (public_id key : Text)
      → Reply (List Subscription)
      → client.Remote
      → (SyncOperation × Option Err) × client.Remote
  unfolding find_applied latest_renewable
  renew_or_assign now user group days public_id key (error e) remote =
      ((lookup_subscription, some e), remote)
  renew_or_assign now user group days public_id key (ok subscriptions) remote =
      elim (find_applied public_id subscriptions) [
        | some applied ↦ ((assign_subscription, none), remote)
        | none ↦ elim (latest_renewable now subscriptions) [
          | some s ↦ reports extend_subscription (client.extend s.id days key remote)
          | none ↦
              reports assign_subscription
                (client.assign user group days (retry_notes public_id) key remote)
        ]
      ]

  -- `syncSub2APISubscription`
  pub sync_subscription :
      (now user group days : ℕ) (public_id key : Text)
      → client.Remote
      → (SyncOperation × Option Err) × client.Remote
  unfolding renew_or_assign
  sync_subscription now user group days public_id key remote =
      renew_or_assign now user group days public_id key (client.list user group remote) remote

  -- The `switch` of `SyncTargetToSub2API` on the kind; other kinds are refused before.
  unfoldable pub sync_kind :
      Kind
      → (now user group days : ℕ) (value : amounts.Amount) (public_id : Text) → client.Remote
      → (SyncOperation × Option Err) × client.Remote
  unfolding sync_subscription
  sync_kind subscription now user group days value public_id remote =
      sync_subscription now user group days public_id (codes "brevyn-" ++ public_id) remote
  sync_kind _ now user group days value public_id remote =
      reports add_balance (
        client.add_balance user value (retry_notes public_id) (codes "brevyn-" ++ public_id) remote)

abbrev pub default_operation : Kind → Text
default_operation balance = codes "add_balance"
default_operation subscription = codes "assign_subscription"
default_operation (unsupported kind) = codes "gateway"

-- `normalizedGatewayOperation`
unfoldable pub normalized_operation : (gateway_operation : Text) → Kind → Text
normalized_operation gateway_operation kind =
    let operation = trim_space gateway_operation in
    if is_blank operation then default_operation kind else operation

abbrev pub operation_text : SyncOperation → Text
operation_text lookup_subscription = codes "lookup_subscription"
operation_text assign_subscription = codes "assign_subscription"
operation_text extend_subscription = codes "extend_subscription"
operation_text add_balance = codes "add_balance"

-- What `SyncTargetToSub2API` answers: the gateway's user, if it is known, the operation, and the
-- error.
pub record SyncAnswer : Type 0 where
  pub account : Option ℕ
  pub operation : Text
  pub failure : Option Err

-- `SyncTarget`, the fields that are read here
pub record SyncTarget (amounts : Amounts) : Type 0 where
  pub public_id : Text
  pub kind : Kind
  pub value : amounts.Amount
  pub validity_days : ℕ
  pub external_group_id : ℕ
  pub gateway_operation : Text

module _ (amounts : Amounts) (client : Client amounts) (now : ℕ) where
  -- `SyncTargetToSub2API` from the answer of the gateway on
  unfoldable pub finish_sync :
      (account : ℕ) → (SyncOperation × Option Err) × client.Remote → SyncAnswer × client.Remote
  finish_sync account ((operation, e), remote) = (
    record {
      account = some account;
      operation = operation_text operation;
      failure = with_stage (operation_text operation) e;
    },
    remote,
  )

  -- … from the gateway's account on
  unfoldable pub sync_account :
      SyncTarget amounts → Reply ℕ × client.Remote → SyncAnswer × client.Remote
  unfolding finish_sync normalized_operation
  sync_account target (error e, remote) = (
    record {
      account = none;
      operation = normalized_operation target.gateway_operation target.kind;
      failure = with_stage (codes "ensure_user") (some e);
    },
    remote,
  )
  sync_account target (ok account, remote) = finish_sync account (
      sync_kind amounts client target.kind now account target.external_group_id target.validity_days
        target.value target.public_id remote)

  -- `SyncTargetToSub2API`; `settings` is the error of `LoadSub2APISettings`, if any, and
  -- `ensure_account` is `EnsureSub2APIAccountForGroup` of the target's user and group.
  unfoldable pub sync_target :
      (settings : Option Err) (ensure_account : client.Remote → Reply ℕ × client.Remote)
      → SyncTarget amounts
      → client.Remote
      → SyncAnswer × client.Remote
  unfolding sync_account normalized_operation
  sync_target settings ensure_account target remote =
      let operation = normalized_operation target.gateway_operation target.kind in
      elim (check_target target.kind target.external_group_id target.validity_days) [
        | some e ↦ (record { account = none; operation = operation; failure = some e }, remote)
        | none ↦ elim settings [
          | some e ↦ (
            record {
              account = none;
              operation = operation;
              failure = with_stage (codes "settings") (some e);
            },
            remote,
          )
          | none ↦ sync_account target (ensure_account remote)
        ]
      ]
