-- ===== src/Redeem.antt =====
-- internal/auth/handler.go, the redemption of a code: the tables `redeem_codes`,
-- `redeem_redemptions` and `wallet_transactions`, and the queue of gateway operations, which one
-- transaction changes together. Amounts are the record `Amounts`, since the program computes with
-- 64-bit floats. A table is a list of rows with the columns that this code reads or writes. Group
-- ids and validities are not negative.
pub mod Outcomes
pub mod Steps
pub mod Once
mod Examples
use brevyn_cloud.Base.{
  ℕ, suc, ◌+◌, Bool, true, false, ◌&&◌, ◌||◌, not, Option, none, some, List, [], ◌∷◌, ◌++◌, Text,
  codes, text_eq, is_blank, trim_space, to_upper, leb, ◌==◌, if◌then◌else◌, find, count_where,
  update_where, coalesce,
}
use brevyn_cloud.Errors.{Info, no_info}
use brevyn_cloud.Operations.{Queue, create_redemption_sync}

-- 64-bit floats, as far as a wallet uses them.
pub record Amounts : Type 1 where
  pub Amount : Type 0
  pub nothing : Amount
  pub plus : Amount → Amount → Amount

-- `redeem_codes.status`; a code that an administrator has disabled is not "unused" either.
pub data CodeStatus : Type 0 where
  unused used disabled : CodeStatus

-- `redeem_codes.kind`
pub data Kind : Type 0 where
  balance subscription : Kind
  unsupported : Text → Kind

-- The gateway operation that a redemption starts with.
pub data GatewayOperation : Type 0 where
  add_balance assign_subscription : GatewayOperation

abbrev pub operation_name : GatewayOperation → Text
operation_name add_balance = codes "add_balance"
operation_name assign_subscription = codes "assign_subscription"

pub data RedemptionStatus : Type 0 where
  pending_gateway synced gateway_failed : RedemptionStatus

module _ (amounts : Amounts) where
  pub record RedeemCode : Type 0 where
    pub id : ℕ
    pub public_id : Text
    pub code_hash : Text
    pub kind : Kind
    pub value : amounts.Amount
    pub status : CodeStatus
    pub expires_at : Option ℕ
    pub product_id : Option ℕ
    pub product_name : Text
    pub batch_id : Option ℕ
    pub external_group_id : ℕ
    pub validity_days : ℕ
    pub used_by_user_id : Option ℕ
    pub used_at : Option ℕ
    pub updated_at : ℕ

  pub record Redemption : Type 0 where
    pub id : ℕ
    pub public_id : Text
    pub redeem_code_id : ℕ
    pub user_id : ℕ
    pub product_id : Option ℕ
    pub batch_id : Option ℕ
    pub kind : Kind
    pub value : amounts.Amount
    pub validity_days : ℕ
    pub external_group_id : ℕ
    pub gateway_operation : Text
    pub external_user_id : ℕ
    pub status : RedemptionStatus
    pub error : Info
    pub idempotency_key : Text
    pub created_at : ℕ

  pub record WalletTransaction : Type 0 where
    pub public_id : Text
    pub user_id : ℕ
    pub amount : amounts.Amount
    pub balance_after : amounts.Amount
    pub reference_id : Text

  pub record Database : Type 0 where
    pub codes : List RedeemCode
    pub redemptions : List Redemption
    pub next_redemption : ℕ
    pub wallet : List WalletTransaction
    pub queue : Queue

  -- `pendingRedemption`
  pub record PendingRedemption : Type 0 where
    pub redemption_db_id : ℕ
    pub redemption_public : Text
    pub operation_public : Text
    pub code_db_id : ℕ
    pub code_public_id : Text
    pub product_db_id : Option ℕ
    pub product_name : Text
    pub batch_db_id : Option ℕ
    pub kind : Kind
    pub value : amounts.Amount
    pub validity_days : ℕ
    pub external_group_id : ℕ
    pub gateway_operation : Text
    pub balance_after : amounts.Amount
    pub created_at : ℕ

  -- `coalesce(sum(amount), 0)` of a user's transactions
  unfoldable pub wallet_balance : ℕ → List WalletTransaction → amounts.Amount
  wallet_balance user [] = amounts.nothing
  wallet_balance user (w ∷ ws) =
      let rest = wallet_balance user ws in
      if w.user_id == user then amounts.plus w.amount rest else rest

-- What the redemption of a code answers when it does not succeed: one of the four errors that
-- `Redeem` tells apart, or any other.
pub data RedeemError : Type 0 where
  code_not_found code_used code_expired code_invalid_state redeem_failed : RedeemError

pub data Redeemed {ℓ} (A : Type ℓ) : Type ℓ where
  refused : RedeemError → Redeemed A
  accepted : A → Redeemed A

-- `normalizeCode`
unfoldable pub normalize_code : Text → Text
normalize_code code = to_upper (trim_space code)

-- What `uuid.NewString()` gives, and the marshalled payload of the operation.
pub record FreshIds : Type 0 where
  pub redemption : Text
  pub transaction : Text
  pub operation : Text
  pub payload : Text

-- `expiresAt.Valid && !expiresAt.Time.After(now)`
abbrev pub is_expired : ℕ → Option ℕ → Bool
is_expired clock none = false
is_expired clock (some t) = leb t clock

abbrev pub is_unused : CodeStatus → Bool
is_unused unused = true
is_unused _ = false

-- The gateway operation that fits a code, once its group is known.
unfoldable pub gateway_operation_for : Kind → (group validity_days : ℕ) → Redeemed GatewayOperation
gateway_operation_for (unsupported kind) group validity_days = refused code_invalid_state
gateway_operation_for balance group validity_days = accepted add_balance
gateway_operation_for subscription group validity_days =
    if group == 0 || validity_days == 0
    then refused code_invalid_state
    else accepted assign_subscription

-- The group of a code, or the default group.
unfoldable pub group_or_default : (default_group group : ℕ) → ℕ
group_or_default default_group group = if group == 0 then default_group else group

module _ (amounts : Amounts) (user : ℕ) (default_group : ℕ) (fresh : FreshIds) (clock now : ℕ) where
  -- The columns that mark a code as used.
  unfoldable pub use_code : RedeemCode amounts → RedeemCode amounts
  use_code c = record c {
    status = used;
    used_by_user_id = some user;
    used_at = some clock;
    updated_at = now;
  }

  abbrev pub is_unused_id : ℕ → RedeemCode amounts → Bool
  is_unused_id id c = c.id == id && is_unused c.status

  unfoldable pub new_redemption :
      RedeemCode amounts → (id group : ℕ) → GatewayOperation → Redemption amounts
  new_redemption c id group operation = record {
    id = id;
    public_id = codes "rr_" ++ fresh.redemption;
    redeem_code_id = c.id;
    user_id = user;
    product_id = c.product_id;
    batch_id = c.batch_id;
    kind = c.kind;
    value = c.value;
    validity_days = c.validity_days;
    external_group_id = group;
    gateway_operation = operation_name operation;
    external_user_id = 0;
    status = pending_gateway;
    error = no_info;
    idempotency_key = codes "redeem:" ++ (codes "rr_" ++ fresh.redemption);
    created_at = now;
  }

  -- The balance after the redemption, which only a balance code reads.
  unfoldable pub balance_after :
      Kind → amounts.Amount → List (WalletTransaction amounts) → amounts.Amount
  balance_after balance value wallet = amounts.plus (wallet_balance amounts user wallet) value
  balance_after _ value wallet = amounts.nothing

  -- The wallet after the redemption, to which only a balance code adds.
  unfoldable pub credit :
      Kind
      → (value after : amounts.Amount) → List (WalletTransaction amounts)
      → List (WalletTransaction amounts)
  credit balance value after wallet =
      record {
        public_id = codes "wtx_" ++ fresh.transaction;
        user_id = user;
        amount = value;
        balance_after = after;
        reference_id = codes "rr_" ++ fresh.redemption;
      }
      ∷ wallet
  credit _ value after wallet = wallet

  -- The unique columns of a new redemption are taken.
  abbrev pub is_redemption_of : Redemption amounts → Redemption amounts → Bool
  is_redemption_of new r =
      r.redeem_code_id == new.redeem_code_id || text_eq r.public_id new.public_id

  -- `markRedeemedLocally` from the operation of the queue on: where it fails, nothing is committed.
  unfoldable pub commit_redemption :
      Database amounts
      → RedeemCode amounts
      → Redemption amounts
      → Option Text × Queue
      → Redeemed (PendingRedemption amounts) × Database amounts
  commit_redemption db c r (none, queue) = (refused redeem_failed, db)
  commit_redemption db c r (some operation, queue) =
      let after = balance_after c.kind c.value db.wallet in
      (
        accepted (record {
          redemption_db_id = r.id;
          redemption_public = r.public_id;
          operation_public = operation;
          code_db_id = c.id;
          code_public_id = c.public_id;
          product_db_id = c.product_id;
          product_name = c.product_name;
          batch_db_id = c.batch_id;
          kind = c.kind;
          value = c.value;
          validity_days = c.validity_days;
          external_group_id = r.external_group_id;
          gateway_operation = r.gateway_operation;
          balance_after = after;
          created_at = r.created_at;
        }),
        record {
          codes = update_where (is_unused_id c.id) use_code db.codes;
          redemptions = db.redemptions ++ (r ∷ []);
          next_redemption = suc db.next_redemption;
          wallet = credit c.kind c.value after db.wallet;
          queue = queue;
        },
      )

  -- … from the insert of the redemption on.
  unfoldable pub record_redemption :
      Database amounts
      → RedeemCode amounts
      → Redemption amounts
      → Redeemed (PendingRedemption amounts) × Database amounts
  unfolding commit_redemption
  record_redemption db c r = elim (find (is_redemption_of r) db.redemptions) [
    | some taken ↦ (refused code_used, db)
    | none ↦ commit_redemption db c r (
        create_redemption_sync (codes "gop_" ++ fresh.operation) fresh.payload r.id r.public_id user
          now db.queue)
  ]

  -- … from the row of the code on. The update of the unused code must change one row.
  unfoldable pub redeem_row :
      Database amounts
      → RedeemCode amounts
      → Redeemed (PendingRedemption amounts) × Database amounts
  unfolding record_redemption gateway_operation_for group_or_default
  redeem_row db c =
      if not (is_unused c.status)
      then (refused code_used, db)
      else if is_expired clock c.expires_at
      then (refused code_expired, db)
      else let group = group_or_default default_group c.external_group_id in
        elim (gateway_operation_for c.kind group c.validity_days) [
          | refused e ↦ (refused e, db)
          | accepted operation ↦
              if not (count_where (is_unused_id c.id) db.codes == 1)
              then (refused code_used, db)
              else record_redemption db c (new_redemption c db.next_redemption group operation)
        ]

  -- `markRedeemedLocally`; `hash` is `sha256` in hexadecimal.
  unfoldable pub mark_redeemed_locally :
      (hash : Text → Text) (code : Text)
      → Database amounts
      → Redeemed (PendingRedemption amounts) × Database amounts
  unfolding redeem_row
  mark_redeemed_locally hash code db =
      elim (find (λ (c : RedeemCode amounts). text_eq c.code_hash (hash (normalize_code code)))
        db.codes) [ none ↦ (refused code_not_found, db) | some c ↦ redeem_row db c ]

abbrev pub is_batch : ℕ → Option ℕ → Bool
is_batch batch none = false
is_batch batch (some b) = b == batch

module _ (amounts : Amounts) (now : ℕ) where
  -- The columns that a disabled code gets.
  pub disable : RedeemCode amounts → RedeemCode amounts
  disable c = record c { status = disabled; updated_at = now }

  -- The update of `DisableRedeemCode`
  pub disable_code : (public_id : Text) → Database amounts → Database amounts
  unfolding disable
  disable_code public_id db = record db {
    codes =
        update_where
          (λ (c : RedeemCode amounts).
            text_eq c.public_id (trim_space public_id) && is_unused c.status)
          disable db.codes;
  }

  -- The update of `DisableRedeemBatch`
  pub disable_batch : (batch : ℕ) → Database amounts → Database amounts
  unfolding disable
  disable_batch batch db = record db {
    codes =
        update_where (λ (c : RedeemCode amounts). is_batch batch c.batch_id && is_unused c.status)
          disable db.codes;
  }
