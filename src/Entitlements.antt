-- ===== src/Entitlements.antt =====
-- internal/auth/gateway_entitlements.go: what a user may use at the gateway, by balance or by
-- subscription. Sums of money are the record `Money`, since the program computes with 64-bit floats.
-- Group ids are not negative, and the zero time is 0. The models and capabilities of a group, and
-- its name and description where they are only copied, are left out.
pub mod Statuses
pub mod Listing
pub mod Cache
mod Examples
use brevyn_cloud.Base.{
  ℕ, Bool, true, false, ◌&&◌, ◌||◌, not, Option, none, some, List, [], ◌∷◌, ◌++◌, Text, codes,
  text_eq, is_blank, trim_space, to_lower, map, leb, ltb, ◌+◌, ◌==◌, if◌then◌else◌,
}

-- 64-bit floats, as far as entitlements use them.
pub record Money : Type 1 where
  pub Amount : Type 0
  pub zero : Amount
  pub one : Amount
  pub minus : Amount → Amount → Amount
  pub less : Amount → Amount → Bool
  pub at_most : Amount → Amount → Bool

-- A rune with its simple folding, for a comparison with a text in lower-case ASCII letters.
pub fold_rune : ℕ → ℕ
fold_rune c =
    if leb 65 c && leb c 90
    then c + 32
    else if c == 0x17f
    then 115
    else if c == 0x212a
    then 107
    else c

-- `strings.EqualFold`, where `target` is in lower-case ASCII letters.
unfoldable pub equal_fold : (s target : Text) → Bool
unfolding fold_rune
equal_fold s target = text_eq (map fold_rune s) target

-- `activeStatus`
pub active_status : Text → Bool
active_status value =
    let value' = to_lower (trim_space value) in
    is_blank value' || text_eq value' (codes "active") || text_eq value' (codes "unknown")

pub data SubscriptionType : Type 0 where
  standard subscription : SubscriptionType

abbrev pub is_subscription : SubscriptionType → Bool
is_subscription subscription = true
is_subscription standard = false

-- `normalizeSubscriptionType`
unfoldable pub normalize_subscription_type : Text → SubscriptionType
unfolding equal_fold
normalize_subscription_type value =
    if equal_fold (trim_space value) (codes "subscription") then subscription else standard

-- The statuses of a wallet and of a group; a subscription that is not active shows its own.
pub data EntitlementStatus : Type 0 where
  active inactive_user insufficient_balance inactive_group not_subscribed expired quota_exhausted :
      EntitlementStatus
  subscription_status : Text → EntitlementStatus

pub data WindowName : Type 0 where
  daily weekly monthly : WindowName

module _ (money : Money) where
  -- `gatewayGroupSummary`
  pub record GatewayGroup : Type 0 where
    pub external_group_id : ℕ
    pub subscription_type : Text
    pub rate_multiplier : money.Amount
    pub daily_limit : Option money.Amount
    pub weekly_limit : Option money.Amount
    pub monthly_limit : Option money.Amount
    pub default_validity_days : ℕ
    pub rpm_limit : ℕ
    pub status : Text
    pub source : Text
    pub is_current : Bool

  -- `sub2api.AdminGroup`
  pub record AdminGroup : Type 0 where
    pub id : ℕ
    pub subscription_type : Text
    pub rate_multiplier : money.Amount
    pub daily_limit : Option money.Amount
    pub weekly_limit : Option money.Amount
    pub monthly_limit : Option money.Amount
    pub default_validity_days : ℕ
    pub rpm_limit : ℕ
    pub status : Text

  -- `sub2api.AdminSubscription`
  pub record AdminSubscription : Type 0 where
    pub id : ℕ
    pub group_id : ℕ
    pub group : Option AdminGroup
    pub starts_at : ℕ
    pub expires_at : ℕ
    pub status : Text
    pub daily_usage : money.Amount
    pub weekly_usage : money.Amount
    pub monthly_usage : money.Amount
    pub daily_window_start : Option ℕ
    pub weekly_window_start : Option ℕ
    pub monthly_window_start : Option ℕ

  -- `sub2api.User`
  pub record GatewayUser : Type 0 where
    pub status : Text
    pub balance : money.Amount

  -- `entitlementQuotaWindow`
  pub record QuotaWindow : Type 0 where
    pub limit : money.Amount
    pub used : money.Amount
    pub remaining : money.Amount
    pub window_start : Option ℕ

  -- `balanceGroupEntitlement`
  pub record BalanceGroup : Type 0 where
    pub external_group_id : ℕ
    pub limit : money.Amount
    pub used : money.Amount
    pub remaining : money.Amount
    pub rate_multiplier : money.Amount
    pub status : EntitlementStatus
    pub group_status : Text
    pub source : Text
    pub is_current : Bool

  -- `subscriptionEntitlementStatus`'s five results
  pub record StatusAnswer : Type 0 where
    pub status : EntitlementStatus
    pub remaining : money.Amount
    pub unlimited : Bool
    pub constraining_window : Option WindowName
    pub depleted_window : Option WindowName

  -- What a group gets from its subscription.
  pub record SubscriptionDetail : Type 0 where
    pub subscription_id : ℕ
    pub starts_at : ℕ
    pub expires_at : ℕ
    pub daily_window : Option QuotaWindow
    pub weekly_window : Option QuotaWindow
    pub monthly_window : Option QuotaWindow

  -- `subscriptionGroupEntitlement`; the detail is `none` without a subscription.
  pub record SubscriptionGroup : Type 0 where
    pub external_group_id : ℕ
    pub rate_multiplier : money.Amount
    pub group_status : Text
    pub source : Text
    pub is_current : Bool
    pub default_validity_days : ℕ
    pub answer : StatusAnswer
    pub detail : Option SubscriptionDetail

  -- `defaultRateMultiplier`
  unfoldable pub default_rate_multiplier : money.Amount → money.Amount
  default_rate_multiplier value = if money.at_most value money.zero then money.one else value

  -- `walletStatus`
  unfoldable pub wallet_status : GatewayUser → EntitlementStatus
  wallet_status user =
      if not (active_status user.status)
      then inactive_user
      else if money.at_most user.balance money.zero
      then insufficient_balance
      else active

  -- `balanceGroupStatus`
  pub balance_group_status : GatewayGroup → GatewayUser → EntitlementStatus
  unfolding wallet_status
  balance_group_status group user =
      if not (active_status group.status) then inactive_group else wallet_status user

  -- An amount, or zero if it is below.
  abbrev pub not_negative : money.Amount → money.Amount
  not_negative a = if money.less a money.zero then money.zero else a

  -- `balanceEntitlementLimit`, from the sum of the credits on
  unfoldable pub balance_limit : (credited remaining : money.Amount) → money.Amount
  balance_limit credited remaining = if money.less credited remaining then remaining else credited

  -- `buildBalanceGroupEntitlement`
  unfoldable pub build_balance_group :
      GatewayGroup → GatewayUser → (limit : money.Amount) → BalanceGroup
  unfolding balance_group_status
  build_balance_group group user limit =
      let remaining = not_negative user.balance in
      let limit' = if money.less limit remaining then remaining else limit in
      record {
        external_group_id = group.external_group_id;
        limit = limit';
        used = not_negative (money.minus limit' remaining);
        remaining = remaining;
        rate_multiplier = group.rate_multiplier;
        status = balance_group_status group user;
        group_status = group.status;
        source = group.source;
        is_current = group.is_current;
      }

  -- `buildQuotaWindow`
  pub build_quota_window : Option money.Amount → money.Amount → Option ℕ → Option QuotaWindow
  build_quota_window none used start = none
  build_quota_window (some limit) used start =
      if money.at_most limit money.zero
      then none
      else some (record {
        limit = limit;
        used = used;
        remaining = not_negative (money.minus limit used);
        window_start = start;
      })

  -- `subscriptionDailyLimit` and its two likes: the limit that the subscription's group sets, or
  -- the group's.
  abbrev pub limit_or {ℓ} :
      {A : Type ℓ} → (AdminGroup → Option A) → Option AdminGroup → Option A → Option A
  limit_or field none otherwise = otherwise
  limit_or field (some g) otherwise = elim (field g) [ none ↦ otherwise | some limit ↦ some limit ]

  -- What the loop over the windows has found.
  pub record Scan : Type 0 where
    pub remaining : money.Amount
    pub constraining : Option WindowName
    pub depleted : Option WindowName
    pub limited : Bool

  abbrev pub first_name : Option WindowName → WindowName → Option WindowName
  first_name none name = some name
  first_name (some first) name = some first

  -- One turn of the loop.
  pub scan_window : WindowName → QuotaWindow → Scan → Scan
  scan_window name window s =
      let tighter = not s.limited || money.less window.remaining s.remaining in
      record {
        remaining = if tighter then window.remaining else s.remaining;
        constraining = if tighter then some name else s.constraining;
        depleted =
            if money.at_most window.remaining money.zero
            then first_name s.depleted name
            else s.depleted;
        limited = true;
      }

  -- The loop of `subscriptionEntitlementStatus`
  pub scan_windows : List (WindowName × Option QuotaWindow) → Scan → Scan
  unfolding scan_window
  scan_windows [] s = s
  scan_windows ((name, none) ∷ windows) s = scan_windows windows s
  scan_windows ((name, some window) ∷ windows) s = scan_windows windows (scan_window name window s)

  -- The answers that show nothing of the windows.
  abbrev pub plain_status : EntitlementStatus → Bool → StatusAnswer
  plain_status status unlimited = record {
    status = status;
    remaining = money.zero;
    unlimited = unlimited;
    constraining_window = none;
    depleted_window = none;
  }

  -- … from the end of the loop on
  pub status_of_scan : Scan → StatusAnswer
  status_of_scan s = if not s.limited then plain_status active true else elim s.depleted [
    | some name ↦ record {
      status = quota_exhausted;
      remaining = s.remaining;
      unlimited = false;
      constraining_window = s.constraining;
      depleted_window = some name;
    }
    | none ↦ record {
      status = active;
      remaining = s.remaining;
      unlimited = false;
      constraining_window = s.constraining;
      depleted_window = none;
    }
  ]

  abbrev pub start_scan : Scan
  start_scan = record {
    remaining = money.zero;
    constraining = none;
    depleted = none;
    limited = false;
  }

  -- The subscription's time is over.
  abbrev pub is_over : (now : ℕ) → AdminSubscription → Bool
  is_over now sub = not (sub.expires_at == 0) && leb sub.expires_at now

  -- `subscriptionEntitlementStatus`
  pub subscription_entitlement_status :
      GatewayGroup
      → AdminSubscription
      → (now : ℕ) → List (WindowName × Option QuotaWindow)
      → StatusAnswer
  unfolding status_of_scan scan_windows
  subscription_entitlement_status group sub now windows =
      if not (active_status group.status)
      then plain_status inactive_group false
      else if not (equal_fold (trim_space sub.status) (codes "active"))
      then plain_status (subscription_status (to_lower (trim_space sub.status))) false
      else if is_over now sub
      then plain_status expired false
      else status_of_scan (scan_windows windows start_scan)

abbrev push_rune : ℕ → List Text → List Text
push_rune c [] = (c ∷ []) ∷ []
push_rune c (part ∷ parts) = (c ∷ part) ∷ parts

-- `strings.Split` at a rune
pub split_at : ℕ → Text → List Text
split_at sep [] = [] ∷ []
split_at sep (c ∷ s) = let rest = split_at sep s in if c == sep then [] ∷ rest else push_rune c rest

-- Some part is the source, when trimmed.
abbrev pub has_part : (source : Text) → List Text → Bool
has_part source [] = false
has_part source (part ∷ parts) = text_eq (trim_space part) source || has_part source parts

-- `appendSource`
pub append_source : (current source : Text) → Text
unfolding split_at
append_source current source =
    let current' = trim_space current in
    if is_blank current'
    then source
    else if has_part source (split_at 44 current')
    then current'
    else current' ++ (codes ", " ++ source)

module _ (money : Money) where
  -- `buildSubscriptionGroupEntitlement` for a group with a subscription
  pub detail_of : GatewayGroup money → AdminSubscription money → SubscriptionDetail money
  unfolding build_quota_window
  detail_of group sub = record {
    subscription_id = sub.id;
    starts_at = sub.starts_at;
    expires_at = sub.expires_at;
    daily_window =
        build_quota_window money
          (limit_or money (λ (g : AdminGroup money). g.daily_limit) sub.group group.daily_limit)
          sub.daily_usage sub.daily_window_start;
    weekly_window =
        build_quota_window money
          (limit_or money (λ (g : AdminGroup money). g.weekly_limit) sub.group group.weekly_limit)
          sub.weekly_usage sub.weekly_window_start;
    monthly_window =
        build_quota_window money
          (limit_or money (λ (g : AdminGroup money). g.monthly_limit) sub.group group.monthly_limit)
          sub.monthly_usage sub.monthly_window_start;
  }

  -- The windows in the order of the loop
  abbrev pub windows_of : SubscriptionDetail money → List (WindowName × Option (QuotaWindow money))
  windows_of d =
      (daily, d.daily_window) ∷ (weekly, d.weekly_window) ∷ (monthly, d.monthly_window) ∷ []

  -- `buildSubscriptionGroupEntitlement`
  unfoldable pub build_subscription_group :
      GatewayGroup money → Option (AdminSubscription money) → (now : ℕ) → SubscriptionGroup money
  unfolding detail_of subscription_entitlement_status append_source
  build_subscription_group group sub now = record {
    external_group_id = group.external_group_id;
    rate_multiplier = group.rate_multiplier;
    group_status = group.status;
    source = elim sub [
      | none ↦ group.source
      | some s ↦ append_source group.source (codes "sub2api_subscription")
    ];
    is_current = group.is_current;
    default_validity_days = group.default_validity_days;
    answer = elim sub [
      | none ↦ plain_status money not_subscribed false
      | some s ↦ subscription_entitlement_status money group s now (windows_of (detail_of group s))
    ];
    detail = elim sub [ none ↦ none | some s ↦ some (detail_of group s) ];
  }
