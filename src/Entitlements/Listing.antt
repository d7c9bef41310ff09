-- ===== src/Entitlements/Listing.antt =====
-- internal/auth/gateway_entitlements.go, `loadGatewayEntitlements`: the groups of a user, with those
-- that only a subscription gives, in order, and what is listed for each.
pub mod Once
pub mod Latest
use brevyn_cloud.Base.{
  ℕ, Bool, true, false, ◌&&◌, ◌||◌, not, Option, none, some, List, [], ◌∷◌, ◌++◌, Text, codes, ltb,
  ◌+◌, ◌==◌, if◌then◌else◌, ◌>>=◌,
}
use brevyn_cloud.Entitlements.{
  Money, GatewayGroup, AdminGroup, AdminSubscription, GatewayUser, BalanceGroup, SubscriptionGroup,
  SubscriptionType, is_subscription, normalize_subscription_type, EntitlementStatus, active,
  default_rate_multiplier, wallet_status, balance_limit, build_balance_group,
  build_subscription_group,
}

module _ (money : Money) where
  -- `gatewayGroupFromSub2`
  pub gateway_group_from_sub2 : AdminGroup money → (current : ℕ) → GatewayGroup money
  unfolding default_rate_multiplier
  gateway_group_from_sub2 g current = record {
    external_group_id = g.id;
    subscription_type = g.subscription_type;
    rate_multiplier = default_rate_multiplier money g.rate_multiplier;
    daily_limit = g.daily_limit;
    weekly_limit = g.weekly_limit;
    monthly_limit = g.monthly_limit;
    default_validity_days = g.default_validity_days;
    rpm_limit = g.rpm_limit;
    status = g.status;
    source = codes "sub2api_subscription";
    is_current = g.id == current;
  }

  -- The group that a subscription adds to those that are seen, if any.
  pub added_group : (seen : ℕ → Bool) → AdminSubscription money → Option (AdminGroup money)
  unfolding normalize_subscription_type
  added_group seen sub = if sub.group_id == 0 || seen sub.group_id then none else elim sub.group [
    | none ↦ none
    | some g ↦
        if is_subscription (normalize_subscription_type g.subscription_type) then some g else none
  ]

  abbrev pub see : ℕ → (ℕ → Bool) → ℕ → Bool
  see id seen other = if other == id then true else seen other

  -- The second loop of `mergeSubscriptionGroups`
  pub merge_from :
      (current : ℕ) (seen : ℕ → Bool)
      → List (AdminSubscription money)
      → List (GatewayGroup money)
      → List (GatewayGroup money)
  unfolding added_group gateway_group_from_sub2
  merge_from current seen [] groups = groups
  merge_from current seen (sub ∷ subscriptions) groups = elim (added_group seen sub) [
    | none ↦ merge_from current seen subscriptions groups
    | some g ↦
        merge_from current (see sub.group_id seen) subscriptions
          (groups ++ (gateway_group_from_sub2 g current ∷ []))
  ]

  -- The first: what is seen in the groups
  pub seen_groups : List (GatewayGroup money) → ℕ → Bool
  seen_groups [] id = false
  seen_groups (g ∷ groups) id = see g.external_group_id (seen_groups groups) id

  -- `mergeSubscriptionGroups`
  pub merge_subscription_groups :
      List (GatewayGroup money)
      → List (AdminSubscription money)
      → (current : ℕ) → List (GatewayGroup money)
  unfolding merge_from seen_groups
  merge_subscription_groups groups subscriptions current =
      merge_from current (seen_groups groups) subscriptions groups

  -- The subscription takes the place of the one that is there.
  abbrev pub ends_later : AdminSubscription money → Option (AdminSubscription money) → Bool
  ends_later sub none = true
  ends_later sub (some existing) = ltb existing.expires_at sub.expires_at

  -- One turn of the loop of `activeSubscriptionsByGroup`; the map is a function.
  pub put_subscription :
      AdminSubscription money
      → (ℕ → Option (AdminSubscription money))
      → ℕ
      → Option (AdminSubscription money)
  put_subscription sub out group =
      if not (sub.group_id == 0) && ends_later sub (out sub.group_id) && group == sub.group_id
      then some sub
      else out group

  -- `activeSubscriptionsByGroup`
  pub subscriptions_from :
      List (AdminSubscription money)
      → (ℕ → Option (AdminSubscription money))
      → ℕ
      → Option (AdminSubscription money)
  unfolding put_subscription
  subscriptions_from [] out = out
  subscriptions_from (sub ∷ subscriptions) out =
      subscriptions_from subscriptions (put_subscription sub out)

  pub active_subscriptions_by_group :
      List (AdminSubscription money) → ℕ → Option (AdminSubscription money)
  unfolding subscriptions_from
  active_subscriptions_by_group subscriptions = subscriptions_from subscriptions (λ group. none)

  -- `entitlementSubscriptionType`
  pub entitlement_subscription_type :
      GatewayGroup money → Option (AdminSubscription money) → SubscriptionType
  unfolding normalize_subscription_type
  entitlement_subscription_type group none = normalize_subscription_type group.subscription_type
  entitlement_subscription_type group (some sub) = elim sub.group [
    | none ↦ normalize_subscription_type group.subscription_type
    | some g ↦ normalize_subscription_type g.subscription_type
  ]

  -- The order of `slices.SortFunc`: the current group, then by id. `a` goes before `b`.
  abbrev pub goes_before : (current : ℕ) → (a b : GatewayGroup money) → Bool
  goes_before current a b =
      if a.external_group_id == current
      then not (b.external_group_id == current)
      else if b.external_group_id == current
      then false
      else ltb a.external_group_id b.external_group_id

  pub insert_group :
      (current : ℕ) → GatewayGroup money → List (GatewayGroup money) → List (GatewayGroup money)
  insert_group current g [] = g ∷ []
  insert_group current g (x ∷ groups) =
      let rest = insert_group current g groups in
      if goes_before current x g then x ∷ rest else g ∷ (x ∷ groups)

  -- `slices.SortFunc` with this order; groups with one id do not occur twice.
  pub sort_groups : (current : ℕ) → List (GatewayGroup money) → List (GatewayGroup money)
  unfolding insert_group
  sort_groups current [] = []
  sort_groups current (g ∷ groups) = insert_group current g (sort_groups current groups)

  -- The entitlements by balance and by subscription.
  pub record GroupLists : Type 0 where
    pub balance_groups : List (BalanceGroup money)
    pub subscription_groups : List (SubscriptionGroup money)

  -- The last loop of `loadGatewayEntitlements`
  pub entitle :
      (ℕ → Option (AdminSubscription money))
      → GatewayUser money
      → (limit : money.Amount) (now : ℕ) → List (GatewayGroup money)
      → GroupLists
  unfolding build_subscription_group build_balance_group entitlement_subscription_type
  entitle by_group user limit now [] = record { balance_groups = []; subscription_groups = [] }
  entitle by_group user limit now (g ∷ groups) =
      let rest = entitle by_group user limit now groups in
      let sub = by_group g.external_group_id in
      if is_subscription (entitlement_subscription_type g sub)
      then record rest {
        subscription_groups = build_subscription_group money g sub now ∷ rest.subscription_groups;
      }
      else record rest {
        balance_groups = build_balance_group money g user limit ∷ rest.balance_groups;
      }

  -- `gatewayEntitlementsResponse`; `wallet` is what the user has left, with its status.
  pub record Entitlements : Type 0 where
    pub external_user_id : ℕ
    pub wallet : money.Amount
    pub status : EntitlementStatus
    pub unlinked : Bool
    pub groups : GroupLists
    pub updated_at : ℕ

  -- What `loadGatewayEntitlements` asks for: the account with its default group, the groups of
  -- `userGatewayGroups`, whether the settings, the models and the capabilities are there, the user,
  -- the credits of the wallet and the active subscriptions. `none` is an error; an account that is
  -- missing is user 0.
  pub record Sources : Type 0 where
    pub account : Option (ℕ × ℕ)
    pub groups : Option (List (GatewayGroup money))
    pub settings : Option (Unit {0})
    pub user : Option (GatewayUser money)
    pub credited : Option money.Amount
    pub subscriptions : Option (List (AdminSubscription money))
    pub models : Option (Unit {0})

  -- `loadGatewayEntitlements` of a user who has an account
  pub load_linked : (now external_user current : ℕ) → Sources → Option Entitlements
  unfolding entitle merge_subscription_groups sort_groups active_subscriptions_by_group
      balance_limit wallet_status
  load_linked now external_user current sources = do
    groups ← sources.groups
    settings ← sources.settings
    user ← sources.user
    credited ← sources.credited
    subscriptions ← sources.subscriptions
    models ← sources.models
    some (record {
      external_user_id = external_user;
      wallet = user.balance;
      status = wallet_status money user;
      unlinked = false;
      groups =
          entitle (active_subscriptions_by_group subscriptions) user
            (balance_limit money credited user.balance) now
            (sort_groups current (merge_subscription_groups groups subscriptions current));
      updated_at = now;
    })

  -- The entitlements without an account; the status `gateway_unlinked` stands in `unlinked`.
  abbrev pub unlinked_entitlements : (now : ℕ) → Entitlements
  unlinked_entitlements now = record {
    external_user_id = 0;
    wallet = money.zero;
    status = active;
    unlinked = true;
    groups = record { balance_groups = []; subscription_groups = [] };
    updated_at = now;
  }

  -- `loadGatewayEntitlements`
  pub load_gateway_entitlements : (now : ℕ) → Sources → Option Entitlements
  unfolding load_linked
  load_gateway_entitlements now sources = elim sources.account [
    | none ↦ none
    | some (external_user, current) ↦
        if external_user == 0
        then some (unlinked_entitlements now)
        else load_linked now external_user current sources
  ]
