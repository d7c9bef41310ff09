-- ===== src/Entitlements/Examples.antt =====
-- Groups, subscriptions and a cache, and the theorems at concrete inputs.
use brevyn_cloud.Base.{
  ℕ, ◌-◌, ◌≡◌, refl, Bool, true, false, ◌||◌, not, Option, none, some, List, [], ◌∷◌, Text, codes,
  text_eq, text_eq_refl, arith, ltb, leb, if◌then◌else◌,
}
use brevyn_cloud.Entitlements.{
  Money, GatewayGroup, AdminGroup, AdminSubscription, GatewayUser, QuotaWindow, WindowName, daily,
  weekly, monthly, subscription_entitlement_status,
}
use brevyn_cloud.Entitlements.Statuses.{
  MoneyValid, IsStatus, subscription_entitlement_status-IsStatus,
}
use brevyn_cloud.Entitlements.Listing.{
  active_subscriptions_by_group, merge_subscription_groups, sort_groups, entitle, seen_groups,
}
use brevyn_cloud.Entitlements.Listing.Latest.{IsShown, active_subscriptions_by_group-IsShown}
use brevyn_cloud.Entitlements.Listing.Once.{listings, one_if, is_brought, entitle-merge-occurrences}
use brevyn_cloud.Entitlements.Cache.{
  Response, CacheStore, loaded_answer, gateway_entitlements, invalidate_gateway_entitlements_cache,
}
use brevyn_cloud.Entitlements.Cache.Stale.{CacheValid, HasBody, after_failures, serves_stale}
use brevyn_cloud.Entitlements.Cache.Invalidated.{after_invalidation, serves_nothing_old}

-- Money in whole cents
abbrev cents : Money
cents = record { Amount = ℕ; zero = 0; one = 100; minus = λ a b. a - b; less = ltb; at_most = leb }

cents_valid : MoneyValid cents
cents_valid = record {
  less_is = λ a b. ground arith;
  at_most_trans = λ a b c h k. ground (arith, h, k);
  at_most_total = λ a b h. ground (arith, h);
}

abbrev pro_group : AdminGroup cents
pro_group = record {
  id = 4;
  subscription_type = codes "Subscription";
  rate_multiplier = 0;
  daily_limit = some 500;
  weekly_limit = none;
  monthly_limit = some 900;
  default_validity_days = 30;
  rpm_limit = 0;
  status = codes "active";
}

abbrev pro : AdminSubscription cents
pro = record {
  id = 1;
  group_id = 4;
  group = some pro_group;
  starts_at = 0;
  expires_at = 900;
  status = codes "active";
  daily_usage = 500;
  weekly_usage = 0;
  monthly_usage = 600;
  daily_window_start = none;
  weekly_window_start = none;
  monthly_window_start = none;
}

abbrev pro_later : AdminSubscription cents
pro_later = record pro { id = 2; expires_at = 950 }

abbrev base_group : GatewayGroup cents
base_group = record {
  external_group_id = 3;
  subscription_type = codes "standard";
  rate_multiplier = 100;
  daily_limit = none;
  weekly_limit = none;
  monthly_limit = none;
  default_validity_days = 0;
  rpm_limit = 0;
  status = codes "active";
  source = codes "default";
  is_current = true;
}

abbrev user : GatewayUser cents
user = record { status = codes "active"; balance = 250 }

active_subscriptions_by_group-IsShown_example :
    IsShown cents 4 refl
      (pro ∷ pro_later ∷ [])
      (active_subscriptions_by_group cents (pro ∷ pro_later ∷ []) 4)
active_subscriptions_by_group-IsShown_example =
    active_subscriptions_by_group-IsShown cents 4 refl (pro ∷ pro_later ∷ [])

entitle-merge-occurrences_example :
    listings cents 4 (
      entitle cents (active_subscriptions_by_group cents (pro ∷ pro_later ∷ [])) user 300 100 (
        sort_groups cents 3
          (merge_subscription_groups cents (base_group ∷ []) (pro ∷ pro_later ∷ []) 3)))
    ≡ one_if cents
        (seen_groups cents (base_group ∷ []) 4 || is_brought cents 4 (pro ∷ pro_later ∷ []))
entitle-merge-occurrences_example =
    entitle-merge-occurrences cents (base_group ∷ []) (pro ∷ pro_later ∷ [])
      (active_subscriptions_by_group cents (pro ∷ pro_later ∷ [])) user 300 100 3
      (λ id. ground arith) (refl, (refl, tt)) 4

abbrev pro_windows : List (WindowName × Option (QuotaWindow cents))
pro_windows =
    (daily, some (record { limit = 500; used = 500; remaining = 0; window_start = none }))
    ∷ (weekly, none)
    ∷ (monthly, some (record { limit = 900; used = 600; remaining = 300; window_start = none }))
    ∷ []

subscription_entitlement_status-IsStatus_example :
    IsStatus cents base_group pro 100 pro_windows
      (subscription_entitlement_status cents base_group pro 100 pro_windows)
subscription_entitlement_status-IsStatus_example =
    subscription_entitlement_status-IsStatus cents cents_valid base_group pro 100 pro_windows

abbrev is_one_of : List Text → Text → Bool
is_one_of [] key = false
is_one_of (k ∷ keys) key = text_eq k key || is_one_of keys key

-- A cache whose keys never expire, with the keys that `SetNX` has set.
abbrev cache : CacheStore ℕ
cache = record {
  Store = (Text → Option (Response ℕ)) × (Text → Bool);
  get = λ key s. s.0 key;
  set = λ key r ttl s. (true, ((λ other. if text_eq key other then some r else s.0 other), s.1));
  set_nx = λ key ttl s. (some (not (s.1 key)), (s.0, (λ other. text_eq key other || s.1 other)));
  ttl = λ key s. some 20;
  del = λ keys s.
      (true, ((λ other. if is_one_of keys other then none else s.0 other), (λ other. false)));
}

cache_valid : CacheValid cache
cache_valid = record {
  get_set = λ key r ttl s h. rw (text_eq_refl key) refl;
  get_set_other = λ key other r ttl s h. rw h refl;
  get_set_nx = λ key other ttl s h. refl;
  get_del = λ a b c s h. (rw (text_eq_refl a) refl, ground (arith, text_eq_refl b));
}

abbrev empty_store : (Text → Option (Response ℕ)) × (Text → Bool)
empty_store = ((λ key. none), (λ key. false))

abbrev response : Response ℕ
response = record { body = 42; stale = false; refresh_limited = false; next_refresh_after = 0 }

serves_stale_example :
    HasBody cache cache_valid 7 42
      (gateway_entitlements cache 7 (codes "yes") none (
        some (
          after_failures cache cache_valid 7
            (codes "" ∷ codes "1" ∷ [])
            (loaded_answer cache 7 (some response) empty_store).1))).0
serves_stale_example =
    serves_stale cache cache_valid 7 response empty_store (codes "" ∷ codes "1" ∷ []) (codes "yes")
      (refl, refl)

serves_nothing_old_example :
    (gateway_entitlements cache 7 (codes "") none (
      after_invalidation cache cache_valid 7 (codes "yes" ∷ []) (
        invalidate_gateway_entitlements_cache cache 7
          (some (loaded_answer cache 7 (some response) empty_store).1)))).0
    ≡ none
serves_nothing_old_example =
    serves_nothing_old cache cache_valid 7 (loaded_answer cache 7 (some response) empty_store).1
      (codes "yes" ∷ []) (codes "") refl
