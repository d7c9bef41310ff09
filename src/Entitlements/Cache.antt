-- ===== src/Entitlements/Cache.antt =====
-- internal/auth/gateway_entitlements.go, `GatewayEntitlements`: the cache of a user's entitlements in
-- Redis. A response that is cached is read back as it was, which leaves out JSON. A request of which
-- the cache is off has no store. One request is one function, so what others do to the store between
-- its load and its `SET` is left out, and with it `entitlementOnce`, by which requests share a load
-- that is under way.
pub mod Stale
pub mod Invalidated
use brevyn_cloud.Base.{
  ℕ, Bool, true, false, ◌||◌, not, Option, none, some, List, [], ◌∷◌, ◌++◌, Text, codes, text_eq,
  trim_space, to_lower, itoa, leb, ltb, ◌+◌, ◌*◌, ◌-◌, ◌/◌, ◌%◌, ◌==◌, if◌then◌else◌,
}
use brevyn_cloud.Operations.{second, minute}

-- `gatewayEntitlementsResponse`, with the flags that the handler sets
pub record Response (A : Type 0) : Type 0 where
  pub body : A
  pub stale : Bool
  pub refresh_limited : Bool
  pub next_refresh_after : ℕ

-- The commands of Redis that the handler uses: `get` answers `none` for a missing key, for an error
-- and for a value that does not decode; `set_nx` says if the key was set, `none` is an error; `set`
-- and `del` say if they succeeded, which the handler does not look at.
pub record CacheStore (A : Type 0) : Type 1 where
  pub Store : Type 0
  pub get : (key : Text) → Store → Option (Response A)
  pub set : (key : Text) → Response A → (ttl : ℕ) → Store → Bool × Store
  pub set_nx : (key : Text) → (ttl : ℕ) → Store → Option Bool × Store
  pub ttl : (key : Text) → Store → Option ℕ
  pub del : List Text → Store → Bool × Store

-- `gatewayEntitlementsCacheTTL` and the other two
abbrev pub cache_ttl : ℕ
cache_ttl = 30 * second

abbrev pub stale_cache_ttl : ℕ
stale_cache_ttl = 10 * minute

abbrev pub force_ttl : ℕ
force_ttl = 30 * second

-- `gatewayEntitlementsTTL`
pub entitlements_ttl : (user : ℕ) → ℕ
entitlements_ttl user = cache_ttl + user % 15 * second

-- `gatewayEntitlementsCacheKey` and the other two
abbrev pub cache_key : ℕ → Text
cache_key user = codes "brevyn:gateway-entitlements:" ++ itoa user

abbrev pub stale_key : ℕ → Text
stale_key user = codes "brevyn:gateway-entitlements:stale:" ++ itoa user

abbrev pub force_key : ℕ → Text
force_key user = codes "brevyn:gateway-entitlements:force:" ++ itoa user

-- `truthy`
pub truthy : Text → Bool
truthy value =
    let value' = to_lower (trim_space value) in
    text_eq value' (codes "1")
    || text_eq value' (codes "true")
    || text_eq value' (codes "yes")
    || text_eq value' (codes "y")
    || text_eq value' (codes "on")

-- The seconds of `markRefreshLimited`
pub refresh_seconds : (retry_after : ℕ) → ℕ
refresh_seconds retry_after =
    let seconds = (retry_after + second - 1) / second in if ltb seconds 1 then 1 else seconds

module _ {A : Type 0} where
  -- `markRefreshLimited`
  pub mark_refresh_limited : Response A → (retry_after : ℕ) → Response A
  unfolding refresh_seconds
  mark_refresh_limited r retry_after = record r {
    refresh_limited = true;
    next_refresh_after = refresh_seconds retry_after;
  }

  abbrev pub mark_stale : Response A → Response A
  mark_stale r = record r { stale = true }

module _ {A : Type 0} (cache : CacheStore A) (user : ℕ) where
  -- What is left to wait, by the answer of `TTL`
  abbrev pub wait_of : Option ℕ → ℕ
  wait_of none = force_ttl
  wait_of (some t) = if t == 0 then force_ttl else t

  -- `gatewayEntitlementsForceLimited` from the answer of `SetNX` on
  pub force_limited : Option Bool × cache.Store → Option ℕ × cache.Store
  force_limited (some false, s) = (some (wait_of (cache.ttl (force_key user) s)), s)
  force_limited (_, s) = (none, s)

  -- The answer to a refresh that is limited, if there is something in the cache.
  pub limited_answer : (retry_after : ℕ) → cache.Store → Option (Response A)
  limited_answer retry_after s = elim (cache.get (cache_key user) s) [
    | some r ↦ some (mark_refresh_limited r retry_after)
    | none ↦ elim (cache.get (stale_key user) s) [
      | some r ↦ some (mark_refresh_limited (mark_stale r) retry_after)
      | none ↦ none
    ]
  ]

  -- The answer before anything is loaded, if there is one.
  pub cached_answer : (force : Bool) → cache.Store → Option (Response A) × cache.Store
  unfolding force_limited limited_answer
  cached_answer false s = (cache.get (cache_key user) s, s)
  cached_answer true s =
      let (limit, s') = force_limited (cache.set_nx (force_key user) force_ttl s) in
      (elim limit [ none ↦ none | some retry_after ↦ limited_answer retry_after s' ], s')

  -- The handler from the load on; a load that fails is `none`, and so is the answer 503.
  pub loaded_answer : Option (Response A) → cache.Store → Option (Response A) × cache.Store
  unfolding entitlements_ttl
  loaded_answer none s = elim (cache.get (stale_key user) s) [
    | some r ↦ (some (mark_stale r), s)
    | none ↦ (none, s)
  ]
  loaded_answer (some r) s = (
    some r,
    (cache.set (stale_key user) r stale_cache_ttl
        (cache.set (cache_key user) r (entitlements_ttl user) s).1).1,
  )

  -- … from the answer of the cache on
  pub answer_or_load :
      (load : Option (Response A))
      → Option (Response A) × cache.Store
      → Option (Response A) × cache.Store
  unfolding loaded_answer
  answer_or_load load (some r, s) = (some r, s)
  answer_or_load load (none, s) = loaded_answer load s

  -- `GatewayEntitlements`; `refresh` is the query, `load` what `loadGatewayEntitlements` gives.
  pub gateway_entitlements :
      (refresh : Text) (load : Option (Response A))
      → Option cache.Store
      → Option (Response A) × Option cache.Store
  unfolding answer_or_load cached_answer truthy
  gateway_entitlements refresh load none = (load, none)
  gateway_entitlements refresh load (some s) =
      let (answer, s') = answer_or_load load (cached_answer (truthy refresh) s) in (answer, some s')

  -- `invalidateGatewayEntitlementsCache`
  pub invalidate_gateway_entitlements_cache : Option cache.Store → Option cache.Store
  invalidate_gateway_entitlements_cache none = none
  invalidate_gateway_entitlements_cache (some s) =
      some (cache.del (cache_key user ∷ stale_key user ∷ force_key user ∷ []) s).1
