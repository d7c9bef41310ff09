-- ===== src/Entitlements/Cache/Invalidated.antt =====
-- What the cache of entitlements serves after an invalidation.
use brevyn_cloud.Base.{ℕ, ◌≡◌, ◌∙◌, Bool, true, false, Option, none, some, List, [], ◌∷◌, Text}
use brevyn_cloud.Entitlements.Cache.{
  CacheStore, force_ttl, cache_key, stale_key, force_key, truthy, wait_of, force_limited,
  limited_answer, cached_answer, loaded_answer, answer_or_load, gateway_entitlements,
  invalidate_gateway_entitlements_cache,
}
use brevyn_cloud.Entitlements.Cache.Stale.{
  CacheValid, force-cache, force-stale, after_failures, after_failures-Reads,
}

module _ {A : Type 0} (cache : CacheStore A) (valid : CacheValid cache) (user : ℕ) where
  -- The user's entitlements are not in the cache.
  abbrev IsEmpty : cache.Store → Type 0
  IsEmpty s = (cache.get (cache_key user) s ≡ none) × (cache.get (stale_key user) s ≡ none)

  limited_answer-empty :
      (wait : ℕ) (s : cache.Store) → IsEmpty s → limited_answer cache user wait s ≡ none
  unfolding limited_answer
  limited_answer-empty wait s empty = rw (empty.0, empty.1, limited_answer)

  loaded_answer-empty : (s : cache.Store) → IsEmpty s → (loaded_answer cache user none s).0 ≡ none
  unfolding loaded_answer
  loaded_answer-empty s empty = rw (empty.1, loaded_answer)

  forced_empty :
      (o : Option Bool × cache.Store)
      → IsEmpty o.1
      → let (limit, s') = force_limited cache user o in
        (answer_or_load cache user none
          (elim limit [ none ↦ none | some wait ↦ limited_answer cache user wait s' ], s')).0
        ≡ none
  unfolding force_limited answer_or_load
  forced_empty (some false, s) empty =
      rw
        (
          limited_answer-empty (wait_of cache user (cache.ttl (force_key user) s)) s empty,
          force_limited,
        )
        (loaded_answer-empty s empty)
  forced_empty (some true, s) empty = loaded_answer-empty s empty
  forced_empty (none, s) empty = loaded_answer-empty s empty

  empty_answer :
      (s : cache.Store) (force : Bool)
      → IsEmpty s
      → (answer_or_load cache user none (cached_answer cache user force s)).0 ≡ none
  unfolding cached_answer answer_or_load loaded_answer
  empty_answer s false empty = rw (empty.0, empty.1, cached_answer, loaded_answer)
  empty_answer s true empty = forced_empty (cache.set_nx (force_key user) force_ttl s) (
    valid.get_set_nx (force_key user) (cache_key user) force_ttl s (force-cache user) ∙ empty.0,
    valid.get_set_nx (force_key user) (stale_key user) force_ttl s (force-stale user) ∙ empty.1,
  )

  -- The store after an invalidation.
  abbrev pub invalidated : cache.Store → Bool × cache.Store
  invalidated s = cache.del (cache_key user ∷ stale_key user ∷ force_key user ∷ []) s

  -- The store after an invalidation and requests whose loads fail
  abbrev pub after_invalidation : List Text → Option cache.Store → Option cache.Store
  after_invalidation refreshes none = none
  after_invalidation refreshes (some s) = some (after_failures cache valid user refreshes s)

  -- What was cached before an invalidation is not served after it: when its `DEL` succeeds, every
  -- request of the user fails until a load succeeds, whether or not a refresh is asked for. This is
  -- for the case where no load of the user is under way at the invalidation, since such a load
  -- writes what it has read.
  pub serves_nothing_old :
      (s : cache.Store) (refreshes : List Text) (refresh : Text)
      → (invalidated s).0 ≡ true
      → (gateway_entitlements cache user refresh none (
          after_invalidation refreshes
            (invalidate_gateway_entitlements_cache cache user (some s)))).0
        ≡ none
  unfolding gateway_entitlements invalidate_gateway_entitlements_cache
  serves_nothing_old s refreshes refresh deleted =
      let empty = valid.get_del (cache_key user) (stale_key user) (force_key user) s deleted in
      let same = after_failures-Reads cache valid user refreshes (invalidated s).1 in
      empty_answer (after_failures cache valid user refreshes (invalidated s).1) (truthy refresh)
        (same.0 ∙ empty.0, same.1 ∙ empty.1)
