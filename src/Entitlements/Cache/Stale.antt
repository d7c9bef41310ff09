-- ===== src/Entitlements/Cache/Stale.antt =====
-- What the cache of entitlements serves while the gateway cannot be asked.
use brevyn_cloud.Base.{
  ℕ, ◌≡◌, ◌≢◌, refl, ◌∙◌, ap, Bool, true, false, Option, none, some, List, [], ◌∷◌, Text, sym,
  subst, Option-cases, codes, arith, inl, inr, Bool-cases, text_eq, text_eq_sound, itoa, ◌++◌,
  length, length-append,
}
use brevyn_cloud.Entitlements.Cache.{
  Response, CacheStore, stale_cache_ttl, force_ttl, entitlements_ttl, cache_key, stale_key,
  force_key, truthy, mark_refresh_limited, mark_stale, wait_of, force_limited, limited_answer,
  cached_answer, loaded_answer, answer_or_load, gateway_entitlements,
}

-- What Redis documents of the commands, while no key expires.
pub record CacheValid {A : Type 0} (cache : CacheStore A) : Type 0 where
  pub get_set :
      (key : Text) (r : Response A) (ttl : ℕ) (s : cache.Store)
      → (cache.set key r ttl s).0 ≡ true
      → cache.get key (cache.set key r ttl s).1 ≡ some r
  pub get_set_other :
      (key other : Text) (r : Response A) (ttl : ℕ) (s : cache.Store)
      → text_eq key other ≡ false
      → cache.get other (cache.set key r ttl s).1 ≡ cache.get other s
  pub get_set_nx :
      (key other : Text) (ttl : ℕ) (s : cache.Store)
      → text_eq key other ≡ false
      → cache.get other (cache.set_nx key ttl s).1 ≡ cache.get other s
  pub get_del :
      (a b c : Text) (s : cache.Store)
      → (cache.del (a ∷ b ∷ c ∷ []) s).0 ≡ true
      → (cache.get a (cache.del (a ∷ b ∷ c ∷ []) s).1 ≡ none)
        × (cache.get b (cache.del (a ∷ b ∷ c ∷ []) s).1 ≡ none)

-- A text is not one with something before it.
longer-text_eq : (before s : Text) → length before ≢ 0 → text_eq (before ++ s) s ≡ false
longer-text_eq before s more = elim (Bool-cases (text_eq (before ++ s) s)) [
  | inr e ↦ e
  | inl e ↦
      let same : length (before ++ s) ≡ length s = ap length (text_eq_sound (before ++ s) s e) in
      absurd (more (omega (arith, same, length-append before s)))
]

module _ (user : ℕ) where
  stale-cache : text_eq (stale_key user) (cache_key user) ≡ false
  unfolding text_eq
  stale-cache = longer-text_eq (codes "stale:") (itoa user) (λ h. ground (arith, h))

  pub force-cache : text_eq (force_key user) (cache_key user) ≡ false
  unfolding text_eq
  force-cache = longer-text_eq (codes "force:") (itoa user) (λ h. ground (arith, h))

  pub force-stale : text_eq (force_key user) (stale_key user) ≡ false
  unfolding text_eq
  force-stale = refl

module _ {A : Type 0} (cache : CacheStore A) (valid : CacheValid cache) (user : ℕ) where
  -- The user's entitlements are in the cache as they were loaded last.
  abbrev pub IsCached : Response A → cache.Store → Type 0
  IsCached r s = (cache.get (cache_key user) s ≡ some r) × (cache.get (stale_key user) s ≡ some r)

  abbrev pub HasBody : A → Option (Response A) → Type 0
  HasBody body none = ⊥
  HasBody body (some r) = r.body ≡ body

  -- Both `SET` of a load that succeeds with this have succeeded.
  abbrev pub BothSet : Response A → cache.Store → Type 0
  BothSet r s =
      let first = cache.set (cache_key user) r (entitlements_ttl user) s in
      (first.0 ≡ true) × ((cache.set (stale_key user) r stale_cache_ttl first.1).0 ≡ true)

  loaded-IsCached :
      (r : Response A) (s : cache.Store)
      → BothSet r s
      → IsCached r (loaded_answer cache user (some r) s).1
  unfolding loaded_answer
  loaded-IsCached r s both =
      let s' = (cache.set (cache_key user) r (entitlements_ttl user) s).1 in
      (
        valid.get_set_other (stale_key user) (cache_key user) r stale_cache_ttl s'
              (stale-cache user)
            ∙ valid.get_set (cache_key user) r (entitlements_ttl user) s both.0,
        valid.get_set (stale_key user) r stale_cache_ttl s' both.1,
      )

  -- A request whose load fails reads the two keys, and may set the third.
  abbrev pub Reads : cache.Store → cache.Store → Type 0
  Reads s s' =
      (cache.get (cache_key user) s' ≡ cache.get (cache_key user) s)
      × (cache.get (stale_key user) s' ≡ cache.get (stale_key user) s)

  loaded_answer_store : (s : cache.Store) → (loaded_answer cache user none s).1 ≡ s
  unfolding loaded_answer
  loaded_answer_store s = elim (Option-cases (cache.get (stale_key user) s)) [
    | inl e ↦ rw (e, loaded_answer)
    | inr (r, e) ↦ rw (e, loaded_answer)
  ]

  answer_store :
      (out : Option (Response A) × cache.Store) → (answer_or_load cache user none out).1 ≡ out.1
  unfolding answer_or_load
  answer_store (some r, s) = refl
  answer_store (none, s) = loaded_answer_store s

  force_limited_store : (out : Option Bool × cache.Store) → (force_limited cache user out).1 ≡ out.1
  unfolding force_limited
  force_limited_store (none, s) = refl
  force_limited_store (some true, s) = refl
  force_limited_store (some false, s) = refl

  cached_answer-Reads :
      (force : Bool) (s : cache.Store) → Reads s (cached_answer cache user force s).1
  unfolding cached_answer
  cached_answer-Reads false s = (refl, refl)
  cached_answer-Reads true s =
      let o = cache.set_nx (force_key user) force_ttl s in
      subst (Reads s) (sym (force_limited_store o)) (
        valid.get_set_nx (force_key user) (cache_key user) force_ttl s (force-cache user),
        valid.get_set_nx (force_key user) (stale_key user) force_ttl s (force-stale user),
      )

  -- The store after requests of the user with these queries, whose loads fail.
  abbrev pub after_failures : List Text → cache.Store → cache.Store
  after_failures [] s = s
  after_failures (refresh ∷ rest) s =
      after_failures rest
        (answer_or_load cache user none (cached_answer cache user (truthy refresh) s)).1

  pub after_failures-Reads :
      (refreshes : List Text) (s : cache.Store) → Reads s (after_failures refreshes s)
  after_failures-Reads [] s = (refl, refl)
  after_failures-Reads (refresh ∷ rest) s =
      let out = cached_answer cache user (truthy refresh) s in
      let s' = (answer_or_load cache user none out).1 in
      let first : Reads s s' =
        subst (Reads s) (sym (answer_store out)) (cached_answer-Reads (truthy refresh) s) in
      let more = after_failures-Reads rest s' in (more.0 ∙ first.0, more.1 ∙ first.1)

  limited_answer-cached :
      (r : Response A) (wait : ℕ) (s : cache.Store)
      → IsCached r s
      → limited_answer cache user wait s ≡ some (mark_refresh_limited r wait)
  unfolding limited_answer
  limited_answer-cached r wait s cached = rw (cached.0, limited_answer)

  loaded_answer-cached :
      (r : Response A) (s : cache.Store)
      → IsCached r s
      → loaded_answer cache user none s ≡ (some (mark_stale r), s)
  unfolding loaded_answer
  loaded_answer-cached r s cached = rw (cached.1, loaded_answer)

  -- The answer to a forced refresh that the gateway cannot serve.
  forced-HasBody :
      (r : Response A) (o : Option Bool × cache.Store)
      → IsCached r o.1
      → let (limit, s') = force_limited cache user o in
        HasBody r.body
          (answer_or_load cache user none
            (elim limit [ none ↦ none | some wait ↦ limited_answer cache user wait s' ], s')).0
  unfolding force_limited answer_or_load mark_refresh_limited
  forced-HasBody r (some false, s) cached =
      rw
        (
          limited_answer-cached r (wait_of cache user (cache.ttl (force_key user) s)) s cached,
          force_limited,
        )
        refl
  forced-HasBody r (some true, s) cached = rw (loaded_answer-cached r s cached, force_limited) refl
  forced-HasBody r (none, s) cached = rw (loaded_answer-cached r s cached, force_limited) refl

  cached-HasBody :
      (r : Response A) (s : cache.Store) (force : Bool)
      → IsCached r s
      → HasBody r.body (answer_or_load cache user none (cached_answer cache user force s)).0
  unfolding cached_answer answer_or_load
  cached-HasBody r s false cached = rw (cached.0, cached_answer) refl
  cached-HasBody r s true cached =
      let o = cache.set_nx (force_key user) force_ttl s in
      forced-HasBody r o (
        valid.get_set_nx (force_key user) (cache_key user) force_ttl s (force-cache user)
            ∙ cached.0,
        valid.get_set_nx (force_key user) (stale_key user) force_ttl s (force-stale user)
            ∙ cached.1,
      )

  -- What a load has given is served while the gateway does not answer: after a load whose `SET`
  -- both succeeded, and any number of requests of the user whose loads fail, the next request whose
  -- load fails is answered with what was loaded, whether or not a refresh is asked for. No key
  -- expires meanwhile, and nothing else writes the user's keys.
  pub serves_stale :
      (r : Response A) (s : cache.Store) (refreshes : List Text) (refresh : Text)
      → BothSet r s
      → HasBody r.body
          (gateway_entitlements cache user refresh none
            (some (after_failures refreshes (loaded_answer cache user (some r) s).1))).0
  unfolding gateway_entitlements
  serves_stale r s refreshes refresh both =
      let s' = (loaded_answer cache user (some r) s).1 in
      let cached = loaded-IsCached r s both in
      let same = after_failures-Reads refreshes s' in
      cached-HasBody r (after_failures refreshes s') (truthy refresh)
        (same.0 ∙ cached.0, same.1 ∙ cached.1)
