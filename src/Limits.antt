-- ===== src/Limits.antt =====
-- internal/auth/handler.go, the rate limits over Redis. The five limiters run one loop, here
-- `increment_rules`: `registerLimiter.allow`, `loginLimiter.incrementRules`,
-- `refreshLimiter.allow`, `redeemLimiter.allow` and `incrementProviderLimitRules` have the same
-- body. Redis is the record `Redis`; an answer `none` is an error of the call.
pub mod Blocking
pub mod Windows
pub mod Begun
pub mod Admin
mod Examples
use brevyn_cloud.Base.{
  ℕ, ◌+◌, ◌*◌, Bool, true, false, Option, none, some, List, [], ◌∷◌, ◌++◌, Text, codes, is_blank,
  trim_space, itoa, ltb, leb, ◌==◌, if◌then◌else◌,
}
use brevyn_cloud.Operations.{minute}

-- What the program uses of a Redis server whose state is `Store`: `INCR`, `EXPIRE`, `TTL` (0 for a
-- result that is not positive), `GET` of a number (the inner `none` is a missing key) and `DEL`.
pub record Redis : Type 1 where
  pub Store : Type 0
  pub incr : Text → Store → Option ℕ × Store
  pub expire : Text → ℕ → Store → Option Bool × Store
  pub ttl : Text → Store → Option ℕ
  pub get : Text → Store → Option (Option ℕ)
  pub del : Text → Store → Store

-- `registerLimitRule` and the four types like it
pub record Rule : Type 0 where
  pub key : Text
  pub limit : ℕ
  pub window : ℕ

-- What a limiter answers.
pub data Verdict : Type 0 where
  allowed unavailable : Verdict
  blocked : (retry_after : ℕ) → Verdict

-- How long a blocked client has to wait: the key's time to live, or the whole window.
pub retry_after : ℕ → Option ℕ → ℕ
retry_after window none = window
retry_after window (some ttl) = if leb ttl 0 then window else ttl

module _ (redis : Redis) where
  -- The expiry that the first count of a window sets; `none` is an error of the call.
  pub start_window : Rule → (count : ℕ) → redis.Store → Option Bool × redis.Store
  start_window rule count s =
      if count == 1 then redis.expire rule.key rule.window s else (some true, s)

  -- One rule from its count on; `none` goes on to the next rule.
  pub check_count : Rule → (count : ℕ) → Option Bool × redis.Store → Option Verdict × redis.Store
  unfolding retry_after
  check_count rule count (none, s) = (some unavailable, s)
  check_count rule count (some done, s) =
      if ltb rule.limit count
      then (some (blocked (retry_after rule.window (redis.ttl rule.key s))), s)
      else (none, s)

  pub check_rule : Rule → Option ℕ × redis.Store → Option Verdict × redis.Store
  unfolding start_window check_count
  check_rule rule (none, s) = (some unavailable, s)
  check_rule rule (some count, s) = check_count rule count (start_window rule count s)

  -- The loop of the limiters
  pub increment_rules : List Rule → redis.Store → Verdict × redis.Store
  unfolding check_rule
  increment_rules [] s = (allowed, s)
  increment_rules (rule ∷ rules) s =
      let (verdict, s') = check_rule rule (redis.incr rule.key s) in
      let rest = increment_rules rules s' in elim verdict [ none ↦ rest | some v ↦ (v, s') ]

  -- One rule of `failureBlocked`, which counts nothing.
  pub read_rule : Rule → redis.Store → Option Verdict
  unfolding retry_after
  read_rule rule s = elim (redis.get rule.key s) [
    | none ↦ some unavailable
    | some found ↦ elim found [
      | none ↦ none
      | some count ↦
          if leb rule.limit count
          then some (blocked (retry_after rule.window (redis.ttl rule.key s)))
          else none
    ]
  ]

  pub read_rules : List Rule → redis.Store → Verdict
  unfolding read_rule
  read_rules [] s = allowed
  read_rules (rule ∷ rules) s =
      let rest = read_rules rules s in elim (read_rule rule s) [ none ↦ rest | some v ↦ v ]

-- The rules; `hash` is `hashRateLimitPart`.
module _ (hash : Text → Text) where
  -- `registerLimiter.allow`
  unfoldable pub register_rules : (ip email_hash : Text) → List Rule
  register_rules ip email_hash =
      record { key = codes "brevyn:rl:register:ip:" ++ hash ip; limit = 10; window = 10 * minute }
      ∷ record {
        key = codes "brevyn:rl:register:email:" ++ email_hash;
        limit = 5;
        window = 30 * minute;
      }
      ∷ record {
        key = codes "brevyn:rl:register:ip_email:" ++ hash (ip ++ (codes ":" ++ email_hash));
        limit = 5;
        window = 10 * minute;
      }
      ∷ []

  -- `loginLimiter.allowRequest`
  unfoldable pub login_request_rules : (ip email_hash : Text) → List Rule
  login_request_rules ip email_hash =
      record { key = codes "brevyn:rl:login:req:ip:" ++ hash ip; limit = 600; window = 10 * minute }
      ∷ record {
        key = codes "brevyn:rl:login:req:ip_email:" ++ hash (ip ++ (codes ":" ++ email_hash));
        limit = 20;
        window = 10 * minute;
      }
      ∷ []

  abbrev pub pair_failure_key : (ip email_hash : Text) → Text
  pair_failure_key ip email_hash =
      codes "brevyn:rl:login:fail:ip_email:" ++ hash (ip ++ (codes ":" ++ email_hash))

  -- `loginFailureRules`
  pub login_failure_rules : (ip email_hash : Text) → List Rule
  login_failure_rules ip email_hash =
      record { key = pair_failure_key ip email_hash; limit = 5; window = 15 * minute }
      ∷ record {
        key = codes "brevyn:rl:login:fail:email:" ++ email_hash;
        limit = 12;
        window = 15 * minute;
      }
      ∷ record {
        key = codes "brevyn:rl:login:fail:ip:" ++ hash ip;
        limit = 60;
        window = 15 * minute;
      }
      ∷ []

  -- `refreshLimiter.allow`
  unfoldable pub refresh_rules : (ip family_id : Text) → List Rule
  refresh_rules ip family_id =
      record { key = codes "brevyn:rl:refresh:ip:" ++ hash ip; limit = 120; window = 10 * minute }
      ∷ (if is_blank (trim_space family_id)
          then []
          else record {
            key = codes "brevyn:rl:refresh:family:" ++ hash family_id;
            limit = 30;
            window = 5 * minute;
          }
            ∷ [])

  -- `redeemLimiter.allow`
  unfoldable pub redeem_rules : (ip : Text) (user : ℕ) (code_hash : Text) → List Rule
  redeem_rules ip user code_hash =
      record { key = codes "brevyn:rl:redeem:ip:" ++ hash ip; limit = 300; window = 10 * minute }
      ∷ record {
        key = codes "brevyn:rl:redeem:user:" ++ itoa user;
        limit = 20;
        window = 10 * minute;
      }
      ∷ record {
        key = codes "brevyn:rl:redeem:code:" ++ code_hash;
        limit = 5;
        window = 10 * minute;
      }
      ∷ []

  -- `providerLimiter.allowRead`
  unfoldable pub provider_read_rules : (ip : Text) (user : ℕ) → List Rule
  provider_read_rules ip user =
      record {
        key = codes "brevyn:rl:provider:read:user:" ++ itoa user;
        limit = 120;
        window = 10 * minute;
      }
      ∷ record {
        key = codes "brevyn:rl:provider:read:ip:" ++ hash ip;
        limit = 1000;
        window = 10 * minute;
      }
      ∷ []

-- `providerLimiter.allowProvision`
unfoldable pub provider_provision_rules : (user group : ℕ) → List Rule
provider_provision_rules user group =
    record {
      key =
          codes "brevyn:rl:provider:provision:user_group:"
          ++ (itoa user ++ (codes ":" ++ itoa group));
      limit = 10;
      window = 10 * minute;
    }
    ∷ []

-- The limiters; with no Redis, `none`, they allow everything.
module _ (redis : Redis) (hash : Text → Text) where
  unfoldable pub limit_with : List Rule → Option redis.Store → Verdict × Option redis.Store
  unfolding increment_rules
  limit_with rules none = (allowed, none)
  limit_with rules (some s) = let (v, s') = increment_rules redis rules s in (v, some s')

  -- `loginLimiter.failureBlocked`
  unfoldable pub failure_blocked : (ip email_hash : Text) → Option redis.Store → Verdict
  unfolding read_rules login_failure_rules
  failure_blocked ip email_hash none = allowed
  failure_blocked ip email_hash (some s) =
      read_rules redis (login_failure_rules hash ip email_hash) s

  -- `loginLimiter.recordFailure`
  unfoldable pub record_failure :
      (ip email_hash : Text) → Option redis.Store → Verdict × Option redis.Store
  unfolding limit_with login_failure_rules
  record_failure ip email_hash = limit_with (login_failure_rules hash ip email_hash)

  -- `loginLimiter.clearPairFailure`
  unfoldable pub clear_pair_failure :
      (ip email_hash : Text) → Option redis.Store → Option redis.Store
  clear_pair_failure ip email_hash none = none
  clear_pair_failure ip email_hash (some s) =
      some (redis.del (pair_failure_key hash ip email_hash) s)
