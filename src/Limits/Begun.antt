-- ===== src/Limits/Begun.antt =====
-- What a limiter does once its windows have begun: no request sets an expiry any more.
use brevyn_cloud.Base.{ℕ, zero, suc, ◌≤◌, List, Text}
use brevyn_cloud.Limits.{Redis, Rule, increment_rules}
use brevyn_cloud.Limits.Windows.{RedisValid}

module _ (redis : Redis) (valid : RedisValid redis) where
  -- The stores that `INCR` alone leads to: no expiry is set on the way.
  pub data OnlyCounted (s : redis.Store) : redis.Store → Type 0 where
    untouched : OnlyCounted s s
    counts : {t : redis.Store} → OnlyCounted s t → (key : Text) → OnlyCounted s (redis.incr key t).1

  -- The window of the rule has begun: its key has a count.
  abbrev pub HasBegun : redis.Store → Rule → Type 0
  HasBegun s rule = 1 ≤ valid.count_of rule.key s

  -- The store after `n` requests.
  abbrev pub after_requests : List Rule → ℕ → redis.Store → redis.Store
  after_requests rules zero s = s
  after_requests rules (suc n) s = (increment_rules redis rules (after_requests rules n s)).1
