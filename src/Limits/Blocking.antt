-- ===== src/Limits/Blocking.antt =====
-- What a blocked client is told.
use brevyn_cloud.Base.{
  ℕ, ◌<◌, Bool, Option, none, some, List, [], ◌∷◌, arith, inl, inr, ltb, All, Bool-cases,
  Option-cases,
}
use brevyn_cloud.Limits.{
  Redis, Rule, Verdict, blocked, retry_after, start_window, check_count, check_rule,
  increment_rules,
}

-- A verdict that makes nobody wait for no time.
abbrev pub WaitsWhenBlocked : Verdict → Type 0
WaitsWhenBlocked (blocked wait) = 0 < wait
WaitsWhenBlocked _ = Unit

abbrev OptionWaits : Option Verdict → Type 0
OptionWaits none = Unit
OptionWaits (some v) = WaitsWhenBlocked v

-- The rule has a window.
abbrev pub HasWindow : Rule → Type 0
HasWindow rule = 0 < rule.window

retry_after_positive : (window : ℕ) (ttl : Option ℕ) → 0 < window → 0 < retry_after window ttl
unfolding retry_after
retry_after_positive window none h = h
retry_after_positive window (some ttl) h = ground (arith, h)

module _ (redis : Redis) where
  check_count-OptionWaits :
      (rule : Rule) (count : ℕ) (started : Option Bool × redis.Store)
      → HasWindow rule
      → OptionWaits (check_count redis rule count started).0
  unfolding check_count
  check_count-OptionWaits rule count (none, s) h = tt
  check_count-OptionWaits rule count (some done, s) h = elim (Bool-cases (ltb rule.limit count)) [
    | inl over ↦ rw (over, check_count) (retry_after_positive rule.window (redis.ttl rule.key s) h)
    | inr under ↦ rw (under, check_count) tt
  ]

  check_rule-OptionWaits :
      (rule : Rule) (counted : Option ℕ × redis.Store)
      → HasWindow rule
      → OptionWaits (check_rule redis rule counted).0
  unfolding check_rule
  check_rule-OptionWaits rule (none, s) h = tt
  check_rule-OptionWaits rule (some count, s) h =
      check_count-OptionWaits rule count (start_window redis rule count s) h

  -- Where every rule has a window, a limiter that blocks tells the client to wait for a time that
  -- is not 0, also if Redis does not know the key's time to live.
  pub increment_rules-WaitsWhenBlocked :
      (rules : List Rule) (s : redis.Store)
      → All HasWindow rules
      → WaitsWhenBlocked (increment_rules redis rules s).0
  unfolding increment_rules
  increment_rules-WaitsWhenBlocked [] s h = tt
  increment_rules-WaitsWhenBlocked (rule ∷ rules) s h =
      let checked = check_rule redis rule (redis.incr rule.key s) in
      let waits = check_rule-OptionWaits rule (redis.incr rule.key s) h.0 in
      elim (Option-cases checked.0) [
        | inl e ↦ rw (e, increment_rules) (increment_rules-WaitsWhenBlocked rules checked.1 h.1)
        | inr (v, e) ↦ rw (e, increment_rules) (rw e at waits)
      ]
