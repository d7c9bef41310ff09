-- ===== src/Limits/Windows.antt =====
-- How many requests a window lets through, over a Redis server that counts and does not fail.
use brevyn_cloud.Base.{
  ℕ, zero, suc, ◌-◌, ◌<◌, ◌≡◌, ◌↔◌, refl, ap, ◌∙◌, Bool, true, false, Option, none, some, List, [],
  ◌∷◌, Text, arith, inl, inr, leb, ◌==◌, if◌then◌else◌, All, Bool-cases, text_eq,
}
use brevyn_cloud.Limits.{
  Redis, Rule, Verdict, allowed, blocked, retry_after, start_window, check_count, check_rule,
  increment_rules,
}

-- What the documentation of Redis says of its counters, where no call fails and no window ends:
-- `INCR` answers the count and adds one to that key alone, `EXPIRE` keeps the counts, and `GET`
-- reads the count.
pub record RedisValid (redis : Redis) : Type 0 where
  pub count_of : Text → redis.Store → ℕ
  pub incr_answer :
      (key : Text) (s : redis.Store) → (redis.incr key s).0 ≡ some (suc (count_of key s))
  pub incr_count :
      (key : Text) (s : redis.Store) → count_of key (redis.incr key s).1 ≡ suc (count_of key s)
  pub incr_other :
      (key other : Text) (s : redis.Store)
      → text_eq key other ≡ false
      → count_of other (redis.incr key s).1 ≡ count_of other s
  pub expire_answer :
      (key : Text) (window : ℕ) (s : redis.Store) → (redis.expire key window s).0 ≡ some true
  pub expire_count :
      (key other : Text) (window : ℕ) (s : redis.Store)
      → count_of other (redis.expire key window s).1 ≡ count_of other s
  pub get_answer :
      (key : Text) (s : redis.Store)
      → redis.get key s ≡ some (if count_of key s == 0 then none else some (count_of key s))

abbrev pub is_allowed : Verdict → Bool
is_allowed allowed = true
is_allowed _ = false

-- How many of `n` requests in a row a limiter with one rule allows.
abbrev pub allowed_count : (redis : Redis) → Rule → ℕ → redis.Store → ℕ
allowed_count redis rule zero s = 0
allowed_count redis rule (suc n) s =
    let out = increment_rules redis (rule ∷ []) s in
    let rest = allowed_count redis rule n out.1 in if is_allowed out.0 then suc rest else rest

-- No two rules have the same key.
abbrev pub DistinctKeys : List Rule → Type 0
DistinctKeys [] = Unit
DistinctKeys (rule ∷ rules) =
    All (λ (r : Rule). text_eq rule.key r.key ≡ false) rules × DistinctKeys rules

module _ (redis : Redis) (valid : RedisValid redis) where
  -- The rule has room for one more request.
  abbrev pub HasRoom : redis.Store → Rule → Type 0
  HasRoom s rule = valid.count_of rule.key s < rule.limit

  start_window_answer :
      (rule : Rule) (count : ℕ) (s : redis.Store) → (start_window redis rule count s).0 ≡ some true
  unfolding start_window
  start_window_answer rule count s = elim (Bool-cases (count == 1)) [
    | inl e ↦ rw (e, start_window) (valid.expire_answer rule.key rule.window s)
    | inr e ↦ rw (e, start_window) refl
  ]

  start_window_count :
      (rule : Rule) (count : ℕ) (s : redis.Store) (other : Text)
      → valid.count_of other (start_window redis rule count s).1 ≡ valid.count_of other s
  unfolding start_window
  start_window_count rule count s other = elim (Bool-cases (count == 1)) [
    | inl e ↦ rw (e, start_window) (valid.expire_count rule.key other rule.window s)
    | inr e ↦ rw (e, start_window) refl
  ]

  -- The store after a rule.
  abbrev pub after_rule : Rule → redis.Store → redis.Store
  after_rule rule s =
      (start_window redis rule (suc (valid.count_of rule.key s)) (redis.incr rule.key s).1).1

  pub check_rule_lem :
      (rule : Rule) (s : redis.Store)
      → check_rule redis rule (redis.incr rule.key s) ≡ (
          if leb rule.limit (valid.count_of rule.key s)
          then (
            some (blocked (retry_after rule.window (redis.ttl rule.key (after_rule rule s)))),
            after_rule rule s,
          )
          else (none, after_rule rule s))
  unfolding check_rule check_count
  check_rule_lem rule s =
      let n = valid.count_of rule.key s in
      let s1 = (redis.incr rule.key s).1 in
      let counted : redis.incr rule.key s ≡ (some (suc n), s1) =
        ap (λ (o : Option ℕ). (o, s1)) (valid.incr_answer rule.key s) in
      let started : start_window redis rule (suc n) s1 ≡ (some true, after_rule rule s) =
        ap (λ (o : Option Bool). (o, after_rule rule s)) (start_window_answer rule (suc n) s1) in
      ap (check_rule redis rule) counted
      ∙ ap (check_count redis rule (suc n)) started
      ∙ ground arith

  after_rule_count :
      (rule : Rule) (s : redis.Store)
      → valid.count_of rule.key (after_rule rule s) ≡ suc (valid.count_of rule.key s)
  after_rule_count rule s =
      start_window_count rule (suc (valid.count_of rule.key s)) (redis.incr rule.key s).1 rule.key
      ∙ valid.incr_count rule.key s

  after_rule_other :
      (rule : Rule) (s : redis.Store) (other : Text)
      → text_eq rule.key other ≡ false
      → valid.count_of other (after_rule rule s) ≡ valid.count_of other s
  after_rule_other rule s other h =
      start_window_count rule (suc (valid.count_of rule.key s)) (redis.incr rule.key s).1 other
      ∙ valid.incr_other rule.key other s h

  rooms_same :
      (rule : Rule) (rules : List Rule) (s : redis.Store)
      → All (λ (r : Rule). text_eq rule.key r.key ≡ false) rules
      → All (HasRoom (after_rule rule s)) rules ↔ All (HasRoom s) rules
  rooms_same rule [] s h = (λ a. a, λ a. a)
  rooms_same rule (r ∷ rules) s h =
      let same = after_rule_other rule s r.key h.0 in
      let rest = rooms_same rule rules s h.1 in
      (λ a. (omega (arith, a.0, same), rest.0 a.1), λ a. (omega (arith, a.0, same), rest.1 a.1))

  -- What the loop does with the answer of a rule.
  abbrev pub goes_on : List Rule → Option Verdict × redis.Store → Verdict × redis.Store
  goes_on rules checked = elim checked.0 [
    | none ↦ increment_rules redis rules checked.1
    | some v ↦ (v, checked.1)
  ]

  no_rules : (s : redis.Store) → (increment_rules redis [] s).0 ≡ allowed
  unfolding increment_rules
  no_rules s = refl

  pub increment_rules_step :
      (rule : Rule) (rules : List Rule) (s : redis.Store) (checked : Option Verdict × redis.Store)
      → check_rule redis rule (redis.incr rule.key s) ≡ checked
      → increment_rules redis (rule ∷ rules) s ≡ goes_on rules checked
  unfolding increment_rules
  increment_rules_step rule rules s checked e =
      let first : increment_rules redis (rule ∷ rules) s
          ≡ goes_on rules (check_rule redis rule (redis.incr rule.key s)) =
        refl in
      first ∙ ap (goes_on rules) e

  -- A limiter allows a request exactly if each of its rules, whose keys are distinct, has room for
  -- it, over a Redis that counts and does not fail.
  pub increment_rules_allowed :
      (rules : List Rule) (s : redis.Store)
      → DistinctKeys rules
      → ((increment_rules redis rules s).0 ≡ allowed) ↔ All (HasRoom s) rules
  increment_rules_allowed [] s h = (λ _. tt, λ _. no_rules s)
  increment_rules_allowed (rule ∷ rules) s h =
      elim (Bool-cases (leb rule.limit (valid.count_of rule.key s))) [
        | inl full ↦
            rw (increment_rules_step rule rules s _ (check_rule_lem rule s), full)
              (λ e. absurd (ground (arith, e)), λ a. absurd (ground (arith, a.0, full)))
        | inr room ↦
            let rest = increment_rules_allowed rules (after_rule rule s) h.1 in
            let same = rooms_same rule rules s h.0 in
            rw (increment_rules_step rule rules s _ (check_rule_lem rule s), room)
              (λ e. (ground (arith, room), same.0 (rest.0 e)), λ a. rest.1 (same.1 a.1))
      ]

  request_full :
      (rule : Rule) (s : redis.Store)
      → leb rule.limit (valid.count_of rule.key s) ≡ true
      → increment_rules redis (rule ∷ []) s ≡ (
        blocked (retry_after rule.window (redis.ttl rule.key (after_rule rule s))),
        after_rule rule s,
      )
  request_full rule s full = increment_rules_step rule [] s _ (check_rule_lem rule s) ∙ rw full refl

  request_room :
      (rule : Rule) (s : redis.Store)
      → leb rule.limit (valid.count_of rule.key s) ≡ false
      → increment_rules redis (rule ∷ []) s ≡ (allowed, after_rule rule s)
  unfolding increment_rules
  request_room rule s room = increment_rules_step rule [] s _ (check_rule_lem rule s) ∙ rw room refl

  -- In one window a rule lets through as many of `n` requests in a row as it has room for, over a
  -- Redis that counts and does not fail: the smaller of `n` and what is left of the limit.
  pub allowed_count_lem :
      (rule : Rule) (n : ℕ) (s : redis.Store)
      → let left = rule.limit - valid.count_of rule.key s in
        allowed_count redis rule n s ≡ (if leb n left then n else left)
  allowed_count_lem rule zero s = ground arith
  allowed_count_lem rule (suc n) s =
      let Tally : Verdict × redis.Store → ℕ = λ out.
        if is_allowed out.0
        then suc (allowed_count redis rule n out.1)
        else allowed_count redis rule n out.1 in
      let rest = allowed_count_lem rule n (after_rule rule s) in
      let more = after_rule_count rule s in
      elim (Bool-cases (leb rule.limit (valid.count_of rule.key s))) [
        | inl full ↦ ap Tally (request_full rule s full) ∙ ground (arith, rest, more, full)
        | inr room ↦ ap Tally (request_room rule s room) ∙ ground (arith, rest, more, room)
      ]
