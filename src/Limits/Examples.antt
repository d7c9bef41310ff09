-- ===== src/Limits/Examples.antt =====
-- The limits on small counters, and the theorems at concrete inputs.
use brevyn_cloud.Base.{
  ℕ, suc, ◌+◌, ◌-◌, ◌*◌, ◌≡◌, ◌↔◌, refl, true, none, some, [], ◌∷◌, Text, codes, arith, All,
  text_eq, text_eq_refl, if◌then◌else◌, ◌==◌,
}
use brevyn_cloud.Operations.{minute}
use brevyn_cloud.Limits.{Redis, Rule, allowed, increment_rules}
use brevyn_cloud.Limits.Windows.{RedisValid, DistinctKeys, HasRoom, increment_rules_allowed}
use brevyn_cloud.Limits.Admin.{
  LoginLimiter, new_login_limiter, login_limit_key, login_blocked, record_login_failure,
  record_failures, failures_block,
}

-- A Redis that only counts: the windows never end.
abbrev counter : Redis
counter = record {
  Store = Text → ℕ;
  incr =
      λ key s. (some (suc (s key)), λ other. if text_eq key other then suc (s other) else s other);
  expire = λ key window s. (some true, s);
  ttl = λ key s. some 60;
  get = λ key s. some (if s key == 0 then none else some (s key));
  del = λ key s other. if text_eq key other then 0 else s other;
}

abbrev counter_valid : RedisValid counter
counter_valid = record {
  count_of = λ key s. s key;
  incr_answer = λ key s. refl;
  incr_count = λ key s. rw (text_eq_refl key) refl;
  incr_other = λ key other s h. rw h refl;
  expire_answer = λ key window s. refl;
  expire_count = λ key other window s. refl;
  get_answer = λ key s. refl;
}

abbrev fresh_store : Text → ℕ
fresh_store key = 0

abbrev busy_store : Text → ℕ
busy_store key = 18

abbrev user_rule : Rule
user_rule = record { key = codes "user:7"; limit = 20; window = 10 * minute }

abbrev code_rule : Rule
code_rule = record { key = codes "code:x"; limit = 5; window = 10 * minute }

rules_distinct : DistinctKeys (user_rule ∷ code_rule ∷ [])
unfolding text_eq
rules_distinct = ((refl, tt), (tt, tt))

increment_rules_allowed_example :
    ((increment_rules counter (user_rule ∷ code_rule ∷ []) fresh_store).0 ≡ allowed)
    ↔ All (HasRoom counter counter_valid fresh_store) (user_rule ∷ code_rule ∷ [])
increment_rules_allowed_example =
    increment_rules_allowed counter counter_valid (user_rule ∷ code_rule ∷ []) fresh_store
      rules_distinct

abbrev full_store : Text → ℕ
full_store key = 20

abbrev admin_limiter : LoginLimiter
admin_limiter = new_login_limiter 3 (15 * minute) (15 * minute)

no_attempt : admin_limiter.attempts (login_limit_key (codes "10.0.0.1") (codes "A@x")) ≡ none
unfolding new_login_limiter
no_attempt = refl

failures_block_example :
    (login_blocked (codes "10.0.0.1") (codes "A@x") 50 (
      record_login_failure
        (codes "10.0.0.1")
        (codes "A@x")
        30
        (record_failures (codes "10.0.0.1") (codes "A@x") (10 ∷ 20 ∷ []) admin_limiter))).0
    ≡ some (30 + 15 * minute - 50)
unfolding new_login_limiter
failures_block_example =
    failures_block (codes "10.0.0.1") (codes "A@x") 10 30 50 (20 ∷ []) admin_limiter no_attempt
      (omega arith, tt) (omega arith) (omega arith) (omega arith)
