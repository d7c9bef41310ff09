-- ===== src/Limits/Admin.antt =====
-- internal/admin/handler.go: the `loginLimiter` that an API process keeps in memory for the
-- administrators. The map is a function from its keys, the zero time is `none`, and times and
-- durations are nanoseconds.
use brevyn_cloud.Base.{
  ℕ, suc, ◌+◌, ◌-◌, ◌≤◌, ◌<◌, ◌≡◌, refl, sym, ap, subst, ◌∙◌, Bool, true, false, ◌&&◌, not, Option,
  none, some, List, [], ◌∷◌, ◌++◌, Text, arith, inl, inr, ltb, leb, if◌then◌else◌, All, Bool-cases,
  text_eq, text_eq_refl, to_lower, trim_space, length,
}

-- `loginAttempt`
pub record LoginAttempt : Type 0 where
  pub failures : ℕ
  pub first_failure : ℕ
  pub blocked_until : Option ℕ

-- `loginLimiter`
pub record LoginLimiter : Type 0 where
  pub max_failures : ℕ
  pub window : ℕ
  pub block_duration : ℕ
  pub attempts : Text → Option LoginAttempt

-- `newLoginLimiter`
unfoldable pub new_login_limiter : (max_failures window block_duration : ℕ) → LoginLimiter
new_login_limiter max_failures window block_duration = record {
  max_failures = max_failures;
  window = window;
  block_duration = block_duration;
  attempts = λ key. none;
}

-- `loginLimitKey`
pub login_limit_key : (ip email : Text) → Text
login_limit_key ip email = trim_space ip ++ (0 ∷ to_lower (trim_space email))

-- `l.attempts[key] = attempt`, and `delete(l.attempts, key)` for `none`
pub set_attempt : Text → Option LoginAttempt → LoginLimiter → LoginLimiter
set_attempt key attempt l = record l {
  attempts = λ k. if text_eq k key then attempt else l.attempts k;
}

-- `now.Before(attempt.blockedUntil)` where that is no zero time
abbrev pub is_blocked_at : ℕ → Option ℕ → Bool
is_blocked_at now none = false
is_blocked_at now (some t) = ltb now t

-- `blocked`: how long the key is blocked, if it is.
pub login_blocked : (ip email : Text) (now : ℕ) → LoginLimiter → Option ℕ × LoginLimiter
unfolding login_limit_key set_attempt
login_blocked ip email now l = elim (l.attempts (login_limit_key ip email)) [
  | none ↦ (none, l)
  | some attempt ↦ elim attempt.blocked_until [
    | none ↦ (none, l)
    | some t ↦
        if ltb now t
        then (some (t - now), l)
        else (none, set_attempt (login_limit_key ip email) none l)
  ]
]

-- `now.Sub(first) > window`
abbrev pub is_over : ℕ → ℕ → ℕ → Bool
is_over now first window = ltb (first + window) now

-- What `pruneExpired` leaves of an attempt.
pub prune : (now window : ℕ) → Option LoginAttempt → Option LoginAttempt
prune now window none = none
prune now window (some attempt) =
    if not (is_blocked_at now attempt.blocked_until) && is_over now attempt.first_failure window
    then none
    else some attempt

-- `pruneExpired`
pub prune_expired : ℕ → LoginLimiter → LoginLimiter
unfolding prune
prune_expired now l = record l { attempts = λ key. prune now l.window (l.attempts key) }

-- The attempt that a failure counts on: the one of the key, or a new one.
pub attempt_to_count : (now window : ℕ) → Option LoginAttempt → LoginAttempt
attempt_to_count now window none = record {
  failures = 0;
  first_failure = now;
  blocked_until = none;
}
attempt_to_count now window (some attempt) =
    if is_over now attempt.first_failure window
    then record { failures = 0; first_failure = now; blocked_until = none }
    else attempt

-- The failure counted, and the block that the last one sets.
pub count_failure : (now max_failures block_duration : ℕ) → LoginAttempt → LoginAttempt
count_failure now max_failures block_duration attempt = record attempt {
  failures = suc attempt.failures;
  blocked_until =
      if leb max_failures (suc attempt.failures)
      then some (now + block_duration)
      else attempt.blocked_until;
}

-- `recordFailure`
pub record_login_failure : (ip email : Text) (now : ℕ) → LoginLimiter → LoginLimiter
unfolding login_limit_key set_attempt prune_expired attempt_to_count count_failure
record_login_failure ip email now l =
    let key = login_limit_key ip email in
    let l' = prune_expired now l in
    set_attempt key
      (some (
        count_failure now l.max_failures l.block_duration
          (attempt_to_count now l.window (l'.attempts key))))
      l'

-- `recordSuccess`
unfoldable pub record_login_success : (ip email : Text) → LoginLimiter → LoginLimiter
unfolding login_limit_key set_attempt
record_login_success ip email l = set_attempt (login_limit_key ip email) none l

-- The failures at these times, in order.
abbrev pub record_failures : (ip email : Text) → List ℕ → LoginLimiter → LoginLimiter
record_failures ip email [] l = l
record_failures ip email (t ∷ ts) l =
    record_failures ip email ts (record_login_failure ip email t l)

module _ (ip email : Text) where
  -- The key has counted so many failures since `first`, and blocks if these are enough.
  abbrev Counted : (first n : ℕ) → LoginLimiter → Type 0
  Counted first n l =
      (attempt : LoginAttempt) × (l.attempts (login_limit_key ip email) ≡ some attempt)
      × (attempt.failures ≡ n)
      × (attempt.first_failure ≡ first)

  recorded_attempt :
      (now : ℕ) (l : LoginLimiter)
      → (record_login_failure ip email now l).attempts (login_limit_key ip email)
        ≡ some (
            count_failure now l.max_failures l.block_duration (
              attempt_to_count now l.window
                (prune now l.window (l.attempts (login_limit_key ip email)))))
  unfolding record_login_failure set_attempt prune_expired
  recorded_attempt now l = rw (text_eq_refl (login_limit_key ip email)) refl

  counted_on :
      (now window : ℕ) (attempt : LoginAttempt)
      → now ≤ attempt.first_failure + window
      → attempt_to_count now window (prune now window (some attempt)) ≡ attempt
  unfolding prune attempt_to_count
  counted_on now window attempt within =
      let fresh : is_over now attempt.first_failure window ≡ false = ground (arith, within) in
      let kept : prune now window (some attempt) ≡ some attempt =
        elim (Bool-cases (is_blocked_at now attempt.blocked_until)) [
          | inl b ↦ rw (b, prune) refl
          | inr b ↦ rw (b, prune, fresh) refl
        ] in
      ap (attempt_to_count now window) kept ∙ rw (fresh, attempt_to_count) refl

  -- The limiter after a failure within the window of the first one.
  next_attempt :
      (now : ℕ) (l : LoginLimiter) (attempt : LoginAttempt)
      → l.attempts (login_limit_key ip email) ≡ some attempt
      → now ≤ attempt.first_failure + l.window
      → (record_login_failure ip email now l).attempts (login_limit_key ip email)
        ≡ some (count_failure now l.max_failures l.block_duration attempt)
  next_attempt now l attempt e within =
      recorded_attempt now l
      ∙ ap
          (λ (o : Option LoginAttempt). some (
            count_failure now l.max_failures l.block_duration
              (attempt_to_count now l.window (prune now l.window o))))
          e
      ∙ ap (λ (a : LoginAttempt). some (count_failure now l.max_failures l.block_duration a))
          (counted_on now l.window attempt within)

  first_failure-Counted :
      (now : ℕ) (l : LoginLimiter)
      → l.attempts (login_limit_key ip email) ≡ none
      → Counted now 1 (record_login_failure ip email now l)
  unfolding prune attempt_to_count count_failure
  first_failure-Counted now l e = (
    count_failure now l.max_failures l.block_duration
        (record { failures = 0; first_failure = now; blocked_until = none }),
    recorded_attempt now l
        ∙ ap
            (λ (o : Option LoginAttempt). some (
              count_failure now l.max_failures l.block_duration
                (attempt_to_count now l.window (prune now l.window o))))
            e,
    refl,
    refl,
  )

  next_failure-Counted :
      (first n now : ℕ) (l : LoginLimiter)
      → now ≤ first + l.window
      → Counted first n l
      → Counted first (suc n) (record_login_failure ip email now l)
  unfolding count_failure
  next_failure-Counted first n now l within (attempt, e, count, start) = (
    count_failure now l.max_failures l.block_duration attempt,
    next_attempt now l attempt e (omega (arith, within, start)),
    ap suc count,
    start,
  )

  -- The configuration of a limiter does not change.
  same_window :
      (now : ℕ) (l : LoginLimiter) → (record_login_failure ip email now l).window ≡ l.window
  unfolding record_login_failure set_attempt prune_expired
  same_window now l = refl

  same_settings :
      (ts : List ℕ) (l : LoginLimiter)
      → let l' = record_failures ip email ts l in
        (l'.window ≡ l.window)
        × (l'.max_failures ≡ l.max_failures)
        × (l'.block_duration ≡ l.block_duration)
  unfolding record_login_failure set_attempt prune_expired
  same_settings [] l = (refl, refl, refl)
  same_settings (t ∷ ts) l = same_settings ts (record_login_failure ip email t l)

  failures-Counted :
      (first n : ℕ) (ts : List ℕ) (l : LoginLimiter)
      → All (λ t. t ≤ first + l.window) ts
      → Counted first n l
      → Counted first (n + length ts) (record_failures ip email ts l)
  failures-Counted first n [] l h c = subst (λ m. Counted first m l) (omega arith) c
  failures-Counted first n (t ∷ ts) l h c =
      subst (λ m. Counted first m (record_failures ip email (t ∷ ts) l)) (omega arith)
        (failures-Counted first (suc n) ts (record_login_failure ip email t l)
          (subst (λ w. All (λ u. u ≤ first + w) ts) (sym (same_window t l)) h.1)
          (next_failure-Counted first n t l h.0 c))

  blocked_answer :
      (u until : ℕ) (l : LoginLimiter) (attempt : LoginAttempt)
      → l.attempts (login_limit_key ip email) ≡ some attempt
      → attempt.blocked_until ≡ some until
      → u < until
      → (login_blocked ip email u l).0 ≡ some (until - u)
  unfolding login_blocked
  blocked_answer u until l attempt e b early =
      let in_time : ltb u until ≡ true = ground (arith, early) in
      rw (e, login_blocked, b, in_time) refl

  -- Enough failures block: a first failure, others, and a last one, all within the window of the
  -- first and together at least `max_failures`, block the address and email for `block_duration`
  -- from the last one on, and the wait that is answered is what is left of it.
  pub failures_block :
      (first last u : ℕ) (ts : List ℕ) (l : LoginLimiter)
      → l.attempts (login_limit_key ip email) ≡ none
      → All (λ t. t ≤ first + l.window) ts
      → last ≤ first + l.window
      → l.max_failures ≤ suc (suc (length ts))
      → u < last + l.block_duration
      → (login_blocked ip email u
          (record_login_failure ip email last (record_failures ip email (first ∷ ts) l))).0
        ≡ some (last + l.block_duration - u)
  unfolding count_failure
  failures_block first last u ts l none_yet within last_within enough early =
      let l1 = record_login_failure ip email first l in
      let l2 = record_failures ip email ts l1 in
      let (same_w, same_m, same_b) = same_settings (first ∷ ts) l in
      let (attempt, e, count, start) =
        failures-Counted first 1 ts l1
          (subst (λ w. All (λ t. t ≤ first + w) ts) (sym (same_window first l)) within)
          (first_failure-Counted first l none_yet) in
      let used_up : leb l2.max_failures (suc attempt.failures) ≡ true =
        ground (arith, enough, count, same_m) in
      subst
        (λ b.
          (login_blocked ip email u (record_login_failure ip email last l2)).0
          ≡ some (last + b - u))
        same_b
        (blocked_answer u (last + l2.block_duration) (record_login_failure ip email last l2)
          (count_failure last l2.max_failures l2.block_duration attempt)
          (next_attempt last l2 attempt e (omega (arith, last_within, start, same_w)))
          (rw used_up refl) (omega (arith, early, same_b)))
