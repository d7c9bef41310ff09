-- ===== src/Permits/Ends.antt =====
-- The loop for the permit ends, whatever Redis answers.
use brevyn_cloud.Base.{
  ℕ, zero, suc, ◌+◌, ◌*◌, ◌<◌, ◌≤◌, ◌≡◌, refl, Bool, true, false, Option, none, some, Text, arith,
  inl, inr, Bool-cases, ltb, ◌&&◌, ◌==◌,
}
use brevyn_cloud.Operations.{second}
use brevyn_cloud.Permits.{
  PermitRedis, millisecond, permit_timeout, Turn, turn_error, turn_full, turn_permitted,
  turn_limited, Permit, finish_turn, out_of_fuel, try_acquire_slot, permit_turn, real_wait,
  acquire_from, acquire_within, acquire_key_create_permit,
}

-- The loop has given an answer.
abbrev pub is_answer : Permit → Bool
is_answer out_of_fuel = false
is_answer _ = true

real_wait_positive : (wait : ℕ) → 1 ≤ real_wait wait
real_wait_positive wait = ground arith

-- The loop has given an answer, by the deadline.
abbrev pub EndsBy : {Store : Type 0} → ℕ → Permit × Store × ℕ → Type 0
EndsBy deadline (answer, s, end) = (is_answer answer ≡ true) × (end ≤ deadline)

module _ {Store : Type 0} (again : (clock : ℕ) → Store → Permit × Store × ℕ) (deadline clock : ℕ)
    (before : clock ≤ deadline)
    (more : (later : ℕ) (s : Store)
      → clock < later
      → later < deadline
      → EndsBy deadline (again later s)) where
  finish_turn_ends : (out : Turn × Store) → EndsBy deadline (finish_turn again deadline clock out)
  unfolding finish_turn
  finish_turn_ends (turn_error, s) = (refl, before)
  finish_turn_ends (turn_permitted taken, s) = (refl, before)
  finish_turn_ends (turn_full, s) = elim (Bool-cases (ltb (clock + 250 * millisecond) deadline)) [
    | inr e ↦ rw (e, finish_turn) (refl, omega arith)
    | inl e ↦
        rw (e, finish_turn) (more (clock + 250 * millisecond) s (omega arith) (ground (arith, e)))
  ]
  finish_turn_ends (turn_limited retry_after, s) =
      elim (Bool-cases (ltb (clock + real_wait retry_after) deadline)) [
        | inr e ↦ rw (e, finish_turn) (refl, omega arith)
        | inl e ↦
            rw (e, finish_turn)
              (more (clock + real_wait retry_after) s
                (omega (arith, real_wait_positive retry_after)) (ground (arith, e)))
      ]

module _ (redis : PermitRedis) (concurrency rate : ℕ) (token window : ℕ → Text)
    (others : ℕ → redis.Store → redis.Store) where
  acquire_from_ends :
      (deadline fuel clock : ℕ) (s : redis.Store)
      → clock ≤ deadline
      → deadline < fuel + clock
      → EndsBy deadline
          (acquire_from redis concurrency rate token window others deadline fuel clock s)
  unfolding acquire_from
  acquire_from_ends deadline zero clock s before enough = absurd (omega (arith, before, enough))
  acquire_from_ends deadline (suc fuel) clock s before enough =
      finish_turn_ends (acquire_from redis concurrency rate token window others deadline fuel)
        deadline clock before
        (λ later s' h k.
          acquire_from_ends deadline fuel later s' (omega (arith, k)) (omega (arith, h, k, enough)))
        (permit_turn redis concurrency rate (token clock) (window clock)
          (try_acquire_slot redis concurrency rate (token clock) (others clock s)))

  acquire_within_ends :
      (timeout : ℕ) (store : Option redis.Store) (clock : ℕ)
      → EndsBy
          (clock + timeout)
          (acquire_within redis concurrency rate token window others timeout store clock)
  unfolding acquire_within
  acquire_within_ends timeout none clock = (refl, omega arith)
  acquire_within_ends timeout (some s) clock = elim (Bool-cases (concurrency == 0 && rate == 0)) [
    | inl e ↦ rw (e, acquire_within) (refl, omega arith)
    | inr e ↦
        rw (e, acquire_within)
          (acquire_from_ends (clock + timeout) (suc timeout) clock s (omega arith) (omega arith))
  ]

  -- The wait for the permit ends with an answer by fifteen seconds after it has begun, whatever
  -- Redis answers and other processes do, where time passes in the sleeps only and the commands of
  -- Redis take none: every turn sleeps, and no sleep goes on beyond the deadline.
  pub acquire_key_create_permit_ends :
      (store : Option redis.Store) (clock : ℕ)
      → EndsBy
          (clock + 15 * second)
          (acquire_key_create_permit redis concurrency rate token window others store clock)
  unfolding acquire_key_create_permit
  acquire_key_create_permit_ends store clock = acquire_within_ends permit_timeout store clock
