-- ===== src/Permits.antt =====
-- internal/redeem/gateway_sync_service.go, `acquireSub2APIKeyCreatePermit`: the permit to create an
-- API key at the gateway, by a slot and by a rate for each minute, both in Redis. A limit that is
-- not positive is 0, and means that there is none. Times are nanoseconds, but a script answers
-- milliseconds.
pub mod Ends
pub mod Released
mod Examples
use brevyn_cloud.Base.{
  ℕ, zero, suc, ◌+◌, ◌*◌, Bool, true, false, ◌&&◌, not, Option, none, some, Text, codes, itoa, leb,
  ltb, ◌==◌, ◌++◌, if◌then◌else◌,
}
use brevyn_cloud.Operations.{second, minute}

-- The commands of Redis that the permit uses; `none` is an error. `release` is the script that
-- deletes a key only if it holds the token, and says whether Redis has run it. `pttl` answers `none` for a key without an expiry.
pub record PermitRedis : Type 1 where
  pub Store : Type 0
  pub set_nx : (key token : Text) → (ttl : ℕ) → Store → Option Bool × Store
  pub release : (key token : Text) → Store → Bool × Store
  pub get : (key : Text) → Store → Option ℕ
  pub incr : (key : Text) → Store → ℕ × Store
  pub pexpire : (key : Text) → (ms : ℕ) → Store → Store
  pub pttl : (key : Text) → Store → Option ℕ
  pub runs_scripts : Store → Bool

abbrev pub millisecond : ℕ
millisecond = 1000000

-- `sub2APIKeyCreateSlotTTL` and `sub2APIKeyCreatePermitTimeout`
abbrev pub slot_ttl : ℕ
slot_ttl = 2 * minute

abbrev pub permit_timeout : ℕ
permit_timeout = 15 * second

abbrev pub slot_key : ℕ → Text
slot_key i = codes "brevyn:lock:sub2api:key-create:slot:" ++ itoa i

-- What `tryAcquireSub2APIKeyCreateSlot` answers; without a limit there is no slot to take.
pub data SlotAnswer : Type 0 where
  slot_error slots_full unlimited : SlotAnswer
  slot : ℕ → SlotAnswer

-- What `allowSub2APIKeyCreateRate` answers
pub data RateAnswer : Type 0 where
  rate_error rate_allowed : RateAnswer
  rate_limited : (retry_after : ℕ) → RateAnswer

-- What one turn of the loop gives.
pub data Turn : Type 0 where
  turn_error turn_full : Turn
  turn_permitted : SlotAnswer → Turn
  turn_limited : (retry_after : ℕ) → Turn

-- What `acquireSub2APIKeyCreatePermit` answers; `out_of_fuel` is only of the model.
pub data Permit : Type 0 where
  permitted : SlotAnswer → Permit
  permit_error concurrency_full out_of_fuel : Permit
  rate_limit_reached : (retry_after : ℕ) → Permit

module _ (redis : PermitRedis) (concurrency rate : ℕ) (token : Text) where
  -- The loop over the slots
  pub try_slots : (left i : ℕ) → redis.Store → SlotAnswer × redis.Store
  try_slots zero i s = (slots_full, s)
  try_slots (suc left) i s =
      let (locked, s') = redis.set_nx (slot_key i) token slot_ttl s in
      elim locked [
        | none ↦ (slot_error, s')
        | some true ↦ (slot i, s')
        | some false ↦ try_slots left (suc i) s'
      ]

  -- `tryAcquireSub2APIKeyCreateSlot`
  pub try_acquire_slot : redis.Store → SlotAnswer × redis.Store
  unfolding try_slots
  try_acquire_slot s = if concurrency == 0 then (unlimited, s) else try_slots concurrency 0 s

  -- The release of what `tryAcquireSub2APIKeyCreateSlot` has given; its error is ignored.
  pub release_slot : SlotAnswer → redis.Store → redis.Store
  release_slot (slot i) s = (redis.release (slot_key i) token s).1
  release_slot _ s = s

  abbrev pub ttl_or_minute : Option ℕ → ℕ
  ttl_or_minute none = 60000
  ttl_or_minute (some ms) = ms

  abbrev pub count_or_zero : Option ℕ → ℕ
  count_or_zero none = 0
  count_or_zero (some count) = count

  -- The script of `allowSub2APIKeyCreateRate`: whether it allows, the milliseconds, and the store.
  pub rate_script : (key : Text) → redis.Store → (Bool × ℕ) × redis.Store
  rate_script key s =
      if leb rate (count_or_zero (redis.get key s))
      then ((false, ttl_or_minute (redis.pttl key s)), s)
      else let (count, s') = redis.incr key s in
        let s'' = if count == 1 then redis.pexpire key 60000 s' else s' in
        ((true, ttl_or_minute (redis.pttl key s'')), s'')

  -- The answer to what the script gives.
  pub rate_answer : Bool × ℕ → RateAnswer
  rate_answer (true, ms) = rate_allowed
  rate_answer (false, ms) =
      let retry_after = ms * millisecond in
      rate_limited (if retry_after == 0 then minute else retry_after)

  -- `allowSub2APIKeyCreateRate`; `window` is the minute in the key.
  pub allow_rate : (window : Text) → redis.Store → RateAnswer × redis.Store
  unfolding rate_script rate_answer
  allow_rate window s =
      if rate == 0
      then (rate_allowed, s)
      else if not (redis.runs_scripts s)
      then (rate_error, s)
      else let (answer, s') = rate_script (codes "brevyn:rl:sub2api:key-create:" ++ window) s in
        (rate_answer answer, s')

  -- The turn after a slot: without the permit the slot is released.
  pub turn_with_slot : SlotAnswer → RateAnswer × redis.Store → Turn × redis.Store
  unfolding release_slot
  turn_with_slot taken (rate_error, s) = (turn_error, release_slot taken s)
  turn_with_slot taken (rate_allowed, s) = (turn_permitted taken, s)
  turn_with_slot taken (rate_limited retry_after, s) =
      (turn_limited retry_after, release_slot taken s)

  -- One turn of the loop
  pub permit_turn : (window : Text) → SlotAnswer × redis.Store → Turn × redis.Store
  unfolding turn_with_slot allow_rate
  permit_turn window (slot_error, s) = (turn_error, s)
  permit_turn window (slots_full, s) = (turn_full, s)
  permit_turn window (taken, s) = turn_with_slot taken (allow_rate window s)

-- The wait of `sleepSub2APIKeyCreateWait`
abbrev pub real_wait : ℕ → ℕ
real_wait wait = if wait == 0 then 250 * millisecond else wait

module _ {Store : Type 0} where
  -- The end of a turn: a sleep to the deadline or over it ends the loop at the deadline, else it
  -- goes on with `again`. The last component is the time at which the loop ends.
  pub finish_turn :
      (again : (clock : ℕ) → Store → Permit × Store × ℕ) (deadline clock : ℕ)
      → Turn × Store
      → Permit × Store × ℕ
  finish_turn again deadline clock (turn_error, s) = (permit_error, s, clock)
  finish_turn again deadline clock (turn_permitted taken, s) = (permitted taken, s, clock)
  finish_turn again deadline clock (turn_full, s) =
      if ltb (clock + 250 * millisecond) deadline
      then again (clock + 250 * millisecond) s
      else (concurrency_full, s, deadline)
  finish_turn again deadline clock (turn_limited retry_after, s) =
      if ltb (clock + real_wait retry_after) deadline
      then again (clock + real_wait retry_after) s
      else (rate_limit_reached retry_after, s, deadline)

module _ (redis : PermitRedis) (concurrency rate : ℕ) (token window : ℕ → Text)
    (others : ℕ → redis.Store → redis.Store) where
  -- The loop of `acquireSub2APIKeyCreatePermit`. What other processes do before a turn is `others`;
  -- each turn has a new token. The clock counts the sleeps; the commands of Redis take no time here,
  -- and the program gives them the same deadline.
  pub acquire_from : (deadline fuel clock : ℕ) → redis.Store → Permit × redis.Store × ℕ
  unfolding permit_turn try_acquire_slot finish_turn
  acquire_from deadline zero clock s = (out_of_fuel, s, clock)
  acquire_from deadline (suc fuel) clock s =
      finish_turn (acquire_from deadline fuel) deadline clock (
        permit_turn redis concurrency rate (token clock) (window clock)
          (try_acquire_slot redis concurrency rate (token clock) (others clock s)))

  -- `acquireSub2APIKeyCreatePermit` with a timeout; the fuel is one turn for each nanosecond of it,
  -- and one more.
  pub acquire_within :
      (timeout : ℕ) → Option redis.Store → (clock : ℕ) → Permit × Option redis.Store × ℕ
  unfolding acquire_from
  acquire_within timeout none clock = (permitted unlimited, none, clock)
  acquire_within timeout (some s) clock =
      if concurrency == 0 && rate == 0
      then (permitted unlimited, some s, clock)
      else let (permit, s', end) = acquire_from (clock + timeout) (suc timeout) clock s in
        (permit, some s', end)

  -- `acquireSub2APIKeyCreatePermit`
  pub acquire_key_create_permit : Option redis.Store → (clock : ℕ) → Permit × Option redis.Store × ℕ
  acquire_key_create_permit = acquire_within permit_timeout
