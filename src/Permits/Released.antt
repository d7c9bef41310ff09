-- ===== src/Permits/Released.antt =====
-- A turn that does not give the permit leaves no slot behind.
use brevyn_cloud.Base.{
  ℕ, zero, suc, ◌≡◌, ◌≢◌, refl, sym, ◌∙◌, ap, subst, true, false, Option, some, Text, codes, inl,
  inr, Bool-cases, Option-cases, text_eq, text_eq_sound, leb, ◌==◌, ◌++◌, ◌⊎◌, none, false,
}
use brevyn_cloud.Permits.{
  PermitRedis, slot_ttl, slot_key, SlotAnswer, slot, slots_full, slot_error, unlimited, RateAnswer,
  rate_error, rate_allowed, rate_limited, Turn, turn_permitted, turn_full, turn_error, turn_limited,
  try_slots, try_acquire_slot, release_slot, rate_script, count_or_zero, allow_rate, turn_with_slot,
  permit_turn,
}

-- What Redis documents of the commands: who holds a key. Of a command that has failed it is only
-- said that other keys are as they were.
pub record SlotsValid (redis : PermitRedis) : Type 0 where
  pub holder : Text → redis.Store → Option Text
  pub set_nx_refused :
      (key other token : Text) (ttl : ℕ) (s : redis.Store)
      → (redis.set_nx key token ttl s).0 ≡ some false
      → holder other (redis.set_nx key token ttl s).1 ≡ holder other s
  pub set_nx_other :
      (key other token : Text) (ttl : ℕ) (s : redis.Store)
      → text_eq key other ≡ false
      → holder other (redis.set_nx key token ttl s).1 ≡ holder other s
  pub release_own :
      (key token : Text) (s : redis.Store)
      → (redis.release key token s).0 ≡ true
      → holder key (redis.release key token s).1 ≢ some token
  pub release_other :
      (key other token : Text) (s : redis.Store)
      → text_eq key other ≡ false
      → holder other (redis.release key token s).1 ≡ holder other s
  pub incr_other :
      (key other : Text) (s : redis.Store)
      → text_eq key other ≡ false
      → holder other (redis.incr key s).1 ≡ holder other s
  pub pexpire_keeps :
      (key other : Text) (ms : ℕ) (s : redis.Store)
      → holder other (redis.pexpire key ms s) ≡ holder other s

module _ (redis : PermitRedis) (valid : SlotsValid redis) (concurrency rate : ℕ)
    (token : Text) where
  -- The token holds no slot.
  abbrev pub HoldsNone : redis.Store → Type 0
  HoldsNone s = (i : ℕ) → valid.holder (slot_key i) s ≢ some token

  -- The last command has failed: a `SET NX` of a slot, or the script that releases one.
  pub data CommandFailed : redis.Store → Type 0 where
    set_failed :
        (i : ℕ) (s : redis.Store)
        → (redis.set_nx (slot_key i) token slot_ttl s).0 ≡ none
        → CommandFailed (redis.set_nx (slot_key i) token slot_ttl s).1
    release_failed :
        (i : ℕ) (s : redis.Store)
        → (redis.release (slot_key i) token s).0 ≡ false
        → CommandFailed (redis.release (slot_key i) token s).1

  -- … or only the slot that was taken.
  abbrev HoldsOnly : SlotAnswer × redis.Store → Type 0
  HoldsOnly (slot_error, s) = CommandFailed s
  HoldsOnly (slot i, s) =
      (j : ℕ) → text_eq (slot_key i) (slot_key j) ≡ false → valid.holder (slot_key j) s ≢ some token
  HoldsOnly (_, s) = HoldsNone s

  try_slots-HoldsOnly :
      (left i : ℕ) (s : redis.Store)
      → HoldsNone s
      → HoldsOnly (try_slots redis concurrency rate token left i s)
  unfolding try_slots
  try_slots-HoldsOnly zero i s free = free
  try_slots-HoldsOnly (suc left) i s free =
      let s' = (redis.set_nx (slot_key i) token slot_ttl s).1 in
      elim (Option-cases (redis.set_nx (slot_key i) token slot_ttl s).0) [
        | inl e ↦ rw (e, try_slots) (set_failed i s e)
        | inr (locked, e) ↦ elim (Bool-cases locked) [
          | inl got ↦
              let taken : (redis.set_nx (slot_key i) token slot_ttl s).0 ≡ some true =
                e ∙ ap some got in
              rw (taken, try_slots)
                (λ j other h.
                  free j
                    (sym (valid.set_nx_other (slot_key i) (slot_key j) token slot_ttl s other) ∙ h))
          | inr missed ↦
              let busy : (redis.set_nx (slot_key i) token slot_ttl s).0 ≡ some false =
                e ∙ ap some missed in
              rw (busy, try_slots)
                (try_slots-HoldsOnly left (suc i) s' (λ j h.
                  free j (
                    sym (valid.set_nx_refused (slot_key i) (slot_key j) token slot_ttl s busy)
                    ∙ h)))
        ]
      ]

  acquired-HoldsOnly :
      (s : redis.Store) → HoldsNone s → HoldsOnly (try_acquire_slot redis concurrency rate token s)
  unfolding try_acquire_slot
  acquired-HoldsOnly s free = elim (Bool-cases (concurrency == 0)) [
    | inl e ↦ rw (e, try_acquire_slot) free
    | inr e ↦ rw (e, try_acquire_slot) (try_slots-HoldsOnly concurrency 0 s free)
  ]

  -- What is left of the slots when the turn gives no permit.
  abbrev pub Freed : redis.Store → Type 0
  Freed s = HoldsNone s ⊎ CommandFailed s

  released-Freed :
      (taken : SlotAnswer) (s : redis.Store)
      → HoldsOnly (taken, s)
      → Freed (release_slot redis concurrency rate token taken s)
  unfolding release_slot
  released-Freed slot_error s failed = inr failed
  released-Freed slots_full s free = inl free
  released-Freed unlimited s free = inl free
  released-Freed (slot i) s only = elim (Bool-cases (redis.release (slot_key i) token s).0) [
    | inr e ↦ inr (release_failed i s e)
    | inl ran ↦ inl (λ j h. elim (Bool-cases (text_eq (slot_key i) (slot_key j))) [
      | inl e ↦
          let same : slot_key j ≡ slot_key i = sym (text_eq_sound (slot_key i) (slot_key j) e) in
          valid.release_own (slot_key i) token s ran (
            subst (λ key. valid.holder key (redis.release (slot_key i) token s).1 ≡ some token) same
              h)
      | inr e ↦ only j e (sym (valid.release_other (slot_key i) (slot_key j) token s e) ∙ h)
    ])
  ]

  rate_key-slot_key :
      (window : Text) (j : ℕ)
      → text_eq (codes "brevyn:rl:sub2api:key-create:" ++ window) (slot_key j) ≡ false
  unfolding text_eq
  rate_key-slot_key window j = refl

  script_keeps :
      (window : Text) (j : ℕ) (s : redis.Store)
      → valid.holder
          (slot_key j)
          (rate_script redis concurrency rate token
            (codes "brevyn:rl:sub2api:key-create:" ++ window)
            s).1
        ≡ valid.holder (slot_key j) s
  unfolding rate_script
  script_keeps window j s =
      let key = codes "brevyn:rl:sub2api:key-create:" ++ window in
      let counted = valid.incr_other key (slot_key j) s (rate_key-slot_key window j) in
      elim (Bool-cases (leb rate (count_or_zero redis concurrency rate token (redis.get key s)))) [
        | inl e ↦ rw (e, rate_script) refl
        | inr e ↦ elim (Bool-cases ((redis.incr key s).0 == 1)) [
          | inl first ↦
              rw (e, rate_script, first)
                (valid.pexpire_keeps key (slot_key j) 60000 (redis.incr key s).1 ∙ counted)
          | inr later ↦ rw (e, rate_script, later) counted
        ]
      ]

  rate_keeps :
      (window : Text) (j : ℕ) (s : redis.Store)
      → valid.holder (slot_key j) (allow_rate redis concurrency rate token window s).1
        ≡ valid.holder (slot_key j) s
  unfolding allow_rate
  rate_keeps window j s = elim (Bool-cases (rate == 0)) [
    | inl e ↦ rw (e, allow_rate) refl
    | inr e ↦ elim (Bool-cases (redis.runs_scripts s)) [
      | inr off ↦ rw (e, off, allow_rate) refl
      | inl on ↦ rw (e, on, allow_rate) (script_keeps window j s)
    ]
  ]

  -- A turn that ends with the permit says nothing, and one that finds every slot held takes none;
  -- another has left no slot, or the command with which it ended has failed.
  abbrev pub LeavesNone : Turn × redis.Store → Type 0
  LeavesNone (turn_permitted taken, s) = Unit
  LeavesNone (turn_full, s) = HoldsNone s
  LeavesNone (turn_error, s) = Freed s
  LeavesNone (turn_limited retry_after, s) = Freed s

  turn-LeavesNone :
      (taken : SlotAnswer) (out : RateAnswer × redis.Store)
      → HoldsOnly (taken, out.1)
      → LeavesNone (turn_with_slot redis concurrency rate token taken out)
  unfolding turn_with_slot
  turn-LeavesNone taken (rate_error, s) only = released-Freed taken s only
  turn-LeavesNone taken (rate_allowed, s) only = tt
  turn-LeavesNone taken (rate_limited retry_after, s) only = released-Freed taken s only

  permit_turn-LeavesNone :
      (window : Text) (out : SlotAnswer × redis.Store)
      → HoldsOnly out
      → LeavesNone (permit_turn redis concurrency rate token window out)
  unfolding permit_turn
  permit_turn-LeavesNone window (slot_error, s) failed = inr failed
  permit_turn-LeavesNone window (slots_full, s) free = free
  permit_turn-LeavesNone window (unlimited, s) free =
      turn-LeavesNone unlimited (allow_rate redis concurrency rate token window s)
        (λ j h. free j (sym (rate_keeps window j s) ∙ h))
  permit_turn-LeavesNone window (slot i, s) only =
      turn-LeavesNone (slot i) (allow_rate redis concurrency rate token window s)
        (λ j other h. only j other (sym (rate_keeps window j s) ∙ h))

  -- A turn whose token holds no slot before, and that does not give the permit, leaves no slot
  -- behind that the token holds: what it took is released when the rate is reached or its script
  -- fails. The exception is a turn whose last command, a `SET NX` of a slot or the script that
  -- releases one, has itself failed: there the slot may stay until its expiry.
  pub refused_turn_releases :
      (window : Text) (s : redis.Store)
      → HoldsNone s
      → LeavesNone (
          permit_turn redis concurrency rate token window
            (try_acquire_slot redis concurrency rate token s))
  refused_turn_releases window s free = permit_turn-LeavesNone window _ (acquired-HoldsOnly s free)
