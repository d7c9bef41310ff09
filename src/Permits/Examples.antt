-- ===== src/Permits/Examples.antt =====
-- A Redis of which every slot is taken, and the theorem at a concrete input.
use brevyn_cloud.Base.{
  ◌+◌, ◌*◌, ℕ, suc, ◌≡◌, ◌≢◌, refl, subst, Bool, ◌&&◌, true, false, Option, none, some, Text, codes,
  arith, inl, inr, Bool-cases, text_eq, text_eq_refl, if◌then◌else◌,
}
use brevyn_cloud.Operations.{second}
use brevyn_cloud.Permits.{PermitRedis, acquire_key_create_permit, permit_turn, try_acquire_slot}
use brevyn_cloud.Permits.Released.{SlotsValid, LeavesNone, refused_turn_releases}
use brevyn_cloud.Permits.Ends.{EndsBy, acquire_key_create_permit_ends}

abbrev busy : PermitRedis
busy = record {
  Store = ℕ;
  set_nx = λ key token ttl s. (some false, suc s);
  release = λ key token s. (true, s);
  get = λ key s. none;
  incr = λ key s. (1, s);
  pexpire = λ key ms s. s;
  pttl = λ key s. some 60000;
  runs_scripts = λ s. true;
}

acquire_key_create_permit_ends_example : EndsBy (100 + 15 * second) (
    acquire_key_create_permit busy 3 15
      (λ t. codes "t")
      (λ t. codes "1200")
      (λ t s. s)
      (some 0)
      100)
acquire_key_create_permit_ends_example =
    acquire_key_create_permit_ends busy 3 15 (λ t. codes "t") (λ t. codes "1200") (λ t s. s)
      (some 0) 100

abbrev holds : Text → Option Text → Bool
holds token none = false
holds token (some t) = text_eq t token

-- `SetNX` where the key is held by `o`.
abbrev take :
    Text → Text → (Text → Option Text) × ℕ → Option Text → Option Bool × ((Text → Option Text) × ℕ)
take key token s none =
    (some true, ((λ other. if text_eq key other then some token else s.0 other), s.1))
take key token s (some t) = (some false, s)

-- A Redis that keeps the holders of the slots, and one counter.
abbrev slots : PermitRedis
slots = record {
  Store = (Text → Option Text) × ℕ;
  set_nx = λ key token ttl s. take key token s (s.0 key);
  release = λ key token s. (
    true,
    ((λ other. if text_eq key other && holds token (s.0 other) then none else s.0 other), s.1),
  );
  get = λ key s. some s.1;
  incr = λ key s. (suc s.1, (s.0, suc s.1));
  pexpire = λ key ms s. s;
  pttl = λ key s. some 60000;
  runs_scripts = λ s. true;
}

take_refused :
    (key other token : Text) (s : slots.Store) (o : Option Text)
    → (take key token s o).0 ≡ some false
    → (take key token s o).1.0 other ≡ s.0 other
take_refused key other token s none h = absurd (ground (arith, h))
take_refused key other token s (some t) h = refl

take_other :
    (key other token : Text) (s : slots.Store) (o : Option Text)
    → text_eq key other ≡ false
    → (take key token s o).1.0 other ≡ s.0 other
take_other key other token s none h = rw h refl
take_other key other token s (some t) h = refl

release_held : (token : Text) (o : Option Text) → (if holds token o then none else o) ≢ some token
release_held token none h = ground (arith, h)
release_held token (some t) h = elim (Bool-cases (text_eq t token)) [
  | inl e ↦ ground (arith, h, e)
  | inr e ↦
      let same : t ≡ token = ground (arith, h, e) in
      ground (arith, e, subst (λ x. text_eq t x ≡ true) same (text_eq_refl t))
]

abbrev slots_valid : SlotsValid slots
slots_valid = record {
  holder = λ key s. s.0 key;
  set_nx_refused = λ key other token ttl s h. take_refused key other token s (s.0 key) h;
  set_nx_other = λ key other token ttl s h. take_other key other token s (s.0 key) h;
  release_own = λ key token s ran h. release_held token (s.0 key) (rw (text_eq_refl key) at h);
  release_other = λ key other token s h. rw h refl;
  incr_other = λ key other s h. refl;
  pexpire_keeps = λ key other ms s. refl;
}

refused_turn_releases_example : LeavesNone slots slots_valid 3 15 (codes "t") (
    permit_turn slots 3 15
      (codes "t")
      (codes "1200")
      (try_acquire_slot slots 3 15 (codes "t") ((λ key. none), 15)))
refused_turn_releases_example =
    refused_turn_releases slots slots_valid 3 15 (codes "t") (codes "1200") ((λ key. none), 15)
      (λ i h. ground (arith, h))
