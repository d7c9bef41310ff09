-- ===== src/Redeem/Steps.antt =====
-- What a redemption leaves of the tables.
use brevyn_cloud.Base.{
  ℕ, ◌≡◌, ◌⊎◌, refl, ap, Bool, true, false, none, some, List, [], ◌∷◌, Text, arith, inl, inr, find,
  find-update_where, count_where, count_where-append, Bool-cases, update_where, if◌then◌else◌, ◌==◌,
  ==_refl,
}
use brevyn_cloud.Redeem.{
  Amounts, Kind, balance, subscription, unsupported, RedeemCode, Redemption, WalletTransaction,
  Database, PendingRedemption, wallet_balance, RedeemError, Redeemed, refused, accepted,
  normalize_code, FreshIds, is_expired, is_unused, is_unused_id, use_code, new_redemption, credit,
  is_redemption_of, commit_redemption, mark_redeemed_locally,
}
use brevyn_cloud.Redeem.Outcomes.{has_code_hash, Effect, failed, committed, mark-Effect}

-- Whether the redemption is one of this code.
abbrev pub of_code : (amounts : Amounts) → ℕ → Redemption amounts → Bool
of_code amounts id r = r.redeem_code_id == id

-- The code with this hash is in the table, and is not unused.
abbrev pub IsUsed : (amounts : Amounts) → Text → Database amounts → Type 0
IsUsed amounts h db =
    (c : RedeemCode amounts) × (find (has_code_hash amounts h) db.codes ≡ some c)
    × (is_unused c.status ≡ false)

-- What a code of this kind adds to the balance of its user.
abbrev pub balance_with :
    (amounts : Amounts) → Kind → amounts.Amount → amounts.Amount → amounts.Amount
balance_with amounts balance value before = amounts.plus value before
balance_with amounts _ value before = before

-- What an accepted redemption of the code with hash `h` by `user` leaves.
pub record IsRedeemed (amounts : Amounts) (user clock : ℕ) (h : Text) (db : Database amounts)
    (pending : PendingRedemption amounts) (db' : Database amounts) : Type 0 where
  pub code : RedeemCode amounts
  pub found : find (has_code_hash amounts h) db.codes ≡ some code
  pub was_unused : is_unused code.status ≡ true
  pub in_time : is_expired clock code.expires_at ≡ false
  pub used : IsUsed amounts h db'
  pub single : count_where (of_code amounts code.id) db'.redemptions ≡ 1
  pub credited :
      wallet_balance amounts user db'.wallet
      ≡ balance_with amounts code.kind code.value (wallet_balance amounts user db.wallet)
  pub others :
      (u : ℕ)
      → (user == u) ≡ false
      → wallet_balance amounts u db'.wallet ≡ wallet_balance amounts u db.wallet

none-of_code :
    (amounts : Amounts) (id : ℕ) (p : Redemption amounts → Bool) (rs : List (Redemption amounts))
    → ((r : Redemption amounts) → p r ≡ false → of_code amounts id r ≡ false)
    → find p rs ≡ none
    → count_where (of_code amounts id) rs ≡ 0
none-of_code amounts id p [] h e = refl
none-of_code amounts id p (r ∷ rs) h e = elim (Bool-cases (p r)) [
  | inl hit ↦ absurd (ground (arith, e, hit))
  | inr miss ↦ rw (h r miss) (none-of_code amounts id p rs h (ground (arith, e, miss)))
]

module _ (amounts : Amounts) (user default_group : ℕ) (fresh : FreshIds) (clock now : ℕ) where
  credited_lem :
      (kind : Kind) (value after : amounts.Amount) (wallet : List (WalletTransaction amounts))
      → wallet_balance amounts user
          (credit amounts user default_group fresh clock now kind value after wallet)
        ≡ balance_with amounts kind value (wallet_balance amounts user wallet)
  unfolding credit wallet_balance
  credited_lem balance value after wallet = rw (==_refl user)
  credited_lem subscription value after wallet = refl
  credited_lem (unsupported k) value after wallet = refl

  others_lem :
      (kind : Kind) (value after : amounts.Amount) (wallet : List (WalletTransaction amounts))
      (u : ℕ)
      → (user == u) ≡ false
      → wallet_balance amounts u
          (credit amounts user default_group fresh clock now kind value after wallet)
        ≡ wallet_balance amounts u wallet
  unfolding credit wallet_balance
  others_lem balance value after wallet u other = rw other
  others_lem subscription value after wallet u other = refl
  others_lem (unsupported k) value after wallet u other = refl

  -- Marking codes as used leaves what they are found by.
  pub use-IsUsed :
      (id : ℕ) (h : Text) (cs : List (RedeemCode amounts)) (c : RedeemCode amounts)
      → find (has_code_hash amounts h) cs ≡ some c
      → (is_unused c.status ≡ false) ⊎ (c.id ≡ id)
      → (c' : RedeemCode amounts) × (find (has_code_hash amounts h) (
            update_where
              (is_unused_id amounts user default_group fresh clock now id)
              (use_code amounts user default_group fresh clock now)
              cs)
          ≡ some c')
        × (is_unused c'.status ≡ false)
  unfolding use_code
  use-IsUsed id h cs c found was =
      let p = is_unused_id amounts user default_group fresh clock now id in
      let f = use_code amounts user default_group fresh clock now in
      (
        if p c then f c else c,
        find-update_where (has_code_hash amounts h) p f cs (λ x. refl) found,
        elim (Bool-cases (p c)) [
          | inl e ↦ rw e refl
          | inr e ↦ rw e (elim was [
            | inl off ↦ off
            | inr same ↦ elim (Bool-cases (is_unused c.status)) [
              | inl live ↦ absurd (ground (arith, e, same, live, ==_refl id))
              | inr off ↦ off
            ]
          ])
        ],
      )

  Effect-refused :
      (db : Database amounts) (h : Text)
      (out : Redeemed (PendingRedemption amounts) × Database amounts)
      → Effect amounts user default_group fresh clock now db h out
      → (e : RedeemError) → out.0 ≡ refused e
      → out.1 ≡ db
  unfolding commit_redemption
  Effect-refused db h out (failed e') e was = refl
  Effect-refused db h out
        (committed c group operation key queue r new found live early fits free queued) e was =
      absurd (ground (arith, was))

  -- A redemption that is refused, for whatever reason, leaves every table as it was.
  pub refused_keeps_database :
      (hash : Text → Text) (code : Text) (db : Database amounts) (e : RedeemError)
      → let out = mark_redeemed_locally amounts user default_group fresh clock now hash code db in
        out.0 ≡ refused e → out.1 ≡ db
  refused_keeps_database hash code db e h =
      Effect-refused db _ _ (mark-Effect amounts user default_group fresh clock now hash code db) e
        h

  one-of_code :
      (id : ℕ) (r : Redemption amounts)
      → r.redeem_code_id ≡ id
      → count_where (of_code amounts id) (r ∷ []) ≡ 1
  one-of_code id r same = ground (arith, same)

  Effect-IsRedeemed :
      (db : Database amounts) (h : Text)
      (out : Redeemed (PendingRedemption amounts) × Database amounts)
      → Effect amounts user default_group fresh clock now db h out
      → (p : PendingRedemption amounts) → out.0 ≡ accepted p
      → IsRedeemed amounts user clock h db p out.1
  unfolding commit_redemption new_redemption
  Effect-IsRedeemed db h out (failed e') p was = absurd (ground (arith, was))
  Effect-IsRedeemed db h out
        (committed c group operation key queue r new found live early fits free queued) p was =
      record {
        code = c;
        found = found;
        was_unused = live;
        in_time = early;
        used = use-IsUsed c.id h db.codes c found (inr refl);
        single =
            let same : r.redeem_code_id ≡ c.id =
              ap (λ (x : Redemption amounts). x.redeem_code_id) new in
            omega (
              arith,
              count_where-append (of_code amounts c.id) db.redemptions (r ∷ []),
              none-of_code amounts c.id
                  (is_redemption_of amounts user default_group fresh clock now r) db.redemptions
                  (λ x miss. ground (arith, miss, same)) free,
              one-of_code c.id r same,
            );
        credited = credited_lem c.kind c.value _ db.wallet;
        others = λ u other. others_lem c.kind c.value _ db.wallet u other;
      }

  -- An accepted redemption found an unused code that is in time, and used it up: the code has
  -- exactly one redemption, a balance code adds its value to the balance of its user and another
  -- code adds nothing, and the balances of other users are as before.
  pub mark-IsRedeemed :
      (hash : Text → Text) (code : Text) (db : Database amounts) (p : PendingRedemption amounts)
      → let out = mark_redeemed_locally amounts user default_group fresh clock now hash code db in
        out.0 ≡ accepted p → IsRedeemed amounts user clock (hash (normalize_code code)) db p out.1
  mark-IsRedeemed hash code db p h =
      Effect-IsRedeemed db _ _ (mark-Effect amounts user default_group fresh clock now hash code db)
        p h
