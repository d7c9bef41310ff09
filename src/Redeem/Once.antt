-- ===== src/Redeem/Once.antt =====
-- A code is good for one redemption, over any sequence of redemptions and of codes disabled.
use brevyn_cloud.Base.{
  ℕ, ◌≡◌, refl, Bool, Text, inl, inr, find-update_where, Bool-cases, update_where,
}
use brevyn_cloud.Redeem.{
  Amounts, RedeemCode, Database, PendingRedemption, code_used, Redeemed, refused, accepted,
  normalize_code, FreshIds, commit_redemption, redeem_row, mark_redeemed_locally, disable,
  disable_code, disable_batch,
}
use brevyn_cloud.Redeem.Outcomes.{has_code_hash, Effect, failed, committed, mark-Effect}
use brevyn_cloud.Redeem.Steps.{IsUsed, use-IsUsed, mark-IsRedeemed}

module _ (amounts : Amounts) (hash : Text → Text) where
  -- A redemption by any user, or an administrator disables a code or a batch.
  pub data Change (db : Database amounts) : Database amounts → Type 0 where
    redeem :
        (user default_group : ℕ) (fresh : FreshIds) (clock now : ℕ) (code : Text)
        → Change db
            (mark_redeemed_locally amounts user default_group fresh clock now hash code db).1
    disable_one : (public_id : Text) (now : ℕ) → Change db (disable_code amounts now public_id db)
    disable_all : (batch now : ℕ) → Change db (disable_batch amounts now batch db)

  -- Any number of these.
  pub data Changes (db : Database amounts) : Database amounts → Type 0 where
    still : Changes db db
    also : {db' db'' : Database amounts} → Changes db db' → Change db' db'' → Changes db db''

  Effect-IsUsed :
      (user default_group : ℕ) (fresh : FreshIds) (clock now : ℕ) (db : Database amounts)
      (h g : Text) (out : Redeemed (PendingRedemption amounts) × Database amounts)
      → Effect amounts user default_group fresh clock now db g out
      → IsUsed amounts h db
      → IsUsed amounts h out.1
  unfolding commit_redemption
  Effect-IsUsed user default_group fresh clock now db h g out (failed e) u = u
  Effect-IsUsed user default_group fresh clock now db h g out
        (committed c group operation key queue r new found live early fits free queued)
        (c', found', off) =
      use-IsUsed amounts user default_group fresh clock now c.id h db.codes c' found' (inl off)

  disable-IsUsed :
      (now : ℕ) (h : Text) (p : RedeemCode amounts → Bool) (db : Database amounts)
      → IsUsed amounts h db
      → IsUsed amounts h (record db { codes = update_where p (disable amounts now) db.codes })
  unfolding disable
  disable-IsUsed now h p db (c, found, off) = (
    _,
    find-update_where (has_code_hash amounts h) p (disable amounts now) db.codes (λ x. refl) found,
    elim (Bool-cases (p c)) [ inl e ↦ rw e refl | inr e ↦ rw e off ],
  )

  Change-IsUsed :
      {db db' : Database amounts} (h : Text)
      → Change db db'
      → IsUsed amounts h db
      → IsUsed amounts h db'
  unfolding disable_code disable_batch
  Change-IsUsed {db} h (redeem user default_group fresh clock now code) u =
      Effect-IsUsed user default_group fresh clock now db h _ _
        (mark-Effect amounts user default_group fresh clock now hash code db) u
  Change-IsUsed {db} h (disable_one public_id now) u = disable-IsUsed now h _ db u
  Change-IsUsed {db} h (disable_all batch now) u = disable-IsUsed now h _ db u

  Changes-IsUsed :
      {db db' : Database amounts} (h : Text)
      → Changes db db'
      → IsUsed amounts h db
      → IsUsed amounts h db'
  Changes-IsUsed h still u = u
  Changes-IsUsed h (also before change) u = Change-IsUsed h change (Changes-IsUsed h before u)

  used_refused :
      (user default_group : ℕ) (fresh : FreshIds) (clock now : ℕ) (code : Text)
      (db : Database amounts)
      → IsUsed amounts (hash (normalize_code code)) db
      → mark_redeemed_locally amounts user default_group fresh clock now hash code db
        ≡ (refused code_used, db)
  unfolding mark_redeemed_locally redeem_row
  used_refused user default_group fresh clock now code db (c, found, off) =
      rw (found, mark_redeemed_locally, off)

  -- A code is redeemed at most once: after a redemption that is accepted, and whatever redemptions
  -- and disabled codes follow, each further attempt with the code, by any user, is refused as used
  -- and changes nothing.
  pub redeems_once :
      (user default_group : ℕ) (fresh : FreshIds) (clock now : ℕ) (user' default_group' : ℕ)
      (fresh' : FreshIds) (clock' now' : ℕ) (code : Text) (db db' : Database amounts)
      (p : PendingRedemption amounts)
      → let first = mark_redeemed_locally amounts user default_group fresh clock now hash code db in
        first.0 ≡ accepted p
        → Changes first.1 db'
        → mark_redeemed_locally amounts user' default_group' fresh' clock' now' hash code db'
          ≡ (refused code_used, db')
  redeems_once user default_group fresh clock now user' default_group' fresh' clock' now' code db
        db' p ok later =
      used_refused user' default_group' fresh' clock' now' code db' (
        Changes-IsUsed _ later
          (mark-IsRedeemed amounts user default_group fresh clock now hash code db p ok).used)
