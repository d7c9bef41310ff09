-- ===== src/Redeem/Outcomes.antt =====
-- What `markRedeemedLocally` does, in two cases, and what each leaves of the tables.
use brevyn_cloud.Base.{
  ℕ, ◌≡◌, ◌⊎◌, refl, sym, ap, subst, Bool, true, false, not, Option, none, some, ◌++◌, Text, codes,
  inl, inr, find, count_where, text_eq, Bool-cases, Option-cases, if◌then◌else◌, ◌==◌,
}
use brevyn_cloud.Operations.{Queue, create_redemption_sync}
use brevyn_cloud.Redeem.{
  Amounts, GatewayOperation, RedeemCode, Redemption, Database, PendingRedemption, RedeemError,
  code_used, Redeemed, refused, accepted, normalize_code, FreshIds, is_expired, is_unused,
  is_unused_id, gateway_operation_for, group_or_default, new_redemption, is_redemption_of,
  commit_redemption, record_redemption, redeem_row, mark_redeemed_locally,
}

-- The test with which a code is looked up.
abbrev pub has_code_hash : (amounts : Amounts) → Text → RedeemCode amounts → Bool
has_code_hash amounts h c = text_eq c.code_hash h

Redeemed-cases {ℓ} :
    {A : Type ℓ} (o : Redeemed A)
    → ((e : RedeemError) × (o ≡ refused e)) ⊎ ((a : A) × (o ≡ accepted a))
Redeemed-cases (refused e) = inl (e, refl)
Redeemed-cases (accepted a) = inr (a, refl)

module _ (amounts : Amounts) (user default_group : ℕ) (fresh : FreshIds) (clock now : ℕ) where
  -- A redemption is refused and changes nothing, or it is committed with a redemption `r` of an
  -- unused code `c` that is in time.
  pub data Effect (db : Database amounts) (h : Text)
      : Redeemed (PendingRedemption amounts) × Database amounts → Type 0 where
    failed : (e : RedeemError) → Effect db h (refused e, db)
    committed :
        (c : RedeemCode amounts) (group : ℕ) (operation : GatewayOperation) (key : Text)
        (queue : Queue) (r : Redemption amounts)
        → r
          ≡ new_redemption amounts user default_group fresh clock now c db.next_redemption group
              operation
        → find (has_code_hash amounts h) db.codes ≡ some c
        → is_unused c.status ≡ true
        → is_expired clock c.expires_at ≡ false
        → gateway_operation_for c.kind group c.validity_days ≡ accepted operation
        → find (is_redemption_of amounts user default_group fresh clock now r) db.redemptions ≡ none
        → create_redemption_sync
            (codes "gop_" ++ fresh.operation)
            fresh.payload
            r.id
            r.public_id
            user
            now
            db.queue
          ≡ (some key, queue)
        → Effect db h
            (commit_redemption amounts user default_group fresh clock now db c r (some key, queue))

  record_redemption-Effect :
      (db : Database amounts) (h : Text) (c : RedeemCode amounts) (group : ℕ)
      (operation : GatewayOperation)
      → find (has_code_hash amounts h) db.codes ≡ some c
      → is_unused c.status ≡ true
      → is_expired clock c.expires_at ≡ false
      → gateway_operation_for c.kind group c.validity_days ≡ accepted operation
      → Effect db h (
          record_redemption amounts user default_group fresh clock now db c (
            new_redemption amounts user default_group fresh clock now c db.next_redemption group
              operation))
  unfolding record_redemption commit_redemption
  record_redemption-Effect db h c group operation found live early fits =
      let r =
        new_redemption amounts user default_group fresh clock now c db.next_redemption group
          operation in
      let out =
        create_redemption_sync (codes "gop_" ++ fresh.operation) fresh.payload r.id r.public_id user
          now db.queue in
      let Result : Option Text × Queue → Type 0 =
        λ o. Effect db h (commit_redemption amounts user default_group fresh clock now db c r o) in
      elim (Option-cases
        (find (is_redemption_of amounts user default_group fresh clock now r) db.redemptions)) [
          | inr (taken, e) ↦ rw (e, record_redemption) (failed code_used)
          | inl free ↦
              rw (free, record_redemption)
                (elim (Option-cases out.0) [
                  | inl e ↦ subst Result (ap (λ (o : Option Text). (o, out.1)) (sym e)) (failed _)
                  | inr (key, e) ↦
                      let whole : out ≡ (some key, out.1) =
                        ap (λ (o : Option Text). (o, out.1)) e in
                      subst Result (sym whole) (
                        committed c group operation key out.1 r refl found live early fits free
                          whole)
                ])
        ]

  redeem_row-Effect :
      (db : Database amounts) (h : Text) (c : RedeemCode amounts)
      → find (has_code_hash amounts h) db.codes ≡ some c
      → Effect db h (redeem_row amounts user default_group fresh clock now db c)
  unfolding redeem_row
  redeem_row-Effect db h c found =
      let group = group_or_default default_group c.external_group_id in
      let Result : Redeemed GatewayOperation → Type 0 = λ o. Effect db h (elim o [
        | refused e ↦ (refused e, db)
        | accepted operation ↦
            if not (
              count_where (is_unused_id amounts user default_group fresh clock now c.id) db.codes
              == 1)
            then (refused code_used, db)
            else record_redemption amounts user default_group fresh clock now db c (
                new_redemption amounts user default_group fresh clock now c db.next_redemption group
                  operation)
      ]) in
      elim (Bool-cases (is_unused c.status)) [
        | inr e ↦ rw (e, redeem_row) (failed code_used)
        | inl live ↦ elim (Bool-cases (is_expired clock c.expires_at)) [
          | inl late ↦ rw (live, redeem_row, late) (failed _)
          | inr early ↦ elim (Redeemed-cases (gateway_operation_for c.kind group c.validity_days)) [
            | inl (e, bad) ↦ rw (live, redeem_row, early) (subst Result (sym bad) (failed e))
            | inr (operation, fits) ↦
                rw (live, redeem_row, early)
                  (subst Result (sym fits)
                    (elim (Bool-cases (
                      count_where (is_unused_id amounts user default_group fresh clock now c.id)
                        db.codes
                      == 1)) [
                        | inl one ↦
                            rw one (
                              record_redemption-Effect db h c group operation found live early fits)
                        | inr other ↦ rw other (failed code_used)
                      ]))
          ]
        ]
      ]

  pub mark-Effect :
      (hash : Text → Text) (code : Text) (db : Database amounts)
      → Effect db
          (hash (normalize_code code))
          (mark_redeemed_locally amounts user default_group fresh clock now hash code db)
  unfolding mark_redeemed_locally
  mark-Effect hash code db =
      elim (Option-cases (find (has_code_hash amounts (hash (normalize_code code))) db.codes)) [
        | inl e ↦ rw (e, mark_redeemed_locally) (failed _)
        | inr (c, found) ↦ rw (found, mark_redeemed_locally) (redeem_row-Effect db _ c found)
      ]
