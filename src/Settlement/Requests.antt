-- ===== src/Settlement/Requests.antt =====
-- internal/auth/handler.go, `Redeem`: the request as a whole, from the code to the tables it leaves.
use brevyn_cloud.Base.{
  find-none-append, ◌≡◌, refl, sym, ◌∙◌, ap, Bool, true, false, Option, Text, ◌⊎◌, inl, inr,
  text_eq_refl, arith, Bool-cases, is_blank,
}
use brevyn_cloud.Operations.{failed, Operation, create_redemption_sync}
use brevyn_cloud.Redeem.{
  Amounts, Redemption, Database, PendingRedemption, Redeemed, refused, accepted, normalize_code,
  new_redemption, commit_redemption, mark_redeemed_locally,
}
use brevyn_cloud.Redeem.Outcomes.{Effect, failed, committed, mark-Effect}
use brevyn_cloud.Redeem.Steps.{refused_keeps_database}
use brevyn_cloud.Subscription.{Client, sync_target}
use brevyn_cloud.Limits.{Redis, Verdict, allowed, unavailable, blocked}
use brevyn_cloud.Settlement.{
  Services, sync_redemption_to_gateway, RedeemResponse, sync_failed, redeemed, Request,
  sync_and_settle, redeem_marked, redeem_limited, redeem, target_of,
}
use brevyn_cloud.Settlement.Rows.{insert-found}
use brevyn_cloud.Settlement.Statuses.{
  HasPending, HasOperation, Agrees, sync_answered-Synced, settle-Agrees,
}

module _ (amounts : Amounts) (client : Client amounts) (services : Services client) where
  -- An accepted redemption is in the table by its public id, and so is its operation.
  abbrev Recorded : Redeemed (PendingRedemption amounts) × Database amounts → Type 0
  Recorded (refused e, db) = Unit
  Recorded (accepted pending, db) =
      HasPending amounts pending (λ (r : Redemption amounts). Unit) db.redemptions
      × HasOperation amounts pending (λ (op : Operation). Unit) db.queue.rows

  Effect-Recorded :
      (q : Request amounts client services) (db : Database amounts) (h : Text)
      (out : Redeemed (PendingRedemption amounts) × Database amounts)
      → Effect amounts q.user q.default_group q.fresh q.clock q.now db h out
      → Recorded out
  unfolding commit_redemption create_redemption_sync new_redemption
  Effect-Recorded q db h out (failed e) = tt
  Effect-Recorded q db h out
        (committed c group operation key queue r new found live early fits free queued) =
      let (op, op_found) = insert-found _ q.now db.queue queue key queued in
      (
        (
          r,
          find-none-append _ _ db.redemptions r free (λ x h. ground (arith, h))
              (text_eq_refl r.public_id),
          refl,
          tt,
        ),
        (op, op_found, tt),
      )

  -- The answers of a request that has recorded nothing.
  abbrev pub is_refusal : RedeemResponse amounts → Bool
  is_refusal (sync_failed result) = false
  is_refusal (redeemed result) = false
  is_refusal _ = true

  -- What a request to redeem a code leaves, for each of its answers.
  abbrev pub IsSettled :
      (hash : Text → Text)
      → Request amounts client services
      → (code : Text) → Database amounts
      → client.Remote
      → RedeemResponse amounts × Database amounts × client.Remote
      → Type 0
  IsSettled hash q code db remote (response, db', remote') =
      ((is_refusal response ≡ true) × (db' ≡ db) × (remote' ≡ remote))
      ⊎ ((pending : PendingRedemption amounts) × ((mark_redeemed_locally amounts q.user
              q.default_group q.fresh q.clock q.now hash code db).0
            ≡ accepted pending)
          × Agrees amounts pending response db')

  marked-IsSettled :
      (hash : Text → Text) (q : Request amounts client services) (code : Text)
      (db : Database amounts) (remote : client.Remote)
      (out : Redeemed (PendingRedemption amounts) × Database amounts)
      → mark_redeemed_locally amounts q.user q.default_group q.fresh q.clock q.now hash code db
        ≡ out
      → Recorded out
      → IsSettled hash q code db remote (redeem_marked amounts client services q out remote)
  unfolding redeem_marked sync_and_settle sync_redemption_to_gateway
  marked-IsSettled hash q code db remote (refused e, db') same recorded =
      let keeps =
        refused_keeps_database amounts q.user q.default_group q.fresh q.clock q.now hash code db e
          (ap (λ (o : Redeemed (PendingRedemption amounts) × Database amounts). o.0) same) in
      inl (
        refl,
        ap (λ (o : Redeemed (PendingRedemption amounts) × Database amounts). o.1) (sym same)
            ∙ keeps,
        refl,
      )
  marked-IsSettled hash q code db remote (accepted pending, db') same (row, op) = inr (
    pending,
    ap (λ (o : Redeemed (PendingRedemption amounts) × Database amounts). o.0) same,
    settle-Agrees amounts q.clock q.now q.payload pending _ _
        (sync_answered-Synced amounts client services q.clock q.user q.settings_again q.store_error
          pending _ db'.redemptions
          (sync_target amounts client q.clock services.settings
            (services.ensure_account q.user pending.external_group_id) (target_of amounts pending)
            remote)
          row)
        op,
  )

  limited-IsSettled :
      (hash : Text → Text) (q : Request amounts client services) (code : Text) (verdict : Verdict)
      (db : Database amounts) (remote : client.Remote)
      → IsSettled hash q code db remote
          (redeem_limited amounts client services hash q code verdict db remote)
  unfolding redeem_limited
  limited-IsSettled hash q code unavailable db remote = inl (refl, refl, refl)
  limited-IsSettled hash q code (blocked wait) db remote = inl (refl, refl, refl)
  limited-IsSettled hash q code allowed db remote = marked-IsSettled hash q code db remote _ refl (
      Effect-Recorded q db _ _
        (mark-Effect amounts q.user q.default_group q.fresh q.clock q.now hash code db))

  -- A request to redeem a code either refuses it
  -- and leaves the database and the gateway as they are, or it has recorded a redemption, and answers that the
  -- sync failed or that the code is redeemed. Then the redemption's row, by its public id, has the status
  -- and the error of the answer, and the operation, by its public id, is dead or failed as the
  -- error is retryable, or succeeded, or failed if only the API key is missing.
  pub redeem_settles :
      (redis : Redis) (hash : Text → Text) (q : Request amounts client services) (ip code : Text)
      (store : Option redis.Store) (db : Database amounts) (remote : client.Remote)
      → IsSettled hash q
          (normalize_code code)
          db
          remote
          (redeem amounts client services redis hash q ip code store db remote).0
  unfolding redeem
  redeem_settles redis hash q ip code store db remote =
      elim (Bool-cases (is_blank (normalize_code code))) [
        | inl b ↦ rw (b, redeem) (inl (refl, refl, refl))
        | inr b ↦ rw (b, redeem) (limited-IsSettled hash q (normalize_code code) _ db remote)
      ]
