-- ===== src/Settlement/Once.antt =====
-- internal/auth/handler.go, `Redeem`, with the runs of its operation that follow.
use brevyn_cloud.Base.{ℕ, ◌≡◌, sym, ◌∙◌, ap, subst, Option, List, Text, inl, inr, arith}
use brevyn_cloud.Redeem.{
  Amounts, Database, PendingRedemption, Redeemed, accepted, mark_redeemed_locally, normalize_code,
}
use brevyn_cloud.Subscription.{Client}
use brevyn_cloud.Limits.{Redis}
use brevyn_cloud.Settlement.{Request, RedeemResult, redeemed, redeem}
use brevyn_cloud.Settlement.Requests.{IsSettled, redeem_settles}
use brevyn_cloud.Settlement.Statuses.{Agrees}
use brevyn_cloud.Settlement.Worker.{GatewayUser, WorkerServices, RetryState}
use brevyn_cloud.Settlement.Worker.Synced.{IsSynced, Reruns, IsSynced-stays}

module _ (amounts : Amounts) (client : Client amounts) (w : WorkerServices client) where
  Agrees-IsSynced :
      (pending : PendingRedemption amounts) (result : RedeemResult amounts) (db : Database amounts)
      → Agrees amounts pending (redeemed result) db
      → IsSynced amounts pending.redemption_public db.redemptions
  Agrees-IsSynced pending result db ((r, found, id, (is_synced, info)), op) =
      (pending.redemption_db_id, (r, found, id, is_synced))

  accepted-inj :
      {p p' : PendingRedemption amounts}
      → accepted p ≡ accepted p'
      → p.redemption_public ≡ p'.redemption_public
  accepted-inj {p} {p'} h =
      ap
        (λ (o : Redeemed (PendingRedemption amounts)). elim o [
          | accepted x ↦ x.redemption_public
          | _ ↦ p.redemption_public
        ])
        h

  -- After a request that answers that its code is redeemed, no number of runs of the redemption, by
  -- the worker or by administrators, brings it to the gateway again, and it stays synced: the
  -- gateway keeps whatever the services for accounts and API keys keep.
  pub redeemed_stays :
      (redis : Redis) (hash : Text → Text) (q : Request amounts client w.services) (ip code : Text)
      (store : Option redis.Store) (db db' : Database amounts) (remote remote' : client.Remote)
      (result : RedeemResult amounts) (pending : PendingRedemption amounts)
      (users : List GatewayUser) (t : RetryState client) (Inv : client.Remote → Type 0)
      → (redeem amounts client w.services redis hash q ip code store db remote).0
        ≡ (redeemed result, db', remote')
      → (mark_redeemed_locally amounts q.user q.default_group q.fresh q.clock q.now hash
          (normalize_code code)
          db).0
        ≡ accepted pending
      → Reruns amounts client w q.default_group users pending.redemption_public
          (record { redemptions = db'.redemptions; queue = db'.queue; remote = remote' })
          t
      → ((user group : ℕ) (x : client.Remote) → Inv x → Inv (w.ensure_known_account user group x).1)
      → ((user account group : ℕ) (operation : Text) (x : client.Remote)
          → Inv x
          → Inv (w.ensure_operation_key user account group operation x).1)
      → Inv remote'
      → IsSynced amounts pending.redemption_public t.redemptions × Inv t.remote
  redeemed_stays redis hash q ip code store db db' remote remote' result pending users t Inv answer
        marked reruns account_keeps key_keeps inv =
      let settled =
        subst (IsSettled amounts client w.services hash q (normalize_code code) db remote) answer
          (redeem_settles amounts client w.services redis hash q ip code store db remote) in
      elim settled [
        | inl refusal ↦ absurd (ground (arith, refusal.0))
        | inr (pending', marked', agrees) ↦
            let same = accepted-inj (sym marked' ∙ marked) in
            IsSynced-stays amounts client w q.default_group users pending.redemption_public Inv
              account_keeps key_keeps reruns
              (subst (λ id. IsSynced amounts id db'.redemptions) same
                (Agrees-IsSynced pending' result db' agrees))
              inv
      ]
