-- ===== src/Settlement/Worker/Runs.antt =====
-- internal/admin/gateway_operation_executor.go, `syncRedemption`: what the run that succeeds leaves.
use brevyn_cloud.Base.{
  ℕ, ◌≡◌, subst, Option, none, some, List, Text, codes, arith, inl, inr, Bool-cases, Option-cases,
  text_eq,
}
use brevyn_cloud.Errors.{Err, no_info}
use brevyn_cloud.Operations.{Operation}
use brevyn_cloud.Redeem.{Amounts, synced, Redemption}
use brevyn_cloud.Subscription.{Client, Reply, ok, error, SyncAnswer, SyncTarget, sync_target}
use brevyn_cloud.Settlement.{account_id, SyncState}
use brevyn_cloud.Settlement.Rows.{HasRedemption, status-updated}
use brevyn_cloud.Settlement.Worker.{
  GatewayUser, WorkerServices, LoadedTarget, SyncDone, load_sync_target, finish_key, with_account,
  finish_target, sync_loaded, sync_redemption_operation, is_synced_status, is_user_active,
  with_operation,
}
use brevyn_cloud.Settlement.Worker.Synced.{IsSynced, load-Loaded}

module _ (amounts : Amounts) (client : Client amounts) (w : WorkerServices client)
    (clock default_group : ℕ) (users : List GatewayUser) (public_id : Text) where
  -- The answer is an error, or the redemption is synced.
  abbrev pub Finished : Reply SyncDone × SyncState client → Type 0
  Finished (error e, s) = Unit
  Finished (ok answer, s) = IsSynced amounts public_id s.redemptions

  finish_key-Finished :
      (loaded : LoadedTarget amounts) (target : SyncTarget amounts) (account : ℕ)
      (rows : List (Redemption amounts)) (out : Option Err × client.Remote)
      → IsSynced amounts public_id rows
      → Finished (finish_key amounts client w clock loaded target account rows out)
  unfolding finish_key
  finish_key-Finished loaded target account rows (some e, remote) here = tt
  finish_key-Finished loaded target account rows (none, remote) here = here

  with_account-Finished :
      (loaded : LoadedTarget amounts) (operation_id : Text) (target : SyncTarget amounts)
      (rows : List (Redemption amounts)) (out : Reply ℕ × client.Remote)
      → IsSynced amounts public_id rows
      → Finished (with_account amounts client w clock loaded operation_id target rows out)
  unfolding with_account
  with_account-Finished loaded operation_id target rows (error e, remote) here = tt
  with_account-Finished loaded operation_id target rows (ok account, remote) here =
      finish_key-Finished loaded target account rows _ here

  finish_target-Finished :
      (loaded : LoadedTarget amounts) (operation_id : Text) (rows : List (Redemption amounts))
      (out : SyncAnswer × client.Remote)
      → HasRedemption amounts public_id loaded.db_id (λ (r : Redemption amounts). Unit) rows
      → Finished (finish_target amounts client w clock loaded operation_id rows out)
  unfolding finish_target
  finish_target-Finished loaded operation_id rows (answer, remote) here =
      elim (Option-cases answer.failure) [
        | inr (e, bad) ↦ rw (bad, finish_target) tt
        | inl fine ↦ elim (Option-cases w.store_error) [
          | inr (e, lost) ↦ rw (fine, lost, finish_target) tt
          | inl stored ↦
              let target = with_operation amounts answer.operation loaded.target in
              let (r, found, id, (is_synced, clean)) =
                status-updated amounts public_id loaded.db_id rows synced no_info
                  (account_id answer.account) target.external_group_id target.gateway_operation
                  here in
              rw (fine, stored, finish_target)
                (with_account-Finished loaded operation_id target _
                  (ok (account_id answer.account), remote)
                  (loaded.db_id, (r, found, id, is_synced)))
        ]
      ]

  sync_loaded-Finished :
      (loaded : LoadedTarget amounts) (operation_id : Text) (s : SyncState client)
      → HasRedemption amounts public_id loaded.db_id
          (λ (r : Redemption amounts). r.status ≡ loaded.status)
          s.redemptions
      → Finished (sync_loaded amounts client w clock loaded operation_id s)
  unfolding sync_loaded
  sync_loaded-Finished loaded operation_id s (r, found, id, status) =
      elim (Bool-cases (is_synced_status loaded.status)) [
        | inl e ↦
            rw (e, sync_loaded)
              (with_account-Finished loaded operation_id loaded.target s.redemptions _
                (loaded.db_id, (r, found, id, ground (arith, status, e))))
        | inr e ↦
            rw (e, sync_loaded)
              (finish_target-Finished loaded operation_id s.redemptions
                (sync_target amounts client clock w.services.settings
                  (w.services.ensure_account loaded.user.id loaded.target.external_group_id)
                  loaded.target s.remote)
                (r, found, id, tt))
      ]

  run-Finished :
      (op : Operation) (s : SyncState client)
      → op.target_id ≡ public_id
      → Finished (sync_redemption_operation amounts client w clock default_group users op s)
  unfolding sync_redemption_operation
  run-Finished op s of_it = elim (Bool-cases (text_eq op.target_type (codes "redeem_redemption"))) [
    | inr e ↦ rw (e, sync_redemption_operation) tt
    | inl e ↦
        elim (Option-cases (load_sync_target amounts default_group public_id users s.redemptions)) [
          | inl missing ↦ rw (e, of_it, missing, sync_redemption_operation) tt
          | inr (loaded, there) ↦ elim (Bool-cases (is_user_active loaded.user)) [
            | inr idle ↦ rw (e, of_it, there, idle, sync_redemption_operation) tt
            | inl active ↦ elim (Option-cases w.first_settings) [
              | inr (bad, no_settings) ↦
                  rw (e, of_it, there, active, no_settings, sync_redemption_operation) tt
              | inl settings ↦
                  rw (e, of_it, there, active, settings, sync_redemption_operation)
                    (sync_loaded-Finished loaded op.public_id s (
                      load-Loaded amounts default_group public_id users s.redemptions loaded there))
            ]
          ]
        ]
  ]

  -- A run of a redemption's operation that succeeds has found the redemption, and leaves it synced.
  pub run_syncs :
      (op : Operation) (s s' : SyncState client) (answer : SyncDone)
      → op.target_id ≡ public_id
      → sync_redemption_operation amounts client w clock default_group users op s ≡ (ok answer, s')
      → IsSynced amounts public_id s'.redemptions
  run_syncs op s s' answer of_it h = subst Finished h (run-Finished op s of_it)
