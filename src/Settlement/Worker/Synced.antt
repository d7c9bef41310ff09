-- ===== src/Settlement/Worker/Synced.antt =====
-- internal/admin/gateway_operation_executor.go and redemption_sync_handler.go: a redemption that is
-- synced is not brought to the gateway again, and one that a run has finished is synced.
use brevyn_cloud.Base.{
  ℕ, ◌≡◌, refl, sym, ◌∙◌, ap, subst, Option, none, some, List, Text, codes, arith, inl, inr, find,
  Bool-cases, Option-cases, text_eq, is_blank, trim_space, ◌==◌,
}
use brevyn_cloud.Operations.{Operation, Queue}
use brevyn_cloud.Errors.{Err, classify, with_stage}
use brevyn_cloud.Redeem.{Amounts, synced, Redemption}
use brevyn_cloud.Subscription.{Client, Reply, ok, error}
use brevyn_cloud.Settlement.{SyncState, has_redemption_public_id}
use brevyn_cloud.Settlement.Rows.{HasRedemption, error-updated}
use brevyn_cloud.Settlement.Worker.{
  GatewayUser, WorkerServices, LoadedTarget, target_of_row, load_sync_target, finish_key,
  with_account, sync_loaded, sync_redemption_operation, is_user_active, RetryState,
  retry_redemption_sync,
}

-- The redemption with the public id is in the table, and is synced.
abbrev pub IsSynced : (amounts : Amounts) (public_id : Text) → List (Redemption amounts) → Type 0
IsSynced amounts public_id rows =
    (id : ℕ) × HasRedemption amounts public_id id (λ (r : Redemption amounts). r.status ≡ synced)
      rows

module _ (amounts : Amounts) (default_group : ℕ) (public_id : Text) (users : List GatewayUser) where
  -- What is loaded is the row with the public id.
  pub load-Loaded :
      (rows : List (Redemption amounts)) (loaded : LoadedTarget amounts)
      → load_sync_target amounts default_group public_id users rows ≡ some loaded
      → HasRedemption amounts public_id loaded.db_id
          (λ (r : Redemption amounts). r.status ≡ loaded.status)
          rows
  unfolding load_sync_target target_of_row
  load-Loaded rows loaded h =
      elim (Option-cases (find (has_redemption_public_id amounts public_id) rows)) [
        | inl e ↦ absurd (ground (arith, h, e))
        | inr (r, e) ↦ elim (Option-cases (find (λ (u : GatewayUser). u.id == r.user_id) users)) [
          | inl none_left ↦ absurd (ground (arith, (rw (load_sync_target, e, none_left) at h)))
          | inr (user, there) ↦
              let same : target_of_row amounts default_group r user ≡ loaded =
                ground (arith, (rw (load_sync_target, e, there) at h)) in
              (
                r,
                e,
                ap (λ (l : LoadedTarget amounts). l.db_id) same,
                ap (λ (l : LoadedTarget amounts). l.status) same,
              )
        ]
      ]

module _ (amounts : Amounts) (client : Client amounts) (w : WorkerServices client)
    (clock default_group : ℕ) (users : List GatewayUser) (public_id : Text) where
  -- A manual run finds a synced redemption, and leaves everything.
  retry-Kept :
      (clock now : ℕ) (fresh result id : Text) (s : RetryState client)
      → trim_space id ≡ public_id
      → IsSynced amounts public_id s.redemptions
      → (retry_redemption_sync amounts client w clock now default_group users fresh result id s).1
        ≡ s
  unfolding retry_redemption_sync
  retry-Kept clock now fresh result id s of_it (i, (r, found, same, is_synced)) =
      elim (Bool-cases (is_blank (trim_space id))) [
        | inl b ↦ rw (b, retry_redemption_sync) refl
        | inr b ↦
            elim (Option-cases
              (load_sync_target amounts default_group (trim_space id) users s.redemptions)) [
                | inl missing ↦ rw (b, missing, retry_redemption_sync) refl
                | inr (loaded, there) ↦
                    let (r', found', same', status') =
                      load-Loaded amounts default_group (trim_space id) users s.redemptions loaded
                        there in
                    let row : r' ≡ r = ground (
                      arith,
                      found,
                      subst (λ t. find (has_redemption_public_id amounts t) s.redemptions ≡ some r')
                          of_it found',
                    ) in
                    let is_synced' : loaded.status ≡ synced = sym status' ∙ (rw row is_synced) in
                    rw (b, there, is_synced', retry_redemption_sync) refl
              ]
      ]

  module _ (Inv : client.Remote → Type 0)
      (account_keeps : (user group : ℕ) (remote : client.Remote)
        → Inv remote
        → Inv (w.ensure_known_account user group remote).1)
      (key_keeps : (user account group : ℕ) (operation : Text) (remote : client.Remote)
        → Inv remote
        → Inv (w.ensure_operation_key user account group operation remote).1) where
    -- The redemption is synced, and the gateway is as its invariant says.
    abbrev pub Kept : SyncState client → Type 0
    Kept s = IsSynced amounts public_id s.redemptions × Inv s.remote

    finish_key-Kept :
        (loaded : LoadedTarget amounts) (target : _) (account : ℕ)
        (rows : List (Redemption amounts)) (out : Option Err × client.Remote)
        → HasRedemption amounts public_id loaded.db_id
            (λ (r : Redemption amounts). r.status ≡ synced)
            rows
        → Inv out.1
        → Kept (finish_key amounts client w clock loaded target account rows out).1
    unfolding finish_key
    finish_key-Kept loaded target account rows (none, remote) here inv = ((loaded.db_id, here), inv)
    finish_key-Kept loaded target account rows (some e, remote) here inv =
        let (r, found, id, (is_synced, info)) =
          error-updated amounts public_id loaded.db_id rows synced
            (classify (codes "ensure_api_key") (with_stage (codes "ensure_api_key") (some e)))
            here in
        ((loaded.db_id, (r, found, id, is_synced)), inv)

    with_account-Kept :
        (loaded : LoadedTarget amounts) (operation_id : Text) (rows : List (Redemption amounts))
        (out : Reply ℕ × client.Remote)
        → HasRedemption amounts public_id loaded.db_id
            (λ (r : Redemption amounts). r.status ≡ synced)
            rows
        → Inv out.1
        → Kept (with_account amounts client w clock loaded operation_id loaded.target rows out).1
    unfolding with_account
    with_account-Kept loaded operation_id rows (error e, remote) here inv =
        ((loaded.db_id, here), inv)
    with_account-Kept loaded operation_id rows (ok account, remote) here inv =
        finish_key-Kept loaded loaded.target account rows _ here (key_keeps _ _ _ _ _ inv)

    run-Kept :
        (op : Operation) (s : SyncState client)
        → op.target_id ≡ public_id
        → Kept s
        → Kept (sync_redemption_operation amounts client w clock default_group users op s).1
    unfolding sync_redemption_operation sync_loaded
    run-Kept op s of_it ((id, (r, found, same, is_synced)), inv) =
        elim (Bool-cases (text_eq op.target_type (codes "redeem_redemption"))) [
          | inr e ↦ rw (e, sync_redemption_operation) ((id, (r, found, same, is_synced)), inv)
          | inl e ↦
              elim (Option-cases
                (load_sync_target amounts default_group public_id users s.redemptions)) [
                  | inl missing ↦
                      rw (e, of_it, missing, sync_redemption_operation)
                        ((id, (r, found, same, is_synced)), inv)
                  | inr (loaded, there) ↦ elim (Bool-cases (is_user_active loaded.user)) [
                    | inr idle ↦
                        rw (e, of_it, there, idle, sync_redemption_operation)
                          ((id, (r, found, same, is_synced)), inv)
                    | inl active ↦ elim (Option-cases w.first_settings) [
                      | inr (bad, no_settings) ↦
                          rw (e, of_it, there, active, no_settings, sync_redemption_operation)
                            ((id, (r, found, same, is_synced)), inv)
                      | inl settings ↦
                          let (r', found', same', status') =
                            load-Loaded amounts default_group public_id users s.redemptions loaded
                              there in
                          let row : r' ≡ r = ground (arith, found, found') in
                          let is_synced' : loaded.status ≡ synced =
                            sym status' ∙ (rw row is_synced) in
                          rw
                            (
                              e, of_it, there, active, settings, is_synced',
                              sync_redemption_operation, sync_loaded,
                            )
                            (with_account-Kept loaded op.public_id s.redemptions _
                              (r', found', same', status' ∙ is_synced') (account_keeps _ _ _ inv))
                    ]
                  ]
                ]
        ]

module _ (amounts : Amounts) (client : Client amounts) (w : WorkerServices client)
    (default_group : ℕ) (users : List GatewayUser) (public_id : Text) where
  -- The services, with what the settings and the store answer at one time.
  abbrev pub services_with : (settings store : Option Err) → WorkerServices client
  services_with settings store = record w { first_settings = settings; store_error = store }

  -- What is left when the worker has run an operation; the queue is as the worker leaves it.
  abbrev pub after_run : Queue → SyncState client → RetryState client
  after_run queue s = record { redemptions = s.redemptions; queue = queue; remote = s.remote }

  abbrev pub sync_state : RetryState client → SyncState client
  sync_state s = record { redemptions = s.redemptions; remote = s.remote }

  -- Any number of runs by the worker and by administrators of the operations of one redemption.
  pub data Reruns : RetryState client → RetryState client → Type 0 where
    done : {s : RetryState client} → Reruns s s
    worker :
        {s t : RetryState client} (clock : ℕ) (settings store : Option Err) (op : Operation)
        (queue : Queue)
        → op.target_id ≡ public_id
        → Reruns s t
        → Reruns s (
            after_run queue
              (sync_redemption_operation amounts client
                (services_with settings store)
                clock
                default_group
                users
                op
                (sync_state t)).1)
    manual :
        {s t : RetryState client} (clock now : ℕ) (settings store : Option Err)
        (fresh result id : Text)
        → trim_space id ≡ public_id
        → Reruns s t
        → Reruns s
            (retry_redemption_sync amounts client
              (services_with settings store)
              clock
              now
              default_group
              users
              fresh
              result
              id
              t).1

  -- Once a redemption is synced it stays so, and no number of runs by the worker or by
  -- administrators brings it to the gateway again: the gateway keeps whatever the services for
  -- accounts and API keys keep, such as the balance and the subscriptions of its users.
  pub IsSynced-stays :
      (Inv : client.Remote → Type 0)
      (account_keeps : (user group : ℕ) (remote : client.Remote)
        → Inv remote
        → Inv (w.ensure_known_account user group remote).1)
      (key_keeps : (user account group : ℕ) (operation : Text) (remote : client.Remote)
        → Inv remote
        → Inv (w.ensure_operation_key user account group operation remote).1)
      {s t : RetryState client} (reruns : Reruns s t)
      → IsSynced amounts public_id s.redemptions
      → Inv s.remote
      → IsSynced amounts public_id t.redemptions × Inv t.remote
  IsSynced-stays Inv account_keeps key_keeps done here inv = (here, inv)
  IsSynced-stays Inv account_keeps key_keeps (worker clock settings store op queue of_it before)
        here inv =
      run-Kept amounts client (services_with settings store) clock default_group users public_id Inv
        account_keeps key_keeps op _ of_it
        (IsSynced-stays Inv account_keeps key_keeps before here inv)
  IsSynced-stays Inv account_keeps key_keeps
        (manual {s} {t} clock now settings store fresh result id of_it before) here inv =
      let kept = IsSynced-stays Inv account_keeps key_keeps before here inv in
      let same =
        retry-Kept amounts client (services_with settings store) 0 default_group users public_id
          clock now fresh result id t of_it kept.0 in
      subst (λ (x : RetryState client). IsSynced amounts public_id x.redemptions × Inv x.remote)
        (sym same) kept
