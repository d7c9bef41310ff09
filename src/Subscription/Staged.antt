-- ===== src/Subscription/Staged.antt =====
-- Where the sync of a redemption failed.
use brevyn_cloud.Base.{ℕ, ◌≡◌, refl, Option, none, some, Text, codes}
use brevyn_cloud.Errors.{Err, staged_as}
use brevyn_cloud.Redeem.{Amounts}
use brevyn_cloud.Subscription.{
  Client, Reply, ok, error, SyncOperation, SyncTarget, sync_kind, check_target, operation_text,
  sync_target,
}

-- The error, if there is one, says that it came up at this stage.
abbrev pub IsStagedAs : Text → Option Err → Type 0
IsStagedAs stage none = Unit
IsStagedAs stage (some e) = staged_as e ≡ some stage

module _ (amounts : Amounts) (client : Client amounts) (now : ℕ) where
  -- What the gateway is asked for a target, once its user is known.
  abbrev pub asked :
      SyncTarget amounts
      → (account : ℕ) → client.Remote
      → (SyncOperation × Option Err) × client.Remote
  asked target account remote =
      sync_kind amounts client target.kind now account target.external_group_id target.validity_days
        target.value target.public_id remote

  -- The stage of an error: the first of the settings, the gateway's user and the operation that the
  -- gateway is asked for that fails.
  abbrev pub stage_after_account : SyncTarget amounts → Reply ℕ × client.Remote → Text
  stage_after_account target (error e, remote) = codes "ensure_user"
  stage_after_account target (ok account, remote) = operation_text (asked target account remote).0.0

  abbrev pub failing_stage : Option Err → SyncTarget amounts → Reply ℕ × client.Remote → Text
  failing_stage (some e) target out = codes "settings"
  failing_stage none target out = stage_after_account target out

  -- A target that is refused before the sync leaves the gateway as it is.
  pub refused_keeps_gateway :
      (settings : Option Err) (ensure_account : client.Remote → Reply ℕ × client.Remote)
      (target : SyncTarget amounts) (remote : client.Remote) (e : Err)
      → check_target target.kind target.external_group_id target.validity_days ≡ some e
      → (sync_target amounts client now settings ensure_account target remote).1 ≡ remote
  unfolding sync_target
  refused_keeps_gateway settings ensure_account target remote e bad = rw (bad, sync_target) refl
