-- ===== src/Subscription/Examples.antt =====
-- A gateway with one user and group, and the theorems at concrete inputs.
use mathlib.Core.List.{Memᴰ}
use brevyn_cloud.Base.{
  ℕ, ◌+◌, ◌≡◌, refl, false, none, some, List, [], ◌∷◌, codes, trim_space, trim_left, trim_right,
  is_space, is_blank, to_lower, text_eq, contains,
}
use brevyn_cloud.Redeem.{Amounts, subscription}
use brevyn_cloud.Subscription.{
  Subscription, Client, ok, SyncTarget, assign_subscription, sync_subscription, renew_or_assign,
  find_applied, latest_renewable, latest_from, keep_later, is_renewable,
}
use brevyn_cloud.Subscription.Latest.{IsSearched, latest_renewable-IsSearched}
use brevyn_cloud.Subscription.Resync.{ListsAssigned, resync_keeps}

abbrev amounts : Amounts
amounts = record { Amount = ℕ; nothing = 0; plus = λ a b. a + b }

-- It keeps the subscriptions of the user, a new one first.
abbrev client : Client amounts
client = record {
  Remote = List Subscription;
  list = λ user group remote. ok remote;
  extend = λ id days key remote. (none, remote);
  assign = λ user group days notes key remote.
      (none, record { id = 9; expires_at = days; status = codes "active"; notes = notes } ∷ remote);
  add_balance = λ user value notes key remote. (none, remote);
}

lists_assigned : ListsAssigned amounts client
lists_assigned user group days notes key remote done = (
  _,
  record { id = 9; expires_at = days; status = codes "active"; notes = notes },
  refl,
  Memᴰ.head refl,
  refl,
)

abbrev old : Subscription
old = record {
  id = 1;
  expires_at = 10;
  status = codes "expired";
  notes = codes "Brevyn retry rr_0";
}

abbrev current : Subscription
current = record { id = 2; expires_at = 900; status = codes " Active"; notes = codes "" }

latest_renewable-IsSearched_example :
    IsSearched 100 (old ∷ current ∷ []) (latest_renewable 100 (old ∷ current ∷ []))
latest_renewable-IsSearched_example = latest_renewable-IsSearched 100 (old ∷ current ∷ [])

finds_current : latest_renewable 100 (old ∷ current ∷ []) ≡ some current
unfolding latest_renewable latest_from keep_later is_renewable to_lower text_eq trim_space trim_left
    trim_right is_space is_blank
finds_current = refl

first_assigns :
    (sync_subscription amounts client 100 7 3 30 (codes "rr_1") (codes "brevyn-rr_1") (old ∷ [])).0
    ≡ (assign_subscription, none)
unfolding sync_subscription renew_or_assign find_applied contains latest_renewable latest_from
    keep_later is_renewable to_lower text_eq trim_space trim_left trim_right is_space is_blank
first_assigns = refl

id_trimmed : trim_space (codes "rr_1") ≡ codes "rr_1"
unfolding trim_space trim_left trim_right is_space is_blank
id_trimmed = refl

id_named : is_blank (codes "rr_1") ≡ false
unfolding is_blank
id_named = refl

resync_keeps_example :
    let first =
      sync_subscription amounts client 100 7 3 30 (codes "rr_1") (codes "brevyn-rr_1") (old ∷ []) in
    sync_subscription amounts client 200 7 3 30 (codes "rr_1") (codes "brevyn-rr_1") first.1
    ≡ ((assign_subscription, none), first.1)
resync_keeps_example =
    resync_keeps amounts client lists_assigned 100 200 7 3 30 (codes "rr_1") (codes "brevyn-rr_1")
      (old ∷ []) id_trimmed id_named first_assigns

abbrev target : SyncTarget amounts
target = record {
  public_id = codes "rr_1";
  kind = subscription;
  value = 0;
  validity_days = 30;
  external_group_id = 3;
  gateway_operation = codes "";
}
