-- ===== src/Subscription/Resync.antt =====
-- A redemption that the gateway has applied is not applied again.
use mathlib.Core.List.{Memᴰ}
use brevyn_cloud.Base.{
  ℕ, ◌≡◌, ◌⊎◌, refl, sym, ap, ◌∙◌, subst, Bool, true, false, Option, none, some, List, [], ◌∷◌,
  ◌++◌, Text, codes, arith, inl, inr, Option-cases, Bool-cases, contains, has_prefix, find,
  is_blank, trim_space, ==_refl,
}
use brevyn_cloud.Errors.{Err}
use brevyn_cloud.Redeem.{Amounts}
use brevyn_cloud.Subscription.{
  Subscription, Client, Reply, ok, error, find_applied, latest_renewable, SyncOperation,
  assign_subscription, reports, extend_subscription, lookup_subscription, retry_notes,
  renew_or_assign, sync_subscription,
}

has_prefix_refl : (s : Text) → has_prefix s s ≡ true
unfolding has_prefix
has_prefix_refl [] = refl
has_prefix_refl (c ∷ s) = rw (==_refl c, has_prefix_refl s) refl

contains_refl : (s : Text) → contains s s ≡ true
unfolding contains
contains_refl [] = has_prefix_refl []
contains_refl (c ∷ s) = rw (has_prefix_refl (c ∷ s)) refl

contains-append : (before s : Text) → contains (before ++ s) s ≡ true
unfolding contains
contains-append [] s = contains_refl s
contains-append (c ∷ before) s =
    let rest = contains-append before s in
    elim (Bool-cases (has_prefix (c ∷ (before ++ s)) s)) [
      | inl e ↦ rw e refl
      | inr e ↦ rw (e, rest) refl
    ]

find-found :
    (p : Subscription → Bool) (xs : List Subscription) {a : Subscription}
    → Memᴰ a xs
    → p a ≡ true
    → (b : Subscription) × (find p xs ≡ some b)
find-found p [] m h = elim m [ ]
find-found p (x ∷ xs) (Memᴰ.head e) h = let here : p x ≡ true = rw (sym e) h in (x, rw here refl)
find-found p (x ∷ xs) (Memᴰ.tail m) h = elim (Bool-cases (p x)) [
  | inl e ↦ (x, rw e refl)
  | inr e ↦ let (b, found) = find-found p xs m h in (b, rw e found)
]

Reply-cases {ℓ} : {A : Type ℓ} (r : Reply A) → ((e : Err) × (r ≡ error e)) ⊎ ((a : A) × (r ≡ ok a))
Reply-cases (error e) = inl (e, refl)
Reply-cases (ok a) = inr (a, refl)

module _ (amounts : Amounts) (client : Client amounts) where
  -- What is relied on of the gateway: when an assignment succeeds, the user's subscriptions to the
  -- group are listed, and one of them has the notes of the assignment.
  abbrev pub ListsAssigned : Type 0
  ListsAssigned =
      (user group days : ℕ) (notes key : Text) (remote : client.Remote)
      → let out = client.assign user group days notes key remote in
        out.0 ≡ none
        → (subscriptions : List Subscription) × (s : Subscription) × (client.list user group out.1
            ≡ ok subscriptions)
          × Memᴰ s subscriptions
          × (s.notes ≡ notes)

  -- A redemption whose id stands in the notes of a listed subscription is reported as done, and
  -- the gateway is left as it is.
  pub sync_applied :
      (now user group days : ℕ) (public_id key : Text) (remote : client.Remote)
      (subscriptions : List Subscription) (s : Subscription)
      → client.list user group remote ≡ ok subscriptions
      → find_applied public_id subscriptions ≡ some s
      → sync_subscription amounts client now user group days public_id key remote
        ≡ ((assign_subscription, none), remote)
  unfolding sync_subscription renew_or_assign
  sync_applied now user group days public_id key remote subscriptions s listed applied =
      ap (λ r. renew_or_assign amounts client now user group days public_id key r remote) listed
      ∙ rw (applied, renew_or_assign) refl

  sync_error :
      (now user group days : ℕ) (public_id key : Text) (remote : client.Remote) (e : Err)
      → client.list user group remote ≡ error e
      → sync_subscription amounts client now user group days public_id key remote
        ≡ ((lookup_subscription, some e), remote)
  unfolding sync_subscription renew_or_assign
  sync_error now user group days public_id key remote e listed =
      ap (λ r. renew_or_assign amounts client now user group days public_id key r remote) listed

  sync_extended :
      (now user group days : ℕ) (public_id key : Text) (remote : client.Remote)
      (subscriptions : List Subscription) (s : Subscription)
      → client.list user group remote ≡ ok subscriptions
      → find_applied public_id subscriptions ≡ none
      → latest_renewable now subscriptions ≡ some s
      → sync_subscription amounts client now user group days public_id key remote
        ≡ reports amounts client extend_subscription (client.extend s.id days key remote)
  unfolding sync_subscription renew_or_assign
  sync_extended now user group days public_id key remote subscriptions s listed new latest =
      ap (λ r. renew_or_assign amounts client now user group days public_id key r remote) listed
      ∙ rw (new, renew_or_assign, latest) refl

  sync_assigned :
      (now user group days : ℕ) (public_id key : Text) (remote : client.Remote)
      (subscriptions : List Subscription)
      → client.list user group remote ≡ ok subscriptions
      → find_applied public_id subscriptions ≡ none
      → latest_renewable now subscriptions ≡ none
      → sync_subscription amounts client now user group days public_id key remote
        ≡ reports amounts client assign_subscription
            (client.assign user group days (retry_notes public_id) key remote)
  unfolding sync_subscription renew_or_assign
  sync_assigned now user group days public_id key remote subscriptions listed new latest =
      ap (λ r. renew_or_assign amounts client now user group days public_id key r remote) listed
      ∙ rw (new, renew_or_assign, latest) refl

  assigned_applied :
      (public_id notes : Text) (subscriptions : List Subscription) (s : Subscription)
      → trim_space public_id ≡ public_id
      → is_blank public_id ≡ false
      → notes ≡ retry_notes public_id
      → Memᴰ s subscriptions
      → s.notes ≡ notes
      → (b : Subscription) × (find_applied public_id subscriptions ≡ some b)
  unfolding find_applied
  assigned_applied public_id notes subscriptions s trimmed named noted m same =
      rw (trimmed, named)
        (find-found (λ (x : Subscription). contains x.notes public_id) subscriptions m
          (rw (same, noted) (contains-append (codes "Brevyn retry ") public_id)))

  -- Where a sync reports that a subscription is assigned, a second sync of the same redemption, at
  -- any time, reports the same and leaves the gateway as it is: the id is trimmed and not empty,
  -- and the gateway lists what it has assigned with the notes.
  pub resync_keeps :
      ListsAssigned
      → (now now' user group days : ℕ) (public_id key : Text) (remote : client.Remote)
      → trim_space public_id ≡ public_id
      → is_blank public_id ≡ false
      → let first = sync_subscription amounts client now user group days public_id key remote in
        first.0 ≡ (assign_subscription, none)
        → sync_subscription amounts client now' user group days public_id key first.1
          ≡ ((assign_subscription, none), first.1)
  resync_keeps lists now now' user group days public_id key remote trimmed named done =
      let Again : (SyncOperation × Option Err) × client.Remote → Type 0 = λ out.
        out.0 ≡ (assign_subscription, none)
        → sync_subscription amounts client now' user group days public_id key out.1
          ≡ ((assign_subscription, none), out.1) in
      elim (Reply-cases (client.list user group remote)) [
        | inl (e, listed) ↦
            subst Again (sym (sync_error now user group days public_id key remote e listed))
              (λ d. absurd (ground (arith, d))) done
        | inr (subscriptions, listed) ↦ elim (Option-cases (find_applied public_id subscriptions)) [
          | inr (s, applied) ↦
              subst Again
                (sym (
                  sync_applied now user group days public_id key remote subscriptions s listed
                    applied))
                (λ d.
                  sync_applied now' user group days public_id key remote subscriptions s listed
                    applied)
                done
          | inl new ↦ elim (Option-cases (latest_renewable now subscriptions)) [
            | inr (s, latest) ↦
                subst Again
                  (sym (
                    sync_extended now user group days public_id key remote subscriptions s listed
                      new latest))
                  (λ d. absurd (ground (arith, d))) done
            | inl none_left ↦
                subst Again
                  (sym (
                    sync_assigned now user group days public_id key remote subscriptions listed new
                      none_left))
                  (λ d.
                    let notes = retry_notes public_id in
                    let (after, s, listed', m, same) =
                      lists user group days notes key remote
                        (ap (λ (x : SyncOperation × Option Err). x.1) d) in
                    let (b, applied) =
                      assigned_applied public_id notes after s trimmed named refl m same in
                    sync_applied now' user group days public_id key _ after b listed' applied)
                  done
          ]
        ]
      ]
