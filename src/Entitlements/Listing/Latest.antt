-- ===== src/Entitlements/Listing/Latest.antt =====
-- Which subscription a group is shown with.
use mathlib.Core.List.{Memᴰ}
use brevyn_cloud.Base.{
  ℕ, ◌≡◌, ◌⊎◌, refl, sym, ◌∙◌, subst, Bool, true, false, ◌&&◌, Option, none, some, List, [], ◌∷◌,
  arith, inl, inr, All, Bool-cases, ltb, ◌==◌, ==_iff, ==_refl, if◌then◌else◌,
}
use brevyn_cloud.Entitlements.{Money, AdminSubscription}
use brevyn_cloud.Entitlements.Listing.{
  ends_later, put_subscription, subscriptions_from, active_subscriptions_by_group,
}

module _ (money : Money) (group : ℕ) (positive : (group == 0) ≡ false) where
  -- The subscription is one to the group.
  abbrev pub of_group : AdminSubscription money → Bool
  of_group s = s.group_id == group

  -- No subscription to the group ends later than this one.
  abbrev pub NoneLater : AdminSubscription money → List (AdminSubscription money) → Type 0
  NoneLater best subscriptions =
      All
        (λ (s : AdminSubscription money).
          of_group s ≡ true → ltb best.expires_at s.expires_at ≡ false)
        subscriptions

  -- What a group is shown with: a subscription to it of which none ends later, or none if there is
  -- none.
  abbrev pub IsShown : List (AdminSubscription money) → Option (AdminSubscription money) → Type 0
  IsShown subscriptions none =
      All (λ (s : AdminSubscription money). of_group s ≡ false) subscriptions
  IsShown subscriptions (some best) =
      Memᴰ best subscriptions × (of_group best ≡ true) × NoneLater best subscriptions

  put-of_group :
      (s : AdminSubscription money) (out : ℕ → Option (AdminSubscription money))
      → put_subscription money s out group
        ≡ (if of_group s && ends_later money s (out group) then some s else out group)
  unfolding put_subscription
  put-of_group s out = elim (Bool-cases (s.group_id == group)) [
    | inl e ↦
        let same : s.group_id ≡ group = (==_iff s.group_id group).0 e in
        rw (same, positive, ==_refl group, put_subscription) (ground arith)
    | inr e ↦
        let other : (group == s.group_id) ≡ false = ground (arith, e) in
        rw (e, put_subscription, other) (ground arith)
  ]

  NotEarlier : AdminSubscription money → Option (AdminSubscription money) → Type 0
  NotEarlier best none = Unit
  NotEarlier best (some existing) = ltb best.expires_at existing.expires_at ≡ false

  -- What the loop leaves, where it starts with `start`.
  IsKept : List (AdminSubscription money) → (start o : Option (AdminSubscription money)) → Type 0
  IsKept subscriptions start none =
      (start ≡ none) × All (λ (s : AdminSubscription money). of_group s ≡ false) subscriptions
  IsKept subscriptions start (some best) =
      ((start ≡ some best) ⊎ (Memᴰ best subscriptions × (of_group best ≡ true)))
      × NotEarlier best start
      × NoneLater best subscriptions

  IsKept-skip :
      (s : AdminSubscription money) (rest : List (AdminSubscription money))
      (start o : Option (AdminSubscription money))
      → of_group s && ends_later money s start ≡ false
      → IsKept rest start o
      → IsKept (s ∷ rest) start o
  unfolding IsKept NotEarlier
  IsKept-skip s rest none none stays (e, others) = (e, (ground (arith, stays), others))
  IsKept-skip s rest (some x) none stays (e, others) = absurd (ground (arith, e))
  IsKept-skip s rest none (some best) stays (place, not_earlier, others) = (
    elim place [ inl e ↦ inl e | inr (m, here) ↦ inr (Memᴰ.tail m, here) ],
    not_earlier,
    ((λ here. absurd (ground (arith, stays, here))), others),
  )
  IsKept-skip s rest (some x) (some best) stays (place, not_earlier, others) = (
    elim place [ inl e ↦ inl e | inr (m, here) ↦ inr (Memᴰ.tail m, here) ],
    not_earlier,
    ((λ here. ground (arith, stays, here, not_earlier)), others),
  )

  take-NotEarlier :
      (s : AdminSubscription money) (start : Option (AdminSubscription money))
      (best : AdminSubscription money)
      → of_group s && ends_later money s start ≡ true
      → ltb best.expires_at s.expires_at ≡ false
      → NotEarlier best start
  unfolding NotEarlier
  take-NotEarlier s none best taken later = tt
  take-NotEarlier s (some x) best taken later = ground (arith, taken, later)

  IsKept-take :
      (s : AdminSubscription money) (rest : List (AdminSubscription money))
      (start o : Option (AdminSubscription money))
      → of_group s && ends_later money s start ≡ true
      → IsKept rest (some s) o
      → IsKept (s ∷ rest) start o
  unfolding IsKept NotEarlier
  IsKept-take s rest start none taken (e, others) = absurd (ground (arith, e))
  IsKept-take s rest start (some best) taken (place, not_earlier, others) = (
    inr (elim place [
      | inl e ↦
          let same : s ≡ best = ground (arith, e) in
          (
            Memᴰ.head (sym same),
            subst (λ (x : AdminSubscription money). of_group x ≡ true) same (ground (arith, taken)),
          )
      | inr (m, here) ↦ (Memᴰ.tail m, here)
    ]),
    take-NotEarlier s start best taken not_earlier,
    ((λ here. not_earlier), others),
  )

  IsKept-start : (start : Option (AdminSubscription money)) → IsKept [] start start
  unfolding IsKept NotEarlier
  IsKept-start none = (refl, tt)
  IsKept-start (some best) = (inl refl, ground arith, tt)

  subscriptions_from-IsKept :
      (subscriptions : List (AdminSubscription money)) (out : ℕ → Option (AdminSubscription money))
      → IsKept subscriptions (out group) (subscriptions_from money subscriptions out group)
  unfolding subscriptions_from IsKept NotEarlier
  subscriptions_from-IsKept [] out = IsKept-start (out group)
  subscriptions_from-IsKept (s ∷ rest) out =
      let kept = subscriptions_from-IsKept rest (put_subscription money s out) in
      let found = subscriptions_from money rest (put_subscription money s out) group in
      let next = put-of_group s out in
      elim (Bool-cases (of_group s && ends_later money s (out group))) [
        | inl e ↦
            let taken : put_subscription money s out group ≡ some s = next ∙ rw e refl in
            IsKept-take s rest (out group) found e
              (subst (λ start. IsKept rest start found) taken kept)
        | inr e ↦
            let stays : put_subscription money s out group ≡ out group = next ∙ rw e refl in
            IsKept-skip s rest (out group) found e
              (subst (λ start. IsKept rest start found) stays kept)
      ]

  kept-IsShown :
      (subscriptions : List (AdminSubscription money)) (o : Option (AdminSubscription money))
      → IsKept subscriptions none o
      → IsShown subscriptions o
  unfolding IsKept
  kept-IsShown subscriptions none (e, others) = others
  kept-IsShown subscriptions (some best) (inl e, not_earlier, others) = absurd (ground (arith, e))
  kept-IsShown subscriptions (some best) (inr (m, here), not_earlier, others) = (m, here, others)

  -- A group, whose id is not 0, is shown with one of its subscriptions of which none ends later, and
  -- with no subscription only where none of them is to the group.
  pub active_subscriptions_by_group-IsShown :
      (subscriptions : List (AdminSubscription money))
      → IsShown subscriptions (active_subscriptions_by_group money subscriptions group)
  unfolding active_subscriptions_by_group
  active_subscriptions_by_group-IsShown subscriptions =
      kept-IsShown subscriptions _ (subscriptions_from-IsKept subscriptions (λ group. none))
