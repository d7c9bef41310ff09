-- ===== src/Entitlements/Listing/Once.antt =====
-- Every group of a user is listed once.
use brevyn_cloud.Base.{
  ℕ, suc, ◌+◌, ◌≤◌, ◌≡◌, refl, sym, ◌∙◌, ap, subst, Bool, true, false, ◌&&◌, ◌||◌, not, Option,
  none, some, List, [], ◌∷◌, ◌++◌, arith, inl, inr, All, Bool-cases, Option-cases, ◌==◌, ==_iff,
  ==_refl, if◌then◌else◌, count_where, count_where-append,
}
use brevyn_cloud.Entitlements.{
  Money, GatewayGroup, AdminGroup, AdminSubscription, GatewayUser, BalanceGroup, SubscriptionGroup,
  is_subscription, normalize_subscription_type, build_balance_group, build_subscription_group,
}
use brevyn_cloud.Entitlements.Listing.{
  gateway_group_from_sub2, added_group, see, merge_from, seen_groups, merge_subscription_groups,
  goes_before, insert_group, sort_groups, GroupLists, entitle, entitlement_subscription_type,
}

module _ (money : Money) where
  abbrev pub has_group : ℕ → GatewayGroup money → Bool
  has_group id g = g.external_group_id == id

  -- The subscription brings a group of its own, of the kind "subscription".
  abbrev pub offers : Option (AdminGroup money) → Bool
  offers none = false
  offers (some g) = is_subscription (normalize_subscription_type g.subscription_type)

  abbrev pub brings : ℕ → AdminSubscription money → Bool
  brings id s = not (s.group_id == 0) && s.group_id == id && offers s.group

  -- Some subscription brings the group with this id.
  abbrev pub is_brought : ℕ → List (AdminSubscription money) → Bool
  is_brought id [] = false
  is_brought id (s ∷ subscriptions) = brings id s || is_brought id subscriptions

  -- The group of a subscription has the id that the subscription names.
  abbrev pub GroupFits : AdminSubscription money → Type 0
  GroupFits s = elim s.group [ none ↦ Unit {0} | some g ↦ g.id ≡ s.group_id ]

  brings-offers :
      (id : ℕ) (s : AdminSubscription money) → brings id s ≡ true → offers s.group ≡ true
  brings-offers id s h = ground (arith, h)

  data AddedView (seen : ℕ → Bool) (s : AdminSubscription money)
      : Option (AdminGroup money) → Type 0 where
    skipped : ((id : ℕ) → brings id s ≡ true → seen id ≡ true) → AddedView seen s none
    taken :
        (g : AdminGroup money)
        → s.group ≡ some g
        → ((id : ℕ) → brings id s ≡ (s.group_id == id))
        → seen s.group_id ≡ false
        → AddedView seen s (some g)

  added_view :
      (seen : ℕ → Bool) (s : AdminSubscription money) → AddedView seen s (added_group money seen s)
  unfolding added_group
  added_view seen s =
      let View = AddedView seen s in
      elim (Bool-cases (s.group_id == 0 || seen s.group_id)) [
        | inl out ↦
            let same : added_group money seen s ≡ none = rw (out, added_group) in
            subst View (sym same) (
              skipped (λ id h.
                let here : s.group_id ≡ id = (==_iff s.group_id id).0 (ground (arith, h)) in
                subst (λ x. seen x ≡ true) here (ground (arith, h, out))))
        | inr fresh ↦ elim (Option-cases s.group) [
          | inl e ↦
              let same : added_group money seen s ≡ none = rw (fresh, e, added_group) in
              subst View (sym same)
                (skipped (λ id h. absurd (ground (arith, brings-offers id s h, e))))
          | inr (g, e) ↦
              elim (Bool-cases
                (is_subscription (normalize_subscription_type g.subscription_type))) [
                  | inl kind ↦
                      let same : added_group money seen s ≡ some g =
                        rw (fresh, e, kind, added_group) in
                      let offer : offers s.group ≡ true = rw e kind in
                      subst View (sym same)
                        (taken g e (λ id. ground (arith, fresh, offer)) (ground (arith, fresh)))
                  | inr kind ↦
                      let same : added_group money seen s ≡ none =
                        rw (fresh, e, kind, added_group) in
                      let refused : offers s.group ≡ false = rw e kind in
                      subst View (sym same)
                        (skipped (λ id h. absurd (ground (arith, brings-offers id s h, refused))))
                ]
        ]
      ]

  -- How often the group with this id occurs.
  abbrev pub occurrences : ℕ → List (GatewayGroup money) → ℕ
  occurrences id groups = count_where (has_group id) groups

  abbrev pub one_if : Bool → ℕ
  one_if b = if b then 1 else 0

  added-once :
      (current : ℕ) (seen : ℕ → Bool) (s : AdminSubscription money) (g : AdminGroup money)
      (groups : List (GatewayGroup money))
      → g.id ≡ s.group_id
      → seen s.group_id ≡ false
      → ((x : ℕ) → occurrences x groups ≡ one_if (seen x))
      → (x : ℕ)
      → occurrences x (groups ++ (gateway_group_from_sub2 money g current ∷ []))
        ≡ one_if (see money s.group_id seen x)
  unfolding gateway_group_from_sub2
  added-once current seen s g groups fits unseen once x =
      let sum =
        count_where-append (has_group x) groups (gateway_group_from_sub2 money g current ∷ []) in
      elim (Bool-cases (x == s.group_id)) [
        | inl e ↦
            let here : x ≡ s.group_id = (==_iff x s.group_id).0 e in
            let before : occurrences x groups ≡ 0 = once x ∙ rw (here, unseen) refl in
            let hit : (g.id == x) ≡ true = rw (fits, here, ==_refl s.group_id) refl in
            rw (e, sum, before, hit) refl
        | inr e ↦
            let miss : (g.id == x) ≡ false = ground (arith, fits, e) in
            rw (e, sum, once x, miss) (ground arith)
      ]

  -- The rest of the loop, after one subscription.
  merged_view :
      (current : ℕ) (seen : ℕ → Bool) (s : AdminSubscription money)
      (rest : List (AdminSubscription money)) (groups : List (GatewayGroup money)) (id : ℕ)
      (o : Option (AdminGroup money))
      → AddedView seen s o
      → added_group money seen s ≡ o
      → GroupFits s
      → ((x : ℕ) → occurrences x groups ≡ one_if (seen x))
      → ((seen' : ℕ → Bool) (groups' : List (GatewayGroup money))
          → ((x : ℕ) → occurrences x groups' ≡ one_if (seen' x))
          → occurrences id (merge_from money current seen' rest groups')
            ≡ one_if (seen' id || is_brought id rest))
      → occurrences id (merge_from money current seen (s ∷ rest) groups)
        ≡ one_if (seen id || is_brought id (s ∷ rest))
  unfolding merge_from
  merged_view current seen s rest groups id _ (skipped known) e fits once more =
      rw (e, merge_from)
        (more seen groups once
          ∙ ap one_if (elim (Bool-cases (brings id s)) [
            | inl h ↦ rw (known id h) refl
            | inr h ↦ rw h refl
          ]))
  merged_view current seen s rest groups id _ (taken g is_group kind unseen) e fits once more =
      let Fits : Option (AdminGroup money) → Type 0 =
        λ o. elim o [ none ↦ Unit {0} | some h ↦ h.id ≡ s.group_id ] in
      let fit : g.id ≡ s.group_id = subst Fits is_group fits in
      rw (e, merge_from)
        (more (see money s.group_id seen) _ (added-once current seen s g groups fit unseen once)
          ∙ ap one_if (ground (arith, kind id)))

  merged-occurrences :
      (current : ℕ) (seen : ℕ → Bool) (subscriptions : List (AdminSubscription money))
      (groups : List (GatewayGroup money)) (id : ℕ)
      → All GroupFits subscriptions
      → ((x : ℕ) → occurrences x groups ≡ one_if (seen x))
      → occurrences id (merge_from money current seen subscriptions groups)
        ≡ one_if (seen id || is_brought id subscriptions)
  unfolding merge_from
  merged-occurrences current seen [] groups id fits once = once id ∙ ap one_if (ground arith)
  merged-occurrences current seen (s ∷ rest) groups id fits once =
      merged_view current seen s rest groups id _ (added_view seen s) refl fits.0 once
        (λ seen' groups' once'. merged-occurrences current seen' rest groups' id fits.1 once')

  seen_groups-occurrences :
      (groups : List (GatewayGroup money)) (id : ℕ)
      → occurrences id groups ≤ 1
      → occurrences id groups ≡ one_if (seen_groups money groups id)
  unfolding seen_groups
  seen_groups-occurrences [] id once = refl
  seen_groups-occurrences (g ∷ groups) id once = elim (Bool-cases (g.external_group_id == id)) [
    | inl e ↦
        let e' : (id == g.external_group_id) ≡ true = ground (arith, e) in
        let rest : occurrences id groups ≡ 0 = ground (arith, once, e) in rw (e, e') (ap suc rest)
    | inr e ↦
        let e' : (id == g.external_group_id) ≡ false = ground (arith, e) in
        rw (e, e', seen_groups) (seen_groups-occurrences groups id (ground (arith, once, e)))
  ]

  inserted-occurrences :
      (current id : ℕ) (g : GatewayGroup money) (groups : List (GatewayGroup money))
      → occurrences id (insert_group money current g groups) ≡ occurrences id (g ∷ groups)
  unfolding insert_group
  inserted-occurrences current id g [] = refl
  inserted-occurrences current id g (x ∷ groups) =
      elim (Bool-cases (goes_before money current x g)) [
        | inl e ↦ rw (e, insert_group) (ground (arith, inserted-occurrences current id g groups))
        | inr e ↦ rw (e, insert_group) refl
      ]

  sorted-occurrences :
      (current id : ℕ) (groups : List (GatewayGroup money))
      → occurrences id (sort_groups money current groups) ≡ occurrences id groups
  unfolding sort_groups
  sorted-occurrences current id [] = refl
  sorted-occurrences current id (g ∷ groups) =
      inserted-occurrences current id g (sort_groups money current groups)
      ∙ ground (arith, sorted-occurrences current id groups)

  -- How often a group is listed, by balance or by subscription.
  abbrev pub listings : ℕ → GroupLists money → ℕ
  listings id lists =
      count_where (λ (g : BalanceGroup money). g.external_group_id == id) lists.balance_groups
      + count_where (λ (g : SubscriptionGroup money). g.external_group_id == id)
          lists.subscription_groups

  entitled-occurrences :
      (by_group : ℕ → Option (AdminSubscription money)) (user : GatewayUser money)
      (limit : money.Amount) (now id : ℕ) (groups : List (GatewayGroup money))
      → listings id (entitle money by_group user limit now groups) ≡ occurrences id groups
  unfolding entitle build_balance_group build_subscription_group
  entitled-occurrences by_group user limit now id [] = refl
  entitled-occurrences by_group user limit now id (g ∷ groups) =
      let rest = entitled-occurrences by_group user limit now id groups in
      elim (Bool-cases
        (is_subscription (entitlement_subscription_type money g (by_group g.external_group_id)))) [
          | inl e ↦ rw (e, entitle) (ground (arith, rest))
          | inr e ↦ rw (e, entitle) (ground (arith, rest))
        ]

  -- If the user's groups have different ids and a subscription names the group that it brings, each
  -- group is listed once, by balance or by subscription, that is one of the user's groups or is
  -- brought by a subscription of its kind; no other group is listed.
  pub entitle-merge-occurrences :
      (groups : List (GatewayGroup money)) (subscriptions : List (AdminSubscription money))
      (by_group : ℕ → Option (AdminSubscription money)) (user : GatewayUser money)
      (limit : money.Amount) (now current : ℕ)
      → ((id : ℕ) → occurrences id groups ≤ 1)
      → All GroupFits subscriptions
      → (id : ℕ)
      → listings id (
          entitle money by_group user limit now (
            sort_groups money current
              (merge_subscription_groups money groups subscriptions current)))
        ≡ one_if (seen_groups money groups id || is_brought id subscriptions)
  unfolding merge_subscription_groups
  entitle-merge-occurrences groups subscriptions by_group user limit now current distinct fits id =
      entitled-occurrences by_group user limit now id _
      ∙ (sorted-occurrences current id _
          ∙ merged-occurrences current (seen_groups money groups) subscriptions groups id fits
              (λ x. seen_groups-occurrences groups x (distinct x)))
