-- ===== src/Entitlements/Statuses.antt =====
-- What a subscription's status says of its windows.
use mathlib.Core.List.{Memᴰ}
use brevyn_cloud.Base.{
  ℕ, ◌≡◌, ◌⊎◌, refl, sym, ◌∙◌, subst, true, false, ◌||◌, not, Option, none, some, List, [], ◌∷◌,
  arith, inl, inr, All, Bool-cases, Option-cases, trim_space, codes, if◌then◌else◌,
}
use brevyn_cloud.Entitlements.{
  Money, GatewayGroup, AdminSubscription, QuotaWindow, StatusAnswer, WindowName, Scan, first_name,
  scan_window, scan_windows, start_scan, status_of_scan, is_over, subscription_entitlement_status,
  active_status, equal_fold, active, expired, quota_exhausted, inactive_group, subscription_status,
}

-- Sums of money are in a total order.
pub record MoneyValid (money : Money) : Type 0 where
  pub less_is : (a b : money.Amount) → money.less a b ≡ not (money.at_most b a)
  pub at_most_trans :
      (a b c : money.Amount)
      → money.at_most a b ≡ true
      → money.at_most b c ≡ true
      → money.at_most a c ≡ true
  pub at_most_total : (a b : money.Amount) → money.at_most a b ≡ false → money.at_most b a ≡ true

module _ (money : Money) where
  abbrev pub Windows : Type 0
  Windows = List (WindowName × Option (QuotaWindow money))

  -- What holds of a window, if it has a limit.
  abbrev pub OfWindow :
      (QuotaWindow money → Type 0) → WindowName × Option (QuotaWindow money) → Type 0
  OfWindow P (name, none) = Unit
  OfWindow P (name, some window) = P window

  -- What holds of every window that has a limit.
  abbrev pub OfWindows : (QuotaWindow money → Type 0) → Windows → Type 0
  OfWindows P windows = All (OfWindow P) windows

  -- A window of this name and this rest is among them.
  abbrev pub HasWindow : Windows → WindowName → money.Amount → Type 0
  HasWindow windows name rest =
      (window : QuotaWindow money) × Memᴰ (name, some window) windows × (window.remaining ≡ rest)

  later_window :
      (windows : Windows) (x : WindowName × Option (QuotaWindow money)) (name : WindowName)
      (rest : money.Amount)
      → HasWindow windows name rest
      → HasWindow (x ∷ windows) name rest
  later_window windows x name rest (window, m, same) = (window, Memᴰ.tail m, same)

  at_most_refl : MoneyValid money → (a : money.Amount) → money.at_most a a ≡ true
  at_most_refl valid a = elim (Bool-cases (money.at_most a a)) [
    | inl e ↦ e
    | inr e ↦ valid.at_most_total a a e
  ]

  less-at_most :
      MoneyValid money → (a b : money.Amount) → money.less a b ≡ true → money.at_most a b ≡ true
  less-at_most valid a b h = valid.at_most_total b a (ground (arith, h, valid.less_is a b))

  not_less-at_most :
      MoneyValid money → (a b : money.Amount) → money.less a b ≡ false → money.at_most b a ≡ true
  not_less-at_most valid a b h = ground (arith, h, valid.less_is a b)

  scanned_lowest :
      MoneyValid money
      → (windows : Windows) (s : Scan money)
      → let end = scan_windows money windows s in
        (s.limited ≡ true → money.at_most end.remaining s.remaining ≡ true)
        × OfWindows (λ window. money.at_most end.remaining window.remaining ≡ true) windows
  unfolding scan_windows scan_window
  scanned_lowest valid [] s = ((λ h. at_most_refl valid s.remaining), tt)
  scanned_lowest valid ((name, none) ∷ windows) s =
      let (start, rest) = scanned_lowest valid windows s in (start, (tt, rest))
  scanned_lowest valid ((name, some window) ∷ windows) s =
      let s' = scan_window money name window s in
      let (start, rest) = scanned_lowest valid windows s' in
      let end = scan_windows money windows s' in
      let Lowest : money.Amount → Type 0 = λ a. money.at_most end.remaining a ≡ true in
      elim (Bool-cases (not s.limited || money.less window.remaining s.remaining)) [
        | inl tighter ↦
            let same : s'.remaining ≡ window.remaining = rw (tighter, scan_window) in
            let here = subst Lowest same (start refl) in
            (
              (λ limited. valid.at_most_trans end.remaining window.remaining s.remaining here (
                  less-at_most valid window.remaining s.remaining
                    (ground (arith, tighter, limited)))),
              (here, rest),
            )
        | inr looser ↦
            let same : s'.remaining ≡ s.remaining = rw (looser, scan_window) in
            let here = subst Lowest same (start refl) in
            (
              (λ limited. here),
              (
                valid.at_most_trans end.remaining s.remaining window.remaining here
                    (not_less-at_most valid window.remaining s.remaining (ground (arith, looser))),
                rest,
              ),
            )
      ]

  -- The window that the loop names as the constraining one.
  scanned_constraining :
      (windows : Windows) (s : Scan money)
      → let end = scan_windows money windows s in
        ((end.constraining ≡ s.constraining)
          × (end.remaining ≡ s.remaining)
          × (end.limited ≡ s.limited))
        ⊎ ((name : WindowName) × (end.constraining ≡ some name)
            × (end.limited ≡ true)
            × HasWindow windows name end.remaining)
  unfolding scan_windows scan_window
  scanned_constraining [] s = inl (refl, refl, refl)
  scanned_constraining ((name, none) ∷ windows) s = elim (scanned_constraining windows s) [
    | inl kept ↦ inl kept
    | inr (found, named, limited, place) ↦
        inr (found, named, limited, later_window windows (name, none) found _ place)
  ]
  scanned_constraining ((name, some window) ∷ windows) s =
      let s' = scan_window money name window s in
      let end = scan_windows money windows s' in
      elim (scanned_constraining windows s') [
        | inr (found, named, limited, place) ↦
            inr (found, named, limited, later_window windows (name, some window) found _ place)
        | inl (named, rest, limited) ↦
            elim (Bool-cases (not s.limited || money.less window.remaining s.remaining)) [
              | inl tighter ↦
                  let same : s'.remaining ≡ window.remaining = rw (tighter, scan_window) in
                  let name_same : s'.constraining ≡ some name = rw (tighter, scan_window) in
                  inr
                    (name, named ∙ name_same, limited, (window, Memᴰ.head refl, sym (rest ∙ same)))
              | inr looser ↦
                  let same : s'.remaining ≡ s.remaining = rw (looser, scan_window) in
                  let name_same : s'.constraining ≡ s.constraining = rw (looser, scan_window) in
                  inl (named ∙ name_same, rest ∙ same, limited ∙ ground (arith, looser))
            ]
      ]

  -- A loop that has seen no limit has seen no window.
  scanned_unlimited :
      (windows : Windows) (s : Scan money)
      → (scan_windows money windows s).limited ≡ false
      → (s.limited ≡ false) × OfWindows (λ window. ⊥) windows
  unfolding scan_windows scan_window
  scanned_unlimited [] s h = (h, tt)
  scanned_unlimited ((name, none) ∷ windows) s h =
      let (start, rest) = scanned_unlimited windows s h in (start, (tt, rest))
  scanned_unlimited ((name, some window) ∷ windows) s h =
      let (start, rest) = scanned_unlimited windows (scan_window money name window s) h in
      absurd (ground (arith, start))

  -- The window that the loop names as depleted.
  abbrev pub IsDepleted : Windows → WindowName → Type 0
  IsDepleted windows name =
      (rest : money.Amount) × HasWindow windows name rest × (money.at_most rest money.zero ≡ true)

  abbrev LeftOver : Windows → Option WindowName → Option WindowName → Type 0
  LeftOver windows start none =
      (start ≡ none)
      × OfWindows (λ window. money.at_most window.remaining money.zero ≡ false) windows
  LeftOver windows start (some name) = (start ≡ some name) ⊎ IsDepleted windows name

  later-IsDepleted :
      (windows : Windows) (x : WindowName × Option (QuotaWindow money)) (name : WindowName)
      → IsDepleted windows name
      → IsDepleted (x ∷ windows) name
  later-IsDepleted windows x name (rest, place, nothing) =
      (rest, later_window windows x name rest place, nothing)

  left_start : (o : Option WindowName) → LeftOver [] o o
  left_start none = (refl, tt)
  left_start (some name) = inl refl

  left_skip :
      (name : WindowName) (windows : Windows) (start end : Option WindowName)
      → LeftOver windows start end
      → LeftOver ((name, none) ∷ windows) start end
  left_skip name windows start none (e, rest) = (e, (tt, rest))
  left_skip name windows start (some found) (inl e) = inl e
  left_skip name windows start (some found) (inr d) = inr (later-IsDepleted windows _ found d)

  left_turn :
      (name : WindowName) (window : QuotaWindow money) (windows : Windows)
      (start end : Option WindowName)
      → LeftOver windows
          (if money.at_most window.remaining money.zero then first_name money start name else start)
          end
      → LeftOver ((name, some window) ∷ windows) start end
  left_turn name window windows none none (e, rest) = (refl, (ground (arith, e), rest))
  left_turn name window windows (some first) none (e, rest) = absurd (ground (arith, e))
  left_turn name window windows start (some found) (inr d) =
      inr (later-IsDepleted windows _ found d)
  left_turn name window windows none (some found) (inl e) =
      let nothing : money.at_most window.remaining money.zero ≡ true = ground (arith, e) in
      let same : name ≡ found = ground (arith, e, nothing) in
      inr (window.remaining, (window, rw same (Memᴰ.head refl), refl), nothing)
  left_turn name window windows (some first) (some found) (inl e) = inl (ground (arith, e))

  scanned_depleted :
      (windows : Windows) (s : Scan money)
      → LeftOver windows s.depleted (scan_windows money windows s).depleted
  unfolding scan_windows scan_window
  scanned_depleted [] s = left_start s.depleted
  scanned_depleted ((name, none) ∷ windows) s =
      left_skip name windows s.depleted (scan_windows money windows s).depleted
        (scanned_depleted windows s)
  scanned_depleted ((name, some window) ∷ windows) s =
      left_turn name window windows s.depleted
        (scan_windows money windows (scan_window money name window s)).depleted
        (scanned_depleted windows (scan_window money name window s))

  -- The group and the subscription are active, and the subscription is not over.
  abbrev pub IsLive : GatewayGroup money → AdminSubscription money → (now : ℕ) → Type 0
  IsLive group sub now =
      (active_status group.status ≡ true)
      × (equal_fold (trim_space sub.status) (codes "active") ≡ true)
      × (is_over money now sub ≡ false)

  -- What is left is what is left in the window that is named, and no window has less left.
  abbrev pub IsConstrained : Windows → StatusAnswer money → Type 0
  IsConstrained windows answer =
      ((name : WindowName) × (answer.constraining_window ≡ some name)
        × HasWindow windows name answer.remaining)
      × OfWindows (λ window. money.at_most answer.remaining window.remaining ≡ true) windows

  -- What an answer says of a subscription's group, of the subscription and of its windows.
  abbrev pub IsStatus :
      GatewayGroup money
      → AdminSubscription money
      → (now : ℕ) → Windows
      → StatusAnswer money
      → Type 0
  IsStatus group sub now windows answer = elim answer.status [
    | inactive_group ↦ active_status group.status ≡ false
    | subscription_status text ↦
        (active_status group.status ≡ true)
        × (equal_fold (trim_space sub.status) (codes "active") ≡ false)
    | expired ↦ (active_status group.status ≡ true) × (is_over money now sub ≡ true)
    | quota_exhausted ↦
        IsLive group sub now
        × IsConstrained windows answer
        × ((name : WindowName) × (answer.depleted_window ≡ some name) × IsDepleted windows name)
    | active ↦
        IsLive group sub now
        × ((answer.unlimited ≡ true) × OfWindows (λ window. ⊥) windows
            ⊎ (answer.unlimited ≡ false)
              × IsConstrained windows answer
              × OfWindows (λ window. money.at_most window.remaining money.zero ≡ false) windows)
    | _ ↦ ⊥
  ]

  -- What the loop over all windows answers, for a subscription that is live.
  scan-IsStatus :
      MoneyValid money
      → (group : GatewayGroup money) (sub : AdminSubscription money) (now : ℕ) (windows : Windows)
      → IsLive group sub now
      → IsStatus group sub now windows
          (status_of_scan money (scan_windows money windows (start_scan money)))
  unfolding status_of_scan
  scan-IsStatus valid group sub now windows live =
      let s = scan_windows money windows (start_scan money) in
      let lowest = (scanned_lowest valid windows (start_scan money)).1 in
      elim (Bool-cases s.limited) [
        | inr unlimited ↦
            rw (unlimited, status_of_scan)
              (live, inl (refl, (scanned_unlimited windows (start_scan money) unlimited).1))
        | inl limited ↦ elim (scanned_constraining windows (start_scan money)) [
          | inl (named, rest, same) ↦ absurd (ground (arith, limited, same))
          | inr (name, named, also, place) ↦ elim (Option-cases s.depleted) [
            | inl e ↦
                let (start, left) =
                  subst (LeftOver windows none) e (scanned_depleted windows (start_scan money)) in
                rw (limited, e, status_of_scan)
                  (live, inr (refl, ((name, named, place), lowest), left))
            | inr (found, e) ↦
                elim (subst (LeftOver windows none) e
                  (scanned_depleted windows (start_scan money))) [
                    | inl start ↦ absurd (ground (arith, start))
                    | inr depleted ↦
                        rw (limited, e, status_of_scan)
                          (live, ((name, named, place), lowest), (found, refl, depleted))
                  ]
          ]
        ]
      ]

  -- The status of a subscription's group is right: it says which of the group and the subscription
  -- is not active, or that the time is over; else the rest that is shown is the least of the
  -- windows, the window that is named has it, and a quota is exhausted only if a window with nothing
  -- left is named, and active only if every window has something left, or no window has a limit.
  pub subscription_entitlement_status-IsStatus :
      MoneyValid money
      → (group : GatewayGroup money) (sub : AdminSubscription money) (now : ℕ) (windows : Windows)
      → IsStatus group sub now windows (subscription_entitlement_status money group sub now windows)
  unfolding subscription_entitlement_status
  subscription_entitlement_status-IsStatus valid group sub now windows =
      elim (Bool-cases (active_status group.status)) [
        | inr e ↦ rw (e, subscription_entitlement_status) e
        | inl on ↦ elim (Bool-cases (equal_fold (trim_space sub.status) (codes "active"))) [
          | inr e ↦ rw (on, e, subscription_entitlement_status) (on, e)
          | inl live ↦ elim (Bool-cases (is_over money now sub)) [
            | inl e ↦ rw (on, live, e, subscription_entitlement_status) (on, e)
            | inr e ↦
                rw (on, live, e, subscription_entitlement_status)
                  (scan-IsStatus valid group sub now windows (on, live, e))
          ]
        ]
      ]
