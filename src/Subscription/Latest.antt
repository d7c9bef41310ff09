-- ===== src/Subscription/Latest.antt =====
-- Which subscription a redemption extends.
use mathlib.Core.List.{Memᴰ}
use brevyn_cloud.Base.{
  ℕ, ◌≡◌, ◌⊎◌, refl, true, false, ◌&&◌, Option, none, some, List, [], ◌∷◌, arith, inl, inr, All,
  Bool-cases,
}
use brevyn_cloud.Subscription.{
  Subscription, is_renewable, is_later, keep_later, latest_from, latest_renewable,
}

-- A renewable subscription of which none that is renewable is later: that is, with a later expiry,
-- or with the same and a greater id.
abbrev pub IsLatest : ℕ → List Subscription → Subscription → Type 0
IsLatest now subscriptions best =
    Memᴰ best subscriptions
    × (is_renewable now best ≡ true)
    × All (λ (s : Subscription). is_renewable now s ≡ true → is_later s best ≡ false) subscriptions

-- What the search answers: the latest, or that none is renewable.
abbrev pub IsSearched : ℕ → List Subscription → Option Subscription → Type 0
IsSearched now subscriptions none =
    All (λ (s : Subscription). is_renewable now s ≡ false) subscriptions
IsSearched now subscriptions (some best) = IsLatest now subscriptions best

-- The loop started with a renewable subscription.
latest_from-some :
    (now : ℕ) (subscriptions : List Subscription) (start : Subscription)
    → is_renewable now start ≡ true
    → (best : Subscription) × (latest_from now subscriptions (some start) ≡ some best)
      × (is_renewable now best ≡ true)
      × ((best ≡ start) ⊎ Memᴰ best subscriptions)
      × (is_later start best ≡ false)
      × All
          (λ (s : Subscription). is_renewable now s ≡ true → is_later s best ≡ false)
          subscriptions
unfolding latest_from keep_later
latest_from-some now [] start live = (start, refl, live, inl refl, ground arith, tt)
latest_from-some now (s ∷ rest) start live =
    elim (Bool-cases (is_renewable now s && is_later s start)) [
      | inl better ↦
          let (best, e, on, place, not_s, others) =
            latest_from-some now rest s (ground (arith, better)) in
          (
            best,
            rw better e,
            on,
            inr (elim place [ inl same ↦ Memᴰ.head same | inr m ↦ Memᴰ.tail m ]),
            ground (arith, not_s, better),
            (λ _. not_s, others),
          )
      | inr worse ↦
          let (best, e, on, place, not_start, others) = latest_from-some now rest start live in
          (
            best,
            rw worse e,
            on,
            elim place [ inl same ↦ inl same | inr m ↦ inr (Memᴰ.tail m) ],
            not_start,
            (λ renewable. ground (arith, worse, renewable, not_start), others),
          )
    ]

skipped-IsSearched :
    (now : ℕ) (s : Subscription) (rest : List Subscription) (o : Option Subscription)
    → is_renewable now s ≡ false
    → IsSearched now rest o
    → IsSearched now (s ∷ rest) o
skipped-IsSearched now s rest none off h = (off, h)
skipped-IsSearched now s rest (some best) off (m, on, others) =
    (Memᴰ.tail m, on, ((λ renewable. absurd (cc (off, renewable))), others))

-- The loop finds the latest renewable subscription, whatever the order of the listing, or says
-- rightly that there is none.
pub latest_renewable-IsSearched :
    (now : ℕ) (subscriptions : List Subscription)
    → IsSearched now subscriptions (latest_renewable now subscriptions)
unfolding latest_renewable latest_from keep_later
latest_renewable-IsSearched now [] = tt
latest_renewable-IsSearched now (s ∷ rest) = elim (Bool-cases (is_renewable now s)) [
  | inl live ↦
      let (best, e, on, place, not_s, others) = latest_from-some now rest s live in
      rw (live, e)
        (elim place [ inl same ↦ Memᴰ.head same | inr m ↦ Memᴰ.tail m ], on, ((λ _. not_s), others))
  | inr off ↦ rw off (
      skipped-IsSearched now s rest (latest_from now rest none) off
        (latest_renewable-IsSearched now rest))
]
