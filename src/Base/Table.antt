-- ===== src/Base/Table.antt =====
-- A table of rows, and what the statements of the program do with one.
-- `update_where p f` is `UPDATE … SET f WHERE p`.
use mathlib.Core.Path.{◌≡◌, sym}
use mathlib.Core.Logic.{inl, inr}
use mathlib.Core.Bool.{Bool, true}
use mathlib.Core.Option.{some}
use native.Mathlib.Omega.{arith}
use mathlib.Core.List.{List, [], ◌∷◌}
use brevyn_cloud.Base.Tests.{if◌then◌else◌, Bool-cases}
use brevyn_cloud.Base.Lists.{All, find}

module _ {ℓ} {A : Type ℓ} where
  unfoldable pub update_where : (A → Bool) → (A → A) → List A → List A
  update_where p f [] = []
  update_where p f (x ∷ xs) = (if p x then f x else x) ∷ update_where p f xs

-- The search after an update that does not touch what is searched for.
pub find-update_where {ℓ} :
    {A : Type ℓ} (q p : A → Bool) (f : A → A) (xs : List A) {a : A}
    → ((x : A) → q (f x) ≡ q x)
    → find q xs ≡ some a
    → find q (update_where p f xs) ≡ some (if p a then f a else a)
unfolding update_where
find-update_where q p f [] keeps h = absurd (ground (arith, h))
find-update_where q p f (x ∷ xs) {a} keeps h = elim (Bool-cases (p x)) [
  | inl e ↦ elim (Bool-cases (q x)) [
    | inl found ↦ let same : x ≡ a = ground (arith, h, found) in rw (e, keeps x, found, sym same, e)
    | inr other ↦
        rw (e, keeps x, other) (find-update_where q p f xs keeps (ground (arith, h, other)))
  ]
  | inr e ↦ elim (Bool-cases (q x)) [
    | inl found ↦ let same : x ≡ a = ground (arith, h, found) in rw (e, found, sym same, e)
    | inr other ↦ rw (e, other) (find-update_where q p f xs keeps (ground (arith, h, other)))
  ]
]

-- What an update keeps of every row.
pub update_where-All {ℓ κ} :
    {A : Type ℓ} (P : A → Type κ) (p : A → Bool) (f : A → A) (xs : List A)
    → ((x : A) → p x ≡ true → P x → P (f x))
    → All P xs
    → All P (update_where p f xs)
unfolding update_where
update_where-All P p f [] step h = h
update_where-All P p f (x ∷ xs) step h = elim (Bool-cases (p x)) [
  | inl e ↦ (rw e (step x e h.0), update_where-All P p f xs step h.1)
  | inr e ↦ (rw e h.0, update_where-All P p f xs step h.1)
]
