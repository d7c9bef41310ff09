-- ===== src/Base/Lists.antt =====
-- Lists measured by native numbers, predicates over lists, and the search for an element.
use Prim.Native.Nat.{ℕ, zero, suc, ◌+◌}
use mathlib.Core.Path.{◌≡◌, refl, sym, subst}
use mathlib.Core.Bool.{Bool, true, false}
use mathlib.Core.Logic.{inl, inr}
use mathlib.Core.Option.{Option, none, some}
use mathlib.Core.List.{List, [], ◌∷◌, ◌++◌, Memᴰ}
use native.Mathlib.Omega.{arith}
use brevyn_cloud.Base.Tests.{if◌then◌else◌, Bool-cases}

module _ {ℓ} {A : Type ℓ} where
  abbrev pub length : List A → ℕ
  length [] = 0
  length (x ∷ xs) = suc (length xs)

  pub length-append : (xs ys : List A) → length (xs ++ ys) ≡ length xs + length ys
  length-append [] ys = omega arith
  length-append (x ∷ xs) ys = omega (arith, length-append xs ys)

  -- The first element that passes the test.
  abbrev pub find : (A → Bool) → List A → Option A
  find p [] = none
  find p (x ∷ xs) = if p x then some x else find p xs

  -- How many elements pass the test.
  abbrev pub count_where : (A → Bool) → List A → ℕ
  count_where p [] = 0
  count_where p (x ∷ xs) = if p x then suc (count_where p xs) else count_where p xs

  pub count_where-append :
      (p : A → Bool) (xs ys : List A)
      → count_where p (xs ++ ys) ≡ count_where p xs + count_where p ys
  count_where-append p [] ys = omega arith
  count_where-append p (x ∷ xs) ys = ground (arith, count_where-append p xs ys)

-- A predicate of every element, which computes to a tuple.
abbrev pub All {ℓ κ} : {A : Type ℓ} → (A → Type κ) → List A → Type κ
All P [] = Unit
All P (x ∷ xs) = P x × All P xs

pub All-append {ℓ κ} :
    {A : Type ℓ} (P : A → Type κ) (xs ys : List A) → All P xs → All P ys → All P (xs ++ ys)
All-append P [] ys h k = k
All-append P (x ∷ xs) ys h k = (h.0, All-append P xs ys h.1 k)

module _ {ℓ} {A : Type ℓ} where
  -- A search that found nothing in a list goes on behind it.
  pub find-append :
      (p : A → Bool) (xs ys : List A) → find p xs ≡ none → find p (xs ++ ys) ≡ find p ys
  find-append p [] ys h = refl
  find-append p (x ∷ xs) ys h = ground (arith, find-append p xs ys)

  pub find-none-count : (p : A → Bool) (xs : List A) → find p xs ≡ none → count_where p xs ≡ 0
  find-none-count p [] h = refl
  find-none-count p (x ∷ xs) h = ground (arith, find-none-count p xs)

pub All-map {ℓ κ ι} :
    {A : Type ℓ} (P : A → Type κ) (Q : A → Type ι) (xs : List A)
    → ((x : A) → P x → Q x)
    → All P xs
    → All Q xs
All-map P Q [] f h = tt
All-map P Q (x ∷ xs) f h = (f x h.0, All-map P Q xs f h.1)

-- What is in a list has what all in the list have.
pub All-Memᴰ {ℓ κ} :
    {A : Type ℓ} (P : A → Type κ) (xs : List A) {a : A} → Memᴰ a xs → All P xs → P a
All-Memᴰ P [] m h = elim m [ ]
All-Memᴰ P (x ∷ xs) (Memᴰ.head e) h = subst P (sym e) h.0
All-Memᴰ P (x ∷ xs) (Memᴰ.tail m) h = All-Memᴰ P xs m h.1

pub All-intro {ℓ κ} : {A : Type ℓ} (P : A → Type κ) (xs : List A) → ((x : A) → P x) → All P xs
All-intro P [] h = tt
All-intro P (x ∷ xs) h = (h x, All-intro P xs h)

-- What a search finds is in the list, and passes the test.
pub find-Memᴰ {ℓ} :
    {A : Type ℓ} (p : A → Bool) (xs : List A) {a : A}
    → find p xs ≡ some a
    → (p a ≡ true) × Memᴰ a xs
find-Memᴰ p [] h = absurd (ground (arith, h))
find-Memᴰ p (x ∷ xs) {a} h = elim (Bool-cases (p x)) [
  | inl e ↦ let same : x ≡ a = ground (arith, h, e) in (rw (sym same) e, Memᴰ.head (sym same))
  | inr e ↦ let rest = find-Memᴰ p xs {a = a} (ground (arith, h, e)) in (rest.0, Memᴰ.tail rest.1)
]

pub find-some-append {ℓ} :
    {A : Type ℓ} (p : A → Bool) (xs ys : List A) {a : A}
    → find p xs ≡ some a
    → find p (xs ++ ys) ≡ some a
find-some-append p [] ys h = absurd (ground (arith, h))
find-some-append p (x ∷ xs) ys {a} h = elim (Bool-cases (p x)) [
  | inl e ↦ ground (arith, h, e)
  | inr e ↦
      let rest = find-some-append p xs ys {a = a} (ground (arith, h, e)) in ground (arith, rest, e)
]

pub Memᴰ-append {ℓ} : {A : Type ℓ} (xs ys : List A) {a : A} → Memᴰ a xs → Memᴰ a (xs ++ ys)
Memᴰ-append [] ys m = elim m [ ]
Memᴰ-append (x ∷ xs) ys (Memᴰ.head e) = Memᴰ.head e
Memᴰ-append (x ∷ xs) ys (Memᴰ.tail m) = Memᴰ.tail (Memᴰ-append xs ys m)

pub Memᴰ-last {ℓ} : {A : Type ℓ} (xs : List A) (a : A) → Memᴰ a (xs ++ a ∷ [])
Memᴰ-last [] a = Memᴰ.head refl
Memᴰ-last (x ∷ xs) a = Memᴰ.tail (Memᴰ-last xs a)

-- What no row of a table has, the row behind it is found by, also by a part of the test.
pub find-none-append {ℓ} :
    {A : Type ℓ} (p q : A → Bool) (xs : List A) (a : A)
    → find q xs ≡ none
    → ((x : A) → q x ≡ false → p x ≡ false)
    → p a ≡ true
    → find p (xs ++ (a ∷ [])) ≡ some a
find-none-append p q [] a free part hit = rw hit refl
find-none-append p q (x ∷ xs) a free part hit = elim (Bool-cases (q x)) [
  | inl e ↦ absurd (ground (arith, free, e))
  | inr e ↦ rw (part x e) (find-none-append p q xs a (ground (arith, free, e)) part hit)
]

module _ {ℓ} {A : Type ℓ} where
  -- The first `n` elements, and those behind them.
  abbrev pub take : ℕ → List A → List A
  take zero xs = []
  take (suc n) [] = []
  take (suc n) (x ∷ xs) = x ∷ take n xs

  abbrev pub drop : ℕ → List A → List A
  drop zero xs = xs
  drop (suc n) [] = []
  drop (suc n) (x ∷ xs) = drop n xs
