-- ===== src/Operations/Claims.antt =====
-- Which operation a worker claims.
pub mod Exclusive
pub mod Workers
use mathlib.Core.List.{Memᴰ}
use brevyn_cloud.Base.{
  ℕ, zero, suc, ◌+◌, ◌≤◌, ◌≡◌, refl, subst, Bool, true, false, ◌||◌, ◌&&◌, Option, none, some, List,
  [], ◌∷◌, Text, arith, inl, inr, Bool-cases, All, All-map, All-Memᴰ, update_where-All, ap, length,
  ◌==◌, update_where, if◌then◌else◌,
}
use brevyn_cloud.Operations.{Operation}
use brevyn_cloud.Operations.Runner.{
  OperationRecord, is_running, is_claimable, runs_before, candidate, earlier, claim, has_id,
  to_record, claim_next, claim_batch,
}

-- The claimable rows that do not run before `op`.
abbrev pub NoneBefore : ℕ → Operation → List Operation → Type 0
NoneBefore now op = All (λ x. is_claimable now x ≡ true → runs_before x op ≡ false)

abbrev pub NoneClaimable : ℕ → List Operation → Type 0
NoneClaimable now = All (λ x. is_claimable now x ≡ false)

runs_before_irrefl : (a : Operation) → runs_before a a ≡ false
unfolding runs_before
runs_before_irrefl a = ground arith

runs_before_asymm : (a b : Operation) → runs_before a b ≡ true → runs_before b a ≡ false
unfolding runs_before
runs_before_asymm a b h = ground arith

none_claimable :
    (now : ℕ) (rows : List Operation) → candidate now rows ≡ none → NoneClaimable now rows
unfolding candidate
none_claimable now [] h = tt
none_claimable now (op ∷ rest) h = elim (Bool-cases (is_claimable now op)) [
  | inl y ↦ absurd (ground (arith, y, h))
  | inr n ↦ (n, none_claimable now rest (ground (arith, n, h)))
]

NoneBefore-trans :
    (now : ℕ) (a b : Operation) (rows : List Operation)
    → runs_before a b ≡ false
    → NoneBefore now a rows
    → NoneBefore now b rows
unfolding runs_before
NoneBefore-trans now a b rows h = All-map _ _ rows (λ x k c. ground (arith, k c))

module _ (now : ℕ) where
  -- `op` is the first claimable row of `rows`.
  abbrev pub IsFirst : Operation → List Operation → Type 0
  IsFirst op rows = (is_claimable now op ≡ true) × Memᴰ op rows × NoneBefore now op rows

  earlier_later : (x b : Operation) → runs_before b x ≡ true → b ≡ earlier x (some b)
  unfolding earlier
  earlier_later x b h = rw h

  earlier_first : (x b : Operation) → runs_before b x ≡ false → x ≡ earlier x (some b)
  unfolding earlier
  earlier_first x b h = rw h

  earlier-IsFirst :
      (x : Operation) (rest : List Operation) (best : Option Operation)
      → is_claimable now x ≡ true
      → candidate now rest ≡ best
      → ((b : Operation) → best ≡ some b → IsFirst b rest)
      → IsFirst (earlier x best) (x ∷ rest)
  unfolding earlier
  earlier-IsFirst x rest none c e first = (
    c,
    Memᴰ.head refl,
    (
      λ _. runs_before_irrefl x,
      All-map _ _ rest (λ y n y_claimable. absurd (cc (n, y_claimable)))
          (none_claimable now rest e),
    ),
  )
  earlier-IsFirst x rest (some b) c e first =
      let (b_claimable, b_in, b_first) = first b refl in
      elim (Bool-cases (runs_before b x)) [
        | inl before ↦
            subst (λ o. IsFirst o (x ∷ rest)) (earlier_later x b before)
              (b_claimable, Memᴰ.tail b_in, (λ _. runs_before_asymm b x before, b_first))
        | inr after ↦
            subst (λ o. IsFirst o (x ∷ rest)) (earlier_first x b after)
              (
                c,
                Memᴰ.head refl,
                (λ _. runs_before_irrefl x, NoneBefore-trans now b x rest after b_first),
              )
      ]

  pub candidate-IsFirst :
      (rows : List Operation) (op : Operation) → candidate now rows ≡ some op → IsFirst op rows
  unfolding candidate
  candidate-IsFirst [] op h = cc
  candidate-IsFirst (x ∷ rest) op h = elim (Bool-cases (is_claimable now x)) [
    | inr n ↦
        let (c, m, b) = candidate-IsFirst rest op (ground (arith, n, h)) in
        (c, Memᴰ.tail m, (λ y. absurd (cc (y, n)), b))
    | inl y ↦
        let e : earlier x (candidate now rest) ≡ op = ground (arith, y, h) in
        subst (λ o. IsFirst o (x ∷ rest)) e
          (earlier-IsFirst x rest (candidate now rest) y refl (λ b. candidate-IsFirst rest b))
  ]

module _ (worker : Text) (now : ℕ) (rows : List Operation) where
  pub claim_next-none : candidate now rows ≡ none → claim_next worker now rows ≡ (none, rows)
  unfolding claim_next
  claim_next-none e = rw (e, claim_next)

  pub claim_next-some :
      (op : Operation)
      → candidate now rows ≡ some op
      → claim_next worker now rows ≡ (
        some (to_record (claim worker now op)),
        update_where (has_id op.id) (claim worker now) rows,
      )
  unfolding claim_next
  claim_next-some op e = rw (e, claim_next)

  -- The record of a claim is made from the candidate.
  claimed_record :
      (op : Operation) (r : OperationRecord)
      → candidate now rows ≡ some op
      → (claim_next worker now rows).0 ≡ some r
      → to_record (claim worker now op) ≡ r
  claimed_record op r e h = cc (h, ap (λ p. p.0) (claim_next-some op e))

pub claimable_attempts :
    (now : ℕ) (op : Operation)
    → is_claimable now op ≡ true
    → (op.attempts + 1 ≤ op.max_attempts) × (is_running op.status ≡ false)
unfolding is_claimable
claimable_attempts now op h = ground arith
