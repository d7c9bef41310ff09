-- ===== src/Operations/Recovery.antt =====
-- What becomes of the operations of a worker that is gone.
use brevyn_cloud.Base.{
  ℕ, ◌-◌, ◌≤◌, ◌<◌, ◌≡◌, refl, Bool, true, false, ◌⊎◌, inl, inr, none, some, List, [], ◌∷◌, Text,
  arith, Bool-cases, update_where, leb,
}
use brevyn_cloud.Operations.{Operation, dead_letter, failed}
use brevyn_cloud.Operations.Runner.{
  is_stale, release_stale, requeue_stale_running, stale_detail, is_claimable,
}

-- A row whose worker is gone is unlocked: it is dead if its attempts are used up, and otherwise
-- claimable from now on.
release_stale_lem :
    (detail : Operation → Text) (now : ℕ) (op : Operation)
    → let op' = release_stale detail now op in
      (op'.locked_at ≡ none)
      × ((op.max_attempts ≤ op.attempts)
            × (op'.status ≡ dead_letter)
            × (op'.completed_at ≡ some now)
          ⊎ (op.attempts < op.max_attempts)
            × (op'.status ≡ failed)
            × ((t : ℕ) → now ≤ t → is_claimable t op' ≡ true))
unfolding release_stale is_claimable
release_stale_lem detail now op = elim (Bool-cases (leb op.max_attempts op.attempts)) [
  | inl used_up ↦
      (refl, inl (ground (arith, used_up), ground (arith, used_up), ground (arith, used_up)))
  | inr left ↦
      (refl, inr (ground (arith, left), ground (arith, left), λ t le. ground (arith, left)))
]

-- What one row is after the stale ones were requeued.
abbrev pub Recovered : ℕ → ℕ → Operation → Operation → Type 0
Recovered cutoff now op op' =
    ((is_stale cutoff op ≡ false) × (op' ≡ op))
    ⊎ ((is_stale cutoff op ≡ true)
        × (op'.locked_at ≡ none)
        × ((op.max_attempts ≤ op.attempts)
              × (op'.status ≡ dead_letter)
              × (op'.completed_at ≡ some now)
            ⊎ (op.attempts < op.max_attempts)
              × (op'.status ≡ failed)
              × ((t : ℕ) → now ≤ t → is_claimable t op' ≡ true)))

-- Row by row, `R` relates two lists of the same length.
abbrev pub Both : (Operation → Operation → Type 0) → List Operation → List Operation → Type 0
Both R [] [] = Unit
Both R (x ∷ xs) (y ∷ ys) = R x y × Both R xs ys
Both R _ _ = ⊥

update_where-Both :
    (R : Operation → Operation → Type 0) (p : Operation → Bool) (f : Operation → Operation)
    (rows : List Operation)
    → ((x : Operation) → p x ≡ true → R x (f x))
    → ((x : Operation) → p x ≡ false → R x x)
    → Both R rows (update_where p f rows)
unfolding update_where
update_where-Both R p f [] h k = tt
update_where-Both R p f (x ∷ rows) h k = elim (Bool-cases (p x)) [
  | inl e ↦ (rw e (h x e), update_where-Both R p f rows h k)
  | inr e ↦ (rw e (k x e), update_where-Both R p f rows h k)
]

-- With a stale timeout set, requeueing changes exactly the running rows locked before the cutoff:
-- each of them is unlocked, and dead if its attempts are used up, else failed and claimable from
-- `now` on. Every other row stays as it is.
pub requeue_stale_running_lem :
    (stale_after : ℕ) (text : Text) (clock now : ℕ) (rows : List Operation)
    → 0 < stale_after
    → Both
        (Recovered (clock - stale_after) now)
        rows
        (requeue_stale_running stale_after text clock now rows)
unfolding requeue_stale_running
requeue_stale_running_lem stale_after text clock now rows pos =
    let on : leb stale_after 0 ≡ false = ground arith in
    rw (on, requeue_stale_running)
      (update_where-Both (Recovered (clock - stale_after) now) _ _ rows
        (λ x stale.
          let (unlocked, fate) = release_stale_lem (stale_detail text) now x in
          inr (stale, unlocked, fate))
        (λ x other. inl (other, refl)))
