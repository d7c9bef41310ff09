-- ===== src/Settlement/Rows.antt =====
-- The rows that a request settles: the redemption that it has recorded, and the operation that goes
-- with it.
use brevyn_cloud.Base.{
  ℕ, suc, ◌≡◌, refl, sym, ap, ◌∙◌, subst, Bool, true, Option, some, List, [], ◌∷◌, ◌++◌, Text,
  arith, inl, inr, find, find-append, find-Memᴰ, find-update_where, Bool-cases, Option-cases,
  text_eq, text_eq_refl, is_blank, update_where, ◌==◌, ==_refl,
}
use brevyn_cloud.Operations.{
  Operation, Queue, NewOperation, new_row, insert, append_row, has_public_id, has_key,
}
use brevyn_cloud.Errors.{Info}
use brevyn_cloud.Redeem.{Amounts, Redemption, RedemptionStatus}
use brevyn_cloud.Settlement.{
  has_redemption_id, has_redemption_public_id, set_status, update_redemption_status, set_error,
  update_redemption_error,
}

-- An update of the rows that a search looks for, which keeps what it looks for by.
pub find-updated {ℓ} :
    {A : Type ℓ} (p : A → Bool) (f : A → A) (xs : List A) {a : A}
    → ((x : A) → p (f x) ≡ p x)
    → find p xs ≡ some a
    → find p (update_where p f xs) ≡ some (f a)
find-updated p f xs {a} keeps found =
    let hit = (find-Memᴰ p xs found).0 in find-update_where p p f xs keeps found ∙ rw hit refl

module _ (amounts : Amounts) (public_id : Text) (id : ℕ) where
  -- The redemption with this public id has this id, and is what `P` says.
  abbrev pub HasRedemption : (Redemption amounts → Type 0) → List (Redemption amounts) → Type 0
  HasRedemption P rows =
      (r : Redemption amounts) × (find (has_redemption_public_id amounts public_id) rows ≡ some r)
      × (r.id ≡ id)
      × P r

  -- An update by its id reaches it.
  pub updated-HasRedemption :
      (P Q : Redemption amounts → Type 0) (f : Redemption amounts → Redemption amounts)
      (rows : List (Redemption amounts))
      → ((r : Redemption amounts) → ((f r).public_id ≡ r.public_id) × ((f r).id ≡ r.id))
      → ((r : Redemption amounts) → P r → Q (f r))
      → HasRedemption P rows
      → HasRedemption Q (update_where (has_redemption_id amounts id) f rows)
  updated-HasRedemption P Q f rows keeps step (r, found, same, h) =
      let hit : (r.id == id) ≡ true = rw (same, ==_refl id) refl in
      (
        f r,
        find-update_where (has_redemption_public_id amounts public_id)
              (has_redemption_id amounts id) f rows (λ x. ap (λ t. text_eq t public_id) (keeps x).0)
              found
            ∙ rw hit refl,
        (keeps r).1 ∙ same,
        step r h,
      )

  pub status-updated :
      (rows : List (Redemption amounts)) (status : RedemptionStatus) (info : Info) (user group : ℕ)
      (operation : Text)
      → HasRedemption (λ (r : Redemption amounts). Unit) rows
      → HasRedemption
          (λ (r : Redemption amounts). (r.status ≡ status) × (r.error ≡ info))
          (update_redemption_status amounts id status info user group operation rows)
  unfolding update_redemption_status set_status
  status-updated rows status info user group operation =
      updated-HasRedemption _ _ _ rows (λ r. (refl, refl)) (λ r h. (refl, refl))

  pub error-updated :
      (rows : List (Redemption amounts)) (status : RedemptionStatus) (info : Info)
      → HasRedemption (λ (r : Redemption amounts). r.status ≡ status) rows
      → HasRedemption
          (λ (r : Redemption amounts). (r.status ≡ status) × (r.error ≡ info))
          (update_redemption_error amounts id info rows)
  unfolding update_redemption_error set_error
  error-updated rows status info =
      updated-HasRedemption _ _ _ rows (λ r. (refl, refl)) (λ r h. (h, refl))

append_row-found :
    (new : NewOperation) (now : ℕ) (q q' : Queue) (id : Text)
    → append_row new now q ≡ (some id, q')
    → (op : Operation) × (find (has_public_id id) q'.rows ≡ some op)
unfolding append_row new_row
append_row-found new now q q' id h =
    elim (Option-cases (find (has_public_id new.public_id) q.rows)) [
      | inr (op, e) ↦ absurd (ground (arith, h, e))
      | inl e ↦
          let row = new_row q.next_id new now in
          let added : append_row new now q ≡ (
            some new.public_id,
            record { rows = q.rows ++ (row ∷ []); next_id = suc q.next_id },
          ) =
            rw (e, append_row) in
          let same : new.public_id ≡ id = ground (arith, added, h) in
          let rows : q.rows ++ (row ∷ []) ≡ q'.rows =
            ap (λ (p : Option Text × Queue). p.1.rows) (sym added ∙ h) in
          (
            row,
            subst (λ rs. find (has_public_id id) rs ≡ some row) rows
                (subst (λ i. find (has_public_id i) (q.rows ++ (row ∷ [])) ≡ some row) same
                  (find-append _ q.rows _ e ∙ rw (text_eq_refl new.public_id) refl)),
          )
    ]

first_with :
    (op : Operation) (p : Operation → Bool) (rows : List Operation)
    → find p rows ≡ some op
    → (op' : Operation) × (find (has_public_id op.public_id) rows ≡ some op')
first_with op p [] h = absurd (ground (arith, h))
first_with op p (x ∷ rows) h = elim (Bool-cases (has_public_id op.public_id x)) [
  | inl e ↦ (x, rw e refl)
  | inr e ↦ elim (Bool-cases (p x)) [
    | inl hit ↦
        let same : x ≡ op = ground (arith, h, hit) in
        absurd (
          ground (
            arith,
            e,
            ap (λ (o : Operation). text_eq o.public_id op.public_id) same,
            text_eq_refl op.public_id,
          ))
    | inr miss ↦
        let (op', found) = first_with op p rows (ground (arith, h, miss)) in (op', rw e found)
  ]
]

-- The public id that an insert answers is that of a row of the table that it leaves.
pub insert-found :
    (new : NewOperation) (now : ℕ) (q q' : Queue) (id : Text)
    → insert new now q ≡ (some id, q')
    → (op : Operation) × (find (has_public_id id) q'.rows ≡ some op)
unfolding insert
insert-found new now q q' id h = elim (Bool-cases (is_blank new.idempotency_key)) [
  | inl b ↦ append_row-found new now q q' id (rw (b, insert) at h)
  | inr b ↦ elim (Option-cases (find (has_key new.idempotency_key) q.rows)) [
    | inl e ↦ append_row-found new now q q' id (rw (b, insert, e) at h)
    | inr (op, e) ↦
        let kept : insert new now q ≡ (some op.public_id, q) = rw (b, insert, e) in
        let (op', found) = first_with op (has_key new.idempotency_key) q.rows e in
        let same : op.public_id ≡ id = ground (arith, kept, h) in
        let table : q ≡ q' = ap (λ (p : Option Text × Queue). p.1) (sym kept ∙ h) in
        (
          op',
          subst (λ (t : Queue). find (has_public_id id) t.rows ≡ some op') table
              (subst (λ i. find (has_public_id i) q.rows ≡ some op') same found),
        )
  ]
]
