-- ===== src/Operations/Store.antt =====
-- Creating operations: one row for each idempotency key, however often it is asked for.
use brevyn_cloud.Base.{
  ℕ, suc, ◌+◌, ◌≤◌, ◌≡◌, refl, ap, ◌∙◌, subst, true, false, none, some, [], ◌∷◌, ◌++◌, ◌⊎◌, Text,
  arith, inl, inr, Option-cases, Bool-cases, is_blank, text_eq, text_eq_refl, text_eq_sound, find,
  find-append, find-none-count, count_where, count_where-append, if◌then◌else◌,
}
use brevyn_cloud.Operations.{
  Operation, Queue, NewOperation, new_row, insert, append_row, has_key, has_public_id,
  create_redemption_sync, ensure_redemption_sync,
}

module _ (new : NewOperation) (now : ℕ) (q : Queue) where
  -- The table with the new row.
  abbrev pub extended : Queue
  extended = record { rows = q.rows ++ (new_row q.next_id new now ∷ []); next_id = suc q.next_id }

  append_row_cases :
      (append_row new now q ≡ (none, q)) ⊎ (append_row new now q ≡ (some new.public_id, extended))
  unfolding append_row
  append_row_cases = elim (Option-cases (find (has_public_id new.public_id) q.rows)) [
    | inl e ↦ inr (rw (e, append_row))
    | inr (op, e) ↦ inl (rw (e, append_row))
  ]

  append_row_same : ((append_row new now q).1 ≡ q) ⊎ ((append_row new now q).1 ≡ extended)
  append_row_same = elim append_row_cases [
    | inl e ↦ inl (ap (λ p. p.1) e)
    | inr e ↦ inr (ap (λ p. p.1) e)
  ]

  insert_absent :
      is_blank new.idempotency_key ≡ false
      → find (has_key new.idempotency_key) q.rows ≡ none
      → insert new now q ≡ append_row new now q
  unfolding insert
  insert_absent b e = rw (b, e)

  insert_present :
      (op : Operation)
      → is_blank new.idempotency_key ≡ false
      → find (has_key new.idempotency_key) q.rows ≡ some op
      → insert new now q ≡ (some op.public_id, q)
  unfolding insert
  insert_present op b e = rw (b, e)

  extended_finds :
      find (has_key new.idempotency_key) q.rows ≡ none
      → find (has_key new.idempotency_key) extended.rows ≡ some (new_row q.next_id new now)
  unfolding new_row
  extended_finds e = rw (find-append _ q.rows _ e, text_eq_refl)

-- An insert leaves the table, or adds its row.
pub insert_cases :
    (new : NewOperation) (now : ℕ) (q : Queue)
    → ((insert new now q).1 ≡ q) ⊎ ((insert new now q).1 ≡ extended new now q)
unfolding insert
insert_cases new now q = elim (Bool-cases (is_blank new.idempotency_key)) [
  | inl b ↦ rw (b, insert) (append_row_same new now q)
  | inr b ↦ elim (Option-cases (find (has_key new.idempotency_key) q.rows)) [
    | inl e ↦ rw (insert_absent new now q b e) (append_row_same new now q)
    | inr (op, e) ↦ inl (ap (λ p. p.1) (insert_present new now q op b e))
  ]
]

-- What an insert that goes through leaves behind: the row that it named can be found by the key.
insert_finds :
    (new : NewOperation) (now : ℕ) (q : Queue) (id : Text)
    → is_blank new.idempotency_key ≡ false
    → (insert new now q).0 ≡ some id
    → (op : Operation) × (find (has_key new.idempotency_key) (insert new now q).1.rows ≡ some op)
      × (op.public_id ≡ id)
unfolding new_row
insert_finds new now q id b h = elim (Option-cases (find (has_key new.idempotency_key) q.rows)) [
  | inr (op, e) ↦ (
    op,
    rw (insert_present new now q op b e) e,
    cc (h, ap (λ p. p.0) (insert_present new now q op b e)),
  )
  | inl e ↦ elim (append_row_cases new now q) [
    | inl a ↦ absurd (cc (h, ap (λ p. p.0) (insert_absent new now q b e ∙ a)))
    | inr a ↦ (
      new_row q.next_id new now,
      rw (insert_absent new now q b e, a) (extended_finds new now q e),
      cc (h, ap (λ p. p.0) (insert_absent new now q b e ∙ a)),
    )
  ]
]

-- An insert whose key has been inserted before returns the row of then, and changes nothing.
insert_again :
    (new new' : NewOperation) (now now' : ℕ) (q : Queue) (id : Text)
    → is_blank new.idempotency_key ≡ false
    → new'.idempotency_key ≡ new.idempotency_key
    → (insert new now q).0 ≡ some id
    → insert new' now' (insert new now q).1 ≡ (some id, (insert new now q).1)
insert_again new new' now now' q id b same h =
    let (op, found, named) = insert_finds new now q id b h in
    insert_present new' now' (insert new now q).1 op (rw same b) (rw same found)
    ∙ ap (λ i. (some i, (insert new now q).1)) named

-- Once the sync of a redemption is in the queue, asking for it again, with whatever fresh id, by
-- the request's statement or the administrator's, returns the same operation and changes nothing.
pub create-ensure_idem :
    (fresh payload redemption : Text) (rid user now : ℕ) (q : Queue) (id : Text)
    (fresh' payload' : Text) (now' : ℕ)
    → let (answer, q') = create_redemption_sync fresh payload rid redemption user now q in
      answer ≡ some id
      → (create_redemption_sync fresh' payload' rid redemption user now' q' ≡ (some id, q'))
        × (ensure_redemption_sync fresh' rid redemption user now' q' ≡ (some id, q'))
unfolding create_redemption_sync ensure_redemption_sync is_blank
create-ensure_idem fresh payload redemption rid user now q id fresh' payload' now' h =
    (insert_again _ _ now now' q id refl refl h, insert_again _ _ now now' q id refl refl h)

-- No key but the empty one stands in two rows.
abbrev pub KeysUnique : Queue → Type 0
KeysUnique q = (key : Text) → is_blank key ≡ false → count_where (has_key key) q.rows ≤ 1

count-extended :
    (new : NewOperation) (now : ℕ) (q : Queue) (key : Text)
    → count_where (has_key key) (extended new now q).rows
      ≡ count_where (has_key key) q.rows + (if text_eq new.idempotency_key key then 1 else 0)
unfolding new_row
count-extended new now q key = count_where-append (has_key key) q.rows _ ∙ ground arith

extended-KeysUnique :
    (new : NewOperation) (now : ℕ) (q : Queue)
    → KeysUnique q
    → (is_blank new.idempotency_key ≡ true) ⊎ (find (has_key new.idempotency_key) q.rows ≡ none)
    → KeysUnique (extended new now q)
extended-KeysUnique new now q h fresh key b = elim (Bool-cases (text_eq new.idempotency_key key)) [
  | inr other ↦ rw (count-extended, other) (ground (arith, h key b))
  | inl same ↦
      let e = text_eq_sound new.idempotency_key key same in
      elim fresh [
        | inl blank ↦ absurd (cc (b, blank, ap is_blank e))
        | inr absent ↦
            let none_yet =
              find-none-count (has_key key) q.rows
                (subst (λ k. find (has_key k) q.rows ≡ none) e absent) in
            rw (count-extended, same) (omega arith)
      ]
]

append_row-KeysUnique :
    (new : NewOperation) (now : ℕ) (q : Queue)
    → KeysUnique q
    → (is_blank new.idempotency_key ≡ true) ⊎ (find (has_key new.idempotency_key) q.rows ≡ none)
    → KeysUnique (append_row new now q).1
append_row-KeysUnique new now q h fresh = elim (append_row_cases new now q) [
  | inl e ↦ rw e h
  | inr e ↦ rw e (extended-KeysUnique new now q h fresh)
]

-- Every insert keeps the keys of the table unique.
pub insert-KeysUnique :
    (new : NewOperation) (now : ℕ) (q : Queue) → KeysUnique q → KeysUnique (insert new now q).1
unfolding insert
insert-KeysUnique new now q h = elim (Bool-cases (is_blank new.idempotency_key)) [
  | inl b ↦ rw (b, insert) (append_row-KeysUnique new now q h (inl b))
  | inr b ↦ elim (Option-cases (find (has_key new.idempotency_key) q.rows)) [
    | inl e ↦ rw (insert_absent new now q b e) (append_row-KeysUnique new now q h (inr e))
    | inr (op, e) ↦ rw (insert_present new now q op b e) h
  ]
]
