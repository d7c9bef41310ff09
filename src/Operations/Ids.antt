-- ===== src/Operations/Ids.antt =====
-- The primary key of the queue: ids are unique, and every statement keeps them.
use mathlib.Core.List.{Memᴰ}
use brevyn_cloud.Base.{
  ℕ, ◌<◌, ◌≡◌, refl, sym, ap, Bool, true, false, List, [], ◌∷◌, ◌++◌, arith, inl, inr, All, All-map,
  All-append, All-Memᴰ, ◌==◌, update_where, Bool-cases,
}
use brevyn_cloud.Operations.{Operation, Queue, NewOperation, new_row}
use brevyn_cloud.Operations.Store.{extended}

abbrev pub ids : List Operation → List ℕ
ids [] = []
ids (op ∷ rows) = op.id ∷ ids rows

-- No number stands twice in the list.
abbrev pub AllDistinct : List ℕ → Type 0
AllDistinct [] = Unit
AllDistinct (i ∷ is) = All (λ j. (i == j) ≡ false) is × AllDistinct is

pub record IdsValid (q : Queue) : Type 0 where
  pub distinct : AllDistinct (ids q.rows)
  pub below : All (λ i. i < q.next_id) (ids q.rows)

ids-Memᴰ : (rows : List Operation) {op : Operation} → Memᴰ op rows → Memᴰ op.id (ids rows)
ids-Memᴰ [] m = elim m [ ]
ids-Memᴰ (x ∷ rows) (Memᴰ.head e) = Memᴰ.head (ap (λ (o : Operation). o.id) e)
ids-Memᴰ (x ∷ rows) (Memᴰ.tail m) = Memᴰ.tail (ids-Memᴰ rows m)

All-ids : (P : ℕ → Type 0) (rows : List Operation) → All P (ids rows) → All (λ op. P op.id) rows
All-ids P [] h = tt
All-ids P (x ∷ rows) h = (h.0, All-ids P rows h.1)

-- A row of the table is the only one with its id.
pub only_row :
    (rows : List Operation) {op : Operation}
    → AllDistinct (ids rows)
    → Memᴰ op rows
    → All (λ x. (x.id == op.id) ≡ true → x ≡ op) rows
only_row [] d m = tt
only_row (x ∷ rows) d (Memᴰ.head e) = (
  λ _. sym e,
  All-map _ _ rows
      (λ y other same. absurd (ground (arith, other, same, ap (λ (o : Operation). o.id) e)))
      (All-ids _ rows d.0),
)
only_row (x ∷ rows) {op} d (Memᴰ.tail m) =
    let other = All-Memᴰ (λ j. (x.id == j) ≡ false) (ids rows) (ids-Memᴰ rows m) d.0 in
    (λ same. absurd (cc (same, other)), only_row rows d.1 m)

pub ids-update_where :
    (p : Operation → Bool) (f : Operation → Operation) (rows : List Operation)
    → ((op : Operation) → (f op).id ≡ op.id)
    → ids (update_where p f rows) ≡ ids rows
unfolding update_where
ids-update_where p f [] h = refl
ids-update_where p f (x ∷ rows) h = elim (Bool-cases (p x)) [
  | inl e ↦ cc (ids-update_where p f rows h, h x, e)
  | inr e ↦ cc (ids-update_where p f rows h, e)
]

ids-append :
    (rows : List Operation) (op : Operation) → ids (rows ++ op ∷ []) ≡ ids rows ++ op.id ∷ []
ids-append [] op = refl
ids-append (x ∷ rows) op = ap (λ r. x.id ∷ r) (ids-append rows op)

AllDistinct-append :
    (is : List ℕ) (n : ℕ) → All (λ i. i < n) is → AllDistinct is → AllDistinct (is ++ n ∷ [])
AllDistinct-append [] n h d = (tt, tt)
AllDistinct-append (i ∷ is) n h d =
    (All-append _ is _ d.0 (ground (arith, h.0), tt), AllDistinct-append is n h.1 d.1)

-- A new row takes the next value of the sequence, which no row has.
pub extended-IdsValid :
    (new : NewOperation) (now : ℕ) (q : Queue) → IdsValid q → IdsValid (extended new now q)
unfolding new_row
extended-IdsValid new now q h = record {
  distinct = rw ids-append (AllDistinct-append (ids q.rows) q.next_id h.below h.distinct);
  below = rw ids-append (
      All-append _ (ids q.rows) _ (All-map _ _ (ids q.rows) (λ i lt. omega arith) h.below)
        (omega arith, tt));
}

-- Statements that keep the ids keep them valid.
pub same_ids :
    (q : Queue) (rows : List Operation)
    → ids rows ≡ ids q.rows
    → IdsValid q
    → IdsValid (record q { rows = rows })
same_ids q rows e h = record { distinct = rw e h.distinct; below = rw e h.below }
