-- ===== src/Tokens/Reuse.antt =====
-- What the statements on `refresh_tokens` do to the active tokens of a family.
use mathlib.Core.List.{Memᴰ}
use brevyn_cloud.Base.{
  ℕ, ◌≤◌, ◌<◌, ◌≡◌, refl, sym, Bool, true, false, List, [], ◌∷◌, Text, arith, inl, inr, count_where,
  Bool-cases, update_where,
}
use brevyn_cloud.Tokens.{RefreshToken, is_active, is_active_of}

-- How many active tokens the family has.
abbrev pub active_count : (family : Text) → List RefreshToken → ℕ
active_count family rows = count_where (is_active_of family) rows

-- A change that leaves the row's family, and activates nothing.
abbrev pub Deactivates : (RefreshToken → RefreshToken) → Type 0
Deactivates f =
    (row : RefreshToken) → ((f row).family_id ≡ row.family_id) × (is_active (f row).status ≡ false)

-- Such a change of some rows leaves no family with more active tokens.
pub active_count-update_where :
    (family : Text) (p : RefreshToken → Bool) (f : RefreshToken → RefreshToken)
    (rows : List RefreshToken)
    → Deactivates f
    → active_count family (update_where p f rows) ≤ active_count family rows
unfolding update_where
active_count-update_where family p f [] h = omega arith
active_count-update_where family p f (row ∷ rows) h = elim (Bool-cases (p row)) [
  | inl e ↦ rw (e, (h row).1) (ground (arith, active_count-update_where family p f rows h))
  | inr e ↦ rw e (ground (arith, active_count-update_where family p f rows h))
]

-- … and takes one from the family of an active row that it changes.
pub active_count_lost :
    (family : Text) (p : RefreshToken → Bool) (f : RefreshToken → RefreshToken)
    (rows : List RefreshToken) {row : RefreshToken}
    → Deactivates f
    → Memᴰ row rows
    → p row ≡ true
    → is_active_of family row ≡ true
    → active_count family (update_where p f rows) < active_count family rows
unfolding update_where
active_count_lost family p f [] h m hit was = elim m [ ]
active_count_lost family p f (x ∷ rows) h (Memᴰ.head e) hit was =
    let hit' : p x ≡ true = rw (sym e) hit in
    let was' : is_active_of family x ≡ true = rw (sym e) was in
    rw (hit', (h x).1) (ground (arith, was', active_count-update_where family p f rows h))
active_count_lost family p f (x ∷ rows) h (Memᴰ.tail m) hit was =
    let rest = active_count_lost family p f rows h m hit was in
    elim (Bool-cases (p x)) [
      | inl e ↦ rw (e, (h x).1) (ground (arith, rest))
      | inr e ↦ rw e (ground (arith, rest))
    ]

-- A change of all active rows of a family leaves it none.
pub active_count_cleared :
    (family : Text) (f : RefreshToken → RefreshToken) (rows : List RefreshToken)
    → Deactivates f
    → active_count family (update_where (is_active_of family) f rows) ≡ 0
unfolding update_where
active_count_cleared family f [] h = refl
active_count_cleared family f (row ∷ rows) h = elim (Bool-cases (is_active_of family row)) [
  | inl e ↦ rw (e, (h row).1) (ground (arith, active_count_cleared family f rows h))
  | inr e ↦ rw e (ground (arith, e, active_count_cleared family f rows h))
]

-- An active row that a change does not touch stays in its family.
pub active_count_kept :
    (family : Text) (p : RefreshToken → Bool) (f : RefreshToken → RefreshToken)
    (rows : List RefreshToken) {row : RefreshToken}
    → Memᴰ row rows
    → p row ≡ false
    → is_active_of family row ≡ true
    → 1 ≤ active_count family (update_where p f rows)
unfolding update_where
active_count_kept family p f [] m miss was = elim m [ ]
active_count_kept family p f (x ∷ rows) (Memᴰ.head e) miss was =
    let miss' : p x ≡ false = rw (sym e) miss in
    let was' : is_active_of family x ≡ true = rw (sym e) was in rw miss' (ground (arith, was'))
active_count_kept family p f (x ∷ rows) (Memᴰ.tail m) miss was =
    let rest = active_count_kept family p f rows m miss was in ground (arith, rest)
