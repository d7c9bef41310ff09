-- ===== src/Tokens/Sessions.antt =====
-- The sessions over any sequence of logins, refreshes and logouts.
use mathlib.Core.List.{Memᴰ}
use brevyn_cloud.Base.{
  ℕ, suc, ◌≤◌, ◌<◌, ◌≡◌, ◌⊎◌, refl, subst, Bool, true, false, ◌&&◌, Option, List, [], ◌∷◌, ◌++◌,
  Text, codes, arith, inl, inr, find-Memᴰ, Memᴰ-append, count_where-append, text_eq, text_eq_sound,
  is_blank, trim_space, Bool-cases, update_where, update_where-All, All, All-map, All-append,
  ==_refl,
}
use brevyn_cloud.Tokens.{
  Secrets, Principal, TokenMetadata, Fresh, RefreshToken, TokenTable, is_active, is_active_of,
  is_active_id, has_hash, issue_token_pair, mark_rotated, revoke, Rotation, rotate_refresh_token,
  revoke_refresh_token, new_token,
}
use brevyn_cloud.Tokens.Metadata.{trim_token_metadata}
use brevyn_cloud.Tokens.Jwt.{Codec}
use brevyn_cloud.Tokens.Reuse.{active_count, active_count-update_where, active_count_lost}
use brevyn_cloud.Tokens.Changes.{
  Change, kept, spent, replaced, Spends, with_rows, with_replaced, rotate-Change, revoke-Spends,
  mark_rotated-Spends, issue_cases, issued_row,
}

-- No family has two active tokens, and the ids come from the sequence.
pub record FamiliesValid (t : TokenTable) : Type 0 where
  pub single : (family : Text) → active_count family t.rows ≤ 1
  pub below : All (λ row. row.id < t.next_id) t.rows

below-update_where :
    (n : ℕ) (p : RefreshToken → Bool) (f : RefreshToken → RefreshToken) (rows : List RefreshToken)
    → Spends f
    → All (λ row. row.id < n) rows
    → All (λ row. row.id < n) (update_where p f rows)
below-update_where n p f rows h all =
    update_where-All _ p f rows (λ row _ b. rw ((h.1 row).1) b) all

spent-FamiliesValid :
    (t : TokenTable) (p : RefreshToken → Bool) (f : RefreshToken → RefreshToken)
    → Spends f
    → FamiliesValid t
    → FamiliesValid (with_rows t (update_where p f t.rows))
spent-FamiliesValid t p f h v = record {
  single =
      λ family. omega (arith, active_count-update_where family p f t.rows h.0, v.single family);
  below = below-update_where t.next_id p f t.rows h v.below;
}

below-append :
    (t : TokenTable) (new : RefreshToken)
    → new.id ≡ t.next_id
    → All (λ row. row.id < t.next_id) t.rows
    → All (λ row. row.id < suc t.next_id) (t.rows ++ (new ∷ []))
below-append t new e all =
    All-append _ t.rows _ (All-map _ _ t.rows (λ row b. omega (arith, b)) all)
      (omega (arith, e), tt)

single_count : (family : Text) (new : RefreshToken) → active_count family (new ∷ []) ≤ 1
single_count family new = ground arith

other_count :
    (family : Text) (new : RefreshToken)
    → text_eq new.family_id family ≡ false
    → active_count family (new ∷ []) ≡ 0
other_count family new e = rw e refl

-- How many active tokens of a family a replacement leaves: no more than before, as the new
-- row makes up for the old one.
pub replaced_count :
    (t : TokenTable) (row new : RefreshToken) (now : ℕ) (family : Text)
    → Memᴰ row t.rows
    → is_active row.status ≡ true
    → new.family_id ≡ row.family_id
    → active_count family (with_replaced t row new now).rows ≤ active_count family t.rows
replaced_count t row new now family m live same = elim (Bool-cases (text_eq row.family_id family)) [
  | inl mine ↦ omega (
    arith,
    active_count_lost family (is_active_id row.id) (mark_rotated new.id now) (t.rows ++ (new ∷ []))
        (mark_rotated-Spends new.id now).0 (Memᴰ-append t.rows (new ∷ []) m)
        (rw (==_refl row.id) live) (rw mine live),
    count_where-append (is_active_of family) t.rows (new ∷ []),
    single_count family new,
  )
  | inr other ↦ omega (
    arith,
    active_count-update_where family (is_active_id row.id) (mark_rotated new.id now)
        (t.rows ++ (new ∷ [])) (mark_rotated-Spends new.id now).0,
    count_where-append (is_active_of family) t.rows (new ∷ []),
    other_count family new (rw same other),
  )
]

replaced-FamiliesValid :
    (t : TokenTable) (row new : RefreshToken) (now : ℕ)
    → Memᴰ row t.rows
    → is_active row.status ≡ true
    → new.family_id ≡ row.family_id
    → new.id ≡ t.next_id
    → FamiliesValid t
    → FamiliesValid (with_replaced t row new now)
replaced-FamiliesValid t row new now m live same fresh_id v = record {
  single =
      λ family. omega (arith, replaced_count t row new now family m live same, v.single family);
  below =
      below-update_where (suc t.next_id) (is_active_id row.id) (mark_rotated new.id now) _
        (mark_rotated-Spends new.id now) (below-append t new fresh_id v.below);
}

Change-FamiliesValid :
    {t t' : TokenTable} {hash : Text} {r : Rotation}
    → Change t hash r t'
    → FamiliesValid t
    → FamiliesValid t'
Change-FamiliesValid (kept refused) v = v
Change-FamiliesValid {t} (spent p f refused h) v = spent-FamiliesValid t p f h v
Change-FamiliesValid {t} {hash = hash}
      (replaced user tokens row new now found live same fresh_id on) v =
    replaced-FamiliesValid t row new now (find-Memᴰ (has_hash hash) t.rows found).1 live same
      fresh_id v

module _ (codec : Codec) (secrets : Secrets) where
  -- One request: a login, whose family is a new random text; a refresh; a logout.
  pub data Request (t : TokenTable) : TokenTable → Type 0 where
    login :
        (user : Principal) (metadata : TokenMetadata) (fresh : Fresh) (clock now : ℕ)
        → active_count (codes "rtf_" ++ fresh.family) t.rows ≡ 0
        → Request t (issue_token_pair codec secrets user metadata [] fresh clock now t).1
    refresh :
        (find_user : ℕ → Option Principal) (token : Text) (metadata : TokenMetadata) (fresh : Fresh)
        (clock now : ℕ)
        → Request t
            (rotate_refresh_token codec secrets find_user token metadata fresh clock now t).1
    logout :
        (token reason : Text) (now : ℕ) → Request t (revoke_refresh_token codec token reason now t)

  -- Any number of requests.
  pub data Served (t : TokenTable) : TokenTable → Type 0 where
    idle : Served t t
    after : {t' t'' : TokenTable} → Served t t' → Request t' t'' → Served t t''

  login-FamiliesValid :
      (t : TokenTable) (user : Principal) (metadata : TokenMetadata) (fresh : Fresh) (clock now : ℕ)
      → active_count (codes "rtf_" ++ fresh.family) t.rows ≡ 0
      → FamiliesValid t
      → FamiliesValid (issue_token_pair codec secrets user metadata [] fresh clock now t).1
  unfolding issue_token_pair is_blank new_token
  login-FamiliesValid t user metadata fresh clock now none_yet v =
      let family = codes "rtf_" ++ fresh.family in
      let new = issued_row codec secrets user metadata family fresh clock now t in
      elim (issue_cases codec secrets user metadata family fresh clock now t) [
        | inl e ↦ rw e v
        | inr (tokens, e) ↦ rw e (record {
          single = λ f. elim (Bool-cases (text_eq family f)) [
            | inl mine ↦ omega (
              arith,
              count_where-append (is_active_of f) t.rows (new ∷ []),
              single_count f new,
              subst (λ g. active_count g t.rows ≡ 0) (text_eq_sound family f mine) none_yet,
            )
            | inr other ↦ omega (
              arith,
              count_where-append (is_active_of f) t.rows (new ∷ []),
              other_count f new other,
              v.single f,
            )
          ];
          below = below-append t new refl v.below;
        })
      ]

  -- A logout spends what it finds, or does nothing.
  pub logout_cases :
      (token reason : Text) (now : ℕ) (t : TokenTable)
      → (revoke_refresh_token codec token reason now t ≡ t)
        ⊎ ((p : RefreshToken → Bool) × (f : RefreshToken → RefreshToken) × Spends f
            × (revoke_refresh_token codec token reason now t
                ≡ with_rows t (update_where p f t.rows)))
  unfolding revoke_refresh_token
  logout_cases token reason now t = elim (Bool-cases (is_blank (trim_space token))) [
    | inl e ↦ inl (rw (e, revoke_refresh_token))
    | inr e ↦ inr (
      λ row. has_hash (codec.token_hash (trim_space token)) row && is_active row.status,
      revoke (trim_token_metadata reason 64) now,
      revoke-Spends _ now,
      rw (e, revoke_refresh_token),
    )
  ]

  Request-FamiliesValid : {t t' : TokenTable} → Request t t' → FamiliesValid t → FamiliesValid t'
  Request-FamiliesValid {t} (login user metadata fresh clock now none_yet) v =
      login-FamiliesValid t user metadata fresh clock now none_yet v
  Request-FamiliesValid {t} (refresh find_user token metadata fresh clock now) v =
      Change-FamiliesValid (rotate-Change codec secrets find_user metadata fresh clock now t token)
        v
  Request-FamiliesValid {t} (logout token reason now) v = elim (logout_cases token reason now t) [
    | inl e ↦ rw e v
    | inr (p, f, h, e) ↦ rw e (spent-FamiliesValid t p f h v)
  ]

  -- Whatever logins, refreshes and logouts are served, in whatever order, no family ever has two
  -- active refresh tokens, if the random family of a login is not one with an active token.
  pub Served-FamiliesValid : {t t' : TokenTable} → Served t t' → FamiliesValid t → FamiliesValid t'
  Served-FamiliesValid idle v = v
  Served-FamiliesValid (after s r) v = Request-FamiliesValid r (Served-FamiliesValid s v)
