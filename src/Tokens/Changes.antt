-- ===== src/Tokens/Changes.antt =====
-- Everything that `rotateRefreshToken` can do to the table, in three cases.
use brevyn_cloud.Base.{
  ℕ, suc, ◌≡◌, ◌⊎◌, refl, sym, ap, subst, Bool, true, false, ◌&&◌, Option, none, some, List, [],
  ◌∷◌, ◌++◌, Text, codes, arith, inl, inr, find, text_eq, text_eq_sound, is_blank, trim_space,
  Bool-cases, Option-cases, update_where, leb, ◌==◌,
}
use brevyn_cloud.Tokens.{
  Secrets, Principal, TokenPair, TokenMetadata, Fresh, RefreshToken, TokenTable, is_active,
  is_rotated, is_active_id, has_hash, insert_token, new_token, clashes, issue_token_pair,
  issue_in_family, finish_issue, refresh_token_for, revoke, expire, mark_rotated, Rotation,
  rotated_to, is_refresh_claims, replace_token, finish_replacement, rotate_row,
  rotate_refresh_token,
}
use brevyn_cloud.Tokens.Jwt.{Codec, TokenClaims, parse_token}
use brevyn_cloud.Tokens.Reuse.{Deactivates}

abbrev pub is_refused : Rotation → Bool
is_refused (rotated_to user tokens) = false
is_refused _ = true

-- A change that leaves what rows are found by, and activates nothing.
abbrev pub Spends : (RefreshToken → RefreshToken) → Type 0
Spends f =
    Deactivates f
    × ((row : RefreshToken) → ((f row).token_hash ≡ row.token_hash) × ((f row).id ≡ row.id))

abbrev pub with_rows : TokenTable → List RefreshToken → TokenTable
with_rows t rows = record t { rows = rows }

-- The table after a replacement: the new row at its end, and the old row marked.
abbrev pub with_replaced : TokenTable → RefreshToken → RefreshToken → ℕ → TokenTable
with_replaced t row new now = record {
  rows = update_where (is_active_id row.id) (mark_rotated new.id now) (t.rows ++ (new ∷ []));
  next_id = suc t.next_id;
}

pub data Change (t : TokenTable) (hash : Text) : Rotation → TokenTable → Type 0 where
  kept : {r : Rotation} → is_refused r ≡ true → Change t hash r t
  spent :
      {r : Rotation} (p : RefreshToken → Bool) (f : RefreshToken → RefreshToken)
      → is_refused r ≡ true
      → Spends f
      → Change t hash r (with_rows t (update_where p f t.rows))
  replaced :
      (user : Principal) (tokens : TokenPair) (row new : RefreshToken) (now : ℕ)
      → find (has_hash hash) t.rows ≡ some row
      → is_active row.status ≡ true
      → new.family_id ≡ row.family_id
      → new.id ≡ t.next_id
      → is_active new.status ≡ true
      → Change t hash (rotated_to user tokens) (with_replaced t row new now)

pub revoke-Spends : (reason : List ℕ) (now : ℕ) → Spends (revoke reason now)
unfolding revoke
revoke-Spends reason now = (λ row. (refl, refl), λ row. (refl, refl))

expire-Spends : (now : ℕ) → Spends (expire now)
unfolding expire
expire-Spends now = (λ row. (refl, refl), λ row. (refl, refl))

pub mark_rotated-Spends : (replacement now : ℕ) → Spends (mark_rotated replacement now)
unfolding mark_rotated
mark_rotated-Spends replacement now = (λ row. (refl, refl), λ row. (refl, refl))

insert_token_free :
    (row : RefreshToken) (t : TokenTable)
    → find (clashes row) t.rows ≡ none
    → insert_token row t
      ≡ (some row.id, record { rows = t.rows ++ (row ∷ []); next_id = suc t.next_id })
unfolding insert_token
insert_token_free row t e = rw (e, insert_token)

insert_token_clash :
    (row : RefreshToken) (t : TokenTable) (taken : RefreshToken)
    → find (clashes row) t.rows ≡ some taken
    → insert_token row t ≡ (none, t)
unfolding insert_token
insert_token_clash row t taken e = rw (e, insert_token)

module _ (codec : Codec) (secrets : Secrets) where
  -- The row that an issue of tokens inserts.
  abbrev pub issued_row :
      Principal
      → TokenMetadata
      → (family : Text) → Fresh
      → (clock now : ℕ) → TokenTable
      → RefreshToken
  issued_row user metadata family fresh clock now t =
      new_token t.next_id user metadata family
        (codec.token_hash (refresh_token_for codec secrets user family fresh clock))
        (codes "rt_" ++ fresh.row) clock now

  -- An issue inserts its row, or changes nothing.
  pub issue_cases :
      (user : Principal) (metadata : TokenMetadata) (family : Text) (fresh : Fresh) (clock now : ℕ)
      (t : TokenTable)
      → let new = issued_row user metadata family fresh clock now t in
        let out = issue_in_family codec secrets user metadata family fresh clock now t in
        (out ≡ (none, t))
        ⊎ ((tokens : TokenPair) × (out ≡ (
          some (tokens, new.id),
          record { rows = t.rows ++ (new ∷ []); next_id = suc t.next_id },
        )))
  unfolding issue_in_family finish_issue
  issue_cases user metadata family fresh clock now t =
      let new = issued_row user metadata family fresh clock now t in
      elim (Option-cases (find (clashes new) t.rows)) [
        | inl free ↦ inr (_, ap (finish_issue _) (insert_token_free new t free))
        | inr (taken, clash) ↦ inl (ap (finish_issue _) (insert_token_clash new t taken clash))
      ]

family_not_blank :
    (claims : TokenClaims) (row : RefreshToken)
    → is_refresh_claims claims ≡ true
    → text_eq row.family_id claims.family_id ≡ true
    → is_blank row.family_id ≡ false
unfolding is_refresh_claims
family_not_blank claims row valid same =
    rw (text_eq_sound row.family_id claims.family_id same) (ground (arith, valid))

module _ (codec : Codec) (secrets : Secrets) (find_user : ℕ → Option Principal)
    (metadata : TokenMetadata) (fresh : Fresh) (clock now : ℕ) (t : TokenTable) where
  replace-Change :
      (hash : Text) (row : RefreshToken) (user : Principal)
      → find (has_hash hash) t.rows ≡ some row
      → is_active row.status ≡ true
      → is_blank row.family_id ≡ false
      → let out = replace_token codec secrets find_user row user metadata fresh clock now t in
        Change t hash out.0 out.1
  unfolding replace_token issue_token_pair finish_replacement new_token
  replace-Change hash row user found live named =
      let Result : Option (TokenPair × ℕ) × TokenTable → Type 0 =
        λ issued. let out = finish_replacement row user now t issued in Change t hash out.0 out.1 in
      rw named elim (issue_cases codec secrets user metadata row.family_id fresh clock now t) [
        | inl e ↦ subst Result (sym e) (kept refl)
        | inr (tokens, e) ↦
            subst Result (sym e) (replaced user tokens row _ now found live refl refl refl)
      ]

  rotate_row-Change :
      (claims : TokenClaims) (hash : Text) (row : RefreshToken)
      → find (has_hash hash) t.rows ≡ some row
      → is_refresh_claims claims ≡ true
      → let out = rotate_row codec secrets find_user claims row metadata fresh clock now t in
        Change t hash out.0 out.1
  unfolding rotate_row is_refresh_claims
  rotate_row-Change claims hash row found valid =
      elim (Bool-cases
        (row.user_id == claims.subject_id && text_eq row.family_id claims.family_id)) [
          | inr other ↦ rw other (kept refl)
          | inl same ↦ elim (Bool-cases (is_active row.status)) [
            | inr over ↦ elim (Bool-cases (is_rotated row.status)) [
              | inl reused ↦ rw (same, over, reused) (spent _ _ refl (revoke-Spends _ now))
              | inr not_rotated ↦ rw (same, over, not_rotated) (kept refl)
            ]
            | inl live ↦ elim (Bool-cases (leb row.expires_at clock)) [
              | inl late ↦ rw (same, live, late) (spent _ _ refl (expire-Spends now))
              | inr early ↦ elim (Option-cases (find_user claims.subject_id)) [
                | inl no_user ↦ rw (same, live, early, no_user) (kept refl)
                | inr (user, known) ↦ elim (Bool-cases (text_eq user.status (codes "active"))) [
                  | inl is_on ↦
                      rw (same, live, early, known, is_on)
                        (replace-Change hash row user found live
                          (family_not_blank claims row valid (ground (arith, same))))
                  | inr off ↦ rw (same, live, early, known, off) (kept refl)
                ]
              ]
            ]
          ]
        ]

  pub rotate-Change :
      (token : Text)
      → let out = rotate_refresh_token codec secrets find_user token metadata fresh clock now t in
        Change t (codec.token_hash (trim_space token)) out.0 out.1
  unfolding rotate_refresh_token
  rotate-Change token =
      elim (Option-cases (parse_token codec (trim_space token) secrets.refresh clock)) [
        | inl e ↦ rw (e, rotate_refresh_token) (kept refl)
        | inr (claims, e) ↦ elim (Bool-cases (is_refresh_claims claims)) [
          | inr other ↦ rw (e, rotate_refresh_token, other) (kept refl)
          | inl valid ↦
              elim (Option-cases (find (has_hash (codec.token_hash (trim_space token))) t.rows)) [
                | inl unknown ↦ rw (e, rotate_refresh_token, valid, unknown) (kept refl)
                | inr (row, found) ↦
                    rw (e, rotate_refresh_token, valid, found)
                      (rotate_row-Change claims _ row found valid)
              ]
        ]
      ]
