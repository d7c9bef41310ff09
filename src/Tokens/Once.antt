-- ===== src/Tokens/Once.antt =====
-- A refresh token is good for one rotation, and its reuse ends the family.
use brevyn_cloud.Base.{
  ℕ, suc, ◌≡◌, refl, subst, Bool, true, false, Option, some, [], ◌∷◌, ◌++◌, Text, codes, arith, inl,
  inr, find, find-Memᴰ, find-some-append, find-update_where, text_eq, is_blank, trim_space,
  Bool-cases, update_where, ◌==◌, ==_refl, All-Memᴰ, Memᴰ-last, ◌<◌, text_eq_refl,
}
use brevyn_cloud.Tokens.{
  Secrets, Principal, TokenMetadata, Fresh, RefreshToken, TokenTable, is_active, is_rotated,
  is_active_id, has_hash, issue_token_pair, mark_rotated, revoke, Rotation, invalid_refresh_token,
  is_refresh_claims, rotate_row, rotate_refresh_token,
}
use brevyn_cloud.Tokens.Jwt.{Codec, TokenClaims, parse_token}
use brevyn_cloud.Tokens.Reuse.{active_count, active_count_kept, active_count_cleared}
use brevyn_cloud.Tokens.Changes.{
  Change, kept, spent, replaced, Spends, is_refused, with_rows, with_replaced, rotate-Change,
  revoke-Spends, mark_rotated-Spends, issue_cases,
}
use brevyn_cloud.Tokens.Sessions.{
  FamiliesValid, Request, login, refresh, logout, Served, idle, after, replaced_count, logout_cases,
}

-- The token with this hash is in the table, and is not active.
abbrev pub IsSpent : (hash : Text) → TokenTable → Type 0
IsSpent hash t =
    (row : RefreshToken) × (find (has_hash hash) t.rows ≡ some row) × (is_active row.status ≡ false)

update_where-IsSpent :
    (hash : Text) (t : TokenTable) (p : RefreshToken → Bool) (f : RefreshToken → RefreshToken)
    → Spends f
    → IsSpent hash t
    → IsSpent hash (with_rows t (update_where p f t.rows))
update_where-IsSpent hash t p f h (row, found, off) = (
  _,
  find-update_where (has_hash hash) p f t.rows (λ x. rw ((h.1 x).0)) found,
  elim (Bool-cases (p row)) [ inl e ↦ rw e ((h.0 row).1) | inr e ↦ rw e off ],
)

append-IsSpent :
    (hash : Text) (t : TokenTable) (new : RefreshToken)
    → IsSpent hash t
    → IsSpent hash (record { rows = t.rows ++ (new ∷ []); next_id = suc t.next_id })
append-IsSpent hash t new (row, found, off) =
    (row, find-some-append (has_hash hash) t.rows (new ∷ []) found, off)

Change-IsSpent :
    {t t' : TokenTable} {hash : Text} {r : Rotation} (other : Text)
    → Change t hash r t'
    → IsSpent other t
    → IsSpent other t'
Change-IsSpent other (kept refused) s = s
Change-IsSpent {t} other (spent p f refused h) s = update_where-IsSpent other t p f h s
Change-IsSpent {t} other (replaced user tokens row new now found live same fresh_id on) s =
    update_where-IsSpent other (record { rows = t.rows ++ (new ∷ []); next_id = suc t.next_id })
      (is_active_id row.id) (mark_rotated new.id now) (mark_rotated-Spends new.id now)
      (append-IsSpent other t new s)

-- A spent token is refused.
Change-refused :
    {t t' : TokenTable} {hash : Text} {r : Rotation}
    → Change t hash r t'
    → IsSpent hash t
    → is_refused r ≡ true
Change-refused (kept refused) s = refused
Change-refused (spent p f refused h) s = refused
Change-refused (replaced user tokens row new now found live same fresh_id on) (row', found', off) =
    absurd (ground (arith, found, found', live, off))

-- A rotation spends its token.
Change-spends :
    {t t' : TokenTable} {hash : Text} {r : Rotation}
    → Change t hash r t'
    → is_refused r ≡ false
    → IsSpent hash t'
unfolding mark_rotated
Change-spends (kept refused) ok = absurd (cc (refused, ok))
Change-spends (spent p f refused h) ok = absurd (cc (refused, ok))
Change-spends {t} {hash = hash} (replaced user tokens row new now found live same fresh_id on) ok =
    (
      mark_rotated new.id now row,
      subst (λ r. find (has_hash hash) (with_replaced t row new now).rows ≡ some r)
          (rw (==_refl row.id, live))
          (find-update_where (has_hash hash) (is_active_id row.id) (mark_rotated new.id now)
            (t.rows ++ (new ∷ [])) (λ x. refl)
            (find-some-append (has_hash hash) t.rows (new ∷ []) found)),
      refl,
    )

module _ (codec : Codec) (secrets : Secrets) where
  Request-IsSpent :
      {t t' : TokenTable} (hash : Text)
      → Request codec secrets t t'
      → IsSpent hash t
      → IsSpent hash t'
  unfolding issue_token_pair is_blank
  Request-IsSpent {t} hash (login user metadata fresh clock now none_yet) s =
      elim (issue_cases codec secrets user metadata (codes "rtf_" ++ fresh.family) fresh clock now
        t) [ inl e ↦ rw e s | inr (tokens, e) ↦ rw e (append-IsSpent hash t _ s) ]
  Request-IsSpent {t} hash (refresh find_user token metadata fresh clock now) s =
      Change-IsSpent hash (rotate-Change codec secrets find_user metadata fresh clock now t token) s
  Request-IsSpent {t} hash (logout token reason now) s =
      elim (logout_cases codec secrets token reason now t) [
        | inl e ↦ rw e s
        | inr (p, f, h, e) ↦ rw e (update_where-IsSpent hash t p f h s)
      ]

  Served-IsSpent :
      {t t' : TokenTable} (hash : Text)
      → Served codec secrets t t'
      → IsSpent hash t
      → IsSpent hash t'
  Served-IsSpent hash idle s = s
  Served-IsSpent hash (after served r) s = Request-IsSpent hash r (Served-IsSpent hash served s)

  -- A refresh token is rotated at most once: after a rotation that succeeds and any further
  -- requests, every other attempt to rotate the same token is refused.
  pub rotates_once :
      (find_user find_user' : ℕ → Option Principal) (token : Text)
      (metadata metadata' : TokenMetadata) (fresh fresh' : Fresh) (clock now clock' now' : ℕ)
      (t t' : TokenTable)
      → let first = rotate_refresh_token codec secrets find_user token metadata fresh clock now t in
        is_refused first.0 ≡ false
        → Served codec secrets first.1 t'
        → is_refused
            (rotate_refresh_token codec secrets find_user' token metadata' fresh' clock' now' t').0
          ≡ true
  rotates_once find_user find_user' token metadata metadata' fresh fresh' clock now clock' now' t t'
        ok served =
      Change-refused (rotate-Change codec secrets find_user' metadata' fresh' clock' now' t' token)
        (Served-IsSpent _ served (
          Change-spends (rotate-Change codec secrets find_user metadata fresh clock now t token)
            ok))

module _ (codec : Codec) (secrets : Secrets) (find_user : ℕ → Option Principal) where
  -- When a rotated token comes again, signed and in time, it is refused, and its family has no
  -- active token any more.
  pub reuse-revokes_family :
      (token : Text) (metadata : TokenMetadata) (fresh : Fresh) (clock now : ℕ) (t : TokenTable)
      (claims : TokenClaims) (row : RefreshToken)
      → parse_token codec (trim_space token) secrets.refresh clock ≡ some claims
      → is_refresh_claims claims ≡ true
      → find (has_hash (codec.token_hash (trim_space token))) t.rows ≡ some row
      → (row.user_id == claims.subject_id) ≡ true
      → text_eq row.family_id claims.family_id ≡ true
      → is_rotated row.status ≡ true
      → let out = rotate_refresh_token codec secrets find_user token metadata fresh clock now t in
        (out.0 ≡ invalid_refresh_token) × (active_count row.family_id out.1.rows ≡ 0)
  unfolding rotate_refresh_token rotate_row
  reuse-revokes_family token metadata fresh clock now t claims row parsed valid found user family
        was =
      let off : is_active row.status ≡ false = ground (arith, was) in
      rw (parsed, rotate_refresh_token, valid, found, user, family, off, was)
        (
          refl,
          active_count_cleared row.family_id (revoke (codes "reuse_detected") now) t.rows
              (revoke-Spends (codes "reuse_detected") now).0,
        )

-- What a rotation that succeeds leaves: the token was active, it is spent now, and its family has
-- exactly one active token.
abbrev pub IsReplaced : (hash : Text) → TokenTable → TokenTable → Type 0
IsReplaced hash t t' =
    (row : RefreshToken) × (find (has_hash hash) t.rows ≡ some row)
    × (is_active row.status ≡ true)
    × (active_count row.family_id t'.rows ≡ 1)
    × IsSpent hash t'

Change-IsReplaced :
    {t t' : TokenTable} {hash : Text} {r : Rotation}
    → Change t hash r t'
    → FamiliesValid t
    → is_refused r ≡ false
    → IsReplaced hash t t'
Change-IsReplaced (kept refused) v ok = absurd (cc (refused, ok))
Change-IsReplaced (spent p f refused h) v ok = absurd (cc (refused, ok))
Change-IsReplaced {t} {hash = hash} (replaced user tokens row new now found live same fresh_id on) v
      ok =
    let there = (find-Memᴰ (has_hash hash) t.rows found).1 in
    let older = All-Memᴰ (λ x. x.id < t.next_id) t.rows there v.below in
    (
      row,
      found,
      live,
      omega (
        arith,
        replaced_count t row new now row.family_id there live same,
        v.single row.family_id,
        active_count_kept row.family_id (is_active_id row.id) (mark_rotated new.id now)
            (t.rows ++ (new ∷ [])) (Memᴰ-last t.rows new) (ground (arith, older, fresh_id))
            (rw (same, text_eq_refl row.family_id) on),
      ),
      Change-spends (replaced user tokens row new now found live same fresh_id on) ok,
    )

-- A rotation that succeeds on a valid table was asked with an active token, spends it, and leaves
-- its family exactly one active token.
pub rotate-IsReplaced :
    (codec : Codec) (secrets : Secrets) (find_user : ℕ → Option Principal) (token : Text)
    (metadata : TokenMetadata) (fresh : Fresh) (clock now : ℕ) (t : TokenTable)
    → FamiliesValid t
    → let out = rotate_refresh_token codec secrets find_user token metadata fresh clock now t in
      is_refused out.0 ≡ false → IsReplaced (codec.token_hash (trim_space token)) t out.1
rotate-IsReplaced codec secrets find_user token metadata fresh clock now t v ok =
    Change-IsReplaced (rotate-Change codec secrets find_user metadata fresh clock now t token) v ok
