-- ===== src/Tokens.antt =====
-- internal/auth/handler.go, the sessions: signed tokens, and the table `refresh_tokens`. HMAC,
-- base64, JSON and SHA-256 are the record `Codec`. A statement is atomic and a transaction holds
-- its row; where the database itself fails nothing is committed, so the table stays as it is. The
-- model of a row has all columns but `created_at`. `clock` is `time.Now()` in nanoseconds since
-- 1970, `now` the database's `now()`.
pub mod Jwt
pub mod Reuse
pub mod Changes
pub mod Metadata
pub mod Sessions
pub mod Once
mod Examples
use brevyn_cloud.Base.{
  ℕ, suc, ◌+◌, ◌*◌, ◌/◌, Bool, true, false, ◌&&◌, ◌||◌, not, Option, none, some, List, [], ◌∷◌,
  ◌++◌, Text, codes, text_eq, is_blank, trim_space, leb, ltb, ◌==◌, if◌then◌else◌, find, is_none,
  update_where,
}
use brevyn_cloud.Operations.{second, minute, hour}
use brevyn_cloud.Tokens.Jwt.{Codec, TokenClaims, parse_token, sign_token}
use brevyn_cloud.Tokens.Metadata.{trim_token_metadata}

-- `Principal`
pub record Principal : Type 0 where
  pub id : ℕ
  pub public_id : Text
  pub email : Text
  pub display_name : Text
  pub status : Text

-- `TokenPair`; `expires_in` is in seconds.
pub record TokenPair : Type 0 where
  pub access_token : Text
  pub refresh_token : Text
  pub token_type : Text
  pub expires_in : ℕ

-- `tokenMetadata`, in bytes
pub record TokenMetadata : Type 0 where
  pub ip : List ℕ
  pub user_agent : List ℕ

-- `tokenMetadataFromRequest`
unfoldable pub token_metadata_from_request : (client_ip user_agent : Text) → TokenMetadata
token_metadata_from_request client_ip user_agent = record {
  ip = trim_token_metadata client_ip 128;
  user_agent = trim_token_metadata user_agent 500;
}

pub data TokenStatus : Type 0 where
  active rotated revoked expired : TokenStatus

-- A row of `refresh_tokens`
pub record RefreshToken : Type 0 where
  pub id : ℕ
  pub public_id : Text
  pub user_id : ℕ
  pub family_id : Text
  pub token_hash : Text
  pub status : TokenStatus
  pub expires_at : ℕ
  pub last_used_at : Option ℕ
  pub revoked_at : Option ℕ
  pub revoked_reason : List ℕ
  pub replaced_by_token_id : Option ℕ
  pub created_ip : List ℕ
  pub user_agent : List ℕ
  pub updated_at : ℕ

-- The table, with the next value of its id sequence.
pub record TokenTable : Type 0 where
  pub rows : List RefreshToken
  pub next_id : ℕ

abbrev pub is_active : TokenStatus → Bool
is_active active = true
is_active _ = false

abbrev pub is_rotated : TokenStatus → Bool
is_rotated rotated = true
is_rotated _ = false

-- What `uuid.NewString()` gives a call of `issueTokenPairWithStore`.
pub record Fresh : Type 0 where
  pub family : Text
  pub access : Text
  pub refresh : Text
  pub row : Text

-- The configuration's two secrets, `accessSecret` and `refreshSecret`.
pub record Secrets : Type 0 where
  pub access : Text
  pub refresh : Text

abbrev pub access_ttl : ℕ
access_ttl = 15 * minute

abbrev pub refresh_ttl : ℕ
refresh_ttl = 30 * (24 * hour)

-- The row that `issueTokenPairWithStore` inserts.
pub new_token :
    (id : ℕ)
    → Principal
    → TokenMetadata
    → (family hash public_id : Text) (clock now : ℕ) → RefreshToken
new_token id user metadata family hash public_id clock now = record {
  id = id;
  public_id = public_id;
  user_id = user.id;
  family_id = family;
  token_hash = hash;
  status = active;
  expires_at = clock + refresh_ttl;
  last_used_at = none;
  revoked_at = none;
  revoked_reason = [];
  replaced_by_token_id = none;
  created_ip = metadata.ip;
  user_agent = metadata.user_agent;
  updated_at = now;
}

abbrev pub has_hash : Text → RefreshToken → Bool
has_hash hash row = text_eq row.token_hash hash

-- The unique columns of a new row are taken.
abbrev pub clashes : RefreshToken → RefreshToken → Bool
clashes new row = text_eq row.public_id new.public_id || text_eq row.token_hash new.token_hash

-- The insert into `refresh_tokens`: the new row's id, or a violation of its uniqueness.
pub insert_token : RefreshToken → TokenTable → Option ℕ × TokenTable
insert_token row t = elim (find (clashes row) t.rows) [
  | none ↦ (some row.id, record { rows = t.rows ++ (row ∷ []); next_id = suc t.next_id })
  | some taken ↦ (none, t)
]

-- The pair with the id that the insert returned.
pub finish_issue : TokenPair → Option ℕ × TokenTable → Option (TokenPair × ℕ) × TokenTable
finish_issue pair (none, t) = (none, t)
finish_issue pair (some id, t) = (some (pair, id), t)

module _ (codec : Codec) (secrets : Secrets) where
  -- The two tokens of `issueTokenPairWithStore`
  pub access_token_for : Principal → Fresh → (clock : ℕ) → Text
  access_token_for user fresh clock =
      sign_token codec
        (record {
          subject_id = user.id;
          public_id = user.public_id;
          kind = codes "access";
          token_id = codes "at_" ++ fresh.access;
          family_id = codes "";
          issued_at = clock / second;
          expires_at = (clock + access_ttl) / second;
        })
        secrets.access

  pub refresh_token_for : Principal → (family : Text) → Fresh → (clock : ℕ) → Text
  refresh_token_for user family fresh clock =
      sign_token codec
        (record {
          subject_id = user.id;
          public_id = user.public_id;
          kind = codes "refresh";
          token_id = codes "rt_" ++ fresh.refresh;
          family_id = family;
          issued_at = clock / second;
          expires_at = (clock + refresh_ttl) / second;
        })
        secrets.refresh

  -- `issueTokenPairWithStore` from the choice of the family on: the pair and the id of the refresh
  -- token's row, `none` where the insert fails.
  pub issue_in_family :
      Principal
      → TokenMetadata
      → (family : Text) → Fresh
      → (clock now : ℕ) → TokenTable
      → Option (TokenPair × ℕ) × TokenTable
  unfolding finish_issue
  issue_in_family user metadata family fresh clock now t =
      let refresh = refresh_token_for user family fresh clock in
      finish_issue
        (record {
          access_token = access_token_for user fresh clock;
          refresh_token = refresh;
          token_type = codes "Bearer";
          expires_in = access_ttl / second;
        })
        (insert_token
          (new_token t.next_id user metadata family (codec.token_hash refresh)
            (codes "rt_" ++ fresh.row) clock now)
          t)

  -- `issueTokenPairWithStore`
  pub issue_token_pair :
      Principal
      → TokenMetadata
      → (family : Text) → Fresh
      → (clock now : ℕ) → TokenTable
      → Option (TokenPair × ℕ) × TokenTable
  issue_token_pair user metadata family fresh clock now t =
      issue_in_family user metadata
        (if is_blank family then codes "rtf_" ++ fresh.family else family) fresh clock now t

-- The columns that the statements set.
pub revoke : (reason : List ℕ) → ℕ → RefreshToken → RefreshToken
revoke reason now row = record row {
  status = revoked;
  revoked_at = some now;
  revoked_reason = reason;
  updated_at = now;
}

pub expire : ℕ → RefreshToken → RefreshToken
expire now row = record row {
  status = expired;
  revoked_at = some now;
  revoked_reason = codes "expired";
  updated_at = now;
}

pub mark_rotated : (replacement : ℕ) → ℕ → RefreshToken → RefreshToken
mark_rotated replacement now row = record row {
  status = rotated;
  last_used_at = some now;
  revoked_at = some now;
  revoked_reason = codes "rotation";
  replaced_by_token_id = some replacement;
  updated_at = now;
}

abbrev pub is_active_of : (family : Text) → RefreshToken → Bool
is_active_of family row = text_eq row.family_id family && is_active row.status

abbrev pub has_token_id : ℕ → RefreshToken → Bool
has_token_id id row = row.id == id

abbrev pub is_active_id : ℕ → RefreshToken → Bool
is_active_id id row = row.id == id && is_active row.status

-- What `rotateRefreshToken` answers.
pub data Rotation : Type 0 where
  rotated_to : Principal → TokenPair → Rotation
  invalid_refresh_token refresh_token_expired insert_failed : Rotation

-- What `rotateRefreshToken` does with the issued pair: a failed insert is rolled back.
pub finish_replacement :
    RefreshToken
    → Principal
    → ℕ
    → TokenTable
    → Option (TokenPair × ℕ) × TokenTable
    → Rotation × TokenTable
finish_replacement row user now t (none, t') = (insert_failed, t)
finish_replacement row user now t (some (tokens, replacement), t') = (
  rotated_to user tokens,
  record t' { rows = update_where (is_active_id row.id) (mark_rotated replacement now) t'.rows },
)

-- `claims.Kind != "refresh" || claims.TokenID == "" || claims.FamilyID == ""`
pub is_refresh_claims : TokenClaims → Bool
is_refresh_claims claims =
    text_eq claims.kind (codes "refresh")
    && not (is_blank claims.token_id)
    && not (is_blank claims.family_id)

module _ (codec : Codec) (secrets : Secrets) (find_user : ℕ → Option Principal) where
  -- `rotateRefreshToken`, from the replacement of an active token on.
  pub replace_token :
      RefreshToken
      → Principal
      → TokenMetadata
      → Fresh
      → (clock now : ℕ) → TokenTable
      → Rotation × TokenTable
  unfolding finish_replacement
  replace_token row user metadata fresh clock now t =
      finish_replacement row user now t
        (issue_token_pair codec secrets user metadata row.family_id fresh clock now t)

  -- … from the row that the token's hash finds on; `find_user` is `findUserByIDWithStore`.
  pub rotate_row :
      TokenClaims
      → RefreshToken
      → TokenMetadata
      → Fresh
      → (clock now : ℕ) → TokenTable
      → Rotation × TokenTable
  rotate_row claims row metadata fresh clock now t =
      if not (row.user_id == claims.subject_id && text_eq row.family_id claims.family_id)
      then (invalid_refresh_token, t)
      else if not (is_active row.status)
      then (
        invalid_refresh_token,
        if is_rotated row.status
            then record t {
              rows =
                  update_where (is_active_of row.family_id) (revoke (codes "reuse_detected") now)
                    t.rows;
            }
            else t,
      )
      else if leb row.expires_at clock
      then (
        refresh_token_expired,
        record t { rows = update_where (has_token_id row.id) (expire now) t.rows },
      )
      else elim (find_user claims.subject_id) [
        | none ↦ (invalid_refresh_token, t)
        | some user ↦
            if text_eq user.status (codes "active")
            then replace_token row user metadata fresh clock now t
            else (invalid_refresh_token, t)
      ]

  -- `rotateRefreshToken`
  pub rotate_refresh_token :
      (token : Text) → TokenMetadata → Fresh → (clock now : ℕ) → TokenTable → Rotation × TokenTable
  rotate_refresh_token token metadata fresh clock now t =
      elim (parse_token codec (trim_space token) secrets.refresh clock) [
        | none ↦ (invalid_refresh_token, t)
        | some claims ↦
            if is_refresh_claims claims
            then elim (find (has_hash (codec.token_hash (trim_space token))) t.rows) [
              | none ↦ (invalid_refresh_token, t)
              | some row ↦ rotate_row claims row metadata fresh clock now t
            ]
            else (invalid_refresh_token, t)
      ]

-- `revokeRefreshToken`
pub revoke_refresh_token : Codec → (token reason : Text) → ℕ → TokenTable → TokenTable
revoke_refresh_token codec token reason now t =
    if is_blank (trim_space token) then t else record t {
      rows =
          update_where
            (λ row. has_hash (codec.token_hash (trim_space token)) row && is_active row.status)
            (revoke (trim_token_metadata reason 64) now) t.rows;
    }
