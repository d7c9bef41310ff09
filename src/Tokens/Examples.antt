-- ===== src/Tokens/Examples.antt =====
-- Sessions of one user, and the theorems at concrete inputs.
use brevyn_cloud.Base.{
  ℕ, zero, suc, ◌+◌, ◌-◌, ◌*◌, ◌/◌, ◌≡◌, refl, ap, true, false, Option, none, some, List, [], ◌∷◌,
  ◌++◌, map, Text, codes, arith, length, find, text_eq, is_blank, trim_space, trim_left, trim_right,
  is_space, update_where, All, ◌==◌, if◌then◌else◌,
}
use brevyn_cloud.Operations.{second}
use brevyn_cloud.Tokens.{
  Secrets, Principal, TokenMetadata, Fresh, RefreshToken, TokenTable, is_refresh_claims,
  issue_token_pair, issue_in_family, finish_issue, insert_token, new_token, refresh_token_for,
  access_token_for, rotate_refresh_token, rotate_row, replace_token, finish_replacement,
  mark_rotated, refresh_ttl, has_hash, invalid_refresh_token,
}
use brevyn_cloud.Tokens.Jwt.{
  Codec, TokenClaims, CodecValid, dot, split, sign_token, parse_token, parse_parts, check_claims,
  parse-sign_token, parse_other-sign_token,
}
use brevyn_cloud.Tokens.Reuse.{active_count}
use brevyn_cloud.Tokens.Changes.{is_refused}
use brevyn_cloud.Tokens.Sessions.{FamiliesValid, Served, idle, after, login, Served-FamiliesValid}
use brevyn_cloud.Tokens.Once.{rotates_once, reuse-revokes_family, IsReplaced, rotate-IsReplaced}

-- A codec that can be evaluated: a byte is written as a rune above the dot, the claims as numbers
-- and texts with their lengths, and a signature is the secret with the length of what it signs.
abbrev put : Text → List ℕ → List ℕ
put t rest = length t ∷ t ++ rest

abbrev cut : ℕ → List ℕ → Text × List ℕ
cut zero xs = ([], xs)
cut (suc n) [] = ([], [])
cut (suc n) (x ∷ xs) = let (t, rest) = cut n xs in (x ∷ t, rest)

cut-length : (t rest : Text) → cut (length t) (t ++ rest) ≡ (t, rest)
cut-length [] rest = refl
cut-length (c ∷ t) rest = rw (cut-length t rest)

abbrev marshal_claims : TokenClaims → List ℕ
marshal_claims c =
    c.subject_id
    ∷ c.expires_at
    ∷ c.issued_at
    ∷ put c.public_id (put c.kind (put c.token_id (put c.family_id [])))

abbrev get : List ℕ → Text × List ℕ
get [] = ([], [])
get (n ∷ xs) = cut n xs

abbrev unmarshal_claims : List ℕ → Option TokenClaims
unmarshal_claims (subject ∷ expires ∷ issued ∷ rest) =
    let (public_id, rest1) = get rest in
    let (kind, rest2) = get rest1 in
    let (token_id, rest3) = get rest2 in
    let (family_id, rest4) = get rest3 in
    some (record {
      subject_id = subject;
      public_id = public_id;
      kind = kind;
      token_id = token_id;
      family_id = family_id;
      expires_at = expires;
      issued_at = issued;
    })
unmarshal_claims _ = none

abbrev raised : List ℕ → Text
raised = map (λ b. b + 100)

abbrev lowered : Text → List ℕ
lowered = map (λ c. c - 100)

lowered-raised : (bytes : List ℕ) → lowered (raised bytes) ≡ bytes
lowered-raised [] = refl
lowered-raised (b ∷ bytes) =
    let same : (b + 100) - 100 ≡ b = omega arith in rw (same, lowered-raised bytes)

raised_no_dot : (bytes : List ℕ) → All (λ c. (c == dot) ≡ false) (raised bytes)
raised_no_dot [] = tt
raised_no_dot (b ∷ bytes) = (ground arith, raised_no_dot bytes)

abbrev codec : Codec
codec = record {
  hmac = λ secret message. length message ∷ secret;
  encode = raised;
  decode = λ s. some (lowered s);
  header = 1 ∷ [];
  marshal = marshal_claims;
  unmarshal = unmarshal_claims;
  token_hash = λ token. token;
}

codec-CodecValid : CodecValid codec
codec-CodecValid = record {
  decodes = λ bytes. ap some (lowered-raised bytes);
  no_dot = raised_no_dot;
  unmarshals = λ claims. rw (
    cut-length claims.public_id,
    cut-length claims.kind,
    cut-length claims.token_id,
    cut-length claims.family_id,
  );
}

abbrev claims : TokenClaims
claims = record {
  subject_id = 7;
  public_id = codes "u";
  kind = codes "refresh";
  token_id = codes "rt_1";
  family_id = codes "rtf_1";
  expires_at = 100;
  issued_at = 40;
}

parse-sign_token_example :
    parse_token codec (sign_token codec claims (codes "s")) (codes "s") (50 * second) ≡ some claims
parse-sign_token_example =
    parse-sign_token codec codec-CodecValid claims (codes "s") (50 * second) (omega arith)

parse_other-sign_token_example :
    parse_token codec (sign_token codec claims (codes "s")) (codes "t") (50 * second) ≡ none
unfolding text_eq
parse_other-sign_token_example =
    parse_other-sign_token codec codec-CodecValid claims (codes "s") (codes "t") (50 * second)
      (λ message. ground arith)

abbrev secrets : Secrets
secrets = record { access = codes "a"; refresh = codes "s" }

abbrev user : Principal
user = record {
  id = 7;
  public_id = codes "u";
  email = codes "u@x";
  display_name = codes "U";
  status = codes "active";
}

abbrev find_user : ℕ → Option Principal
find_user id = if id == 7 then some user else none

abbrev metadata : TokenMetadata
metadata = record { ip = []; user_agent = [] }

abbrev first_ids : Fresh
first_ids = record { family = codes "1"; access = codes "1"; refresh = codes "1"; row = codes "1" }

abbrev second_ids : Fresh
second_ids = record { family = codes "2"; access = codes "2"; refresh = codes "2"; row = codes "2" }

abbrev empty_table : TokenTable
empty_table = record { rows = []; next_id = 1 }

empty-FamiliesValid : FamiliesValid empty_table
empty-FamiliesValid = record { single = λ family. omega arith; below = tt }

abbrev clock : ℕ
clock = 50 * second

abbrev after_login : TokenTable
after_login = (issue_token_pair codec secrets user metadata [] first_ids clock clock empty_table).1

abbrev first_token : Text
first_token = refresh_token_for codec secrets user (codes "rtf_1") first_ids clock

logged_in : Served codec secrets empty_table after_login
logged_in = after idle (login user metadata first_ids clock clock refl)

Served-FamiliesValid_example : FamiliesValid after_login
Served-FamiliesValid_example = Served-FamiliesValid codec secrets logged_in empty-FamiliesValid

rotation_succeeds :
    is_refused
      (rotate_refresh_token codec secrets find_user first_token metadata second_ids clock clock
        after_login).0
    ≡ false
unfolding rotate_refresh_token rotate_row replace_token finish_replacement issue_token_pair
    issue_in_family finish_issue insert_token new_token refresh_token_for access_token_for
    is_refresh_claims sign_token parse_token parse_parts check_claims split text_eq is_blank
    trim_space trim_left trim_right is_space
rotation_succeeds = refl

rotate-IsReplaced_example :
    IsReplaced
      (codec.token_hash (trim_space first_token))
      after_login
      (rotate_refresh_token codec secrets find_user first_token metadata second_ids clock clock
        after_login).1
rotate-IsReplaced_example =
    rotate-IsReplaced codec secrets find_user first_token metadata second_ids clock clock
      after_login (Served-FamiliesValid codec secrets logged_in empty-FamiliesValid)
      rotation_succeeds

abbrev after_rotation : TokenTable
after_rotation =
    (rotate_refresh_token codec secrets find_user first_token metadata second_ids clock clock
      after_login).1

rotates_once_example :
    is_refused
      (rotate_refresh_token codec secrets find_user first_token metadata second_ids clock clock
        after_rotation).0
    ≡ true
rotates_once_example =
    rotates_once codec secrets find_user find_user first_token metadata metadata second_ids
      second_ids clock clock clock clock after_login after_rotation rotation_succeeds idle

abbrev first_claims : TokenClaims
first_claims = record {
  subject_id = 7;
  public_id = codes "u";
  kind = codes "refresh";
  token_id = codes "rt_1";
  family_id = codes "rtf_1";
  expires_at = (clock + refresh_ttl) / second;
  issued_at = 50;
}

abbrev rotated_row : RefreshToken
rotated_row =
    mark_rotated 2 clock
      (new_token 1 user metadata (codes "rtf_1") first_token (codes "rt_1") clock clock)

first_parsed : parse_token codec (trim_space first_token) secrets.refresh clock ≡ some first_claims
unfolding refresh_token_for sign_token parse_token parse_parts check_claims split text_eq trim_space
    trim_left trim_right is_space is_blank
first_parsed = refl

first_found :
    find (has_hash (codec.token_hash (trim_space first_token))) after_rotation.rows
    ≡ some rotated_row
unfolding rotate_refresh_token rotate_row replace_token finish_replacement issue_token_pair
    issue_in_family finish_issue insert_token new_token refresh_token_for access_token_for
    is_refresh_claims sign_token parse_token parse_parts check_claims split text_eq is_blank
    trim_space trim_left trim_right is_space mark_rotated update_where
first_found = refl

reuse-revokes_family_example :
    let out =
      rotate_refresh_token codec secrets find_user first_token metadata second_ids clock clock
        after_rotation in
    (out.0 ≡ invalid_refresh_token) × (active_count (codes "rtf_1") out.1.rows ≡ 0)
unfolding mark_rotated new_token is_refresh_claims text_eq is_blank
reuse-revokes_family_example =
    reuse-revokes_family codec secrets find_user first_token metadata second_ids clock clock
      after_rotation first_claims rotated_row first_parsed refl first_found refl refl refl
