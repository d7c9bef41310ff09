-- ===== src/Tokens/Jwt.antt =====
-- internal/auth/handler.go: `signToken` and `parseToken`, over the primitives that they call.
use brevyn_cloud.Base.{
  ℕ, ◌/◌, ◌<◌, ◌≡◌, refl, ap, false, ◌||◌, Option, none, some, List, [], ◌∷◌, ◌++◌, Text, arith,
  text_eq, text_eq_refl, leb, ◌==◌, if◌then◌else◌, All,
}
use brevyn_cloud.Operations.{second}

-- `tokenClaims`
pub record TokenClaims : Type 0 where
  pub subject_id : ℕ
  pub public_id : Text
  pub kind : Text
  pub token_id : Text
  pub family_id : Text
  pub expires_at : ℕ
  pub issued_at : ℕ

-- `hmac.New(sha256.New, secret)`, `base64.RawURLEncoding`, `json` on the claims (the header is one
-- text), and `hashToken`
pub record Codec : Type 0 where
  pub hmac : (secret message : Text) → List ℕ
  pub encode : List ℕ → Text
  pub decode : Text → Option (List ℕ)
  pub header : List ℕ
  pub marshal : TokenClaims → List ℕ
  pub unmarshal : List ℕ → Option TokenClaims
  pub token_hash : Text → Text

abbrev pub dot : ℕ
dot = b'.'

-- `strings.Split(s, ".")`
unfoldable pub split : Text → List Text
split [] = [] ∷ []
split (c ∷ s) =
    let rest = split s in
    if c == dot then [] ∷ rest else elim rest [ [] ↦ [] | part ∷ parts ↦ (c ∷ part) ∷ parts ]

-- `signToken`; the marshalling of a struct of numbers and texts does not fail.
unfoldable pub sign_token : Codec → TokenClaims → (secret : Text) → Text
sign_token codec claims secret =
    let signing_input = codec.encode codec.header ++ (dot ∷ codec.encode (codec.marshal claims)) in
    signing_input ++ (dot ∷ codec.encode (codec.hmac secret signing_input))

-- `parseToken` from the claims on; a subject is not negative.
unfoldable pub check_claims : (clock : ℕ) → Option TokenClaims → Option TokenClaims
check_claims clock none = none
check_claims clock (some claims) =
    if claims.subject_id == 0 || leb claims.expires_at (clock / second) then none else some claims

-- … from the three parts on.
unfoldable pub parse_parts :
    Codec → (header payload signature secret : Text) (clock : ℕ) → Option TokenClaims
parse_parts codec header payload signature secret clock = elim (codec.decode signature) [
  | none ↦ none
  | some actual ↦
      if text_eq (codec.hmac secret (header ++ (dot ∷ payload))) actual
      then elim (codec.decode payload) [
        | none ↦ none
        | some bytes ↦ check_claims clock (codec.unmarshal bytes)
      ]
      else none
]

-- `parseToken`
unfoldable pub parse_token : Codec → (token secret : Text) (clock : ℕ) → Option TokenClaims
parse_token codec token secret clock = elim (split token) [
  | header ∷ payload ∷ signature ∷ [] ↦ parse_parts codec header payload signature secret clock
  | _ ↦ none
]

-- What the documentation of base64 and JSON says: what is encoded is decoded, the alphabet has no
-- dot, and the claims are read as they were written.
pub record CodecValid (codec : Codec) : Type 0 where
  pub decodes : (bytes : List ℕ) → codec.decode (codec.encode bytes) ≡ some bytes
  pub no_dot : (bytes : List ℕ) → All (λ c. (c == dot) ≡ false) (codec.encode bytes)
  pub unmarshals : (claims : TokenClaims) → codec.unmarshal (codec.marshal claims) ≡ some claims

split-part : (s : Text) → All (λ c. (c == dot) ≡ false) s → split s ≡ s ∷ []
unfolding split
split-part [] h = refl
split-part (c ∷ s) h = rw (h.0, split-part s h.1)

split-dot : (s t : Text) → All (λ c. (c == dot) ≡ false) s → split (s ++ (dot ∷ t)) ≡ s ∷ split t
unfolding split
split-dot [] t h = refl
split-dot (c ∷ s) t h = rw (h.0, split-dot s t h.1)

append_assoc : (s t u : Text) → (s ++ t) ++ u ≡ s ++ (t ++ u)
append_assoc [] t u = refl
append_assoc (c ∷ s) t u = ap (λ r. c ∷ r) (append_assoc s t u)

module _ (codec : Codec) (valid : CodecValid codec) where
  split-sign_token :
      (claims : TokenClaims) (secret : Text)
      → split (sign_token codec claims secret)
        ≡ codec.encode codec.header
          ∷ codec.encode (codec.marshal claims)
          ∷ codec.encode (
              codec.hmac secret
                (codec.encode codec.header ++ (dot ∷ codec.encode (codec.marshal claims))))
          ∷ []
  unfolding sign_token
  split-sign_token claims secret = rw (
    append_assoc,
    split-dot _ _ (valid.no_dot codec.header),
    split-dot _ _ (valid.no_dot (codec.marshal claims)),
    split-part _ (valid.no_dot _),
  )

  parse_parts-sign_token :
      (claims : TokenClaims) (secret other : Text) (clock : ℕ)
      → parse_token codec (sign_token codec claims secret) other clock
        ≡ parse_parts codec
            (codec.encode codec.header)
            (codec.encode (codec.marshal claims))
            (codec.encode (
              codec.hmac secret
                (codec.encode codec.header ++ (dot ∷ codec.encode (codec.marshal claims)))))
            other
            clock
  unfolding parse_token parse_parts
  parse_parts-sign_token claims secret other clock =
      rw (split-sign_token claims secret, parse_token)

  -- A signed token is read back with the same secret until it expires, and from then on it is
  -- refused; its subject is not 0, and the codec is one that decodes what it encodes.
  pub parse-sign_token :
      (claims : TokenClaims) (secret : Text) (clock : ℕ)
      → 0 < claims.subject_id
      → parse_token codec (sign_token codec claims secret) secret clock
        ≡ (if leb claims.expires_at (clock / second) then none else some claims)
  unfolding check_claims parse_parts
  parse-sign_token claims secret clock h =
      rw
        (
          parse_parts-sign_token claims secret secret clock,
          valid.decodes (
              codec.hmac secret
                (codec.encode codec.header ++ (dot ∷ codec.encode (codec.marshal claims)))),
          parse_parts,
          text_eq_refl (
              codec.hmac secret
                (codec.encode codec.header ++ (dot ∷ codec.encode (codec.marshal claims)))),
          valid.decodes (codec.marshal claims),
          valid.unmarshals claims,
        )
        (ground (arith, h))

  -- With another secret, whose signatures differ, a signed token is refused; the codec is one that
  -- decodes what it encodes.
  pub parse_other-sign_token :
      (claims : TokenClaims) (secret other : Text) (clock : ℕ)
      → ((message : Text) → text_eq (codec.hmac other message) (codec.hmac secret message) ≡ false)
      → parse_token codec (sign_token codec claims secret) other clock ≡ none
  unfolding parse_parts
  parse_other-sign_token claims secret other clock h =
      rw
        (
          parse_parts-sign_token claims secret other clock,
          valid.decodes (
              codec.hmac secret
                (codec.encode codec.header ++ (dot ∷ codec.encode (codec.marshal claims)))),
          parse_parts,
          h (codec.encode codec.header ++ (dot ∷ codec.encode (codec.marshal claims))),
        )
        refl
