-- ===== src/Secrets.antt =====
-- internal/admin/gateway_settings_service.go: the encryption of what is stored, `EncryptSecret` and
-- `DecryptSecret`. Go's strings of bytes are texts here. The key is a SHA-256 sum, so
-- `aes.NewCipher` and `cipher.NewGCM` take it, and their errors are left out.
pub mod RoundTrip
use brevyn_cloud.Base.{
  ℕ, Option, none, some, Text, codes, trim_space, is_blank, has_prefix, ltb, length, take, drop,
  ◌++◌, if◌then◌else◌,
}

-- `crypto/aes` and `crypto/cipher`, in the mode GCM, `crypto/sha256` and `encoding/base64`; `none` is
-- an error. The sealed text is `Seal` with an empty destination, which it only appends to.
pub record Crypto : Type 0 where
  pub sha256 : Text → Text
  pub nonce_size : ℕ
  pub seal : (key nonce plain : Text) → Text
  pub open_sealed : (key nonce ciphertext : Text) → Option Text
  pub encode : Text → Text
  pub decode : Text → Option Text

-- The fields of the configuration that the key is made from
pub record SecretConfig : Type 0 where
  pub encryption_key : Text
  pub session_secret : Text
  pub jwt_access_secret : Text
  pub admin_seed_password : Text

-- The first text trimmed, or the second if that is empty.
abbrev pub trimmed_or : Text → Text → Text
trimmed_or value otherwise =
    let seed = trim_space value in if is_blank seed then otherwise else seed

module _ (crypto : Crypto) (cfg : SecretConfig) where
  -- `secretEncryptionKey`
  pub secret_encryption_key : Text
  secret_encryption_key = crypto.sha256 (
      trimmed_or cfg.encryption_key (
        trimmed_or cfg.session_secret
          (trimmed_or cfg.jwt_access_secret (trim_space cfg.admin_seed_password))))

  -- `EncryptSecret`; `nonce` is what `rand.Read` gives.
  unfoldable pub encrypt_secret : (nonce : Option Text) (plain : Text) → Option Text
  unfolding secret_encryption_key
  encrypt_secret none plain = none
  encrypt_secret (some nonce) plain =
      some (codes "v1:" ++ crypto.encode (nonce ++ crypto.seal secret_encryption_key nonce plain))

  -- `DecryptSecret` from the decoded bytes on
  unfoldable pub open_raw : Text → Option Text
  unfolding secret_encryption_key
  open_raw raw =
      if ltb (length raw) crypto.nonce_size
      then none
      else crypto.open_sealed secret_encryption_key (take crypto.nonce_size raw)
          (drop crypto.nonce_size raw)

  -- `DecryptSecret`: a value that was not encrypted is answered as it is.
  unfoldable pub decrypt_secret : Text → Option Text
  unfolding open_raw
  decrypt_secret value =
      if has_prefix value (codes "v1:")
      then elim (crypto.decode (drop 3 value)) [ none ↦ none | some raw ↦ open_raw raw ]
      else some value
