-- ===== src/Catalog/Stored.antt =====
-- The codes that a batch stores are read back.
use brevyn_cloud.Base.{
  ℕ, ◌≡◌, subst, Bool, false, Option, none, some, List, Text, arith, length, inl, inr, Option-cases,
  is_blank, trim_space,
}
use brevyn_cloud.Secrets.{SecretConfig, encrypt_secret}
use brevyn_cloud.Secrets.RoundTrip.{CryptoValid, encrypt_secret_not_blank, decrypt-encrypt_secret}
use brevyn_cloud.Redeem.{Amounts}
use brevyn_cloud.Catalog.{Vault, FreshCodes, encrypt_generated_codes, decrypt_generated_codes}

-- What the documentation says of the libraries: those of the encryption, and that JSON gives a list
-- of texts back.
pub record VaultValid (vault : Vault) : Type 0 where
  pub crypto : CryptoValid vault.crypto
  pub unmarshal_marshal :
      (values : List Text) (payload : Text)
      → vault.marshal values ≡ some payload
      → vault.unmarshal payload ≡ some values

-- The nonce, if there is one, has the size that is asked of `rand.Read`.
abbrev pub HasSize : ℕ → Option Text → Type 0
HasSize n none = Unit
HasSize n (some nonce) = length nonce ≡ n

module _ (amounts : Amounts) (is_positive : amounts.Amount → Bool) (hash : Text → Text)
    (vault : Vault) (valid : VaultValid vault) (fresh fresh' : FreshCodes)
    (sized : HasSize vault.crypto.nonce_size fresh.nonce) (now now' : ℕ) where
  -- The codes with which a generation answers are read back from what it stores.
  abbrev pub Encrypted : List Text → Text → Type 0
  Encrypted values secret =
      encrypt_generated_codes amounts is_positive hash vault fresh now values ≡ some secret

  sealed_with :
      (values : List Text) (secret : Text)
      → Encrypted values secret
      → (cfg : SecretConfig) × (payload : Text) × (nonce : Text) × (vault.gateway ≡ some cfg)
        × (vault.marshal values ≡ some payload)
        × (fresh.nonce ≡ some nonce)
        × (encrypt_secret vault.crypto cfg (some nonce) payload ≡ some secret)
  unfolding encrypt_generated_codes encrypt_secret
  sealed_with values secret h = elim (Option-cases vault.gateway) [
    | inl e ↦ absurd (ground (arith, rw (e, encrypt_generated_codes) at h))
    | inr (cfg, e) ↦ elim (Option-cases (vault.marshal values)) [
      | inl e' ↦ absurd (ground (arith, rw (e, e', encrypt_generated_codes) at h))
      | inr (payload, e') ↦ elim (Option-cases fresh.nonce) [
        | inl e'' ↦ absurd (ground (arith, rw (e, e', e'', encrypt_generated_codes) at h))
        | inr (nonce, e'') ↦
            (cfg, payload, nonce, e, e', e'', rw (e, e', e'', encrypt_generated_codes) at h)
      ]
    ]
  ]

  pub stored_not_blank :
      (values : List Text) (secret : Text)
      → Encrypted values secret
      → is_blank (trim_space secret) ≡ false
  unfolding encrypt_secret
  stored_not_blank values secret h =
      let (cfg, payload, nonce, e, e', e'', sealed) = sealed_with values secret h in
      encrypt_secret_not_blank vault.crypto cfg nonce payload secret sealed

  pub decrypt-encrypt_generated_codes :
      (values : List Text) (secret : Text)
      → Encrypted values secret
      → decrypt_generated_codes amounts is_positive hash vault fresh' now' secret ≡ some values
  unfolding decrypt_generated_codes
  decrypt-encrypt_generated_codes values secret h =
      let (cfg, payload, nonce, e, e', e'', sealed) = sealed_with values secret h in
      let size : length nonce ≡ vault.crypto.nonce_size =
        subst (HasSize vault.crypto.nonce_size) e'' sized in
      rw
        (
          stored_not_blank values secret h,
          e,
          decrypt_generated_codes,
          decrypt-encrypt_secret vault.crypto valid.crypto cfg nonce payload size secret sealed,
        )
        (valid.unmarshal_marshal values payload e')
