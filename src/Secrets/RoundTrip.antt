-- ===== src/Secrets/RoundTrip.antt =====
-- What was encrypted is decrypted again, and is marked.
use brevyn_cloud.Base.{
  ℕ, zero, suc, ◌≡◌, refl, ap, subst, false, some, [], ◌∷◌, Text, codes, arith, inl, inr,
  Bool-cases, trim_space, trim_left, trim_right, is_blank, is_space, has_prefix, ltb, length,
  length-append, take, drop, ◌++◌,
}
use brevyn_cloud.Secrets.{
  Crypto, SecretConfig, secret_encryption_key, encrypt_secret, open_raw, decrypt_secret,
}

-- What the documentation says of the packages: base64 decodes what it has encoded, and GCM opens
-- what it has sealed under the same key and nonce, which has its size.
pub record CryptoValid (crypto : Crypto) : Type 0 where
  pub decode_encode : (raw : Text) → crypto.decode (crypto.encode raw) ≡ some raw
  pub open_seal :
      (key nonce plain : Text)
      → length nonce ≡ crypto.nonce_size
      → crypto.open_sealed key nonce (crypto.seal key nonce plain) ≡ some plain

take-append : (n : ℕ) (xs ys : Text) → length xs ≡ n → take n (xs ++ ys) ≡ xs
take-append zero [] ys h = refl
take-append zero (x ∷ xs) ys h = absurd (omega (arith, h))
take-append (suc n) [] ys h = absurd (omega (arith, h))
take-append (suc n) (x ∷ xs) ys h = ap (λ t. x ∷ t) (take-append n xs ys (omega (arith, h)))

drop-append : (n : ℕ) (xs ys : Text) → length xs ≡ n → drop n (xs ++ ys) ≡ ys
drop-append zero [] ys h = refl
drop-append zero (x ∷ xs) ys h = absurd (omega (arith, h))
drop-append (suc n) [] ys h = absurd (omega (arith, h))
drop-append (suc n) (x ∷ xs) ys h = drop-append n xs ys (omega (arith, h))

-- A text that starts with the version is not blank when it is trimmed.
marked_not_blank : (rest : Text) → is_blank (trim_space (codes "v1:" ++ rest)) ≡ false
unfolding trim_space trim_left trim_right is_blank is_space
marked_not_blank rest = elim (Bool-cases (is_blank (trim_right (codes "1:" ++ rest)))) [
  | inl e ↦ rw e refl
  | inr e ↦ rw e refl
]

pub encrypt_secret_not_blank :
    (crypto : Crypto) (cfg : SecretConfig) (nonce plain secret : Text)
    → encrypt_secret crypto cfg (some nonce) plain ≡ some secret
    → is_blank (trim_space secret) ≡ false
unfolding encrypt_secret
encrypt_secret_not_blank crypto cfg nonce plain secret h =
    let raw = nonce ++ crypto.seal (secret_encryption_key crypto cfg) nonce plain in
    let same : codes "v1:" ++ crypto.encode raw ≡ secret = ground (arith, h) in
    subst (λ t. is_blank (trim_space t) ≡ false) same (marked_not_blank (crypto.encode raw))

module _ (crypto : Crypto) (valid : CryptoValid crypto) (cfg : SecretConfig) (nonce plain : Text)
    (sized : length nonce ≡ crypto.nonce_size) where
  open_raw-seal :
      let key = secret_encryption_key crypto cfg in
      open_raw crypto cfg (nonce ++ crypto.seal key nonce plain) ≡ some plain
  unfolding open_raw
  open_raw-seal =
      let key = secret_encryption_key crypto cfg in
      let sealed = crypto.seal key nonce plain in
      let long : ltb (length (nonce ++ sealed)) crypto.nonce_size ≡ false =
        ground (arith, sized, length-append nonce sealed) in
      rw
        (
          long,
          open_raw,
          take-append crypto.nonce_size nonce sealed sized,
          drop-append crypto.nonce_size nonce sealed sized,
        )
        (valid.open_seal key nonce plain sized)

  -- What `EncryptSecret` answers, `DecryptSecret` takes back.
  pub decrypt-encrypt_secret :
      (secret : Text)
      → encrypt_secret crypto cfg (some nonce) plain ≡ some secret
      → decrypt_secret crypto cfg secret ≡ some plain
  unfolding encrypt_secret decrypt_secret has_prefix
  decrypt-encrypt_secret secret h =
      let key = secret_encryption_key crypto cfg in
      let raw = nonce ++ crypto.seal key nonce plain in
      let same : codes "v1:" ++ crypto.encode raw ≡ secret = ground (arith, h) in
      subst (λ t. decrypt_secret crypto cfg t ≡ some plain) same
        (rw (valid.decode_encode raw) open_raw-seal)
