-- ===== src/Catalog.antt =====
-- internal/admin/catalog_handler.go and catalog_service.go: the generation of redeem codes for a
-- product, in one transaction, and the expiry of the codes. Amounts are those of Redeem.
pub mod Redeemable
pub mod Stored
pub mod Again
mod Examples
use brevyn_cloud.Base.{
  ℕ, zero, suc, ◌+◌, ◌*◌, Bool, true, false, ◌&&◌, ◌||◌, not, Option, none, some, List, [], ◌∷◌,
  ◌++◌, Text, codes, text_eq, is_blank, trim_space, to_lower, leb, ltb, ◌==◌, if◌then◌else◌, find,
  is_none, ◌>>=◌,
}
use brevyn_cloud.Operations.{hour}
use brevyn_cloud.Secrets.{Crypto, SecretConfig, encrypt_secret, decrypt_secret}
use brevyn_cloud.Redeem.{
  Amounts, Kind, balance, subscription, unsupported, unused, RedeemCode, normalize_code,
}

-- The errors of `validateProductForGeneration`
pub data ValidationError : Type 0 where
  product_not_active product_not_for_sale product_gateway_group_not_active : ValidationError
  balance_product_value_required balance_product_requires_standard_group : ValidationError
  subscription_product_requires_gateway_group : ValidationError
  subscription_product_requires_subscription_group : ValidationError
  subscription_product_validity_days_required unsupported_benefit_type : ValidationError

-- The errors of `resolveCodeExpiry`
pub data ExpiryError : Type 0 where
  expiry_conflict expires_in_days_invalid expires_at_must_be_future : ExpiryError

pub data Expiry : Type 0 where
  expires : Option ℕ → Expiry
  bad_expiry : ExpiryError → Expiry

-- `resolveCodeExpiry`; `AddDate` adds days of 24 hours, since the clock is in UTC.
pub resolve_code_expiry : (clock : ℕ) (expires_at expires_in_days : Option ℕ) → Expiry
resolve_code_expiry clock (some t) (some days) = bad_expiry expiry_conflict
resolve_code_expiry clock none (some days) =
    if days == 0
    then bad_expiry expires_in_days_invalid
    else expires (some (clock + days * (24 * hour)))
resolve_code_expiry clock none none = expires none
resolve_code_expiry clock (some t) none =
    if not (ltb clock t) then bad_expiry expires_at_must_be_future else expires (some t)

-- `codePrefix`; the codes that are generated are in ASCII.
abbrev pub first_runes : ℕ → Text → Text
first_runes zero s = []
first_runes (suc n) [] = []
first_runes (suc n) (c ∷ s) = c ∷ first_runes n s

pub code_prefix : Text → Text
code_prefix code = first_runes 12 (normalize_code code)

-- `maskCode`
pub mask_code : Text → Text
mask_code prefix = if is_blank prefix then codes "****" else prefix ++ codes "-****"

-- `generatedRedeemCode`
pub record GeneratedCode : Type 0 where
  pub code : Text
  pub masked_code : Text
  pub code_prefix : Text

pub generated_code : Text → GeneratedCode
unfolding code_prefix mask_code
generated_code code = record {
  code = code;
  masked_code = mask_code (code_prefix code);
  code_prefix = code_prefix code;
}

abbrev pub generated_codes : List Text → List GeneratedCode
generated_codes [] = []
generated_codes (code ∷ values) = generated_code code ∷ generated_codes values

-- `redeem_code_batches`, with the newest batch first
pub record Batch : Type 0 where
  pub id : ℕ
  pub public_id : Text
  pub product_id : ℕ
  pub name : Text
  pub source : Text
  pub order_ref : Text
  pub quantity : ℕ
  pub notes : Text
  pub encrypted_codes : Text

-- What the service uses to store codes: the gateway settings, if they are there, with the
-- libraries they encrypt with, and `encoding/json`, of which `none` is an error.
pub record Vault : Type 0 where
  pub crypto : Crypto
  pub gateway : Option SecretConfig
  pub marshal : List Text → Option Text
  pub unmarshal : Text → Option (List Text)

-- `generateRedeemCodesRequest`, as far as the service reads it, with the resolved expiry
pub record GenerateRequest : Type 0 where
  pub product_id : Text
  pub count : ℕ
  pub batch_name : Text
  pub source : Text
  pub order_ref : Text
  pub notes : Text
  pub expires_at : Option ℕ

-- What is random: the codes and the nonce of the encryption, of which `none` is an error, and the
-- public ids.
pub record FreshCodes : Type 0 where
  pub nonce : Option Text
  pub code : ℕ → Option Text
  pub public_id : ℕ → Text
  pub batch_id : Text

-- What `GenerateRedeemCodes` answers: a batch with its codes, or an error.
pub data Generated : Type 0 where
  batch_generated : Batch → List GeneratedCode → Generated
  duplicate_order_ref : Batch → Generated
  product_not_found generation_failed : Generated
  invalid_product : ValidationError → Generated

module _ (amounts : Amounts) where
  -- `generationProduct`; the group is that of `gateway_groups`, if there is one.
  pub record Product : Type 0 where
    pub db_id : ℕ
    pub id : Text
    pub sku : Text
    pub name : Text
    pub benefit_type : Kind
    pub value : amounts.Amount
    pub validity_days : ℕ
    pub gateway_group : Option ℕ
    pub external_group_id : ℕ
    pub status : Text
    pub for_sale : Bool
    pub group_subscription_type : Text
    pub group_status : Text

  pub record Shop : Type 0 where
    pub products : List Product
    pub batches : List Batch
    pub next_batch : ℕ
    pub codes : List (RedeemCode amounts)
    pub next_code : ℕ

module _ (amounts : Amounts) (is_positive : amounts.Amount → Bool) where
  -- The `switch` of `validateProductForGeneration`
  pub validate_benefit : Kind → Product amounts → Option ValidationError
  validate_benefit balance p =
      if not (is_positive p.value)
      then some balance_product_value_required
      else if not (is_none p.gateway_group)
          && text_eq p.group_subscription_type (codes "subscription")
      then some balance_product_requires_standard_group
      else none
  validate_benefit subscription p =
      if is_none p.gateway_group || p.external_group_id == 0
      then some subscription_product_requires_gateway_group
      else if not (text_eq p.group_subscription_type (codes "subscription"))
      then some subscription_product_requires_subscription_group
      else if p.validity_days == 0
      then some subscription_product_validity_days_required
      else none
  validate_benefit (unsupported kind) p = some unsupported_benefit_type

  -- `validateProductForGeneration`
  pub validate_product_for_generation : Product amounts → Option ValidationError
  unfolding validate_benefit
  validate_product_for_generation p =
      if not (text_eq p.status (codes "active"))
      then some product_not_active
      else if not p.for_sale
      then some product_not_for_sale
      else if not (is_none p.gateway_group) && not (text_eq p.group_status (codes "active"))
      then some product_gateway_group_not_active
      else validate_benefit p.benefit_type p

module _ (amounts : Amounts) (hash : Text → Text) (fresh : FreshCodes) (now : ℕ) where
  -- The row of a code, as the statement inserts it.
  pub new_code :
      (id index : ℕ)
      → Product amounts
      → (batch : ℕ) → GenerateRequest
      → (code : Text) → RedeemCode amounts
  new_code id index p batch req code = record {
    id = id;
    public_id = codes "rc_" ++ fresh.public_id index;
    code_hash = hash (normalize_code code);
    kind = p.benefit_type;
    value = p.value;
    status = unused;
    expires_at = req.expires_at;
    product_id = some p.db_id;
    product_name = p.name;
    batch_id = some batch;
    external_group_id = p.external_group_id;
    validity_days = p.validity_days;
    used_by_user_id = none;
    used_at = none;
    updated_at = now;
  }

  -- The unique columns of the new row are taken.
  abbrev pub is_same_code : RedeemCode amounts → RedeemCode amounts → Bool
  is_same_code new c = text_eq c.code_hash new.code_hash || text_eq c.public_id new.public_id

  -- The insert of a row; `none` is a violation of uniqueness.
  pub insert_code :
      RedeemCode amounts → List (RedeemCode amounts) → Option (List (RedeemCode amounts))
  insert_code new table = elim (find (is_same_code new) table) [
    | some taken ↦ none
    | none ↦ some (table ++ (new ∷ []))
  ]

  -- The loop of `GenerateRedeemCodes`, with the number of codes that are left; it answers the codes
  -- and the table.
  pub insert_codes :
      (left index : ℕ)
      → Product amounts
      → (batch next : ℕ) → GenerateRequest
      → List (RedeemCode amounts)
      → Option (List Text × List (RedeemCode amounts))
  unfolding insert_code new_code
  insert_codes zero index p batch next req table = some ([], table)
  insert_codes (suc left) index p batch next req table = do
    code ← fresh.code index
    table' ← insert_code (new_code (next + index) index p batch req code) table
    done ← insert_codes left (suc index) p batch next req table'
    some (code ∷ done.0, done.1)

-- The batch has this source and this order reference.
abbrev pub has_order : (source order_ref : Text) → Batch → Bool
has_order source order_ref b =
    text_eq (to_lower b.source) (to_lower source)
    && text_eq (to_lower b.order_ref) (to_lower order_ref)
    && not (is_blank b.order_ref)

-- `findRedeemBatchByOrderRef`
pub find_batch : (source order_ref : Text) → List Batch → Option Batch
find_batch source order_ref batches =
    if is_blank (trim_space order_ref)
    then none
    else find (has_order (trim_space source) (trim_space order_ref)) batches

-- The unique columns of the batch are taken.
abbrev pub is_batch_taken : Batch → Batch → Bool
is_batch_taken new b = has_order new.source new.order_ref b || text_eq b.public_id new.public_id

module _ (amounts : Amounts) (is_positive : amounts.Amount → Bool) (hash : Text → Text)
    (vault : Vault) (fresh : FreshCodes) (now : ℕ) where
  -- `encryptGeneratedCodes`
  unfoldable pub encrypt_generated_codes : List Text → Option Text
  encrypt_generated_codes values = elim vault.gateway [
    | none ↦ none
    | some cfg ↦ do
      payload ← vault.marshal values
      encrypt_secret vault.crypto cfg fresh.nonce payload
  ]

  -- `decryptGeneratedCodes`
  unfoldable pub decrypt_generated_codes : Text → Option (List Text)
  decrypt_generated_codes encrypted =
      if is_blank (trim_space encrypted) then none else elim vault.gateway [
        | none ↦ none
        | some cfg ↦ do plain ← decrypt_secret vault.crypto cfg encrypted; vault.unmarshal plain
      ]

  -- The codes of a batch that has them stored, or the duplicate.
  pub stored_batch : Batch → Generated
  stored_batch b =
      if is_blank (trim_space b.encrypted_codes)
      then duplicate_order_ref b
      else elim (decrypt_generated_codes b.encrypted_codes) [
        | none ↦ duplicate_order_ref b
        | some [] ↦ duplicate_order_ref b
        | some (code ∷ values) ↦ batch_generated b (generated_codes (code ∷ values))
      ]

  pub new_batch : Product amounts → (id : ℕ) → GenerateRequest → (encrypted_codes : Text) → Batch
  new_batch p id req encrypted_codes = record {
    id = id;
    public_id = codes "rb_" ++ fresh.batch_id;
    product_id = p.db_id;
    name = req.batch_name;
    source = req.source;
    order_ref = req.order_ref;
    quantity = req.count;
    notes = req.notes;
    encrypted_codes = encrypted_codes;
  }

  -- `GenerateRedeemCodes` from the valid product on; `none` is an error, which rolls back.
  pub insert_batch :
      Product amounts → GenerateRequest → Shop amounts → Option (Generated × Shop amounts)
  unfolding insert_codes new_batch encrypt_generated_codes
  insert_batch p req shop =
      elim (find (is_batch_taken (new_batch p shop.next_batch req [])) shop.batches) [
        | some taken ↦ none
        | none ↦ do
          done ←
              insert_codes amounts hash fresh now req.count 0 p shop.next_batch shop.next_code req
                shop.codes
          encrypted ← encrypt_generated_codes done.0
          some (
            batch_generated (new_batch p shop.next_batch req encrypted) (generated_codes done.0),
            record shop {
              batches = new_batch p shop.next_batch req encrypted ∷ shop.batches;
              next_batch = suc shop.next_batch;
              codes = done.1;
              next_code = shop.next_code + req.count;
            },
          )
      ]

  -- … from the product on
  pub generate_for : Product amounts → GenerateRequest → Shop amounts → Generated × Shop amounts
  unfolding insert_batch validate_product_for_generation
  generate_for p req shop = elim (validate_product_for_generation amounts is_positive p) [
    | some e ↦ (invalid_product e, shop)
    | none ↦ elim (insert_batch p req shop) [ none ↦ (generation_failed, shop) | some done ↦ done ]
  ]

  -- The row of `loadProductForGeneration`
  abbrev pub is_product : Text → Product amounts → Bool
  is_product id p = text_eq p.id id || text_eq p.sku id

  -- `GenerateRedeemCodes`; the lock of the order reference makes it one statement for it.
  pub generate_redeem_codes : GenerateRequest → Shop amounts → Generated × Shop amounts
  unfolding stored_batch generate_for
  generate_redeem_codes req shop = elim (find_batch req.source req.order_ref shop.batches) [
    | some b ↦ (stored_batch b, shop)
    | none ↦ elim (find (is_product req.product_id) shop.products) [
      | none ↦ (product_not_found, shop)
      | some p ↦ generate_for p req shop
    ]
  ]
