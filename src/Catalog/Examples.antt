-- ===== src/Catalog/Examples.antt =====
-- One code for a product, and the theorems at concrete inputs.
use brevyn_cloud.Base.{
  ℕ, ◌++◌, ◌+◌, ◌≡◌, refl, Bool, true, Option, none, some, List, [], ◌∷◌, Text, codes, text_eq,
  is_blank, is_space, trim_space, trim_left, trim_right, to_upper, to_lower, ltb, arith,
}
use brevyn_cloud.Redeem.{Amounts, balance, normalize_code}
use brevyn_cloud.Secrets.{Crypto, encrypt_secret}
use brevyn_cloud.Secrets.RoundTrip.{CryptoValid}
use brevyn_cloud.Catalog.{
  encrypt_generated_codes, generated_codes, Batch, Vault, GenerateRequest, FreshCodes,
  batch_generated, Product, Shop, find_batch, generate_redeem_codes, generate_for, insert_batch,
  insert_codes, insert_code, new_code, new_batch, validate_product_for_generation, validate_benefit,
}
use brevyn_cloud.Catalog.Redeemable.{AllRedeemable, generate-AllRedeemable}
use brevyn_cloud.Catalog.Stored.{VaultValid}
use brevyn_cloud.Catalog.Again.{IsSanitized, generate_idem}

abbrev amounts : Amounts
amounts = record { Amount = ℕ; nothing = 0; plus = λ a b. a + b }

abbrev is_positive : ℕ → Bool
is_positive a = ltb 0 a

abbrev hash : Text → Text
hash code = code

-- A cipher that mixes nothing, with a nonce of two bytes.
abbrev open_bytes : Crypto
open_bytes = record {
  sha256 = λ seed. seed;
  nonce_size = 2;
  seal = λ key nonce plain. plain;
  open_sealed = λ key nonce ciphertext. some ciphertext;
  encode = λ raw. raw;
  decode = λ encoded. some encoded;
}

open_bytes_valid : CryptoValid open_bytes
open_bytes_valid = record { decode_encode = λ raw. refl; open_seal = λ key nonce plain h. refl }

-- JSON for one code
abbrev marshal_one : List Text → Option Text
marshal_one (code ∷ []) = some code
marshal_one _ = none

abbrev vault : Vault
vault = record {
  crypto = open_bytes;
  gateway = some (record {
    encryption_key = codes "key";
    session_secret = [];
    jwt_access_secret = [];
    admin_seed_password = [];
  });
  marshal = marshal_one;
  unmarshal = λ payload. some (payload ∷ []);
}

one_round_trip :
    (values : List Text) (payload : Text)
    → vault.marshal values ≡ some payload
    → vault.unmarshal payload ≡ some values
one_round_trip [] payload h = absurd (ground (arith, h))
one_round_trip (code ∷ []) payload h = ground (arith, h)
one_round_trip (code ∷ (other ∷ values)) payload h = absurd (ground (arith, h))

vault_valid : VaultValid vault
vault_valid = record { crypto = open_bytes_valid; unmarshal_marshal = one_round_trip }

abbrev request : GenerateRequest
request = record {
  product_id = codes "pro";
  count = 1;
  batch_name = codes "quick";
  source = codes "admin";
  order_ref = codes "A1";
  notes = codes "";
  expires_at = some 900;
}

request_sane : IsSanitized request
unfolding trim_space trim_left trim_right is_blank is_space
request_sane = record {
  source_trimmed = refl;
  order_trimmed = refl;
  has_order_ref = refl;
  less_one = 0;
  has_count = refl;
}

abbrev fresh : FreshCodes
fresh = record {
  nonce = some (7 ∷ 8 ∷ []);
  code = λ i. some (codes "BVN-1");
  public_id = λ i. codes "1";
  batch_id = codes "1";
}

abbrev other_fresh : FreshCodes
other_fresh = record {
  nonce = none;
  code = λ i. none;
  public_id = λ i. codes "2";
  batch_id = codes "2";
}

abbrev credit : Product amounts
credit = record {
  db_id = 1;
  id = codes "prod_1";
  sku = codes "pro";
  name = codes "Pro";
  benefit_type = balance;
  value = 20;
  validity_days = 0;
  gateway_group = none;
  external_group_id = 0;
  status = codes "active";
  for_sale = true;
  group_subscription_type = [];
  group_status = [];
}

abbrev shop : Shop amounts
shop = record { products = credit ∷ []; batches = []; next_batch = 1; codes = []; next_code = 1 }

first_batch : find_batch request.source request.order_ref shop.batches ≡ none
unfolding find_batch trim_space trim_left trim_right is_blank is_space
first_batch = refl

generate-AllRedeemable_example :
    AllRedeemable amounts is_positive hash vault fresh 100 request
      (generate_redeem_codes amounts is_positive hash vault fresh 100 request shop)
generate-AllRedeemable_example =
    generate-AllRedeemable amounts is_positive hash vault fresh 100 request shop first_batch

abbrev stored : Batch
stored = record {
  id = 1;
  public_id = codes "rb_1";
  product_id = 1;
  name = codes "quick";
  source = codes "admin";
  order_ref = codes "A1";
  quantity = 1;
  notes = codes "";
  encrypted_codes = codes "v1:" ++ (7 ∷ 8 ∷ codes "BVN-1");
}

abbrev shop_after : Shop amounts
shop_after = (generate_redeem_codes amounts is_positive hash vault fresh 100 request shop).1

generated_once :
    generate_redeem_codes amounts is_positive hash vault fresh 100 request shop
    ≡ (batch_generated stored (generated_codes (codes "BVN-1" ∷ [])), shop_after)
unfolding encrypt_generated_codes encrypt_secret generate_redeem_codes generate_for insert_batch
    insert_codes insert_code new_code new_batch validate_product_for_generation validate_benefit
    find_batch text_eq trim_space trim_left trim_right is_blank is_space to_lower to_upper
    normalize_code
generated_once = refl

generate_idem_example :
    generate_redeem_codes amounts is_positive hash vault other_fresh 200 request shop_after
    ≡ (batch_generated stored (generated_codes (codes "BVN-1" ∷ [])), shop_after)
generate_idem_example =
    generate_idem amounts is_positive hash vault vault_valid request request_sane fresh other_fresh
      refl 100 200 shop shop_after stored (generated_codes (codes "BVN-1" ∷ [])) generated_once
