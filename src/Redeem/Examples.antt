-- ===== src/Redeem/Examples.antt =====
-- Redemptions of one code, and the theorems at concrete inputs.
use brevyn_cloud.Base.{
  ℕ, ◌+◌, ◌≡◌, refl, none, some, [], ◌∷◌, Text, codes, text_eq, is_blank, is_space, trim_space,
  trim_left, trim_right, to_upper,
}
use brevyn_cloud.Operations.{create_redemption_sync, insert, append_row}
use brevyn_cloud.Redeem.{
  Amounts, balance, unused, RedeemCode, Database, PendingRedemption, code_used, code_not_found,
  Redeemed, refused, accepted, normalize_code, FreshIds, gateway_operation_for, group_or_default,
  new_redemption, balance_after, commit_redemption, record_redemption, redeem_row,
  mark_redeemed_locally, wallet_balance, disable_code,
}
use brevyn_cloud.Redeem.Steps.{IsRedeemed, mark-IsRedeemed}
use brevyn_cloud.Redeem.Once.{still, also, disable_one, redeems_once}

abbrev amounts : Amounts
amounts = record { Amount = ℕ; nothing = 0; plus = λ a b. a + b }

abbrev hash : Text → Text
hash code = code

abbrev balance_code : RedeemCode amounts
balance_code = record {
  id = 1;
  public_id = codes "rc_1";
  code_hash = codes "AB";
  kind = balance;
  value = 20;
  status = unused;
  expires_at = some 900;
  product_id = none;
  product_name = codes "";
  batch_id = none;
  external_group_id = 3;
  validity_days = 0;
  used_by_user_id = none;
  used_at = none;
  updated_at = 10;
}

abbrev before : Database amounts
before = record {
  codes = balance_code ∷ [];
  redemptions = [];
  next_redemption = 1;
  wallet = [];
  queue = record { rows = []; next_id = 1 };
}

abbrev ids : FreshIds
ids = record {
  redemption = codes "1";
  transaction = codes "1";
  operation = codes "1";
  payload = codes "{}";
}

abbrev attempt : Redeemed (PendingRedemption amounts) × Database amounts
attempt = mark_redeemed_locally amounts 7 0 ids 100 100 hash (codes " ab") before

abbrev pending : PendingRedemption amounts
pending = record {
  redemption_db_id = 1;
  redemption_public = codes "rr_1";
  operation_public = codes "gop_1";
  code_db_id = 1;
  code_public_id = codes "rc_1";
  product_db_id = none;
  product_name = codes "";
  batch_db_id = none;
  kind = balance;
  value = 20;
  validity_days = 0;
  external_group_id = 3;
  gateway_operation = codes "add_balance";
  balance_after = 20;
  created_at = 100;
}

attempt_accepted : attempt.0 ≡ accepted pending
unfolding mark_redeemed_locally redeem_row record_redemption commit_redemption gateway_operation_for
    group_or_default new_redemption balance_after wallet_balance create_redemption_sync insert
    append_row normalize_code text_eq is_blank is_space trim_space trim_left trim_right to_upper
attempt_accepted = refl

mark-IsRedeemed_example :
    IsRedeemed amounts 7 100 (hash (normalize_code (codes " ab"))) before pending attempt.1
mark-IsRedeemed_example =
    mark-IsRedeemed amounts 7 0 ids 100 100 hash (codes " ab") before pending attempt_accepted

unknown_refused :
    (mark_redeemed_locally amounts 7 0 ids 100 100 hash (codes "zz") before).0
    ≡ refused code_not_found
unfolding mark_redeemed_locally normalize_code text_eq is_blank is_space trim_space trim_left
    trim_right to_upper
unknown_refused = refl

redeems_once_example :
    mark_redeemed_locally amounts 8 0 ids 200 200 hash
      (codes " ab")
      (disable_code amounts 150 (codes "rc_1") attempt.1)
    ≡ (refused code_used, disable_code amounts 150 (codes "rc_1") attempt.1)
redeems_once_example =
    redeems_once amounts hash 7 0 ids 100 100 8 0 ids 200 200 (codes " ab") before
      (disable_code amounts 150 (codes "rc_1") attempt.1) pending attempt_accepted
      (also still (disable_one (codes "rc_1") 150))
