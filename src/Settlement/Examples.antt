-- ===== src/Settlement/Examples.antt =====
-- A balance code that is redeemed, run again by the worker and by an administrator, and the theorems
-- at concrete inputs.
use brevyn_cloud.Base.{
  ℕ, ◌+◌, ◌≡◌, refl, none, some, List, [], ◌∷◌, Text, codes, text_eq, is_blank, is_space,
  trim_space, trim_left, trim_right, to_upper, update_where,
}
use brevyn_cloud.Errors.{no_info, with_stage}
use brevyn_cloud.Operations.{
  pending, Operation, create_redemption_sync, insert, append_row, new_row, mark_succeeded, succeed,
}
use brevyn_cloud.Redeem.{
  Amounts, balance, unused, pending_gateway, synced, RedeemCode, Redemption, Database,
  PendingRedemption, accepted, normalize_code, credit, gateway_operation_for, group_or_default,
  new_redemption, balance_after, commit_redemption, record_redemption, redeem_row,
  mark_redeemed_locally, wallet_balance,
}
use brevyn_cloud.Subscription.{
  Client, ok, sync_target, sync_account, finish_sync, normalized_operation, check_target, sync_kind,
}
use brevyn_cloud.Limits.{Redis, limit_with, redeem_rules}
use brevyn_cloud.Settlement.{
  Services, Request, RedeemResult, redeemed, redeem, SyncState, RedeemResponse, redeem_limited,
  redeem_marked, sync_and_settle, sync_redemption_to_gateway, sync_answered, target_of,
  start_result, note_answer, record_synced, note_key, settle, update_redemption_status, set_status,
}
use brevyn_cloud.Settlement.Requests.{IsSettled, redeem_settles}
use brevyn_cloud.Settlement.Once.{redeemed_stays}
use brevyn_cloud.Settlement.Worker.{
  GatewayUser, WorkerServices, SyncDone, sync_loaded, finish_target, with_account, finish_key,
  load_sync_target, target_of_row, with_operation, sync_redemption_operation, RetryState,
  retry_redemption_sync,
}
use brevyn_cloud.Settlement.Worker.Synced.{IsSynced, Reruns, done, worker, manual}
use brevyn_cloud.Settlement.Worker.Retry.{IsRetried, retry_settles}
use brevyn_cloud.Settlement.Worker.Runs.{run_syncs}

abbrev amounts : Amounts
amounts = record { Amount = ℕ; nothing = 0; plus = λ a b. a + b }

-- A gateway that keeps one balance.
abbrev client : Client amounts
client = record {
  Remote = ℕ;
  list = λ user group remote. ok [];
  extend = λ id days key remote. (none, remote);
  assign = λ user group days notes key remote. (none, remote);
  add_balance = λ user value notes key remote. (none, remote + value);
}

abbrev services : Services client
services = record {
  settings = none;
  ensure_account = λ user group remote. (ok 5, remote);
  ensure_key = λ user account group remote. (ok (codes "sk"), remote);
}

abbrev worker_services : WorkerServices client
worker_services = record {
  services = services;
  first_settings = none;
  ensure_known_account = λ user group remote. (ok 5, remote);
  ensure_operation_key = λ user account group operation remote. (none, remote);
  store_error = none;
}

abbrev no_redis : Redis
no_redis = record {
  Store = Unit;
  incr = λ key s. (none, s);
  expire = λ key window s. (none, s);
  ttl = λ key s. none;
  get = λ key s. none;
  del = λ key s. s;
}

abbrev hash : Text → Text
hash code = code

abbrev balance_code : RedeemCode amounts
balance_code = record {
  id = 1;
  public_id = codes "rc_1";
  code_hash = codes "AB";
  kind = balance;
  value = 20;
  status = unused;
  expires_at = some 900;
  product_id = none;
  product_name = codes "";
  batch_id = none;
  external_group_id = 3;
  validity_days = 0;
  used_by_user_id = none;
  used_at = none;
  updated_at = 10;
}

abbrev before : Database amounts
before = record {
  codes = balance_code ∷ [];
  redemptions = [];
  next_redemption = 1;
  wallet = [];
  queue = record { rows = []; next_id = 1 };
}

abbrev request : Request amounts client services
request = record {
  user = 7;
  default_group = 0;
  fresh = record {
    redemption = codes "1";
    transaction = codes "1";
    operation = codes "1";
    payload = codes "{}";
  };
  clock = 100;
  now = 100;
  settings_again = none;
  store_error = none;
  payload = codes "{}";
}

redeem_settles_example :
    IsSettled amounts client services hash request
      (normalize_code (codes " ab"))
      before
      0
      (redeem amounts client services no_redis hash request
        (codes "10.0.0.1")
        (codes " ab")
        none
        before
        0).0
redeem_settles_example =
    redeem_settles amounts client services no_redis hash request (codes "10.0.0.1") (codes " ab")
      none before 0

abbrev users : List GatewayUser
users = record { id = 7; public_id = codes "usr_7"; status = codes "active" } ∷ []

-- The redemption as it is recorded, before the gateway is called.
abbrev recorded : Redemption amounts
recorded = record {
  id = 1;
  public_id = codes "rr_1";
  redeem_code_id = 1;
  user_id = 7;
  product_id = none;
  batch_id = none;
  kind = balance;
  value = 20;
  validity_days = 0;
  external_group_id = 3;
  gateway_operation = codes "add_balance";
  external_user_id = 0;
  status = pending_gateway;
  error = no_info;
  idempotency_key = codes "redeem:rr_1";
  created_at = 100;
}

abbrev retry_state : RetryState client
retry_state = record {
  redemptions = recorded ∷ [];
  queue = record { rows = []; next_id = 1 };
  remote = 0;
}

retry_settles_example :
    IsRetried amounts client worker_services 100 100 0 users
      (codes "gop_2")
      (codes "{}")
      (codes "rr_1")
      retry_state
      (retry_redemption_sync amounts client worker_services 100 100 0 users
        (codes "gop_2")
        (codes "{}")
        (codes "rr_1")
        retry_state)
retry_settles_example =
    retry_settles amounts client worker_services 100 100 0 users (codes "gop_2") (codes "{}")
      (codes "rr_1") retry_state

abbrev sync_state : SyncState client
sync_state = record { redemptions = recorded ∷ []; remote = 0 }

abbrev queued : Operation
queued =
    new_row 1
      (record {
        public_id = codes "gop_1";
        operation = codes "sync_redemption";
        target_type = codes "redeem_redemption";
        target_id = codes "rr_1";
        redemption_id = some 1;
        user_id = some 7;
        idempotency_key = codes "k";
        status = pending;
        payload = codes "{}";
        next_run_at = 0;
        completed_at = none;
        last_error = no_info;
      })
      100

abbrev run_done : SyncDone
run_done = record {
  redemption_id = codes "rr_1";
  external_user_id = 5;
  external_group_id = 3;
  operation = codes "add_balance";
}

abbrev synced_row : Redemption amounts
synced_row = record recorded { status = synced; external_user_id = 5 }

run_succeeds :
    sync_redemption_operation amounts client worker_services 100 0 users queued sync_state
    ≡ (ok run_done, record { redemptions = synced_row ∷ []; remote = 20 })
unfolding sync_redemption_operation sync_loaded finish_target with_account finish_key
    load_sync_target target_of_row with_operation sync_target sync_account finish_sync
    normalized_operation check_target sync_kind update_redemption_status set_status update_where
    with_stage text_eq is_blank is_space trim_space trim_left trim_right group_or_default new_row
run_succeeds = refl

run_syncs_example : IsSynced amounts (codes "rr_1") (synced_row ∷ [])
unfolding new_row
run_syncs_example =
    run_syncs amounts client worker_services 100 0 users (codes "rr_1") queued sync_state
      (record { redemptions = synced_row ∷ []; remote = 20 }) run_done refl run_succeeds

abbrev pending_redemption : PendingRedemption amounts
pending_redemption = record {
  redemption_db_id = 1;
  redemption_public = codes "rr_1";
  operation_public = codes "gop_1";
  code_db_id = 1;
  code_public_id = codes "rc_1";
  product_db_id = none;
  product_name = codes "";
  batch_db_id = none;
  kind = balance;
  value = 20;
  validity_days = 0;
  external_group_id = 3;
  gateway_operation = codes "add_balance";
  balance_after = 20;
  created_at = 100;
}

request_marked :
    (mark_redeemed_locally amounts 7 0 request.fresh 100 100 hash
      (normalize_code (codes " ab"))
      before).0
    ≡ accepted pending_redemption
unfolding mark_redeemed_locally redeem_row record_redemption commit_redemption gateway_operation_for
    group_or_default new_redemption balance_after wallet_balance create_redemption_sync insert
    append_row normalize_code text_eq is_blank is_space trim_space trim_left trim_right to_upper
request_marked = refl

abbrev result : RedeemResult amounts
result = record {
  redemption = record {
    id = codes "rr_1";
    code_id = codes "rc_1";
    product_name = codes "";
    kind = balance;
    value = 20;
    validity_days = 0;
    external_user_id = 5;
    external_group_id = 3;
    gateway_operation = codes "add_balance";
    status = synced;
    error = no_info;
    created_at = 100;
  };
  wallet = 20;
  account = some 5;
  plain_api_key = some (codes "sk");
}

abbrev answer : RedeemResponse amounts × Database amounts × ℕ
answer =
    (redeem amounts client services no_redis hash request (codes "10.0.0.1") (codes " ab") none
      before 0).0

request_redeemed : answer ≡ (redeemed result, answer.1, answer.2)
unfolding mark_redeemed_locally redeem_row record_redemption commit_redemption gateway_operation_for
    group_or_default new_redemption balance_after wallet_balance create_redemption_sync insert
    append_row normalize_code text_eq is_blank is_space trim_space trim_left trim_right to_upper
    redeem limit_with redeem_limited redeem_marked sync_and_settle sync_redemption_to_gateway
    sync_answered target_of start_result note_answer record_synced note_key settle sync_target
    sync_account finish_sync normalized_operation check_target sync_kind update_redemption_status
    set_status update_where with_stage mark_succeeded succeed redeem_rules credit
request_redeemed = refl

abbrev final_state : RetryState client
final_state = record {
  redemptions = answer.1.redemptions;
  queue = answer.1.queue;
  remote = answer.2;
}

abbrev rerun_state : RetryState client
rerun_state =
    (retry_redemption_sync amounts client worker_services 300 300 0 users (codes "gop_3")
      (codes "{}") (codes " rr_1")
      (record {
        redemptions =
            (sync_redemption_operation amounts client worker_services 200 0 users queued
              (record { redemptions = answer.1.redemptions; remote = answer.2 })).1.redemptions;
        queue = answer.1.queue;
        remote =
            (sync_redemption_operation amounts client worker_services 200 0 users queued
              (record { redemptions = answer.1.redemptions; remote = answer.2 })).1.remote;
      })).1

-- The worker runs it, and then an administrator.
two_reruns : Reruns amounts client worker_services 0 users (codes "rr_1") final_state rerun_state
unfolding new_row trim_space trim_left trim_right is_space
two_reruns =
    manual 300 300 none none (codes "gop_3") (codes "{}") (codes " rr_1") refl
      (worker 200 none none queued answer.1.queue refl done)

one_credit : answer.2 ≡ 20
unfolding mark_redeemed_locally redeem_row record_redemption commit_redemption gateway_operation_for
    group_or_default new_redemption balance_after wallet_balance create_redemption_sync insert
    append_row normalize_code text_eq is_blank is_space trim_space trim_left trim_right to_upper
    redeem limit_with redeem_limited redeem_marked sync_and_settle sync_redemption_to_gateway
    sync_answered target_of start_result note_answer record_synced note_key settle sync_target
    sync_account finish_sync normalized_operation check_target sync_kind update_redemption_status
    set_status update_where with_stage mark_succeeded succeed redeem_rules credit
one_credit = refl

redeemed_stays_example :
    IsSynced amounts (codes "rr_1") rerun_state.redemptions × (rerun_state.remote ≡ 20)
redeemed_stays_example =
    redeemed_stays amounts client worker_services no_redis hash request (codes "10.0.0.1")
      (codes " ab") none before answer.1 0 answer.2 result pending_redemption users rerun_state
      (λ balance. balance ≡ 20) request_redeemed request_marked two_reruns (λ user group x h. h)
      (λ user account group operation x h. h) one_credit
