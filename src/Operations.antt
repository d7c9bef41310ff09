-- ===== src/Operations.antt =====
-- internal/gateway/operations: the queue of gateway operations in Postgres, and what the statements
-- of the program do to it. A statement is atomic, and `now` is its `now()`. The model of a row has
-- the columns of `gateway_operations` except `provider` ('sub2api' in every row) and `created_at`;
-- the six `last_error_*` columns are one `Info`. The proofs are in the modules below.
pub mod Runner
pub mod Admin
pub mod Options
pub mod Store
pub mod Ids
pub mod Claims
pub mod Recovery
pub mod Attempts
pub mod Lifecycle
pub mod Stranded
pub mod Parallel
mod Examples
use brevyn_cloud.Base.{
  ℕ, zero, suc, ◌+◌, ◌*◌, Bool, true, false, ◌&&◌, not, Option, none, some, List, [], ◌∷◌, ◌++◌,
  Text, codes, text_eq, is_blank, itoa, leb, ltb, ◌==◌, if◌then◌else◌, find, coalesce, update_where,
}
use brevyn_cloud.Errors.{Info, no_info}

-- `StatusPending` and the other four
pub data Status : Type 0 where
  pending running succeeded failed dead_letter : Status

pub record Operation : Type 0 where
  pub id : ℕ
  pub public_id : Text
  pub operation : Text
  pub target_type : Text
  pub target_id : Text
  pub redemption_id : Option ℕ
  pub user_id : Option ℕ
  pub idempotency_key : Text
  pub status : Status
  pub attempts : ℕ
  pub max_attempts : ℕ
  pub next_run_at : ℕ
  pub locked_at : Option ℕ
  pub locked_by : Text
  pub started_at : Option ℕ
  pub completed_at : Option ℕ
  pub last_error : Info
  pub payload : Text
  pub result : Text
  pub updated_at : ℕ

-- The table, with the next value of its id sequence.
pub record Queue : Type 0 where
  pub rows : List Operation
  pub next_id : ℕ

-- Times and durations are nanoseconds, as `time.Duration` counts them.
abbrev pub second : ℕ
second = 1000000000

abbrev pub minute : ℕ
minute = 60 * second

abbrev pub hour : ℕ
hour = 60 * minute

-- `Backoff`
pub backoff : ℕ → ℕ
backoff attempts =
    if leb attempts 1
    then minute
    else if attempts == 2
    then 5 * minute
    else if attempts == 3
    then 15 * minute
    else if leb attempts 5
    then hour
    else 6 * hour

-- The row that an insert writes, from the values that the statements give; the other columns have
-- the schema's defaults.
pub record NewOperation : Type 0 where
  pub public_id : Text
  pub operation : Text
  pub target_type : Text
  pub target_id : Text
  pub redemption_id : Option ℕ
  pub user_id : Option ℕ
  pub idempotency_key : Text
  pub status : Status
  pub payload : Text
  pub next_run_at : ℕ
  pub completed_at : Option ℕ
  pub last_error : Info

abbrev pub default_max_attempts : ℕ
default_max_attempts = 8

unfoldable pub new_row : ℕ → NewOperation → ℕ → Operation
new_row id new now = record {
  id = id;
  public_id = new.public_id;
  operation = new.operation;
  target_type = new.target_type;
  target_id = new.target_id;
  redemption_id = new.redemption_id;
  user_id = new.user_id;
  idempotency_key = new.idempotency_key;
  status = new.status;
  attempts = 0;
  max_attempts = default_max_attempts;
  next_run_at = new.next_run_at;
  locked_at = none;
  locked_by = [];
  started_at = none;
  completed_at = new.completed_at;
  last_error = new.last_error;
  payload = new.payload;
  result = codes "{}";
  updated_at = now;
}

abbrev pub has_key : Text → Operation → Bool
has_key key op = text_eq op.idempotency_key key

abbrev pub has_public_id : Text → Operation → Bool
has_public_id public_id op = text_eq op.public_id public_id

-- A new row goes to the end of the table, unless its public id is taken.
unfoldable pub append_row : NewOperation → ℕ → Queue → Option Text × Queue
append_row new now q = elim (find (has_public_id new.public_id) q.rows) [
  | none ↦ (
    some new.public_id,
    record { rows = q.rows ++ (new_row q.next_id new now ∷ []); next_id = suc q.next_id },
  )
  | some taken ↦ (none, q)
]

-- `INSERT … ON CONFLICT (idempotency_key) WHERE idempotency_key <> '' DO UPDATE SET updated_at =
-- gateway_operations.updated_at RETURNING public_id`: a row that has the key is returned as it is.
-- `none` is the violation of the public id's uniqueness. In Postgres the sequence of the ids moves on
-- here too, so that ids have gaps; `next_id` is the next id of a row that is added.
unfoldable pub insert : NewOperation → ℕ → Queue → Option Text × Queue
unfolding append_row
insert new now q =
    if is_blank new.idempotency_key
    then append_row new now q
    else elim (find (has_key new.idempotency_key) q.rows) [
      | none ↦ append_row new now q
      | some op ↦ (some op.public_id, q)
    ]

abbrev pub sync_redemption : Text
sync_redemption = codes "sync_redemption"

abbrev pub sync_redemption_key : Text → Text
sync_redemption_key redemption_public_id =
    codes "gateway:" ++ (sync_redemption ++ (codes ":" ++ redemption_public_id))

-- `CreateRedemptionSync`: the first run is due half a minute later, since the request that redeems
-- the code runs it itself. `fresh` is the new public id, `payload` the marshalled map.
unfoldable pub create_redemption_sync :
    (fresh payload : Text) (redemption_db_id : ℕ) (redemption_public_id : Text) (user_db_id now : ℕ)
    → Queue
    → Option Text × Queue
create_redemption_sync fresh payload redemption_db_id redemption_public_id user_db_id now =
    insert
      (record {
        public_id = fresh;
        operation = sync_redemption;
        target_type = codes "redeem_redemption";
        target_id = redemption_public_id;
        redemption_id = some redemption_db_id;
        user_id = some user_db_id;
        idempotency_key = sync_redemption_key redemption_public_id;
        status = pending;
        payload = payload;
        next_run_at = now + 30 * second;
        completed_at = none;
        last_error = no_info;
      })
      now

-- `EnsureRedemptionSync`
unfoldable pub ensure_redemption_sync :
    (fresh : Text) (redemption_db_id : ℕ) (redemption_public_id : Text) (user_db_id now : ℕ)
    → Queue
    → Option Text × Queue
ensure_redemption_sync fresh redemption_db_id redemption_public_id user_db_id now =
    insert
      (record {
        public_id = fresh;
        operation = sync_redemption;
        target_type = codes "redeem_redemption";
        target_id = redemption_public_id;
        redemption_id = some redemption_db_id;
        user_id = some user_db_id;
        idempotency_key = sync_redemption_key redemption_public_id;
        status = pending;
        payload = codes "{}";
        next_run_at = now;
        completed_at = none;
        last_error = no_info;
      })
      now

abbrev pub provision_gateway_credential : Text
provision_gateway_credential = codes "provision_gateway_credential"

-- `EnsureGatewayProvision`; a group is a positive number wherever one is provisioned.
pub ensure_gateway_provision :
    (fresh payload : Text) (user_db_id : ℕ) (user_public_id : Text) (external_group_id now : ℕ)
    → Queue
    → Option Text × Queue
ensure_gateway_provision fresh payload user_db_id user_public_id external_group_id now =
    insert
      (record {
        public_id = fresh;
        operation = provision_gateway_credential;
        target_type = codes "user";
        target_id = user_public_id;
        redemption_id = none;
        user_id = some user_db_id;
        idempotency_key =
            codes "gateway:"
            ++ (provision_gateway_credential
                ++ (codes ":" ++ (user_public_id ++ (codes ":" ++ itoa external_group_id))));
        status = pending;
        payload = payload;
        next_run_at = now;
        completed_at = none;
        last_error = no_info;
      })
      now

-- `CreateFailedInput`; the payload is `none` if it cannot be marshalled, and user 0 is no user.
pub record CreateFailedInput : Type 0 where
  pub operation : Text
  pub target_type : Text
  pub target_id : Text
  pub user_db_id : ℕ
  pub idempotency_key : Text
  pub payload : Option Text
  pub error : Info

-- `CreateFailed`: an error that cannot pass goes straight to the dead letters.
pub create_failed : (fresh : Text) → CreateFailedInput → ℕ → Queue → Option Text × Queue
create_failed fresh input now q = elim input.payload [
  | none ↦ (none, q)
  | some payload ↦
      insert
        (record {
          public_id = fresh;
          operation = input.operation;
          target_type = input.target_type;
          target_id = input.target_id;
          redemption_id = none;
          user_id = if input.user_db_id == 0 then none else some input.user_db_id;
          idempotency_key = input.idempotency_key;
          status = if input.error.retryable then failed else dead_letter;
          payload = payload;
          next_run_at = now;
          completed_at = if input.error.retryable then none else some now;
          last_error = input.error;
        })
        now q
]

-- The columns that `MarkSucceeded` sets.
unfoldable pub succeed : Text → ℕ → Operation → Operation
succeed result now op = record op {
  status = succeeded;
  last_error = no_info;
  result = result;
  completed_at = some now;
  locked_at = none;
  locked_by = [];
  updated_at = now;
}

-- `MarkSucceeded`
unfoldable pub mark_succeeded : (public_id result : Text) → ℕ → List Operation → List Operation
mark_succeeded public_id result now = update_where (has_public_id public_id) (succeed result now)

-- The columns that `MarkFailed` sets.
unfoldable pub fail : Info → ℕ → Bool → ℕ → Operation → Operation
fail info next_run_at is_dead now op = record op {
  status = if is_dead then dead_letter else failed;
  last_error = info;
  next_run_at = next_run_at;
  completed_at = if is_dead then some now else op.completed_at;
  locked_at = none;
  locked_by = [];
  updated_at = now;
}

-- `MarkFailed`
unfoldable pub mark_failed : Text → Info → ℕ → Bool → ℕ → List Operation → List Operation
mark_failed public_id info next_run_at is_dead now =
    update_where (has_public_id public_id) (fail info next_run_at is_dead now)
