-- ===== src/Operations/Lifecycle/Queues.antt =====
-- What holds of the whole queue between two statements, and that each kind of statement keeps it.
use brevyn_cloud.Base.{
  ℕ, ◌≡◌, refl, Bool, ◌⊎◌, inl, inr, List, Text, arith, Bool-cases, Option-cases, update_where,
  update_where-All, leb, find, is_blank, trim_space,
}
use brevyn_cloud.Operations.{
  Operation, Queue, NewOperation, CreateFailedInput, new_row, insert, create_failed, has_public_id,
  mark_succeeded, mark_failed, succeed, fail,
}
use brevyn_cloud.Operations.Store.{insert_cases}
use brevyn_cloud.Operations.Ids.{IdsValid, ids, same_ids, ids-update_where, extended-IdsValid}
use brevyn_cloud.Operations.Runner.{
  OperationRecord, Outcome, done, error, requeue_stale_running, release_stale, stale_detail,
  claim_next, claim, candidate, process_claimed,
}
use brevyn_cloud.Operations.Claims.{claim_next-none, claim_next-some}
use brevyn_cloud.Operations.Admin.{retry, requeue, count_attempt, increment_attempt}
use brevyn_cloud.Operations.Lifecycle.{
  IsLive, AllLive, insert-AllLive, requeue-IsLive, release_stale-IsLive, new_row-IsLive,
}

abbrev pub with_rows : Queue → List Operation → Queue
with_rows q rows = record q { rows = rows }

-- What holds of the table between two statements.
pub record QueueValid (q : Queue) : Type 0 where
  pub live : AllLive q.rows
  pub keys : IdsValid q

pub insert-QueueValid :
    (new : NewOperation) (now : ℕ) (q : Queue)
    → IsLive (new_row q.next_id new now)
    → QueueValid q
    → QueueValid (insert new now q).1
insert-QueueValid new now q row h = record {
  live = insert-AllLive new now q row h.live;
  keys = elim (insert_cases new now q) [
    | inl e ↦ rw e h.keys
    | inr e ↦ rw e (extended-IdsValid new now q h.keys)
  ];
}

-- A statement on the rows that keeps the ids and what holds of every row.
pub rows-QueueValid :
    (q : Queue) (rows : List Operation)
    → ids rows ≡ ids q.rows
    → AllLive rows
    → QueueValid q
    → QueueValid (with_rows q rows)
rows-QueueValid q rows e live h = record { live = live; keys = same_ids q rows e h.keys }

pub ids-claim_next :
    (worker : Text) (now : ℕ) (rows : List Operation)
    → ids (claim_next worker now rows).1 ≡ ids rows
unfolding claim
ids-claim_next worker now rows = elim (Option-cases (candidate now rows)) [
  | inl e ↦ rw (claim_next-none worker now rows e)
  | inr (op, e) ↦ rw (claim_next-some worker now rows op e) (ids-update_where _ _ rows (λ x. refl))
]

pub ids-process_claimed :
    (r : OperationRecord) (outcome : Outcome) (clock now : ℕ) (rows : List Operation)
    → ids (process_claimed r outcome clock now rows) ≡ ids rows
unfolding process_claimed mark_succeeded mark_failed succeed fail
ids-process_claimed r (done result) clock now rows = ids-update_where _ _ rows (λ x. refl)
ids-process_claimed r (error e) clock now rows = ids-update_where _ _ rows (λ x. refl)

pub requeue_stale-QueueValid :
    (stale_after : ℕ) (text : Text) (clock now : ℕ) (q : Queue)
    → QueueValid q
    → QueueValid (with_rows q (requeue_stale_running stale_after text clock now q.rows))
unfolding requeue_stale_running release_stale
requeue_stale-QueueValid stale_after text clock now q h = elim (Bool-cases (leb stale_after 0)) [
  | inl off ↦ rw (off, requeue_stale_running) h
  | inr on ↦
      rw (on, requeue_stale_running)
        (rows-QueueValid q _ (ids-update_where _ _ q.rows (λ x. refl))
          (update_where-All IsLive _ _ q.rows
            (λ op _ live. release_stale-IsLive (stale_detail text) now op live) h.live)
          h)
]

-- The rows after an administrator's retry are those of before, or some of them requeued.
pub requeue_rows-QueueValid :
    (p : Operation → Bool) (now : ℕ) (q : Queue)
    → QueueValid q
    → QueueValid (with_rows q (update_where p (requeue now) q.rows))
unfolding requeue
requeue_rows-QueueValid p now q h =
    rows-QueueValid q _ (ids-update_where _ _ q.rows (λ x. refl))
      (update_where-All IsLive _ _ q.rows (λ op _ live. requeue-IsLive now op live) h.live) h

pub retry_rows :
    (public_id : Text) (now : ℕ) (rows : List Operation)
    → ((retry public_id now rows).1 ≡ rows)
      ⊎ ((retry public_id now rows).1 ≡ update_where (has_public_id public_id) (requeue now) rows)
unfolding retry
retry_rows public_id now rows = elim (Option-cases (find (has_public_id public_id) rows)) [
  | inl e ↦ inl (rw (e, retry))
  | inr (op, e) ↦ ground (arith, e)
]

pub ids-increment_attempt :
    (public_id : Text) (now : ℕ) (rows : List Operation)
    → ids (increment_attempt public_id now rows) ≡ ids rows
unfolding increment_attempt count_attempt
ids-increment_attempt public_id now rows = elim (Bool-cases (is_blank (trim_space public_id))) [
  | inl e ↦ rw (e, increment_attempt)
  | inr e ↦ rw (e, increment_attempt) (ids-update_where _ _ rows (λ x. refl))
]

pub create_failed-QueueValid :
    (fresh : Text) (input : CreateFailedInput) (now : ℕ) (q : Queue)
    → QueueValid q
    → QueueValid (create_failed fresh input now q).1
unfolding create_failed
create_failed-QueueValid fresh input now q h = elim (Option-cases input.payload) [
  | inl e ↦ rw (e, create_failed) h
  | inr (payload, e) ↦
      rw (e, create_failed)
        (insert-QueueValid _ now q
          (new_row-IsLive _ _ now (ground arith) (ground arith) (ground arith)) h)
]
