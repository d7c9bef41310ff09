-- ===== src/Errors/Retryable.antt =====
-- Which classes of error are worth another attempt (the `Retryable` of `Classify`).
use brevyn_cloud.Base.{
  ℕ, ◌≤◌, ◌≡◌, refl, Bool, true, false, ◌||◌, Option, none, some, Text, arith, leb, ◌==◌, to_lower,
  Bool-cases, Option-cases, inl, inr,
}
use brevyn_cloud.Errors.{
  Class, transient, rate_limited, Info, Err, classify, classify_answer, classify_status,
  classify_text, classify_stage, unknown_info, is_context_error, is_network_timeout, status_code,
}

-- The classes whose errors pass by themselves.
abbrev pub is_retry_class : Class → Bool
is_retry_class transient = true
is_retry_class rate_limited = true
is_retry_class _ = false

-- `info` says that it is retryable exactly if its class says so.
abbrev IsConsistent : Info → Type 0
IsConsistent info = info.retryable ≡ is_retry_class info.class

classify_text-IsConsistent :
    (lower : Text) (info : Info)
    → info.retryable ≡ false
    → is_retry_class info.class ≡ false
    → IsConsistent (classify_text lower info)
unfolding classify_text
classify_text-IsConsistent lower info h k = ground arith

classify_status-IsConsistent :
    (status : ℕ) (info answer : Info)
    → info.retryable ≡ false
    → classify_status status info ≡ some answer
    → IsConsistent answer
unfolding classify_status
classify_status-IsConsistent status info answer h e = ground arith

classify_answer-IsConsistent :
    (status : Option ℕ) (info : Info)
    → info.retryable ≡ false
    → is_retry_class info.class ≡ false
    → IsConsistent (classify_answer status info)
unfolding classify_answer
classify_answer-IsConsistent none info h k =
    classify_text-IsConsistent (to_lower info.detail) info h k
classify_answer-IsConsistent (some status) info h k =
    elim (Option-cases (classify_status status info)) [
      | inl e ↦ rw (e, classify_answer) (classify_text-IsConsistent (to_lower info.detail) info h k)
      | inr (answer, e) ↦
          rw (e, classify_answer) (classify_status-IsConsistent status info answer h e)
    ]

-- A failure is marked retryable exactly if its class is `transient` or `rate_limited`, whatever
-- the error is.
pub classify_retryable_class :
    (default_stage : Text) (err : Option Err)
    → let info = classify default_stage err in info.retryable ≡ is_retry_class info.class
unfolding classify
classify_retryable_class default_stage none = refl
classify_retryable_class default_stage (some e) =
    elim (Bool-cases (is_context_error e || is_network_timeout e)) [
      | inl p ↦ rw p refl
      | inr p ↦ rw p (
          classify_answer-IsConsistent (status_code e)
            (unknown_info (classify_stage default_stage e) e) refl refl)
    ]

-- Where an HTTP status of 400 or more came back, and the call neither timed out nor was cancelled,
-- it is retried exactly for 408, 429 and every status from 500.
pub classify_retryable_status :
    (default_stage : Text) (e : Err) (status : ℕ)
    → is_context_error e ≡ false
    → is_network_timeout e ≡ false
    → status_code e ≡ some status
    → 400 ≤ status
    → (classify default_stage (some e)).retryable
      ≡ (status == 408 || status == 429 || leb 500 status)
unfolding classify classify_answer classify_status
classify_retryable_status default_stage e status h k s le = rw (h, k, s) (ground arith)
