-- ===== src/Errors/Examples.antt =====
-- Reports of concrete errors, and the theorems at concrete inputs.
use brevyn_cloud.Base.{◌≡◌, refl, some, codes, is_blank, trim_space, contains, to_lower}
use brevyn_cloud.Errors.{
  Err, http_error, wrapped, plain, gateway_invalid_data, classify, classify_answer, classify_text,
  with_stage, error_text, says_not_configured, says_unauthorized, says_network, says_invalid,
  status_code, is_context_error, is_network_timeout,
}
use brevyn_cloud.Errors.Retryable.{is_retry_class, classify_retryable_class}
use brevyn_cloud.Errors.Stages.{classify-with_stage}

abbrev rate_limit : Err
rate_limit = wrapped (codes "create key: ") (http_error 429 (codes "slow down"))

missing_group : Err
missing_group = plain (codes "subscription redemption is Missing Group")

classify_retryable_class_example :
    let info = classify (codes " ") (some rate_limit) in info.retryable ≡ is_retry_class info.class
classify_retryable_class_example = classify_retryable_class (codes " ") (some rate_limit)

classify-with_stage_example :
    classify (codes "add_balance") (with_stage (codes " settings ") (some rate_limit))
    ≡ record (classify (codes "add_balance") (some rate_limit)) { stage = codes "settings" }
unfolding trim_space is_blank
classify-with_stage_example =
    classify-with_stage (codes "add_balance") (codes " settings ") rate_limit refl

reports_invalid_data : (classify (codes "") (some missing_group)).code ≡ gateway_invalid_data
unfolding classify classify_answer classify_text missing_group status_code is_context_error
    is_network_timeout error_text says_not_configured says_unauthorized says_network says_invalid
    contains to_lower trim_space
reports_invalid_data = refl
