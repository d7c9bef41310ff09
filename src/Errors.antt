-- ===== src/Errors.antt =====
-- internal/gateway/gatewayerror/error.go: what is known of a failed gateway call, and whether a
-- later attempt may succeed. The proofs are in the modules below.
pub mod Retryable
pub mod Stages
mod Examples
use brevyn_cloud.Base.{
  ℕ, Bool, true, false, ◌&&◌, ◌||◌, not, Option, none, some, ◌++◌, Text, codes, is_blank,
  trim_space, to_lower, contains, itoa, ltb, leb, ◌==◌, if◌then◌else◌,
}

-- The error codes and classes that the program writes; `no_code` and `no_class` are the empty text.
pub data Code : Type 0 where
  no_code gateway_unknown_error gateway_timeout gateway_auth_failed : Code
  gateway_endpoint_not_found gateway_rate_limited gateway_upstream_unavailable : Code
  gateway_rejected_request gateway_not_configured gateway_network_error : Code
  gateway_resource_not_found gateway_invalid_data : Code
  gateway_operation_stale gateway_api_key_pending : Code

pub data Class : Type 0 where
  no_class unknown_gateway_error transient auth_error version_error rate_limited : Class
  data_error config_error retryable_class partial_success : Class

-- `Info`
pub record Info : Type 0 where
  pub code : Code
  pub class : Class
  pub stage : Text
  pub message : Text
  pub detail : Text
  pub retryable : Bool

-- `Info{}`
abbrev pub no_info : Info
no_info = record {
  code = no_code;
  class = no_class;
  stage = codes "";
  message = codes "";
  detail = codes "";
  retryable = false;
}

-- Go errors, as far as `Classify` tells them apart: the two context errors, a `net.Error` with its
-- `Timeout()`, an error with `HTTPStatusCode()` (0 for a code that is not positive), a plain error,
-- `fmt.Errorf("…%w", err)` with the text before the wrapped error, and a `StageError`, whose inner
-- error may be nil.
pub data Err : Type 0 where
  deadline_exceeded canceled : Err
  net_error : Bool → Text → Err
  http_error : ℕ → Text → Err
  plain : Text → Err
  wrapped : Text → Err → Err
  stage_error : Text → Err → Err
  stage_only : Text → Err

-- `err.Error()`
pub error_text : Err → Text
error_text deadline_exceeded = codes "context deadline exceeded"
error_text canceled = codes "context canceled"
error_text (net_error timeout s) = s
error_text (http_error status s) = s
error_text (plain s) = s
error_text (wrapped before e) = before ++ error_text e
error_text (stage_error stage e) = error_text e
error_text (stage_only stage) = codes ""

-- `WithStage`; `none` is the nil error.
unfoldable pub with_stage : Text → Option Err → Option Err
with_stage stage none = none
with_stage stage (some e) = some (stage_error (trim_space stage) e)

-- `errors.As(err, &staged)`: the stage of the outermost `StageError`.
unfoldable pub staged_as : Err → Option Text
staged_as (wrapped before e) = staged_as e
staged_as (stage_error stage e) = some stage
staged_as (stage_only stage) = some stage
staged_as _ = none

-- `errors.Is(err, context.DeadlineExceeded) || errors.Is(err, context.Canceled)`
unfoldable pub is_context_error : Err → Bool
is_context_error deadline_exceeded = true
is_context_error canceled = true
is_context_error (wrapped before e) = is_context_error e
is_context_error (stage_error stage e) = is_context_error e
is_context_error _ = false

-- `isNetworkTimeout`: the outermost `net.Error` is a timeout. The deadline error is one too.
unfoldable pub is_network_timeout : Err → Bool
is_network_timeout deadline_exceeded = true
is_network_timeout (net_error timeout s) = timeout
is_network_timeout (wrapped before e) = is_network_timeout e
is_network_timeout (stage_error stage e) = is_network_timeout e
is_network_timeout _ = false

-- `statusCode`: the status of the outermost carrier, if it is positive.
unfoldable pub status_code : Err → Option ℕ
status_code (http_error status s) = if ltb 0 status then some status else none
status_code (wrapped before e) = status_code e
status_code (stage_error stage e) = status_code e
status_code _ = none

-- The stage that `Classify` reports.
pub classify_stage : Text → Err → Text
unfolding staged_as
classify_stage default_stage e =
    let stage : Text = elim (staged_as e) [
      | none ↦ trim_space default_stage
      | some s ↦ if is_blank (trim_space s) then trim_space default_stage else trim_space s
    ] in
    if is_blank stage then codes "gateway" else stage

-- The `switch` on the HTTP status; `none` falls through to the text of the error.
unfoldable pub classify_status : ℕ → Info → Option Info
classify_status status info =
    if status == 401 || status == 403
    then some (record info {
      code = gateway_auth_failed;
      class = auth_error;
      message = codes "Sub2API 管理员鉴权失败";
    })
    else if status == 404
    then some (record info {
      code = gateway_endpoint_not_found;
      class = version_error;
      message = codes "Sub2API 接口不存在或版本不匹配";
    })
    else if status == 408 || status == 429
    then some (record info {
      code = gateway_rate_limited;
      class = rate_limited;
      message = codes "Sub2API 暂时限流或请求超时";
      retryable = true;
    })
    else if leb 500 status
    then some (record info {
      code = gateway_upstream_unavailable;
      class = transient;
      message = codes "Sub2API 暂时不可用，HTTP " ++ itoa status;
      retryable = true;
    })
    else if leb 400 status
    then some (record info {
      code = gateway_rejected_request;
      class = data_error;
      message = codes "Sub2API 拒绝了请求，HTTP " ++ itoa status;
    })
    else none

pub says_not_configured : Text → Bool
says_not_configured lower =
    contains lower (codes "base url is not configured")
    || contains lower (codes "admin auth is not configured")
    || contains lower (codes "admin email/password is not configured")
    || contains lower (codes "not configured")

pub says_unauthorized : Text → Bool
says_unauthorized lower =
    contains lower (codes "login failed")
    || contains lower (codes "unauthorized")
    || contains lower (codes "forbidden")
    || contains lower (codes "access token")

pub says_network : Text → Bool
says_network lower =
    contains lower (codes "no such host")
    || contains lower (codes "connection refused")
    || contains lower (codes "connection reset")
    || contains lower (codes "broken pipe")
    || contains lower (codes "eof")
    || contains lower (codes "timeout")
    || contains lower (codes "temporary failure")

pub says_invalid : Text → Bool
says_invalid lower =
    contains lower (codes "missing group")
    || contains lower (codes "validity")
    || contains lower (codes "unsupported")
    || contains lower (codes "invalid")
    || contains lower (codes "requires")

-- The last `switch`, on the text of the error in lower case.
pub classify_text : Text → Info → Info
classify_text lower info =
    if says_not_configured lower
    then record info {
      code = gateway_not_configured;
      class = config_error;
      message = codes "Sub2API 连接或管理员凭据未配置";
    }
    else if says_unauthorized lower
    then record info {
      code = gateway_auth_failed;
      class = auth_error;
      message = codes "Sub2API 登录或授权失败";
    }
    else if says_network lower
    then record info {
      code = gateway_network_error;
      class = transient;
      message = codes "Sub2API 网络连接失败";
      retryable = true;
    }
    else if contains lower (codes "not found")
    then record info {
      code = gateway_resource_not_found;
      class = data_error;
      message = codes "Sub2API 资源不存在，请检查用户、分组或接口";
    }
    else if says_invalid lower
    then record info {
      code = gateway_invalid_data;
      class = data_error;
      message = codes "兑换商品或分组配置不合法";
    }
    else info

-- What is reported when nothing more is known.
pub unknown_info : Text → Err → Info
unknown_info stage e = record {
  code = gateway_unknown_error;
  class = unknown_gateway_error;
  stage = stage;
  message = codes "网关同步失败，请查看错误详情";
  detail = trim_space (error_text e);
  retryable = false;
}

pub timeout_info : Info → Info
timeout_info info = record info {
  code = gateway_timeout;
  class = transient;
  message = codes "Sub2API 请求超时或连接中断";
  retryable = true;
}

-- What the status says of an error, or its text where there is no status that decides.
unfoldable pub classify_answer : Option ℕ → Info → Info
classify_answer none info = classify_text (to_lower info.detail) info
classify_answer (some status) info = elim (classify_status status info) [
  | none ↦ classify_text (to_lower info.detail) info
  | some answer ↦ answer
]

-- `Classify`
unfoldable pub classify : Text → Option Err → Info
unfolding timeout_info unknown_info
classify default_stage none = no_info
classify default_stage (some e) =
    let info = unknown_info (classify_stage default_stage e) e in
    if is_context_error e || is_network_timeout e
    then timeout_info info
    else classify_answer (status_code e) info
