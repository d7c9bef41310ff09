-- ===== src/Lib.antt =====
-- Brevyn Cloud sells access to an AI gateway, Sub2API. Users redeem codes for balance or
-- subscriptions; what they redeem is recorded in Postgres and then brought to the gateway by a queue
-- of operations that workers of several processes share. Sessions are signed tokens with rotating
-- refresh tokens, and Redis limits the requests.
--
-- Which module models what:
--   Base         texts, Boolean tests, lists and tables, shared by all modules
--   Errors       internal/gateway/gatewayerror/error.go: `Classify`, `WithStage`
--   Operations   internal/gateway/operations/operations.go: the statements on the queue
--     .Runner    internal/gateway/operations/runner.go: the round of a worker; in .Options
--                its settings
--     .Admin     internal/admin/gateway_operation_service.go: `Retry`, `RetryFailed`; the manual run
--                of internal/admin/redemption_sync_handler.go
--   Tokens       internal/auth/handler.go: `issueTokenPair`, `rotateRefreshToken`,
--                `revokeRefreshToken`; in .Jwt `signToken` and `parseToken`, in .Metadata
--                `trimTokenMetadata`
--   Redeem       internal/auth/handler.go: `markRedeemedLocally`; the updates that disable codes of
--                internal/admin/catalog_service.go
--   Subscription internal/redeem/gateway_sync_service.go: `SyncTargetToSub2API`
--   Settlement   internal/auth/handler.go: `Redeem`, `syncRedemptionToGateway`; in .Worker
--                internal/admin/gateway_operation_executor.go: `syncRedemption`, and
--                internal/admin/redemption_sync_handler.go: `RetryRedemptionSync`
--   Secrets      internal/admin/gateway_settings_service.go: `EncryptSecret`, `DecryptSecret`
--   Catalog      internal/admin/catalog_service.go: `GenerateRedeemCodes`; the validation of
--                internal/admin/catalog_handler.go
--   Entitlements internal/auth/gateway_entitlements.go: the statuses; in .Listing the groups of a
--                user, in .Cache the handler with its cache
--   Permits      internal/redeem/gateway_sync_service.go: `acquireSub2APIKeyCreatePermit`
--   Limits       internal/auth/handler.go: the limiters over Redis; in .Admin the limiter in memory
--                of internal/admin/handler.go
-- A record stands for a row or a struct, a list of records for a table, and a function on the table
-- for a statement, which is atomic. A transaction is one function, and returns the table as it was
-- where the code rolls back. Concurrency is a sequence of statements: `Operations.Lifecycle.Steps`,
-- `Tokens.Sessions`, `Redeem.Once` and `Settlement.Worker.Synced` have a data type of the steps, and
-- theorems on every sequence of them. Redeem uses the queue of Operations, whose errors are those of
-- Errors; Settlement joins Redeem, Subscription, Limits and the queue; Catalog makes the codes that
-- Redeem finds.
--
-- Times are nanoseconds and numbers are natural: ids, attempts and times are not negative in the
-- program, and far from 2^63. Two loops have fuel: the printing of a number, with one unit for each
-- digit and one more, and the wait for a permit, with one for each nanosecond of its timeout and one
-- more.
--
-- Parameters, for what is not in the repository: HMAC, base64, JSON and SHA-256 (`Tokens.Jwt.Codec`,
-- with the laws `CodecValid`), AES-GCM and the other libraries of the encryption (`Secrets.Crypto`, with
-- `CryptoValid`), JSON for lists of codes (in `Catalog.Vault`, with `VaultValid`), Redis (`Limits.Redis`,
-- with `RedisValid`; `Entitlements.Cache.CacheStore`, with `CacheValid`; `Permits.PermitRedis`, with
-- `SlotsValid`), 64-bit floats (`Redeem.Amounts`, `Entitlements.Money`, with `MoneyValid`), random ids
-- (arguments named `fresh`).
--
-- Parameters, for what is in the repository and is not modelled: the client of the gateway
-- (internal/gateway/sub2api/client.go, `Subscription.Client`), and the settings, accounts and API keys
-- that a sync ensures (internal/redeem/gateway_sync_service.go, `Settlement.Services` and
-- `Settlement.Worker.WorkerServices`). No law is asked of the services.
--
-- Not modelled: errors of the database itself, also where the code ignores them, HTTP and the
-- presentation, logs, the queries of the administration, backups, the web client. A request for
-- entitlements is one step, so the load that several requests share is left out. The wall clock of a
-- process and `now()` of the database are two arguments, since the code uses both. The steps of
-- `Operations.Lifecycle.Steps` are all the statements that write the queue, some with conditions: the
-- end of a claim, and the statements outside the worker, which count attempts or write failures and do
-- not compare the attempts with their bound. `Operations.Stranded` is the case without them.
pub mod Base
pub mod Catalog
pub mod Entitlements
pub mod Errors
pub mod Limits
pub mod Operations
pub mod Permits
pub mod Redeem
pub mod Secrets
pub mod Settlement
pub mod Subscription
pub mod Tokens
