-- ===== src/Operations/Options.antt =====
-- internal/gateway/operations/runner.go: the options of a worker. A duration or a number that is
-- not positive is 0 here.
use brevyn_cloud.Base.{ℕ, ◌*◌, ◌≤◌, List, [], ◌∷◌, arith, ltb, if◌then◌else◌}
use brevyn_cloud.Operations.{second, minute}

-- What `NewRunner` sets.
pub record RunnerSettings : Type 0 where
  pub interval : ℕ
  pub batch_size : ℕ
  pub concurrency : ℕ
  pub stale_after : ℕ

-- `RunnerOption`, by the function that makes one; `no_option` is nil.
pub data RunnerOption : Type 0 where
  with_interval with_batch_size with_concurrency with_stale_timeout : ℕ → RunnerOption
  no_option : RunnerOption

-- The four options, applied
pub apply_option : RunnerOption → RunnerSettings → RunnerSettings
apply_option (with_interval interval) r =
    if ltb 0 interval then record r { interval = interval } else r
apply_option (with_batch_size batch_size) r =
    if ltb 0 batch_size then record r { batch_size = batch_size } else r
apply_option (with_concurrency concurrency) r =
    if ltb 0 concurrency then record r { concurrency = concurrency } else r
apply_option (with_stale_timeout timeout) r =
    if ltb 0 timeout then record r { stale_after = timeout } else r
apply_option no_option r = r

abbrev pub apply_options : List RunnerOption → RunnerSettings → RunnerSettings
apply_options [] r = r
apply_options (o ∷ os) r = apply_options os (apply_option o r)

abbrev pub default_settings : RunnerSettings
default_settings = record {
  interval = 10 * second;
  batch_size = 10;
  concurrency = 5;
  stale_after = 5 * minute;
}

-- The last lines of `NewRunner`
pub at_least_one : RunnerSettings → RunnerSettings
at_least_one r = record r {
  batch_size = if ltb r.batch_size 1 then 1 else r.batch_size;
  concurrency = if ltb r.concurrency 1 then 1 else r.concurrency;
}

-- `NewRunner`
pub new_runner : List RunnerOption → RunnerSettings
unfolding apply_option at_least_one
new_runner options = at_least_one (apply_options options default_settings)

-- Each setting is at least one.
pub record SettingsValid (r : RunnerSettings) : Type 0 where
  pub ticks : 1 ≤ r.interval
  pub claims : 1 ≤ r.batch_size
  pub runs : 1 ≤ r.concurrency
  pub releases : 1 ≤ r.stale_after

apply_option-SettingsValid :
    (o : RunnerOption) (r : RunnerSettings) → SettingsValid r → SettingsValid (apply_option o r)
unfolding apply_option
apply_option-SettingsValid (with_interval n) r h = record {
  ticks = ground (arith, h.ticks);
  claims = ground (arith, h.claims);
  runs = ground (arith, h.runs);
  releases = ground (arith, h.releases);
}
apply_option-SettingsValid (with_batch_size n) r h = record {
  ticks = ground (arith, h.ticks);
  claims = ground (arith, h.claims);
  runs = ground (arith, h.runs);
  releases = ground (arith, h.releases);
}
apply_option-SettingsValid (with_concurrency n) r h = record {
  ticks = ground (arith, h.ticks);
  claims = ground (arith, h.claims);
  runs = ground (arith, h.runs);
  releases = ground (arith, h.releases);
}
apply_option-SettingsValid (with_stale_timeout n) r h = record {
  ticks = ground (arith, h.ticks);
  claims = ground (arith, h.claims);
  runs = ground (arith, h.runs);
  releases = ground (arith, h.releases);
}
apply_option-SettingsValid no_option r h = h

apply_options-SettingsValid :
    (os : List RunnerOption) (r : RunnerSettings)
    → SettingsValid r
    → SettingsValid (apply_options os r)
apply_options-SettingsValid [] r h = h
apply_options-SettingsValid (o ∷ os) r h =
    apply_options-SettingsValid os (apply_option o r) (apply_option-SettingsValid o r h)

-- Whatever options are given, a worker has a positive interval, claims at least one operation a
-- round, runs at least one at a time, and releases stale operations.
pub new_runner-SettingsValid : (options : List RunnerOption) → SettingsValid (new_runner options)
unfolding new_runner at_least_one
new_runner-SettingsValid options =
    let h = apply_options-SettingsValid options default_settings (record {
      ticks = omega arith;
      claims = omega arith;
      runs = omega arith;
      releases = omega arith;
    }) in
    record {
      ticks = h.ticks;
      claims = ground (arith, h.claims);
      runs = ground (arith, h.runs);
      releases = h.releases;
    }
