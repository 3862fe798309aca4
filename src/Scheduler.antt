-- ===== src/Scheduler.antt =====
-- The schedules of the native scheduler (scheduler/repositories/models/schedulable_entity.go), and
-- what the scheduler calls of other code: the cron library, the hash of names and the admin service.
-- Times are nanoseconds since the zero time of Go.
pub mod Core
pub mod Times
pub mod Snapshoter
pub mod Executor
pub mod CatchUp
mod Samples
mod Tests
use flyteadmin.Common.{ℤ, Bool, Option, String, ℕ, ◌≡◌}

-- `admin.FixedRateUnit`; `other_unit` is any value that the program does not name.
pub data FixedRateUnit : Type 0 where
  minute hour day : FixedRateUnit
  other_unit : ℕ → FixedRateUnit

-- `active` is behind a pointer in the source, which the scheduler takes to be set.
pub record SchedulableEntity : Type 0 where
  pub project : String
  pub domain : String
  pub name : String
  pub version : String
  pub cron_expression : String
  pub fixed_rate_value : ℕ
  pub unit : FixedRateUnit
  pub kickoff_time_input_arg : String
  pub active : Bool
  pub updated_at : ℕ

-- The cron library's schedules: a cron expression that parses gives the next time after a time,
-- and so does a constant delay.
pub record CronTimes : Type 0 where
  pub parse_standard : String → Option (ℕ → ℕ)
  pub constant_delay_next : ℤ → ℕ → ℕ
