-- ===== src/Scheduler/Times.antt =====
-- The times at which a schedule fires (scheduler/core/gocron_scheduler.go).
pub mod Chain
use flyteadmin.Scheduler.{
  day, hour, minute, other_unit, SchedulableEntity, CronTimes, FixedRateUnit,
}
use flyteadmin.Common.{
  false, true, ◌>>=◌, ◌++◌, ◌∷◌, zero, ◌-◌, some, foreign, negsuc, err, pos, str_eq, suc, none, [],
  ltb, not, ◌*◌, if◌then◌else◌, List, ok, Option, ◌%◌, String, ℤ, Result, ◌^◌, ℕ, ◌≡◌,
}

abbrev pub int64_mod : ℕ
int64_mod = 2 ^ 64

-- The `int64` that a number stands for when it is reduced to 64 bits.
unfoldable pub to_int64 : ℕ → ℤ
to_int64 n = let m = n % int64_mod in if ltb m (2 ^ 63) then pos m else negsuc (int64_mod - m - 1)

-- In nanoseconds.
abbrev pub minute_length : ℕ
minute_length = 60000000000

abbrev pub hour_length : ℕ
hour_length = 3600000000000

unfoldable pub get_fixed_rate_duration_from_schedule : FixedRateUnit → ℕ → Result ℤ
unfolding to_int64
get_fixed_rate_duration_from_schedule minute value = ok (to_int64 (value * minute_length))
get_fixed_rate_duration_from_schedule hour value = ok (to_int64 (value * hour_length))
get_fixed_rate_duration_from_schedule day value = ok (to_int64 (value * hour_length * 24))
get_fixed_rate_duration_from_schedule (other_unit u) value = err (foreign u)

module _ (c : CronTimes) where
  unfoldable pub get_cron_scheduled_time : String → ℕ → Result ℕ
  get_cron_scheduled_time cron from = elim (c.parse_standard cron) [
    | none ↦ err (foreign 0)
    | some next ↦ ok (next from)
  ]

  unfoldable pub get_fixed_interval_scheduled_time : FixedRateUnit → ℕ → ℕ → Result ℕ
  get_fixed_interval_scheduled_time unit value from = do
    d ← get_fixed_rate_duration_from_schedule unit value
    ok (c.constant_delay_next d from)

  -- A schedule with a cron expression is a cron schedule, any other one has a fixed rate.
  unfoldable pub get_scheduled_time : SchedulableEntity → ℕ → Result ℕ
  unfolding get_cron_scheduled_time get_fixed_interval_scheduled_time
  get_scheduled_time s from =
      if not (str_eq s.cron_expression "")
      then get_cron_scheduled_time s.cron_expression from
      else get_fixed_interval_scheduled_time s.unit s.fixed_rate_value from

  -- The loop of `GetCatchUpTimes`; `none` is a loop that has not ended within the fuel.
  unfoldable pub catch_up_loop : ℕ → SchedulableEntity → ℕ → ℕ → List ℕ → Option (Result (List ℕ))
  catch_up_loop zero s current to times = none
  catch_up_loop (suc fuel) s current to times = elim (ltb current to) [
    | false ↦ some (ok times)
    | true ↦ elim (get_scheduled_time s current) [
      | err e ↦ some (err e)
      | ok next ↦ catch_up_loop fuel s next to (times ++ next ∷ [])
    ]
  ]

  unfoldable pub get_catch_up_times : ℕ → SchedulableEntity → ℕ → ℕ → Option (Result (List ℕ))
  unfolding catch_up_loop
  get_catch_up_times fuel s from to = catch_up_loop fuel s from to []
