-- ===== src/Scheduler/Tests.antt =====
-- Runs of the scheduler on two schedules, and each theorem at such a run.
use flyteadmin.Scheduler.Snapshoter.RoundTrip.{read-save, IsGob}
use flyteadmin.Execution.{Bytes}
use flyteadmin.Scheduler.Snapshoter.{
  read, write_snapshot, save, Gob, SnapshotV1, Persistence, SnapshotRepo,
}
use flyteadmin.Scheduler.Times.Chain.{
  get_fixed_rate_duration_from_schedule-exact, unit_length, get_catch_up_times-Firings, IsForward,
  Firings,
}
use flyteadmin.Scheduler.CatchUp.{catchup_all}
use flyteadmin.Scheduler.Executor.Once.{execute-Executor, Executed}
use flyteadmin.Scheduler.Executor.Refused.{execute_refused}
use flyteadmin.Scheduler.Samples.{
  small_on_error-OnError, small_admin-AdminService, small_on_error, small_cron-CronLib, small_admin,
  small_cron,
}
use flyteadmin.Scheduler.Core.Marks.{
  calculate_snapshot-times, time_of, run_all-Latest, IsLatest, run_all,
}
use flyteadmin.Scheduler.CatchUp.Complete.{catchup_all-Complete, AllCaughtUp, IsExecutor}
use flyteadmin.Scheduler.Core.Steps.{IsReachable-Synced, IsReachable}
use flyteadmin.Scheduler.Core.Spec.{
  de_schedule_job-entries, update_schedules-scheduled, scheduled_after, is_scheduled,
}
use flyteadmin.Scheduler.Times.{
  to_int64, get_catch_up_times, get_fixed_interval_scheduled_time, get_scheduled_time,
  get_fixed_rate_duration_from_schedule,
}
use flyteadmin.Scheduler.Core.Boot.{boot_strap-BootedAt, BootedAt}
use flyteadmin.Scheduler.{minute, day, SchedulableEntity, CronTimes}
use flyteadmin.Scheduler.Core.Synced.{is_cron, IsSynced}
use flyteadmin.Scheduler.Core.{
  remove_fixed_interval_job, remove_cron_job, add_fixed_interval_job, add_cron_job, new_scheduler,
  fire, de_schedule_job, schedule_job, update_schedules, calculate_snapshot, Scheduler,
  boot_strap_schedules_from_snap_shot, GoCronJob, HashName, load,
}
use flyteadmin.Scheduler.Executor.{execute, counted, execution_request, HashTime, ExecutorState}
use mathlib.Core.Path.{subst}
use flyteadmin.Common.{
  new_flyte_admin_error, eq_iff, sym, Bool-cases, inr, inl, err, Error, Code, foreign, flyte_admin,
  some-equal, ap, refl, ◌≢◌, arith, ◌*◌, pos, str_eq, Result, Option, ◌+◌, ok, List, ℕ, Bool,
  String, ◌≡◌, ◌∷◌, [], suc, some, none, true, false, if◌then◌else◌,
}

abbrev every_minute : SchedulableEntity
every_minute = record {
  project = "p";
  domain = "d";
  name = "n";
  version = "v";
  cron_expression = "";
  fixed_rate_value = 1;
  unit = minute;
  kickoff_time_input_arg = "";
  active = true;
  updated_at = 5;
}

abbrev stopped : SchedulableEntity
stopped = record every_minute { active = false }

abbrev daily : SchedulableEntity
daily = record every_minute { project = "q"; cron_expression = "@daily"; updated_at = 9 }

abbrev no_daily : SchedulableEntity
no_daily = record daily { active = false }

abbrev by_project : HashName
by_project p d n v = p

abbrev snapshot : String → Option ℕ
snapshot n = if str_eq n "p" then some 7 else none

abbrev both : List SchedulableEntity
both = every_minute ∷ daily ∷ []

abbrev started : Scheduler small_cron
started =
    boot_strap_schedules_from_snap_shot small_cron by_project (new_scheduler small_cron) both
      snapshot

abbrev started_reached : IsReachable small_cron by_project small_cron-CronLib started
started_reached = IsReachable.booted both snapshot

operations : Unit {0}
unfolding boot_strap_schedules_from_snap_shot update_schedules schedule_job de_schedule_job
    add_cron_job add_fixed_interval_job get_fixed_rate_duration_from_schedule to_int64
    remove_cron_job remove_fixed_interval_job fire calculate_snapshot
operations = tt

-- A time is the one before it and the whole delay.
abbrev clock : CronTimes
clock = record { parse_standard = λ s. none; constant_delay_next = λ d t. suc t + 4 }

every_minute-Forward : IsForward clock every_minute
unfolding get_scheduled_time get_fixed_interval_scheduled_time get_fixed_rate_duration_from_schedule
every_minute-Forward t = (suc t + 4, refl, omega arith)

started-Synced : IsSynced small_cron started
started-Synced = IsReachable-Synced small_cron by_project small_cron-CronLib started started_reached

IsReachable-Synced_example : IsSynced small_cron started
IsReachable-Synced_example =
    IsReachable-Synced small_cron by_project small_cron-CronLib started started_reached

update_schedules-scheduled_example :
    is_scheduled small_cron (update_schedules small_cron by_project started (no_daily ∷ [])) "q"
    ≡ scheduled_after small_cron by_project
        (no_daily ∷ [])
        "q"
        (is_scheduled small_cron started "q")
update_schedules-scheduled_example =
    update_schedules-scheduled small_cron by_project small_cron-CronLib (no_daily ∷ []) started "q"
      started-Synced

abbrev first_job : GoCronJob
first_job = record {
  name_of_schedule = "p";
  schedule = every_minute;
  last_time = none;
  catchup_from_time = some 7;
  entry_id = 0;
}

de_schedule_job-entries_example :
    (is_scheduled small_cron (de_schedule_job small_cron by_project started stopped) "p" ≡ false)
    × (is_cron first_job ≡ true
        → (id : ℕ)
        → small_cron.entry (de_schedule_job small_cron by_project started stopped).cron id ≢ some 0)
    × (is_cron first_job ≡ false
        → (id : ℕ) × (small_cron.entry
              (de_schedule_job small_cron by_project started stopped).cron
              id
            ≡ some 0))
unfolding operations
de_schedule_job-entries_example =
    de_schedule_job-entries small_cron by_project small_cron-CronLib started stopped 0 first_job
      started-Synced refl refl

run_all-Latest_example :
    (m : ℕ) × ((run_all first_job (4 ∷ 9 ∷ 6 ∷ [])).last_time ≡ some m)
    × IsLatest m (4 ∷ 9 ∷ 6 ∷ [])
run_all-Latest_example = run_all-Latest first_job 4 (9 ∷ 6 ∷ []) refl

calculate_snapshot-times_example :
    load "p" (calculate_snapshot small_cron (fire small_cron started 1 30).1)
    ≡ time_of
        (fire small_cron started 1 30).1.heap
        (load "p" (fire small_cron started 1 30).1.job_store)
calculate_snapshot-times_example =
    calculate_snapshot-times small_cron by_project small_cron-CronLib
      (fire small_cron started 1 30).1 "p" (IsReachable.fired started 1 30 started_reached)

-- Without a snapshot, the job of a schedule that was changed at 5 catches up from 9, when the other
-- one was changed.
abbrev started_afresh : Scheduler small_cron
started_afresh =
    boot_strap_schedules_from_snap_shot small_cron by_project (new_scheduler small_cron)
      (every_minute ∷ daily ∷ []) (λ n. none)

boot_strap-BootedAt_example :
    BootedAt small_cron by_project small_cron-CronLib daily none started_afresh "p" 0
unfolding operations
boot_strap-BootedAt_example =
    boot_strap-BootedAt small_cron by_project small_cron-CronLib (every_minute ∷ []) daily
      (λ n. none) "p" 0 refl

afresh_from : started_afresh.heap 0 ≡ some (record first_job { catchup_from_time = some 9 })
unfolding operations
afresh_from = refl

get_catch_up_times-Firings_example :
    (times : List ℕ) × (get_catch_up_times clock 20 every_minute 3 12 ≡ some (ok times))
    × Firings clock every_minute 12 3 times
get_catch_up_times-Firings_example =
    get_catch_up_times-Firings clock every_minute 20 3 12 every_minute-Forward (omega arith)

get_fixed_rate_duration_from_schedule-exact_example :
    get_fixed_rate_duration_from_schedule day 7 ≡ ok (pos (7 * unit_length day))
get_fixed_rate_duration_from_schedule-exact_example =
    get_fixed_rate_duration_from_schedule-exact day 7 (omega arith) (omega arith)

abbrev by_time : HashTime
by_time p d n v t = "0123456789abcdef0123"

abbrev idle : ExecutorState small_admin
idle = record {
  admin = "f0123456789abcdef012" ∷ [];
  failed_executions = 0;
  successful_executions = 0;
}

abbrev run_one :
    ℕ
    → SchedulableEntity
    → ExecutorState small_admin
    → Result (Unit {0}) × ExecutorState small_admin
run_one = execute small_admin by_time small_on_error

execute-Executor_example :
    IsExecutor run_one
      (Executed small_admin by_time small_on_error small_admin-AdminService small_on_error-OnError)
execute-Executor_example =
    execute-Executor small_admin by_time small_on_error small_admin-AdminService
      small_on_error-OnError

execute_refused_example :
    run_one 30 every_minute idle ≡ (ok tt, counted small_admin by_time small_on_error idle)
unfolding execution_request
execute_refused_example =
    execute_refused small_admin by_time small_on_error small_on_error-OnError 30 every_minute idle
      (new_flyte_admin_error Code.already_exists) idle.admin refl refl refl

catchup_all-Complete_example :
    (b : Bool) × (y : ExecutorState small_admin) × (catchup_all clock run_one 20
        (λ a. some first_job)
        (("p", 0) ∷ [])
        12
        idle
      ≡ some (b, y))
    × (b ≡ true
        → AllCaughtUp clock run_one
            (Executed small_admin by_time small_on_error small_admin-AdminService
              small_on_error-OnError)
            (execute-Executor small_admin by_time small_on_error small_admin-AdminService
              small_on_error-OnError)
            (λ a. some first_job)
            12
            y
            (("p", 0) ∷ []))
    × ((u : ℕ) (r : SchedulableEntity)
        → Executed small_admin by_time small_on_error small_admin-AdminService
            small_on_error-OnError u r idle
        → Executed small_admin by_time small_on_error small_admin-AdminService
            small_on_error-OnError u r y)
catchup_all-Complete_example =
    catchup_all-Complete clock run_one
      (Executed small_admin by_time small_on_error small_admin-AdminService small_on_error-OnError)
      (execute-Executor small_admin by_time small_on_error small_admin-AdminService
        small_on_error-OnError)
      20 (λ a. some first_job) (("p", 0) ∷ []) 12 idle
      (λ a s from e. subst (IsForward clock) (ap (λ p. p.0) (some-equal e)) every_minute-Forward)
      (omega arith)

-- A codec that writes the empty snapshot and one with the time of `p`, and fails on any other.
abbrev sized : SnapshotV1 → Bytes × Option Error
sized [] = ([], none)
sized ((n, t) ∷ []) = if str_eq n "p" then (t ∷ [], none) else ([], some (foreign 4))
sized (x ∷ y ∷ rest) = ([], some (foreign 4))

abbrev named : Bytes → Result SnapshotV1
named [] = ok []
named (t ∷ rest) = ok (("p", t) ∷ [])

abbrev versions : Bytes → Result (ℕ × Bytes)
versions [] = err (foreign 5)
versions (v ∷ b) = ok (v, b)

abbrev small_gob : Gob
small_gob = record {
  encode_times = sized;
  decode_times = named;
  encode_versioned = λ v b. (v ∷ b, none);
  decode_versioned = versions;
}

sized_other :
    (n : String) (t : ℕ) → str_eq n "p" ≡ false → (sized ((n, t) ∷ [])).1 ≡ some (foreign 4)
sized_other n t e = rw e refl

named-sized : (s : SnapshotV1) → (sized s).1 ≡ none → named (sized s).0 ≡ ok s
named-sized [] fine = refl
named-sized ((n, t) ∷ []) fine = elim (Bool-cases (str_eq n "p")) [
  | inl e ↦ rw e (ap (λ m. ok ((m, t) ∷ [])) (sym ((eq_iff n "p").0 e)))
  | inr e ↦ absurd (cc (sized_other n t e, fine))
]
named-sized (x ∷ y ∷ rest) fine = absurd (cc fine)

small_gob-Gob : IsGob small_gob
small_gob-Gob = record { times_back = named-sized; versioned_back = λ v b e. refl }

abbrev last_row : SnapshotRepo
last_row = record {
  Db = List Bytes;
  write_db = λ d b. (none, b ∷ d);
  read_db = λ d. elim d [ [] ↦ err (flyte_admin Code.not_found none) | b ∷ bs ↦ ok b ];
}

abbrev no_rows : Persistence last_row
no_rows = record { db = []; snapshot_creation_errors = 0; snapshot_save_errors = 0 }

read-save_example :
    read small_gob last_row (save small_gob last_row (("p", 30) ∷ []) no_rows) ≡ ok (("p", 30) ∷ [])
unfolding save write_snapshot
read-save_example =
    read-save small_gob last_row small_gob-Gob (λ d b e. refl) (("p", 30) ∷ []) no_rows refl refl
      refl
