-- ===== src/Scheduler/CatchUp.antt =====
-- The catch-up of the jobs after a start (`CatchupAll` and `CatchUpSingleSchedule` in
-- scheduler/core/gocron_scheduler.go).
pub mod Complete
use flyteadmin.Scheduler.Times.{get_catch_up_times}
use flyteadmin.Scheduler.Core.{GoCronJob}
use flyteadmin.Scheduler.{SchedulableEntity, CronTimes}
use flyteadmin.Common.{
  err, String, not, Bool, ok, Option, List, Result, ℕ, ◌≡◌, ◌∷◌, [], suc, some, none, true, false,
  if◌then◌else◌,
}

module _ (c : CronTimes) {X : Type 0}
    (execute : ℕ → SchedulableEntity → X → Result (Unit {0}) × X) where
  unfoldable pub execute_times : List ℕ → SchedulableEntity → X → Result (Unit {0}) × X
  execute_times [] s x = (ok tt, x)
  execute_times (t ∷ ts) s x =
      let (r, y) = execute t s x in elim r [ err e ↦ (err e, y) | ok u ↦ execute_times ts s y ]

  -- `none` is a catch-up that has not ended within the fuel.
  unfoldable pub catch_up_single_schedule :
      ℕ → SchedulableEntity → ℕ → ℕ → X → Option (Result (Unit {0}) × X)
  catch_up_single_schedule fuel s from to x = elim (get_catch_up_times c fuel s from to) [
    | none ↦ none
    | some (err e) ↦ some (err e, x)
    | some (ok times) ↦ some (execute_times times s x)
  ]

  -- What the catch-up of the jobs that come after makes of the catch-up of one.
  abbrev pub and_then : Option (Result (Unit {0}) × X) → (X → Option (Bool × X)) → Option (Bool × X)
  and_then none rest = none
  and_then (some (err e, y)) rest = some (false, y)
  and_then (some (ok u, y)) rest = rest y

  -- The jobs that have something to catch up, with the time from which they do.
  abbrev pub due : Option GoCronJob → Option (SchedulableEntity × ℕ)
  due none = none
  due (some job) =
      if not job.schedule.active
      then none
      else elim job.catchup_from_time [ none ↦ none | some from ↦ some (job.schedule, from) ]

  unfoldable pub catchup_all :
      ℕ → (ℕ → Option GoCronJob) → List (String × ℕ) → ℕ → X → Option (Bool × X)
  catchup_all fuel heap [] until x = some (true, x)
  catchup_all fuel heap ((n, a) ∷ jobs) until x = elim (due (heap a)) [
    | none ↦ catchup_all fuel heap jobs until x
    | some (s, from) ↦
        and_then (catch_up_single_schedule fuel s from until x) (catchup_all fuel heap jobs until)
  ]
