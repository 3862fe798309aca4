-- ===== src/LaunchPlan/Schedules.antt =====
-- The event scheduler that launch plans are enabled with
-- (pkg/async/schedule/interfaces/event_scheduler.go), and when a plan has a schedule
-- (`isScheduleEmpty` in pkg/manager/impl/launch_plan_manager.go).
use flyteadmin.Common.{
  not, ℕ, String, Bool, true, false, not, List, Result, ok, Option, some, none, str_eq, ◌==◌,
  if◌then◌else◌, ◌≡◌,
}
use flyteadmin.LaunchPlan.{
  is_complete, LaunchPlanKey, same_plan, Schedule, LaunchPlanSpec, cron_expression, rate,
  cron_schedule,
}
use flyteadmin.Scheduler.{SchedulableEntity}

pub record AddScheduleInput : Type 0 where
  pub identifier : LaunchPlanKey
  pub schedule : Schedule

abbrev pub get_schedule : LaunchPlanSpec → Option Schedule
get_schedule spec = elim spec.entity_metadata [ none ↦ none | some m ↦ m.schedule ]

-- `GetCronExpression()` and `GetRate().GetValue()`.
abbrev pub get_cron_expression : Schedule → String
get_cron_expression s = elim s.expression [
  | some (cron_expression c) ↦ c
  | some (rate v u) ↦ ""
  | some (cron_schedule c o) ↦ ""
  | none ↦ ""
]

abbrev pub get_rate_value : Schedule → ℕ
get_rate_value s = elim s.expression [
  | some (rate v u) ↦ v
  | some (cron_expression c) ↦ 0
  | some (cron_schedule c o) ↦ 0
  | none ↦ 0
]

unfoldable pub is_schedule_empty : LaunchPlanSpec → Bool
is_schedule_empty spec = elim (get_schedule spec) [
  | none ↦ true
  | some schedule ↦
      if not (str_eq schedule.kickoff_time_input_arg "")
      then false
      else if not (str_eq (get_cron_expression schedule) "")
      then false
      else if not (get_rate_value schedule == 0)
      then false
      else true
]

-- The scheduler that the manager is given, over the table of schedules.
pub record EventScheduler : Type 0 where
  pub create_schedule_input : LaunchPlanKey → Schedule → Result AddScheduleInput
  pub add_schedule : List SchedulableEntity → AddScheduleInput → Result (List SchedulableEntity)
  pub remove_schedule : List SchedulableEntity → LaunchPlanKey → Result (List SchedulableEntity)
  -- whether the plan's schedule is in force
  pub is_scheduled : List SchedulableEntity → LaunchPlanKey → Bool

-- Adding and removing a schedule change that of the named plan and no other.
pub record IsEventScheduler (s : EventScheduler) : Type 0 where
  pub created-identifier :
      (k : LaunchPlanKey) (e : Schedule) (i : AddScheduleInput)
      → s.create_schedule_input k e ≡ ok i
      → i.identifier ≡ k
  pub is_scheduled-add :
      (t t' : List SchedulableEntity) (i : AddScheduleInput) (k : LaunchPlanKey)
      → is_complete i.identifier ≡ true
      → s.add_schedule t i ≡ ok t'
      → s.is_scheduled t' k ≡ (if same_plan i.identifier k then true else s.is_scheduled t k)
  pub is_scheduled-remove :
      (t t' : List SchedulableEntity) (d k : LaunchPlanKey)
      → is_complete d ≡ true
      → s.remove_schedule t d ≡ ok t'
      → s.is_scheduled t' k ≡ (if same_plan d k then false else s.is_scheduled t k)
