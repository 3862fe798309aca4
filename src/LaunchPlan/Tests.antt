-- ===== src/LaunchPlan/Tests.antt =====
-- Tests of the handlers of launch plans (pkg/manager/impl/launch_plan_manager.go) on one plan, and
-- the theorems at these inputs.
use flyteadmin.LaunchPlan.InForce.{update_launch_plan-in_force}
use flyteadmin.LaunchPlan.Twice.{create_launch_plan-again}
use flyteadmin.LaunchPlan.Enabled.{update_launch_plan-get_active}
use flyteadmin.LaunchPlan.Views.{
  create_launch_plan_view, create_launch_plan_model, from_launch_plan_model,
}
use flyteadmin.LaunchPlan.Expected.{
  check_and_fetch-load, validate_schedule-required, expected_entry,
}
use flyteadmin.LaunchPlan.Active.{update_launch_plan-IsSingle}
use flyteadmin.Validation.{
  validate_parameter_map, validate_literal_map, validate_labels, validate_project_and_domain,
  validate_empty_string_field, validate_identifier_fields_set, validate_identifier,
}
use flyteadmin.LaunchPlan.Requests.{
  daily_spec, create_daily, create_libraries, daily_schedule, schedules_db-IsSchedulesDb,
  idle_state, enable_daily, any_libraries, daily_id, schedules_db, kickoff_parameter, daily_row,
  plan_wire,
}
use flyteadmin.LaunchPlan.Manager.{get_active_launch_plan, update_launch_plan, PlanState, plan_key}
use flyteadmin.LaunchPlan.Rows.{same_plan-eq, same_plan_self, IsSingle}
use flyteadmin.Scheduler.Core.{load}
use flyteadmin.LaunchPlan.Scheduled.{is_on, IsRight}
use flyteadmin.LaunchPlan.Samples.{some_if, get_row, plans_db-IsPlansDb, plans_db}
use flyteadmin.LaunchPlan.Schedules.{is_schedule_empty, EventScheduler}
use flyteadmin.LaunchPlan.Create.{create_launch_plan}
use flyteadmin.LaunchPlan.Inputs.{
  validate_launch_plan, is_in, validate_schedule, check_and_fetch_expected_input_for_launch_plan,
}
use flyteadmin.Common.{
  Option, already_exists, new_flyte_admin_error, not, ◌&&◌, Result, String, ◌≡◌, refl, sym, ap, ◌∙◌,
  ok, err, some, [], ◌∷◌, true, false, List,
}
use flyteadmin.LaunchPlan.Native.{
  native_scheduler, native_scheduler-IsEventScheduler, create_schedule_input, add_schedule,
}
use flyteadmin.LaunchPlan.Store.{IsActive, name_of, set_active}
use flyteadmin.LaunchPlan.{
  Literal, is_complete, inactive, Variable, LaunchPlan, LaunchPlanKey, same_plan,
}

abbrev scheduler : EventScheduler
scheduler = native_scheduler schedules_db

abbrev enabled : PlanState × Result (Unit {0})
enabled = update_launch_plan plan_wire plans_db scheduler enable_daily idle_state

abbrev active_row : LaunchPlan
active_row = record daily_row { state = some 1 }

enabled-plans : enabled.0.plans ≡ active_row ∷ []
unfolding update_launch_plan same_plan create_schedule_input add_schedule set_active
enabled-plans = refl

enabled-result : enabled.1 ≡ ok tt
unfolding update_launch_plan same_plan create_schedule_input add_schedule set_active
enabled-result = refl

head_row : (x : LaunchPlan) → plans_db.row (x ∷ []) x.key ≡ some x
head_row x = rw (same_plan_self x.key) refl

enabled-row : plans_db.row enabled.0.plans (plan_key daily_id) ≡ some active_row
enabled-row = ap (λ t. plans_db.row t (plan_key daily_id)) enabled-plans ∙ head_row active_row

idle-key :
    (k : LaunchPlanKey) (x : LaunchPlan)
    → plans_db.row idle_state.plans k ≡ some x
    → (plan_key daily_id ≡ k) × (daily_row ≡ x)
idle-key k x h =
    let (e, same) = some_if (same_plan daily_row.key k) daily_row x h in
    (same_plan-eq daily_row.key k e, same)

idle-AllComplete :
    (k : LaunchPlanKey) (x : LaunchPlan)
    → plans_db.row idle_state.plans k ≡ some x
    → is_complete k ≡ true
idle-AllComplete k x h = ap is_complete (sym (idle-key k x h).0)

idle-IsSingle : IsSingle (plans_db.row idle_state.plans)
idle-IsSingle k l x y h g ax ay same = sym (idle-key k x h).0 ∙ (idle-key l y g).0

idle-IsRight : IsRight plan_wire (scheduler.is_scheduled []) (plans_db.row idle_state.plans)
idle-IsRight k x spec h hs =
    ap (λ r. false) h ∙ ap (λ r. is_on r && not (is_schedule_empty spec)) (idle-key k x h).1

update_launch_plan-IsSingle_example : plan_key daily_id ≡ plan_key daily_id
update_launch_plan-IsSingle_example =
    update_launch_plan-IsSingle plan_wire plans_db scheduler plans_db-IsPlansDb enable_daily
      idle_state idle-IsSingle (plan_key daily_id) (plan_key daily_id) active_row active_row
      enabled-row enabled-row refl refl refl

update_launch_plan-in_force_example :
    scheduler.is_scheduled enabled.0.schedules (plan_key daily_id)
    ≡ (is_on active_row && not (is_schedule_empty daily_spec))
update_launch_plan-in_force_example =
    update_launch_plan-in_force plan_wire plans_db scheduler plans_db-IsPlansDb
      (native_scheduler-IsEventScheduler schedules_db schedules_db-IsSchedulesDb) enable_daily
      idle_state idle-AllComplete idle-IsRight enabled-result (plan_key daily_id) active_row
      daily_spec enabled-row refl

enabled-answer :
    plans_db.list_active enabled.0.plans (name_of (plan_key daily_id)) ≡ ok (active_row ∷ [])
enabled-answer = ap (λ t. plans_db.list_active t (name_of (plan_key daily_id))) enabled-plans

update_launch_plan-get_active_example :
    (x : LaunchPlan) × (x.key ≡ plan_key daily_id)
    × IsActive x
    × (get_active_launch_plan plan_wire plans_db scheduler
          (name_of (plan_key daily_id))
          enabled.0.plans
        ≡ from_launch_plan_model plan_wire x)
update_launch_plan-get_active_example =
    update_launch_plan-get_active plan_wire plans_db scheduler plans_db-IsPlansDb
      (native_scheduler-IsEventScheduler schedules_db schedules_db-IsSchedulesDb) enable_daily
      idle_state refl refl idle-IsSingle enabled-result (active_row ∷ []) enabled-answer

created :
    create_launch_plan plan_wire plans_db create_libraries create_daily []
    ≡ ok (daily_row ∷ [], 1, 1)
unfolding create_launch_plan validate_identifier validate_identifier_fields_set
    validate_empty_string_field validate_launch_plan validate_project_and_domain validate_labels
    validate_literal_map validate_parameter_map check_and_fetch_expected_input_for_launch_plan
    validate_schedule create_launch_plan_model create_launch_plan_view
created = refl

create_launch_plan-again_example :
    (daily_row.state ≡ some inactive)
    × (create_launch_plan plan_wire plans_db create_libraries create_daily (daily_row ∷ [])
        ≡ err (new_flyte_admin_error already_exists))
create_launch_plan-again_example =
    create_launch_plan-again plan_wire plans_db create_libraries plans_db-IsPlansDb create_daily []
      (daily_row ∷ []) (1, 1) created daily_id daily_row refl (ap get_row (head_row daily_row))

abbrev now_inputs : List (String × Variable)
now_inputs =
    ("now", record { type_of = some (record { simple = 5; rest = [] }); description = "" }) ∷ []

abbrev no_fixed : List (String × Option Literal)
no_fixed = []

now-checked :
    check_and_fetch_expected_input_for_launch_plan any_libraries now_inputs []
      (("now", kickoff_parameter) ∷ [])
    ≡ ok (("now", kickoff_parameter) ∷ [])
unfolding check_and_fetch_expected_input_for_launch_plan
now-checked = refl

check_and_fetch-load_example :
    load "now" (("now", kickoff_parameter) ∷ [])
    ≡ expected_entry
        (load "now" now_inputs)
        (load "now" (("now", kickoff_parameter) ∷ []))
        (is_in "now" no_fixed)
check_and_fetch-load_example =
    check_and_fetch-load any_libraries now_inputs [] (("now", kickoff_parameter) ∷ [])
      (("now", kickoff_parameter) ∷ []) now-checked "now"

daily-valid :
    validate_schedule any_libraries (some daily_schedule) (("now", kickoff_parameter) ∷ []) ≡ ok tt
unfolding validate_schedule
daily-valid = refl

validate_schedule-required_example : "now" ≡ daily_schedule.kickoff_time_input_arg
validate_schedule-required_example =
    validate_schedule-required any_libraries daily_schedule (("now", kickoff_parameter) ∷ []) "now"
      kickoff_parameter daily-valid refl refl refl
