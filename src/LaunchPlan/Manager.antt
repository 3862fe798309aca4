-- ===== src/LaunchPlan/Manager.antt =====
-- The handlers that enable and disable launch plans and that read them
-- (pkg/manager/impl/launch_plan_manager.go).
use flyteadmin.Common.{
  ℕ, List, [], ◌∷◌, some, none, Option, Result, ok, err, flyte_admin, Code, or_fail, ◌>>=◌, ◌>>◌,
  internal, invalid_argument, not_found, new_flyte_admin_error, if◌then◌else◌, ◌==◌, suc,
}
use flyteadmin.Validation.{
  Identifier, NamedEntityIdentifier, launch_plan, validate_identifier,
  validate_active_launch_plan_request,
}
use flyteadmin.Scheduler.{SchedulableEntity}
use flyteadmin.LaunchPlan.{
  LaunchPlan, LaunchPlanKey, LaunchPlanSpec, PlanWire, active, inactive, Schedule,
}
use flyteadmin.LaunchPlan.Schedules.{EventScheduler, is_schedule_empty, get_schedule}
use flyteadmin.LaunchPlan.Store.{PlansDb, set_active, name_of}
use flyteadmin.LaunchPlan.Views.{LaunchPlanView, from_launch_plan_model}

pub record PlanState : Type 0 where
  pub plans : List LaunchPlan
  pub schedules : List SchedulableEntity
  pub failed_schedule_updates : ℕ

-- `admin.LaunchPlanUpdateRequest`; the manager reads the identifier without a test for nil.
pub record LaunchPlanUpdateRequest : Type 0 where
  pub id : Identifier
  pub state : ℕ

abbrev pub plan_key : Identifier → LaunchPlanKey
plan_key id = record {
  project = id.project;
  domain = id.domain;
  name = id.name;
  version = id.version;
}

-- The spec before anything is read into it.
abbrev pub empty_spec : LaunchPlanSpec
empty_spec = record {
  workflow_id = none;
  entity_metadata = none;
  default_inputs = [];
  fixed_inputs = [];
  labels = none;
  rest = [];
}

module _ (w : PlanWire) where
  unfoldable pub update_launch_plan_model_state : LaunchPlan → ℕ → Result LaunchPlan
  update_launch_plan_model_state plan state = do
    closure ← or_fail (w.unmarshal_closure plan.closure) internal
    marshalled ← or_fail (w.marshal_closure closure) internal
    ok (record plan { closure = marshalled; state = some state })

  abbrev pub read_spec : LaunchPlan → Result LaunchPlanSpec
  read_spec m = or_fail (w.unmarshal_spec m.spec) internal

  abbrev pub read_former_spec : Option LaunchPlan → Result LaunchPlanSpec
  read_former_spec none = ok empty_spec
  read_former_spec (some m) = read_spec m

module _ (w : PlanWire) (sched : EventScheduler) where
  unfoldable pub enable_schedule :
      List SchedulableEntity → LaunchPlanKey → Schedule → Result (List SchedulableEntity)
  enable_schedule s id schedule = do
    input ← sched.create_schedule_input id schedule
    sched.add_schedule s input

  unfoldable pub disable_schedule :
      List SchedulableEntity → LaunchPlanKey → Result (List SchedulableEntity)
  disable_schedule s id = sched.remove_schedule s id

  abbrev pub disable_former :
      List SchedulableEntity → Option LaunchPlan → LaunchPlanSpec → Result (List SchedulableEntity)
  disable_former s none spec = ok s
  disable_former s (some former) spec =
      if is_schedule_empty spec then ok s else disable_schedule s former.key

  -- A spec whose schedule is not empty has one.
  abbrev pub enable_newly :
      List SchedulableEntity → LaunchPlanKey → LaunchPlanSpec → Result (List SchedulableEntity)
  enable_newly s id spec = elim (get_schedule spec) [
    | none ↦ ok s
    | some schedule ↦ if is_schedule_empty spec then ok s else enable_schedule s id schedule
  ]

  abbrev pub read_specs : LaunchPlan → Option LaunchPlan → Result (LaunchPlanSpec × LaunchPlanSpec)
  read_specs newly former = do
    newly_spec ← read_spec w newly
    former_spec ← read_former_spec w former
    ok (newly_spec, former_spec)

  abbrev pub schedules_or :
      List SchedulableEntity
      → Result (List SchedulableEntity)
      → List SchedulableEntity × Result (Unit {0})
  schedules_or s (err e) = (s, err e)
  schedules_or s (ok s') = (s', ok tt)

  abbrev pub after_disable :
      List SchedulableEntity
      → LaunchPlanKey
      → LaunchPlanSpec
      → Result (List SchedulableEntity)
      → List SchedulableEntity × Result (Unit {0})
  after_disable s id spec (err e) = (s, err e)
  after_disable s id spec (ok s') = schedules_or s' (enable_newly s' id spec)

  abbrev pub with_specs :
      List SchedulableEntity
      → LaunchPlan
      → Option LaunchPlan
      → Result (LaunchPlanSpec × LaunchPlanSpec)
      → List SchedulableEntity × Result (Unit {0})
  with_specs s newly former (err e) = (s, err e)
  with_specs s newly former (ok (newly_spec, former_spec)) =
      after_disable s newly.key newly_spec (disable_former s former former_spec)

  unfoldable pub update_schedules :
      List SchedulableEntity
      → LaunchPlan
      → Option LaunchPlan
      → List SchedulableEntity × Result (Unit {0})
  unfolding disable_schedule enable_schedule is_schedule_empty
  update_schedules s newly former = with_specs s newly former (read_specs newly former)

module _ (w : PlanWire) (db : PlansDb) (sched : EventScheduler) where
  abbrev pub find_disable :
      LaunchPlanUpdateRequest → List LaunchPlan → Result (LaunchPlan × LaunchPlanSpec)
  find_disable request plans = do
    id ← validate_identifier (some request.id) launch_plan
    found ← db.get plans (plan_key id)
    model ← update_launch_plan_model_state w found inactive
    spec ← read_spec w model
    ok (model, spec)

  abbrev pub remove_schedule :
      List SchedulableEntity → LaunchPlanKey → LaunchPlanSpec → Result (List SchedulableEntity)
  remove_schedule s id spec = elim (get_schedule spec) [
    | none ↦ ok s
    | some schedule ↦ disable_schedule w sched s id
  ]

  abbrev pub save_plans : PlanState → Result (List LaunchPlan) → PlanState × Result (Unit {0})
  save_plans st (err e) = (st, err e)
  save_plans st (ok plans') = (record st { plans = plans' }, ok tt)

  abbrev pub close_disable :
      PlanState → LaunchPlan → Result (List SchedulableEntity) → PlanState × Result (Unit {0})
  close_disable st model (err e) = (st, err e)
  close_disable st model (ok s') =
      save_plans (record st { schedules = s' }) (db.update st.plans model)

  abbrev pub disable_found :
      PlanState → Result (LaunchPlan × LaunchPlanSpec) → PlanState × Result (Unit {0})
  disable_found st (err e) = (st, err e)
  disable_found st (ok (model, spec)) =
      close_disable st model (remove_schedule st.schedules model.key spec)

  unfoldable pub disable_launch_plan :
      LaunchPlanUpdateRequest → PlanState → PlanState × Result (Unit {0})
  unfolding disable_schedule update_launch_plan_model_state
  disable_launch_plan request st = disable_found st (find_disable request st.plans)

  -- The active version, made inactive, if there is one.
  abbrev pub make_inactive : Result (List LaunchPlan) → Result (Option LaunchPlan)
  make_inactive (err (flyte_admin Code.not_found r)) = ok none
  make_inactive (err e) = err e
  make_inactive (ok []) = ok none
  make_inactive (ok (m ∷ ms)) = do d ← update_launch_plan_model_state w m inactive; ok (some d)

  unfoldable pub find_formerly_active : List LaunchPlan → LaunchPlanKey → Result (Option LaunchPlan)
  unfolding update_launch_plan_model_state
  find_formerly_active plans key = make_inactive (db.list_active plans (name_of key))

  abbrev pub find_enable :
      LaunchPlanUpdateRequest → List LaunchPlan → Result (LaunchPlan × Option LaunchPlan)
  find_enable request plans = do
    found ← db.get plans (plan_key request.id)
    newly ← update_launch_plan_model_state w found active
    former ← find_formerly_active plans newly.key
    ok (newly, former)

  abbrev pub close_enable :
      PlanState
      → LaunchPlan
      → Option LaunchPlan
      → List SchedulableEntity × Result (Unit {0})
      → PlanState × Result (Unit {0})
  close_enable st newly former (s', err e) = (
    record st { schedules = s'; failed_schedule_updates = suc st.failed_schedule_updates },
    err e,
  )
  close_enable st newly former (s', ok u) =
      save_plans (record st { schedules = s' }) (set_active db st.plans newly former)

  abbrev pub enable_found :
      PlanState → Result (LaunchPlan × Option LaunchPlan) → PlanState × Result (Unit {0})
  enable_found st (err e) = (st, err e)
  enable_found st (ok (newly, former)) =
      close_enable st newly former (update_schedules w sched st.schedules newly former)

  unfoldable pub enable_launch_plan :
      LaunchPlanUpdateRequest → PlanState → PlanState × Result (Unit {0})
  unfolding find_formerly_active update_schedules
  enable_launch_plan request st = enable_found st (find_enable request st.plans)

  -- The error of the validation is only logged.
  unfoldable pub update_launch_plan :
      LaunchPlanUpdateRequest → PlanState → PlanState × Result (Unit {0})
  unfolding disable_launch_plan enable_launch_plan
  update_launch_plan request st =
      if request.state == inactive
      then disable_launch_plan request st
      else if request.state == active
      then enable_launch_plan request st
      else (st, err (new_flyte_admin_error invalid_argument))

  unfoldable pub get_launch_plan : Identifier → List LaunchPlan → Result LaunchPlanView
  get_launch_plan request plans = do
    id ← validate_identifier (some request) launch_plan
    model ← db.get plans (plan_key id)
    from_launch_plan_model w model

  abbrev pub only_plan : List LaunchPlan → Result LaunchPlanView
  only_plan (m ∷ []) = from_launch_plan_model w m
  only_plan [] = err (new_flyte_admin_error not_found)
  only_plan (m ∷ n ∷ ms) = err (new_flyte_admin_error not_found)

  unfoldable pub get_active_launch_plan :
      NamedEntityIdentifier → List LaunchPlan → Result LaunchPlanView
  get_active_launch_plan id plans = do
    validate_active_launch_plan_request id
    found ← db.list_active plans id
    only_plan found
