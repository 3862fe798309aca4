-- ===== src/LaunchPlan/Views.antt =====
-- Launch plans as the service returns them (pkg/repositories/transformers/launch_plan.go).
use flyteadmin.Common.{
  String, Result, ok, or_fail, internal, ◌>>=◌, some, none, List, [], ◌∷◌, str_eq, if◌then◌else◌,
  not, ℕ,
}
use flyteadmin.Execution.{Bytes}
use flyteadmin.Validation.{Identifier, Variable, launch_plan, NamedEntityIdentifier}
use flyteadmin.LaunchPlan.{
  LaunchPlan, LaunchPlanSpec, LaunchPlanClosure, PlanWire, Schedule, rate, cron_expression,
  cron_schedule,
}
use flyteadmin.LaunchPlan.Schedules.{get_schedule, get_cron_expression}
use flyteadmin.LaunchPlan.Store.{name_of}

-- `admin.LaunchPlan`.
pub record LaunchPlanView : Type 0 where
  pub id : Identifier
  pub spec : LaunchPlanSpec
  pub closure : LaunchPlanClosure

-- `CreateLaunchPlan`, of the identifier and the spec of the request.
unfoldable pub create_launch_plan_view :
    Identifier → LaunchPlanSpec → List (String × Variable) → LaunchPlanView
create_launch_plan_view id spec expected_outputs = record {
  id = id;
  spec = spec;
  closure = record {
    state = 0;
    expected_inputs = spec.default_inputs;
    expected_outputs = expected_outputs;
    created_at = none;
    updated_at = none;
  };
}

abbrev rate_type : Schedule → String
rate_type s = elim s.expression [
  | some (rate v u) ↦ "RATE"
  | some (cron_expression c) ↦ "NONE"
  | some (cron_schedule c o) ↦ "NONE"
  | none ↦ "NONE"
]

unfoldable pub schedule_type_of : LaunchPlanSpec → String
schedule_type_of spec = elim (get_schedule spec) [
  | none ↦ "NONE"
  | some s ↦ if not (str_eq (get_cron_expression s) "") then "CRON" else rate_type s
]

module _ (w : PlanWire) where
  unfoldable pub create_launch_plan_model :
      LaunchPlanView → (workflow_repo_id : ℕ) → Bytes → ℕ → Result LaunchPlan
  unfolding schedule_type_of
  create_launch_plan_model plan workflow_repo_id digest init_state = do
    spec ← or_fail (w.marshal_spec plan.spec) internal
    closure ← or_fail (w.marshal_closure plan.closure) internal
    ok (record {
      created_at = 0;
      updated_at = 0;
      key = record {
        project = plan.id.project;
        domain = plan.id.domain;
        name = plan.id.name;
        version = plan.id.version;
      };
      spec = spec;
      workflow_id = workflow_repo_id;
      closure = closure;
      state = some init_state;
      digest = digest;
      schedule_type = schedule_type_of plan.spec;
    })

  unfoldable pub from_launch_plan_model : LaunchPlan → Result LaunchPlanView
  from_launch_plan_model model = do
    spec ← or_fail (w.unmarshal_spec model.spec) internal
    closure ← or_fail (w.unmarshal_closure model.closure) internal
    created_at ← or_fail (w.timestamp_proto model.created_at) internal
    updated_at ← or_fail (w.timestamp_proto model.updated_at) internal
    ok (record {
      id = record {
        resource_type = launch_plan;
        project = model.key.project;
        domain = model.key.domain;
        name = model.key.name;
        version = model.key.version;
      };
      spec = spec;
      closure = record closure {
        state = elim model.state [ none ↦ closure.state | some s ↦ s ];
        created_at = some created_at;
        updated_at = some updated_at;
      };
    })

  unfoldable pub from_launch_plan_models : List LaunchPlan → Result (List LaunchPlanView)
  from_launch_plan_models [] = ok []
  from_launch_plan_models (m ∷ ms) = do
    view ← from_launch_plan_model m
    views ← from_launch_plan_models ms
    ok (view ∷ views)

unfoldable pub from_launch_plan_models_to_identifiers : List LaunchPlan → List NamedEntityIdentifier
from_launch_plan_models_to_identifiers [] = []
from_launch_plan_models_to_identifiers (m ∷ ms) =
    name_of m.key ∷ from_launch_plan_models_to_identifiers ms
