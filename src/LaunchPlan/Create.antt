-- ===== src/LaunchPlan/Create.antt =====
-- The handler that creates a launch plan (`CreateLaunchPlan` in
-- pkg/manager/impl/launch_plan_manager.go).
use flyteadmin.Common.{
  String, Result, ok, err, Option, some, none, Bool, true, false, ℕ, List, [], ◌∷◌, ◌>>=◌, ◌>>◌,
  if◌then◌else◌, ◌&&◌, ◌==◌, or_fail, internal, length, already_exists, invalid_argument,
  new_flyte_admin_error,
}
use flyteadmin.Execution.{Bytes}
use flyteadmin.Validation.{Identifier, Variable, validate_identifier, workflow}
use flyteadmin.LaunchPlan.{LaunchPlan, LaunchPlanSpec, PlanWire, inactive}
use flyteadmin.LaunchPlan.Store.{PlansDb}
use flyteadmin.LaunchPlan.Views.{LaunchPlanView, create_launch_plan_view, create_launch_plan_model}
use flyteadmin.LaunchPlan.Manager.{plan_key}
use flyteadmin.LaunchPlan.Inputs.{PlanChecks, validate_launch_plan}

pub record TypedInterface : Type 0 where
  pub inputs : List (String × Variable)
  pub outputs : List (String × Variable)

-- A row of the table of workflows, as far as this handler reads it.
pub record WorkflowModel : Type 0 where
  pub id : ℕ
  pub typed_interface : Bytes

-- What the handler calls besides: the table of workflows, the protobuf library and the hash.
pub record CreateLibraries : Type 0 where
  pub checks : PlanChecks
  pub get_workflow : Identifier → Result WorkflowModel
  pub unmarshal_interface : Bytes → Option TypedInterface
  pub compute_hash : LaunchPlanView → Option Bytes

pub record LaunchPlanCreateRequest : Type 0 where
  pub id : Option Identifier
  pub spec : Option LaunchPlanSpec

unfoldable pub bytes_equal : Bytes → Bytes → Bool
bytes_equal [] [] = true
bytes_equal [] (y ∷ ys) = false
bytes_equal (x ∷ xs) [] = false
bytes_equal (x ∷ xs) (y ∷ ys) = x == y && bytes_equal xs ys

abbrev pub empty_interface : TypedInterface
empty_interface = record { inputs = []; outputs = [] }

abbrev pub workflow_id_of : Option LaunchPlanSpec → Option Identifier
workflow_id_of none = none
workflow_id_of (some spec) = spec.workflow_id

module _ (w : PlanWire) (db : PlansDb) (c : CreateLibraries) where
  abbrev pub read_interface : Bytes → Result TypedInterface
  read_interface [] = ok empty_interface
  read_interface (b ∷ bytes) = or_fail (c.unmarshal_interface (b ∷ bytes)) internal

  -- `GetLaunchPlanDigest`.
  unfoldable pub get_launch_plan_digest : LaunchPlanView → Result Bytes
  get_launch_plan_digest plan = or_fail (c.compute_hash plan) internal

  -- The plan to store with its digest, and the workflow it is for.
  unfoldable pub prepare_launch_plan :
      LaunchPlanCreateRequest → Result (LaunchPlanView × Bytes × WorkflowModel)
  unfolding get_launch_plan_digest
  prepare_launch_plan request = do
    workflow_id ← validate_identifier (workflow_id_of request.spec) workflow
    model ← c.get_workflow workflow_id
    interface ← read_interface model.typed_interface
    (id, spec) ← validate_launch_plan c.checks request.id request.spec interface.inputs
    let plan = create_launch_plan_view id spec interface.outputs
    digest ← get_launch_plan_digest plan
    ok (plan, digest, model)

  -- The plan on record under the key, if it can be read, is the same or another one.
  unfoldable pub check_existing : Result LaunchPlan → Bytes → Result (Unit {0})
  check_existing (err e) digest = ok tt
  check_existing (ok existing) digest =
      if bytes_equal existing.digest digest
      then err (new_flyte_admin_error already_exists)
      else err (new_flyte_admin_error invalid_argument)

  -- The new table, and the sizes that the metrics observe.
  unfoldable pub create_launch_plan :
      LaunchPlanCreateRequest → List LaunchPlan → Result (List LaunchPlan × ℕ × ℕ)
  unfolding prepare_launch_plan check_existing
  create_launch_plan request plans = do
    (plan, digest, workflow_model) ← prepare_launch_plan request
    check_existing (db.get plans (plan_key plan.id)) digest
    model ← create_launch_plan_model w plan workflow_model.id digest inactive
    plans' ← db.create plans model
    ok (plans', length model.spec, length model.closure)
