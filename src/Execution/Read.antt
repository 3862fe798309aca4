-- ===== src/Execution/Read.antt =====
-- Building the row of a new execution and reading a row back
-- (`CreateExecutionModel` and `FromExecutionModel`, pkg/repositories/transformers/execution.go).
use flyteadmin.Common.{
  ℕ, String, List, [], ◌∷◌, some, none, Option, Bool, true, false, not, ◌&&◌, Result, ok, or_fail,
  ◌>>=◌, internal, str_eq, if◌then◌else◌, pos, ltb,
}
use flyteadmin.Phase.{WorkflowPhase, running, aborted, same_phase}
use flyteadmin.Execution.{
  EntityId, Notification, ExecutionKey, OutputResult, abort_metadata, ExecutionClosure,
  ExecutionMetadata, ExecutionSpec, Execution, Wire,
}

pub record CreateInput : Type 0 where
  pub workflow_execution_id : ExecutionKey
  pub request_spec : ExecutionSpec
  pub launch_plan_id : ℕ
  pub workflow_id : ℕ
  pub task_id : ℕ
  pub phase : WorkflowPhase
  pub created_at : ℕ
  pub notifications : List Notification
  pub workflow_identifier : Option EntityId
  pub parent_node_execution_id : ℕ
  pub source_execution_id : ℕ
  pub cluster : String
  pub inputs_uri : String
  pub user_inputs_uri : String

pub record ExecutionView : Type 0 where
  pub id : ExecutionKey
  pub spec : ExecutionSpec
  pub closure : ExecutionClosure

abbrev pub or_empty : Option ExecutionMetadata → ExecutionMetadata
or_empty none = record { mode = 0; principal = ""; system_metadata = none }
or_empty (some m) = m

abbrev pub is_abort_metadata : Option OutputResult → Bool
is_abort_metadata (some (abort_metadata cause principal)) = true
is_abort_metadata _ = false

module _ (w : Wire) where
  unfoldable pub create_execution_model : CreateInput → Result Execution
  create_execution_model input = do
    let metadata = record (or_empty input.request_spec.metadata) {
      system_metadata = some input.cluster;
    }
    let request_spec = record (input.request_spec) { metadata = some metadata }
    spec ← or_fail (w.marshal_spec request_spec) internal
    created_at ← or_fail (w.timestamp_proto input.created_at) internal
    closure ←
        or_fail
          (w.marshal_closure (record {
            phase = input.phase;
            created_at = some created_at;
            updated_at = some created_at;
            started_at = if same_phase input.phase running then some created_at else none;
            duration = none;
            output_result = none;
            notifications = input.notifications;
            workflow_id = input.workflow_identifier;
          }))
          internal
    ok (record {
      key = input.workflow_execution_id;
      launch_plan_id = if ltb 0 input.task_id then 0 else input.launch_plan_id;
      workflow_id = input.workflow_id;
      task_id = if ltb 0 input.task_id then input.task_id else 0;
      phase = w.phase_name input.phase;
      closure = closure;
      spec = spec;
      started_at = none;
      execution_created_at = some input.created_at;
      execution_updated_at = some input.created_at;
      duration = pos 0;
      abort_cause = "";
      mode = metadata.mode;
      source_execution_id = input.source_execution_id;
      parent_node_execution_id = input.parent_node_execution_id;
      cluster = input.cluster;
      inputs_uri = input.inputs_uri;
      user_inputs_uri = input.user_inputs_uri;
      error_kind = none;
      error_code = none;
      user = metadata.principal;
    })

  -- An aborted row whose closure has no abort metadata gets them from the column.
  abbrev pub with_abort_cause : Execution → ExecutionClosure → ExecutionClosure
  with_abort_cause execution closure =
      if str_eq execution.phase (w.phase_name aborted)
        && not (is_abort_metadata closure.output_result)
      then record closure { output_result = some (abort_metadata execution.abort_cause "") }
      else closure

  unfoldable pub from_execution_model : Execution → Result ExecutionView
  from_execution_model execution = do
    spec ← or_fail (w.unmarshal_spec execution.spec) internal
    closure ← or_fail (w.unmarshal_closure execution.closure) internal
    ok (record { id = execution.key; spec = spec; closure = with_abort_cause execution closure })

  -- The list stops at the first row that cannot be read.
  unfoldable pub from_execution_models : List Execution → Result (List ExecutionView)
  unfolding from_execution_model
  from_execution_models [] = ok []
  from_execution_models (x ∷ xs) = do
    view ← from_execution_model x
    views ← from_execution_models xs
    ok (view ∷ views)
