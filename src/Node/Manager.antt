-- ===== src/Node/Manager.antt =====
-- The handler of node events (`CreateNodeEvent` in pkg/manager/impl/node_execution_manager.go).
use flyteadmin.Node.Store.{
  publish_node_event_error, node_output_bytes_observed, node_event_published,
  active_node_executions_dec, node_executions_terminated, missing_execution, node_event_written,
  active_node_executions_inc, node_executions_created, missing_workflow_execution,
  node_execution_events_created, update_succeeded, already_in_terminal_status,
  closure_size_observed, emit_node, validate_task_execution_identifier, UpdateStatus,
  validate_cluster, NodeState, NodeEffect, format_dynamic_workflow_id, NodeConfig, NodeDb,
}
use flyteadmin.Common.{
  ℕ, String, List, [], ◌∷◌, ◌++◌, some, none, Option, Bool, true, false, Result, ok, err,
  flyte_admin, Code, or_fail, ◌>>=◌, ◌>>◌, internal, already_exists, new_flyte_admin_error,
  new_already_in_terminal_state_error, if◌then◌else◌,
}
use flyteadmin.Phase.{node_running, is_node_execution_terminal}
use flyteadmin.Execution.{Execution, ExecutionKey, event_data, EventOutput}
use flyteadmin.Execution.Repo.{Repo}
use flyteadmin.Node.{
  TaskExecutionIdentifier, NodeExecution, NodeEvent, NodeWire, NodeExecutionKey, same_node_phase,
  task_node_event, workflow_node_event, no_target, DynamicWorkflow,
}
use flyteadmin.Node.Rows.{create_node_execution_model, update_node_execution_model}

module _ (w : NodeWire) (r : Repo) (db : NodeDb) (cfg : NodeConfig) where
  -- `GetTaskExecutionModel`, the id of the model.
  unfoldable pub get_task_execution_model : TaskExecutionIdentifier → Result ℕ
  unfolding validate_task_execution_identifier
  get_task_execution_model id = do validate_task_execution_identifier id; cfg.get_task_execution id

  abbrev pub find_parent_task : NodeEvent → Result (Option ℕ)
  find_parent_task event = elim event.parent_task [
    | none ↦ ok none
    | some t ↦ get_task_execution_model t >>= λ id. ok (some id)
  ]

  abbrev pub find_parent_node : NodeEvent → List NodeExecution → Result (Option ℕ)
  find_parent_node event nodes = elim event.parent_node [
    | none ↦ ok none
    | some n ↦ db.get nodes (record { execution = event.id.execution; node_id = n }) >>= λ parent.
        ok (some parent.id)
  ]

  unfoldable pub create_node_execution_with_event :
      NodeEvent → String → List NodeExecution → Result (List NodeExecution)
  create_node_execution_with_event event dynamic nodes = do
    parent_task_execution_id ← find_parent_task event
    parent_id ← find_parent_node event nodes
    model ←
        create_node_execution_model w cfg.policy event parent_task_execution_id parent_id dynamic
    db.create nodes model

  -- The execution that the node launched; that its identifier is invalid is only logged.
  abbrev pub find_child : NodeEvent → List Execution → Result (Option ExecutionKey)
  find_child event executions = elim event.target [
    | workflow_node_event k ↦ r.get executions k >>= λ x. ok (some k)
    | task_node_event m ↦ ok none
    | no_target ↦ ok none
  ]

  abbrev pub store_update :
      NodeEvent → String → List Execution → List NodeExecution → NodeExecution → Result UpdateStatus
  store_update event dynamic executions nodes row = do
    child ← find_child event executions
    updated ← update_node_execution_model w cfg.policy event child dynamic row
    nodes' ← db.update nodes updated
    ok (update_succeeded nodes')

  unfoldable pub update_node_execution_with_event :
      NodeEvent → String → List Execution → List NodeExecution → NodeExecution → Result UpdateStatus
  update_node_execution_with_event event dynamic executions nodes row =
      if same_node_phase (w.phase_value row.phase) event.phase
      then err (new_flyte_admin_error already_exists)
      else if is_node_execution_terminal (w.phase_value row.phase)
      then ok already_in_terminal_status
      else store_update event dynamic executions nodes row

  unfoldable pub upload_dynamic_workflow_closure :
      NodeExecutionKey → DynamicWorkflow → Result String
  upload_dynamic_workflow_closure node dynamic = do
    reference ←
        or_fail
          (w.construct_reference (
            cfg.storage_prefix
            ++ node.execution.project
              ∷ node.execution.domain
              ∷ node.execution.name
              ∷ node.node_id
              ∷ format_dynamic_workflow_id dynamic.id
              ∷ []))
          internal
    written ← or_fail (w.write_protobuf reference dynamic.compiled_workflow) internal
    ok reference

  abbrev pub upload_if_dynamic : NodeEvent → Result String
  upload_if_dynamic event = elim event.target [
    | workflow_node_event k ↦ ok ""
    | no_target ↦ ok ""
    | task_node_event m ↦ elim m.dynamic_workflow [
      | none ↦ ok ""
      | some d ↦ upload_dynamic_workflow_closure event.id d
    ]
  ]

  -- The table after an update. An event for a node that is over is refused with the phase of the
  -- event.
  abbrev pub settle : NodeEvent → UpdateStatus → Result (List NodeExecution × List NodeEffect)
  settle event (update_succeeded nodes') = ok (nodes', [])
  settle event already_in_terminal_status =
      err (new_already_in_terminal_state_error (w.phase_name event.phase))

  abbrev pub store_found :
      NodeEvent
      → String
      → List Execution
      → List NodeExecution
      → Result NodeExecution
      → Result (List NodeExecution × List NodeEffect)
  store_found event dynamic executions nodes (err (flyte_admin Code.not_found x)) = do
    nodes' ← create_node_execution_with_event event dynamic nodes
    ok (nodes', closure_size_observed ∷ node_executions_created ∷ [])
  store_found event dynamic executions nodes (err e) = err e
  store_found event dynamic executions nodes (ok row) = do
    status ← update_node_execution_with_event event dynamic executions nodes row
    settle event status

  -- What is checked and written, once the execution is found.
  unfoldable pub record_node_event :
      NodeEvent
      → Execution
      → List Execution
      → List NodeExecution
      → Result (List NodeExecution × List NodeEffect)
  unfolding create_node_execution_with_event update_node_execution_with_event validate_cluster
  record_node_event event execution executions nodes = do
    validate_cluster execution.cluster event.producer_id
    dynamic ← upload_if_dynamic event
    store_found event dynamic executions nodes (db.get nodes event.id)

  abbrev carries_node_data : Option EventOutput → Bool
  carries_node_data (some (event_data d)) = true
  carries_node_data _ = false

  abbrev measure_node : NodeEvent → NodeState → NodeState
  measure_node event st =
      if same_node_phase event.phase node_running
      then emit_node active_node_executions_inc st
      else if is_node_execution_terminal event.phase
      then (let ended =
            emit_node node_executions_terminated (emit_node active_node_executions_dec st) in
          if carries_node_data event.output
          then emit_node node_output_bytes_observed ended
          else ended)
      else st

  -- What follows once the table holds the event.
  unfoldable pub finish_node_event : NodeEvent → NodeState → NodeState
  finish_node_event event st =
      let counted =
        emit_node node_execution_events_created
          (measure_node event (emit_node node_event_written st)) in
      let published = emit_node node_event_published counted in
      if cfg.delivers counted.trace then published else emit_node publish_node_event_error published

  abbrev pub close_node_event :
      NodeEvent
      → NodeState
      → Result (List NodeExecution × List NodeEffect)
      → NodeState × Result (Unit {0})
  close_node_event event st (err e) = (st, err e)
  close_node_event event st (ok (nodes', effects)) =
      (finish_node_event event (record st { nodes = nodes'; trace = st.trace ++ effects }), ok tt)

  abbrev pub with_execution :
      NodeEvent → NodeState → Result Execution → NodeState × Result (Unit {0})
  with_execution event st (err e) =
      (emit_node missing_workflow_execution st, err (missing_execution e))
  with_execution event st (ok execution) =
      close_node_event event st (record_node_event event execution st.executions st.nodes)

  -- The validation of the event is only logged.
  unfoldable pub create_node_event : NodeEvent → NodeState → NodeState × Result (Unit {0})
  unfolding record_node_event finish_node_event
  create_node_event event st = with_execution event st (r.get st.executions event.id.execution)
