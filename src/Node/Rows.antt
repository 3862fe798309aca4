-- ===== src/Node/Rows.antt =====
-- What an event makes of the row of its node (pkg/repositories/transformers/node_execution.go).
use flyteadmin.Common.{
  ℕ, String, List, [], ◌∷◌, some, none, Option, true, false, Result, ok, or_fail, ◌>>=◌, internal,
  str_eq, if◌then◌else◌, sub_time, pos, ltb,
}
use flyteadmin.Phase.{node_running, is_node_execution_terminal}
use flyteadmin.Execution.{
  ExecutionKey, event_uri, event_data, event_error, InlineEventDataPolicy, offload, store_inline,
  LiteralMap,
}
use flyteadmin.Node.{
  NodeExecution, NodeClosure, NodeEvent, NodeWire, NodeMetadata, NodeExecutionKey, output_uri,
  output_data, node_error, workflow_node, task_node, same_node_phase, task_node_event,
  workflow_node_event, no_target,
}

-- The row and its closure while they change.
abbrev pub Draft : Type 0
Draft = NodeExecution × NodeClosure

module _ (w : NodeWire) where
  -- `OffloadLiteralMap`, of a map that is not nil.
  unfoldable pub offload_node_outputs : LiteralMap → List String → Result String
  offload_node_outputs literals nested_keys = do
    uri ← or_fail (w.construct_reference ("metadata" ∷ nested_keys)) internal
    written ← or_fail (w.write_protobuf uri literals) internal
    ok uri

  unfoldable pub add_node_running_state : NodeEvent → NodeExecution → NodeClosure → Result Draft
  add_node_running_state event row closure = do
    occurred_at ← or_fail (w.timestamp event.occurred_at) internal
    started_at ← or_fail (w.timestamp_proto occurred_at) internal
    ok (
      record row { started_at = some occurred_at },
      record closure { started_at = some started_at },
    )

  -- The duration. The guard is on the closure, and the time subtracted is that of the row, which
  -- the code reads without a test: a row without one is an internal error here.
  unfoldable pub add_duration : NodeEvent → NodeExecution → NodeClosure → Result Draft
  add_duration event row closure = elim closure.started_at [
    | none ↦ ok (row, closure)
    | some s ↦ or_fail (w.timestamp event.occurred_at) internal >>= λ end_time.
        or_fail row.started_at internal >>= λ started. ok (
          record row { duration = sub_time end_time started },
          record closure { duration = some (sub_time end_time started) },
        )
  ]

  unfoldable pub add_output :
      InlineEventDataPolicy → NodeEvent → NodeExecution → NodeClosure → Result Draft
  add_output policy event row closure = elim event.output [
    | none ↦ ok (row, closure)
    | some (event_uri uri) ↦
        if str_eq uri ""
        then ok (row, closure)
        else ok (row, record closure { output_result = some (output_uri uri) })
    | some (event_data literals) ↦ elim policy [
      | store_inline ↦ ok (row, record closure { output_result = some (output_data literals) })
      | offload ↦
          offload_node_outputs literals (
            event.id.execution.project ∷ event.id.execution.domain ∷ event.id.execution.name
            ∷ event.id.node_id ∷ "offloaded_outputs" ∷ [])
          >>= λ uri. ok (row, record closure { output_result = some (output_uri uri) })
    ]
    | some (event_error e) ↦ ok (
      record row { error_kind = some e.kind; error_code = some e.code },
      record closure { output_result = some (node_error e) },
    )
  ]

  unfoldable pub add_terminal_state :
      InlineEventDataPolicy → NodeEvent → NodeExecution → NodeClosure → Result Draft
  unfolding add_duration add_output
  add_terminal_state policy event row closure = do
    (timed, timed_closure) ← add_duration event row closure
    add_output policy event timed timed_closure

  -- The running and the terminal state, as the phase of the event asks for.
  unfoldable pub add_state :
      InlineEventDataPolicy → NodeEvent → NodeExecution → NodeClosure → Result Draft
  unfolding add_node_running_state add_terminal_state
  add_state policy event row closure =
      if same_node_phase event.phase node_running
      then add_node_running_state event row closure
      else if is_node_execution_terminal event.phase
      then add_terminal_state policy event row closure
      else ok (row, closure)

  abbrev pub new_row : NodeEvent → NodeExecution
  new_row event = record {
    id = 0;
    key = event.id;
    phase = w.phase_name event.phase;
    input_uri = event.input_uri;
    closure = [];
    started_at = none;
    node_execution_created_at = none;
    node_execution_updated_at = none;
    duration = pos 0;
    node_execution_metadata = [];
    parent_id = none;
    child_node_executions = 0;
    parent_task_execution_id = none;
    error_kind = none;
    error_code = none;
    cache_status = none;
    dynamic_workflow_remote_closure_reference = "";
  }

  abbrev pub new_closure : NodeEvent → NodeClosure
  new_closure event = record {
    phase = event.phase;
    created_at = event.occurred_at;
    updated_at = event.occurred_at;
    started_at = none;
    duration = none;
    output_result = none;
    target_metadata = none;
  }

  abbrev pub new_metadata : NodeEvent → NodeMetadata
  new_metadata event = record {
    retry_group = event.retry_group;
    spec_node_id = event.spec_node_id;
    is_parent_node = false;
  }

  -- The last steps of `CreateNodeExecutionModel`.
  unfoldable pub seal_created :
      NodeEvent
      → (parent_task_execution_id parent_id : Option ℕ) → (dynamic_workflow_remote_closure : String)
      → NodeExecution
      → NodeClosure
      → Result NodeExecution
  seal_created event parent_task_execution_id parent_id dynamic row closure = do
    marshaled ← or_fail (w.marshal_closure closure) internal
    metadata ← or_fail (w.marshal_metadata (new_metadata event)) internal
    created_at ← or_fail (w.timestamp event.occurred_at) internal
    ok (record row {
      closure = marshaled;
      node_execution_metadata = metadata;
      node_execution_created_at = some created_at;
      node_execution_updated_at = some created_at;
      parent_task_execution_id = elim event.parent_task [
        | none ↦ none
        | some t ↦ parent_task_execution_id
      ];
      parent_id = parent_id;
      dynamic_workflow_remote_closure_reference = dynamic;
    })

  unfoldable pub create_node_execution_model :
      InlineEventDataPolicy
      → NodeEvent
      → (parent_task_execution_id parent_id : Option ℕ) → (dynamic_workflow_remote_closure : String)
      → Result NodeExecution
  unfolding add_state seal_created
  create_node_execution_model policy event parent_task_execution_id parent_id dynamic = do
    (row, closure) ← add_state policy event (new_row event) (new_closure event)
    seal_created event parent_task_execution_id parent_id dynamic row closure

  -- A workflow is recorded as launched unless one is, and then the metadata of a task with a key of
  -- the catalog replaces what there is.
  unfoldable pub add_target : NodeEvent → Option ExecutionKey → NodeExecution → NodeClosure → Draft
  add_target event target_execution row closure =
      let launched = elim target_execution as (λ o. NodeClosure) [
        | none ↦ closure
        | some k ↦ elim closure.target_metadata [
          | some (workflow_node j) ↦ closure
          | some (task_node s b) ↦ record closure { target_metadata = some (workflow_node k) }
          | none ↦ record closure { target_metadata = some (workflow_node k) }
        ]
      ] in
      elim event.target [
        | workflow_node_event k ↦ (row, launched)
        | no_target ↦ (row, launched)
        | task_node_event m ↦ elim m.catalog_key [
          | none ↦ (row, launched)
          | some key ↦ (
            record row { cache_status = some m.cache_status },
            record launched { target_metadata = some (task_node m.cache_status key) },
          )
        ]
      ]

  -- The last steps of `UpdateNodeExecutionModel`.
  unfoldable pub seal_updated :
      NodeEvent → String → NodeExecution → NodeClosure → Result NodeExecution
  seal_updated event dynamic row closure = do
    marshaled ← or_fail (w.marshal_closure closure) internal
    updated_at ← or_fail (w.timestamp event.occurred_at) internal
    ok (record row {
      closure = marshaled;
      node_execution_updated_at = some updated_at;
      dynamic_workflow_remote_closure_reference = dynamic;
    })

  unfoldable pub update_node_execution_model :
      InlineEventDataPolicy
      → NodeEvent
      → Option ExecutionKey
      → (dynamic_workflow_remote_closure : String) → NodeExecution
      → Result NodeExecution
  unfolding add_state add_target seal_updated
  update_node_execution_model policy event target_execution dynamic row = do
    closure ← or_fail (w.unmarshal_closure row.closure) internal
    (stated, stated_closure) ←
        add_state policy event (record row { phase = w.phase_name event.phase })
          (record closure { phase = event.phase; updated_at = event.occurred_at })
    let (final, final_closure) = add_target event target_execution stated stated_closure
    seal_updated event dynamic final final_closure

-- `admin.NodeExecution`.
pub record NodeView : Type 0 where
  pub id : NodeExecutionKey
  pub input_uri : String
  pub closure : NodeClosure
  pub metadata : NodeMetadata

module _ (w : NodeWire) where
  unfoldable pub from_node_execution_model : NodeExecution → Result NodeView
  from_node_execution_model row = do
    closure ← or_fail (w.unmarshal_closure row.closure) internal
    metadata ← or_fail (w.unmarshal_metadata row.node_execution_metadata) internal
    ok (record {
      id = row.key;
      input_uri = row.input_uri;
      closure = closure;
      metadata =
          if ltb 0 row.child_node_executions
          then record metadata { is_parent_node = true }
          else metadata;
    })

  unfoldable pub from_node_execution_models : List NodeExecution → Result (List NodeView)
  unfolding from_node_execution_model
  from_node_execution_models [] = ok []
  from_node_execution_models (x ∷ xs) = do
    view ← from_node_execution_model x
    views ← from_node_execution_models xs
    ok (view ∷ views)
