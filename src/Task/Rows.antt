-- ===== src/Task/Rows.antt =====
-- What an event makes of the row of its task (pkg/repositories/transformers/task_execution.go).
use flyteadmin.Common.{
  ℕ, String, List, [], ◌∷◌, some, none, Option, Bool, true, false, Result, ok, or_fail, ◌>>=◌,
  internal, str_eq, if◌then◌else◌, sub_time, pos, ◌||◌, ◌&&◌,
}
use flyteadmin.Execution.{
  Bytes, event_uri, event_data, event_error, EventOutput, InlineEventDataPolicy, offload,
  store_inline, LiteralMap,
}
use flyteadmin.Node.{output_uri, output_data, node_error}
use flyteadmin.Task.{
  TaskClosure, TaskEvent, TaskExecution, TaskWire, is_task_execution_terminal, is_task_running,
  task_queued, task_undefined, task_running,
}
use flyteadmin.Task.Logs.{merge_logs}

-- The row and its closure while they change.
abbrev pub Draft : Type 0
Draft = TaskExecution × TaskClosure

module _ (w : TaskWire) where
  -- `addTaskStartedState`, under the guard of its two callers.
  unfoldable pub add_task_started_state :
      (starts : Bool) → TaskEvent → TaskExecution → TaskClosure → Result Draft
  add_task_started_state false event row closure = ok (row, closure)
  add_task_started_state true event row closure =
      or_fail (w.timestamp event.occurred_at) internal >>= λ occurred_at. ok (
        record row { started_at = some occurred_at },
        record closure { started_at = event.occurred_at },
      )

  -- The duration of a task that has a start time.
  unfoldable pub add_duration :
      (started_at : Option ℕ) → TaskEvent → TaskExecution → TaskClosure → Result Draft
  add_duration none event row closure = ok (row, closure)
  add_duration (some started) event row closure =
      or_fail (w.timestamp event.occurred_at) internal >>= λ end_time.
      or_fail (w.timestamp_proto started) internal >>= λ stamp. ok (
        record row { duration = sub_time end_time started },
        record closure { started_at = some stamp; duration = some (sub_time end_time started) },
      )

  -- `OffloadLiteralMap`, of a map that is not nil.
  unfoldable pub offload_task_outputs : LiteralMap → List String → Result String
  offload_task_outputs literals nested_keys = do
    uri ← or_fail (w.construct_reference ("metadata" ∷ nested_keys)) internal
    written ← or_fail (w.write_protobuf uri literals) internal
    ok uri

  abbrev pub output_keys : TaskEvent → List String
  output_keys event =
      event.parent_node_execution_id.execution.project
      ∷ event.parent_node_execution_id.execution.domain
      ∷ event.parent_node_execution_id.execution.name
      ∷ event.parent_node_execution_id.node_id
      ∷ event.task_id.project
      ∷ event.task_id.domain
      ∷ event.task_id.name
      ∷ event.task_id.version
      ∷ w.format_uint event.retry_attempt
      ∷ "offloaded_outputs"
      ∷ []

  unfoldable pub add_output :
      InlineEventDataPolicy → TaskEvent → Option EventOutput → TaskClosure → Result TaskClosure
  add_output policy event none closure = ok closure
  add_output policy event (some (event_uri uri)) closure =
      if str_eq uri ""
      then ok closure
      else ok (record closure { output_result = some (output_uri uri) })
  add_output store_inline event (some (event_data literals)) closure =
      ok (record closure { output_result = some (output_data literals) })
  add_output offload event (some (event_data literals)) closure =
      offload_task_outputs literals (output_keys event) >>= λ uri.
      ok (record closure { output_result = some (output_uri uri) })
  add_output policy event (some (event_error e)) closure =
      ok (record closure { output_result = some (node_error e) })

  -- `addTaskTerminalState`, under the guard of its two callers.
  unfoldable pub add_task_terminal_state :
      (ends : Bool) → InlineEventDataPolicy → TaskEvent → TaskExecution → TaskClosure → Result Draft
  unfolding add_duration add_output
  add_task_terminal_state false policy event row closure = ok (row, closure)
  add_task_terminal_state true policy event row closure = do
    (timed, timed_closure) ← add_duration row.started_at event row closure
    final_closure ← add_output policy event event.output timed_closure
    ok (timed, final_closure)

  abbrev pub new_row : TaskEvent → TaskExecution
  new_row event = record {
    key = record {
      project = event.task_id.project;
      domain = event.task_id.domain;
      name = event.task_id.name;
      version = event.task_id.version;
      node = event.parent_node_execution_id;
      retry_attempt = event.retry_attempt;
    };
    phase = w.phase_name event.phase;
    phase_version = event.phase_version;
    input_uri = event.input_uri;
    closure = [];
    started_at = none;
    task_execution_created_at = none;
    task_execution_updated_at = none;
    duration = pos 0;
    child_node_execution = 0;
  }

  abbrev pub new_closure : TaskEvent → TaskClosure
  new_closure event = record {
    phase = event.phase;
    created_at = event.occurred_at;
    updated_at = event.occurred_at;
    started_at = none;
    duration = none;
    output_result = none;
    logs = event.logs;
    custom_info = event.custom_info;
    reason = event.reason;
    task_type = event.task_type;
  }

  -- The last steps of `CreateTaskExecutionModel`.
  unfoldable pub seal_created : TaskEvent → TaskExecution → TaskClosure → Result TaskExecution
  seal_created event row closure = do
    marshaled ← or_fail (w.marshal_closure closure) internal
    created_at ← or_fail (w.timestamp event.occurred_at) internal
    ok (record row {
      closure = marshaled;
      task_execution_created_at = some created_at;
      task_execution_updated_at = some created_at;
    })

  unfoldable pub create_task_execution_model :
      InlineEventDataPolicy → TaskEvent → Result TaskExecution
  unfolding add_task_started_state add_task_terminal_state seal_created is_task_execution_terminal
  create_task_execution_model policy event = do
    (row, closure) ←
        add_task_started_state (is_task_running event.phase) event (new_row event)
          (new_closure event)
    (final, final_closure) ←
        add_task_terminal_state (is_task_execution_terminal event.phase) policy event row closure
    seal_created event final final_closure

  -- The values of the latest custom info take precedence over the existing ones. The one caller
  -- makes an internal error of any error, which stands here already.
  unfoldable pub merge_custom : (existing latest : Option Bytes) → Result (Option Bytes)
  merge_custom none latest = ok latest
  merge_custom (some existing) none = ok (some existing)
  merge_custom (some existing) (some latest) = do
    json_existing ← or_fail (w.to_json existing) internal
    json_latest ← or_fail (w.to_json latest) internal
    patch ← or_fail (w.create_merge_patch w.json_empty json_latest) internal
    custom ← or_fail (w.merge_patch json_existing patch) internal
    response ← or_fail (w.from_json custom) internal
    ok (some response)

  -- The start time is recorded only on the step from queued or undefined to running.
  abbrev pub starts : TaskExecution → TaskEvent → Bool
  starts row event =
      (str_eq row.phase (w.phase_name task_queued)
        || str_eq row.phase (w.phase_name task_undefined))
      && str_eq (w.phase_name event.phase) (w.phase_name task_running)

  abbrev pub advance_row : TaskEvent → TaskExecution → TaskExecution
  advance_row event row = record row {
    phase = w.phase_name event.phase;
    phase_version = event.phase_version;
  }

  abbrev pub advance_closure : TaskEvent → TaskClosure → TaskClosure
  advance_closure event closure = record closure {
    phase = event.phase;
    updated_at = event.occurred_at;
    logs = merge_logs closure.logs event.logs;
    reason = if str_eq event.reason "" then closure.reason else event.reason;
  }

  -- The last steps of `UpdateTaskExecutionModel`.
  unfoldable pub seal_updated : TaskEvent → TaskExecution → TaskClosure → Result TaskExecution
  unfolding merge_custom
  seal_updated event row closure = do
    custom_info ← merge_custom closure.custom_info event.custom_info
    marshaled ← or_fail (w.marshal_closure (record closure { custom_info = custom_info })) internal
    updated_at ← or_fail (w.timestamp event.occurred_at) internal
    ok (record row { closure = marshaled; task_execution_updated_at = some updated_at })

  unfoldable pub update_task_execution_model :
      InlineEventDataPolicy → TaskEvent → TaskExecution → Result TaskExecution
  unfolding add_task_started_state add_task_terminal_state seal_updated is_task_execution_terminal
  update_task_execution_model policy event row = do
    closure ← or_fail (w.unmarshal_closure row.closure) internal
    (started, started_closure) ←
        add_task_started_state (starts row event) event (advance_row event row)
          (advance_closure event closure)
    (final, final_closure) ←
        add_task_terminal_state (is_task_execution_terminal event.phase) policy event started
          started_closure
    seal_updated event final final_closure
