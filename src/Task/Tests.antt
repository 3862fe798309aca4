-- ===== src/Task/Tests.antt =====
-- Tests of the rows of tasks (pkg/repositories/transformers/task_execution.go): a task that starts and
-- succeeds, and the theorems at these events.
use flyteadmin.Execution.Event.{validate_workflow_execution_identifier}
use flyteadmin.Task.Samples.{is_bare, decode-encode_if, wire, row_of, event, plain_wire}
use flyteadmin.Node.Samples.{executions_db}
use flyteadmin.Task.Manager.{
  validate_task_execution_request, update_task_execution_model_state, create_task_execution,
  create_task_execution_event, TaskDb, handle_tasks-terminal, handle_tasks, TaskState, AreOf,
  TaskConfig,
}
use flyteadmin.Validation.{validate_identifier_fields_set, validate_identifier}
use flyteadmin.Common.{
  not_found, new_flyte_admin_error, err, Result, ◌≡◌, refl, ap, ok, some, none, [], ◌∷◌, true, List,
  String, pos, sub_time,
}
use flyteadmin.Execution.{store_inline}
use flyteadmin.Task.{
  TaskEvent, TaskExecution, TaskLog, task_queued, task_running, task_succeeded, task_failed,
  is_task_execution_terminal,
}
use flyteadmin.Task.Logs.{merge_logs, merge_logs-again}
use flyteadmin.Task.Rows.{create_task_execution_model, update_task_execution_model}
use flyteadmin.Task.Times.{update-times, TaskTimes}
use flyteadmin.Task.Views.{from-update, from_task_execution_model, TaskView}

abbrev log : String → String → TaskLog
log uri name = record { uri = uri; name = name; rest = [] }

-- An existing log is left out if the latest logs have its URI or its name.
merge_logs_test :
    merge_logs (log "u1" "a" ∷ log "u2" "b" ∷ log "u3" "" ∷ []) (log "u1" "x" ∷ log "u4" "b" ∷ [])
    ≡ log "u1" "x" ∷ log "u4" "b" ∷ log "u3" "" ∷ []
unfolding merge_logs
merge_logs_test = refl

merge_logs-again_example :
    merge_logs
      (merge_logs (log "u1" "a" ∷ log "u3" "" ∷ []) (log "u1" "x" ∷ []))
      (log "u1" "x" ∷ [])
    ≡ merge_logs (log "u1" "a" ∷ log "u3" "" ∷ []) (log "u1" "x" ∷ [])
merge_logs-again_example = merge_logs-again (log "u1" "a" ∷ log "u3" "" ∷ []) (log "u1" "x" ∷ [])

-- A task that is queued and then runs has a start time, and a task that is initialized in between
-- has none.
queued_runs :
    update_task_execution_model plain_wire store_inline
      (event task_running 5)
      (row_of "QUEUED" 0 [] none 1)
    ≡ ok (row_of "RUNNING" 1 [] (some 5) 5)
unfolding update_task_execution_model
queued_runs = refl

initializing_runs :
    update_task_execution_model plain_wire store_inline
      (event task_running 5)
      (row_of "INITIALIZING" 0 [] none 1)
    ≡ ok (row_of "RUNNING" 1 [] none 5)
unfolding update_task_execution_model
initializing_runs = refl

abbrev ended : TaskExecution
ended = record (row_of "SUCCEEDED" 1 [] (some 5) 9) { duration = pos 4 }

ends :
    update_task_execution_model plain_wire store_inline
      (event task_succeeded 9)
      (row_of "RUNNING" 1 [] (some 5) 5)
    ≡ ok ended
unfolding update_task_execution_model sub_time
ends = refl

update-times_example :
    TaskTimes plain_wire (event task_succeeded 9) (row_of "RUNNING" 1 [] (some 5) 5) ended
update-times_example =
    update-times plain_wire store_inline (event task_succeeded 9) (row_of "RUNNING" 1 [] (some 5) 5)
      ended ends

runs_on :
    update_task_execution_model wire store_inline
      (event task_running 9)
      (row_of "RUNNING" 0 (0 ∷ 5 ∷ []) (some 5) 5)
    ≡ ok (row_of "RUNNING" 1 (0 ∷ 9 ∷ []) (some 5) 9)
unfolding update_task_execution_model merge_logs
runs_on = refl

from-update_example :
    (u : TaskView) × (v : TaskView) × (from_task_execution_model wire
        (row_of "RUNNING" 0 (0 ∷ 5 ∷ []) (some 5) 5)
      ≡ ok u)
    × (from_task_execution_model wire (row_of "RUNNING" 1 (0 ∷ 9 ∷ []) (some 5) 9) ≡ ok v)
    × (v.id ≡ u.id)
    × (v.closure.phase ≡ task_running)
    × (v.closure.updated_at ≡ some (record { seconds = 0; nanos = 9 }))
    × (v.closure.logs ≡ merge_logs u.closure.logs [])
    × (v.closure.reason ≡ u.closure.reason)
from-update_example =
    from-update wire store_inline (event task_running 9)
      (row_of "RUNNING" 0 (0 ∷ 5 ∷ []) (some 5) 5) (row_of "RUNNING" 1 (0 ∷ 9 ∷ []) (some 5) 9)
      (λ d b. decode-encode_if d (is_bare d) d.updated_at b refl refl) runs_on

-- A table that holds one row, which is found under any key.
abbrev get_task : List TaskExecution → Result TaskExecution
get_task [] = err (new_flyte_admin_error not_found)
get_task (x ∷ t) = ok x

abbrev task_db : TaskDb
task_db = record {
  node_exists = λ k. ok true;
  get = λ t k. get_task t;
  create = λ t x. ok (x ∷ t);
  update = λ t x. ok (x ∷ []);
}

abbrev task_config : TaskConfig
task_config = record { policy = store_inline; max_size_in_bytes = 100; delivers = λ trace. true }

abbrev no_tasks : TaskState
no_tasks = record { executions = []; tasks = []; trace = [] }

abbrev handle : List TaskEvent → TaskState → TaskState
handle = handle_tasks plain_wire executions_db task_db task_config

abbrev after_run : TaskState
after_run =
    handle (event task_queued 1 ∷ event task_running 5 ∷ event task_succeeded 9 ∷ []) no_tasks

ran_tasks : after_run.tasks ≡ ended ∷ []
unfolding handle_tasks create_task_execution_event create_task_execution
    update_task_execution_model_state create_task_execution_model update_task_execution_model
    sub_time merge_logs validate_task_execution_request validate_workflow_execution_identifier
    validate_identifier validate_identifier_fields_set
ran_tasks = refl

ended_over : is_task_execution_terminal (plain_wire.phase_value "SUCCEEDED") ≡ true
unfolding is_task_execution_terminal
ended_over = refl

repeated_of : AreOf ended.key (event task_running 11 ∷ event task_failed 12 ∷ [])
unfolding AreOf
repeated_of = (refl, (refl, tt))

handle_tasks-terminal_example :
    handle (event task_running 11 ∷ event task_failed 12 ∷ []) after_run ≡ after_run
handle_tasks-terminal_example =
    handle_tasks-terminal plain_wire executions_db task_db task_config
      (event task_running 11 ∷ event task_failed 12 ∷ []) after_run ended.key ended
      (ap get_task ran_tasks) ended_over repeated_of
