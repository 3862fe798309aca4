-- ===== src/Task/Manager.antt =====
-- The handler of task events (`CreateTaskExecutionEvent` in pkg/manager/impl/task_execution_manager.go).
use flyteadmin.Common.{
  ◌≡◌, refl, ap, ◌∙◌, ℕ, List, [], ◌∷◌, ◌++◌, some, none, Option, Bool, true, false, Result, ok,
  err, foreign, flyte_admin, Code, ◌>>=◌, ◌>>◌, new_flyte_admin_error, resource_exhausted,
  invalid_argument, already_exists, new_already_in_terminal_state_error, if◌then◌else◌, str_eq, leb,
  ◌&&◌, ◌==◌,
}
use flyteadmin.Execution.{Execution, InlineEventDataPolicy, event_data, EventOutput}
use flyteadmin.Execution.Repo.{Repo}
use flyteadmin.Node.{NodeExecutionKey}
use flyteadmin.Node.Store.{missing_execution, validate_cluster, validate_task_execution_identifier}
use flyteadmin.Task.{
  TaskEvent, TaskExecution, TaskExecutionKey, TaskWire, is_task_execution_terminal, is_task_running,
}
use flyteadmin.Task.Rows.{create_task_execution_model, update_task_execution_model}

-- The table of task executions.
pub record TaskDb : Type 0 where
  pub node_exists : NodeExecutionKey → Result Bool
  pub get : List TaskExecution → TaskExecutionKey → Result TaskExecution
  pub create : List TaskExecution → TaskExecution → Result (List TaskExecution)
  pub update : List TaskExecution → TaskExecution → Result (List TaskExecution)

pub data TaskEffect : Type 0 where
  missing_task_execution task_executions_created task_closure_size_observed : TaskEffect
  active_task_executions_inc active_task_executions_dec task_executions_terminated : TaskEffect
  task_output_bytes_observed task_event_published publish_task_event_error : TaskEffect
  task_execution_events_created : TaskEffect

pub record TaskState : Type 0 where
  pub executions : List Execution
  pub tasks : List TaskExecution
  pub trace : List TaskEffect

pub record TaskConfig : Type 0 where
  pub policy : InlineEventDataPolicy
  pub max_size_in_bytes : ℕ
  -- whether the publisher accepts the event, after what has been done so far
  pub delivers : List TaskEffect → Bool

abbrev emit_task : TaskEffect → TaskState → TaskState
emit_task e st = record st { trace = st.trace ++ e ∷ [] }

abbrev pub task_key : TaskEvent → TaskExecutionKey
task_key event = record {
  project = event.task_id.project;
  domain = event.task_id.domain;
  name = event.task_id.name;
  version = event.task_id.version;
  node = event.parent_node_execution_id;
  retry_attempt = event.retry_attempt;
}

-- All events are on the task of a key.
unfoldable pub AreOf : TaskExecutionKey → List TaskEvent → Type 0
AreOf k [] = Unit {0}
AreOf k (e ∷ es) = (task_key e ≡ k) × AreOf k es

module _ (w : TaskWire) (r : Repo) (db : TaskDb) (cfg : TaskConfig) where
  -- `ValidateOutputData`.
  abbrev validate_task_output : Option EventOutput → Result (Unit {0})
  validate_task_output (some (event_data d)) =
      if leb (w.size d) cfg.max_size_in_bytes
      then ok tt
      else err (new_flyte_admin_error resource_exhausted)
  validate_task_output _ = ok tt

  -- `ValidateTaskExecutionRequest`, of an event with its identifiers in it.
  unfoldable pub validate_task_execution_request : TaskEvent → Result (Unit {0})
  unfolding validate_task_execution_identifier
  validate_task_execution_request event = elim event.occurred_at [
    | none ↦ err (new_flyte_admin_error invalid_argument)
    | some s ↦
        validate_task_output event.output
        >> validate_task_execution_identifier (record {
          task_id = some event.task_id;
          retry_attempt = event.retry_attempt;
          node_execution_id = some (record {
            execution_id = some event.parent_node_execution_id.execution;
            node_id = event.parent_node_execution_id.node_id;
          });
        })
  ]

  -- The checks before the table is read.
  abbrev check_task_event : TaskEvent → TaskState → Result (Unit {0})
  check_task_event event st = do
    validate_task_execution_request event
    execution ← r.get st.executions event.parent_node_execution_id.execution
    validate_cluster execution.cluster event.producer_id

  abbrev close_created : TaskState → Result (List TaskExecution) → TaskState × Result (Unit {0})
  close_created st (err e) = (st, err e)
  close_created st (ok tasks) = (
    emit_task task_closure_size_observed
        (emit_task task_executions_created (record st { tasks = tasks })),
    ok tt,
  )

  -- A missing node is no error of this program, and one of the table keeps its code.
  abbrev create_if : Result Bool → TaskEvent → TaskState → TaskState × Result (Unit {0})
  create_if (err e) event st = (emit_task missing_task_execution st, err (missing_execution e))
  create_if (ok false) event st = (emit_task missing_task_execution st, err (foreign 0))
  create_if (ok true) event st =
      close_created st
        (create_task_execution_model w cfg.policy event >>= λ model. db.create st.tasks model)

  unfoldable pub create_task_execution : TaskEvent → TaskState → TaskState × Result (Unit {0})
  create_task_execution event st =
      create_if (db.node_exists event.parent_node_execution_id) event st

  unfoldable pub update_task_execution_model_state :
      TaskEvent → List TaskExecution → TaskExecution → Result (List TaskExecution)
  update_task_execution_model_state event tasks row = do
    model ← update_task_execution_model w cfg.policy event row
    db.update tasks model

  abbrev carries_task_data : Option EventOutput → Bool
  carries_task_data (some (event_data d)) = true
  carries_task_data _ = false

  abbrev measure_task : TaskEvent → TaskState → TaskState
  measure_task event st =
      if is_task_running event.phase && event.phase_version == 0
      then emit_task active_task_executions_inc st
      else if is_task_execution_terminal event.phase && event.phase_version == 0
      then (let ended =
            emit_task task_executions_terminated (emit_task active_task_executions_dec st) in
          if carries_task_data event.output
          then emit_task task_output_bytes_observed ended
          else ended)
      else st

  abbrev publish_task : TaskState → TaskState
  publish_task st =
      let published = emit_task task_event_published st in
      if cfg.delivers st.trace then published else emit_task publish_task_event_error published

  -- What follows the update of the table.
  abbrev close_updated :
      TaskEvent → TaskState → Result (List TaskExecution) → TaskState × Result (Unit {0})
  close_updated event st (err e) = (st, err e)
  close_updated event st (ok tasks) = (
    emit_task task_execution_events_created
        (publish_task (measure_task event (record st { tasks = tasks }))),
    ok tt,
  )

  -- Whether the phase, in this version or a later one, is on record.
  abbrev is_recorded : TaskExecution → TaskEvent → Bool
  is_recorded row event =
      str_eq row.phase (w.phase_name event.phase) && leb event.phase_version row.phase_version

  abbrev update_if :
      (recorded over : Bool) → TaskEvent → TaskState → TaskExecution → TaskState × Result (Unit {0})
  update_if true over event st row = (st, err (new_flyte_admin_error already_exists))
  update_if false true event st row =
      (st, err (new_already_in_terminal_state_error (w.phase_name event.phase)))
  update_if false false event st row =
      close_updated event st (update_task_execution_model_state event st.tasks row)

  -- On an error that is not of this program the code panics; it is returned here.
  abbrev store_if : Result TaskExecution → TaskEvent → TaskState → TaskState × Result (Unit {0})
  store_if (err (flyte_admin Code.not_found x)) event st = create_task_execution event st
  store_if (err e) event st = (st, err e)
  store_if (ok row) event st =
      update_if (is_recorded row event) (is_task_execution_terminal (w.phase_value row.phase)) event
        st row

  abbrev accept_if : Result (Unit {0}) → TaskEvent → TaskState → TaskState × Result (Unit {0})
  accept_if (err e) event st = (st, err e)
  accept_if (ok u) event st = store_if (db.get st.tasks (task_key event)) event st

  -- The event is in the request; without one the validator refuses it.
  unfoldable pub create_task_execution_event :
      Option TaskEvent → TaskState → TaskState × Result (Unit {0})
  unfolding validate_cluster is_task_execution_terminal
  create_task_execution_event none st = (st, err (new_flyte_admin_error invalid_argument))
  create_task_execution_event (some event) st = accept_if (check_task_event event st) event st

  -- Events one after the other.
  unfoldable pub handle_tasks : List TaskEvent → TaskState → TaskState
  handle_tasks [] st = st
  handle_tasks (e ∷ es) st = handle_tasks es (create_task_execution_event (some e) st).0

  over_if :
      (recorded over : Bool) (e : TaskEvent) (st : TaskState) (row : TaskExecution)
      → over ≡ true
      → (update_if recorded over e st row).0 ≡ st
  over_if true over e st row h = refl
  over_if false true e st row h = refl
  over_if false false e st row h = cc

  refused :
      (checked : Result (Unit {0})) (e : TaskEvent) (st : TaskState) (row : TaskExecution)
      → db.get st.tasks (task_key e) ≡ ok row
      → is_task_execution_terminal (w.phase_value row.phase) ≡ true
      → (accept_if checked e st).0 ≡ st
  refused (err x) e st row found over = refl
  refused (ok u) e st row found over =
      ap (λ g. (store_if g e st).0) found
      ∙ over_if (is_recorded row e) (is_task_execution_terminal (w.phase_value row.phase)) e st row
          over

  -- While the row of a task is in a terminal phase, any sequence of events on that task leaves the
  -- table, the counters and all else as they are.
  pub handle_tasks-terminal :
      (es : List TaskEvent) (st : TaskState) (k : TaskExecutionKey) (row : TaskExecution)
      → db.get st.tasks k ≡ ok row
      → is_task_execution_terminal (w.phase_value row.phase) ≡ true
      → AreOf k es
      → handle_tasks es st ≡ st
  unfolding handle_tasks create_task_execution_event AreOf
  handle_tasks-terminal [] st k row found over of = refl
  handle_tasks-terminal (e ∷ es) st k row found over of =
      ap (handle_tasks es)
        (refused (check_task_event e st) e st row (ap (db.get st.tasks) of.0 ∙ found) over)
      ∙ handle_tasks-terminal es st k row found over of.1
