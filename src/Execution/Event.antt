-- ===== src/Execution/Event.antt =====
-- The handlers that change executions: `CreateWorkflowEvent`, `TerminateExecution` and
-- `publishNotifications` (pkg/manager/impl/execution_manager.go) with the validation of their
-- requests (pkg/manager/impl/validation/execution_validator.go and validation.go).
use flyteadmin.Common.{
  ℕ, String, List, [], ◌∷◌, ◌++◌, some, none, Option, Bool, true, false, not, ◌&&◌, ◌||◌, Result,
  ok, err, Error, or_fail, ◌>>=◌, ◌>>◌, internal, invalid_argument, already_exists,
  failed_precondition, resource_exhausted, new_flyte_admin_error,
  new_already_in_terminal_state_error, if◌then◌else◌, leb, ◌==◌,
}
use flyteadmin.Validation.{validate_empty_string_field}
use flyteadmin.Phase.{WorkflowPhase, queued, running, is_execution_terminal, same_phase}
use flyteadmin.Execution.{
  ExecutionKey, NotificationType, email, pager_duty, slack, other_type, Notification, event_data,
  EventOutput, Execution, WorkflowEvent, InlineEventDataPolicy, Wire,
}
use flyteadmin.Execution.Repo.{Repo}
use flyteadmin.Execution.Read.{from_execution_model}
use flyteadmin.Execution.Update.{update_execution_model_state, set_execution_aborted}

-- What a handler does besides the table: the event writer, the publishers, the engine and the
-- counters, in order.
pub data Effect : Type 0 where
  event_written active_executions_dec executions_terminated_inc : Effect
  scheduled_delay_observed overall_time_observed output_bytes_observed : Effect
  transformer_error unexpected_data_error publish_notification_error : Effect
  event_published publish_event_error execution_events_created : Effect
  terminate_execution_failures : Effect
  email_published : List String → Effect
  abort_called : ExecutionKey → String → Effect

pub record State : Type 0 where
  pub table : List Execution
  pub trace : List Effect

pub record EventRequest : Type 0 where
  pub event : Option WorkflowEvent

pub record Config : Type 0 where
  pub max_size_in_bytes : ℕ
  pub policy : InlineEventDataPolicy
  -- `ExecutionMetadata_SCHEDULED`
  pub scheduled : ℕ
  -- whether a publisher accepts the next message, after what has been done so far
  pub delivers : List Effect → Bool
  -- what the workflow engine answers to an abort; `none` is success
  pub abort : ExecutionKey → String → Option Error

abbrev pub emit : Effect → State → State
emit e st = record st { trace = st.trace ++ e ∷ [] }

unfoldable pub validate_workflow_execution_identifier : Option ExecutionKey → Result ExecutionKey
unfolding validate_empty_string_field
validate_workflow_execution_identifier none = err (new_flyte_admin_error invalid_argument)
validate_workflow_execution_identifier (some id) = do
  validate_empty_string_field id.project
  validate_empty_string_field id.domain
  validate_empty_string_field id.name
  ok id

abbrev pub matches_any : WorkflowPhase → List WorkflowPhase → Bool
matches_any phase [] = false
matches_any phase (p ∷ ps) = same_phase p phase || matches_any phase ps

abbrev pub recipients : NotificationType → Option (List String)
recipients (email rs) = some rs
recipients (pager_duty rs) = some rs
recipients (slack rs) = some rs
recipients other_type = none

abbrev pub carries_data : Option EventOutput → Bool
carries_data (some (event_data d)) = true
carries_data _ = false

-- Which phase may follow the recorded one.
unfoldable pub check_transition : Wire → WorkflowPhase → WorkflowPhase → Result (Unit {0})
check_transition w recorded phase =
    if same_phase recorded phase && not (same_phase phase queued)
    then err (new_flyte_admin_error already_exists)
    else if is_execution_terminal recorded
    then err (new_already_in_terminal_state_error (w.phase_name recorded))
    else if same_phase recorded running && same_phase phase queued
    then err (new_flyte_admin_error failed_precondition)
    else ok tt

module _ (w : Wire) (r : Repo) (cfg : Config) where
  unfoldable pub validate_output_data : Option EventOutput → Result (Unit {0})
  validate_output_data (some (event_data d)) =
      if leb (w.size d) cfg.max_size_in_bytes
      then ok tt
      else err (new_flyte_admin_error resource_exhausted)
  validate_output_data _ = ok tt

  unfoldable pub validate_create_workflow_event_request :
      EventRequest → Result (WorkflowEvent × ExecutionKey)
  unfolding validate_output_data
  validate_create_workflow_event_request request = do
    event ← or_fail request.event invalid_argument
    id ← or_fail event.execution_id invalid_argument
    validate_output_data event.output
    ok (event, id)

  -- The emails of one event, in the order of the notifications.
  unfoldable pub notify_all : WorkflowPhase → List Notification → State → State × Result (Unit {0})
  notify_all phase [] st = (st, ok tt)
  notify_all phase (n ∷ ns) st = elim (matches_any phase n.phases) [
    | false ↦ notify_all phase ns st
    | true ↦ elim (recipients n.type_of) [
      | none ↦ (emit unexpected_data_error st, err (new_flyte_admin_error internal))
      | some rs ↦
          let sent = emit (email_published rs) st in
          notify_all phase ns
            (if cfg.delivers st.trace then sent else emit publish_notification_error sent)
    ]
  ]

  unfoldable pub publish_notifications :
      WorkflowPhase → Execution → State → State × Result (Unit {0})
  unfolding notify_all
  publish_notifications phase execution st = elim (from_execution_model w execution) [
    | err e ↦ (emit transformer_error st, err (new_flyte_admin_error internal))
    | ok view ↦ notify_all phase view.closure.notifications st
  ]

  -- The part that reads and writes the table.
  unfoldable pub record_event :
      List Execution → WorkflowEvent → ExecutionKey → Result (List Execution × Execution)
  record_event table event id = do
    execution ← r.get table id
    check_transition w (w.phase_value execution.phase) event.phase
    updated ← update_execution_model_state w cfg.policy id event execution
    table' ← r.update table updated
    ok (table', updated)

  abbrev pub publish_event : State → State
  publish_event st =
      let sent = emit event_published st in
      emit execution_events_created
        (if cfg.delivers st.trace then sent else emit publish_event_error sent)

  -- An error of the notifications ends the handler.
  abbrev pub close_event : State × Result (Unit {0}) → State × Result (Unit {0})
  close_event (st, err e) = (st, err e)
  close_event (st, ok u) = (publish_event st, ok tt)

  -- The counters of a terminal event.
  abbrev pub measure_end : WorkflowEvent → State → State
  measure_end event st =
      let counted =
        emit overall_time_observed
          (emit executions_terminated_inc (emit active_executions_dec st)) in
      if carries_data event.output then emit output_bytes_observed counted else counted

  -- What follows once the table holds the event.
  unfoldable pub finish_event : WorkflowEvent → Execution → State → State × Result (Unit {0})
  finish_event event execution st =
      let written = emit event_written st in
      let delayed =
        if execution.mode == cfg.scheduled
        then emit scheduled_delay_observed written
        else written in
      if same_phase event.phase running
      then (publish_event delayed, ok tt)
      else if is_execution_terminal event.phase
      then close_event (publish_notifications event.phase execution (measure_end event written))
      else (publish_event written, ok tt)

  unfoldable pub create_workflow_event : EventRequest → State → State × Result (Unit {0})
  create_workflow_event request st = elim (validate_create_workflow_event_request request) [
    | err e ↦ (st, err e)
    | ok (event, id) ↦ elim (record_event st.table event id) [
      | err e ↦ (st, err e)
      | ok (table', updated) ↦ finish_event event updated (record st { table = table' })
    ]
  ]

  abbrev pub find_execution :
      Option ExecutionKey → List Execution → Result (ExecutionKey × Execution)
  find_execution request table = do
    id ← validate_workflow_execution_identifier request
    execution ← r.get table id
    ok (id, execution)

  unfoldable pub save_abort : Execution → String → String → List Execution → Result (List Execution)
  save_abort execution cause user table = do
    aborted ← set_execution_aborted w execution cause user
    r.update table aborted

  -- The row is read, the engine asked to abort, and then the cause is saved.
  unfoldable pub terminate_execution :
      Option ExecutionKey → (cause user : String) → State → State × Result (Unit {0})
  unfolding save_abort validate_workflow_execution_identifier
  terminate_execution request cause user st = elim (find_execution request st.table) [
    | err e ↦ (st, err e)
    | ok (id, execution) ↦
        let asked = emit (abort_called id execution.cluster) st in
        elim (cfg.abort id execution.cluster) [
          | some e ↦ (emit terminate_execution_failures asked, err e)
          | none ↦ elim (save_abort execution cause user st.table) [
            | err e ↦ (asked, err e)
            | ok table' ↦ (record asked { table = table' }, ok tt)
          ]
        ]
  ]
