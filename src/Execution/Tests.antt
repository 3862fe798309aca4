-- ===== src/Execution/Tests.antt =====
-- Runs of the execution handlers on one row, and each theorem at such a run.
use flyteadmin.Execution.Transitions.{check_transition_iff, MayFollow}
use flyteadmin.Execution.Gauge.{handle_all-decrements, IsFor, live, decrements}
use flyteadmin.Execution.Stages.{update_execution_model_state-Recorded, Recorded}
use flyteadmin.Execution.Cluster.{update_execution_model_state-ClusterRule, ClusterRule}
use flyteadmin.Execution.Emails.{notify_all-Due, emails_in, Due}
use flyteadmin.Execution.Views.{set_execution_aborted-view, create_execution_model-Created, Created}
use flyteadmin.Execution.Repo.{is_full_key, same_key}
use flyteadmin.Execution.Read.{
  ExecutionView, CreateInput, create_execution_model, from_execution_model,
}
use flyteadmin.Execution.Update.{
  reassign_cluster, is_cluster_reassignable, set_execution_aborted, ignore_cluster_from_event,
  record_output, accept_cluster, mark_times, update_execution_model_state,
}
use flyteadmin.Execution.Samples.{
  is_stop, repo-IsRepo, spec_of, wire-IsWire, is_plan, encode, repo, wire,
}
use flyteadmin.Execution.Handler.{
  IsNamed, create_workflow_event_ok, handle_all-terminal, handle_all,
}
use flyteadmin.Execution.{
  abort_metadata, email, slack, Notification, WorkflowEvent, Stamp, offload, Execution,
  ExecutionKey, ExecutionClosure,
}
use flyteadmin.Phase.{
  same_phase, is_execution_terminal, failed, succeeded, running, queued, undefined, WorkflowPhase,
}
use flyteadmin.Execution.Event.{
  terminate_execution, notify_all, publish_notifications, finish_event, overall_time_observed,
  executions_terminated_inc, active_executions_dec, check_transition, record_event,
  execution_events_created, event_published, validate_create_workflow_event_request, EventRequest,
  create_workflow_event, State, event_written, Config,
}
use flyteadmin.Common.{
  ◌∙◌, sym, some-equal, ap, ◌++◌, false, ◌+◌, ◌↔◌, refl, sub_time, pos, ok, none, some, [], true,
  String, Option, ◌∷◌, List, ℕ, ◌≡◌,
}

handlers : Unit {0}
unfolding is_plan is_stop is_cluster_reassignable reassign_cluster handle_all create_workflow_event
    validate_create_workflow_event_request record_event check_transition
    update_execution_model_state mark_times accept_cluster record_output ignore_cluster_from_event
    finish_event publish_notifications notify_all from_execution_model is_execution_terminal
    same_phase sub_time same_key set_execution_aborted create_execution_model terminate_execution
handlers = tt

abbrev id : ExecutionKey
id = record { project = "flytesnacks"; domain = "staging"; name = "f1" }

abbrev at : ℕ → Option Stamp
at n = some (record { seconds = n; nanos = 0 })

abbrev first_closure : ExecutionClosure
first_closure = record {
  phase = undefined;
  created_at = at 1;
  updated_at = at 1;
  started_at = none;
  duration = none;
  output_result = none;
  notifications = [];
  workflow_id = none;
}

abbrev row : Execution
row = record {
  key = id;
  launch_plan_id = 3;
  workflow_id = 2;
  task_id = 0;
  phase = wire.phase_name undefined;
  closure = encode first_closure;
  spec = 0 ∷ [];
  started_at = none;
  execution_created_at = some 1000000000;
  execution_updated_at = some 1000000000;
  duration = pos 0;
  abort_cause = "";
  mode = 0;
  source_execution_id = 0;
  parent_node_execution_id = 0;
  cluster = "east";
  inputs_uri = "s3://in";
  user_inputs_uri = "s3://user";
  error_kind = none;
  error_code = none;
  user = "ann";
}

abbrev start : State
start = record { table = row ∷ []; trace = [] }

abbrev config : Config
config = record {
  max_size_in_bytes = 100;
  policy = offload;
  scheduled = 1;
  delivers = λ es. true;
  abort = λ k c. none;
}

abbrev event : WorkflowPhase → ℕ → String → WorkflowEvent
event p n producer = record {
  execution_id = some id;
  producer_id = producer;
  phase = p;
  occurred_at = at n;
  output = none;
}

abbrev request : WorkflowPhase → ℕ → EventRequest
request p n = record { event = some (event p n "") }

abbrev lifecycle : List EventRequest
lifecycle = request queued 2 ∷ request running 3 ∷ request succeeded 5 ∷ request failed 6 ∷ []

abbrev ended : State
ended = handle_all wire repo config lifecycle start

ended_trace :
    ended.trace
    ≡ event_written ∷ event_published ∷ execution_events_created ∷ event_written ∷ event_published
      ∷ execution_events_created ∷ event_written ∷ active_executions_dec ∷ executions_terminated_inc
      ∷ overall_time_observed ∷ event_published ∷ execution_events_created ∷ []
unfolding handlers
ended_trace = refl

ended_phase : (x : Execution) × (repo.get ended.table id ≡ ok x) × (x.duration ≡ pos 2000000000)
unfolding handlers
ended_phase = (_, refl, refl)

check_transition_iff_example :
    (check_transition wire running queued ≡ ok tt) ↔ MayFollow running queued
check_transition_iff_example = check_transition_iff wire running queued

abbrev started_closure : ExecutionClosure
started_closure = record first_closure { phase = running; updated_at = at 3; started_at = at 3 }

abbrev started_row : Execution
started_row = record row {
  phase = wire.phase_name running;
  execution_updated_at = some 3000000000;
  started_at = some 3000000000;
  closure = encode started_closure;
}

abbrev ended_closure : ExecutionClosure
ended_closure = record started_closure {
  phase = succeeded;
  updated_at = at 5;
  duration = some (pos 2000000000);
}

abbrev ended_row : Execution
ended_row = record started_row {
  phase = wire.phase_name succeeded;
  execution_updated_at = some 5000000000;
  duration = pos 2000000000;
  closure = encode ended_closure;
}

update_execution_model_state-Recorded_example :
    Recorded wire (event succeeded 5 "") started_row ended_row
update_execution_model_state-Recorded_example =
    update_execution_model_state-Recorded wire offload id (event succeeded 5 "") started_row
      ended_row wire-IsWire (unfold handlers in refl)

abbrev queued_row : Execution
queued_row = record row {
  phase = wire.phase_name queued;
  execution_updated_at = some 2000000000;
  closure = encode (record first_closure { phase = queued; updated_at = at 2 });
  cluster = "west";
}

update_execution_model_state-ClusterRule_example :
    ClusterRule wire (event queued 2 "west") row queued_row
update_execution_model_state-ClusterRule_example =
    update_execution_model_state-ClusterRule wire wire-IsWire offload id (event queued 2 "west") row
      queued_row (unfold handlers in refl)

id_full : is_full_key id ≡ true
unfolding is_full_key
id_full = refl

named : (p : WorkflowPhase) (n : ℕ) → IsNamed (request p n)
named p n e k carried of =
    ap is_full_key
      (sym (some-equal (ap (λ (o : WorkflowEvent). o.execution_id) (some-equal carried) ∙ of)))
    ∙ id_full

handle_all-terminal_example :
    repo.get
      (handle_all wire repo config lifecycle (record start { table = ended_row ∷ [] })).table
      id
    ≡ ok ended_row
handle_all-terminal_example =
    handle_all-terminal wire repo config wire-IsWire repo-IsRepo lifecycle
      (record start { table = ended_row ∷ [] }) id ended_row
      (named queued 2, (named running 3, (named succeeded 5, (named failed 6, tt)))) id_full
      (unfold handlers in refl) (unfold handlers in refl)

create_workflow_event_ok_example :
    let st' = (create_workflow_event wire repo config (request queued 2) start).0 in
    (e : WorkflowEvent) × (k : ExecutionKey) × (before after : Execution) × (◌≡◌
      {A = Option WorkflowEvent}
      (some (event queued 2 ""))
      (some e))
    × (e.execution_id ≡ some k)
    × (repo.get start.table k ≡ ok before)
    × (repo.get st'.table k ≡ ok after)
    × MayFollow (wire.phase_value before.phase) e.phase
    × (wire.phase_value after.phase ≡ e.phase)
    × (after.execution_updated_at ≡ wire.timestamp e.occurred_at)
    × ((j : ExecutionKey)
        → is_full_key j ≡ true
        → same_key k j ≡ false
        → repo.get st'.table j ≡ repo.get start.table j)
create_workflow_event_ok_example =
    create_workflow_event_ok wire repo config wire-IsWire repo-IsRepo (request queued 2) start
      (named queued 2) (unfold handlers in refl)

handle_all-decrements_example :
    decrements ended.trace + live wire (repo.get ended.table id)
    ≡ decrements start.trace + live wire (repo.get start.table id)
handle_all-decrements_example =
    handle_all-decrements wire repo config wire-IsWire repo-IsRepo lifecycle start id id_full
      (own queued 2, (own running 3, (own succeeded 5, (own failed 6, tt))))
  where
    own : (p : WorkflowPhase) (n : ℕ) → IsFor id (request p n)
    own p n e h = ap (λ (o : WorkflowEvent). o.execution_id) (some-equal (sym h))

abbrev notices : List Notification
notices =
    record { phases = failed ∷ []; type_of = slack ("ops" ∷ []) }
    ∷ record { phases = failed ∷ succeeded ∷ []; type_of = email ("a" ∷ "b" ∷ []) }
    ∷ []

notify_all-Due_example :
    ((notify_all wire repo config succeeded notices start).1 ≡ ok tt)
    × (es : List (List String)) × Due succeeded notices es
    × (emails_in (notify_all wire repo config succeeded notices start).0.trace
        ≡ emails_in start.trace ++ es)
notify_all-Due_example =
    notify_all-Due wire repo config succeeded notices start (λ e. cc, (λ e. cc, tt))

abbrev input : CreateInput
input = record {
  workflow_execution_id = id;
  request_spec = record (spec_of 1) {
    metadata = some (record { mode = 1; principal = "ann"; system_metadata = none });
  };
  launch_plan_id = 3;
  workflow_id = 2;
  task_id = 0;
  phase = undefined;
  created_at = 1;
  notifications = [];
  workflow_identifier = none;
  parent_node_execution_id = 0;
  source_execution_id = 0;
  cluster = "west";
  inputs_uri = "s3://in";
  user_inputs_uri = "s3://user";
}

abbrev created_row : Execution
created_row = record row {
  closure = encode (record first_closure {
    created_at = some (record { seconds = 0; nanos = 1 });
    updated_at = some (record { seconds = 0; nanos = 1 });
  });
  spec = 1 ∷ [];
  execution_created_at = some 1;
  execution_updated_at = some 1;
  mode = 1;
  cluster = "west";
}

create_execution_model-Created_example : Created wire wire-IsWire input created_row
create_execution_model-Created_example =
    create_execution_model-Created wire wire-IsWire input created_row (unfold handlers in refl)

abbrev aborted_closure : ExecutionClosure
aborted_closure = record started_closure { output_result = some (abort_metadata "stop" "ann") }

abbrev started_view : ExecutionView
started_view = record { id = id; spec = spec_of 0; closure = started_closure }

abbrev aborted_row : Execution
aborted_row = record started_row { closure = encode aborted_closure; abort_cause = "stop" }

set_execution_aborted-view_example :
    from_execution_model wire aborted_row ≡ ok (record started_view { closure = aborted_closure })
set_execution_aborted-view_example =
    set_execution_aborted-view wire wire-IsWire started_row aborted_row "stop" "ann" started_view
      (unfold handlers in refl) (unfold handlers in refl)
