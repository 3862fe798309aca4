-- ===== src/Node/Store.antt =====
-- The table of node executions and the effects of their events
-- (pkg/manager/impl/node_execution_manager.go), with the checks of clusters and of identifiers
-- (pkg/manager/impl/validation/shared_execution.go, node_execution_validator.go and
-- task_execution_validator.go).
use Prim.Native.String.{◌++◌ as str_append}
use flyteadmin.Common.{
  ◌≡◌, ℕ, String, List, [], ◌∷◌, ◌++◌, some, none, Option, Bool, true, not, ◌&&◌, ◌||◌, Result, ok,
  err, Error, flyte_admin, foreign, ◌>>=◌, ◌>>◌, new_incompatible_cluster_error, str_eq,
  if◌then◌else◌,
}
use flyteadmin.Validation.{Identifier, invalid, validate_identifier, task}
use flyteadmin.Execution.{Execution, InlineEventDataPolicy}
use flyteadmin.Execution.Repo.{
  is_full_key, keep_text, keep_bytes, keep_number, keep_option, is_zero,
}
use flyteadmin.Execution.Event.{validate_workflow_execution_identifier}
use flyteadmin.Execution.Update.{default_producer_id}
use flyteadmin.Node.{
  NodeIdentifier, TaskExecutionIdentifier, NodeExecution, NodeExecutionKey, same_node,
}

-- What gorm's `Updates` with a struct documents; `Execution.Repo` has the parts.
abbrev pub overlay_node : NodeExecution → NodeExecution → NodeExecution
overlay_node old new = record {
  id = keep_number old.id new.id;
  key = new.key;
  phase = keep_text old.phase new.phase;
  input_uri = keep_text old.input_uri new.input_uri;
  closure = keep_bytes old.closure new.closure;
  started_at = keep_option old.started_at new.started_at;
  node_execution_created_at =
      keep_option old.node_execution_created_at new.node_execution_created_at;
  node_execution_updated_at =
      keep_option old.node_execution_updated_at new.node_execution_updated_at;
  duration = if is_zero new.duration then old.duration else new.duration;
  node_execution_metadata = keep_bytes old.node_execution_metadata new.node_execution_metadata;
  parent_id = keep_option old.parent_id new.parent_id;
  child_node_executions = old.child_node_executions;
  parent_task_execution_id = keep_option old.parent_task_execution_id new.parent_task_execution_id;
  error_kind = keep_option old.error_kind new.error_kind;
  error_code = keep_option old.error_code new.error_code;
  cache_status = keep_option old.cache_status new.cache_status;
  dynamic_workflow_remote_closure_reference =
      keep_text old.dynamic_workflow_remote_closure_reference
        new.dynamic_workflow_remote_closure_reference;
}

-- The table of node executions; `next_id` is the id of the row that is created next.
pub record NodeDb : Type 0 where
  pub next_id : List NodeExecution → ℕ
  pub get : List NodeExecution → NodeExecutionKey → Result NodeExecution
  pub create : List NodeExecution → NodeExecution → Result (List NodeExecution)
  pub update : List NodeExecution → NodeExecution → Result (List NodeExecution)

-- gorm leaves an empty field of a struct out of the condition of a query, so only a key without an
-- empty part names one row.
unfoldable pub is_full_node : NodeExecutionKey → Bool
is_full_node k = is_full_key k.execution && not (str_eq k.node_id "")

-- For keys that have no empty part: a row is found under its own key, and what is written is the row
-- of its key and no other.
pub record IsNodeDb (db : NodeDb) : Type 0 where
  pub get-key :
      (t : List NodeExecution) (k : NodeExecutionKey) (x : NodeExecution)
      → is_full_node k ≡ true
      → db.get t k ≡ ok x
      → x.key ≡ k
  pub get-create :
      (t t' : List NodeExecution) (x : NodeExecution) (k : NodeExecutionKey)
      → is_full_node x.key ≡ true
      → is_full_node k ≡ true
      → db.create t x ≡ ok t'
      → db.get t' k
        ≡ (if same_node x.key k then ok (record x { id = db.next_id t }) else db.get t k)
  pub get-update :
      (t t' : List NodeExecution) (x old : NodeExecution) (k : NodeExecutionKey)
      → is_full_node x.key ≡ true
      → is_full_node k ≡ true
      → db.update t x ≡ ok t'
      → db.get t x.key ≡ ok old
      → db.get t' k ≡ (if same_node x.key k then ok (overlay_node old x) else db.get t k)

pub data NodeEffect : Type 0 where
  missing_workflow_execution closure_size_observed node_executions_created : NodeEffect
  node_event_written active_node_executions_inc active_node_executions_dec : NodeEffect
  node_executions_terminated node_output_bytes_observed : NodeEffect
  node_execution_events_created node_event_published publish_node_event_error : NodeEffect

pub record NodeState : Type 0 where
  pub executions : List Execution
  pub nodes : List NodeExecution
  pub trace : List NodeEffect

pub record NodeConfig : Type 0 where
  pub policy : InlineEventDataPolicy
  pub storage_prefix : List String
  -- the id that the table of task executions has for a key
  pub get_task_execution : TaskExecutionIdentifier → Result ℕ
  -- whether the publisher accepts the event, after what has been done so far
  pub delivers : List NodeEffect → Bool

abbrev pub emit_node : NodeEffect → NodeState → NodeState
emit_node e st = record st { trace = st.trace ++ e ∷ [] }

-- `ValidateCluster`.
unfoldable pub validate_cluster : (recorded_cluster cluster : String) → Result (Unit {0})
validate_cluster recorded_cluster cluster =
    if str_eq cluster "" || str_eq cluster default_producer_id
    then ok tt
    else if not (str_eq recorded_cluster cluster)
    then err (new_incompatible_cluster_error recorded_cluster)
    else ok tt

unfoldable pub validate_node_execution_identifier : Option NodeIdentifier → Result (Unit {0})
validate_node_execution_identifier none = invalid
validate_node_execution_identifier (some id) = elim id.execution_id [
  | none ↦ invalid
  | some k ↦
      if str_eq id.node_id ""
      then invalid
      else (validate_workflow_execution_identifier (some k) >>= λ e. ok tt)
]

unfoldable pub validate_task_execution_identifier : TaskExecutionIdentifier → Result (Unit {0})
unfolding validate_node_execution_identifier
validate_task_execution_identifier id = do
  validate_node_execution_identifier id.node_execution_id
  task_id ← validate_identifier id.task_id task
  ok tt

unfoldable pub format_dynamic_workflow_id : Identifier → String
format_dynamic_workflow_id id = str_append id.project (
    str_append "_"
      (str_append id.domain (str_append "_" (str_append id.name (str_append "_" id.version)))))

-- `updateNodeExecutionStatus`, with the table after an update; a failure is an error.
pub data UpdateStatus : Type 0 where
  update_succeeded : List NodeExecution → UpdateStatus
  already_in_terminal_status : UpdateStatus

-- A missing execution is reported under the code of the error.
abbrev pub missing_execution : Error → Error
missing_execution (flyte_admin c r) = flyte_admin c none
missing_execution (foreign n) = foreign 0
