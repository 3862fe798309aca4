-- ===== src/Task.antt =====
-- The records of a task execution: the row (pkg/repositories/models/task_execution.go), its
-- serialized closure, and the event that changes it.
pub mod Logs
pub mod Manager
pub mod Rows
pub mod Times
pub mod Views
mod Samples
mod Tests
use flyteadmin.Common.{ℕ, String, List, Option, Bool, true, false, ℤ}
use flyteadmin.Execution.{Bytes, Stamp, LiteralMap, ExecutionError, EventOutput}
use flyteadmin.Validation.{Identifier}
use flyteadmin.Node.{NodeExecutionKey, NodeOutput}

-- `core.TaskExecution_Phase`.
pub data TaskPhase : Type 0 where
  task_undefined task_queued task_running task_succeeded task_aborted task_failed : TaskPhase
  other_task_phase : ℕ → TaskPhase

-- `terminalTaskExecutionPhases`; a key that the map lacks reads as false.
unfoldable pub is_task_execution_terminal : TaskPhase → Bool
is_task_execution_terminal task_succeeded = true
is_task_execution_terminal task_aborted = true
is_task_execution_terminal task_failed = true
is_task_execution_terminal _ = false

abbrev pub is_task_running : TaskPhase → Bool
is_task_running task_running = true
is_task_running _ = false

-- `core.TaskLog`; `rest` is the format and the time to live.
pub record TaskLog : Type 0 where
  pub uri : String
  pub name : String
  pub rest : Bytes

-- `models.TaskExecutionKey`.
pub record TaskExecutionKey : Type 0 where
  pub project : String
  pub domain : String
  pub name : String
  pub version : String
  pub node : NodeExecutionKey
  pub retry_attempt : ℕ

-- `admin.TaskExecutionClosure`; the custom info is a structure that is only merged.
pub record TaskClosure : Type 0 where
  pub phase : TaskPhase
  pub created_at : Option Stamp
  pub updated_at : Option Stamp
  pub started_at : Option Stamp
  pub duration : Option ℤ
  pub output_result : Option NodeOutput
  pub logs : List TaskLog
  pub custom_info : Option Bytes
  pub reason : String
  pub task_type : String

-- A row of the table of task executions. Times are in nanoseconds; the children are counted.
pub record TaskExecution : Type 0 where
  pub key : TaskExecutionKey
  pub phase : String
  pub phase_version : ℕ
  pub input_uri : String
  pub closure : Bytes
  pub started_at : Option ℕ
  pub task_execution_created_at : Option ℕ
  pub task_execution_updated_at : Option ℕ
  pub duration : ℤ
  pub child_node_execution : ℕ

-- The event with the identifiers in it, which the code reads without a test.
pub record TaskEvent : Type 0 where
  pub producer_id : String
  pub task_id : Identifier
  pub parent_node_execution_id : NodeExecutionKey
  pub retry_attempt : ℕ
  pub phase : TaskPhase
  pub phase_version : ℕ
  pub occurred_at : Option Stamp
  pub input_uri : String
  pub output : Option EventOutput
  pub logs : List TaskLog
  pub custom_info : Option Bytes
  pub reason : String
  pub task_type : String

-- What the code calls of generated code, of the protobuf, JSON and storage libraries. `to_json`
-- and `from_json` are protojson, the patches those of jsonpatch.
pub record TaskWire : Type 0 where
  pub phase_name : TaskPhase → String
  pub phase_value : String → TaskPhase
  pub size : LiteralMap → ℕ
  pub timestamp : Option Stamp → Option ℕ
  pub timestamp_proto : ℕ → Option Stamp
  pub marshal_closure : TaskClosure → Option Bytes
  pub unmarshal_closure : Bytes → Option TaskClosure
  pub to_json : Bytes → Option String
  pub from_json : String → Option Bytes
  pub json_empty : String
  pub create_merge_patch : (original modified : String) → Option String
  pub merge_patch : (document patch : String) → Option String
  pub format_uint : ℕ → String
  pub construct_reference : List String → Option String
  pub write_protobuf : String → LiteralMap → Option (Unit {0})
