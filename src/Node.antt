-- ===== src/Node.antt =====
-- The records of a node execution: the row (pkg/repositories/models/node_execution.go), its
-- serialized closure and metadata, and the event that changes it.
pub mod Rows
pub mod Store
pub mod Manager
pub mod Recorded
pub mod Terminal
pub mod Accepted
pub mod Samples
mod Tests
use flyteadmin.Common.{◌+◌, ℕ, String, List, Option, Bool, true, false, ◌≡◌, ℤ, ◌&&◌, str_eq, ◌==◌}
use flyteadmin.Phase.{NodePhase}
use flyteadmin.Validation.{Identifier}
use flyteadmin.Execution.{Bytes, Stamp, LiteralMap, ExecutionError, ExecutionKey, EventOutput}
use flyteadmin.Execution.Repo.{same_key}

-- `models.NodeExecutionKey`, and the identifier of a node execution.
pub record NodeExecutionKey : Type 0 where
  pub execution : ExecutionKey
  pub node_id : String

unfoldable pub same_node : NodeExecutionKey → NodeExecutionKey → Bool
same_node a b = same_key a.execution b.execution && str_eq a.node_id b.node_id

-- The result recorded in a closure.
pub data NodeOutput : Type 0 where
  output_uri : String → NodeOutput
  output_data : LiteralMap → NodeOutput
  node_error : ExecutionError → NodeOutput

-- The cache status, by its name, and the serialized key of the catalog.
pub data TargetMetadata : Type 0 where
  workflow_node : ExecutionKey → TargetMetadata
  task_node : (cache_status : String) (catalog_key : Bytes) → TargetMetadata

-- `admin.NodeExecutionClosure`; absent messages are `none`.
pub record NodeClosure : Type 0 where
  pub phase : NodePhase
  pub created_at : Option Stamp
  pub updated_at : Option Stamp
  pub started_at : Option Stamp
  pub duration : Option ℤ
  pub output_result : Option NodeOutput
  pub target_metadata : Option TargetMetadata

-- `admin.NodeExecutionMetaData`.
pub record NodeMetadata : Type 0 where
  pub retry_group : String
  pub spec_node_id : String
  pub is_parent_node : Bool

-- A row of the table of node executions. Times are in nanoseconds; the children are counted.
pub record NodeExecution : Type 0 where
  pub id : ℕ
  pub key : NodeExecutionKey
  pub phase : String
  pub input_uri : String
  pub closure : Bytes
  pub started_at : Option ℕ
  pub node_execution_created_at : Option ℕ
  pub node_execution_updated_at : Option ℕ
  pub duration : ℤ
  pub node_execution_metadata : Bytes
  pub parent_id : Option ℕ
  pub child_node_executions : ℕ
  pub parent_task_execution_id : Option ℕ
  pub error_kind : Option String
  pub error_code : Option String
  pub cache_status : Option String
  pub dynamic_workflow_remote_closure_reference : String

-- `DynamicWorkflowNodeMetadata`; the compiled workflow is what the code stores of it.
pub record DynamicWorkflow : Type 0 where
  pub id : Identifier
  pub compiled_workflow : LiteralMap

pub record TaskNodeMetadata : Type 0 where
  pub cache_status : String
  pub catalog_key : Option Bytes
  pub dynamic_workflow : Option DynamicWorkflow

-- The metadata of the node's kind that an event carries.
pub data EventTarget : Type 0 where
  workflow_node_event : ExecutionKey → EventTarget
  task_node_event : TaskNodeMetadata → EventTarget
  no_target : EventTarget

-- `core.NodeExecutionIdentifier` and `core.TaskExecutionIdentifier`, as they are received.
pub record NodeIdentifier : Type 0 where
  pub execution_id : Option ExecutionKey
  pub node_id : String

pub record TaskExecutionIdentifier : Type 0 where
  pub node_execution_id : Option NodeIdentifier
  pub task_id : Option Identifier
  pub retry_attempt : ℕ

-- The event with its identifier and the execution in it, which the handler reads without a test.
pub record NodeEvent : Type 0 where
  pub id : NodeExecutionKey
  pub producer_id : String
  pub phase : NodePhase
  pub occurred_at : Option Stamp
  pub input_uri : String
  pub output : Option EventOutput
  pub target : EventTarget
  pub parent_task : Option TaskExecutionIdentifier
  pub parent_node : Option String
  pub retry_group : String
  pub spec_node_id : String

abbrev pub index_node : NodePhase → ℕ
index_node NodePhase.node_undefined = 0
index_node NodePhase.node_running = 1
index_node NodePhase.node_succeeded = 2
index_node NodePhase.node_failed = 3
index_node NodePhase.node_timed_out = 4
index_node NodePhase.node_aborted = 5
index_node NodePhase.node_skipped = 6
index_node NodePhase.node_recovered = 7
index_node (NodePhase.other_node_phase n) = 8 + n

-- `==` on the enumeration.
unfoldable pub same_node_phase : NodePhase → NodePhase → Bool
same_node_phase p q = index_node p == index_node q

-- What the code calls of generated code, of the protobuf and the storage libraries.
pub record NodeWire : Type 0 where
  pub phase_name : NodePhase → String
  pub phase_value : String → NodePhase
  pub timestamp : Option Stamp → Option ℕ
  pub timestamp_proto : ℕ → Option Stamp
  pub marshal_closure : NodeClosure → Option Bytes
  pub unmarshal_closure : Bytes → Option NodeClosure
  pub marshal_metadata : NodeMetadata → Option Bytes
  pub unmarshal_metadata : Bytes → Option NodeMetadata
  pub size : LiteralMap → ℕ
  pub construct_reference : List String → Option String
  pub write_protobuf : String → LiteralMap → Option (Unit {0})
