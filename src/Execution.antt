-- ===== src/Execution.antt =====
-- The records of a workflow execution: the row (pkg/repositories/models/execution.go), its
-- serialized closure and spec, the event that changes it, and what the program calls of other
-- code while it handles one.
pub mod Update
pub mod Read
pub mod Repo
pub mod Event
pub mod Transitions
pub mod Stages
pub mod Handler
mod Samples
pub mod Cluster
pub mod Views
pub mod Emails
pub mod Gauge
mod Tests
use flyteadmin.Common.{ℕ, String, List, Option, Bool, ◌≡◌, ◌≢◌, Result, ok, err, ℤ, some, none}
use flyteadmin.Phase.{WorkflowPhase}

abbrev pub Bytes : Type 0
Bytes = List ℕ

-- A timestamp of the wire format.
pub record Stamp : Type 0 where
  pub seconds : ℕ
  pub nanos : ℕ

-- A map of literals, which this code only passes on: its content.
pub record LiteralMap : Type 0 where
  pub content : Bytes

-- `kind` is the name that `Kind.String()` gives.
pub record ExecutionError : Type 0 where
  pub kind : String
  pub code : String

-- `models.ExecutionKey`, and the identifier of an execution.
pub record ExecutionKey : Type 0 where
  pub project : String
  pub domain : String
  pub name : String

pub record EntityId : Type 0 where
  pub project : String
  pub domain : String
  pub name : String
  pub version : String

-- `other_type` is a notification with none of the three types set.
pub data NotificationType : Type 0 where
  email pager_duty slack : List String → NotificationType
  other_type : NotificationType

pub record Notification : Type 0 where
  pub phases : List WorkflowPhase
  pub type_of : NotificationType

-- The result recorded in a closure.
pub data OutputResult : Type 0 where
  outputs : String → OutputResult
  output_data : LiteralMap → OutputResult
  failure : ExecutionError → OutputResult
  abort_metadata : (cause principal : String) → OutputResult

-- The result that an event carries.
pub data EventOutput : Type 0 where
  event_uri : String → EventOutput
  event_data : LiteralMap → EventOutput
  event_error : ExecutionError → EventOutput

-- `admin.ExecutionClosure`; absent messages are `none`.
pub record ExecutionClosure : Type 0 where
  pub phase : WorkflowPhase
  pub created_at : Option Stamp
  pub updated_at : Option Stamp
  pub started_at : Option Stamp
  pub duration : Option ℤ
  pub output_result : Option OutputResult
  pub notifications : List Notification
  pub workflow_id : Option EntityId

-- `admin.ExecutionMetadata`; `system_metadata` is the execution cluster in it.
pub record ExecutionMetadata : Type 0 where
  pub mode : ℕ
  pub principal : String
  pub system_metadata : Option String

-- `admin.ExecutionSpec`; `rest` is the serialized remainder, which this code does not touch.
pub record ExecutionSpec : Type 0 where
  pub launch_plan : EntityId
  pub metadata : Option ExecutionMetadata
  pub rest : Bytes

-- A row of the table of executions. Times are in nanoseconds.
pub record Execution : Type 0 where
  pub key : ExecutionKey
  pub launch_plan_id : ℕ
  pub workflow_id : ℕ
  pub task_id : ℕ
  pub phase : String
  pub closure : Bytes
  pub spec : Bytes
  pub started_at : Option ℕ
  pub execution_created_at : Option ℕ
  pub execution_updated_at : Option ℕ
  pub duration : ℤ
  pub abort_cause : String
  pub mode : ℕ
  pub source_execution_id : ℕ
  pub parent_node_execution_id : ℕ
  pub cluster : String
  pub inputs_uri : String
  pub user_inputs_uri : String
  pub error_kind : Option String
  pub error_code : Option String
  pub user : String

pub record WorkflowEvent : Type 0 where
  pub execution_id : Option ExecutionKey
  pub producer_id : String
  pub phase : WorkflowPhase
  pub occurred_at : Option Stamp
  pub output : Option EventOutput

-- `interfaces.InlineEventDataPolicy`.
pub data InlineEventDataPolicy : Type 0 where
  offload store_inline : InlineEventDataPolicy

-- What the handlers call of generated code, of the protobuf and the storage libraries. `none` is
-- an error of the call.
pub record Wire : Type 0 where
  pub phase_name : WorkflowPhase → String
  pub phase_value : String → WorkflowPhase
  pub timestamp : Option Stamp → Option ℕ
  pub timestamp_proto : ℕ → Option Stamp
  pub marshal_closure : ExecutionClosure → Option Bytes
  pub unmarshal_closure : Bytes → Option ExecutionClosure
  pub marshal_spec : ExecutionSpec → Option Bytes
  pub unmarshal_spec : Bytes → Option ExecutionSpec
  pub size : LiteralMap → ℕ
  pub construct_reference : List String → Option String
  pub write_protobuf : String → LiteralMap → Option (Unit {0})

-- What the protobuf library and the generated enumerations promise.
pub record IsWire (w : Wire) : Type 0 where
  pub value-name : (p : WorkflowPhase) → w.phase_value (w.phase_name p) ≡ p
  pub name-ne-empty : (p : WorkflowPhase) → w.phase_name p ≢ ""
  pub unmarshal-closure :
      (c : ExecutionClosure) (b : Bytes)
      → w.marshal_closure c ≡ some b
      → w.unmarshal_closure b ≡ some c
  pub unmarshal-spec :
      (s : ExecutionSpec) (b : Bytes) → w.marshal_spec s ≡ some b → w.unmarshal_spec b ≡ some s
  pub timestamp-nil : w.timestamp none ≡ none
  pub timestamp-proto :
      (t : ℕ) (s : Stamp) → w.timestamp_proto t ≡ some s → w.timestamp (some s) ≡ some t
