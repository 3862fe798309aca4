-- ===== src/LaunchPlan.antt =====
-- The records of a launch plan: the row (pkg/repositories/models/launch_plan.go), its serialized
-- spec and closure, its schedule, and what the program calls of other code with them.
pub mod Schedules
pub mod Native
pub mod Store
pub mod Rows
pub mod Views
pub mod Manager
pub mod Steps
pub mod Active
pub mod Scheduled
pub mod Rescheduled
pub mod InForce
pub mod Enabled
pub mod Inputs
pub mod Expected
pub mod Create
pub mod Twice
mod Samples
mod Requests
mod Tests
use flyteadmin.Common.{
  not, ℕ, String, List, Option, Bool, ◌≡◌, ◌≢◌, Result, some, none, str_eq, ◌&&◌,
}
use flyteadmin.Execution.{Bytes, Stamp}
use flyteadmin.Validation.{Identifier, Parameter, Literal, Variable}
use flyteadmin.Scheduler.{FixedRateUnit}

-- `models.LaunchPlanKey`.
pub record LaunchPlanKey : Type 0 where
  pub project : String
  pub domain : String
  pub name : String
  pub version : String

unfoldable pub same_plan : LaunchPlanKey → LaunchPlanKey → Bool
same_plan a b =
    str_eq a.project b.project
    && str_eq a.domain b.domain
    && str_eq a.name b.name
    && str_eq a.version b.version

-- No part of the key is empty: a condition on an empty field is no condition in gorm.
abbrev pub is_complete : LaunchPlanKey → Bool
is_complete k =
    not (str_eq k.project "")
    && not (str_eq k.domain "")
    && not (str_eq k.name "")
    && not (str_eq k.version "")

-- `admin.LaunchPlanState`, which a column holds as a number; a request may hold any number.
abbrev pub inactive : ℕ
inactive = 0

abbrev pub active : ℕ
active = 1

-- `admin.Schedule_ScheduleExpression`.
pub data ScheduleExpression : Type 0 where
  cron_expression : String → ScheduleExpression
  rate : ℕ → FixedRateUnit → ScheduleExpression
  cron_schedule : (schedule offset : String) → ScheduleExpression

pub record Schedule : Type 0 where
  pub expression : Option ScheduleExpression
  pub kickoff_time_input_arg : String

-- `admin.LaunchPlanMetadata`; `notifications` is the serialized rest.
pub record LaunchPlanMetadata : Type 0 where
  pub schedule : Option Schedule
  pub notifications : Bytes

-- `admin.LaunchPlanSpec`; `rest` is the serialized remainder, which this code does not touch.
pub record LaunchPlanSpec : Type 0 where
  pub workflow_id : Option Identifier
  pub entity_metadata : Option LaunchPlanMetadata
  pub default_inputs : List (String × Parameter)
  pub fixed_inputs : List (String × Option Literal)
  pub labels : Option (List (String × String))
  pub rest : Bytes

-- `admin.LaunchPlanClosure`.
pub record LaunchPlanClosure : Type 0 where
  pub state : ℕ
  pub expected_inputs : List (String × Parameter)
  pub expected_outputs : List (String × Variable)
  pub created_at : Option Stamp
  pub updated_at : Option Stamp

-- A row of the table of launch plans. Times are in nanoseconds.
pub record LaunchPlan : Type 0 where
  pub created_at : ℕ
  pub updated_at : ℕ
  pub key : LaunchPlanKey
  pub spec : Bytes
  pub workflow_id : ℕ
  pub closure : Bytes
  pub state : Option ℕ
  pub digest : Bytes
  pub schedule_type : String

-- What the code calls of the protobuf library; `none` is an error of the call.
pub record PlanWire : Type 0 where
  pub marshal_spec : LaunchPlanSpec → Option Bytes
  pub unmarshal_spec : Bytes → Option LaunchPlanSpec
  pub marshal_closure : LaunchPlanClosure → Option Bytes
  pub unmarshal_closure : Bytes → Option LaunchPlanClosure
  pub timestamp_proto : ℕ → Option Stamp
