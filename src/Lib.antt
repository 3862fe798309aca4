-- ===== src/Lib.antt =====
-- A verification of the core of flyteadmin: executions of workflows, nodes and
-- tasks, launch plans and the native scheduler.
--
-- Parts. The propeller sends events on an execution to the execution manager
-- (pkg/manager/impl/execution_manager.go), which checks them, changes the row of the execution
-- (pkg/repositories/transformers/execution.go), writes it to the database, and counts, publishes and
-- notifies. The quality of service and the queue of an execution are chosen when it is created
-- (pkg/manager/impl/executions). Events on the nodes of an execution go the same way to the manager of
-- node executions (pkg/manager/impl/node_execution_manager.go), and those on its tasks to that of task
-- executions (pkg/manager/impl/task_execution_manager.go). The launch plan manager
-- (pkg/manager/impl/launch_plan_manager.go) creates launch plans, and enables and disables their
-- versions in the database and at the event scheduler. The native scheduler (scheduler/) runs
-- schedules with a cron library, asks
-- the admin service to create their executions, and keeps a snapshot of the last runs, from which it
-- catches up after a restart.
--
-- Files.
-- - Common: the errors of pkg/errors as values, results with >>= for the early returns, native
--   lists and integers.
-- - Phase: the phases of an execution and of a node (pkg/common/executions.go).
-- - Execution: the rows and messages, with the codec of protobuf as the record Wire; Update is
--   UpdateExecutionModelState, Read is FromExecutionModel and CreateExecutionModel, Repo the
--   execution table, Event the handlers CreateWorkflowEvent, TerminateExecution and
--   publishNotifications with the trace of their effects, the other children the proofs.
-- - Scheduler: Times is GetScheduledTime and GetCatchUpTimes, Core the job store with the cron
--   library (ScheduleJob, DeScheduleJob, UpdateSchedules, BootStrapSchedulesFromSnapShot,
--   CalculateSnapshot), CatchUp is CatchupAll, Executor the calls of the admin service, Snapshoter
--   the saving and reading of snapshots.
-- - Quality and Queues: GetQualityOfService and GetQueue of pkg/manager/impl/executions.
-- - Validation: the validators that the managers share (pkg/manager/impl/validation), and in Paging
--   and Pages the tokens of lists.
-- - LaunchPlan: the launch plan and its schedule; Create is CreateLaunchPlan, Inputs and Expected the
--   validation of its inputs (checkAndFetchExpectedInputForLaunchPlan), Manager is UpdateLaunchPlan
--   with enableSchedule and disableSchedule, Store and Rows the table of launch plans, Native the
--   native event scheduler, Views the transformers, the other children the proofs.
-- - Node: the node execution with its row; Rows is pkg/repositories/transformers/node_execution.go,
--   Store the table, Manager is CreateNodeEvent, the other children the proofs.
-- - Task: the task execution with its row (pkg/repositories/transformers/task_execution.go); Manager
--   is CreateTaskExecutionEvent, Logs is mergeLogs, Rows the creation and update of the row, Views
--   the message made of it, Times the start time and the duration.
-- - Attributes: the attributes with their validation and merge, and in Manager the resource manager
--   (pkg/manager/impl/resources/resource_manager.go).
--
-- State. A row, a job or the scheduler is a record, and an operation takes the state and returns
-- the new one. Go routines are left out: an effect that the code starts in one stands in the trace
-- at the place where it is started, and the scheduler's operations are taken one at a time. A job is
-- shared by the job store and the cron library, so jobs stand in a heap. sync.Map is an association
-- list, whose order stands for the order of Range.
--
-- Parameters are the code that is not here, with what is relied on of it as laws: the protobuf codec
-- (IsWire; PlanWire, NodeWire and TaskWire), the tables, whose laws are on keys without an empty
-- part, as gorm leaves an empty field out of a condition (IsRepo, IsPlansDb, IsSchedulesDb,
-- IsNodeDb; TaskDb without laws), the event scheduler (IsEventScheduler), strconv (IsNumerals),
-- the cron library (CronTimes, IsCronLib), the hash of names,
-- the admin service (IsAdminService), retry.OnError (IsOnError), gob (IsGob), the table of snapshots
-- (IsSnapshotRepo), and rand.Intn (IsIntn). Samples holds concrete ones that keep the laws, and Tests
-- the theorems at concrete inputs.
--
-- Fuel. Of the code only the loop of GetCatchUpTimes takes fuel, since it need not end: a cron
-- expression may have no next time. Where each firing is later than the time before it, any fuel above the time to
-- catch up, in nanoseconds, is enough, which the theorems on it say. The client that follows the
-- tokens of a list (Validation.Pages) takes the number of pages it may ask for; more than the rows
-- of the list are enough.
--
-- Not modelled: the managers of workflows, tasks, projects and named entities,
-- the lists of node and task executions, the creation of executions beyond the parts named,
-- authentication, cluster resources, the cloud schedulers, the transports, configuration, metrics
-- other than those named, and the text of messages.
mod Common
pub mod Phase
pub mod Validation
pub mod LaunchPlan
pub mod Node
pub mod Task
pub mod Execution
pub mod Scheduler
pub mod Quality
pub mod Queues
pub mod Attributes
