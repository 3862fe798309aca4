-- ===== src/Scheduler/Executor.antt =====
-- How a schedule is executed (scheduler/executor/executor_impl.go): one request to the admin
-- service, repeated on failure, and no failure if the execution exists already.
pub mod Once
pub mod Refused
use flyteadmin.Scheduler.{SchedulableEntity}
use Prim.Native.Nat.{◌/◌}
use flyteadmin.Common.{
  Code, str_eq, err, ok, not, flyte_admin, zero, List, Result, Bool, String, Option, ℕ, Error, ◌∷◌,
  [], suc, some, none, true, false, if◌then◌else◌,
}

pub record ExecutionCreateRequest : Type 0 where
  pub project : String
  pub domain : String
  pub name : String
  pub launch_plan_name : String
  pub launch_plan_version : String
  pub scheduled_at : ℕ
  pub inputs : List (String × ℕ)

-- The digits, without dashes, of the identifier that the hash of a launch plan and of a time in
-- seconds gives.
abbrev pub HashTime : Type 0
HashTime = String → String → String → String → ℕ → String

-- The admin service.
pub record AdminService : Type 1 where
  pub Admin : Type 0
  pub create_execution : Admin → ExecutionCreateRequest → Option Error × Admin

-- `retry.OnError`: the steps, what may be tried again, and the call.
abbrev pub OnError : Type 0 → Type 0
OnError X = ℕ → (Error → X → Bool × X) → (X → Option Error × X) → X → Option Error × X

abbrev pub take_chars : ℕ → String → String
take_chars zero s = ""
take_chars (suc n) String.[] = ""
take_chars (suc n) (String.◌∷◌ c s) = String.◌∷◌ c (take_chars n s)

-- `status.Code(err) == codes.AlreadyExists`
abbrev pub is_already_exists : Error → Bool
is_already_exists (flyte_admin Code.already_exists r) = true
is_already_exists _ = false

module _ (service : AdminService) where
  pub record ExecutorState : Type 0 where
    pub admin : service.Admin
    pub failed_executions : ℕ
    pub successful_executions : ℕ

module _ (service : AdminService) (hash : HashTime)
    (on_error : OnError (ExecutorState service)) where
  unfoldable pub kickoff_inputs : ℕ → SchedulableEntity → List (String × ℕ)
  kickoff_inputs t s =
      if not (str_eq s.cron_expression "") then (s.kickoff_time_input_arg, t) ∷ [] else []

  unfoldable pub execution_request : ℕ → SchedulableEntity → ExecutionCreateRequest
  execution_request t s = record {
    project = s.project;
    domain = s.domain;
    name =
        String.◌∷◌ "f" (take_chars 19 (hash s.project s.domain s.name s.version (t / 1000000000)));
    launch_plan_name = s.name;
    launch_plan_version = s.version;
    scheduled_at = t;
    inputs = kickoff_inputs t s;
  }

  -- Whether a failure is tried again; it is counted.
  unfoldable pub is_retriable : Error → ExecutorState service → Bool × ExecutorState service
  is_retriable e x =
      if is_already_exists e
      then (false, x)
      else (true, record x { failed_executions = suc x.failed_executions })

  unfoldable pub create_execution :
      ExecutionCreateRequest → ExecutorState service → Option Error × ExecutorState service
  create_execution q x =
      let (e, after) = service.create_execution x.admin q in (e, record x { admin = after })

  abbrev pub counted : ExecutorState service → ExecutorState service
  counted x = record x { successful_executions = suc x.successful_executions }

  abbrev pub executed :
      Option Error × ExecutorState service → Result (Unit {0}) × ExecutorState service
  executed (none, x) = (ok tt, counted x)
  executed (some e, x) = if is_already_exists e then (ok tt, counted x) else (err e, x)

  unfoldable pub execute :
      ℕ → SchedulableEntity → ExecutorState service → Result (Unit {0}) × ExecutorState service
  execute t s x =
      if not s.active
      then (ok tt, x)
      else executed (on_error 30 is_retriable (create_execution (execution_request t s)) x)
