-- ===== src/Scheduler/Core.antt =====
-- The native scheduler's state and operations (scheduler/core/gocron_scheduler.go and
-- scheduler/core/gocron_job.go). A job is shared between the job store and the cron library, so
-- jobs stand in a heap and both refer to an address.

pub mod Maps
pub mod Synced
pub mod Kept
pub mod Steps
pub mod Spec
pub mod Marks
pub mod Boot
use flyteadmin.Scheduler.Times.{get_fixed_rate_duration_from_schedule}
use flyteadmin.Scheduler.{SchedulableEntity}
use flyteadmin.Common.{
  Bool, ◌>>=◌, foreign, ltb, suc, [], ℤ, err, ◌==◌, str_eq, none, some, Option, ◌∷◌, ok, not,
  Result, ℕ, List, String, if◌then◌else◌, ◌≡◌,
}

-- The cron library: `add_timed_job` fails on an expression that is not `valid`, and it and
-- `schedule_timed_job` return the id of the new entry; `entry k id` is the job that `id` runs.
pub record CronLib : Type 1 where
  pub Cron : Type 0
  pub new_cron : Cron
  pub add_timed_job : Cron → String → ℕ → Option (ℕ × Cron)
  pub valid : String → Bool
  pub schedule_timed_job : Cron → ℤ → ℕ → ℕ × Cron
  pub remove : Cron → ℕ → Cron
  pub entry : Cron → ℕ → Option ℕ

-- The hash of `fnv` in decimal, on the four names of a schedule.
abbrev pub HashName : Type 0
HashName = String → String → String → String → String

pub record GoCronJob : Type 0 where
  pub name_of_schedule : String
  pub schedule : SchedulableEntity
  pub last_time : Option ℕ
  pub catchup_from_time : Option ℕ
  pub entry_id : ℕ

abbrev pub get_schedule_name : HashName → SchedulableEntity → String
get_schedule_name hash s = hash s.project s.domain s.name s.version

-- `sync.Map` as an association list, in the order of `Range`.
abbrev pub load {ℓ} : {V : Type ℓ} → String → List (String × V) → Option V
load n [] = none
load n ((m, v) ∷ rest) = if str_eq n m then some v else load n rest

abbrev pub delete {ℓ} : {V : Type ℓ} → String → List (String × V) → List (String × V)
delete n [] = []
delete n ((m, v) ∷ rest) =
    let others = delete n rest in if str_eq n m then others else (m, v) ∷ others

abbrev pub store {ℓ} : {V : Type ℓ} → String → V → List (String × V) → List (String × V)
store n v l = (n, v) ∷ delete n l

module _ (lib : CronLib) where
  pub record Scheduler : Type 0 where
    pub cron : lib.Cron
    pub job_store : List (String × ℕ)
    pub heap : ℕ → Option GoCronJob
    pub fresh : ℕ
    pub job_scheduled_failed : ℕ

abbrev pub write : ℕ → GoCronJob → (ℕ → Option GoCronJob) → ℕ → Option GoCronJob
write a j heap b = if b == a then some j else heap b

-- What `UpdatedAt` of the variable of a loop over schedules is when the loop is over.
abbrev pub last_updated_at : List SchedulableEntity → ℕ
last_updated_at [] = 0
last_updated_at (s ∷ []) = s.updated_at
last_updated_at (s ∷ (t ∷ rest)) = last_updated_at (t ∷ rest)

module _ (lib : CronLib) (hash : HashName) where
  -- The job's id is set before the error is looked at, but a job with an error is dropped.
  unfoldable pub add_cron_job : lib.Cron → ℕ → GoCronJob → Result (GoCronJob × lib.Cron)
  add_cron_job cron a job = elim (lib.add_timed_job cron job.schedule.cron_expression a) [
    | none ↦ err (foreign 1)
    | some (id, after) ↦ ok (record job { entry_id = id }, after)
  ]

  -- The new entry's id is not kept.
  unfoldable pub add_fixed_interval_job : lib.Cron → ℕ → GoCronJob → Result (GoCronJob × lib.Cron)
  add_fixed_interval_job cron a job = do
    d ← get_fixed_rate_duration_from_schedule job.schedule.unit job.schedule.fixed_rate_value
    ok (job, (lib.schedule_timed_job cron d a).1)

  unfoldable pub remove_cron_job : lib.Cron → GoCronJob → lib.Cron
  remove_cron_job cron job = lib.remove cron job.entry_id

  unfoldable pub remove_fixed_interval_job : lib.Cron → GoCronJob → lib.Cron
  remove_fixed_interval_job cron job = lib.remove cron job.entry_id

  abbrev pub new_job : SchedulableEntity → Option ℕ → GoCronJob
  new_job s last = record {
    name_of_schedule = get_schedule_name hash s;
    schedule = s;
    last_time = none;
    catchup_from_time = last;
    entry_id = 0;
  }

  abbrev pub add_job : lib.Cron → ℕ → GoCronJob → Result (GoCronJob × lib.Cron)
  add_job cron a job =
      if not (str_eq job.schedule.cron_expression "")
      then add_cron_job cron a job
      else add_fixed_interval_job cron a job

  unfoldable pub schedule_job :
      Scheduler lib → SchedulableEntity → Option ℕ → Result (Scheduler lib)
  schedule_job g s last = elim (load (get_schedule_name hash s) g.job_store) [
    | some a ↦ ok g
    | none ↦ do
      (job, cron) ← add_job g.cron g.fresh (new_job s last)
      ok (record g {
        cron = cron;
        heap = write g.fresh job g.heap;
        fresh = suc g.fresh;
        job_store = store (get_schedule_name hash s) g.fresh g.job_store;
      })
  ]

  abbrev pub remove_job : lib.Cron → GoCronJob → lib.Cron
  remove_job cron job =
      if not (str_eq job.schedule.cron_expression "")
      then remove_cron_job cron job
      else remove_fixed_interval_job cron job

  unfoldable pub de_schedule_job : Scheduler lib → SchedulableEntity → Scheduler lib
  de_schedule_job g s = elim (load (get_schedule_name hash s) g.job_store) [
    | none ↦ g
    | some a ↦ elim (g.heap a) [
      | none ↦ g
      | some job ↦ record g {
        cron = remove_job g.cron job;
        job_store = delete (get_schedule_name hash s) g.job_store;
      }
    ]
  ]

  -- A schedule that cannot be registered is counted and left out.
  abbrev pub registered : Scheduler lib → Result (Scheduler lib) → Scheduler lib
  registered g (ok after) = after
  registered g (err e) = record g { job_scheduled_failed = suc g.job_scheduled_failed }

  abbrev pub update_schedule : Scheduler lib → SchedulableEntity → Scheduler lib
  update_schedule g s =
      if not s.active then de_schedule_job g s else registered g (schedule_job g s none)

  unfoldable pub update_schedules : Scheduler lib → List SchedulableEntity → Scheduler lib
  update_schedules g [] = g
  update_schedules g (s ∷ rest) = update_schedules (update_schedule g s) rest

  -- The last execution in the snapshot, if it is later than the schedule's update, and else what the
  -- address of the loop's variable holds.
  abbrev pub last_exec_time : (loop_updated_at : ℕ) → SchedulableEntity → Option ℕ → ℕ
  last_exec_time loop_updated_at s none = loop_updated_at
  last_exec_time loop_updated_at s (some t) = if ltb s.updated_at t then t else loop_updated_at

  unfoldable pub boot_strap_from :
      (loop_updated_at : ℕ)
      → Scheduler lib
      → List SchedulableEntity
      → (String → Option ℕ)
      → Scheduler lib
  boot_strap_from u g [] snapshot = g
  boot_strap_from u g (s ∷ rest) snapshot =
      let from = last_exec_time u s (snapshot (get_schedule_name hash s)) in
      let after = if s.active then registered g (schedule_job g s (some from)) else g in
      boot_strap_from u after rest snapshot

  -- The jobs keep the address of a field of the loop's variable, of which there is one for the whole
  -- loop, and read it after the loop: there they find the update of the last schedule.
  unfoldable pub boot_strap_schedules_from_snap_shot :
      Scheduler lib → List SchedulableEntity → (String → Option ℕ) → Scheduler lib
  unfolding boot_strap_from
  boot_strap_schedules_from_snap_shot g schedules snapshot =
      boot_strap_from (last_updated_at schedules) g schedules snapshot

-- `(*GoCronJob).Run` after the call of the executor.
abbrev pub run : GoCronJob → ℕ → GoCronJob
run job t = elim job.last_time [
  | none ↦ record job { last_time = some t }
  | some last ↦ if ltb last t then record job { last_time = some t } else job
]

-- `Range` visits the jobs in no stated order.
abbrev pub last_times : (ℕ → Option GoCronJob) → List (String × ℕ) → List (String × ℕ)
last_times heap [] = []
last_times heap ((n, a) ∷ rest) = elim (heap a) [
  | none ↦ last_times heap rest
  | some job ↦ elim job.last_time [
    | none ↦ last_times heap rest
    | some t ↦ store n t (last_times heap rest)
  ]
]

module _ (lib : CronLib) where
  -- The cron library runs the entry `id` at the time `t`: the schedule that is executed, and the
  -- state after it.
  unfoldable pub fire : Scheduler lib → ℕ → ℕ → Option SchedulableEntity × Scheduler lib
  fire g id t = elim (lib.entry g.cron id) [
    | none ↦ (none, g)
    | some a ↦ elim (g.heap a) [
      | none ↦ (none, g)
      | some job ↦ (some job.schedule, record g { heap = write a (run job t) g.heap })
    ]
  ]

  unfoldable pub calculate_snapshot : Scheduler lib → List (String × ℕ)
  calculate_snapshot g = last_times g.heap g.job_store

  abbrev pub new_scheduler : Scheduler lib
  new_scheduler = record {
    cron = lib.new_cron;
    job_store = [];
    heap = λ a. none;
    fresh = 0;
    job_scheduled_failed = 0;
  }
