-- ===== src/Scheduler/Core/Synced.antt =====
-- The job store and the cron library agree (scheduler/core/gocron_scheduler.go).
use flyteadmin.Scheduler.Core.Maps.{Unique}
use mathlib.Core.Path.{subst}
use flyteadmin.Scheduler.Core.{
  get_fixed_rate_duration_from_schedule, remove_job, add_job, add_fixed_interval_job,
  remove_fixed_interval_job, remove_cron_job, load, add_cron_job, HashName, Scheduler, CronLib,
  GoCronJob,
}
use flyteadmin.Common.{
  is_some, ok-injective, ◌∙◌, refl, inr, sym, inl, Option-cases, Bool-cases, >>=-eq-ok, ok, str_eq,
  ℤ, ◌≤◌, String, not, ◌≢◌, Bool, ℕ, ◌≡◌, some, none, true, false,
}

-- What the cron library promises of the entries: a new one has an id in use by no other and never
-- zero, and the other entries stay.
abbrev pub Adds : (lib : CronLib) → lib.Cron → ℕ → ℕ → lib.Cron → Type 0
Adds lib cron a id after =
    (id ≢ 0)
    × (lib.entry cron id ≡ none)
    × (lib.entry after id ≡ some a)
    × ((i : ℕ) → i ≢ id → lib.entry after i ≡ lib.entry cron i)

pub record IsCronLib (lib : CronLib) : Type 0 where
  pub entry_new : (i : ℕ) → lib.entry lib.new_cron i ≡ none
  pub adds_timed :
      (cron : lib.Cron) (spec : String) (a id : ℕ) (after : lib.Cron)
      → lib.add_timed_job cron spec a ≡ some (id, after)
      → Adds lib cron a id after
  pub adds_scheduled :
      (cron : lib.Cron) (d : ℤ) (a : ℕ)
      → Adds lib cron a (lib.schedule_timed_job cron d a).0 (lib.schedule_timed_job cron d a).1
  pub adds_valid :
      (cron : lib.Cron) (spec : String) (a : ℕ)
      → is_some (lib.add_timed_job cron spec a) ≡ lib.valid spec
  pub entry_removed : (cron : lib.Cron) (id : ℕ) → lib.entry (lib.remove cron id) id ≡ none
  pub entry_kept :
      (cron : lib.Cron) (id i : ℕ) → i ≢ id → lib.entry (lib.remove cron id) i ≡ lib.entry cron i

abbrev pub is_cron : GoCronJob → Bool
is_cron job = not (str_eq job.schedule.cron_expression "")

module _ (lib : CronLib) where
  -- The job at `a` in the store under the name `n` runs as an entry, which its own id names if it
  -- has a cron expression.
  abbrev pub IsStored : Scheduler lib → String → ℕ → Type 0
  IsStored g n a =
      (job : GoCronJob) × (g.heap a ≡ some job)
      × (job.name_of_schedule ≡ n)
      × (id : ℕ) × (lib.entry g.cron id ≡ some a)
      × (is_cron job ≡ true → job.entry_id ≡ id)
      × (is_cron job ≡ false → job.entry_id ≡ 0)

  -- The entry `id` runs the job at `a`, which is in the store if it has a cron expression.
  abbrev pub IsHeld : Scheduler lib → ℕ → ℕ → Type 0
  IsHeld g id a =
      (job : GoCronJob) × (g.heap a ≡ some job)
      × (is_cron job ≡ true
          → (load job.name_of_schedule g.job_store ≡ some a) × (job.entry_id ≡ id))

  pub record IsSynced (g : Scheduler lib) : Type 0 where
    pub stored : (n : String) (a : ℕ) → load n g.job_store ≡ some a → IsStored g n a
    pub held : (id a : ℕ) → lib.entry g.cron id ≡ some a → IsHeld g id a
    pub unallocated : (a : ℕ) → g.fresh ≤ a → g.heap a ≡ none
    pub entry_zero : lib.entry g.cron 0 ≡ none
    pub unique : Unique g.job_store

module _ (lib : CronLib) (hash : HashName) (laws : IsCronLib lib) where
  abbrev pub IsAdded : lib.Cron → ℕ → GoCronJob → GoCronJob × lib.Cron → Type 0
  IsAdded cron a job (added, after) =
      (id : ℕ) × Adds lib cron a id after
      × (added.schedule ≡ job.schedule)
      × (added.name_of_schedule ≡ job.name_of_schedule)
      × (added.catchup_from_time ≡ job.catchup_from_time)
      × (is_cron added ≡ true → added.entry_id ≡ id)
      × (is_cron added ≡ false → added.entry_id ≡ 0)

  add_cron_job_added :
      (cron : lib.Cron) (a : ℕ) (job : GoCronJob) (id : ℕ) (after : lib.Cron)
      → lib.add_timed_job cron job.schedule.cron_expression a ≡ some (id, after)
      → add_cron_job lib hash cron a job ≡ ok (record job { entry_id = id }, after)
  unfolding add_cron_job
  add_cron_job_added cron a job id after e = rw (add_cron_job, e) refl

  add_cron_job-Added :
      (cron : lib.Cron) (a : ℕ) (job : GoCronJob) (p : GoCronJob × lib.Cron)
      → is_cron job ≡ true
      → add_cron_job lib hash cron a job ≡ ok p
      → IsAdded cron a job p
  unfolding add_cron_job
  add_cron_job-Added cron a job p kind done =
      elim (Option-cases (lib.add_timed_job cron job.schedule.cron_expression a)) [
        | inl e ↦ absurd (cc (done, e))
        | inr ((id, after), e) ↦
            subst (λ q. IsAdded cron a job q)
              (ok-injective (sym (add_cron_job_added cron a job id after e) ∙ done))
              (
                id,
                laws.adds_timed cron job.schedule.cron_expression a id after e,
                refl,
                refl,
                refl,
                λ k. refl,
                λ k. absurd (cc (k, kind)),
              )
      ]

  add_fixed_interval_job-Added :
      (cron : lib.Cron) (a : ℕ) (job : GoCronJob) (p : GoCronJob × lib.Cron)
      → is_cron job ≡ false
      → job.entry_id ≡ 0
      → add_fixed_interval_job lib hash cron a job ≡ ok p
      → IsAdded cron a job p
  unfolding add_fixed_interval_job
  add_fixed_interval_job-Added cron a job p kind zero_id done =
      let (d, found, rest) =
        >>=-eq-ok
          (get_fixed_rate_duration_from_schedule job.schedule.unit job.schedule.fixed_rate_value)
          (λ d. ok (job, (lib.schedule_timed_job cron d a).1)) done in
      subst (λ q. IsAdded cron a job q) (ok-injective rest)
        (
          (lib.schedule_timed_job cron d a).0,
          laws.adds_scheduled cron d a,
          refl,
          refl,
          refl,
          λ k. absurd (cc (k, kind)),
          λ k. zero_id,
        )

  pub add_job-Added :
      (cron : lib.Cron) (a : ℕ) (job : GoCronJob) (p : GoCronJob × lib.Cron)
      → job.entry_id ≡ 0
      → add_job lib hash cron a job ≡ ok p
      → IsAdded cron a job p
  add_job-Added cron a job p zero_id done = elim (Bool-cases (is_cron job)) [
    | inl e ↦ add_cron_job-Added cron a job p e (sym (rw e refl) ∙ done)
    | inr e ↦ add_fixed_interval_job-Added cron a job p e zero_id (sym (rw e refl) ∙ done)
  ]

  pub remove_job-eq :
      (cron : lib.Cron) (job : GoCronJob)
      → remove_job lib hash cron job ≡ lib.remove cron job.entry_id
  unfolding remove_cron_job remove_fixed_interval_job
  remove_job-eq cron job = elim (Bool-cases (str_eq job.schedule.cron_expression "")) [
    | inl e ↦ rw e refl
    | inr e ↦ rw e refl
  ]
