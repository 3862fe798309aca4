-- ===== src/Scheduler/Core/Boot.antt =====
-- From when a job catches up after a start (`BootStrapSchedulesFromSnapShot` in
-- scheduler/core/gocron_scheduler.go).
use flyteadmin.Scheduler.Core.Maps.{
  write-other, load-store-other, write-same, load-store-same, name-cases,
}
use flyteadmin.Scheduler.Core.Kept.{used-ne-fresh, with_job}
use flyteadmin.Scheduler.Core.Steps.{
  registered-Synced, if-Synced, schedule_job_cases, new_scheduler-Synced,
}
use flyteadmin.Scheduler.Core.Synced.{add_job-Added, IsSynced, IsCronLib}
use flyteadmin.Scheduler.Core.{
  last_updated_at, boot_strap_from, write, store, new_job, schedule_job, registered,
  get_schedule_name, last_exec_time, new_scheduler, GoCronJob, load, Scheduler, SchedulableEntity,
  boot_strap_schedules_from_snap_shot, HashName, CronLib,
}
use flyteadmin.Common.{
  Bool, ap, refl, ◌∙◌, sym, some-equal, inr, inl, ℕ, Option, List, String, ◌≡◌, ◌∷◌, [], some, none,
  ◌<◌, ◌≤◌, ◌++◌, arith, true, false, if◌then◌else◌,
}

module _ (lib : CronLib) (hash : HashName) (laws : IsCronLib lib) where
  -- The job of a schedule that was active when the scheduler started.
  abbrev HoldsAt : (u : ℕ) → (String → Option ℕ) → Scheduler lib → String → ℕ → Type 0
  HoldsAt u snapshot g n a =
      (job : GoCronJob) × (g.heap a ≡ some job)
      × (job.schedule.active ≡ true)
      × (get_schedule_name hash job.schedule ≡ n)
      × (job.catchup_from_time ≡ some (last_exec_time lib hash u job.schedule (snapshot n)))

  abbrev IsBooted : (u : ℕ) → (String → Option ℕ) → Scheduler lib → Type 0
  IsBooted u snapshot g =
      (n : String) (a : ℕ) → load n g.job_store ≡ some a → HoldsAt u snapshot g n a

  with_job-Booted :
      (u : ℕ) (snapshot : String → Option ℕ) (g : Scheduler lib) (s : SchedulableEntity)
      (job : GoCronJob) (cron : lib.Cron)
      → IsSynced lib g
      → IsBooted u snapshot g
      → s.active ≡ true
      → job.schedule ≡ s
      → job.catchup_from_time
        ≡ some (last_exec_time lib hash u s (snapshot (get_schedule_name hash s)))
      → IsBooted u snapshot (with_job lib hash laws g s (job, cron))
  with_job-Booted u snapshot g s job cron sync booted active kind from n a present =
      let name = get_schedule_name hash s in
      elim (name-cases n name) [
        | inl e ↦
            let new = some-equal (
              sym present
              ∙ ap (λ m. load m (store name g.fresh g.job_store)) e
              ∙ load-store-same name g.fresh g.job_store) in
            (
              job,
              ap (write g.fresh job g.heap) new ∙ write-same g.fresh job g.heap,
              ap (λ x. x.active) kind ∙ active,
              ap (get_schedule_name hash) kind ∙ sym e,
              from
                  ∙ ap some (
                      ap (λ x. last_exec_time lib hash u x (snapshot name)) (sym kind)
                      ∙ ap (λ m. last_exec_time lib hash u job.schedule (snapshot m)) (sym e)),
            )
        | inr differ ↦
            let (j, there, on, key, start) =
              booted n a (sym (load-store-other n name g.fresh g.job_store differ) ∙ present) in
            (
              j,
              write-other g.fresh a job g.heap (used-ne-fresh lib hash laws g sync a j there)
                  ∙ there,
              on,
              key,
              start,
            )
      ]

  registered-Booted :
      (u : ℕ) (snapshot : String → Option ℕ) (g : Scheduler lib) (s : SchedulableEntity)
      → IsSynced lib g
      → IsBooted u snapshot g
      → s.active ≡ true
      → IsBooted u snapshot (
          registered lib hash g (
            schedule_job lib hash g s
              (some (last_exec_time lib hash u s (snapshot (get_schedule_name hash s))))))
  registered-Booted u snapshot g s sync booted active =
      let from = some (last_exec_time lib hash u s (snapshot (get_schedule_name hash s))) in
      elim (schedule_job_cases lib hash laws g s from) [
        | inl (a, present, e) ↦ rw e booted
        | inr (inl ((job, cron), absent, added, e)) ↦
            let (id, adds, kind, named, start, c, f) =
              add_job-Added lib hash laws g.cron g.fresh (new_job lib hash s from) (job, cron) refl
                added in
            rw e (with_job-Booted u snapshot g s job cron sync booted active kind start)
        | inr (inr (x, absent, failed, e)) ↦ rw e booted
      ]

  if-Booted :
      (u : ℕ) (snapshot : String → Option ℕ) (b : Bool) (x y : Scheduler lib)
      → (b ≡ true → IsBooted u snapshot x)
      → IsBooted u snapshot y
      → IsBooted u snapshot (if b then x else y)
  if-Booted u snapshot true x y bx base = bx refl
  if-Booted u snapshot false x y bx base = base

  boot_strap_from-Booted :
      (u : ℕ) (g : Scheduler lib) (schedules : List SchedulableEntity)
      (snapshot : String → Option ℕ)
      → IsSynced lib g
      → IsBooted u snapshot g
      → IsBooted u snapshot (boot_strap_from lib hash u g schedules snapshot)
  unfolding boot_strap_from
  boot_strap_from-Booted u g [] snapshot sync booted = booted
  boot_strap_from-Booted u g (s ∷ rest) snapshot sync booted =
      let from = last_exec_time lib hash u s (snapshot (get_schedule_name hash s)) in
      let after = registered lib hash g (schedule_job lib hash g s (some from)) in
      boot_strap_from-Booted u (if s.active then after else g) rest snapshot
        (if-Synced lib hash laws s.active after g
          (registered-Synced lib hash laws g s (some from) sync) sync)
        (if-Booted u snapshot s.active after g (registered-Booted u snapshot g s sync booted)
          booted)

  last_exec_time_later :
      (u : ℕ) (s : SchedulableEntity) (o : Option ℕ) (t : ℕ)
      → o ≡ some t
      → s.updated_at < t
      → last_exec_time lib hash u s o ≡ t
  last_exec_time_later u s o t e late = ground (arith, e, late)

  last_exec_time_else :
      (u : ℕ) (s : SchedulableEntity) (o : Option ℕ)
      → ((t : ℕ) → o ≡ some t → t ≤ s.updated_at)
      → last_exec_time lib hash u s o ≡ u
  last_exec_time_else u s none early = refl
  last_exec_time_else u s (some t) early =
      let at : t ≤ s.updated_at = early t refl in ground (arith, at)

  last_updated_at-append :
      (before : List SchedulableEntity) (last : SchedulableEntity)
      → last_updated_at (before ++ last ∷ []) ≡ last.updated_at
  last_updated_at-append [] last = refl
  last_updated_at-append (s ∷ []) last = refl
  last_updated_at-append (s ∷ (r ∷ before)) last = last_updated_at-append (r ∷ before) last

  -- The job of a schedule that was active when the scheduler started, and from when it catches up.
  pub record BootedAt (last : SchedulableEntity) (from : Option ℕ) (g : Scheduler lib) (n : String)
      (a : ℕ) : Type 0 where
    pub job : GoCronJob
    pub held : g.heap a ≡ some job
    pub was_active : job.schedule.active ≡ true
    pub named : get_schedule_name hash job.schedule ≡ n
    pub from_snapshot :
        (t : ℕ) → from ≡ some t → job.schedule.updated_at < t → job.catchup_from_time ≡ some t
    pub from_last :
        ((t : ℕ) → from ≡ some t → t ≤ job.schedule.updated_at)
        → job.catchup_from_time ≡ some last.updated_at

  -- After a start, every job of the store is one of an active schedule with its name. It catches up
  -- from the last time of the schedule in the snapshot, if that is later than the time at which the
  -- schedule was last changed. Any other job catches up from the time at which the last of all the
  -- schedules that were read was changed, whatever its own is.
  pub boot_strap-BootedAt :
      (before : List SchedulableEntity) (last : SchedulableEntity) (snapshot : String → Option ℕ)
      (n : String) (a : ℕ)
      → load n
          (boot_strap_schedules_from_snap_shot lib hash
            (new_scheduler lib)
            (before ++ last ∷ [])
            snapshot).job_store
        ≡ some a
      → BootedAt last
          (snapshot n)
          (boot_strap_schedules_from_snap_shot lib hash
            (new_scheduler lib)
            (before ++ last ∷ [])
            snapshot)
          n
          a
  unfolding boot_strap_schedules_from_snap_shot
  boot_strap-BootedAt before last snapshot n a present =
      let schedules : List SchedulableEntity = before ++ last ∷ [] in
      let u : ℕ = last_updated_at schedules in
      let (job, there, on, key, start) =
        boot_strap_from-Booted u (new_scheduler lib) schedules snapshot
          (new_scheduler-Synced lib hash laws) (λ n a e. absurd (cc e)) n a present in
      record {
        job = job;
        held = there;
        was_active = on;
        named = key;
        from_snapshot =
            λ t e late. start ∙ ap some (last_exec_time_later u job.schedule (snapshot n) t e late);
        from_last = λ early.
            start
            ∙ ap some (
                last_exec_time_else u job.schedule (snapshot n) early
                ∙ last_updated_at-append before last);
      }
