-- ===== src/Scheduler/Core/Steps.antt =====
-- The branches of the scheduler's operations, and what holds in every state that it reaches
-- (scheduler/core/gocron_scheduler.go).
use flyteadmin.Scheduler.Core.Maps.{write-other, write-same, number-cases}
use flyteadmin.Scheduler.Core.Kept.{with_job, with_job-Synced, without_job-Synced, without_job}
use flyteadmin.Scheduler.Core.Synced.{is_cron, add_job-Added, remove_job-eq, IsSynced, IsCronLib}
use flyteadmin.Scheduler.Core.{
  boot_strap_from, last_updated_at, update_schedule, write, run, new_job, add_job, last_exec_time,
  get_schedule_name, registered, new_scheduler, GoCronJob, load, SchedulableEntity, de_schedule_job,
  schedule_job, Scheduler, fire, boot_strap_schedules_from_snap_shot, update_schedules, HashName,
  CronLib,
}
use mathlib.Core.Path.{subst}
use flyteadmin.Common.{
  if◌then◌else◌, some-equal, sym, not, ltb, Bool, ap, ◌∙◌, Result-cases, err, Error, ◌>>=◌, ◌⊎◌,
  inr, refl, ok, inl, Option-cases, Option, Bool-cases, String, ℕ, List, ◌≡◌, ◌∷◌, [], some, none,
  true, false,
}

module _ (lib : CronLib) (hash : HashName) (laws : IsCronLib lib) where
  schedule_job-present :
      (g : Scheduler lib) (s : SchedulableEntity) (last : Option ℕ) (a : ℕ)
      → load (get_schedule_name hash s) g.job_store ≡ some a
      → schedule_job lib hash g s last ≡ ok g
  unfolding schedule_job
  schedule_job-present g s last a e = rw (schedule_job, e) refl

  schedule_job-absent :
      (g : Scheduler lib) (s : SchedulableEntity) (last : Option ℕ)
      → load (get_schedule_name hash s) g.job_store ≡ none
      → schedule_job lib hash g s last ≡ (
          add_job lib hash g.cron g.fresh (new_job lib hash s last) >>= λ p.
          ok (with_job lib hash laws g s p))
  unfolding schedule_job
  schedule_job-absent g s last e = rw (schedule_job, e) refl

  -- A job is known by its name, or it is added, or it cannot be.
  pub schedule_job_cases :
      (g : Scheduler lib) (s : SchedulableEntity) (last : Option ℕ)
      → ((a : ℕ) × (load (get_schedule_name hash s) g.job_store ≡ some a)
          × (schedule_job lib hash g s last ≡ ok g))
        ⊎ ((p : GoCronJob × lib.Cron) × (load (get_schedule_name hash s) g.job_store ≡ none)
            × (add_job lib hash g.cron g.fresh (new_job lib hash s last) ≡ ok p)
            × (schedule_job lib hash g s last ≡ ok (with_job lib hash laws g s p)))
        ⊎ ((e : Error) × (load (get_schedule_name hash s) g.job_store ≡ none)
            × (add_job lib hash g.cron g.fresh (new_job lib hash s last) ≡ err e)
            × (schedule_job lib hash g s last ≡ err e))
  schedule_job_cases g s last = elim (Option-cases (load (get_schedule_name hash s) g.job_store)) [
    | inr (a, e) ↦ inl (a, e, schedule_job-present g s last a e)
    | inl e ↦ elim (Result-cases (add_job lib hash g.cron g.fresh (new_job lib hash s last))) [
      | inr (p, added) ↦ inr (inl (p, e, added, schedule_job-absent g s last e ∙ rw added refl))
      | inl (x, failed) ↦ inr (inr (x, e, failed, schedule_job-absent g s last e ∙ rw failed refl))
    ]
  ]

  pub de_schedule_job-absent :
      (g : Scheduler lib) (s : SchedulableEntity)
      → load (get_schedule_name hash s) g.job_store ≡ none
      → de_schedule_job lib hash g s ≡ g
  unfolding de_schedule_job
  de_schedule_job-absent g s e = rw (de_schedule_job, e) refl

  pub de_schedule_job-present :
      (g : Scheduler lib) (s : SchedulableEntity) (a : ℕ) (job : GoCronJob) (sync : IsSynced lib g)
      (present : load (get_schedule_name hash s) g.job_store ≡ some a) (there : g.heap a ≡ some job)
      → de_schedule_job lib hash g s
        ≡ without_job lib hash laws g (get_schedule_name hash s) a job sync present there
  unfolding de_schedule_job
  de_schedule_job-present g s a job sync present there =
      rw (de_schedule_job, present, there, remove_job-eq lib hash laws g.cron job) refl

  pub de_schedule_job-Synced :
      (g : Scheduler lib) (s : SchedulableEntity)
      → IsSynced lib g
      → IsSynced lib (de_schedule_job lib hash g s)
  de_schedule_job-Synced g s sync =
      elim (Option-cases (load (get_schedule_name hash s) g.job_store)) [
        | inl e ↦ rw (de_schedule_job-absent g s e) sync
        | inr (a, e) ↦
            let (job, there, named, id, ent, c, f) = sync.stored (get_schedule_name hash s) a e in
            rw (de_schedule_job-present g s a job sync e there)
              (without_job-Synced lib hash laws g (get_schedule_name hash s) a job sync e there)
      ]

  pub registered-Synced :
      (g : Scheduler lib) (s : SchedulableEntity) (last : Option ℕ)
      → IsSynced lib g
      → IsSynced lib (registered lib hash g (schedule_job lib hash g s last))
  registered-Synced g s last sync = elim (schedule_job_cases g s last) [
    | inl (a, present, e) ↦ rw e sync
    | inr (inl ((job, cron), absent, added, e)) ↦ rw e (
        with_job-Synced lib hash laws g s last job cron sync absent (
          add_job-Added lib hash laws g.cron g.fresh (new_job lib hash s last) (job, cron) refl
            added))
    | inr (inr (x, absent, failed, e)) ↦ rw e (record {
      stored = sync.stored;
      held = sync.held;
      unallocated = sync.unallocated;
      unique = sync.unique;
      entry_zero = sync.entry_zero;
    })
  ]

  pub if-Synced :
      (b : Bool) (x y : Scheduler lib)
      → IsSynced lib x
      → IsSynced lib y
      → IsSynced lib (if b then x else y)
  if-Synced true x y sx sy = sx
  if-Synced false x y sx sy = sy

  update_schedules-Synced :
      (g : Scheduler lib) (schedules : List SchedulableEntity)
      → IsSynced lib g
      → IsSynced lib (update_schedules lib hash g schedules)
  unfolding update_schedules
  update_schedules-Synced g [] sync = sync
  update_schedules-Synced g (s ∷ rest) sync =
      update_schedules-Synced (update_schedule lib hash g s) rest (
        if-Synced (not s.active) (de_schedule_job lib hash g s)
          (registered lib hash g (schedule_job lib hash g s none)) (de_schedule_job-Synced g s sync)
          (registered-Synced g s none sync))

  boot_strap_from-Synced :
      (u : ℕ) (g : Scheduler lib) (schedules : List SchedulableEntity)
      (snapshot : String → Option ℕ)
      → IsSynced lib g
      → IsSynced lib (boot_strap_from lib hash u g schedules snapshot)
  unfolding boot_strap_from
  boot_strap_from-Synced u g [] snapshot sync = sync
  boot_strap_from-Synced u g (s ∷ rest) snapshot sync =
      let from = last_exec_time lib hash u s (snapshot (get_schedule_name hash s)) in
      boot_strap_from-Synced u
        (if s.active then registered lib hash g (schedule_job lib hash g s (some from)) else g) rest
        snapshot
        (if-Synced s.active (registered lib hash g (schedule_job lib hash g s (some from))) g
          (registered-Synced g s (some from) sync) sync)

  boot_strap-Synced :
      (g : Scheduler lib) (schedules : List SchedulableEntity) (snapshot : String → Option ℕ)
      → IsSynced lib g
      → IsSynced lib (boot_strap_schedules_from_snap_shot lib hash g schedules snapshot)
  unfolding boot_strap_schedules_from_snap_shot
  boot_strap-Synced g schedules snapshot sync =
      boot_strap_from-Synced (last_updated_at schedules) g schedules snapshot sync

  module _ (g : Scheduler lib) (a : ℕ) (job : GoCronJob) (last : Option ℕ)
      (there : g.heap a ≡ some job) (sync : IsSynced lib g) where
    abbrev later : GoCronJob
    later = record job { last_time = last }

    abbrev with_last_time : Scheduler lib
    with_last_time = record g { heap = write a later g.heap }

    with_last_time-heap :
        (b : ℕ) (j : GoCronJob)
        → g.heap b ≡ some j
        → (k : GoCronJob) × (with_last_time.heap b ≡ some k)
          × (k ≡ record j { last_time = k.last_time })
    with_last_time-heap b j at_b = elim (number-cases b a) [
      | inl e ↦ (
        later,
        ap (write a later g.heap) e ∙ write-same a later g.heap,
        ap {A = GoCronJob} (λ x. record x { last_time = last })
            (some-equal (sym there ∙ ap g.heap (sym e) ∙ at_b)),
      )
      | inr differ ↦ (j, write-other a b later g.heap differ ∙ at_b, refl)
    ]

    with_last_time-Synced : IsSynced lib with_last_time
    with_last_time-Synced = record {
      stored = λ n b e.
          let (j, at_b, named, id, ent, c, f) = sync.stored n b e in
          let (k, at_b2, same) = with_last_time-heap b j at_b in
          (
            k,
            at_b2,
            ap (λ x. x.name_of_schedule) same ∙ named,
            id,
            ent,
            λ kind. ap (λ x. x.entry_id) same ∙ c (sym (ap is_cron same) ∙ kind),
            λ kind. ap (λ x. x.entry_id) same ∙ f (sym (ap is_cron same) ∙ kind),
          );
      held = λ id b ent.
          let (j, at_b, in_store) = sync.held id b ent in
          let (k, at_b2, same) = with_last_time-heap b j at_b in
          (
            k,
            at_b2,
            λ kind. (
              ap (λ x. load x.name_of_schedule g.job_store) same
                  ∙ (in_store (sym (ap is_cron same) ∙ kind)).0,
              ap (λ x. x.entry_id) same ∙ (in_store (sym (ap is_cron same) ∙ kind)).1,
            ),
          );
      unallocated = λ b above. elim (number-cases b a) [
        | inl e ↦ absurd (cc (sync.unallocated b above, ap g.heap e, there))
        | inr differ ↦ write-other a b later g.heap differ ∙ sync.unallocated b above
      ];
      unique = sync.unique;
      entry_zero = sync.entry_zero;
    }

  run_cases :
      (job : GoCronJob) (t : ℕ) → (last : Option ℕ) × (run job t ≡ record job { last_time = last })
  run_cases job t = elim (Option-cases job.last_time) [
    | inl e ↦ (some t, rw e refl)
    | inr (last, e) ↦ elim (Bool-cases (ltb last t)) [
      | inl later ↦ (some t, rw (e, later) refl)
      | inr earlier ↦ (job.last_time, rw (e, earlier) refl)
    ]
  ]

  -- An entry that runs a job of the heap executes its schedule and marks its time; there is no
  -- other entry in a synced state.
  pub fire_job :
      (g : Scheduler lib) (id t a : ℕ) (job : GoCronJob)
      → lib.entry g.cron id ≡ some a
      → g.heap a ≡ some job
      → fire lib g id t ≡ (some job.schedule, record g { heap = write a (run job t) g.heap })
  unfolding fire
  fire_job g id t a job ent there = rw (fire, ent, there) refl

  pub fire-none :
      (g : Scheduler lib) (id t : ℕ) → lib.entry g.cron id ≡ none → fire lib g id t ≡ (none, g)
  unfolding fire
  fire-none g id t ent = rw (fire, ent) refl

  fire-Synced : (g : Scheduler lib) (id t : ℕ) → IsSynced lib g → IsSynced lib (fire lib g id t).1
  fire-Synced g id t sync = elim (Option-cases (lib.entry g.cron id)) [
    | inl e ↦ rw (fire-none g id t e) sync
    | inr (a, ent) ↦
        let (job, there, in_store) = sync.held id a ent in
        let (last, same) = run_cases job t in
        rw (fire_job g id t a job ent there) (
          subst (λ j. IsSynced lib (record g { heap = write a j g.heap })) (sym same)
            (with_last_time-Synced g a job last there sync))
  ]

  pub new_scheduler-Synced : IsSynced lib (new_scheduler lib)
  new_scheduler-Synced = record {
    stored = λ n a e. absurd (cc e);
    held = λ id a e. absurd (cc (e, laws.entry_new id));
    unallocated = λ a h. refl;
    unique = tt;
    entry_zero = laws.entry_new 0;
  }

  -- The states of a scheduler: it is made from the schedules and the snapshot that are read, and
  -- then it is updated with the schedules as they are, and runs its entries.
  pub data IsReachable : Scheduler lib → Type 0 where
    booted :
        (schedules : List SchedulableEntity) (snapshot : String → Option ℕ)
        → IsReachable
            (boot_strap_schedules_from_snap_shot lib hash (new_scheduler lib) schedules snapshot)
    updated :
        (g : Scheduler lib) (schedules : List SchedulableEntity)
        → IsReachable g
        → IsReachable (update_schedules lib hash g schedules)
    fired : (g : Scheduler lib) (id t : ℕ) → IsReachable g → IsReachable (fire lib g id t).1

  -- In every reachable state, under the promises of the cron library: each job of the store stands
  -- in the heap under its name and runs as an entry of the cron library, each entry of the
  -- library runs a job of the heap, which is the job in the store under its name if it has a cron
  -- expression, the id of that job is the entry's, and no name is in the store twice.
  pub IsReachable-Synced : (g : Scheduler lib) → IsReachable g → IsSynced lib g
  IsReachable-Synced _ (booted schedules snapshot) =
      boot_strap-Synced (new_scheduler lib) schedules snapshot new_scheduler-Synced
  IsReachable-Synced _ (updated g schedules before) =
      update_schedules-Synced g schedules (IsReachable-Synced g before)
  IsReachable-Synced _ (fired g id t before) = fire-Synced g id t (IsReachable-Synced g before)
