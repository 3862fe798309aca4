-- ===== src/Scheduler/Core/Spec.antt =====
-- Which names are scheduled after a round of updates (`UpdateSchedules` and `DeScheduleJob` in
-- scheduler/core/gocron_scheduler.go).
use flyteadmin.Scheduler.Core.Maps.{
  number-cases, load-delete-other, load-delete-same, load-store-other, load-store-same,
}
use flyteadmin.Scheduler.Core.Steps.{
  de_schedule_job-present, registered-Synced, de_schedule_job-absent, de_schedule_job-Synced,
  if-Synced, schedule_job_cases,
}
use flyteadmin.Scheduler.Core.Synced.{is_cron, IsSynced, IsCronLib}
use flyteadmin.Scheduler.Core.{
  new_job, add_job, update_schedule, GoCronJob, de_schedule_job,
  get_fixed_rate_duration_from_schedule, get_schedule_name, load, schedule_job, update_schedules,
  add_cron_job, registered, add_fixed_interval_job, HashName, Scheduler, SchedulableEntity, CronLib,
}
use flyteadmin.Scheduler.{FixedRateUnit, minute, hour, day, other_unit}
use flyteadmin.Scheduler.Times.{get_fixed_rate_duration_from_schedule}
use flyteadmin.Common.{
  ◌>>=◌, eq_iff, ap, eq_iff, inr, sym, inl, Bool-cases, some-equal, ◌∙◌, Option-cases, Option, ◌&&◌,
  str_eq, ◌≢◌, refl, ℕ, err, ◌||◌, is_some, String, not, List, ok, Bool, Result, ◌≡◌, ◌∷◌, [], some,
  none, true, false, if◌then◌else◌,
}

abbrev pub is_known : FixedRateUnit → Bool
is_known (other_unit u) = false
is_known _ = true

-- Whether the scheduler can register a schedule: its cron expression parses, or its unit is known.
abbrev pub is_schedulable : CronLib → SchedulableEntity → Bool
is_schedulable lib s =
    if not (str_eq s.cron_expression "") then lib.valid s.cron_expression else is_known s.unit

-- Whether the name `n` is scheduled after the schedules, which are applied in order.
abbrev pub scheduled_after : CronLib → HashName → List SchedulableEntity → String → Bool → Bool
scheduled_after lib hash [] n was = was
scheduled_after lib hash (s ∷ rest) n was =
    scheduled_after lib hash rest n (
      if str_eq n (get_schedule_name hash s)
      then s.active && (was || is_schedulable lib s)
      else was)

abbrev pub is_scheduled : (lib : CronLib) → Scheduler lib → String → Bool
is_scheduled lib g n = is_some (load n g.job_store)

abbrev is_ok {ℓ} : {V : Type ℓ} → Result V → Bool
is_ok (ok v) = true
is_ok (err e) = false

module _ (lib : CronLib) (hash : HashName) (laws : IsCronLib lib) where
  add_cron_job-ok :
      (cron : lib.Cron) (a : ℕ) (job : GoCronJob)
      → is_ok (add_cron_job lib hash cron a job) ≡ lib.valid job.schedule.cron_expression
  unfolding add_cron_job
  add_cron_job-ok cron a job =
      elim (Option-cases (lib.add_timed_job cron job.schedule.cron_expression a)) [
        | inl e ↦
            rw (add_cron_job, e)
              (sym (ap is_some e) ∙ laws.adds_valid cron job.schedule.cron_expression a)
        | inr ((id, after), e) ↦
            rw (add_cron_job, e)
              (sym (ap is_some e) ∙ laws.adds_valid cron job.schedule.cron_expression a)
      ]

  bind-ok {ℓ μ} :
      {V : Type ℓ} {W : Type μ} (o : Result V) (f : V → W) → is_ok (o >>= λ v. ok (f v)) ≡ is_ok o
  bind-ok (err e) f = refl
  bind-ok (ok v) f = refl

  get_fixed_rate_duration_from_schedule-ok :
      (u : FixedRateUnit) (value : ℕ)
      → is_ok (get_fixed_rate_duration_from_schedule u value) ≡ is_known u
  unfolding get_fixed_rate_duration_from_schedule
  get_fixed_rate_duration_from_schedule-ok minute value = refl
  get_fixed_rate_duration_from_schedule-ok hour value = refl
  get_fixed_rate_duration_from_schedule-ok day value = refl
  get_fixed_rate_duration_from_schedule-ok (other_unit u) value = refl

  add_fixed_interval_job-ok :
      (cron : lib.Cron) (a : ℕ) (job : GoCronJob)
      → is_ok (add_fixed_interval_job lib hash cron a job) ≡ is_known job.schedule.unit
  unfolding add_fixed_interval_job
  add_fixed_interval_job-ok cron a job =
      bind-ok
        (get_fixed_rate_duration_from_schedule job.schedule.unit job.schedule.fixed_rate_value)
        (λ d. (job, (lib.schedule_timed_job cron d a).1))
      ∙ get_fixed_rate_duration_from_schedule-ok job.schedule.unit job.schedule.fixed_rate_value

  add_job-ok :
      (cron : lib.Cron) (a : ℕ) (s : SchedulableEntity) (last : Option ℕ)
      → is_ok (add_job lib hash cron a (new_job lib hash s last)) ≡ is_schedulable lib s
  add_job-ok cron a s last = elim (Bool-cases (str_eq s.cron_expression "")) [
    | inl e ↦ rw e (add_fixed_interval_job-ok cron a (new_job lib hash s last))
    | inr e ↦ rw e (add_cron_job-ok cron a (new_job lib hash s last))
  ]

  registered-scheduled_same :
      (g : Scheduler lib) (s : SchedulableEntity)
      → is_scheduled lib
          (registered lib hash g (schedule_job lib hash g s none))
          (get_schedule_name hash s)
        ≡ (is_scheduled lib g (get_schedule_name hash s) || is_schedulable lib s)
  registered-scheduled_same g s = elim (schedule_job_cases lib hash laws g s none) [
    | inl (a, present, e) ↦ rw (e, present) refl
    | inr (inl (p, absent, added, e)) ↦ rw e (
        ap is_some (load-store-same (get_schedule_name hash s) g.fresh g.job_store)
        ∙ sym (ap is_ok added)
        ∙ add_job-ok g.cron g.fresh s none
        ∙ sym (ap (λ o. is_some o || is_schedulable lib s) absent))
    | inr (inr (x, absent, failed, e)) ↦ rw e (
        ap is_some absent
        ∙ sym (ap is_ok failed)
        ∙ add_job-ok g.cron g.fresh s none
        ∙ sym (ap (λ o. is_some o || is_schedulable lib s) absent))
  ]

  registered-scheduled_other :
      (g : Scheduler lib) (s : SchedulableEntity) (n : String)
      → n ≢ get_schedule_name hash s
      → is_scheduled lib (registered lib hash g (schedule_job lib hash g s none)) n
        ≡ is_scheduled lib g n
  registered-scheduled_other g s n differ = elim (schedule_job_cases lib hash laws g s none) [
    | inl (a, present, e) ↦ rw e refl
    | inr (inl (p, absent, added, e)) ↦
        rw e (ap is_some (load-store-other n (get_schedule_name hash s) g.fresh g.job_store differ))
    | inr (inr (x, absent, failed, e)) ↦ rw e refl
  ]

  de_schedule_job-scheduled_same :
      (g : Scheduler lib) (s : SchedulableEntity)
      → IsSynced lib g
      → is_scheduled lib (de_schedule_job lib hash g s) (get_schedule_name hash s) ≡ false
  de_schedule_job-scheduled_same g s sync =
      let name = get_schedule_name hash s in
      elim (Option-cases (load name g.job_store)) [
        | inl e ↦ rw (de_schedule_job-absent lib hash laws g s e) (ap is_some e)
        | inr (a, e) ↦
            let (job, there, named, id, ent, c, f) = sync.stored name a e in
            rw (de_schedule_job-present lib hash laws g s a job sync e there)
              (ap is_some (load-delete-same name g.job_store))
      ]

  de_schedule_job-scheduled_other :
      (g : Scheduler lib) (s : SchedulableEntity) (n : String)
      → IsSynced lib g
      → n ≢ get_schedule_name hash s
      → is_scheduled lib (de_schedule_job lib hash g s) n ≡ is_scheduled lib g n
  de_schedule_job-scheduled_other g s n sync differ =
      let name = get_schedule_name hash s in
      elim (Option-cases (load name g.job_store)) [
        | inl e ↦ rw (de_schedule_job-absent lib hash laws g s e) refl
        | inr (a, e) ↦
            let (job, there, named, id, ent, c, f) = sync.stored name a e in
            rw (de_schedule_job-present lib hash laws g s a job sync e there)
              (ap is_some (load-delete-other n name g.job_store differ))
      ]

  is_scheduled-if :
      (b : Bool) (x y : Scheduler lib) (n : String)
      → is_scheduled lib (if b then x else y) n
        ≡ (if b then is_scheduled lib x n else is_scheduled lib y n)
  is_scheduled-if true x y n = refl
  is_scheduled-if false x y n = refl

  merge_same :
      (active was valid off on : Bool)
      → off ≡ false
      → on ≡ (was || valid)
      → (if not active then off else on) ≡ (active && (was || valid))
  merge_same true was valid off on o p = p
  merge_same false was valid off on o p = o

  merge_other :
      (active was off on : Bool) → off ≡ was → on ≡ was → (if not active then off else on) ≡ was
  merge_other true was off on o p = p
  merge_other false was off on o p = o

  update_schedule-scheduled :
      (g : Scheduler lib) (s : SchedulableEntity) (n : String)
      → IsSynced lib g
      → is_scheduled lib (update_schedule lib hash g s) n ≡ (
          if str_eq n (get_schedule_name hash s)
          then s.active && (is_scheduled lib g n || is_schedulable lib s)
          else is_scheduled lib g n)
  update_schedule-scheduled g s n sync =
      let off = de_schedule_job lib hash g s in
      let on = registered lib hash g (schedule_job lib hash g s none) in
      let name = get_schedule_name hash s in
      is_scheduled-if (not s.active) off on n ∙ elim (Bool-cases (str_eq n name)) [
        | inl e ↦
            let same = (eq_iff n name).0 e in
            rw e (
              merge_same s.active (is_scheduled lib g n) (is_schedulable lib s)
                (is_scheduled lib off n) (is_scheduled lib on n)
                (ap (is_scheduled lib off) same ∙ de_schedule_job-scheduled_same g s sync)
                (ap (is_scheduled lib on) same
                  ∙ registered-scheduled_same g s
                  ∙ ap (λ m. is_scheduled lib g m || is_schedulable lib s) (sym same)))
        | inr e ↦
            let differ = λ (same : n ≡ name). absurd (cc (e, (eq_iff n name).1 same)) in
            rw e (
              merge_other s.active (is_scheduled lib g n) (is_scheduled lib off n)
                (is_scheduled lib on n) (de_schedule_job-scheduled_other g s n sync differ)
                (registered-scheduled_other g s n differ))
      ]

  -- After a round of updates of a synced state, a name is scheduled if and only if the list says
  -- so when its schedules are read one after the other: an inactive schedule ends its name's, an
  -- active one starts it if it can be registered and keeps it if it runs already.
  pub update_schedules-scheduled :
      (schedules : List SchedulableEntity) (g : Scheduler lib) (n : String)
      → IsSynced lib g
      → is_scheduled lib (update_schedules lib hash g schedules) n
        ≡ scheduled_after lib hash schedules n (is_scheduled lib g n)
  unfolding update_schedules
  update_schedules-scheduled [] g n sync = refl
  update_schedules-scheduled (s ∷ rest) g n sync =
      update_schedules-scheduled rest (update_schedule lib hash g s) n (
        if-Synced lib hash laws (not s.active) (de_schedule_job lib hash g s)
          (registered lib hash g (schedule_job lib hash g s none))
          (de_schedule_job-Synced lib hash laws g s sync)
          (registered-Synced lib hash laws g s none sync))
      ∙ ap (scheduled_after lib hash rest n) (update_schedule-scheduled g s n sync)

  -- A job of the store that is descheduled leaves the store under its name. Where its schedule has
  -- a cron expression, no entry of the cron library runs it any more. Where it has a fixed rate,
  -- some entry still runs it.
  pub de_schedule_job-entries :
      (g : Scheduler lib) (s : SchedulableEntity) (a : ℕ) (job : GoCronJob)
      → IsSynced lib g
      → load (get_schedule_name hash s) g.job_store ≡ some a
      → g.heap a ≡ some job
      → (is_scheduled lib (de_schedule_job lib hash g s) (get_schedule_name hash s) ≡ false)
        × (is_cron job ≡ true
            → (id : ℕ) → lib.entry (de_schedule_job lib hash g s).cron id ≢ some a)
        × (is_cron job ≡ false
            → (id : ℕ) × (lib.entry (de_schedule_job lib hash g s).cron id ≡ some a))
  de_schedule_job-entries g s a job sync present there =
      let name = get_schedule_name hash s in
      let (j, at_a, named, id, ent, c, f) = sync.stored name a present in
      let same = some-equal (sym at_a ∙ there) in
      rw (de_schedule_job-present lib hash laws g s a job sync present there) (
        ap is_some (load-delete-same name g.job_store),
        λ kind i held. elim (number-cases i job.entry_id) [
          | inl e ↦ absurd (
              cc (
                held,
                ap (lib.entry (lib.remove g.cron job.entry_id)) e,
                laws.entry_removed g.cron job.entry_id,
              ))
          | inr differ ↦
              let (k, at_a2, in_store) =
                sync.held i a (sym (laws.entry_kept g.cron job.entry_id i differ) ∙ held) in
              let eq = some-equal (sym at_a2 ∙ there) in
              differ (sym (in_store (ap is_cron eq ∙ kind)).1 ∙ ap (λ x. x.entry_id) eq)
        ],
        λ kind. (
          id,
          laws.entry_kept g.cron job.entry_id id (λ e. absurd (
                cc (
                  ent,
                  ap (lib.entry g.cron)
                      (e ∙ ap (λ x. x.entry_id) (sym same) ∙ f (ap is_cron same ∙ kind)),
                  sync.entry_zero,
                )))
              ∙ ent,
        ),
      )
