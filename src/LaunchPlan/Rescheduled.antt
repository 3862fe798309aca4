-- ===== src/LaunchPlan/Rescheduled.antt =====
-- The steps of an update of the schedules that succeeded
-- (`updateSchedules` in pkg/manager/impl/launch_plan_manager.go).
use flyteadmin.LaunchPlan.Manager.{
  update_schedules, disable_former, enable_newly, read_spec, read_former_spec, after_disable,
  with_specs, read_specs, schedules_or,
}
use flyteadmin.Scheduler.{SchedulableEntity}
use flyteadmin.LaunchPlan.Schedules.{EventScheduler}
use flyteadmin.LaunchPlan.{LaunchPlanSpec, LaunchPlanKey, LaunchPlan, PlanWire}
use flyteadmin.Common.{
  ◌≡◌, refl, ap, ◌∙◌, some, ok, err, Result, Option, List, >>=-eq-ok, or_fail-eq-ok, ok-injective,
  internal,
}

module _ (w : PlanWire) (sched : EventScheduler) where
  -- What an update of the schedules that succeeds has done.
  pub record Rescheduled (s s' : List SchedulableEntity) (newly : LaunchPlan)
      (former : Option LaunchPlan) : Type 0 where
    pub newly_spec : LaunchPlanSpec
    pub former_spec : LaunchPlanSpec
    pub between : List SchedulableEntity
    pub has_newly : w.unmarshal_spec newly.spec ≡ some newly_spec
    pub has_former : read_former_spec w former ≡ ok former_spec
    pub removed : disable_former w sched s former former_spec ≡ ok between
    pub added : enable_newly w sched between newly.key newly_spec ≡ ok s'

  schedules_or-ok :
      (s s' : List SchedulableEntity) (o : Result (List SchedulableEntity))
      → schedules_or w sched s o ≡ (s', ok tt)
      → o ≡ ok s'
  schedules_or-ok s s' (err e) h = absurd (cc (ap (λ p. p.1) h))
  schedules_or-ok s s' (ok t) h = ap (λ p. ok p.0) h

  after_disable-ok :
      (s s' : List SchedulableEntity) (id : LaunchPlanKey) (spec : LaunchPlanSpec)
      (o : Result (List SchedulableEntity))
      → after_disable w sched s id spec o ≡ (s', ok tt)
      → (t : List SchedulableEntity) × (o ≡ ok t) × (enable_newly w sched t id spec ≡ ok s')
  after_disable-ok s s' id spec (err e) h = absurd (cc (ap (λ p. p.1) h))
  after_disable-ok s s' id spec (ok t) h = (t, refl, schedules_or-ok t s' _ h)

  with_specs-Rescheduled :
      (s s' : List SchedulableEntity) (newly : LaunchPlan) (former : Option LaunchPlan)
      (o : Result (LaunchPlanSpec × LaunchPlanSpec))
      → read_specs w sched newly former ≡ o
      → with_specs w sched s newly former o ≡ (s', ok tt)
      → Rescheduled s s' newly former
  with_specs-Rescheduled s s' newly former (err e) r h = absurd (cc (ap (λ p. p.1) h))
  with_specs-Rescheduled s s' newly former (ok (a, b)) r h =
      let (n, hn, r1) = >>=-eq-ok (read_spec w newly) _ r in
      let (f, hf, r2) = >>=-eq-ok (read_former_spec w former) _ r1 in
      let same = ok-injective r2 in
      let (t, off, on) = after_disable-ok s s' newly.key a (disable_former w sched s former b) h in
      record {
        newly_spec = a;
        former_spec = b;
        between = t;
        has_newly =
            or_fail-eq-ok (w.unmarshal_spec newly.spec) internal (hn ∙ ap (λ p. ok p.0) same);
        has_former = hf ∙ ap (λ p. ok p.1) same;
        removed = off;
        added = on;
      }

  pub update_schedules-Rescheduled :
      (s s' : List SchedulableEntity) (newly : LaunchPlan) (former : Option LaunchPlan)
      → update_schedules w sched s newly former ≡ (s', ok tt)
      → Rescheduled s s' newly former
  unfolding update_schedules
  update_schedules-Rescheduled s s' newly former h =
      with_specs-Rescheduled s s' newly former (read_specs w sched newly former) refl h
