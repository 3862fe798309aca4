-- ===== src/LaunchPlan/Steps.antt =====
-- The steps that a request has taken which enabled or disabled a launch plan
-- (`enableLaunchPlan` and `disableLaunchPlan` in pkg/manager/impl/launch_plan_manager.go).
use flyteadmin.Validation.{validate_identifier-same, launch_plan, validate_identifier}
use flyteadmin.Scheduler.{SchedulableEntity}
use flyteadmin.Common.{
  internal, or_fail-eq-ok, sym, ap, ◌∙◌, ok-injective, >>=-eq-ok, Result, arith, Error, ◌≡◌, refl,
  inl, inr, ◌⊎◌, some, ok, err, Option, List, ℕ,
}
use flyteadmin.LaunchPlan.{inactive, LaunchPlanSpec, LaunchPlan, PlanWire, active}
use flyteadmin.LaunchPlan.Schedules.{EventScheduler}
use flyteadmin.LaunchPlan.Store.{PlansDb, set_active}
use flyteadmin.LaunchPlan.Manager.{
  read_spec, disable_found, find_disable, disable_launch_plan, enable_found, close_disable,
  save_plans, enable_launch_plan, remove_schedule, close_enable, find_enable, find_formerly_active,
  plan_key, PlanState, LaunchPlanUpdateRequest, update_schedules, save_plans,
  update_launch_plan_model_state,
}

-- What becomes of a row whose state is set: the key, the spec and the state.
pub record IsMarked (m found : LaunchPlan) (s : ℕ) : Type 0 where
  pub marked_key : m.key ≡ found.key
  pub marked_spec : m.spec ≡ found.spec
  pub marked_state : m.state ≡ some s

pub update_launch_plan_model_state-IsMarked :
    (w : PlanWire) (found m : LaunchPlan) (s : ℕ)
    → update_launch_plan_model_state w found s ≡ ok m
    → IsMarked m found s
unfolding update_launch_plan_model_state
update_launch_plan_model_state-IsMarked w found m s h = record {
  marked_key = ground arith;
  marked_spec = ground arith;
  marked_state = ground arith;
}

-- A request that fails changes no plan.
abbrev pub Failed : PlanState → PlanState × Result (Unit {0}) → Type 0
Failed st o = (o.0.plans ≡ st.plans) × (e : Error) × (o.1 ≡ err e)

module _ (w : PlanWire) (db : PlansDb) (sched : EventScheduler) where
  -- What a request that enabled a plan has done.
  pub record Enabled (q : LaunchPlanUpdateRequest) (st st' : PlanState) : Type 0 where
    pub found : LaunchPlan
    pub newly : LaunchPlan
    pub former : Option LaunchPlan
    pub is_found : db.get st.plans (plan_key q.id) ≡ ok found
    pub is_newly : IsMarked newly found active
    pub is_former : find_formerly_active w db sched st.plans newly.key ≡ ok former
    pub has_schedules : update_schedules w sched st.schedules newly former ≡ (st'.schedules, ok tt)
    pub is_saved : set_active db st.plans newly former ≡ ok st'.plans

  -- What a request that disabled a plan has done.
  pub record Disabled (q : LaunchPlanUpdateRequest) (st st' : PlanState) : Type 0 where
    pub found : LaunchPlan
    pub model : LaunchPlan
    pub spec : LaunchPlanSpec
    pub is_found : db.get st.plans (plan_key q.id) ≡ ok found
    pub is_model : IsMarked model found inactive
    pub is_spec : w.unmarshal_spec model.spec ≡ some spec
    pub has_schedules : remove_schedule w db sched st.schedules model.key spec ≡ ok st'.schedules
    pub is_saved : db.update st.plans model ≡ ok st'.plans

  find_enable-parts :
      (q : LaunchPlanUpdateRequest) (plans : List LaunchPlan) (newly : LaunchPlan)
      (former : Option LaunchPlan)
      → find_enable w db sched q plans ≡ ok (newly, former)
      → (found : LaunchPlan) × (db.get plans (plan_key q.id) ≡ ok found)
        × (update_launch_plan_model_state w found active ≡ ok newly)
        × (find_formerly_active w db sched plans newly.key ≡ ok former)
  find_enable-parts q plans newly former h =
      let (found, a, h1) = >>=-eq-ok (db.get plans (plan_key q.id)) _ h in
      let (m, b, h2) = >>=-eq-ok (update_launch_plan_model_state w found active) _ h1 in
      let (f, c, h3) = >>=-eq-ok (find_formerly_active w db sched plans m.key) _ h2 in
      let same = ok-injective h3 in
      (
        found,
        a,
        b ∙ ap (λ p. ok p.0) same,
        ap (λ p. find_formerly_active w db sched plans p.0.key) (sym same)
            ∙ c
            ∙ ap (λ p. ok p.1) same,
      )

  -- The steps after a successful search, each of which may fail.
  save_plans_cases :
      (st st0 : PlanState) (o : Result (List LaunchPlan))
      → st.plans ≡ st0.plans
      → Failed st0 (save_plans w db sched st o)
        ⊎ ((o ≡ ok (save_plans w db sched st o).0.plans)
            × ((save_plans w db sched st o).0.schedules ≡ st.schedules))
  save_plans_cases st st0 (err e) same = inl (same, e, refl)
  save_plans_cases st st0 (ok plans') same = inr (refl, refl)

  close_enable_cases :
      (st : PlanState) (newly : LaunchPlan) (former : Option LaunchPlan)
      (o : List SchedulableEntity × Result (Unit {0}))
      → Failed st (close_enable w db sched st newly former o)
        ⊎ ((o ≡ ((close_enable w db sched st newly former o).0.schedules, ok tt))
            × (set_active db st.plans newly former
                ≡ ok (close_enable w db sched st newly former o).0.plans))
  close_enable_cases st newly former (s', err e) = inl (refl, e, refl)
  close_enable_cases st newly former (s', ok u) =
      elim (save_plans_cases (record st { schedules = s' }) st (set_active db st.plans newly former)
        refl) [ inl f ↦ inl f | inr (saved, kept) ↦ inr (ap (λ s. (s, ok tt)) (sym kept), saved) ]

  close_disable_cases :
      (st : PlanState) (model : LaunchPlan) (o : Result (List SchedulableEntity))
      → Failed st (close_disable w db sched st model o)
        ⊎ ((o ≡ ok (close_disable w db sched st model o).0.schedules)
            × (db.update st.plans model ≡ ok (close_disable w db sched st model o).0.plans))
  close_disable_cases st model (err e) = inl (refl, e, refl)
  close_disable_cases st model (ok s') =
      elim (save_plans_cases (record st { schedules = s' }) st (db.update st.plans model) refl) [
        | inl f ↦ inl f
        | inr (saved, kept) ↦ inr (ap (λ s. ok s) (sym kept), saved)
      ]

  enable_found_cases :
      (q : LaunchPlanUpdateRequest) (st : PlanState) (o : Result (LaunchPlan × Option LaunchPlan))
      → find_enable w db sched q st.plans ≡ o
      → Failed st (enable_found w db sched st o) ⊎ Enabled q st (enable_found w db sched st o).0
  enable_found_cases q st (err e) h = inl (refl, e, refl)
  enable_found_cases q st (ok (newly, former)) h =
      let (found, a, b, c) = find_enable-parts q st.plans newly former h in
      elim (close_enable_cases st newly former
        (update_schedules w sched st.schedules newly former)) [
          | inl f ↦ inl f
          | inr (scheduled, saved) ↦ inr (record {
            found = found;
            newly = newly;
            former = former;
            is_found = a;
            is_newly = update_launch_plan_model_state-IsMarked w found newly active b;
            is_former = c;
            has_schedules = scheduled;
            is_saved = saved;
          })
        ]

  pub enable_launch_plan_cases :
      (q : LaunchPlanUpdateRequest) (st : PlanState)
      → Failed st (enable_launch_plan w db sched q st)
        ⊎ Enabled q st (enable_launch_plan w db sched q st).0
  unfolding enable_launch_plan
  enable_launch_plan_cases q st = enable_found_cases q st (find_enable w db sched q st.plans) refl

  find_disable-parts :
      (q : LaunchPlanUpdateRequest) (plans : List LaunchPlan) (model : LaunchPlan)
      (spec : LaunchPlanSpec)
      → find_disable w db sched q plans ≡ ok (model, spec)
      → (found : LaunchPlan) × (db.get plans (plan_key q.id) ≡ ok found)
        × (update_launch_plan_model_state w found inactive ≡ ok model)
        × (w.unmarshal_spec model.spec ≡ some spec)
  find_disable-parts q plans model spec h =
      let (id, v, h0) = >>=-eq-ok (validate_identifier (some q.id) launch_plan) _ h in
      let (found, a, h1) = >>=-eq-ok (db.get plans (plan_key id)) _ h0 in
      let (m, b, h2) = >>=-eq-ok (update_launch_plan_model_state w found inactive) _ h1 in
      let (f, c, h3) = >>=-eq-ok (read_spec w m) _ h2 in
      let same = ok-injective h3 in
      (
        found,
        ap (λ i. db.get plans (plan_key i)) (validate_identifier-same q.id id launch_plan v) ∙ a,
        b ∙ ap (λ p. ok p.0) same,
        ap (λ p. w.unmarshal_spec p.0.spec) (sym same)
            ∙ or_fail-eq-ok (w.unmarshal_spec m.spec) internal c
            ∙ ap (λ p. some p.1) same,
      )

  disable_found_cases :
      (q : LaunchPlanUpdateRequest) (st : PlanState) (o : Result (LaunchPlan × LaunchPlanSpec))
      → find_disable w db sched q st.plans ≡ o
      → Failed st (disable_found w db sched st o) ⊎ Disabled q st (disable_found w db sched st o).0
  disable_found_cases q st (err e) h = inl (refl, e, refl)
  disable_found_cases q st (ok (model, spec)) h =
      let (found, a, b, c) = find_disable-parts q st.plans model spec h in
      elim (close_disable_cases st model (remove_schedule w db sched st.schedules model.key spec)) [
        | inl f ↦ inl f
        | inr (scheduled, saved) ↦ inr (record {
          found = found;
          model = model;
          spec = spec;
          is_found = a;
          is_model = update_launch_plan_model_state-IsMarked w found model inactive b;
          is_spec = c;
          has_schedules = scheduled;
          is_saved = saved;
        })
      ]

  pub disable_launch_plan_cases :
      (q : LaunchPlanUpdateRequest) (st : PlanState)
      → Failed st (disable_launch_plan w db sched q st)
        ⊎ Disabled q st (disable_launch_plan w db sched q st).0
  unfolding disable_launch_plan
  disable_launch_plan_cases q st =
      disable_found_cases q st (find_disable w db sched q st.plans) refl
