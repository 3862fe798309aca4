-- ===== src/LaunchPlan/InForce.antt =====
-- After a request that succeeds, the schedules in force are those of the active plans that have one
-- (`UpdateLaunchPlan` in pkg/manager/impl/launch_plan_manager.go).
use flyteadmin.LaunchPlan.Rescheduled.{update_schedules-Rescheduled}
use flyteadmin.Execution.Repo.{keep_bytes, keep_option}
use flyteadmin.LaunchPlan.Rows.{same_plan-eq}
use flyteadmin.LaunchPlan.Active.{set_active-rows, after_former, Formerly, Enabled-Formerly}
use flyteadmin.LaunchPlan.Scheduled.{
  remove_unless, empty_without, keep_bytes-same, disable_former-in_force, is_on,
  enable_newly-in_force, turn_on-IsRight, turn_off-IsRight, IsRight,
}
use flyteadmin.LaunchPlan.Steps.{
  enable_launch_plan_cases, disable_launch_plan_cases, Failed, IsMarked, Disabled, Enabled,
}
use flyteadmin.LaunchPlan.Manager.{
  enable_launch_plan, disable_launch_plan, update_launch_plan, plan_key, PlanState, disable_former,
  read_former_spec, LaunchPlanUpdateRequest,
}
use flyteadmin.Scheduler.{SchedulableEntity}
use flyteadmin.LaunchPlan.Store.{overlay_plan, IsPlansDb, PlansDb}
use flyteadmin.LaunchPlan.Schedules.{
  get_schedule, is_schedule_empty, IsEventScheduler, EventScheduler,
}
use mathlib.Core.Path.{subst}
use flyteadmin.Common.{
  ◌≢◌, some-equal, arith, internal, ◌≡◌, refl, sym, ap, ◌∙◌, Bool-cases, inl, inr, some, none, ok,
  Result, Option, List, Bool, true, false, not, ◌&&◌, ◌==◌, or_fail-eq-ok, ok-injective,
}
use flyteadmin.LaunchPlan.{
  is_complete, is_complete, LaunchPlanSpec, LaunchPlan, LaunchPlanKey, same_plan, PlanWire, active,
  inactive,
}

module _ (w : PlanWire) (db : PlansDb) (sched : EventScheduler) (lawful : IsPlansDb db)
    (fair : IsEventScheduler sched) where
  -- Every key is complete.
  abbrev pub AllComplete : List LaunchPlan → Type 0
  AllComplete plans =
      (k : LaunchPlanKey) (x : LaunchPlan) → db.row plans k ≡ some x → is_complete k ≡ true

  and_false : (b c : Bool) → c ≡ true → (b && not c) ≡ false
  and_false b c h = ground arith

  -- Once the former version is written and its schedule removed.
  after_former-IsRight :
      (plans : List LaunchPlan) (s t : List SchedulableEntity) (key : LaunchPlanKey)
      (former : Option LaunchPlan) (spec : LaunchPlanSpec)
      → Formerly w db sched lawful plans key former
      → read_former_spec w former ≡ ok spec
      → disable_former w sched s former spec ≡ ok t
      → AllComplete plans
      → IsRight w (sched.is_scheduled s) (db.row plans)
      → IsRight w (sched.is_scheduled t) (after_former former (db.row plans))
  after_former-IsRight plans s t key none spec formerly read off full right =
      subst (λ z. IsRight w (sched.is_scheduled z) (db.row plans)) (ok-injective off) right
  after_former-IsRight plans s t key (some d) spec (inl (e, free)) read off full right =
      absurd (cc e)
  after_former-IsRight plans s t key (some d) spec (inr (m, d', e, marked', row, name, on)) read off
        full right =
      let marked = subst (λ z. IsMarked z m inactive) (sym (some-equal e)) marked' in
      let read_d = or_fail-eq-ok (w.unmarshal_spec d.spec) internal read in
      let idle = λ (empty : is_schedule_empty spec ≡ true).
        ap (sched.is_scheduled s) marked.marked_key
        ∙ right m.key m spec row (ap w.unmarshal_spec (sym marked.marked_spec) ∙ read_d)
        ∙ and_false (is_on m) (is_schedule_empty spec) empty in
      turn_off-IsRight w (db.row plans) (sched.is_scheduled s) (sched.is_scheduled t)
        (λ old. overlay_plan old d) d (λ old. ap (keep_option old.state) marked.marked_state)
        (disable_former-in_force w sched fair s t d spec
          (ap is_complete marked.marked_key ∙ full m.key m row) idle off)
        right

  -- The row to enable keeps its spec when the former version is written.
  pub after_former-spec :
      (plans : List LaunchPlan) (key : LaunchPlanKey) (former : Option LaunchPlan)
      (found : LaunchPlan)
      → Formerly w db sched lawful plans key former
      → db.row plans key ≡ some found
      → (old : LaunchPlan) × (after_former former (db.row plans) key ≡ some old)
        × (old.spec ≡ found.spec)
  after_former-spec plans key none found formerly row = (found, row, refl)
  after_former-spec plans key (some d) found (inl (e, free)) row = absurd (cc e)
  after_former-spec plans key (some d) found (inr (m, d', e, marked', rowm, name, on)) row =
      let marked = subst (λ z. IsMarked z m inactive) (sym (some-equal e)) marked' in
      elim (Bool-cases (same_plan d.key key)) [
        | inl f ↦
            let m_found = some-equal (
              sym rowm
              ∙ ap (db.row plans) (sym marked.marked_key ∙ same_plan-eq d.key key f)
              ∙ row) in
            (
              overlay_plan found d,
              rw (f, row) refl,
              ap (keep_bytes found.spec) (marked.marked_spec ∙ ap (λ r. r.spec) m_found)
                  ∙ keep_bytes-same found.spec,
            )
        | inr f ↦ (found, rw (f, row) refl, refl)
      ]

  Enabled-IsRight :
      (q : LaunchPlanUpdateRequest) (st st' : PlanState)
      → Enabled w db sched q st st'
      → AllComplete st.plans
      → IsRight w (sched.is_scheduled st.schedules) (db.row st.plans)
      → IsRight w (sched.is_scheduled st'.schedules) (db.row st'.plans)
  Enabled-IsRight q st st' a full right =
      let formerly = Enabled-Formerly w db sched lawful q st st' a in
      let r =
        update_schedules-Rescheduled w sched st.schedules st'.schedules a.newly a.former
          a.has_schedules in
      let row =
        ap (db.row st.plans) a.is_newly.marked_key
        ∙ lawful.get-row st.plans (plan_key q.id) a.found a.is_found in
      let (old, at_key, same) =
        after_former-spec st.plans a.newly.key a.former a.found formerly row in
      let middle =
        after_former-IsRight st.plans st.schedules r.between a.newly.key a.former r.former_spec
          formerly r.has_former r.removed full right in
      λ k x spec h hs.
        turn_on-IsRight w (after_former a.former (db.row st.plans)) (sched.is_scheduled r.between)
          (sched.is_scheduled st'.schedules) a.newly old r.newly_spec a.is_newly.marked_state at_key
          (same ∙ sym a.is_newly.marked_spec) r.has_newly
          (enable_newly-in_force w sched fair r.between st'.schedules a.newly.key r.newly_spec
            (full a.newly.key a.found row) r.added)
          middle k x spec (sym (set_active-rows db lawful _ _ _ _ a.is_saved k) ∙ h) hs

  Disabled-IsRight :
      (q : LaunchPlanUpdateRequest) (st st' : PlanState)
      → Disabled w db sched q st st'
      → AllComplete st.plans
      → IsRight w (sched.is_scheduled st.schedules) (db.row st.plans)
      → IsRight w (sched.is_scheduled st'.schedules) (db.row st'.plans)
  Disabled-IsRight q st st' a full right =
      let row =
        ap (db.row st.plans) a.is_model.marked_key
        ∙ lawful.get-row st.plans (plan_key q.id) a.found a.is_found in
      let idle = λ (missing : get_schedule a.spec ≡ none).
        right a.model.key a.found a.spec row
          (ap w.unmarshal_spec (sym a.is_model.marked_spec) ∙ a.is_spec)
        ∙ and_false (is_on a.found) (is_schedule_empty a.spec)
            (empty_without w sched fair a.spec missing) in
      λ k x spec h hs.
        turn_off-IsRight w (db.row st.plans) (sched.is_scheduled st.schedules)
          (sched.is_scheduled st'.schedules)
          (λ old. record (overlay_plan old a.model) { updated_at = db.now st.plans }) a.model
          (λ old. ap (keep_option old.state) a.is_model.marked_state)
          (λ j.
            remove_unless w sched fair (get_schedule a.spec) st.schedules st'.schedules a.model.key
              j (full a.model.key a.found row) idle a.has_schedules)
          right k x spec (sym (lawful.row-update st.plans st'.plans a.model k a.is_saved) ∙ h) hs

  Failed-not_ok : (st : PlanState) (o : PlanState × Result (Unit {0})) → Failed st o → o.1 ≢ ok tt
  Failed-not_ok st o (same, e, h) done = cc (h, done)

  -- After an update that succeeds, a schedule is in force exactly for the plans that are active and
  -- have a schedule that is not empty, if that was so before. The keys on record have no empty part.
  pub update_launch_plan-in_force :
      (q : LaunchPlanUpdateRequest) (st : PlanState)
      → AllComplete st.plans
      → IsRight w (sched.is_scheduled st.schedules) (db.row st.plans)
      → (update_launch_plan w db sched q st).1 ≡ ok tt
      → (k : LaunchPlanKey) (x : LaunchPlan) (spec : LaunchPlanSpec)
      → db.row (update_launch_plan w db sched q st).0.plans k ≡ some x
      → w.unmarshal_spec x.spec ≡ some spec
      → sched.is_scheduled (update_launch_plan w db sched q st).0.schedules k
        ≡ (is_on x && not (is_schedule_empty spec))
  unfolding update_launch_plan
  update_launch_plan-in_force q st full right = elim (Bool-cases (q.state == inactive)) [
    | inl e ↦ rw e (elim (disable_launch_plan_cases w db sched q st) [
      | inl f ↦ λ done. absurd (Failed-not_ok st (disable_launch_plan w db sched q st) f done)
      | inr a ↦ λ done. Disabled-IsRight q st _ a full right
    ])
    | inr e ↦ elim (Bool-cases (q.state == active)) [
      | inl f ↦
          rw (e, f)
            (elim (enable_launch_plan_cases w db sched q st) [
              | inl g ↦
                  λ done. absurd (Failed-not_ok st (enable_launch_plan w db sched q st) g done)
              | inr a ↦ λ done. Enabled-IsRight q st _ a full right
            ])
      | inr f ↦ rw (e, f) (λ done. absurd (cc done))
    ]
  ]
