-- ===== src/LaunchPlan/Enabled.antt =====
-- A launch plan that was enabled is the active one of its name
-- (`UpdateLaunchPlan` and `GetActiveLaunchPlan` in pkg/manager/impl/launch_plan_manager.go).
use flyteadmin.Execution.Repo.{keep_option}
use flyteadmin.LaunchPlan.Active.{update_launch_plan-IsSingle, set_active-rows, Enabled-Formerly}
use flyteadmin.LaunchPlan.Views.{from_launch_plan_model}
use flyteadmin.LaunchPlan.InForce.{after_former-spec}
use flyteadmin.LaunchPlan.Rows.{same_plan_self, IsSingle}
use flyteadmin.LaunchPlan.Steps.{enable_launch_plan_cases, Enabled}
use flyteadmin.Validation.{validate_empty_string_field, validate_active_launch_plan_request}
use flyteadmin.LaunchPlan.Manager.{
  enable_launch_plan, plan_key, get_active_launch_plan, PlanState, update_launch_plan,
  LaunchPlanUpdateRequest,
}
use flyteadmin.LaunchPlan.Schedules.{IsEventScheduler, EventScheduler}
use flyteadmin.LaunchPlan.Store.{overlay_plan, IsActive, name_of, IsPlansDb, PlansDb}
use flyteadmin.Common.{inr, inl, arith, ◌≡◌, refl, sym, ap, ◌∙◌, some, ok, List, [], ◌∷◌, true}
use flyteadmin.LaunchPlan.{is_complete, LaunchPlan, LaunchPlanKey, PlanWire, active}

module _ (w : PlanWire) (db : PlansDb) (sched : EventScheduler) (lawful : IsPlansDb db)
    (fair : IsEventScheduler sched) where
  Enabled-IsActive :
      (q : LaunchPlanUpdateRequest) (st st' : PlanState)
      → Enabled w db sched q st st'
      → is_complete (plan_key q.id) ≡ true
      → (x : LaunchPlan) × (db.row st'.plans (plan_key q.id) ≡ some x) × IsActive x
  Enabled-IsActive q st st' a full =
      let found_key = lawful.get-complete st.plans (plan_key q.id) a.found full a.is_found in
      let key = a.is_newly.marked_key ∙ found_key in
      let row =
        ap (db.row st.plans) a.is_newly.marked_key
        ∙ lawful.get-row st.plans (plan_key q.id) a.found a.is_found in
      let (old, at_key, same) =
        after_former-spec w db sched lawful fair st.plans a.newly.key a.former a.found
          (Enabled-Formerly w db sched lawful q st st' a) row in
      (
        overlay_plan old a.newly,
        ap (db.row st'.plans) (sym key)
            ∙ set_active-rows db lawful st.plans st'.plans a.newly a.former a.is_saved a.newly.key
            ∙ rw (same_plan_self a.newly.key, at_key) refl,
        ap (keep_option old.state) a.is_newly.marked_state,
      )

  full_name :
      (k : LaunchPlanKey)
      → is_complete k ≡ true
      → validate_active_launch_plan_request (name_of k) ≡ ok tt
  unfolding validate_active_launch_plan_request validate_empty_string_field
  full_name k full = ground arith

  IsActive-answer :
      (plans : List LaunchPlan) (key : LaunchPlanKey) (x : LaunchPlan) (answer : List LaunchPlan)
      → is_complete key ≡ true
      → IsSingle (db.row plans)
      → db.row plans key ≡ some x
      → IsActive x
      → db.list_active plans (name_of key) ≡ ok answer
      → (y : LaunchPlan) × (y.key ≡ key)
        × IsActive y
        × (get_active_launch_plan w db sched (name_of key) plans ≡ from_launch_plan_model w y)
  unfolding get_active_launch_plan
  IsActive-answer plans key x [] full single row on asked =
      absurd (lawful.list-empty plans key x asked row on)
  IsActive-answer plans key x (m ∷ []) full single row on asked =
      let (rowm, name, onm, only) = lawful.list-found plans (name_of key) m [] asked in
      (m, single m.key key m x rowm row onm on name, onm, rw (full_name key full, asked) refl)
  IsActive-answer plans key x (m ∷ n ∷ ms) full single row on asked =
      let (rowm, name, onm, only) = lawful.list-found plans (name_of key) m (n ∷ ms) asked in
      absurd (cc only)

  update-enable :
      (q : LaunchPlanUpdateRequest) (st : PlanState)
      → q.state ≡ active
      → update_launch_plan w db sched q st ≡ enable_launch_plan w db sched q st
  unfolding update_launch_plan
  update-enable q st on = rw on refl

  -- Once a version is enabled, the query for the active version of its name that the database
  -- answers finds that version, and its view is returned. The identifier has no empty part, and no
  -- two versions of a plan were active before.
  pub update_launch_plan-get_active :
      (q : LaunchPlanUpdateRequest) (st : PlanState)
      → q.state ≡ active
      → is_complete (plan_key q.id) ≡ true
      → IsSingle (db.row st.plans)
      → (update_launch_plan w db sched q st).1 ≡ ok tt
      → (answer : List LaunchPlan)
      → db.list_active (update_launch_plan w db sched q st).0.plans (name_of (plan_key q.id))
        ≡ ok answer
      → (x : LaunchPlan) × (x.key ≡ plan_key q.id)
        × IsActive x
        × (get_active_launch_plan w db sched
              (name_of (plan_key q.id))
              (update_launch_plan w db sched q st).0.plans
            ≡ from_launch_plan_model w x)
  update_launch_plan-get_active q st on full single done answer asked =
      let same = update-enable q st on in
      elim (enable_launch_plan_cases w db sched q st) [
        | inl (_, e, failed) ↦ absurd (cc (ap (λ o. o.1) same, done, failed))
        | inr a ↦
            let (x, row, now) = Enabled-IsActive q st _ a full in
            IsActive-answer (update_launch_plan w db sched q st).0.plans (plan_key q.id) x answer
              full (update_launch_plan-IsSingle w db sched lawful q st single)
              (ap (λ o. db.row o.0.plans (plan_key q.id)) same ∙ row) now asked
      ]
