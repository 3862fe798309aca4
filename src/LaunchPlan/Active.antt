-- ===== src/LaunchPlan/Active.antt =====
-- At most one version of a launch plan is active, and which one
-- (`UpdateLaunchPlan` in pkg/manager/impl/launch_plan_manager.go).
use flyteadmin.Execution.Repo.{keep_option}
use mathlib.Core.Path.{subst}
use flyteadmin.LaunchPlan.Manager.{
  enable_launch_plan, disable_launch_plan, find_formerly_active, PlanState, update_launch_plan,
  LaunchPlanUpdateRequest, update_launch_plan_model_state, make_inactive,
}
use flyteadmin.LaunchPlan.Steps.{
  enable_launch_plan_cases, disable_launch_plan_cases, Disabled, Failed, Enabled,
  update_launch_plan_model_state-IsMarked, IsMarked,
}
use flyteadmin.LaunchPlan.Rows.{
  write_with-NoneActivated, written-IsSingle, written-NameInactive, NoneActivated-IsSingle,
  IsSingle, NameInactive,
}
use flyteadmin.LaunchPlan.Schedules.{EventScheduler}
use flyteadmin.LaunchPlan.Store.{
  overlay_plan, IsActive, name_of, IsPlansDb, written, unless_failed, Rows, PlansDb, set_active,
}
use flyteadmin.Common.{
  ◌==◌, ◌≡◌, refl, sym, ap, ◌∙◌, Bool-cases, inl, inr, ◌⊎◌, some, none, ok, err, Result, Option,
  List, >>=-eq-ok, [], ◌∷◌, ok-injective, flyte_admin, Code, Error,
}
use flyteadmin.LaunchPlan.{LaunchPlan, LaunchPlanKey, PlanWire, active, inactive}

unless_failed-eq-ok {ℓ} :
    {A : Type ℓ} (o : Option Error) (r : Result A) {v : A} → unless_failed o r ≡ ok v → r ≡ ok v
unless_failed-eq-ok (some e) r h = absurd (cc h)
unless_failed-eq-ok none r h = h

-- The rows once the former version, if any, is written.
abbrev pub after_former : Option LaunchPlan → Rows → Rows
after_former none rows = rows
after_former (some d) rows = written d rows

-- A transaction that commits has performed its statements.
pub set_active-rows :
    (db : PlansDb) (lawful : IsPlansDb db) (t t' : List LaunchPlan) (m : LaunchPlan)
    (former : Option LaunchPlan)
    → set_active db t m former ≡ ok t'
    → (k : LaunchPlanKey) → db.row t' k ≡ written m (after_former former (db.row t)) k
unfolding set_active
set_active-rows db lawful t t' m none h k =
    lawful.row-commit t t' m k (unless_failed-eq-ok _ _ (unless_failed-eq-ok _ _ h))
set_active-rows db lawful t t' m (some d) h k =
    lawful.row-commit_both t t' d m k (unless_failed-eq-ok _ _ (unless_failed-eq-ok _ _ h))

module _ (w : PlanWire) (db : PlansDb) (sched : EventScheduler) (lawful : IsPlansDb db) where
  -- What `formerly` is: nothing, and then no version is active, or the active version, marked.
  abbrev pub Formerly : List LaunchPlan → LaunchPlanKey → Option LaunchPlan → Type 0
  Formerly plans key former =
      ((former ≡ none) × NameInactive (db.row plans) (name_of key))
      ⊎ ((m : LaunchPlan) × (d : LaunchPlan) × (former ≡ some d)
          × IsMarked d m inactive
          × (db.row plans m.key ≡ some m)
          × (name_of m.key ≡ name_of key)
          × IsActive m)

  make_inactive-Formerly :
      (plans : List LaunchPlan) (key : LaunchPlanKey) (o : Result (List LaunchPlan))
      (former : Option LaunchPlan)
      → db.list_active plans (name_of key) ≡ o
      → make_inactive w db sched o ≡ ok former
      → Formerly plans key former
  make_inactive-Formerly plans key (err (flyte_admin Code.not_found r)) former asked h = inl (
    sym (ok-injective h),
    λ k x row same. lawful.list-not_found plans k x r (ap (db.list_active plans) same ∙ asked) row,
  )
  make_inactive-Formerly plans key (err (flyte_admin Code.internal r)) former asked h =
      absurd (cc h)
  make_inactive-Formerly plans key (ok []) former asked h = inl (
    sym (ok-injective h),
    λ k x row same. lawful.list-empty plans k x (ap (db.list_active plans) same ∙ asked) row,
  )
  make_inactive-Formerly plans key (ok (m ∷ ms)) former asked h =
      let (d, marked, h1) = >>=-eq-ok (update_launch_plan_model_state w m inactive) _ h in
      let (row, name, on, only) = lawful.list-found plans (name_of key) m ms asked in
      inr (
        m,
        d,
        sym (ok-injective h1),
        update_launch_plan_model_state-IsMarked w m d inactive marked,
        row,
        name,
        on,
      )
  make_inactive-Formerly plans key (err e) former asked h = absurd (cc h)

  -- With the former version inactive, no version of that name is active.
  after_former-NameInactive :
      (plans : List LaunchPlan) (key : LaunchPlanKey) (former : Option LaunchPlan)
      → Formerly plans key former
      → IsSingle (db.row plans)
      → NameInactive (after_former former (db.row plans)) (name_of key)
  after_former-NameInactive plans key former (inl (e, free)) single =
      subst (λ f. NameInactive (after_former f (db.row plans)) (name_of key)) (sym e) free
  after_former-NameInactive plans key former (inr (m, d, e, marked, row, name, on)) single =
      subst (λ f. NameInactive (after_former f (db.row plans)) (name_of key)) (sym e)
        (subst (NameInactive (written d (db.row plans))) (ap name_of marked.marked_key ∙ name) (
          written-NameInactive d (db.row plans) m marked.marked_state
            (ap (db.row plans) marked.marked_key ∙ row) on single))

  after_former-IsSingle :
      (plans : List LaunchPlan) (key : LaunchPlanKey) (former : Option LaunchPlan)
      → Formerly plans key former
      → IsSingle (db.row plans)
      → IsSingle (after_former former (db.row plans))
  after_former-IsSingle plans key former (inl (e, free)) single =
      subst (λ f. IsSingle (after_former f (db.row plans))) (sym e) single
  after_former-IsSingle plans key former (inr (m, d, e, marked, row, name, on)) single =
      subst (λ f. IsSingle (after_former f (db.row plans))) (sym e)
        (NoneActivated-IsSingle _ _
          (write_with-NoneActivated (λ old. overlay_plan old d) d (db.row plans)
            (λ old. ap (keep_option old.state) marked.marked_state))
          single)

  pub Enabled-Formerly :
      (q : LaunchPlanUpdateRequest) (st st' : PlanState) (a : Enabled w db sched q st st')
      → Formerly st.plans a.newly.key a.former
  unfolding find_formerly_active
  Enabled-Formerly q st st' a =
      make_inactive-Formerly st.plans a.newly.key _ a.former refl a.is_former

  Enabled-IsSingle :
      (q : LaunchPlanUpdateRequest) (st st' : PlanState)
      → Enabled w db sched q st st'
      → IsSingle (db.row st.plans)
      → IsSingle (db.row st'.plans)
  Enabled-IsSingle q st st' a single =
      let formerly = Enabled-Formerly q st st' a in
      NoneActivated-IsSingle _ _
        (λ k x h ax. (x, sym (set_active-rows db lawful _ _ _ _ a.is_saved k) ∙ h, ax))
        (written-IsSingle a.newly (after_former a.former (db.row st.plans))
          (after_former-NameInactive st.plans a.newly.key a.former formerly single)
          (after_former-IsSingle st.plans a.newly.key a.former formerly single))

  Disabled-IsSingle :
      (q : LaunchPlanUpdateRequest) (st st' : PlanState)
      → Disabled w db sched q st st'
      → IsSingle (db.row st.plans)
      → IsSingle (db.row st'.plans)
  Disabled-IsSingle q st st' a single =
      NoneActivated-IsSingle _ _
        (λ k x h ax.
          write_with-NoneActivated
            (λ old. record (overlay_plan old a.model) { updated_at = db.now st.plans }) a.model
            (db.row st.plans) (λ old. ap (keep_option old.state) a.is_model.marked_state) k x
            (sym (lawful.row-update st.plans st'.plans a.model k a.is_saved) ∙ h) ax)
        single

  Failed-IsSingle :
      (st : PlanState) (o : PlanState × Result (Unit {0}))
      → Failed st o
      → IsSingle (db.row st.plans)
      → IsSingle (db.row o.0.plans)
  Failed-IsSingle st o (same, e, h) single = subst (λ t. IsSingle (db.row t)) (sym same) single

  -- Two versions of a plan are never both active: an update of a plan's state, whatever it asks
  -- for and whether it fails or not, keeps this.
  pub update_launch_plan-IsSingle :
      (q : LaunchPlanUpdateRequest) (st : PlanState)
      → IsSingle (db.row st.plans)
      → (k l : LaunchPlanKey) (x y : LaunchPlan)
      → db.row (update_launch_plan w db sched q st).0.plans k ≡ some x
      → db.row (update_launch_plan w db sched q st).0.plans l ≡ some y
      → IsActive x
      → IsActive y
      → name_of k ≡ name_of l
      → k ≡ l
  unfolding update_launch_plan
  update_launch_plan-IsSingle q st single = elim (Bool-cases (q.state == inactive)) [
    | inl e ↦ rw e (elim (disable_launch_plan_cases w db sched q st) [
      | inl f ↦ Failed-IsSingle st (disable_launch_plan w db sched q st) f single
      | inr a ↦ Disabled-IsSingle q st _ a single
    ])
    | inr e ↦ elim (Bool-cases (q.state == active)) [
      | inl f ↦
          rw (e, f)
            (elim (enable_launch_plan_cases w db sched q st) [
              | inl g ↦ Failed-IsSingle st (enable_launch_plan w db sched q st) g single
              | inr a ↦ Enabled-IsSingle q st _ a single
            ])
      | inr f ↦ rw (e, f) single
    ]
  ]
