-- ===== src/LaunchPlan/Scheduled.antt =====
-- The schedules in force are those of the active plans that have one
-- (`UpdateLaunchPlan` in pkg/manager/impl/launch_plan_manager.go).
use flyteadmin.LaunchPlan.Manager.{disable_schedule, enable_schedule, enable_newly, disable_former}
use flyteadmin.Scheduler.{SchedulableEntity}
use flyteadmin.LaunchPlan.Rows.{same_plan-eq, same_plan_self, write_with_cases}
use flyteadmin.LaunchPlan.Schedules.{
  get_schedule, IsEventScheduler, EventScheduler, is_schedule_empty,
}
use flyteadmin.Execution.Repo.{keep_option, keep_bytes}
use flyteadmin.LaunchPlan.Store.{overlay_plan, written, write_with, Rows}
use flyteadmin.Common.{
  some-equal, arith, not, ◌≡◌, refl, sym, ap, ◌∙◌, Bool-cases, inl, inr, some, none, ok, Result,
  Option, List, ℕ, Bool, true, false, not, ◌&&◌, ◌==◌, if◌then◌else◌, >>=-eq-ok, [], ◌∷◌,
  ok-injective,
}
use flyteadmin.LaunchPlan.{
  Schedule, is_complete, LaunchPlanSpec, Bytes, LaunchPlan, LaunchPlanKey, same_plan, PlanWire,
  active, inactive,
}

abbrev state_on : Option ℕ → Bool
state_on none = false
state_on (some n) = n == active

abbrev pub is_on : LaunchPlan → Bool
is_on x = state_on x.state

-- A row's schedule is in force exactly when the plan is active and has one.
abbrev pub IsRight : PlanWire → (LaunchPlanKey → Bool) → Rows → Type 0
IsRight w in_force rows =
    (k : LaunchPlanKey) (x : LaunchPlan) (spec : LaunchPlanSpec)
    → rows k ≡ some x
    → w.unmarshal_spec x.spec ≡ some spec
    → in_force k ≡ (is_on x && not (is_schedule_empty spec))

pub keep_bytes-same : (b : Bytes) → keep_bytes b b ≡ b
keep_bytes-same [] = refl
keep_bytes-same (n ∷ b) = refl

key-same_plan : (a b : LaunchPlanKey) → a ≡ b → same_plan a b ≡ true
key-same_plan a b e = ap (same_plan a) (sym e) ∙ same_plan_self a

on_step :
    (same empty was_on before after : Bool)
    → same ≡ true
    → after ≡ (if same && not empty then true else before)
    → before ≡ (was_on && not empty)
    → after ≡ not empty
on_step same empty was_on before after h s b = ground arith

module _ (w : PlanWire) (rows : Rows) (in_force in_force' : LaunchPlanKey → Bool) where
  -- A plan that becomes inactive and loses its schedule.
  pub turn_off-IsRight :
      (change : LaunchPlan → LaunchPlan) (d : LaunchPlan)
      → ((old : LaunchPlan) → (change old).state ≡ some inactive)
      → ((k : LaunchPlanKey) → in_force' k ≡ (if same_plan d.key k then false else in_force k))
      → IsRight w in_force rows
      → IsRight w in_force' (write_with change d rows)
  turn_off-IsRight change d off step right k x spec h hs =
      elim (write_with_cases change d rows k x h) [
        | inl (e, old, was, now) ↦
            step k
            ∙ ap (λ b. if b then false else in_force k) (key-same_plan d.key k e)
            ∙ sym (
                ap (λ o. state_on o && not (is_schedule_empty spec))
                  (ap (λ r. r.state) now ∙ off old))
        | inr (e, row) ↦
            step k ∙ ap (λ b. if b then false else in_force k) e ∙ right k x spec row hs
      ]

  -- A plan that becomes active and gets its schedule, if it has one.
  pub turn_on-IsRight :
      (m old : LaunchPlan) (spec : LaunchPlanSpec)
      → m.state ≡ some active
      → rows m.key ≡ some old
      → old.spec ≡ m.spec
      → w.unmarshal_spec m.spec ≡ some spec
      → ((k : LaunchPlanKey)
          → in_force' k
            ≡ (if same_plan m.key k && not (is_schedule_empty spec) then true else in_force k))
      → IsRight w in_force rows
      → IsRight w in_force' (written m rows)
  turn_on-IsRight m old spec on row same read step right k x s h hs =
      elim (write_with_cases (λ old. overlay_plan old m) m rows k x h) [
        | inl (e, o, was, now) ↦
            let o_old = some-equal (sym was ∙ ap rows (sym e) ∙ row) in
            let o_spec = ap (λ r. r.spec) o_old ∙ same in
            let x_spec =
              ap (λ r. r.spec) now
              ∙ ap (λ b. keep_bytes b m.spec) o_spec
              ∙ keep_bytes-same m.spec in
            let s_spec = some-equal (sym hs ∙ ap w.unmarshal_spec x_spec ∙ read) in
            on_step _ _ _ _ _ (key-same_plan m.key k e) (step k)
              (right k o spec was (ap w.unmarshal_spec o_spec ∙ read))
            ∙ ap (λ z. not (is_schedule_empty z)) (sym s_spec)
            ∙ sym (
                ap (λ y. state_on y && not (is_schedule_empty s))
                  (ap (λ r. r.state) now ∙ ap (keep_option o.state) on))
        | inr (e, rowk) ↦
            step k
            ∙ ap (λ b. if b && not (is_schedule_empty spec) then true else in_force k) e
            ∙ right k x s rowk hs
      ]

never : (b v : Bool) → v ≡ (if b && false then true else v)
never true v = refl
never false v = refl

always : (b v : Bool) → (if b then true else v) ≡ (if b && true then true else v)
always true v = refl
always false v = refl

module _ (w : PlanWire) (sched : EventScheduler) (fair : IsEventScheduler sched) where
  disable_unless :
      (b : Bool) (s s' : List SchedulableEntity) (key k : LaunchPlanKey)
      → is_complete key ≡ true
      → (b ≡ true → sched.is_scheduled s key ≡ false)
      → (if b then ok s else disable_schedule w sched s key) ≡ ok s'
      → sched.is_scheduled s' k ≡ (if same_plan key k then false else sched.is_scheduled s k)
  unfolding disable_schedule
  disable_unless true s s' key k full idle h = elim (Bool-cases (same_plan key k)) [
    | inl e ↦
        rw (sym (ok-injective h), e)
          (ap (sched.is_scheduled s) (sym (same_plan-eq key k e)) ∙ idle refl)
    | inr e ↦ rw (sym (ok-injective h), e) refl
  ]
  disable_unless false s s' key k full idle h = fair.is_scheduled-remove s s' key k full h

  -- Removing the schedule of a plan that may have none.
  pub disable_former-in_force :
      (s s' : List SchedulableEntity) (d : LaunchPlan) (spec : LaunchPlanSpec)
      → is_complete d.key ≡ true
      → (is_schedule_empty spec ≡ true → sched.is_scheduled s d.key ≡ false)
      → disable_former w sched s (some d) spec ≡ ok s'
      → (k : LaunchPlanKey)
      → sched.is_scheduled s' k ≡ (if same_plan d.key k then false else sched.is_scheduled s k)
  disable_former-in_force s s' d spec full idle h k =
      disable_unless (is_schedule_empty spec) s s' d.key k full idle h

  pub remove_unless :
      (o : Option Schedule) (s s' : List SchedulableEntity) (key k : LaunchPlanKey)
      → is_complete key ≡ true
      → (o ≡ none → sched.is_scheduled s key ≡ false)
      → ◌≡◌ {A = Result (List SchedulableEntity)}
          (elim o [ none ↦ ok s | some schedule ↦ disable_schedule w sched s key ])
          (ok s')
      → sched.is_scheduled s' k ≡ (if same_plan key k then false else sched.is_scheduled s k)
  remove_unless none s s' key k full idle h = disable_unless true s s' key k full (λ e. idle refl) h
  remove_unless (some e) s s' key k full idle h =
      disable_unless false s s' key k full (λ e. absurd (cc e)) h

  enable_unless :
      (o : Option Schedule) (b : Bool) (s s' : List SchedulableEntity) (key k : LaunchPlanKey)
      → is_complete key ≡ true
      → (o ≡ none → b ≡ true)
      → ◌≡◌ {A = Result (List SchedulableEntity)}
          (elim o [
            | none ↦ ok s
            | some schedule ↦ if b then ok s else enable_schedule w sched s key schedule
          ])
          (ok s')
      → sched.is_scheduled s' k
        ≡ (if same_plan key k && not b then true else sched.is_scheduled s k)
  unfolding enable_schedule
  enable_unless none true s s' key k full empty h =
      ap (λ t. sched.is_scheduled t k) (sym (ok-injective h)) ∙ never (same_plan key k) _
  enable_unless none false s s' key k full empty h = absurd (cc (empty refl))
  enable_unless (some e) true s s' key k full empty h =
      ap (λ t. sched.is_scheduled t k) (sym (ok-injective h)) ∙ never (same_plan key k) _
  enable_unless (some e) false s s' key k full empty h =
      let (i, made, added) = >>=-eq-ok (sched.create_schedule_input key e) _ h in
      let same = fair.created-identifier key e i made in
      fair.is_scheduled-add s s' i k (ap is_complete same ∙ full) added
      ∙ ap (λ j. if same_plan j k then true else sched.is_scheduled s k) same
      ∙ always (same_plan key k) (sched.is_scheduled s k)

  pub empty_without :
      (spec : LaunchPlanSpec) → get_schedule spec ≡ none → is_schedule_empty spec ≡ true
  unfolding is_schedule_empty
  empty_without spec h = rw (is_schedule_empty, h) refl

  pub enable_newly-in_force :
      (s s' : List SchedulableEntity) (key : LaunchPlanKey) (spec : LaunchPlanSpec)
      → is_complete key ≡ true
      → enable_newly w sched s key spec ≡ ok s'
      → (k : LaunchPlanKey)
      → sched.is_scheduled s' k
        ≡ (if same_plan key k && not (is_schedule_empty spec) then true else sched.is_scheduled s k)
  enable_newly-in_force s s' key spec full h k =
      enable_unless (get_schedule spec) (is_schedule_empty spec) s s' key k full
        (empty_without spec) h
