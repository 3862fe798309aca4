-- ===== src/LaunchPlan/Native.antt =====
-- The native scheduler as the event scheduler of launch plans
-- (scheduler/dbapi/event_scheduler_impl.go) and its table of schedules
-- (scheduler/repositories/gormimpl/schedulable_entity_repo.go).
use flyteadmin.LaunchPlan.Rows.{same_plan-eq}
use flyteadmin.Common.{
  ◌∙◌, arith, >>=-eq-ok, ok-injective, refl, ap, sym, inr, inl, Bool-cases, ℕ, Reason, Code, String,
  Bool, true, false, List, Result, ok, err, flyte_admin, foreign, Option, some, none, if◌then◌else◌,
  ◌≡◌, ◌>>=◌,
}
use flyteadmin.LaunchPlan.{
  is_complete, FixedRateUnit, LaunchPlanKey, same_plan, Schedule, cron_expression, rate,
  cron_schedule,
}
use flyteadmin.LaunchPlan.Schedules.{IsEventScheduler, EventScheduler, AddScheduleInput}
use flyteadmin.Scheduler.{SchedulableEntity, minute}

abbrev pub key_of : SchedulableEntity → LaunchPlanKey
key_of e = record { project = e.project; domain = e.domain; name = e.name; version = e.version }

-- What the repository calls of gorm on the table of schedules: the row that a key selects, the
-- row it creates unless there is one, and the column `active` of the rows of a key. `row` is the
-- row with exactly this key.
pub record SchedulesDb : Type 0 where
  pub row : List SchedulableEntity → LaunchPlanKey → Option SchedulableEntity
  pub take : List SchedulableEntity → LaunchPlanKey → Result SchedulableEntity
  pub first_or_create : List SchedulableEntity → SchedulableEntity → Result (List SchedulableEntity)
  pub update_active :
      List SchedulableEntity → LaunchPlanKey → Bool → Result (List SchedulableEntity)

abbrev pub with_active : Bool → Option SchedulableEntity → Option SchedulableEntity
with_active b none = none
with_active b (some x) = some (record x { active = b })

-- A key without an empty part selects its own row; a row that was not there is created as it is
-- given, and an update changes the row of its key.
pub record IsSchedulesDb (db : SchedulesDb) : Type 0 where
  pub take-found :
      (t : List SchedulableEntity) (k : LaunchPlanKey) (x : SchedulableEntity)
      → is_complete k ≡ true
      → db.take t k ≡ ok x
      → db.row t k ≡ some x
  pub take-missing :
      (t : List SchedulableEntity) (k : LaunchPlanKey) (r : Option Reason)
      → is_complete k ≡ true
      → db.take t k ≡ err (flyte_admin Code.not_found r)
      → db.row t k ≡ none
  pub row-create :
      (t t' : List SchedulableEntity) (x : SchedulableEntity) (k : LaunchPlanKey)
      → db.row t (key_of x) ≡ none
      → db.first_or_create t x ≡ ok t'
      → db.row t' k ≡ (if same_plan (key_of x) k then some x else db.row t k)
  pub row-update :
      (t t' : List SchedulableEntity) (d k : LaunchPlanKey) (b : Bool)
      → is_complete d ≡ true
      → db.update_active t d b ≡ ok t'
      → db.row t' k ≡ (if same_plan d k then with_active b (db.row t k) else db.row t k)

-- `CreateScheduleInput`.
unfoldable pub create_schedule_input : LaunchPlanKey → Schedule → Result AddScheduleInput
create_schedule_input identifier schedule =
    ok (record { identifier = identifier; schedule = schedule })

abbrev entity_row : AddScheduleInput → String → ℕ → FixedRateUnit → SchedulableEntity
entity_row input cron value unit = record {
  project = input.identifier.project;
  domain = input.identifier.domain;
  name = input.identifier.name;
  version = input.identifier.version;
  cron_expression = cron;
  fixed_rate_value = value;
  unit = unit;
  kickoff_time_input_arg = input.schedule.kickoff_time_input_arg;
  active = true;
  updated_at = 0;
}

-- The row that `AddSchedule` activates. The expression of the older field is refused.
unfoldable pub schedulable_entity : AddScheduleInput → Result SchedulableEntity
schedulable_entity input = elim input.schedule.expression [
  | some (rate value unit) ↦ ok (entity_row input "" value unit)
  | some (cron_schedule schedule offset) ↦ ok (entity_row input schedule 0 minute)
  | some (cron_expression c) ↦ err (foreign 1)
  | none ↦ err (foreign 1)
]

module _ (db : SchedulesDb) where
  -- `Activate`, once it is known whether there is a row.
  abbrev activate_taken :
      List SchedulableEntity
      → SchedulableEntity
      → Result SchedulableEntity
      → Result (List SchedulableEntity)
  activate_taken t input (err (flyte_admin Code.not_found r)) = db.first_or_create t input
  activate_taken t input (err e) = err e
  activate_taken t input (ok found) = db.update_active t (key_of input) true

  unfoldable pub activate :
      List SchedulableEntity → SchedulableEntity → Result (List SchedulableEntity)
  activate t input = activate_taken t input (db.take t (key_of input))

  unfoldable pub deactivate :
      List SchedulableEntity → LaunchPlanKey → Result (List SchedulableEntity)
  deactivate t id = db.update_active t id false

  unfoldable pub add_schedule :
      List SchedulableEntity → AddScheduleInput → Result (List SchedulableEntity)
  unfolding schedulable_entity activate
  add_schedule t input = do row ← schedulable_entity input; activate t row

  -- A schedule is in force when its row is active.
  abbrev pub in_force : Option SchedulableEntity → Bool
  in_force none = false
  in_force (some x) = x.active

  abbrev pub native_scheduler : EventScheduler
  native_scheduler = record {
    create_schedule_input = create_schedule_input;
    add_schedule = add_schedule;
    remove_schedule = deactivate;
    is_scheduled = λ t k. in_force (db.row t k);
  }

  module _ (lawful : IsSchedulesDb db) where
    activate_taken-in_force :
        (t t' : List SchedulableEntity) (x : SchedulableEntity) (k : LaunchPlanKey)
        (o : Result SchedulableEntity)
        → is_complete (key_of x) ≡ true
        → x.active ≡ true
        → db.take t (key_of x) ≡ o
        → activate_taken t x o ≡ ok t'
        → in_force (db.row t' k) ≡ (if same_plan (key_of x) k then true else in_force (db.row t k))
    activate_taken-in_force t t' x k (err (flyte_admin Code.not_found r)) full on asked h =
        elim (Bool-cases (same_plan (key_of x) k)) [
          | inl e ↦
              rw (lawful.row-create t t' x k (lawful.take-missing t (key_of x) r full asked) h, e)
                on
          | inr e ↦
              rw (lawful.row-create t t' x k (lawful.take-missing t (key_of x) r full asked) h, e)
                refl
        ]
    activate_taken-in_force t t' x k (err e) full on asked h = absurd (cc h)
    activate_taken-in_force t t' x k (ok y) full on asked h =
        elim (Bool-cases (same_plan (key_of x) k)) [
          | inl e ↦
              rw (lawful.row-update t t' (key_of x) k true full h, e)
                (rw
                  (
                    sym (ap (db.row t) (same_plan-eq _ _ e)),
                    lawful.take-found t (key_of x) y full asked,
                  )
                  refl)
          | inr e ↦ rw (lawful.row-update t t' (key_of x) k true full h, e) refl
        ]

    schedulable_entity-same :
        (i : AddScheduleInput) (x : SchedulableEntity)
        → schedulable_entity i ≡ ok x
        → (key_of x ≡ i.identifier) × (x.active ≡ true)
    unfolding schedulable_entity
    schedulable_entity-same i x h = ground arith

    add_schedule-in_force :
        (t t' : List SchedulableEntity) (i : AddScheduleInput) (k : LaunchPlanKey)
        → is_complete i.identifier ≡ true
        → add_schedule t i ≡ ok t'
        → in_force (db.row t' k)
          ≡ (if same_plan i.identifier k then true else in_force (db.row t k))
    unfolding add_schedule activate
    add_schedule-in_force t t' i k full h =
        let (x, made, added) = >>=-eq-ok (schedulable_entity i) _ h in
        let (key, on) = schedulable_entity-same i x made in
        activate_taken-in_force t t' x k _ (ap is_complete key ∙ full) on refl added
        ∙ ap (λ j. if same_plan j k then true else in_force (db.row t k)) key

    not_in_force : (o : Option SchedulableEntity) → in_force (with_active false o) ≡ false
    not_in_force none = refl
    not_in_force (some x) = refl

    deactivate-in_force :
        (t t' : List SchedulableEntity) (d k : LaunchPlanKey)
        → is_complete d ≡ true
        → deactivate t d ≡ ok t'
        → in_force (db.row t' k) ≡ (if same_plan d k then false else in_force (db.row t k))
    unfolding deactivate
    deactivate-in_force t t' d k full h = elim (Bool-cases (same_plan d k)) [
      | inl e ↦ rw (lawful.row-update t t' d k false full h, e) (not_in_force (db.row t k))
      | inr e ↦ rw (lawful.row-update t t' d k false full h, e) refl
    ]

    pub native_scheduler-IsEventScheduler : IsEventScheduler native_scheduler
    native_scheduler-IsEventScheduler = record {
      created-identifier =
          λ k e i h. unfold create_schedule_input in ap (λ r. r.identifier) (sym (ok-injective h));
      is_scheduled-add = λ t t' i k full h. add_schedule-in_force t t' i k full h;
      is_scheduled-remove = λ t t' d k full h. deactivate-in_force t t' d k full h;
    }
