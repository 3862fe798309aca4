-- ===== src/LaunchPlan/Requests.antt =====
-- A table of schedules with room for one row, and the requests that the tests make of the handlers
-- in pkg/manager/impl/launch_plan_manager.go.
use flyteadmin.LaunchPlan.Rows.{same_plan_self, same_plan-eq}
use flyteadmin.LaunchPlan.Create.{CreateLibraries, LaunchPlanCreateRequest}
use flyteadmin.LaunchPlan.Manager.{LaunchPlanUpdateRequest, plan_key, PlanState}
use flyteadmin.Validation.{required_value, Libraries, launch_plan, workflow, Identifier}
use flyteadmin.Scheduler.{SchedulableEntity, day}
use flyteadmin.LaunchPlan.{
  inactive, LaunchPlanClosure, Schedule, LaunchPlanSpec, Parameter, PlanWire, rate,
}
use flyteadmin.Common.{
  Error, ◌≡◌, refl, sym, ap, ◌∙◌, Bool-cases, inl, inr, some, none, ok, err, Result, Option, List,
  [], ◌∷◌, Bool, true, if◌then◌else◌, new_flyte_admin_error, not_found, internal, ok-injective,
}
use flyteadmin.LaunchPlan.{LaunchPlan, LaunchPlanKey, same_plan, active}
use flyteadmin.LaunchPlan.Native.{SchedulesDb, IsSchedulesDb, key_of, with_active}

abbrev entity_of : List SchedulableEntity → LaunchPlanKey → Option SchedulableEntity
entity_of [] k = none
entity_of (x ∷ t) k = if same_plan (key_of x) k then some x else none

abbrev take_entity : Option SchedulableEntity → Result SchedulableEntity
take_entity none = err (new_flyte_admin_error not_found)
take_entity (some x) = ok x

abbrev store_entity : List SchedulableEntity → SchedulableEntity → Result (List SchedulableEntity)
store_entity [] x = ok (x ∷ [])
store_entity (y ∷ t) x = err (new_flyte_admin_error internal)

abbrev set_active_in :
    List SchedulableEntity → LaunchPlanKey → Bool → Result (List SchedulableEntity)
set_active_in [] k b = ok []
set_active_in (x ∷ t) k b =
    ok ((if same_plan (key_of x) k then record x { active = b } else x) ∷ [])

abbrev pub schedules_db : SchedulesDb
schedules_db = record {
  row = entity_of;
  take = λ t k. take_entity (entity_of t k);
  first_or_create = store_entity;
  update_active = set_active_in;
}

take_entity-ok :
    (o : Option SchedulableEntity) (x : SchedulableEntity) → take_entity o ≡ ok x → o ≡ some x
take_entity-ok none x h = absurd (cc h)
take_entity-ok (some y) x h = ap some (ok-injective h)

take_entity-err : (o : Option SchedulableEntity) (e : Error) → take_entity o ≡ err e → o ≡ none
take_entity-err none e h = refl
take_entity-err (some y) e h = absurd (cc h)

store_entity-rows :
    (t t' : List SchedulableEntity) (x : SchedulableEntity) (k : LaunchPlanKey)
    → store_entity t x ≡ ok t'
    → entity_of t' k ≡ (if same_plan (key_of x) k then some x else entity_of t k)
store_entity-rows [] t' x k h = ap (λ s. entity_of s k) (sym (ok-injective h))
store_entity-rows (y ∷ t) t' x k h = absurd (cc h)

set_active_in-rows :
    (t t' : List SchedulableEntity) (d k : LaunchPlanKey) (b : Bool)
    → set_active_in t d b ≡ ok t'
    → entity_of t' k ≡ (if same_plan d k then with_active b (entity_of t k) else entity_of t k)
set_active_in-rows [] t' d k b h = elim (Bool-cases (same_plan d k)) [
  | inl e ↦ ap (λ s. entity_of s k) (sym (ok-injective h)) ∙ rw e refl
  | inr e ↦ ap (λ s. entity_of s k) (sym (ok-injective h)) ∙ rw e refl
]
set_active_in-rows (x ∷ t) t' d k b h =
    ap (λ s. entity_of s k) (sym (ok-injective h)) ∙ elim (Bool-cases (same_plan (key_of x) d)) [
      | inl e ↦
          let same = ap (λ j. same_plan j k) (same_plan-eq (key_of x) d e) in
          elim (Bool-cases (same_plan d k)) [
            | inl f ↦ rw (e, f, same ∙ f) refl
            | inr f ↦ rw (e, f, same ∙ f) refl
          ]
      | inr e ↦ elim (Bool-cases (same_plan d k)) [
        | inl f ↦ elim (Bool-cases (same_plan (key_of x) k)) [
          | inl g ↦
              absurd
                (cc (e, same_plan-eq (key_of x) k g ∙ sym (same_plan-eq d k f), same_plan_self d))
          | inr g ↦ rw (e, f, g) refl
        ]
        | inr f ↦ rw (e, f) refl
      ]
    ]

pub schedules_db-IsSchedulesDb : IsSchedulesDb schedules_db
schedules_db-IsSchedulesDb = record {
  take-found = λ t k x full h. take_entity-ok (entity_of t k) x h;
  take-missing = λ t k r full h. take_entity-err (entity_of t k) _ h;
  row-create = λ t t' x k missing h. store_entity-rows t t' x k h;
  row-update = λ t t' d k b full h. set_active_in-rows t t' d k b h;
}

abbrev pub daily_id : Identifier
daily_id = record {
  resource_type = launch_plan;
  project = "p";
  domain = "d";
  name = "daily";
  version = "v1";
}

abbrev pub daily_schedule : Schedule
daily_schedule = record { expression = some (rate 1 day); kickoff_time_input_arg = "now" }

abbrev pub kickoff_parameter : Parameter
kickoff_parameter = record {
  var = some (record { type_of = some (record { simple = 5; rest = [] }); description = "" });
  behavior = some (required_value true);
}

abbrev pub daily_spec : LaunchPlanSpec
daily_spec = record {
  workflow_id = some (record daily_id { resource_type = workflow });
  entity_metadata = some (record { schedule = some daily_schedule; notifications = [] });
  default_inputs = ("now", kickoff_parameter) ∷ [];
  fixed_inputs = [];
  labels = none;
  rest = [];
}

abbrev pub daily_closure : LaunchPlanClosure
daily_closure = record {
  state = 0;
  expected_inputs = [];
  expected_outputs = [];
  created_at = none;
  updated_at = none;
}

-- Only one spec and one closure can be written.
abbrev pub plan_wire : PlanWire
plan_wire = record {
  marshal_spec = λ s. some (1 ∷ []);
  unmarshal_spec = λ b. some daily_spec;
  marshal_closure = λ c. some (2 ∷ []);
  unmarshal_closure = λ b. some daily_closure;
  timestamp_proto = λ t. some (record { seconds = 0; nanos = t });
}

abbrev pub daily_row : LaunchPlan
daily_row = record {
  created_at = 7;
  updated_at = 7;
  key = plan_key daily_id;
  spec = 1 ∷ [];
  workflow_id = 3;
  closure = 2 ∷ [];
  state = some inactive;
  digest = 9 ∷ [];
  schedule_type = "RATE";
}

abbrev pub idle_state : PlanState
idle_state = record { plans = daily_row ∷ []; schedules = []; failed_schedule_updates = 0 }

abbrev pub enable_daily : LaunchPlanUpdateRequest
enable_daily = record { id = daily_id; state = active }

abbrev pub any_libraries : Libraries
any_libraries = record {
  is_qualified_name = λ s. true;
  is_valid_label_value = λ s. true;
  literal_type_for_literal = λ l. record { simple = 5; rest = [] };
  are_types_castable = λ a b. true;
  datetime = 5;
}

abbrev pub create_libraries : CreateLibraries
create_libraries = record {
  checks = record {
    libraries = any_libraries;
    project_state = λ p. ok 0;
    domains = "d" ∷ [];
    validate_message = λ i s. ok tt;
  };
  get_workflow = λ i. ok (record { id = 3; typed_interface = 4 ∷ [] });
  unmarshal_interface = λ b. some (record {
    inputs =
        ("now", record { type_of = some (record { simple = 5; rest = [] }); description = "" })
        ∷ [];
    outputs = [];
  });
  compute_hash = λ p. some (9 ∷ []);
}

abbrev pub create_daily : LaunchPlanCreateRequest
create_daily = record { id = some daily_id; spec = some daily_spec }
