-- ===== src/LaunchPlan/Inputs.antt =====
-- The inputs that a launch plan leaves open, and those that its schedule can leave open
-- (pkg/manager/impl/validation/launch_plan_validator.go).
use flyteadmin.Common.{
  String, Result, ok, Option, some, none, Bool, true, false, ℕ, List, [], ◌∷◌, ◌>>=◌, ◌>>◌, str_eq,
  if◌then◌else◌, not, ◌||◌, ◌&&◌, ◌==◌,
}
use flyteadmin.Scheduler.Core.{load}
use flyteadmin.Validation.{
  Variable, Parameter, Literal, Libraries, LiteralType, invalid, check, var_type, get_required,
  required_value, Identifier, validate_identifier, validate_labels, validate_literal_map,
  validate_parameter_map, validate_project_and_domain, workflow, launch_plan,
}
use flyteadmin.LaunchPlan.{LaunchPlanSpec, Schedule, rate, cron_expression, cron_schedule}
use flyteadmin.LaunchPlan.Schedules.{get_schedule, get_cron_expression}

abbrev pub is_in {ℓ} : {V : Type ℓ} → String → List (String × V) → Bool
is_in n l = elim (load n l) [ none ↦ false | some v ↦ true ]

abbrev pub has_rate : Schedule → Bool
has_rate s = elim s.expression [
  | some (rate v u) ↦ true
  | some (cron_expression c) ↦ false
  | some (cron_schedule c o) ↦ false
  | none ↦ false
]

-- What a workflow's input becomes when the launch plan does not mention it.
abbrev pub required_parameter : Variable → Parameter
required_parameter v = record { var = some v; behavior = some (required_value true) }

-- The type of a value that is not nil.
abbrev literal_type : Libraries → Option Literal → Option LiteralType
literal_type lib none = none
literal_type lib (some l) = some (lib.literal_type_for_literal l)

-- One round of the last loop of `checkAndFetchExpectedInputForLaunchPlan`.
abbrev pub expected_cons :
    String
    → Variable
    → Option Parameter
    → Bool
    → List (String × Parameter)
    → List (String × Parameter)
expected_cons name v (some p) f others = (name, p) ∷ others
expected_cons name v none true others = others
expected_cons name v none false others = (name, required_parameter v) ∷ others

unfoldable pub expected_inputs_of :
    List (String × Variable)
    → List (String × Parameter)
    → List (String × Option Literal)
    → List (String × Parameter)
expected_inputs_of [] defaults fixed = []
expected_inputs_of ((name, v) ∷ rest) defaults fixed =
    expected_cons name v (load name defaults) (is_in name fixed)
      (expected_inputs_of rest defaults fixed)

module _ (lib : Libraries) where
  abbrev pub check_default : Option Variable → Parameter → Result (Unit {0})
  check_default none p = invalid
  check_default (some v) p = check (lib.are_types_castable (var_type p) v.type_of)

  unfoldable pub check_defaults :
      List (String × Variable) → List (String × Parameter) → Result (Unit {0})
  check_defaults inputs [] = ok tt
  check_defaults inputs ((name, p) ∷ rest) = do
    check_default (load name inputs) p
    check_defaults inputs rest

  abbrev pub check_value : Option Variable → Option Literal → Result (Unit {0})
  check_value none l = invalid
  check_value (some v) l = check (lib.are_types_castable (literal_type lib l) v.type_of)

  unfoldable pub check_fixed :
      List (String × Variable) → List (String × Option Literal) → Result (Unit {0})
  check_fixed inputs [] = ok tt
  check_fixed inputs ((name, l) ∷ rest) = do
    check_value (load name inputs) l
    check_fixed inputs rest

  -- A workflow without inputs wants none; a nil map is the empty one.
  unfoldable pub check_and_fetch_expected_input_for_launch_plan :
      List (String × Variable)
      → List (String × Option Literal)
      → List (String × Parameter)
      → Result (List (String × Parameter))
  unfolding check_defaults check_fixed expected_inputs_of
  check_and_fetch_expected_input_for_launch_plan [] [] [] = ok []
  check_and_fetch_expected_input_for_launch_plan [] fixed (d ∷ defaults) = invalid
  check_and_fetch_expected_input_for_launch_plan [] (f ∷ fixed) [] = invalid
  check_and_fetch_expected_input_for_launch_plan (i ∷ inputs) fixed defaults = do
    check_defaults (i ∷ inputs) defaults
    check_fixed (i ∷ inputs) fixed
    ok (expected_inputs_of (i ∷ inputs) defaults fixed)

  -- Only the argument for the kickoff time may be required.
  unfoldable pub check_bound : String → List (String × Parameter) → Result (Unit {0})
  check_bound kickoff [] = ok tt
  check_bound kickoff ((key, value) ∷ rest) = do
    check (not (get_required value && not (str_eq key kickoff)))
    check_bound kickoff rest

  abbrev pub simple_type : Parameter → ℕ
  simple_type p = elim (var_type p) [ none ↦ 0 | some t ↦ t.simple ]

  abbrev pub check_kickoff : String → List (String × Parameter) → Result (Unit {0})
  check_kickoff kickoff expected =
      if str_eq kickoff "" then ok tt else elim (load kickoff expected) [
        | none ↦ invalid
        | some p ↦ check (simple_type p == lib.datetime)
      ]

  unfoldable pub validate_schedule : Option Schedule → List (String × Parameter) → Result (Unit {0})
  unfolding check_bound
  validate_schedule none expected = ok tt
  validate_schedule (some s) expected =
      if not (str_eq (get_cron_expression s) "") || has_rate s
      then (check_bound s.kickoff_time_input_arg expected
          >> check_kickoff s.kickoff_time_input_arg expected)
      else ok tt

-- What the validation of a request to create a plan reads besides the request.
pub record PlanChecks : Type 0 where
  pub libraries : Libraries
  pub project_state : String → Result ℕ
  pub domains : List String
  -- the generated `Validate` of the request
  pub validate_message : Identifier → LaunchPlanSpec → Result (Unit {0})

-- The part of `ValidateLaunchPlan` after the identifier.
unfoldable pub validate_plan_spec :
    PlanChecks
    → Identifier
    → Option LaunchPlanSpec
    → List (String × Variable)
    → Result LaunchPlanSpec
validate_plan_spec c id none inputs = do
  validate_project_and_domain c.project_state c.domains id.project id.domain
  invalid
validate_plan_spec c id (some spec) inputs = do
  validate_project_and_domain c.project_state c.domains id.project id.domain
  workflow_id ← validate_identifier spec.workflow_id workflow
  validate_labels c.libraries spec.labels
  validate_literal_map c.libraries spec.fixed_inputs
  validate_parameter_map c.libraries spec.default_inputs
  expected ←
      check_and_fetch_expected_input_for_launch_plan c.libraries inputs spec.fixed_inputs
        spec.default_inputs
  validate_schedule c.libraries (get_schedule spec) expected
  c.validate_message id (record spec { default_inputs = expected })
  ok (record spec { default_inputs = expected })

-- `ValidateLaunchPlan`: the spec comes back with the expected inputs as its default inputs.
unfoldable pub validate_launch_plan :
    PlanChecks
    → Option Identifier
    → Option LaunchPlanSpec
    → List (String × Variable)
    → Result (Identifier × LaunchPlanSpec)
unfolding validate_plan_spec
validate_launch_plan c request_id request_spec inputs = do
  id ← validate_identifier request_id launch_plan
  spec ← validate_plan_spec c id request_spec inputs
  ok (id, spec)
