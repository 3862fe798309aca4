-- ===== src/LaunchPlan/Expected.antt =====
-- Which inputs a launch plan leaves open, and what a schedule has to give
-- (pkg/manager/impl/validation/launch_plan_validator.go).
use flyteadmin.LaunchPlan.Schedules.{get_cron_expression}
use flyteadmin.LaunchPlan.{Schedule}
use flyteadmin.Common.{
  ◌>>◌, ◌||◌, some-equal, ◌&&◌, not, ok-injective, if◌then◌else◌, ◌≡◌, refl, sym, ap, ◌∙◌,
  Bool-cases, inl, inr, some, none, ok, Option, List, [], ◌∷◌, String, Bool, true, false, >>=-eq-ok,
  str_eq, eq_iff, arith,
}
use flyteadmin.Scheduler.Core.{load}
use flyteadmin.Validation.{check, get_required, Variable, Parameter, Literal, Libraries}
use flyteadmin.LaunchPlan.Inputs.{
  check_kickoff, has_rate, validate_schedule, check_fixed, check_defaults,
  check_and_fetch_expected_input_for_launch_plan, check_bound, expected_cons, expected_inputs_of,
  required_parameter, is_in,
}

-- What becomes of a workflow's input, given the launch plan's default for it and whether it is fixed.
abbrev pub expected_entry : Option Variable → Option Parameter → Bool → Option Parameter
expected_entry none d f = none
expected_entry (some v) (some p) f = some p
expected_entry (some v) none true = none
expected_entry (some v) none false = some (required_parameter v)

without_default : (o : Option Variable) → expected_entry o none true ≡ none
without_default none = refl
without_default (some v) = refl

cons-load_same :
    (n m : String) (v : Variable) (o : Option Variable) (d : Option Parameter) (f : Bool)
    (others : List (String × Parameter))
    → str_eq n m ≡ true
    → load n others ≡ expected_entry o d f
    → load n (expected_cons m v d f others) ≡ expected_entry (some v) d f
cons-load_same n m v o (some p) f others e later = rw e refl
cons-load_same n m v o none true others e later = later ∙ without_default o
cons-load_same n m v o none false others e later = rw e refl

cons-load_other :
    (n m : String) (v : Variable) (d : Option Parameter) (f : Bool)
    (others : List (String × Parameter))
    → str_eq n m ≡ false
    → load n (expected_cons m v d f others) ≡ load n others
cons-load_other n m v (some p) f others e = rw e refl
cons-load_other n m v none true others e = refl
cons-load_other n m v none false others e = rw e refl

expected_inputs_of-load :
    (inputs : List (String × Variable)) (defaults : List (String × Parameter))
    (fixed : List (String × Option Literal)) (n : String)
    → load n (expected_inputs_of inputs defaults fixed)
      ≡ expected_entry (load n inputs) (load n defaults) (is_in n fixed)
unfolding expected_inputs_of
expected_inputs_of-load [] defaults fixed n = refl
expected_inputs_of-load ((m, v) ∷ rest) defaults fixed n =
    let later = expected_inputs_of-load rest defaults fixed n in
    elim (Bool-cases (str_eq n m)) [
      | inl e ↦
          let same = (eq_iff n m).0 e in
          cons-load_same n m v (load n rest) (load m defaults) (is_in m fixed) _ e
            (later ∙ ap (λ x. expected_entry (load n rest) (load x defaults) (is_in x fixed)) same)
          ∙ ap (λ x. expected_entry (some v) (load x defaults) (is_in x fixed)) (sym same)
          ∙ sym (
              ap
                (λ b.
                  expected_entry (if b then some v else load n rest) (load n defaults)
                    (is_in n fixed))
                e)
      | inr e ↦
          cons-load_other n m v (load m defaults) (is_in m fixed) _ e
          ∙ later
          ∙ sym (
              ap
                (λ b.
                  expected_entry (if b then some v else load n rest) (load n defaults)
                    (is_in n fixed))
                e)
    ]

module _ (lib : Libraries) where
  bound :
      (n m kickoff : String) (b : Bool) {u : Unit {0}}
      → b ≡ true
      → n ≡ m
      → check (not (b && not (str_eq m kickoff))) ≡ ok u
      → n ≡ kickoff
  bound n m kickoff b needed same h = ground (arith, eq_iff m kickoff)

  check_bound-required :
      (kickoff : String) (expected : List (String × Parameter)) (n : String) (p : Parameter)
      → check_bound lib kickoff expected ≡ ok tt
      → load n expected ≡ some p
      → get_required p ≡ true
      → n ≡ kickoff
  unfolding check_bound
  check_bound-required kickoff [] n p h found needed = absurd (cc found)
  check_bound-required kickoff ((m, q) ∷ rest) n p h found needed =
      let (u, first, later) =
        >>=-eq-ok (check (not (get_required q && not (str_eq m kickoff)))) _ h in
      elim (Bool-cases (str_eq n m)) [
        | inl e ↦
            let q_p = some-equal (sym (ap (λ b. if b then some q else load n rest) e) ∙ found) in
            bound n m kickoff (get_required q) (ap get_required q_p ∙ needed) ((eq_iff n m).0 e)
              first
        | inr e ↦
            check_bound-required kickoff rest n p later
              (sym (ap (λ b. if b then some q else load n rest) e) ∙ found) needed
      ]

  -- When the inputs of a launch plan pass the check, what it leaves open is known for every name: an
  -- input of the workflow with the plan's default if it has one, required if the plan does not
  -- mention it, and nothing if it is fixed.
  pub check_and_fetch-load :
      (inputs : List (String × Variable)) (fixed : List (String × Option Literal))
      (defaults expected : List (String × Parameter))
      → check_and_fetch_expected_input_for_launch_plan lib inputs fixed defaults ≡ ok expected
      → (n : String)
      → load n expected ≡ expected_entry (load n inputs) (load n defaults) (is_in n fixed)
  unfolding check_and_fetch_expected_input_for_launch_plan
  check_and_fetch-load [] [] [] expected h n = ap (load n) (sym (ok-injective h))
  check_and_fetch-load [] fixed (d ∷ defaults) expected h n = absurd (cc h)
  check_and_fetch-load [] (f ∷ fixed) [] expected h n = absurd (cc h)
  check_and_fetch-load (i ∷ inputs) fixed defaults expected h n =
      let (u, one, h1) = >>=-eq-ok (check_defaults lib (i ∷ inputs) defaults) _ h in
      let (v, two, h2) = >>=-eq-ok (check_fixed lib (i ∷ inputs) fixed) _ h1 in
      ap (load n) (sym (ok-injective h2)) ∙ expected_inputs_of-load (i ∷ inputs) defaults fixed n

  -- A launch plan with a cron expression or a rate that passes the check leaves nothing open but the
  -- argument for the kickoff time: an input that is required is that argument.
  pub validate_schedule-required :
      (s : Schedule) (expected : List (String × Parameter)) (n : String) (p : Parameter)
      → validate_schedule lib (some s) expected ≡ ok tt
      → (not (str_eq (get_cron_expression s) "") || has_rate s) ≡ true
      → load n expected ≡ some p
      → get_required p ≡ true
      → n ≡ s.kickoff_time_input_arg
  unfolding validate_schedule
  validate_schedule-required s expected n p h timed found needed =
      let checked = λ (b : Bool).
        if b
        then (check_bound lib s.kickoff_time_input_arg expected
            >> check_kickoff lib s.kickoff_time_input_arg expected)
        else ok tt in
      let (u, all, rest) =
        >>=-eq-ok (check_bound lib s.kickoff_time_input_arg expected) _
          (sym (ap checked timed) ∙ h) in
      check_bound-required s.kickoff_time_input_arg expected n p all found needed
