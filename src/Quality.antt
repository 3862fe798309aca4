-- ===== src/Quality.antt =====
-- The quality of service of an execution (pkg/manager/impl/executions/quality_of_service.go).
-- A duration is the bytes of the message, which the library parses; zero is no queueing budget.
pub mod Levels
mod Tests
use flyteadmin.Common.{
  flyte_admin, Code, pos, invalid_argument, if◌then◌else◌, or_fail, ok, Bool, ℤ, String, err, ℕ,
  Option, Result, Error, ◌≡◌, ◌>>=◌, true, false, none, some, suc, zero,
}

-- `core.QualityOfService`, a tier or a spec with its queueing budget. The tier 0 is `UNDEFINED`.
pub data QualityOfService : Type 0 where
  tier : ℕ → QualityOfService
  spec : String → QualityOfService

-- What the source takes from the request, the launch plan and the workflow. The metadata of the
-- workflow's template may be missing.
pub record GetQualityOfServiceInput : Type 0 where
  pub domain : String
  pub of_request : Option QualityOfService
  pub of_launch_plan : Option QualityOfService
  pub metadata : Option (Option QualityOfService)

-- The application's configuration, the parser of durations, and the resource manager's answer for
-- the workflow: a failure, or the attribute if it is set.
pub record QualityConfig : Type 0 where
  pub default_tiers : String → Option ℕ
  pub tier_execution_values : ℕ → Option String
  pub duration : String → Option ℤ
  pub get_resource : Result (Option QualityOfService)

-- `none` is a panic.
abbrev pub Outcome : Type 0
Outcome = Option (Result ℤ)

abbrev pub get_tier : Option QualityOfService → ℕ
get_tier (some (tier t)) = t
get_tier _ = 0

abbrev pub is_missing : Error → Bool
is_missing (flyte_admin Code.not_found r) = true
is_missing _ = false

unfoldable pub get_quality_of_service_from_db :
    Result (Option QualityOfService) → Result (Option QualityOfService)
get_quality_of_service_from_db (ok r) = ok r
get_quality_of_service_from_db (err e) = if is_missing e then ok none else err e

module _ (cfg : QualityConfig) where
  -- The spec of the request.
  abbrev pub custom : String → Outcome
  custom budget = some (or_fail (cfg.duration budget) invalid_argument)

  -- A spec of another level. Where it does not parse, the code takes the budget of the request's
  -- spec into the message of the error, which is nil there, and panics.
  abbrev pub custom_or_panic : String → Outcome
  custom_or_panic budget = elim (cfg.duration budget) [ none ↦ none | some d ↦ some (ok d) ]

  -- An error of the conversion is ignored, and then the duration is zero.
  abbrev pub tier_values : ℕ → Outcome
  tier_values t = elim (cfg.tier_execution_values t) [
    | none ↦ some (ok (pos 0))
    | some budget ↦ elim (cfg.duration budget) [ none ↦ some (ok (pos 0)) | some d ↦ some (ok d) ]
  ]

  abbrev pub default_values : String → Outcome
  default_values domain = elim (cfg.default_tiers domain) [
    | none ↦ some (ok (pos 0))
    | some t ↦ tier_values t
  ]

  abbrev pub with_tier : GetQualityOfServiceInput → ℕ → Outcome
  with_tier input zero = default_values input.domain
  with_tier input (suc t) = tier_values (suc t)

  -- A tier in the database makes the source read the tier of the workflow's metadata.
  abbrev pub with_override : GetQualityOfServiceInput → Option QualityOfService → Outcome
  with_override input (some (spec budget)) = custom_or_panic budget
  with_override input (some (tier (suc t))) = elim input.metadata [
    | none ↦ none
    | some q ↦ with_tier input (get_tier q)
  ]
  with_override input (some (tier zero)) = default_values input.domain
  with_override input none = default_values input.domain

  abbrev pub with_database : GetQualityOfServiceInput → Outcome
  with_database input = elim (get_quality_of_service_from_db cfg.get_resource) [
    | err e ↦ some (err e)
    | ok override ↦ with_override input override
  ]

  abbrev pub decide : GetQualityOfServiceInput → QualityOfService → Outcome
  decide input (spec budget) = custom_or_panic budget
  decide input (tier zero) = with_database input
  decide input (tier (suc t)) = tier_values (suc t)

  abbrev pub decide_request : GetQualityOfServiceInput → QualityOfService → Outcome
  decide_request input (spec budget) = custom budget
  decide_request input (tier t) = decide input (tier t)

  unfoldable pub get_quality_of_service : GetQualityOfServiceInput → Outcome
  get_quality_of_service input = elim input.of_request [
    | some q ↦ decide_request input q
    | none ↦ elim input.of_launch_plan [
      | some q ↦ decide input q
      | none ↦ elim input.metadata [
        | some (some q) ↦ decide input q
        | some none ↦ with_database input
        | none ↦ with_database input
      ]
    ]
  ]
