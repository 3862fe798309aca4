-- ===== src/Quality/Tests.antt =====
-- Each theorem on the quality of service, at a concrete configuration.
use flyteadmin.Quality.Levels.{
  get_quality_of_service-IsOpen, get_quality_of_service-specific, get_quality_of_service-ignores,
  IsOpen, with_resource, most_specific,
}
use flyteadmin.Quality.{
  tier_values, default_values, QualityOfService, is_missing, tier, spec, GetQualityOfServiceInput,
  QualityConfig, get_quality_of_service,
}
use flyteadmin.Common.{
  new_flyte_admin_error, pos, ◌==◌, str_eq, if◌then◌else◌, refl, inr, ℕ, invalid_argument, ℤ, ok,
  Option, err, Error, String, ◌≡◌, true, false, none, some, suc,
}

abbrev parses : String → Option ℤ
parses s = if str_eq s "1h" then some (pos 3600) else none

abbrev settings : QualityConfig
settings = record {
  default_tiers = λ d. if str_eq d "production" then some 1 else none;
  tier_execution_values = λ t. if t == 1 then some "1h" else none;
  duration = parses;
  get_resource = ok (some (spec "1h"));
}

abbrev plain : GetQualityOfServiceInput
plain = record {
  domain = "production";
  of_request = none;
  of_launch_plan = some (spec "2h");
  metadata = none;
}

abbrev unset : GetQualityOfServiceInput
unset = record plain { of_launch_plan = some (tier 0) }

get_quality_of_service-specific_example :
    ((budget : String) (d : ℤ)
      → most_specific plain ≡ some (spec budget)
      → settings.duration budget ≡ some d
      → get_quality_of_service settings plain ≡ some (ok d))
    × ((budget : String)
        → plain.of_request ≡ some (spec budget)
        → settings.duration budget ≡ none
        → get_quality_of_service settings plain
          ≡ some (err (new_flyte_admin_error invalid_argument)))
    × ((budget : String)
        → plain.of_request ≡ none
        → most_specific plain ≡ some (spec budget)
        → settings.duration budget ≡ none
        → get_quality_of_service settings plain ≡ none)
    × ((t : ℕ)
        → most_specific plain ≡ some (tier (suc t))
        → get_quality_of_service settings plain ≡ tier_values settings (suc t))
get_quality_of_service-specific_example = get_quality_of_service-specific settings plain

-- The budget of the launch plan does not parse, and the code panics.
plain_panics : get_quality_of_service settings plain ≡ none
unfolding get_quality_of_service
plain_panics = refl

get_quality_of_service-IsOpen_example :
    ((e : Error)
      → settings.get_resource ≡ err e
      → is_missing e ≡ false
      → get_quality_of_service settings unset ≡ some (err e))
    × ((budget : String) (d : ℤ)
        → settings.get_resource ≡ ok (some (spec budget))
        → settings.duration budget ≡ some d
        → get_quality_of_service settings unset ≡ some (ok d))
    × ((budget : String)
        → settings.get_resource ≡ ok (some (spec budget))
        → settings.duration budget ≡ none
        → get_quality_of_service settings unset ≡ none)
    × ((o : Option QualityOfService)
        → settings.get_resource ≡ ok o
        → IsOpen o
        → get_quality_of_service settings unset ≡ default_values settings unset.domain)
    × ((e : Error)
        → settings.get_resource ≡ err e
        → is_missing e ≡ true
        → get_quality_of_service settings unset ≡ default_values settings unset.domain)
get_quality_of_service-IsOpen_example = get_quality_of_service-IsOpen settings unset (inr refl)

get_quality_of_service-ignores_example :
    (get_quality_of_service (with_resource settings unset (ok (some (tier 1)))) unset
      ≡ get_quality_of_service (with_resource settings unset (ok (some (tier 3)))) unset)
    × (IsOpen (most_specific unset)
        → unset.metadata ≡ none
        → get_quality_of_service (with_resource settings unset (ok (some (tier 1)))) unset ≡ none)
get_quality_of_service-ignores_example = get_quality_of_service-ignores settings unset 0 2
