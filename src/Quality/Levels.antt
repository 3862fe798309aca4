-- ===== src/Quality/Levels.antt =====
-- Which level decides the quality of service (pkg/manager/impl/executions/quality_of_service.go).
use flyteadmin.Quality.{
  custom_or_panic, decide_request, get_tier, tier_values, with_tier, is_missing, tier,
  default_values, decide, Outcome, spec, with_database, with_override,
  get_quality_of_service_from_db, QualityOfService, get_quality_of_service, QualityConfig,
  GetQualityOfServiceInput,
}
use flyteadmin.Common.{
  some-equal, new_flyte_admin_error, ℤ, sym, inr, ◌∙◌, ap, invalid_argument, or_fail, refl, inl,
  ◌⊎◌, ok, err, ℕ, String, Result, Error, Option, ◌≡◌, true, false, none, some, suc, zero,
}

-- The first level that is set, of the request, the launch plan and the workflow.
abbrev pub first_set : Option QualityOfService → Option QualityOfService → Option QualityOfService
first_set (some q) rest = some q
first_set none rest = rest

abbrev pub in_metadata : Option (Option QualityOfService) → Option QualityOfService
in_metadata none = none
in_metadata (some q) = q

abbrev pub most_specific : GetQualityOfServiceInput → Option QualityOfService
most_specific input =
    first_set input.of_request (first_set input.of_launch_plan (in_metadata input.metadata))

-- The level leaves the tier open.
abbrev pub IsOpen : Option QualityOfService → Type 0
IsOpen o = (o ≡ none) ⊎ (o ≡ some (tier 0))

module _ (cfg : QualityConfig) where
  abbrev settled : GetQualityOfServiceInput → Option QualityOfService → Outcome
  settled input none = with_database cfg input
  settled input (some q) = decide cfg input q

  abbrev settled_by_request :
      GetQualityOfServiceInput → Option QualityOfService → Option QualityOfService → Outcome
  settled_by_request input (some q) below = decide_request cfg input q
  settled_by_request input none below = settled input below

  abbrev below_request : GetQualityOfServiceInput → Option QualityOfService
  below_request input = first_set input.of_launch_plan (in_metadata input.metadata)

  by_levels :
      (domain : String) (r l : Option QualityOfService) (m : Option (Option QualityOfService))
      → let input : GetQualityOfServiceInput = record {
        domain = domain;
        of_request = r;
        of_launch_plan = l;
        metadata = m;
      } in
        get_quality_of_service cfg input ≡ settled_by_request input r (below_request input)
  unfolding get_quality_of_service
  by_levels domain (some q) l m = refl
  by_levels domain none (some q) m = refl
  by_levels domain none none none = refl
  by_levels domain none none (some none) = refl
  by_levels domain none none (some (some q)) = refl

  get_quality_of_service_settled :
      (input : GetQualityOfServiceInput)
      → get_quality_of_service cfg input
        ≡ settled_by_request input input.of_request (below_request input)
  get_quality_of_service_settled input =
      by_levels input.domain input.of_request input.of_launch_plan input.metadata

  -- Tiers are treated alike at every level.
  settled_tier :
      (input : GetQualityOfServiceInput) (r below : Option QualityOfService) (t : ℕ)
      → first_set r below ≡ some (tier t)
      → settled_by_request input r below ≡ decide cfg input (tier t)
  settled_tier input none below t e = ap (settled input) e
  settled_tier input (some q) below t e = ap (decide_request cfg input) (some-equal e)

  settled_none :
      (input : GetQualityOfServiceInput) (r below : Option QualityOfService)
      → first_set r below ≡ none
      → settled_by_request input r below ≡ with_database cfg input
  settled_none input none below e = ap (settled input) e
  settled_none input (some q) below e = absurd (cc e)

  parses :
      (budget : String) (d : ℤ)
      → cfg.duration budget ≡ some d
      → custom_or_panic cfg budget ≡ some (ok d)
  parses budget d e = rw (custom_or_panic, e) refl

  panics : (budget : String) → cfg.duration budget ≡ none → custom_or_panic cfg budget ≡ none
  panics budget e = rw (custom_or_panic, e) refl

  settled_spec :
      (input : GetQualityOfServiceInput) (r below : Option QualityOfService) (budget : String)
      (d : ℤ)
      → first_set r below ≡ some (spec budget)
      → cfg.duration budget ≡ some d
      → settled_by_request input r below ≡ some (ok d)
  settled_spec input none below budget d e parsed = ap (settled input) e ∙ parses budget d parsed
  settled_spec input (some q) below budget d e parsed =
      ap (decide_request cfg input) (some-equal e)
      ∙ ap (λ o. some (or_fail o invalid_argument)) parsed

  -- The most specific level that is set decides, whatever the database and the less specific
  -- levels say. A spec that parses gives its own budget. A spec of the request that does not parse
  -- gives the error on an argument, and at another level the code panics on it. A tier other than
  -- the undefined one gives the configured budget of that tier.
  pub get_quality_of_service-specific :
      (input : GetQualityOfServiceInput)
      → ((budget : String) (d : ℤ)
          → most_specific input ≡ some (spec budget)
          → cfg.duration budget ≡ some d
          → get_quality_of_service cfg input ≡ some (ok d))
        × ((budget : String)
            → input.of_request ≡ some (spec budget)
            → cfg.duration budget ≡ none
            → get_quality_of_service cfg input
              ≡ some (err (new_flyte_admin_error invalid_argument)))
        × ((budget : String)
            → input.of_request ≡ none
            → most_specific input ≡ some (spec budget)
            → cfg.duration budget ≡ none
            → get_quality_of_service cfg input ≡ none)
        × ((t : ℕ)
            → most_specific input ≡ some (tier (suc t))
            → get_quality_of_service cfg input ≡ tier_values cfg (suc t))
  get_quality_of_service-specific input =
      let at = get_quality_of_service_settled input in
      (
        λ budget d e parsed.
            at ∙ settled_spec input input.of_request (below_request input) budget d e parsed,
        λ budget e bad.
            at
            ∙ ap (λ o. settled_by_request input o (below_request input)) e
            ∙ ap (λ o. some (or_fail o invalid_argument)) bad,
        λ budget nothing e bad.
            at
            ∙ ap (λ o. settled_by_request input o (below_request input)) nothing
            ∙ ap (settled input) (ap (λ o. first_set o (below_request input)) (sym nothing) ∙ e)
            ∙ panics budget bad,
        λ t e. at ∙ settled_tier input input.of_request (below_request input) (suc t) e,
      )

  open_settled :
      (input : GetQualityOfServiceInput)
      → IsOpen (most_specific input)
      → get_quality_of_service cfg input ≡ with_database cfg input
  open_settled input is_open =
      let at = get_quality_of_service_settled input in
      elim is_open [
        | inl e ↦ at ∙ settled_none input input.of_request (below_request input) e
        | inr e ↦ at ∙ settled_tier input input.of_request (below_request input) 0 e
      ]

  from_failure :
      (input : GetQualityOfServiceInput) (e : Error)
      → cfg.get_resource ≡ err e
      → is_missing e ≡ false
      → with_database cfg input ≡ some (err e)
  unfolding get_quality_of_service_from_db
  from_failure input e found other = rw (with_database, found, other) refl

  from_missing :
      (input : GetQualityOfServiceInput) (e : Error)
      → cfg.get_resource ≡ err e
      → is_missing e ≡ true
      → with_database cfg input ≡ default_values cfg input.domain
  unfolding get_quality_of_service_from_db
  from_missing input e found missing = rw (with_database, found, missing) refl

  from_answer :
      (input : GetQualityOfServiceInput) (o : Option QualityOfService)
      → cfg.get_resource ≡ ok o
      → with_database cfg input ≡ with_override cfg input o
  unfolding get_quality_of_service_from_db
  from_answer input o found = rw (with_database, found) refl

  override_open :
      (input : GetQualityOfServiceInput) (o : Option QualityOfService)
      → IsOpen o
      → with_override cfg input o ≡ default_values cfg input.domain
  override_open input o is_open = elim is_open [
    | inl e ↦ ap (with_override cfg input) e
    | inr e ↦ ap (with_override cfg input) e
  ]

  -- Where no level says more than the undefined tier, the database is asked: a failure other than
  -- a missing attribute is returned, a spec gives its budget or, if it does not parse, a panic, and
  -- no attribute, or the undefined tier, gives the budget of the domain's default tier.
  pub get_quality_of_service-IsOpen :
      (input : GetQualityOfServiceInput)
      → IsOpen (most_specific input)
      → ((e : Error)
          → cfg.get_resource ≡ err e
          → is_missing e ≡ false
          → get_quality_of_service cfg input ≡ some (err e))
        × ((budget : String) (d : ℤ)
            → cfg.get_resource ≡ ok (some (spec budget))
            → cfg.duration budget ≡ some d
            → get_quality_of_service cfg input ≡ some (ok d))
        × ((budget : String)
            → cfg.get_resource ≡ ok (some (spec budget))
            → cfg.duration budget ≡ none
            → get_quality_of_service cfg input ≡ none)
        × ((o : Option QualityOfService)
            → cfg.get_resource ≡ ok o
            → IsOpen o
            → get_quality_of_service cfg input ≡ default_values cfg input.domain)
        × ((e : Error)
            → cfg.get_resource ≡ err e
            → is_missing e ≡ true
            → get_quality_of_service cfg input ≡ default_values cfg input.domain)
  get_quality_of_service-IsOpen input is_open =
      let at = open_settled input is_open in
      (
        λ e found other. at ∙ from_failure input e found other,
        λ budget d found parsed.
            at ∙ from_answer input (some (spec budget)) found ∙ parses budget d parsed,
        λ budget found bad. at ∙ from_answer input (some (spec budget)) found ∙ panics budget bad,
        λ o found nothing. at ∙ from_answer input o found ∙ override_open input o nothing,
        λ e found missing. at ∙ from_missing input e found missing,
      )

module _ (cfg : QualityConfig) (input : GetQualityOfServiceInput) where
  abbrev pub with_resource : Result (Option QualityOfService) → QualityConfig
  with_resource r = record cfg { get_resource = r }

  -- The two configurations differ in the tier of the database only.
  resource_settled :
      (t u : ℕ) (r below : Option QualityOfService)
      → settled_by_request (with_resource (ok (some (tier (suc t))))) input r below
        ≡ settled_by_request (with_resource (ok (some (tier (suc u))))) input r below
  unfolding get_quality_of_service_from_db
  resource_settled t u (some (spec budget)) below = refl
  resource_settled t u (some (tier zero)) below = refl
  resource_settled t u (some (tier (suc v))) below = refl
  resource_settled t u none none = refl
  resource_settled t u none (some (spec budget)) = refl
  resource_settled t u none (some (tier zero)) = refl
  resource_settled t u none (some (tier (suc v))) = refl

  -- A tier in the database is never what decides: any other one there gives the same outcome. Where
  -- no level says more than the undefined tier and the workflow has no metadata, the source
  -- panics on it.
  pub get_quality_of_service-ignores :
      (t u : ℕ)
      → (get_quality_of_service (with_resource (ok (some (tier (suc t))))) input
          ≡ get_quality_of_service (with_resource (ok (some (tier (suc u))))) input)
        × (IsOpen (most_specific input)
            → input.metadata ≡ none
            → get_quality_of_service (with_resource (ok (some (tier (suc t))))) input ≡ none)
  unfolding get_quality_of_service_from_db
  get_quality_of_service-ignores t u = (
    get_quality_of_service_settled (with_resource (ok (some (tier (suc t))))) input
        ∙ resource_settled t u input.of_request (below_request (with_resource (ok none)) input)
        ∙ sym (get_quality_of_service_settled (with_resource (ok (some (tier (suc u))))) input),
    λ is_open nothing.
        open_settled (with_resource (ok (some (tier (suc t))))) input is_open
        ∙ ap (λ m. no_metadata m t) nothing,
  )
    where
      no_metadata : Option (Option QualityOfService) → ℕ → Outcome
      no_metadata m t = elim m [
        | none ↦ none
        | some q ↦ with_tier (with_resource (ok (some (tier (suc t))))) input (get_tier q)
      ]
