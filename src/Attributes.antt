-- ===== src/Attributes.antt =====
-- The attributes that override settings for a project and domain or for a workflow
-- (pkg/manager/impl/resources/resource_manager.go, pkg/repositories/transformers/resource.go,
-- pkg/manager/impl/validation/attributes_validator.go).
pub mod Merge
pub mod Manager
mod Tests
use flyteadmin.Scheduler.Core.{store}
use flyteadmin.Validation.{validate_project_and_domain, validate_empty_string_field}
use flyteadmin.Common.{
  ◌==◌, not, invalid_argument, ◌||◌, foreign, internal, new_flyte_admin_error, str_eq, or_fail, err,
  ok, Bool, Option, Result, Error, String, List, ℕ, Code, flyte_admin, ◌≡◌, ◌>>=◌, ◌>>◌, true,
  false, none, some, suc, zero, [], ◌∷◌, if◌then◌else◌,
}

pub data MatchableResource : Type 0 where
  task_resource cluster_resource execution_queue execution_cluster_label : MatchableResource
  plugin_override workflow_execution_config : MatchableResource

-- `admin.MatchingAttributes`. A target that is not looked into is opaque; an override is for a task
-- type.
pub data MatchingAttributes : Type 0 where
  no_target : MatchingAttributes
  opaque_target : MatchableResource → String → MatchingAttributes
  plugin_overrides : List (String × String) → MatchingAttributes

pub record Attributes : Type 0 where
  pub project : String
  pub domain : String
  pub workflow : String
  pub matching_attributes : Option MatchingAttributes

pub record Resource : Type 0 where
  pub project : String
  pub domain : String
  pub workflow : String
  pub launch_plan : String
  pub resource_type : String
  pub priority : ℕ
  pub attributes : String

pub record ResourceId : Type 0 where
  pub project : String
  pub domain : String
  pub workflow : String
  pub launch_plan : String
  pub resource_type : String

-- A configuration of `ListAll`.
pub record MatchableAttributesConfiguration : Type 0 where
  pub project : String
  pub domain : String
  pub workflow : String
  pub launch_plan : String
  pub attributes : MatchingAttributes

-- The codec, the tables of resources and projects, and the domains of the configuration.
pub record AttributesStore : Type 1 where
  pub marshal : MatchingAttributes → Option String
  pub unmarshal : String → Option MatchingAttributes
  pub type_name : MatchableResource → String
  pub Db : Type 0
  pub get : Db → ResourceId → Result Resource
  pub get_raw : Db → ResourceId → Result Resource
  pub create_or_update : Db → Resource → Result Db
  pub delete_resource : Db → ResourceId → Result Db
  pub list_all : Db → String → Result (List Resource)
  pub project_state : String → Result ℕ
  pub domains : List String

abbrev project_domain_level : ℕ
project_domain_level = 10

abbrev workflow_level : ℕ
workflow_level = 100

-- The overrides by task type: a later one for a type takes the place of an earlier one.
abbrev pub add_overrides : List (String × String) → List (String × String) → List (String × String)
add_overrides [] m = m
add_overrides ((t, o) ∷ rest) m = add_overrides rest (store t o m)

abbrev pub overrides_of : MatchingAttributes → List (String × String)
overrides_of (plugin_overrides l) = l
overrides_of _ = []

unfoldable pub merge_update_plugin_overrides :
    MatchingAttributes → MatchingAttributes → MatchingAttributes
merge_update_plugin_overrides existing new =
    plugin_overrides (add_overrides (overrides_of new) (add_overrides (overrides_of existing) []))

unfoldable pub validate_matching_attributes : Option MatchingAttributes → Result MatchableResource
validate_matching_attributes none = err (new_flyte_admin_error invalid_argument)
validate_matching_attributes (some no_target) = err (new_flyte_admin_error invalid_argument)
validate_matching_attributes (some (opaque_target r s)) = ok r
validate_matching_attributes (some (plugin_overrides l)) = ok plugin_override

abbrev the_attributes : Option MatchingAttributes → MatchingAttributes
the_attributes none = no_target
the_attributes (some a) = a

module _ (st : AttributesStore) where
  unfoldable pub validate_project_domain_attributes_update_request :
      Option Attributes → Result (Attributes × MatchableResource)
  validate_project_domain_attributes_update_request none =
      err (new_flyte_admin_error invalid_argument)
  validate_project_domain_attributes_update_request (some a) = do
    validate_project_and_domain st.project_state st.domains a.project a.domain
    r ← validate_matching_attributes a.matching_attributes
    ok (a, r)

  unfoldable pub validate_workflow_attributes_update_request :
      Option Attributes → Result (Attributes × MatchableResource)
  validate_workflow_attributes_update_request none = err (new_flyte_admin_error invalid_argument)
  validate_workflow_attributes_update_request (some a) = do
    validate_project_and_domain st.project_state st.domains a.project a.domain
    validate_empty_string_field a.workflow
    r ← validate_matching_attributes a.matching_attributes
    ok (a, r)

  unfoldable pub validate_workflow_attributes_get_request : ResourceId → Result (Unit {0})
  validate_workflow_attributes_get_request id = do
    validate_project_and_domain st.project_state st.domains id.project id.domain
    validate_empty_string_field id.workflow

  abbrev marshaled : MatchingAttributes → Result String
  marshaled a = elim (st.marshal a) [ none ↦ err (foreign 6) | some b ↦ ok b ]

  unfoldable pub workflow_attributes_to_resource_model :
      Attributes → MatchableResource → Result Resource
  workflow_attributes_to_resource_model a r = do
    b ← marshaled (the_attributes a.matching_attributes)
    ok (record {
      project = a.project;
      domain = a.domain;
      workflow = a.workflow;
      launch_plan = "";
      resource_type = st.type_name r;
      priority = workflow_level;
      attributes = b;
    })

  unfoldable pub project_domain_attributes_to_resource_model :
      Attributes → MatchableResource → Result Resource
  project_domain_attributes_to_resource_model a r = do
    b ← marshaled (the_attributes a.matching_attributes)
    ok (record {
      project = a.project;
      domain = a.domain;
      workflow = "";
      launch_plan = "";
      resource_type = st.type_name r;
      priority = project_domain_level;
      attributes = b;
    })

  -- The merge of plugin overrides, which alone can be merged.
  unfoldable pub merge_update_workflow_attributes :
      Resource → MatchableResource → Attributes → Result Resource
  merge_update_workflow_attributes model plugin_override a = do
    existing ← or_fail (st.unmarshal model.attributes) internal
    b ←
        or_fail
          (st.marshal
            (merge_update_plugin_overrides existing (the_attributes a.matching_attributes)))
          internal
    ok (record model { attributes = b })
  merge_update_workflow_attributes model _ a = err (new_flyte_admin_error internal)

  unfoldable pub merge_update_project_domain_attributes :
      Resource → MatchableResource → Attributes → Result Resource
  merge_update_project_domain_attributes model plugin_override a = do
    existing ← or_fail (st.unmarshal model.attributes) internal
    b ←
        or_fail
          (st.marshal
            (merge_update_plugin_overrides existing (the_attributes a.matching_attributes)))
          internal
    ok (record model { attributes = b })
  merge_update_project_domain_attributes model _ a = err (new_flyte_admin_error internal)
