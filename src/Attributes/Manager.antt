-- ===== src/Attributes/Manager.antt =====
-- The operations of the resource manager (pkg/manager/impl/resources/resource_manager.go), with the
-- reading of rows (pkg/repositories/transformers/resource.go).
use flyteadmin.Attributes.{
  merge_update_project_domain_attributes, merge_update_workflow_attributes,
  project_domain_attributes_to_resource_model, workflow_attributes_to_resource_model,
  plugin_overrides, ok, internal, some, or_fail, validate_workflow_attributes_get_request,
  validate_workflow_attributes_update_request, plugin_override, validate_project_and_domain,
  MatchableAttributesConfiguration, validate_project_domain_attributes_update_request, err, Bool,
  MatchingAttributes, Result, Resource, ResourceId, MatchableResource, List, Option, Error,
  Attributes, AttributesStore,
}
use flyteadmin.Common.{◌>>=◌, ◌>>◌, true, false, [], ◌∷◌, if◌then◌else◌, Code, flyte_admin}

module _ (st : AttributesStore) where
  abbrev is_absent : Error → Bool
  is_absent (flyte_admin Code.not_found r) = true
  is_absent _ = false

  abbrev id_of : Resource → ResourceId
  id_of m = record {
    project = m.project;
    domain = m.domain;
    workflow = m.workflow;
    launch_plan = m.launch_plan;
    resource_type = m.resource_type;
  }

  unfoldable pub create_or_merge_update_workflow_attributes :
      st.Db → Attributes → Resource → MatchableResource → Result st.Db
  create_or_merge_update_workflow_attributes db a model r = elim (st.get_raw db (id_of model)) [
    | err e ↦ if is_absent e then st.create_or_update db model else err e
    | ok existing ↦ merge_update_workflow_attributes st existing r a >>= st.create_or_update db
  ]

  unfoldable pub create_or_merge_update_project_domain_attributes :
      st.Db → Attributes → Resource → MatchableResource → Result st.Db
  create_or_merge_update_project_domain_attributes db a model r =
      elim (st.get_raw db (id_of model)) [
        | err e ↦ if is_absent e then st.create_or_update db model else err e
        | ok existing ↦
            merge_update_project_domain_attributes st existing r a >>= st.create_or_update db
      ]

  abbrev has_overrides : Option MatchingAttributes → Bool
  has_overrides (some (plugin_overrides l)) = true
  has_overrides _ = false

  abbrev saved_workflow : st.Db → Attributes → Resource → Result st.Db
  saved_workflow db a model =
      if has_overrides a.matching_attributes
      then create_or_merge_update_workflow_attributes db a model plugin_override
      else st.create_or_update db model

  abbrev saved_project_domain : st.Db → Attributes → Resource → Result st.Db
  saved_project_domain db a model =
      if has_overrides a.matching_attributes
      then create_or_merge_update_project_domain_attributes db a model plugin_override
      else st.create_or_update db model

  unfoldable pub update_workflow_attributes : st.Db → Option Attributes → Result st.Db
  update_workflow_attributes db request = do
    (a, r) ← validate_workflow_attributes_update_request st request
    model ← workflow_attributes_to_resource_model st a r
    saved_workflow db a model

  unfoldable pub update_project_domain_attributes : st.Db → Option Attributes → Result st.Db
  update_project_domain_attributes db request = do
    (a, r) ← validate_project_domain_attributes_update_request st request
    model ← project_domain_attributes_to_resource_model st a r
    saved_project_domain db a model

  unfoldable pub from_resource_model_to_workflow_attributes : Resource → Result Attributes
  from_resource_model_to_workflow_attributes m = do
    a ← or_fail (st.unmarshal m.attributes) internal
    ok (record {
      project = m.project;
      domain = m.domain;
      workflow = m.workflow;
      matching_attributes = some a;
    })

  unfoldable pub from_resource_model_to_project_domain_attributes : Resource → Result Attributes
  from_resource_model_to_project_domain_attributes m = do
    a ← or_fail (st.unmarshal m.attributes) internal
    ok (record {
      project = m.project;
      domain = m.domain;
      workflow = "";
      matching_attributes = some a;
    })

  unfoldable pub get_workflow_attributes : st.Db → ResourceId → Result Attributes
  get_workflow_attributes db id = do
    validate_workflow_attributes_get_request st id
    m ← st.get db id
    from_resource_model_to_workflow_attributes m

  unfoldable pub get_project_domain_attributes : st.Db → ResourceId → Result Attributes
  get_project_domain_attributes db id = do
    validate_project_and_domain st.project_state st.domains id.project id.domain
    m ← st.get db id
    from_resource_model_to_project_domain_attributes m

  unfoldable pub delete_workflow_attributes : st.Db → ResourceId → Result st.Db
  delete_workflow_attributes db id = do
    validate_workflow_attributes_get_request st id
    st.delete_resource db id

  unfoldable pub delete_project_domain_attributes : st.Db → ResourceId → Result st.Db
  delete_project_domain_attributes db id = do
    validate_project_and_domain st.project_state st.domains id.project id.domain
    st.delete_resource db id

  unfoldable pub from_resource_model_to_matchable_attributes :
      Resource → Result MatchableAttributesConfiguration
  from_resource_model_to_matchable_attributes m = do
    a ← or_fail (st.unmarshal m.attributes) internal
    ok (record {
      project = m.project;
      domain = m.domain;
      workflow = m.workflow;
      launch_plan = m.launch_plan;
      attributes = a;
    })

  unfoldable pub from_resource_models_to_matchable_attributes :
      List Resource → Result (List MatchableAttributesConfiguration)
  from_resource_models_to_matchable_attributes [] = ok []
  from_resource_models_to_matchable_attributes (m ∷ ms) = do
    c ← from_resource_model_to_matchable_attributes m
    cs ← from_resource_models_to_matchable_attributes ms
    ok (c ∷ cs)

  -- A matchable resource always has a name here, as the type has no others.
  unfoldable pub list_all :
      st.Db → MatchableResource → Result (List MatchableAttributesConfiguration)
  list_all db r = do
    resources ← st.list_all db (st.type_name r)
    from_resource_models_to_matchable_attributes resources
