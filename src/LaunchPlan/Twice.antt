-- ===== src/LaunchPlan/Twice.antt =====
-- What the table holds once a launch plan is created, and a second request to create it
-- (`CreateLaunchPlan` in pkg/manager/impl/launch_plan_manager.go).
use flyteadmin.Validation.{
  validate_identifier_complete, validate_identifier-same, launch_plan, workflow,
  validate_identifier,
}
use flyteadmin.LaunchPlan.Inputs.{validate_plan_spec, validate_launch_plan}
use flyteadmin.LaunchPlan.Rows.{same_plan_self}
use flyteadmin.LaunchPlan.Manager.{plan_key}
use flyteadmin.LaunchPlan.Views.{create_launch_plan_view, create_launch_plan_model, LaunchPlanView}
use flyteadmin.LaunchPlan.Store.{IsPlansDb, PlansDb}
use flyteadmin.LaunchPlan.Create.{
  get_launch_plan_digest, read_interface, workflow_id_of, check_existing, WorkflowModel,
  prepare_launch_plan, LaunchPlanCreateRequest, create_launch_plan, CreateLibraries, bytes_equal,
}
use flyteadmin.LaunchPlan.{
  Variable, LaunchPlanSpec, same_plan, Identifier, is_complete, inactive, LaunchPlan, Bytes,
  PlanWire,
}
use flyteadmin.Common.{
  >>=-after-err, >>=-after-ok, some-equal, if◌then◌else◌, already_exists, new_flyte_admin_error,
  ok-injective, ℕ, ◌≡◌, refl, sym, ap, ◌∙◌, some, none, ok, err, Result, Option, List, [], ◌∷◌,
  String, true, >>=-eq-ok, arith,
}

bytes_equal_self : (b : Bytes) → bytes_equal b b ≡ true
unfolding bytes_equal
bytes_equal_self [] = refl
bytes_equal_self (x ∷ xs) = ground (arith, bytes_equal_self xs)

module _ (w : PlanWire) (db : PlansDb) (c : CreateLibraries) (lawful : IsPlansDb db) where
  -- What a request that created a plan has done.
  pub record Created (request : LaunchPlanCreateRequest) (plans plans' : List LaunchPlan)
      : Type 0 where
    pub plan : LaunchPlanView
    pub digest : Bytes
    pub workflow_model : WorkflowModel
    pub model : LaunchPlan
    pub prepared : prepare_launch_plan w db c request ≡ ok (plan, digest, workflow_model)
    pub is_new : check_existing w db c (db.get plans (plan_key plan.id)) digest ≡ ok tt
    pub has_model : create_launch_plan_model w plan workflow_model.id digest inactive ≡ ok model
    pub stored : db.create plans model ≡ ok plans'

  create_launch_plan-Created :
      (request : LaunchPlanCreateRequest) (plans plans' : List LaunchPlan) (sizes : ℕ × ℕ)
      → create_launch_plan w db c request plans ≡ ok (plans', sizes.0, sizes.1)
      → Created request plans plans'
  unfolding create_launch_plan
  create_launch_plan-Created request plans plans' sizes h =
      let ((plan, digest, wf), prepared, h1) = >>=-eq-ok (prepare_launch_plan w db c request) _ h in
      let (u, fresh, h2) =
        >>=-eq-ok (check_existing w db c (db.get plans (plan_key plan.id)) digest) _ h1 in
      let (model, made, h3) =
        >>=-eq-ok (create_launch_plan_model w plan wf.id digest inactive) _ h2 in
      let (after, stored, h4) = >>=-eq-ok (db.create plans model) _ h3 in
      record {
        plan = plan;
        digest = digest;
        workflow_model = wf;
        model = model;
        prepared = prepared;
        is_new = fresh;
        has_model = made;
        stored = stored ∙ ap (λ p. ok p.0) (ok-injective h4);
      }

  check_existing-missing :
      (o : Result LaunchPlan) (digest : Bytes) (x : LaunchPlan)
      → o ≡ ok x
      → x.digest ≡ digest
      → check_existing w db c o digest ≡ err (new_flyte_admin_error already_exists)
  unfolding check_existing
  check_existing-missing o digest x found same =
      rw found (rw same (rw (bytes_equal_self digest) refl))

  validated-id :
      (rid : Option Identifier) (rspec : Option LaunchPlanSpec) (inputs : List (String × Variable))
      (id : Identifier) (spec : LaunchPlanSpec)
      → validate_launch_plan c.checks rid rspec inputs ≡ ok (id, spec)
      → (rid ≡ some id) × (is_complete (plan_key id) ≡ true)
  unfolding validate_launch_plan validate_identifier
  validated-id none rspec inputs id spec h = absurd (cc h)
  validated-id (some i) rspec inputs id spec h =
      let (j, valid, h1) = >>=-eq-ok (validate_identifier (some i) launch_plan) _ h in
      let (s, _, h2) = >>=-eq-ok (validate_plan_spec c.checks j rspec inputs) _ h1 in
      let same = ap (λ (p : Identifier × LaunchPlanSpec). p.0) (ok-injective h2) in
      let given = validate_identifier-same i j launch_plan valid ∙ same in
      (
        ap some given,
        ap (λ k. is_complete (plan_key k)) (sym given)
            ∙ validate_identifier_complete i j launch_plan valid,
      )

  prepared-id :
      (request : LaunchPlanCreateRequest) (plan : LaunchPlanView) (digest : Bytes)
      (m : WorkflowModel)
      → prepare_launch_plan w db c request ≡ ok (plan, digest, m)
      → (request.id ≡ some plan.id) × (is_complete (plan_key plan.id) ≡ true)
  unfolding prepare_launch_plan create_launch_plan_view
  prepared-id request plan digest m h =
      let (wid, _, h1) =
        >>=-eq-ok (validate_identifier (workflow_id_of request.spec) workflow) _ h in
      let (wm, _, h2) = >>=-eq-ok (c.get_workflow wid) _ h1 in
      let (ifc, _, h3) = >>=-eq-ok (read_interface w db c wm.typed_interface) _ h2 in
      let ((id, spec), valid, h4) =
        >>=-eq-ok (validate_launch_plan c.checks request.id request.spec ifc.inputs) _ h3 in
      let (d, _, h5) =
        >>=-eq-ok (get_launch_plan_digest w db c (create_launch_plan_view id spec ifc.outputs)) _
          h4 in
      let (given, full) = validated-id request.id request.spec ifc.inputs id spec valid in
      let same = ap (λ (p : LaunchPlanView × Bytes × WorkflowModel). p.0.id) (ok-injective h5) in
      (given ∙ ap some same, ap (λ i. is_complete (plan_key i)) (sym same) ∙ full)

  model-parts :
      (plan : LaunchPlanView) (id : ℕ) (digest : Bytes) (s : ℕ) (model : LaunchPlan)
      → create_launch_plan_model w plan id digest s ≡ ok model
      → (model.key ≡ plan_key plan.id) × (model.digest ≡ digest) × (model.state ≡ some s)
  unfolding create_launch_plan_model
  model-parts plan id digest s model h = (ground arith, ground arith, ground arith)

  Created-found :
      (request : LaunchPlanCreateRequest) (plans plans' : List LaunchPlan)
      (a : Created request plans plans') (found : LaunchPlan)
      → db.get plans' (plan_key a.plan.id) ≡ ok found
      → (found.state ≡ some inactive) × (found.digest ≡ a.digest)
  Created-found request plans plans' a found there =
      let (same_id, full) = prepared-id request a.plan a.digest a.workflow_model a.prepared in
      let (key, digest, state) =
        model-parts a.plan a.workflow_model.id a.digest inactive a.model a.has_model in
      let found_key = lawful.get-complete plans' (plan_key a.plan.id) found full there in
      let row =
        sym (lawful.get-row plans' (plan_key a.plan.id) found there)
        ∙ lawful.row-create plans plans' a.model found.key a.stored
        ∙ ap
            (λ b.
              if b
              then some (record a.model { created_at = db.now plans; updated_at = db.now plans })
              else db.row plans found.key)
            (ap (same_plan a.model.key) (found_key ∙ sym key) ∙ same_plan_self a.model.key) in
      (ap (λ r. r.state) (some-equal row) ∙ state, ap (λ r. r.digest) (some-equal row) ∙ digest)

  -- A launch plan that was created is inactive, and as long as the database finds the row of its
  -- key, the same request is refused, as the plan exists.
  pub create_launch_plan-again :
      (request : LaunchPlanCreateRequest) (plans plans' : List LaunchPlan) (sizes : ℕ × ℕ)
      → create_launch_plan w db c request plans ≡ ok (plans', sizes.0, sizes.1)
      → (id : Identifier) (found : LaunchPlan) → request.id ≡ some id
      → db.get plans' (plan_key id) ≡ ok found
      → (found.state ≡ some inactive)
        × (create_launch_plan w db c request plans' ≡ err (new_flyte_admin_error already_exists))
  unfolding create_launch_plan
  create_launch_plan-again request plans plans' sizes h id found asked there =
      let a = create_launch_plan-Created request plans plans' sizes h in
      let (same_id, full) = prepared-id request a.plan a.digest a.workflow_model a.prepared in
      let here = ap (λ i. db.get plans' (plan_key i)) (some-equal (sym same_id ∙ asked)) ∙ there in
      let (state, digest) = Created-found request plans plans' a found here in
      (
        state,
        >>=-after-ok (prepare_launch_plan w db c request) _ a.prepared (
            >>=-after-err (check_existing w db c (db.get plans' (plan_key a.plan.id)) a.digest) _
              (check_existing-missing _ a.digest found here digest)),
      )
