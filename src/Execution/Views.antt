-- ===== src/Execution/Views.antt =====
-- What a caller sees of a row after it is created or aborted: the serialized parts read back.
use flyteadmin.Execution.Update.{set_execution_aborted}
use flyteadmin.Execution.Read.{
  with_abort_cause, ExecutionView, from_execution_model, create_execution_model, CreateInput,
  or_empty,
}
use flyteadmin.Execution.{
  Bytes, ExecutionClosure, ExecutionSpec, abort_metadata, ExecutionMetadata, Execution, IsWire,
  Wire,
}
use flyteadmin.Common.{
  refl, arith, ap, ◌∙◌, or_fail-eq-ok, ok-injective, internal, or_fail, Option, ◌≢◌, some, none,
  >>=-eq-ok, ok, String, ◌≡◌,
}

module _ (w : Wire) (lawful : IsWire w) where
  -- A new row and the request that it comes from.
  pub record Created (i : CreateInput) (y : Execution) : Type 0 where
    pub view : ExecutionView
    pub read : from_execution_model w y ≡ ok view
    pub id : view.id ≡ i.workflow_execution_id
    pub phase : (view.closure.phase ≡ i.phase) × (w.phase_value y.phase ≡ i.phase)
    pub notifications : view.closure.notifications ≡ i.notifications
    pub launched :
        (view.spec.launch_plan ≡ i.request_spec.launch_plan)
        × (view.spec.rest ≡ i.request_spec.rest)
    pub cluster : y.cluster ≡ i.cluster
    -- the request's metadata with the cluster in them
    pub with_metadata :
        (m : ExecutionMetadata)
        → i.request_spec.metadata ≡ some m
        → (view.spec.metadata ≡ some (record m { system_metadata = some i.cluster }))
          × (y.user ≡ m.principal)
          × (y.mode ≡ m.mode)
    pub without_metadata :
        i.request_spec.metadata ≡ none
        → (view.spec.metadata
            ≡ some (record { mode = 0; principal = ""; system_metadata = some i.cluster }))
          × (y.user ≡ "")
          × (y.mode ≡ 0)
    -- the row names the task, if there is one, and else the launch plan
    pub of_task : i.task_id ≢ 0 → (y.task_id ≡ i.task_id) × (y.launch_plan_id ≡ 0)
    pub of_launch_plan : i.task_id ≡ 0 → (y.task_id ≡ 0) × (y.launch_plan_id ≡ i.launch_plan_id)

  abbrev placed : CreateInput → Option ExecutionMetadata → ExecutionMetadata
  placed i o = record (or_empty o) { system_metadata = some i.cluster }

  -- A row whose parts were serialized reads back as those parts.
  view_of :
      (y : Execution) (spec : ExecutionSpec) (closure : ExecutionClosure)
      → w.marshal_spec spec ≡ some y.spec
      → w.marshal_closure closure ≡ some y.closure
      → from_execution_model w y
        ≡ ok (record { id = y.key; spec = spec; closure = with_abort_cause w y closure })
  unfolding from_execution_model
  view_of y spec closure s c =
      rw (lawful.unmarshal-spec spec y.spec s, lawful.unmarshal-closure closure y.closure c) refl

  -- A row that is built for a new execution reads back as its request: the identifier, the phase,
  -- the notifications and the spec, with the cluster in its metadata, which are empty where the
  -- request has none. The mode and the user are those of the metadata. The row names the task if one
  -- is given, and else the launch plan.
  pub create_execution_model-Created :
      (i : CreateInput) (y : Execution) → create_execution_model w i ≡ ok y → Created i y
  unfolding create_execution_model
  create_execution_model-Created i y h =
      let (spec, s, h1) = >>=-eq-ok (or_fail (w.marshal_spec _) internal) _ h in
      let (at, a, h2) = >>=-eq-ok (or_fail (w.timestamp_proto i.created_at) internal) _ h1 in
      let (closure, c, h3) = >>=-eq-ok (or_fail (w.marshal_closure _) internal) _ h2 in
      let row = ok-injective h3 in
      let stored_spec = or_fail-eq-ok _ _ s ∙ ap (λ (b : Execution). some b.spec) row in
      let stored_closure = or_fail-eq-ok _ _ c ∙ ap (λ (b : Execution). some b.closure) row in
      record {
        view = _;
        read = view_of y _ _ stored_spec stored_closure;
        id = ground arith;
        phase = (ground arith, ground (arith, lawful.value-name i.phase));
        notifications = ground arith;
        launched = (refl, refl);
        cluster = ground arith;
        with_metadata = λ m h. (ap (λ o. some (placed i o)) h, ground arith, ground arith);
        without_metadata = λ h. (ap (λ o. some (placed i o)) h, ground arith, ground arith);
        of_task = λ some_task. ground arith;
        of_launch_plan = λ no_task. ground arith;
      }

  abort_view :
      (x : Execution) (closure : ExecutionClosure) (bytes : Bytes) (cause principal : String)
      (v : ExecutionView)
      → w.unmarshal_closure x.closure ≡ some closure
      → w.unmarshal_closure bytes
        ≡ some (record closure { output_result = some (abort_metadata cause principal) })
      → from_execution_model w x ≡ ok v
      → from_execution_model w (record x { closure = bytes; abort_cause = cause })
        ≡ ok (record v {
          closure = record (v.closure) { output_result = some (abort_metadata cause principal) };
        })
  unfolding from_execution_model
  abort_view x closure bytes cause principal v old new view = ground arith

  -- Right after it the abort is what a caller sees of the row, and all else is as it was seen before.
  pub set_execution_aborted-view :
      (x y : Execution) (cause principal : String) (v : ExecutionView)
      → set_execution_aborted w x cause principal ≡ ok y
      → from_execution_model w x ≡ ok v
      → from_execution_model w y
        ≡ ok (record v {
          closure = record (v.closure) { output_result = some (abort_metadata cause principal) };
        })
  unfolding set_execution_aborted from_execution_model
  set_execution_aborted-view x y cause principal v h view =
      let (closure, c, h1) = >>=-eq-ok (or_fail (w.unmarshal_closure x.closure) internal) _ h in
      let (bytes, b, h2) = >>=-eq-ok (or_fail (w.marshal_closure _) internal) _ h1 in
      rw (← ok-injective h2) (
        abort_view x closure bytes cause principal v (or_fail-eq-ok _ _ c)
          (lawful.unmarshal-closure _ bytes (or_fail-eq-ok _ _ b)) view)
