-- ===== src/Execution/Update.antt =====
-- What an event changes in the row of its execution (pkg/repositories/transformers/execution.go
-- and pkg/common/data_store.go).
use flyteadmin.Common.{
  ℕ, String, List, [], ◌∷◌, some, none, Bool, not, ◌||◌, Result, ok, err, or_fail, ◌>>=◌, internal,
  new_incompatible_cluster_error, str_eq, if◌then◌else◌, sub_time,
}
use flyteadmin.Phase.{undefined, queued, running, is_execution_terminal, same_phase}
use flyteadmin.Execution.{
  LiteralMap, ExecutionKey, outputs, output_data, failure, abort_metadata, event_uri, event_data,
  event_error, ExecutionClosure, ExecutionSpec, Execution, WorkflowEvent, InlineEventDataPolicy,
  offload, store_inline, Wire,
}

abbrev pub default_producer_id : String
default_producer_id = "propeller"

module _ (w : Wire) where
  -- `OffloadLiteralMap`, of a map that is not nil.
  unfoldable pub offload_literal_map : LiteralMap → List String → Result String
  offload_literal_map literals nested_keys = do
    uri ← or_fail (w.construct_reference ("metadata" ∷ nested_keys)) internal
    written ← or_fail (w.write_protobuf uri literals) internal
    ok uri

  -- `clusterReassignablePhases.Has`.
  unfoldable pub is_cluster_reassignable : String → Bool
  is_cluster_reassignable phase =
      str_eq phase (w.phase_name undefined) || str_eq phase (w.phase_name queued)

  abbrev with_cluster : String → ExecutionSpec → ExecutionSpec
  with_cluster cluster spec = record spec {
    metadata = elim spec.metadata [
      | none ↦ some (record { mode = 0; principal = ""; system_metadata = some cluster })
      | some m ↦ some (record m { system_metadata = some cluster })
    ];
  }

  unfoldable pub reassign_cluster : String → Execution → Result Execution
  reassign_cluster cluster execution = do
    spec ← or_fail (w.unmarshal_spec execution.spec) internal
    marshaled ← or_fail (w.marshal_spec (with_cluster cluster spec)) internal
    ok (record execution { cluster = cluster; spec = marshaled })

  -- An event without a producer, or with the default one, does not bear on the cluster.
  unfoldable pub ignore_cluster_from_event : WorkflowEvent → Bool
  ignore_cluster_from_event event =
      str_eq event.producer_id "" || str_eq event.producer_id default_producer_id

  unfoldable pub accept_cluster : WorkflowEvent → Execution → Result Execution
  accept_cluster event execution =
      if ignore_cluster_from_event event
      then ok execution
      else if is_cluster_reassignable execution.phase
      then reassign_cluster event.producer_id execution
      else if not (str_eq execution.cluster event.producer_id)
      then err (new_incompatible_cluster_error execution.cluster)
      else ok execution

  -- The times that the event sets, `now` being when it occurred.
  unfoldable pub mark_times :
      WorkflowEvent → ℕ → Execution → ExecutionClosure → Execution × ExecutionClosure
  mark_times event now execution closure =
      if same_phase event.phase running
      then (
        record execution { started_at = some now },
        record closure { started_at = event.occurred_at },
      )
      else if is_execution_terminal event.phase
      then elim execution.started_at [
        | none ↦ (execution, closure)
        | some started ↦ (
          record execution { duration = sub_time now started },
          record closure { duration = some (sub_time now started) },
        )
      ]
      else (execution, closure)

  -- The output that the event carries. An empty URI counts as none, and then, as there is no
  -- other output either, nothing is recorded.
  unfoldable pub record_output :
      InlineEventDataPolicy
      → ExecutionKey
      → WorkflowEvent
      → Execution
      → ExecutionClosure
      → Result (Execution × ExecutionClosure)
  record_output policy id event execution closure = elim event.output [
    | none ↦ ok (execution, closure)
    | some (event_uri uri) ↦
        if str_eq uri ""
        then ok (execution, closure)
        else ok (execution, record closure { output_result = some (outputs uri) })
    | some (event_data literals) ↦ elim policy [
      | store_inline ↦
          ok (execution, record closure { output_result = some (output_data literals) })
      | offload ↦
          offload_literal_map literals (id.project ∷ id.domain ∷ id.name ∷ "offloaded_outputs" ∷ [])
          >>= λ uri. ok (execution, record closure { output_result = some (outputs uri) })
    ]
    | some (event_error e) ↦ ok (
      record execution { error_kind = some e.kind; error_code = some e.code },
      record closure { output_result = some (failure e) },
    )
  ]

  unfoldable pub update_execution_model_state :
      InlineEventDataPolicy → ExecutionKey → WorkflowEvent → Execution → Result Execution
  update_execution_model_state policy id event execution = do
    closure ← or_fail (w.unmarshal_closure execution.closure) internal
    now ← or_fail (w.timestamp event.occurred_at) internal
    let (timed, timed_closure) =
        mark_times event now
          (record execution { phase = w.phase_name event.phase; execution_updated_at = some now })
          (record closure { phase = event.phase; updated_at = event.occurred_at })
    placed ← accept_cluster event timed
    (final, final_closure) ← record_output policy id event placed timed_closure
    marshaled ← or_fail (w.marshal_closure final_closure) internal
    ok (record final { closure = marshaled })

  -- The abort is recorded, and the phase stays until the engine reports it.
  unfoldable pub set_execution_aborted : Execution → String → String → Result Execution
  set_execution_aborted execution cause principal = do
    closure ← or_fail (w.unmarshal_closure execution.closure) internal
    marshaled ←
        or_fail
          (w.marshal_closure
            (record closure { output_result = some (abort_metadata cause principal) }))
          internal
    ok (record execution { closure = marshaled; abort_cause = cause })
