-- ===== src/Execution/Cluster.antt =====
-- Which cluster may report on an execution, and the errors that an event records.
use flyteadmin.Execution.Stages.{record_output_keeps, timed, timed_keeps, update-Stages}
use flyteadmin.Phase.{queued, undefined}
use flyteadmin.Execution.Update.{
  update_execution_model_state, ignore_cluster_from_event, accept_cluster, reassign_cluster,
  is_cluster_reassignable,
}
use flyteadmin.Execution.{
  ExecutionKey, InlineEventDataPolicy, WorkflowPhase, Execution, IsWire, WorkflowEvent, Wire,
}
use flyteadmin.Common.{◌≢◌, ap, ◌⊎◌, eq_iff, arith, false, ◌∙◌, true, sym, ok, String, ◌≡◌}

-- How a successful update treats the cluster of the row.
pub record ClusterRule (w : Wire) (e : WorkflowEvent) (x y : Execution) : Type 0 where
  pub anonymous : ignore_cluster_from_event w e ≡ true → (y.cluster ≡ x.cluster) × (y.spec ≡ x.spec)
  pub named : ignore_cluster_from_event w e ≡ false → y.cluster ≡ e.producer_id
  pub settled :
      ignore_cluster_from_event w e ≡ false
      → e.phase ≢ undefined
      → e.phase ≢ queued
      → (x.cluster ≡ e.producer_id) × (y.spec ≡ x.spec)

module _ (w : Wire) (lawful : IsWire w) where
  name-injective : (p q : WorkflowPhase) → w.phase_name p ≡ w.phase_name q → p ≡ q
  name-injective p q h = sym (lawful.value-name p) ∙ ap w.phase_value h ∙ lawful.value-name q

  reassignable_cases :
      (p : WorkflowPhase)
      → is_cluster_reassignable w (w.phase_name p) ≡ true
      → (p ≡ undefined) ⊎ (p ≡ queued)
  unfolding is_cluster_reassignable
  reassignable_cases p h = ground (
    arith,
    eq_iff (w.phase_name p) (w.phase_name undefined),
    eq_iff (w.phase_name p) (w.phase_name queued),
    name-injective p undefined,
    name-injective p queued,
  )

  reassign_cluster-cluster :
      (c : String) (x y : Execution) → reassign_cluster w c x ≡ ok y → y.cluster ≡ c
  unfolding reassign_cluster
  reassign_cluster-cluster c x y h = ground arith

  accept_cluster-ClusterRule :
      (e : WorkflowEvent) (x y : Execution)
      → x.phase ≡ w.phase_name e.phase
      → accept_cluster w e x ≡ ok y
      → ClusterRule w e x y
  unfolding accept_cluster
  accept_cluster-ClusterRule e x y phase h = record {
    anonymous = λ i. ground arith;
    named = λ i.
        ground (arith, eq_iff x.cluster e.producer_id, reassign_cluster-cluster e.producer_id x y);
    settled = λ i nu nq. ground (arith, eq_iff x.cluster e.producer_id, reassignable_cases e.phase);
  }

  -- An event that names a producer is accepted only from the cluster of the row, unless the event's
  -- phase is undefined or queued: then the producer becomes the cluster, and the spec may change. An event
  -- without a producer, or with the default one, leaves the cluster and the spec.
  pub update_execution_model_state-ClusterRule :
      (policy : InlineEventDataPolicy) (id : ExecutionKey) (e : WorkflowEvent) (x y : Execution)
      → update_execution_model_state w policy id e x ≡ ok y
      → ClusterRule w e x y
  update_execution_model_state-ClusterRule policy id e x y h =
      let s = update-Stages w policy id e x y h in
      let (same_cluster, same_spec, phase) = timed_keeps w e s.now x s.old in
      let rule =
        accept_cluster-ClusterRule e (timed w e s.now x s.old).0 s.placed phase s.accepted in
      let kept = record_output_keeps w policy id e s.placed s.final _ s.new s.recorded in
      record {
        anonymous =
            λ i. ground (arith, s.result, rule.anonymous i, kept.0, same_cluster, same_spec);
        named = λ i. ground (arith, s.result, rule.named i, kept.0);
        settled = λ i nu nq.
            ground (arith, s.result, rule.settled i nu nq, kept.0, same_cluster, same_spec);
      }
