-- ===== src/Node/Tests.antt =====
-- Tests of the handler of node events (pkg/manager/impl/node_execution_manager.go): a node that
-- starts and succeeds, and the theorems at these events.
use flyteadmin.Execution.Repo.{same_key}
use flyteadmin.Node.Rows.{update_node_execution_model, create_node_execution_model}
use flyteadmin.Phase.{is_node_execution_terminal}
use flyteadmin.Node.Store.{NodeState}
use flyteadmin.Node.Manager.{create_node_event}
use flyteadmin.Node.{same_node, same_node_phase, NodeEvent, NodeExecution}
use flyteadmin.Common.{pos, Result, ◌≡◌, refl, ok, some, none, [], ◌∷◌}
use flyteadmin.Node.Samples.{
  node_key, started, ran, node_db, node_wire, node_config, executions_db, no_nodes,
}

abbrev handle : NodeEvent → NodeState → NodeState × Result (Unit {0})
handle = create_node_event node_wire executions_db node_db node_config

abbrev after_start : NodeState
after_start = (handle started no_nodes).0

abbrev after_end : NodeState
after_end = (handle ran after_start).0

end-ok : (handle ran after_start).1 ≡ ok tt
unfolding create_node_event create_node_execution_model same_node_phase same_node same_key
    is_node_execution_terminal update_node_execution_model
end-ok = refl

abbrev ended_row : NodeExecution
ended_row = record {
  id = 1;
  key = node_key;
  phase = "SUCCEEDED";
  input_uri = "";
  closure = 1 ∷ [];
  started_at = some 5;
  node_execution_created_at = some 5;
  node_execution_updated_at = some 9;
  duration = pos 4;
  node_execution_metadata = 2 ∷ [];
  parent_id = none;
  child_node_executions = 0;
  parent_task_execution_id = none;
  error_kind = none;
  error_code = none;
  cache_status = none;
  dynamic_workflow_remote_closure_reference = "";
}
