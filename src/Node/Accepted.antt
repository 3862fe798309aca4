-- ===== src/Node/Accepted.antt =====
-- The events of a node over time: an accepted one is on record, and a node that is over stays as it
-- is (`CreateNodeEvent` in pkg/manager/impl/node_execution_manager.go).
use flyteadmin.Execution.{Execution}
use flyteadmin.Node.Manager.{create_node_event}
use flyteadmin.Node.Store.{NodeState, NodeConfig, NodeDb}
use flyteadmin.Execution.Repo.{Repo}
use flyteadmin.Common.{List, [], ◌∷◌}
use flyteadmin.Node.{NodeEvent, NodeWire}

module _ (w : NodeWire) (r : Repo) (db : NodeDb) (cfg : NodeConfig) where
  -- A run of the handler over a list of events.
  unfoldable pub handle_nodes : List NodeEvent → NodeState → NodeState
  handle_nodes [] st = st
  handle_nodes (e ∷ es) st = handle_nodes es (create_node_event w r db cfg e st).0
