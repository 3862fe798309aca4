-- ===== src/Node/Terminal.antt =====
-- Which events a node accepts, and that a node that is over stays as it is
-- (`CreateNodeEvent` in pkg/manager/impl/node_execution_manager.go).
use flyteadmin.Node.Rows.{create_node_execution_model, update_node_execution_model}
use flyteadmin.Phase.{is_node_execution_terminal}
use flyteadmin.Node.Recorded.{
  create_node_execution_model-IsWritten, update_node_execution_model-IsWritten, IsWritten,
}
use flyteadmin.Node.Manager.{
  upload_if_dynamic, store_found, find_parent_node, update_node_execution_with_event, find_child,
  find_parent_task, record_node_event, settle, store_update, create_node_execution_with_event,
}
use flyteadmin.Execution.{Execution}
use flyteadmin.Node.Store.{
  is_full_node, validate_cluster, IsNodeDb, update_succeeded, already_in_terminal_status,
  NodeEffect, UpdateStatus, NodeConfig, NodeDb,
}
use flyteadmin.Execution.Repo.{Repo}
use flyteadmin.Common.{
  ◌≡◌, refl, sym, ap, ◌∙◌, inl, inr, ◌⊎◌, ok, err, Result, List, String, Bool, true, false,
  >>=-eq-ok, ok-injective, Error, if◌then◌else◌, flyte_admin, Code, new_flyte_admin_error,
  already_exists,
}
use flyteadmin.Node.{same_node_phase, NodeExecution, NodeEvent, NodeWire}

module _ (w : NodeWire) (r : Repo) (db : NodeDb) (cfg : NodeConfig) where
  -- What an event that is accepted has done to the table: it created the row of its node, or it
  -- changed the row of a node that was not over and was in another phase.
  pub record Stored (e : NodeEvent) (nodes nodes' : List NodeExecution) : Type 0 where
    pub row : NodeExecution
    pub is_written : IsWritten w e row
    pub origin :
        ((missing : Error) × (db.get nodes e.id ≡ err missing) × (db.create nodes row ≡ ok nodes'))
        ⊎ ((old : NodeExecution) × (db.get nodes e.id ≡ ok old)
            × (same_node_phase (w.phase_value old.phase) e.phase ≡ false)
            × (is_node_execution_terminal (w.phase_value old.phase) ≡ false)
            × (db.update nodes row ≡ ok nodes'))

  create_with_event-row :
      (e : NodeEvent) (dynamic : String) (nodes nodes' : List NodeExecution)
      → create_node_execution_with_event w r db cfg e dynamic nodes ≡ ok nodes'
      → (x : NodeExecution) × IsWritten w e x × (db.create nodes x ≡ ok nodes')
  unfolding create_node_execution_with_event
  create_with_event-row e dynamic nodes nodes' h =
      let (t, _, h1) = >>=-eq-ok (find_parent_task w r db cfg e) _ h in
      let (p, _, h2) = >>=-eq-ok (find_parent_node w r db cfg e nodes) _ h1 in
      let (x, made, h3) = >>=-eq-ok (create_node_execution_model w cfg.policy e t p dynamic) _ h2 in
      (x, create_node_execution_model-IsWritten w cfg.policy e t p dynamic x made, h3)

  store_update-row :
      (e : NodeEvent) (dynamic : String) (executions : List Execution) (nodes : List NodeExecution)
      (old : NodeExecution) (s : UpdateStatus)
      → old.key ≡ e.id
      → store_update w r db cfg e dynamic executions nodes old ≡ ok s
      → (x : NodeExecution) × (nodes' : List NodeExecution) × IsWritten w e x
        × (db.update nodes x ≡ ok nodes')
        × (s ≡ update_succeeded nodes')
  store_update-row e dynamic executions nodes old s key h =
      let (c, _, h1) = >>=-eq-ok (find_child w r db cfg e executions) _ h in
      let (x, made, h2) =
        >>=-eq-ok (update_node_execution_model w cfg.policy e c dynamic old) _ h1 in
      let (n, stored, h3) = >>=-eq-ok (db.update nodes x) _ h2 in
      (
        x,
        n,
        update_node_execution_model-IsWritten w cfg.policy e c dynamic old x key made,
        stored,
        sym (ok-injective h3),
      )

  choice-Stored :
      (same over : Bool) (e : NodeEvent) (dynamic : String) (executions : List Execution)
      (nodes nodes' : List NodeExecution) (old : NodeExecution) (s : UpdateStatus)
      (fx : List NodeEffect)
      → same_node_phase (w.phase_value old.phase) e.phase ≡ same
      → is_node_execution_terminal (w.phase_value old.phase) ≡ over
      → old.key ≡ e.id
      → db.get nodes e.id ≡ ok old
      → (if same
          then err (new_flyte_admin_error already_exists)
          else if over
          then ok already_in_terminal_status
          else store_update w r db cfg e dynamic executions nodes old)
        ≡ ok s
      → settle w r db cfg e s ≡ ok (nodes', fx)
      → Stored e nodes nodes'
  choice-Stored true over e dynamic executions nodes nodes' old s fx hs ho key found h g =
      absurd (cc h)
  choice-Stored false true e dynamic executions nodes nodes' old s fx hs ho key found h g =
      absurd (cc (ap (settle w r db cfg e) (ok-injective h), g))
  choice-Stored false false e dynamic executions nodes nodes' old s fx hs ho key found h g =
      let (x, n, written, stored, is_s) = store_update-row e dynamic executions nodes old s key h in
      let same_nodes =
        ap (λ (p : List NodeExecution × List NodeEffect). p.0)
          (ok-injective (ap (settle w r db cfg e) (sym is_s) ∙ g)) in
      record {
        row = x;
        is_written = written;
        origin =
            inr (old, found, hs, ho, stored ∙ ap (λ (t : List NodeExecution). ok t) same_nodes);
      }

  update_with_event-Stored :
      (lawful : IsNodeDb db) (e : NodeEvent) (full : is_full_node e.id ≡ true) (dynamic : String)
      (executions : List Execution) (nodes nodes' : List NodeExecution) (old : NodeExecution)
      (s : UpdateStatus) (fx : List NodeEffect)
      → db.get nodes e.id ≡ ok old
      → update_node_execution_with_event w r db cfg e dynamic executions nodes old ≡ ok s
      → settle w r db cfg e s ≡ ok (nodes', fx)
      → Stored e nodes nodes'
  unfolding update_node_execution_with_event
  update_with_event-Stored lawful e full dynamic executions nodes nodes' old s fx found h g =
      choice-Stored _ _ e dynamic executions nodes nodes' old s fx refl refl
        (lawful.get-key nodes e.id old full found) found h g

  store_found-Stored :
      (lawful : IsNodeDb db) (e : NodeEvent) (full : is_full_node e.id ≡ true) (dynamic : String)
      (executions : List Execution) (nodes nodes' : List NodeExecution) (fx : List NodeEffect)
      (o : Result NodeExecution)
      → db.get nodes e.id ≡ o
      → store_found w r db cfg e dynamic executions nodes o ≡ ok (nodes', fx)
      → Stored e nodes nodes'
  store_found-Stored lawful e full dynamic executions nodes nodes' fx
        (err (flyte_admin Code.not_found m)) found h =
      let (n, made, h1) =
        >>=-eq-ok (create_node_execution_with_event w r db cfg e dynamic nodes) _ h in
      let (x, written, stored) = create_with_event-row e dynamic nodes n made in
      let same_nodes = ap (λ (p : List NodeExecution × List NodeEffect). p.0) (ok-injective h1) in
      record {
        row = x;
        is_written = written;
        origin = inl (
          flyte_admin Code.not_found m,
          found,
          stored ∙ ap (λ (t : List NodeExecution). ok t) same_nodes,
        );
      }
  store_found-Stored lawful e full dynamic executions nodes nodes' fx (err m) found h =
      absurd (cc h)
  store_found-Stored lawful e full dynamic executions nodes nodes' fx (ok old) found h =
      let (s, updated, h1) =
        >>=-eq-ok (update_node_execution_with_event w r db cfg e dynamic executions nodes old) _
          h in
      update_with_event-Stored lawful e full dynamic executions nodes nodes' old s fx found updated
        h1

  pub record_node_event-Stored :
      (lawful : IsNodeDb db) (e : NodeEvent) (full : is_full_node e.id ≡ true) (x : Execution)
      (executions : List Execution) (nodes nodes' : List NodeExecution) (fx : List NodeEffect)
      → record_node_event w r db cfg e x executions nodes ≡ ok (nodes', fx)
      → Stored e nodes nodes'
  unfolding record_node_event
  record_node_event-Stored lawful e full x executions nodes nodes' fx h =
      let (u, placed, h1) = >>=-eq-ok (validate_cluster x.cluster e.producer_id) _ h in
      let (d, uploaded, h2) = >>=-eq-ok (upload_if_dynamic w r db cfg e) _ h1 in
      store_found-Stored lawful e full d executions nodes nodes' fx (db.get nodes e.id) refl h2
