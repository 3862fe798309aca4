-- ===== src/Node/Recorded.antt =====
-- What a node event that is accepted leaves on record
-- (`CreateNodeEvent` in pkg/manager/impl/node_execution_manager.go).
use flyteadmin.Phase.{is_node_execution_terminal, node_running}
use flyteadmin.Execution.Handler.{same_key-eq, same_key_self}
use flyteadmin.Execution.{InlineEventDataPolicy}
use flyteadmin.Node.Rows.{
  new_closure, new_metadata, seal_updated, add_terminal_state, seal_created, new_row, add_state,
  update_node_execution_model, create_node_execution_model, add_node_running_state, add_output,
  add_target, add_duration,
}
use flyteadmin.Common.{
  if◌then◌else◌, ◌≡◌, refl, sym, ap, ◌∙◌, some, ok, Option, ℕ, String, Bool, true, false, >>=-eq-ok,
  or_fail-eq-ok, ok-injective, arith, eq_iff, eq_refl, internal, or_fail,
}
use flyteadmin.Node.{
  same_node_phase, ExecutionKey, same_key, NodeExecution, NodeClosure, NodeEvent, NodeWire,
  NodeExecutionKey, same_node,
}

pub same_node-eq : (a b : NodeExecutionKey) → same_node a b ≡ true → a ≡ b
unfolding same_node
same_node-eq a b h = ground (arith, same_key-eq a.execution b.execution, eq_iff a.node_id b.node_id)

pub same_node_self : (a : NodeExecutionKey) → same_node a a ≡ true
unfolding same_node
same_node_self a = rw (same_key_self a.execution, eq_refl a.node_id) refl

-- What an event writes into a row: its phase, and when it occurred.
pub record IsWritten (w : NodeWire) (event : NodeEvent) (x : NodeExecution) : Type 0 where
  pub occurred : ℕ
  pub written_key : x.key ≡ event.id
  pub written_phase : x.phase ≡ w.phase_name event.phase
  pub occurs : w.timestamp event.occurred_at ≡ some occurred
  pub written_updated : x.node_execution_updated_at ≡ some occurred

module _ (w : NodeWire) where
  add_output-row :
      (policy : InlineEventDataPolicy) (e : NodeEvent) (x y : NodeExecution) (c d : NodeClosure)
      → add_output w policy e x c ≡ ok (y, d)
      → (y.key ≡ x.key) × (y.phase ≡ x.phase)
  unfolding add_output
  add_output-row policy e x y c d h = (ground arith, ground arith)

  add_duration-row :
      (e : NodeEvent) (x y : NodeExecution) (c d : NodeClosure)
      → add_duration w e x c ≡ ok (y, d)
      → (y.key ≡ x.key) × (y.phase ≡ x.phase)
  unfolding add_duration
  add_duration-row e x y c d h = (ground arith, ground arith)

  add_node_running_state-row :
      (e : NodeEvent) (x y : NodeExecution) (c d : NodeClosure)
      → add_node_running_state w e x c ≡ ok (y, d)
      → (y.key ≡ x.key) × (y.phase ≡ x.phase)
  unfolding add_node_running_state
  add_node_running_state-row e x y c d h = (ground arith, ground arith)

  add_target-row :
      (e : NodeEvent) (t : Option ExecutionKey) (x : NodeExecution) (c : NodeClosure)
      → ((add_target w e t x c).0.key ≡ x.key) × ((add_target w e t x c).0.phase ≡ x.phase)
  unfolding add_target
  add_target-row e t x c = (ground arith, ground arith)

  add_terminal_state-row :
      (policy : InlineEventDataPolicy) (e : NodeEvent) (x y : NodeExecution) (c d : NodeClosure)
      → add_terminal_state w policy e x c ≡ ok (y, d)
      → (y.key ≡ x.key) × (y.phase ≡ x.phase)
  unfolding add_terminal_state
  add_terminal_state-row policy e x y c d h =
      let ((z, f), timed, h1) = >>=-eq-ok (add_duration w e x c) _ h in
      let (key, phase) = add_duration-row e x z c f timed in
      let (key', phase') = add_output-row policy e z y f d h1 in (key' ∙ key, phase' ∙ phase)

  state_row :
      (is_running is_over : Bool) (policy : InlineEventDataPolicy) (e : NodeEvent)
      (x y : NodeExecution) (c d : NodeClosure)
      → (if is_running
          then add_node_running_state w e x c
          else if is_over
          then add_terminal_state w policy e x c
          else ok (x, c))
        ≡ ok (y, d)
      → (y.key ≡ x.key) × (y.phase ≡ x.phase)
  state_row true is_over policy e x y c d h = add_node_running_state-row e x y c d h
  state_row false true policy e x y c d h = add_terminal_state-row policy e x y c d h
  state_row false false policy e x y c d h =
      (ap (λ p. p.0.key) (sym (ok-injective h)), ap (λ p. p.0.phase) (sym (ok-injective h)))

  add_state-row :
      (policy : InlineEventDataPolicy) (e : NodeEvent) (x y : NodeExecution) (c d : NodeClosure)
      → add_state w policy e x c ≡ ok (y, d)
      → (y.key ≡ x.key) × (y.phase ≡ x.phase)
  unfolding add_state
  add_state-row policy e x y c d h =
      state_row (same_node_phase e.phase node_running) (is_node_execution_terminal e.phase) policy e
        x y c d h

  -- What the last steps leave of the row before them.
  seal_updated-IsWritten :
      (e : NodeEvent) (dynamic : String) (y x : NodeExecution) (c : NodeClosure)
      → y.key ≡ e.id
      → y.phase ≡ w.phase_name e.phase
      → seal_updated w e dynamic y c ≡ ok x
      → IsWritten w e x
  unfolding seal_updated
  seal_updated-IsWritten e dynamic y x c key phase h =
      let (b, marshaled, h1) = >>=-eq-ok (or_fail (w.marshal_closure c) internal) _ h in
      let (now, at, h2) = >>=-eq-ok (or_fail (w.timestamp e.occurred_at) internal) _ h1 in
      record {
        occurred = now;
        written_key = ap (λ r. r.key) (sym (ok-injective h2)) ∙ key;
        written_phase = ap (λ r. r.phase) (sym (ok-injective h2)) ∙ phase;
        occurs = or_fail-eq-ok (w.timestamp e.occurred_at) internal at;
        written_updated = ap (λ r. r.node_execution_updated_at) (sym (ok-injective h2));
      }

  seal_created-IsWritten :
      (e : NodeEvent) (t p : Option ℕ) (dynamic : String) (y x : NodeExecution) (c : NodeClosure)
      → y.key ≡ e.id
      → y.phase ≡ w.phase_name e.phase
      → seal_created w e t p dynamic y c ≡ ok x
      → IsWritten w e x
  unfolding seal_created
  seal_created-IsWritten e t p dynamic y x c key phase h =
      let (b, marshaled, h1) = >>=-eq-ok (or_fail (w.marshal_closure c) internal) _ h in
      let (m, metadata, h2) =
        >>=-eq-ok (or_fail (w.marshal_metadata (new_metadata w e)) internal) _ h1 in
      let (now, at, h3) = >>=-eq-ok (or_fail (w.timestamp e.occurred_at) internal) _ h2 in
      record {
        occurred = now;
        written_key = ap (λ r. r.key) (sym (ok-injective h3)) ∙ key;
        written_phase = ap (λ r. r.phase) (sym (ok-injective h3)) ∙ phase;
        occurs = or_fail-eq-ok (w.timestamp e.occurred_at) internal at;
        written_updated = ap (λ r. r.node_execution_updated_at) (sym (ok-injective h3));
      }

  pub update_node_execution_model-IsWritten :
      (policy : InlineEventDataPolicy) (e : NodeEvent) (t : Option ExecutionKey) (dynamic : String)
      (row x : NodeExecution)
      → row.key ≡ e.id
      → update_node_execution_model w policy e t dynamic row ≡ ok x
      → IsWritten w e x
  unfolding update_node_execution_model
  update_node_execution_model-IsWritten policy e t dynamic row x key h =
      let (c, read, h1) = >>=-eq-ok (or_fail (w.unmarshal_closure row.closure) internal) _ h in
      let ((y, d), stated, h2) =
        >>=-eq-ok
          (add_state w policy e (record row { phase = w.phase_name e.phase })
            (record c { phase = e.phase; updated_at = e.occurred_at }))
          _ h1 in
      let (same_key, same_phase) = add_state-row policy e _ y _ d stated in
      let (target_key, target_phase) = add_target-row e t y d in
      seal_updated-IsWritten e dynamic (add_target w e t y d).0 x (add_target w e t y d).1
        (target_key ∙ same_key ∙ key) (target_phase ∙ same_phase) h2

  pub create_node_execution_model-IsWritten :
      (policy : InlineEventDataPolicy) (e : NodeEvent) (task_id parent_id : Option ℕ)
      (dynamic : String) (x : NodeExecution)
      → create_node_execution_model w policy e task_id parent_id dynamic ≡ ok x
      → IsWritten w e x
  unfolding create_node_execution_model
  create_node_execution_model-IsWritten policy e task_id parent_id dynamic x h =
      let ((y, d), stated, h1) =
        >>=-eq-ok (add_state w policy e (new_row w e) (new_closure w e)) _ h in
      let (same_key, same_phase) =
        add_state-row policy e (new_row w e) y (new_closure w e) d stated in
      seal_created-IsWritten e task_id parent_id dynamic y x d same_key same_phase h1
