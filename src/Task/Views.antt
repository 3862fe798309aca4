-- ===== src/Task/Views.antt =====
-- The message that is made of the row of a task
-- (`FromTaskExecutionModel` in pkg/repositories/transformers/task_execution.go).
use flyteadmin.Task.Logs.{merge_logs}
use flyteadmin.Node.{output_uri}
use flyteadmin.Execution.{
  offload, store_inline, event_error, event_data, event_uri, Bytes, EventOutput, Stamp,
  InlineEventDataPolicy,
}
use flyteadmin.Task.Rows.{
  advance_closure, advance_row, starts, output_keys, offload_task_outputs, merge_custom,
  update_task_execution_model, add_task_started_state, add_output, seal_updated,
  add_task_terminal_state, add_duration,
}
use flyteadmin.Common.{
  ◌∙◌, or_fail-eq-ok, ok-injective, str_eq, sym, ap, >>=-eq-ok, ◌≡◌, Option, ℕ, if◌then◌else◌,
  internal, some, none, true, false, String, List, [], ◌∷◌, Bool, Result, ok, or_fail, ◌>>=◌,
  internal, ltb,
}
use flyteadmin.Task.{
  is_task_execution_terminal, TaskLog, TaskPhase, TaskEvent, TaskClosure, TaskExecution,
  TaskExecutionKey, TaskWire,
}

-- `admin.TaskExecution`.
pub record TaskView : Type 0 where
  pub id : TaskExecutionKey
  pub input_uri : String
  pub closure : TaskClosure
  pub is_parent : Bool

abbrev task_view : TaskExecution → TaskClosure → TaskView
task_view row closure = record {
  id = row.key;
  input_uri = row.input_uri;
  closure = closure;
  is_parent = ltb 0 row.child_node_execution;
}

module _ (w : TaskWire) where
  unfoldable pub from_task_execution_model : TaskExecution → Result TaskView
  from_task_execution_model row = do
    closure ← or_fail (w.unmarshal_closure row.closure) internal
    ok (task_view row closure)

  unfoldable pub from_task_execution_models : List TaskExecution → Result (List TaskView)
  unfolding from_task_execution_model
  from_task_execution_models [] = ok []
  from_task_execution_models (x ∷ xs) = do
    view ← from_task_execution_model x
    views ← from_task_execution_models xs
    ok (view ∷ views)

-- The part of a row and its closure that neither the start time, the duration nor the output of an
-- event touches.
abbrev Kept : Type 0
Kept = TaskExecutionKey × String × ℕ × TaskPhase × Option Stamp × List TaskLog × String

abbrev kept : TaskExecution → TaskClosure → Kept
kept x c = (x.key, x.phase, x.child_node_execution, c.phase, c.updated_at, c.logs, c.reason)

module _ (w : TaskWire) where
  add_task_started_state-kept :
      (b : Bool) (e : TaskEvent) (x y : TaskExecution) (c d : TaskClosure)
      → add_task_started_state w b e x c ≡ ok (y, d)
      → kept y d ≡ kept x c
  unfolding add_task_started_state
  add_task_started_state-kept false e x y c d h = ap (λ p. kept p.0 p.1) (sym (ok-injective h))
  add_task_started_state-kept true e x y c d h =
      let (t, _, h1) = >>=-eq-ok (or_fail (w.timestamp e.occurred_at) internal) _ h in
      ap (λ p. kept p.0 p.1) (sym (ok-injective h1))

  add_duration-kept :
      (s : Option ℕ) (e : TaskEvent) (x y : TaskExecution) (c d : TaskClosure)
      → add_duration w s e x c ≡ ok (y, d)
      → kept y d ≡ kept x c
  unfolding add_duration
  add_duration-kept none e x y c d h = ap (λ p. kept p.0 p.1) (sym (ok-injective h))
  add_duration-kept (some s) e x y c d h =
      let (t, _, h1) = >>=-eq-ok (or_fail (w.timestamp e.occurred_at) internal) _ h in
      let (stamp, _, h2) = >>=-eq-ok (or_fail (w.timestamp_proto s) internal) _ h1 in
      ap (λ p. kept p.0 p.1) (sym (ok-injective h2))

  uri_output-kept :
      (is_empty : Bool) (uri : String) (x : TaskExecution) (c d : TaskClosure)
      → (if is_empty then ok c else ok (record c { output_result = some (output_uri uri) })) ≡ ok d
      → kept x d ≡ kept x c
  uri_output-kept true uri x c d h = ap (kept x) (sym (ok-injective h))
  uri_output-kept false uri x c d h = ap (kept x) (sym (ok-injective h))

  add_output-kept :
      (policy : InlineEventDataPolicy) (e : TaskEvent) (o : Option EventOutput) (x : TaskExecution)
      (c d : TaskClosure)
      → add_output w policy e o c ≡ ok d
      → kept x d ≡ kept x c
  unfolding add_output
  add_output-kept policy e none x c d h = ap (kept x) (sym (ok-injective h))
  add_output-kept policy e (some (event_uri uri)) x c d h =
      uri_output-kept (str_eq uri "") uri x c d h
  add_output-kept store_inline e (some (event_data m)) x c d h = ap (kept x) (sym (ok-injective h))
  add_output-kept offload e (some (event_data m)) x c d h =
      let (uri, _, h1) = >>=-eq-ok (offload_task_outputs w m (output_keys w e)) _ h in
      ap (kept x) (sym (ok-injective h1))
  add_output-kept policy e (some (event_error m)) x c d h = ap (kept x) (sym (ok-injective h))

  add_task_terminal_state-kept :
      (b : Bool) (policy : InlineEventDataPolicy) (e : TaskEvent) (x y : TaskExecution)
      (c d : TaskClosure)
      → add_task_terminal_state w b policy e x c ≡ ok (y, d)
      → kept y d ≡ kept x c
  unfolding add_task_terminal_state
  add_task_terminal_state-kept false policy e x y c d h =
      ap (λ p. kept p.0 p.1) (sym (ok-injective h))
  add_task_terminal_state-kept true policy e x y c d h =
      let ((z, f), timed, h1) = >>=-eq-ok (add_duration w x.started_at e x c) _ h in
      let (g, finished, h2) = >>=-eq-ok (add_output w policy e e.output f) _ h1 in
      ap (λ p. kept p.0 p.1) (sym (ok-injective h2))
      ∙ add_output-kept policy e e.output z f g finished
      ∙ add_duration-kept x.started_at e x z c f timed

  from_task-ok :
      (x : TaskExecution) (c : TaskClosure)
      → w.unmarshal_closure x.closure ≡ some c
      → from_task_execution_model w x ≡ ok (task_view x c)
  unfolding from_task_execution_model
  from_task-ok x c h = ap (λ o. or_fail o internal >>= λ d. ok (task_view x d)) h

  -- What is read of a row that was sealed.
  seal_updated-read :
      (e : TaskEvent) (x y : TaskExecution) (c : TaskClosure)
      → ((d : TaskClosure) (b : Bytes)
          → w.marshal_closure d ≡ some b
          → w.unmarshal_closure b ≡ some d)
      → seal_updated w e x c ≡ ok y
      → (d : TaskClosure) × (w.unmarshal_closure y.closure ≡ some d) × (kept y d ≡ kept x c)
  unfolding seal_updated
  seal_updated-read e x y c codec h =
      let (m, _, h1) = >>=-eq-ok (merge_custom w c.custom_info e.custom_info) _ h in
      let (b, marshaled, h2) =
        >>=-eq-ok (or_fail (w.marshal_closure (record c { custom_info = m })) internal) _ h1 in
      let (t, _, h3) = >>=-eq-ok (or_fail (w.timestamp e.occurred_at) internal) _ h2 in
      let d = record c { custom_info = m } in
      let back = codec d b (or_fail-eq-ok (w.marshal_closure d) internal marshaled) in
      (
        d,
        ap (λ r. w.unmarshal_closure r.closure) (sym (ok-injective h3)) ∙ back,
        ap (λ r. kept r d) (sym (ok-injective h3)),
      )

  -- Where the codec of closures gives back what it took, an event that changes a row leaves one
  -- that can be read. Before the event it can be read too, and what is read after it has the key of
  -- the row, the event's phase and time, the logs read before merged with those of the event, and
  -- the event's reason or, where that is empty, the one read before.
  pub from-update :
      (policy : InlineEventDataPolicy) (e : TaskEvent) (row x : TaskExecution)
      → ((d : TaskClosure) (b : Bytes)
          → w.marshal_closure d ≡ some b
          → w.unmarshal_closure b ≡ some d)
      → update_task_execution_model w policy e row ≡ ok x
      → (u : TaskView) × (v : TaskView) × (from_task_execution_model w row ≡ ok u)
        × (from_task_execution_model w x ≡ ok v)
        × (v.id ≡ u.id)
        × (v.closure.phase ≡ e.phase)
        × (v.closure.updated_at ≡ e.occurred_at)
        × (v.closure.logs ≡ merge_logs u.closure.logs e.logs)
        × (v.closure.reason ≡ (if str_eq e.reason "" then u.closure.reason else e.reason))
  unfolding update_task_execution_model
  from-update policy e row x codec h =
      let (c, read, h1) = >>=-eq-ok (or_fail (w.unmarshal_closure row.closure) internal) _ h in
      let ((y, d), started, h2) =
        >>=-eq-ok
          (add_task_started_state w (starts w row e) e (advance_row w e row)
            (advance_closure w e c))
          _ h1 in
      let ((z, f), ended, h3) =
        >>=-eq-ok (add_task_terminal_state w (is_task_execution_terminal e.phase) policy e y d) _
          h2 in
      let (g, back, sealed) = seal_updated-read e z x f codec h3 in
      let same =
        sealed
        ∙ add_task_terminal_state-kept (is_task_execution_terminal e.phase) policy e y z d f ended
        ∙ add_task_started_state-kept (starts w row e) e (advance_row w e row) y
            (advance_closure w e c) d started in
      (
        task_view row c,
        task_view x g,
        from_task-ok row c (or_fail-eq-ok (w.unmarshal_closure row.closure) internal read),
        from_task-ok x g back,
        ap (λ k. k.0) same,
        ap (λ k. k.3) same,
        ap (λ k. k.4) same,
        ap (λ k. k.5) same,
        ap (λ k. k.6) same,
      )
