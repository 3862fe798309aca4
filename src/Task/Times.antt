-- ===== src/Task/Times.antt =====
-- When a task has a start time and a duration
-- (`UpdateTaskExecutionModel` in pkg/repositories/transformers/task_execution.go).
use flyteadmin.Common.{
  eq_iff, ◌⊎◌, ◌≢◌, ℕ, ℤ, Option, some, none, Bool, true, false, ok, or_fail, internal, ◌≡◌, sym,
  ap, ◌∙◌, >>=-eq-ok, or_fail-eq-ok, ok-injective, sub_time, arith,
}
use flyteadmin.Execution.{InlineEventDataPolicy}
use flyteadmin.Task.{
  task_running, task_undefined, task_queued, TaskClosure, TaskEvent, TaskExecution, TaskWire,
  is_task_execution_terminal,
}
use flyteadmin.Task.Rows.{
  update_task_execution_model, seal_updated, add_task_started_state, add_task_terminal_state,
  add_duration, add_output, starts, advance_row, advance_closure, merge_custom,
}

-- The start time of a row after an event, and its duration.
abbrev start_after : (starts : Bool) → (occurred old : Option ℕ) → Option ℕ
start_after true occurred old = occurred
start_after false occurred old = old

abbrev duration_after : (ends : Bool) → (started occurred : Option ℕ) → ℤ → ℤ
duration_after false started occurred old = old
duration_after true none occurred old = old
duration_after true (some s) none old = old
duration_after true (some s) (some t) old = sub_time t s

-- The start time and the duration that an event leaves in a row.
pub record TaskTimes (w : TaskWire) (e : TaskEvent) (row x : TaskExecution) : Type 0 where
  pub started :
      (row.phase ≡ w.phase_name task_queued) ⊎ (row.phase ≡ w.phase_name task_undefined)
      → e.phase ≡ task_running
      → x.started_at ≡ w.timestamp e.occurred_at
  pub from_other_phase :
      row.phase ≢ w.phase_name task_queued
      → row.phase ≢ w.phase_name task_undefined
      → x.started_at ≡ row.started_at
  pub to_other_phase :
      w.phase_name e.phase ≢ w.phase_name task_running → x.started_at ≡ row.started_at
  pub ended :
      is_task_execution_terminal e.phase ≡ true
      → (s t : ℕ) → x.started_at ≡ some s
      → w.timestamp e.occurred_at ≡ some t
      → x.duration ≡ sub_time t s
  pub ended_unstarted :
      is_task_execution_terminal e.phase ≡ true → x.started_at ≡ none → x.duration ≡ row.duration
  pub running_on : is_task_execution_terminal e.phase ≡ false → x.duration ≡ row.duration

module _ (w : TaskWire) where
  add_task_started_state-row :
      (b : Bool) (e : TaskEvent) (x y : TaskExecution) (c d : TaskClosure)
      → add_task_started_state w b e x c ≡ ok (y, d)
      → (y.started_at ≡ start_after b (w.timestamp e.occurred_at) x.started_at)
        × (y.duration ≡ x.duration)
  unfolding add_task_started_state
  add_task_started_state-row false e x y c d h = (ground arith, ground arith)
  add_task_started_state-row true e x y c d h =
      let (t, at, h1) = >>=-eq-ok (or_fail (w.timestamp e.occurred_at) internal) _ h in
      (
        ap (λ p. p.0.started_at) (sym (ok-injective h1))
            ∙ sym (or_fail-eq-ok (w.timestamp e.occurred_at) internal at),
        ap (λ p. p.0.duration) (sym (ok-injective h1)),
      )

  add_duration-row :
      (s : Option ℕ) (e : TaskEvent) (x y : TaskExecution) (c d : TaskClosure)
      → add_duration w s e x c ≡ ok (y, d)
      → (y.started_at ≡ x.started_at)
        × (y.duration ≡ duration_after true s (w.timestamp e.occurred_at) x.duration)
  unfolding add_duration
  add_duration-row none e x y c d h = (
    ap (λ p. p.0.started_at) (sym (ok-injective h)),
    ap (λ p. p.0.duration) (sym (ok-injective h)),
  )
  add_duration-row (some s) e x y c d h =
      let (t, at, h1) = >>=-eq-ok (or_fail (w.timestamp e.occurred_at) internal) _ h in
      let (stamp, _, h2) = >>=-eq-ok (or_fail (w.timestamp_proto s) internal) _ h1 in
      (
        ap (λ p. p.0.started_at) (sym (ok-injective h2)),
        ap (λ p. p.0.duration) (sym (ok-injective h2))
            ∙ ap (λ o. duration_after true (some s) o x.duration)
                (sym (or_fail-eq-ok (w.timestamp e.occurred_at) internal at)),
      )

  add_task_terminal_state-row :
      (b : Bool) (policy : InlineEventDataPolicy) (e : TaskEvent) (x y : TaskExecution)
      (c d : TaskClosure)
      → add_task_terminal_state w b policy e x c ≡ ok (y, d)
      → (y.started_at ≡ x.started_at)
        × (y.duration ≡ duration_after b x.started_at (w.timestamp e.occurred_at) x.duration)
  unfolding add_task_terminal_state
  add_task_terminal_state-row false policy e x y c d h = (
    ap (λ p. p.0.started_at) (sym (ok-injective h)),
    ap (λ p. p.0.duration) (sym (ok-injective h)),
  )
  add_task_terminal_state-row true policy e x y c d h =
      let ((z, f), timed, h1) = >>=-eq-ok (add_duration w x.started_at e x c) _ h in
      let (g, _, h2) = >>=-eq-ok (add_output w policy e e.output f) _ h1 in
      let (start, duration) = add_duration-row x.started_at e x z c f timed in
      (
        ap (λ p. p.0.started_at) (sym (ok-injective h2)) ∙ start,
        ap (λ p. p.0.duration) (sym (ok-injective h2)) ∙ duration,
      )

  seal_updated-row :
      (e : TaskEvent) (x y : TaskExecution) (c : TaskClosure)
      → seal_updated w e x c ≡ ok y
      → (y.started_at ≡ x.started_at) × (y.duration ≡ x.duration)
  unfolding seal_updated
  seal_updated-row e x y c h =
      let (m, _, h1) = >>=-eq-ok (merge_custom w c.custom_info e.custom_info) _ h in
      let (b, _, h2) =
        >>=-eq-ok (or_fail (w.marshal_closure (record c { custom_info = m })) internal) _ h1 in
      let (t, _, h3) = >>=-eq-ok (or_fail (w.timestamp e.occurred_at) internal) _ h2 in
      (ap (λ r. r.started_at) (sym (ok-injective h3)), ap (λ r. r.duration) (sym (ok-injective h3)))

  update_task_execution_model-row :
      (policy : InlineEventDataPolicy) (e : TaskEvent) (row x : TaskExecution)
      → update_task_execution_model w policy e row ≡ ok x
      → (x.started_at ≡ start_after (starts w row e) (w.timestamp e.occurred_at) row.started_at)
        × (x.duration
            ≡ duration_after
                (is_task_execution_terminal e.phase)
                x.started_at
                (w.timestamp e.occurred_at)
                row.duration)
  unfolding update_task_execution_model
  update_task_execution_model-row policy e row x h =
      let (c, read, h1) = >>=-eq-ok (or_fail (w.unmarshal_closure row.closure) internal) _ h in
      let ((y, d), started, h2) =
        >>=-eq-ok
          (add_task_started_state w (starts w row e) e (advance_row w e row)
            (advance_closure w e c))
          _ h1 in
      let ((z, f), ended, h3) =
        >>=-eq-ok (add_task_terminal_state w (is_task_execution_terminal e.phase) policy e y d) _
          h2 in
      let (start, duration) =
        add_task_started_state-row (starts w row e) e (advance_row w e row) y
          (advance_closure w e c) d started in
      let (start', duration') =
        add_task_terminal_state-row (is_task_execution_terminal e.phase) policy e y z d f ended in
      let (start'', duration'') = seal_updated-row e z x f h3 in
      (
        start'' ∙ start' ∙ start,
        duration''
            ∙ duration'
            ∙ ap
                (λ o.
                  duration_after (is_task_execution_terminal e.phase) o (w.timestamp e.occurred_at)
                    y.duration)
                (sym (start'' ∙ start'))
            ∙ ap
                (λ n.
                  duration_after (is_task_execution_terminal e.phase) x.started_at
                    (w.timestamp e.occurred_at) n)
                duration,
      )

  starts-queued :
      (row : TaskExecution) (e : TaskEvent)
      → (row.phase ≡ w.phase_name task_queued) ⊎ (row.phase ≡ w.phase_name task_undefined)
      → e.phase ≡ task_running
      → starts w row e ≡ true
  starts-queued row e from to = ground (
    arith,
    eq_iff row.phase (w.phase_name task_queued),
    eq_iff row.phase (w.phase_name task_undefined),
    eq_iff (w.phase_name e.phase) (w.phase_name task_running),
    ap w.phase_name to,
    from,
  )

  starts-other :
      (row : TaskExecution) (e : TaskEvent)
      → row.phase ≢ w.phase_name task_queued
      → row.phase ≢ w.phase_name task_undefined
      → starts w row e ≡ false
  starts-other row e q u = ground (
    arith,
    eq_iff row.phase (w.phase_name task_queued),
    eq_iff row.phase (w.phase_name task_undefined),
  )

  starts-elsewhere :
      (row : TaskExecution) (e : TaskEvent)
      → w.phase_name e.phase ≢ w.phase_name task_running
      → starts w row e ≡ false
  starts-elsewhere row e r =
      ground (arith, eq_iff (w.phase_name e.phase) (w.phase_name task_running))

  -- An event that changes a row sets the start time of the row to its own time if it is of the
  -- running phase and the phase on record is queued or undefined. From any other phase on record, and
  -- for an event of another phase, the start time stays as it was, also where there is none. An event
  -- of a terminal phase sets the duration to the time from the start time, if there is one, to its
  -- own; otherwise the duration stays.
  pub update-times :
      (policy : InlineEventDataPolicy) (e : TaskEvent) (row x : TaskExecution)
      → update_task_execution_model w policy e row ≡ ok x
      → TaskTimes w e row x
  update-times policy e row x h =
      let (start, duration) = update_task_execution_model-row policy e row x h in
      let now = w.timestamp e.occurred_at in
      record {
        started = λ from to.
            start ∙ ap (λ b. start_after b now row.started_at) (starts-queued row e from to);
        from_other_phase =
            λ q u. start ∙ ap (λ b. start_after b now row.started_at) (starts-other row e q u);
        to_other_phase =
            λ r. start ∙ ap (λ b. start_after b now row.started_at) (starts-elsewhere row e r);
        ended = λ over s t from at.
            duration
            ∙ ap (λ b. duration_after b x.started_at now row.duration) over
            ∙ ap (λ o. duration_after true o now row.duration) from
            ∙ ap (λ o. duration_after true (some s) o row.duration) at;
        ended_unstarted = λ over from.
            duration
            ∙ ap (λ b. duration_after b x.started_at now row.duration) over
            ∙ ap (λ o. duration_after true o now row.duration) from;
        running_on = λ on. duration ∙ ap (λ b. duration_after b x.started_at now row.duration) on;
      }
