-- ===== src/Execution/Stages.antt =====
-- The stages of `update_execution_model_state`: what each leaves alone, and what the whole does.
use flyteadmin.Phase.{running, same_phase, is_execution_terminal}
use flyteadmin.Common.{false, sub_time, true, ◌≢◌, ok-injective, some, none, ◌≡◌, ok, arith}
use flyteadmin.Common.{ok-injective, ℕ, or_fail, >>=-eq-ok, or_fail-eq-ok, internal}
use flyteadmin.Execution.{IsWire, Bytes}
use flyteadmin.Execution.{
  ExecutionKey, Execution, ExecutionClosure, WorkflowEvent, InlineEventDataPolicy, Wire,
}
use flyteadmin.Execution.Update.{
  mark_times, update_execution_model_state, reassign_cluster, accept_cluster, record_output,
}

-- What `mark_times` makes of the row and of the closure.
abbrev pub timed :
    Wire → WorkflowEvent → ℕ → Execution → ExecutionClosure → Execution × ExecutionClosure
timed w e now x c =
    mark_times w e now (record x { phase = w.phase_name e.phase; execution_updated_at = some now })
      (record c { phase = e.phase; updated_at = e.occurred_at })

module _ (w : Wire) where
  -- The cluster check changes the cluster and the spec at most.
  accept_cluster_keeps :
      (e : WorkflowEvent) (x y : Execution)
      → accept_cluster w e x ≡ ok y
      → y ≡ record x { cluster = y.cluster; spec = y.spec }
  unfolding accept_cluster reassign_cluster
  accept_cluster_keeps e x y h = ground arith

  -- The output changes the error columns and the closure's result at most.
  pub record_output_keeps :
      (policy : InlineEventDataPolicy) (id : ExecutionKey) (e : WorkflowEvent) (x y : Execution)
      (c d : ExecutionClosure)
      → record_output w policy id e x c ≡ ok (y, d)
      → (y ≡ record x { error_kind = y.error_kind; error_code = y.error_code })
        × (d ≡ record c { output_result = d.output_result })
  unfolding record_output
  record_output_keeps policy id e x y c d h = ground arith

-- Each stage of a successful update, with what it was given and what it gave.
pub record Stages (w : Wire) (policy : InlineEventDataPolicy) (id : ExecutionKey)
    (e : WorkflowEvent) (x y : Execution) : Type 0 where
  pub old : ExecutionClosure
  pub now : ℕ
  pub placed : Execution
  pub final : Execution
  pub new : ExecutionClosure
  pub bytes : Bytes
  pub readable : w.unmarshal_closure x.closure ≡ some old
  pub occurred : w.timestamp e.occurred_at ≡ some now
  pub accepted : accept_cluster w e (timed w e now x old).0 ≡ ok placed
  pub recorded : record_output w policy id e placed (timed w e now x old).1 ≡ ok (final, new)
  pub written : w.marshal_closure new ≡ some bytes
  pub result : record final { closure = bytes } ≡ y

-- The times touch neither the cluster nor the spec, and the phase is the event's.
pub timed_keeps :
    (w : Wire) (e : WorkflowEvent) (now : ℕ) (x : Execution) (c : ExecutionClosure)
    → ((timed w e now x c).0.cluster ≡ x.cluster)
      × ((timed w e now x c).0.spec ≡ x.spec)
      × ((timed w e now x c).0.phase ≡ w.phase_name e.phase)
unfolding mark_times
timed_keeps w e now x c = ground arith

pub update-Stages :
    (w : Wire) (policy : InlineEventDataPolicy) (id : ExecutionKey) (e : WorkflowEvent)
    (x y : Execution)
    → update_execution_model_state w policy id e x ≡ ok y
    → Stages w policy id e x y
unfolding update_execution_model_state
update-Stages w policy id e x y h =
    let (old, read, h1) = >>=-eq-ok (or_fail (w.unmarshal_closure x.closure) internal) _ h in
    let (now, at, h2) = >>=-eq-ok (or_fail (w.timestamp e.occurred_at) internal) _ h1 in
    let (placed, accepted, h3) = >>=-eq-ok (accept_cluster w e (timed w e now x old).0) _ h2 in
    let ((final, new), recorded, h4) =
      >>=-eq-ok (record_output w policy id e placed (timed w e now x old).1) _ h3 in
    let (bytes, written, h5) = >>=-eq-ok (or_fail (w.marshal_closure new) internal) _ h4 in
    record {
      old = old;
      now = now;
      placed = placed;
      final = final;
      new = new;
      bytes = bytes;
      readable = or_fail-eq-ok _ _ read;
      occurred = or_fail-eq-ok _ _ at;
      accepted = accepted;
      recorded = recorded;
      written = or_fail-eq-ok _ _ written;
      result = ok-injective h5;
    }

-- What an update records of the event, where it succeeds.
pub record Recorded (w : Wire) (e : WorkflowEvent) (x y : Execution) : Type 0 where
  pub old : ExecutionClosure
  pub new : ExecutionClosure
  pub now : ℕ
  pub old_read : w.unmarshal_closure x.closure ≡ some old
  pub new_read : w.unmarshal_closure y.closure ≡ some new
  pub occurred : w.timestamp e.occurred_at ≡ some now
  -- the row and the closure name the event's phase and time
  pub row_phase : y.phase ≡ w.phase_name e.phase
  pub closure_phase : new.phase ≡ e.phase
  pub row_updated : y.execution_updated_at ≡ some now
  pub closure_updated : new.updated_at ≡ e.occurred_at
  -- a running event sets the start
  pub row_start : e.phase ≡ running → y.started_at ≡ some now
  pub closure_start : e.phase ≡ running → new.started_at ≡ e.occurred_at
  -- and no other event touches it
  pub row_start_kept : e.phase ≢ running → y.started_at ≡ x.started_at
  pub closure_start_kept : e.phase ≢ running → new.started_at ≡ old.started_at
  -- a terminal event of a started execution sets the duration, in both places
  pub ended :
      is_execution_terminal e.phase ≡ true
      → (s : ℕ) → x.started_at ≡ some s
      → (y.duration ≡ sub_time now s) × (new.duration ≡ some (sub_time now s))
  -- and no other event touches it
  pub never_started :
      x.started_at ≡ none → (y.duration ≡ x.duration) × (new.duration ≡ old.duration)
  pub running_on :
      is_execution_terminal e.phase ≡ false
      → (y.duration ≡ x.duration) × (new.duration ≡ old.duration)
  -- the rest stays
  pub same_key : y.key ≡ x.key
  pub same_creation :
      (y.execution_created_at ≡ x.execution_created_at) × (new.created_at ≡ old.created_at)
  pub same_notifications : new.notifications ≡ old.notifications
  pub same_cause : y.abort_cause ≡ x.abort_cause

Stages-Recorded :
    (w : Wire) (policy : InlineEventDataPolicy) (id : ExecutionKey) (e : WorkflowEvent)
    (x y : Execution)
    → IsWire w
    → Stages w policy id e x y
    → Recorded w e x y
unfolding mark_times same_phase is_execution_terminal
Stages-Recorded w policy id e x y lawful s =
    let kept = accept_cluster_keeps w e (timed w e s.now x s.old).0 s.placed s.accepted in
    let recorded = record_output_keeps w policy id e s.placed s.final _ s.new s.recorded in
    record {
      old = s.old;
      new = s.new;
      now = s.now;
      old_read = s.readable;
      new_read = rw (← s.result) (lawful.unmarshal-closure s.new s.bytes s.written);
      occurred = s.occurred;
      row_phase = ground arith;
      closure_phase = ground arith;
      row_updated = ground arith;
      closure_updated = ground arith;
      row_start = ground arith;
      closure_start = ground arith;
      row_start_kept = ground arith;
      closure_start_kept = ground arith;
      ended = ground arith;
      never_started = ground arith;
      running_on = ground arith;
      same_key = ground arith;
      same_creation = ground arith;
      same_notifications = ground arith;
      same_cause = ground arith;
    }

-- A successful update records the event: its phase and time in the row and in the closure, the
-- start of a running execution, the duration of a started one that ends. Otherwise the
-- start and the duration stay, in both places. The key, the time of creation, the notifications and the
-- cause of an abort always stay.
pub update_execution_model_state-Recorded :
    (w : Wire) (policy : InlineEventDataPolicy) (id : ExecutionKey) (e : WorkflowEvent)
    (x y : Execution)
    → IsWire w
    → update_execution_model_state w policy id e x ≡ ok y
    → Recorded w e x y
update_execution_model_state-Recorded w policy id e x y lawful h =
    Stages-Recorded w policy id e x y lawful (update-Stages w policy id e x y h)
