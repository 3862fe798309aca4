-- ===== src/Execution/Transitions.antt =====
-- The order of the phases that `create_workflow_event` accepts.
use flyteadmin.Common.{◌≡◌, ◌≢◌, ◌↔◌, ◌⊎◌, false, ok, arith}
use flyteadmin.Phase.{WorkflowPhase, queued, running, is_execution_terminal, same_phase}
use flyteadmin.Execution.{Wire}
use flyteadmin.Execution.Event.{check_transition}

-- The phases that may be recorded after `p`: none after a terminal one, no return from running to
-- queued, and a repetition of queued only.
pub record MayFollow (p q : WorkflowPhase) : Type 0 where
  pub not_over : is_execution_terminal p ≡ false
  pub forward : (p ≡ running) → q ≢ queued
  pub fresh : (p ≢ q) ⊎ (q ≡ queued)

-- An event's phase is accepted exactly when it may follow the recorded phase.
pub check_transition_iff :
    (w : Wire) (p q : WorkflowPhase) → (check_transition w p q ≡ ok tt) ↔ MayFollow p q
unfolding check_transition same_phase is_execution_terminal
check_transition_iff w p q = ground arith
