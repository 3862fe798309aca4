-- ===== src/Phase.antt =====
-- The phases of executions and their terminal ones (pkg/common/executions.go).
-- The phase enumerations are generated code: each value that the program names is a constructor,
-- and `other_phase n` stands for the n-th value that it does not name.
use flyteadmin.Common.{ℕ, ◌+◌, ◌≡◌, ◌↔◌, Bool, true, false, arith, ◌==◌}

pub data WorkflowPhase : Type 0 where
  undefined queued running succeeded failed timed_out aborted : WorkflowPhase
  other_phase : ℕ → WorkflowPhase

-- `terminalExecutionPhases`; a key that the map lacks reads as false.
unfoldable pub is_execution_terminal : WorkflowPhase → Bool
is_execution_terminal succeeded = true
is_execution_terminal failed = true
is_execution_terminal timed_out = true
is_execution_terminal aborted = true
is_execution_terminal _ = false

abbrev pub index : WorkflowPhase → ℕ
index undefined = 0
index queued = 1
index running = 2
index succeeded = 3
index failed = 4
index timed_out = 5
index aborted = 6
index (other_phase n) = 7 + n

-- `==` on the enumeration.
unfoldable pub same_phase : WorkflowPhase → WorkflowPhase → Bool
same_phase p q = index p == index q

pub same_phase_iff : (p q : WorkflowPhase) → (same_phase p q ≡ true) ↔ (p ≡ q)
unfolding same_phase
same_phase_iff p q = ground arith

pub data NodePhase : Type 0 where
  node_undefined node_running node_succeeded node_failed node_timed_out node_aborted : NodePhase
  node_skipped node_recovered : NodePhase
  other_node_phase : ℕ → NodePhase

-- `terminalNodeExecutionPhases`.
unfoldable pub is_node_execution_terminal : NodePhase → Bool
is_node_execution_terminal node_succeeded = true
is_node_execution_terminal node_failed = true
is_node_execution_terminal node_timed_out = true
is_node_execution_terminal node_aborted = true
is_node_execution_terminal node_skipped = true
is_node_execution_terminal node_recovered = true
is_node_execution_terminal _ = false
