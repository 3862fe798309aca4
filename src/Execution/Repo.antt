-- ===== src/Execution/Repo.antt =====
-- The table of executions, as the handlers use it (pkg/repositories/gormimpl/execution_repo.go).
-- The queries are those of the gorm library and of the database: they are parameters.
use flyteadmin.Common.{
  String, Option, some, none, Bool, ◌&&◌, List, ◌≡◌, Result, ok, str_eq, if◌then◌else◌, ℤ, pos, ℕ,
  ◌==◌, negsuc, not, true,
}
use flyteadmin.Execution.{Bytes, ExecutionKey, Execution}

unfoldable pub same_key : ExecutionKey → ExecutionKey → Bool
same_key a b = str_eq a.project b.project && str_eq a.domain b.domain && str_eq a.name b.name

pub record Repo : Type 0 where
  pub get : List Execution → ExecutionKey → Result Execution
  pub update : List Execution → Execution → Result (List Execution)

abbrev pub keep_text : String → String → String
keep_text old new = if str_eq new "" then old else new

abbrev pub keep_bytes : Bytes → Bytes → Bytes
keep_bytes old List.[] = old
keep_bytes old (List.◌∷◌ b bs) = List.◌∷◌ b bs

abbrev pub keep_option {ℓ} : {A : Type ℓ} → Option A → Option A → Option A
keep_option old none = old
keep_option old (some a) = some a

abbrev pub keep_number : ℕ → ℕ → ℕ
keep_number old new = if new == 0 then old else new

abbrev pub is_zero : ℤ → Bool
is_zero (pos n) = n == 0
is_zero (negsuc n) = Bool.false

-- What gorm's `Updates` with a struct documents: a column is written where the field is not the
-- zero value of its type.
abbrev pub overlay : Execution → Execution → Execution
overlay old new = record {
  key = new.key;
  launch_plan_id = keep_number old.launch_plan_id new.launch_plan_id;
  workflow_id = keep_number old.workflow_id new.workflow_id;
  task_id = keep_number old.task_id new.task_id;
  phase = keep_text old.phase new.phase;
  closure = keep_bytes old.closure new.closure;
  spec = keep_bytes old.spec new.spec;
  started_at = keep_option old.started_at new.started_at;
  execution_created_at = keep_option old.execution_created_at new.execution_created_at;
  execution_updated_at = keep_option old.execution_updated_at new.execution_updated_at;
  duration = if is_zero new.duration then old.duration else new.duration;
  abort_cause = keep_text old.abort_cause new.abort_cause;
  mode = keep_number old.mode new.mode;
  source_execution_id = keep_number old.source_execution_id new.source_execution_id;
  parent_node_execution_id = keep_number old.parent_node_execution_id new.parent_node_execution_id;
  cluster = keep_text old.cluster new.cluster;
  inputs_uri = keep_text old.inputs_uri new.inputs_uri;
  user_inputs_uri = keep_text old.user_inputs_uri new.user_inputs_uri;
  error_kind = keep_option old.error_kind new.error_kind;
  error_code = keep_option old.error_code new.error_code;
  user = keep_text old.user new.user;
}

-- gorm leaves an empty field of a struct out of the condition of a query, so only a key without an
-- empty part names one row.
unfoldable pub is_full_key : ExecutionKey → Bool
is_full_key k = not (str_eq k.project "") && not (str_eq k.domain "") && not (str_eq k.name "")

-- What the handlers rely on, for keys that have no empty part: a row is found under its own key, and
-- a successful update writes the row of its key and no other.
pub record IsRepo (r : Repo) : Type 0 where
  pub get-key :
      (t : List Execution) (k : ExecutionKey) (x : Execution)
      → is_full_key k ≡ true
      → r.get t k ≡ ok x
      → x.key ≡ k
  pub get-update :
      (t t' : List Execution) (x old : Execution) (k : ExecutionKey)
      → is_full_key x.key ≡ true
      → is_full_key k ≡ true
      → r.update t x ≡ ok t'
      → r.get t x.key ≡ ok old
      → r.get t' k ≡ (if same_key x.key k then ok (overlay old x) else r.get t k)
