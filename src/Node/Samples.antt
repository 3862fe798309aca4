-- ===== src/Node/Samples.antt =====
-- A table of node executions with room for one row, and the events that the tests send
-- (pkg/manager/impl/node_execution_manager.go).
use flyteadmin.Execution.Repo.{Repo}
use flyteadmin.Execution.{store_inline, Execution}
use flyteadmin.Common.{
  ◌≡◌, refl, sym, ap, ◌∙◌, some, none, ok, err, Result, List, [], ◌∷◌, String, Bool, true, false,
  if◌then◌else◌, new_flyte_admin_error, not_found, internal, ok-injective, str_eq, pos, ◌+◌, ◌*◌,
}
use flyteadmin.Phase.{NodePhase, node_undefined, node_running, node_succeeded}
use flyteadmin.Node.{
  NodeExecution, NodeExecutionKey, same_node, NodeWire, NodeClosure, NodeEvent, no_target,
}
use flyteadmin.Node.Store.{NodeDb, IsNodeDb, overlay_node, NodeConfig, NodeState}
use flyteadmin.Node.Recorded.{same_node-eq}

abbrev get_if : Bool → NodeExecution → Result NodeExecution
get_if true x = ok x
get_if false x = err (new_flyte_admin_error not_found)

abbrev get_node : List NodeExecution → NodeExecutionKey → Result NodeExecution
get_node [] k = err (new_flyte_admin_error not_found)
get_node (x ∷ t) k = get_if (same_node x.key k) x

abbrev create_node : List NodeExecution → NodeExecution → Result (List NodeExecution)
create_node [] x = ok (record x { id = 1 } ∷ [])
create_node (y ∷ t) x = err (new_flyte_admin_error internal)

abbrev update_if : Bool → NodeExecution → NodeExecution → Result (List NodeExecution)
update_if true y x = ok (overlay_node y x ∷ [])
update_if false y x = err (new_flyte_admin_error internal)

abbrev update_node : List NodeExecution → NodeExecution → Result (List NodeExecution)
update_node [] x = err (new_flyte_admin_error internal)
update_node (y ∷ t) x = update_if (same_node y.key x.key) y x

abbrev pub node_db : NodeDb
node_db = record { next_id = λ t. 1; get = get_node; create = create_node; update = update_node }

get_if-ok : (b : Bool) (x y : NodeExecution) → get_if b x ≡ ok y → (b ≡ true) × (x ≡ y)
get_if-ok true x y h = (refl, ok-injective h)
get_if-ok false x y h = absurd (cc h)

get_node-key :
    (t : List NodeExecution) (k : NodeExecutionKey) (x : NodeExecution)
    → get_node t k ≡ ok x
    → x.key ≡ k
get_node-key [] k x h = absurd (cc h)
get_node-key (y ∷ t) k x h =
    let (b, same) = get_if-ok (same_node y.key k) y x h in
    ap (λ r. r.key) (sym same) ∙ same_node-eq y.key k b

branch :
    (b : Bool) (x : NodeExecution)
    → get_if b x ≡ (if b then ok x else err (new_flyte_admin_error not_found))
branch true x = refl
branch false x = refl

create_node-rows :
    (t t' : List NodeExecution) (x : NodeExecution) (k : NodeExecutionKey)
    → create_node t x ≡ ok t'
    → get_node t' k ≡ (if same_node x.key k then ok (record x { id = 1 }) else get_node t k)
create_node-rows [] t' x k h =
    ap (λ s. get_node s k) (sym (ok-injective h)) ∙ branch (same_node x.key k) (record x { id = 1 })
create_node-rows (y ∷ t) t' x k h = absurd (cc h)

updated_row :
    (b c : Bool) (y x old : NodeExecution)
    → b ≡ c
    → y ≡ old
    → get_if b (overlay_node y x) ≡ (if c then ok (overlay_node old x) else get_if b y)
updated_row true true y x old e same = ap (λ z. ok (overlay_node z x)) same
updated_row true false y x old e same = absurd (cc e)
updated_row false true y x old e same = absurd (cc e)
updated_row false false y x old e same = refl

update_node-rows :
    (t t' : List NodeExecution) (x old : NodeExecution) (k : NodeExecutionKey)
    → update_node t x ≡ ok t'
    → get_node t x.key ≡ ok old
    → get_node t' k ≡ (if same_node x.key k then ok (overlay_node old x) else get_node t k)
update_node-rows [] t' x old k h found = absurd (cc h)
update_node-rows (y ∷ t) t' x old k h found =
    let (b, same) = get_if-ok (same_node y.key x.key) y old found in
    let key = ap (λ j. same_node j k) (same_node-eq y.key x.key b) in
    let table = ok-injective (sym (ap (λ c. update_if c y x) b) ∙ h) in
    ap (λ s. get_node s k) (sym table)
    ∙ ap (λ c. get_if c (overlay_node y x)) (sym key)
    ∙ updated_row (same_node y.key k) (same_node x.key k) y x old key same

pub node_db-IsNodeDb : IsNodeDb node_db
node_db-IsNodeDb = record {
  get-key = λ t k x full found. get_node-key t k x found;
  get-create = λ t t' x k full_x full_k made. create_node-rows t t' x k made;
  get-update =
      λ t t' x old k full_x full_k stored found. update_node-rows t t' x old k stored found;
}

abbrev name_of_phase : NodePhase → String
name_of_phase node_running = "RUNNING"
name_of_phase node_succeeded = "SUCCEEDED"
name_of_phase _ = "UNDEFINED"

abbrev phase_of_name : String → NodePhase
phase_of_name s =
    if str_eq s "RUNNING"
    then node_running
    else if str_eq s "SUCCEEDED"
    then node_succeeded
    else node_undefined

abbrev pub closure_sample : NodeClosure
closure_sample = record {
  phase = node_running;
  created_at = none;
  updated_at = none;
  started_at = some (record { seconds = 0; nanos = 5 });
  duration = none;
  output_result = none;
  target_metadata = none;
}

abbrev pub node_wire : NodeWire
node_wire = record {
  phase_name = name_of_phase;
  phase_value = phase_of_name;
  timestamp = λ s. elim s [ none ↦ none | some t ↦ some (t.seconds * 1000000000 + t.nanos) ];
  timestamp_proto = λ t. some (record { seconds = 0; nanos = t });
  marshal_closure = λ c. some (1 ∷ []);
  unmarshal_closure = λ b. some closure_sample;
  marshal_metadata = λ m. some (2 ∷ []);
  unmarshal_metadata =
      λ b. some (record { retry_group = ""; spec_node_id = ""; is_parent_node = false });
  size = λ l. 0;
  construct_reference = λ keys. some "s3://bucket";
  write_protobuf = λ uri l. some tt;
}

abbrev pub node_key : NodeExecutionKey
node_key = record { execution = record { project = "p"; domain = "d"; name = "e" }; node_id = "n" }

abbrev pub ran : NodeEvent
ran = record {
  id = node_key;
  producer_id = "propeller";
  phase = node_succeeded;
  occurred_at = some (record { seconds = 0; nanos = 9 });
  input_uri = "";
  output = none;
  target = no_target;
  parent_task = none;
  parent_node = none;
  retry_group = "";
  spec_node_id = "n";
}

abbrev pub started : NodeEvent
started = record ran {
  phase = node_running;
  occurred_at = some (record { seconds = 0; nanos = 5 });
}

abbrev pub execution_sample : Execution
execution_sample = record {
  key = node_key.execution;
  launch_plan_id = 1;
  workflow_id = 1;
  task_id = 0;
  phase = "RUNNING";
  closure = [];
  spec = [];
  started_at = none;
  execution_created_at = none;
  execution_updated_at = none;
  duration = pos 0;
  abort_cause = "";
  mode = 0;
  source_execution_id = 0;
  parent_node_execution_id = 0;
  cluster = "";
  inputs_uri = "";
  user_inputs_uri = "";
  error_kind = none;
  error_code = none;
  user = "";
}

abbrev pub executions_db : Repo
executions_db = record { get = λ t k. ok execution_sample; update = λ t x. ok t }

abbrev pub node_config : NodeConfig
node_config = record {
  policy = store_inline;
  storage_prefix = [];
  get_task_execution = λ t. ok 4;
  delivers = λ trace. true;
}

abbrev pub no_nodes : NodeState
no_nodes = record { executions = []; nodes = []; trace = [] }
