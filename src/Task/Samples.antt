-- ===== src/Task/Samples.antt =====
-- A codec of closures and the rows and events that the tests use
-- (pkg/repositories/transformers/task_execution.go).
use flyteadmin.Validation.{task}
use flyteadmin.Common.{
  if◌then◌else◌, ◌≡◌, refl, sym, ap, ◌∙◌, some, none, [], ◌∷◌, Option, Bool, true, false, List,
  String, ℕ, pos, str_eq, ◌&&◌, arith, eq_iff, ◌+◌, ◌*◌, some-equal,
}
use flyteadmin.Execution.{Bytes, Stamp}
use flyteadmin.Task.{
  other_task_phase, TaskClosure, TaskEvent, TaskExecution, TaskWire, TaskLog, TaskPhase,
  task_undefined, task_queued, task_running, task_succeeded, task_aborted, task_failed,
  is_task_running,
}

-- The closures that are written: those with a phase and a time only.
abbrev pub closure_of : TaskPhase → Stamp → TaskClosure
closure_of phase s = record {
  phase = phase;
  created_at = none;
  updated_at = some s;
  started_at = none;
  duration = none;
  output_result = none;
  logs = [];
  custom_info = none;
  reason = "";
  task_type = "";
}

abbrev is_none {ℓ} : {A : Type ℓ} → Option A → Bool
is_none none = true
is_none (some a) = false

is_none-eq {ℓ} : {A : Type ℓ} (o : Option A) → is_none o ≡ true → o ≡ none
is_none-eq none h = refl
is_none-eq (some a) h = cc

abbrev is_nil : List TaskLog → Bool
is_nil [] = true
is_nil (l ∷ ls) = false

is_nil-eq : (ls : List TaskLog) → is_nil ls ≡ true → ls ≡ []
is_nil-eq [] h = refl
is_nil-eq (l ∷ ls) h = cc

is_running-eq : (p : TaskPhase) → is_task_running p ≡ true → p ≡ task_running
is_running-eq task_running h = refl
is_running-eq task_undefined h = cc
is_running-eq task_queued h = cc
is_running-eq task_succeeded h = cc
is_running-eq task_aborted h = cc
is_running-eq task_failed h = cc
is_running-eq (other_task_phase n) h = cc

abbrev pub is_bare : TaskClosure → Bool
is_bare c =
    is_task_running c.phase
    && is_none c.created_at
    && is_none c.started_at
    && is_none c.duration
    && is_none c.output_result
    && is_nil c.logs
    && is_none c.custom_info
    && str_eq c.reason ""
    && str_eq c.task_type ""

and_true : (a b : Bool) → (a && b) ≡ true → (a ≡ true) × (b ≡ true)
and_true true b h = (refl, h)
and_true false b h = cc

bare_eq :
    (c : TaskClosure) (s : Stamp)
    → c.updated_at ≡ some s
    → is_bare c ≡ true
    → closure_of task_running s ≡ c
bare_eq c s at h =
    let facts : (is_task_running c.phase ≡ true)
        × (is_none c.created_at ≡ true)
        × (is_none c.started_at ≡ true)
        × (is_none c.duration ≡ true)
        × (is_none c.output_result ≡ true)
        × (is_nil c.logs ≡ true)
        × (is_none c.custom_info ≡ true)
        × (str_eq c.reason "" ≡ true)
        × (str_eq c.task_type "" ≡ true) =
      ground (arith, h) in
    λ k. record {
      phase = sym (is_running-eq c.phase facts.0) k;
      created_at = sym (is_none-eq c.created_at facts.1) k;
      updated_at = sym at k;
      started_at = sym (is_none-eq c.started_at facts.2) k;
      duration = sym (is_none-eq c.duration facts.3) k;
      output_result = sym (is_none-eq c.output_result facts.4) k;
      logs = sym (is_nil-eq c.logs facts.5) k;
      custom_info = sym (is_none-eq c.custom_info facts.6) k;
      reason = sym ((eq_iff c.reason "").0 facts.7) k;
      task_type = sym ((eq_iff c.task_type "").0 facts.8) k;
    }

abbrev encode_if : (bare : Bool) → Option Stamp → Option Bytes
encode_if true (some s) = some (s.seconds ∷ s.nanos ∷ [])
encode_if true none = none
encode_if false s = none

abbrev decode : Bytes → Option TaskClosure
decode (a ∷ b ∷ []) = some (closure_of task_running (record { seconds = a; nanos = b }))
decode _ = none

pub decode-encode_if :
    (c : TaskClosure) (bare : Bool) (s : Option Stamp) (b : Bytes)
    → c.updated_at ≡ s
    → is_bare c ≡ bare
    → encode_if bare s ≡ some b
    → decode b ≡ some c
decode-encode_if c true (some s) b at h e =
    ap decode (some-equal (sym e)) ∙ ap some (bare_eq c s at h)
decode-encode_if c true none b at h e = cc
decode-encode_if c false s b at h e = cc

abbrev name_of_phase : TaskPhase → String
name_of_phase task_undefined = "UNDEFINED"
name_of_phase task_queued = "QUEUED"
name_of_phase task_running = "RUNNING"
name_of_phase task_succeeded = "SUCCEEDED"
name_of_phase task_aborted = "ABORTED"
name_of_phase task_failed = "FAILED"
name_of_phase (other_task_phase n) = "INITIALIZING"

abbrev phase_of_name : String → TaskPhase
phase_of_name s =
    if str_eq s "RUNNING"
    then task_running
    else if str_eq s "SUCCEEDED"
    then task_succeeded
    else task_undefined

abbrev pub wire : TaskWire
wire = record {
  phase_name = name_of_phase;
  phase_value = phase_of_name;
  size = λ m. 0;
  timestamp = λ s. elim s [ none ↦ none | some t ↦ some (t.seconds * 1000000000 + t.nanos) ];
  timestamp_proto = λ t. some (record { seconds = 0; nanos = t });
  marshal_closure = λ c. encode_if (is_bare c) c.updated_at;
  unmarshal_closure = decode;
  to_json = λ b. some "{}";
  from_json = λ s. some [];
  json_empty = "{}";
  create_merge_patch = λ o m. some m;
  merge_patch = λ d p. some p;
  format_uint = λ n. "0";
  construct_reference = λ keys. some "s3://bucket";
  write_protobuf = λ uri l. some tt;
}

-- A wire with one closure, for events that end a task.
abbrev pub plain_wire : TaskWire
plain_wire = record wire {
  marshal_closure = λ c. some [];
  unmarshal_closure = λ b. some (closure_of task_running (record { seconds = 0; nanos = 5 }));
}

abbrev pub event : TaskPhase → ℕ → TaskEvent
event phase nanos = record {
  producer_id = "propeller";
  task_id = record {
    resource_type = task;
    project = "p";
    domain = "d";
    name = "t";
    version = "v1";
  };
  parent_node_execution_id = record {
    execution = record { project = "p"; domain = "d"; name = "e" };
    node_id = "n";
  };
  retry_attempt = 0;
  phase = phase;
  phase_version = 1;
  occurred_at = some (record { seconds = 0; nanos = nanos });
  input_uri = "";
  output = none;
  logs = [];
  custom_info = none;
  reason = "";
  task_type = "";
}

-- The row of a task in a phase, with a start time or none.
abbrev pub row_of : String → ℕ → Bytes → Option ℕ → ℕ → TaskExecution
row_of phase version closure started_at updated_at = record {
  key = record {
    project = "p";
    domain = "d";
    name = "t";
    version = "v1";
    node = record { execution = record { project = "p"; domain = "d"; name = "e" }; node_id = "n" };
    retry_attempt = 0;
  };
  phase = phase;
  phase_version = version;
  input_uri = "";
  closure = closure;
  started_at = started_at;
  task_execution_created_at = some 1;
  task_execution_updated_at = some updated_at;
  duration = pos 0;
  child_node_execution = 0;
}
