-- ===== src/Execution/Samples.antt =====
-- A wire format and a table that keep the promises of `IsWire` and `IsRepo`, for the tests.
-- Names are in unary. A closure is written if it has no notification, no workflow, and no output
-- but one abort.
use flyteadmin.Execution.Handler.{same_key_self, same_key-eq}
use flyteadmin.Execution.Repo.{overlay, same_key, IsRepo, Repo}
use flyteadmin.Execution.{
  failure, output_data, outputs, abort_metadata, ExecutionSpec, ExecutionMetadata, ExecutionKey,
  Execution, EntityId, Notification, Stamp, OutputResult, Bytes, Wire, IsWire, ExecutionClosure,
}
use flyteadmin.Phase.{
  index, other_phase, aborted, timed_out, failed, succeeded, running, queued, undefined,
  WorkflowPhase,
}
use flyteadmin.Common.{
  ◌&&◌, Option-cases, eq_iff, str_eq, some-equal, not_found, new_flyte_admin_error, err, Result, ok,
  ◌>>=◌, inr, ok-injective, sym, false, Bool, length, ◌+◌, negsuc, ◌*◌, inl, List, pos, none,
  Bool-cases, ◌∙◌, [], true, refl, if◌then◌else◌, some, ℤ, ◌∷◌, arith, Option, ◌-◌, ◌≢◌, zero, ap,
  suc, ℕ, String, ◌≡◌,
}

abbrev unary : ℕ → String
unary zero = "x"
unary (suc n) = String.◌∷◌ "x" (unary n)

abbrev measure : String → ℕ
measure String.[] = 0
measure (String.◌∷◌ c s) = suc (measure s)

measure-unary : (n : ℕ) → measure (unary n) ≡ suc n
measure-unary zero = refl
measure-unary (suc n) = ap suc (measure-unary n)

abbrev phase_of : ℕ → WorkflowPhase
phase_of zero = undefined
phase_of (suc zero) = queued
phase_of (suc (suc zero)) = running
phase_of (suc (suc (suc zero))) = succeeded
phase_of (suc (suc (suc (suc zero)))) = failed
phase_of (suc (suc (suc (suc (suc zero))))) = timed_out
phase_of (suc (suc (suc (suc (suc (suc zero)))))) = aborted
phase_of (suc (suc (suc (suc (suc (suc (suc n))))))) = other_phase n

phase_of-index : (p : WorkflowPhase) → phase_of (index p) ≡ p
phase_of-index p = ground arith

abbrev phase_named : String → WorkflowPhase
phase_named s = phase_of (measure s - 1)

phase_named-unary : (p : WorkflowPhase) → phase_named (unary (index p)) ≡ p
phase_named-unary p = rw (measure-unary (index p)) (ap phase_of (omega arith) ∙ phase_of-index p)

unary-ne-empty : (n : ℕ) → unary n ≢ ""
unary-ne-empty n e = omega (arith, measure-unary n, ap measure e)

abbrev tag_of : Option Stamp → ℕ
tag_of none = 0
tag_of (some s) = 1

abbrev seconds_of : Option Stamp → ℕ
seconds_of none = 0
seconds_of (some s) = s.seconds

abbrev nanos_of : Option Stamp → ℕ
nanos_of none = 0
nanos_of (some s) = s.nanos

abbrev stamp_of : ℕ → ℕ → ℕ → Option Stamp
stamp_of zero s n = none
stamp_of (suc t) s n = some (record { seconds = s; nanos = n })

stamp_of-parts : (s : Option Stamp) → stamp_of (tag_of s) (seconds_of s) (nanos_of s) ≡ s
stamp_of-parts none = refl
stamp_of-parts (some s) = refl

abbrev sign_of : Option ℤ → ℕ
sign_of none = 0
sign_of (some (pos n)) = 1
sign_of (some (negsuc n)) = 2

abbrev size_of : Option ℤ → ℕ
size_of none = 0
size_of (some (pos n)) = n
size_of (some (negsuc n)) = n

abbrev duration_of : ℕ → ℕ → Option ℤ
duration_of zero n = none
duration_of (suc zero) n = some (pos n)
duration_of (suc (suc t)) n = some (negsuc n)

duration_of-parts : (d : Option ℤ) → duration_of (sign_of d) (size_of d) ≡ d
duration_of-parts none = refl
duration_of-parts (some (pos n)) = refl
duration_of-parts (some (negsuc n)) = refl

unfoldable pub is_stop : OutputResult → Bool
is_stop (abort_metadata cause principal) = str_eq cause "stop" && str_eq principal "ann"
is_stop _ = false

is_stop-eq : (o : OutputResult) → is_stop o ≡ true → o ≡ abort_metadata "stop" "ann"
unfolding is_stop
is_stop-eq (abort_metadata c p) h = ground (arith, eq_iff c "stop", eq_iff p "ann")
is_stop-eq (outputs u) h = cc
is_stop-eq (output_data d) h = cc
is_stop-eq (failure e) h = cc

abbrev is_plain : Option OutputResult → List Notification → Option EntityId → Bool
is_plain none [] none = true
is_plain (some o) [] none = is_stop o
is_plain _ _ _ = false

abbrev output_tag : Option OutputResult → ℕ
output_tag none = 0
output_tag (some o) = 1

abbrev output_of : ℕ → Option OutputResult
output_of zero = none
output_of (suc n) = some (abort_metadata "stop" "ann")

abbrev pub encode : ExecutionClosure → Bytes
encode c =
    index c.phase
    ∷ tag_of c.created_at
    ∷ seconds_of c.created_at
    ∷ nanos_of c.created_at
    ∷ tag_of c.updated_at
    ∷ seconds_of c.updated_at
    ∷ nanos_of c.updated_at
    ∷ tag_of c.started_at
    ∷ seconds_of c.started_at
    ∷ nanos_of c.started_at
    ∷ sign_of c.duration
    ∷ size_of c.duration
    ∷ output_tag c.output_result
    ∷ []

abbrev decode : Bytes → Option ExecutionClosure
decode (p ∷ c1 ∷ c2 ∷ c3 ∷ u1 ∷ u2 ∷ u3 ∷ s1 ∷ s2 ∷ s3 ∷ d1 ∷ d2 ∷ o ∷ []) = some (record {
  phase = phase_of p;
  created_at = stamp_of c1 c2 c3;
  updated_at = stamp_of u1 u2 u3;
  started_at = stamp_of s1 s2 s3;
  duration = duration_of d1 d2;
  output_result = output_of o;
  notifications = [];
  workflow_id = none;
})
decode _ = none

abbrev marshal : ExecutionClosure → Option Bytes
marshal c = if is_plain c.output_result c.notifications c.workflow_id then some (encode c) else none

is_plain-eq :
    (o : Option OutputResult) (ns : List Notification) (i : Option EntityId)
    → is_plain o ns i ≡ true
    → (output_of (output_tag o) ≡ o) × (ns ≡ []) × (i ≡ none)
is_plain-eq none [] none h = (refl, refl, refl)
is_plain-eq none [] (some i) h = cc
is_plain-eq none (n ∷ ns) i h = cc
is_plain-eq (some o) [] none h = (ap some (sym (is_stop-eq o h)), refl, refl)
is_plain-eq (some o) [] (some i) h = cc
is_plain-eq (some o) (n ∷ ns) i h = cc

decode-encode :
    (c : ExecutionClosure)
    → is_plain c.output_result c.notifications c.workflow_id ≡ true
    → decode (encode c) ≡ some c
decode-encode c h =
    let (o, n, i) = is_plain-eq c.output_result c.notifications c.workflow_id h in
    ground (
      arith,
      phase_of-index c.phase,
      stamp_of-parts c.created_at,
      stamp_of-parts c.updated_at,
      stamp_of-parts c.started_at,
      duration_of-parts c.duration,
    )

decode-marshal : (c : ExecutionClosure) (b : Bytes) → marshal c ≡ some b → decode b ≡ some c
decode-marshal c b h = elim (Bool-cases (is_plain c.output_result c.notifications c.workflow_id)) [
  | inl e ↦ ap decode (some-equal (sym (rw e at h))) ∙ decode-encode c e
  | inr e ↦ absurd (cc (rw e at h))
]

-- The one launch plan, principal and cluster whose specs are written.
abbrev pub plan : EntityId
plan = record { project = "flytesnacks"; domain = "staging"; name = "lp"; version = "v1" }

abbrev pub spec_of : ℕ → ExecutionSpec
spec_of mode = record {
  launch_plan = plan;
  metadata = some (record { mode = mode; principal = "ann"; system_metadata = some "west" });
  rest = [];
}

unfoldable pub is_plan : EntityId → Bool
is_plan i =
    str_eq i.project plan.project
    && str_eq i.domain plan.domain
    && str_eq i.name plan.name
    && str_eq i.version plan.version

is_plan-eq : (i : EntityId) → is_plan i ≡ true → i ≡ plan
unfolding is_plan
is_plan-eq i h = ground (
  arith,
  eq_iff i.project "flytesnacks",
  eq_iff i.domain "staging",
  eq_iff i.name "lp",
  eq_iff i.version "v1",
)

abbrev marshal_parts : EntityId → Option ExecutionMetadata → Bytes → Option Bytes
marshal_parts i (some m) [] = elim m.system_metadata [
  | none ↦ none
  | some c ↦
      if is_plan i && str_eq m.principal "ann" && str_eq c "west" then some (m.mode ∷ []) else none
]
marshal_parts i _ _ = none

abbrev pub decode_spec : Bytes → Option ExecutionSpec
decode_spec (m ∷ []) = some (spec_of m)
decode_spec _ = none

spec_of-eq :
    (i : EntityId) (m : ExecutionMetadata)
    → i ≡ plan
    → m.principal ≡ "ann"
    → m.system_metadata ≡ some "west"
    → spec_of m.mode ≡ record { launch_plan = i; metadata = some m; rest = [] }
spec_of-eq i m p a c = λ k. record {
  launch_plan = sym p k;
  metadata = some (record { mode = m.mode; principal = sym a k; system_metadata = sym c k });
  rest = [];
}

marshal_parts-eq :
    (i : EntityId) (o : Option ExecutionMetadata) (r b : Bytes)
    → marshal_parts i o r ≡ some b
    → decode_spec b ≡ some (record { launch_plan = i; metadata = o; rest = r })
marshal_parts-eq i none r b h = cc
marshal_parts-eq i (some m) (x ∷ r) b h = cc
marshal_parts-eq i (some m) [] b h = elim (Option-cases m.system_metadata) [
  | inl e ↦ absurd (ground (arith, e, h))
  | inr (c, e) ↦
      let facts : (b ≡ m.mode ∷ [])
          × (is_plan i ≡ true)
          × (str_eq m.principal "ann" ≡ true)
          × (str_eq c "west" ≡ true) =
        ground (arith, e, h) in
      rw facts.0 (
        ap some (
          spec_of-eq i m (is_plan-eq i facts.1) ((eq_iff m.principal "ann").0 facts.2)
            (e ∙ ap some ((eq_iff c "west").0 facts.3))))
]

decode_spec-marshal :
    (s : ExecutionSpec) (b : Bytes)
    → marshal_parts s.launch_plan s.metadata s.rest ≡ some b
    → decode_spec b ≡ some s
decode_spec-marshal s b h = marshal_parts-eq s.launch_plan s.metadata s.rest b h

abbrev pub wire : Wire
wire = record {
  phase_name = λ p. unary (index p);
  phase_value = phase_named;
  timestamp = λ s. elim s [ none ↦ none | some t ↦ some (t.seconds * 1000000000 + t.nanos) ];
  timestamp_proto = λ t. some (record { seconds = 0; nanos = t });
  marshal_closure = marshal;
  unmarshal_closure = decode;
  marshal_spec = λ s. marshal_parts s.launch_plan s.metadata s.rest;
  unmarshal_spec = decode_spec;
  size = λ d. length d.content;
  construct_reference = λ keys. some "s3://bucket";
  write_protobuf = λ uri d. some tt;
}

pub wire-IsWire : IsWire wire
wire-IsWire = record {
  value-name = phase_named-unary;
  name-ne-empty = λ p. unary-ne-empty (index p);
  unmarshal-closure = decode-marshal;
  unmarshal-spec = decode_spec-marshal;
  timestamp-nil = refl;
  timestamp-proto = λ t s h. ground arith;
}

abbrev find_row : List Execution → ExecutionKey → Result Execution
find_row [] k = err (new_flyte_admin_error not_found)
find_row (x ∷ t) k = if same_key x.key k then ok x else find_row t k

abbrev write_row : List Execution → Execution → List Execution
write_row [] x = []
write_row (y ∷ t) x = if same_key y.key x.key then overlay y x ∷ t else y ∷ write_row t x

find_row-key :
    (t : List Execution) (k : ExecutionKey) (x : Execution) → find_row t k ≡ ok x → x.key ≡ k
find_row-key [] k x h = cc
find_row-key (y ∷ t) k x h = elim (Bool-cases (same_key y.key k)) [
  | inl e ↦ ap (λ (z : Execution). z.key) (sym (ok-injective (rw e at h))) ∙ same_key-eq y.key k e
  | inr e ↦ find_row-key t k x (rw e at h)
]

find_row-write_row :
    (t : List Execution) (x old : Execution) (k : ExecutionKey)
    → find_row t x.key ≡ ok old
    → find_row (write_row t x) k ≡ (if same_key x.key k then ok (overlay old x) else find_row t k)
find_row-write_row [] x old k h = cc
find_row-write_row (y ∷ t) x old k h = elim (Bool-cases (same_key y.key x.key)) [
  | inl e ↦ rw e (
      ground
        (arith, same_key-eq y.key x.key e, ok-injective (rw e at h), Bool-cases (same_key x.key k)))
  | inr e ↦ rw e (
      ground (
        arith,
        same_key-eq y.key k,
        same_key-eq x.key k,
        same_key_self x.key,
        Bool-cases (same_key x.key k),
        Bool-cases (same_key y.key k),
        find_row-write_row t x old k (rw e at h),
      ))
]

abbrev pub repo : Repo
repo = record { get = find_row; update = λ t x. find_row t x.key >>= λ old. ok (write_row t x) }

pub repo-IsRepo : IsRepo repo
repo-IsRepo = record {
  get-key = λ t k x full found. find_row-key t k x found;
  get-update = λ t t' x old k full_x full_k stored found.
      ap (λ u. find_row u k) (sym (ok-injective (rw found at stored)))
      ∙ find_row-write_row t x old k found;
}
