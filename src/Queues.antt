-- ===== src/Queues.antt =====
-- The queue of an execution (pkg/manager/impl/executions/queues.go).
pub mod Choice
mod Tests
use flyteadmin.Common.{
  length, str_eq, Option, if◌then◌else◌, String, List, ℕ, ◌≡◌, ◌>>=◌, true, false, none, some, suc,
  zero, [], ◌∷◌, ◌++◌,
}

-- A configured queue, and a domain's tags.
pub record ExecutionQueue : Type 0 where
  pub dynamic : String
  pub attributes : List String

pub record WorkflowConfig : Type 0 where
  pub domain : String
  pub tags : List String

-- `map[tag]queues`; no entry is as an empty one, since every entry has a queue.
abbrev pub QueueConfig : Type 0
QueueConfig = String → List String

abbrev pub append_queue : String → String → QueueConfig → QueueConfig
append_queue name tag m other = if str_eq other tag then m other ++ name ∷ [] else m other

abbrev pub append_tags : String → List String → QueueConfig → QueueConfig
append_tags name [] m = m
append_tags name (tag ∷ tags) m = append_tags name tags (append_queue name tag m)

unfoldable pub add_queues : List ExecutionQueue → QueueConfig → QueueConfig
add_queues [] m = m
add_queues (q ∷ qs) m = add_queues qs (append_tags q.dynamic q.attributes m)

unfoldable pub refresh_execution_queues : List ExecutionQueue → QueueConfig
refresh_execution_queues qs = add_queues qs (λ tag. [])

abbrev pub nth : List String → ℕ → Option String
nth [] i = none
nth (x ∷ xs) zero = some x
nth (x ∷ xs) (suc i) = nth xs i

-- `matches[rand.Intn(len(matches))]`; `none` is an index out of range.
abbrev pub pick : (ℕ → ℕ) → List String → Option String
pick intn matches = nth matches (intn (length matches))

-- The queue for the first of the tags that has one; a tag without a queue is passed over.
unfoldable pub first_match : (ℕ → ℕ) → QueueConfig → List String → Option (Option String)
first_match intn m [] = none
first_match intn m (tag ∷ tags) =
    let rest = first_match intn m tags in
    elim (m tag) [ [] ↦ rest | x ∷ xs ↦ some (pick intn (x ∷ xs)) ]

-- The tags of the last configuration of the domain, and of the last one without a domain.
unfoldable pub domain_tags :
    List WorkflowConfig → String → List String × List String → List String × List String
domain_tags [] d found = found
domain_tags (c ∷ cs) d (tags, default_tags) =
    if str_eq c.domain d
    then domain_tags cs d (c.tags, default_tags)
    else if str_eq c.domain ""
    then domain_tags cs d (tags, c.tags)
    else domain_tags cs d (tags, default_tags)

abbrev pub or_default : List String × List String → List String
or_default ([], default_tags) = default_tags
or_default (t ∷ ts, default_tags) = t ∷ ts

abbrev pub or_else : Option (Option String) → Option String → Option String
or_else none default = default
or_else (some q) default = q

-- The queue for the tags that the configuration gives the domain; the empty name is no queue.
abbrev pub from_config : (ℕ → ℕ) → QueueConfig → List WorkflowConfig → String → Option String
from_config intn m configs d =
    or_else (first_match intn m (or_default (domain_tags configs d ([], [])))) (some "")

-- The tags of the workflow in the database come first, if the resource manager finds any.
unfoldable pub get_queue :
    (ℕ → ℕ)
    → List ExecutionQueue
    → List WorkflowConfig
    → Option (List String)
    → String
    → Option String
get_queue intn qs configs none d = from_config intn (refresh_execution_queues qs) configs d
get_queue intn qs configs (some tags) d =
    or_else (first_match intn (refresh_execution_queues qs) tags)
      (from_config intn (refresh_execution_queues qs) configs d)
