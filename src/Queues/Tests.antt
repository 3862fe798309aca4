-- ===== src/Queues/Tests.antt =====
-- The choice of a queue, at a concrete configuration.
use flyteadmin.Queues.{get_queue, ExecutionQueue, WorkflowConfig}
use flyteadmin.Queues.Choice.{get_queue-Serves, tags_for, Serves, IsIntn}
use flyteadmin.Common.{◌⊎◌, String, List, ◌≡◌, some, [], ◌∷◌}

abbrev configured : List ExecutionQueue
configured =
    record { dynamic = "fast"; attributes = "gpu" ∷ "large" ∷ [] }
    ∷ record { dynamic = "slow"; attributes = "large" ∷ [] }
    ∷ []

abbrev domains : List WorkflowConfig
domains = record { domain = ""; tags = "large" ∷ [] } ∷ []

first_always : IsIntn (λ n. 0)
first_always n positive = positive

get_queue-Serves_example :
    (name : String) × (get_queue (λ n. 0) configured domains (some ("none" ∷ "gpu" ∷ [])) "staging"
      ≡ some name)
    × ((name ≡ "")
        ⊎ Serves configured
            (tags_for
              (λ n. 0)
              first_always
              configured
              domains
              (some ("none" ∷ "gpu" ∷ []))
              "staging")
            name)
get_queue-Serves_example =
    get_queue-Serves (λ n. 0) first_always configured domains (some ("none" ∷ "gpu" ∷ [])) "staging"
