-- ===== src/Queues/Choice.antt =====
-- The queue that is chosen has one of the tags (pkg/manager/impl/executions/queues.go).
use flyteadmin.Queues.{
  or_else, from_config, domain_tags, or_default, nth, append_queue, append_tags, get_queue,
  WorkflowConfig, QueueConfig, first_match, add_queues, refresh_execution_queues, ExecutionQueue,
}
use mathlib.Core.Path.{subst}
use flyteadmin.Common.{
  ◌∙◌, false, ap, true, if◌then◌else◌, eq_iff, zero, suc, sym, arith, inl, inr, refl, ◌⊎◌, some,
  str_eq, Option, [], none, ◌∷◌, length, ◌++◌, Bool, Memᴰ, String, ◌<◌, List, ℕ, ◌≡◌,
}

-- A queue of the configuration with the name, that has the tag.
abbrev pub HasTag : List ExecutionQueue → String → String → Type 0
HasTag qs tag name = (q : ExecutionQueue) × Memᴰ q qs × (q.dynamic ≡ name) × Memᴰ tag q.attributes

-- What `rand.Intn` promises.
abbrev pub IsIntn : (ℕ → ℕ) → Type 0
IsIntn intn = (n : ℕ) → 0 < n → intn n < n

abbrev IsSound : List ExecutionQueue → QueueConfig → Type 0
IsSound qs m = (tag name : String) → Memᴰ name (m tag) → HasTag qs tag name

Memᴰ-nil {ℓ} : {A : Type ℓ} {a : A} → Memᴰ a [] → ⊥
Memᴰ-nil h = elim h [ ]

Memᴰ-left {ℓ} : {A : Type ℓ} {a : A} (xs ys : List A) → Memᴰ a xs → Memᴰ a (xs ++ ys)
Memᴰ-left [] ys h = absurd (Memᴰ-nil h)
Memᴰ-left (x ∷ xs) ys (Memᴰ.head e) = Memᴰ.head e
Memᴰ-left (x ∷ xs) ys (Memᴰ.tail h) = Memᴰ.tail (Memᴰ-left xs ys h)

Memᴰ-right {ℓ} : {A : Type ℓ} {a : A} (xs ys : List A) → Memᴰ a ys → Memᴰ a (xs ++ ys)
Memᴰ-right [] ys h = h
Memᴰ-right (x ∷ xs) ys h = Memᴰ.tail (Memᴰ-right xs ys h)

Memᴰ-append :
    (name x : String) (xs : List String) → Memᴰ name (xs ++ x ∷ []) → Memᴰ name xs ⊎ (name ≡ x)
Memᴰ-append name x [] (Memᴰ.head e) = inr e
Memᴰ-append name x [] (Memᴰ.tail h) = absurd (Memᴰ-nil h)
Memᴰ-append name x (y ∷ ys) (Memᴰ.head e) = inl (Memᴰ.head e)
Memᴰ-append name x (y ∷ ys) (Memᴰ.tail h) = elim (Memᴰ-append name x ys h) [
  | inl f ↦ inl (Memᴰ.tail f)
  | inr f ↦ inr f
]

if-Memᴰ :
    (b : Bool) (name : String) (xs ys : List String)
    → Memᴰ name (if b then xs else ys)
    → ((b ≡ true) × Memᴰ name xs) ⊎ Memᴰ name ys
if-Memᴰ true name xs ys h = inl (refl, h)
if-Memᴰ false name xs ys h = inr h

append_queue-Sound :
    (qs : List ExecutionQueue) (q : ExecutionQueue) (tag : String) (m : QueueConfig)
    → Memᴰ q qs
    → Memᴰ tag q.attributes
    → IsSound qs m
    → IsSound qs (append_queue q.dynamic tag m)
append_queue-Sound qs q tag m there has sound other name h =
    elim (if-Memᴰ (str_eq other tag) name (m other ++ q.dynamic ∷ []) (m other) h) [
      | inr f ↦ sound other name f
      | inl (same, f) ↦ elim (Memᴰ-append name q.dynamic (m other) f) [
        | inl g ↦ sound other name g
        | inr g ↦ (
          q,
          there,
          sym g,
          subst (λ t. Memᴰ t q.attributes) (sym ((eq_iff other tag).0 same)) has,
        )
      ]
    ]

append_tags-Sound :
    (qs : List ExecutionQueue) (q : ExecutionQueue) (tags : List String) (m : QueueConfig)
    → Memᴰ q qs
    → ((tag : String) → Memᴰ tag tags → Memᴰ tag q.attributes)
    → IsSound qs m
    → IsSound qs (append_tags q.dynamic tags m)
append_tags-Sound qs q [] m there within sound = sound
append_tags-Sound qs q (tag ∷ tags) m there within sound =
    append_tags-Sound qs q tags (append_queue q.dynamic tag m) there (λ t h. within t (Memᴰ.tail h))
      (append_queue-Sound qs q tag m there (within tag (Memᴰ.head refl)) sound)

add_queues-Sound :
    (qs rest : List ExecutionQueue) (m : QueueConfig)
    → ((q : ExecutionQueue) → Memᴰ q rest → Memᴰ q qs)
    → IsSound qs m
    → IsSound qs (add_queues rest m)
unfolding add_queues
add_queues-Sound qs [] m within sound = sound
add_queues-Sound qs (q ∷ rest) m within sound =
    add_queues-Sound qs rest (append_tags q.dynamic q.attributes m) (λ p h. within p (Memᴰ.tail h))
      (append_tags-Sound qs q q.attributes m (within q (Memᴰ.head refl)) (λ t h. h) sound)

refresh_execution_queues-Sound :
    (qs : List ExecutionQueue) → IsSound qs (refresh_execution_queues qs)
unfolding refresh_execution_queues
refresh_execution_queues-Sound qs =
    add_queues-Sound qs qs (λ tag. []) (λ q h. h) (λ tag name h. absurd (Memᴰ-nil h))

nth-Memᴰ :
    (xs : List String) (i : ℕ) → i < length xs → (x : String) × (nth xs i ≡ some x) × Memᴰ x xs
nth-Memᴰ [] i h = absurd (omega arith)
nth-Memᴰ (x ∷ xs) zero h = (x, refl, Memᴰ.head refl)
nth-Memᴰ (x ∷ xs) (suc i) h =
    let (y, found, mem) = nth-Memᴰ xs i (omega arith) in (y, found, Memᴰ.tail mem)

-- The name is that of a queue with one of the tags.
abbrev pub Serves : List ExecutionQueue → List String → String → Type 0
Serves qs tags name = (tag : String) × Memᴰ tag tags × HasTag qs tag name

module _ (intn : ℕ → ℕ) (random : IsIntn intn) (qs : List ExecutionQueue) where
  abbrev Matched : QueueConfig → List String → Type 0
  Matched m tags =
      (first_match intn m tags ≡ none)
      ⊎ ((name : String) × (first_match intn m tags ≡ some (some name)) × Serves qs tags name)

  first_match_step :
      (m : QueueConfig) (tag : String) (tags : List String) (l : List String)
      → m tag ≡ l
      → IsSound qs m
      → Matched m tags
      → Matched m (tag ∷ tags)
  unfolding first_match
  first_match_step m tag tags [] e sound later = elim later [
    | inl f ↦ inl (rw (first_match, e) f)
    | inr (name, f, (t, mem, serves)) ↦
        inr (name, rw (first_match, e) f, (t, Memᴰ.tail mem, serves))
  ]
  first_match_step m tag tags (x ∷ xs) e sound later =
      let (name, found, mem) =
        nth-Memᴰ (x ∷ xs) (intn (length (x ∷ xs))) (random (length (x ∷ xs)) (omega arith)) in
      inr (
        name,
        rw (first_match, e) (ap some found),
        (tag, Memᴰ.head refl, sound tag name (subst (λ l. Memᴰ name l) (sym e) mem)),
      )

  first_match-Matched : (m : QueueConfig) (tags : List String) → IsSound qs m → Matched m tags
  unfolding first_match
  first_match-Matched m [] sound = inl refl
  first_match-Matched m (tag ∷ tags) sound =
      first_match_step m tag tags (m tag) refl sound (first_match-Matched m tags sound)

  -- The tags that count: those of the workflow in the database, and those of the configuration.
  abbrev pub tags_for : List WorkflowConfig → Option (List String) → String → List String
  tags_for configs none d = or_default (domain_tags configs d ([], []))
  tags_for configs (some tags) d = tags ++ or_default (domain_tags configs d ([], []))

  from_config-Serves :
      (m : QueueConfig) (configs : List WorkflowConfig) (d : String)
      → IsSound qs m
      → (name : String) × (from_config intn m configs d ≡ some name)
        × ((name ≡ "") ⊎ Serves qs (tags_for configs none d) name)
  from_config-Serves m configs d sound =
      elim (first_match-Matched m (tags_for configs none d) sound) [
        | inl e ↦ ("", ap (λ o. or_else o (some "")) e, inl refl)
        | inr (name, e, serves) ↦ (name, ap (λ o. or_else o (some "")) e, inr serves)
      ]

  more_tags :
      (tags others : List String) (name : String)
      → (name ≡ "") ⊎ Serves qs others name
      → (name ≡ "") ⊎ Serves qs (tags ++ others) name
  more_tags tags others name (inl e) = inl e
  more_tags tags others name (inr (t, mem, has)) = inr (t, Memᴰ-right tags others mem, has)

  -- Where the random index is in range, a queue is always chosen without an index out of range: the
  -- empty one, or one of the configured queues that has one of the tags of the workflow in the
  -- database or of the tags that the configuration gives the domain.
  pub get_queue-Serves :
      (configs : List WorkflowConfig) (override : Option (List String)) (d : String)
      → (name : String) × (get_queue intn qs configs override d ≡ some name)
        × ((name ≡ "") ⊎ Serves qs (tags_for configs override d) name)
  unfolding get_queue
  get_queue-Serves configs none d =
      from_config-Serves (refresh_execution_queues qs) configs d (refresh_execution_queues-Sound qs)
  get_queue-Serves configs (some tags) d =
      let m = refresh_execution_queues qs in
      let sound = refresh_execution_queues-Sound qs in
      let default = from_config intn m configs d in
      elim (first_match-Matched m tags sound) [
        | inl e ↦
            let (name, found, serves) = from_config-Serves m configs d sound in
            (
              name,
              ap (λ o. or_else o default) e ∙ found,
              more_tags tags (tags_for configs none d) name serves,
            )
        | inr (name, e, (t, mem, has)) ↦ (
          name,
          ap (λ o. or_else o default) e,
          inr (t, Memᴰ-left tags (tags_for configs none d) mem, has),
        )
      ]
