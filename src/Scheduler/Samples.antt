-- ===== src/Scheduler/Samples.antt =====
-- Libraries that keep the promises that the scheduler relies on, for the tests: entries at the
-- places of a list, an admin service that is a list of names, and the plain loop of retries.
use flyteadmin.Scheduler.Core.{CronLib}
use flyteadmin.Scheduler.Executor.Once.{Attempts, IsOnError, IsAdminService}
use flyteadmin.Scheduler.Core.Synced.{Adds, IsCronLib}
use flyteadmin.Scheduler.Executor.{OnError, AdminService}
use mathlib.Core.Path.{subst}
use flyteadmin.Common.{
  some-equal, inr, already_exists, arith, ◌≢◌, new_flyte_admin_error, length, ◌||◌, is_some, inl,
  str_eq, refl, ap, Option, Bool-cases, not, eq_refl, Error, List, ℕ, String, Bool, ◌≡◌, ◌∷◌, [],
  suc, zero, some, none, true, false, if◌then◌else◌, ◌++◌,
}

abbrev at_place : List (Option ℕ) → ℕ → Option ℕ
at_place [] i = none
at_place (x ∷ xs) zero = x
at_place (x ∷ xs) (suc i) = at_place xs i

abbrev clear : List (Option ℕ) → ℕ → List (Option ℕ)
clear [] i = []
clear (x ∷ xs) zero = none ∷ xs
clear (x ∷ xs) (suc i) = x ∷ clear xs i

abbrev entry_at : List (Option ℕ) → ℕ → Option ℕ
entry_at k zero = none
entry_at k (suc i) = at_place k i

abbrev remove_at : List (Option ℕ) → ℕ → List (Option ℕ)
remove_at k zero = k
remove_at k (suc i) = clear k i

abbrev added_to : List (Option ℕ) → ℕ → ℕ × List (Option ℕ)
added_to k a = (suc (length k), k ++ some a ∷ [])

abbrev parses : String → Bool
parses s = not (str_eq s "bad")

abbrev pub small_cron : CronLib
small_cron = record {
  Cron = List (Option ℕ);
  new_cron = [];
  valid = parses;
  add_timed_job = λ k s a. if parses s then some (added_to k a) else none;
  schedule_timed_job = λ k d a. added_to k a;
  remove = remove_at;
  entry = entry_at;
}

at_place-end : (k : List (Option ℕ)) → at_place k (length k) ≡ none
at_place-end [] = refl
at_place-end (x ∷ xs) = at_place-end xs

at_place-new : (k : List (Option ℕ)) (a : ℕ) → at_place (k ++ some a ∷ []) (length k) ≡ some a
at_place-new [] a = refl
at_place-new (x ∷ xs) a = at_place-new xs a

at_place-old :
    (k : List (Option ℕ)) (a i : ℕ) → i ≢ length k → at_place (k ++ some a ∷ []) i ≡ at_place k i
at_place-old [] a zero differ = absurd (differ refl)
at_place-old [] a (suc i) differ = refl
at_place-old (x ∷ xs) a zero differ = refl
at_place-old (x ∷ xs) a (suc i) differ = at_place-old xs a i (λ e. differ (ap suc e))

at_place-cleared : (k : List (Option ℕ)) (i : ℕ) → at_place (clear k i) i ≡ none
at_place-cleared [] i = refl
at_place-cleared (x ∷ xs) zero = refl
at_place-cleared (x ∷ xs) (suc i) = at_place-cleared xs i

at_place-kept : (k : List (Option ℕ)) (i j : ℕ) → j ≢ i → at_place (clear k i) j ≡ at_place k j
at_place-kept [] i j differ = refl
at_place-kept (x ∷ xs) zero zero differ = absurd (differ refl)
at_place-kept (x ∷ xs) zero (suc j) differ = refl
at_place-kept (x ∷ xs) (suc i) zero differ = refl
at_place-kept (x ∷ xs) (suc i) (suc j) differ = at_place-kept xs i j (λ e. differ (ap suc e))

entry_at-old :
    (k : List (Option ℕ)) (a i : ℕ)
    → i ≢ suc (length k)
    → entry_at (k ++ some a ∷ []) i ≡ entry_at k i
entry_at-old k a zero differ = refl
entry_at-old k a (suc i) differ = at_place-old k a i (λ e. differ (ap suc e))

added_to-Adds :
    (k : List (Option ℕ)) (a : ℕ) → Adds small_cron k a (suc (length k)) (k ++ some a ∷ [])
added_to-Adds k a = (λ e. omega (arith, e), at_place-end k, at_place-new k a, entry_at-old k a)

remove_at-cleared : (k : List (Option ℕ)) (id : ℕ) → entry_at (remove_at k id) id ≡ none
remove_at-cleared k zero = refl
remove_at-cleared k (suc i) = at_place-cleared k i

remove_at-kept :
    (k : List (Option ℕ)) (id i : ℕ) → i ≢ id → entry_at (remove_at k id) i ≡ entry_at k i
remove_at-kept k zero i differ = refl
remove_at-kept k (suc id) zero differ = refl
remove_at-kept k (suc id) (suc i) differ = at_place-kept k id i (λ e. differ (ap suc e))

abbrev maybe_added : Bool → List (Option ℕ) → ℕ → Option (ℕ × List (Option ℕ))
maybe_added b k a = if b then some (added_to k a) else none

maybe_added-Adds :
    (b : Bool) (k : List (Option ℕ)) (a id : ℕ) (after : List (Option ℕ))
    → maybe_added b k a ≡ some (id, after)
    → Adds small_cron k a id after
maybe_added-Adds false k a id after e = absurd (cc e)
maybe_added-Adds true k a id after e =
    subst (λ (p : ℕ × List (Option ℕ)). Adds small_cron k a p.0 p.1) (some-equal e)
      (added_to-Adds k a)

maybe_added-valid : (b : Bool) (k : List (Option ℕ)) (a : ℕ) → is_some (maybe_added b k a) ≡ b
maybe_added-valid true k a = refl
maybe_added-valid false k a = refl

entry_at-nothing : (i : ℕ) → entry_at [] i ≡ none
entry_at-nothing zero = refl
entry_at-nothing (suc i) = refl

pub small_cron-CronLib : IsCronLib small_cron
small_cron-CronLib = record {
  entry_new = entry_at-nothing;
  adds_timed = λ k s a id after e. maybe_added-Adds (parses s) k a id after e;
  adds_valid = λ k s a. maybe_added-valid (parses s) k a;
  adds_scheduled = λ k d a. added_to-Adds k a;
  entry_removed = remove_at-cleared;
  entry_kept = remove_at-kept;
}

abbrev has : List String → String → Bool
has [] n = false
has (m ∷ ms) n = str_eq n m || has ms n

abbrev made : Bool → List String → String → Option Error × List String
made true names n = (some (new_flyte_admin_error already_exists), names)
made false names n = (none, n ∷ names)

abbrev pub small_admin : AdminService
small_admin = record {
  Admin = List String;
  create_execution = λ names q. made (has names q.name) names q.name;
}

pub has-made :
    (b : Bool) (names : List String) (n : String)
    → has names n ≡ b
    → has (made b names n).1 n ≡ true
has-made true names n e = e
has-made false names n e = rw (eq_refl n) refl

pub made-keeps :
    (b : Bool) (names : List String) (m n : String)
    → has names m ≡ true
    → has (made b names n).1 m ≡ true
made-keeps true names m n e = e
made-keeps false names m n e = elim (Bool-cases (str_eq m n)) [ inl f ↦ rw f refl | inr f ↦ rw f e ]

abbrev pub small_admin-AdminService : IsAdminService small_admin
small_admin-AdminService = record {
  Exists = λ names q. has names q.name ≡ true;
  creates = λ names q e. has-made (has names q.name) names q.name refl;
  reports = λ names q x e known. has-made (has names q.name) names q.name refl;
  keeps = λ names p q e. made-keeps (has names q.name) names p.name q.name e;
}

module _ {X : Type 0} where
  abbrev after_try : ℕ → (X → Option Error × X) → Error → Bool × X → Option Error × X
  after_try n next e (false, z) = (some e, z)
  after_try zero next e (true, z) = (some e, z)
  after_try (suc n) next e (true, z) = next z

  abbrev after_call :
      ℕ → (X → Option Error × X) → (Error → X → Bool × X) → Option Error × X → Option Error × X
  after_call n next retriable (none, y) = (none, y)
  after_call n next retriable (some e, y) = after_try n next e (retriable e y)

  abbrev pub small_on_error : OnError X
  small_on_error zero retriable call x = (none, x)
  small_on_error (suc n) retriable call x =
      after_call n (small_on_error n retriable call) retriable (call x)

  try-Attempts :
      (n : ℕ) (retriable : Error → X → Bool × X) (call : X → Option Error × X) (x y : X) (e : Error)
      (q : Bool × X)
      → call x ≡ (some e, y)
      → retriable e y ≡ q
      → ((k : ℕ)
          → n ≡ suc k
          → (z : X) → Attempts retriable call n z (small_on_error n retriable call z))
      → Attempts retriable call (suc n) x (after_try n (small_on_error n retriable call) e q)
  try-Attempts n retriable call x y e (false, z) failed tried more = Attempts.gives_up failed tried
  try-Attempts zero retriable call x y e (true, z) failed tried more =
      Attempts.runs_out failed tried
  try-Attempts (suc n) retriable call x y e (true, z) failed tried more =
      Attempts.again failed tried (more n refl z)

  call-Attempts :
      (n : ℕ) (retriable : Error → X → Bool × X) (call : X → Option Error × X) (x : X)
      (p : Option Error × X)
      → call x ≡ p
      → ((k : ℕ)
          → n ≡ suc k
          → (z : X) → Attempts retriable call n z (small_on_error n retriable call z))
      → Attempts retriable call
          (suc n)
          x
          (after_call n (small_on_error n retriable call) retriable p)
  call-Attempts n retriable call x (none, y) done more = Attempts.succeeds done
  call-Attempts n retriable call x (some e, y) done more =
      try-Attempts n retriable call x y e (retriable e y) done refl more

  pub small_on_error-OnError : IsOnError small_on_error
  small_on_error-OnError zero retriable call x =
      call-Attempts zero retriable call x (call x) refl (λ k e. absurd (cc e))
  small_on_error-OnError (suc n) retriable call x =
      call-Attempts (suc n) retriable call x (call x) refl
        (λ k e z. small_on_error-OnError n retriable call z)
