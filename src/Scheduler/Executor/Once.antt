-- ===== src/Scheduler/Executor/Once.antt =====
-- An execution that the executor reports is there, and one that is there is not made again
-- (scheduler/executor/executor_impl.go).
use flyteadmin.Scheduler.CatchUp.Complete.{IsExecutor}
use flyteadmin.Scheduler.Executor.{
  execute, executed, execution_request, is_already_exists, create_execution, SchedulableEntity,
  is_retriable, ExecutorState, HashTime, ExecutionCreateRequest, AdminService, OnError,
}
use mathlib.Core.Path.{subst}
use flyteadmin.Common.{
  not, err, Result, inr, refl, Bool-cases, ok, ◌⊎◌, sym, ap, inl, ◌∙◌, Option, Bool, ℕ, Error, ◌≡◌,
  suc, some, none, true, false, if◌then◌else◌,
}

module _ {X : Type 0} (retriable : Error → X → Bool × X) (call : X → Option Error × X) where
  -- What `retry.OnError` does in at most as many calls as its first number: it stops at a call that
  -- succeeds, at a failure that is not to be tried again, and when there are no steps left.
  pub data Attempts : ℕ → X → Option Error × X → Type 0 where
    succeeds : {n : ℕ} {x y : X} → call x ≡ (none, y) → Attempts (suc n) x (none, y)
    gives_up :
        {n : ℕ} {x y z : X} {e : Error}
        → call x ≡ (some e, y)
        → retriable e y ≡ (false, z)
        → Attempts (suc n) x (some e, z)
    runs_out :
        {x y z : X} {e : Error}
        → call x ≡ (some e, y)
        → retriable e y ≡ (true, z)
        → Attempts 1 x (some e, z)
    again :
        {n : ℕ} {x y z : X} {e : Error} {r : Option Error × X}
        → call x ≡ (some e, y)
        → retriable e y ≡ (true, z)
        → Attempts n z r
        → Attempts (suc n) x r

abbrev pub IsOnError : {X : Type 0} → OnError X → Type 0
IsOnError {X} on_error =
    (n : ℕ) (retriable : Error → X → Bool × X) (call : X → Option Error × X) (x : X)
    → Attempts retriable call (suc n) x (on_error (suc n) retriable call x)

-- What the admin service promises: `exists` tells the executions that it has by project, domain
-- and name, a request that succeeds or that is refused as such is for one that it then has, and it loses none.
pub record IsAdminService (service : AdminService) : Type 1 where
  pub Exists : service.Admin → ExecutionCreateRequest → Type 0
  pub creates :
      (a : service.Admin) (q : ExecutionCreateRequest)
      → (service.create_execution a q).0 ≡ none
      → Exists (service.create_execution a q).1 q
  pub reports :
      (a : service.Admin) (q : ExecutionCreateRequest) (e : Error)
      → (service.create_execution a q).0 ≡ some e
      → is_already_exists e ≡ true
      → Exists (service.create_execution a q).1 q
  pub keeps :
      (a : service.Admin) (p q : ExecutionCreateRequest)
      → Exists a p
      → Exists (service.create_execution a q).1 p

module _ (service : AdminService) (hash : HashTime) (on_error : OnError (ExecutorState service))
    (laws : IsAdminService service) (retries : IsOnError on_error) where
  abbrev pub Executed : ℕ → SchedulableEntity → ExecutorState service → Type 0
  Executed t s x = laws.Exists x.admin (execution_request service hash on_error t s)

  abbrev Trying :
      ExecutionCreateRequest
      → ℕ
      → ExecutorState service
      → Option Error × ExecutorState service
      → Type 0
  Trying q =
      Attempts (is_retriable service hash on_error) (create_execution service hash on_error q)

  abbrev Answer : Type 0
  Answer = Option Error × ExecutorState service

  -- What the answer says of the request.
  abbrev Settled : ExecutionCreateRequest → Answer → Type 0
  Settled q (none, x) = laws.Exists x.admin q
  Settled q (some e, x) = is_already_exists e ≡ true → laws.Exists x.admin q

  create_execution-first :
      (q : ExecutionCreateRequest) (x y : ExecutorState service) (o : Option Error)
      → create_execution service hash on_error q x ≡ (o, y)
      → (service.create_execution x.admin q).0 ≡ o
  unfolding create_execution
  create_execution-first q x y o done = ap (λ p. p.0) done

  create_execution-admin :
      (q : ExecutionCreateRequest) (x y : ExecutorState service) (o : Option Error)
      → create_execution service hash on_error q x ≡ (o, y)
      → (service.create_execution x.admin q).1 ≡ y.admin
  unfolding create_execution
  create_execution-admin q x y o done = ap (λ p. p.1.admin) done

  is_retriable_cases :
      (e : Error) (y : ExecutorState service)
      → ((is_already_exists e ≡ true) × (is_retriable service hash on_error e y ≡ (false, y)))
        ⊎ ((is_already_exists e ≡ false)
            × (is_retriable service hash on_error e y
                ≡ (true, record y { failed_executions = suc y.failed_executions })))
  unfolding is_retriable
  is_retriable_cases e y = elim (Bool-cases (is_already_exists e)) [
    | inl f ↦ inl (f, rw (is_retriable, f) refl)
    | inr f ↦ inr (f, rw (is_retriable, f) refl)
  ]

  is_retriable-admin :
      (e : Error) (y z : ExecutorState service) (b : Bool)
      → is_retriable service hash on_error e y ≡ (b, z)
      → y.admin ≡ z.admin
  is_retriable-admin e y z b same = elim (is_retriable_cases e y) [
    | inl (f, g) ↦ ap (λ p. p.1.admin) (sym g ∙ same)
    | inr (f, g) ↦ ap (λ p. p.1.admin) (sym g ∙ same)
  ]

  failed-Settled :
      (q : ExecutionCreateRequest) (x y z : ExecutorState service) (e : Error) (b : Bool)
      → create_execution service hash on_error q x ≡ (some e, y)
      → is_retriable service hash on_error e y ≡ (b, z)
      → Settled q (some e, z)
  failed-Settled q x y z e b failed tried known =
      subst (λ a. laws.Exists a q)
        (create_execution-admin q x y (some e) failed ∙ is_retriable-admin e y z b tried)
        (laws.reports x.admin q e (create_execution-first q x y (some e) failed) known)

  Trying-Settled :
      (q : ExecutionCreateRequest) {n : ℕ} {x : ExecutorState service} {r : Answer}
      → Trying q n x r
      → Settled q r
  Trying-Settled q {x = x} (Attempts.succeeds {y = y} done) =
      subst (λ a. laws.Exists a q) (create_execution-admin q x y none done)
        (laws.creates x.admin q (create_execution-first q x y none done))
  Trying-Settled q {x = x} (Attempts.gives_up {y = y} {z = z} {e = e} failed dropped) =
      failed-Settled q x y z e false failed dropped
  Trying-Settled q {x = x} (Attempts.runs_out {y = y} {z = z} {e = e} failed more) =
      failed-Settled q x y z e true failed more
  Trying-Settled q (Attempts.again failed more rest) = Trying-Settled q rest

  call-keeps :
      (q p : ExecutionCreateRequest) (x y : ExecutorState service) (o : Option Error)
      → create_execution service hash on_error q x ≡ (o, y)
      → laws.Exists x.admin p
      → laws.Exists y.admin p
  call-keeps q p x y o done there =
      subst (λ a. laws.Exists a p) (create_execution-admin q x y o done)
        (laws.keeps x.admin p q there)

  tried-keeps :
      (q p : ExecutionCreateRequest) (x y z : ExecutorState service) (e : Error) (b : Bool)
      → create_execution service hash on_error q x ≡ (some e, y)
      → is_retriable service hash on_error e y ≡ (b, z)
      → laws.Exists x.admin p
      → laws.Exists z.admin p
  tried-keeps q p x y z e b failed tried there =
      subst (λ a. laws.Exists a p) (is_retriable-admin e y z b tried)
        (call-keeps q p x y (some e) failed there)

  Trying-keeps :
      (q p : ExecutionCreateRequest) {n : ℕ} {x : ExecutorState service} {r : Answer}
      → Trying q n x r
      → laws.Exists x.admin p
      → laws.Exists r.1.admin p
  Trying-keeps q p {x = x} (Attempts.succeeds {y = y} done) there =
      call-keeps q p x y none done there
  Trying-keeps q p {x = x} (Attempts.gives_up {y = y} {z = z} {e = e} failed dropped) there =
      tried-keeps q p x y z e false failed dropped there
  Trying-keeps q p {x = x} (Attempts.runs_out {y = y} {z = z} {e = e} failed more) there =
      tried-keeps q p x y z e true failed more there
  Trying-keeps q p {x = x} (Attempts.again {y = y} {z = z} {e = e} failed more rest) there =
      Trying-keeps q p rest (tried-keeps q p x y z e true failed more there)

  abbrev answer : ℕ → SchedulableEntity → ExecutorState service → Answer
  answer t s x =
      on_error 30 (is_retriable service hash on_error)
        (create_execution service hash on_error (execution_request service hash on_error t s)) x

  execute_active :
      (t : ℕ) (s : SchedulableEntity) (x : ExecutorState service)
      → s.active ≡ true
      → execute service hash on_error t s x ≡ executed service hash on_error (answer t s x)
  unfolding execute
  execute_active t s x active =
      ap (λ b. if not b then (ok tt, x) else executed service hash on_error (answer t s x)) active

  execute_inactive :
      (t : ℕ) (s : SchedulableEntity) (x : ExecutorState service)
      → s.active ≡ false
      → execute service hash on_error t s x ≡ (ok tt, x)
  unfolding execute
  execute_inactive t s x active =
      ap (λ b. if not b then (ok tt, x) else executed service hash on_error (answer t s x)) active

  executed-admin : (r : Answer) → (executed service hash on_error r).1.admin ≡ r.1.admin
  executed-admin (none, x) = refl
  executed-admin (some e, x) = elim (Bool-cases (is_already_exists e)) [
    | inl f ↦ rw f refl
    | inr f ↦ rw f refl
  ]

  executed_failed :
      (e : Error) (x : ExecutorState service)
      → is_already_exists e ≡ false
      → (executed service hash on_error (some e, x)).0 ≡ err e
  executed_failed e x f = rw f refl

  executed-does :
      (q : ExecutionCreateRequest) (r : Answer)
      → Settled q r
      → (executed service hash on_error r).0 ≡ ok tt
      → laws.Exists (executed service hash on_error r).1.admin q
  executed-does q (none, x) settled fine = settled
  executed-does q (some e, x) settled fine = elim (Bool-cases (is_already_exists e)) [
    | inl f ↦ subst (λ a. laws.Exists a q) (sym (executed-admin (some e, x))) (settled f)
    | inr f ↦ absurd (cc (executed_failed e x f, fine))
  ]

  tries :
      (t : ℕ) (s : SchedulableEntity) (x : ExecutorState service)
      → Trying (execution_request service hash on_error t s) 30 x (answer t s x)
  tries t s x =
      retries 29 (is_retriable service hash on_error)
        (create_execution service hash on_error (execution_request service hash on_error t s)) x

  execute-keeps :
      (t u : ℕ) (s r : SchedulableEntity) (x : ExecutorState service)
      → Executed u r x
      → Executed u r (execute service hash on_error t s x).1
  execute-keeps t u s r x there =
      let p = execution_request service hash on_error u r in
      elim (Bool-cases s.active) [
        | inl e ↦
            subst (λ (w : Result (Unit {0}) × ExecutorState service). laws.Exists w.1.admin p)
              (sym (execute_active t s x e))
              (subst (λ a. laws.Exists a p) (sym (executed-admin (answer t s x)))
                (Trying-keeps (execution_request service hash on_error t s) p (tries t s x) there))
        | inr e ↦
            subst (λ (w : Result (Unit {0}) × ExecutorState service). laws.Exists w.1.admin p)
              (sym (execute_inactive t s x e)) there
      ]

  -- Under the promises of the admin service and of the retries, a success of the executor for an
  -- active schedule means that the admin service has the execution of that schedule at that time,
  -- and an execution that it has is there after any other run.
  pub execute-Executor : IsExecutor (execute service hash on_error) Executed
  execute-Executor = record {
    does = λ t s x active fine.
        subst
          (λ (w : Result (Unit {0}) × ExecutorState service).
            laws.Exists w.1.admin (execution_request service hash on_error t s))
          (sym (execute_active t s x active))
          (executed-does (execution_request service hash on_error t s) (answer t s x)
            (Trying-Settled (execution_request service hash on_error t s) (tries t s x))
            (ap (λ p. p.0) (sym (execute_active t s x active)) ∙ fine));
    keeps = execute-keeps;
  }
