-- ===== src/Scheduler/Executor/Refused.antt =====
-- An execution that the admin service reports as existing (scheduler/executor/executor_impl.go).
use flyteadmin.Scheduler.Executor.{
  counted, execute, executed, execution_request, is_already_exists, create_execution,
  SchedulableEntity, is_retriable, ExecutorState, HashTime, ExecutionCreateRequest, AdminService,
  OnError,
}
use flyteadmin.Scheduler.Executor.Once.{Attempts, IsOnError}
use flyteadmin.Common.{ok, some-equal, sym, ap, ◌∙◌, Option, ℕ, Error, ◌≡◌, some, true, false, refl}

module _ (service : AdminService) (hash : HashTime) (on_error : OnError (ExecutorState service))
    (retries : IsOnError on_error) where
  not_retried :
      (e : Error) (y : ExecutorState service)
      → is_already_exists e ≡ true
      → is_retriable service hash on_error e y ≡ (false, y)
  unfolding is_retriable
  not_retried e y known = rw known refl

  -- The first call is answered so, and nothing is tried again.
  Attempts-known :
      (call : ExecutorState service → Option Error × ExecutorState service) {n : ℕ}
      {x y : ExecutorState service} {r : Option Error × ExecutorState service} (e : Error)
      → Attempts (is_retriable service hash on_error) call n x r
      → call x ≡ (some e, y)
      → is_already_exists e ≡ true
      → r ≡ (some e, y)
  Attempts-known call e (Attempts.succeeds done) here known = absurd (cc (done, here))
  Attempts-known call {y = y} e (Attempts.gives_up {y = y'} {z = z} {e = e'} failed dropped) here
        known =
      let same = sym failed ∙ here in
      let first = some-equal (ap (λ p. p.0) same) in
      let kept = sym (not_retried e' y' (ap is_already_exists first ∙ known)) ∙ dropped in
      ap (λ f. (some f, z)) first
      ∙ ap (λ v. (some e, v)) (sym (ap (λ p. p.1) kept) ∙ ap (λ p. p.1) same)
  Attempts-known call e (Attempts.runs_out {y = y'} {e = e'} failed more) here known =
      let first = some-equal (ap (λ p. p.0) (sym failed ∙ here)) in
      absurd (cc (not_retried e' y' (ap is_already_exists first ∙ known), more))
  Attempts-known call e (Attempts.again {y = y'} {e = e'} failed more rest) here known =
      let first = some-equal (ap (λ p. p.0) (sym failed ∙ here)) in
      absurd (cc (not_retried e' y' (ap is_already_exists first ∙ known), more))

  called :
      (q : ExecutionCreateRequest) (x : ExecutorState service) (e : Error) (a : service.Admin)
      → service.create_execution x.admin q ≡ (some e, a)
      → create_execution service hash on_error q x ≡ (some e, record x { admin = a })
  unfolding create_execution
  called q x e a h = ap (λ p. (p.0, record x { admin = p.1 })) h

  execute_active :
      (t : ℕ) (s : SchedulableEntity) (x : ExecutorState service)
      → s.active ≡ true
      → execute service hash on_error t s x
        ≡ executed service hash on_error (
            on_error 30
              (is_retriable service hash on_error)
              (create_execution service hash on_error (execution_request service hash on_error t s))
              x)
  unfolding execute
  execute_active t s x active = rw active refl

  executed_known :
      (e : Error) (x : ExecutorState service)
      → is_already_exists e ≡ true
      → executed service hash on_error (some e, x) ≡ (ok tt, counted service hash on_error x)
  executed_known e x known = rw known refl

  -- Where the admin service answers the first request for an active schedule by the error that the
  -- execution exists already, the executor makes no other request and no failure: it counts a
  -- success, and the service is as that one request left it.
  pub execute_refused :
      (t : ℕ) (s : SchedulableEntity) (x : ExecutorState service) (e : Error) (a : service.Admin)
      → s.active ≡ true
      → service.create_execution x.admin (execution_request service hash on_error t s) ≡ (some e, a)
      → is_already_exists e ≡ true
      → execute service hash on_error t s x
        ≡ (ok tt, counted service hash on_error (record x { admin = a }))
  execute_refused t s x e a active answered known =
      let q = execution_request service hash on_error t s in
      execute_active t s x active
      ∙ ap (executed service hash on_error) (
          Attempts-known (create_execution service hash on_error q) e
            (retries 29 (is_retriable service hash on_error)
              (create_execution service hash on_error q) x)
            (called q x e a answered) known)
      ∙ executed_known e (record x { admin = a }) known
