-- ===== src/Scheduler/CatchUp/Complete.antt =====
-- A catch-up ends, and one that succeeds has executed every firing that the jobs had missed
-- (scheduler/core/gocron_scheduler.go).
use flyteadmin.Scheduler.Times.Chain.{get_catch_up_times-Firings, Firings, IsForward}
use flyteadmin.Scheduler.CatchUp.{
  and_then, due, GoCronJob, catch_up_single_schedule, execute_times, catchup_all,
}
use flyteadmin.Scheduler.{SchedulableEntity, CronTimes}
use mathlib.Core.Path.{subst}
use flyteadmin.Common.{
  arith, some-equal, Option-cases, not, Bool, Result-cases, ◌∙◌, refl, ◌⊎◌, ◌<◌, sym, inr, err,
  String, ◌-◌, ap, Error, inl, All, ok, List, Option, Result, ℕ, ◌≡◌, ◌∷◌, [], some, none, true,
  false, if◌then◌else◌,
}

-- What the executor promises: a success for an active schedule means that the execution is done,
-- and what is done stays done.
pub record IsExecutor {X : Type 0} (execute : ℕ → SchedulableEntity → X → Result (Unit {0}) × X)
    (Done : ℕ → SchedulableEntity → X → Type 0) : Type 0 where
  pub does :
      (t : ℕ) (s : SchedulableEntity) (x : X)
      → s.active ≡ true
      → (execute t s x).0 ≡ ok tt
      → Done t s (execute t s x).1
  pub keeps : (t u : ℕ) (s r : SchedulableEntity) (x : X) → Done u r x → Done u r (execute t s x).1

module _ (c : CronTimes) {X : Type 0} (execute : ℕ → SchedulableEntity → X → Result (Unit {0}) × X)
    (Done : ℕ → SchedulableEntity → X → Type 0) (laws : IsExecutor execute Done) where
  execute_times_first :
      (t : ℕ) (ts : List ℕ) (s : SchedulableEntity) (x : X)
      → ((e : Error) × ((execute t s x).0 ≡ err e)
          × (execute_times c execute (t ∷ ts) s x ≡ (err e, (execute t s x).1)))
        ⊎ (((execute t s x).0 ≡ ok tt)
            × (execute_times c execute (t ∷ ts) s x
                ≡ execute_times c execute ts s (execute t s x).1))
  unfolding execute_times
  execute_times_first t ts s x = elim (Result-cases (execute t s x).0) [
    | inl (e, f) ↦ inl (e, f, rw (execute_times, f) refl)
    | inr (u, f) ↦ inr (f, rw (execute_times, f) refl)
  ]

  execute_times-keeps :
      (ts : List ℕ) (s : SchedulableEntity) (x : X) (u : ℕ) (r : SchedulableEntity)
      → Done u r x
      → Done u r (execute_times c execute ts s x).1
  unfolding execute_times
  execute_times-keeps [] s x u r done = done
  execute_times-keeps (t ∷ ts) s x u r done = elim (execute_times_first t ts s x) [
    | inl (e, f, same) ↦ rw same (laws.keeps t u s r x done)
    | inr (f, same) ↦
        rw same (execute_times-keeps ts s (execute t s x).1 u r (laws.keeps t u s r x done))
  ]

  execute_times-Done :
      (ts : List ℕ) (s : SchedulableEntity) (x : X)
      → s.active ≡ true
      → (execute_times c execute ts s x).0 ≡ ok tt
      → All (λ t. Done t s (execute_times c execute ts s x).1) ts
  execute_times-Done [] s x active fine = tt
  execute_times-Done (t ∷ ts) s x active fine = elim (execute_times_first t ts s x) [
    | inl (e, f, same) ↦ absurd (cc (ap (λ p. p.0) same, fine))
    | inr (f, same) ↦
        subst (λ (p : Result (Unit {0}) × X). All (λ u. Done u s p.1) (t ∷ ts)) (sym same)
          (
            execute_times-keeps ts s (execute t s x).1 t s (laws.does t s x active f),
            execute_times-Done ts s (execute t s x).1 active (sym (ap (λ p. p.0) same) ∙ fine),
          )
  ]

  -- The firings that the schedule missed until the given time, and that they are done.
  abbrev pub CaughtUp : ℕ → X → SchedulableEntity → ℕ → Type 0
  CaughtUp until y s from =
      (times : List ℕ) × Firings c s until from times × All (λ t. Done t s y) times

  abbrev pub AllCaughtUp : (ℕ → Option GoCronJob) → ℕ → X → List (String × ℕ) → Type 0
  AllCaughtUp heap until y = All (λ (p : String × ℕ).
      (s : SchedulableEntity) (from : ℕ)
      → due c execute (heap p.1) ≡ some (s, from)
      → CaughtUp until y s from)

  due_inverted :
      (active : Bool) (start : Option ℕ) (r s : SchedulableEntity) (from : ℕ)
      → ◌≡◌ {A = Option (SchedulableEntity × ℕ)}
          (if not active then none else elim start [ none ↦ none | some f ↦ some (r, f) ])
          (some (s, from))
      → (active ≡ true) × (r ≡ s)
  due_inverted false start r s from e = absurd (cc e)
  due_inverted true none r s from e = absurd (cc e)
  due_inverted true (some f) r s from e = (refl, ap (λ p. p.0) (some-equal e))

  due-active :
      (o : Option GoCronJob) (s : SchedulableEntity) (from : ℕ)
      → due c execute o ≡ some (s, from)
      → s.active ≡ true
  due-active none s from e = absurd (cc e)
  due-active (some job) s from e =
      let (on, same) =
        due_inverted job.schedule.active job.catchup_from_time job.schedule s from e in
      sym (ap (λ x. x.active) same) ∙ on

  catch_up_single_schedule_ends :
      (fuel : ℕ) (s : SchedulableEntity) (from until : ℕ) (x : X)
      → IsForward c s
      → until - from < fuel
      → (times : List ℕ) × Firings c s until from times
        × (catch_up_single_schedule c execute fuel s from until x
            ≡ some (execute_times c execute times s x))
  unfolding catch_up_single_schedule
  catch_up_single_schedule_ends fuel s from until x forward enough =
      let (times, found, firings) = get_catch_up_times-Firings c s fuel from until forward enough in
      (times, firings, rw (catch_up_single_schedule, found) refl)

  catchup_all-none :
      (fuel : ℕ) (heap : ℕ → Option GoCronJob) (n : String) (a : ℕ) (jobs : List (String × ℕ))
      (until : ℕ) (x : X)
      → due c execute (heap a) ≡ none
      → catchup_all c execute fuel heap ((n, a) ∷ jobs) until x
        ≡ catchup_all c execute fuel heap jobs until x
  unfolding catchup_all
  catchup_all-none fuel heap n a jobs until x e = rw (catchup_all, e) refl

  catchup_all-due :
      (fuel : ℕ) (heap : ℕ → Option GoCronJob) (n : String) (a : ℕ) (jobs : List (String × ℕ))
      (until : ℕ) (x : X) (s : SchedulableEntity) (from : ℕ)
      → due c execute (heap a) ≡ some (s, from)
      → catchup_all c execute fuel heap ((n, a) ∷ jobs) until x
        ≡ and_then c execute
            (catch_up_single_schedule c execute fuel s from until x)
            (catchup_all c execute fuel heap jobs until)
  unfolding catchup_all
  catchup_all-due fuel heap n a jobs until x s from e = rw (catchup_all, e) refl

  and_then_err :
      (p : Result (Unit {0}) × X) (rest : X → Option (Bool × X)) (e : Error)
      → p.0 ≡ err e
      → and_then c execute (some p) rest ≡ some (false, p.1)
  and_then_err (err f, y) rest e same = refl
  and_then_err (ok u, y) rest e same = absurd (cc same)

  and_then_ok :
      (p : Result (Unit {0}) × X) (rest : X → Option (Bool × X))
      → p.0 ≡ ok tt
      → and_then c execute (some p) rest ≡ rest p.1
  and_then_ok (err f, y) rest same = absurd (cc same)
  and_then_ok (ok u, y) rest same = refl

  All-map {ℓ κ μ} :
      {A : Type ℓ} {P : A → Type κ} {Q : A → Type μ} (xs : List A)
      → ((x : A) → P x → Q x)
      → All P xs
      → All Q xs
  All-map [] f ps = tt
  All-map (x ∷ xs) f (p, ps) = (f x p, All-map xs f ps)

  -- Where the schedules of the jobs that are due move forward, a catch-up with more fuel than the
  -- time until which it runs ends. It keeps what is done, and if it reports success, every firing
  -- that a due job missed is done.
  pub catchup_all-Complete :
      (fuel : ℕ) (heap : ℕ → Option GoCronJob) (jobs : List (String × ℕ)) (until : ℕ) (x : X)
      → ((a : ℕ) (s : SchedulableEntity) (from : ℕ)
          → due c execute (heap a) ≡ some (s, from)
          → IsForward c s)
      → until < fuel
      → (b : Bool) × (y : X) × (catchup_all c execute fuel heap jobs until x ≡ some (b, y))
        × (b ≡ true → AllCaughtUp heap until y jobs)
        × ((u : ℕ) (r : SchedulableEntity) → Done u r x → Done u r y)
  unfolding catchup_all
  catchup_all-Complete fuel heap [] until x forward enough =
      (true, x, refl, λ fine. tt, λ u r done. done)
  catchup_all-Complete fuel heap ((n, a) ∷ jobs) until x forward enough =
      elim (Option-cases (due c execute (heap a))) [
        | inl e ↦
            let (b, y, same, caught, kept) =
              catchup_all-Complete fuel heap jobs until x forward enough in
            (
              b,
              y,
              catchup_all-none fuel heap n a jobs until x e ∙ same,
              λ fine. (λ s from f. absurd (cc (e, f)), caught fine),
              kept,
            )
        | inr ((s, from), e) ↦
            let (times, firings, one) =
              catch_up_single_schedule_ends fuel s from until x (forward a s from e)
                (omega arith) in
            let run = execute_times c execute times s x in
            let first =
              catchup_all-due fuel heap n a jobs until x s from e
              ∙ ap (λ o. and_then c execute o (catchup_all c execute fuel heap jobs until)) one in
            elim (Result-cases run.0) [
              | inl (f, failed) ↦ (
                false,
                run.1,
                first ∙ and_then_err run (catchup_all c execute fuel heap jobs until) f failed,
                λ fine. absurd (cc fine),
                λ u r done. execute_times-keeps times s x u r done,
              )
              | inr (u, fine) ↦
                  let (b, y, same, caught, kept) =
                    catchup_all-Complete fuel heap jobs until run.1 forward enough in
                  (
                    b,
                    y,
                    first
                        ∙ and_then_ok run (catchup_all c execute fuel heap jobs until) fine
                        ∙ same,
                    λ good. (
                      λ r start f.
                          subst (λ (p : SchedulableEntity × ℕ). CaughtUp until y p.0 p.1)
                            (some-equal (sym e ∙ f))
                            (
                              times,
                              firings,
                              All-map times (λ t done. kept t s done)
                                  (execute_times-Done times s x (due-active (heap a) s from e)
                                    fine),
                            ),
                      caught good,
                    ),
                    λ v r done. kept v r (execute_times-keeps times s x v r done),
                  )
            ]
      ]
