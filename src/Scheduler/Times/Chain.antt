-- ===== src/Scheduler/Times/Chain.antt =====
-- What the times of a catch-up are, and when the loop ends.
use flyteadmin.Scheduler.Times.{
  hour_length, to_int64, minute_length, get_fixed_rate_duration_from_schedule, catch_up_loop,
  get_scheduled_time, get_catch_up_times,
}
use flyteadmin.Scheduler.{
  day, hour, minute, other_unit, FixedRateUnit, SchedulableEntity, CronTimes,
}
use mathlib.Core.List.{append-nil, append_assoc}
use flyteadmin.Common.{
  ◌*◌, pos, sym, false, true, inl, ltb→lt, zero, refl, ◌∙◌, ap, inr, ltb, Bool-cases, ◌++◌, arith,
  ◌∷◌, ◌<◌, some, [], suc, ◌≤◌, ok, ◌-◌, List, ℕ, ◌≡◌,
}

module _ (c : CronTimes) (s : SchedulableEntity) where
  -- The firings of the schedule after `from`, up to the first that is not before `to`.
  pub data Firings (to : ℕ) : ℕ → List ℕ → Type 0 where
    over : {from : ℕ} → to ≤ from → Firings to from []
    fires :
        {from next : ℕ} {rest : List ℕ}
        → from < to
        → get_scheduled_time c s from ≡ ok next
        → Firings to next rest
        → Firings to from (next ∷ rest)

  -- Every firing is later than the time before it.
  abbrev pub IsForward : Type 0
  IsForward = (t : ℕ) → (next : ℕ) × (get_scheduled_time c s t ≡ ok next) × (t < next)

  catch_up_loop-over :
      (fuel from to : ℕ) (times : List ℕ)
      → ltb from to ≡ false
      → catch_up_loop c (suc fuel) s from to times ≡ some (ok times)
  unfolding catch_up_loop
  catch_up_loop-over fuel from to times e = rw (catch_up_loop, e) refl

  catch_up_loop-next :
      (fuel from to next : ℕ) (times : List ℕ)
      → ltb from to ≡ true
      → get_scheduled_time c s from ≡ ok next
      → catch_up_loop c (suc fuel) s from to times
        ≡ catch_up_loop c fuel s next to (times ++ next ∷ [])
  unfolding catch_up_loop
  catch_up_loop-next fuel from to next times e found = rw (catch_up_loop, e, found) refl

  catch_up_loop-Firings :
      (fuel from to : ℕ) (times : List ℕ)
      → IsForward
      → to - from < fuel
      → (more : List ℕ) × (catch_up_loop c fuel s from to times ≡ some (ok (times ++ more)))
        × Firings to from more
  catch_up_loop-Firings zero from to times forward enough = absurd (omega arith)
  catch_up_loop-Firings (suc fuel) from to times forward enough = elim (Bool-cases (ltb from to)) [
    | inr e ↦ (
      [],
      catch_up_loop-over fuel from to times e ∙ ap (λ l. some (ok l)) (sym (append-nil times)),
      over (ground arith),
    )
    | inl e ↦
        let (next, found, later) = forward from in
        let (more, same, firings) =
          catch_up_loop-Firings fuel next to (times ++ next ∷ []) forward (ground arith) in
        (
          next ∷ more,
          catch_up_loop-next fuel from to next times e found
              ∙ same
              ∙ ap (λ l. some (ok l)) (append_assoc times (next ∷ []) more),
          fires (ltb→lt from to e) found firings,
        )
  ]

  -- Where the schedule moves forward and the fuel is more than the time to catch up, the catch-up
  -- ends, and its times are the firings after `from`, each computed from the one before it, the
  -- last of them the first not before `to`.
  pub get_catch_up_times-Firings :
      (fuel from to : ℕ)
      → IsForward
      → to - from < fuel
      → (times : List ℕ) × (get_catch_up_times c fuel s from to ≡ some (ok times))
        × Firings to from times
  unfolding get_catch_up_times
  get_catch_up_times-Firings fuel from to forward enough =
      catch_up_loop-Firings fuel from to [] forward enough

-- The number of nanoseconds of a schedule's unit.
abbrev pub unit_length : FixedRateUnit → ℕ
unit_length minute = minute_length
unit_length hour = hour_length
unit_length day = hour_length * 24
unit_length (other_unit u) = 0

to_int64-small : (n : ℕ) → n < 9223372036854775808 → to_int64 n ≡ pos n
unfolding to_int64
to_int64-small n small = ground arith

-- Every rate up to 106751 of a known unit, which is 292 years of days, is a duration that does not
-- wrap around in 64 bits: the value times the unit, so it is positive when the value is.
pub get_fixed_rate_duration_from_schedule-exact :
    (u : FixedRateUnit) (value : ℕ)
    → 0 < unit_length u
    → value ≤ 106751
    → get_fixed_rate_duration_from_schedule u value ≡ ok (pos (value * unit_length u))
unfolding get_fixed_rate_duration_from_schedule
get_fixed_rate_duration_from_schedule-exact minute value known small =
    ap ok (to_int64-small (value * minute_length) (omega arith))
get_fixed_rate_duration_from_schedule-exact hour value known small =
    ap ok (to_int64-small (value * hour_length) (omega arith))
get_fixed_rate_duration_from_schedule-exact day value known small =
    ap ok (to_int64-small (value * hour_length * 24) (omega arith) ∙ ap pos (omega arith))
get_fixed_rate_duration_from_schedule-exact (other_unit u) value known small = absurd (omega arith)
