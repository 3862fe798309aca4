-- ===== src/Scheduler/Core/Marks.antt =====
-- The times that the scheduler keeps of its jobs: the last run, the snapshot of the last runs, and
-- the time from which a job catches up after a start (scheduler/core/gocron_scheduler.go,
-- scheduler/core/gocron_job.go).
use flyteadmin.Scheduler.Core.Steps.{IsReachable-Synced, IsReachable}
use flyteadmin.Scheduler.Core.Synced.{IsCronLib}
use flyteadmin.Scheduler.Core.Maps.{
  load-store-other, load_past, load-store-same, load_here, name-cases, Unique,
}
use flyteadmin.Scheduler.Core.{
  Scheduler, store, load, calculate_snapshot, last_times, HashName, run, CronLib, GoCronJob,
}
use flyteadmin.Common.{
  ◌∙◌, ltb, sym, ap, Bool-cases, inr, Option-cases, ◌≤◌, inl, All, ◌⊎◌, arith, refl, String, Memᴰ,
  ◌<◌, Option, List, ℕ, ◌≡◌, ◌∷◌, [], some, none,
}

-- Runs of one job at the times, in order.
abbrev pub run_all : GoCronJob → List ℕ → GoCronJob
run_all job [] = job
run_all job (t ∷ ts) = run_all (run job t) ts

-- `m` is the latest of the times.
abbrev pub IsLatest : ℕ → List ℕ → Type 0
IsLatest m ts = Memᴰ m ts × All (λ t. t ≤ m) ts

run_last :
    (job : GoCronJob) (last t : ℕ)
    → job.last_time ≡ some last
    → ((run job t).last_time ≡ some t) × (last < t)
      ⊎ ((run job t).last_time ≡ some last) × (t ≤ last)
run_last job last t e = elim (Bool-cases (ltb last t)) [
  | inl f ↦ inl (rw (e, f) refl, ground arith)
  | inr f ↦ inr (rw (e, f) refl, ground arith)
]

run_all_from :
    (job : GoCronJob) (last : ℕ) (ts : List ℕ)
    → job.last_time ≡ some last
    → (m : ℕ) × ((run_all job ts).last_time ≡ some m) × IsLatest m (last ∷ ts)
run_all_from job last [] e = (last, e, (Memᴰ.head refl, (omega arith, tt)))
run_all_from job last (t ∷ ts) e = elim (run_last job last t e) [
  | inl (same, before) ↦
      let (m, found, (mem, (above, rest))) = run_all_from (run job t) t ts same in
      (m, found, (Memᴰ.tail mem, (omega arith, (above, rest))))
  | inr (same, before) ↦
      let (m, found, (mem, (above, rest))) = run_all_from (run job t) last ts same in
      (m, found, (with_one m last t ts mem, (above, (omega arith, rest))))
]
  where
    with_one : (m last t : ℕ) (ts : List ℕ) → Memᴰ m (last ∷ ts) → Memᴰ m (last ∷ t ∷ ts)
    with_one m last t ts (Memᴰ.head e) = Memᴰ.head e
    with_one m last t ts (Memᴰ.tail h) = Memᴰ.tail (Memᴰ.tail h)

-- A new job that has run at some times, in whatever order they came, keeps the latest of them.
pub run_all-Latest :
    (job : GoCronJob) (t : ℕ) (ts : List ℕ)
    → job.last_time ≡ none
    → (m : ℕ) × ((run_all job (t ∷ ts)).last_time ≡ some m) × IsLatest m (t ∷ ts)
run_all-Latest job t ts e = run_all_from (run job t) t ts (rw e refl)

-- The last time of the job at an address that the store may have.
abbrev pub time_of : (ℕ → Option GoCronJob) → Option ℕ → Option ℕ
time_of heap none = none
time_of heap (some a) = elim (heap a) [ none ↦ none | some job ↦ job.last_time ]

module _ (heap : ℕ → Option GoCronJob) where
  time_of-none : (a : ℕ) → heap a ≡ none → time_of heap (some a) ≡ none
  time_of-none a e = rw (time_of, e) refl

  time_of-job :
      (a : ℕ) (job : GoCronJob) → heap a ≡ some job → time_of heap (some a) ≡ job.last_time
  time_of-job a job e = rw (time_of, e) refl

  last_times_skip :
      (m : String) (a : ℕ) (rest : List (String × ℕ))
      → time_of heap (some a) ≡ none
      → last_times heap ((m, a) ∷ rest) ≡ last_times heap rest
  last_times_skip m a rest e = elim (Option-cases (heap a)) [
    | inl f ↦ rw (last_times, f) refl
    | inr (job, f) ↦ rw (last_times, f, sym (time_of-job a job f) ∙ e) refl
  ]

  last_times_mark :
      (m : String) (a t : ℕ) (rest : List (String × ℕ))
      → time_of heap (some a) ≡ some t
      → last_times heap ((m, a) ∷ rest) ≡ store m t (last_times heap rest)
  last_times_mark m a t rest e = elim (Option-cases (heap a)) [
    | inl f ↦ absurd (cc (time_of-none a f, e))
    | inr (job, f) ↦ rw (last_times, f, sym (time_of-job a job f) ∙ e) refl
  ]

  load-last_times :
      (n : String) (l : List (String × ℕ))
      → Unique l
      → load n (last_times heap l) ≡ time_of heap (load n l)
  load-last_times n [] u = refl
  load-last_times n ((m, a) ∷ rest) (absent, u) = elim (name-cases n m) [
    | inl same ↦ elim (Option-cases (time_of heap (some a))) [
      | inl e ↦
          ap (load n) (last_times_skip m a rest e)
          ∙ load-last_times n rest u
          ∙ ap (time_of heap) (ap (λ x. load x rest) same ∙ absent)
          ∙ sym e
          ∙ ap (time_of heap) (sym (load_here n m a rest same))
      | inr (t, e) ↦
          ap (load n) (last_times_mark m a t rest e)
          ∙ ap (λ x. load x (store m t (last_times heap rest))) same
          ∙ load-store-same m t (last_times heap rest)
          ∙ sym e
          ∙ ap (time_of heap) (sym (load_here n m a rest same))
    ]
    | inr differ ↦ elim (Option-cases (time_of heap (some a))) [
      | inl e ↦
          ap (load n) (last_times_skip m a rest e)
          ∙ load-last_times n rest u
          ∙ ap (time_of heap) (sym (load_past n m a rest differ))
      | inr (t, e) ↦
          ap (load n) (last_times_mark m a t rest e)
          ∙ load-store-other n m t (last_times heap rest) differ
          ∙ load-last_times n rest u
          ∙ ap (time_of heap) (sym (load_past n m a rest differ))
    ]
  ]

module _ (lib : CronLib) (hash : HashName) (laws : IsCronLib lib) where
  -- The snapshot of a reachable state has, under each name, the last time of the job that the store
  -- has under it, and nothing under a name without a job or with a job that has not run.
  pub calculate_snapshot-times :
      (g : Scheduler lib) (n : String)
      → IsReachable lib hash laws g
      → load n (calculate_snapshot lib g) ≡ time_of g.heap (load n g.job_store)
  unfolding calculate_snapshot
  calculate_snapshot-times g n reached =
      load-last_times g.heap n g.job_store (IsReachable-Synced lib hash laws g reached).unique
