-- ===== src/Scheduler/Core/Kept.antt =====
-- The scheduler's operations keep the job store and the cron library together
-- (scheduler/core/gocron_scheduler.go).
use flyteadmin.Scheduler.Core.Maps.{
  store-Unique, delete-Unique, load-store-other, load-delete-other, write-same, load-delete-same,
  load-store-same, name-cases, number-cases, write-other,
}
use flyteadmin.Scheduler.Core.Synced.{is_cron, IsStored, IsHeld, IsAdded, IsSynced, IsCronLib}
use flyteadmin.Scheduler.Core.{
  new_job, get_schedule_name, delete, store, load, write, GoCronJob, SchedulableEntity, Scheduler,
  HashName, CronLib,
}
use flyteadmin.Common.{
  inr, Bool-cases, inl, sym, ◌∙◌, some-equal, arith, ap, ◌≢◌, Option, ℕ, String, ◌≡◌, suc, some,
  none,
}

module _ (lib : CronLib) (hash : HashName) (laws : IsCronLib lib) where
  -- The state with a new job in the store.
  abbrev pub with_job : Scheduler lib → SchedulableEntity → GoCronJob × lib.Cron → Scheduler lib
  with_job g s (job, cron) = record g {
    cron = cron;
    heap = write g.fresh job g.heap;
    fresh = suc g.fresh;
    job_store = store (get_schedule_name hash s) g.fresh g.job_store;
  }

  pub used-ne-fresh :
      (g : Scheduler lib)
      → IsSynced lib g
      → (a : ℕ) (job : GoCronJob) → g.heap a ≡ some job
      → a ≢ g.fresh
  used-ne-fresh g sync a job there same =
      cc (there, ap g.heap same, sync.unallocated g.fresh (omega arith))

  module _ (g : Scheduler lib) (s : SchedulableEntity) (last : Option ℕ) (job : GoCronJob)
      (cron : lib.Cron) (sync : IsSynced lib g)
      (absent : load (get_schedule_name hash s) g.job_store ≡ none)
      (added : IsAdded lib hash laws g.cron g.fresh (new_job lib hash s last) (job, cron)) where
    with_job-IsStored :
        (n : String) (a : ℕ)
        → load n (with_job g s (job, cron)).job_store ≡ some a
        → IsStored lib (with_job g s (job, cron)) n a
    with_job-IsStored n a present =
        let (id, (nonzero, unused, here, others), kind, named, start, cron_id, fixed_id) = added in
        let name = get_schedule_name hash s in
        elim (name-cases n name) [
          | inl e ↦
              let new = some-equal (
                sym present
                ∙ ap (λ m. load m (store name g.fresh g.job_store)) e
                ∙ load-store-same name g.fresh g.job_store) in
              (
                job,
                ap (write g.fresh job g.heap) new ∙ write-same g.fresh job g.heap,
                named ∙ sym e,
                id,
                here ∙ ap some (sym new),
                cron_id,
                fixed_id,
              )
          | inr differ ↦
              let (j, there, nm, i, ent, c, f) =
                sync.stored n a
                  (sym (load-store-other n name g.fresh g.job_store differ) ∙ present) in
              (
                j,
                write-other g.fresh a job g.heap (used-ne-fresh g sync a j there) ∙ there,
                nm,
                i,
                others i (λ same. absurd (cc (ent, ap (lib.entry g.cron) same, unused))) ∙ ent,
                c,
                f,
              )
        ]

    with_job-IsHeld :
        (i a : ℕ) → lib.entry cron i ≡ some a → IsHeld lib (with_job g s (job, cron)) i a
    with_job-IsHeld i a ent =
        let (id, (nonzero, unused, here, others), kind, named, start, cron_id, fixed_id) = added in
        let name = get_schedule_name hash s in
        elim (number-cases i id) [
          | inl e ↦
              let new = some-equal (sym ent ∙ ap (lib.entry cron) e ∙ here) in
              (
                job,
                ap (write g.fresh job g.heap) new ∙ write-same g.fresh job g.heap,
                λ k. (
                  ap (λ m. load m (store name g.fresh g.job_store)) named
                      ∙ load-store-same name g.fresh g.job_store
                      ∙ ap some (sym new),
                  cron_id k ∙ sym e,
                ),
              )
          | inr differ ↦
              let (j, there, in_store) = sync.held i a (sym (others i differ) ∙ ent) in
              (
                j,
                write-other g.fresh a job g.heap (used-ne-fresh g sync a j there) ∙ there,
                λ k. (
                  load-store-other j.name_of_schedule name g.fresh g.job_store (λ same.
                        absurd (cc ((in_store k).0, ap (λ m. load m g.job_store) same, absent)))
                      ∙ (in_store k).0,
                  (in_store k).1,
                ),
              )
        ]

    pub with_job-Synced : IsSynced lib (with_job g s (job, cron))
    with_job-Synced =
        let name = get_schedule_name hash s in
        let (id, (nonzero, unused, here, others), kind, named, start, cron_id, fixed_id) = added in
        record {
          stored = with_job-IsStored;
          held = with_job-IsHeld;
          unallocated = λ a above.
              write-other g.fresh a job g.heap (omega arith) ∙ sync.unallocated a (omega arith);
          unique = store-Unique name g.fresh g.job_store sync.unique;
          entry_zero = others 0 (λ e. nonzero (sym e)) ∙ sync.entry_zero;
        }

  module _ (g : Scheduler lib) (n : String) (a : ℕ) (job : GoCronJob) (sync : IsSynced lib g)
      (present : load n g.job_store ≡ some a) (there : g.heap a ≡ some job) where
    abbrev pub without_job : Scheduler lib
    without_job = record g {
      cron = lib.remove g.cron job.entry_id;
      job_store = delete n g.job_store;
    }

    -- The entry that goes belongs to no other job.
    removed-entry : (i b : ℕ) → lib.entry g.cron i ≡ some b → b ≢ a → i ≢ job.entry_id
    removed-entry i b ent differ same =
        let (j, at_a, nm, id, ent_a, c, f) = sync.stored n a present in
        let eq = some-equal (sym at_a ∙ there) in
        elim (Bool-cases (is_cron j)) [
          | inl k ↦ differ (
              some-equal (
                sym ent
                ∙ ap (lib.entry g.cron) (same ∙ sym (ap (λ x. x.entry_id) eq) ∙ c k)
                ∙ ent_a))
          | inr k ↦ absurd (
              cc (
                ent,
                ap (lib.entry g.cron) (same ∙ sym (ap (λ x. x.entry_id) eq) ∙ f k),
                sync.entry_zero,
              ))
        ]

    without_job-IsStored :
        (m : String) (b : ℕ) → load m (delete n g.job_store) ≡ some b → IsStored lib without_job m b
    without_job-IsStored m b found = elim (name-cases m n) [
      | inl e ↦
          absurd
            (cc (found, ap (λ x. load x (delete n g.job_store)) e, load-delete-same n g.job_store))
      | inr differ ↦
          let (j, at_b, nm, id, ent, c, f) =
            sync.stored m b (sym (load-delete-other m n g.job_store differ) ∙ found) in
          let (j2, at_a, nm2, i2, ent2, c2, f2) = sync.stored n a present in
          (
            j,
            at_b,
            nm,
            id,
            laws.entry_kept g.cron job.entry_id id (
                  removed-entry id b ent (λ same. differ (
                    sym nm
                    ∙ ap (λ x. x.name_of_schedule) (some-equal (sym at_b ∙ ap g.heap same ∙ at_a))
                    ∙ nm2)))
                ∙ ent,
            c,
            f,
          )
    ]

    without_job-IsHeld :
        (i b : ℕ)
        → lib.entry (lib.remove g.cron job.entry_id) i ≡ some b
        → IsHeld lib without_job i b
    without_job-IsHeld i b ent = elim (number-cases i job.entry_id) [
      | inl e ↦ absurd (
          cc (
            ent,
            ap (lib.entry (lib.remove g.cron job.entry_id)) e,
            laws.entry_removed g.cron job.entry_id,
          ))
      | inr differ ↦
          let (j, at_b, in_store) =
            sync.held i b (sym (laws.entry_kept g.cron job.entry_id i differ) ∙ ent) in
          (
            j,
            at_b,
            λ k. (
              load-delete-other j.name_of_schedule n g.job_store (λ same. differ (
                    sym (in_store k).1
                    ∙ ap (λ x. x.entry_id)
                        (some-equal (
                          sym at_b
                          ∙ ap g.heap (
                              some-equal
                                (sym (in_store k).0 ∙ ap (λ m. load m g.job_store) same ∙ present))
                          ∙ there))))
                  ∙ (in_store k).0,
              (in_store k).1,
            ),
          )
    ]

    pub without_job-Synced : IsSynced lib without_job
    without_job-Synced = record {
      stored = without_job-IsStored;
      held = without_job-IsHeld;
      unallocated = sync.unallocated;
      unique = delete-Unique n g.job_store sync.unique;
      entry_zero = elim (number-cases 0 job.entry_id) [
        | inl e ↦
            ap (lib.entry (lib.remove g.cron job.entry_id)) e
            ∙ laws.entry_removed g.cron job.entry_id
        | inr differ ↦ laws.entry_kept g.cron job.entry_id 0 differ ∙ sync.entry_zero
      ];
    }
