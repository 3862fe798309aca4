-- ===== src/Scheduler/Snapshoter/RoundTrip.antt =====
-- What is saved is read back (scheduler/snapshoter/snapshoter.go).
use flyteadmin.Scheduler.Snapshoter.{
  count, is_empty, Persistence, save, read, SnapshotV1, write_snapshot, Bytes, read_snapshot, Gob,
  SnapshotRepo,
}
use flyteadmin.Common.{
  ◌∙◌, sym, inl, arith, inr, refl, ap, Option-cases, ℕ, ok, Error, Option, ◌≡◌, false, none, some,
}

-- What the codec and the table promise: what is written without a failure is read back.
pub record IsGob (gob : Gob) : Type 0 where
  pub times_back :
      (s : SnapshotV1)
      → (gob.encode_times s).1 ≡ none
      → gob.decode_times (gob.encode_times s).0 ≡ ok s
  pub versioned_back :
      (v : ℕ) (b : Bytes)
      → (gob.encode_versioned v b).1 ≡ none
      → gob.decode_versioned (gob.encode_versioned v b).0 ≡ ok (v, b)

abbrev pub IsSnapshotRepo : SnapshotRepo → Type 0
IsSnapshotRepo repo =
    (d : repo.Db) (b : Bytes)
    → (repo.write_db d b).0 ≡ none
    → repo.read_db (repo.write_db d b).1 ≡ ok b

module _ (gob : Gob) (repo : SnapshotRepo) (codec : IsGob gob) (table : IsSnapshotRepo repo) where
  write_snapshot_ok :
      (s : SnapshotV1)
      → (gob.encode_times s).1 ≡ none
      → write_snapshot gob s ≡ gob.encode_versioned 1 (gob.encode_times s).0
  unfolding write_snapshot
  write_snapshot_ok s e = rw (write_snapshot, e) refl

  write_snapshot_failed :
      (s : SnapshotV1) (f : Error)
      → (gob.encode_times s).1 ≡ some f
      → (write_snapshot gob s).1 ≡ some f
  unfolding write_snapshot
  write_snapshot_failed s f e = rw (write_snapshot, e) refl

  read_snapshot-write_snapshot :
      (s : SnapshotV1)
      → (write_snapshot gob s).1 ≡ none
      → read_snapshot gob (write_snapshot gob s).0 ≡ ok s
  unfolding read_snapshot
  read_snapshot-write_snapshot s fine = elim (Option-cases (gob.encode_times s).1) [
    | inr (f, e) ↦ absurd (cc (write_snapshot_failed s f e, fine))
    | inl e ↦
        let b = (gob.encode_times s).0 in
        let same = write_snapshot_ok s e in
        ap (λ p. read_snapshot gob p.0) same
        ∙ rw (read_snapshot, codec.versioned_back 1 b (ap (λ p. p.1) (sym same) ∙ fine))
            (codec.times_back s e)
  ]

  count-same : (o : Option Error) (n : ℕ) → count o n ≡ n → o ≡ none
  count-same none n e = refl
  count-same (some f) n e = absurd (omega (arith, e))

  abbrev saved : SnapshotV1 → Persistence repo → Option Error × repo.Db
  saved s p = repo.write_db p.db (write_snapshot gob s).0

  save_full :
      (s : SnapshotV1) (p : Persistence repo)
      → is_empty s ≡ false
      → save gob repo s p ≡ record p {
        db = (saved s p).1;
        snapshot_creation_errors = count (write_snapshot gob s).1 p.snapshot_creation_errors;
        snapshot_save_errors = count (saved s p).0 p.snapshot_save_errors;
      }
  unfolding save
  save_full s p full = rw (save, full) refl

  read_ok :
      (q : Persistence repo) (b : Bytes)
      → repo.read_db q.db ≡ ok b
      → read gob repo q ≡ read_snapshot gob b
  unfolding read
  read_ok q b e = rw (read, e) refl

  -- Under the promises of the codec and of the table, a snapshot with some schedule whose save
  -- counts no failure is what the next read returns.
  pub read-save :
      (s : SnapshotV1) (p : Persistence repo)
      → is_empty s ≡ false
      → (save gob repo s p).snapshot_creation_errors ≡ p.snapshot_creation_errors
      → (save gob repo s p).snapshot_save_errors ≡ p.snapshot_save_errors
      → read gob repo (save gob repo s p) ≡ ok s
  read-save s p full made kept =
      let same = save_full s p full in
      let written =
        count-same (write_snapshot gob s).1 p.snapshot_creation_errors
          (ap (λ x. x.snapshot_creation_errors) (sym same) ∙ made) in
      let stored =
        count-same (saved s p).0 p.snapshot_save_errors
          (ap (λ x. x.snapshot_save_errors) (sym same) ∙ kept) in
      read_ok (save gob repo s p) (write_snapshot gob s).0
        (ap (λ x. repo.read_db x.db) same ∙ table p.db (write_snapshot gob s).0 stored)
      ∙ read_snapshot-write_snapshot s written
