-- ===== src/Scheduler/Snapshoter.antt =====
-- The snapshots of the scheduler and where they are kept (scheduler/snapshoter/snapshot_v1.go,
-- scheduler/snapshoter/versioned_snapshot.go, scheduler/snapshoter/snapshoter.go). The gob codec and
-- the database are parameters.
pub mod RoundTrip
use flyteadmin.Scheduler.Core.{store, load}
use flyteadmin.Common.{
  flyte_admin, Code, foreign, ok, err, ◌==◌, Bool, ℕ, Error, String, if◌then◌else◌, Option, List,
  Result, ◌≡◌, ◌>>=◌, true, false, none, some, [], ◌∷◌, suc,
}

abbrev pub Bytes : Type 0
Bytes = List ℕ

-- `SnapshotV1`: the last time of each schedule name.
abbrev pub SnapshotV1 : Type 0
SnapshotV1 = List (String × ℕ)

-- An encoder gives what it has written, and its failure if it fails.
pub record Gob : Type 0 where
  pub encode_times : SnapshotV1 → Bytes × Option Error
  pub decode_times : Bytes → Result SnapshotV1
  pub encode_versioned : ℕ → Bytes → Bytes × Option Error
  pub decode_versioned : Bytes → Result (ℕ × Bytes)

-- The table of snapshots; `read` gives the last one written.
pub record SnapshotRepo : Type 1 where
  pub Db : Type 0
  pub write_db : Db → Bytes → Option Error × Db
  pub read_db : Db → Result Bytes

unfoldable pub get_last_execution_time : SnapshotV1 → String → Option ℕ
get_last_execution_time s key = load key s

unfoldable pub update_last_execution_time : SnapshotV1 → String → ℕ → SnapshotV1
update_last_execution_time s key t = store key t s

abbrev pub is_empty : SnapshotV1 → Bool
is_empty [] = true
is_empty (x ∷ xs) = false

module _ (gob : Gob) where
  unfoldable pub write_snapshot : SnapshotV1 → Bytes × Option Error
  write_snapshot s =
      let (contents, failure) = gob.encode_times s in
      elim failure [ some e ↦ ([], some e) | none ↦ gob.encode_versioned 1 contents ]

  unfoldable pub read_snapshot : Bytes → Result SnapshotV1
  read_snapshot b = do
    (version, ser) ← gob.decode_versioned b
    if version == 1 then gob.decode_times ser else err (foreign 3)

module _ (repo : SnapshotRepo) where
  pub record Persistence : Type 0 where
    pub db : repo.Db
    pub snapshot_creation_errors : ℕ
    pub snapshot_save_errors : ℕ

-- A metric that goes up on a failure.
abbrev pub count : Option Error → ℕ → ℕ
count none n = n
count (some e) n = suc n

module _ (gob : Gob) (repo : SnapshotRepo) where
  -- What could be written is saved, even where the writing failed.
  unfoldable pub save : SnapshotV1 → Persistence repo → Persistence repo
  save s p =
      if is_empty s
      then p
      else let (bytes, failure) = write_snapshot gob s in
        let (refused, after) = repo.write_db p.db bytes in
        record p {
          db = after;
          snapshot_creation_errors = count failure p.snapshot_creation_errors;
          snapshot_save_errors = count refused p.snapshot_save_errors;
        }

  abbrev pub is_not_found : Error → Bool
  is_not_found (flyte_admin Code.not_found r) = true
  is_not_found _ = false

  unfoldable pub read : Persistence repo → Result SnapshotV1
  read p = elim (repo.read_db p.db) [
    | err e ↦ if is_not_found e then ok [] else err e
    | ok bytes ↦ read_snapshot gob bytes
  ]
