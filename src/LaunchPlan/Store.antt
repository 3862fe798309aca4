-- ===== src/LaunchPlan/Store.antt =====
-- The table of launch plans as the manager uses it (pkg/repositories/gormimpl/launch_plan_repo.go).
-- The statements are those of gorm and of the database: they are parameters.
use flyteadmin.Common.{
  ℕ, true, List, [], ◌∷◌, Result, ok, err, Error, Option, some, none, if◌then◌else◌, ◌≡◌, Code,
  flyte_admin, Reason, ◌≢◌,
}
use flyteadmin.Execution.Repo.{keep_bytes, keep_text, keep_number, keep_option}
use flyteadmin.LaunchPlan.{is_complete, LaunchPlan, LaunchPlanKey, same_plan, active}
use flyteadmin.Validation.{NamedEntityIdentifier}

abbrev pub name_of : LaunchPlanKey → NamedEntityIdentifier
name_of k = record { project = k.project; domain = k.domain; name = k.name }

-- What gorm's `Updates` and `UpdateColumns` with a struct document: a column is written where the
-- field is not the zero value of its type.
abbrev pub overlay_plan : LaunchPlan → LaunchPlan → LaunchPlan
overlay_plan old new = record {
  created_at = keep_number old.created_at new.created_at;
  updated_at = keep_number old.updated_at new.updated_at;
  key = new.key;
  spec = keep_bytes old.spec new.spec;
  workflow_id = keep_number old.workflow_id new.workflow_id;
  closure = keep_bytes old.closure new.closure;
  state = keep_option old.state new.state;
  digest = keep_bytes old.digest new.digest;
  schedule_type = keep_text old.schedule_type new.schedule_type;
}

-- The rows by their keys.
abbrev pub Rows : Type 0
Rows = LaunchPlanKey → Option LaunchPlan

abbrev pub write_with : (LaunchPlan → LaunchPlan) → LaunchPlan → Rows → Rows
write_with change m rows k =
    if same_plan m.key k
    then elim (rows k) [ none ↦ none | some old ↦ some (change old) ]
    else rows k

abbrev pub written : LaunchPlan → Rows → Rows
written m rows = write_with (λ old. overlay_plan old m) m rows

-- `row` is the row with exactly this primary key; `list_active` is `List` with the filters of
-- `GetActiveLaunchPlanVersionFilters` and limit 1; `now` is the time that `Updates` and `Create`
-- put into a row.
pub record PlansDb : Type 1 where
  pub Tx : Type 0
  pub row : List LaunchPlan → Rows
  pub now : List LaunchPlan → ℕ
  pub get : List LaunchPlan → LaunchPlanKey → Result LaunchPlan
  pub list_active : List LaunchPlan → NamedEntityIdentifier → Result (List LaunchPlan)
  pub create : List LaunchPlan → LaunchPlan → Result (List LaunchPlan)
  pub update : List LaunchPlan → LaunchPlan → Result (List LaunchPlan)
  pub begin : List LaunchPlan → Tx
  pub update_columns : Tx → LaunchPlan → Tx
  pub error : Tx → Option Error
  pub commit : Tx → Result (List LaunchPlan)

abbrev pub disable_columns : (db : PlansDb) → db.Tx → Option LaunchPlan → db.Tx
disable_columns db tx none = tx
disable_columns db tx (some d) = db.update_columns tx d

abbrev pub unless_failed {ℓ} : {A : Type ℓ} → Option Error → Result A → Result A
unless_failed (some e) r = err e
unless_failed none r = r

-- `SetActive`. A rollback leaves the table as it was.
unfoldable pub set_active :
    (db : PlansDb) → List LaunchPlan → LaunchPlan → Option LaunchPlan → Result (List LaunchPlan)
set_active db t to_enable to_disable =
    let disabled = disable_columns db (db.begin t) to_disable in
    let enabled = db.update_columns disabled to_enable in
    unless_failed (db.error disabled) (unless_failed (db.error enabled) (db.commit enabled))

abbrev pub IsActive : LaunchPlan → Type 0
IsActive x = x.state ≡ some active

-- What the manager relies on: keys are unique, the query for the active version finds one if there
-- is one, a statement writes the row of its key and no other, and a transaction that commits has
-- performed its statements.
pub record IsPlansDb (db : PlansDb) : Type 0 where
  pub row-key :
      (t : List LaunchPlan) (k : LaunchPlanKey) (x : LaunchPlan) → db.row t k ≡ some x → x.key ≡ k
  pub get-row :
      (t : List LaunchPlan) (k : LaunchPlanKey) (x : LaunchPlan)
      → db.get t k ≡ ok x
      → db.row t x.key ≡ some x
  pub get-complete :
      (t : List LaunchPlan) (k : LaunchPlanKey) (x : LaunchPlan)
      → is_complete k ≡ true
      → db.get t k ≡ ok x
      → x.key ≡ k
  pub list-empty :
      (t : List LaunchPlan) (k : LaunchPlanKey) (x : LaunchPlan)
      → db.list_active t (name_of k) ≡ ok []
      → db.row t k ≡ some x
      → x.state ≢ some active
  pub list-not_found :
      (t : List LaunchPlan) (k : LaunchPlanKey) (x : LaunchPlan) (r : Option Reason)
      → db.list_active t (name_of k) ≡ err (flyte_admin Code.not_found r)
      → db.row t k ≡ some x
      → x.state ≢ some active
  pub list-found :
      (t : List LaunchPlan) (n : NamedEntityIdentifier) (m : LaunchPlan) (ms : List LaunchPlan)
      → db.list_active t n ≡ ok (m ∷ ms)
      → (db.row t m.key ≡ some m) × (name_of m.key ≡ n) × IsActive m × (ms ≡ [])
  pub row-create :
      (t t' : List LaunchPlan) (x : LaunchPlan) (k : LaunchPlanKey)
      → db.create t x ≡ ok t'
      → db.row t' k ≡ (
          if same_plan x.key k
          then some (record x { created_at = db.now t; updated_at = db.now t })
          else db.row t k)
  pub row-update :
      (t t' : List LaunchPlan) (m : LaunchPlan) (k : LaunchPlanKey)
      → db.update t m ≡ ok t'
      → db.row t' k
        ≡ write_with (λ old. record (overlay_plan old m) { updated_at = db.now t }) m (db.row t) k
  pub row-commit :
      (t t' : List LaunchPlan) (m : LaunchPlan) (k : LaunchPlanKey)
      → db.commit (db.update_columns (db.begin t) m) ≡ ok t'
      → db.row t' k ≡ written m (db.row t) k
  pub row-commit_both :
      (t t' : List LaunchPlan) (d m : LaunchPlan) (k : LaunchPlanKey)
      → db.commit (db.update_columns (db.update_columns (db.begin t) d) m) ≡ ok t'
      → db.row t' k ≡ written m (written d (db.row t)) k
