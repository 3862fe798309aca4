-- ===== src/LaunchPlan/Samples.antt =====
-- A table of launch plans with room for one row, a table of schedules with room for one, and the
-- requests that the tests make of the handlers in pkg/manager/impl/launch_plan_manager.go.
use flyteadmin.Validation.{NamedEntityIdentifier}
use flyteadmin.Common.{
  eq_iff, Reason, eq_refl, ℕ, arith, ◌≢◌, ◌≡◌, refl, sym, ap, ◌∙◌, Bool-cases, inl, inr, some, none,
  ok, err, Result, Option, List, [], ◌∷◌, Bool, true, false, if◌then◌else◌, new_flyte_admin_error,
  not_found, flyte_admin, Code, internal, ◌&&◌, str_eq, ◌==◌, ok-injective, some-equal,
}
use flyteadmin.LaunchPlan.{LaunchPlan, LaunchPlanKey, same_plan, active}
use flyteadmin.LaunchPlan.Rows.{same_plan-eq, same_plan_self}
use flyteadmin.LaunchPlan.Store.{
  IsActive, PlansDb, IsPlansDb, Rows, write_with, overlay_plan, name_of,
}

abbrev pub row_of : List LaunchPlan → Rows
row_of [] k = none
row_of (x ∷ t) k = if same_plan x.key k then some x else none

abbrev write_head : (LaunchPlan → LaunchPlan) → LaunchPlan → List LaunchPlan → List LaunchPlan
write_head change m [] = []
write_head change m (x ∷ t) = if same_plan m.key x.key then change x ∷ [] else x ∷ t

row_of-write_head :
    (change : LaunchPlan → LaunchPlan) (m : LaunchPlan) (t : List LaunchPlan) (k : LaunchPlanKey)
    → ((x : LaunchPlan) → (change x).key ≡ m.key)
    → row_of (write_head change m t) k ≡ write_with change m (row_of t) k
row_of-write_head change m [] k keeps = elim (Bool-cases (same_plan m.key k)) [
  | inl e ↦ rw e refl
  | inr e ↦ rw e refl
]
row_of-write_head change m (x ∷ t) k keeps = elim (Bool-cases (same_plan m.key x.key)) [
  | inl e ↦
      let same = same_plan-eq m.key x.key e in
      elim (Bool-cases (same_plan m.key k)) [
        | inl f ↦
            rw (e, f, ap (λ j. same_plan j k) (keeps x) ∙ f, ap (λ j. same_plan j k) (sym same) ∙ f)
              refl
        | inr f ↦
            rw (e, f, ap (λ j. same_plan j k) (keeps x) ∙ f, ap (λ j. same_plan j k) (sym same) ∙ f)
              refl
      ]
  | inr e ↦ elim (Bool-cases (same_plan m.key k)) [
    | inl f ↦ elim (Bool-cases (same_plan x.key k)) [
      | inl g ↦ absurd (
          cc (
            e,
            ap (same_plan m.key) (same_plan-eq m.key k f ∙ sym (same_plan-eq x.key k g)),
            same_plan_self m.key,
          ))
      | inr g ↦ rw (e, f, g) refl
    ]
    | inr f ↦ rw (e, f) refl
  ]
]

abbrev is_one : Option ℕ → Bool
is_one none = false
is_one (some n) = n == active

abbrev state_is_active : LaunchPlan → Bool
state_is_active x = is_one x.state

abbrev same_name : NamedEntityIdentifier → NamedEntityIdentifier → Bool
same_name a b = str_eq a.project b.project && str_eq a.domain b.domain && str_eq a.name b.name

abbrev find_active : List LaunchPlan → NamedEntityIdentifier → Result (List LaunchPlan)
find_active [] n = ok []
find_active (x ∷ t) n =
    if state_is_active x && same_name (name_of x.key) n then ok (x ∷ []) else ok []

abbrev pub get_row : Option LaunchPlan → Result LaunchPlan
get_row none = err (new_flyte_admin_error not_found)
get_row (some x) = ok x

abbrev create_row : List LaunchPlan → LaunchPlan → Result (List LaunchPlan)
create_row [] x = ok (record x { created_at = 7; updated_at = 7 } ∷ [])
create_row (y ∷ t) x = err (new_flyte_admin_error internal)

abbrev pub plans_db : PlansDb
plans_db = record {
  Tx = List LaunchPlan;
  row = row_of;
  now = λ t. 7;
  get = λ t k. get_row (row_of t k);
  list_active = find_active;
  create = create_row;
  update = λ t m. ok (write_head (λ old. record (overlay_plan old m) { updated_at = 7 }) m t);
  begin = λ t. t;
  update_columns = λ t m. write_head (λ old. overlay_plan old m) m t;
  error = λ t. none;
  commit = ok;
}

get_row-ok : (o : Option LaunchPlan) (x : LaunchPlan) → get_row o ≡ ok x → o ≡ some x
get_row-ok none x h = absurd (cc h)
get_row-ok (some y) x h = ap some (ok-injective h)

pub some_if :
    (b : Bool) (x y : LaunchPlan) → (if b then some x else none) ≡ some y → (b ≡ true) × (x ≡ y)
some_if true x y h = (refl, some-equal h)
some_if false x y h = absurd (cc h)

row_of-key :
    (t : List LaunchPlan) (k : LaunchPlanKey) (x : LaunchPlan) → row_of t k ≡ some x → x.key ≡ k
row_of-key [] k x h = absurd (cc h)
row_of-key (y ∷ t) k x h =
    let (e, same) = some_if (same_plan y.key k) y x h in
    ap (λ r. r.key) (sym same) ∙ same_plan-eq y.key k e

row_of_self :
    (t : List LaunchPlan) (k : LaunchPlanKey) (x : LaunchPlan)
    → row_of t k ≡ some x
    → row_of t x.key ≡ some x
row_of_self t k x h = ap (row_of t) (row_of-key t k x h) ∙ h

is_one-eq : (o : Option ℕ) → is_one o ≡ true → o ≡ some active
is_one-eq none h = absurd (cc h)
is_one-eq (some n) h = ground arith

same_name-eq : (a b : NamedEntityIdentifier) → same_name a b ≡ true → a ≡ b
same_name-eq a b h =
    ground (arith, eq_iff a.project b.project, eq_iff a.domain b.domain, eq_iff a.name b.name)

and_parts : (a b : Bool) → (a && b) ≡ true → (a ≡ true) × (b ≡ true)
and_parts true b h = (refl, h)
and_parts false b h = absurd (cc h)

list_if :
    (b : Bool) (x m : LaunchPlan) (ms : List LaunchPlan)
    → ◌≡◌ {A = Result (List LaunchPlan)} (if b then ok (x ∷ []) else ok []) (ok (m ∷ ms))
    → (b ≡ true) × (x ≡ m) × (ms ≡ [])
list_if true x m ms h = (refl, cc (ok-injective h), cc (ok-injective h))
list_if false x m ms h = absurd (cc (ok-injective h))

find_active-found :
    (t : List LaunchPlan) (n : NamedEntityIdentifier) (m : LaunchPlan) (ms : List LaunchPlan)
    → find_active t n ≡ ok (m ∷ ms)
    → (row_of t m.key ≡ some m) × (name_of m.key ≡ n) × IsActive m × (ms ≡ [])
find_active-found [] n m ms h = absurd (cc (ok-injective h))
find_active-found (x ∷ t) n m ms h =
    let (b, same, only) = list_if (state_is_active x && same_name (name_of x.key) n) x m ms h in
    let (on, name) = and_parts (state_is_active x) (same_name (name_of x.key) n) b in
    (
      rw (sym same) (rw (same_plan_self x.key) refl),
      rw (sym same) (same_name-eq (name_of x.key) n name),
      rw (sym same) (is_one-eq x.state on),
      only,
    )

same_name_self : (n : NamedEntityIdentifier) → same_name n n ≡ true
same_name_self n = simp eq_refl

list_if_none :
    (b : Bool) (x : LaunchPlan)
    → ◌≡◌ {A = Result (List LaunchPlan)} (if b then ok (x ∷ []) else ok []) (ok [])
    → b ≡ false
list_if_none true x h = absurd (cc (ok-injective h))
list_if_none false x h = refl

both : (a b : Bool) → a ≡ true → b ≡ true → (a && b) ≡ true
both a b h g = rw (h, g) refl

find_active-none :
    (t : List LaunchPlan) (k : LaunchPlanKey) (x : LaunchPlan)
    → find_active t (name_of k) ≡ ok []
    → row_of t k ≡ some x
    → x.state ≢ some active
find_active-none [] k x h row on = cc row
find_active-none (y ∷ t) k x h row on =
    let (e, same) = some_if (same_plan y.key k) y x row in
    let key = same_plan-eq y.key k e in
    let yes = ap is_one (ap (λ r. r.state) same ∙ on) in
    let same_names = ap (λ j. same_name (name_of j) (name_of k)) key ∙ same_name_self (name_of k) in
    cc (list_if_none _ y h, both _ _ yes same_names)

not_foreign :
    (t : List LaunchPlan) (n : NamedEntityIdentifier) (r : Option Reason)
    → find_active t n ≢ err (flyte_admin Code.not_found r)
not_foreign [] n r h = cc h
not_foreign (x ∷ t) n r h = elim (Bool-cases (state_is_active x && same_name (name_of x.key) n)) [
  | inl e ↦ cc (sym (ap (λ (b : Bool). if b then ok (x ∷ []) else ok []) e) ∙ h)
  | inr e ↦ cc (sym (ap (λ (b : Bool). if b then ok (x ∷ []) else ok []) e) ∙ h)
]

create_row-rows :
    (t t' : List LaunchPlan) (x : LaunchPlan) (k : LaunchPlanKey)
    → create_row t x ≡ ok t'
    → row_of t' k ≡ (
        if same_plan x.key k
        then some (record x { created_at = 7; updated_at = 7 })
        else row_of t k)
create_row-rows [] t' x k h = ap (λ s. row_of s k) (sym (ok-injective h))
create_row-rows (y ∷ t) t' x k h = absurd (cc h)

pub plans_db-IsPlansDb : IsPlansDb plans_db
plans_db-IsPlansDb = record {
  row-key = row_of-key;
  get-row = λ t k x h. row_of_self t k x (get_row-ok (row_of t k) x h);
  get-complete = λ t k x full h. row_of-key t k x (get_row-ok (row_of t k) x h);
  list-empty = find_active-none;
  list-not_found = λ t k x r h. absurd (not_foreign t (name_of k) r h);
  list-found = find_active-found;
  row-create = create_row-rows;
  row-update = λ t t' m k h.
      ap (λ s. row_of s k) (sym (ok-injective h))
      ∙ row_of-write_head (λ old. record (overlay_plan old m) { updated_at = 7 }) m t k (λ x. refl);
  row-commit = λ t t' m k h.
      ap (λ s. row_of s k) (sym (ok-injective h))
      ∙ row_of-write_head (λ old. overlay_plan old m) m t k (λ x. refl);
  row-commit_both = λ t t' d m k h.
      ap (λ s. row_of s k) (sym (ok-injective h))
      ∙ row_of-write_head (λ old. overlay_plan old m) m (write_head (λ old. overlay_plan old d) d t)
          k (λ x. refl)
      ∙ ap
          (λ o.
            if same_plan m.key k
            then elim o [ none ↦ none | some old ↦ some (overlay_plan old m) ]
            else o)
          (row_of-write_head (λ old. overlay_plan old d) d t k (λ x. refl));
}
