-- ===== src/LaunchPlan/Rows.antt =====
-- What a write does to the rows of launch plans (pkg/repositories/gormimpl/launch_plan_repo.go).
use flyteadmin.Execution.Repo.{keep_option}
use flyteadmin.Validation.{NamedEntityIdentifier}
use flyteadmin.Common.{
  Bool, if◌then◌else◌, ◌≡◌, refl, sym, ap, ◌∙◌, Bool-cases, inl, inr, ◌⊎◌, some, none, Option, true,
  false, eq_iff, eq_refl, arith, some-equal,
}
use flyteadmin.LaunchPlan.{inactive, LaunchPlan, LaunchPlanKey, same_plan}
use flyteadmin.LaunchPlan.Store.{overlay_plan, written, IsActive, name_of, write_with, Rows}

pub same_plan-eq : (a b : LaunchPlanKey) → same_plan a b ≡ true → a ≡ b
unfolding same_plan
same_plan-eq a b h = ground (
  arith,
  eq_iff a.project b.project,
  eq_iff a.domain b.domain,
  eq_iff a.name b.name,
  eq_iff a.version b.version,
)

pub same_plan_self : (a : LaunchPlanKey) → same_plan a a ≡ true
unfolding same_plan
same_plan_self a = simp eq_refl

-- No two versions of a plan are active.
abbrev pub IsSingle : Rows → Type 0
IsSingle rows =
    (k l : LaunchPlanKey) (x y : LaunchPlan)
    → rows k ≡ some x
    → rows l ≡ some y
    → IsActive x
    → IsActive y
    → name_of k ≡ name_of l
    → k ≡ l

abbrev taken : (LaunchPlan → LaunchPlan) → Option LaunchPlan → Bool → Option LaunchPlan
taken change o b = if b then elim o [ none ↦ none | some old ↦ some (change old) ] else o

-- A row after a write of `m` is the changed row of its key, or another one, as it was.
pub write_with_cases :
    (change : LaunchPlan → LaunchPlan) (m : LaunchPlan) (rows : Rows) (k : LaunchPlanKey)
    (x : LaunchPlan)
    → write_with change m rows k ≡ some x
    → ((m.key ≡ k) × (old : LaunchPlan) × (rows k ≡ some old) × (x ≡ change old))
      ⊎ ((same_plan m.key k ≡ false) × (rows k ≡ some x))
write_with_cases change m rows k x h = elim (Bool-cases (same_plan m.key k)) [
  | inl e ↦
      (let (old, was, now) = changed (rows k) (sym (ap (taken change (rows k)) e) ∙ h) in
        inl (same_plan-eq m.key k e, old, was, now))
  | inr e ↦ inr (e, sym (ap (taken change (rows k)) e) ∙ h)
]
  where
    changed :
        {change : LaunchPlan → LaunchPlan} {x : LaunchPlan} (o : Option LaunchPlan)
        → ◌≡◌ {A = Option LaunchPlan}
            (elim o [ none ↦ none | some old ↦ some (change old) ])
            (some x)
        → (old : LaunchPlan) × (o ≡ some old) × (x ≡ change old)
    changed none e = absurd (cc e)
    changed (some old) e = (old, refl, sym (some-equal e))

-- Every active row was active before.
abbrev pub NoneActivated : (rows rows' : Rows) → Type 0
NoneActivated rows rows' =
    (k : LaunchPlanKey) (x : LaunchPlan)
    → rows' k ≡ some x
    → IsActive x
    → (y : LaunchPlan) × (rows k ≡ some y) × IsActive y

pub NoneActivated-IsSingle :
    (rows rows' : Rows) → NoneActivated rows rows' → IsSingle rows → IsSingle rows'
NoneActivated-IsSingle rows rows' kept single k l x y h g ax ay same =
    let (x', hx, ax') = kept k x h ax in
    let (y', hy, ay') = kept l y g ay in single k l x' y' hx hy ax' ay' same

-- A write whose state is inactive activates nothing.
pub write_with-NoneActivated :
    (change : LaunchPlan → LaunchPlan) (m : LaunchPlan) (rows : Rows)
    → ((old : LaunchPlan) → (change old).state ≡ some inactive)
    → NoneActivated rows (write_with change m rows)
write_with-NoneActivated change m rows off k x h ax = elim (write_with_cases change m rows k x h) [
  | inl (e, old, hold, hx) ↦
      absurd (omega (arith, some-equal (sym ax ∙ ap (λ r. r.state) hx ∙ off old)))
  | inr (e, hrow) ↦ (x, hrow, ax)
]

-- No row of that name is active.
abbrev pub NameInactive : Rows → NamedEntityIdentifier → Type 0
NameInactive rows n =
    (k : LaunchPlanKey) (x : LaunchPlan) → rows k ≡ some x → name_of k ≡ n → ¬ IsActive x

-- Where no version is active, any one can be made so.
pub written-IsSingle :
    (m : LaunchPlan) (rows : Rows)
    → NameInactive rows (name_of m.key)
    → IsSingle rows
    → IsSingle (written m rows)
written-IsSingle m rows free single k l x y h g ax ay same =
    elim (write_with_cases (λ old. overlay_plan old m) m rows k x h) [
      | inl (e, old, hold, hx) ↦ elim (write_with_cases (λ old. overlay_plan old m) m rows l y g) [
        | inl (e', old', hold', hy) ↦ sym e ∙ e'
        | inr (e', hrow) ↦ absurd (free l y hrow (sym same ∙ ap name_of (sym e)) ay)
      ]
      | inr (e, hrow) ↦ elim (write_with_cases (λ old. overlay_plan old m) m rows l y g) [
        | inl (e', old', hold', hy) ↦ absurd (free k x hrow (same ∙ ap name_of (sym e')) ax)
        | inr (e', hrow') ↦ single k l x y hrow hrow' ax ay same
      ]
    ]

-- Once the only active version is inactive, none is active.
pub written-NameInactive :
    (d : LaunchPlan) (rows : Rows) (old : LaunchPlan)
    → d.state ≡ some inactive
    → rows d.key ≡ some old
    → IsActive old
    → IsSingle rows
    → NameInactive (written d rows) (name_of d.key)
written-NameInactive d rows old off here was single k x h same ax =
    elim (write_with_cases (λ old. overlay_plan old d) d rows k x h) [
      | inl (e, o, ho, hx) ↦
          absurd (
            omega
              (arith, some-equal (sym ax ∙ ap (λ r. r.state) hx ∙ ap (keep_option o.state) off)))
      | inr (e, hrow) ↦
          absurd (cc (e, same_plan_self k, single k d.key x old hrow here ax was same))
    ]
