-- ===== src/Attributes/Merge.antt =====
-- The merge of plugin overrides (pkg/repositories/transformers/resource.go).
use flyteadmin.Scheduler.Core.Maps.{load-store-other, store-Unique, Unique}
use flyteadmin.Scheduler.Core.{load}
use flyteadmin.Attributes.{
  add_overrides, store, overrides_of, str_eq, MatchingAttributes, merge_update_plugin_overrides,
}
use flyteadmin.Common.{
  eq_iff, sym, inr, ap, ◌∙◌, Bool-cases, inl, Option-cases, refl, String, Option, List, ◌≡◌, none,
  some, [], ◌∷◌, if◌then◌else◌,
}

-- The last override of the list for the task type.
abbrev pub last_for : String → List (String × String) → Option String
last_for t [] = none
last_for t ((m, o) ∷ rest) =
    let later = last_for t rest in
    elim later [ some x ↦ some x | none ↦ if str_eq t m then some o else none ]

abbrev pub first_some : Option String → Option String → Option String
first_some none o = o
first_some (some x) o = some x

first_some_assoc :
    (a b c : Option String) → first_some a (first_some b c) ≡ first_some (first_some a b) c
first_some_assoc none b c = refl
first_some_assoc (some x) b c = refl

load-store :
    (t m o : String) (l : List (String × String))
    → load t (store m o l) ≡ first_some (if str_eq t m then some o else none) (load t l)
load-store t m o l = elim (Bool-cases (str_eq t m)) [
  | inl e ↦ rw e refl
  | inr e ↦
      load-store-other t m o l (λ same. absurd (cc (e, (eq_iff t m).1 same)))
      ∙ ap (λ b. first_some (if b then some o else none) (load t l)) (sym e)
]

last_for_step :
    (t m o : String) (rest : List (String × String))
    → last_for t ((m, o) ∷ rest)
      ≡ first_some (last_for t rest) (if str_eq t m then some o else none)
last_for_step t m o rest = elim (Option-cases (last_for t rest)) [
  | inl e ↦ rw (last_for, e) refl
  | inr (x, e) ↦ rw (last_for, e) refl
]

load-add_overrides :
    (t : String) (l m : List (String × String))
    → load t (add_overrides l m) ≡ first_some (last_for t l) (load t m)
load-add_overrides t [] m = refl
load-add_overrides t ((k, o) ∷ rest) m =
    load-add_overrides t rest (store k o m)
    ∙ ap (first_some (last_for t rest)) (load-store t k o m)
    ∙ first_some_assoc (last_for t rest) (if str_eq t k then some o else none) (load t m)
    ∙ ap (λ x. first_some x (load t m)) (sym (last_for_step t k o rest))

add_overrides-Unique : (l m : List (String × String)) → Unique m → Unique (add_overrides l m)
add_overrides-Unique [] m u = u
add_overrides-Unique ((k, o) ∷ rest) m u =
    add_overrides-Unique rest (store k o m) (store-Unique k o m u)

-- The merged attributes have one override for each task type that either side overrides, and it is
-- the last one of the new attributes, or of the existing ones where the new ones have none.
pub load-merge_update_plugin_overrides :
    (existing new : MatchingAttributes) (t : String)
    → (load t (overrides_of (merge_update_plugin_overrides existing new))
        ≡ first_some (last_for t (overrides_of new)) (last_for t (overrides_of existing)))
      × Unique (overrides_of (merge_update_plugin_overrides existing new))
unfolding merge_update_plugin_overrides
load-merge_update_plugin_overrides existing new t =
    let old = overrides_of existing in
    let fresh = overrides_of new in
    (
      load-add_overrides t fresh (add_overrides old [])
          ∙ ap (first_some (last_for t fresh))
              (load-add_overrides t old [] ∙ nothing_else (last_for t old)),
      add_overrides-Unique fresh (add_overrides old []) (add_overrides-Unique old [] tt),
    )
  where
    nothing_else : (o : Option String) → first_some o none ≡ o
    nothing_else none = refl
    nothing_else (some x) = refl
