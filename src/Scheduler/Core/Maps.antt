-- ===== src/Scheduler/Core/Maps.antt =====
-- The laws of the job store's map and of the heap (`sync.Map` in scheduler/core/gocron_scheduler.go).
use flyteadmin.Scheduler.Core.{GoCronJob, load, delete, store, write}
use flyteadmin.Common.{
  ap, ◌==◌, ◌⊎◌, sym, ◌∙◌, ◌∷◌, [], arith, inr, refl, some, Option, none, inl, ◌≢◌, List, ℕ, String,
  ◌≡◌, eq_iff, str_eq, Bool-cases, eq_refl, false,
}

str_eq-false : (n m : String) → n ≢ m → str_eq n m ≡ false
str_eq-false n m differ = elim (Bool-cases (str_eq n m)) [
  | inl e ↦ absurd (differ ((eq_iff n m).0 e))
  | inr e ↦ e
]

module _ {ℓ} {V : Type ℓ} where
  pub load-delete-same : (n : String) (l : List (String × V)) → load n (delete n l) ≡ none
  load-delete-same n [] = refl
  load-delete-same n ((m, v) ∷ rest) = elim (Bool-cases (str_eq n m)) [
    | inl e ↦ rw e (load-delete-same n rest)
    | inr e ↦ rw (e, e) (load-delete-same n rest)
  ]

  pub load-delete-other :
      (n m : String) (l : List (String × V)) → n ≢ m → load n (delete m l) ≡ load n l
  load-delete-other n m [] differ = refl
  load-delete-other n m ((k, v) ∷ rest) differ = elim (Bool-cases (str_eq m k)) [
    | inl e ↦ rw e (
        rw (str_eq-false n k (λ same. differ (same ∙ sym ((eq_iff m k).0 e))))
          (load-delete-other n m rest differ))
    | inr e ↦ elim (Bool-cases (str_eq n k)) [
      | inl f ↦ rw (e, f) refl
      | inr f ↦ rw (e, f) (load-delete-other n m rest differ)
    ]
  ]

  pub load-store-same : (n : String) (v : V) (l : List (String × V)) → load n (store n v l) ≡ some v
  load-store-same n v l = rw (eq_refl n) refl

  pub load-store-other :
      (n m : String) (v : V) (l : List (String × V)) → n ≢ m → load n (store m v l) ≡ load n l
  load-store-other n m v l differ = rw (str_eq-false n m differ) (load-delete-other n m l differ)

pub name-cases : (n m : String) → (n ≡ m) ⊎ (n ≢ m)
name-cases n m = elim (Bool-cases (str_eq n m)) [
  | inl e ↦ inl ((eq_iff n m).0 e)
  | inr e ↦ inr (λ same. absurd (cc (e, (eq_iff n m).1 same)))
]

-- No name is in the list twice.
abbrev pub Unique {ℓ} : {V : Type ℓ} → List (String × V) → Type ℓ
Unique [] = Unit
Unique ((n, v) ∷ rest) = (load n rest ≡ none) × Unique rest

load-delete-none {ℓ} :
    {V : Type ℓ} (n m : String) (l : List (String × V))
    → load n l ≡ none
    → load n (delete m l) ≡ none
load-delete-none n m l e = elim (name-cases n m) [
  | inl same ↦ ap (λ x. load x (delete m l)) same ∙ load-delete-same m l
  | inr differ ↦ load-delete-other n m l differ ∙ e
]

pub delete-Unique {ℓ} :
    {V : Type ℓ} (m : String) (l : List (String × V)) → Unique l → Unique (delete m l)
delete-Unique m [] u = u
delete-Unique m ((n, v) ∷ rest) (absent, u) = elim (Bool-cases (str_eq m n)) [
  | inl e ↦ rw e (delete-Unique m rest u)
  | inr e ↦ rw e (load-delete-none n m rest absent, delete-Unique m rest u)
]

pub store-Unique {ℓ} :
    {V : Type ℓ} (m : String) (v : V) (l : List (String × V)) → Unique l → Unique (store m v l)
store-Unique m v l u = (load-delete-same m l, delete-Unique m l u)

pub write-same : (a : ℕ) (j : GoCronJob) (heap : ℕ → Option GoCronJob) → write a j heap a ≡ some j
write-same a j heap = ground arith

pub write-other :
    (a b : ℕ) (j : GoCronJob) (heap : ℕ → Option GoCronJob) → b ≢ a → write a j heap b ≡ heap b
write-other a b j heap differ = ground arith

pub number-cases : (a b : ℕ) → (a ≡ b) ⊎ (a ≢ b)
number-cases a b = elim (Bool-cases (a == b)) [
  | inl e ↦ inl (ground arith)
  | inr e ↦ inr (ground arith)
]

module _ {ℓ} {V : Type ℓ} (n m : String) (v : V) (l : List (String × V)) where
  pub load_here : n ≡ m → load n ((m, v) ∷ l) ≡ some v
  load_here same = rw ((eq_iff n m).1 same) refl

  pub load_past : n ≢ m → load n ((m, v) ∷ l) ≡ load n l
  load_past differ = rw (str_eq-false n m differ) refl
