-- ===== src/Common/Errors.antt =====
-- The errors of pkg/errors/errors.go as values, and the results of fallible operations.
-- The text of a message is left out. An error keeps its gRPC code and the structured reason.
use Prim.Native.Nat.{ℕ}
use Prim.Native.String.{String}
use mathlib.Core.Path.{◌≡◌, refl, ap, ◌∙◌}
use mathlib.Core.Logic.{◌⊎◌, inl, inr}
use mathlib.Core.Option.{Option, none, some}

-- The gRPC codes that the source names; `other_code` is any other.
pub data Code : Type 0 where
  invalid_argument not_found already_exists failed_precondition internal : Code
  resource_exhausted : Code
  other_code : ℕ → Code

-- `EventFailureReason`: the phase or the cluster on record.
pub data Reason : Type 0 where
  already_in_terminal_state : String → Reason
  incompatible_cluster : String → Reason

-- An error of this program, or one of a library.
pub data Error : Type 0 where
  flyte_admin : Code → Option Reason → Error
  foreign : ℕ → Error

abbrev pub new_flyte_admin_error : Code → Error
new_flyte_admin_error c = flyte_admin c none

abbrev pub new_already_in_terminal_state_error : String → Error
new_already_in_terminal_state_error cur_phase =
    flyte_admin failed_precondition (some (already_in_terminal_state cur_phase))

abbrev pub new_incompatible_cluster_error : String → Error
new_incompatible_cluster_error cur_cluster =
    flyte_admin failed_precondition (some (incompatible_cluster cur_cluster))

-- What a fallible operation returns: the error or the value.
pub data Result {ℓ} (V : Type ℓ) : Type ℓ where
  err : Error → Result V
  ok : V → Result V

infixl 5 ◌>>=◌ ◌>>◌
abbrev pub ◌>>=◌ {ℓ μ} : {V : Type ℓ} {W : Type μ} → Result V → (V → Result W) → Result W
err e >>= next = err e
ok v >>= next = next v

abbrev pub ◌>>◌ {μ} : {W : Type μ} → Result (Unit {0}) → Result W → Result W
first >> next = first >>= λ u. next

-- `none` is the failure of a library call, reported under the code `c`.
abbrev pub or_fail {ℓ} : {V : Type ℓ} → Option V → Code → Result V
or_fail (some v) c = ok v
or_fail none c = err (new_flyte_admin_error c)

pub Result-cases {ℓ} :
    {V : Type ℓ} (o : Result V) → ((e : Error) × (o ≡ err e)) ⊎ ((v : V) × (o ≡ ok v))
Result-cases (err e) = inl (e, refl)
Result-cases (ok v) = inr (v, refl)

-- A chain that succeeds has a first step that succeeds, and a library call that is no failure has
-- a value.
pub >>=-eq-ok {ℓ μ} :
    {V : Type ℓ} {W : Type μ} (first : Result V) (next : V → Result W) {w : W}
    → (first >>= next) ≡ ok w
    → (v : V) × (first ≡ ok v) × (next v ≡ ok w)
>>=-eq-ok (err e) next done = absurd (cc done)
>>=-eq-ok (ok v) next done = (v, refl, done)

pub or_fail-eq-ok {ℓ} :
    {V : Type ℓ} (o : Option V) (c : Code) {v : V} → or_fail o c ≡ ok v → o ≡ some v
or_fail-eq-ok none c h = cc
or_fail-eq-ok (some v) c h = cc

pub ok-injective {ℓ} : {V : Type ℓ} {v w : V} → ◌≡◌ {A = Result V} (ok v) (ok w) → v ≡ w
ok-injective h = cc

-- A chain goes on with the value of its first step, or ends with its error.
pub >>=-after-ok {ℓ μ} :
    {V : Type ℓ} {W : Type μ} (first : Result V) (next : V → Result W) {v : V} {o : Result W}
    → first ≡ ok v
    → next v ≡ o
    → (first >>= next) ≡ o
>>=-after-ok (err e) next h g = absurd (cc h)
>>=-after-ok (ok v) next h g = ap next (ok-injective h) ∙ g

pub >>=-after-err {ℓ μ} :
    {V : Type ℓ} {W : Type μ} (first : Result V) (next : V → Result W) {e : Error}
    → first ≡ err e
    → (first >>= next) ≡ err e
>>=-after-err (err e) next h = cc h
>>=-after-err (ok v) next h = absurd (cc h)
