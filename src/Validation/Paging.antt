-- ===== src/Validation/Paging.antt =====
-- Pages of a list: the limit and the token of a request (`ValidateLimit` and `ValidateToken` in
-- pkg/manager/impl/validation/validation.go), and the token of the next page, as the list handlers
-- of pkg/manager/impl compute it.
use flyteadmin.Common.{
  String, Result, ok, err, new_flyte_admin_error, invalid_argument, foreign, Option, some, none, ℕ,
  ℤ, pos, negsuc, List, length, str_eq, if◌then◌else◌, ◌==◌, ◌+◌, ◌≡◌, ◌≢◌,
}

-- Decimal numerals (the library strconv).
pub record Numerals : Type 0 where
  pub atoi : String → Option ℤ
  pub itoa : ℕ → String

pub record IsNumerals (s : Numerals) : Type 0 where
  pub atoi-itoa : (n : ℕ) → s.atoi (s.itoa n) ≡ some (pos n)
  pub itoa-ne-empty : (n : ℕ) → s.itoa n ≢ ""

unfoldable pub validate_limit : ℕ → Result (Unit {0})
validate_limit limit = if limit == 0 then err (new_flyte_admin_error invalid_argument) else ok tt

module _ (s : Numerals) where
  unfoldable pub validate_token : String → Result ℕ
  validate_token token = if str_eq token "" then ok 0 else elim (s.atoi token) [
    | none ↦ err (foreign 0)
    | some (pos n) ↦ ok n
    | some (negsuc n) ↦ err (new_flyte_admin_error invalid_argument)
  ]

  -- The handlers replace the error of the token.
  unfoldable pub read_offset : String → Result ℕ
  unfolding validate_token
  read_offset token = elim (validate_token token) [
    | ok n ↦ ok n
    | err e ↦ err (new_flyte_admin_error invalid_argument)
  ]

  -- A full page may have a successor.
  unfoldable pub next_token {ℓ} : {A : Type ℓ} → (limit offset : ℕ) → List A → String
  next_token limit offset rows = if length rows == limit then s.itoa (offset + length rows) else ""
