-- ===== src/Validation/Tests.antt =====
-- Tests of the pages (pkg/manager/impl/validation/validation.go), with numerals in unary.
use flyteadmin.Common.{
  List, arith, arith, ◌≡◌, ◌≢◌, refl, ap, some, ℕ, pos, String, [], ◌∷◌, zero, suc,
}
use flyteadmin.Validation.Paging.{Numerals, IsNumerals}
use flyteadmin.Validation.Pages.{follow, follow-all}

abbrev ones : ℕ → String
ones zero = "x"
ones (suc n) = String.◌∷◌ "1" (ones n)

abbrev count_ones : String → ℕ
count_ones String.[] = 0
count_ones (String.◌∷◌ c String.[]) = 0
count_ones (String.◌∷◌ c (String.◌∷◌ d s)) = suc (count_ones (String.◌∷◌ d s))

abbrev unary : Numerals
unary = record { atoi = λ s. some (pos (count_ones s)); itoa = ones }

count-ones : (n : ℕ) → count_ones (ones n) ≡ n
count-ones zero = refl
count-ones (suc zero) = refl
count-ones (suc (suc n)) = ap suc (count-ones (suc n))

ones-ne-empty : (n : ℕ) → ones n ≢ ""
ones-ne-empty zero h = cc h
ones-ne-empty (suc n) h = cc h

unary-IsNumerals : IsNumerals unary
unary-IsNumerals = record {
  atoi-itoa = λ n. ap (λ m. some (pos m)) (count-ones n);
  itoa-ne-empty = ones-ne-empty;
}

abbrev three : List ℕ
three = 7 ∷ 8 ∷ 9 ∷ []

follow-all_example : follow unary 4 2 three "" ≡ some three
follow-all_example = follow-all unary unary-IsNumerals 2 three (omega arith)
