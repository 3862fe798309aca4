-- ===== src/Validation/Pages.antt =====
-- A client that follows the tokens of the pages sees the whole list once (the list handlers of
-- pkg/manager/impl, as in launch_plan_manager.go).
use flyteadmin.Common.{
  ◌==◌, ◌≡◌, refl, sym, ap, ◌∙◌, Bool-cases, inl, inr, ◌⊎◌, some, none, ok, err, Option, List, [],
  ◌∷◌, ◌++◌, ℕ, String, Bool, true, false, arith, ◌<◌, ◌≤◌, ◌+◌, zero, suc, length, str_eq, eq_iff,
}
use flyteadmin.Validation.Paging.{Numerals, IsNumerals, read_offset, next_token, validate_token}

zero_add : (n : ℕ) → n ≡ 0 + n
zero_add n = omega arith

the_length : (a b : ℕ) → (a == b) ≡ true → a ≡ b
the_length a b h = ground arith

suc_add : (m n : ℕ) → suc (m + n) ≡ suc m + n
suc_add m n = omega arith

module _ {ℓ} {A : Type ℓ} where
  abbrev pub take : ℕ → List A → List A
  take zero xs = []
  take (suc n) [] = []
  take (suc n) (x ∷ xs) = x ∷ take n xs

  abbrev pub drop : ℕ → List A → List A
  drop zero xs = xs
  drop (suc n) [] = []
  drop (suc n) (x ∷ xs) = drop n xs

  take_and_drop : (n : ℕ) (xs : List A) → take n xs ++ drop n xs ≡ xs
  take_and_drop zero xs = refl
  take_and_drop (suc n) [] = refl
  take_and_drop (suc n) (x ∷ xs) = ap (λ l. x ∷ l) (take_and_drop n xs)

  length-take_or : (n : ℕ) (xs : List A) → (length (take n xs) ≡ n) ⊎ (take n xs ≡ xs)
  length-take_or zero xs = inl refl
  length-take_or (suc n) [] = inr refl
  length-take_or (suc n) (x ∷ xs) = elim (length-take_or n xs) [
    | inl e ↦ inl (ap suc e)
    | inr e ↦ inr (ap (λ l. x ∷ l) e)
  ]

  drop_nil : (n : ℕ) → drop n [] ≡ []
  drop_nil zero = refl
  drop_nil (suc n) = refl

  length-drop : (n : ℕ) (xs : List A) → length (drop n xs) ≤ length xs
  length-drop zero xs = omega arith
  length-drop (suc n) [] = omega arith
  length-drop (suc n) (x ∷ xs) = omega (arith, length-drop n xs)

  length-take : (n : ℕ) (xs : List A) → length (take n xs) ≤ length xs
  length-take zero xs = omega arith
  length-take (suc n) [] = omega arith
  length-take (suc n) (x ∷ xs) = omega (arith, length-take n xs)

  length-drop_some : (n : ℕ) (xs : List A) → 1 ≤ n → 1 ≤ length xs → length (drop n xs) < length xs
  length-drop_some zero xs h g = absurd (omega (arith, h))
  length-drop_some (suc n) [] h g = absurd (omega (arith, g))
  length-drop_some (suc n) (x ∷ xs) h g = omega (arith, length-drop n xs)

  drop-drop : (n m : ℕ) (xs : List A) → drop n (drop m xs) ≡ drop (m + n) xs
  drop-drop n zero xs = ap (λ k. drop k xs) (zero_add n)
  drop-drop n (suc m) [] = drop_nil n ∙ sym (drop_nil (suc m + n))
  drop-drop n (suc m) (x ∷ xs) = drop-drop n m xs ∙ ap (λ k. drop k (x ∷ xs)) (suc_add m n)

module _ (s : Numerals) (lawful : IsNumerals s) where
  token_named : (n : ℕ) → str_eq (s.itoa n) "" ≡ false
  token_named n = elim (Bool-cases (str_eq (s.itoa n) "")) [
    | inl e ↦ absurd (lawful.itoa-ne-empty n ((eq_iff (s.itoa n) "").0 e))
    | inr e ↦ e
  ]

  read_offset-itoa : (n : ℕ) → read_offset s (s.itoa n) ≡ ok n
  unfolding read_offset validate_token
  read_offset-itoa n = rw (read_offset, validate_token, token_named n, lawful.atoi-itoa n) refl

module _ {ℓ} {A : Type ℓ} where
  abbrev onward : List A → Option (List A) → Option (List A)
  onward rows none = none
  onward rows (some more) = some (rows ++ more)

  abbrev go_on : Bool → List A → Option (List A) → Option (List A)
  go_on true rows rest = some rows
  go_on false rows rest = onward rows rest

module _ {ℓ} {A : Type ℓ} (s : Numerals) where
  -- The client: it asks for pages of `limit` rows of the list, and goes on while there is a token.
  -- `none` says that a token was refused or that there were more than `fuel` pages.
  unfoldable pub follow : (fuel limit : ℕ) → List A → String → Option (List A)
  follow zero limit l token = none
  follow (suc fuel) limit l token = elim (read_offset s token) [
    | err e ↦ none
    | ok offset ↦
        let rows = take limit (drop offset l) in
        let onto = next_token s limit offset rows in
        go_on (str_eq onto "") rows (follow fuel limit l onto)
  ]

  module _ (lawful : IsNumerals s) where
    last_page :
        (limit offset : ℕ) (d : List A)
        → (length (take limit d) == limit) ≡ false
        → (next_token s limit offset (take limit d) ≡ "") × (take limit d ≡ d)
    unfolding next_token
    last_page limit offset d short = elim (length-take_or limit d) [
      | inl e ↦ absurd (ground arith)
      | inr e ↦ (rw short refl, e)
    ]

    full_page :
        (limit offset : ℕ) (d : List A)
        → (length (take limit d) == limit) ≡ true
        → (next_token s limit offset (take limit d) ≡ s.itoa (offset + limit))
          × (length (take limit d) ≡ limit)
    unfolding next_token
    full_page limit offset d full =
        let all = the_length (length (take limit d)) limit full in
        (rw full (ap (λ n. s.itoa (offset + n)) all), all)

    follow-page :
        (fuel limit offset : ℕ) (l : List A) (token : String)
        → read_offset s token ≡ ok offset
        → follow (suc fuel) limit l token ≡ (
            let rows = take limit (drop offset l) in
            let onto = next_token s limit offset rows in
            go_on (str_eq onto "") rows (follow fuel limit l onto))
    unfolding follow next_token
    follow-page fuel limit offset l token at = rw (follow, at) refl

    -- From an offset on, the client sees what the list has from there.
    follow_from :
        (fuel limit offset : ℕ) (l : List A) (token : String)
        → 1 ≤ limit
        → read_offset s token ≡ ok offset
        → length (drop offset l) < fuel
        → follow fuel limit l token ≡ some (drop offset l)
    follow_from zero limit offset l token one at enough = absurd (omega (arith, enough))
    follow_from (suc fuel) limit offset l token one at enough =
        let d = drop offset l in
        let rows = take limit d in
        let page = follow-page fuel limit offset l token at in
        let step = λ (t : String). go_on (str_eq t "") rows (follow fuel limit l t) in
        elim (Bool-cases (length rows == limit)) [
          | inl full ↦
              let (onto, all) = full_page limit offset d full in
              let after = drop-drop limit offset l in
              let fewer =
                length-drop_some limit d one (omega (arith, one, all, length-take limit d)) in
              let later =
                follow_from fuel limit (offset + limit) l (s.itoa (offset + limit)) one
                  (read_offset-itoa s lawful (offset + limit))
                  (omega (arith, fewer, enough, ap length after)) in
              page
              ∙ ap step onto
              ∙ ap (λ b. go_on b rows (follow fuel limit l (s.itoa (offset + limit))))
                  (token_named s lawful (offset + limit))
              ∙ ap (onward rows) later
              ∙ ap some (ap (λ more. rows ++ more) (sym after) ∙ take_and_drop limit d)
          | inr short ↦
              let (onto, whole) = last_page limit offset d short in
              page ∙ ap step onto ∙ ap some whole
        ]

    -- A client that follows the tokens from the empty one sees the whole list, in order and without
    -- repetition, in at most one page more than the list has rows, whatever the limit is that is
    -- not 0.
    pub follow-all :
        (limit : ℕ) (l : List A) → 1 ≤ limit → follow (suc (length l)) limit l "" ≡ some l
    unfolding read_offset validate_token
    follow-all limit l one = follow_from (suc (length l)) limit 0 l "" one refl (omega arith)
