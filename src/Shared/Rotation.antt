-- ===== src/Shared/Rotation.antt =====
-- A list turned so that it begins at one of its places.
use Prim.Native.Nat.{ℕ, zero, suc, ◌+◌, ◌-◌, ◌%◌, ◌<◌, ◌≤◌}
use mathlib.Core.Path.{◌≡◌, refl, sym, ◌∙◌, ap}
use mathlib.Core.Logic.{◌⊎◌, inl, inr}
use mathlib.Core.List.{List, [], ◌∷◌, ◌++◌}
use native.Mathlib.Omega.{arith}
use cluster_api_provider_lib.Shared.Lists.{length, get_elem?, length-append}

lt_cases : (m n : ℕ) → (m < n) ⊎ (n ≤ m)
lt_cases m n = ground arith

module _ {ℓ} {A : Type ℓ} where
  abbrev pub take : ℕ → List A → List A
  take zero xs = []
  take (suc n) [] = []
  take (suc n) (x ∷ xs) = x ∷ take n xs

  abbrev pub drop : ℕ → List A → List A
  drop zero xs = xs
  drop (suc n) [] = []
  drop (suc n) (x ∷ xs) = drop n xs

  abbrev pub rotate : ℕ → List A → List A
  rotate n xs = drop n xs ++ take n xs

  length-take : (n : ℕ) (xs : List A) → n ≤ length xs → length (take n xs) ≡ n
  length-take zero xs h = refl
  length-take (suc n) [] h = absurd (omega arith)
  length-take (suc n) (x ∷ xs) h = omega (arith, length-take n xs (omega arith))

  length-drop : (n : ℕ) (xs : List A) → n ≤ length xs → length (drop n xs) + n ≡ length xs
  length-drop zero xs h = omega arith
  length-drop (suc n) [] h = absurd (omega arith)
  length-drop (suc n) (x ∷ xs) h = omega (arith, length-drop n xs (omega arith))

  pub length-rotate : (n : ℕ) (xs : List A) → n ≤ length xs → length (rotate n xs) ≡ length xs
  length-rotate n xs h =
      omega (arith, length-append (drop n xs) (take n xs), length-take n xs h, length-drop n xs h)

  get_elem?-take : (n j : ℕ) (xs : List A) → j < n → get_elem? (take n xs) j ≡ get_elem? xs j
  get_elem?-take zero j xs h = absurd (omega arith)
  get_elem?-take (suc n) j [] h = refl
  get_elem?-take (suc n) zero (x ∷ xs) h = refl
  get_elem?-take (suc n) (suc j) (x ∷ xs) h = get_elem?-take n j xs (omega arith)

  get_elem?-drop : (n j : ℕ) (xs : List A) → get_elem? (drop n xs) j ≡ get_elem? xs (n + j)
  get_elem?-drop zero j xs = ap (get_elem? xs) (omega arith)
  get_elem?-drop (suc n) j [] = refl
  get_elem?-drop (suc n) j (x ∷ xs) =
      let place : suc (n + j) ≡ suc n + j = omega arith in
      get_elem?-drop n j xs ∙ ap (get_elem? (x ∷ xs)) place

  get_elem?-append_left :
      (xs ys : List A) (j : ℕ) → j < length xs → get_elem? (xs ++ ys) j ≡ get_elem? xs j
  get_elem?-append_left [] ys j h = absurd (omega arith)
  get_elem?-append_left (x ∷ xs) ys zero h = refl
  get_elem?-append_left (x ∷ xs) ys (suc j) h = get_elem?-append_left xs ys j (omega arith)

  get_elem?-append_right :
      (xs ys : List A) (j : ℕ) → get_elem? (xs ++ ys) (length xs + j) ≡ get_elem? ys j
  get_elem?-append_right [] ys j = ap (get_elem? ys) (omega arith)
  get_elem?-append_right (x ∷ xs) ys j =
      let place : suc (length xs) + j ≡ suc (length xs + j) = omega arith in
      ap (get_elem? (x ∷ xs ++ ys)) place ∙ get_elem?-append_right xs ys j

  -- Before the end of the list, and past it.
  rotate_before :
      (n j : ℕ) (xs : List A)
      → n < length xs
      → n + j < length xs
      → get_elem? xs (n + j) ≡ get_elem? (rotate n xs) j
  rotate_before n j xs hn h =
      let dropped = length-drop n xs (omega arith) in
      sym (
        get_elem?-append_left (drop n xs) (take n xs) j (omega (arith, dropped))
        ∙ get_elem?-drop n j xs)

  rotate_past :
      (n k : ℕ) (xs : List A)
      → n < length xs
      → k < n
      → get_elem? xs k ≡ get_elem? (rotate n xs) (length (drop n xs) + k)
  rotate_past n k xs hn h =
      sym (get_elem?-append_right (drop n xs) (take n xs) k ∙ get_elem?-take n k xs h)

  -- The place `j` of the turned list is the place `n + j` of the list, counted round.
  pub get_elem?-rotate :
      (n j : ℕ) (xs : List A)
      → n < length xs
      → j < length xs
      → get_elem? xs ((n + j) % length xs) ≡ get_elem? (rotate n xs) j
  get_elem?-rotate n j xs hn hj = elim (lt_cases (n + j) (length xs)) [
    | inl before ↦
        let place : (n + j) % length xs ≡ n + j = grind arith in
        ap (get_elem? xs) place ∙ rotate_before n j xs hn before
    | inr past ↦
        let k : ℕ = n + j - length xs in
        let place : (n + j) % length xs ≡ k = grind arith in
        let dropped = length-drop n xs (omega arith) in
        let turned : length (drop n xs) + k ≡ j = omega (arith, dropped) in
        ap (get_elem? xs) place
        ∙ rotate_past n k xs hn (omega arith)
        ∙ ap (get_elem? (rotate n xs)) turned
  ]
