-- ===== src/Base/Lists.antt =====
-- Lists measured by native numbers, membership by a Boolean test, and the last entries of a list.
use Prim.Native.Nat.{ℕ, zero, suc, ◌+◌, ◌-◌, ◌≤◌}
use Prim.Native.String.{String}
use mathlib.Core.Path.{◌≡◌, refl, ap}
use mathlib.Core.Bool.{Bool, false, ◌||◌}
use mathlib.Core.Option.{Option, none, some}
use mathlib.Core.List.{List, [], ◌∷◌, ◌++◌}
use mathlib.Core.Path.{◌∙◌}
use Prim.Native.Nat.{◌<◌}
use native.Mathlib.Omega.{arith}
use text.Mathlib.Text.{◌==◌}

module _ {ℓ} {A : Type ℓ} where
  abbrev pub length : List A → ℕ
  length [] = 0
  length (x ∷ xs) = suc (length xs)

  abbrev pub take : ℕ → List A → List A
  take zero xs = []
  take (suc n) [] = []
  take (suc n) (x ∷ xs) = x ∷ take n xs

  abbrev pub drop : ℕ → List A → List A
  drop zero xs = xs
  drop (suc n) [] = []
  drop (suc n) (x ∷ xs) = drop n xs

  abbrev pub get_elem? : List A → ℕ → Option A
  get_elem? [] i = none
  get_elem? (x ∷ xs) zero = some x
  get_elem? (x ∷ xs) (suc i) = get_elem? xs i

  pub length-append : (xs ys : List A) → length (xs ++ ys) ≡ length xs + length ys
  length-append [] ys = omega arith
  length-append (x ∷ xs) ys = omega (arith, length-append xs ys)

  pub length-drop : (n : ℕ) (xs : List A) → length (drop n xs) ≡ length xs - n
  length-drop zero xs = omega arith
  length-drop (suc n) [] = omega arith
  length-drop (suc n) (x ∷ xs) = omega (arith, length-drop n xs)

  pub drop-length : (xs : List A) → drop (length xs) xs ≡ []
  drop-length [] = refl
  drop-length (x ∷ xs) = drop-length xs

  pub take-append-drop : (n : ℕ) (xs : List A) → take n xs ++ drop n xs ≡ xs
  take-append-drop zero xs = refl
  take-append-drop (suc n) [] = refl
  take-append-drop (suc n) (x ∷ xs) = ap (◌∷◌ x) (take-append-drop n xs)

  pub drop-append : (n : ℕ) (xs ys : List A) → n ≤ length xs → drop n (xs ++ ys) ≡ drop n xs ++ ys
  drop-append zero xs ys h = refl
  drop-append (suc n) [] ys h = absurd (omega arith)
  drop-append (suc n) (x ∷ xs) ys h = drop-append n xs ys (omega arith)

  take-length-take : (k : ℕ) (xs : List A) → take (length (take k xs)) xs ≡ take k xs
  take-length-take zero xs = refl
  take-length-take (suc k) [] = refl
  take-length-take (suc k) (x ∷ xs) = ap (λ l. x ∷ l) (take-length-take k xs)

  pub take-page :
      (n k : ℕ) (xs : List A)
      → n ≤ length xs
      → take (n + length (take k (drop n xs))) xs ≡ take n xs ++ take k (drop n xs)
  take-page zero k xs h =
      let e : 0 + length (take k xs) ≡ length (take k xs) = omega arith in
      ap (λ m. take m xs) e ∙ take-length-take k xs
  take-page (suc n) k [] h = absurd (omega (arith, h))
  take-page (suc n) k (x ∷ xs) h =
      let e : suc n + length (take k (drop n xs)) ≡ suc (n + length (take k (drop n xs))) =
        omega arith in
      ap (λ m. take m (x ∷ xs)) e ∙ ap (λ l. x ∷ l) (take-page n k xs (omega (arith, h)))

  pub length-take_le : (k : ℕ) (xs : List A) → length (take k xs) ≤ length xs
  length-take_le zero xs = omega arith
  length-take_le (suc k) [] = omega arith
  length-take_le (suc k) (x ∷ xs) = omega (arith, length-take_le k xs)

  pub length-take_positive : (k : ℕ) (xs : List A) → 0 < k → 0 < length xs → 0 < length (take k xs)
  length-take_positive zero xs h l = omega arith
  length-take_positive (suc k) [] h l = omega arith
  length-take_positive (suc k) (x ∷ xs) h l = omega arith

  pub take-length : (xs : List A) → take (length xs) xs ≡ xs
  take-length [] = refl
  take-length (x ∷ xs) = ap (λ l. x ∷ l) (take-length xs)

abbrev pub contains : List String → String → Bool
contains [] x = false
contains (y ∷ ys) x = x == y || contains ys x

-- A predicate of every entry.
abbrev pub All {ℓ κ} : {A : Type ℓ} → (A → Type κ) → List A → Type κ
All P [] = Unit
All P (x ∷ xs) = P x × All P xs

pub All-append {ℓ κ} :
    {A : Type ℓ} (P : A → Type κ) (xs ys : List A) → All P xs → All P ys → All P (xs ++ ys)
All-append P [] ys hx hy = hy
All-append P (x ∷ xs) ys hx hy = (hx.0, All-append P xs ys hx.1 hy)

-- The sum of the weights of a list's entries.
abbrev pub total {ℓ} : {A : Type ℓ} → (A → ℕ) → List A → ℕ
total w [] = 0
total w (x ∷ xs) = w x + total w xs

pub total-append {ℓ} :
    {A : Type ℓ} (w : A → ℕ) (xs ys : List A) → total w (xs ++ ys) ≡ total w xs + total w ys
total-append w [] ys = omega arith
total-append w (x ∷ xs) ys = omega (arith, total-append w xs ys)
