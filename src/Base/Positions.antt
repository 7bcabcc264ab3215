-- ===== src/Base/Positions.antt =====
-- Lists by position.
use Prim.Native.Nat.{ℕ, zero, suc, ◌+◌, ◌<◌}
use mathlib.Core.Path.{◌≡◌, refl, ap}
use mathlib.Core.Logic.{◌⊎◌, inl, inr}
use mathlib.Core.Option.{none, some, some-injective}
use mathlib.Core.List.{List, [], ◌∷◌, ◌++◌}
use native.Mathlib.Omega.{arith}
use ytshare.Base.Lists.{length, get_elem?, total}

module _ {ℓ} {A : Type ℓ} where
  pub get_elem-past_end : (xs : List A) → get_elem? xs (length xs) ≡ none
  get_elem-past_end [] = refl
  get_elem-past_end (x ∷ xs) = get_elem-past_end xs

  pub get_elem-at_end : (xs : List A) (x : A) → get_elem? (xs ++ x ∷ []) (length xs) ≡ some x
  get_elem-at_end [] x = refl
  get_elem-at_end (y ∷ xs) x = get_elem-at_end xs x

  pub get_elem-append :
      (xs ys : List A) (i : ℕ) (x : A) → get_elem? xs i ≡ some x → get_elem? (xs ++ ys) i ≡ some x
  get_elem-append [] ys i x h = cc
  get_elem-append (y ∷ xs) ys zero x h = h
  get_elem-append (y ∷ xs) ys (suc i) x h = get_elem-append xs ys i x h

  pub get_elem-bound : (xs : List A) (i : ℕ) (x : A) → get_elem? xs i ≡ some x → i < length xs
  get_elem-bound [] i x h = cc
  get_elem-bound (y ∷ xs) zero x h = omega arith
  get_elem-bound (y ∷ xs) (suc i) x h = omega (arith, get_elem-bound xs i x h)

  -- What stands in a list that has grown by one.
  pub get_elem-grown :
      (xs : List A) (y : A) (i : ℕ) (x : A)
      → get_elem? (xs ++ y ∷ []) i ≡ some x
      → (get_elem? xs i ≡ some x) ⊎ ((i ≡ length xs) × (some x ≡ some y))
  get_elem-grown [] y zero x h = inr (refl, cc)
  get_elem-grown [] y (suc i) x h = cc
  get_elem-grown (z ∷ xs) y zero x h = inl h
  get_elem-grown (z ∷ xs) y (suc i) x h = elim (get_elem-grown xs y i x h) [
    | inl before ↦ inl before
    | inr (e, same) ↦ inr (ap suc e, same)
  ]

  -- A list with another entry at a position.
  abbrev pub set_elem : ℕ → A → List A → List A
  set_elem i x [] = []
  set_elem zero x (y ∷ xs) = x ∷ xs
  set_elem (suc i) x (y ∷ xs) = y ∷ set_elem i x xs

  pub total-set_elem :
      (w : A → ℕ) (i : ℕ) (x old : A) (xs : List A)
      → get_elem? xs i ≡ some old
      → total w (set_elem i x xs) + w old ≡ total w xs + w x
  total-set_elem w i x old [] h = cc
  total-set_elem w zero x old (y ∷ xs) h =
      let same : y ≡ old = some-injective y old h in rw same (omega arith)
  total-set_elem w (suc i) x old (y ∷ xs) h = omega (arith, total-set_elem w i x old xs h)
