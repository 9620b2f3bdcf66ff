-- ===== src/Base/Sort.antt =====
-- Python's `list.sort(key=..., reverse=...)`, which is stable both ways: equal keys keep their order.
use Prim.Native.Nat.{ℕ, zero, suc}
use mathlib.Core.Path.{◌≡◌}
use mathlib.Core.Bool.{Bool, true, false}
use mathlib.Core.Logic.{inl, inr}
use mathlib.Core.List.{List, [], ◌∷◌, Perm}
use mathlib.Core.List.Perm
use native.Mathlib.Omega.{arith}
use skeino.Base.Tests.{if◌then◌else◌, leb, Bool-cases}
use skeino.Base.Lists.{All, All-mono, All-take, All-drop, take, drop}

module _ {ℓ} {A : Type ℓ} (key : A → ℕ) where
  -- whether `x` may stand before `y`
  abbrev pub in_order : Bool → A → A → Bool
  in_order reverse x y = if reverse then leb (key y) (key x) else leb (key x) (key y)

  abbrev pub sorted_insert : Bool → A → List A → List A
  sorted_insert reverse x [] = x ∷ []
  sorted_insert reverse x (y ∷ ys) =
      if in_order reverse x y then x ∷ y ∷ ys else y ∷ sorted_insert reverse x ys

  unfoldable pub sort : Bool → List A → List A
  sort reverse [] = []
  sort reverse (x ∷ xs) = sorted_insert reverse x (sort reverse xs)

  -- Each element may stand before every later one.
  abbrev pub IsSorted : Bool → List A → Type ℓ
  IsSorted reverse [] = Unit
  IsSorted reverse (x ∷ xs) = All (λ y. in_order reverse x y ≡ true) xs × IsSorted reverse xs

module _ {ℓ} {A : Type ℓ} (key : A → ℕ) where
  sorted_insert-perm :
      (reverse : Bool) (x : A) (xs : List A) → Perm (sorted_insert key reverse x xs) (x ∷ xs)
  sorted_insert-perm reverse x [] = Perm.refl (x ∷ [])
  sorted_insert-perm reverse x (y ∷ ys) = elim (Bool-cases (in_order key reverse x y)) [
    | inl e ↦ rw e (Perm.refl (x ∷ y ∷ ys))
    | inr e ↦ rw e (Perm.trans (Perm.cons y (sorted_insert-perm reverse x ys)) (Perm.swap x y ys))
  ]

  -- The sort only rearranges.
  pub sort-perm : (reverse : Bool) (xs : List A) → Perm (sort key reverse xs) xs
  unfolding sort
  sort-perm reverse [] = Perm.refl []
  sort-perm reverse (x ∷ xs) =
      Perm.trans (sorted_insert-perm reverse x (sort key reverse xs))
        (Perm.cons x (sort-perm reverse xs))

  sorted_insert-All {κ} :
      (P : A → Type κ) (reverse : Bool) (x : A) (xs : List A)
      → P x
      → All P xs
      → All P (sorted_insert key reverse x xs)
  sorted_insert-All P reverse x [] hx h = (hx, tt)
  sorted_insert-All P reverse x (y ∷ ys) hx h =
      ground (arith, sorted_insert-All P reverse x ys hx h.1)

  pub sort-All {κ} :
      (P : A → Type κ) (reverse : Bool) (xs : List A) → All P xs → All P (sort key reverse xs)
  unfolding sort
  sort-All P reverse [] h = tt
  sort-All P reverse (x ∷ xs) h =
      sorted_insert-All P reverse x (sort key reverse xs) h.0 (sort-All P reverse xs h.1)

  in_order_total :
      (reverse : Bool) (x y : A)
      → in_order key reverse x y ≡ false
      → in_order key reverse y x ≡ true
  in_order_total reverse x y h = ground arith

  in_order_trans :
      (reverse : Bool) (x y z : A)
      → in_order key reverse x y ≡ true
      → in_order key reverse y z ≡ true
      → in_order key reverse x z ≡ true
  in_order_trans reverse x y z h k = ground arith

  sorted_insert-IsSorted :
      (reverse : Bool) (x : A) (xs : List A)
      → IsSorted key reverse xs
      → IsSorted key reverse (sorted_insert key reverse x xs)
  sorted_insert-IsSorted reverse x [] h = (tt, tt)
  sorted_insert-IsSorted reverse x (y ∷ ys) h = elim (Bool-cases (in_order key reverse x y)) [
    | inl e ↦ rw e ((e, All-mono _ _ (λ z. in_order_trans reverse x y z e) ys h.0), h)
    | inr e ↦ rw e (
      sorted_insert-All (λ z. in_order key reverse y z ≡ true) reverse x ys
          (in_order_total reverse x y e) h.0,
      sorted_insert-IsSorted reverse x ys h.1,
    )
  ]

  -- The result is in order.
  pub sort-IsSorted : (reverse : Bool) (xs : List A) → IsSorted key reverse (sort key reverse xs)
  unfolding sort
  sort-IsSorted reverse [] = tt
  sort-IsSorted reverse (x ∷ xs) =
      sorted_insert-IsSorted reverse x (sort key reverse xs) (sort-IsSorted reverse xs)

module _ {ℓ} {A : Type ℓ} (key : A → ℕ) where
  pub IsSorted-take :
      (reverse : Bool) (n : ℕ) (xs : List A)
      → IsSorted key reverse xs
      → IsSorted key reverse (take n xs)
  IsSorted-take reverse zero xs h = tt
  IsSorted-take reverse (suc n) [] h = tt
  IsSorted-take reverse (suc n) (x ∷ xs) h = (All-take _ n xs h.0, IsSorted-take reverse n xs h.1)

  pub IsSorted-drop :
      (reverse : Bool) (n : ℕ) (xs : List A)
      → IsSorted key reverse xs
      → IsSorted key reverse (drop n xs)
  IsSorted-drop reverse zero xs h = h
  IsSorted-drop reverse (suc n) [] h = tt
  IsSorted-drop reverse (suc n) (x ∷ xs) h = IsSorted-drop reverse n xs h.1

-- A page, `sorted(rows)[offset : offset + limit]`.
module _ {ℓ} {A : Type ℓ} (key : A → ℕ) (reverse : Bool) (limit offset : ℕ) where
  pub page-IsSorted :
      (xs : List A) → IsSorted key reverse (take limit (drop offset (sort key reverse xs)))
  page-IsSorted xs =
      IsSorted-take key reverse limit (drop offset (sort key reverse xs))
        (IsSorted-drop key reverse offset (sort key reverse xs) (sort-IsSorted key reverse xs))

  pub page-All {κ} :
      (P : A → Type κ) (xs : List A)
      → All P xs
      → All P (take limit (drop offset (sort key reverse xs)))
  page-All P xs h =
      All-take P limit (drop offset (sort key reverse xs))
        (All-drop P offset (sort key reverse xs) (sort-All key P reverse xs h))
