-- ===== src/Base/SortKeys.antt =====
-- Any two sorts of the same rows agree on the keys, whatever they do with rows of equal keys.
use Prim.Native.Nat.{ℕ, zero, suc}
use mathlib.Core.Path.{◌≡◌, refl, sym, ap, ◌∙◌}
use mathlib.Core.Bool.{Bool, true}
use mathlib.Core.List.{List, [], ◌∷◌, Perm, map, foldr}
use mathlib.Core.List.Perm
use native.Mathlib.Omega.{arith}
use skeino.Base.Lists.{All, take, drop}
use skeino.Base.Sort.{in_order, sorted_insert, IsSorted}

module _ (reverse : Bool) where
  abbrev insert_key : ℕ → List ℕ → List ℕ
  insert_key = sorted_insert (λ k. k) reverse

  insert_key_comm :
      (x y : ℕ) (l : List ℕ) → insert_key x (insert_key y l) ≡ insert_key y (insert_key x l)
  insert_key_comm x y [] = ground arith
  insert_key_comm x y (z ∷ l) = ground (arith, insert_key_comm x y l)

  insert_key_head :
      (x : ℕ) (l : List ℕ)
      → All (λ y. in_order (λ k. k) reverse x y ≡ true) l
      → insert_key x l ≡ x ∷ l
  insert_key_head x [] h = refl
  insert_key_head x (y ∷ l) h = rw (h.0)

  resort : (l : List ℕ) → IsSorted (λ k. k) reverse l → foldr insert_key [] l ≡ l
  resort [] h = refl
  resort (x ∷ l) h = rw (resort l h.1) (insert_key_head x l h.0)

  same_keys :
      (k l : List ℕ) → Perm k l → IsSorted (λ n. n) reverse k → IsSorted (λ n. n) reverse l → k ≡ l
  same_keys k l p a b =
      sym (resort k a) ∙ Perm.foldr-eq (hlevel) insert_key insert_key_comm p [] ∙ resort l b

module _ {ℓ} {A : Type ℓ} (key : A → ℕ) where
  All-map_key {κ} : (P : ℕ → Type κ) (xs : List A) → All (λ x. P (key x)) xs → All P (map key xs)
  All-map_key P [] h = tt
  All-map_key P (x ∷ xs) h = (h.0, All-map_key P xs h.1)

  map_key-IsSorted :
      (reverse : Bool) (xs : List A)
      → IsSorted key reverse xs
      → IsSorted (λ n. n) reverse (map key xs)
  map_key-IsSorted reverse [] h = tt
  map_key-IsSorted reverse (x ∷ xs) h = (All-map_key _ xs h.0, map_key-IsSorted reverse xs h.1)

  map-take : (n : ℕ) (xs : List A) → map key (take n xs) ≡ take n (map key xs)
  map-take zero xs = refl
  map-take (suc n) [] = refl
  map-take (suc n) (x ∷ xs) = ap (λ l. key x ∷ l) (map-take n xs)

  map-drop : (n : ℕ) (xs : List A) → map key (drop n xs) ≡ drop n (map key xs)
  map-drop zero xs = refl
  map-drop (suc n) [] = refl
  map-drop (suc n) (x ∷ xs) = map-drop n xs

  sorts_agree :
      (reverse : Bool) (xs ys : List A)
      → Perm xs ys
      → IsSorted key reverse xs
      → IsSorted key reverse ys
      → map key xs ≡ map key ys
  sorts_agree reverse xs ys p a b =
      same_keys reverse (map key xs) (map key ys) (Perm.map key p) (map_key-IsSorted reverse xs a)
        (map_key-IsSorted reverse ys b)

  -- So do their pages.
  pub pages_agree :
      (reverse : Bool) (limit offset : ℕ) (xs ys : List A)
      → Perm xs ys
      → IsSorted key reverse xs
      → IsSorted key reverse ys
      → map key (take limit (drop offset xs)) ≡ map key (take limit (drop offset ys))
  pages_agree reverse limit offset xs ys p a b =
      map-take limit (drop offset xs)
      ∙ ap (take limit) (
          map-drop offset xs
          ∙ ap (drop offset) (sorts_agree reverse xs ys p a b)
          ∙ sym (map-drop offset ys))
      ∙ sym (map-take limit (drop offset ys))
