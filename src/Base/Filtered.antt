-- ===== src/Base/Filtered.antt =====
-- Lists cut twice, and how a sort and a filter change a list's length and members.
use Prim.Native.Nat.{ℕ, zero, suc, ◌+◌, ◌-◌, ◌≤◌}
use mathlib.Core.Path.{◌≡◌, refl, sym, ap, ◌∙◌}
use mathlib.Core.Bool.{Bool, true, false, not, ◌&&◌}
use mathlib.Core.Logic.{◌⊎◌, inl, inr}
use mathlib.Core.List.{List, [], ◌∷◌, ◌++◌, Perm, perm_middle}
use mathlib.Core.List.Perm
use native.Mathlib.Nat.{zero-add, suc-add}
use native.Mathlib.Omega.{arith}
use skeino.Base.Tests.{Bool-cases}
use skeino.Base.Lists.{All, length, drop, keep}
use skeino.Base.Sort.{sort, sorted_insert, in_order}

drop-nil {ℓ} : {A : Type ℓ} (n : ℕ) → drop {A = A} n [] ≡ []
drop-nil zero = refl
drop-nil (suc n) = refl

pub drop-add {ℓ} : {A : Type ℓ} (m n : ℕ) (xs : List A) → drop n (drop m xs) ≡ drop (m + n) xs
drop-add zero n xs = rw (zero-add n)
drop-add (suc m) n [] = drop-nil n ∙ sym (drop-nil (suc m + n))
drop-add (suc m) n (x ∷ xs) = rw (suc-add m n) (drop-add m n xs)

pub length-drop {ℓ} : {A : Type ℓ} (n : ℕ) (xs : List A) → length (drop n xs) ≡ length xs - n
length-drop zero xs = omega arith
length-drop (suc n) [] = omega arith
length-drop (suc n) (x ∷ xs) = omega (arith, length-drop n xs)

keep-sorted_insert {ℓ} :
    {A : Type ℓ} (key : A → ℕ) (test : A → Bool) (x : A) (xs : List A)
    → Perm (keep test (sorted_insert key false x xs)) (keep test (x ∷ xs))
keep-sorted_insert key test x [] = Perm.refl _
keep-sorted_insert key test x (y ∷ ys) = elim (Bool-cases (in_order key false x y)) [
  | inl e ↦ rw e (Perm.refl _)
  | inr e ↦
      rw e (passed (Bool-cases (test x)) (Bool-cases (test y)) (keep-sorted_insert key test x ys))
]
  where
    passed :
        (test x ≡ true) ⊎ (test x ≡ false)
        → (test y ≡ true) ⊎ (test y ≡ false)
        → Perm (keep test (sorted_insert key false x ys)) (keep test (x ∷ ys))
        → Perm (keep test (y ∷ sorted_insert key false x ys)) (keep test (x ∷ y ∷ ys))
    passed (inl a) (inl b) p = rw (a, b) (Perm.trans (Perm.cons y (rw a at p)) (Perm.swap x y _))
    passed (inl a) (inr b) p = rw (a, b) (rw a at p)
    passed (inr a) (inl b) p = rw (a, b) (Perm.cons y (rw a at p))
    passed (inr a) (inr b) p = rw (a, b) (rw a at p)

-- Sorting before a filter only rearranges what passes it.
pub keep-sort {ℓ} :
    {A : Type ℓ} (key : A → ℕ) (test : A → Bool) (xs : List A)
    → Perm (keep test (sort key false xs)) (keep test xs)
unfolding sort
keep-sort key test [] = Perm.refl []
keep-sort key test (x ∷ xs) =
    Perm.trans (keep-sorted_insert key test x (sort key false xs)) (elim (Bool-cases (test x)) [
      | inl e ↦ rw e (Perm.cons x (keep-sort key test xs))
      | inr e ↦ rw e (keep-sort key test xs)
    ])

pub length-keep-le {ℓ} :
    {A : Type ℓ} (test : A → Bool) (xs : List A) → length (keep test xs) ≤ length xs
length-keep-le test [] = omega arith
length-keep-le test (x ∷ xs) = ground (arith, length-keep-le test xs)

length-sorted_insert {ℓ} :
    {A : Type ℓ} (key : A → ℕ) (x : A) (xs : List A)
    → length (sorted_insert key false x xs) ≡ suc (length xs)
length-sorted_insert key x [] = refl
length-sorted_insert key x (y ∷ ys) = ground (arith, length-sorted_insert key x ys)

pub length-sort {ℓ} :
    {A : Type ℓ} (key : A → ℕ) (xs : List A) → length (sort key false xs) ≡ length xs
unfolding sort
length-sort key [] = refl
length-sort key (x ∷ xs) =
    length-sorted_insert key x (sort key false xs) ∙ ap suc (length-sort key xs)

pub keep_both {ℓ} :
    {A : Type ℓ} (p q : A → Bool) (xs : List A) → keep q (keep p xs) ≡ keep (λ x. p x && q x) xs
keep_both p q [] = refl
keep_both p q (x ∷ xs) = ground (arith, keep_both p q xs)

-- What passes a test and what does not are the whole list.
pub keep-split {ℓ} :
    {A : Type ℓ} (test : A → Bool) (xs : List A)
    → Perm (keep test xs ++ keep (λ x. not (test x)) xs) xs
keep-split test [] = Perm.refl []
keep-split test (x ∷ xs) = elim (Bool-cases (test x)) [
  | inl y ↦ rw y (Perm.cons x (keep-split test xs))
  | inr n ↦ rw n (
      Perm.trans (perm_middle (keep test xs) (keep (λ x. not (test x)) xs))
        (Perm.cons x (keep-split test xs)))
]

pub keep-All {ℓ κ} :
    {A : Type ℓ} (test : A → Bool) (P : A → Type κ)
    → ((x : A) → test x ≡ true → P x)
    → (xs : List A) → All P (keep test xs)
keep-All test P h [] = tt
keep-All test P h (x ∷ xs) = elim (Bool-cases (test x)) [
  | inl y ↦ rw y (h x y, keep-All test P h xs)
  | inr n ↦ rw n (keep-All test P h xs)
]
