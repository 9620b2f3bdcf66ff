-- ===== src/Tables/Permuted.antt =====
-- persistence/sqlite_store.py: rows in another order have the same keys, and a selection of them is the same
-- in another order.
use skeino.Base.{
  ℕ, ◌≡◌, refl, sym, ap, ap₂, subst, ◌∙◌, Bool, true, false, List, [], ◌∷◌, arith, ◌==◌,
  if◌then◌else◌, keep, Option, none, some, contains, Unique, Bool-cases, inl, inr, map,
}
use mathlib.Core.List.{Perm, Permᴰ, filter_map}
use mathlib.Core.Option.{Option-elim}
use mathlib.Core.List.Perm
use mathlib.Core.Logic.{∥∥₁_elim}
use skeino.Tables.{update_where}
use skeino.Tables.Keyed.{keyed}

module _ {A : Type 0} (key : A → ℕ) where
  contains-perm :
      {xs ys : List A}
      → Permᴰ xs ys
      → (k : ℕ) → contains (keyed key xs) k ≡ contains (keyed key ys) k
  contains-perm Permᴰ.nil k = refl
  contains-perm (Permᴰ.cons {a = a} {b = b} e p) k =
      ap₂ (λ (j : ℕ) (c : Bool). if j == k then true else c) (ap key e) (contains-perm p k)
  contains-perm (Permᴰ.swap {a = a} {b = b} {a' = a'} {b' = b'} {l = l} e f) k =
      let e' = ap key e in let f' = ap key f in ground arith
  contains-perm (Permᴰ.trans p q) k = contains-perm p k ∙ contains-perm q k

  pub contains_key-perm :
      {xs ys : List A}
      → Perm xs ys
      → (k : ℕ) → contains (keyed key xs) k ≡ contains (keyed key ys) k
  contains_key-perm p k = ∥∥₁_elim p (hlevel) (λ d. contains-perm d k)

  Uniqueᴰ-perm : {xs ys : List A} → Permᴰ xs ys → Unique (keyed key xs) → Unique (keyed key ys)
  Uniqueᴰ-perm Permᴰ.nil u = u
  Uniqueᴰ-perm (Permᴰ.cons {a = a} {b = b} {l₂ = ys} e p) u = (
    subst (λ x. contains (keyed key ys) (key x) ≡ false) e (sym (contains-perm p (key a)) ∙ u.0),
    Uniqueᴰ-perm p u.1,
  )
  Uniqueᴰ-perm (Permᴰ.swap {a = a} {b = b} {a' = a'} {b' = b'} {l = l} e f) u =
      let e' = ap key e in
      let f' = ap key f in
      (rw (← f', ← e') (ground (arith, u.0, u.1.0)), (rw (← e') (ground (arith, u.0)), u.1.1))
  Uniqueᴰ-perm (Permᴰ.trans p q) u = Uniqueᴰ-perm q (Uniqueᴰ-perm p u)

  Unique-prop : (rows : List A) → IsProp (Unique (keyed key rows))
  Unique-prop [] = hlevel
  Unique-prop (row ∷ rows) = let h = Unique-prop rows in hlevel h

  pub Unique-perm : {xs ys : List A} → Perm xs ys → Unique (keyed key xs) → Unique (keyed key ys)
  Unique-perm {ys = ys} p u = ∥∥₁_elim p (Unique-prop ys) (λ d. Uniqueᴰ-perm d u)

module _ {A : Type 0} (key : A → ℕ) (test : A → Bool) where
  pub absent-keep :
      (rows : List A) (k : ℕ)
      → contains (keyed key rows) k ≡ false
      → contains (keyed key (keep test rows)) k ≡ false
  absent-keep [] k h = refl
  absent-keep (row ∷ rows) k h = ground (arith, absent-keep rows k)

  pub keep-Unique : (rows : List A) → Unique (keyed key rows) → Unique (keyed key (keep test rows))
  keep-Unique [] u = tt
  keep-Unique (row ∷ rows) u = elim (Bool-cases (test row)) [
    | inl y ↦ rw y (absent-keep rows (key row) u.0, keep-Unique rows u.1)
    | inr n ↦ rw n (keep-Unique rows u.1)
  ]

module _ {A : Type 0} (test : A → Bool) (f : A → A) where
  abbrev chosen : A → Option A
  chosen x = if test x then some (f x) else none

  map-keep : (xs : List A) → map f (keep test xs) ≡ filter_map chosen xs
  unfolding filter_map Option-elim
  map-keep [] = refl
  map-keep (x ∷ xs) = elim (Bool-cases (test x)) [
    | inl y ↦ rw y (ap (λ l. f x ∷ l) (map-keep xs))
    | inr n ↦ rw n (map-keep xs)
  ]

  pub map-keep-perm :
      {xs ys : List A} → Perm xs ys → Perm (map f (keep test xs)) (map f (keep test ys))
  map-keep-perm {xs = xs} {ys = ys} p = rw (map-keep xs, map-keep ys) (Perm.filter_map chosen p)

module _ {A : Type 0} where
  pub update_where_cong :
      (p q : A → Bool) (set : A → A) (rows : List A)
      → ((row : A) → p row ≡ q row)
      → update_where p set rows ≡ update_where q set rows
  update_where_cong p q set rows h = λ i. update_where (λ row. h row i) set rows
