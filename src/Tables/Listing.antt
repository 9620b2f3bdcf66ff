-- ===== src/Tables/Listing.antt =====
-- A page of an ORDER BY of rows that one WHERE clause selects, against a page of Python's sort.
use skeino.Base.{
  ℕ, ◌≡◌, refl, sym, ap, ◌∙◌, Bool, ◌&&◌, List, [], ◌∷◌, arith, take, drop, keep, map, values, sort,
  sort-perm, sort-IsSorted, pages_agree,
}
use mathlib.Core.List.Perm
use skeino.Tables.{IsOrderBy}
use skeino.Tables.Keyed.{keyed, values-keyed}

module _ {A : Type 0} where
  -- One WHERE clause, or one filter after the other.
  keep-keep : (p q : A → Bool) (rows : List A) → keep (λ r. p r && q r) rows ≡ keep q (keep p rows)
  keep-keep p q [] = refl
  keep-keep p q (row ∷ rows) = ground (arith, keep-keep p q rows)

  -- A page of an ORDER BY against a page of Python's sort.
  pub order_by-sort :
      (order : (A → ℕ) → Bool → List A → List A) (key : A → ℕ) (descending : Bool)
      (limit offset : ℕ) (rows : List A)
      → IsOrderBy order
      → map key (take limit (drop offset (order key descending rows)))
        ≡ map key (take limit (drop offset (sort key descending rows)))
  order_by-sort order key descending limit offset rows o =
      pages_agree key descending limit offset (order key descending rows) (sort key descending rows)
        (Perm.trans (o.rearranges key descending rows) (Perm.symm (sort-perm key descending rows)))
        (o.orders key descending rows) (sort-IsSorted key descending rows)

  pub filtered :
      (key : A → ℕ) (p q : A → Bool) (rows : List A)
      → keep (λ r. p r && q r) rows ≡ keep q (keep p (values (keyed key rows)))
  filtered key p q rows =
      keep-keep p q rows ∙ ap (λ l. keep q (keep p l)) (sym (values-keyed key rows))
