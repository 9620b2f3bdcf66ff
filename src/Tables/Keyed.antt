-- ===== src/Tables/Keyed.antt =====
-- persistence/sqlite_store.py: a table with a primary key against a dict under that key.
use skeino.Base.{
  ℕ, ◌≡◌, refl, sym, ap, subst, ◌∙◌, Bool, true, false, not, ◌&&◌, Option, none, some, List, [],
  ◌∷◌, ◌++◌, arith, ◌==◌, ==_iff, ltb, if◌then◌else◌, keep, is_empty, Dict, get, put, remove,
  contains, values, Unique, Bool-cases, inl, inr,
}
use skeino.Tables.{fetchone, update_where, delete_where, rowcount}

module _ {A : Type 0} (key : A → ℕ) where
  abbrev pub keyed : List A → Dict A
  keyed [] = []
  keyed (row ∷ rows) = (key row, row) ∷ keyed rows

  -- WHERE key = ?
  abbrev pub has_key : ℕ → A → Bool
  has_key k row = key row == k

module _ {A : Type 0} (key : A → ℕ) where
  pub values-keyed : (rows : List A) → values (keyed key rows) ≡ rows
  values-keyed [] = refl
  values-keyed (row ∷ rows) = ap (λ l. row ∷ l) (values-keyed rows)

  pub fetchone-keyed :
      (rows : List A) (k : ℕ) → fetchone (keep (has_key key k) rows) ≡ get (keyed key rows) k
  fetchone-keyed [] k = refl
  fetchone-keyed (row ∷ rows) k = ground (arith, fetchone-keyed rows k)

  pub is_empty-keyed :
      (rows : List A) (k : ℕ)
      → not (is_empty (keep (has_key key k) rows)) ≡ contains (keyed key rows) k
  is_empty-keyed [] k = refl
  is_empty-keyed (row ∷ rows) k = ground (arith, is_empty-keyed rows k)

  -- An insertion under a free key.
  pub keyed-insert :
      (rows : List A) (row : A)
      → contains (keyed key rows) (key row) ≡ false
      → keyed key (rows ++ row ∷ []) ≡ put (keyed key rows) (key row) row
  unfolding put
  keyed-insert [] row h = refl
  keyed-insert (r ∷ rows) row h = ground (arith, keyed-insert rows row)

  -- Rows whose key is not asked for stay as they are.
  pub untouched :
      (test : A → Bool) (set : A → A) (rows : List A) (k : ℕ)
      → contains (keyed key rows) k ≡ false
      → update_where (λ row. has_key key k row && test row) set rows ≡ rows
  untouched test set [] k h = refl
  untouched test set (row ∷ rows) k h = ground (arith, untouched test set rows k)

  pub uncounted :
      (test : A → Bool) (rows : List A) (k : ℕ)
      → contains (keyed key rows) k ≡ false
      → keep (λ row. has_key key k row && test row) rows ≡ []
  uncounted test [] k h = refl
  uncounted test (row ∷ rows) k h = ground (arith, uncounted test rows k)

module _ {A : Type 0} (key : A → ℕ) (test : A → Bool) (set : A → A) where
  -- `row = d.get(k); if row is not None and test(row): d[k] = set(row)`
  abbrev pub assigned : Dict A → ℕ → Option A → Dict A
  assigned d k none = d
  assigned d k (some row) = if test row then put d k (set row) else d

  abbrev pub counted : Option A → Bool
  counted none = false
  counted (some row) = test row

  abbrev selects : ℕ → A → Bool
  selects k row = has_key key k row && test row

  module _ (same : (row : A) → key (set row) ≡ key row) where
    update_hit :
        (row : A) (rows : List A) (k : ℕ)
        → has_key key k row ≡ true
        → key row ≡ k
        → contains (keyed key rows) k ≡ false
        → keyed key (update_where (selects k) set (row ∷ rows))
          ≡ assigned (keyed key (row ∷ rows)) k (some row)
    unfolding put
    update_hit row rows k y e u =
        let e' = untouched key test set rows k u in
        elim (Bool-cases (test row)) [
          | inl t ↦ rw (e', y, t) (ap (λ x. (x, set row) ∷ keyed key rows) (same row ∙ e))
          | inr f ↦ rw (e', y, f)
        ]

    update_miss :
        (row : A) (rows : List A) (k : ℕ) (found : Option A)
        → has_key key k row ≡ false
        → keyed key (update_where (selects k) set rows) ≡ assigned (keyed key rows) k found
        → keyed key (update_where (selects k) set (row ∷ rows))
          ≡ assigned (keyed key (row ∷ rows)) k found
    unfolding put
    update_miss row rows k none m h = rw m (ap (λ d. (key row, row) ∷ d) h)
    update_miss row rows k (some r) m h = elim (Bool-cases (test r)) [
      | inl y ↦ rw (m, y) (ap (λ d. (key row, row) ∷ d) (rw y at h))
      | inr n ↦ rw (m, n) (ap (λ d. (key row, row) ∷ d) (rw n at h))
    ]

    -- An UPDATE of one key, as an assignment in the dict.
    pub keyed-update :
        (rows : List A) (k : ℕ)
        → Unique (keyed key rows)
        → keyed key (update_where (selects k) set rows)
          ≡ assigned (keyed key rows) k (get (keyed key rows) k)
    keyed-update [] k u = refl
    keyed-update (row ∷ rows) k u = elim (Bool-cases (has_key key k row)) [
      | inl y ↦
          let e : key row ≡ k = (==_iff (key row) k).0 y in
          let h = subst (λ x. contains (keyed key rows) x ≡ false) e u.0 in
          let g : get (keyed key (row ∷ rows)) k ≡ some row = rw y in
          update_hit row rows k y e h ∙ ap (assigned (keyed key (row ∷ rows)) k) (sym g)
      | inr n ↦
          let g : get (keyed key (row ∷ rows)) k ≡ get (keyed key rows) k = rw n in
          update_miss row rows k (get (keyed key rows) k) n (keyed-update rows k u.1)
          ∙ ap (assigned (keyed key (row ∷ rows)) k) (sym g)
    ]

  pub rowcount-update :
      (rows : List A) (k : ℕ)
      → Unique (keyed key rows)
      → ltb 0 (rowcount (selects k) rows) ≡ counted (get (keyed key rows) k)
  rowcount-update [] k u = refl
  rowcount-update (row ∷ rows) k u = elim (Bool-cases (has_key key k row)) [
    | inl y ↦
        let e : key row ≡ k = (==_iff (key row) k).0 y in
        let n =
          uncounted key test rows k (subst (λ x. contains (keyed key rows) x ≡ false) e u.0) in
        elim (Bool-cases (test row)) [ inl t ↦ rw (y, t, n) | inr f ↦ rw (y, f, n) ]
    | inr n ↦ rw n (rowcount-update rows k u.1)
  ]

module _ {A : Type 0} (key : A → ℕ) where
  -- A DELETE of one key.
  pub keyed-delete :
      (rows : List A) (k : ℕ)
      → keyed key (delete_where (has_key key k) rows) ≡ remove (keyed key rows) k
  unfolding remove
  keyed-delete [] k = refl
  keyed-delete (row ∷ rows) k = ground (arith, keyed-delete rows k)

  remove_absent :
      (rows : List A) (k : ℕ)
      → contains (keyed key rows) k ≡ false
      → remove (keyed key rows) k ≡ keyed key rows
  unfolding remove
  remove_absent [] k h = refl
  remove_absent (row ∷ rows) k h = ground (arith, remove_absent rows k)

module _ {A : Type 0} (key : A → ℕ) (test : A → Bool) where
  undeleted :
      (rows : List A) (k : ℕ)
      → contains (keyed key rows) k ≡ false
      → delete_where (λ row. has_key key k row && test row) rows ≡ rows
  undeleted [] k h = refl
  undeleted (row ∷ rows) k h = ground (arith, undeleted rows k)

  tail_without :
      (row : A) (rows : List A) (k : ℕ)
      → has_key key k row ≡ true
      → Unique (keyed key (row ∷ rows))
      → contains (keyed key rows) k ≡ false
  tail_without row rows k y u =
      subst (λ x. contains (keyed key rows) x ≡ false) ((==_iff (key row) k).0 y) u.0

  -- `if row is not None and test(row): return row`
  abbrev pub allowed : Option A → Option A
  allowed none = none
  allowed (some row) = if test row then some row else none

  -- `if row is not None and test(row): del d[k]`
  abbrev pub deleted : Dict A → ℕ → Option A → Dict A
  deleted d k none = d
  deleted d k (some row) = if test row then remove d k else d

  pub fetchone_if :
      (rows : List A) (k : ℕ)
      → Unique (keyed key rows)
      → fetchone (keep (λ row. has_key key k row && test row) rows)
        ≡ allowed (get (keyed key rows) k)
  fetchone_if [] k u = refl
  fetchone_if (row ∷ rows) k u = elim (Bool-cases (has_key key k row)) [
    | inl y ↦
        let n = uncounted key test rows k (tail_without row rows k y u) in
        elim (Bool-cases (test row)) [ inl t ↦ rw (y, t) | inr f ↦ rw (y, f, n) ]
    | inr n ↦ rw n (fetchone_if rows k u.1)
  ]

  deleted_miss :
      (row : A) (rows : List A) (k : ℕ) (found : Option A)
      → has_key key k row ≡ false
      → keyed key (delete_where (λ row. has_key key k row && test row) rows)
        ≡ deleted (keyed key rows) k found
      → keyed key (delete_where (λ row. has_key key k row && test row) (row ∷ rows))
        ≡ deleted (keyed key (row ∷ rows)) k found
  unfolding remove
  deleted_miss row rows k none m h = rw m (ap (λ d. (key row, row) ∷ d) h)
  deleted_miss row rows k (some r) m h = elim (Bool-cases (test r)) [
    | inl y ↦ rw (m, y) (ap (λ d. (key row, row) ∷ d) (rw y at h))
    | inr n ↦ rw (m, n) (ap (λ d. (key row, row) ∷ d) (rw n at h))
  ]

  deleted_hit :
      (row : A) (rows : List A) (k : ℕ)
      → has_key key k row ≡ true
      → contains (keyed key rows) k ≡ false
      → keyed key (delete_where (λ row. has_key key k row && test row) (row ∷ rows))
        ≡ deleted (keyed key (row ∷ rows)) k (some row)
  unfolding remove
  deleted_hit row rows k y n =
      let e = undeleted rows k n in
      let a = remove_absent key rows k n in
      elim (Bool-cases (test row)) [ inl t ↦ rw (y, t, e) (sym a) | inr f ↦ rw (y, f, e) ]

  pub keyed-delete_if :
      (rows : List A) (k : ℕ)
      → Unique (keyed key rows)
      → keyed key (delete_where (λ row. has_key key k row && test row) rows)
        ≡ deleted (keyed key rows) k (get (keyed key rows) k)
  keyed-delete_if [] k u = refl
  keyed-delete_if (row ∷ rows) k u = elim (Bool-cases (has_key key k row)) [
    | inl y ↦
        let g : get (keyed key (row ∷ rows)) k ≡ some row = rw y in
        deleted_hit row rows k y (tail_without row rows k y u)
        ∙ ap (deleted (keyed key (row ∷ rows)) k) (sym g)
    | inr n ↦
        let g : get (keyed key (row ∷ rows)) k ≡ get (keyed key rows) k = rw n in
        deleted_miss row rows k (get (keyed key rows) k) n (keyed-delete_if rows k u.1)
        ∙ ap (deleted (keyed key (row ∷ rows)) k) (sym g)
  ]
