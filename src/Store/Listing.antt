-- ===== src/Store/Listing.antt =====
-- The two listings of the store: `list_run_rows` and `search_thread_rows`.
use mathlib.Core.List.{Perm}
use mathlib.Core.List.Perm
use skeino.Base.{
  refl, sym, subst, take, ◌++◌, ◌&&◌, inl, inr, Bool-cases, keep_both, keep-split, keep-All,
  sort-All, sort-perm, sort-IsSorted, Bool, false, ℕ, ◌≤◌, ◌≡◌, true, not, Option, List, [], ◌∷◌,
  arith, ◌==◌, drop, keep, sort, values, All, length, IsSorted, length-take-le, page-IsSorted,
  page-All,
}
use skeino.Schemas.{RunStatus, ThreadSearchRequest, RunRow, ThreadRow}
use skeino.Store.{
  Store, search_thread_rows, id_allowed, status_allowed, sort_key, resolve_sort_by, list_run_rows,
  run_status_allowed,
}
use skeino.Store.Search.{
  InOrder, Wanted, IsSorted-InOrder, id_allowed-IdWanted, IdWanted-id_allowed,
  status_allowed-StatusWanted, StatusWanted-status_allowed,
}

-- What a listed run satisfies.
abbrev pub Listed : ℕ → Option RunStatus → RunRow → Type 0
Listed thread_id status row = (row.thread_id ≡ thread_id) × (run_status_allowed status row ≡ true)

keep-Listed :
    (thread_id : ℕ) (status : Option RunStatus) (rows : List RunRow)
    → All
        (Listed thread_id status)
        (keep (run_status_allowed status) (keep (λ r. r.thread_id == thread_id) rows))
keep-Listed thread_id status [] = tt
keep-Listed thread_id status (row ∷ rows) = ground (arith, keep-Listed thread_id status rows)

-- A page of runs is sorted newest first, no longer than the limit, and holds runs of that thread
-- and of the wanted status only.
list_run_rows_page :
    (s : Store) (thread_id limit offset : ℕ) (status : Option RunStatus)
    → let page = list_run_rows s thread_id limit offset status in
      IsSorted (λ r. r.created_at) true page
      × (length page ≤ limit)
      × All (Listed thread_id status) page
unfolding list_run_rows
list_run_rows_page s thread_id limit offset status =
    let in_thread : List RunRow = keep (λ r. r.thread_id == thread_id) (values s.runs) in
    let listed : List RunRow = keep (run_status_allowed status) in_thread in
    (
      page-IsSorted (λ r. r.created_at) true limit offset listed,
      length-take-le limit (drop offset (sort (λ r. r.created_at) true listed)),
      page-All (λ r. r.created_at) true limit offset (Listed thread_id status) listed
          (keep-Listed thread_id status (values s.runs)),
    )

module _ (request : ThreadSearchRequest) where
  abbrev passes : ThreadRow → Bool
  passes row = id_allowed request.ids row && status_allowed request.status row

  passes-Wanted : (row : ThreadRow) → passes row ≡ true → Wanted request row
  passes-Wanted row h = elim (Bool-cases (id_allowed request.ids row)) [
    | inl y ↦ (
      id_allowed-IdWanted request.ids row y,
      status_allowed-StatusWanted request.status row (rw y at h),
    )
    | inr n ↦ let h' : false ≡ true = rw n at h in absurd (cc)
  ]

  rest-Wanted : (row : ThreadRow) → not (passes row) ≡ true → ¬ Wanted request row
  rest-Wanted row h (k, st) =
      let a = IdWanted-id_allowed request.ids row k in
      let b = StatusWanted-status_allowed request.status row st in
      let h' : false ≡ true = rw (a, b) at h in absurd (cc)

-- A page of threads is the slice at the offset, of the limit's length, of a list that holds exactly the
-- threads that pass both filters, each as often as the store does, sorted by the requested field
-- (`updated_at` by default) in the requested direction. A status is compared as text, and a missing value
-- comes first when ascending and last when descending.
pub search_thread_rows_page :
    (s : Store) (request : ThreadSearchRequest)
    → (listed others : List ThreadRow) × (search_thread_rows s request
        ≡ take request.limit (drop request.offset listed))
      × InOrder request listed
      × Perm (listed ++ others) (values s.threads)
      × All (Wanted request) listed
      × All (λ row. ¬ Wanted request row) others
unfolding search_thread_rows
search_thread_rows_page s request =
    let by = sort_key (resolve_sort_by request) in
    let reverse = not request.ascending in
    let rows = values s.threads in
    let found = keep (status_allowed request.status) (keep (id_allowed request.ids) rows) in
    let others = keep (λ row. not (passes request row)) rows in
    let same = keep_both (id_allowed request.ids) (status_allowed request.status) rows in
    (
      sort by reverse found,
      others,
      refl,
      IsSorted-InOrder request (sort by reverse found) (sort-IsSorted by reverse found),
      Perm.trans (Perm.append_right others (sort-perm by reverse found)) (
          subst (λ (l : List ThreadRow). Perm (l ++ others) rows) (sym same)
            (keep-split (passes request) rows)),
      sort-All by (Wanted request) reverse found (
          subst (All (Wanted request)) (sym same)
            (keep-All (passes request) (Wanted request) (passes-Wanted request) rows)),
      keep-All (λ row. not (passes request row)) (λ row. ¬ Wanted request row) (rest-Wanted request)
          rows,
    )
