-- ===== src/RunOps/Collecting.antt =====
-- ops/runs.py: the page loop of `_release_stuck_threads` ends, and collects every stuck thread.
use skeino.Base.{
  ℕ, zero, suc, ◌+◌, ◌*◌, ◌≤◌, ◌<◌, Bool, false, ◌≡◌, refl, sym, ap, subst, ◌∙◌, ◌&&◌, none, some,
  List, [], ◌∷◌, ◌++◌, arith, ltb, ltb→lt, keep, take, drop, length, sort, values, IsSorted,
  IsSorted-drop, sort-IsSorted, Bool-cases, inl, inr, drop-add, length-drop, keep-sort,
  length-keep-le, length-sort,
}
use mathlib.Core.List.{Perm, append_assoc, map-append}
use mathlib.Core.List.Perm
use skeino.Schemas.{SortField, ThreadStatus, ThreadRow, thread_status_eq}
use skeino.Store.{Store, search_thread_rows, id_allowed, status_allowed, sort_key, resolve_sort_by}
use skeino.RunOps.{Done, await_op}
use skeino.RunOps.Outcomes.{calm_world}
use skeino.RunOps.Stuck.{page_size, busy_request, is_old, thread_ids, after_page, collect_stuck}
use skeino.RunOps.Pages.{old, page_complete, old-split, length-old-le}

not_fewer : (n : ℕ) → ltb n page_size ≡ false → page_size ≤ n
not_fewer n h = ground arith

-- The busy threads, oldest first.
abbrev busy_threads : Store → List ThreadRow
busy_threads s =
    sort (sort_key SortField.updated_at) false
      (keep (status_allowed (some ThreadStatus.busy)) (keep (id_allowed none) (values s.threads)))

module _ (s : Store) (now : ℕ) (outcome : Done ℕ) (parked : Bool) (cutoff : ℕ) where
  page_read :
      (offset : ℕ)
      → search_thread_rows s (busy_request offset) ≡ take page_size (drop offset (busy_threads s))
  unfolding search_thread_rows resolve_sort_by
  page_read offset = refl

  busy_threads-IsSorted :
      (offset : ℕ) → IsSorted (λ t. suc t.updated_at) false (drop offset (busy_threads s))
  unfolding sort_key
  busy_threads-IsSorted offset =
      IsSorted-drop (sort_key SortField.updated_at) false offset (busy_threads s)
        (sort-IsSorted (sort_key SortField.updated_at) false _)

  joined :
      (busy : List ℕ) (offset : ℕ)
      → let rest = drop offset (busy_threads s) in
        (busy ++ thread_ids (old cutoff (take page_size rest)))
          ++ thread_ids (old cutoff (drop (offset + page_size) (busy_threads s)))
        ≡ busy ++ thread_ids (old cutoff rest)
  joined busy offset =
      let rest = drop offset (busy_threads s) in
      let page = old cutoff (take page_size rest) in
      let later = old cutoff (drop page_size rest) in
      let split : thread_ids (old cutoff rest) ≡ thread_ids page ++ thread_ids later =
        ap thread_ids (old-split cutoff page_size rest)
        ∙ map-append (λ t. t.thread_id) page later in
      rw (← drop-add offset page_size (busy_threads s))
        (append_assoc busy (thread_ids page) (thread_ids later) ∙ ap (λ l. busy ++ l) (sym split))

  fewer :
      (fuel offset : ℕ)
      → length (drop offset (busy_threads s)) < suc fuel * page_size
      → ltb (length (old cutoff (take page_size (drop offset (busy_threads s))))) page_size ≡ false
      → length (drop (offset + page_size) (busy_threads s)) < fuel * page_size
  fewer fuel offset h f =
      let rest = drop offset (busy_threads s) in
      let l = length-drop page_size rest in
      let m = length-old-le cutoff page_size rest in
      let full = not_fewer (length (old cutoff (take page_size rest))) f in
      rw (← drop-add offset page_size (busy_threads s)) (omega arith)

  collected :
      (fuel offset : ℕ) (busy : List ℕ) (k : ℕ)
      → length (drop offset (busy_threads s)) < fuel * page_size
      → (collect_stuck fuel cutoff offset busy
          (record (calm_world s now outcome parked) { tick = k })).0
        ≡ Done.returns (some (busy ++ thread_ids (old cutoff (drop offset (busy_threads s)))))
  unfolding collect_stuck after_page await_op
  collected zero offset busy k h = absurd (omega arith)
  collected (suc fuel) offset busy k h =
      let rest = drop offset (busy_threads s) in
      let page = old cutoff (take page_size rest) in
      rw (page_read offset) (elim (Bool-cases (ltb (length page) page_size)) [
        | inl t ↦ rw t (
            ap (λ l. Done.returns (some (busy ++ thread_ids l)))
              (sym (
                page_complete cutoff page_size rest (busy_threads-IsSorted offset)
                  (ltb→lt (length page) page_size t))))
        | inr f ↦ rw f (
            collected fuel (offset + page_size) (busy ++ thread_ids page) (suc k)
              (fewer fuel offset h f)
            ∙ ap (λ l. Done.returns (some l)) (joined busy offset))
      ])

keep-keep :
    (cutoff : ℕ) (rows : List ThreadRow)
    → keep
        (is_old cutoff)
        (keep (status_allowed (some ThreadStatus.busy)) (keep (id_allowed none) rows))
      ≡ keep (λ t. thread_status_eq t.status ThreadStatus.busy && is_old cutoff t) rows
unfolding id_allowed status_allowed
keep-keep cutoff [] = refl
keep-keep cutoff (t ∷ rows) = ground (arith, keep-keep cutoff rows)

length-busy_threads-le : (s : Store) → length (busy_threads s) ≤ length (values s.threads)
length-busy_threads-le s =
    let by_id = keep (id_allowed none) (values s.threads) in
    let a = length-keep-le (id_allowed none) (values s.threads) in
    let b = length-keep-le (status_allowed (some ThreadStatus.busy)) by_id in
    let c =
      length-sort (sort_key SortField.updated_at)
        (keep (status_allowed (some ThreadStatus.busy)) by_id) in
    omega arith

-- The loop over the pages ends, and misses nothing: while nobody else writes, a hundredth of the number
-- of threads and one more round is fuel enough, and it collects exactly the threads that are busy and
-- were last updated before the cutoff, each as often as the store has it.
pub collect_stuck_complete :
    (s : Store) (now : ℕ) (outcome : Done ℕ) (parked : Bool) (cutoff fuel : ℕ)
    → length (values s.threads) < fuel * page_size
    → (ids : List ℕ) × ((collect_stuck fuel cutoff 0 [] (calm_world s now outcome parked)).0
        ≡ Done.returns (some ids))
      × Perm ids (
          thread_ids (
            keep
              (λ t. thread_status_eq t.status ThreadStatus.busy && is_old cutoff t)
              (values s.threads)))
collect_stuck_complete s now outcome parked cutoff fuel h =
    let listed = busy_threads s in
    (
      thread_ids (old cutoff listed),
      collected s now outcome parked cutoff fuel 0 [] 0 (omega (arith, length-busy_threads-le s)),
      Perm.map (λ t. t.thread_id)
          (subst (λ rows. Perm (old cutoff listed) rows) (keep-keep cutoff (values s.threads))
            (keep-sort (sort_key SortField.updated_at) (is_old cutoff) _)),
    )
