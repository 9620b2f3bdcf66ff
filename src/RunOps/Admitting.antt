-- ===== src/RunOps/Admitting.antt =====
-- ops/runs.py: under the strategy `reject` a thread never gets a second active run.
use skeino.Base.{
  ℕ, ◌≡◌, refl, sym, ap, subst, ◌∙◌, ◌⊎◌, true, false, some, List, [], ◌∷◌, arith, elem, is_empty,
  All, All-mono, Bool-cases, Option-cases, inl, inr, get, put, Dict, get-put_self, get-remove_self,
}
use skeino.Errors.{HttpError}
use skeino.Schemas.{RunStatus, MultitaskStrategy, RunRow, ThreadRow}
use skeino.Store.{Store, fetch_run_row, create_run, new_run_row}
use skeino.Concurrency.{
  Task, BackgroundRunRegistry, add, discard, active_set, register_external, store_active, forget,
  finished, task_done, ref_done, active_loop, active_runs, spawn,
}
use skeino.Concurrency.Holding.{ids_of}
use skeino.RunOps.{Exn, Done, Fate, World, await_op, awaited, continue_with, ◌>>=◌}
use skeino.RunOps.Sweeps.{read_active}
use skeino.RunOps.Admission.{
  RunRequest, create_run_effect, spawn_run, apply_strategy, resolve_multitask, admit,
}

get-store_active :
    (d : Dict (List ℕ)) (t : ℕ) (ids : List ℕ) → ids_of (get (store_active d t ids) t) ≡ ids
get-store_active d t [] = rw (get-remove_self d t)
get-store_active d t (k ∷ ids) = rw (get-put_self d t (k ∷ ids))

active_set-forget :
    (r : BackgroundRunRegistry) (t k : ℕ) → active_set (forget r t k) t ≡ discard k (active_set r t)
unfolding forget discard
active_set-forget r t k = elim (Option-cases (get r.active_by_thread t)) [
  | inl e ↦ let z : active_set r t ≡ [] = ap ids_of e in rw e (z ∙ sym (ap (discard k) z))
  | inr (ids, e) ↦
      let z : active_set r t ≡ ids = ap ids_of e in
      rw e (get-store_active r.active_by_thread t (discard k ids) ∙ sym (ap (discard k) z))
]

discard_all : List ℕ → List ℕ → List ℕ
discard_all [] xs = xs
discard_all (k ∷ ks) xs = discard_all ks (discard k xs)

-- A pruning that leaves no active run has emptied the thread's set.
pruned_none :
    (t : ℕ) (r : BackgroundRunRegistry) (ids : List ℕ)
    → (active_loop t r ids).0 ≡ []
    → active_set (active_loop t r ids).1 t ≡ discard_all ids (active_set r t)
unfolding active_loop discard_all
pruned_none t r [] h = refl
pruned_none t r (k ∷ ids) h = elim (Bool-cases (finished r k)) [
  | inl u ↦
      let h' : (active_loop t (forget r t k) ids).0 ≡ [] = rw u at h in
      rw u (pruned_none t (forget r t k) ids h' ∙ ap (discard_all ids) (active_set-forget r t k))
  | inr f ↦ absurd (cc (rw f at h))
]

kept_elem :
    (k : ℕ) (ks xs : List ℕ)
    → All (λ x. elem x (k ∷ ks) ≡ true) xs
    → All (λ x. elem x ks ≡ true) (discard k xs)
unfolding discard
kept_elem k ks [] h = tt
kept_elem k ks (x ∷ xs) h = ground (arith, kept_elem k ks xs)

discard_all_of : (ks xs : List ℕ) → All (λ x. elem x ks ≡ true) xs → discard_all ks xs ≡ []
unfolding discard_all
discard_all_of [] [] h = refl
discard_all_of [] (x ∷ xs) h = absurd (cc (h.0))
discard_all_of (k ∷ ks) xs h = discard_all_of ks (discard k xs) (kept_elem k ks xs h)

elem-later : (k x : ℕ) (xs : List ℕ) → elem x xs ≡ true → elem x (k ∷ xs) ≡ true
elem-later k x xs h = ground arith

elem_own : (xs : List ℕ) → All (λ x. elem x xs ≡ true) xs
elem_own [] = tt
elem_own (x ∷ xs) = (ground arith, All-mono _ _ (λ y h. elem-later x y xs h) xs (elem_own xs))

no_active :
    (r : BackgroundRunRegistry) (t : ℕ)
    → (active_runs r t).0 ≡ []
    → active_set (active_runs r t).1 t ≡ []
unfolding active_runs
no_active r t h =
    pruned_none t r (active_set r t) h
    ∙ discard_all_of (active_set r t) (active_set r t) (elem_own (active_set r t))

one_active :
    (r : BackgroundRunRegistry) (t k : ℕ)
    → active_set r t ≡ k ∷ []
    → finished r k ≡ false
    → (active_runs r t).0 ≡ k ∷ []
unfolding active_runs active_loop
one_active r t k h f = rw (h, f, active_loop)

unfinished :
    (r : BackgroundRunRegistry) (k ref : ℕ) (task : Task)
    → get r.tasks k ≡ some ref
    → get r.heap ref ≡ some task
    → task.done ≡ false
    → finished r k ≡ false
unfolding finished
unfinished r k ref task e g d = rw (e, ref_done, g, d, task_done, finished) refl

abbrev new_task : ℕ → ℕ → Task
new_task t k = record {
  thread_id = t;
  run_id = k;
  finalize = false;
  done = false;
  cancelling = false;
}

-- A run that is spawned on a thread without any is its only active one.
spawned_alone :
    (r : BackgroundRunRegistry) (t k : ℕ)
    → active_set r t ≡ []
    → (active_runs (spawn r t k false).1 t).0 ≡ k ∷ []
unfolding spawn register_external
spawned_alone r t k h =
    one_active (spawn r t k false).1 t k
      (ap ids_of (get-put_self r.active_by_thread t (add k (active_set r t)))
        ∙ (unfold add in ap (add k) h))
      (unfinished (spawn r t k false).1 k r.next_ref (new_task t k)
        (get-put_self r.tasks k r.next_ref) (get-put_self r.heap r.next_ref (new_task t k)) refl)

-- What an admission under `reject` may come to: a pending run, the only active one of its thread, which
-- had none; or an error, which is a 409 that found an active run and left the store as it was, or one
-- that came while the thread had none.
abbrev pub IsAdmission : ℕ → ℕ → World → Done RunRow × World → Type 0
IsAdmission thread_id run_id w (Done.returns row, w') =
    ((active_runs w.registry thread_id).0 ≡ [])
    × ((active_runs w'.registry thread_id).0 ≡ run_id ∷ [])
    × (row.status ≡ RunStatus.pending)
    × (fetch_run_row w'.store thread_id run_id ≡ some row)
IsAdmission thread_id run_id w (Done.raises e, w') =
    ((is_empty (active_runs w.registry thread_id).0 ≡ false)
      × (e ≡ Exn.http (HttpError.active_run_rejected thread_id))
      × (w'.store ≡ w.store))
    ⊎ ((active_runs w.registry thread_id).0 ≡ [])

found_again :
    (threads : Dict ThreadRow) (runs : Dict RunRow) (row : RunRow) (thread_id run_id : ℕ)
    → row.thread_id ≡ thread_id
    → fetch_run_row (record { threads = threads; runs = put runs run_id row }) thread_id run_id
      ≡ some row
unfolding fetch_run_row
found_again threads runs row thread_id run_id e =
    rw (get-put_self runs run_id row, fetch_run_row) (ground (arith, e))

module _ (thread_id run_id : ℕ) (request : RunRequest) (w : World)
    (none_active : (active_runs w.registry thread_id).0 ≡ []) where
  created :
      (fate : Fate) (now : ℕ) (f : Store → Store) (w' : World)
      → w'.registry ≡ (active_runs w.registry thread_id).1
      → IsAdmission thread_id run_id w (
          continue_with (spawn_run thread_id run_id) (
            awaited
              (create_run_effect thread_id run_id request)
              (record { now = now; meanwhile = f; fate = fate })
              w'))
  unfolding spawn_run create_run new_run_row fetch_run_row
  created Fate.clear now f w' e = (
    none_active,
    rw e (
        spawned_alone (active_runs w.registry thread_id).1 thread_id run_id
          (no_active w.registry thread_id none_active)),
    refl,
    found_again w'.store.threads w'.store.runs _ thread_id run_id refl,
  )
  created (Fate.lost x) now f w' e = inr none_active
  created (Fate.struck x) now f w' e = inr none_active

decided :
    (thread_id run_id : ℕ) (request : RunRequest) (w : World) (ids : List ℕ)
    → (active_runs w.registry thread_id).0 ≡ ids
    → IsAdmission thread_id run_id w (
        continue_with
          (λ _.
            await_op (create_run_effect thread_id run_id request) >>= spawn_run thread_id run_id)
          (apply_strategy thread_id MultitaskStrategy.reject ids
            (record w { registry = (active_runs w.registry thread_id).1 })))
unfolding apply_strategy await_op
decided thread_id run_id request w [] h =
    let m = w.moments w.tick in created thread_id run_id request w h m.fate m.now m.meanwhile _ refl
decided thread_id run_id request w (k ∷ ids) h = inl (ap is_empty h, refl, refl)

-- Under the strategy `reject`, whatever happens at the admission's await: if a run is admitted, its
-- thread had no active run before and now has exactly that one, and its pending row is stored. If a run is
-- active on the thread, the admission is a 409 that leaves the store as it was.
pub admit_reject :
    (thread_id run_id : ℕ) (request : RunRequest) (w : World)
    → request.multitask_strategy ≡ MultitaskStrategy.reject
    → IsAdmission thread_id run_id w (admit thread_id run_id request w)
unfolding admit resolve_multitask read_active await_op
admit_reject thread_id run_id request w h =
    let ids = (active_runs w.registry thread_id).0 in
    subst
      (λ strategy. IsAdmission thread_id run_id w (
        continue_with
          (λ _.
            await_op (create_run_effect thread_id run_id request) >>= spawn_run thread_id run_id)
          (apply_strategy thread_id strategy ids
            (record w { registry = (active_runs w.registry thread_id).1 }))))
      (sym h) (decided thread_id run_id request w ids refl)
