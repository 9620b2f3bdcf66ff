-- ===== src/Concurrency/Activity.antt =====
-- concurrency.py, BackgroundRunRegistry: from when to when a run reads as active.
use skeino.Base.{
  ℕ, ◌<◌, ◌≡◌, ◌≢◌, refl, sym, subst, ap, ◌∙◌, Bool, true, false, not, ◌&&◌, none, some, List, [],
  ◌∷◌, arith, ◌==◌, ==_iff, elem, All, Bool-cases, Option-cases, inl, inr, Dict, get, remove,
  get-put_self, get-put_ne, get-remove_self,
}
use skeino.Concurrency.{
  Task, BackgroundRunRegistry, add, discard, active_set, register_external, store_active, forget,
  active_runs, spawn, shutdown, finalizer_ends, Step, step, steps,
}
use skeino.Concurrency.Holding.{Held, active_loop-Held, elem-add_self, ids_of}
use skeino.Concurrency.Lifetime.{
  cancel-Held, cancel_all-Held, task_ends-Held, register_external-Held, spawn-Held,
  done_callback-Held, finalizer_ends-Held,
}

-- A step that neither spawns the run again nor is the end of the finalizer of the task `ref`.
abbrev pub spares : ℕ → ℕ → Step → Bool
spares run_id ref (Step.reserves t k) = true
spares run_id ref (Step.spawns t k finalize) = not (k == run_id)
spares run_id ref (Step.reads_active t) = true
spares run_id ref (Step.cancels k) = true
spares run_id ref Step.shuts_down = true
spares run_id ref (Step.ends j) = true
spares run_id ref (Step.calls_back j) = true
spares run_id ref (Step.finalizes j) = not (j == ref)

module _ (thread_id run_id ref : ℕ) where
  step-Held :
      (r : BackgroundRunRegistry) (s : Step)
      → spares run_id ref s ≡ true
      → Held r thread_id run_id ref
      → Held (step r s) thread_id run_id ref
  unfolding step shutdown active_runs
  step-Held r (Step.reserves t k) h w = register_external-Held thread_id run_id ref r t k w
  step-Held r (Step.spawns t k finalize) h w =
      spawn-Held thread_id run_id ref r t k finalize (ground (arith, h)) w
  step-Held r (Step.reads_active t) h w =
      (active_loop-Held thread_id run_id ref t r (active_set r t) w).0
  step-Held r (Step.cancels k) h w = cancel-Held thread_id run_id ref r k w
  step-Held r Step.shuts_down h w = cancel_all-Held thread_id run_id ref r r.tasks w
  step-Held r (Step.ends j) h w = task_ends-Held thread_id run_id ref r j w
  step-Held r (Step.calls_back j) h w = done_callback-Held thread_id run_id ref r j w
  step-Held r (Step.finalizes j) h w =
      finalizer_ends-Held thread_id run_id ref r j (ground (arith, h)) w

  steps-Held :
      (r : BackgroundRunRegistry) (ss : List Step)
      → All (λ s. spares run_id ref s ≡ true) ss
      → Held r thread_id run_id ref
      → Held (steps r ss) thread_id run_id ref
  unfolding steps
  steps-Held r [] a w = w
  steps-Held r (s ∷ ss) (h, a) w = steps-Held (step r s) ss a (step-Held r s h w)

  active_runs-Held :
      (r : BackgroundRunRegistry)
      → Held r thread_id run_id ref
      → elem run_id (active_runs r thread_id).0 ≡ true
  unfolding active_runs
  active_runs-Held r w =
      (active_loop-Held thread_id run_id ref thread_id r (active_set r thread_id) w).1 ∙ w.listed

abbrev new_task : ℕ → ℕ → Task
new_task thread_id run_id = record {
  thread_id = thread_id;
  run_id = run_id;
  finalize = true;
  done = false;
  cancelling = false;
}

spawn-Held_new :
    (r : BackgroundRunRegistry) (thread_id run_id : ℕ)
    → ((j : ℕ) (task : Task)
        → get r.heap j ≡ some task
        → (j < r.next_ref) × ((task.run_id == run_id && task.finalize) ≡ false))
    → ((j : ℕ)
        → elem j r.finalizer_tasks ≡ true
        → (task : Task) × (get r.heap j ≡ some task) × (task.finalize ≡ true))
    → Held (spawn r thread_id run_id true).1 thread_id run_id r.next_ref
unfolding spawn register_external
spawn-Held_new r thread_id run_id fresh finals = record {
  listed =
      subst (λ x. elem run_id (ids_of x) ≡ true)
        (sym (get-put_self r.active_by_thread thread_id (add run_id (active_set r thread_id))))
        (elem-add_self run_id (active_set r thread_id));
  tracked = get-put_self r.tasks run_id r.next_ref;
  open_ended = get-put_self r.completion run_id r.next_ref;
  bounded = omega arith;
  alone = λ j u h. elim (Bool-cases (r.next_ref == j)) [
    | inl v ↦
        let q : r.next_ref ≡ j = (==_iff r.next_ref j).0 v in
        let p = get-put_self r.heap r.next_ref (new_task thread_id run_id) in
        let q' : new_task thread_id run_id ≡ u = cc in
        (omega arith, λ c. ap (λ x. x.finalize) (sym q') ∙ ground (arith, q))
    | inr v ↦
        let a = fresh j u (sym (get-put_ne r.heap r.next_ref _ j (ground (arith, v))) ∙ h) in
        (let b = a.0 in omega arith, λ c. let z = a.1 in let b = a.0 in ground (arith, c, z, b))
  ];
  finals = λ j m.
      let (u, h, f) = finals j m in
      let b = (fresh j u h).0 in
      let apart : r.next_ref ≢ j = omega arith in
      (u, get-put_ne r.heap r.next_ref _ j apart ∙ h, f);
}

-- A run spawned with a finalizer, while no earlier task of its id has one, reads as active after
-- every sequence of steps in which its id is not spawned again and its own finalizer does not end:
-- also when its task has ended, was cancelled, or has run its done callback.
pub spawned_run_active :
    (r : BackgroundRunRegistry) (thread_id run_id : ℕ) (ss : List Step)
    → ((j : ℕ) (task : Task)
        → get r.heap j ≡ some task
        → (j < r.next_ref) × ((task.run_id == run_id && task.finalize) ≡ false))
    → ((j : ℕ)
        → elem j r.finalizer_tasks ≡ true
        → (task : Task) × (get r.heap j ≡ some task) × (task.finalize ≡ true))
    → All (λ s. spares run_id r.next_ref s ≡ true) ss
    → elem run_id (active_runs (steps (spawn r thread_id run_id true).1 ss) thread_id).0 ≡ true
spawned_run_active r thread_id run_id ss fresh finals a =
    active_runs-Held thread_id run_id r.next_ref _ (
      steps-Held thread_id run_id r.next_ref _ ss a
        (spawn-Held_new r thread_id run_id fresh finals))

elem-discard_self : (k : ℕ) (xs : List ℕ) → elem k (discard k xs) ≡ false
unfolding discard
elem-discard_self k [] = refl
elem-discard_self k (x ∷ xs) = ground (arith, elem-discard_self k xs)

store_active_lem :
    (d : Dict (List ℕ)) (t : ℕ) (ids : List ℕ) (k : ℕ)
    → elem k ids ≡ false
    → elem k (ids_of (get (store_active d t ids) t)) ≡ false
store_active_lem d t [] k h = rw (get-remove_self d t) refl
store_active_lem d t (x ∷ ids) k h = rw (get-put_self d t (x ∷ ids)) h

active_set-forget_self :
    (r : BackgroundRunRegistry) (t k : ℕ) → elem k (active_set (forget r t k) t) ≡ false
unfolding forget
active_set-forget_self r t k = elim (Option-cases (get r.active_by_thread t)) [
  | inl e ↦ rw e (subst (λ x. elem k (ids_of x) ≡ false) (sym e) refl)
  | inr (ids, e) ↦
      rw e (store_active_lem r.active_by_thread t (discard k ids) k (elem-discard_self k ids))
]

-- When the finalizer that was started for a task ends, its run has no task and no completion any
-- more, and does not read as active on its thread.
pub finalizer_ends_releases :
    (r : BackgroundRunRegistry) (ref : ℕ) (task : Task)
    → get r.heap ref ≡ some task
    → elem ref r.finalizer_tasks ≡ true
    → let r' = finalizer_ends r ref in
      (get r'.tasks task.run_id ≡ none)
      × (get r'.completion task.run_id ≡ none)
      × (elem task.run_id (active_set r' task.thread_id) ≡ false)
unfolding finalizer_ends
finalizer_ends_releases r ref task e u =
    let r₁ = record r { completion = remove r.completion task.run_id } in
    rw (e, u, finalizer_ends)
      (
        unfold forget in get-remove_self r.tasks task.run_id,
        unfold forget in get-remove_self r.completion task.run_id,
        active_set-forget_self r₁ task.thread_id task.run_id,
      )
