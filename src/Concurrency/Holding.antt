-- ===== src/Concurrency/Holding.antt =====
-- concurrency.py, BackgroundRunRegistry: how long a run reads as active.
use skeino.Base.{
  ℕ, ◌<◌, ◌≡◌, ◌≢◌, refl, sym, subst, ◌∙◌, true, false, Option, none, some, List, [], ◌∷◌, ◌++◌,
  arith, ◌==◌, ==_iff, elem, Bool-cases, Option-cases, inl, inr, Dict, get, contains, put,
  get-put_self, get-put_ne, get-remove_ne, get-none-contains,
}
use skeino.Concurrency.{
  Task, BackgroundRunRegistry, add, discard, active_set, register_external, store_active, forget,
  finished, active_loop,
}

pub elem-add : (j k : ℕ) (xs : List ℕ) → elem j xs ≡ true → elem j (add k xs) ≡ true
unfolding add
elem-add j k xs h = elim (Bool-cases (elem k xs)) [ inl t ↦ rw t h | inr f ↦ rw f (appended xs h) ]
  where
    appended : (xs : List ℕ) → elem j xs ≡ true → elem j (xs ++ k ∷ []) ≡ true
    appended [] h = absurd (cc)
    appended (x ∷ xs) h = ground (arith, appended xs)

pub elem-add_self : (k : ℕ) (xs : List ℕ) → elem k (add k xs) ≡ true
unfolding add
elem-add_self k xs = elim (Bool-cases (elem k xs)) [ inl t ↦ rw t t | inr f ↦ rw f (appended xs) ]
  where
    appended : (xs : List ℕ) → elem k (xs ++ k ∷ []) ≡ true
    appended [] = ground arith
    appended (x ∷ xs) = ground (arith, appended xs)

elem-discard : (j k : ℕ) (xs : List ℕ) → k ≢ j → elem j xs ≡ true → elem j (discard k xs) ≡ true
unfolding discard
elem-discard j k [] n h = absurd (cc)
elem-discard j k (x ∷ xs) n h = ground (arith, elem-discard j k xs n)

abbrev pub ids_of : Option (List ℕ) → List ℕ
ids_of found = elim found [ none ↦ [] | some ids ↦ ids ]

pub active_set-register_external :
    (r : BackgroundRunRegistry) (t k thread_id run_id : ℕ)
    → elem run_id (active_set r thread_id) ≡ true
    → elem run_id (active_set (register_external r t k) thread_id) ≡ true
unfolding register_external
active_set-register_external r t k thread_id run_id h = elim (Bool-cases (t == thread_id)) [
  | inl e ↦
      let p : t ≡ thread_id = (==_iff t thread_id).0 e in
      let q = get-put_self r.active_by_thread t (add k (active_set r t)) in
      let q' : get (put r.active_by_thread t (add k (active_set r t))) thread_id
          ≡ some (add k (active_set r t)) =
        subst
          (λ x.
            get (put r.active_by_thread t (add k (active_set r t))) x
            ≡ some (add k (active_set r t)))
          p q in
      subst (λ x. elem run_id (ids_of x) ≡ true) (sym q')
        (elem-add run_id k (active_set r t)
          (subst (λ x. elem run_id (active_set r x) ≡ true) (sym p) h))
  | inr e ↦
      let q =
        get-put_ne r.active_by_thread t (add k (active_set r t)) thread_id (ground (arith, e)) in
      subst (λ x. elem run_id (ids_of x) ≡ true) (sym q) h
]

store_active_self :
    (d : Dict (List ℕ)) (t : ℕ) (ids : List ℕ) (run_id : ℕ)
    → elem run_id ids ≡ true
    → elem run_id (elim (get (store_active d t ids) t) [ none ↦ [] | some xs ↦ xs ]) ≡ true
store_active_self d t [] run_id h = absurd (cc)
store_active_self d t (x ∷ ids) run_id h = rw (get-put_self d t (x ∷ ids)) h

store_active_ne :
    (d : Dict (List ℕ)) (t : ℕ) (ids : List ℕ) (t' : ℕ)
    → t ≢ t'
    → get (store_active d t ids) t' ≡ get d t'
store_active_ne d t [] t' n = get-remove_ne d t t' n
store_active_ne d t (x ∷ ids) t' n = get-put_ne d t (x ∷ ids) t' n

active_set-forget :
    (r : BackgroundRunRegistry) (t k thread_id run_id : ℕ)
    → k ≢ run_id
    → elem run_id (active_set r thread_id) ≡ true
    → elem run_id (active_set (forget r t k) thread_id) ≡ true
unfolding forget
active_set-forget r t k thread_id run_id n h = elim (Option-cases (get r.active_by_thread t)) [
  | inl e ↦ rw e h
  | inr (ids, e) ↦ elim (Bool-cases (t == thread_id)) [
    | inl u ↦
        let p : t ≡ thread_id = (==_iff t thread_id).0 u in
        let h' : elem run_id (active_set r t) ≡ true =
          subst (λ x. elem run_id (active_set r x) ≡ true) (sym p) h in
        let h'' : elem run_id ids ≡ true = subst (λ x. elem run_id (ids_of x) ≡ true) e h' in
        rw (e, sym p)
          (store_active_self r.active_by_thread t (discard k ids) run_id
            (elem-discard run_id k ids n h''))
    | inr u ↦ rw e (
        subst (λ x. elem run_id (ids_of x) ≡ true)
          (sym (store_active_ne r.active_by_thread t (discard k ids) thread_id (ground (arith, u))))
          h)
  ]
]

-- The run's tracked task is the one under `ref`, its completion is still open, and no other task of
-- the same id has a finalizer.
pub record Held (r : BackgroundRunRegistry) (thread_id run_id ref : ℕ) : Type 0 where
  pub listed : elem run_id (active_set r thread_id) ≡ true
  pub tracked : get r.tasks run_id ≡ some ref
  pub open_ended : get r.completion run_id ≡ some ref
  pub bounded : ref < r.next_ref
  pub alone :
      (j : ℕ) (task : Task)
      → get r.heap j ≡ some task
      → (j < r.next_ref) × (task.run_id ≡ run_id → task.finalize ≡ (j == ref))
  pub finals :
      (j : ℕ)
      → elem j r.finalizer_tasks ≡ true
      → (task : Task) × (get r.heap j ≡ some task) × (task.finalize ≡ true)

module _ (thread_id run_id ref : ℕ) where
  pub forget-Held :
      (r : BackgroundRunRegistry) (t k : ℕ)
      → k ≢ run_id
      → Held r thread_id run_id ref
      → Held (forget r t k) thread_id run_id ref
  unfolding forget
  forget-Held r t k n w = record {
    listed = active_set-forget r t k thread_id run_id n w.listed;
    tracked = get-remove_ne r.tasks k run_id n ∙ w.tracked;
    open_ended = w.open_ended;
    bounded = w.bounded;
    alone = w.alone;
    finals = w.finals;
  }

  finished_not :
      (r : BackgroundRunRegistry) → Held r thread_id run_id ref → finished r run_id ≡ false
  unfolding finished
  finished_not r w = elim (Bool-cases (contains r.completion run_id)) [
    | inl c ↦ ground (arith, c)
    | inr c ↦ let n = get-none-contains r.completion run_id c in let o = w.open_ended in absurd (cc)
  ]

  -- The pruning of `active_runs` keeps the run, and reports it.
  pub active_loop-Held :
      (t : ℕ) (r : BackgroundRunRegistry) (ids : List ℕ)
      → Held r thread_id run_id ref
      → Held (active_loop t r ids).1 thread_id run_id ref
        × (elem run_id (active_loop t r ids).0 ≡ elem run_id ids)
  unfolding active_loop
  active_loop-Held t r [] w = (w, refl)
  active_loop-Held t r (k ∷ ids) w = elim (Bool-cases (finished r k)) [
    | inl u ↦
        let n : k ≢ run_id = λ e.
          let f = finished_not r w in
          let f' : finished r k ≡ false = subst (λ x. finished r x ≡ false) (sym e) f in
          absurd (cc) in
        let (w', e) = active_loop-Held t (forget r t k) ids (forget-Held r t k n w) in
        rw (u, active_loop) (w', ground (arith, e, n))
    | inr f ↦
        let (w', e) = active_loop-Held t r ids w in rw (f, active_loop) (w', ground (arith, e))
  ]
