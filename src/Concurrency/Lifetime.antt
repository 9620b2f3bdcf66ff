-- ===== src/Concurrency/Lifetime.antt =====
-- concurrency.py, BackgroundRunRegistry: a run spawned with a finalizer through the event loop's steps.
use skeino.Base.{
  ◌||◌, ℕ, suc, ◌<◌, ◌≡◌, ◌≢◌, refl, sym, subst, ap, ◌∙◌, Bool, true, false, some, List, [], ◌∷◌,
  ◌++◌, arith, ◌==◌, ==_iff, elem, Bool-cases, Option-cases, inl, inr, Dict, get, put, remove,
  get-put_self, get-put_ne, get-remove_ne,
}
use skeino.Concurrency.{
  Task, BackgroundRunRegistry, add, discard, register_external, forget, spawn, request_cancel,
  cancel, cancel_all, task_ends, done_callback, finalizer_ends,
}
use skeino.Concurrency.Holding.{Held, forget-Held, active_set-register_external}

elem-discard_only : (j k : ℕ) (xs : List ℕ) → elem j (discard k xs) ≡ true → elem j xs ≡ true
unfolding discard
elem-discard_only j k [] h = h
elem-discard_only j k (x ∷ xs) h = ground (arith, elem-discard_only j k xs)

elem-add_only : (j k : ℕ) (xs : List ℕ) → k ≢ j → elem j (add k xs) ≡ true → elem j xs ≡ true
unfolding add
elem-add_only j k xs n h = elim (Bool-cases (elem k xs)) [
  | inl t ↦ let h' : elem j xs ≡ true = rw (t, add) at h in h'
  | inr f ↦ let h' : elem j (xs ++ k ∷ []) ≡ true = rw (f, add) at h in appended xs h'
]
  where
    appended : (xs : List ℕ) → elem j (xs ++ k ∷ []) ≡ true → elem j xs ≡ true
    appended [] h = ground (arith, n, h)
    appended (x ∷ xs) h = ground (arith, appended xs)

module _ (thread_id run_id ref : ℕ) where
  abbrev Hold : BackgroundRunRegistry → Type 0
  Hold r = Held r thread_id run_id ref

  -- A task changes in what the registry does not read of it.
  heap_put-Held :
      (r : BackgroundRunRegistry) (j : ℕ) (task task' : Task)
      → get r.heap j ≡ some task
      → task'.run_id ≡ task.run_id
      → task'.finalize ≡ task.finalize
      → Hold r
      → Hold (record r { heap = put r.heap j task' })
  heap_put-Held r j task task' g er ef w = record {
    listed = w.listed;
    tracked = w.tracked;
    open_ended = w.open_ended;
    bounded = w.bounded;
    alone = λ i t h. elim (Bool-cases (j == i)) [
      | inl u ↦
          let e : j ≡ i = (==_iff j i).0 u in
          let p = get-put_self r.heap j task' in
          let q : task' ≡ t = cc in
          let (b, a) = w.alone j task g in
          (
            subst (λ x. x < r.next_ref) e b,
            λ c.
                let c' : task.run_id ≡ run_id = sym er ∙ ap (λ x. x.run_id) q ∙ c in
                subst (λ x. t.finalize ≡ (x == ref)) e (ap (λ x. x.finalize) (sym q) ∙ ef ∙ a c'),
          )
      | inr u ↦ w.alone i t (sym (get-put_ne r.heap j task' i (ground (arith, u))) ∙ h)
    ];
    finals = λ i m.
        let (t, h, f) = w.finals i m in
        elim (Bool-cases (j == i)) [
          | inl u ↦
              let e : j ≡ i = (==_iff j i).0 u in
              let p = get-put_self r.heap j task' in
              let q : task ≡ t = cc in
              (
                task',
                subst (λ x. get (put r.heap j task') x ≡ some task') e p,
                ef ∙ ap (λ x. x.finalize) q ∙ f,
              )
          | inr u ↦ (t, get-put_ne r.heap j task' i (ground (arith, u)) ∙ h, f)
        ];
  }

  request_cancel-Held : (r : BackgroundRunRegistry) (j : ℕ) → Hold r → Hold (request_cancel r j)
  unfolding request_cancel
  request_cancel-Held r j w = elim (Option-cases (get r.heap j)) [
    | inl e ↦ rw (e, request_cancel) w
    | inr (task, e) ↦ elim (Bool-cases (task.cancelling || task.done)) [
      | inl t ↦ rw (e, t, request_cancel) w
      | inr f ↦
          rw (e, f, request_cancel)
            (heap_put-Held r j task (record task { cancelling = true }) e refl refl w)
    ]
  ]

  pub cancel-Held : (r : BackgroundRunRegistry) (k : ℕ) → Hold r → Hold (cancel r k).1
  unfolding cancel
  cancel-Held r k w = elim (Option-cases (get r.tasks k)) [
    | inl e ↦ rw (e, cancel) w
    | inr (j, e) ↦ rw (e, cancel) (request_cancel-Held r j w)
  ]

  pub cancel_all-Held :
      (r : BackgroundRunRegistry) (tasks : Dict ℕ) → Hold r → Hold (cancel_all r tasks)
  unfolding cancel_all
  cancel_all-Held r [] w = w
  cancel_all-Held r ((k, j) ∷ tasks) w =
      cancel_all-Held (request_cancel r j) tasks (request_cancel-Held r j w)

  pub task_ends-Held : (r : BackgroundRunRegistry) (j : ℕ) → Hold r → Hold (task_ends r j)
  unfolding task_ends
  task_ends-Held r j w = elim (Option-cases (get r.heap j)) [
    | inl e ↦ rw (e, task_ends) w
    | inr (task, e) ↦
        rw (e, task_ends) (heap_put-Held r j task (record task { done = true }) e refl refl w)
  ]

  pub register_external-Held :
      (r : BackgroundRunRegistry) (t k : ℕ) → Hold r → Hold (register_external r t k)
  unfolding register_external
  register_external-Held r t k w = record {
    listed = active_set-register_external r t k thread_id run_id w.listed;
    tracked = w.tracked;
    open_ended = w.open_ended;
    bounded = w.bounded;
    alone = w.alone;
    finals = w.finals;
  }

  spawned-Held :
      (r : BackgroundRunRegistry) (t k : ℕ) (task : Task) (completion : Dict ℕ)
      → k ≢ run_id
      → task.run_id ≡ k
      → get completion run_id ≡ some ref
      → Hold r
      → Hold
          (record (register_external
            (record r {
              tasks = put r.tasks k r.next_ref;
              heap = put r.heap r.next_ref task;
              next_ref = suc r.next_ref;
            })
            t
            k) { completion = completion })
  unfolding register_external
  spawned-Held r t k task completion n ek e w = record {
    listed = active_set-register_external r t k thread_id run_id w.listed;
    tracked = get-put_ne r.tasks k r.next_ref run_id n ∙ w.tracked;
    open_ended = e;
    bounded = let b = w.bounded in omega arith;
    alone = λ j u h. elim (Bool-cases (r.next_ref == j)) [
      | inl v ↦
          let q : r.next_ref ≡ j = (==_iff r.next_ref j).0 v in
          let p = get-put_self r.heap r.next_ref task in
          let q' : task ≡ u = cc in
          (omega arith, λ c. absurd (n (sym ek ∙ ap (λ x. x.run_id) q' ∙ c)))
      | inr v ↦
          let a = w.alone j u (sym (get-put_ne r.heap r.next_ref task j (ground (arith, v))) ∙ h) in
          (let b = a.0 in omega arith, a.1)
    ];
    finals = λ j m.
        let (u, h, f) = w.finals j m in
        let b = (w.alone j u h).0 in
        let apart : r.next_ref ≢ j = omega arith in
        (u, get-put_ne r.heap r.next_ref task j apart ∙ h, f);
  }

  pub spawn-Held :
      (r : BackgroundRunRegistry) (t k : ℕ) (finalize : Bool)
      → k ≢ run_id
      → Hold r
      → Hold (spawn r t k finalize).1
  unfolding spawn
  spawn-Held r t k true n w =
      spawned-Held r t k _ (put r.completion k r.next_ref) n refl
        (get-put_ne r.completion k r.next_ref run_id n ∙ w.open_ended) w
  spawn-Held r t k false n w = spawned-Held r t k _ r.completion n refl w.open_ended w

  -- The task's own callback starts the finalizer, another's touches another run.
  pub done_callback-Held : (r : BackgroundRunRegistry) (j : ℕ) → Hold r → Hold (done_callback r j)
  unfolding done_callback
  done_callback-Held r j w = elim (Option-cases (get r.heap j)) [
    | inl e ↦ rw (e, done_callback) w
    | inr (task, e) ↦ elim (Bool-cases task.done) [
      | inr d ↦ rw (e, d, done_callback) w
      | inl d ↦ elim (Bool-cases task.finalize) [
        | inl f ↦
            rw (e, d, f, done_callback)
              (record {
                listed = w.listed;
                tracked = w.tracked;
                open_ended = w.open_ended;
                bounded = w.bounded;
                alone = w.alone;
                finals = λ i m. elim (Bool-cases (j == i)) [
                  | inl u ↦
                      let q : j ≡ i = (==_iff j i).0 u in
                      (task, subst (λ x. get r.heap x ≡ some task) q e, f)
                  | inr u ↦ w.finals i (elem-add_only i j r.finalizer_tasks (ground (arith, u)) m)
                ];
              })
        | inr f ↦ elim (Option-cases (get r.tasks task.run_id)) [
          | inl g ↦ rw (e, d, f, g, done_callback) w
          | inr (current, g) ↦ elim (Bool-cases (current == j)) [
            | inr u ↦ rw (e, d, f, g, u, done_callback) w
            | inl u ↦
                let n : task.run_id ≢ run_id = λ c.
                  let (b, a) = w.alone j task e in
                  let q : current ≡ j = (==_iff current j).0 u in
                  let t = w.tracked in
                  let p : current ≡ ref = cc in
                  let z = a c in let z' : (j == ref) ≡ true = ground (arith, p, q) in absurd (cc) in
                rw (e, d, f, g, u, done_callback)
                  (forget-Held thread_id run_id ref r task.thread_id task.run_id n w)
          ]
        ]
      ]
    ]
  ]

  -- The finalizer of another task ends.
  pub finalizer_ends-Held :
      (r : BackgroundRunRegistry) (j : ℕ) → j ≢ ref → Hold r → Hold (finalizer_ends r j)
  unfolding finalizer_ends forget
  finalizer_ends-Held r j n w = elim (Option-cases (get r.heap j)) [
    | inl e ↦ rw (e, finalizer_ends) w
    | inr (task, e) ↦ elim (Bool-cases (elem j r.finalizer_tasks)) [
      | inr u ↦ rw (e, u, finalizer_ends) w
      | inl u ↦
          let m : task.run_id ≢ run_id = λ c.
            let (t, h, f) = w.finals j u in
            let q : t ≡ task = cc in
            let z = (w.alone j task e).1 c in
            let z' : (j == ref) ≡ false = ground (arith, n) in absurd (cc) in
          let r₁ = record r { completion = remove r.completion task.run_id } in
          let w₁ : Hold r₁ = record {
            listed = w.listed;
            tracked = w.tracked;
            open_ended = get-remove_ne r.completion task.run_id run_id m ∙ w.open_ended;
            bounded = w.bounded;
            alone = w.alone;
            finals = w.finals;
          } in
          let w₂ = forget-Held thread_id run_id ref r₁ task.thread_id task.run_id m w₁ in
          rw (e, u, finalizer_ends)
            (record {
              listed = w₂.listed;
              tracked = w₂.tracked;
              open_ended = w₂.open_ended;
              bounded = w₂.bounded;
              alone = w₂.alone;
              finals = λ i h. w.finals i (elem-discard_only i j r.finalizer_tasks h);
            })
    ]
  ]
