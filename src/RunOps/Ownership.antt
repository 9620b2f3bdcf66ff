-- ===== src/RunOps/Ownership.antt =====
-- ops/runs.py: an orphan sweep and the rows of the runs that this process executes.
use skeino.Base.{
  ℕ, suc, String, Bool, true, false, not, ◌≡◌, refl, sym, subst, ap, ◌∙◌, List, [], ◌∷◌, map,
  if◌then◌else◌, is_empty, elem, sort, Option-cases, inl, inr, get,
}
use skeino.Schemas.{ThreadStatus, RunStatus, RunRow}
use skeino.Store.{Store, update_thread, fail_stale_runs}
use skeino.Store.Sweep.{fail_stale_runs-excluded}
use skeino.RunOps.{
  Exn, Done, Fate, Moment, World, Op, return_op, ◌>>=◌, ◌>>◌, await_op, continue_with, handle_with,
  awaited,
}
use skeino.RunOps.Writes.{
  write_thread_status, thread_status_effect, except_exception, status_update,
}
use skeino.RunOps.Requests.{read_thread_row, thread_row_effect}
use skeino.RunOps.Sweeps.{
  read_active, listed_effect, first_with_status, any_row_in_flight, has_in_flight_runs, busy_thread,
  release_unless, release_busy, release_orphaned_thread, note_released, try_release, release_loop,
  note_unreleased, release_all_noted, local_runs, stale_effect, fail_orphaned_runs,
}

-- Others change no run's row at an await.
abbrev pub Tame : (ℕ → Moment) → Type 0
Tame moments = (k : ℕ) (s : Store) → ((moments k).meanwhile s).runs ≡ s.runs

abbrev Same : World → World → Type 0
Same w w' = (w'.store.runs ≡ w.store.runs) × (w'.moments ≡ w.moments)

abbrev KeepsRuns : {A : Type 0} → Op A → Type 0
KeepsRuns m = (w : World) → Tame w.moments → Same w (m w).1

continue-kept :
    {A B : Type 0} (f : A → Op B)
    → ((a : A) → KeepsRuns (f a))
    → (r : Done A × World) → Tame r.1.moments
    → Same r.1 (continue_with f r).1
continue-kept f q (Done.returns a, w) t = q a w t
continue-kept f q (Done.raises e, w) t = (refl, refl)

bind-KeepsRuns :
    {A B : Type 0} (m : Op A) (f : A → Op B)
    → KeepsRuns m
    → ((a : A) → KeepsRuns (f a))
    → KeepsRuns (m >>= f)
bind-KeepsRuns m f qm qf w t =
    let q = qm w t in
    let c = continue-kept f qf (m w) (subst (λ x. Tame x) (sym q.1) t) in (c.0 ∙ q.0, c.1 ∙ q.1)

except-kept :
    {A : Type 0} (a : A) (r : Done A × World) → Same r.1 (handle_with (except_exception a) r).1
unfolding except_exception
except-kept a (Done.returns b, w) = (refl, refl)
except-kept a (Done.raises (Exn.http e), w) = (refl, refl)
except-kept a (Done.raises (Exn.fault e), w) = (refl, refl)
except-kept a (Done.raises Exn.cancelled, w) = (refl, refl)

awaited-kept :
    {A : Type 0} (act : ℕ → World → A × World)
    → ((now : ℕ) (w : World) → Same w (act now w).1)
    → (fate : Fate) (now : ℕ) (f : Store → Store) (w : World)
    → Same w (awaited act (record { now = now; meanwhile = f; fate = fate }) w).1
awaited-kept act q Fate.clear now f w = q now w
awaited-kept act q (Fate.lost e) now f w = (refl, refl)
awaited-kept act q (Fate.struck e) now f w = q now w

await-KeepsRuns :
    {A : Type 0} (act : ℕ → World → A × World)
    → ((now : ℕ) (w : World) → Same w (act now w).1)
    → KeepsRuns (await_op act)
unfolding await_op
await-KeepsRuns act q w t =
    let m = w.moments w.tick in
    let k =
      awaited-kept act q m.fate m.now m.meanwhile
        (record w { store = m.meanwhile w.store; tick = suc w.tick }) in
    (k.0 ∙ t w.tick w.store, k.1)

update_thread-runs :
    (now : ℕ) (s : Store) (thread_id : ℕ) (status : ThreadStatus) (mark : Bool)
    → (update_thread now now s thread_id (status_update status mark)).runs ≡ s.runs
unfolding update_thread
update_thread-runs now s thread_id status mark = elim (Option-cases (get s.threads thread_id)) [
  | inl e ↦ rw (e, update_thread) refl
  | inr (row, e) ↦ rw (e, update_thread) refl
]

release_unless-KeepsRuns : (thread_id : ℕ) (b : Bool) → KeepsRuns (release_unless thread_id b)
unfolding release_unless write_thread_status
release_unless-KeepsRuns thread_id true = λ w t. (refl, refl)
release_unless-KeepsRuns thread_id false =
    await-KeepsRuns (thread_status_effect thread_id ThreadStatus.error false)
      (λ now w. (update_thread-runs now w.store thread_id ThreadStatus.error false, refl))

first_with_status-KeepsRuns :
    (thread_id : ℕ) (status : RunStatus) → KeepsRuns (first_with_status thread_id status)
unfolding first_with_status
first_with_status-KeepsRuns thread_id status =
    bind-KeepsRuns (await_op (listed_effect thread_id status))
      (λ rows. return_op (not (is_empty rows)))
      (await-KeepsRuns (listed_effect thread_id status) (λ now w. (refl, refl)))
      (λ a w t. (refl, refl))

second_status-KeepsRuns :
    (thread_id : ℕ) (b : Bool)
    → KeepsRuns (if b then return_op true else first_with_status thread_id RunStatus.running)
second_status-KeepsRuns thread_id true = λ w t. (refl, refl)
second_status-KeepsRuns thread_id false = first_with_status-KeepsRuns thread_id RunStatus.running

any_row-KeepsRuns : (thread_id : ℕ) → KeepsRuns (any_row_in_flight thread_id)
unfolding any_row_in_flight
any_row-KeepsRuns thread_id =
    bind-KeepsRuns (first_with_status thread_id RunStatus.pending)
      (λ b. if b then return_op true else first_with_status thread_id RunStatus.running)
      (first_with_status-KeepsRuns thread_id RunStatus.pending) (second_status-KeepsRuns thread_id)

after_active-KeepsRuns :
    (thread_id : ℕ) (b : Bool)
    → KeepsRuns (if b then any_row_in_flight thread_id else return_op true)
after_active-KeepsRuns thread_id true = any_row-KeepsRuns thread_id
after_active-KeepsRuns thread_id false = λ w t. (refl, refl)

has_in_flight-KeepsRuns : (thread_id : ℕ) → KeepsRuns (has_in_flight_runs thread_id)
unfolding has_in_flight_runs read_active
has_in_flight-KeepsRuns thread_id =
    bind-KeepsRuns (read_active thread_id)
      (λ active. if is_empty active then any_row_in_flight thread_id else return_op true)
      (λ w t. (refl, refl)) (λ active. after_active-KeepsRuns thread_id (is_empty active))

release_busy-KeepsRuns : (thread_id : ℕ) (b : Bool) → KeepsRuns (release_busy thread_id b)
unfolding release_busy
release_busy-KeepsRuns thread_id false = λ w t. (refl, refl)
release_busy-KeepsRuns thread_id true =
    bind-KeepsRuns (has_in_flight_runs thread_id) (release_unless thread_id)
      (has_in_flight-KeepsRuns thread_id) (release_unless-KeepsRuns thread_id)

release_orphaned-KeepsRuns : (thread_id : ℕ) → KeepsRuns (release_orphaned_thread thread_id)
unfolding release_orphaned_thread read_thread_row
release_orphaned-KeepsRuns thread_id =
    bind-KeepsRuns (read_thread_row thread_id)
      (λ thread. release_busy thread_id (busy_thread thread))
      (await-KeepsRuns (thread_row_effect thread_id) (λ now w. (refl, refl)))
      (λ thread. release_busy-KeepsRuns thread_id (busy_thread thread))

try_release-KeepsRuns : (thread_id : ℕ) → KeepsRuns (try_release thread_id)
unfolding try_release
try_release-KeepsRuns thread_id w t =
    let m : Op (Unit {0}) = release_orphaned_thread thread_id >> note_released thread_id in
    let b =
      bind-KeepsRuns (release_orphaned_thread thread_id) (λ _. note_released thread_id)
        (release_orphaned-KeepsRuns thread_id) (λ a w t. (refl, refl)) w t in
    let x = except-kept tt (m w) in (x.0 ∙ b.0, x.1 ∙ b.1)

release_loop-KeepsRuns : (thread_ids : List ℕ) → KeepsRuns (release_loop thread_ids)
unfolding release_loop
release_loop-KeepsRuns [] = λ w t. (refl, refl)
release_loop-KeepsRuns (k ∷ ks) =
    bind-KeepsRuns (try_release k) (λ _. release_loop ks) (try_release-KeepsRuns k)
      (λ a. release_loop-KeepsRuns ks)

abbrev release_rows : List RunRow → Op (List ℕ)
release_rows rows =
    note_unreleased rows
    >> (release_all_noted >> return_op (map (λ (row : RunRow). row.run_id) rows))

release_rows-KeepsRuns : (rows : List RunRow) → KeepsRuns (release_rows rows)
release_rows-KeepsRuns rows =
    bind-KeepsRuns (note_unreleased rows)
      (λ _. release_all_noted >> return_op (map (λ (row : RunRow). row.run_id) rows))
      (λ w t. (refl, refl))
      (λ a.
        bind-KeepsRuns release_all_noted (λ _. return_op (map (λ (row : RunRow). row.run_id) rows))
          (λ w t. release_loop-KeepsRuns (sort (λ k. k) false w.unreleased_threads) w t)
          (λ a w t. (refl, refl)))

own_row_kept :
    (stale_after : ℕ) (error : String) (r : ℕ) (local : List ℕ) (fate : Fate) (now : ℕ)
    (f : Store → Store) (w : World)
    → elem r local ≡ true
    → Tame w.moments
    → get
        (continue_with release_rows (
          awaited
            (stale_effect stale_after local error)
            (record { now = now; meanwhile = f; fate = fate })
            w)).1.store.runs
        r
      ≡ get w.store.runs r
own_row_kept stale_after error r local Fate.clear now f w o t =
    let (rows, s) = fail_stale_runs now w.store stale_after local error in
    let k = release_rows-KeepsRuns rows (record w { store = s }) t in
    ap (λ d. get d r) k.0 ∙ fail_stale_runs-excluded now stale_after w.store local error r o
own_row_kept stale_after error r local (Fate.lost e) now f w o t = refl
own_row_kept stale_after error r local (Fate.struck e) now f w o t =
    fail_stale_runs-excluded now stale_after w.store local error r o

-- An orphan sweep never changes the row of a run that its own process lists as active, however stale
-- the row is and whichever of the sweep's calls fails or is cancelled, provided that the others change
-- no run's row during its awaits.
pub fail_orphaned_runs_own :
    (stale_after : ℕ) (error : String) (r : ℕ) (w : World)
    → elem r (local_runs w) ≡ true
    → ((k : ℕ) (s : Store) → ((w.moments k).meanwhile s).runs ≡ s.runs)
    → get (fail_orphaned_runs stale_after error w).1.store.runs r ≡ get w.store.runs r
unfolding fail_orphaned_runs await_op
fail_orphaned_runs_own stale_after error r w o t =
    let m = w.moments w.tick in
    let w₁ = record w { store = m.meanwhile w.store; tick = suc w.tick } in
    own_row_kept stale_after error r (local_runs w) m.fate m.now m.meanwhile w₁ o t
    ∙ ap (λ d. get d r) (t w.tick w.store)
