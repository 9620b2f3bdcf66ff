-- ===== src/RunOps/Views.antt =====
-- ops/runs.py: what the status writes and the handlers leave alone, whatever happens at their awaits:
-- every part of the world but the store, the clock and the set of unsettled threads.
use skeino.Base.{
  ℕ, zero, suc, String, Bool, true, false, ◌≡◌, refl, ◌∙◌, Option, none, some, List, Bool-cases,
  inl, inr,
}
use skeino.Schemas.{RunStatus, ThreadStatus, run_status_eq}
use skeino.Store.{Store}
use skeino.RunOps.{
  Exn, Done, Fate, World, Op, return_op, ◌>>=◌, ◌>>◌, try_op, await_op, continue_with, handle_with,
  awaited,
}
use skeino.RunOps.Writes.{
  Outcome, outcome_status, write_thread_status, write_run_status, read_run_row, winner, claim_run,
  finish_run_status, except_exception, unless_superseded, mark_run_failed, mark_run_interrupted,
  interrupt_row_only, settled_thread_status, settle_thread_after_success, run_status_effect,
  thread_status_effect, run_row_effect, settled_effect, outcome_of, note_settled,
}
use skeino.RunOps.Execution.{settle_again, total_run_tokens, reported_tokens}

-- A view of the world that does not show what the writes change.
abbrev pub IsBlind : {X : Type 0} → (World → X) → Type 0
IsBlind view =
    (w : World) (s : Store) (k : ℕ) (u : List ℕ)
    → view (record w { store = s; tick = k; unsettled_threads = u }) ≡ view w

abbrev pub Keeps : {X A : Type 0} → (World → X) → Op A → Type 0
Keeps view m = (w : World) → view (m w).1 ≡ view w

module _ {X : Type 0} (view : World → X) where
  continue-kept :
      {A B : Type 0} (f : A → Op B)
      → ((a : A) → Keeps view (f a))
      → (r : Done A × World) → view (continue_with f r).1 ≡ view r.1
  continue-kept f q (Done.returns a, w) = q a w
  continue-kept f q (Done.raises e, w) = refl

  pub bind-Keeps :
      {A B : Type 0} (m : Op A) (f : A → Op B)
      → Keeps view m
      → ((a : A) → Keeps view (f a))
      → Keeps view (m >>= f)
  bind-Keeps m f qm qf w = continue-kept f qf (m w) ∙ qm w

  pub handle-kept :
      {A : Type 0} (h : Exn → Op A)
      → ((e : Exn) → Keeps view (h e))
      → (r : Done A × World) → view (handle_with h r).1 ≡ view r.1
  handle-kept h q (Done.returns a, w) = refl
  handle-kept h q (Done.raises e, w) = q e w

  pub try-Keeps :
      {A : Type 0} (m : Op A) (h : Exn → Op A)
      → Keeps view m
      → ((e : Exn) → Keeps view (h e))
      → Keeps view (try_op m h)
  try-Keeps m h qm qh w = handle-kept h qh (m w) ∙ qm w

  except_exception-Keeps : {A : Type 0} (a : A) (e : Exn) → Keeps view (except_exception a e)
  unfolding except_exception
  except_exception-Keeps a (Exn.http e) w = refl
  except_exception-Keeps a (Exn.fault e) w = refl
  except_exception-Keeps a Exn.cancelled w = refl

  -- `try: m except Exception: log`
  tried-Keeps :
      {A : Type 0} (m : Op A) (a : A) → Keeps view m → Keeps view (try_op m (except_exception a))
  tried-Keeps m a q = try-Keeps m (except_exception a) q (except_exception-Keeps a)

  awaited-kept :
      {A : Type 0} (act : ℕ → World → A × World)
      → ((now : ℕ) (w : World) → view (act now w).1 ≡ view w)
      → (fate : Fate) (now : ℕ) (f : Store → Store) (w : World)
      → view (awaited act (record { now = now; meanwhile = f; fate = fate }) w).1 ≡ view w
  awaited-kept act q Fate.clear now f w = q now w
  awaited-kept act q (Fate.lost e) now f w = refl
  awaited-kept act q (Fate.struck e) now f w = q now w

module _ {X : Type 0} (view : World → X) (blind : IsBlind view) where
  pub await-Keeps :
      {A : Type 0} (act : ℕ → World → A × World)
      → ((now : ℕ) (w : World) → view (act now w).1 ≡ view w)
      → Keeps view (await_op act)
  unfolding await_op
  await-Keeps act q w =
      let m = w.moments w.tick in
      awaited-kept view act q m.fate m.now m.meanwhile _ ∙ blind w _ _ w.unsettled_threads

  pub write_run_status-Keeps :
      (run_id : ℕ) (status : RunStatus) (error : Option String)
      → Keeps view (write_run_status run_id status error)
  unfolding write_run_status
  write_run_status-Keeps run_id status error =
      await-Keeps (run_status_effect run_id status error)
        (λ now w. blind w _ w.tick w.unsettled_threads)

  pub write_thread_status-Keeps :
      (thread_id : ℕ) (status : ThreadStatus) (mark : Bool)
      → Keeps view (write_thread_status thread_id status mark)
  unfolding write_thread_status
  write_thread_status-Keeps thread_id status mark =
      await-Keeps (thread_status_effect thread_id status mark)
        (λ now w. blind w _ w.tick w.unsettled_threads)

  winner-Keeps :
      (thread_id run_id : ℕ) (updated : Bool) → Keeps view (winner thread_id run_id updated)
  unfolding winner read_run_row
  winner-Keeps thread_id run_id true = λ w. refl
  winner-Keeps thread_id run_id false =
      bind-Keeps view (read_run_row thread_id run_id)
        (λ row. return_op (some (outcome_of run_id row)))
        (await-Keeps (run_row_effect thread_id run_id) (λ now w. refl)) (λ a w. refl)

  pub claim_run-Keeps : (thread_id run_id : ℕ) → Keeps view (claim_run thread_id run_id)
  unfolding claim_run
  claim_run-Keeps thread_id run_id =
      bind-Keeps view (write_run_status run_id RunStatus.running none) (winner thread_id run_id)
        (write_run_status-Keeps run_id RunStatus.running none) (winner-Keeps thread_id run_id)

  pub finish_run_status-Keeps :
      (thread_id run_id : ℕ) (status : RunStatus) (error : Option String)
      → Keeps view (finish_run_status thread_id run_id status error)
  unfolding finish_run_status
  finish_run_status-Keeps thread_id run_id status error =
      bind-Keeps view (write_run_status run_id status error) (winner thread_id run_id)
        (write_run_status-Keeps run_id status error) (winner-Keeps thread_id run_id)

  unless_superseded-Keeps :
      (thread_id : ℕ) (status : ThreadStatus) (o : Option Outcome)
      → Keeps view (unless_superseded thread_id status o)
  unfolding unless_superseded
  unless_superseded-Keeps thread_id status none =
      bind-Keeps view (write_thread_status thread_id status false) (λ a. return_op none)
        (write_thread_status-Keeps thread_id status false) (λ a w. refl)
  unless_superseded-Keeps thread_id status (some o) = λ w. refl

  finish_and_settle-Keeps :
      (thread_id run_id : ℕ) (status : RunStatus) (error : Option String) (settled : ThreadStatus)
      → Keeps view (
          try_op
            (finish_run_status thread_id run_id status error
              >>= unless_superseded thread_id settled)
            (except_exception none))
  finish_and_settle-Keeps thread_id run_id status error settled =
      tried-Keeps view
        (finish_run_status thread_id run_id status error >>= unless_superseded thread_id settled)
        none
        (bind-Keeps view (finish_run_status thread_id run_id status error)
          (unless_superseded thread_id settled)
          (finish_run_status-Keeps thread_id run_id status error)
          (unless_superseded-Keeps thread_id settled))

  pub mark_run_failed-Keeps :
      (run_id thread_id : ℕ) (error : String) → Keeps view (mark_run_failed run_id thread_id error)
  unfolding mark_run_failed
  mark_run_failed-Keeps run_id thread_id error =
      finish_and_settle-Keeps thread_id run_id RunStatus.error (some error) ThreadStatus.error

  pub mark_run_interrupted-Keeps :
      (run_id thread_id : ℕ) → Keeps view (mark_run_interrupted run_id thread_id)
  unfolding mark_run_interrupted
  mark_run_interrupted-Keeps run_id thread_id =
      finish_and_settle-Keeps thread_id run_id RunStatus.interrupted (some "Run interrupted.")
        ThreadStatus.idle

  pub interrupt_row_only-Keeps : (run_id : ℕ) → Keeps view (interrupt_row_only run_id)
  unfolding interrupt_row_only
  interrupt_row_only-Keeps run_id =
      let write =
        write_run_status run_id RunStatus.interrupted (some "Run cancelled before it started.") in
      tried-Keeps view (write >>= λ _. return_op tt) tt (
        bind-Keeps view write (λ _. return_op tt)
          (write_run_status-Keeps run_id RunStatus.interrupted
            (some "Run cancelled before it started."))
          (λ a w. refl))

  abbrev settle_write : ℕ → ThreadStatus → Op (Unit {0})
  settle_write thread_id status =
      write_thread_status thread_id status true >> note_settled thread_id

  pub settle-Keeps : (thread_id : ℕ) → Keeps view (settle_thread_after_success thread_id)
  unfolding settle_thread_after_success settled_thread_status
  settle-Keeps thread_id w =
      tried-Keeps view (settled_thread_status thread_id >>= settle_write thread_id) tt
        (bind-Keeps view (settled_thread_status thread_id) (settle_write thread_id)
          (await-Keeps (settled_effect thread_id) (λ now w. refl))
          (λ status.
            bind-Keeps view (write_thread_status thread_id status true)
              (λ _. note_settled thread_id) (write_thread_status-Keeps thread_id status true)
              (λ a w. blind w w.store w.tick _)))
        _
      ∙ blind w w.store w.tick _

  pub settle_again-Keeps :
      (thread_id : ℕ) (o : Option Outcome) → Keeps view (settle_again thread_id o)
  unfolding settle_again
  settle_again-Keeps thread_id none w = refl
  settle_again-Keeps thread_id (some o) w =
      elim (Bool-cases (run_status_eq (outcome_status o) RunStatus.success)) [
        | inl t ↦ rw (t, settle_again) (settle-Keeps thread_id w)
        | inr f ↦ rw (f, settle_again) refl
      ]

  pub total_run_tokens-Keeps : (thread_id : ℕ) → Keeps view (total_run_tokens thread_id)
  unfolding total_run_tokens
  total_run_tokens-Keeps thread_id =
      tried-Keeps view (await_op λ now w. (w.tokens_of thread_id, w)) 0
        (await-Keeps (λ now w. (w.tokens_of thread_id, w)) (λ now w. refl))

  pub reported_tokens-Keeps : (thread_id used : ℕ) → Keeps view (reported_tokens thread_id used)
  unfolding reported_tokens
  reported_tokens-Keeps thread_id zero = total_run_tokens-Keeps thread_id
  reported_tokens-Keeps thread_id (suc used) = λ w. refl
