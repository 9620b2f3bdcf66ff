-- ===== src/RunOps/Frame.antt =====
-- ops/runs.py: the handlers of a background run neither invoke the graph nor touch the lock.
use skeino.Base.{ℕ, ◌≡◌, refl}
use skeino.RunOps.{Exn, Done, World, Op, return_op, raise_op, ◌>>◌, await_op, handle_with}
use skeino.RunOps.Writes.{mark_run_failed, mark_run_interrupted, interrupt_row_only}
use skeino.RunOps.Execution.{handle_execution, cancelled_in_queue, settle_again}
use skeino.RunOps.Views.{
  IsBlind, Keeps, bind-Keeps, handle-kept, await-Keeps, mark_run_failed-Keeps,
  mark_run_interrupted-Keeps, interrupt_row_only-Keeps, settle_again-Keeps,
}

-- The graph is not invoked, and the task's lock stays as it was.
abbrev pub IsQuiet : {A : Type 0} → Op A → Type 0
IsQuiet m = (w : World) → ((m w).1.invoked ≡ w.invoked) × ((m w).1.held ≡ w.held)

module _ {X : Type 0} (view : World → X) (blind : IsBlind view) where
  handle_execution-Keeps :
      (run_id thread_id : ℕ) (e : Exn) → Keeps view (handle_execution run_id thread_id e)
  unfolding handle_execution
  handle_execution-Keeps run_id thread_id Exn.cancelled =
      bind-Keeps view (mark_run_interrupted run_id thread_id)
        (λ o. settle_again thread_id o >> raise_op Exn.cancelled)
        (mark_run_interrupted-Keeps view blind run_id thread_id)
        (λ o.
          bind-Keeps view (settle_again thread_id o) (λ _. raise_op {A = ℕ} Exn.cancelled)
            (settle_again-Keeps view blind thread_id o) (λ a w. refl))
  handle_execution-Keeps run_id thread_id (Exn.fault text) =
      bind-Keeps view (mark_run_failed run_id thread_id text) (λ _. return_op 0)
        (mark_run_failed-Keeps view blind run_id thread_id text) (λ a w. refl)
  handle_execution-Keeps run_id thread_id (Exn.http e) = λ w.
      bind-Keeps view (mark_run_failed run_id thread_id (w.http_text e)) (λ _. return_op 0)
        (mark_run_failed-Keeps view blind run_id thread_id (w.http_text e)) (λ a w. refl) w

  cancelled_in_queue-Keeps : (run_id : ℕ) (e : Exn) → Keeps view (cancelled_in_queue run_id e)
  unfolding cancelled_in_queue
  cancelled_in_queue-Keeps run_id Exn.cancelled =
      bind-Keeps view (interrupt_row_only run_id) (λ _. raise_op {A = ℕ} Exn.cancelled)
        (interrupt_row_only-Keeps view blind run_id) (λ a w. refl)
  cancelled_in_queue-Keeps run_id (Exn.fault text) = λ w. refl
  cancelled_in_queue-Keeps run_id (Exn.http e) = λ w. refl

pub handle-quiet :
    {A : Type 0} (h : Exn → Op A)
    → ((e : Exn) → IsQuiet (h e))
    → (r : Done A × World)
    → ((handle_with h r).1.invoked ≡ r.1.invoked) × ((handle_with h r).1.held ≡ r.1.held)
handle-quiet h q r = (
  handle-kept (λ w. w.invoked) h (λ e w. (q e w).0) r,
  handle-kept (λ w. w.held) h (λ e w. (q e w).1) r,
)

pub await-IsQuiet :
    {A : Type 0} (act : ℕ → World → A × World)
    → ((now : ℕ) (w : World) → ((act now w).1.invoked ≡ w.invoked) × ((act now w).1.held ≡ w.held))
    → IsQuiet (await_op act)
await-IsQuiet act q w = (
  await-Keeps (λ w. w.invoked) (λ w s k u. refl) act (λ now w. (q now w).0) w,
  await-Keeps (λ w. w.held) (λ w s k u. refl) act (λ now w. (q now w).1) w,
)

pub handle_execution-IsQuiet :
    (run_id thread_id : ℕ) (e : Exn) → IsQuiet (handle_execution run_id thread_id e)
handle_execution-IsQuiet run_id thread_id e w = (
  handle_execution-Keeps (λ w. w.invoked) (λ w s k u. refl) run_id thread_id e w,
  handle_execution-Keeps (λ w. w.held) (λ w s k u. refl) run_id thread_id e w,
)

pub cancelled_in_queue-IsQuiet : (run_id : ℕ) (e : Exn) → IsQuiet (cancelled_in_queue run_id e)
cancelled_in_queue-IsQuiet run_id e w = (
  cancelled_in_queue-Keeps (λ w. w.invoked) (λ w s k u. refl) run_id e w,
  cancelled_in_queue-Keeps (λ w. w.held) (λ w s k u. refl) run_id e w,
)
