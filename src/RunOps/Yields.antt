-- ===== src/RunOps/Yields.antt =====
-- ops/runs.py: postconditions of what an operation returns, with a rule for each way to compose operations.
use skeino.Base.{ℕ, suc, ◌≡◌, refl}
use skeino.RunOps.{Exn, Done, World, Op, await_op, awaited, Fate, continue_with, handle_with}
use skeino.RunOps.Finals.{ask, settle}

-- What is returned satisfies `P`.
abbrev pub Yields : {A : Type 0} → (A → Type 0) → Done A × World → Type 0
Yields P (Done.returns a, w) = P a
Yields P (Done.raises e, w) = Unit

module _ {A B : Type 0} (P : A → Type 0) (Q : B → Type 0) where
  pub bind-Yields :
      (r : Done A × World) (f : A → Op B)
      → Yields P r
      → ((a : A) (w : World) → P a → Yields Q (f a w))
      → Yields Q (continue_with f r)
  bind-Yields (Done.returns a, w) f h k = k a w h
  bind-Yields (Done.raises e, w) f h k = tt

module _ {A : Type 0} (P : A → Type 0) where
  pub try-Yields :
      (r : Done A × World) (h : Exn → Op A)
      → Yields P r
      → ((e : Exn) (w : World) → Yields P (h e w))
      → Yields P (handle_with h r)
  try-Yields (Done.returns a, w) h y k = y
  try-Yields (Done.raises e, w) h y k = k e w

  settle-Yields :
      (d : Done A) (w : World) → ((a : A) → d ≡ Done.returns a → P a) → Yields P (settle d w)
  settle-Yields (Done.returns a) w h = h a refl
  settle-Yields (Done.raises e) w h = tt

  -- A read of the graph returns what the graph answered at some time.
  pub ask-Yields :
      (read : ℕ → Done A) (w : World)
      → ((now : ℕ) (a : A) → read now ≡ Done.returns a → P a)
      → Yields P (ask read w)
  unfolding ask await_op
  ask-Yields read w h =
      let m = w.moments w.tick in
      let w' : World = record w { store = m.meanwhile w.store; tick = suc w.tick } in
      elim m.fate
        as (λ f.
          Yields P
            (continue_with settle (awaited (λ now u. (read now, u)) (record m { fate = f }) w'))) [
              | Fate.clear ↦ settle-Yields (read m.now) w' (h m.now)
              | Fate.lost e ↦ tt
              | Fate.struck e ↦ tt
            ]

pub any-Yields : {A : Type 0} (r : Done A × World) → Yields (λ a. Unit {0}) r
any-Yields (Done.returns a, w) = tt
any-Yields (Done.raises e, w) = tt
