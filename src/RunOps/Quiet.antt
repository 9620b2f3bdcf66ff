-- ===== src/RunOps/Quiet.antt =====
-- ops/runs.py: awaits that succeed while others leave one run's row and one thread's row alone.
use skeino.Base.{ℕ, suc, ◌≡◌, sym, ap, subst, ◌∙◌, some, get}
use skeino.Schemas.{RunRow, ThreadRow}
use skeino.Store.{Store}
use skeino.RunOps.{Done, Fate, Moment, World, Op, await_op, awaited, continue_with}

-- No await fails, and what others do meanwhile keeps the two rows.
pub record IsCalm (run_id thread_id : ℕ) (moments : ℕ → Moment) : Type 0 where
  pub clear : (k : ℕ) → (moments k).fate ≡ Fate.clear
  pub runs : (k : ℕ) (s : Store) → get ((moments k).meanwhile s).runs run_id ≡ get s.runs run_id
  pub threads :
      (k : ℕ) (s : Store)
      → get ((moments k).meanwhile s).threads thread_id ≡ get s.threads thread_id

-- The rows in a later world of the same environment, and the awaits that it has behind it.
pub record Sees (run_id thread_id : ℕ) (start : World) (n : ℕ) (row : RunRow) (thread : ThreadRow)
    (w : World) : Type 0 where
  pub found : get w.store.runs run_id ≡ some row
  pub thread_found : get w.store.threads thread_id ≡ some thread
  pub moments : w.moments ≡ start.moments
  pub tick : w.tick ≡ n
  pub ainvoke : w.ainvoke ≡ start.ainvoke
  pub interrupts_of : w.interrupts_of ≡ start.interrupts_of
  pub tokens_of : w.tokens_of ≡ start.tokens_of
  pub http_text : w.http_text ≡ start.http_text

-- A computation that returned `a` in a world with that property.
abbrev pub Returned : {A : Type 0} → A → (World → Type 0) → Done A × World → Type 0
Returned a P r = (w : World) × (r ≡ (Done.returns a, w)) × P w

pub after_return :
    {A B : Type 0} (Q : Done B × World → Type 0) (P : World → Type 0) (f : A → Op B) (a : A)
    (r : Done A × World)
    → Returned a P r
    → ((w : World) → P w → Q (f a w))
    → Q (continue_with f r)
after_return Q P f a r (w, e, p) k = subst (λ q. Q (continue_with f q)) (sym e) (k w p)

module _ (run_id thread_id : ℕ) (start : World) (calm : IsCalm run_id thread_id start.moments) where
  abbrev pub arrived : ℕ → World → World
  arrived n w = record w { store = (start.moments n).meanwhile w.store; tick = suc w.tick }

  pub await_calm :
      {A : Type 0} (act : ℕ → World → A × World) (n : ℕ) (row : RunRow) (thread : ThreadRow)
      (w : World)
      → Sees run_id thread_id start n row thread w
      → (await_op act w ≡ (
        Done.returns (act (start.moments n).now (arrived n w)).0,
        (act (start.moments n).now (arrived n w)).1,
      ))
        × Sees run_id thread_id start (suc n) row thread (arrived n w)
  unfolding await_op
  await_calm act n row thread w s =
      let m : w.moments w.tick ≡ start.moments n = λ i. s.moments i (s.tick i) in
      (
        ap
              (λ (x : Moment).
                awaited act x (record w { store = x.meanwhile w.store; tick = suc w.tick }))
              m
            ∙ rw (calm.clear n),
        record {
          found = calm.runs n w.store ∙ s.found;
          thread_found = calm.threads n w.store ∙ s.thread_found;
          moments = s.moments;
          tick = ap suc s.tick;
          ainvoke = s.ainvoke;
          interrupts_of = s.interrupts_of;
          tokens_of = s.tokens_of;
          http_text = s.http_text;
        },
      )
