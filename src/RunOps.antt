-- ===== src/RunOps.antt =====
-- ops/runs.py, RunOps: the computations of the class. An operation is an asyncio coroutine: a function
-- of the world that returns or raises, with the world it leaves. What happens at an `await` is not
-- the code's choice, so the world holds a moment for each one: the time, what other tasks and
-- processes do to the store meanwhile, and whether the awaited call comes through, raises before
-- its effect, or raises (or is cancelled) after it.
pub mod Writes
pub mod Execution
pub mod Views
pub mod Frame
pub mod Publishing
pub mod Chunks
pub mod Attempts
pub mod Bodies
pub mod Terminal
pub mod Producing
pub mod Claim
pub mod Settling
pub mod Outcomes
pub mod Quiet
pub mod CalmWrites
pub mod CalmRuns
pub mod Calm
pub mod Requests
pub mod Sweeps
pub mod Stuck
pub mod Pages
pub mod Collecting
pub mod Answers
pub mod Join
pub mod Ownership
pub mod Admission
pub mod Admitting
pub mod Cancelling
pub mod Finals
pub mod FinalEvents
pub mod Waiting
pub mod Yields
pub mod Reading
pub mod Ending
use skeino.Base.{ℕ, suc, String, Bool, Option, none, some, List, ◌∷◌}
use skeino.Errors.{HttpError}
use skeino.Json.{Json}
use skeino.Text.{Text}
use skeino.RunEvents.{RunEvent}
use skeino.Store.{Store}
use skeino.Concurrency.{BackgroundRunRegistry, Step}

-- HTTPException, any other Exception with its text, asyncio.CancelledError
pub data Exn : Type 0 where
  http : HttpError → Exn
  fault : String → Exn
  cancelled : Exn

pub data Done (A : Type 0) : Type 0 where
  returns : A → Done A
  raises : Exn → Done A

pub data Fate : Type 0 where
  clear : Fate
  lost : Exn → Fate
  struck : Exn → Fate

pub record Moment : Type 0 where
  pub now : ℕ
  pub meanwhile : Store → Store
  pub fate : Fate

-- What one call of `Streamer.stream` would come to, uninterrupted: the events it yields, and how it
-- fails after them, if it does.
pub record Attempt : Type 0 where
  pub chunks : List (Text × Json)
  pub failure : Option Exn

-- `deleted_checkpoints`: the threads whose checkpoints the checkpointer was asked to delete.
-- `held`: this task holds its thread's execution lock; `invoked`: the runs the graph was invoked for.
-- `ainvoke`, `interrupts_of` and `tokens_of` are the graph: how an invocation for a run ends (with the
-- tokens of its usage handler), whether a thread's state has pending interrupts, and the tokens of
-- its messages. `http_text` is `str` of an HTTPException, `deleted_text` the error of a deleted run.
-- A task that streams has the stream of its run: `published` are the events published on it so far,
-- and `attempts` what the Streamer does in each attempt, with `streamed_tokens` in its usage handler.
-- `tasks_do` is what happens to this process's tasks while this one waits for one of them; at the other
-- awaits the registry stands still.
pub record World : Type 0 where
  pub store : Store
  pub held : Bool
  pub invoked : List ℕ
  pub unsettled_threads : List ℕ
  pub unreleased_threads : List ℕ
  pub registry : BackgroundRunRegistry
  pub deleted_checkpoints : List ℕ
  pub ainvoke : ℕ → Done ℕ
  pub interrupts_of : ℕ → Bool
  pub tokens_of : ℕ → ℕ
  pub http_text : HttpError → String
  pub deleted_text : ℕ → String
  pub published : List RunEvent
  pub stream_closed : Bool
  pub attempts : ℕ → Attempt
  pub streamed_tokens : ℕ
  pub tasks_do : ℕ → List Step
  pub moments : ℕ → Moment
  pub tick : ℕ

abbrev pub Op : Type 0 → Type 0
Op A = World → Done A × World

abbrev pub return_op : {A : Type 0} → A → Op A
return_op a w = (Done.returns a, w)

abbrev pub raise_op : {A : Type 0} → Exn → Op A
raise_op e w = (Done.raises e, w)

infixl 5 ◌>>=◌ ◌>>◌
abbrev pub continue_with : {A B : Type 0} → (A → Op B) → Done A × World → Done B × World
continue_with f (Done.returns a, w) = f a w
continue_with f (Done.raises e, w) = (Done.raises e, w)

abbrev pub ◌>>=◌ : {A B : Type 0} → Op A → (A → Op B) → Op B
◌>>=◌ m f w = continue_with f (m w)

abbrev pub ◌>>◌ : {B : Type 0} → Op (Unit {0}) → Op B → Op B
◌>>◌ m k w = continue_with (λ _. k) (m w)

abbrev pub handle_with : {A : Type 0} → (Exn → Op A) → Done A × World → Done A × World
handle_with h (Done.returns a, w) = (Done.returns a, w)
handle_with h (Done.raises e, w) = h e w

-- `try: m except ...: h`, where `h` raises again what it does not handle
abbrev pub try_op : {A : Type 0} → Op A → (Exn → Op A) → Op A
try_op m h w = handle_with h (m w)

-- An awaited call with effect `act`, at a moment.
abbrev pub awaited : {A : Type 0} → (ℕ → World → A × World) → Moment → World → Done A × World
awaited act m w = elim m.fate [
  | Fate.clear ↦ (let (a, w') = act m.now w in (Done.returns a, w'))
  | Fate.lost e ↦ (Done.raises e, w)
  | Fate.struck e ↦ (Done.raises e, (act m.now w).1)
]

unfoldable pub await_op : {A : Type 0} → (ℕ → World → A × World) → Op A
await_op act w =
    let m = w.moments w.tick in
    awaited act m (record w { store = m.meanwhile w.store; tick = suc w.tick })
