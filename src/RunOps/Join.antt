-- ===== src/RunOps/Join.antt =====
-- ops/runs.py: what `join_run_stream` does with the stream that it finds, after the reads before it.
-- The position of `-1`, from the beginning, is 0 here, since the ids start at 1.
use skeino.Base.{
  ℕ, ◌<◌, ◌≡◌, ◌⊎◌, refl, Bool, true, false, not, ◌&&◌, ◌||◌, Option, none, some, List, arith,
  if◌then◌else◌, ltb, ltb→lt, length, Bool-cases, inl, inr,
}
use skeino.Errors.{HttpError}
use skeino.Text.{Text}
use skeino.Stream.{
  StreamEvent, RunEventStream, Drain, closed, last_event_id, cursor_expired, subscribe,
}
use skeino.Stream.History.{IsHistory}
use skeino.Stream.Delivery.{IsOnTrack}
use skeino.Stream.Tracking.{subscribe-IsOnTrack}

pub data JoinPlan : Type 0 where
  relays : Drain → RunEventStream → JoinPlan
  refuses : HttpError → JoinPlan
  final_state : JoinPlan

-- `after is None or not stream.resumable`
abbrev pub nothing_to_replay : Option ℕ → RunEventStream → Bool
nothing_to_replay none s = true
nothing_to_replay (some n) s = not s.resumable

-- `after is not None and after > stream.last_event_id`
abbrev pub ahead : Option ℕ → RunEventStream → Bool
ahead none s = false
ahead (some n) s = ltb (last_event_id s) n

abbrev pub expired : Option ℕ → RunEventStream → Bool
expired none s = false
expired (some n) s = cursor_expired s n

abbrev pub position : Option ℕ → ℕ
position none = 0
position (some n) = n

unfoldable pub attach_or_refuse : RunEventStream → ℕ → Option ℕ → List Text → JoinPlan
unfolding subscribe
attach_or_refuse s run_id after stream_modes =
    if ahead after s
    then JoinPlan.refuses (HttpError.ahead_of_stream run_id (position after))
    else if expired after s
    then JoinPlan.refuses (HttpError.predates_window run_id (position after))
    else let (d, s') = subscribe s after stream_modes in JoinPlan.relays d s'

-- `task_done`: the run has a task, and it is done.
unfoldable pub join_plan : Option RunEventStream → Bool → ℕ → Option ℕ → List Text → JoinPlan
unfolding attach_or_refuse
join_plan none task_done run_id after stream_modes = JoinPlan.final_state
join_plan (some s) task_done run_id after stream_modes =
    if (closed s || task_done) && nothing_to_replay after s
    then JoinPlan.final_state
    else attach_or_refuse s run_id after stream_modes

-- What a join after the id `n` may come to, on a stream with that log.
abbrev pub IsJoined : List StreamEvent → RunEventStream → ℕ → ℕ → JoinPlan → Type 0
IsJoined log s run_id n (JoinPlan.relays d s') = IsOnTrack log s' d × (d.delivered ≡ n)
IsJoined log s run_id n (JoinPlan.refuses e) =
    ((e ≡ HttpError.ahead_of_stream run_id n) × (length log < n))
    ⊎ ((e ≡ HttpError.predates_window run_id n) × (cursor_expired s n ≡ true))
IsJoined log s run_id n JoinPlan.final_state = ⊥

attach_or_refuse-IsJoined :
    (log : List StreamEvent) (s : RunEventStream) (run_id n : ℕ) (stream_modes : List Text)
    → IsHistory log s
    → IsJoined log s run_id n (attach_or_refuse s run_id (some n) stream_modes)
unfolding attach_or_refuse
attach_or_refuse-IsJoined log s run_id n modes v = elim (Bool-cases (ltb (last_event_id s) n)) [
  | inl a ↦ let e = v.next in let l = ltb→lt (last_event_id s) n a in rw a (inl (refl, omega arith))
  | inr a ↦ elim (Bool-cases (cursor_expired s n)) [
    | inl c ↦ rw (a, c) (inr (refl, c))
    | inr c ↦ let t = subscribe-IsOnTrack log s n modes v c in rw (a, c) (t.0, t.1)
  ]
]

no_fallback : (finished resumable : Bool) → resumable ≡ true → (finished && not resumable) ≡ false
no_fallback finished resumable r = ground (arith, r)

-- A join of a stream that keeps its history loses nothing: after an id it is either owed exactly the
-- events after that id, or refused, as ahead of the stream only if no event has that id yet, and as
-- too old only if an event after it was evicted. It never falls back to the final state.
pub join_plan-IsJoined :
    (log : List StreamEvent) (s : RunEventStream) (task_done : Bool) (run_id n : ℕ)
    (stream_modes : List Text)
    → IsHistory log s
    → s.resumable ≡ true
    → IsJoined log s run_id n (join_plan (some s) task_done run_id (some n) stream_modes)
unfolding join_plan
join_plan-IsJoined log s task_done run_id n modes v r =
    let a = attach_or_refuse-IsJoined log s run_id n modes v in
    rw (no_fallback (closed s || task_done) s.resumable r) a
