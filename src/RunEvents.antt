-- ===== src/RunEvents.antt =====
-- ops/runs.py: the events that a streaming run publishes, by what their payloads carry. The module
-- Stream says what `RunEventStream.publish` does with an event.
use skeino.Base.{ℕ, String, Option}
use skeino.Json.{Json}
use skeino.Schemas.{RunStatus, RunRow}
use skeino.Text.{Text}

-- The status that a terminal event reports, with its detail for an error.
pub data TerminalEvent : Type 0 where
  error_event : ℕ → String → TerminalEvent
  end_event : ℕ → RunStatus → TerminalEvent

-- "metadata" with the run's model, a chunk of the graph's stream under its mode, and "error" or "end",
-- with the total of tokens for a success.
pub data RunEvent : Type 0 where
  metadata : RunRow → RunEvent
  chunk : Text → Json → RunEvent
  terminal : TerminalEvent → Option ℕ → RunEvent
