-- ===== src/Sse/Retries.antt =====
-- streaming/sse.py: which failures of a graph's stream are worth another attempt. The words are ASCII,
-- and `lower` turns no other character into a letter of theirs with nothing after it.
use skeino.Base.{ℕ, ◌+◌, Bool, true, false, ◌&&◌, List, [], ◌∷◌, map, leb, if◌then◌else◌}
use skeino.Text.{Text, codes, starts_with}

-- str.lower, on ASCII
abbrev lower : Text → Text
lower = map (λ c. if leb b'A' c && leb c b'Z' then c + 32 else c)

-- t in s
unfoldable pub includes : Text → Text → Bool
unfolding starts_with
includes [] t = starts_with [] t
includes (c ∷ s) t = let rest = includes s t in if starts_with (c ∷ s) t then true else rest

unfoldable pub includes_any : Text → List Text → Bool
unfolding includes
includes_any s [] = false
includes_any s (t ∷ ts) = if includes s t then true else includes_any s ts

-- STREAM_MAX_RETRIES
abbrev pub stream_max_retries : ℕ
stream_max_retries = 3

-- The texts that the three tests look for.
abbrev retriable_words : List Text
retriable_words =
    codes "timeout"
    ∷ codes "timed out"
    ∷ codes "ssl"
    ∷ codes "syscall"
    ∷ codes "connection"
    ∷ codes "could not receive data from server"
    ∷ []

-- is_retriable_stream_error, of the exception's text
unfoldable pub is_retriable_stream_error : Text → Bool
unfolding includes_any
is_retriable_stream_error message = includes_any (lower message) retriable_words
