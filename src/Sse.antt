-- ===== src/Sse.antt =====
-- streaming/sse.py: the encoding of server-sent events, with the part of Python's `json.dumps` that
-- it uses (separators "," and ":", ASCII output).
pub mod Lines
pub mod Retries
use Prim.Native.Nat.{◌/◌, ◌%◌}
use skeino.Base.{
  ℕ, zero, suc, ◌+◌, ◌-◌, true, false, Option, none, some, [], ◌∷◌, ◌++◌, ◌==◌, ltb, leb, ◌&&◌,
  if◌then◌else◌,
}
use skeino.Json.{ℤ, pos, negsuc, Json, Items, Fields}
use skeino.Text.{Text, codes}

-- The decimal digits of a number, most significant first; a number has fewer digits than `suc n`.
unfoldable pub decimal_fuel : ℕ → ℕ → Text → Text
decimal_fuel zero n acc = acc
decimal_fuel (suc fuel) n acc =
    let digit = b'0' + n % 10 in
    let more = decimal_fuel fuel (n / 10) (digit ∷ acc) in if ltb n 10 then digit ∷ acc else more

-- str(n)
unfoldable pub decimal : ℕ → Text
unfolding decimal_fuel
decimal n = decimal_fuel (suc n) n []

unfoldable pub decimal_int : ℤ → Text
unfolding decimal
decimal_int (pos n) = decimal n
decimal_int (negsuc n) = b'-' ∷ decimal (suc n)

unfoldable pub hex_digit : ℕ → ℕ
hex_digit d = if ltb d 10 then b'0' + d else b'a' + (d - 10)

-- "\uXXXX"
unfoldable pub unicode_escape : ℕ → Text
unfolding hex_digit
unicode_escape c =
    0x5c
    ∷ b'u'
    ∷ hex_digit (c / 4096 % 16)
    ∷ hex_digit (c / 256 % 16)
    ∷ hex_digit (c / 16 % 16)
    ∷ hex_digit (c % 16)
    ∷ []

-- One character of a JSON string; one beyond the basic plane becomes a surrogate pair.
unfoldable pub escape : ℕ → Text
unfolding unicode_escape
escape c =
    if c == 0x22
    then 0x5c ∷ 0x22 ∷ []
    else if c == 0x5c
    then 0x5c ∷ 0x5c ∷ []
    else if c == 0x0a
    then 0x5c ∷ b'n' ∷ []
    else if c == 0x0d
    then 0x5c ∷ b'r' ∷ []
    else if c == 0x09
    then 0x5c ∷ b't' ∷ []
    else if c == 0x0c
    then 0x5c ∷ b'f' ∷ []
    else if c == 0x08
    then 0x5c ∷ b'b' ∷ []
    else if leb 0x20 c && leb c 0x7e
    then c ∷ []
    else if ltb c 0x10000
    then unicode_escape c
    else unicode_escape (0xd800 + (c - 0x10000) / 1024 % 1024)
      ++ unicode_escape (0xdc00 + (c - 0x10000) % 1024)

unfoldable pub escape_all : Text → Text
unfolding escape
escape_all [] = []
escape_all (c ∷ s) = escape c ++ escape_all s

unfoldable pub json_string : Text → Text
unfolding escape_all
json_string s = 0x22 ∷ escape_all s ++ 0x22 ∷ []

unfoldable mutual
  unfolding json_string decimal_int

  pub json_dumps : Json → Text
  json_dumps Json.null = codes "null"
  json_dumps (Json.bool true) = codes "true"
  json_dumps (Json.bool false) = codes "false"
  json_dumps (Json.int n) = decimal_int n
  json_dumps (Json.float s) = codes s
  json_dumps (Json.str s) = json_string (codes s)
  json_dumps (Json.arr xs) = 0x5b ∷ json_items xs ++ 0x5d ∷ []
  json_dumps (Json.obj fs) = 0x7b ∷ json_fields fs ++ 0x7d ∷ []

  pub json_items : Items → Text
  json_items Items.nil = []
  json_items (Items.cons x xs) = json_dumps x ++ json_more_items xs

  pub json_more_items : Items → Text
  json_more_items Items.nil = []
  json_more_items (Items.cons x xs) = 0x2c ∷ json_dumps x ++ json_more_items xs

  pub json_fields : Fields → Text
  json_fields Fields.end = []
  json_fields (Fields.field k x fs) =
      json_string (codes k) ++ 0x3a ∷ json_dumps x ++ json_more_fields fs

  pub json_more_fields : Fields → Text
  json_more_fields Fields.end = []
  json_more_fields (Fields.field k x fs) =
      0x2c ∷ json_string (codes k) ++ 0x3a ∷ json_dumps x ++ json_more_fields fs

-- f"event: {event}\ndata: {data}\n\n", after f"id: {event_id}\n" where there is an id
unfoldable pub sse_event : Text → Json → Option ℕ → Text
unfolding json_dumps decimal
sse_event event payload event_id =
    let body =
      codes "event: " ++ event ++ 0x0a ∷ codes "data: " ++ json_dumps payload ++ 0x0a ∷ 0x0a ∷ [] in
    elim event_id [ none ↦ body | some n ↦ codes "id: " ++ decimal n ++ 0x0a ∷ body ]
