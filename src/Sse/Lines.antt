-- ===== src/Sse/Lines.antt =====
-- streaming/sse.py: the data of an event stays on one line, which the framing by blank lines needs.
use Prim.Native.Nat.{◌/◌, ◌%◌}
use skeino.Base.{
  ℕ, zero, suc, ◌+◌, ◌-◌, ◌≤◌, Bool, true, false, [], ◌∷◌, ◌++◌, arith, ◌==◌, ltb, leb, ◌&&◌,
  if◌then◌else◌, All, All-append, Bool-cases, inl, inr,
}
use skeino.Json.{ℤ, pos, negsuc, Json, Items, Fields}
use skeino.Text.{Text, codes}
use skeino.Sse.{
  decimal_fuel, decimal, decimal_int, hex_digit, unicode_escape, escape, escape_all, json_string,
  json_dumps, json_items, json_more_items, json_fields, json_more_fields,
}

-- No control character, so no line break.
abbrev pub IsOneLine : Text → Type 0
IsOneLine = All (λ c. 32 ≤ c)

-- The text of each float, which Python writes with digits, signs, dots and letters, is one line.
unfoldable mutual
  pub FloatsAreOneLine : Json → Type 0
  FloatsAreOneLine Json.null = Unit
  FloatsAreOneLine (Json.bool b) = Unit
  FloatsAreOneLine (Json.int n) = Unit
  FloatsAreOneLine (Json.float s) = IsOneLine (codes s)
  FloatsAreOneLine (Json.str s) = Unit
  FloatsAreOneLine (Json.arr xs) = FloatsOfItems xs
  FloatsAreOneLine (Json.obj fs) = FloatsOfFields fs

  pub FloatsOfItems : Items → Type 0
  FloatsOfItems Items.nil = Unit
  FloatsOfItems (Items.cons x xs) = FloatsAreOneLine x × FloatsOfItems xs

  pub FloatsOfFields : Fields → Type 0
  FloatsOfFields Fields.end = Unit
  FloatsOfFields (Fields.field k x fs) = FloatsAreOneLine x × FloatsOfFields fs

decimal_fuel-IsOneLine :
    (fuel n : ℕ) (acc : Text) → IsOneLine acc → IsOneLine (decimal_fuel fuel n acc)
unfolding decimal_fuel
decimal_fuel-IsOneLine zero n acc h = h
decimal_fuel-IsOneLine (suc fuel) n acc h =
    let digit : 32 ≤ b'0' + n % 10 = omega arith in
    elim (Bool-cases (ltb n 10)) [
      | inl t ↦ rw t (digit, h)
      | inr f ↦ rw f (decimal_fuel-IsOneLine fuel (n / 10) ((b'0' + n % 10) ∷ acc) (digit, h))
    ]

decimal_int-IsOneLine : (n : ℤ) → IsOneLine (decimal_int n)
unfolding decimal_int decimal
decimal_int-IsOneLine (pos n) = decimal_fuel-IsOneLine (suc n) n [] tt
decimal_int-IsOneLine (negsuc n) = (omega arith, decimal_fuel-IsOneLine (suc (suc n)) (suc n) [] tt)

hex_digit-le : (d : ℕ) → 32 ≤ hex_digit d
unfolding hex_digit
hex_digit-le d = ground arith

unicode_escape-IsOneLine : (c : ℕ) → IsOneLine (unicode_escape c)
unfolding unicode_escape
unicode_escape-IsOneLine c = (
  omega arith,
  (
    omega arith,
    (
      hex_digit-le (c / 4096 % 16),
      (hex_digit-le (c / 256 % 16), (hex_digit-le (c / 16 % 16), (hex_digit-le (c % 16), tt))),
    ),
  ),
)

if-IsOneLine : (b : Bool) (s t : Text) → IsOneLine s → IsOneLine t → IsOneLine (if b then s else t)
if-IsOneLine true s t hs ht = hs
if-IsOneLine false s t hs ht = ht

plain-IsOneLine :
    (c : ℕ) (rest : Text)
    → IsOneLine rest
    → IsOneLine (if leb 0x20 c && leb c 0x7e then c ∷ [] else rest)
plain-IsOneLine c rest h = elim (Bool-cases (leb 0x20 c && leb c 0x7e)) [
  | inl t ↦ rw t (ground (arith, t), tt)
  | inr f ↦ rw f h
]

pair-IsOneLine : (d : ℕ) → 32 ≤ d → IsOneLine (0x5c ∷ d ∷ [])
pair-IsOneLine d h = (omega arith, (h, tt))

escape-IsOneLine : (c : ℕ) → IsOneLine (escape c)
unfolding escape
escape-IsOneLine c = if-IsOneLine (c == 0x22) _ _ (pair-IsOneLine 0x22 (omega arith)) (
    if-IsOneLine (c == 0x5c) _ _ (pair-IsOneLine 0x5c (omega arith)) (
      if-IsOneLine (c == 0x0a) _ _ (pair-IsOneLine b'n' (omega arith)) (
        if-IsOneLine (c == 0x0d) _ _ (pair-IsOneLine b'r' (omega arith)) (
          if-IsOneLine (c == 0x09) _ _ (pair-IsOneLine b't' (omega arith)) (
            if-IsOneLine (c == 0x0c) _ _ (pair-IsOneLine b'f' (omega arith)) (
              if-IsOneLine (c == 0x08) _ _ (pair-IsOneLine b'b' (omega arith)) (
                plain-IsOneLine c _ (
                  if-IsOneLine (ltb c 0x10000) _ _ (unicode_escape-IsOneLine c) (
                    All-append (λ d. 32 ≤ d) (unicode_escape (0xd800 + (c - 0x10000) / 1024 % 1024))
                      (unicode_escape (0xdc00 + (c - 0x10000) % 1024))
                      (unicode_escape-IsOneLine (0xd800 + (c - 0x10000) / 1024 % 1024))
                      (unicode_escape-IsOneLine (0xdc00 + (c - 0x10000) % 1024)))))))))))

escape_all-IsOneLine : (s : Text) → IsOneLine (escape_all s)
unfolding escape_all
escape_all-IsOneLine [] = tt
escape_all-IsOneLine (c ∷ s) =
    All-append (λ d. 32 ≤ d) (escape c) (escape_all s) (escape-IsOneLine c) (escape_all-IsOneLine s)

one : (d : ℕ) → 32 ≤ d → IsOneLine (d ∷ [])
one d h = (h, tt)

json_string-IsOneLine : (s : Text) → IsOneLine (json_string s)
unfolding json_string
json_string-IsOneLine s = (
  omega arith,
  All-append (λ d. 32 ≤ d) (escape_all s) (0x22 ∷ []) (escape_all-IsOneLine s)
      (one 0x22 (omega arith)),
)

joined : (s t : Text) → IsOneLine s → IsOneLine t → IsOneLine (s ++ t)
joined s t hs ht = All-append (λ d. 32 ≤ d) s t hs ht

mutual
  unfolding json_dumps FloatsAreOneLine

  dumps : (j : Json) → FloatsAreOneLine j → IsOneLine (json_dumps j)
  dumps Json.null h = ground arith
  dumps (Json.bool true) h = ground arith
  dumps (Json.bool false) h = ground arith
  dumps (Json.int n) h = decimal_int-IsOneLine n
  dumps (Json.float s) h = h
  dumps (Json.str s) h = json_string-IsOneLine (codes s)
  dumps (Json.arr xs) h =
      (omega arith, joined (json_items xs) (0x5d ∷ []) (items xs h) (one 0x5d (omega arith)))
  dumps (Json.obj fs) h =
      (omega arith, joined (json_fields fs) (0x7d ∷ []) (fields fs h) (one 0x7d (omega arith)))

  items : (xs : Items) → FloatsOfItems xs → IsOneLine (json_items xs)
  items Items.nil h = tt
  items (Items.cons x xs) h =
      joined (json_dumps x) (json_more_items xs) (dumps x h.0) (more_items xs h.1)

  more_items : (xs : Items) → FloatsOfItems xs → IsOneLine (json_more_items xs)
  more_items Items.nil h = tt
  more_items (Items.cons x xs) h =
      (omega arith, joined (json_dumps x) (json_more_items xs) (dumps x h.0) (more_items xs h.1))

  fields : (fs : Fields) → FloatsOfFields fs → IsOneLine (json_fields fs)
  fields Fields.end h = tt
  fields (Fields.field k x fs) h =
      joined (json_string (codes k) ++ 0x3a ∷ json_dumps x) (json_more_fields fs)
        (joined (json_string (codes k)) (0x3a ∷ json_dumps x) (json_string-IsOneLine (codes k))
          (omega arith, dumps x h.0))
        (more_fields fs h.1)

  more_fields : (fs : Fields) → FloatsOfFields fs → IsOneLine (json_more_fields fs)
  more_fields Fields.end h = tt
  more_fields (Fields.field k x fs) h = (
    omega arith,
    joined (json_string (codes k) ++ 0x3a ∷ json_dumps x) (json_more_fields fs)
        (joined (json_string (codes k)) (0x3a ∷ json_dumps x) (json_string-IsOneLine (codes k))
          (omega arith, dumps x h.0))
        (more_fields fs h.1),
  )

-- The data of an event is one line whatever its texts hold, line breaks and control characters
-- included, provided that the text of each float is one line: so the data brings no blank line
-- into the frame that a blank line ends.
pub json_dumps-IsOneLine : (j : Json) → FloatsAreOneLine j → IsOneLine (json_dumps j)
json_dumps-IsOneLine j h = dumps j h
