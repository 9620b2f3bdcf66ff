-- ===== src/Json.antt =====
-- schemas/common.py (JsonValue): the JSON values that requests, rows and events carry. A float is
-- kept as the text that Python prints for it, since the code passes floats through unread.
use skeino.Base.{ℕ, Bool, String}

-- `negsuc n` is -(n + 1).
pub data ℤ : Type 0 where
  pos : ℕ → ℤ
  negsuc : ℕ → ℤ

mutual
  pub data Json : Type 0 where
    null : Json
    bool : Bool → Json
    int : ℤ → Json
    float : String → Json
    str : String → Json
    arr : Items → Json
    obj : Fields → Json

  pub data Items : Type 0 where
    nil : Items
    cons : Json → Items → Items

  -- A dict with text keys, in insertion order.
  pub data Fields : Type 0 where
    end : Fields
    field : String → Json → Fields → Fields
