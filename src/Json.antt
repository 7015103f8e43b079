-- ===== src/Json.antt =====
-- The values that json and pydantic's `model_dump` pass on, and what `json.dumps(..., default=str)`
-- makes of them.
use fastcoder.Base.{ℕ, String, Bool, Option, none, some, ite, string_discrete}

-- A value of Python: numbers are whole, and `moment` is a datetime, in microseconds.
mutual
  pub data Value : Type 0 where
    null : Value
    boolean : Bool → Value
    number : ℕ → Value
    text : String → Value
    moment : ℕ → Value
    items : Items → Value
    object : Fields → Value

  pub data Items : Type 0 where
    nil : Items
    cons : Value → Items → Items

  pub data Fields : Type 0 where
    end : Fields
    field : String → Value → Fields → Fields

-- What is read back of a value that was written with `default=str`: datetimes have become texts.
unfoldable mutual
  pub written : (ℕ → String) → Value → Value
  written str null = null
  written str (boolean b) = boolean b
  written str (number n) = number n
  written str (text s) = text s
  written str (moment t) = text (str t)
  written str (items l) = items (written_items str l)
  written str (object fields) = object (written_fields str fields)

  pub written_items : (ℕ → String) → Items → Items
  written_items str nil = nil
  written_items str (cons v l) = cons (written str v) (written_items str l)

  pub written_fields : (ℕ → String) → Fields → Fields
  written_fields str end = end
  written_fields str (field key v fields) = field key (written str v) (written_fields str fields)

-- `data.get(key)`; the keys of a dict are distinct.
unfoldable pub value_of : String → Fields → Option Value
unfolding string_discrete
value_of key end = none
value_of key (field other v fields) = ite (string_discrete other key) (some v) (value_of key fields)
