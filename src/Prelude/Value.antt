-- ===== src/Prelude/Value.antt =====
-- The values of `Any`: what `json.loads`, a row and a context entry can hold. A float is kept as an
-- opaque numeral text, a datetime as its ISO text, a date as
-- the days from 1970-01-01, and a Decimal as its text.
use Prim.Native.String.{String}
use mathlib.Core.Bool.{Bool}
use modern_data_platform.Prelude.Int.{ℤ}

mutual
  pub data Value : Type 0 where
    null : Value
    bool : Bool → Value
    int : ℤ → Value
    float : String → Value
    text : String → Value
    list : Items → Value
    object : Fields → Value
    timestamp : String → Value
    date : ℤ → Value
    decimal : String → Value

  pub data Items : Type 0 where
    nil : Items
    cons : Value → Items → Items

  pub data Fields : Type 0 where
    end : Fields
    field : String → Value → Fields → Fields
