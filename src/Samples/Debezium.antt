-- ===== src/Samples/Debezium.antt =====
-- A message of the connector, and how it is decoded.
use modern_data_platform.Prelude.{
  String, String_Eq, true, false, ◌==◌, ◌≢◌, eq_iff, arith, if◌then◌else◌, none, ◌≡◌, refl, some,
  [], ◌∷◌,
}
use modern_data_platform.Prelude.Int.{pos, negsuc}
use modern_data_platform.Prelude.Value.{Value}
use modern_data_platform.Processing.Outcome.{Exn, answer, failure}
use modern_data_platform.Streaming.Debezium.{
  Row, DebeziumChange, Parsers, overflow_error, date_of_days, decode_debezium_message,
}
use modern_data_platform.Streaming.Debezium.Typed.{Sourced, decode_debezium_message-Sourced}
use modern_data_platform.Streaming.Debezium.Encoding.{
  Event, TableRow, plain, instant, day, no_day, upserted, deleted, envelope_of, is_json,
}
use modern_data_platform.Streaming.Debezium.RoundTrip.{change_of, decode_debezium_message-dumps}

abbrev not_json : Exn
not_json = record { type_name = "JSONDecodeError"; message = "Expecting value" }

abbrev no_instant_error : Exn
no_instant_error = record { type_name = "ValueError"; message = "Invalid isoformat string" }

-- messages stand for the values that they are read as, and one instant is known
abbrev parsers : Parsers Value
parsers = record {
  loads = λ v. if is_json v then answer v else failure not_json;
  fromisoformat = λ t.
      if t == "2026-08-14T00:00:00Z"
      then answer "2026-08-14T00:00:00+00:00"
      else failure no_instant_error;
  float_days = λ f. failure overflow_error;
}

abbrev read : String → String
read t = "2026-08-14T00:00:00+00:00"

loads_lem :
    (v : Value) → is_json v ≡ true → (if is_json v then answer v else failure not_json) ≡ answer v
loads_lem v h = rw h refl

abbrev order : TableRow
order =
    ("order_id", plain "int64" none (Value.int (pos 7)))
    ∷ ("customer_id", plain "string" (some "io.debezium.data.Uuid") (Value.text "b5f3"))
    ∷ ("updated_at", instant "2026-08-14T00:00:00Z")
    ∷ ("due", day (negsuc 3))
    ∷ ("paid", no_day)
    ∷ []

abbrev created : Event
created = upserted "c" Value.null order

abbrev removed : Event
removed = deleted order

abbrev decoded : Row
decoded =
    ("order_id", Value.int (pos 7))
    ∷ ("customer_id", Value.text "b5f3")
    ∷ ("updated_at", Value.timestamp "2026-08-14T00:00:00+00:00")
    ∷ ("due", Value.date (negsuc 3))
    ∷ ("paid", Value.null)
    ∷ []

abbrev created_change : DebeziumChange
created_change = record {
  entity = Value.text "orders";
  op = Value.text "c";
  record_of = some decoded;
  source_ts_ms = Value.int (pos 5);
}

created_run :
    decode_debezium_message parsers (envelope_of "orders" (Value.int (pos 5)) created)
    ≡ answer created_change
unfolding decode_debezium_message
created_run = refl

-- the last day of Python's calendar, and the day after it
calendar_run :
    (date_of_days (pos 2932896) ≡ answer (Value.date (pos 2932896)))
    × (date_of_days (pos 2932897) ≡ failure overflow_error)
unfolding date_of_days
calendar_run = (refl, refl)

uuid_differs : (t : String) → ("io.debezium.data.Uuid" == t) ≡ false → "io.debezium.data.Uuid" ≢ t
uuid_differs t h e = ground (arith, eq_iff "io.debezium.data.Uuid" t, h, e)

decode_debezium_message-dumps_example :
    decode_debezium_message parsers (envelope_of "orders" (Value.int (pos 5)) removed)
    ≡ answer (change_of read "orders" (Value.int (pos 5)) removed)
decode_debezium_message-dumps_example =
    decode_debezium_message-dumps parsers read (λ v. v) "orders" (Value.int (pos 5)) removed
      loads_lem refl
      (
        refl,
        (refl, tt),
        (
          refl,
          (refl, (uuid_differs "io.debezium.time.ZonedTimestamp" refl, uuid_differs _ refl)),
          (refl, refl, (refl, (refl, refl), (refl, tt, tt))),
        ),
      )

decode_debezium_message-Sourced_example :
    Sourced parsers (envelope_of "orders" (Value.int (pos 5)) created) created_change decoded
decode_debezium_message-Sourced_example =
    decode_debezium_message-Sourced parsers (envelope_of "orders" (Value.int (pos 5)) created)
      created_change decoded created_run refl
