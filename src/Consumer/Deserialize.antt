-- ===== src/Consumer/Deserialize.antt =====
-- `EventDeserializer.deserialize` of hm6/consumer/schema_evolution.py. The Avro deserializer is a
-- parameter: it raises, or yields None or a record.
use service_oriented_archite.Base.{String, Option, none, some}
use service_oriented_archite.Python.Exception.{
  Result, ok, raise, fault, value_error, overflow_error, ◌>>=◌,
}
use service_oriented_archite.Python.Base64.{Bytes}
use service_oriented_archite.Python.Datetime.{from_timestamp, to_naive_utc}
use service_oriented_archite.Python.Value.{Value, null, num, time, aware, dict, Fields, get, put}

abbrev pub Avro : Type 0
Avro = Option Bytes → String → Result (Option Fields)

-- A number of milliseconds, or an aware time, becomes naive UTC; every other value stays.
unfoldable pub normalize_timestamp : Fields → Result Fields
unfolding get put from_timestamp to_naive_utc
normalize_timestamp ev = elim (get "timestamp" ev) [
  | some (num n) ↦ elim (from_timestamp n) [
    | none ↦ raise (fault overflow_error)
    | some t ↦ ok (put "timestamp" (time t) ev)
  ]
  | some (aware t offset) ↦ elim (to_naive_utc t offset) [
    | none ↦ raise (fault overflow_error)
    | some u ↦ ok (put "timestamp" (time u) ev)
  ]
  | _ ↦ ok ev
]

-- `d.get(key)`, which is None for a missing key.
unfoldable pub get_or_null : String → Fields → Value
unfolding get
get_or_null k d = elim (get k d) [ none ↦ null | some v ↦ v ]

-- The branch of an Avro union, `{"string": value}`, becomes the value, and a missing supplier None.
unfoldable pub normalize_supplier : Fields → Fields
unfolding get put get_or_null
normalize_supplier ev = elim (get "supplier_id" ev) [
  | none ↦ put "supplier_id" null ev
  | some (dict d) ↦ put "supplier_id" (get_or_null "string" d) ev
  | some v ↦ ev
]

unfoldable pub deserialize : Avro → Option Bytes → String → Result Fields
unfolding normalize_timestamp normalize_supplier
deserialize avro raw topic = avro raw topic >>= elim [
  | none ↦ raise (fault value_error)
  | some obj ↦ (normalize_timestamp obj >>= λ ev. ok (normalize_supplier ev))
]
