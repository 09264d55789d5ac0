-- ===== src/Publisher/Arrivals.antt =====
-- The events of hm6/producer/main.py `run_demo` as hm6/consumer/schema_evolution.py hands them on.
use service_oriented_archite.Base.{
  ℕ, ◌+◌, ◌<◌, String, ◌≡◌, refl, Option, none, some, arith, string_eq,
}
use service_oriented_archite.Base.Int.{ℤ, pos, ◌-ℤ◌}
use service_oriented_archite.Python.Exception.{ok, ◌>>=◌}
use service_oriented_archite.Python.Base64.{Bytes}
use service_oriented_archite.Python.Datetime.{epoch, datetime_limit, in_range, to_naive_utc}
use service_oriented_archite.Python.Value.{
  Value, time, aware, Fields, end, field, get, put, get-put, item, as_int, as_text, as_time, int_at,
  text_at, time_at, text, nullable_text_at,
}
use service_oriented_archite.Consumer.Deserialize.{
  Avro, normalize_timestamp, normalize_supplier, deserialize,
}
use service_oriented_archite.Publisher.Demo.{Draw, received, reserved, moved, shipped}

-- The record as Avro reads it back: its logical type makes the number of milliseconds an aware time.
abbrev pub read_back : Draw → Fields → Fields
read_back d ev = put "timestamp" (aware (epoch + d.now_ms) (pos 0)) ev

abbrev pub arrived : Draw → Fields → Fields
arrived d ev = normalize_supplier (put "timestamp" (time (epoch + d.now_ms)) ev)

put-put : (k : String) (v w : Value) (ev : Fields) → put k v (put k w ev) ≡ put k v ev
unfolding put
put-put k v w end = ground arith
put-put k v w (field j u ev) = ground (arith, put-put k v w ev)

to_naive_utc_utc : (t : ℕ) → t < datetime_limit → to_naive_utc t (pos 0) ≡ some t
unfolding to_naive_utc in_range ◌-ℤ◌
to_naive_utc_utc t h = ground arith

normalize_timestamp-read_back :
    (d : Draw) (ev : Fields)
    → epoch + d.now_ms < datetime_limit
    → normalize_timestamp (read_back d ev) ≡ ok (put "timestamp" (time (epoch + d.now_ms)) ev)
unfolding normalize_timestamp string_eq
normalize_timestamp-read_back d ev h =
    rw
      (
        normalize_timestamp,
        get-put "timestamp" "timestamp" (aware (epoch + d.now_ms) (pos 0)) ev,
        to_naive_utc_utc (epoch + d.now_ms) h,
      )
      (rw put-put refl)

pub deserialize-arrived :
    (avro : Avro) (raw : Option Bytes) (topic : String) (d : Draw) (ev : Fields)
    → avro raw topic ≡ ok (some (read_back d ev))
    → epoch + d.now_ms < datetime_limit
    → deserialize avro raw topic ≡ ok (arrived d ev)
unfolding deserialize ◌>>=◌
deserialize-arrived avro raw topic d ev e h =
    rw (deserialize, e) (rw (◌>>=◌, normalize_timestamp-read_back d ev h) refl)

-- What the consumer reads of an event of the demo.
pub record Reads (ev : Fields) (id type : String) (q : ℤ) (t : ℕ) : Type 0 where
  pub product : text_at "product_id" ev ≡ ok "SKU-001"
  pub timestamp : time_at "timestamp" ev ≡ ok t
  pub named : text_at "event_id" ev ≡ ok id
  pub typed : text_at "event_type" ev ≡ ok type
  pub amount : int_at "quantity" ev ≡ ok q
  pub id_found : get "event_id" ev ≡ some (text id)
  pub type_found : get "event_type" ev ≡ some (text type)

module _ (d : Draw) where
  pub received-Reads :
      Reads (arrived d (received d)) d.event_id "PRODUCT_RECEIVED" (pos 100) (epoch + d.now_ms)
  unfolding string_eq get put item as_int as_text as_time int_at text_at time_at ◌>>=◌
      normalize_supplier
  received-Reads = record {
    product = refl;
    timestamp = refl;
    named = refl;
    typed = refl;
    amount = refl;
    id_found = refl;
    type_found = refl;
  }

  pub received-zone : text_at "zone_id" (arrived d (received d)) ≡ ok "ZONE-A"
  unfolding string_eq get put item as_text text_at ◌>>=◌ normalize_supplier
  received-zone = refl

  pub received-supplier : nullable_text_at "supplier_id" (arrived d (received d)) ≡ ok none
  unfolding string_eq get put nullable_text_at normalize_supplier
  received-supplier = refl

  pub reserved-Reads :
      Reads (arrived d (reserved d)) d.event_id "PRODUCT_RESERVED" (pos 30) (epoch + d.now_ms)
  unfolding string_eq get put item as_int as_text as_time int_at text_at time_at ◌>>=◌
      normalize_supplier
  reserved-Reads = record {
    product = refl;
    timestamp = refl;
    named = refl;
    typed = refl;
    amount = refl;
    id_found = refl;
    type_found = refl;
  }

  pub reserved-zone : text_at "zone_id" (arrived d (reserved d)) ≡ ok "ZONE-A"
  unfolding string_eq get put item as_text text_at ◌>>=◌ normalize_supplier
  reserved-zone = refl

  pub moved-Reads :
      Reads (arrived d (moved d)) d.event_id "PRODUCT_MOVED" (pos 20) (epoch + d.now_ms)
  unfolding string_eq get put item as_int as_text as_time int_at text_at time_at ◌>>=◌
      normalize_supplier
  moved-Reads = record {
    product = refl;
    timestamp = refl;
    named = refl;
    typed = refl;
    amount = refl;
    id_found = refl;
    type_found = refl;
  }

  pub moved-zones :
      (text_at "from_zone_id" (arrived d (moved d)) ≡ ok "ZONE-A")
      × (text_at "to_zone_id" (arrived d (moved d)) ≡ ok "ZONE-B")
  unfolding string_eq get put item as_text text_at ◌>>=◌ normalize_supplier
  moved-zones = (refl, refl)

  pub shipped-Reads :
      Reads (arrived d (shipped d)) d.event_id "PRODUCT_SHIPPED" (pos 10) (epoch + d.now_ms)
  unfolding string_eq get put item as_int as_text as_time int_at text_at time_at ◌>>=◌
      normalize_supplier
  shipped-Reads = record {
    product = refl;
    timestamp = refl;
    named = refl;
    typed = refl;
    amount = refl;
    id_found = refl;
    type_found = refl;
  }

  pub shipped-zone : text_at "zone_id" (arrived d (shipped d)) ≡ ok "ZONE-A"
  unfolding string_eq get put item as_text text_at ◌>>=◌ normalize_supplier
  shipped-zone = refl
