-- ===== src/Handlers/Zone.antt =====
-- The helpers of hm6/consumer/handlers.py: the state of a zone, the tests, and the statements.
use service_oriented_archite.Base.{
  ℕ, String, Bool, true, false, Option, none, some, List, [], ◌∷◌, leb,
}
use service_oriented_archite.Base.Int.{ℤ, pos, ltb_ℤ}
use service_oriented_archite.Python.Exception.{
  Result, ok, validation, invalid_quantity, ◌>>=◌, raise_if,
}
use service_oriented_archite.Python.Datetime.{date}
use service_oriented_archite.Python.Value.{Fields, text_at, time_at, nullable_text_at, int_or_zero}
use service_oriented_archite.Cassandra.Tables.{
  ZoneRow, Statement, upsert_zone, upsert_product, upsert_zone_idx, insert_history,
}
use service_oriented_archite.Cassandra.Client.{Session, get_zone_state}
use service_oriented_archite.Handlers.Jsonable.{jsonable}

-- What a handler returns: the statements of a batch, or None after it counted the event as out of
-- order.
pub data Handled : Type 0 where
  batch : List Statement → Handled
  out_of_order : Handled

pub record ZoneState : Type 0 where
  pub available : ℤ
  pub reserved : ℤ
  pub last_ts : Option ℕ
  pub last_event_id : Option String
  pub supplier_id : Option String

-- `int(column or 0)`
abbrev pub or_zero : Option ℤ → ℤ
or_zero none = pos 0
or_zero (some q) = q

-- The state that a row, or a missing row, stands for.
unfoldable pub zone_state : Option ZoneRow → ZoneState
zone_state none = record {
  available = pos 0;
  reserved = pos 0;
  last_ts = none;
  last_event_id = none;
  supplier_id = none;
}
zone_state (some row) = record {
  available = or_zero row.available_quantity;
  reserved = or_zero row.reserved_quantity;
  last_ts = row.last_event_timestamp;
  last_event_id = row.last_event_id;
  supplier_id = row.supplier_id;
}

unfoldable pub read_zone : Session → String → String → Result ZoneState
unfolding zone_state
read_zone cass product zone = do row ← get_zone_state cass product zone; ok (zone_state row)

unfoldable pub is_stale : ℕ → Option ℕ → Bool
is_stale event_ts none = false
is_stale event_ts (some current_ts) = leb event_ts current_ts

-- `if stale: count the event as out of order; return None`, and the rest of the handler.
unfoldable pub unless_stale : Bool → Result Handled → Result Handled
unless_stale true rest = ok out_of_order
unless_stale false rest = rest

unfoldable pub validate_quantity : ℤ → Result (Unit {0})
validate_quantity q = raise_if (ltb_ℤ q (pos 0)) (validation (invalid_quantity q))

unfoldable pub zone_writes : String → String → ℤ → ℤ → String → ℕ → Option String → List Statement
zone_writes product zone new_available new_reserved event_id event_ts supplier =
    upsert_zone product zone new_available new_reserved event_id event_ts supplier
    ∷ upsert_product product zone new_available new_reserved event_ts
    ∷ upsert_zone_idx zone product new_available new_reserved event_ts
    ∷ []

unfoldable pub history_write : Fields → Result Statement
history_write ev = do
  ts ← time_at "timestamp" ev
  event_id ← text_at "event_id" ev
  event_type ← text_at "event_type" ev
  quantity ← int_or_zero "quantity" ev
  product_id ← nullable_text_at "product_id" ev
  zone_id ← nullable_text_at "zone_id" ev
  ok (insert_history (date ts) ts event_id event_type product_id zone_id quantity (jsonable ev))
