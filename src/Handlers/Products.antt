-- ===== src/Handlers/Products.antt =====
-- The handlers of hm6/consumer/handlers.py that change one or two zones.
use service_oriented_archite.Base.{String, ◌||◌, Option, none, some, [], ◌∷◌, ◌++◌, ◌==◌, string_eq}
use service_oriented_archite.Base.Int.{pos, ◌+ℤ◌, ◌-ℤ◌, ltb_ℤ}
use service_oriented_archite.Python.Exception.{
  Result, ok, validation, insufficient_available, insufficient_in_source, same_zone,
  insufficient_to_reserve, insufficient_to_release, negative_count, ◌>>=◌, ◌>>◌, raise_if,
}
use service_oriented_archite.Python.Value.{
  Fields, text, num, put, int_at, text_at, time_at, nullable_text_at,
}
use service_oriented_archite.Cassandra.Client.{Session}
use service_oriented_archite.Handlers.Zone.{
  Handled, batch, read_zone, is_stale, unless_stale, validate_quantity, zone_writes, history_write,
}

-- `x if x is not None else y`
abbrev pub or_else : Option String → Option String → Option String
or_else (some s) other = some s
or_else none other = other

unfoldable pub handle_product_received : Session → Fields → Result Handled
handle_product_received cass ev = do
  qty ← int_at "quantity" ev
  validate_quantity qty
  pid ← text_at "product_id" ev
  zid ← text_at "zone_id" ev
  ts ← time_at "timestamp" ev
  state ← read_zone cass pid zid
  unless_stale (is_stale ts state.last_ts) do
    supplier_id ← nullable_text_at "supplier_id" ev
    event_id ← text_at "event_id" ev
    history ← history_write ev
    ok (
        batch (
          zone_writes pid zid (state.available +ℤ qty) state.reserved event_id ts
            (or_else supplier_id state.supplier_id)
          ++ history ∷ []))

unfoldable pub handle_product_shipped : Session → Fields → Result Handled
handle_product_shipped cass ev = do
  qty ← int_at "quantity" ev
  validate_quantity qty
  pid ← text_at "product_id" ev
  zid ← text_at "zone_id" ev
  ts ← time_at "timestamp" ev
  state ← read_zone cass pid zid
  unless_stale (is_stale ts state.last_ts) do
    raise_if (ltb_ℤ state.available qty)
        (validation (insufficient_available zid pid state.available qty))
    event_id ← text_at "event_id" ev
    history ← history_write ev
    ok (
        batch (
          zone_writes pid zid (state.available -ℤ qty) state.reserved event_id ts state.supplier_id
          ++ history ∷ []))

unfoldable pub handle_product_moved : Session → Fields → Result Handled
handle_product_moved cass ev = do
  qty ← int_at "quantity" ev
  validate_quantity qty
  pid ← text_at "product_id" ev
  from_zone ← text_at "from_zone_id" ev
  to_zone ← text_at "to_zone_id" ev
  ts ← time_at "timestamp" ev
  raise_if (from_zone == to_zone) (validation same_zone)
  src ← read_zone cass pid from_zone
  dst ← read_zone cass pid to_zone
  unless_stale (is_stale ts src.last_ts || is_stale ts dst.last_ts) do
    raise_if (ltb_ℤ src.available qty)
        (validation (insufficient_in_source from_zone pid src.available qty))
    event_id ← text_at "event_id" ev
    history ← history_write (put "zone_id" (text from_zone) ev)
    ok (
        batch (
          zone_writes pid from_zone (src.available -ℤ qty) src.reserved event_id ts src.supplier_id
          ++ (zone_writes pid to_zone (dst.available +ℤ qty) dst.reserved event_id ts
                dst.supplier_id
              ++ history ∷ [])))

unfoldable pub handle_product_reserved : Session → Fields → Result Handled
handle_product_reserved cass ev = do
  qty ← int_at "quantity" ev
  validate_quantity qty
  pid ← text_at "product_id" ev
  zid ← text_at "zone_id" ev
  ts ← time_at "timestamp" ev
  state ← read_zone cass pid zid
  unless_stale (is_stale ts state.last_ts) do
    raise_if (ltb_ℤ state.available qty)
        (validation (insufficient_to_reserve zid pid state.available qty))
    event_id ← text_at "event_id" ev
    history ← history_write ev
    ok (
        batch (
          zone_writes pid zid (state.available -ℤ qty) (state.reserved +ℤ qty) event_id ts
            state.supplier_id
          ++ history ∷ []))

unfoldable pub handle_product_released : Session → Fields → Result Handled
handle_product_released cass ev = do
  qty ← int_at "quantity" ev
  validate_quantity qty
  pid ← text_at "product_id" ev
  zid ← text_at "zone_id" ev
  ts ← time_at "timestamp" ev
  state ← read_zone cass pid zid
  unless_stale (is_stale ts state.last_ts) do
    raise_if (ltb_ℤ state.reserved qty)
        (validation (insufficient_to_release zid pid state.reserved qty))
    event_id ← text_at "event_id" ev
    history ← history_write ev
    ok (
        batch (
          zone_writes pid zid (state.available +ℤ qty) (state.reserved -ℤ qty) event_id ts
            state.supplier_id
          ++ history ∷ []))

unfoldable pub handle_inventory_counted : Session → Fields → Result Handled
handle_inventory_counted cass ev = do
  pid ← text_at "product_id" ev
  zid ← text_at "zone_id" ev
  ts ← time_at "timestamp" ev
  counted ← int_at "counted_quantity" ev
  raise_if (ltb_ℤ counted (pos 0)) (validation (negative_count counted))
  state ← read_zone cass pid zid
  unless_stale (is_stale ts state.last_ts) do
    event_id ← text_at "event_id" ev
    history ← history_write (put "quantity" (num counted) ev)
    ok (
        batch (
          zone_writes pid zid counted state.reserved event_id ts state.supplier_id ++ history ∷ []))
