-- ===== src/Tests/Stock.antt =====
-- The handlers on a warehouse with one filled zone.
use service_oriented_archite.Base.{refl, List, string_eq, pair_eq}
use service_oriented_archite.Base.Table.{lookup, insert}
use service_oriented_archite.Python.Exception.{◌>>=◌, ◌>>◌, raise_if}
use service_oriented_archite.Python.Value.{
  get, nullable_text_at, Fields, put, int_at, text_at, time_at, int_or_zero,
}
use service_oriented_archite.Cassandra.Tables.{Statement, apply, apply_all}
use service_oriented_archite.Cassandra.Client.{get_zone_state}
use service_oriented_archite.Handlers.Zone.{
  read_zone, is_stale, unless_stale, validate_quantity, history_write, zone_writes,
}
use service_oriented_archite.Handlers.Effects.{Shipped}
use service_oriented_archite.Handlers.Changes.{ChangesZone}
use service_oriented_archite.Handlers.Changes.Products.{shipment, ZoneHandler-ChangesZone}
use service_oriented_archite.Handlers.Changes.Move.{MovesStock, handle_product_moved-MovesStock}
use service_oriented_archite.Handlers.Products.{handle_product_shipped, handle_product_moved}
use service_oriented_archite.Tests.Warehouse.{ops_of, over, filled, zone_event, move}

abbrev shipped_event : Fields
shipped_event = zone_event "PRODUCT_SHIPPED" "quantity" 4

abbrev shipped_ops : List Statement
shipped_ops = ops_of (handle_product_shipped (over filled) shipped_event)

ZoneHandler-ChangesZone_example : ChangesZone "quantity" Shipped filled shipped_event shipped_ops
unfolding string_eq pair_eq lookup insert ◌>>=◌ ◌>>◌ raise_if int_at text_at time_at int_or_zero
    apply apply_all get_zone_state read_zone is_stale unless_stale validate_quantity history_write
    nullable_text_at get zone_writes handle_product_shipped
ZoneHandler-ChangesZone_example =
    ZoneHandler-ChangesZone handle_product_shipped "quantity" Shipped (over filled) shipped_event
      shipped_ops shipment refl

abbrev move_ops : List Statement
move_ops = ops_of (handle_product_moved (over filled) move)

handle_product_moved_example : MovesStock filled move move_ops
unfolding string_eq pair_eq lookup insert ◌>>=◌ ◌>>◌ raise_if put int_at text_at time_at int_or_zero
    apply apply_all get_zone_state read_zone is_stale unless_stale validate_quantity history_write
    nullable_text_at get zone_writes handle_product_moved
handle_product_moved_example = handle_product_moved-MovesStock (over filled) move move_ops refl
