-- ===== src/Tests/Interleave.antt =====
-- Two messages of different zones, in either order.
use service_oriented_archite.Base.Int.{pos}
use service_oriented_archite.Python.Datetime.{epoch}
use service_oriented_archite.Python.Value.{Fields, text, num, time, null, field, end}
use service_oriented_archite.Python.Exception.{ok, raise, fault, value_error}
use service_oriented_archite.Consumer.World.{Message}
use service_oriented_archite.Consumer.Deserialize.{Avro}
use service_oriented_archite.Handlers.Products.{handle_product_shipped}
use service_oriented_archite.Tests.Warehouse.{ops_of, over}
use service_oriented_archite.Base.{
  String, some, ◌+◌, ◌==◌, ◌≢◌, arith, ◌≡◌, refl, false, none, [], ◌∷◌, string_eq, pair_eq, nat_eq,
}
use service_oriented_archite.Base.Table.{lookup, insert, contains}
use service_oriented_archite.Python.Exception.{◌>>=◌, ◌>>◌, raise_if}
use service_oriented_archite.Python.Datetime.{date, isoformat}
use service_oriented_archite.Python.Value.{
  get, put, item, as_int, as_text, as_time, as_list, as_dict, int_at, text_at, time_at, list_at,
  nullable_text_at, int_or_zero, is_falsy,
}
use service_oriented_archite.Cassandra.Tables.{with_status, apply, apply_all}
use service_oriented_archite.Cassandra.Client.{
  get_zone_state, get_order, execute_batch, batched, is_event_processed,
}
use service_oriented_archite.Handlers.{find_handler}
use service_oriented_archite.Handlers.Jsonable.{
  jsonable, jsonable_value, jsonable_element, jsonable_items,
}
use service_oriented_archite.Handlers.Zone.{
  zone_state, read_zone, is_stale, unless_stale, validate_quantity, history_write, zone_writes,
}
use service_oriented_archite.Handlers.Products.{handle_product_shipped}
use service_oriented_archite.Consumer.Deserialize.{deserialize}
use service_oriented_archite.Consumer.Process.{or_unknown, process_one}
use service_oriented_archite.Consumer.Redelivery.{with_mark}
use service_oriented_archite.Tests.Warehouse.{filled}
use service_oriented_archite.Tests.Messages.{
  shipment, message, shipping, calm, before, shipment_ops,
}
use service_oriented_archite.Handlers.Products.{handle_product_received}
use service_oriented_archite.Handlers.Changes.Products.{receipt, shipment as a_shipment}
use service_oriented_archite.Cassandra.Rows.{SameRows}
use service_oriented_archite.Handlers.Effects.{Received, Shipped}
use service_oriented_archite.Consumer.New.{IsNew}
use service_oriented_archite.Consumer.Interleave.{process_one-interleaves}

-- A receipt of nuts in zone A.
abbrev receiving : Fields
receiving = field "event_id" (text "e9") (
    field "event_type" (text "PRODUCT_RECEIVED") (
      field "timestamp" (time (epoch + 30000)) (
        field "product_id" (text "nut") (
          field "zone_id" (text "A")
            (field "quantity" (num (pos 6)) (field "supplier_id" null end))))))

-- The length of the value of a message tells which of the two events it decodes to.
abbrev two_events : Avro
two_events (some (_ ∷ [])) topic = ok (some shipment)
two_events (some _) topic = ok (some receiving)
two_events none topic = raise (fault value_error)

abbrev received_nuts : Message
received_nuts = message (some (1 ∷ 2 ∷ [])) 7

unfoldable shipping-IsNew : IsNew two_events calm shipping before "bolt" "A"
unfolding string_eq deserialize is_event_processed contains find_handler execute_batch batched
    pair_eq lookup insert ◌>>=◌ ◌>>◌ raise_if get put item as_int as_text as_time as_list as_dict
    int_at text_at time_at list_at nullable_text_at int_or_zero is_falsy or_unknown apply apply_all
    get_zone_state get_order with_status zone_state read_zone is_stale unless_stale
    validate_quantity history_write zone_writes date jsonable jsonable_value jsonable_element
    jsonable_items isoformat handle_product_shipped handle_product_received
shipping-IsNew = record {
  ev = shipment;
  handler = handle_product_shipped;
  key = "quantity";
  change = Shipped;
  ops = shipment_ops;
  decoded = refl;
  named = refl;
  found = refl;
  one_zone = a_shipment;
  product = refl;
  zone = refl;
  wrote = refl;
  unseen = refl;
  mark = refl;
  sent = refl;
}

unfoldable receiving-IsNew : IsNew two_events calm received_nuts before "nut" "A"
unfolding string_eq deserialize is_event_processed contains find_handler execute_batch batched
    pair_eq lookup insert ◌>>=◌ ◌>>◌ raise_if get put item as_int as_text as_time as_list as_dict
    int_at text_at time_at list_at nullable_text_at int_or_zero is_falsy or_unknown apply apply_all
    get_zone_state get_order with_status zone_state read_zone is_stale unless_stale
    validate_quantity history_write zone_writes date jsonable jsonable_value jsonable_element
    jsonable_items isoformat handle_product_shipped handle_product_received
receiving-IsNew = record {
  ev = receiving;
  handler = handle_product_received;
  key = "quantity";
  change = Received;
  ops = ops_of (handle_product_received (over filled) receiving);
  decoded = refl;
  named = refl;
  found = refl;
  one_zone = receipt;
  product = refl;
  zone = refl;
  wrote = refl;
  unseen = refl;
  mark = refl;
  sent = refl;
}

apart : (a b : String) → (a == b) ≡ false → a ≢ b
apart a b h = ground arith

process_one-interleaves_example :
    ((process_one two_events calm received_nuts
        (process_one two_events calm shipping before).0).0.db
      ≡ apply_all (ops_of (handle_product_received (over filled) receiving)) (
          with_mark calm received_nuts receiving
            (apply_all shipment_ops (with_mark calm shipping shipment filled))))
    × SameRows
        (process_one two_events calm received_nuts
          (process_one two_events calm shipping before).0).0.db
        (process_one two_events calm shipping
          (process_one two_events calm received_nuts before).0).0.db
unfolding shipping-IsNew receiving-IsNew string_eq pair_eq nullable_text_at get
process_one-interleaves_example =
    process_one-interleaves two_events calm calm shipping received_nuts before "bolt" "A" "nut" "A"
      shipping-IsNew receiving-IsNew refl (apart "e1" "e9" refl)
