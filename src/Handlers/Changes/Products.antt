-- ===== src/Handlers/Changes/Products.antt =====
-- The batches of the five handlers of hm6/consumer/handlers.py that change one zone.
use service_oriented_archite.Base.{String, ◌≡◌, List}
use service_oriented_archite.Python.Exception.{ok}
use service_oriented_archite.Python.Value.{Fields}
use service_oriented_archite.Cassandra.Tables.{Statement}
use service_oriented_archite.Cassandra.Client.{Session}
use service_oriented_archite.Handlers.{Handler}
use service_oriented_archite.Handlers.Zone.{batch}
use service_oriented_archite.Handlers.Effects.{
  Change, Received, Shipped, Reserved, Released, Counted, IsZoneBatch,
}
use service_oriented_archite.Handlers.Effects.OneZone.{
  handle_product_received-writes, handle_product_shipped-writes, handle_product_reserved-writes,
  handle_product_released-writes, handle_inventory_counted-writes,
}
use service_oriented_archite.Handlers.Products.{
  handle_product_received, handle_product_shipped, handle_product_reserved, handle_product_released,
  handle_inventory_counted,
}
use service_oriented_archite.Handlers.Changes.{ChangesZone, ChangesZone-of_batch}

-- The handlers of one zone, the key of their amount, and what they do with it: a receipt adds it to what
-- is available, a shipment takes it from there, a reservation moves it from available to reserved, a
-- release back, and a count sets what is available.
pub data ZoneHandler : Handler → String → Change → Type 1 where
  receipt : ZoneHandler handle_product_received "quantity" Received
  shipment : ZoneHandler handle_product_shipped "quantity" Shipped
  reservation : ZoneHandler handle_product_reserved "quantity" Reserved
  release : ZoneHandler handle_product_released "quantity" Released
  inventory : ZoneHandler handle_inventory_counted "counted_quantity" Counted

-- What a handler of one zone returns as a batch writes its zone, and the history.
pub ZoneHandler-IsZoneBatch :
    (handler : Handler) (key : String) (change : Change) (cass : Session) (ev : Fields)
    (ops : List Statement)
    → ZoneHandler handler key change
    → handler cass ev ≡ ok (batch ops)
    → IsZoneBatch key change cass.db ev ops
ZoneHandler-IsZoneBatch handler key change cass ev ops receipt e =
    (handle_product_received-writes cass ev).at (batch ops) e
ZoneHandler-IsZoneBatch handler key change cass ev ops shipment e =
    (handle_product_shipped-writes cass ev).at (batch ops) e
ZoneHandler-IsZoneBatch handler key change cass ev ops reservation e =
    (handle_product_reserved-writes cass ev).at (batch ops) e
ZoneHandler-IsZoneBatch handler key change cass ev ops release e =
    (handle_product_released-writes cass ev).at (batch ops) e
ZoneHandler-IsZoneBatch handler key change cass ev ops inventory e =
    (handle_inventory_counted-writes cass ev).at (batch ops) e

-- What a handler of one zone returns as a batch makes its change of the zone of the event, where what it
-- takes is covered and no amount is negative. No other zone changes, and the event is newer than what its
-- zone held.
pub ZoneHandler-ChangesZone :
    (handler : Handler) (key : String) (change : Change) (cass : Session) (ev : Fields)
    (ops : List Statement)
    → ZoneHandler handler key change
    → handler cass ev ≡ ok (batch ops)
    → ChangesZone key change cass.db ev ops
ZoneHandler-ChangesZone handler key change cass ev ops h e =
    ChangesZone-of_batch ops (ZoneHandler-IsZoneBatch handler key change cass ev ops h e)
