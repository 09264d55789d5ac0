-- ===== src/Handlers.antt =====
-- hm6/consumer/handlers.py: a handler reads the session, and returns the statements of its batch,
-- or skips the event, or raises. `HANDLERS` is `find_handler`.
pub mod Zone
pub mod Jsonable
pub mod Products
pub mod Orders
pub mod Sound
pub mod Effects
pub mod Stock
pub mod Changes
pub mod Dispatch
pub mod Keeps
pub mod Newer
pub mod Steps
pub mod Accepts
pub mod Local
pub mod Inventory
pub mod Once
pub mod Reorders
use service_oriented_archite.Base.{String, Option, none, some, ◌==◌, string_eq, if◌then◌else◌}
use service_oriented_archite.Python.Exception.{Result}
use service_oriented_archite.Python.Value.{Fields}
use service_oriented_archite.Cassandra.Client.{Session}
use Zone.{Handled}
use Products.{
  handle_product_received, handle_product_shipped, handle_product_moved, handle_product_reserved,
  handle_product_released, handle_inventory_counted,
}
use Orders.{handle_order_created, handle_order_completed}

-- The arguments `partition` and `offset` of a handler are used by none of them.
abbrev pub Handler : Type 0
Handler = Session → Fields → Result Handled

-- `HANDLERS.get(event_type)`
unfoldable pub find_handler : String → Option Handler
find_handler event_type =
    if event_type == "PRODUCT_RECEIVED"
    then some handle_product_received
    else if event_type == "PRODUCT_SHIPPED"
    then some handle_product_shipped
    else if event_type == "PRODUCT_MOVED"
    then some handle_product_moved
    else if event_type == "PRODUCT_RESERVED"
    then some handle_product_reserved
    else if event_type == "PRODUCT_RELEASED"
    then some handle_product_released
    else if event_type == "INVENTORY_COUNTED"
    then some handle_inventory_counted
    else if event_type == "ORDER_CREATED"
    then some handle_order_created
    else if event_type == "ORDER_COMPLETED"
    then some handle_order_completed
    else none
