-- ===== src/Handlers/Inventory.antt =====
-- What a batch of a handler of hm6/consumer/handlers.py does to the stock and the orders, for each of
-- the handlers.
use service_oriented_archite.Base.{String, ◌≡◌, some, List, inl, inr}
use service_oriented_archite.Python.Exception.{ok}
use service_oriented_archite.Python.Value.{Fields}
use service_oriented_archite.Cassandra.Tables.{Db, Statement}
use service_oriented_archite.Cassandra.Client.{Session}
use service_oriented_archite.Handlers.{Handler, find_handler}
use service_oriented_archite.Handlers.Zone.{batch}
use service_oriented_archite.Handlers.Sound.{IsSound}
use service_oriented_archite.Handlers.Dispatch.{find_handler-cases}
use service_oriented_archite.Handlers.Effects.{Change}
use service_oriented_archite.Handlers.Changes.{ChangesZone}
use service_oriented_archite.Handlers.Changes.Products.{
  ZoneHandler, receipt, shipment, reservation, release, inventory, ZoneHandler-ChangesZone,
}
use service_oriented_archite.Handlers.Changes.Move.{MovesStock, handle_product_moved-MovesStock}
use service_oriented_archite.Handlers.Changes.Created.{
  CreatesOrder, handle_order_created-CreatesOrder,
}
use service_oriented_archite.Handlers.Changes.Completed.{
  CompletesOrder, RepeatsOrder, handle_order_completed_once,
}
use service_oriented_archite.Handlers.Products.{handle_product_moved}
use service_oriented_archite.Handlers.Orders.{handle_order_created, handle_order_completed}

-- What a batch does, by the handler that made it and by the fields of its event.
pub data Effect (db : Db) (ev : Fields) (ops : List Statement) : Handler → Type 1 where
  zone :
      (handler : Handler) (key : String) (change : Change)
      → ZoneHandler handler key change
      → ChangesZone key change db ev ops
      → Effect db ev ops handler
  move : MovesStock db ev ops → Effect db ev ops handle_product_moved
  order : CreatesOrder db ev ops → Effect db ev ops handle_order_created
  completion : CompletesOrder db ev ops → Effect db ev ops handle_order_completed
  repetition : RepeatsOrder db ev ops → Effect db ev ops handle_order_completed

-- Every batch of a handler has its effect.
abbrev pub HasEffect : Handler → Type 1
HasEffect handler =
    (cass : Session) (ev : Fields) (ops : List Statement)
    → IsSound cass.db
    → handler cass ev ≡ ok (batch ops)
    → Effect cass.db ev ops handler

ZoneHandler-HasEffect :
    {handler : Handler} {key : String} {change : Change}
    → ZoneHandler handler key change
    → HasEffect handler
ZoneHandler-HasEffect {handler} {key} {change} h cass ev ops sound e =
    zone handler key change h (ZoneHandler-ChangesZone handler key change cass ev ops h e)

pub find_handler-HasEffect :
    (event_type : String) (handler : Handler)
    → find_handler event_type ≡ some handler
    → HasEffect handler
find_handler-HasEffect =
    find_handler-cases HasEffect (ZoneHandler-HasEffect receipt) (ZoneHandler-HasEffect shipment)
      (λ cass ev ops sound e. move (handle_product_moved-MovesStock cass ev ops e))
      (ZoneHandler-HasEffect reservation) (ZoneHandler-HasEffect release)
      (ZoneHandler-HasEffect inventory)
      (λ cass ev ops sound e. order (handle_order_created-CreatesOrder cass ev ops sound e))
      (λ cass ev ops sound e. elim (handle_order_completed_once cass ev ops e) [
        | inl c ↦ completion c
        | inr c ↦ repetition c
      ])
