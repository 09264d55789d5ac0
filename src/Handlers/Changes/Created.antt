-- ===== src/Handlers/Changes/Created.antt =====
-- The batch of `handle_order_created` of hm6/consumer/handlers.py.
use service_oriented_archite.Base.{
  ℕ, String, ◌≡◌, refl, ◌∙◌, ap, some, List, arith, string_eq, false,
}
use service_oriented_archite.Base.Table.{lookup, lookup-insert}
use service_oriented_archite.Python.Exception.{ok}
use service_oriented_archite.Python.Value.{Fields, Items, text_at, time_at, list_at}
use service_oriented_archite.Cassandra.Tables.{
  Db, Statement, OrderRow, upsert_order, apply_all, apply,
}
use service_oriented_archite.Cassandra.Client.{Session}
use service_oriented_archite.Handlers.Zone.{batch}
use service_oriented_archite.Handlers.Sound.{stock, IsSound}
use service_oriented_archite.Handlers.Effects.Reserve.{demand, stored}
use service_oriented_archite.Handlers.Effects.Created.{
  no_delta, IsOrderBatch, handle_order_created-writes,
}
use service_oriented_archite.Handlers.Orders.{seen_writes, is_nil, handle_order_created}
use service_oriented_archite.Handlers.Changes.Orders.{
  ReservedBy, IsStamped, stock-order_batch, stamps-order_batch, orders-order_batch,
}

-- The row of a new order.
abbrev pub created_row : Items → ℕ → OrderRow
created_row items t = record {
  status = some "CREATED";
  items = some (stored items);
  created_at = some t;
  updated_at = some t;
}

pub record CreatesOrder (db : Db) (ev : Fields) (ops : List Statement) : Type 0 where
  pub order_id : String
  pub items : Items
  pub t : ℕ
  pub order : text_at "order_id" ev ≡ ok order_id
  pub listed : list_at "items" ev ≡ ok items
  pub timestamp : time_at "timestamp" ev ≡ ok t
  pub nonempty : is_nil items ≡ false
  pub zones :
      (p z : String)
      → ReservedBy (demand items no_delta p z) (stock db p z) (stock (apply_all ops db) p z)
  pub stamped : (p z : String) → IsStamped t (stock db p z) (stock (apply_all ops db) p z)
  pub row : lookup order_id (apply_all ops db).orders ≡ some (created_row items t)

row-upsert_order :
    (order : String) (items : Items) (t : ℕ) (db : Db)
    → lookup order (apply (upsert_order order "CREATED" (stored items) t t) db).orders
      ≡ some (created_row items t)
unfolding apply
row-upsert_order order items t db = rw lookup-insert (ground arith)

CreatesOrder-of_batch :
    {db : Db} {ev : Fields} (ops : List Statement) → IsOrderBatch db ev ops → CreatesOrder db ev ops
CreatesOrder-of_batch {db} {ev} ops b = record {
  order_id = b.order_id;
  items = b.items;
  t = b.t;
  order = b.order;
  listed = b.listed;
  timestamp = b.timestamp;
  nonempty = b.nonempty;
  zones = λ p z. rw b.written (
      stock-order_batch b.id b.t b.seen (upsert_order b.order_id "CREATED" (stored b.items) b.t b.t)
        b.history db (demand b.items no_delta) b.tracks refl b.logged p z);
  stamped = λ p z. rw b.written (
      stamps-order_batch b.id b.t b.seen
        (upsert_order b.order_id "CREATED" (stored b.items) b.t b.t) b.history db
        (demand b.items no_delta) b.tracks refl b.logged p z);
  row = rw b.written (
      ap (λ orders. lookup b.order_id orders)
        (orders-order_batch b.id b.t b.seen
          (upsert_order b.order_id "CREATED" (stored b.items) b.t b.t) b.history db b.logged)
      ∙ row-upsert_order b.order_id b.items b.t (apply_all (seen_writes b.id b.t b.seen) db));
}

-- An order that is written changes in each zone what is reserved, by the sum of what its items ask of
-- that zone, and no available quantity; it is stored with its items, as created.
pub handle_order_created-CreatesOrder :
    (cass : Session) (ev : Fields) (ops : List Statement)
    → IsSound cass.db
    → handle_order_created cass ev ≡ ok (batch ops)
    → CreatesOrder cass.db ev ops
handle_order_created-CreatesOrder cass ev ops sound e =
    CreatesOrder-of_batch ops ((handle_order_created-writes cass ev sound).at (batch ops) e)
