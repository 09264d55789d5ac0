-- ===== src/Handlers/Changes/Completed.antt =====
-- The batch of `handle_order_completed` of hm6/consumer/handlers.py, and an order from its creation
-- to its completion.
use service_oriented_archite.Base.{
  ℕ, String, ◌≡◌, refl, ◌∙◌, ap, some, List, arith, string_eq, true, false, ◌⊎◌, inl, inr,
  Bool-cases,
}
use service_oriented_archite.Base.Int.{ℤ, pos, ◌+ℤ◌, ◌-ℤ◌, int_laws}
use service_oriented_archite.Base.Table.{lookup, lookup-insert}
use service_oriented_archite.Python.Exception.{ok, Result-cases}
use service_oriented_archite.Python.Decimal.{str}
use service_oriented_archite.Python.Decimal.RoundTrip.{int-str}
use service_oriented_archite.Python.Value.{Fields, Items, nil, cons, text, as_int, text_at, time_at}
use service_oriented_archite.Cassandra.Tables.{
  Db, Statement, OrderItem, OrderRow, with_status, update_order_status, apply_all, apply,
}
use service_oriented_archite.Cassandra.Client.{Session}
use service_oriented_archite.Handlers.Zone.{batch}
use service_oriented_archite.Handlers.Sound.{stock, same_key, is_log_of_history}
use service_oriented_archite.Handlers.Stock.{stock-log}
use service_oriented_archite.Handlers.Effects.Walks.{Delta, add_at}
use service_oriented_archite.Handlers.Effects.Reserve.{demand, add_line, store_line, stored}
use service_oriented_archite.Handlers.Effects.Created.{no_delta}
use service_oriented_archite.Handlers.Effects.Completed.{
  take_amount, settlement, IsCompletionBatch, IsRepeatBatch, IsCompletion, first, again,
  handle_order_completed-writes,
}
use service_oriented_archite.Handlers.Orders.{
  OrderLine, order_line, seen_writes, is_completed, handle_order_completed,
}
use service_oriented_archite.Handlers.Changes.Orders.{
  ReservedBy, stock-order_batch, orders-order_batch, orders-seen_writes, orders-history,
}

pub record CompletesOrder (db : Db) (ev : Fields) (ops : List Statement) : Type 0 where
  pub order_id : String
  pub row : OrderRow
  pub items : List OrderItem
  pub t : ℕ
  pub order : text_at "order_id" ev ≡ ok order_id
  pub found : lookup order_id db.orders ≡ some row
  pub open_order : is_completed row ≡ false
  pub listed : row.items ≡ some items
  pub timestamp : time_at "timestamp" ev ≡ ok t
  pub zones :
      (p z : String)
      → ReservedBy (settlement items no_delta p z) (stock db p z) (stock (apply_all ops db) p z)
  pub updated :
      lookup order_id (apply_all ops db).orders
      ≡ some (record row { status = some "COMPLETED"; updated_at = some t })

-- A completion of an order that is completed already changes no zone and no order.
pub record RepeatsOrder (db : Db) (ev : Fields) (ops : List Statement) : Type 0 where
  pub order_id : String
  pub row : OrderRow
  pub order : text_at "order_id" ev ≡ ok order_id
  pub found : lookup order_id db.orders ≡ some row
  pub completed : is_completed row ≡ true
  pub zones : (p z : String) → stock (apply_all ops db) p z ≡ stock db p z
  pub orders : (apply_all ops db).orders ≡ db.orders

row-update :
    (order : String) (t : ℕ) (row : OrderRow) (db db' : Db)
    → db'.orders ≡ db.orders
    → lookup order db.orders ≡ some row
    → lookup order (apply (update_order_status "COMPLETED" t order) db').orders
      ≡ some (record row { status = some "COMPLETED"; updated_at = some t })
unfolding apply with_status
row-update order t row db db' same found = rw (lookup-insert, same, found) (ground arith)

CompletesOrder-of_batch :
    {db : Db} {ev : Fields} (ops : List Statement)
    → IsCompletionBatch db ev ops
    → CompletesOrder db ev ops
CompletesOrder-of_batch {db} {ev} ops b = record {
  order_id = b.order_id;
  row = b.row;
  items = b.items;
  t = b.t;
  order = b.order;
  found = b.found;
  open_order = b.open_order;
  listed = b.listed;
  timestamp = b.timestamp;
  zones = λ p z. rw b.written (
      stock-order_batch b.id b.t b.seen (update_order_status "COMPLETED" b.t b.order_id) b.history
        db (settlement b.items no_delta) b.tracks refl b.logged p z);
  updated = rw b.written (
      ap (λ orders. lookup b.order_id orders)
        (orders-order_batch b.id b.t b.seen (update_order_status "COMPLETED" b.t b.order_id)
          b.history db b.logged)
      ∙ row-update b.order_id b.t b.row db (apply_all (seen_writes b.id b.t b.seen) db)
          (orders-seen_writes b.id b.t b.seen db) b.found);
}

RepeatsOrder-of_batch :
    {db : Db} {ev : Fields} (ops : List Statement)
    → IsRepeatBatch db ev ops
    → RepeatsOrder db ev ops
unfolding apply_all
RepeatsOrder-of_batch {db} {ev} ops b = record {
  order_id = b.order_id;
  row = b.row;
  order = b.order;
  found = b.found;
  completed = b.completed;
  zones = λ p z. rw b.written (stock-log b.history db p z (is_log_of_history b.history b.logged));
  orders = rw b.written (orders-history b.history db b.logged);
}

completes_or_repeats :
    {db : Db} {ev : Fields} (ops : List Statement)
    → IsCompletion db ev ops
    → CompletesOrder db ev ops ⊎ RepeatsOrder db ev ops
completes_or_repeats ops (first b) = inl (CompletesOrder-of_batch ops b)
completes_or_repeats ops (again b) = inr (RepeatsOrder-of_batch ops b)

-- A completion that is written takes from what is reserved in each zone the sum of what the items of
-- the order hold there, changes no available quantity, and sets the order's status; or the order was
-- completed already, and no zone and no order changes.
pub handle_order_completed_once :
    (cass : Session) (ev : Fields) (ops : List Statement)
    → handle_order_completed cass ev ≡ ok (batch ops)
    → CompletesOrder cass.db ev ops ⊎ RepeatsOrder cass.db ev ops
handle_order_completed_once cass ev ops e =
    completes_or_repeats ops ((handle_order_completed-writes cass ev).at (batch ops) e)

add_at_cancel :
    (p' z' p z : String) (q : ℤ) (d e : Delta)
    → add_at p' z' (pos 0 -ℤ q) d p z +ℤ add_at p' z' q e p z ≡ d p z +ℤ e p z
add_at_cancel p' z' p z q d e = elim (Bool-cases (same_key (p, z) (p', z'))) [
  | inl same ↦ rw same (omega int_laws)
  | inr differ ↦ rw differ
]

pub as_int-str : (q : ℤ) → as_int (text (str q)) ≡ ok q
unfolding as_int
as_int-str q = rw (int-str q, as_int)

settlement-store_line :
    (l : OrderLine) (rest : List OrderItem) (d : Delta)
    → settlement (store_line (ok l) rest) d
      ≡ settlement rest (add_at l.pid l.zid (pos 0 -ℤ l.qty) d)
settlement-store_line l rest d =
    ap
      (λ r.
        settlement rest
          (take_amount r (record { product_id = l.pid; zone_id = l.zid; quantity = str l.qty }) d))
      (as_int-str l.qty)

-- What the stored items of an order take back is what its items have asked for.
pub settlement-stored :
    (items : Items) (d e : Delta) (p z : String)
    → settlement (stored items) d p z +ℤ demand items e p z ≡ d p z +ℤ e p z
settlement-stored nil d e p z = refl
settlement-stored (cons it rest) d e p z = elim (Result-cases (order_line it)) [
  | inl (l, el) ↦ rw el (
      ap (λ (f : Delta). f p z +ℤ demand rest (add_line (ok l) e) p z)
        (settlement-store_line l (stored rest) d)
      ∙ settlement-stored rest (add_at l.pid l.zid (pos 0 -ℤ l.qty) d) (add_at l.pid l.zid l.qty e)
          p z
      ∙ add_at_cancel l.pid l.zid p z l.qty d e)
  | inr (x, ex) ↦ rw ex (settlement-stored rest d e p z)
]
