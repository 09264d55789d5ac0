-- ===== src/Handlers/Keeps.antt =====
-- The batches of the handlers of hm6/consumer/handlers.py and the invariant of the stock.
use service_oriented_archite.Base.{String, ◌≡◌, refl, sym, subst, List, some}
use service_oriented_archite.Base.Int.{ℤ, pos, ◌+ℤ◌, ◌-ℤ◌, ◌≤ℤ◌, int_laws}
use service_oriented_archite.Python.Ensures.{Ensures, Ensures-mono}
use service_oriented_archite.Python.Value.{Fields}
use service_oriented_archite.Cassandra.Tables.{Db, Statement, upsert_order, update_order_status}
use service_oriented_archite.Cassandra.Client.{Session}
use service_oriented_archite.Handlers.{Handler, find_handler}
use service_oriented_archite.Handlers.Dispatch.{find_handler-cases}
use service_oriented_archite.Handlers.Zone.{Handled, ZoneState, batch, out_of_order}
use service_oriented_archite.Handlers.Sound.{
  stock, IsSound, IsStockBatch, empty, zone, log, is_log_of_history, IsStockBatch-append,
}
use service_oriented_archite.Handlers.Effects.{
  Change, Received, Shipped, Reserved, Released, Counted, IsZoneBatch, OnBatch,
}
use service_oriented_archite.Handlers.Effects.OneZone.{
  handle_product_received-writes, handle_product_shipped-writes, handle_product_reserved-writes,
  handle_product_released-writes, handle_inventory_counted-writes,
}
use service_oriented_archite.Handlers.Effects.Moved.{IsMoveBatch, handle_product_moved-writes}
use service_oriented_archite.Handlers.Effects.Walks.{IsNonneg, seen_writes-IsStockBatch}
use service_oriented_archite.Handlers.Effects.Reserve.{demand, stored}
use service_oriented_archite.Handlers.Effects.Created.{
  no_delta, IsOrderBatch, handle_order_created-writes,
}
use service_oriented_archite.Handlers.Effects.Completed.{
  settlement, IsCompletion, first, again, handle_order_completed-writes,
}
use service_oriented_archite.Handlers.Products.{
  handle_product_received, handle_product_shipped, handle_product_moved, handle_product_reserved,
  handle_product_released, handle_inventory_counted,
}
use service_oriented_archite.Handlers.Orders.{handle_order_created, handle_order_completed}

-- A change of a zone that never leaves a negative quantity.
abbrev IsSafe : Change → Type 0
IsSafe change =
    (q : ℤ) (s : ZoneState) (a r : ℤ) → IsNonneg s → change q s a r → (pos 0 ≤ℤ a) × (pos 0 ≤ℤ r)

Received-IsSafe : IsSafe Received
Received-IsSafe q s a r h (hq, ea, er) = (rw ea (omega int_laws), rw er h.1)

Shipped-IsSafe : IsSafe Shipped
Shipped-IsSafe q s a r h (hq, cover, ea, er) = (rw ea (omega int_laws), rw er h.1)

Reserved-IsSafe : IsSafe Reserved
Reserved-IsSafe q s a r h (hq, cover, ea, er) = (rw ea (omega int_laws), rw er (omega int_laws))

Released-IsSafe : IsSafe Released
Released-IsSafe q s a r h (hq, cover, ea, er) = (rw ea (omega int_laws), rw er (omega int_laws))

Counted-IsSafe : IsSafe Counted
Counted-IsSafe q s a r h (hq, ea, er) = (rw ea hq, rw er h.1)

IsNonneg-stock : {db : Db} (p z : String) → IsSound db → IsNonneg (stock db p z)
IsNonneg-stock p z h = (h.available p z, h.reserved p z)

zone_batch-IsStockBatch :
    {key : String} {change : Change} {db : Db} {ev : Fields}
    → IsSafe change
    → IsSound db
    → (ops : List Statement) → IsZoneBatch key change db ev ops
    → IsStockBatch ops
zone_batch-IsStockBatch {db = db} safe sound ops b =
    let (ha, hr) = safe b.q (stock db b.p b.z) b.a b.r (IsNonneg-stock b.p b.z sound) b.changed in
    subst IsStockBatch (sym b.written) (
      zone b.p b.z b.a b.r b.id b.t b.supplier ha hr
        (log b.history (is_log_of_history b.history b.logged) empty))

move_batch-IsStockBatch :
    {db : Db} {ev : Fields}
    → IsSound db
    → (ops : List Statement) → IsMoveBatch db ev ops
    → IsStockBatch ops
move_batch-IsStockBatch {db} sound ops b = subst IsStockBatch (sym b.written) (
    zone b.p b.source ((stock db b.p b.source).available -ℤ b.q) (stock db b.p b.source).reserved
      b.id b.t (stock db b.p b.source).supplier_id (omega (int_laws, b.covered))
      (sound.reserved b.p b.source)
      (zone b.p b.target ((stock db b.p b.target).available +ℤ b.q) (stock db b.p b.target).reserved
        b.id b.t (stock db b.p b.target).supplier_id
        (omega (int_laws, sound.available b.p b.target, b.nonneg)) (sound.reserved b.p b.target)
        (log b.history (is_log_of_history b.history b.logged) empty)))

order_batch-IsStockBatch :
    {db : Db} {ev : Fields}
    → IsSound db
    → (ops : List Statement) → IsOrderBatch db ev ops
    → IsStockBatch ops
order_batch-IsStockBatch {db} sound ops b = subst IsStockBatch (sym b.written) (
    IsStockBatch-append
      (seen_writes-IsStockBatch b.id b.t db (demand b.items no_delta) b.seen sound b.tracks)
      (log (upsert_order b.order_id "CREATED" (stored b.items) b.t b.t) refl
        (log b.history (is_log_of_history b.history b.logged) empty)))

completion-IsStockBatch :
    {db : Db} {ev : Fields}
    → IsSound db
    → (ops : List Statement) → IsCompletion db ev ops
    → IsStockBatch ops
completion-IsStockBatch {db} sound ops (first b) = subst IsStockBatch (sym b.written) (
    IsStockBatch-append
      (seen_writes-IsStockBatch b.id b.t db (settlement b.items no_delta) b.seen sound b.tracks)
      (log (update_order_status "COMPLETED" b.t b.order_id) refl
        (log b.history (is_log_of_history b.history b.logged) empty)))
completion-IsStockBatch sound ops (again b) =
    subst IsStockBatch (sym b.written) (log b.history (is_log_of_history b.history b.logged) empty)

-- What every entry of `HANDLERS` satisfies.
abbrev pub KeepsStock : Handler → Type 0
KeepsStock handler =
    (cass : Session) (ev : Fields)
    → IsSound cass.db
    → Ensures (OnBatch IsStockBatch) (handler cass ev)

pub OnBatch-mono :
    {P Q : List Statement → Type 0}
    → ((ops : List Statement) → P ops → Q ops)
    → (h : Handled) → OnBatch P h
    → OnBatch Q h
OnBatch-mono f (batch ops) h = f ops h
OnBatch-mono f out_of_order h = tt

received : KeepsStock handle_product_received
received cass ev sound =
    Ensures-mono _ (OnBatch-mono (zone_batch-IsStockBatch Received-IsSafe sound))
      (handle_product_received-writes cass ev)

shipped : KeepsStock handle_product_shipped
shipped cass ev sound =
    Ensures-mono _ (OnBatch-mono (zone_batch-IsStockBatch Shipped-IsSafe sound))
      (handle_product_shipped-writes cass ev)

moved : KeepsStock handle_product_moved
moved cass ev sound =
    Ensures-mono _ (OnBatch-mono (move_batch-IsStockBatch sound))
      (handle_product_moved-writes cass ev)

reserved : KeepsStock handle_product_reserved
reserved cass ev sound =
    Ensures-mono _ (OnBatch-mono (zone_batch-IsStockBatch Reserved-IsSafe sound))
      (handle_product_reserved-writes cass ev)

released : KeepsStock handle_product_released
released cass ev sound =
    Ensures-mono _ (OnBatch-mono (zone_batch-IsStockBatch Released-IsSafe sound))
      (handle_product_released-writes cass ev)

counted : KeepsStock handle_inventory_counted
counted cass ev sound =
    Ensures-mono _ (OnBatch-mono (zone_batch-IsStockBatch Counted-IsSafe sound))
      (handle_inventory_counted-writes cass ev)

created : KeepsStock handle_order_created
created cass ev sound =
    Ensures-mono _ (OnBatch-mono (order_batch-IsStockBatch sound))
      (handle_order_created-writes cass ev sound)

completed : KeepsStock handle_order_completed
completed cass ev sound =
    Ensures-mono _ (OnBatch-mono (completion-IsStockBatch sound))
      (handle_order_completed-writes cass ev)

-- Whatever the event type, the handler that is found writes only sound batches.
pub find_handler-KeepsStock :
    (event_type : String) (handler : Handler)
    → find_handler event_type ≡ some handler
    → KeepsStock handler
find_handler-KeepsStock event_type handler e =
    find_handler-cases KeepsStock received shipped moved reserved released counted created completed
      event_type handler e
