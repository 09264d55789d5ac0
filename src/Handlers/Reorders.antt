-- ===== src/Handlers/Reorders.antt =====
-- The order in which the statements of a batch of hm6/consumer/handlers.py take effect.
use mathlib.Core.List.{Permᴰ}
use service_oriented_archite.Base.{
  ℕ, String, ◌≡◌, ◌≢◌, refl, sym, subst, ◌∙◌, true, Option, some, List, [], ◌∷◌, ◌++◌, string_eq,
  pair_eq,
}
use service_oriented_archite.Base.Int.{ℤ}
use service_oriented_archite.Base.Table.{NodupKeys}
use service_oriented_archite.Python.Exception.{ok}
use service_oriented_archite.Python.Ensures.{Ensures, Ensures-mono}
use service_oriented_archite.Python.Value.{Fields}
use service_oriented_archite.Cassandra.Tables.{Db, Statement, update_order_status, apply_all}
use service_oriented_archite.Cassandra.Client.{Session}
use service_oriented_archite.Cassandra.Rows.{order_row, row_of, SameRows}
use service_oriented_archite.Cassandra.Reordered.{RowsDistinct, apply_all-perm}
use service_oriented_archite.Handlers.{Handler, find_handler}
use service_oriented_archite.Handlers.Dispatch.{find_handler-cases}
use service_oriented_archite.Handlers.Zone.{batch, zone_writes}
use service_oriented_archite.Handlers.Sound.{is_history, IsSound}
use service_oriented_archite.Handlers.Once.{
  NoStock, history-Untouched, order_row-apart, zone_writes-RowsDistinct, zone_writes-Untouched,
  seen_writes-RowsDistinct,
}
use service_oriented_archite.Handlers.Effects.{Change, IsZoneBatch, OnBatch}
use service_oriented_archite.Handlers.Effects.OneZone.{
  handle_product_received-writes, handle_product_shipped-writes, handle_product_reserved-writes,
  handle_product_released-writes, handle_inventory_counted-writes,
}
use service_oriented_archite.Handlers.Effects.Moved.{IsMoveBatch, handle_product_moved-writes}
use service_oriented_archite.Handlers.Effects.Created.{IsOrderBatch, handle_order_created-writes}
use service_oriented_archite.Handlers.Effects.Completed.{
  IsCompletion, first, again, handle_order_completed-writes,
}
use service_oriented_archite.Handlers.Keeps.{OnBatch-mono}
use service_oriented_archite.Handlers.Products.{
  handle_product_received, handle_product_shipped, handle_product_moved, handle_product_reserved,
  handle_product_released, handle_inventory_counted,
}
use service_oriented_archite.Handlers.Orders.{
  Seen, seen_writes, handle_order_created, handle_order_completed,
}

pub zone_batch-RowsDistinct :
    {key : String} {change : Change} {db : Db} {ev : Fields} (ops : List Statement)
    → IsZoneBatch key change db ev ops
    → RowsDistinct ops
zone_batch-RowsDistinct ops b = subst RowsDistinct (sym b.written) (
    zone_writes-RowsDistinct b.p b.z b.a b.r b.id b.t b.supplier (b.history ∷ [])
      (history-Untouched b.history b.p b.z b.logged) (tt, tt))

module _ (p source target : String) (a a' r r' : ℤ) (id : String) (t : ℕ)
    (supplier supplier' : Option String) (h : Statement) where
  moved_zones-RowsDistinct :
      source ≢ target
      → is_history h ≡ true
      → RowsDistinct (
          zone_writes p source a r id t supplier
          ++ (zone_writes p target a' r' id t supplier' ++ h ∷ []))
  moved_zones-RowsDistinct apart k =
      zone_writes-RowsDistinct p source a r id t supplier
        (zone_writes p target a' r' id t supplier' ++ h ∷ [])
        (zone_writes-Untouched p target a' r' id t supplier' (h ∷ []) p source (λ _ e. apart e)
          (history-Untouched h p source k))
        (zone_writes-RowsDistinct p target a' r' id t supplier' (h ∷ [])
          (history-Untouched h p target k) (tt, tt))

move_batch-RowsDistinct :
    {db : Db} {ev : Fields} (ops : List Statement) → IsMoveBatch db ev ops → RowsDistinct ops
move_batch-RowsDistinct ops b =
    subst RowsDistinct (sym b.written) (
      moved_zones-RowsDistinct b.p b.source b.target _ _ _ _ b.id b.t _ _ b.history b.apart
        b.logged)

-- The statements of an order come behind those of the zones.
module _ (order : String) (s h : Statement) (is_order : row_of s ≡ order_row order)
    (logged : is_history h ≡ true) where
  order_rest-RowsDistinct : RowsDistinct (s ∷ h ∷ [])
  order_rest-RowsDistinct = ((λ e. order_row-apart order h logged (sym is_order ∙ e), tt), (tt, tt))

  order_rest-NoStock : NoStock (s ∷ h ∷ [])
  order_rest-NoStock p z =
      let (rows, products, index) = history-Untouched h p z logged in
      ((λ e. cc, rows), (λ e. cc, products), (λ e. cc, index))

  order_statements-RowsDistinct :
      (id : String) (t : ℕ) (seen : Seen)
      → NodupKeys seen
      → RowsDistinct (seen_writes id t seen ++ s ∷ h ∷ [])
  order_statements-RowsDistinct id t seen keys =
      seen_writes-RowsDistinct id t (s ∷ h ∷ []) order_rest-NoStock seen keys
        order_rest-RowsDistinct

order_batch-RowsDistinct :
    {db : Db} {ev : Fields} (ops : List Statement) → IsOrderBatch db ev ops → RowsDistinct ops
unfolding row_of
order_batch-RowsDistinct ops b = subst RowsDistinct (sym b.written) (
    order_statements-RowsDistinct b.order_id _ b.history refl b.logged b.id b.t b.seen
      b.tracks.keys)

completion-RowsDistinct :
    {db : Db} {ev : Fields} (ops : List Statement) → IsCompletion db ev ops → RowsDistinct ops
unfolding row_of
completion-RowsDistinct ops (first b) = subst RowsDistinct (sym b.written) (
    order_statements-RowsDistinct b.order_id (update_order_status "COMPLETED" b.t b.order_id)
      b.history refl b.logged b.id b.t b.seen b.tracks.keys)
completion-RowsDistinct ops (again b) = subst RowsDistinct (sym b.written) (tt, tt)

-- What every entry of `HANDLERS` satisfies: a batch writes each row once.
abbrev WritesOnce : Handler → Type 0
WritesOnce handler =
    (cass : Session) (ev : Fields)
    → IsSound cass.db
    → Ensures (OnBatch RowsDistinct) (handler cass ev)

received : WritesOnce handle_product_received
received cass ev _ =
    Ensures-mono _ (OnBatch-mono zone_batch-RowsDistinct) (handle_product_received-writes cass ev)

shipped : WritesOnce handle_product_shipped
shipped cass ev _ =
    Ensures-mono _ (OnBatch-mono zone_batch-RowsDistinct) (handle_product_shipped-writes cass ev)

moved : WritesOnce handle_product_moved
moved cass ev _ =
    Ensures-mono _ (OnBatch-mono move_batch-RowsDistinct) (handle_product_moved-writes cass ev)

reserved : WritesOnce handle_product_reserved
reserved cass ev _ =
    Ensures-mono _ (OnBatch-mono zone_batch-RowsDistinct) (handle_product_reserved-writes cass ev)

released : WritesOnce handle_product_released
released cass ev _ =
    Ensures-mono _ (OnBatch-mono zone_batch-RowsDistinct) (handle_product_released-writes cass ev)

counted : WritesOnce handle_inventory_counted
counted cass ev _ =
    Ensures-mono _ (OnBatch-mono zone_batch-RowsDistinct) (handle_inventory_counted-writes cass ev)

created : WritesOnce handle_order_created
created cass ev sound =
    Ensures-mono _ (OnBatch-mono order_batch-RowsDistinct)
      (handle_order_created-writes cass ev sound)

completed : WritesOnce handle_order_completed
completed cass ev _ =
    Ensures-mono _ (OnBatch-mono completion-RowsDistinct) (handle_order_completed-writes cass ev)

find_handler-WritesOnce :
    (event_type : String) (handler : Handler)
    → find_handler event_type ≡ some handler
    → WritesOnce handler
find_handler-WritesOnce event_type handler e =
    find_handler-cases WritesOnce received shipped moved reserved released counted created completed
      event_type handler e

-- From tables whose stock is sound, the batch that a handler returns leaves the same rows in whatever order
-- its statements are applied, to any tables.
pub find_handler-reorders :
    (event_type : String) (handler : Handler)
    → find_handler event_type ≡ some handler
    → (cass : Session) (ev : Fields) → IsSound cass.db
    → (ops : List Statement) → handler cass ev ≡ ok (batch ops)
    → (ops' : List Statement) → Permᴰ ops ops'
    → (db : Db) → SameRows (apply_all ops db) (apply_all ops' db)
find_handler-reorders event_type handler e cass ev sound ops h ops' p db =
    apply_all-perm p ((find_handler-WritesOnce event_type handler e cass ev sound).at (batch ops) h)
      db
