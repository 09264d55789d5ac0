-- ===== src/Handlers/Orders.antt =====
-- `handle_order_created` and `handle_order_completed` of hm6/consumer/handlers.py. Both walk over
-- the items of an order with the dict `seen` of the zones read so far, whose states they change.
use service_oriented_archite.Base.{
  ℕ, String, Bool, true, false, Option, none, some, List, [], ◌∷◌, ◌++◌, ◌==◌, string_eq, pair_eq,
  if◌then◌else◌,
}
use service_oriented_archite.Base.Int.{ℤ, pos, ◌+ℤ◌, ◌-ℤ◌, ltb_ℤ}
use service_oriented_archite.Base.Table.{Table, lookup, insert}
use service_oriented_archite.Python.Exception.{
  Result, ok, raise, validation, fault, type_error, no_items, insufficient_for_item,
  order_not_found, insufficient_to_complete, ◌>>=◌, ◌>>◌, raise_if,
}
use service_oriented_archite.Python.Decimal.{str}
use service_oriented_archite.Python.Value.{
  Value, text, num, null, Items, nil, cons, Fields, put, as_dict, as_int, int_at, text_at, time_at,
  list_at,
}
use service_oriented_archite.Cassandra.Tables.{
  Statement, OrderItem, OrderRow, upsert_order, update_order_status,
}
use service_oriented_archite.Cassandra.Client.{Session, get_order}
use service_oriented_archite.Handlers.Zone.{
  Handled, batch, out_of_order, ZoneState, read_zone, is_stale, validate_quantity, zone_writes,
  history_write,
}

abbrev pub Seen : Type 0
Seen = Table (String × String) ZoneState

-- `if key not in seen: seen[key] = _read_zone(...)`, then `seen[key]`
unfoldable pub seen_zone : Session → String → String → Seen → Result ZoneState
seen_zone cass pid zid seen = elim (lookup (pid, zid) seen) [
  | none ↦ read_zone cass pid zid
  | some s ↦ ok s
]

-- What a walk over the items ends with: the zones seen (and the items to store), or an item that is
-- out of order.
pub data Walk (A : Type 0) : Type 0 where
  done : A → Walk A
  stale : Walk A

-- The next item is looked at only if this one neither raises nor is out of order.
unfoldable pub and_next : {A B : Type 0} → Result (Walk A) → (A → Result (Walk B)) → Result (Walk B)
and_next (raise e) next = raise e
and_next (ok stale) next = ok stale
and_next (ok (done a)) next = next a

-- `if stale: ...; return None` in a loop.
unfoldable pub unless_stale_item : {A : Type 0} → Bool → Result (Walk A) → Result (Walk A)
unless_stale_item true rest = ok stale
unless_stale_item false rest = rest

-- After the loop; a handler has returned None where an item was out of order.
unfoldable pub after_walk : {A : Type 0} → Walk A → (A → Result Handled) → Result Handled
after_walk stale rest = ok out_of_order
after_walk (done a) rest = rest a

pub record OrderLine : Type 0 where
  pub pid : String
  pub zid : String
  pub qty : ℤ

-- `it["product_id"]`, `it["zone_id"]`, `int(it["quantity"])`
unfoldable pub order_line : Value → Result OrderLine
order_line it = do
  d ← as_dict it
  pid ← text_at "product_id" d
  zid ← text_at "zone_id" d
  qty ← int_at "quantity" d
  ok (record { pid = pid; zid = zid; qty = qty })

-- One item of `handle_order_created`.
unfoldable pub reserve_item : Session → ℕ → Value → Seen → Result (Walk (Seen × OrderItem))
reserve_item cass ts it seen = do
  l ← order_line it
  validate_quantity l.qty
  s ← seen_zone cass l.pid l.zid seen
  unless_stale_item (is_stale ts s.last_ts) do
    raise_if (ltb_ℤ s.available l.qty)
        (validation (insufficient_for_item l.pid l.zid s.available l.qty))
    ok (
        done (
          insert (l.pid, l.zid) (record s { reserved = s.reserved +ℤ l.qty }) seen,
          record { product_id = l.pid; zone_id = l.zid; quantity = str l.qty },
        ))

-- The loop of `handle_order_created`, from the zones seen and the items stored so far.
unfoldable pub reserve_items :
    Session → ℕ → Items → Seen → List OrderItem → Result (Walk (Seen × List OrderItem))
reserve_items cass ts nil seen serialized = ok (done (seen, serialized))
reserve_items cass ts (cons it rest) seen serialized =
    and_next (reserve_item cass ts it seen)
      λ (seen', stored). reserve_items cass ts rest seen' (serialized ++ stored ∷ [])

-- `for (pid, zid), s in seen.items(): ops.extend(_zone_writes(...))`
unfoldable pub seen_writes : String → ℕ → Seen → List Statement
seen_writes event_id ts [] = []
seen_writes event_id ts (((pid, zid), s) ∷ rest) =
    zone_writes pid zid s.available s.reserved event_id ts s.supplier_id
    ++ seen_writes event_id ts rest

-- `{**ev, "product_id": None, "zone_id": None, "quantity": 0}`
unfoldable pub order_history : Fields → Fields
order_history ev = put "quantity" (num (pos 0)) (put "zone_id" null (put "product_id" null ev))

abbrev pub is_nil : Items → Bool
is_nil nil = true
is_nil (cons _ _) = false

unfoldable pub handle_order_created : Session → Fields → Result Handled
unfolding order_history
handle_order_created cass ev = do
  order_id ← text_at "order_id" ev
  items ← list_at "items" ev
  ts ← time_at "timestamp" ev
  raise_if (is_nil items) (validation no_items)
  walked ← reserve_items cass ts items [] []
  after_walk walked λ (seen, serialized). do
    event_id ← text_at "event_id" ev
    history ← history_write (order_history ev)
    ok (
        batch (
          seen_writes event_id ts seen
          ++ upsert_order order_id "CREATED" serialized ts ts ∷ history ∷ []))

-- One item of `handle_order_completed`.
unfoldable pub complete_item : Session → ℕ → OrderItem → Seen → Result (Walk Seen)
complete_item cass ts it seen = do
  qty ← as_int (text it.quantity)
  s ← seen_zone cass it.product_id it.zone_id seen
  unless_stale_item (is_stale ts s.last_ts) do
    raise_if (ltb_ℤ s.reserved qty)
        (validation (insufficient_to_complete it.product_id it.zone_id s.reserved qty))
    ok (done (insert (it.product_id, it.zone_id) (record s { reserved = s.reserved -ℤ qty }) seen))

-- The loop of `handle_order_completed`.
unfoldable pub complete_items : Session → ℕ → List OrderItem → Seen → Result (Walk Seen)
complete_items cass ts [] seen = ok (done seen)
complete_items cass ts (it ∷ rest) seen =
    and_next (complete_item cass ts it seen) λ seen'. complete_items cass ts rest seen'

-- `for it in order.items` raises a TypeError where the column is null.
abbrev pub order_items : OrderRow → Result (List OrderItem)
order_items order = elim order.items [ none ↦ raise (fault type_error) | some items ↦ ok items ]

abbrev pub is_completed : OrderRow → Bool
is_completed order = elim order.status [ none ↦ false | some s ↦ s == "COMPLETED" ]

abbrev pub or_not_found : String → Option OrderRow → Result OrderRow
or_not_found order_id none = raise (validation (order_not_found order_id))
or_not_found order_id (some order) = ok order

unfoldable pub handle_order_completed : Session → Fields → Result Handled
unfolding order_history
handle_order_completed cass ev = do
  order_id ← text_at "order_id" ev
  ts ← time_at "timestamp" ev
  found ← get_order cass order_id
  order ← or_not_found order_id found
  if is_completed order
      then (do history ← history_write (order_history ev); ok (batch (history ∷ [])))
      else do
        items ← order_items order
        walked ← complete_items cass ts items []
        after_walk walked λ seen. do
          event_id ← text_at "event_id" ev
          history ← history_write (order_history ev)
          ok (
              batch (
                seen_writes event_id ts seen
                ++ update_order_status "COMPLETED" ts order_id ∷ history ∷ []))
