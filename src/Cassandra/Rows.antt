-- ===== src/Cassandra/Rows.antt =====
-- The row that each statement of hm6/consumer/cassandra_client.py writes, and tables that hold the same
-- rows in whatever order.
use native.Mathlib.Decide.{ℕ_discrete}
use service_oriented_archite.Base.{
  ℕ, String, ◌≡◌, ◌≢◌, refl, ap, ◌∙◌, Option, none, some, arith, Bool, true, false, string_eq,
  nat_eq, pair_eq, if◌then◌else◌, equal_or_not, ◌⊎◌, inl, inr, Eq, Option-cases,
}
use service_oriented_archite.Base.Table.{Table, lookup, insert, contains, lookup-insert}
use service_oriented_archite.Cassandra.Tables.{
  ZoneRow, StockRow, Mark, OrderRow, HistoryRow, Db, Statement, upsert_zone, upsert_product,
  upsert_zone_idx, mark_event, upsert_order, update_order_status, insert_history, with_status,
  apply,
}

-- A primary key, with its table.
pub data RowKey : Type 0 where
  zone_row product_row index_row : String → String → RowKey
  mark_row order_row : String → RowKey
  history_row : ℕ → ℕ → String → RowKey

unfoldable pub row_of : Statement → RowKey
row_of (upsert_zone p z a r id t supplier) = zone_row p z
row_of (upsert_product p z a r t) = product_row p z
row_of (upsert_zone_idx z p a r t) = index_row z p
row_of (mark_event id type at partition offset) = mark_row id
row_of (upsert_order order status items created updated) = order_row order
row_of (update_order_status status at order) = order_row order
row_of (insert_history day at id type p z q payload) = history_row day at id

-- What a table holds under a key.
pub data Cell : Type 0 where
  zone_cell : Option ZoneRow → Cell
  stock_cell : Option StockRow → Cell
  mark_cell : Option Mark → Cell
  order_cell : Option OrderRow → Cell
  history_cell : Option HistoryRow → Cell

pub read : RowKey → Db → Cell
read (zone_row p z) db = zone_cell (lookup (p, z) db.inventory_by_product_zone)
read (product_row p z) db = stock_cell (lookup (p, z) db.inventory_by_product)
read (index_row z p) db = stock_cell (lookup (z, p) db.inventory_by_zone)
read (mark_row id) db = mark_cell (lookup id db.processed_events)
read (order_row order) db = order_cell (lookup order db.orders)
read (history_row day at id) db = history_cell (lookup (day, (at, id)) db.event_history)

-- The same rows in all six tables.
abbrev pub SameRows : Db → Db → Type 0
SameRows a b = (k : RowKey) → read k a ≡ read k b

lookup-insert_other {ℓ κ} :
    {K : Type ℓ} {V : Type κ} ⦃e : Eq K⦄ (j k : K) (v : V) (t : Table K V)
    → j ≢ k
    → lookup j (insert k v t) ≡ lookup j t
lookup-insert_other ⦃e⦄ j k v t h = elim (equal_or_not j k) [
  | inl (same, eq) ↦ absurd (h eq)
  | inr differ ↦ lookup-insert j k v t ∙ rw differ refl
]

lookup-insert_self {ℓ κ} :
    {K : Type ℓ} {V : Type κ} ⦃e : Eq K⦄ (k : K) (v : V) (t : Table K V)
    → lookup k (insert k v t) ≡ some v
lookup-insert_self ⦃e⦄ k v t = elim (equal_or_not k k) [
  | inl (same, eq) ↦ lookup-insert k k v t ∙ rw same refl
  | inr differ ↦ ground arith
]

-- What a statement makes of what its row holds.
pub written : Statement → Cell → Cell
unfolding with_status
written (upsert_zone p z a r id t supplier) cell = zone_cell (
    some (record {
      available_quantity = some a;
      reserved_quantity = some r;
      last_event_id = some id;
      last_event_timestamp = some t;
      supplier_id = supplier;
    }))
written (upsert_product p z a r t) cell = stock_cell (
    some (record {
      available_quantity = some a;
      reserved_quantity = some r;
      last_event_timestamp = some t;
    }))
written (upsert_zone_idx z p a r t) cell = stock_cell (
    some (record {
      available_quantity = some a;
      reserved_quantity = some r;
      last_event_timestamp = some t;
    }))
written (mark_event id type at partition offset) (mark_cell none) =
    mark_cell (
      some
        (record { event_type = type; processed_at = at; partition = partition; offset = offset }))
written (mark_event id type at partition offset) cell = cell
written (upsert_order order status items created updated) cell = order_cell (
    some (record {
      status = some status;
      items = some items;
      created_at = some created;
      updated_at = some updated;
    }))
written (update_order_status status at order) (order_cell o) =
    order_cell (some (with_status status at o))
written (update_order_status status at order) cell = cell
written (insert_history day at id type p z q payload) cell = history_cell (
    some (record {
      event_type = type;
      product_id = p;
      zone_id = z;
      quantity = q;
      payload_json = payload;
    }))

pub read-apply_same :
    (s : Statement) (db : Db) → read (row_of s) (apply s db) ≡ written s (read (row_of s) db)
unfolding read apply row_of written contains
read-apply_same (upsert_zone p z a r id t supplier) db =
    ap zone_cell (lookup-insert_self (p, z) _ _)
read-apply_same (upsert_product p z a r t) db = ap stock_cell (lookup-insert_self (p, z) _ _)
read-apply_same (upsert_zone_idx z p a r t) db = ap stock_cell (lookup-insert_self (z, p) _ _)
read-apply_same (mark_event id type at partition offset) db =
    elim (Option-cases (lookup id db.processed_events)) [
      | inl absent ↦ rw (absent, contains, written) (ap mark_cell (lookup-insert_self id _ _))
      | inr (m, present) ↦ rw (present, contains, written) (ap mark_cell present)
    ]
read-apply_same (upsert_order order status items created updated) db =
    ap order_cell (lookup-insert_self order _ _)
read-apply_same (update_order_status status at order) db =
    ap order_cell (lookup-insert_self order _ _)
read-apply_same (insert_history day at id type p z q payload) db =
    ap history_cell (lookup-insert_self {K = ℕ × (ℕ × String)} (day, (at, id)) _ _)

-- A mark that is there already leaves the tables.
read_unless_marked :
    (b : Bool) (id : String) (k : RowKey) (m : Mark) (db : Db)
    → k ≢ mark_row id
    → read k (if b then db else record db { processed_events = insert id m db.processed_events })
      ≡ read k db
unfolding read
read_unless_marked true id k m db h = refl
read_unless_marked false id (mark_row j) m db h =
    ap mark_cell (lookup-insert_other j id m db.processed_events (λ e. h (ap mark_row e)))
read_unless_marked false id k m db h = refl

-- Every other row stays as it is.
pub read-apply_other :
    (s : Statement) (k : RowKey) (db : Db) → k ≢ row_of s → read k (apply s db) ≡ read k db
unfolding read apply row_of
read-apply_other (upsert_zone p z a r id t supplier) (zone_row p' z') db h =
    ap zone_cell (lookup-insert_other (p', z') (p, z) _ _ (λ e. h (λ i. zone_row (e i).0 (e i).1)))
read-apply_other (upsert_zone p z a r id t supplier) k db h = refl
read-apply_other (upsert_product p z a r t) (product_row p' z') db h =
    ap stock_cell
      (lookup-insert_other (p', z') (p, z) _ _ (λ e. h (λ i. product_row (e i).0 (e i).1)))
read-apply_other (upsert_product p z a r t) k db h = refl
read-apply_other (upsert_zone_idx z p a r t) (index_row z' p') db h =
    ap stock_cell
      (lookup-insert_other (z', p') (z, p) _ _ (λ e. h (λ i. index_row (e i).0 (e i).1)))
read-apply_other (upsert_zone_idx z p a r t) k db h = refl
read-apply_other (mark_event id type at partition offset) k db h =
    read_unless_marked (contains id db.processed_events) id k _ db h
read-apply_other (upsert_order order status items created updated) (order_row other) db h =
    ap order_cell (lookup-insert_other other order _ _ (λ e. h (ap order_row e)))
read-apply_other (upsert_order order status items created updated) k db h = refl
read-apply_other (update_order_status status at order) (order_row other) db h =
    ap order_cell (lookup-insert_other other order _ _ (λ e. h (ap order_row e)))
read-apply_other (update_order_status status at order) k db h = refl
read-apply_other (insert_history day at id type p z q payload) (history_row day' at' id') db h =
    ap history_cell (
      lookup-insert_other {K = ℕ × (ℕ × String)} (day', (at', id')) (day, (at, id)) _ _
        (λ e. h (λ i. history_row (e i).0 (e i).1.0 (e i).1.1)))
read-apply_other (insert_history day at id type p z q payload) k db h = refl

String_discrete : Discrete String
String_discrete = string_eq.dec

RowKey-discrete : Discrete RowKey
RowKey-discrete = hlevel (ℕ_discrete, String_discrete)

pub same_row_or_not : (j k : RowKey) → (j ≡ k) ⊎ (j ≢ k)
same_row_or_not j k = elim (RowKey-discrete j k) [ yes same ↦ inl same | no differ ↦ inr differ ]
