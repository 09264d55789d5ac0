-- ===== src/Cassandra/Tables.antt =====
-- The tables of hm6/cassandra/schema.cql, and the statements that
-- hm6/consumer/cassandra_client.py `_prepare_all` prepares to write them.
use service_oriented_archite.Base.{
  ℕ, String, Option, none, some, List, [], ◌∷◌, string_eq, nat_eq, pair_eq, if◌then◌else◌,
}
use service_oriented_archite.Base.Int.{ℤ}
use service_oriented_archite.Base.Table.{Table, lookup, insert, contains}
use service_oriented_archite.Python.Value.{Fields}

-- inventory_by_product_zone; a column is null where no write has set it.
pub record ZoneRow : Type 0 where
  pub available_quantity : Option ℤ
  pub reserved_quantity : Option ℤ
  pub last_event_id : Option String
  pub last_event_timestamp : Option ℕ
  pub supplier_id : Option String

-- inventory_by_product and inventory_by_zone
pub record StockRow : Type 0 where
  pub available_quantity : Option ℤ
  pub reserved_quantity : Option ℤ
  pub last_event_timestamp : Option ℕ

-- processed_events
pub record Mark : Type 0 where
  pub event_type : String
  pub processed_at : ℕ
  pub partition : ℕ
  pub offset : ℕ

-- An element of `orders.items`, a map<text, text> with these three keys.
pub record OrderItem : Type 0 where
  pub product_id : String
  pub zone_id : String
  pub quantity : String

-- orders; an update of a missing order makes a row whose other columns are null.
pub record OrderRow : Type 0 where
  pub status : Option String
  pub items : Option (List OrderItem)
  pub created_at : Option ℕ
  pub updated_at : Option ℕ

-- event_history; the payload is the value whose JSON text is stored.
pub record HistoryRow : Type 0 where
  pub event_type : String
  pub product_id : Option String
  pub zone_id : Option String
  pub quantity : ℤ
  pub payload_json : Fields

pub record Db : Type 0 where
  pub inventory_by_product_zone : Table (String × String) ZoneRow
  pub inventory_by_product : Table (String × String) StockRow
  pub inventory_by_zone : Table (String × String) StockRow
  pub processed_events : Table String Mark
  pub orders : Table String OrderRow
  pub event_history : Table (ℕ × (ℕ × String)) HistoryRow

abbrev pub empty_db : Db
empty_db = record {
  inventory_by_product_zone = [];
  inventory_by_product = [];
  inventory_by_zone = [];
  processed_events = [];
  orders = [];
  event_history = [];
}

-- A prepared statement with its parameters, in the order of the statement's columns.
pub data Statement : Type 0 where
  upsert_zone : String → String → ℤ → ℤ → String → ℕ → Option String → Statement
  upsert_product : String → String → ℤ → ℤ → ℕ → Statement
  upsert_zone_idx : String → String → ℤ → ℤ → ℕ → Statement
  mark_event : String → String → ℕ → ℕ → ℕ → Statement
  upsert_order : String → String → List OrderItem → ℕ → ℕ → Statement
  update_order_status : String → ℕ → String → Statement
  insert_history : ℕ → ℕ → String → String → Option String → Option String → ℤ → Fields → Statement

-- `UPDATE orders SET status=?, updated_at=?`: the other columns stay as they are, or null.
unfoldable pub with_status : String → ℕ → Option OrderRow → OrderRow
with_status status at none = record {
  status = some status;
  items = none;
  created_at = none;
  updated_at = some at;
}
with_status status at (some o) = record o { status = some status; updated_at = some at }

-- What a statement does to the tables.
unfoldable pub apply : Statement → Db → Db
unfolding with_status
apply (upsert_zone product zone available reserved event_id at supplier) db = record db {
  inventory_by_product_zone =
      insert (product, zone)
        (record {
          available_quantity = some available;
          reserved_quantity = some reserved;
          last_event_id = some event_id;
          last_event_timestamp = some at;
          supplier_id = supplier;
        })
        db.inventory_by_product_zone;
}
apply (upsert_product product zone available reserved at) db = record db {
  inventory_by_product =
      insert (product, zone)
        (record {
          available_quantity = some available;
          reserved_quantity = some reserved;
          last_event_timestamp = some at;
        })
        db.inventory_by_product;
}
apply (upsert_zone_idx zone product available reserved at) db = record db {
  inventory_by_zone =
      insert (zone, product)
        (record {
          available_quantity = some available;
          reserved_quantity = some reserved;
          last_event_timestamp = some at;
        })
        db.inventory_by_zone;
}
apply (mark_event event_id event_type at partition offset) db =
    if contains event_id db.processed_events then db else record db {
      processed_events =
          insert event_id
            (record {
              event_type = event_type;
              processed_at = at;
              partition = partition;
              offset = offset;
            })
            db.processed_events;
    }
apply (upsert_order order status items created updated) db = record db {
  orders =
      insert order
        (record {
          status = some status;
          items = some items;
          created_at = some created;
          updated_at = some updated;
        })
        db.orders;
}
apply (update_order_status status at order) db = record db {
  orders = insert order (with_status status at (lookup order db.orders)) db.orders;
}
apply (insert_history day at event_id event_type product zone quantity payload) db = record db {
  event_history =
      insert (day, (at, event_id))
        (record {
          event_type = event_type;
          product_id = product;
          zone_id = zone;
          quantity = quantity;
          payload_json = payload;
        })
        db.event_history;
}

-- The statements of a batch, in their order.
unfoldable pub apply_all : List Statement → Db → Db
apply_all [] db = db
apply_all (s ∷ rest) db = apply_all rest (apply s db)
