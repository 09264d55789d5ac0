-- ===== src/Handlers/Sound.antt =====
-- The stock that the three inventory tables of hm6/cassandra/schema.cql hold, its invariant, and the
-- batches that keep it.
use mathlib.Core.List.{append_assoc}
use service_oriented_archite.Base.{
  ℕ, String, ◌≡◌, refl, Bool, true, false, Option, none, some, List, [], ◌∷◌, ◌++◌, arith, ◌==◌,
  string_eq, Bool-cases, ◌⊎◌, inl, inr, pair_eq,
}
use service_oriented_archite.Base.Int.{ℤ, pos, ◌≤ℤ◌}
use service_oriented_archite.Base.Table.{lookup, lookup-insert, contains}
use service_oriented_archite.Cassandra.Reordered.{apply_all-append}
use service_oriented_archite.Cassandra.Tables.{
  Db, empty_db, ZoneRow, StockRow, Statement, upsert_zone, upsert_product, upsert_zone_idx,
  mark_event, upsert_order, update_order_status, insert_history, apply, apply_all,
}
use service_oriented_archite.Handlers.Zone.{ZoneState, zone_state, zone_writes}

abbrev pub zone_row : Db → String → String → Option ZoneRow
zone_row db p z = lookup (p, z) db.inventory_by_product_zone

-- What a handler reads of a zone; a missing row is an empty zone.
abbrev pub stock : Db → String → String → ZoneState
stock db p z = zone_state (zone_row db p z)

-- The columns of a zone that the other two tables repeat.
abbrev pub copy : Option ZoneRow → Option StockRow
copy none = none
copy (some row) = some (record {
  available_quantity = row.available_quantity;
  reserved_quantity = row.reserved_quantity;
  last_event_timestamp = row.last_event_timestamp;
})

-- No quantity is negative, and the tables by product and by zone repeat the table of zones.
pub record IsSound (db : Db) : Type 0 where
  pub available : (p z : String) → pos 0 ≤ℤ (stock db p z).available
  pub reserved : (p z : String) → pos 0 ≤ℤ (stock db p z).reserved
  pub by_product : (p z : String) → lookup (p, z) db.inventory_by_product ≡ copy (zone_row db p z)
  pub by_zone : (p z : String) → lookup (z, p) db.inventory_by_zone ≡ copy (zone_row db p z)

-- The statements that write an order or the history.
abbrev pub is_log : Statement → Bool
is_log (upsert_order _ _ _ _ _) = true
is_log (update_order_status _ _ _) = true
is_log (insert_history _ _ _ _ _ _ _ _) = true
is_log _ = false

abbrev pub is_history : Statement → Bool
is_history (insert_history _ _ _ _ _ _ _ _) = true
is_history _ = false

pub is_log_of_history : (h : Statement) → is_history h ≡ true → is_log h ≡ true
is_log_of_history h k = ground arith

-- A batch writes stock only by the three writes of one zone, and never a negative quantity; it
-- holds no mark.
pub data IsStockBatch : List Statement → Type 0 where
  empty : IsStockBatch []
  zone :
      (p z : String) (a r : ℤ) (e : String) (t : ℕ) (supplier : Option String)
      {rest : List Statement}
      → pos 0 ≤ℤ a
      → pos 0 ≤ℤ r
      → IsStockBatch rest
      → IsStockBatch (zone_writes p z a r e t supplier ++ rest)
  log :
      (s : Statement) {rest : List Statement}
      → is_log s ≡ true
      → IsStockBatch rest
      → IsStockBatch (s ∷ rest)

abbrev pub same_key : String × String → String × String → Bool
same_key j k = j == k

same_key_dec : Discrete (String × String)
same_key_dec = pair_eq.dec

pub same_key-cases :
    (j k : String × String) → ((same_key j k ≡ true) × (j ≡ k)) ⊎ (same_key j k ≡ false)
same_key-cases j k = elim (same_key_dec j k) [
  | yes e ↦ inl (ground arith, e)
  | no differ ↦ inr (ground arith)
]

-- Whether two zones are one does not turn on which of product and zone stands first.
pub key_swap : (p z p' z' : String) → same_key (z, p) (z', p') ≡ same_key (p, z) (p', z')
key_swap p z p' z' = ground arith

zone_writes-IsSound :
    (p z : String) (a r : ℤ) (e : String) (t : ℕ) (supplier : Option String) (db : Db)
    → pos 0 ≤ℤ a
    → pos 0 ≤ℤ r
    → IsSound db
    → IsSound (apply_all (zone_writes p z a r e t supplier) db)
unfolding zone_writes apply_all apply zone_state
zone_writes-IsSound p z a r e t supplier db ha hr h = record {
  available = λ p' z'. rw lookup-insert (ground (arith, h.available p' z'));
  reserved = λ p' z'. rw lookup-insert (ground (arith, h.reserved p' z'));
  by_product = λ p' z'. simp lookup-insert (ground (arith, h.by_product p' z'));
  by_zone = λ p' z'. simp (lookup-insert, key_swap) (ground (arith, h.by_zone p' z'));
}

log-IsSound : (s : Statement) (db : Db) → is_log s ≡ true → IsSound db → IsSound (apply s db)
unfolding apply
log-IsSound (upsert_zone p z a r e t supplier) db k h = cc
log-IsSound (upsert_product p z a r t) db k h = cc
log-IsSound (upsert_zone_idx z p a r t) db k h = cc
log-IsSound (mark_event id type at partition offset) db k h = cc
log-IsSound (upsert_order order status items created updated) db k h = record {
  available = h.available;
  reserved = h.reserved;
  by_product = h.by_product;
  by_zone = h.by_zone;
}
log-IsSound _ db k h = record {
  available = h.available;
  reserved = h.reserved;
  by_product = h.by_product;
  by_zone = h.by_zone;
}

pub mark-IsSound :
    (id type : String) (at partition offset : ℕ) (db : Db)
    → IsSound db
    → IsSound (apply (mark_event id type at partition offset) db)
unfolding apply
mark-IsSound id type at partition offset db h =
    elim (Bool-cases (contains id db.processed_events)) [
      | inl old ↦ rw old h
      | inr new ↦ rw new (record {
        available = h.available;
        reserved = h.reserved;
        by_product = h.by_product;
        by_zone = h.by_zone;
      })
    ]

pub apply_all-IsSound :
    {ops : List Statement} → IsStockBatch ops → (db : Db) → IsSound db → IsSound (apply_all ops db)
unfolding apply_all
apply_all-IsSound empty db h = h
apply_all-IsSound (zone p z a r e t supplier {rest} ha hr good) db h =
    rw (apply_all-append (zone_writes p z a r e t supplier) rest db) (
      apply_all-IsSound good (apply_all (zone_writes p z a r e t supplier) db)
        (zone_writes-IsSound p z a r e t supplier db ha hr h))
apply_all-IsSound (log s k good) db h = apply_all-IsSound good (apply s db) (log-IsSound s db k h)

pub empty_db-IsSound : IsSound empty_db
unfolding lookup zone_state
empty_db-IsSound = record {
  available = λ p z. omega arith;
  reserved = λ p z. omega arith;
  by_product = λ p z. refl;
  by_zone = λ p z. refl;
}

pub IsStockBatch-append :
    {xs ys : List Statement} → IsStockBatch xs → IsStockBatch ys → IsStockBatch (xs ++ ys)
IsStockBatch-append empty h = h
IsStockBatch-append {ys = ys} (zone p z a r e t supplier {rest} ha hr good) h =
    rw (append_assoc (zone_writes p z a r e t supplier) rest ys)
      (zone p z a r e t supplier ha hr (IsStockBatch-append good h))
IsStockBatch-append (log s k good) h = log s k (IsStockBatch-append good h)
