-- ===== src/Handlers/Changes/Orders.antt =====
-- What the writes of the zones of an order, and its two further statements, do to the stock.
use service_oriented_archite.Base.{
  ℕ, String, ◌≡◌, refl, Option, none, some, [], ◌∷◌, ◌++◌, arith, string_eq, pair_eq, true, ◌⊎◌,
  inl, inr,
}
use service_oriented_archite.Base.Int.{ℤ, ◌+ℤ◌, +ℤ-zero}
use service_oriented_archite.Base.Table.{lookup}
use service_oriented_archite.Cassandra.Tables.{Db, Statement, apply_all, apply}
use service_oriented_archite.Handlers.Zone.{ZoneState, zone_writes}
use service_oriented_archite.Cassandra.Reordered.{apply_all-append}
use service_oriented_archite.Handlers.Sound.{stock, is_log, is_history, is_log_of_history}
use service_oriented_archite.Handlers.Stock.{stock-log}
use service_oriented_archite.Handlers.Effects.Walks.{
  Delta, Tracks, Tracked, after_writes, stock-seen_writes,
}
use service_oriented_archite.Handlers.Orders.{Seen, seen_writes}

-- Available and reserved quantities after a change of what is reserved.
abbrev pub ReservedBy : ℤ → ZoneState → ZoneState → Type 0
ReservedBy d s s' = (s'.available ≡ s.available) × (s'.reserved ≡ s.reserved +ℤ d)

ReservedBy-after_writes :
    (id : String) (t : ℕ) (s : ZoneState) (d : ℤ) (o : Option ZoneState)
    → Tracked s t d o
    → ReservedBy d s (after_writes id t o s)
ReservedBy-after_writes id t s d none h = ground (arith, +ℤ-zero s.reserved)
ReservedBy-after_writes id t s d (some s') h = ground arith

-- The time of a zone is that of the event, or as it was.
abbrev pub IsStamped : ℕ → ZoneState → ZoneState → Type 0
IsStamped t s s' = (s'.last_ts ≡ some t) ⊎ (s'.last_ts ≡ s.last_ts)

IsStamped-after_writes :
    (id : String) (t : ℕ) (s : ZoneState) (o : Option ZoneState)
    → IsStamped t s (after_writes id t o s)
IsStamped-after_writes id t s none = inr refl
IsStamped-after_writes id t s (some s') = inl refl

module _ (id : String) (t : ℕ) (seen : Seen) (o h : Statement) (db : Db) (delta : Delta)
    (tracks : Tracks db t delta seen) (lo : is_log o ≡ true) (lh : is_history h ≡ true)
    (p z : String) where
  order_batch-after_writes :
      stock (apply_all (seen_writes id t seen ++ o ∷ h ∷ []) db) p z
      ≡ after_writes id t (lookup (p, z) seen) (stock db p z)
  unfolding apply_all
  order_batch-after_writes = rw (
    apply_all-append (seen_writes id t seen) (o ∷ h ∷ []) db,
    stock-log h (apply o (apply_all (seen_writes id t seen) db)) p z (is_log_of_history h lh),
    stock-log o (apply_all (seen_writes id t seen) db) p z lo,
    stock-seen_writes id t seen db p z tracks.keys,
  )

  pub stock-order_batch :
      ReservedBy
        (delta p z)
        (stock db p z)
        (stock (apply_all (seen_writes id t seen ++ o ∷ h ∷ []) db) p z)
  stock-order_batch =
      rw order_batch-after_writes (
        ReservedBy-after_writes id t (stock db p z) (delta p z) (lookup (p, z) seen)
          (tracks.at p z))

  pub stamps-order_batch :
      IsStamped t (stock db p z) (stock (apply_all (seen_writes id t seen ++ o ∷ h ∷ []) db) p z)
  stamps-order_batch =
      rw order_batch-after_writes (IsStamped-after_writes id t (stock db p z) (lookup (p, z) seen))

-- The orders after the writes of the zones are those before.
pub orders-seen_writes :
    (id : String) (t : ℕ) (seen : Seen) (db : Db)
    → (apply_all (seen_writes id t seen) db).orders ≡ db.orders
unfolding seen_writes apply_all apply zone_writes
orders-seen_writes id t [] db = refl
orders-seen_writes id t (((p, z), s) ∷ seen) db =
    rw
      (apply_all-append (zone_writes p z s.available s.reserved id t s.supplier_id)
        (seen_writes id t seen) db)
      (orders-seen_writes id t seen
        (apply_all (zone_writes p z s.available s.reserved id t s.supplier_id) db))

pub orders-history :
    (h : Statement) (db : Db) → is_history h ≡ true → (apply h db).orders ≡ db.orders
unfolding apply
orders-history h db k = ground arith

-- Only the statement on the order changes the orders.
pub orders-order_batch :
    (id : String) (t : ℕ) (seen : Seen) (o h : Statement) (db : Db)
    → is_history h ≡ true
    → (apply_all (seen_writes id t seen ++ o ∷ h ∷ []) db).orders
      ≡ (apply o (apply_all (seen_writes id t seen) db)).orders
unfolding apply_all
orders-order_batch id t seen o h db k = rw (
  apply_all-append (seen_writes id t seen) (o ∷ h ∷ []) db,
  orders-history h (apply o (apply_all (seen_writes id t seen) db)) k,
)
