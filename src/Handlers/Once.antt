-- ===== src/Handlers/Once.antt =====
-- The rows that a batch of hm6/consumer/handlers.py writes.
use service_oriented_archite.Base.{
  ℕ, String, ◌≡◌, ◌≢◌, true, none, List, [], ◌∷◌, ◌++◌, string_eq, pair_eq, Option,
}
use service_oriented_archite.Base.Int.{ℤ}
use service_oriented_archite.Base.Table.{lookup, NodupKeys, lookup-absent}
use service_oriented_archite.Cassandra.Tables.{
  Statement, upsert_zone, upsert_product, upsert_zone_idx, mark_event, upsert_order,
  update_order_status, insert_history,
}
use service_oriented_archite.Cassandra.Rows.{zone_row, product_row, index_row, order_row, row_of}
use service_oriented_archite.Cassandra.Reordered.{NotWritten, RowsDistinct}
use service_oriented_archite.Handlers.Zone.{zone_writes}
use service_oriented_archite.Handlers.Orders.{Seen, seen_writes}
use service_oriented_archite.Handlers.Sound.{is_history}

-- No statement writes a row of the zone, in any of the three tables of the stock.
abbrev pub Untouched : String → String → List Statement → Type 0
Untouched p z ops =
    NotWritten (zone_row p z) ops
    × NotWritten (product_row p z) ops
    × NotWritten (index_row z p) ops

module _ (p z : String) (a r : ℤ) (id : String) (t : ℕ) (supplier : Option String)
    (rest : List Statement) where
  pub zone_writes-RowsDistinct :
      Untouched p z rest
      → RowsDistinct rest
      → RowsDistinct (zone_writes p z a r id t supplier ++ rest)
  unfolding zone_writes row_of
  zone_writes-RowsDistinct (rows, products, index) h =
      (((λ e. cc), ((λ e. cc), rows)), (((λ e. cc), products), (index, h)))

  pub zone_writes-Untouched :
      (p' z' : String)
      → (p' ≡ p → z' ≡ z → ⊥)
      → Untouched p' z' rest
      → Untouched p' z' (zone_writes p z a r id t supplier ++ rest)
  unfolding zone_writes row_of
  zone_writes-Untouched p' z' differs (rows, products, index) = (
    ((λ e. differs (cc) (cc)), ((λ e. cc), ((λ e. cc), rows))),
    ((λ e. cc), ((λ e. differs (cc) (cc)), ((λ e. cc), products))),
    ((λ e. cc), ((λ e. cc), ((λ e. differs (cc) (cc)), index))),
  )

-- A statement of the history.
pub history-Untouched :
    (h : Statement) (p z : String) → is_history h ≡ true → Untouched p z (h ∷ [])
unfolding row_of
history-Untouched (insert_history day at id type p' z' q payload) p z k =
    (((λ e. cc), tt), ((λ e. cc), tt), ((λ e. cc), tt))
history-Untouched (upsert_zone _ _ _ _ _ _ _) p z k = cc
history-Untouched (upsert_product _ _ _ _ _) p z k = cc
history-Untouched (upsert_zone_idx _ _ _ _ _) p z k = cc
history-Untouched (mark_event _ _ _ _ _) p z k = cc
history-Untouched (upsert_order _ _ _ _ _) p z k = cc
history-Untouched (update_order_status _ _ _) p z k = cc

pub order_row-apart :
    (order : String) (h : Statement) → is_history h ≡ true → order_row order ≢ row_of h
unfolding row_of
order_row-apart order (insert_history day at id type p' z' q payload) k e = cc
order_row-apart order (upsert_zone _ _ _ _ _ _ _) k e = cc
order_row-apart order (upsert_product _ _ _ _ _) k e = cc
order_row-apart order (upsert_zone_idx _ _ _ _ _) k e = cc
order_row-apart order (mark_event _ _ _ _ _) k e = cc
order_row-apart order (upsert_order _ _ _ _ _) k e = cc
order_row-apart order (update_order_status _ _ _) k e = cc

-- The statements behind the zones of a walk write no stock.
abbrev pub NoStock : List Statement → Type 0
NoStock rest = (p z : String) → Untouched p z rest

module _ (id : String) (t : ℕ) (rest : List Statement) (no_stock : NoStock rest) where
  seen_writes-Untouched :
      (p z : String) (seen : Seen)
      → lookup (p, z) seen ≡ none
      → Untouched p z (seen_writes id t seen ++ rest)
  unfolding seen_writes zone_writes
  seen_writes-Untouched p z [] h = no_stock p z
  seen_writes-Untouched p z (((p', z'), s) ∷ more) h =
      zone_writes-Untouched p' z' s.available s.reserved id t s.supplier_id
        (seen_writes id t more ++ rest) p z
        (λ d e. (lookup-absent (p, z) (p', z') s more h).0 (λ i. (d i, e i)))
        (seen_writes-Untouched p z more (lookup-absent (p, z) (p', z') s more h).1)

  pub seen_writes-RowsDistinct :
      (seen : Seen)
      → NodupKeys seen
      → RowsDistinct rest
      → RowsDistinct (seen_writes id t seen ++ rest)
  unfolding seen_writes zone_writes
  seen_writes-RowsDistinct [] keys h = h
  seen_writes-RowsDistinct (((p, z), s) ∷ more) (fresh, keys) h =
      zone_writes-RowsDistinct p z s.available s.reserved id t s.supplier_id
        (seen_writes id t more ++ rest) (seen_writes-Untouched p z more fresh)
        (seen_writes-RowsDistinct more keys h)
