-- ===== src/Consumer/EventWrites.antt =====
-- What the consumer of hm6/consumer writes for an event of one zone: its mark, its zone and its history.
use service_oriented_archite.Base.{
  ℕ, String, ◌≡◌, ◌≢◌, refl, true, false, List, [], ◌∷◌, ◌++◌, string_eq, pair_eq, arith, Option,
}
use service_oriented_archite.Base.Int.{ℤ}
use service_oriented_archite.Cassandra.Tables.{
  Statement, upsert_zone, upsert_product, upsert_zone_idx, mark_event, upsert_order,
  update_order_status, insert_history,
}
use service_oriented_archite.Cassandra.Client.{batched}
use service_oriented_archite.Cassandra.Rows.{
  RowKey, zone_row, product_row, index_row, mark_row, history_row, row_of,
}
use service_oriented_archite.Cassandra.Reordered.{NotWritten, RowsDistinct, Disjoint}
use service_oriented_archite.Handlers.Zone.{zone_writes}
use service_oriented_archite.Handlers.Sound.{same_key, is_history}
use service_oriented_archite.Consumer.World.{Message, Env}

-- The statements of an event of one zone: its mark, its zone and its history.
abbrev pub event_writes :
    Env
    → Message
    → String
    → String
    → String
    → String
    → ℤ
    → ℤ
    → String
    → ℕ
    → Option String
    → Statement
    → List Statement
event_writes env msg id type p z a r i t supplier h =
    mark_event id type env.now msg.partition msg.offset
    ∷ (zone_writes p z a r i t supplier ++ h ∷ [])

pub zone_batch-batched :
    (p z : String) (a r : ℤ) (i : String) (t : ℕ) (supplier : Option String) (h : Statement)
    → is_history h ≡ true
    → batched (zone_writes p z a r i t supplier ++ h ∷ [])
      ≡ zone_writes p z a r i t supplier ++ h ∷ []
unfolding batched zone_writes
zone_batch-batched p z a r i t supplier (insert_history day at id type p' z' q payload) k = refl
zone_batch-batched p z a r i t supplier (upsert_zone _ _ _ _ _ _ _) k = cc
zone_batch-batched p z a r i t supplier (upsert_product _ _ _ _ _) k = cc
zone_batch-batched p z a r i t supplier (upsert_zone_idx _ _ _ _ _) k = cc
zone_batch-batched p z a r i t supplier (mark_event _ _ _ _ _) k = cc
zone_batch-batched p z a r i t supplier (upsert_order _ _ _ _ _) k = cc
zone_batch-batched p z a r i t supplier (update_order_status _ _ _) k = cc

module _ (env : Env) (msg : Message) (id type p z : String) (a r : ℤ) (i : String) (t : ℕ)
    (supplier : Option String) (h : Statement) where
  event_writes-apart :
      (k : RowKey)
      → k ≢ mark_row id
      → k ≢ zone_row p z
      → k ≢ product_row p z
      → k ≢ index_row z p
      → k ≢ row_of h
      → NotWritten k (event_writes env msg id type p z a r i t supplier h)
  unfolding zone_writes row_of
  event_writes-apart k m x y v l = (m, (x, (y, (v, (l, tt)))))

  module _ (day at : ℕ) (keyed : row_of h ≡ history_row day at id) where
    pub event_writes-RowsDistinct :
        RowsDistinct (zone_writes p z a r i t supplier ++ h ∷ [])
        → RowsDistinct (event_writes env msg id type p z a r i t supplier h)
    unfolding zone_writes row_of
    event_writes-RowsDistinct distinct =
        (((λ e. cc), ((λ e. cc), ((λ e. cc), ((λ e. cc), tt)))), distinct)

    pub event_writes-Disjoint :
        (env' : Env) (msg' : Message) (id' type' p' z' : String) (a' r' : ℤ) (i' : String) (t' : ℕ)
        (supplier' : Option String) (h' : Statement) (day' at' : ℕ)
        → row_of h' ≡ history_row day' at' id'
        → id ≢ id'
        → same_key (p, z) (p', z') ≡ false
        → Disjoint
            (event_writes env' msg' id' type' p' z' a' r' i' t' supplier' h')
            (event_writes env msg id type p z a r i t supplier h)
    unfolding zone_writes row_of
    event_writes-Disjoint env' msg' id' type' p' z' a' r' i' t' supplier' h' day' at' keyed' ids
          zones =
        (
          event_writes-apart _ (λ e. ids (cc)) (λ e. cc) (λ e. cc) (λ e. cc) (λ e. cc),
          (
            event_writes-apart _ (λ e. cc) (λ e. other (cc) (cc)) (λ e. cc) (λ e. cc) (λ e. cc),
            (
              event_writes-apart _ (λ e. cc) (λ e. cc) (λ e. other (cc) (cc)) (λ e. cc) (λ e. cc),
              (
                event_writes-apart _ (λ e. cc) (λ e. cc) (λ e. cc) (λ e. other (cc) (cc)) (λ e. cc),
                (event_writes-apart _ (λ e. cc) (λ e. cc) (λ e. cc) (λ e. cc) (λ e. ids (cc)), tt),
              ),
            ),
          ),
        )
      where
        other : p ≡ p' → z ≡ z' → ⊥
        other e f = ground arith
