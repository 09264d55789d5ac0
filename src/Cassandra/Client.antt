-- ===== src/Cassandra/Client.antt =====
-- `CassandraClient` of hm6/consumer/cassandra_client.py: reads, the conditional mark, and the batch.
use service_oriented_archite.Base.{
  ℕ, String, Bool, true, false, not, Option, List, [], ◌∷◌, string_eq, pair_eq, if◌then◌else◌,
}
use service_oriented_archite.Base.Table.{lookup, contains}
use service_oriented_archite.Python.Exception.{Result, ok, raise, fault, unavailable}
use service_oriented_archite.Cassandra.Tables.{
  Db, ZoneRow, OrderRow, Statement, mark_event, apply_all,
}

-- What becomes of a write: it is applied and answered, it is not applied and the call raises, or
-- it is applied and the call raises (a lost answer).
pub data Delivery : Type 0 where
  answered refused lost : Delivery

-- A session as a handler sees it: the tables, and which reads are answered.
pub record Session : Type 0 where
  pub db : Db
  pub zone_answers : String → String → Bool
  pub order_answers : String → Bool

unfoldable pub get_zone_state : Session → String → String → Result (Option ZoneRow)
get_zone_state cass product zone =
    if cass.zone_answers product zone
    then ok (lookup (product, zone) cass.db.inventory_by_product_zone)
    else raise (fault unavailable)

unfoldable pub get_order : Session → String → Result (Option OrderRow)
get_order cass order =
    if cass.order_answers order then ok (lookup order cass.db.orders) else raise (fault unavailable)

unfoldable pub is_event_processed : String → Db → Bool
is_event_processed event_id db = contains event_id db.processed_events

-- `session.execute` of a write.
unfoldable pub execute : Delivery → List Statement → Db → Result (Unit {0}) × Db
execute answered statements db = (ok tt, apply_all statements db)
execute refused statements db = (raise (fault unavailable), db)
execute lost statements db = (raise (fault unavailable), apply_all statements db)

-- `mark_event_if_new`: the answer is the column [applied] of the conditional insert.
unfoldable pub mark_event_if_new : Delivery → String → String → ℕ → ℕ → ℕ → Db → Result Bool × Db
unfolding execute is_event_processed
mark_event_if_new delivery event_id event_type processed_at partition offset db =
    let (r, db') =
      execute delivery (mark_event event_id event_type processed_at partition offset ∷ []) db in
    (elim r [ ok _ ↦ ok (not (is_event_processed event_id db)) | raise e ↦ raise e ], db')

abbrev is_mark : Statement → Bool
is_mark (mark_event _ _ _ _ _) = true
is_mark _ = false

-- A mark is never put into a batch.
unfoldable pub batched : List Statement → List Statement
batched [] = []
batched (s ∷ rest) = let more = batched rest in if is_mark s then more else s ∷ more

-- An empty batch is not sent.
unfoldable pub execute_batch : Delivery → List Statement → Db → Result (Unit {0}) × Db
unfolding batched execute
execute_batch delivery statements db = elim (batched statements) [
  | [] ↦ (ok tt, db)
  | s ∷ rest ↦ execute delivery (s ∷ rest) db
]
