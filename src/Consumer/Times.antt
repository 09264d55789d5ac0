-- ===== src/Consumer/Times.antt =====
-- The event times of the zones while hm6/consumer/main.py `_consume_loop` runs.
use service_oriented_archite.Base.{
  ℕ, String, ◌≡◌, ap, sym, subst, some, Option, List, arith, string_eq, pair_eq, ◌∙◌, [], ◌∷◌,
}
use service_oriented_archite.Base.Table.{lookup, insert}
use service_oriented_archite.Cassandra.Tables.{
  Db, Statement, upsert_zone, upsert_product, upsert_zone_idx, mark_event, apply, apply_all,
}
use service_oriented_archite.Handlers.Zone.{ZoneState, zone_state, batch}
use service_oriented_archite.Handlers.Sound.{stock, IsSound, IsStockBatch, mark-IsSound}
use service_oriented_archite.Handlers.Keeps.{find_handler-KeepsStock}
use service_oriented_archite.Handlers.Newer.{
  NotOlder, NotOlder-refl, NotOlder-trans, Grows, find_handler-KeepsTime,
}
use service_oriented_archite.Consumer.World.{Message, World, Env}
use service_oriented_archite.Consumer.Deserialize.{Avro}
use service_oriented_archite.Consumer.Process.{session}
use service_oriented_archite.Consumer.Loop.{Poll, consume_loop}
use service_oriented_archite.Consumer.Outcome.{unwritten, mark_only, all, mark_of}
use service_oriented_archite.Consumer.Safety.{
  IsKept, Stored-IsSound, batched-IsStockBatch, consume_loop-keeps,
}

-- A mark changes no zone.
mark_event-inventory :
    (id type : String) (at partition offset : ℕ) (db : Db)
    → (apply (mark_event id type at partition offset) db).inventory_by_product_zone
      ≡ db.inventory_by_product_zone
unfolding apply
mark_event-inventory id type at partition offset db = ground arith

-- What a statement makes of the zones depends on the zones alone.
apply-inventory :
    (s : Statement) (db db' : Db)
    → db.inventory_by_product_zone ≡ db'.inventory_by_product_zone
    → (apply s db).inventory_by_product_zone ≡ (apply s db').inventory_by_product_zone
unfolding apply
apply-inventory (upsert_zone p z a r e t supplier) db db' h =
    ap
      (λ table.
        insert (p, z)
          (record {
            available_quantity = some a;
            reserved_quantity = some r;
            last_event_id = some e;
            last_event_timestamp = some t;
            supplier_id = supplier;
          })
          table)
      h
apply-inventory (mark_event id type at partition offset) db db' h =
    mark_event-inventory id type at partition offset db
    ∙ h
    ∙ sym (mark_event-inventory id type at partition offset db')
apply-inventory (upsert_product _ _ _ _ _) db db' h = h
apply-inventory (upsert_zone_idx _ _ _ _ _) db db' h = h
apply-inventory _ db db' h = h

apply_all-inventory :
    (ops : List Statement) (db db' : Db)
    → db.inventory_by_product_zone ≡ db'.inventory_by_product_zone
    → (apply_all ops db).inventory_by_product_zone ≡ (apply_all ops db').inventory_by_product_zone
unfolding apply_all
apply_all-inventory [] db db' h = h
apply_all-inventory (s ∷ rest) db db' h =
    apply_all-inventory rest (apply s db) (apply s db') (apply-inventory s db db' h)

stock-inventory :
    (db db' : Db) (p z : String)
    → db.inventory_by_product_zone ≡ db'.inventory_by_product_zone
    → stock db p z ≡ stock db' p z
stock-inventory db db' p z h = ap (λ table. zone_state (lookup (p, z) table)) h

-- The tables are sound, and a zone has not fallen behind a time.
IsSince : Option ℕ → String → String → Db → Type 0
IsSince o p z db = IsSound db × NotOlder o (stock db p z).last_ts

module _ (o : Option ℕ) (p z : String) (env : Env) (msg : Message) (w : World) where
  IsSince-mark :
      (id type : String) → IsSince o p z w.db → IsSince o p z (mark_of env msg id type w.db)
  unfolding IsSince
  IsSince-mark id type (sound, h) = (
    mark-IsSound id type _ _ _ w.db sound,
    subst (λ (s : ZoneState). NotOlder o s.last_ts)
        (sym (
          stock-inventory (mark_of env msg id type w.db) w.db p z
            (mark_event-inventory id type env.now msg.partition msg.offset w.db)))
        h,
  )

Stored-IsSince : (o : Option ℕ) (p z : String) (avro : Avro) → IsKept avro (IsSince o p z)
unfolding IsSince
Stored-IsSince o p z avro env msg w db h unwritten = h
Stored-IsSince o p z avro env msg w db h (mark_only id type) =
    IsSince-mark o p z env msg w id type h
Stored-IsSince o p z avro env msg w db (sound, h)
      (all id type handler ev ops decoded named typed found wrote unseen) =
    let good : IsStockBatch ops =
      (find_handler-KeepsStock type handler found (session env w) ev sound).at (batch ops) wrote in
    let grows : Grows w.db ops =
      (find_handler-KeepsTime type handler found (session env w) ev sound).at (batch ops) wrote in
    let db' : Db = mark_of env msg id type w.db in
    (
      Stored-IsSound avro env msg w db sound
          (all id type handler ev ops decoded named typed found wrote unseen),
      rw (batched-IsStockBatch good) (
          subst (λ (s : ZoneState). NotOlder o s.last_ts)
            (sym (
              stock-inventory (apply_all ops db') (apply_all ops w.db) p z (
                apply_all-inventory ops db' w.db
                  (mark_event-inventory id type env.now msg.partition msg.offset w.db))))
            (NotOlder-trans o (stock w.db p z).last_ts (stock (apply_all ops w.db) p z).last_ts h
              (grows p z))),
    )

-- From sound tables on, the time of the last event of a zone never goes back, and is never lost,
-- whatever the loop polls and however its requests go.
pub consume_loop-NotOlder :
    (avro : Avro) (polls : List Poll) (w : World) (p z : String)
    → IsSound w.db
    → NotOlder (stock w.db p z).last_ts (stock (consume_loop avro polls w).0.db p z).last_ts
unfolding IsSince
consume_loop-NotOlder avro polls w p z sound =
    (consume_loop-keeps (IsSince (stock w.db p z).last_ts p z) avro
      (Stored-IsSince (stock w.db p z).last_ts p z avro) polls w
      (sound, NotOlder-refl (stock w.db p z).last_ts)).1
