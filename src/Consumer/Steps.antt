-- ===== src/Consumer/Steps.antt =====
-- The steps that a run of the consumer loop of hm6/consumer/main.py is made of.
use service_oriented_archite.Base.{
  String, string_eq, pair_eq, Bool, true, false, [], ◌∷◌, ◌≢◌, ◌⊎◌, Bool-cases, inl, inr, ◌≡◌, refl,
  sym, some, List, arith,
}
use service_oriented_archite.Base.Table.{lookup}
use service_oriented_archite.Python.Exception.{ok}
use service_oriented_archite.Python.Value.{Fields}
use service_oriented_archite.Cassandra.Tables.{
  Db, Statement, upsert_zone, upsert_product, upsert_zone_idx, mark_event, upsert_order,
  update_order_status, insert_history, apply, apply_all,
}
use service_oriented_archite.Cassandra.Client.{Session, batched, is_event_processed}
use service_oriented_archite.Handlers.{Handler, find_handler}
use service_oriented_archite.Handlers.Zone.{batch, zone_state}
use service_oriented_archite.Handlers.Sound.{stock, IsSound}
use service_oriented_archite.Handlers.Inventory.{Effect}
use service_oriented_archite.Consumer.World.{Message, Env}
use service_oriented_archite.Consumer.Deserialize.{Avro, deserialize}
use service_oriented_archite.Consumer.Process.{id_of, type_of}
use service_oriented_archite.Consumer.Loop.{Poll, received}
use service_oriented_archite.Consumer.Outcome.{mark_of}
use service_oriented_archite.Consumer.Safety.{batched-IsStockBatch}
use service_oriented_archite.Consumer.Written.{SameZones, SameZones-mark, SameZones-batched}
use service_oriented_archite.Handlers.Sound.{IsStockBatch}

-- The same stock and the same orders.
pub record SameState (a b : Db) : Type 0 where
  pub zones : stock a ≡ stock b
  pub orders : a.orders ≡ b.orders

abbrev pub Polled : Message → List Poll → Type 0
Polled msg [] = ⊥
Polled msg (received env m ∷ rest) = (msg ≡ m) ⊎ Polled msg rest
Polled msg (_ ∷ rest) = Polled msg rest

-- The event of the id, which a polled message decodes to, takes the tables from one state to another: the
-- batch of the handler of its type, which reads the first of them, has its effect.
pub record Step (avro : Avro) (polls : List Poll) (id : String) (a b : Db) : Type 1 where
  pub msg : Message
  pub ev : Fields
  pub handler : Handler
  pub ops : List Statement
  pub polled : Polled msg polls
  pub decoded : deserialize avro msg.value msg.topic ≡ ok ev
  pub named : id ≡ id_of ev
  pub found : find_handler (type_of ev) ≡ some handler
  pub session : Session
  pub tables : session.db ≡ a
  pub wrote : handler session ev ≡ ok (batch ops)
  pub effect : Effect a ev ops handler
  pub state : SameState (apply_all ops a) b

-- A run of such steps, with the ids of their events, the last one first.
pub data Steps (avro : Avro) (polls : List Poll) (from : Db) : List String → Db → Type 1 where
  start : Steps avro polls from [] from
  same :
      {ids : List String} {b c : Db}
      → Steps avro polls from ids b
      → SameState b c
      → Steps avro polls from ids c
  next :
      {ids : List String} {b c : Db} (id : String)
      → Steps avro polls from ids b
      → Step avro polls id b c
      → Steps avro polls from (id ∷ ids) c

abbrev pub Absent : String → List String → Type 0
Absent id [] = Unit
Absent id (j ∷ rest) = (id ≢ j) × Absent id rest

abbrev pub Distinct : List String → Type 0
Distinct [] = Unit
Distinct (id ∷ rest) = Absent id rest × Distinct rest

-- Whether each of the events is marked as processed.
abbrev pub AllMarked : Bool → List String → Db → Type 0
AllMarked b [] db = Unit
AllMarked b (id ∷ rest) db = (is_event_processed id db ≡ b) × AllMarked b rest db

-- The tables are sound, and reached from others by steps of distinct events, which were not marked there
-- and are marked here.
pub record IsReached (avro : Avro) (polls : List Poll) (from db : Db) : Type 1 where
  pub ids : List String
  pub sound : IsSound db
  pub run : Steps avro polls from ids db
  pub distinct : Distinct ids
  pub new : AllMarked false ids from
  pub marked : AllMarked true ids db
  pub kept : (id : String) → is_event_processed id from ≡ true → is_event_processed id db ≡ true

stock-SameZones : (a b : Db) → SameZones a b → stock a ≡ stock b
stock-SameZones a b h = λ i p z. zone_state (lookup (p, z) (h i))

orders-apply :
    (s : Statement) (a b : Db) → a.orders ≡ b.orders → (apply s a).orders ≡ (apply s b).orders
unfolding apply
orders-apply (upsert_zone p z a r id t supplier) x y h = h
orders-apply (upsert_product p z a r t) x y h = h
orders-apply (upsert_zone_idx z p a r t) x y h = h
orders-apply (mark_event id type at partition offset) x y h = ground arith
orders-apply (upsert_order order status items created updated) x y h = rw h refl
orders-apply (update_order_status status at order) x y h = rw h refl
orders-apply (insert_history day at id type p z q payload) x y h = h

orders-apply_all :
    (ops : List Statement) (a b : Db)
    → a.orders ≡ b.orders
    → (apply_all ops a).orders ≡ (apply_all ops b).orders
unfolding apply_all
orders-apply_all [] a b h = h
orders-apply_all (s ∷ rest) a b h =
    orders-apply_all rest (apply s a) (apply s b) (orders-apply s a b h)

-- A mark changes no zone and no order.
pub SameState-mark :
    (env : Env) (msg : Message) (id type : String) (db : Db)
    → SameState db (mark_of env msg id type db)
unfolding apply
SameState-mark env msg id type db = record {
  zones = stock-SameZones db (mark_of env msg id type db) (SameZones-mark id type _ _ _ db db refl);
  orders = ground arith;
}

-- After its mark a batch leaves the zones and the orders that it leaves without.
pub SameState-batch :
    (env : Env) (msg : Message) (id type : String) (ops : List Statement) (db : Db)
    → IsStockBatch ops
    → SameState (apply_all ops db) (apply_all (batched ops) (mark_of env msg id type db))
SameState-batch env msg id type ops db good =
    let h : SameState db (mark_of env msg id type db) = SameState-mark env msg id type db in
    record {
      zones = sym (
          stock-SameZones (apply_all (batched ops) (mark_of env msg id type db)) (apply_all ops db)
            (SameZones-batched ops (mark_of env msg id type db) db
              (sym (SameZones-mark id type _ _ _ db db refl))));
      orders =
          rw (batched-IsStockBatch good)
            (orders-apply_all ops db (mark_of env msg id type db) h.orders);
    }

pub AllMarked-mono :
    (ids : List String) (a b : Db)
    → ((id : String) → is_event_processed id a ≡ true → is_event_processed id b ≡ true)
    → AllMarked true ids a
    → AllMarked true ids b
AllMarked-mono [] a b more h = tt
AllMarked-mono (id ∷ rest) a b more (h, hs) = (more id h, AllMarked-mono rest a b more hs)

pub unmarked-Absent :
    (id : String) (ids : List String) (db : Db)
    → is_event_processed id db ≡ false
    → AllMarked true ids db
    → Absent id ids
unmarked-Absent id [] db unseen h = tt
unmarked-Absent id (j ∷ rest) db unseen (h, hs) = ((λ e. cc), unmarked-Absent id rest db unseen hs)

-- What is not marked now was not marked before.
pub unmarked_before :
    (id : String) (from db : Db)
    → (is_event_processed id from ≡ true → is_event_processed id db ≡ true)
    → is_event_processed id db ≡ false
    → is_event_processed id from ≡ false
unmarked_before id from db kept unseen = elim (Bool-cases (is_event_processed id from)) [
  | inl before ↦ let after : is_event_processed id db ≡ true = kept before in cc
  | inr new ↦ new
]
