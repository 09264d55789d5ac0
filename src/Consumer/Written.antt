-- ===== src/Consumer/Written.antt =====
-- What an event that is new and accepted leaves behind in hm6/consumer/main.py, when its mark and its
-- batch are answered.
use service_oriented_archite.Base.{
  ℕ, String, ◌≡◌, ◌≢◌, refl, sym, ◌∙◌, true, false, some, List, [], ◌∷◌, ◌||◌, ◌==◌, string_eq,
  pair_eq, arith,
}
use service_oriented_archite.Base.Table.{lookup-insert, contains}
use service_oriented_archite.Python.Exception.{ok}
use service_oriented_archite.Python.Value.{Fields}
use service_oriented_archite.Cassandra.Tables.{
  Db, Statement, upsert_zone, upsert_product, upsert_zone_idx, mark_event, upsert_order,
  update_order_status, insert_history, apply, apply_all,
}
use service_oriented_archite.Cassandra.Client.{answered, is_event_processed, batched}
use service_oriented_archite.Handlers.{Handler, find_handler}
use service_oriented_archite.Handlers.Zone.{batch}
use service_oriented_archite.Handlers.Sound.{stock}
use service_oriented_archite.Consumer.World.{Message, World, Env, returned}
use service_oriented_archite.Consumer.Deserialize.{Avro, deserialize}
use service_oriented_archite.Consumer.Process.{
  commit_offset, after_batch, session, id_of, type_of, process_one,
}
use service_oriented_archite.Consumer.Redelivery.{with_mark, process_one-written}
use service_oriented_archite.Consumer.Safety.{is_event_processed-mark_event}

-- The zones of a database are those of another one.
abbrev pub SameZones : Db → Db → Type 0
SameZones a b = a.inventory_by_product_zone ≡ b.inventory_by_product_zone

SameZones-apply : (s : Statement) (a b : Db) → SameZones a b → SameZones (apply s a) (apply s b)
unfolding apply
SameZones-apply (upsert_zone p z a r id t supplier) x y h = rw h refl
SameZones-apply (upsert_product p z a r t) x y h = h
SameZones-apply (upsert_zone_idx z p a r t) x y h = h
SameZones-apply (mark_event id type at partition offset) x y h = ground arith
SameZones-apply (upsert_order order status items created updated) x y h = h
SameZones-apply (update_order_status status at order) x y h = h
SameZones-apply (insert_history day at id type p z q payload) x y h = h

pub SameZones-mark :
    (id type : String) (at partition offset : ℕ) (a b : Db)
    → SameZones a b
    → SameZones a (apply (mark_event id type at partition offset) b)
unfolding apply
SameZones-mark id type at partition offset a b h = ground arith

-- Without its marks a batch leaves the same zones.
pub SameZones-batched :
    (ops : List Statement) (a b : Db)
    → SameZones a b
    → SameZones (apply_all (batched ops) a) (apply_all ops b)
unfolding batched apply_all
SameZones-batched [] a b h = h
SameZones-batched (mark_event id type at partition offset ∷ rest) a b h =
    SameZones-batched rest a (apply (mark_event id type at partition offset) b)
      (SameZones-mark id type at partition offset a b h)
SameZones-batched (upsert_zone p z x r id t supplier ∷ rest) a b h =
    SameZones-batched rest _ _ (SameZones-apply (upsert_zone p z x r id t supplier) a b h)
SameZones-batched (upsert_product p z x r t ∷ rest) a b h =
    SameZones-batched rest _ _ (SameZones-apply (upsert_product p z x r t) a b h)
SameZones-batched (upsert_zone_idx z p x r t ∷ rest) a b h =
    SameZones-batched rest _ _ (SameZones-apply (upsert_zone_idx z p x r t) a b h)
SameZones-batched (upsert_order order status items created updated ∷ rest) a b h =
    SameZones-batched rest _ _
      (SameZones-apply (upsert_order order status items created updated) a b h)
SameZones-batched (update_order_status status at order ∷ rest) a b h =
    SameZones-batched rest _ _ (SameZones-apply (update_order_status status at order) a b h)
SameZones-batched (insert_history day at id type p z q payload ∷ rest) a b h =
    SameZones-batched rest _ _ (SameZones-apply (insert_history day at id type p z q payload) a b h)

-- Only a mark marks.
is_event_processed-batched :
    (id : String) (ops : List Statement) (db : Db)
    → is_event_processed id (apply_all (batched ops) db) ≡ is_event_processed id db
unfolding batched apply_all apply is_event_processed
is_event_processed-batched id [] db = refl
is_event_processed-batched id (mark_event _ _ _ _ _ ∷ rest) db =
    is_event_processed-batched id rest db
is_event_processed-batched id (upsert_zone p z x r e t supplier ∷ rest) db =
    is_event_processed-batched id rest (apply (upsert_zone p z x r e t supplier) db)
is_event_processed-batched id (upsert_product p z x r t ∷ rest) db =
    is_event_processed-batched id rest (apply (upsert_product p z x r t) db)
is_event_processed-batched id (upsert_zone_idx z p x r t ∷ rest) db =
    is_event_processed-batched id rest (apply (upsert_zone_idx z p x r t) db)
is_event_processed-batched id (upsert_order order status items created updated ∷ rest) db =
    is_event_processed-batched id rest (apply (upsert_order order status items created updated) db)
is_event_processed-batched id (update_order_status status at order ∷ rest) db =
    is_event_processed-batched id rest (apply (update_order_status status at order) db)
is_event_processed-batched id (insert_history day at e type p z q payload ∷ rest) db =
    is_event_processed-batched id rest (apply (insert_history day at e type p z q payload) db)

is_event_processed-mark_other :
    (id id' type : String) (at partition offset : ℕ) (db : Db)
    → id ≢ id'
    → is_event_processed id (apply (mark_event id' type at partition offset) db)
      ≡ is_event_processed id db
unfolding is_event_processed apply contains
is_event_processed-mark_other id id' type at partition offset db h = grind (arith, lookup-insert)

-- The zones are those that the batch leaves, the event and no other is marked, and its offset is
-- offered for commit.
pub record IsWritten (env : Env) (msg : Message) (ev : Fields) (ops : List Statement) (w w' : World)
    : Type 0 where
  pub zones : (p z : String) → stock w'.db p z ≡ stock (apply_all ops w.db) p z
  pub marked : is_event_processed (id_of ev) w'.db ≡ true
  pub others :
      (id : String) → id ≢ id_of ev → is_event_processed id w'.db ≡ is_event_processed id w.db
  pub letters : w'.letters ≡ w.letters
  pub commits : w'.commits ≡ (commit_offset env msg w).commits

module _ (avro : Avro) (env : Env) (msg : Message) (w : World) (ev : Fields) (handler : Handler)
    (ops : List Statement) (decoded : deserialize avro msg.value msg.topic ≡ ok ev)
    (named : (id_of ev == "" || type_of ev == "") ≡ false)
    (found : find_handler (type_of ev) ≡ some handler)
    (wrote : handler (session env w) ev ≡ ok (batch ops))
    (unseen : is_event_processed (id_of ev) w.db ≡ false) (mark : env.mark ≡ answered)
    (sent : env.batch ≡ answered) where
  abbrev tables : Db
  tables = apply_all (batched ops) (with_mark env msg ev w.db)

  zones_kept : SameZones tables (apply_all ops w.db)
  zones_kept = SameZones-batched ops _ w.db (sym (SameZones-mark _ _ _ _ _ w.db w.db refl))

  -- A new event that a handler accepts is written: the function returns, the zones are those that the
  -- batch leaves, the event and no other is marked, there is no letter, and the offset is offered for
  -- commit.
  pub process_one-IsWritten :
      (w' : World) × (process_one avro env msg w ≡ (w', returned)) × IsWritten env msg ev ops w w'
  unfolding after_batch commit_offset
  process_one-IsWritten = (
    _,
    process_one-written avro env msg w ev handler ops decoded named found wrote unseen mark sent,
    record {
      zones = λ p z. rw zones_kept refl;
      marked =
          is_event_processed-batched (id_of ev) ops _
          ∙ is_event_processed-mark_event (id_of ev) (type_of ev) env.now msg.partition msg.offset
              w.db;
      others = λ id differ.
          is_event_processed-batched id ops _
          ∙ is_event_processed-mark_other id (id_of ev) (type_of ev) env.now msg.partition
              msg.offset w.db differ;
      letters = refl;
      commits = refl;
    },
  )
