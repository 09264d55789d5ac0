-- ===== src/Publisher/Consumed.antt =====
-- How hm6/consumer/main.py processes an event of the demo of hm6/producer/main.py when every request
-- is answered.
use service_oriented_archite.Base.{
  ℕ, String, ◌≡◌, ◌≢◌, refl, ◌∙◌, true, false, some, List, string_eq, pair_eq, ◌==◌,
}
use service_oriented_archite.Base.Int.{ℤ, ◌+ℤ◌, ◌-ℤ◌}
use service_oriented_archite.Python.Exception.{Result, ok}
use service_oriented_archite.Python.Value.{Fields, int_at, text_at, time_at}
use service_oriented_archite.Cassandra.Tables.{Db, Statement, apply_all}
use service_oriented_archite.Cassandra.Client.{answered, is_event_processed}
use service_oriented_archite.Handlers.{Handler, find_handler}
use service_oriented_archite.Handlers.Zone.{batch}
use service_oriented_archite.Handlers.Sound.{stock, same_key}
use service_oriented_archite.Handlers.Effects.{Change}
use service_oriented_archite.Handlers.Changes.{ChangesZone}
use service_oriented_archite.Handlers.Changes.Move.{MovesStock}
use service_oriented_archite.Handlers.Accepts.{WritesZone}
use service_oriented_archite.Consumer.World.{Message, World, Env, returned}
use service_oriented_archite.Consumer.Deserialize.{Avro, deserialize}
use service_oriented_archite.Consumer.Process.{session, or_unknown, id_of, type_of, process_one}
use service_oriented_archite.Consumer.Redelivery.{is_falsy-text}
use service_oriented_archite.Consumer.Written.{IsWritten, process_one-IsWritten}
use service_oriented_archite.Publisher.Arrivals.{Reads}

-- Every read, the mark and the batch are answered.
pub record IsCalm (env : Env) : Type 0 where
  pub mark : env.mark ≡ answered
  pub batch : env.batch ≡ answered
  pub zones : (p z : String) → env.zone_answers p z ≡ true

-- One event more is marked, and there is no new letter.
pub record Marks (id : String) (w w' : World) : Type 0 where
  pub others :
      (id' : String) → id' ≢ id → is_event_processed id' w'.db ≡ is_event_processed id' w.db
  pub letters : w'.letters ≡ w.letters

-- One zone has changed.
pub record OneZone (change : Change) (p z : String) (q : ℤ) (t : ℕ) (a b : Db) : Type 0 where
  pub changed : change q (stock a p z) (stock b p z).available (stock b p z).reserved
  pub stamped : (stock b p z).last_ts ≡ some t
  pub elsewhere :
      (p' z' : String) → same_key (p', z') (p, z) ≡ false → stock b p' z' ≡ stock a p' z'

-- Some stock has moved from one zone to another.
pub record TwoZones (p source target : String) (q : ℤ) (t : ℕ) (a b : Db) : Type 0 where
  pub taken : (stock b p source).available ≡ (stock a p source).available -ℤ q
  pub added : (stock b p target).available ≡ (stock a p target).available +ℤ q
  pub reserved : (z : String) → (stock b p z).reserved ≡ (stock a p z).reserved
  pub stamped : (stock b p source).last_ts ≡ some t
  pub elsewhere :
      (p' z' : String)
      → same_key (p', z') (p, source) ≡ false
      → same_key (p', z') (p, target) ≡ false
      → stock b p' z' ≡ stock a p' z'

ok_injective : {A : Type 0} (m : Result A) (a b : A) → m ≡ ok a → m ≡ ok b → a ≡ b
ok_injective m a b h k = cc

module _ {db : Db} {ev : Fields} {ops : List Statement} (b : Db)
    (same : (p z : String) → stock b p z ≡ stock (apply_all ops db) p z) (p : String) (q : ℤ)
    (t : ℕ) (product : text_at "product_id" ev ≡ ok p) (amount : int_at "quantity" ev ≡ ok q)
    (timestamp : time_at "timestamp" ev ≡ ok t) where
  OneZone-of :
      (change : Change) (z : String)
      → text_at "zone_id" ev ≡ ok z
      → ChangesZone "quantity" change db ev ops
      → OneZone change p z q t db b
  OneZone-of change z zone c =
      let ep : c.p ≡ p = ok_injective _ c.p p c.product product in
      let ez : c.z ≡ z = ok_injective _ c.z z c.zone zone in
      let eq : c.q ≡ q = ok_injective _ c.q q c.amount amount in
      let et : c.t ≡ t = ok_injective _ c.t t c.timestamp timestamp in
      record {
        changed = rw same (rw (← ep, ← ez, ← eq) c.changed);
        stamped = rw same (rw (← ep, ← ez, ← et) c.stamped);
        elsewhere = λ p' z' differ. same p' z' ∙ c.others p' z' (rw (ep, ez) differ);
      }

  TwoZones-of :
      (source target : String)
      → text_at "from_zone_id" ev ≡ ok source
      → text_at "to_zone_id" ev ≡ ok target
      → MovesStock db ev ops
      → TwoZones p source target q t db b
  TwoZones-of source target from_zone to_zone c =
      let ep : c.p ≡ p = ok_injective _ c.p p c.product product in
      let es : c.source ≡ source = ok_injective _ c.source source c.from_zone from_zone in
      let ed : c.target ≡ target = ok_injective _ c.target target c.to_zone to_zone in
      let eq : c.q ≡ q = ok_injective _ c.q q c.amount amount in
      let et : c.t ≡ t = ok_injective _ c.t t c.timestamp timestamp in
      record {
        taken = rw same (rw (← ep, ← es, ← eq) c.taken);
        added = rw same (rw (← ep, ← ed, ← eq) c.added);
        reserved = λ z. rw same (rw (← ep) (c.reserved z));
        stamped = rw same (rw (← ep, ← es, ← et) c.stamped_source);
        elsewhere = λ p' z' s d. same p' z' ∙ c.others p' z' (rw (ep, es) s) (rw (ep, ed) d);
      }

module _ (avro : Avro) (env : Env) (calm : IsCalm env) (msg : Message) (w : World) (ev : Fields)
    (id type : String) (q : ℤ) (t : ℕ) (reads : Reads ev id type q t)
    (decoded : deserialize avro msg.value msg.topic ≡ ok ev) (handler : Handler)
    (found : find_handler type ≡ some handler) (has_id : (id == "") ≡ false)
    (has_type : (type == "") ≡ false) (unseen : is_event_processed id w.db ≡ false) where
  id_of-reads : id_of ev ≡ id
  id_of-reads = rw reads.id_found refl

  type_of-reads : type_of ev ≡ type
  unfolding or_unknown
  type_of-reads = rw (reads.type_found, is_falsy-text type has_type) refl

  consumed :
      (ops : List Statement)
      → handler (session env w) ev ≡ ok (batch ops)
      → (w' : World) × (process_one avro env msg w ≡ (w', returned)) × IsWritten env msg ev ops w w'
  consumed ops wrote =
      process_one-IsWritten avro env msg w ev handler ops decoded
        (rw (id_of-reads, type_of-reads, has_id, has_type) refl) (rw type_of-reads found) wrote
        (rw id_of-reads unseen) calm.mark calm.batch

  Marks-of : {ops : List Statement} (w' : World) → IsWritten env msg ev ops w w' → Marks id w w'
  Marks-of w' h = record {
    others = λ id' differ. h.others id' (λ e. differ (e ∙ id_of-reads));
    letters = h.letters;
  }

  -- An event of one zone that its handler accepts.
  pub one_zone :
      (change : Change) (z : String)
      → text_at "zone_id" ev ≡ ok z
      → WritesZone handler change (session env w) ev
      → (w' : World) × (process_one avro env msg w ≡ (w', returned))
        × Marks id w w'
        × OneZone change "SKU-001" z q t w.db w'.db
  one_zone change z zone (ops, wrote, changes) =
      let (w', e, h) = consumed ops wrote in
      (
        w',
        e,
        Marks-of w' h,
        OneZone-of w'.db h.zones "SKU-001" q t reads.product reads.amount reads.timestamp change z
            zone changes,
      )

  -- A move that its handler accepts.
  pub two_zones :
      (source target : String)
      → text_at "from_zone_id" ev ≡ ok source
      → text_at "to_zone_id" ev ≡ ok target
      → (ops : List Statement) → handler (session env w) ev ≡ ok (batch ops)
      → MovesStock w.db ev ops
      → (w' : World) × (process_one avro env msg w ≡ (w', returned))
        × Marks id w w'
        × TwoZones "SKU-001" source target q t w.db w'.db
  two_zones source target from_zone to_zone ops wrote moves =
      let (w', e, h) = consumed ops wrote in
      (
        w',
        e,
        Marks-of w' h,
        TwoZones-of w'.db h.zones "SKU-001" q t reads.product reads.amount reads.timestamp source
            target from_zone to_zone moves,
      )
