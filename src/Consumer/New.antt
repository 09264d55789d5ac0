-- ===== src/Consumer/New.antt =====
-- A new event of one zone in hm6/consumer/main.py, before and after an event of another zone.
use service_oriented_archite.Base.{
  ℕ, String, ◌≡◌, ◌≢◌, refl, sym, ap, subst, ◌∙◌, false, some, List, ◌||◌, ◌==◌, string_eq, pair_eq,
  arith, Bool-cases, inl, inr,
}
use service_oriented_archite.Python.Exception.{ok, ◌>>=◌}
use service_oriented_archite.Python.Value.{Fields, text_at, get, item, as_text}
use service_oriented_archite.Cassandra.Tables.{Db, Statement, apply_all}
use service_oriented_archite.Cassandra.Client.{
  Session, answered, is_event_processed, batched, get_zone_state,
}
use service_oriented_archite.Cassandra.Rows.{history_row, row_of}
use service_oriented_archite.Cassandra.Reordered.{RowsDistinct}
use service_oriented_archite.Handlers.{Handler, find_handler}
use service_oriented_archite.Handlers.Zone.{batch, read_zone}
use service_oriented_archite.Handlers.Sound.{stock, same_key}
use service_oriented_archite.Handlers.Effects.{Change, IsZoneBatch}
use service_oriented_archite.Handlers.Changes.{ChangesZone, ChangesZone-of_batch}
use service_oriented_archite.Handlers.Changes.Products.{ZoneHandler, ZoneHandler-IsZoneBatch}
use service_oriented_archite.Handlers.Changes.RoundTrip.{same_text}
use service_oriented_archite.Handlers.Local.{ZoneHandler-local}
use service_oriented_archite.Handlers.Reorders.{zone_batch-RowsDistinct}
use service_oriented_archite.Consumer.World.{Message, World, Env, returned}
use service_oriented_archite.Consumer.Deserialize.{Avro, deserialize}
use service_oriented_archite.Consumer.Process.{session, id_of, type_of, process_one, after_batch}
use service_oriented_archite.Consumer.Redelivery.{with_mark, process_one-written}
use service_oriented_archite.Consumer.Written.{IsWritten, process_one-IsWritten}
use service_oriented_archite.Consumer.EventWrites.{
  event_writes, zone_batch-batched, event_writes-RowsDistinct,
}

-- A message with a new event of one zone, that its handler accepts; its mark and its batch are answered.
pub record IsNew (avro : Avro) (env : Env) (msg : Message) (w : World) (p z : String) : Type 1 where
  pub ev : Fields
  pub handler : Handler
  pub key : String
  pub change : Change
  pub ops : List Statement
  pub decoded : deserialize avro msg.value msg.topic ≡ ok ev
  pub named : (id_of ev == "" || type_of ev == "") ≡ false
  pub found : find_handler (type_of ev) ≡ some handler
  pub one_zone : ZoneHandler handler key change
  pub product : text_at "product_id" ev ≡ ok p
  pub zone : text_at "zone_id" ev ≡ ok z
  pub wrote : handler (session env w) ev ≡ ok (batch ops)
  pub unseen : is_event_processed (id_of ev) w.db ≡ false
  pub mark : env.mark ≡ answered
  pub sent : env.batch ≡ answered

id_of-text_at : (ev : Fields) (id : String) → text_at "event_id" ev ≡ ok id → id_of ev ≡ id
unfolding text_at item as_text get ◌>>=◌
id_of-text_at ev id h = ground arith

pub read_zone-agree :
    (cass cass' : Session) (p z : String)
    → cass.zone_answers p z ≡ cass'.zone_answers p z
    → stock cass.db p z ≡ stock cass'.db p z
    → read_zone cass p z ≡ read_zone cass' p z
unfolding read_zone get_zone_state ◌>>=◌
read_zone-agree cass cass' p z answers same = elim (Bool-cases (cass'.zone_answers p z)) [
  | inl given ↦ rw (answers, given) (ap ok same)
  | inr refused ↦ rw (answers, refused) refl
]

module _ (avro : Avro) (env : Env) (msg : Message) (w : World) (p z : String)
    (n : IsNew avro env msg w p z) where
  abbrev after : World
  after = (process_one avro env msg w).0

  pub is_batch : IsZoneBatch n.key n.change w.db n.ev n.ops
  is_batch =
      ZoneHandler-IsZoneBatch n.handler n.key n.change (session env w) n.ev n.ops n.one_zone n.wrote

  written :
      (w' : World) × (process_one avro env msg w ≡ (w', returned))
      × IsWritten env msg n.ev n.ops w w'
  written =
      process_one-IsWritten avro env msg w n.ev n.handler n.ops n.decoded n.named n.found n.wrote
        n.unseen n.mark n.sent

  pub is_written : IsWritten env msg n.ev n.ops w after
  is_written =
      subst (λ (v : World). IsWritten env msg n.ev n.ops w v) (sym (ap (λ x. x.0) written.1))
        written.2

  pub after-stock :
      (p' z' : String) → same_key (p', z') (p, z) ≡ false → stock after.db p' z' ≡ stock w.db p' z'
  after-stock p' z' differ =
      let c : ChangesZone n.key n.change w.db n.ev n.ops = ChangesZone-of_batch n.ops is_batch in
      is_written.zones p' z'
      ∙ c.others p' z'
          (rw (same_text c.p p c.product n.product refl, same_text c.z z c.zone n.zone refl) differ)

  -- An event of another zone with another id is as new as before.
  abbrev pub still_new :
      (env' : Env) (msg' : Message) (p' z' : String) (m : IsNew avro env' msg' w p' z')
      → same_key (p', z') (p, z) ≡ false
      → id_of m.ev ≢ id_of n.ev
      → IsNew avro env' msg' after p' z'
  still_new env' msg' p' z' m differ ids = record {
    ev = m.ev;
    handler = m.handler;
    key = m.key;
    change = m.change;
    ops = m.ops;
    decoded = m.decoded;
    named = m.named;
    found = m.found;
    one_zone = m.one_zone;
    product = m.product;
    zone = m.zone;
    wrote =
        ZoneHandler-local (session env' after) (session env' w) m.ev
          (λ p'' z'' product zone.
            rw (same_text p'' p' product m.product refl, same_text z'' z' zone m.zone refl)
              (read_zone-agree (session env' after) (session env' w) p' z' refl
                (after-stock p' z' differ)))
          m.handler m.key m.change m.one_zone
        ∙ m.wrote;
    unseen = is_written.others (id_of m.ev) ids ∙ m.unseen;
    mark = m.mark;
    sent = m.sent;
  }

  abbrev pub writes : List Statement
  writes =
      event_writes env msg (id_of n.ev) (type_of n.ev) is_batch.p is_batch.z is_batch.a is_batch.r
        is_batch.id is_batch.t is_batch.supplier is_batch.history

  ops-batched : batched n.ops ≡ n.ops
  ops-batched = rw is_batch.written (
      zone_batch-batched is_batch.p is_batch.z is_batch.a is_batch.r is_batch.id is_batch.t
        is_batch.supplier is_batch.history is_batch.logged)

  pub after-ops : after.db ≡ apply_all n.ops (with_mark env msg n.ev w.db)
  unfolding after_batch
  after-ops =
      ap (λ x. x.0.db)
        (process_one-written avro env msg w n.ev n.handler n.ops n.decoded n.named n.found n.wrote
          n.unseen n.mark n.sent)
      ∙ ap (λ ops. apply_all ops (with_mark env msg n.ev w.db)) ops-batched

  pub keyed : (day : ℕ) × (at : ℕ) × (row_of is_batch.history ≡ history_row day at (id_of n.ev))
  keyed = rw (id_of-text_at n.ev is_batch.id is_batch.named) is_batch.keyed

  pub writes-RowsDistinct : RowsDistinct writes
  writes-RowsDistinct =
      event_writes-RowsDistinct env msg (id_of n.ev) (type_of n.ev) is_batch.p is_batch.z is_batch.a
        is_batch.r is_batch.id is_batch.t is_batch.supplier is_batch.history keyed.0 keyed.1 keyed.2
        (subst RowsDistinct is_batch.written (zone_batch-RowsDistinct n.ops is_batch))

  pub ops-writes : (db : Db) → apply_all n.ops (with_mark env msg n.ev db) ≡ apply_all writes db
  unfolding apply_all
  ops-writes db = ap (λ ops. apply_all ops (with_mark env msg n.ev db)) is_batch.written
