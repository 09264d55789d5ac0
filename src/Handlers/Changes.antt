-- ===== src/Handlers/Changes.antt =====
-- What the batches of the product handlers of hm6/consumer/handlers.py do to the stock.
pub mod Products
pub mod Move
pub mod Created
pub mod Completed
pub mod RoundTrip
pub mod Orders
use service_oriented_archite.Base.{
  ℕ, String, ◌≡◌, ◌≢◌, refl, sym, ap, subst, ◌∙◌, Bool, true, false, Option, some, List, [], ◌∷◌,
  ◌++◌, arith, if◌then◌else◌, string_eq, pair_eq, ◌==◌, ◌⊎◌, inl, inr,
}
use service_oriented_archite.Base.Int.{ℤ, pos, ◌+ℤ◌, ◌-ℤ◌, ◌≤ℤ◌, int_laws}
use service_oriented_archite.Python.Exception.{ok}
use service_oriented_archite.Python.Ensures.{Ensures, Ensures-mono}
use service_oriented_archite.Python.Value.{Fields, int_at, text_at, time_at}
use service_oriented_archite.Cassandra.Tables.{Db, Statement, apply_all}
use service_oriented_archite.Cassandra.Client.{Session}
use service_oriented_archite.Handlers.Zone.{
  ZoneState, Handled, batch, out_of_order, is_stale, zone_writes,
}
use service_oriented_archite.Cassandra.Reordered.{apply_all-append}
use service_oriented_archite.Handlers.Sound.{stock, is_log, same_key, same_key-cases}
use service_oriented_archite.Handlers.Stock.{written_state, stock-zone_writes, stock-zone_batch}
use service_oriented_archite.Handlers.Effects.{
  Change, Received, Shipped, Reserved, Released, Counted, IsZoneBatch, OnBatch,
}

-- The batch changes the zone that the event names, which was older than the event, and no other.
pub record ChangesZone (key : String) (change : Change) (db : Db) (ev : Fields)
    (ops : List Statement) : Type 0 where
  pub p : String
  pub z : String
  pub q : ℤ
  pub t : ℕ
  pub product : text_at "product_id" ev ≡ ok p
  pub zone : text_at "zone_id" ev ≡ ok z
  pub amount : int_at key ev ≡ ok q
  pub timestamp : time_at "timestamp" ev ≡ ok t
  pub newer : is_stale t (stock db p z).last_ts ≡ false
  pub changed :
      change q
        (stock db p z)
        (stock (apply_all ops db) p z).available
        (stock (apply_all ops db) p z).reserved
  pub stamped : (stock (apply_all ops db) p z).last_ts ≡ some t
  pub others :
      (p' z' : String)
      → same_key (p', z') (p, z) ≡ false
      → stock (apply_all ops db) p' z' ≡ stock db p' z'

pub same_key_refl : (k : String × String) → same_key k k ≡ true
same_key_refl k = ground arith

pub ChangesZone-of_batch :
    {key : String} {change : Change} {db : Db} {ev : Fields} (ops : List Statement)
    → IsZoneBatch key change db ev ops
    → ChangesZone key change db ev ops
ChangesZone-of_batch {key} {change} {db} {ev} ops b = record {
  p = b.p;
  z = b.z;
  q = b.q;
  t = b.t;
  product = b.product;
  zone = b.zone;
  amount = b.amount;
  timestamp = b.timestamp;
  newer = b.newer;
  changed =
      subst (λ (s : ZoneState). change b.q (stock db b.p b.z) s.available s.reserved) (sym here)
        b.changed;
  stamped = ap (λ (s : ZoneState). s.last_ts) here;
  others = λ p' z' differ. after p' z' ∙ rw differ;
}
  where
    after :
        (p' z' : String)
        → stock (apply_all ops db) p' z' ≡ (
            if same_key (p', z') (b.p, b.z)
            then written_state b.a b.r b.id b.t b.supplier
            else stock db p' z')
    after p' z' =
        rw b.written
          (stock-zone_batch b.p b.z b.a b.r b.id b.t b.supplier b.history db p' z' b.logged)

    here : stock (apply_all ops db) b.p b.z ≡ written_state b.a b.r b.id b.t b.supplier
    here = after b.p b.z ∙ rw (same_key_refl (b.p, b.z))
