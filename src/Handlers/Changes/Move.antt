-- ===== src/Handlers/Changes/Move.antt =====
-- The batch of `handle_product_moved` of hm6/consumer/handlers.py.
use service_oriented_archite.Base.{
  some, ℕ, String, ◌≡◌, ◌≢◌, ap, ◌∙◌, false, List, [], ◌∷◌, ◌++◌, arith, if◌then◌else◌, string_eq,
  pair_eq,
}
use service_oriented_archite.Base.Int.{ℤ, pos, ◌+ℤ◌, ◌-ℤ◌, ◌≤ℤ◌, int_laws}
use service_oriented_archite.Python.Exception.{ok}
use service_oriented_archite.Python.Value.{Fields, int_at, text_at, time_at}
use service_oriented_archite.Cassandra.Tables.{Db, Statement, apply_all}
use service_oriented_archite.Cassandra.Client.{Session}
use service_oriented_archite.Handlers.Zone.{ZoneState, batch, is_stale, zone_writes}
use service_oriented_archite.Cassandra.Reordered.{apply_all-append}
use service_oriented_archite.Handlers.Sound.{stock, same_key}
use service_oriented_archite.Handlers.Stock.{written_state, stock-zone_writes, stock-zone_batch}
use service_oriented_archite.Handlers.Effects.Moved.{IsMoveBatch, handle_product_moved-writes}
use service_oriented_archite.Handlers.Products.{handle_product_moved}
use service_oriented_archite.Handlers.Changes.{same_key_refl}

-- The batch moves the quantity between two zones of the product, which were older than the event,
-- and changes no other zone.
pub record MovesStock (db : Db) (ev : Fields) (ops : List Statement) : Type 0 where
  pub p : String
  pub source : String
  pub target : String
  pub q : ℤ
  pub t : ℕ
  pub product : text_at "product_id" ev ≡ ok p
  pub from_zone : text_at "from_zone_id" ev ≡ ok source
  pub to_zone : text_at "to_zone_id" ev ≡ ok target
  pub amount : int_at "quantity" ev ≡ ok q
  pub timestamp : time_at "timestamp" ev ≡ ok t
  pub apart : source ≢ target
  pub newer_source : is_stale t (stock db p source).last_ts ≡ false
  pub newer_target : is_stale t (stock db p target).last_ts ≡ false
  pub nonneg : pos 0 ≤ℤ q
  pub covered : q ≤ℤ (stock db p source).available
  pub taken : (stock (apply_all ops db) p source).available ≡ (stock db p source).available -ℤ q
  pub added : (stock (apply_all ops db) p target).available ≡ (stock db p target).available +ℤ q
  pub conserved :
      (stock (apply_all ops db) p source).available +ℤ (stock (apply_all ops db) p target).available
      ≡ (stock db p source).available +ℤ (stock db p target).available
  pub stamped_source : (stock (apply_all ops db) p source).last_ts ≡ some t
  pub stamped_target : (stock (apply_all ops db) p target).last_ts ≡ some t
  pub reserved : (z : String) → (stock (apply_all ops db) p z).reserved ≡ (stock db p z).reserved
  pub others :
      (p' z' : String)
      → same_key (p', z') (p, source) ≡ false
      → same_key (p', z') (p, target) ≡ false
      → stock (apply_all ops db) p' z' ≡ stock db p' z'

same_key-ne : (p a b : String) → a ≢ b → same_key (p, a) (p, b) ≡ false
same_key-ne p a b h = ground arith

module _ {db : Db} {ev : Fields} (ops : List Statement) (b : IsMoveBatch db ev ops) where
  abbrev source_state : ZoneState
  source_state =
      written_state ((stock db b.p b.source).available -ℤ b.q) (stock db b.p b.source).reserved b.id
        b.t (stock db b.p b.source).supplier_id

  abbrev target_state : ZoneState
  target_state =
      written_state ((stock db b.p b.target).available +ℤ b.q) (stock db b.p b.target).reserved b.id
        b.t (stock db b.p b.target).supplier_id

  stock-moved :
      (p z : String)
      → stock (apply_all ops db) p z ≡ (
          if same_key (p, z) (b.p, b.target)
          then target_state
          else if same_key (p, z) (b.p, b.source)
          then source_state
          else stock db p z)
  stock-moved p z = rw b.written (
      rw
        (apply_all-append
          (zone_writes b.p b.source ((stock db b.p b.source).available -ℤ b.q)
            (stock db b.p b.source).reserved b.id b.t (stock db b.p b.source).supplier_id)
          (zone_writes b.p b.target ((stock db b.p b.target).available +ℤ b.q)
              (stock db b.p b.target).reserved b.id b.t (stock db b.p b.target).supplier_id
            ++ b.history ∷ [])
          db)
        (rw
          (stock-zone_batch b.p b.target ((stock db b.p b.target).available +ℤ b.q)
            (stock db b.p b.target).reserved b.id b.t (stock db b.p b.target).supplier_id b.history
            (apply_all
              (zone_writes b.p b.source ((stock db b.p b.source).available -ℤ b.q)
                (stock db b.p b.source).reserved b.id b.t (stock db b.p b.source).supplier_id)
              db)
            p z b.logged)
          (rw (
            stock-zone_writes b.p b.source ((stock db b.p b.source).available -ℤ b.q)
              (stock db b.p b.source).reserved b.id b.t (stock db b.p b.source).supplier_id db p
              z))))

  at_source : stock (apply_all ops db) b.p b.source ≡ source_state
  at_source =
      stock-moved b.p b.source
      ∙ rw (same_key-ne b.p b.source b.target b.apart, same_key_refl (b.p, b.source))

  at_target : stock (apply_all ops db) b.p b.target ≡ target_state
  at_target = stock-moved b.p b.target ∙ rw (same_key_refl (b.p, b.target))

  reserved_moved :
      (z : String) → (stock (apply_all ops db) b.p z).reserved ≡ (stock db b.p z).reserved
  reserved_moved z = rw (stock-moved b.p z) (ground arith)

  pub MovesStock-of_batch : MovesStock db ev ops
  MovesStock-of_batch = record {
    p = b.p;
    source = b.source;
    target = b.target;
    q = b.q;
    t = b.t;
    product = b.product;
    from_zone = b.from_zone;
    to_zone = b.to_zone;
    amount = b.amount;
    timestamp = b.timestamp;
    apart = b.apart;
    newer_source = b.newer_source;
    newer_target = b.newer_target;
    nonneg = b.nonneg;
    covered = b.covered;
    taken = ap (λ (s : ZoneState). s.available) at_source;
    added = ap (λ (s : ZoneState). s.available) at_target;
    conserved = rw (at_source, at_target) (omega int_laws);
    stamped_source = ap (λ (s : ZoneState). s.last_ts) at_source;
    stamped_target = ap (λ (s : ZoneState). s.last_ts) at_target;
    reserved = reserved_moved;
    others = λ p z s t. stock-moved p z ∙ rw (t, s);
  }

-- A move that is written takes its quantity, which the source covers, from the source and adds it to
-- another zone of the product: their available sum, every reserved quantity and all other zones stay.
-- The event is newer than what the two zones held.
pub handle_product_moved-MovesStock :
    (cass : Session) (ev : Fields) (ops : List Statement)
    → handle_product_moved cass ev ≡ ok (batch ops)
    → MovesStock cass.db ev ops
handle_product_moved-MovesStock cass ev ops e =
    MovesStock-of_batch ops ((handle_product_moved-writes cass ev).at (batch ops) e)
