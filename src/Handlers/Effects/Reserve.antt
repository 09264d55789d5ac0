-- ===== src/Handlers/Effects/Reserve.antt =====
-- What `handle_order_created` of hm6/consumer/handlers.py writes.
use service_oriented_archite.Base.{
  ℕ, ◌≡◌, refl, Bool, true, false, List, [], ◌∷◌, string_eq, pair_eq,
}
use service_oriented_archite.Base.Int.{◌+ℤ◌, int_laws}
use service_oriented_archite.Python.Exception.{Result, ok, raise}
use service_oriented_archite.Python.Ensures.{
  Ensures, Ensures-ok, Ensures-raise, Ensures-guard, Ensures-bind, Ensures-then,
}
use service_oriented_archite.Python.Decimal.{str}
use service_oriented_archite.Python.Value.{Value, Items, nil, cons}
use service_oriented_archite.Cassandra.Tables.{Db, OrderItem}
use service_oriented_archite.Cassandra.Client.{Session}
use service_oriented_archite.Handlers.Sound.{IsSound}
use service_oriented_archite.Handlers.Effects.{nonneg_of_validate}
use service_oriented_archite.Handlers.Effects.Walks.{
  Delta, add_at, Tracks, Tracks-insert, seen_zone-nonneg,
}
use service_oriented_archite.Handlers.Orders.{
  Seen, Walk, done, stale, and_next, unless_stale_item, OrderLine, order_line, reserve_item,
}

-- What the items of an order ask of each zone, on top of `delta`.
abbrev pub add_line : Result OrderLine → Delta → Delta
add_line (ok l) delta = add_at l.pid l.zid l.qty delta
add_line (raise _) delta = delta

abbrev pub demand : Items → Delta → Delta
demand nil delta = delta
demand (cons it rest) delta = demand rest (add_line (order_line it) delta)

-- The items as they are stored with the order.
abbrev pub store_line : Result OrderLine → List OrderItem → List OrderItem
store_line (ok l) rest = record { product_id = l.pid; zone_id = l.zid; quantity = str l.qty } ∷ rest
store_line (raise _) rest = rest

abbrev pub stored : Items → List OrderItem
stored nil = []
stored (cons it rest) = store_line (order_line it) (stored rest)

abbrev pub OnWalk : {A : Type 0} → (A → Type 0) → Walk A → Type 0
OnWalk P (done a) = P a
OnWalk P stale = Unit

module _ {A : Type 0} where
  pub Ensures-unless_stale_item :
      (P : A → Type 0) (b : Bool) (rest : Result (Walk A))
      → (b ≡ false → Ensures (OnWalk P) rest)
      → Ensures (OnWalk P) (unless_stale_item b rest)
  unfolding unless_stale_item
  Ensures-unless_stale_item P true rest h = Ensures-ok stale tt
  Ensures-unless_stale_item P false rest h = h refl

module _ {A B : Type 0} where
  pub Ensures-and_next :
      (P : A → Type 0) (Q : B → Type 0) (m : Result (Walk A)) (next : A → Result (Walk B))
      → Ensures (OnWalk P) m
      → ((a : A) → P a → Ensures (OnWalk Q) (next a))
      → Ensures (OnWalk Q) (and_next m next)
  unfolding and_next
  Ensures-and_next P Q (raise e) next h k = Ensures-raise e
  Ensures-and_next P Q (ok stale) next h k = Ensures-ok stale tt
  Ensures-and_next P Q (ok (done a)) next h k = k a (h.at (done a) refl)

pub OnWalk-mono :
    {A : Type 0} (P Q : A → Type 0) → ((a : A) → P a → Q a) → (w : Walk A) → OnWalk P w → OnWalk Q w
OnWalk-mono P Q f (done a) h = f a h
OnWalk-mono P Q f stale h = tt

-- One item: the zone's entry grows by its quantity, and the item is stored.
pub record Reserves (db : Db) (t : ℕ) (delta : Delta) (it : Value) (out : Seen × OrderItem)
    : Type 0 where
  pub line : OrderLine
  pub read : order_line it ≡ ok line
  pub tracks : Tracks db t (add_at line.pid line.zid line.qty delta) out.0
  pub item : out.1 ≡ record { product_id = line.pid; zone_id = line.zid; quantity = str line.qty }

pub reserve_item-Reserves :
    (cass : Session) (t : ℕ) (it : Value) (delta : Delta) (seen : Seen)
    → IsSound cass.db
    → Tracks cass.db t delta seen
    → Ensures (OnWalk (Reserves cass.db t delta it)) (reserve_item cass t it seen)
unfolding reserve_item
reserve_item-Reserves cass t it delta seen sound h = Ensures-bind _ _ λ l el.
    Ensures-then _ _ λ valid. Ensures-bind _ _ λ s es. Ensures-unless_stale_item _ _ _ λ newer.
      Ensures-guard _ _ _ λ enough. Ensures-ok _ record {
        line = l;
        read = el;
        tracks =
            Tracks-insert cass t delta seen l.pid l.zid s h es newer l.qty (s.reserved +ℤ l.qty)
              refl
              (omega (
                int_laws,
                nonneg_of_validate l.qty valid,
                seen_zone-nonneg cass t delta seen l.pid l.zid s sound h es,
              ));
        item = refl;
      }
