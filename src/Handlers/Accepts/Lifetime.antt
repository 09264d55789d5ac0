-- ===== src/Handlers/Accepts/Lifetime.antt =====
-- An order of hm6/consumer/handlers.py that is accepted can be completed.
use service_oriented_archite.Base.{
  ℕ, ◌<◌, String, ◌≡◌, refl, sym, ◌∙◌, true, false, List, arith, inl, inr, string_eq, pair_eq,
}
use service_oriented_archite.Base.Int.{pos, ◌+ℤ◌, ◌≤ℤ◌}
use service_oriented_archite.Python.Exception.{Result, ok}
use service_oriented_archite.Python.Value.{Fields, Items, nil, cons, text_at, time_at, list_at}
use service_oriented_archite.Cassandra.Tables.{Db, Statement, apply_all}
use service_oriented_archite.Cassandra.Client.{Session}
use service_oriented_archite.Handlers.Zone.{ZoneState, batch, is_stale}
use service_oriented_archite.Handlers.Sound.{stock, IsSound}
use service_oriented_archite.Handlers.Effects.Reserve.{demand, stored}
use service_oriented_archite.Handlers.Effects.Created.{no_delta}
use service_oriented_archite.Handlers.Effects.Completed.{settlement}
use service_oriented_archite.Handlers.Orders.{is_nil, handle_order_created, handle_order_completed}
use service_oriented_archite.Handlers.Changes.Orders.{IsStamped}
use service_oriented_archite.Handlers.Changes.Created.{created_row, CreatesOrder}
use service_oriented_archite.Handlers.Changes.Completed.{settlement-stored, as_int-str}
use service_oriented_archite.Handlers.Changes.RoundTrip.{
  cancel, created_row_open, same_text, order_round_trip,
}
use service_oriented_archite.Handlers.Accepts.Items.{AllServed, AllHeld}
use service_oriented_archite.Handlers.Accepts.Orders.{
  Completes, handle_order_created-accepts, handle_order_completed-accepts,
}

-- A zone that was older than an event is older than any later one, when it was written by none but it.
later_is_newer :
    (t t' : ℕ) (s s' : ZoneState)
    → t < t'
    → is_stale t s.last_ts ≡ false
    → IsStamped t s s'
    → is_stale t' s'.last_ts ≡ false
unfolding is_stale
later_is_newer t t' s s' h newer (inl stamped) = rw stamped (ground arith)
later_is_newer t t' s s' h newer (inr same) = rw same (ground arith)

stored-AllHeld :
    (db db' : Db) (t t' : ℕ) (items : Items)
    → t < t'
    → ((p z : String) → IsStamped t (stock db p z) (stock db' p z))
    → AllServed db t items
    → AllHeld db' t' (stored items)
stored-AllHeld db db' t t' nil h stamped served = tt
stored-AllHeld db db' t t' (cons it rest) h stamped (i, more) = rw i.read (
  record {
    amount = i.line.qty;
    read = as_int-str i.line.qty;
    nonneg = i.nonneg;
    newer =
        later_is_newer t t' (stock db i.line.pid i.line.zid) (stock db' i.line.pid i.line.zid) h
          i.newer (stamped i.line.pid i.line.zid);
  },
  stored-AllHeld db db' t t' rest h stamped more,
)

-- The same session after a batch.
abbrev pub written : Session → List Statement → Session
written cass ops = record cass { db = apply_all ops cass.db }

same_time : (t t' : ℕ) {r : Result ℕ} → r ≡ ok t → r ≡ ok t' → t ≡ t'
same_time t t' h k = cc

same_list : (xs ys : Items) {r : Result Items} → r ≡ ok xs → r ≡ ok ys → xs ≡ ys
same_list xs ys h k = cc

module _ (cass : Session) (ev ev' : Fields) (order_id type id type' id' : String) (t t' : ℕ)
    (items : Items) (order : text_at "order_id" ev ≡ ok order_id)
    (timestamp : time_at "timestamp" ev ≡ ok t) (named : text_at "event_id" ev ≡ ok id)
    (typed : text_at "event_type" ev ≡ ok type) (listed : list_at "items" ev ≡ ok items)
    (nonempty : is_nil items ≡ false) (order' : text_at "order_id" ev' ≡ ok order_id)
    (timestamp' : time_at "timestamp" ev' ≡ ok t') (named' : text_at "event_id" ev' ≡ ok id')
    (typed' : text_at "event_type" ev' ≡ ok type') (later : t < t') (sound : IsSound cass.db)
    (answers : (p z : String) → cass.zone_answers p z ≡ true)
    (order_answers : cass.order_answers order_id ≡ true) (served : AllServed cass.db t items) where
  -- What the stored items hold is covered by what the order has reserved.
  covered :
      (ops : List Statement) (c : CreatesOrder cass.db ev ops) (p z : String)
      → pos 0
        ≤ℤ (stock (apply_all ops cass.db) p z).reserved +ℤ settlement (stored c.items) no_delta p z
  covered ops c p z =
      rw
        (
          (c.zones p z).1,
          cancel (stock cass.db p z).reserved (demand c.items no_delta p z)
              (settlement (stored c.items) no_delta p z)
              (settlement-stored c.items no_delta no_delta p z),
        )
        (sound.reserved p z)

  completes :
      (ops : List Statement) → CreatesOrder cass.db ev ops → Completes (written cass ops) ev'
  completes ops c =
      let same : c.order_id ≡ order_id = same_text c.order_id order_id c.order order refl in
      handle_order_completed-accepts (written cass ops) ev' c.order_id type' id' t' (rw same order')
        timestamp' named' typed' answers (created_row c.items c.t) (stored c.items)
        (rw same order_answers) c.row (created_row_open c.items c.t) refl
        (stored-AllHeld cass.db (apply_all ops cass.db) c.t t' c.items
          (rw (same_time c.t t c.timestamp timestamp) later) c.stamped
          (rw (same_time c.t t c.timestamp timestamp, same_list c.items items c.listed listed)
            served))
        (covered ops c)

  -- A well-formed order over sound tables, with items that are not negative, newer than their zones and
  -- covered by what is available, is accepted; a well-formed completion of it, of a later time, is then
  -- accepted as well, and every zone is back at the available and reserved quantities of before. All
  -- reads are answered, and nothing else is written between the two.
  pub order_lifetime :
      (ops : List Statement) × (handle_order_created cass ev ≡ ok (batch ops))
      × (ops' : List Statement) × (handle_order_completed (written cass ops) ev' ≡ ok (batch ops'))
      × ((p z : String)
          → ((stock (apply_all ops' (apply_all ops cass.db)) p z).available
              ≡ (stock cass.db p z).available)
            × ((stock (apply_all ops' (apply_all ops cass.db)) p z).reserved
                ≡ (stock cass.db p z).reserved))
  order_lifetime =
      let (ops, e, c) =
        handle_order_created-accepts cass ev order_id type id t order timestamp named typed answers
          items listed nonempty sound served in
      let (ops', e', _) = completes ops c in
      (
        ops,
        e,
        ops',
        e',
        order_round_trip cass (written cass ops) ev ev' ops ops' sound e refl (order' ∙ sym order)
            e',
      )
