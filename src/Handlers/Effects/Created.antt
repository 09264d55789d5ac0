-- ===== src/Handlers/Effects/Created.antt =====
-- The batch of `handle_order_created` of hm6/consumer/handlers.py.
use mathlib.Core.List.{append-nil, append_assoc}
use service_oriented_archite.Base.{
  ℕ, String, ◌≡◌, refl, sym, ◌∙◌, ap, true, false, string_eq, pair_eq, List, [], ◌∷◌, ◌++◌,
}
use service_oriented_archite.Base.Int.{pos}
use service_oriented_archite.Base.Table.{lookup}
use service_oriented_archite.Python.Exception.{Result, ok}
use service_oriented_archite.Python.Ensures.{
  Ensures, Ensures-ok, Ensures-guard, Ensures-bind, Ensures-mono,
}
use service_oriented_archite.Python.Value.{
  Value, Items, nil, cons, Fields, text_at, time_at, list_at,
}
use service_oriented_archite.Cassandra.Tables.{Db, Statement, OrderItem, upsert_order}
use service_oriented_archite.Cassandra.Client.{Session}
use service_oriented_archite.Handlers.Zone.{Handled, out_of_order}
use service_oriented_archite.Handlers.Sound.{is_history, IsSound}
use service_oriented_archite.Handlers.Effects.{OnBatch, history-is_history}
use service_oriented_archite.Handlers.Effects.Walks.{Delta, add_at, Tracks}
use service_oriented_archite.Handlers.Effects.Reserve.{
  demand, stored, OnWalk, OnWalk-mono, Reserves, Ensures-and_next, reserve_item-Reserves,
}
use service_oriented_archite.Handlers.Orders.{
  Seen, seen_writes, Walk, done, stale, after_walk, reserve_items, order_history,
  handle_order_created, is_nil,
}

abbrev pub no_delta : Delta
no_delta _ _ = pos 0

-- The walk over all items: every zone's entry has grown by what the items ask of it.
pub record ReservesAll (db : Db) (t : ℕ) (delta : Delta) (items : Items)
    (serialized : List OrderItem) (out : Seen × List OrderItem) : Type 0 where
  pub tracks : Tracks db t (demand items delta) out.0
  pub items_stored : out.1 ≡ serialized ++ stored items

ReservesAll-cons :
    (db : Db) (t : ℕ) (delta : Delta) (it : Value) (rest : Items) (serialized : List OrderItem)
    (seen' : Seen) (item : OrderItem)
    → (r : Reserves db t delta it (seen', item)) → (out : Seen × List OrderItem)
    → ReservesAll db t
        (add_at r.line.pid r.line.zid r.line.qty delta)
        rest
        (serialized ++ item ∷ [])
        out
    → ReservesAll db t delta (cons it rest) serialized out
ReservesAll-cons db t delta it rest serialized seen' item r out h = record {
  tracks = rw r.read h.tracks;
  items_stored = rw r.read (
      h.items_stored
      ∙ append_assoc serialized (item ∷ []) (stored rest)
      ∙ ap (λ i. serialized ++ i ∷ stored rest) r.item);
}

pub reserve_items-ReservesAll :
    (cass : Session) (t : ℕ) (items : Items) (delta : Delta) (seen : Seen)
    (serialized : List OrderItem)
    → IsSound cass.db
    → Tracks cass.db t delta seen
    → Ensures
        (OnWalk (ReservesAll cass.db t delta items serialized))
        (reserve_items cass t items seen serialized)
unfolding reserve_items
reserve_items-ReservesAll cass t nil delta seen serialized sound h =
    Ensures-ok _ record { tracks = h; items_stored = sym (append-nil serialized) }
reserve_items-ReservesAll cass t (cons it rest) delta seen serialized sound h =
    Ensures-and_next _ _ _ _ (reserve_item-Reserves cass t it delta seen sound h) λ (seen', item) r.
      Ensures-mono _
        (OnWalk-mono _ _ (ReservesAll-cons cass.db t delta it rest serialized seen' item r))
        (reserve_items-ReservesAll cass t rest (add_at r.line.pid r.line.zid r.line.qty delta) seen'
          (serialized ++ item ∷ []) sound r.tracks)

-- The batch of an order: the writes of every zone that its items name, the order with its items,
-- and the history.
pub record IsOrderBatch (db : Db) (ev : Fields) (ops : List Statement) : Type 0 where
  pub order_id : String
  pub items : Items
  pub t : ℕ
  pub id : String
  pub seen : Seen
  pub history : Statement
  pub order : text_at "order_id" ev ≡ ok order_id
  pub listed : list_at "items" ev ≡ ok items
  pub timestamp : time_at "timestamp" ev ≡ ok t
  pub nonempty : is_nil items ≡ false
  pub tracks : Tracks db t (demand items no_delta) seen
  pub named : text_at "event_id" ev ≡ ok id
  pub logged : is_history history ≡ true
  pub written :
      ops
      ≡ seen_writes id t seen ++ upsert_order order_id "CREATED" (stored items) t t ∷ history ∷ []

pub Tracks-nil : (db : Db) (t : ℕ) → Tracks db t no_delta []
unfolding lookup
Tracks-nil db t = record { keys = tt; at = λ p z. refl }

pub Ensures-after_walk :
    {A : Type 0} (P : A → Type 0) (Q : List Statement → Type 0) (w : Walk A)
    (rest : A → Result Handled)
    → OnWalk P w
    → ((a : A) → P a → Ensures (OnBatch Q) (rest a))
    → Ensures (OnBatch Q) (after_walk w rest)
unfolding after_walk
Ensures-after_walk P Q stale rest h k = Ensures-ok out_of_order tt
Ensures-after_walk P Q (done a) rest h k = k a h

-- An order that is accepted reserves in each zone what its items ask of it.
pub handle_order_created-writes :
    (cass : Session) (ev : Fields)
    → IsSound cass.db
    → Ensures (OnBatch (IsOrderBatch cass.db ev)) (handle_order_created cass ev)
unfolding handle_order_created
handle_order_created-writes cass ev sound = Ensures-bind _ _ λ order_id eo.
    Ensures-bind _ _ λ items ei. Ensures-bind _ _ λ t et. Ensures-guard _ _ _ λ nonempty.
      Ensures-bind _ _ λ walked ew.
        Ensures-after_walk _ _ walked _
          ((reserve_items-ReservesAll cass t items no_delta [] [] sound (Tracks-nil cass.db t)).at
            walked ew)
          λ (seen, serialized) r. Ensures-bind _ _ λ id eid. Ensures-bind _ _ λ h eh.
            Ensures-ok _ record {
              order_id = order_id;
              items = items;
              t = t;
              id = id;
              seen = seen;
              history = h;
              order = eo;
              listed = ei;
              timestamp = et;
              nonempty = nonempty;
              tracks = r.tracks;
              named = eid;
              logged = history-is_history (order_history ev) h eh;
              written = rw r.items_stored;
            }
