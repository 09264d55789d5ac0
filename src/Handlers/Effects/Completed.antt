-- ===== src/Handlers/Effects/Completed.antt =====
-- The batch of `handle_order_completed` of hm6/consumer/handlers.py.
use service_oriented_archite.Base.{
  ℕ, String, ◌≡◌, refl, true, false, Option, some, List, [], ◌∷◌, ◌++◌, arith, string_eq, pair_eq,
}
use service_oriented_archite.Base.Int.{ℤ, pos, ◌-ℤ◌, int_laws, -ℤ-eq-+ℤ}
use service_oriented_archite.Base.Table.{lookup}
use service_oriented_archite.Python.Exception.{Result, ok, raise}
use service_oriented_archite.Python.Ensures.{
  Ensures, Ensures-ok, Ensures-if, Ensures-guard, Ensures-bind,
}
use service_oriented_archite.Python.Value.{Fields, text, as_int, text_at, time_at}
use service_oriented_archite.Cassandra.Tables.{
  Db, Statement, OrderItem, OrderRow, update_order_status,
}
use service_oriented_archite.Cassandra.Client.{Session, get_order}
use service_oriented_archite.Handlers.Sound.{is_history}
use service_oriented_archite.Handlers.Effects.{OnBatch, ≤ℤ_of_guard, history-is_history}
use service_oriented_archite.Handlers.Effects.Walks.{Delta, add_at, Tracks, Tracks-insert}
use service_oriented_archite.Handlers.Effects.Reserve.{
  OnWalk, Ensures-unless_stale_item, Ensures-and_next,
}
use service_oriented_archite.Handlers.Effects.Created.{no_delta, Tracks-nil, Ensures-after_walk}
use service_oriented_archite.Handlers.Orders.{
  Seen, seen_writes, complete_item, complete_items, order_items, is_completed, or_not_found,
  order_history, handle_order_completed,
}

-- What the stored items take from the reserved quantity of each zone, on top of `delta`.
abbrev pub take_amount : Result ℤ → OrderItem → Delta → Delta
take_amount (ok q) it delta = add_at it.product_id it.zone_id (pos 0 -ℤ q) delta
take_amount (raise _) it delta = delta

abbrev pub settlement : List OrderItem → Delta → Delta
settlement [] delta = delta
settlement (it ∷ rest) delta = settlement rest (take_amount (as_int (text it.quantity)) it delta)

pub complete_item-Tracks :
    (cass : Session) (t : ℕ) (it : OrderItem) (delta : Delta) (seen : Seen)
    → Tracks cass.db t delta seen
    → Ensures
        (OnWalk (Tracks cass.db t (take_amount (as_int (text it.quantity)) it delta)))
        (complete_item cass t it seen)
unfolding complete_item
complete_item-Tracks cass t it delta seen h = Ensures-bind _ _ λ q eq. Ensures-bind _ _ λ s es.
    Ensures-unless_stale_item _ _ _ λ newer. Ensures-guard _ _ _ λ enough. Ensures-ok _ (
      rw eq (
        Tracks-insert cass t delta seen it.product_id it.zone_id s h es newer (pos 0 -ℤ q)
          (s.reserved -ℤ q) (-ℤ-eq-+ℤ s.reserved q)
          (omega (int_laws, ≤ℤ_of_guard s.reserved q enough))))

pub complete_items-Tracks :
    (cass : Session) (t : ℕ) (items : List OrderItem) (delta : Delta) (seen : Seen)
    → Tracks cass.db t delta seen
    → Ensures
        (OnWalk (Tracks cass.db t (settlement items delta)))
        (complete_items cass t items seen)
unfolding complete_items
complete_items-Tracks cass t [] delta seen h = Ensures-ok _ h
complete_items-Tracks cass t (it ∷ rest) delta seen h =
    Ensures-and_next _ _ _ _ (complete_item-Tracks cass t it delta seen h) λ seen' r.
      complete_items-Tracks cass t rest (take_amount (as_int (text it.quantity)) it delta) seen' r

-- The batch of a completion: the writes of every zone that the order names, the new status, and the
-- history.
pub record IsCompletionBatch (db : Db) (ev : Fields) (ops : List Statement) : Type 0 where
  pub order_id : String
  pub row : OrderRow
  pub items : List OrderItem
  pub t : ℕ
  pub id : String
  pub seen : Seen
  pub history : Statement
  pub order : text_at "order_id" ev ≡ ok order_id
  pub found : lookup order_id db.orders ≡ some row
  pub open_order : is_completed row ≡ false
  pub listed : row.items ≡ some items
  pub timestamp : time_at "timestamp" ev ≡ ok t
  pub tracks : Tracks db t (settlement items no_delta) seen
  pub named : text_at "event_id" ev ≡ ok id
  pub logged : is_history history ≡ true
  pub written :
      ops ≡ seen_writes id t seen ++ update_order_status "COMPLETED" t order_id ∷ history ∷ []

-- Of an order that is completed already, only the history is written.
pub record IsRepeatBatch (db : Db) (ev : Fields) (ops : List Statement) : Type 0 where
  pub order_id : String
  pub row : OrderRow
  pub history : Statement
  pub order : text_at "order_id" ev ≡ ok order_id
  pub found : lookup order_id db.orders ≡ some row
  pub completed : is_completed row ≡ true
  pub logged : is_history history ≡ true
  pub written : ops ≡ history ∷ []

pub data IsCompletion (db : Db) (ev : Fields) (ops : List Statement) : Type 0 where
  first : IsCompletionBatch db ev ops → IsCompletion db ev ops
  again : IsRepeatBatch db ev ops → IsCompletion db ev ops

found_order :
    (cass : Session) (order_id : String) (o : Option OrderRow) (row : OrderRow)
    → get_order cass order_id ≡ ok o
    → or_not_found order_id o ≡ ok row
    → lookup order_id cass.db.orders ≡ some row
unfolding get_order
found_order cass order_id o row h e = ground arith

listed_items :
    (row : OrderRow) (items : List OrderItem) → order_items row ≡ ok items → row.items ≡ some items
listed_items row items h = ground arith

-- A completion takes from each zone's reserved quantity what the order's items hold, once.
pub handle_order_completed-writes :
    (cass : Session) (ev : Fields)
    → Ensures (OnBatch (IsCompletion cass.db ev)) (handle_order_completed cass ev)
unfolding handle_order_completed
handle_order_completed-writes cass ev = Ensures-bind _ _ λ order_id eo. Ensures-bind _ _ λ t et.
    Ensures-bind _ _ λ o eg. Ensures-bind _ _ λ row er.
      Ensures-if (is_completed row) _ _
        (λ completed. Ensures-bind _ _ λ h eh. Ensures-ok _ (
          again record {
            order_id = order_id;
            row = row;
            history = h;
            order = eo;
            found = found_order cass order_id o row eg er;
            completed = completed;
            logged = history-is_history (order_history ev) h eh;
            written = refl;
          }))
        λ open_order. Ensures-bind _ _ λ items ei. Ensures-bind _ _ λ walked ew.
          Ensures-after_walk _ _ walked _
            ((complete_items-Tracks cass t items no_delta [] (Tracks-nil cass.db t)).at walked ew)
            λ seen r. Ensures-bind _ _ λ id eid. Ensures-bind _ _ λ h eh. Ensures-ok _ (
              first record {
                order_id = order_id;
                row = row;
                items = items;
                t = t;
                id = id;
                seen = seen;
                history = h;
                order = eo;
                found = found_order cass order_id o row eg er;
                open_order = open_order;
                listed = listed_items row items ei;
                timestamp = et;
                tracks = r;
                named = eid;
                logged = history-is_history (order_history ev) h eh;
                written = refl;
              })
