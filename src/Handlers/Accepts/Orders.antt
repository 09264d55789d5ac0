-- ===== src/Handlers/Accepts/Orders.antt =====
-- When the order handlers of hm6/consumer/handlers.py accept an event.
use service_oriented_archite.Base.{
  ℕ, String, ◌≡◌, refl, ap, Bool, true, false, some, List, [], ◌⊎◌, inl, inr, string_eq, pair_eq,
  if◌then◌else◌,
}
use service_oriented_archite.Base.Int.{pos, ◌+ℤ◌, ◌≤ℤ◌}
use service_oriented_archite.Base.Table.{lookup}
use service_oriented_archite.Python.Exception.{Result, ok}
use service_oriented_archite.Python.Value.{Fields, Items, text_at, time_at, list_at}
use service_oriented_archite.Cassandra.Tables.{Statement, OrderItem, OrderRow}
use service_oriented_archite.Cassandra.Client.{Session, get_order}
use service_oriented_archite.Handlers.Zone.{Handled, batch}
use service_oriented_archite.Handlers.Sound.{stock, IsSound}
use service_oriented_archite.Handlers.Steps.{
  >>=-comes_to, >>-comes_to, raise_if-passed, order_history-comes_to,
}
use service_oriented_archite.Handlers.Effects.Created.{no_delta, Tracks-nil}
use service_oriented_archite.Handlers.Effects.Completed.{settlement}
use service_oriented_archite.Handlers.Orders.{
  Walk, done, after_walk, is_completed, is_nil, handle_order_created, handle_order_completed,
}
use service_oriented_archite.Handlers.Changes.Created.{
  CreatesOrder, handle_order_created-CreatesOrder,
}
use service_oriented_archite.Handlers.Changes.Completed.{
  CompletesOrder, RepeatsOrder, handle_order_completed_once,
}
use service_oriented_archite.Handlers.Changes.RoundTrip.{same_row, same_text}
use service_oriented_archite.Handlers.Accepts.Items.{
  AllServed, AllHeld, reserve_items-served, complete_items-held,
}

after_walk-comes_to :
    {A : Type 0} (w : Walk A) (rest : A → Result Handled) (a : A) {x : Result Handled}
    → w ≡ done a
    → rest a ≡ x
    → after_walk w rest ≡ x
unfolding after_walk
after_walk-comes_to w rest a e h = rw e h

open_is_not_completed :
    (row row' : OrderRow) → row' ≡ row → is_completed row ≡ false → is_completed row' ≡ true → ⊥
open_is_not_completed row row' e h k = cc (ap (λ (r : OrderRow). is_completed r) e)

else-comes_to :
    (b : Bool) (k m : Result Handled) {x : Result Handled}
    → b ≡ false
    → m ≡ x
    → (if b then k else m) ≡ x
else-comes_to b k m e h = rw e h

get_order-answered :
    (cass : Session) (order_id : String)
    → cass.order_answers order_id ≡ true
    → get_order cass order_id ≡ ok (lookup order_id cass.db.orders)
unfolding get_order
get_order-answered cass order_id h = rw h refl

-- The handler accepts the event with a batch that creates the order.
abbrev pub Creates : Session → Fields → Type 0
Creates cass ev =
    (ops : List Statement) × (handle_order_created cass ev ≡ ok (batch ops))
    × CreatesOrder cass.db ev ops

-- The handler accepts the event with a batch that completes the order.
abbrev pub Completes : Session → Fields → Type 0
Completes cass ev =
    (ops : List Statement) × (handle_order_completed cass ev ≡ ok (batch ops))
    × CompletesOrder cass.db ev ops

module _ (cass : Session) (ev : Fields) (order_id type id : String) (t : ℕ)
    (order : text_at "order_id" ev ≡ ok order_id) (timestamp : time_at "timestamp" ev ≡ ok t)
    (named : text_at "event_id" ev ≡ ok id) (typed : text_at "event_type" ev ≡ ok type)
    (answers : (p z : String) → cass.zone_answers p z ≡ true) where
  -- A well-formed order over sound tables, whose reads are answered, with items that are not negative,
  -- newer than their zones and covered by what is available there, is accepted with a batch that creates
  -- it.
  pub handle_order_created-accepts :
      (items : Items)
      → list_at "items" ev ≡ ok items
      → is_nil items ≡ false
      → IsSound cass.db
      → AllServed cass.db t items
      → Creates cass ev
  unfolding handle_order_created
  handle_order_created-accepts items listed nonempty sound served =
      let ((seen, serialized), walked) =
        reserve_items-served cass t answers items no_delta [] [] sound (Tracks-nil cass.db t)
          served in
      let (h, eh) = order_history-comes_to ev type id t timestamp named typed in
      let e : handle_order_created cass ev ≡ ok (batch _) = >>=-comes_to _ _ order_id order (
        >>=-comes_to _ _ items listed (
          >>=-comes_to _ _ t timestamp (
            >>-comes_to _ _ (raise_if-passed _ _ nonempty) (
              >>=-comes_to _ _ _ walked (
                after_walk-comes_to _ _ (seen, serialized) refl
                  (>>=-comes_to _ _ id named (>>=-comes_to _ _ h eh refl))))))) in
      (_, e, handle_order_created-CreatesOrder cass ev _ sound e)

  not_repeated :
      (row : OrderRow) (ops : List Statement)
      → lookup order_id cass.db.orders ≡ some row
      → is_completed row ≡ false
      → CompletesOrder cass.db ev ops ⊎ RepeatsOrder cass.db ev ops
      → CompletesOrder cass.db ev ops
  not_repeated row ops found open_order (inl c) = c
  not_repeated row ops found open_order (inr r) =
      let same : r.order_id ≡ order_id = same_text r.order_id order_id r.order order refl in
      let rows : r.row ≡ row = same_row order_id r.order_id cass.db same found r.found in
      absurd (open_is_not_completed row r.row rows open_order r.completed)

  -- A well-formed completion whose reads are answered, of an order that is stored and not completed, with
  -- items that are not negative, newer than their zones and together covered by what is reserved there,
  -- is accepted with a batch that completes it.
  pub handle_order_completed-accepts :
      (row : OrderRow) (items : List OrderItem)
      → cass.order_answers order_id ≡ true
      → lookup order_id cass.db.orders ≡ some row
      → is_completed row ≡ false
      → row.items ≡ some items
      → AllHeld cass.db t items
      → ((p z : String) → pos 0 ≤ℤ (stock cass.db p z).reserved +ℤ settlement items no_delta p z)
      → Completes cass ev
  unfolding handle_order_completed
  handle_order_completed-accepts row items answered found open_order listed held floor =
      let (seen, walked) =
        complete_items-held cass t answers items no_delta [] (Tracks-nil cass.db t) held floor in
      let (h, eh) = order_history-comes_to ev type id t timestamp named typed in
      let e : handle_order_completed cass ev ≡ ok (batch _) = >>=-comes_to _ _ order_id order (
        >>=-comes_to _ _ t timestamp (
          >>=-comes_to _ _ _ (get_order-answered cass order_id answered) (
            >>=-comes_to _ _ row (rw found refl) (
              else-comes_to _ _ _ open_order (
                >>=-comes_to _ _ items (rw listed refl) (
                  >>=-comes_to _ _ _ walked (
                    after_walk-comes_to _ _ seen refl
                      (>>=-comes_to _ _ id named (>>=-comes_to _ _ h eh refl))))))))) in
      (_, e, not_repeated row _ found open_order (handle_order_completed_once cass ev _ e))
