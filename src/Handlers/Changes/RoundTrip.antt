-- ===== src/Handlers/Changes/RoundTrip.antt =====
-- An order of hm6/consumer/handlers.py from its creation to its completion.
use mathlib.Core.Path.{◌≡⟨◌⟩◌, ◌∎}
use service_oriented_archite.Base.{
  ℕ, String, ◌≡◌, refl, subst, ◌∙◌, ap, some, List, string_eq, true, false, ◌⊎◌, inl, inr,
}
use service_oriented_archite.Base.Int.{ℤ, pos, ◌+ℤ◌, int_laws}
use service_oriented_archite.Base.Table.{lookup}
use service_oriented_archite.Python.Exception.{Result, ok}
use service_oriented_archite.Python.Value.{Fields, Items, text_at}
use service_oriented_archite.Cassandra.Tables.{Db, Statement, OrderItem, OrderRow, apply_all}
use service_oriented_archite.Cassandra.Client.{Session}
use service_oriented_archite.Handlers.Zone.{batch}
use service_oriented_archite.Handlers.Sound.{stock, IsSound}
use service_oriented_archite.Handlers.Effects.Reserve.{demand, stored}
use service_oriented_archite.Handlers.Effects.Created.{no_delta}
use service_oriented_archite.Handlers.Effects.Completed.{settlement}
use service_oriented_archite.Handlers.Orders.{
  is_completed, handle_order_created, handle_order_completed,
}
use service_oriented_archite.Handlers.Changes.Created.{
  created_row, CreatesOrder, handle_order_created-CreatesOrder,
}
use service_oriented_archite.Handlers.Changes.Completed.{
  CompletesOrder, RepeatsOrder, handle_order_completed_once, settlement-stored,
}

pub created_row_open : (items : Items) (t : ℕ) → is_completed (created_row items t) ≡ false
unfolding string_eq
created_row_open items t = refl

open_is_not_completed :
    (items : Items) (t : ℕ) (row : OrderRow)
    → row ≡ created_row items t
    → is_completed row ≡ true
    → ⊥
open_is_not_completed items t row e h =
    cc (created_row_open items t, ap (λ (r : OrderRow). is_completed r) e)

-- The row that a completion finds after the creation is that of the creation.
pub same_row :
    (order order' : String) {row row' : OrderRow} (db : Db)
    → order' ≡ order
    → lookup order db.orders ≡ some row
    → lookup order' db.orders ≡ some row'
    → row' ≡ row
same_row order order' db e h h' = cc (ap (λ o. lookup o db.orders) e)

pub same_text : (s t : String) {u v : Result String} → u ≡ ok s → v ≡ ok t → u ≡ v → s ≡ t
same_text s t p q e = cc

same_items :
    (xs ys : List OrderItem) (row row' : OrderRow)
    → row.items ≡ some xs
    → row'.items ≡ some ys
    → row' ≡ row
    → ys ≡ xs
same_items xs ys row row' h h' e = cc (ap (λ (r : OrderRow). r.items) e)

pub cancel : (a d s : ℤ) → s +ℤ d ≡ pos 0 +ℤ pos 0 → a +ℤ d +ℤ s ≡ a
cancel a d s h =
    a +ℤ d +ℤ s
    ≡⟨ omega int_laws ⟩ a +ℤ (s +ℤ d)
    ≡⟨ ap (λ x. a +ℤ x) h ⟩ a +ℤ (pos 0 +ℤ pos 0)
    ≡⟨ omega int_laws ⟩ a ∎

module _ (db : Db) {ev ev' : Fields} {ops ops' : List Statement} (c : CreatesOrder db ev ops) where
  -- The items that the completion settles are those that the order was created with.
  settled_items :
      (d : CompletesOrder (apply_all ops db) ev' ops')
      → text_at "order_id" ev' ≡ text_at "order_id" ev
      → d.items ≡ stored c.items
  settled_items d order =
      same_items (stored c.items) d.items (created_row c.items c.t) d.row refl d.listed (
        same_row c.order_id d.order_id (apply_all ops db)
          (same_text d.order_id c.order_id d.order c.order order) c.row d.found)

  completion_settles :
      CompletesOrder (apply_all ops db) ev' ops' ⊎ RepeatsOrder (apply_all ops db) ev' ops'
      → text_at "order_id" ev' ≡ text_at "order_id" ev
      → (p z : String)
      → ((stock (apply_all ops' (apply_all ops db)) p z).available ≡ (stock db p z).available)
        × ((stock (apply_all ops' (apply_all ops db)) p z).reserved ≡ (stock db p z).reserved)
  completion_settles (inl d) order p z = (
    (d.zones p z).0 ∙ (c.zones p z).0,
    (d.zones p z).1
        ∙ rw ((c.zones p z).1, settled_items d order)
            (cancel (stock db p z).reserved (demand c.items no_delta p z)
              (settlement (stored c.items) no_delta p z)
              (settlement-stored c.items no_delta no_delta p z)),
  )
  completion_settles (inr r) order p z = absurd (
      open_is_not_completed c.items c.t r.row
        (same_row c.order_id r.order_id (apply_all ops db)
          (same_text r.order_id c.order_id r.order c.order order) c.row r.found)
        r.completed)

-- If an accepted order is completed before any other event, every zone is back at the available and
-- reserved quantities that it had before the order.
pub order_round_trip :
    (cass cass' : Session) (ev ev' : Fields) (ops ops' : List Statement)
    → IsSound cass.db
    → handle_order_created cass ev ≡ ok (batch ops)
    → cass'.db ≡ apply_all ops cass.db
    → text_at "order_id" ev' ≡ text_at "order_id" ev
    → handle_order_completed cass' ev' ≡ ok (batch ops')
    → (p z : String)
    → ((stock (apply_all ops' cass'.db) p z).available ≡ (stock cass.db p z).available)
      × ((stock (apply_all ops' cass'.db) p z).reserved ≡ (stock cass.db p z).reserved)
order_round_trip cass cass' ev ev' ops ops' sound created same order completed p z = rw same (
    completion_settles cass.db (handle_order_created-CreatesOrder cass ev ops sound created)
      (subst (λ db. CompletesOrder db ev' ops' ⊎ RepeatsOrder db ev' ops') same
        (handle_order_completed_once cass' ev' ops' completed))
      order p z)
