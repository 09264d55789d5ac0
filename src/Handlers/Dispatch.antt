-- ===== src/Handlers/Dispatch.antt =====
-- A split on the handlers of the table `HANDLERS` of hm6/consumer/handlers.py.
use mathlib.Core.Option.{some-injective, none-ne-some}
use service_oriented_archite.Base.{
  String, ◌≡◌, subst, Bool, true, false, Option, none, some, string_eq, if◌then◌else◌,
}
use service_oriented_archite.Handlers.{Handler, find_handler}
use service_oriented_archite.Handlers.Products.{
  handle_product_received, handle_product_shipped, handle_product_moved, handle_product_reserved,
  handle_product_released, handle_inventory_counted,
}
use service_oriented_archite.Handlers.Orders.{handle_order_created, handle_order_completed}

module _ {ℓ} (P : Handler → Type ℓ) where
  -- One round of the table: its own handler, or one of the rest.
  choose :
      (b : Bool) (head : Handler) (rest : Option Handler) (handler : Handler)
      → P head
      → (rest ≡ some handler → P handler)
      → (if b then some head else rest) ≡ some handler
      → P handler
  choose true head rest handler good others e = subst P (some-injective head handler e) good
  choose false head rest handler good others e = others e

  pub find_handler-cases :
      P handle_product_received
      → P handle_product_shipped
      → P handle_product_moved
      → P handle_product_reserved
      → P handle_product_released
      → P handle_inventory_counted
      → P handle_order_created
      → P handle_order_completed
      → (event_type : String) (handler : Handler) → find_handler event_type ≡ some handler
      → P handler
  unfolding find_handler
  find_handler-cases received shipped moved reserved released counted created completed type handler
        e =
      choose _ _ _ handler received
        (choose _ _ _ handler shipped (
          choose _ _ _ handler moved (
            choose _ _ _ handler reserved (
              choose _ _ _ handler released (
                choose _ _ _ handler counted (
                  choose _ _ _ handler created (
                    choose _ _ _ handler completed (λ (none_left : none ≡ some handler).
                      absurd (none-ne-some handler none_left)))))))))
        e
