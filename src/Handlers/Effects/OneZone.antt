-- ===== src/Handlers/Effects/OneZone.antt =====
-- What the batches of the one-zone handlers of hm6/consumer/handlers.py are.
use service_oriented_archite.Base.{◌≡◌, refl, ap, string_eq}
use service_oriented_archite.Base.Int.{ℤ, pos, ◌+ℤ◌, ◌-ℤ◌}
use service_oriented_archite.Python.Ensures.{Ensures, Ensures-guard, Ensures-bind, Ensures-then}
use service_oriented_archite.Python.Value.{Fields, num, put, text_at, as_text}
use service_oriented_archite.Python.Exception.{◌>>=◌}
use service_oriented_archite.Handlers.Steps.{item-put_other}
use service_oriented_archite.Cassandra.Client.{Session}
use service_oriented_archite.Handlers.Effects.{
  Received, Shipped, Reserved, Released, Counted, IsZoneBatch, OnBatch, nonneg_of_validate,
  ≤ℤ_of_guard, Ensures-unless_stale, zone_batch,
}
use service_oriented_archite.Handlers.Products.{
  handle_product_received, handle_product_shipped, handle_product_reserved, handle_product_released,
  handle_inventory_counted, or_else,
}

-- A receipt adds the quantity to what is available.
pub handle_product_received-writes :
    (cass : Session) (ev : Fields)
    → Ensures
        (OnBatch (IsZoneBatch "quantity" Received cass.db ev))
        (handle_product_received cass ev)
unfolding handle_product_received
handle_product_received-writes cass ev = Ensures-bind _ _ λ q eq. Ensures-then _ _ λ valid.
    Ensures-bind _ _ λ p ep. Ensures-bind _ _ λ z ez. Ensures-bind _ _ λ t et.
      Ensures-bind _ _ λ s es. Ensures-unless_stale _ _ _ λ newer. Ensures-bind _ _ λ supplier _.
        zone_batch cass ev ev ep ez eq et s es newer (s.available +ℤ q) (s.reserved)
          (or_else supplier s.supplier_id) (nonneg_of_validate q valid, refl, refl) refl

-- A shipment takes the quantity from what is available, which covers it.
pub handle_product_shipped-writes :
    (cass : Session) (ev : Fields)
    → Ensures (OnBatch (IsZoneBatch "quantity" Shipped cass.db ev)) (handle_product_shipped cass ev)
unfolding handle_product_shipped
handle_product_shipped-writes cass ev = Ensures-bind _ _ λ q eq. Ensures-then _ _ λ valid.
    Ensures-bind _ _ λ p ep. Ensures-bind _ _ λ z ez. Ensures-bind _ _ λ t et.
      Ensures-bind _ _ λ s es. Ensures-unless_stale _ _ _ λ newer. Ensures-guard _ _ _ λ enough.
        zone_batch cass ev ev ep ez eq et s es newer (s.available -ℤ q) (s.reserved) s.supplier_id
          (nonneg_of_validate q valid, ≤ℤ_of_guard s.available q enough, refl, refl) refl

-- A reservation moves the quantity from available to reserved.
pub handle_product_reserved-writes :
    (cass : Session) (ev : Fields)
    → Ensures
        (OnBatch (IsZoneBatch "quantity" Reserved cass.db ev))
        (handle_product_reserved cass ev)
unfolding handle_product_reserved
handle_product_reserved-writes cass ev = Ensures-bind _ _ λ q eq. Ensures-then _ _ λ valid.
    Ensures-bind _ _ λ p ep. Ensures-bind _ _ λ z ez. Ensures-bind _ _ λ t et.
      Ensures-bind _ _ λ s es. Ensures-unless_stale _ _ _ λ newer. Ensures-guard _ _ _ λ enough.
        zone_batch cass ev ev ep ez eq et s es newer (s.available -ℤ q) (s.reserved +ℤ q)
          s.supplier_id (nonneg_of_validate q valid, ≤ℤ_of_guard s.available q enough, refl, refl)
          refl

-- A release moves the quantity from reserved to available.
pub handle_product_released-writes :
    (cass : Session) (ev : Fields)
    → Ensures
        (OnBatch (IsZoneBatch "quantity" Released cass.db ev))
        (handle_product_released cass ev)
unfolding handle_product_released
handle_product_released-writes cass ev = Ensures-bind _ _ λ q eq. Ensures-then _ _ λ valid.
    Ensures-bind _ _ λ p ep. Ensures-bind _ _ λ z ez. Ensures-bind _ _ λ t et.
      Ensures-bind _ _ λ s es. Ensures-unless_stale _ _ _ λ newer. Ensures-guard _ _ _ λ enough.
        zone_batch cass ev ev ep ez eq et s es newer (s.available +ℤ q) (s.reserved -ℤ q)
          s.supplier_id (nonneg_of_validate q valid, ≤ℤ_of_guard s.reserved q enough, refl, refl)
          refl

same_event_id :
    (q : ℤ) (ev : Fields) → text_at "event_id" (put "quantity" (num q) ev) ≡ text_at "event_id" ev
unfolding text_at string_eq
same_event_id q ev = ap (λ r. r >>= as_text) (item-put_other "event_id" "quantity" (num q) ev refl)

-- A count sets what is available, and leaves what is reserved.
pub handle_inventory_counted-writes :
    (cass : Session) (ev : Fields)
    → Ensures
        (OnBatch (IsZoneBatch "counted_quantity" Counted cass.db ev))
        (handle_inventory_counted cass ev)
unfolding handle_inventory_counted
handle_inventory_counted-writes cass ev = Ensures-bind _ _ λ p ep. Ensures-bind _ _ λ z ez.
    Ensures-bind _ _ λ t et. Ensures-bind _ _ λ q eq. Ensures-guard _ _ _ λ valid.
      Ensures-bind _ _ λ s es. Ensures-unless_stale _ _ _ λ newer.
        zone_batch cass ev (put "quantity" (num q) ev) ep ez eq et s es newer q s.reserved
          s.supplier_id (≤ℤ_of_guard q (pos 0) valid, refl, refl) (same_event_id q ev)
