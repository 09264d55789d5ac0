-- ===== src/Handlers/Local.antt =====
-- The handlers of hm6/consumer/handlers.py for one zone read no other zone.
use service_oriented_archite.Base.{ℕ, String, ◌≡◌, refl, ap}
use service_oriented_archite.Base.Int.{ℤ}
use service_oriented_archite.Python.Exception.{Result, ok, raise, ◌>>=◌, ◌>>◌}
use service_oriented_archite.Python.Value.{Fields, int_at, text_at, time_at}
use service_oriented_archite.Cassandra.Client.{Session}
use service_oriented_archite.Handlers.{Handler}
use service_oriented_archite.Handlers.Zone.{
  ZoneState, Handled, read_zone, is_stale, unless_stale, validate_quantity,
}
use service_oriented_archite.Handlers.Effects.{Change}
use service_oriented_archite.Handlers.Changes.Products.{
  ZoneHandler, receipt, shipment, reservation, release, inventory,
}
use service_oriented_archite.Handlers.Products.{
  handle_product_received, handle_product_shipped, handle_product_reserved, handle_product_released,
  handle_inventory_counted,
}

>>=-agree :
    {A B : Type 0} (m : Result A) (f g : A → Result B)
    → ((a : A) → m ≡ ok a → f a ≡ g a)
    → (m >>= f) ≡ (m >>= g)
unfolding ◌>>=◌
>>=-agree (ok a) f g h = h a refl
>>=-agree (raise e) f g h = refl

>>-agree : {B : Type 0} (m : Result (Unit {0})) (k l : Result B) → k ≡ l → (m >> k) ≡ (m >> l)
>>-agree m k l h = ap (λ r. m >> r) h

first_agrees : {A B : Type 0} (m n : Result A) (f : A → Result B) → m ≡ n → (m >>= f) ≡ (n >>= f)
first_agrees m n f h = ap (λ r. r >>= f) h

module _ (cass cass' : Session) (ev : Fields)
    (same : (p z : String)
      → text_at "product_id" ev ≡ ok p
      → text_at "zone_id" ev ≡ ok z
      → read_zone cass p z ≡ read_zone cass' p z) where
  quantity_handlers_agree :
      (rest : ℤ → String → String → ℕ → ZoneState → Result Handled)
      → (do
        qty ← int_at "quantity" ev
        validate_quantity qty
        pid ← text_at "product_id" ev
        zid ← text_at "zone_id" ev
        ts ← time_at "timestamp" ev
        s ← read_zone cass pid zid
        unless_stale (is_stale ts s.last_ts) (rest qty pid zid ts s))
        ≡ (do
          qty ← int_at "quantity" ev
          validate_quantity qty
          pid ← text_at "product_id" ev
          zid ← text_at "zone_id" ev
          ts ← time_at "timestamp" ev
          s ← read_zone cass' pid zid
          unless_stale (is_stale ts s.last_ts) (rest qty pid zid ts s))
  quantity_handlers_agree rest = >>=-agree _ _ _ λ q _. >>-agree _ _ _ (
      >>=-agree _ _ _ λ p product.
        >>=-agree _ _ _ λ z zone. >>=-agree _ _ _ λ t _. first_agrees _ _ _ (same p z product zone))

  inventory_agrees : handle_inventory_counted cass ev ≡ handle_inventory_counted cass' ev
  unfolding handle_inventory_counted
  inventory_agrees = >>=-agree _ _ _ λ p product. >>=-agree _ _ _ λ z zone.
      >>=-agree _ _ _
        λ t _. >>=-agree _ _ _ λ q _. >>-agree _ _ _ (first_agrees _ _ _ (same p z product zone))

  -- Where two sessions answer the read of the zone of an event alike, a handler of one zone does the
  -- same over both.
  pub ZoneHandler-local :
      (handler : Handler) (key : String) (change : Change)
      → ZoneHandler handler key change
      → handler cass ev ≡ handler cass' ev
  unfolding handle_product_received handle_product_shipped handle_product_reserved
      handle_product_released
  ZoneHandler-local handler key change receipt = quantity_handlers_agree _
  ZoneHandler-local handler key change shipment = quantity_handlers_agree _
  ZoneHandler-local handler key change reservation = quantity_handlers_agree _
  ZoneHandler-local handler key change release = quantity_handlers_agree _
  ZoneHandler-local handler key change inventory = inventory_agrees
