-- ===== src/Handlers/Accepts.antt =====
-- When the handlers of hm6/consumer/handlers.py for one zone accept an event, and when they refuse it.
pub mod Move
pub mod Count
pub mod Items
pub mod Orders
pub mod Lifetime
use service_oriented_archite.Base.{
  ℕ, String, ◌≡◌, refl, ◌∙◌, Bool, true, false, Option, some, List, [], ◌∷◌, ◌++◌, arith, string_eq,
  inl, inr, ◌⊎◌, Bool-cases, Option-cases,
}
use service_oriented_archite.Base.Int.{ℤ, pos, ◌≤ℤ◌, ◌<ℤ◌, ltb_ℤ}
use service_oriented_archite.Python.Exception.{
  Result, ok, raise, validation, Exn, Reason, insufficient_available, insufficient_to_reserve,
  insufficient_to_release, ◌>>=◌, ◌>>◌, raise_if,
}
use service_oriented_archite.Python.Value.{
  Value, Fields, get, put, get-put, item, is_falsy, int_at, text_at, time_at, nullable_text_at,
  int_or_zero,
}
use service_oriented_archite.Cassandra.Tables.{Statement, insert_history}
use service_oriented_archite.Python.Datetime.{date}
use service_oriented_archite.Handlers.Jsonable.{jsonable}
use service_oriented_archite.Cassandra.Client.{Session, get_zone_state}
use service_oriented_archite.Handlers.{Handler}
use service_oriented_archite.Handlers.Zone.{
  ZoneState, Handled, batch, read_zone, is_stale, unless_stale, validate_quantity, history_write,
}
use service_oriented_archite.Handlers.Sound.{stock}
use service_oriented_archite.Handlers.Effects.{Change, Received, Shipped, Reserved, Released}
use service_oriented_archite.Handlers.Changes.{ChangesZone}
use service_oriented_archite.Handlers.Changes.Products.{
  ZoneHandler, receipt, shipment, reservation, release, ZoneHandler-ChangesZone,
}
use service_oriented_archite.Handlers.Products.{
  handle_product_received, handle_product_shipped, handle_product_reserved, handle_product_released,
}
use service_oriented_archite.Handlers.Steps.{
  >>=-comes_to, >>-comes_to, raise_if-raised, raise_if-passed, validate_quantity-passed, enough,
  int_or_zero-int_at, read_zone-answered, history_write-comes_to, nullable_text_at-text_at,
}

-- The handler accepts the event with a batch that changes its zone.
abbrev pub WritesZone : (Session → Fields → Result Handled) → Change → Session → Fields → Type 0
WritesZone handler change cass ev =
    (ops : List Statement) × (handler cass ev ≡ ok (batch ops))
    × ChangesZone "quantity" change cass.db ev ops

-- The handlers that take a quantity from a zone: what they change, what has to cover the quantity, and
-- the reason of a refusal.
pub data Taking
    : Handler → Change → (ZoneState → ℤ) → (String → String → ℤ → ℤ → Reason) → Type 1 where
  shipping : Taking handle_product_shipped Shipped (λ s. s.available) insufficient_available
  reserving : Taking handle_product_reserved Reserved (λ s. s.available) insufficient_to_reserve
  releasing : Taking handle_product_released Released (λ s. s.reserved) insufficient_to_release

module _ (cass : Session) (ev : Fields) (p z type id : String) (q : ℤ) (t : ℕ)
    (product : text_at "product_id" ev ≡ ok p) (zone : text_at "zone_id" ev ≡ ok z)
    (timestamp : time_at "timestamp" ev ≡ ok t) (named : text_at "event_id" ev ≡ ok id)
    (typed : text_at "event_type" ev ≡ ok type) (amount : int_at "quantity" ev ≡ ok q)
    (nonneg : pos 0 ≤ℤ q) (answers : cass.zone_answers p z ≡ true)
    (newer : is_stale t (stock cass.db p z).last_ts ≡ false) where
  logged : (h : Statement) × (history_write ev ≡ ok h)
  logged =
      history_write-comes_to ev type id (some p) (some z) q t
        (nullable_text_at-text_at "product_id" ev p product)
        (nullable_text_at-text_at "zone_id" ev z zone) timestamp named typed amount

  -- The end of a handler.
  writes-comes_to :
      (writes : String → List Statement)
      → (do
        event_id ← text_at "event_id" ev
        history ← history_write ev
        ok (batch (writes event_id ++ history ∷ [])))
        ≡ ok (batch (writes id ++ logged.0 ∷ []))
  writes-comes_to writes = >>=-comes_to _ _ id named (>>=-comes_to _ _ logged.0 logged.1 refl)

  -- What stands before the test of the stock.
  start-comes_to :
      (rest : ℤ → String → String → ℕ → ZoneState → Result Handled) {x : Result Handled}
      → rest q p z t (stock cass.db p z) ≡ x
      → (do
        qty ← int_at "quantity" ev
        validate_quantity qty
        pid ← text_at "product_id" ev
        zid ← text_at "zone_id" ev
        ts ← time_at "timestamp" ev
        s ← read_zone cass pid zid
        unless_stale (is_stale ts s.last_ts) (rest qty pid zid ts s))
        ≡ x
  unfolding unless_stale
  start-comes_to rest h = >>=-comes_to _ _ q amount (
      >>-comes_to _ _ (validate_quantity-passed q nonneg) (
        >>=-comes_to _ _ p product (
          >>=-comes_to _ _ z zone (
            >>=-comes_to _ _ t timestamp (
              >>=-comes_to _ _ (stock cass.db p z) (read_zone-answered cass p z answers)
                (rw newer h))))))

  covered_or_not : (have : ℤ) → (q ≤ℤ have) ⊎ (have <ℤ q)
  covered_or_not have = omega arith

  -- A well-formed receipt with a text or nothing as its supplier, newer than its zone, whose read is
  -- answered, is accepted with a batch that changes its zone.
  pub handle_product_received-accepts :
      (supplier : Option String)
      → nullable_text_at "supplier_id" ev ≡ ok supplier
      → WritesZone handle_product_received Received cass ev
  unfolding handle_product_received
  handle_product_received-accepts supplier supplied =
      let e : handle_product_received cass ev ≡ ok (batch _) =
        start-comes_to _ (>>=-comes_to _ _ supplier supplied (writes-comes_to _)) in
      (_, e, ZoneHandler-ChangesZone _ _ _ cass ev _ receipt e)

  -- A handler that is the usual steps, with a test of what is held, decides.
  decides_of_steps :
      (handler : Handler) (change : Change) (held : ZoneState → ℤ)
      (reason : String → String → ℤ → ℤ → Reason)
      (writes : ℤ → String → String → ℕ → ZoneState → String → List Statement)
      → handler cass ev ≡ (do
        qty ← int_at "quantity" ev
        validate_quantity qty
        pid ← text_at "product_id" ev
        zid ← text_at "zone_id" ev
        ts ← time_at "timestamp" ev
        s ← read_zone cass pid zid
        unless_stale (is_stale ts s.last_ts) do
          raise_if (ltb_ℤ (held s) qty) (validation (reason zid pid (held s) qty))
          event_id ← text_at "event_id" ev
          history ← history_write ev
          ok (batch (writes qty pid zid ts s event_id ++ history ∷ [])))
      → ((ops : List Statement)
          → handler cass ev ≡ ok (batch ops)
          → ChangesZone "quantity" change cass.db ev ops)
      → ((q ≤ℤ held (stock cass.db p z)) × WritesZone handler change cass ev)
        ⊎ ((held (stock cass.db p z) <ℤ q)
            × (handler cass ev ≡ raise (validation (reason z p (held (stock cass.db p z)) q))))
  decides_of_steps handler change held reason writes steps changes =
      elim (covered_or_not (held (stock cass.db p z))) [
        | inl covered ↦
            let e : handler cass ev ≡ ok (batch _) =
              steps
              ∙ start-comes_to _ (
                  >>-comes_to _ _
                    (raise_if-passed _ _ (enough (held (stock cass.db p z)) q covered))
                    (writes-comes_to (writes q p z t (stock cass.db p z)))) in
            inl (covered, (_, e, changes _ e))
        | inr short ↦ inr (short, steps ∙ start-comes_to _ (raise_if-raised _ _ _ (ground arith)))
      ]

  -- A well-formed shipment, reservation or release, newer than its zone, whose read is answered, is
  -- accepted with a batch that changes its zone if the zone covers its quantity, with what is available
  -- or, for a release, reserved; else it is refused as invalid for its reason.
  pub Taking-decides :
      (handler : Handler) (change : Change) (held : ZoneState → ℤ)
      (reason : String → String → ℤ → ℤ → Reason)
      → Taking handler change held reason
      → ((q ≤ℤ held (stock cass.db p z)) × WritesZone handler change cass ev)
        ⊎ ((held (stock cass.db p z) <ℤ q)
            × (handler cass ev ≡ raise (validation (reason z p (held (stock cass.db p z)) q))))
  unfolding handle_product_shipped handle_product_reserved handle_product_released
  Taking-decides handler change held reason shipping =
      decides_of_steps handle_product_shipped Shipped (λ s. s.available) insufficient_available _
        refl (λ ops e. ZoneHandler-ChangesZone _ _ _ cass ev ops shipment e)
  Taking-decides handler change held reason reserving =
      decides_of_steps handle_product_reserved Reserved (λ s. s.available) insufficient_to_reserve _
        refl (λ ops e. ZoneHandler-ChangesZone _ _ _ cass ev ops reservation e)
  Taking-decides handler change held reason releasing =
      decides_of_steps handle_product_released Released (λ s. s.reserved) insufficient_to_release _
        refl (λ ops e. ZoneHandler-ChangesZone _ _ _ cass ev ops release e)
