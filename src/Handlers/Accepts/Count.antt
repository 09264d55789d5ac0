-- ===== src/Handlers/Accepts/Count.antt =====
-- When `handle_inventory_counted` of hm6/consumer/handlers.py accepts an event, and when it refuses it.
use service_oriented_archite.Base.{
  ℕ, String, ◌≡◌, refl, some, true, false, List, arith, string_eq, inl, inr, ◌⊎◌,
}
use service_oriented_archite.Base.Int.{ℤ, pos, ◌≤ℤ◌, ◌<ℤ◌}
use service_oriented_archite.Python.Exception.{ok, raise, validation, negative_count}
use service_oriented_archite.Python.Value.{Fields, num, put, int_at, text_at, time_at}
use service_oriented_archite.Cassandra.Tables.{Statement}
use service_oriented_archite.Cassandra.Client.{Session}
use service_oriented_archite.Handlers.Zone.{batch, is_stale, history_write}
use service_oriented_archite.Handlers.Sound.{stock}
use service_oriented_archite.Handlers.Effects.{Counted}
use service_oriented_archite.Handlers.Changes.{ChangesZone}
use service_oriented_archite.Handlers.Changes.Products.{inventory, ZoneHandler-ChangesZone}
use service_oriented_archite.Handlers.Products.{handle_inventory_counted}
use service_oriented_archite.Handlers.Steps.{
  >>=-comes_to, >>-comes_to, unless_stale-comes_to, raise_if-raised, raise_if-passed,
  read_zone-answered, history_write-comes_to, nullable_text_at-put_other, nullable_text_at-text_at,
  item-put_other, int_at-put,
}

-- The handler accepts the event with a batch that sets what its zone has available.
abbrev pub Counts : Session → Fields → Type 0
Counts cass ev =
    (ops : List Statement) × (handle_inventory_counted cass ev ≡ ok (batch ops))
    × ChangesZone "counted_quantity" Counted cass.db ev ops

module _ (cass : Session) (ev : Fields) (p z type id : String) (q : ℤ) (t : ℕ)
    (product : text_at "product_id" ev ≡ ok p) (zone : text_at "zone_id" ev ≡ ok z)
    (timestamp : time_at "timestamp" ev ≡ ok t) (named : text_at "event_id" ev ≡ ok id)
    (typed : text_at "event_type" ev ≡ ok type) (amount : int_at "counted_quantity" ev ≡ ok q)
    (answers : cass.zone_answers p z ≡ true)
    (newer : is_stale t (stock cass.db p z).last_ts ≡ false) where
  logged : (h : Statement) × (history_write (put "quantity" (num q) ev) ≡ ok h)
  unfolding time_at text_at string_eq
  logged =
      history_write-comes_to (put "quantity" (num q) ev) type id (some p) (some z) q t
        (rw nullable_text_at-put_other (nullable_text_at-text_at "product_id" ev p product))
        (rw nullable_text_at-put_other (nullable_text_at-text_at "zone_id" ev z zone))
        (rw item-put_other timestamp) (rw item-put_other named) (rw item-put_other typed)
        (int_at-put "quantity" q ev refl)

  negative_or_not : (pos 0 ≤ℤ q) ⊎ (q <ℤ pos 0)
  negative_or_not = omega arith

  -- A well-formed count, newer than its zone, whose read is answered, is accepted with a batch that sets
  -- what its zone has available if it is not negative, and else it is refused as invalid.
  pub handle_inventory_counted-decides :
      ((pos 0 ≤ℤ q) × Counts cass ev)
      ⊎ ((q <ℤ pos 0) × (handle_inventory_counted cass ev ≡ raise (validation (negative_count q))))
  unfolding handle_inventory_counted
  handle_inventory_counted-decides = elim negative_or_not [
    | inl nonneg ↦
        let e : handle_inventory_counted cass ev ≡ ok (batch _) = >>=-comes_to _ _ p product (
          >>=-comes_to _ _ z zone (
            >>=-comes_to _ _ t timestamp (
              >>=-comes_to _ _ q amount (
                >>-comes_to _ _ (raise_if-passed _ _ (ground arith)) (
                  >>=-comes_to _ _ (stock cass.db p z) (read_zone-answered cass p z answers) (
                    unless_stale-comes_to _ _ newer
                      (>>=-comes_to _ _ id named (>>=-comes_to _ _ logged.0 logged.1 refl)))))))) in
        inl (nonneg, (_, e, ZoneHandler-ChangesZone _ _ _ cass ev _ inventory e))
    | inr negative ↦ inr (
      negative,
      >>=-comes_to _ _ p product (
          >>=-comes_to _ _ z zone (
            >>=-comes_to _ _ t timestamp
              (>>=-comes_to _ _ q amount (raise_if-raised _ _ _ (ground arith))))),
    )
  ]
