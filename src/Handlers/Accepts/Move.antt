-- ===== src/Handlers/Accepts/Move.antt =====
-- When `handle_product_moved` of hm6/consumer/handlers.py accepts an event, and when it refuses it.
use service_oriented_archite.Base.{
  ℕ, String, ◌≡◌, ◌≢◌, refl, some, true, false, List, arith, string_eq, inl, inr, ◌⊎◌, ◌==◌, ◌||◌,
}
use service_oriented_archite.Base.Int.{ℤ, pos, ◌≤ℤ◌, ◌<ℤ◌}
use service_oriented_archite.Python.Exception.{
  Result, ok, raise, validation, insufficient_in_source, same_zone, ◌>>=◌, ◌>>◌, raise_if,
}
use service_oriented_archite.Python.Value.{Fields, text, put, int_at, text_at, time_at}
use service_oriented_archite.Cassandra.Tables.{Statement}
use service_oriented_archite.Cassandra.Client.{Session}
use service_oriented_archite.Handlers.Zone.{
  ZoneState, Handled, batch, is_stale, unless_stale, history_write, read_zone, validate_quantity,
}
use service_oriented_archite.Handlers.Sound.{stock}
use service_oriented_archite.Handlers.Changes.Move.{MovesStock, handle_product_moved-MovesStock}
use service_oriented_archite.Handlers.Products.{handle_product_moved}
use service_oriented_archite.Handlers.Steps.{
  >>=-comes_to, >>-comes_to, raise_if-raised, raise_if-passed, validate_quantity-passed, enough,
  read_zone-answered, history_write-comes_to, item-put_other, nullable_text_at-put,
  nullable_text_at-put_other, nullable_text_at-text_at,
}

-- The handler accepts the event with a batch that moves the stock.
abbrev pub Moves : Session → Fields → Type 0
Moves cass ev =
    (ops : List Statement) × (handle_product_moved cass ev ≡ ok (batch ops))
    × MovesStock cass.db ev ops

module _ (cass : Session) (ev : Fields) (p source target type id : String) (q : ℤ) (t : ℕ)
    (product : text_at "product_id" ev ≡ ok p) (from_zone : text_at "from_zone_id" ev ≡ ok source)
    (to_zone : text_at "to_zone_id" ev ≡ ok target) (timestamp : time_at "timestamp" ev ≡ ok t)
    (named : text_at "event_id" ev ≡ ok id) (typed : text_at "event_type" ev ≡ ok type)
    (amount : int_at "quantity" ev ≡ ok q) (nonneg : pos 0 ≤ℤ q) (apart : source ≢ target)
    (answers_source : cass.zone_answers p source ≡ true)
    (answers_target : cass.zone_answers p target ≡ true)
    (newer_source : is_stale t (stock cass.db p source).last_ts ≡ false)
    (newer_target : is_stale t (stock cass.db p target).last_ts ≡ false) where
  logged : (h : Statement) × (history_write (put "zone_id" (text source) ev) ≡ ok h)
  unfolding time_at text_at int_at string_eq
  logged =
      history_write-comes_to (put "zone_id" (text source) ev) type id (some p) (some source) q t
        (rw nullable_text_at-put_other (nullable_text_at-text_at "product_id" ev p product))
        (nullable_text_at-put "zone_id" (text source) ev refl) (rw item-put_other timestamp)
        (rw item-put_other named) (rw item-put_other typed) (rw item-put_other amount)

  covered_or_not : (have : ℤ) → (q ≤ℤ have) ⊎ (have <ℤ q)
  covered_or_not have = omega arith

  different : (source == target) ≡ false
  different = ground (arith, apart)

  both_newer :
      (is_stale t (stock cass.db p source).last_ts || is_stale t (stock cass.db p target).last_ts)
      ≡ false
  both_newer = rw (newer_source, newer_target) refl

  -- What stands before the test of the stock.
  start-comes_to :
      (rest : ℤ → String → String → String → ℕ → ZoneState → ZoneState → Result Handled)
      {x : Result Handled}
      → rest q p source target t (stock cass.db p source) (stock cass.db p target) ≡ x
      → (do
        qty ← int_at "quantity" ev
        validate_quantity qty
        pid ← text_at "product_id" ev
        from ← text_at "from_zone_id" ev
        to ← text_at "to_zone_id" ev
        ts ← time_at "timestamp" ev
        raise_if (from == to) (validation same_zone)
        src ← read_zone cass pid from
        dst ← read_zone cass pid to
        unless_stale
            (is_stale ts src.last_ts || is_stale ts dst.last_ts)
            (rest qty pid from to ts src dst))
        ≡ x
  unfolding unless_stale
  start-comes_to rest h = >>=-comes_to _ _ q amount (
      >>-comes_to _ _ (validate_quantity-passed q nonneg) (
        >>=-comes_to _ _ p product (
          >>=-comes_to _ _ source from_zone (
            >>=-comes_to _ _ target to_zone (
              >>=-comes_to _ _ t timestamp (
                >>-comes_to _ _ (raise_if-passed _ _ different) (
                  >>=-comes_to _ _ (stock cass.db p source)
                    (read_zone-answered cass p source answers_source)
                    (>>=-comes_to _ _ (stock cass.db p target)
                      (read_zone-answered cass p target answers_target) (rw both_newer h)))))))))

  -- A well-formed move between two zones, newer than both, whose reads are answered, is accepted with a
  -- batch that moves its stock if the source covers its quantity with what is available, and else it is
  -- refused as invalid.
  pub handle_product_moved-decides :
      ((q ≤ℤ (stock cass.db p source).available) × Moves cass ev)
      ⊎ (((stock cass.db p source).available <ℤ q)
          × (handle_product_moved cass ev
              ≡ raise (
                  validation
                    (insufficient_in_source source p (stock cass.db p source).available q))))
  unfolding handle_product_moved
  handle_product_moved-decides = elim (covered_or_not (stock cass.db p source).available) [
    | inl covered ↦
        let e : handle_product_moved cass ev ≡ ok (batch _) = start-comes_to _ (
          >>-comes_to _ _
            (raise_if-passed _ _ (enough (stock cass.db p source).available q covered))
            (>>=-comes_to _ _ id named (>>=-comes_to _ _ logged.0 logged.1 refl))) in
        inl (covered, (_, e, handle_product_moved-MovesStock cass ev _ e))
    | inr short ↦ inr (short, start-comes_to _ (raise_if-raised _ _ _ (ground arith)))
  ]
