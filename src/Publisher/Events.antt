-- ===== src/Publisher/Events.antt =====
-- How hm6/consumer/main.py processes each of the four events of the demo of hm6/producer/main.py.
use service_oriented_archite.Base.{
  none, ℕ, ◌+◌, ◌<◌, String, ◌≡◌, ◌≢◌, refl, sym, ap, ◌∙◌, Bool, true, false, Option, some, List,
  ◌∷◌, string_eq, pair_eq, ◌==◌, inl, inr,
}
use service_oriented_archite.Base.Int.{ℤ, pos, ◌+ℤ◌, ◌-ℤ◌, ◌≤ℤ◌, ◌<ℤ◌, int_laws}
use service_oriented_archite.Python.Exception.{insufficient_available, insufficient_to_reserve, ok}
use service_oriented_archite.Python.Datetime.{epoch, datetime_limit}
use service_oriented_archite.Python.Value.{Fields}
use service_oriented_archite.Handlers.{find_handler}
use service_oriented_archite.Handlers.Zone.{is_stale}
use service_oriented_archite.Handlers.Sound.{stock}
use service_oriented_archite.Handlers.Effects.{Received, Shipped, Reserved}
use service_oriented_archite.Handlers.Products.{
  handle_product_received, handle_product_shipped, handle_product_reserved, handle_product_moved,
}
use service_oriented_archite.Handlers.Accepts.{
  handle_product_received-accepts, Taking-decides, shipping, reserving,
}
use service_oriented_archite.Handlers.Accepts.Move.{handle_product_moved-decides}
use service_oriented_archite.Consumer.World.{Message, World, Env, returned}
use service_oriented_archite.Consumer.Deserialize.{Avro}
use service_oriented_archite.Consumer.Process.{session, process_one}
use service_oriented_archite.Publisher.Demo.{Draw, received, reserved, moved, shipped}
use service_oriented_archite.Publisher.Arrivals.{
  read_back, arrived, deserialize-arrived, received-Reads, received-zone, received-supplier,
  reserved-Reads, reserved-zone, moved-Reads, moved-zones, shipped-Reads, shipped-zone,
}
use service_oriented_archite.Publisher.Consumed.{IsCalm, one_zone, two_zones}
use service_oriented_archite.Publisher.Stages.{Stage, one_zone-Stage, two_zones-Stage}

false_ne_true : ◌≢◌ {A = Bool} false true
false_ne_true e = cc

zones_apart : ◌≢◌ {A = String} "ZONE-A" "ZONE-B"
unfolding string_eq
zones_apart e = false_ne_true (ap (λ (z : String). z == "ZONE-A") (sym e))

module _ (first : World) (a r b br : ℤ) (at bt : Option ℕ) (avro : Avro) (env : Env)
    (calm : IsCalm env) (msg : Message) (d : Draw) (ids : List String) (w : World)
    (stage : Stage first a r b br at bt (d.event_id ∷ ids) w)
    (in_time : epoch + d.now_ms < datetime_limit)
    (newer : is_stale (epoch + d.now_ms) at ≡ false) where
  abbrev t : ℕ
  t = epoch + d.now_ms

  newer_source : is_stale t (stock w.db "SKU-001" "ZONE-A").last_ts ≡ false
  newer_source = rw stage.stamped newer

  -- The message is processed to the next stage.
  abbrev Reaches : ℤ → ℤ → ℤ → Option ℕ → Type 0
  Reaches a' r' b' bt' =
      (w' : World) × (process_one avro env msg w ≡ (w', returned))
      × Stage first a' r' b' br (some t) bt' ids w'

  pub receive :
      avro msg.value msg.topic ≡ ok (some (read_back d (received d)))
      → Reaches (a +ℤ pos 100) r b bt
  unfolding find_handler string_eq
  receive read =
      let ev : Fields = arrived d (received d) in
      let reads = received-Reads d in
      let (w', e, m, z) =
        one_zone avro env calm msg w ev d.event_id "PRODUCT_RECEIVED" (pos 100) t reads
          (deserialize-arrived avro msg.value msg.topic d (received d) read in_time)
          handle_product_received refl stage.new_ids.0 refl stage.new_ids.1 Received "ZONE-A"
          (received-zone d)
          (handle_product_received-accepts (session env w) ev "SKU-001" "ZONE-A" "PRODUCT_RECEIVED"
            d.event_id (pos 100) t reads.product (received-zone d) reads.timestamp reads.named
            reads.typed reads.amount (omega int_laws) (calm.zones "SKU-001" "ZONE-A") newer_source
            none (received-supplier d)) in
      (
        w',
        e,
        one_zone-Stage first a r b br at bt d ids w stage w' m Received (pos 100) (a +ℤ pos 100) r t
            (rw (z.changed.1, stage.available) refl) (z.changed.2 ∙ stage.reserved) z,
      )

  disjoint : (q x : ℤ) → q ≤ℤ x → x <ℤ q → ⊥
  disjoint q x h k = omega int_laws

  short_or_covered : (q : ℤ) → q ≤ℤ a → (stock w.db "SKU-001" "ZONE-A").available <ℤ q → ⊥
  short_or_covered q covered short =
      disjoint q (stock w.db "SKU-001" "ZONE-A").available (rw stage.available covered) short

  pub reserve :
      avro msg.value msg.topic ≡ ok (some (read_back d (reserved d)))
      → pos 30 ≤ℤ a
      → Reaches (a -ℤ pos 30) (r +ℤ pos 30) b bt
  unfolding find_handler string_eq
  reserve read covered =
      let decided =
        Taking-decides (session env w) (arrived d (reserved d)) "SKU-001" "ZONE-A"
          "PRODUCT_RESERVED" d.event_id (pos 30) t (reserved-Reads d).product (reserved-zone d)
          (reserved-Reads d).timestamp (reserved-Reads d).named (reserved-Reads d).typed
          (reserved-Reads d).amount (omega int_laws) (calm.zones "SKU-001" "ZONE-A") newer_source
          handle_product_reserved Reserved (λ state. state.available) insufficient_to_reserve
          reserving in
      elim decided [
        | inr (short, _) ↦ absurd (short_or_covered (pos 30) covered short)
        | inl (_, accepted) ↦
            let (w', e, m, z) =
              one_zone avro env calm msg w (arrived d (reserved d)) d.event_id "PRODUCT_RESERVED"
                (pos 30) t (reserved-Reads d)
                (deserialize-arrived avro msg.value msg.topic d (reserved d) read in_time)
                handle_product_reserved refl stage.new_ids.0 refl stage.new_ids.1 Reserved "ZONE-A"
                (reserved-zone d) accepted in
            (
              w',
              e,
              one_zone-Stage first a r b br at bt d ids w stage w' m Reserved (pos 30) (a -ℤ pos 30)
                  (r +ℤ pos 30) t (rw (z.changed.2, stage.available) refl)
                  (rw (z.changed.3, stage.reserved) refl) z,
            )
      ]

  pub ship :
      avro msg.value msg.topic ≡ ok (some (read_back d (shipped d)))
      → pos 10 ≤ℤ a
      → Reaches (a -ℤ pos 10) r b bt
  unfolding find_handler string_eq
  ship read covered =
      let decided =
        Taking-decides (session env w) (arrived d (shipped d)) "SKU-001" "ZONE-A" "PRODUCT_SHIPPED"
          d.event_id (pos 10) t (shipped-Reads d).product (shipped-zone d)
          (shipped-Reads d).timestamp (shipped-Reads d).named (shipped-Reads d).typed
          (shipped-Reads d).amount (omega int_laws) (calm.zones "SKU-001" "ZONE-A") newer_source
          handle_product_shipped Shipped (λ state. state.available) insufficient_available
          shipping in
      elim decided [
        | inr (short, _) ↦ absurd (short_or_covered (pos 10) covered short)
        | inl (_, accepted) ↦
            let (w', e, m, z) =
              one_zone avro env calm msg w (arrived d (shipped d)) d.event_id "PRODUCT_SHIPPED"
                (pos 10) t (shipped-Reads d)
                (deserialize-arrived avro msg.value msg.topic d (shipped d) read in_time)
                handle_product_shipped refl stage.new_ids.0 refl stage.new_ids.1 Shipped "ZONE-A"
                (shipped-zone d) accepted in
            (
              w',
              e,
              one_zone-Stage first a r b br at bt d ids w stage w' m Shipped (pos 10) (a -ℤ pos 10)
                  (r) t (rw (z.changed.2, stage.available) refl)
                  (rw (z.changed.3, stage.reserved) refl) z,
            )
      ]

  -- After a move the time of the target is of no account.
  pub move :
      avro msg.value msg.topic ≡ ok (some (read_back d (moved d)))
      → pos 20 ≤ℤ a
      → is_stale t bt ≡ false
      → (w' : World) × (process_one avro env msg w ≡ (w', returned))
        × Stage first
            (a -ℤ pos 20)
            r
            (b +ℤ pos 20)
            br
            (some t)
            (stock w'.db "SKU-001" "ZONE-B").last_ts
            ids
            w'
  unfolding find_handler string_eq
  move read covered newer_target =
      let reads = moved-Reads d in
      let zones = moved-zones d in
      let decided =
        handle_product_moved-decides (session env w) (arrived d (moved d)) "SKU-001" "ZONE-A"
          "ZONE-B" "PRODUCT_MOVED" d.event_id (pos 20) t reads.product zones.0 zones.1
          reads.timestamp reads.named reads.typed reads.amount (omega int_laws) zones_apart
          (calm.zones "SKU-001" "ZONE-A") (calm.zones "SKU-001" "ZONE-B") newer_source
          (rw stage.target_stamped newer_target) in
      elim decided [
        | inr (short, _) ↦ absurd (short_or_covered (pos 20) covered short)
        | inl (_, (ops, wrote, moves)) ↦
            let (w', e, m, z) =
              two_zones avro env calm msg w (arrived d (moved d)) d.event_id "PRODUCT_MOVED"
                (pos 20) t reads
                (deserialize-arrived avro msg.value msg.topic d (moved d) read in_time)
                handle_product_moved refl stage.new_ids.0 refl stage.new_ids.1 "ZONE-A" "ZONE-B"
                zones.0 zones.1 ops wrote moves in
            (w', e, two_zones-Stage first a r b br at bt d ids w stage w' m (pos 20) t z)
      ]
