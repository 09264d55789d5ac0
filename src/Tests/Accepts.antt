-- ===== src/Tests/Accepts.antt =====
-- Well-formed events for a filled zone, accepted and refused.
use service_oriented_archite.Base.{
  none, String, false, ◌≢◌, ◌==◌, ◌+◌, ◌≡◌, ◌⊎◌, refl, arith, string_eq, pair_eq,
}
use service_oriented_archite.Base.Int.{pos, ◌≤ℤ◌, ◌<ℤ◌}
use service_oriented_archite.Base.Table.{lookup, insert}
use service_oriented_archite.Python.Exception.{
  ◌>>=◌, raise, validation, insufficient_available, insufficient_in_source, negative_count,
}
use service_oriented_archite.Python.Datetime.{epoch}
use service_oriented_archite.Python.Value.{get, nullable_text_at, int_at, text_at, time_at}
use service_oriented_archite.Cassandra.Tables.{apply, apply_all}
use service_oriented_archite.Handlers.Zone.{zone_state, is_stale, zone_writes}
use service_oriented_archite.Handlers.Sound.{stock}
use service_oriented_archite.Handlers.Effects.{Received, Shipped}
use service_oriented_archite.Handlers.Products.{
  handle_product_received, handle_product_shipped, handle_product_moved, handle_inventory_counted,
}
use service_oriented_archite.Handlers.Accepts.{
  WritesZone, shipping, handle_product_received-accepts, Taking-decides,
}
use service_oriented_archite.Handlers.Accepts.Move.{Moves, handle_product_moved-decides}
use service_oriented_archite.Handlers.Accepts.Count.{Counts, handle_inventory_counted-decides}
use service_oriented_archite.Tests.Warehouse.{over, filled, zone_event, move}

handle_product_received-accepts_example :
    WritesZone handle_product_received Received
      (over filled)
      (zone_event "PRODUCT_RECEIVED" "quantity" 5)
unfolding string_eq pair_eq lookup insert get int_at text_at time_at nullable_text_at ◌>>=◌ apply
    apply_all zone_state is_stale zone_writes
handle_product_received-accepts_example =
    handle_product_received-accepts (over filled) (zone_event "PRODUCT_RECEIVED" "quantity" 5)
      "bolt" "A" "PRODUCT_RECEIVED" "e1" (pos 5) (epoch + 60000) refl refl refl refl refl refl
      (omega arith) refl refl none refl

Taking-decides_example :
    ((pos 4 ≤ℤ (stock filled "bolt" "A").available)
      × WritesZone handle_product_shipped Shipped
          (over filled)
          (zone_event "PRODUCT_SHIPPED" "quantity" 4))
    ⊎ (((stock filled "bolt" "A").available <ℤ pos 4)
        × (handle_product_shipped (over filled) (zone_event "PRODUCT_SHIPPED" "quantity" 4)
            ≡ raise (
                validation
                  (insufficient_available "A" "bolt" (stock filled "bolt" "A").available (pos 4)))))
unfolding string_eq pair_eq lookup insert int_at text_at time_at ◌>>=◌ apply apply_all zone_state
    is_stale zone_writes
Taking-decides_example =
    Taking-decides (over filled) (zone_event "PRODUCT_SHIPPED" "quantity" 4) "bolt" "A"
      "PRODUCT_SHIPPED" "e1" (pos 4) (epoch + 60000) refl refl refl refl refl refl (omega arith)
      refl refl handle_product_shipped Shipped (λ s. s.available) insufficient_available shipping

apart : (a b : String) → (a == b) ≡ false → a ≢ b
apart a b h = ground arith

handle_product_moved-decides_example :
    ((pos 4 ≤ℤ (stock filled "bolt" "A").available) × Moves (over filled) move)
    ⊎ (((stock filled "bolt" "A").available <ℤ pos 4)
        × (handle_product_moved (over filled) move
            ≡ raise (
                validation
                  (insufficient_in_source "A" "bolt" (stock filled "bolt" "A").available (pos 4)))))
unfolding string_eq pair_eq lookup insert int_at text_at time_at ◌>>=◌ apply apply_all zone_state
    is_stale zone_writes
handle_product_moved-decides_example =
    handle_product_moved-decides (over filled) move "bolt" "A" "B" "PRODUCT_MOVED" "e1" (pos 4)
      (epoch + 60000) refl refl refl refl refl refl refl (omega arith) (apart "A" "B" refl) refl
      refl refl refl

handle_inventory_counted-decides_example :
    ((pos 0 ≤ℤ pos 7) × Counts (over filled) (zone_event "INVENTORY_COUNTED" "counted_quantity" 7))
    ⊎ ((pos 7 <ℤ pos 0)
        × (handle_inventory_counted
              (over filled)
              (zone_event "INVENTORY_COUNTED" "counted_quantity" 7)
            ≡ raise (validation (negative_count (pos 7)))))
unfolding string_eq pair_eq lookup insert int_at text_at time_at ◌>>=◌ apply apply_all zone_state
    is_stale zone_writes
handle_inventory_counted-decides_example =
    handle_inventory_counted-decides (over filled)
      (zone_event "INVENTORY_COUNTED" "counted_quantity" 7) "bolt" "A" "INVENTORY_COUNTED" "e1"
      (pos 7) (epoch + 60000) refl refl refl refl refl refl refl refl
