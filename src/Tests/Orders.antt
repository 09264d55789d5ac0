-- ===== src/Tests/Orders.antt =====
-- An order from its creation to its completion.
use service_oriented_archite.Base.{◌≡◌, ◌⊎◌, refl, List, string_eq, pair_eq}
use service_oriented_archite.Base.Int.{pos, ◌+ℤ◌, ◌-ℤ◌}
use service_oriented_archite.Base.Table.{lookup, insert}
use service_oriented_archite.Python.Exception.{◌>>=◌, ◌>>◌, raise_if}
use service_oriented_archite.Python.Decimal.{str}
use service_oriented_archite.Python.Value.{
  get, nullable_text_at, put, as_dict, int_at, text_at, time_at, list_at, int_or_zero,
}
use service_oriented_archite.Cassandra.Tables.{Db, Statement, apply, apply_all}
use service_oriented_archite.Cassandra.Client.{get_zone_state, get_order}
use service_oriented_archite.Handlers.Zone.{
  read_zone, is_stale, validate_quantity, history_write, zone_writes,
}
use service_oriented_archite.Handlers.Orders.{
  seen_zone, and_next, unless_stale_item, after_walk, order_line, reserve_item, reserve_items,
  seen_writes, complete_item, complete_items, handle_order_created, handle_order_completed,
}
use service_oriented_archite.Handlers.Sound.{stock}
use service_oriented_archite.Handlers.Changes.Created.{
  CreatesOrder, handle_order_created-CreatesOrder,
}
use service_oriented_archite.Handlers.Changes.Completed.{
  CompletesOrder, RepeatsOrder, handle_order_completed_once,
}
use service_oriented_archite.Handlers.Changes.RoundTrip.{order_round_trip}
use service_oriented_archite.Tests.Warehouse.{
  ops_of, over, filled, filled-IsSound, order, completion,
}

abbrev order_ops : List Statement
order_ops = ops_of (handle_order_created (over filled) order)

handle_order_created_example : CreatesOrder filled order order_ops
unfolding string_eq pair_eq lookup insert ◌>>=◌ ◌>>◌ raise_if put as_dict int_at text_at time_at
    list_at int_or_zero apply apply_all get_zone_state read_zone is_stale validate_quantity
    history_write nullable_text_at get zone_writes seen_zone and_next unless_stale_item after_walk
    order_line reserve_item reserve_items handle_order_created
handle_order_created_example =
    handle_order_created-CreatesOrder (over filled) order order_ops filled-IsSound refl

-- The tables with the order of 2 and 5 bolts.
abbrev ordered : Db
ordered = apply_all order_ops filled

abbrev completion_ops : List Statement
completion_ops = ops_of (handle_order_completed (over ordered) completion)

handle_order_completed_example :
    CompletesOrder ordered completion completion_ops
    ⊎ RepeatsOrder ordered completion completion_ops
unfolding string_eq pair_eq lookup insert ◌>>=◌ ◌>>◌ raise_if put as_dict int_at text_at time_at
    list_at int_or_zero apply apply_all get_zone_state get_order read_zone is_stale
    validate_quantity history_write nullable_text_at get zone_writes seen_zone and_next
    unless_stale_item after_walk order_line reserve_item reserve_items seen_writes complete_item
    complete_items str ◌+ℤ◌ ◌-ℤ◌ handle_order_created handle_order_completed
handle_order_completed_example =
    handle_order_completed_once (over ordered) completion completion_ops refl

order_round_trip_example :
    ((stock (apply_all completion_ops ordered) "bolt" "A").available
      ≡ (stock filled "bolt" "A").available)
    × ((stock (apply_all completion_ops ordered) "bolt" "A").reserved
        ≡ (stock filled "bolt" "A").reserved)
unfolding string_eq pair_eq lookup insert ◌>>=◌ ◌>>◌ raise_if put as_dict int_at text_at time_at
    list_at int_or_zero apply apply_all get_zone_state get_order read_zone is_stale
    validate_quantity history_write nullable_text_at get zone_writes seen_zone and_next
    unless_stale_item after_walk order_line reserve_item reserve_items seen_writes complete_item
    complete_items str ◌+ℤ◌ ◌-ℤ◌ handle_order_created handle_order_completed
order_round_trip_example =
    order_round_trip (over filled) (over ordered) order completion order_ops completion_ops
      filled-IsSound refl refl refl refl "bolt" "A"

-- Between the two, 10 of the bolt are available and 10 are reserved.
ordered-stock :
    ((stock ordered "bolt" "A").available ≡ pos 10) × ((stock ordered "bolt" "A").reserved ≡ pos 10)
unfolding string_eq pair_eq lookup insert ◌>>=◌ ◌>>◌ raise_if put as_dict int_at text_at time_at
    list_at int_or_zero apply apply_all get_zone_state read_zone is_stale validate_quantity
    history_write nullable_text_at get zone_writes seen_zone and_next unless_stale_item after_walk
    order_line reserve_item reserve_items seen_writes ◌+ℤ◌ handle_order_created
ordered-stock = (refl, refl)
