-- ===== src/Tests/Delivery.antt =====
-- The consumer on messages that are written, redelivered, refused and read while Cassandra is away.
use service_oriented_archite.Base.{◌≡◌, refl, false, [], ◌∷◌, string_eq, pair_eq, nat_eq}
use service_oriented_archite.Base.Table.{lookup, insert, contains}
use service_oriented_archite.Python.Exception.{◌>>=◌, ◌>>◌, raise_if}
use service_oriented_archite.Python.Datetime.{date, isoformat}
use service_oriented_archite.Python.Value.{
  get, put, item, as_int, as_text, as_time, as_list, as_dict, int_at, text_at, time_at, list_at,
  nullable_text_at, int_or_zero, is_falsy,
}
use service_oriented_archite.Cassandra.Tables.{with_status, apply, apply_all}
use service_oriented_archite.Cassandra.Client.{
  get_zone_state, get_order, execute_batch, batched, mark_event_if_new, is_event_processed,
}
use service_oriented_archite.Handlers.{find_handler}
use service_oriented_archite.Handlers.Jsonable.{
  jsonable, jsonable_value, jsonable_element, jsonable_items,
}
use service_oriented_archite.Handlers.Zone.{
  zone_state, read_zone, is_stale, unless_stale, validate_quantity, history_write, zone_writes,
}
use service_oriented_archite.Handlers.Sound.{IsSound}
use service_oriented_archite.Handlers.Products.{handle_product_shipped}
use service_oriented_archite.Consumer.World.{World, Exit}
use service_oriented_archite.Consumer.Deserialize.{
  deserialize, normalize_timestamp, normalize_supplier,
}
use service_oriented_archite.Consumer.Process.{
  commit_offset, is_missing, or_unknown, look_up, reject, on_exception, after_handler, run_handler,
  process_event, after_decoding, process_one,
}
use service_oriented_archite.Consumer.Loop.{received, consume_loop}
use service_oriented_archite.Consumer.Main.{health_handler}
use service_oriented_archite.Consumer.Degraded.{consume_loop-degraded}
use service_oriented_archite.Consumer.Outcome.{OutcomeOf, process_one-Outcome}
use service_oriented_archite.Consumer.Steps.{IsReached}
use service_oriented_archite.Consumer.Inventory.{consume_loop-IsReached}
use service_oriented_archite.Consumer.Safety.{consume_loop-IsSound}
use service_oriented_archite.Handlers.Sound.{stock}
use service_oriented_archite.Handlers.Newer.{NotOlder}
use service_oriented_archite.Consumer.Times.{consume_loop-NotOlder}
use service_oriented_archite.Consumer.Idempotence.{process_one-seen}
use service_oriented_archite.Consumer.Replay.{again, consume_loop-replay}
use service_oriented_archite.Consumer.Redelivery.{
  with_mark, process_one-once, process_one-lost_update,
}
use service_oriented_archite.Tests.Warehouse.{filled, filled-IsSound}
use service_oriented_archite.Tests.Messages.{
  shipment, avro, shipping, calm, broken_batch, no_reads, before, shipment_ops, head_of, tail_of,
  polls, written, unwritten,
}

process_one-Outcome_example :
    OutcomeOf avro calm shipping before (process_one avro calm shipping before)
process_one-Outcome_example = process_one-Outcome avro calm shipping before

consume_loop-IsSound_example :
    IsSound (consume_loop avro (received broken_batch shipping ∷ polls) before).0.db
consume_loop-IsSound_example =
    consume_loop-IsSound avro (received broken_batch shipping ∷ polls) before filled-IsSound

consume_loop-IsReached_example :
    IsReached avro
      (received broken_batch shipping ∷ polls)
      filled
      (consume_loop avro (received broken_batch shipping ∷ polls) before).0.db
consume_loop-IsReached_example =
    consume_loop-IsReached avro (received broken_batch shipping ∷ polls) before filled-IsSound

process_one-once_example :
    (written.db ≡ apply_all (batched shipment_ops) (with_mark calm shipping shipment filled))
    × (written.commits ≡ (commit_offset calm shipping before).commits)
    × ((process_one avro calm shipping (consume_loop avro polls written).0).0.db
        ≡ (consume_loop avro polls written).0.db)
unfolding string_eq deserialize is_event_processed contains find_handler execute_batch batched
    pair_eq lookup insert ◌>>=◌ ◌>>◌ raise_if get put item as_int as_text as_time as_list as_dict
    int_at text_at time_at list_at nullable_text_at int_or_zero is_falsy is_missing or_unknown
    look_up apply apply_all get_zone_state get_order with_status zone_state read_zone is_stale
    unless_stale validate_quantity history_write zone_writes date jsonable jsonable_value
    jsonable_element jsonable_items isoformat handle_product_shipped
process_one-once_example =
    process_one-once avro calm shipping before shipment handle_product_shipped shipment_ops refl
      refl refl refl refl polls calm refl refl

process_one-lost_update_example :
    (unwritten.db ≡ with_mark broken_batch shipping shipment filled)
    × (unwritten.letters ≡ [])
    × (unwritten.commits ≡ [])
    × ((process_one avro calm shipping (consume_loop avro polls unwritten).0).0.db
        ≡ (consume_loop avro polls unwritten).0.db)
unfolding string_eq deserialize is_event_processed contains find_handler execute_batch batched
    pair_eq lookup insert ◌>>=◌ ◌>>◌ raise_if get put item as_int as_text as_time as_list as_dict
    int_at text_at time_at list_at nullable_text_at int_or_zero is_falsy is_missing or_unknown
    look_up apply apply_all get_zone_state get_order with_status zone_state read_zone is_stale
    unless_stale validate_quantity history_write zone_writes date jsonable jsonable_value
    jsonable_element jsonable_items isoformat handle_product_shipped
process_one-lost_update_example =
    process_one-lost_update avro broken_batch shipping before shipment handle_product_shipped
      shipment_ops refl refl refl refl refl polls calm (head_of shipment_ops) (tail_of shipment_ops)
      refl refl refl

process_one-seen_example : (process_one avro calm shipping written).0.db ≡ written.db
unfolding string_eq deserialize contains find_handler process_one mark_event_if_new execute_batch
    batched pair_eq lookup insert ◌>>=◌ ◌>>◌ raise_if get put item as_int as_text as_time as_list
    as_dict int_at text_at time_at list_at nullable_text_at int_or_zero is_falsy is_missing
    or_unknown look_up apply apply_all get_zone_state get_order with_status zone_state read_zone
    is_stale unless_stale validate_quantity history_write zone_writes date jsonable jsonable_value
    jsonable_element jsonable_items isoformat handle_product_shipped
process_one-seen_example = process_one-seen avro calm shipping written shipment refl refl

consume_loop-replay_example :
    (consume_loop avro (received calm shipping ∷ received broken_batch shipping ∷ []) written).0.db
    ≡ written.db
unfolding string_eq deserialize contains find_handler process_one mark_event_if_new execute_batch
    batched pair_eq lookup insert ◌>>=◌ ◌>>◌ raise_if get put item as_int as_text as_time as_list
    as_dict int_at text_at time_at list_at nullable_text_at int_or_zero is_falsy is_missing
    or_unknown look_up apply apply_all get_zone_state get_order with_status zone_state read_zone
    is_stale unless_stale validate_quantity history_write zone_writes date jsonable jsonable_value
    jsonable_element jsonable_items isoformat handle_product_shipped
consume_loop-replay_example =
    consume_loop-replay avro (received calm shipping ∷ received broken_batch shipping ∷ []) written
      (again calm shipping shipment refl refl, (again broken_batch shipping shipment refl refl, tt))

abbrev unread : World × Exit
unread = process_one avro no_reads shipping before

consume_loop-NotOlder_example :
    NotOlder
      (stock filled "bolt" "A").last_ts
      (stock (consume_loop avro (received calm shipping ∷ polls) before).0.db "bolt" "A").last_ts
consume_loop-NotOlder_example =
    consume_loop-NotOlder avro (received calm shipping ∷ polls) before "bolt" "A" filled-IsSound

-- Cassandra counts as disconnected after the failed read; what is polled then writes nothing.
consume_loop-degraded_example :
    ((health_handler (consume_loop avro polls unread.0).0).code ≡ 503)
    × ((health_handler (consume_loop avro polls unread.0).0).cassandra ≡ false)
unfolding string_eq deserialize normalize_timestamp normalize_supplier find_handler commit_offset
    reject on_exception after_handler run_handler process_event after_decoding process_one ◌>>=◌
    ◌>>◌ raise_if get put item as_int as_text as_time int_at text_at time_at is_missing or_unknown
    look_up is_falsy get_zone_state read_zone validate_quantity handle_product_shipped consume_loop
consume_loop-degraded_example = consume_loop-degraded avro polls unread.0 refl refl
