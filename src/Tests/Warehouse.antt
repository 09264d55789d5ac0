-- ===== src/Tests/Warehouse.antt =====
-- Events as Avro decodes them, and the tables that they meet.
use service_oriented_archite.Base.{ℕ, String, ◌+◌, true, none, List, [], arith}
use service_oriented_archite.Base.Int.{pos}
use service_oriented_archite.Python.Exception.{Result, ok, raise}
use service_oriented_archite.Python.Datetime.{epoch}
use service_oriented_archite.Python.Value.{
  Value, text, num, time, list, dict, nil, cons, Fields, end, field,
}
use service_oriented_archite.Cassandra.Tables.{Db, empty_db, Statement, apply_all}
use service_oriented_archite.Cassandra.Client.{Session}
use service_oriented_archite.Handlers.Zone.{Handled, batch, out_of_order, zone_writes}
use service_oriented_archite.Handlers.Sound.{
  IsSound, empty, zone, apply_all-IsSound, empty_db-IsSound,
}

-- The statements of a batch.
abbrev pub ops_of : Result Handled → List Statement
ops_of (ok (batch ops)) = ops
ops_of (ok out_of_order) = []
ops_of (raise _) = []

-- Every read is answered.
abbrev pub over : Db → Session
over db = record { db = db; zone_answers = λ _ _. true; order_answers = λ _. true }

-- Zone A holds 10 of a bolt and has 3 more reserved.
abbrev pub filling : List Statement
filling = zone_writes "bolt" "A" (pos 10) (pos 3) "e0" epoch none

abbrev pub filled : Db
filled = apply_all filling empty_db

pub filled-IsSound : IsSound filled
unfolding zone_writes
filled-IsSound =
    apply_all-IsSound
      (zone "bolt" "A" (pos 10) (pos 3) "e0" epoch none (omega arith) (omega arith) empty) empty_db
      empty_db-IsSound

-- An event of `type`, one minute after the filling, with further fields.
abbrev pub event : String → Fields → Fields
event type more =
    field "event_id" (text "e1")
      (field "event_type" (text type) (field "timestamp" (time (epoch + 60000)) more))

abbrev pub zone_event : String → String → ℕ → Fields
zone_event type amount q =
    event type (
      field "product_id" (text "bolt")
        (field "zone_id" (text "A") (field amount (num (pos q)) end)))

abbrev pub move : Fields
move = event "PRODUCT_MOVED" (
    field "product_id" (text "bolt") (
      field "from_zone_id" (text "A")
        (field "to_zone_id" (text "B") (field "quantity" (num (pos 4)) end))))

abbrev pub bolts : ℕ → Value
bolts q = dict (
    field "product_id" (text "bolt")
      (field "zone_id" (text "A") (field "quantity" (num (pos q)) end)))

abbrev pub order : Fields
order =
    event "ORDER_CREATED" (
      field "order_id" (text "o1") (field "items" (list (cons (bolts 2) (cons (bolts 5) nil))) end))

-- A minute later.
abbrev pub completion : Fields
completion = field "event_id" (text "e2") (
    field "event_type" (text "ORDER_COMPLETED")
      (field "timestamp" (time (epoch + 120000)) (field "order_id" (text "o1") end)))
