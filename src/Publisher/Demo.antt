-- ===== src/Publisher/Demo.antt =====
-- `send`, `run_demo` and `main` of hm6/producer/main.py. The Avro serializer and the broker's `produce` are
-- parameters; a draw of `run_demo` is what `uuid` and the clock yield.
use service_oriented_archite.Base.{
  ℕ, zero, suc, String, Bool, Option, none, some, List, [], ◌∷◌, string_eq, ◌==◌, if◌then◌else◌,
}
use service_oriented_archite.Base.Int.{pos}
use service_oriented_archite.Base.Table.{Table, lookup}
use service_oriented_archite.Python.Base64.{Bytes}
use service_oriented_archite.Python.Value.{null, num, text, Fields, field, end}
use service_oriented_archite.Publisher.Registry.{Request, Registry, SchemaInfo, register_schemas}

-- A message in the buffer of the producer.
pub record Produced : Type 0 where
  pub topic : String
  pub key : Option String
  pub payload : Bytes

-- A schema text and a value to bytes, if the value fits the schema; and whether `produce` takes a message
-- on top of those in the buffer.
pub record Broker : Type 0 where
  pub serialize : String → Fields → Option Bytes
  pub takes : List Produced → Produced → Bool

-- The messages that were taken, the latest first, by a call that returns or raises.
pub data Sending : Type 0 where
  sent raised : List Produced → Sending

-- `key.encode() if key else None`
abbrev pub encoded : Option String → Option String
encoded none = none
encoded (some k) = if k == "" then none else some k

unfoldable pub produce : Broker → Produced → List Produced → Sending
produce broker p buffer = if broker.takes buffer p then sent (p ∷ buffer) else raised buffer

unfoldable pub send_payload :
    Broker → String → Option String → Option Bytes → List Produced → Sending
unfolding produce
send_payload broker topic key none buffer = raised buffer
send_payload broker topic key (some payload) buffer =
    produce broker (record { topic = topic; key = encoded key; payload = payload }) buffer

-- `schema_map[record_full]` and its text; a serializer without a text raises.
abbrev pub serialized : Broker → Option SchemaInfo → Fields → Option Bytes
serialized broker none value = none
serialized broker (some info) value = elim info.schema_str [
  | none ↦ none
  | some schema_str ↦ broker.serialize schema_str value
]

unfoldable pub send :
    Broker
    → String
    → Table String SchemaInfo
    → String
    → Fields
    → Option String
    → List Produced
    → Sending
unfolding send_payload
send broker topic schema_map record_full value key buffer =
    send_payload broker topic key (serialized broker (lookup record_full schema_map) value) buffer

-- `str(uuid.uuid4())` and `_now_ms()`
pub record Draw : Type 0 where
  pub event_id : String
  pub now_ms : ℕ

abbrev pub event : Draw → String → Fields → Fields
event d event_type more =
    field "event_id" (text d.event_id)
      (field "event_type" (text event_type) (field "timestamp" (num (pos d.now_ms)) more))

abbrev pub received : Draw → Fields
received d = event d "PRODUCT_RECEIVED" (
    field "product_id" (text "SKU-001") (
      field "zone_id" (text "ZONE-A")
        (field "quantity" (num (pos 100)) (field "supplier_id" null end))))

abbrev pub reserved : Draw → Fields
reserved d = event d "PRODUCT_RESERVED" (
    field "product_id" (text "SKU-001") (
      field "zone_id" (text "ZONE-A")
        (field "quantity" (num (pos 30)) (field "order_id" null end))))

abbrev pub moved : Draw → Fields
moved d = event d "PRODUCT_MOVED" (
    field "product_id" (text "SKU-001") (
      field "from_zone_id" (text "ZONE-A")
        (field "to_zone_id" (text "ZONE-B") (field "quantity" (num (pos 20)) end))))

abbrev pub shipped : Draw → Fields
shipped d = event d "PRODUCT_SHIPPED" (
    field "product_id" (text "SKU-001")
      (field "zone_id" (text "ZONE-A") (field "quantity" (num (pos 10)) end)))

unfoldable pub and_send : Sending → (List Produced → Sending) → Sending
and_send (sent buffer) f = f buffer
and_send (raised buffer) f = raised buffer

-- The events of the demo, one draw each.
unfoldable pub run_demo :
    Broker → String → Table String SchemaInfo → Draw → Draw → Draw → Draw → List Produced → Sending
unfolding send and_send
run_demo broker topic schema_map d₁ d₂ d₃ d₄ buffer =
    let key : Option String = some "SKU-001" in
    and_send
      (and_send
        (and_send
          (send broker topic schema_map "warehouse.events.v1.ProductReceived" (received d₁) key
            buffer)
          (send broker topic schema_map "warehouse.events.v1.ProductReserved" (reserved d₂) key))
        (send broker topic schema_map "warehouse.events.v1.ProductMoved" (moved d₃) key))
      (send broker topic schema_map "warehouse.events.v1.ProductShipped" (shipped d₄) key)

-- The tries of `for _ in range(60)`: how many answers of `get_subjects` are waited for; the loop goes on
-- to the registration whether or not one came.
unfoldable pub wait_for_registry : ℕ → (ℕ → Bool) → ℕ
wait_for_registry zero answers = 0
wait_for_registry (suc left) answers =
    let rest : ℕ = wait_for_registry left (λ n. answers (suc n)) in
    if answers 0 then 0 else suc rest

-- `MODE`: the demo, the endless wait, or a warning.
pub data Ending : Type 0 where
  demo : Sending → Ending
  idle unknown_mode not_registered : Ending

abbrev pub in_mode : String → Sending → Ending
in_mode mode sending =
    if mode == "demo" then demo sending else if mode == "idle" then idle else unknown_mode

unfoldable pub after_registration :
    Broker → String → String → Draw → Draw → Draw → Draw → Option (Table String SchemaInfo) → Ending
unfolding run_demo
after_registration broker topic mode d₁ d₂ d₃ d₄ none = not_registered
after_registration broker topic mode d₁ d₂ d₃ d₄ (some schema_map) =
    in_mode mode (run_demo broker topic schema_map d₁ d₂ d₃ d₄ [])

-- What `main` did: how many answers it waited for, what it asked of the registry, and how it ended.
pub record Run : Type 0 where
  pub waits : ℕ
  pub requests : List Request
  pub ending : Ending

unfoldable pub main :
    Registry → Broker → (ℕ → Bool) → String → String → Draw → Draw → Draw → Draw → Run
unfolding wait_for_registry register_schemas after_registration
main sr broker answers topic mode d₁ d₂ d₃ d₄ =
    let (schema_map, requests) = register_schemas sr topic in
    record {
      waits = wait_for_registry 60 answers;
      requests = requests;
      ending = after_registration broker topic mode d₁ d₂ d₃ d₄ schema_map;
    }
