-- ===== src/Tests/Demo.antt =====
-- The demo of hm6/producer/main.py, from the broker to the tables.
use mathlib.Core.List.{reverse}
use service_oriented_archite.Base.{
  ℕ, zero, suc, ◌+◌, ◌*◌, String, ◌≡◌, ◌≢◌, refl, subst, true, false, Option, none, some, List, [],
  ◌∷◌, arith, string_eq, pair_eq, ◌==◌, if◌then◌else◌,
}
use service_oriented_archite.Base.Table.{Table, lookup, contains}
use service_oriented_archite.Python.Exception.{Result, ok, raise, fault, value_error}
use service_oriented_archite.Python.Base64.{Bytes}
use service_oriented_archite.Python.Datetime.{epoch}
use service_oriented_archite.Python.Value.{Value, text, Fields, get}
use service_oriented_archite.Cassandra.Client.{is_event_processed}
use service_oriented_archite.Handlers.Zone.{zone_state, is_stale}
use service_oriented_archite.Handlers.Sound.{empty_db-IsSound}
use service_oriented_archite.Consumer.World.{start, returned}
use service_oriented_archite.Consumer.Deserialize.{Avro}
use service_oriented_archite.Consumer.Loop.{consume_loop}
use service_oriented_archite.Publisher.Registry.{SchemaInfo}
use service_oriented_archite.Publisher.Demo.{
  Broker, Produced, Draw, received, reserved, moved, shipped, run_demo,
}
use service_oriented_archite.Publisher.Arrivals.{read_back}
use service_oriented_archite.Publisher.Consumed.{IsCalm}
use service_oriented_archite.Publisher.Stages.{NewIds}
use service_oriented_archite.Publisher.Deliveries.{Decodes, deliveries}
use service_oriented_archite.Publisher.EndToEnd.{IsDemoStock, run_demo-IsDemoStock}
use service_oriented_archite.Tests.Messages.{calm}

-- A draw for each event, a second apart.
abbrev draw : String → ℕ → Draw
draw id second = record { event_id = id; now_ms = 1000 * second }

abbrev first : Draw
first = draw "e1" 1

abbrev second : Draw
second = draw "e2" 2

abbrev third : Draw
third = draw "e3" 3

abbrev fourth : Draw
fourth = draw "e4" 4

-- A serializer that needs to tell only the events of the demo apart.
abbrev code : Option Value → Option Bytes
code (some (text type)) =
    if type == "PRODUCT_RECEIVED"
    then some (1 ∷ [])
    else if type == "PRODUCT_RESERVED"
    then some (2 ∷ [])
    else if type == "PRODUCT_MOVED"
    then some (3 ∷ [])
    else some (4 ∷ [])
code _ = none

abbrev coder : Broker
coder = record { serialize = λ _ ev. code (get "event_type" ev); takes = λ _ _. true }

abbrev decoded : ℕ → Result (Option Fields)
decoded (suc zero) = ok (some (read_back first (received first)))
decoded (suc (suc zero)) = ok (some (read_back second (reserved second)))
decoded (suc (suc (suc zero))) = ok (some (read_back third (moved third)))
decoded _ = ok (some (read_back fourth (shipped fourth)))

abbrev decoder : Avro
decoder (some (b ∷ _)) topic = decoded b
decoder _ topic = raise (fault value_error)

abbrev info : SchemaInfo
info = record { schema_id = some 7; schema_str = some "{}"; subject = "warehouse-events" }

abbrev schemas : Table String SchemaInfo
schemas =
    ("warehouse.events.v1.ProductReceived", info)
    ∷ ("warehouse.events.v1.ProductReserved", info)
    ∷ ("warehouse.events.v1.ProductMoved", info)
    ∷ ("warehouse.events.v1.ProductShipped", info)
    ∷ []

-- The bytes of an event decode to it.
Decodes-bytes :
    (record_full : String) (d : Draw) (ev : Fields) (bytes : Bytes)
    → code (get "event_type" ev) ≡ some bytes
    → decoder (some bytes) "warehouse-events" ≡ ok (some (read_back d ev))
    → Decodes coder decoder "warehouse-events" schemas record_full d ev
Decodes-bytes record_full d ev bytes e h info schema payload known has_text k =
    subst (λ (b : Bytes). decoder (some b) "warehouse-events" ≡ ok (some (read_back d ev))) (cc) h

Decodes-first :
    Decodes coder decoder "warehouse-events" schemas "warehouse.events.v1.ProductReceived" first
      (received first)
unfolding string_eq get
Decodes-first =
    Decodes-bytes "warehouse.events.v1.ProductReceived" first (received first) (1 ∷ []) refl refl

Decodes-second :
    Decodes coder decoder "warehouse-events" schemas "warehouse.events.v1.ProductReserved" second
      (reserved second)
unfolding string_eq get
Decodes-second =
    Decodes-bytes "warehouse.events.v1.ProductReserved" second (reserved second) (2 ∷ []) refl refl

Decodes-third :
    Decodes coder decoder "warehouse-events" schemas "warehouse.events.v1.ProductMoved" third
      (moved third)
unfolding string_eq get
Decodes-third =
    Decodes-bytes "warehouse.events.v1.ProductMoved" third (moved third) (3 ∷ []) refl refl

Decodes-fourth :
    Decodes coder decoder "warehouse-events" schemas "warehouse.events.v1.ProductShipped" fourth
      (shipped fourth)
unfolding string_eq get
Decodes-fourth =
    Decodes-bytes "warehouse.events.v1.ProductShipped" fourth (shipped fourth) (4 ∷ []) refl refl

apart : (a b : String) → (a == b) ≡ false → a ≢ b
apart a b h = ground arith

new_ids : NewIds ("e1" ∷ "e2" ∷ "e3" ∷ "e4" ∷ []) (start true).db
unfolding string_eq is_event_processed contains lookup
new_ids = (
  refl,
  refl,
  (apart _ _ refl, (apart _ _ refl, (apart _ _ refl, tt))),
  (
    refl,
    refl,
    (apart _ _ refl, (apart _ _ refl, tt)),
    (refl, refl, (apart _ _ refl, tt), (refl, refl, tt, tt)),
  ),
)

calm-IsCalm : (n : ℕ) → IsCalm calm
calm-IsCalm n = record { mark = refl; batch = refl; zones = λ p z. refl }

abbrev buffered : ℕ → Produced
buffered n = record { topic = "warehouse-events"; key = some "SKU-001"; payload = n ∷ [] }

abbrev buffer : List Produced
buffer = buffered 4 ∷ buffered 3 ∷ buffered 2 ∷ buffered 1 ∷ []

is_new : is_stale (epoch + 1000) none ≡ false
unfolding is_stale
is_new = refl

run_demo-IsDemoStock_example :
    ((consume_loop decoder (deliveries (λ _. calm) 2 none 0 (reverse buffer)) (start true)).1
      ≡ returned)
    × IsDemoStock
        (start true)
        (consume_loop decoder (deliveries (λ _. calm) 2 none 0 (reverse buffer)) (start true)).0
unfolding string_eq get lookup zone_state is_stale run_demo
run_demo-IsDemoStock_example =
    run_demo-IsDemoStock coder decoder "warehouse-events" schemas first second third fourth
      Decodes-first Decodes-second Decodes-third Decodes-fourth (omega arith) (omega arith)
      (omega arith) (omega arith) (λ _. calm) calm-IsCalm 2 none 0 (start true) empty_db-IsSound
      refl refl new_ids buffer refl
