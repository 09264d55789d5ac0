-- ===== src/Publisher/Deliveries.antt =====
-- How the messages of hm6/producer/main.py reach the loop of hm6/consumer/main.py.
use service_oriented_archite.Base.{
  ℕ, suc, ◌+◌, ◌<◌, String, ◌≡◌, refl, true, false, Option, some, List, [], ◌∷◌, arith, string_eq,
  pair_eq,
}
use service_oriented_archite.Base.Int.{ℤ}
use service_oriented_archite.Python.Exception.{ok}
use service_oriented_archite.Python.Base64.{Bytes}
use service_oriented_archite.Python.Datetime.{epoch}
use service_oriented_archite.Python.Value.{Fields}
use service_oriented_archite.Handlers.Zone.{is_stale}
use service_oriented_archite.Consumer.World.{Message, World, Env, returned}
use service_oriented_archite.Consumer.Deserialize.{Avro}
use service_oriented_archite.Consumer.Process.{process_one}
use service_oriented_archite.Consumer.Loop.{Poll, poll_once, go_on, consume_loop}
use service_oriented_archite.Consumer.Loop
use service_oriented_archite.Base.Table.{Table, lookup}
use service_oriented_archite.Publisher.Registry.{SchemaInfo}
use service_oriented_archite.Publisher.Demo.{Produced, Broker, Draw}
use service_oriented_archite.Publisher.Sends.{IsOf}
use service_oriented_archite.Publisher.Arrivals.{read_back}
use service_oriented_archite.Publisher.Stages.{Stage}

-- The schema of the record of an event has all its fields: what the serializer makes of the event under
-- this schema, the deserializer reads back. Nothing is said of other schemas.
abbrev pub Decodes :
    Broker → Avro → String → Table String SchemaInfo → String → Draw → Fields → Type 0
Decodes broker avro topic schema_map record_full d ev =
    (info : SchemaInfo) (schema : String) (payload : Bytes)
    → lookup record_full schema_map ≡ some info
    → info.schema_str ≡ some schema
    → broker.serialize schema ev ≡ some payload
    → avro (some payload) topic ≡ ok (some (read_back d ev))

abbrev pub message_of : ℕ → Option Bytes → ℕ → Produced → Message
message_of partition key offset p = record {
  value = some p.payload;
  topic = p.topic;
  partition = partition;
  offset = offset;
  key = key;
}

-- The messages, the oldest first, as they come from a partition.
abbrev pub deliveries : (ℕ → Env) → ℕ → Option Bytes → ℕ → List Produced → List Poll
deliveries envs partition key offset [] = []
deliveries envs partition key offset (p ∷ rest) =
    Loop.received (envs offset) (message_of partition key offset p)
    ∷ deliveries envs partition key (suc offset) rest

pub next :
    (avro : Avro) (env : Env) (msg : Message) (rest : List Poll) (w w' : World)
    → process_one avro env msg (record w { kafka_connected = true }) ≡ (w', returned)
    → consume_loop avro (Loop.received env msg ∷ rest) w ≡ consume_loop avro rest w'
unfolding consume_loop poll_once go_on
next avro env msg rest w w' e = rw e refl

pub read_message :
    (broker : Broker) (avro : Avro) (topic : String) (schema_map : Table String SchemaInfo)
    (record_full : String) (d : Draw) (ev : Fields) (p : Produced)
    → Decodes broker avro topic schema_map record_full d ev
    → IsOf broker topic schema_map record_full ev p
    → avro (some p.payload) p.topic ≡ ok (some (read_back d ev))
read_message broker avro topic schema_map record_full d ev p decodes h =
    rw h.on_topic (decodes h.info h.schema p.payload h.known h.text h.payload)

pub not_stale : (t t' : ℕ) → t < t' → is_stale (epoch + t') (some (epoch + t)) ≡ false
unfolding is_stale
not_stale t t' h = ground arith

-- The connection to Kafka is of no account.
pub connected :
    {first : World} {a r b br : ℤ} {at bt : Option ℕ} {ids : List String} (w : World)
    → Stage first a r b br at bt ids w
    → Stage first a r b br at bt ids (record w { kafka_connected = true })
connected w s = record {
  available = s.available;
  reserved = s.reserved;
  target_available = s.target_available;
  target_reserved = s.target_reserved;
  stamped = s.stamped;
  target_stamped = s.target_stamped;
  elsewhere = s.elsewhere;
  letters = s.letters;
  new_ids = s.new_ids;
}
