-- ===== src/Tests/Messages.antt =====
-- A shipment as a message, and the surroundings in which it is processed.
use service_oriented_archite.Base.{
  ℕ, true, false, Option, none, some, List, [], ◌∷◌, string_eq, pair_eq, nat_eq,
}
use service_oriented_archite.Base.Int.{pos}
use service_oriented_archite.Python.Exception.{ok, raise, fault, value_error}
use service_oriented_archite.Python.Base64.{Bytes}
use service_oriented_archite.Python.Value.{null, num, text, field, end, Fields}
use service_oriented_archite.Cassandra.Tables.{Statement, mark_event}
use service_oriented_archite.Cassandra.Client.{answered, refused}
use service_oriented_archite.Handlers.Products.{handle_product_shipped}
use service_oriented_archite.Consumer.World.{Message, World, start, Env}
use service_oriented_archite.Consumer.Deserialize.{Avro}
use service_oriented_archite.Consumer.Process.{process_one}
use service_oriented_archite.Consumer.Loop.{Poll, nothing, kafka_error, received}
use service_oriented_archite.Tests.Warehouse.{ops_of, over, filled, event}

abbrev pub shipment : Fields
shipment = event "PRODUCT_SHIPPED" (
    field "product_id" (text "bolt")
      (field "zone_id" (text "A") (field "quantity" (num (pos 4)) (field "supplier_id" null end))))

-- Every message that has a value decodes to the shipment.
abbrev pub avro : Avro
avro (some _) topic = ok (some shipment)
avro none topic = raise (fault value_error)

-- A message of the topic at an offset; one without a value is not decoded.
abbrev pub message : Option Bytes → ℕ → Message
message value offset = record {
  value = value;
  topic = "warehouse-events";
  partition = 2;
  offset = offset;
  key = none;
}

abbrev pub shipping : Message
shipping = message (some (1 ∷ [])) 41

-- Everything is answered.
abbrev pub calm : Env
calm = record {
  zone_answers = λ _ _. true;
  order_answers = λ _. true;
  mark = answered;
  batch = answered;
  dlq_accepts = true;
  commit_accepted = true;
  now = 0;
  printed = λ _. "";
}

-- The mark is answered, the batch is not.
abbrev pub broken_batch : Env
broken_batch = record calm { batch = refused }

-- No read is answered.
abbrev pub no_reads : Env
no_reads = record calm { zone_answers = λ _ _. false }

abbrev pub before : World
before = record (start true) { db = filled }

abbrev pub shipment_ops : List Statement
shipment_ops = ops_of (handle_product_shipped (over filled) shipment)

abbrev pub head_of : List Statement → Statement
head_of (s ∷ _) = s
head_of [] = mark_event "" "" 0 0 0

abbrev pub tail_of : List Statement → List Statement
tail_of (_ ∷ rest) = rest
tail_of [] = []

abbrev pub polls : List Poll
polls = nothing ∷ received calm (message none 42) ∷ kafka_error ∷ []

abbrev pub written : World
written = (process_one avro calm shipping before).0

abbrev pub unwritten : World
unwritten = (process_one avro broken_batch shipping before).0
