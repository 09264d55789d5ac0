-- ===== src/Publisher/Sends.antt =====
-- The messages that `run_demo` of hm6/producer/main.py leaves in the buffer when it returns.
use service_oriented_archite.Base.{
  String, ◌≡◌, refl, ap, subst, ◌∙◌, Option, none, some, List, ◌∷◌, string_eq, Bool-cases,
  Option-cases, inl, inr,
}
use service_oriented_archite.Base.Table.{Table, lookup}
use service_oriented_archite.Python.Base64.{Bytes}
use service_oriented_archite.Python.Value.{Fields}
use service_oriented_archite.Publisher.Registry.{SchemaInfo}
use service_oriented_archite.Publisher.Demo.{
  Produced, Broker, Sending, sent, raised, produce, send_payload, serialized, send, Draw, received,
  reserved, moved, shipped, and_send, run_demo,
}

-- A message of the value under the schema of its record.
pub record IsOf (broker : Broker) (topic : String) (schema_map : Table String SchemaInfo)
    (record_full : String) (value : Fields) (p : Produced) : Type 0 where
  pub info : SchemaInfo
  pub schema : String
  pub known : lookup record_full schema_map ≡ some info
  pub text : info.schema_str ≡ some schema
  pub payload : broker.serialize schema value ≡ some p.payload
  pub on_topic : p.topic ≡ topic

-- The buffer has grown by a message of the value.
abbrev Sent :
    Broker → String → Table String SchemaInfo → String → Fields → List Produced → Sending → Type 0
Sent broker topic schema_map record_full value buffer (sent after) =
    (p : Produced) × (after ≡ p ∷ buffer) × IsOf broker topic schema_map record_full value p
Sent broker topic schema_map record_full value buffer (raised after) = Unit

module _ (broker : Broker) (topic : String) (schema_map : Table String SchemaInfo)
    (record_full : String) (value : Fields) (buffer : List Produced) where
  produce-Sent :
      (p : Produced)
      → IsOf broker topic schema_map record_full value p
      → Sent broker topic schema_map record_full value buffer (produce broker p buffer)
  unfolding produce
  produce-Sent p h = elim (Bool-cases (broker.takes buffer p)) [
    | inl taken ↦ rw taken (p, refl, h)
    | inr full ↦ rw full tt
  ]

  send_payload-Sent :
      (info : SchemaInfo) (schema : String)
      → lookup record_full schema_map ≡ some info
      → info.schema_str ≡ some schema
      → (key : Option String) (payload : Option Bytes) → broker.serialize schema value ≡ payload
      → Sent broker topic schema_map record_full value buffer
          (send_payload broker topic key payload buffer)
  unfolding send_payload
  send_payload-Sent info schema known text key none h = tt
  send_payload-Sent info schema known text key (some payload) h = produce-Sent _ (record {
    info = info;
    schema = schema;
    known = known;
    text = text;
    payload = h;
    on_topic = refl;
  })

  serialized-Sent :
      (key : Option String) (info : Option SchemaInfo)
      → lookup record_full schema_map ≡ info
      → Sent broker topic schema_map record_full value buffer
          (send_payload broker topic key (serialized broker info value) buffer)
  unfolding send_payload
  serialized-Sent key none known = tt
  serialized-Sent key (some info) known = elim (Option-cases info.schema_str) [
    | inl missing ↦ rw missing tt
    | inr (schema, found) ↦
        rw found
          (send_payload-Sent info schema known found key (broker.serialize schema value) refl)
  ]

  send-Sent :
      (key : Option String)
      → Sent broker topic schema_map record_full value buffer
          (send broker topic schema_map record_full value key buffer)
  unfolding send
  send-Sent key = serialized-Sent key (lookup record_full schema_map) refl

and_send-returned :
    (x : Sending) (f : List Produced → Sending) (out : List Produced)
    → and_send x f ≡ sent out
    → (buffer : List Produced) × (x ≡ sent buffer) × (f buffer ≡ sent out)
unfolding and_send
and_send-returned (sent buffer) f out h = (buffer, refl, h)
and_send-returned (raised buffer) f out h = cc

-- The four messages of the demo.
abbrev pub SendsDemo :
    Broker
    → String
    → Table String SchemaInfo
    → Draw
    → Draw
    → Draw
    → Draw
    → List Produced
    → List Produced
    → Type 0
SendsDemo broker topic schema_map d₁ d₂ d₃ d₄ buffer out =
    (p₁ : Produced) × (p₂ : Produced) × (p₃ : Produced) × (p₄ : Produced) × (out
      ≡ p₄ ∷ p₃ ∷ p₂ ∷ p₁ ∷ buffer)
    × IsOf broker topic schema_map "warehouse.events.v1.ProductReceived" (received d₁) p₁
    × IsOf broker topic schema_map "warehouse.events.v1.ProductReserved" (reserved d₂) p₂
    × IsOf broker topic schema_map "warehouse.events.v1.ProductMoved" (moved d₃) p₃
    × IsOf broker topic schema_map "warehouse.events.v1.ProductShipped" (shipped d₄) p₄

-- Where the demo returns, the receipt, the reservation, the move and the shipment are in the buffer in
-- this order, each as its schema serializes it, on the topic.
pub run_demo-SendsDemo :
    (broker : Broker) (topic : String) (schema_map : Table String SchemaInfo) (d₁ d₂ d₃ d₄ : Draw)
    (buffer out : List Produced)
    → run_demo broker topic schema_map d₁ d₂ d₃ d₄ buffer ≡ sent out
    → SendsDemo broker topic schema_map d₁ d₂ d₃ d₄ buffer out
unfolding run_demo
run_demo-SendsDemo broker topic schema_map d₁ d₂ d₃ d₄ buffer out h =
    let (b₃, e₃, f₄) = and_send-returned _ _ out h in
    let (b₂, e₂, f₃) = and_send-returned _ _ b₃ e₃ in
    let (b₁, e₁, f₂) = and_send-returned _ _ b₂ e₂ in
    let (p₁, g₁, i₁) =
      subst
        (Sent broker topic schema_map "warehouse.events.v1.ProductReceived" (received d₁) buffer) e₁
        (send-Sent broker topic schema_map "warehouse.events.v1.ProductReceived" (received d₁)
          buffer (some "SKU-001")) in
    let (p₂, g₂, i₂) =
      subst (Sent broker topic schema_map "warehouse.events.v1.ProductReserved" (reserved d₂) b₁) f₂
        (send-Sent broker topic schema_map "warehouse.events.v1.ProductReserved" (reserved d₂) b₁
          (some "SKU-001")) in
    let (p₃, g₃, i₃) =
      subst (Sent broker topic schema_map "warehouse.events.v1.ProductMoved" (moved d₃) b₂) f₃ (
        send-Sent broker topic schema_map "warehouse.events.v1.ProductMoved" (moved d₃) b₂
          (some "SKU-001")) in
    let (p₄, g₄, i₄) =
      subst (Sent broker topic schema_map "warehouse.events.v1.ProductShipped" (shipped d₄) b₃) f₄ (
        send-Sent broker topic schema_map "warehouse.events.v1.ProductShipped" (shipped d₄) b₃
          (some "SKU-001")) in
    (
      p₁,
      p₂,
      p₃,
      p₄,
      g₄ ∙ ap (λ l. p₄ ∷ l) (g₃ ∙ ap (λ l. p₃ ∷ l) (g₂ ∙ ap (λ l. p₂ ∷ l) g₁)),
      i₁,
      i₂,
      i₃,
      i₄,
    )
