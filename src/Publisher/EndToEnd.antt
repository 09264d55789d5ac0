-- ===== src/Publisher/EndToEnd.antt =====
-- The demo of hm6/producer/main.py through hm6/consumer/main.py.
use mathlib.Core.List.{reverse}
use service_oriented_archite.Base.{
  ℕ, suc, ◌+◌, ◌<◌, String, ◌≡◌, refl, ◌∙◌, true, false, Option, List, [], ◌∷◌, arith, string_eq,
  pair_eq,
}
use service_oriented_archite.Base.Int.{ℤ, pos, ◌+ℤ◌, ◌-ℤ◌, ◌≤ℤ◌, int_laws}
use service_oriented_archite.Base.Table.{Table}
use service_oriented_archite.Python.Base64.{Bytes}
use service_oriented_archite.Python.Datetime.{epoch, datetime_limit}
use service_oriented_archite.Handlers.Zone.{is_stale}
use service_oriented_archite.Handlers.Sound.{stock, same_key, IsSound}
use service_oriented_archite.Consumer.World.{Message, World, Env, returned}
use service_oriented_archite.Consumer.Deserialize.{Avro}
use service_oriented_archite.Consumer.Process.{process_one}
use service_oriented_archite.Consumer.Loop.{Poll, poll_once, go_on, consume_loop}
use service_oriented_archite.Consumer.Loop
use service_oriented_archite.Publisher.Registry.{SchemaInfo}
use service_oriented_archite.Publisher.Demo.{
  Produced, Broker, sent, Draw, received, reserved, moved, shipped, run_demo,
}
use service_oriented_archite.Publisher.Sends.{IsOf, run_demo-SendsDemo}
use service_oriented_archite.Publisher.Consumed.{IsCalm}
use service_oriented_archite.Publisher.Stages.{NewIds, Stage}
use service_oriented_archite.Publisher.Deliveries.{
  Decodes, message_of, deliveries, next, read_message, not_stale, connected,
}
use service_oriented_archite.Publisher.Events.{receive, reserve, move, ship}

-- Zone A has 40 more available and 30 more reserved, zone B 20 more available, and nothing else has
-- changed in the stock.
pub record IsDemoStock (w w' : World) : Type 0 where
  pub available :
      (stock w'.db "SKU-001" "ZONE-A").available
      ≡ (stock w.db "SKU-001" "ZONE-A").available +ℤ pos 40
  pub reserved :
      (stock w'.db "SKU-001" "ZONE-A").reserved ≡ (stock w.db "SKU-001" "ZONE-A").reserved +ℤ pos 30
  pub target_available :
      (stock w'.db "SKU-001" "ZONE-B").available
      ≡ (stock w.db "SKU-001" "ZONE-B").available +ℤ pos 20
  pub target_reserved :
      (stock w'.db "SKU-001" "ZONE-B").reserved ≡ (stock w.db "SKU-001" "ZONE-B").reserved
  pub elsewhere :
      (p z : String)
      → same_key (p, z) ("SKU-001", "ZONE-A") ≡ false
      → same_key (p, z) ("SKU-001", "ZONE-B") ≡ false
      → stock w'.db p z ≡ stock w.db p z
  pub letters : w'.letters ≡ w.letters

module _ (broker : Broker) (avro : Avro) (topic : String) (schema_map : Table String SchemaInfo)
    (d₁ d₂ d₃ d₄ : Draw)
    (decodes₁ : Decodes broker avro topic schema_map "warehouse.events.v1.ProductReceived" d₁
      (received d₁))
    (decodes₂ : Decodes broker avro topic schema_map "warehouse.events.v1.ProductReserved" d₂
      (reserved d₂))
    (decodes₃ : Decodes broker avro topic schema_map "warehouse.events.v1.ProductMoved" d₃
      (moved d₃))
    (decodes₄ : Decodes broker avro topic schema_map "warehouse.events.v1.ProductShipped" d₄
      (shipped d₄))
    (before₂ : d₁.now_ms < d₂.now_ms) (before₃ : d₂.now_ms < d₃.now_ms)
    (before₄ : d₃.now_ms < d₄.now_ms) (in_time : epoch + d₄.now_ms < datetime_limit)
    (envs : ℕ → Env) (calm : (n : ℕ) → IsCalm (envs n)) (partition : ℕ) (key : Option Bytes)
    (offset : ℕ) (w : World) (sound : IsSound w.db)
    (newer : is_stale (epoch + d₁.now_ms) (stock w.db "SKU-001" "ZONE-A").last_ts ≡ false)
    (newer_target : is_stale (epoch + d₃.now_ms) (stock w.db "SKU-001" "ZONE-B").last_ts ≡ false)
    (new_ids : NewIds (d₁.event_id ∷ d₂.event_id ∷ d₃.event_id ∷ d₄.event_id ∷ []) w.db) where
  start :
      Stage w
        (stock w.db "SKU-001" "ZONE-A").available
        (stock w.db "SKU-001" "ZONE-A").reserved
        (stock w.db "SKU-001" "ZONE-B").available
        (stock w.db "SKU-001" "ZONE-B").reserved
        (stock w.db "SKU-001" "ZONE-A").last_ts
        (stock w.db "SKU-001" "ZONE-B").last_ts
        (d₁.event_id ∷ d₂.event_id ∷ d₃.event_id ∷ d₄.event_id ∷ [])
        w
  start = record {
    available = refl;
    reserved = refl;
    target_available = refl;
    target_reserved = refl;
    stamped = refl;
    target_stamped = refl;
    elsewhere = λ p z not_a not_b. refl;
    letters = refl;
    new_ids = new_ids;
  }

  abbrev a : ℤ
  a = (stock w.db "SKU-001" "ZONE-A").available

  abbrev r : ℤ
  r = (stock w.db "SKU-001" "ZONE-A").reserved

  abbrev b : ℤ
  b = (stock w.db "SKU-001" "ZONE-B").available

  IsDemoStock-of :
      {t : Option ℕ} {bt : Option ℕ} {ids : List String} (w' : World)
      → Stage w
          (a +ℤ pos 100 -ℤ pos 30 -ℤ pos 20 -ℤ pos 10)
          (r +ℤ pos 30)
          (b +ℤ pos 20)
          (stock w.db "SKU-001" "ZONE-B").reserved
          t
          bt
          ids
          w'
      → IsDemoStock w w'
  IsDemoStock-of w' s = record {
    available = s.available ∙ omega int_laws;
    reserved = s.reserved;
    target_available = s.target_available;
    target_reserved = s.target_reserved;
    elsewhere = s.elsewhere;
    letters = s.letters;
  }

  -- The rounds end with the stock of the demo.
  abbrev Ends : List Poll → World → Type 0
  Ends polls v = (w' : World) × (consume_loop avro polls v ≡ (w', returned)) × IsDemoStock w w'

  and_next :
      (S : World → Type 0) (env : Env) (msg : Message) (rest : List Poll) (v : World)
      → (w' : World) × (process_one avro env msg (record v { kafka_connected = true })
          ≡ (w', returned))
        × S w'
      → ((w' : World) → S w' → Ends rest w')
      → Ends (Loop.received env msg ∷ rest) v
  and_next S env msg rest v (w₁, e, s) f =
      let (w', l, h) = f w₁ s in (w', next avro env msg rest v w₁ e ∙ l, h)

  finished : (v : World) → IsDemoStock w v → Ends [] v
  unfolding consume_loop
  finished v h = (v, refl, h)

  delivered :
      (p₁ p₂ p₃ p₄ : Produced)
      → IsOf broker topic schema_map "warehouse.events.v1.ProductReceived" (received d₁) p₁
      → IsOf broker topic schema_map "warehouse.events.v1.ProductReserved" (reserved d₂) p₂
      → IsOf broker topic schema_map "warehouse.events.v1.ProductMoved" (moved d₃) p₃
      → IsOf broker topic schema_map "warehouse.events.v1.ProductShipped" (shipped d₄) p₄
      → Ends (deliveries envs partition key offset (p₁ ∷ p₂ ∷ p₃ ∷ p₄ ∷ [])) w
  delivered p₁ p₂ p₃ p₄ i₁ i₂ i₃ i₄ =
      let enough : pos 0 ≤ℤ a = sound.available "SKU-001" "ZONE-A" in
      and_next _ _ _ (deliveries envs partition key (suc offset) (p₂ ∷ p₃ ∷ p₄ ∷ [])) w
        (receive w a r b _ _ _ avro (envs offset) (calm offset) (message_of partition key offset p₁)
          d₁ _ (record w { kafka_connected = true }) (connected w start) (omega arith) newer
          (read_message broker avro topic schema_map "warehouse.events.v1.ProductReceived" d₁
            (received d₁) p₁ decodes₁ i₁))
        λ w₁ s₁.
          and_next _ _ _ (deliveries envs partition key (suc (suc offset)) (p₃ ∷ p₄ ∷ [])) w₁
            (reserve w _ r b _ _ _ avro (envs (suc offset)) (calm (suc offset))
              (message_of partition key (suc offset) p₂) d₂ _ (record w₁ { kafka_connected = true })
              (connected w₁ s₁) (omega arith) (not_stale d₁.now_ms d₂.now_ms before₂)
              (read_message broker avro topic schema_map "warehouse.events.v1.ProductReserved" d₂
                (reserved d₂) p₂ decodes₂ i₂)
              (omega int_laws))
            λ w₂ s₂.
              and_next _ _ _ (deliveries envs partition key (suc (suc (suc offset))) (p₄ ∷ [])) w₂
                (move w _ _ b _ _ _ avro (envs (suc (suc offset))) (calm (suc (suc offset)))
                  (message_of partition key (suc (suc offset)) p₃) d₃ _
                  (record w₂ { kafka_connected = true }) (connected w₂ s₂) (omega arith)
                  (not_stale d₂.now_ms d₃.now_ms before₃)
                  (read_message broker avro topic schema_map "warehouse.events.v1.ProductMoved" d₃
                    (moved d₃) p₃ decodes₃ i₃)
                  (omega int_laws) newer_target)
                λ w₃ s₃.
                  and_next _ _ _ [] w₃
                    (ship w _ _ _ _ _ _ avro (envs (suc (suc (suc offset))))
                      (calm (suc (suc (suc offset))))
                      (message_of partition key (suc (suc (suc offset))) p₄) d₄ _
                      (record w₃ { kafka_connected = true }) (connected w₃ s₃) in_time
                      (not_stale d₃.now_ms d₄.now_ms before₄)
                      (read_message broker avro topic schema_map
                        "warehouse.events.v1.ProductShipped" d₄ (shipped d₄) p₄ decodes₄ i₄)
                      (omega int_laws))
                    λ w₄ s₄. finished w₄ (IsDemoStock-of w₄ s₄)

  -- Where the demo returns, and its messages are delivered in their order and processed with every
  -- request answered, the loop returns and leaves 40 more available and 30 more reserved in zone A, 20
  -- more available in zone B, and every other zone and the letters as they were. What was serialized
  -- under the schema of its record in the schema map is read back; the ids are new, not empty and all
  -- different, the times grow and are newer than the two zones, and the stock is sound before.
  pub run_demo-IsDemoStock :
      (out : List Produced)
      → run_demo broker topic schema_map d₁ d₂ d₃ d₄ [] ≡ sent out
      → ((consume_loop avro (deliveries envs partition key offset (reverse out)) w).1 ≡ returned)
        × IsDemoStock w (consume_loop avro (deliveries envs partition key offset (reverse out)) w).0
  run_demo-IsDemoStock out h =
      let (p₁, p₂, p₃, p₄, e, i₁, i₂, i₃, i₄) =
        run_demo-SendsDemo broker topic schema_map d₁ d₂ d₃ d₄ [] out h in
      let (w', l, s) = delivered p₁ p₂ p₃ p₄ i₁ i₂ i₃ i₄ in rw e (rw l (refl, s))
