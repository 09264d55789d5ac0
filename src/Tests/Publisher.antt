-- ===== src/Tests/Publisher.antt =====
-- hm6/producer/main.py with a registry and a broker that take everything.
use service_oriented_archite.Base.{◌≡◌, refl, true, some, [], ◌∷◌, string_eq}
use service_oriented_archite.Base.Table.{lookup, insert}
use service_oriented_archite.Publisher.Registry.{Registry, schema_files, register_schemas}
use service_oriented_archite.Publisher.Latest.{Gives}
use service_oriented_archite.Publisher.Registered.{Registered, register_schemas-Registered}
use service_oriented_archite.Publisher.Demo.{Broker, Produced, Draw, sent, demo, main}

-- The name of a file is its text, and every schema gets the id 7.
abbrev files : Registry
files = record { read_text = λ f. some f; register_schema = λ _ _. some 7 }

register_schemas-Registered_example :
    Gives
      (λ out r. Registered files "warehouse-events" schema_files out)
      (register_schemas files "warehouse-events")
register_schemas-Registered_example = register_schemas-Registered files "warehouse-events"

abbrev broker : Broker
broker = record { serialize = λ _ _. some []; takes = λ _ _. true }

abbrev draw : Draw
draw = record { event_id = "e"; now_ms = 1000 }

abbrev buffered : Produced
buffered = record { topic = "warehouse-events"; key = some "SKU-001"; payload = [] }

demo_sends_four :
    (main files broker (λ _. true) "warehouse-events" "demo" draw draw draw draw).ending
    ≡ demo (sent (buffered ∷ buffered ∷ buffered ∷ buffered ∷ []))
unfolding string_eq lookup insert main
demo_sends_four = refl
