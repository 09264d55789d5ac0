-- ===== src/Publisher/Registry.antt =====
-- `register_schemas` of hm6/producer/main.py. The texts of the schema files and the answers of the Schema
-- Registry are parameters; the requests that are made are kept, the latest first.
use Prim.Native.String.{◌++◌}
use service_oriented_archite.Base.{ℕ, String, Option, none, some, List, [], ◌∷◌, string_eq}
use service_oriented_archite.Base.Table.{Table, insert}

-- Whether the level of a subject is taken does not matter: a failure is logged and dropped.
pub data Request : Type 0 where
  set_compatibility : String → String → Request
  register : String → String → Request

-- The text of a file, and the id that the registry gives; `none` where the call raises.
pub record Registry : Type 0 where
  pub read_text : String → Option String
  pub register_schema : String → String → Option ℕ

pub record SchemaInfo : Type 0 where
  pub schema_id : Option ℕ
  pub schema_str : Option String
  pub subject : String

-- `SCHEMA_FILES`
abbrev pub schema_files : Table String (List String)
schema_files =
    (
      "warehouse.events.v1.ProductReceived",
      "product_received_v1.avsc" ∷ "product_received_v2.avsc" ∷ [],
    )
    ∷ ("warehouse.events.v1.ProductShipped", "product_shipped.avsc" ∷ [])
    ∷ ("warehouse.events.v1.ProductMoved", "product_moved.avsc" ∷ [])
    ∷ ("warehouse.events.v1.ProductReserved", "product_reserved.avsc" ∷ [])
    ∷ ("warehouse.events.v1.ProductReleased", "product_released.avsc" ∷ [])
    ∷ ("warehouse.events.v1.InventoryCounted", "inventory_counted.avsc" ∷ [])
    ∷ ("warehouse.events.v1.OrderCreated", "order_created.avsc" ∷ [])
    ∷ ("warehouse.events.v1.OrderCompleted", "order_completed.avsc" ∷ [])
    ∷ []

-- The result, or `none` for an exception, and the requests.
abbrev pub Registering : Type 0 → Type 0
Registering A = Option A × List Request

unfoldable pub and_then :
    {A B : Type 0} → Registering A → (A → List Request → Registering B) → Registering B
and_then (none, requests) f = (none, requests)
and_then (some a, requests) f = f a requests

unfoldable pub register_text :
    Registry → String → Option String → List Request → Registering SchemaInfo
register_text sr subject none requests = (none, requests)
register_text sr subject (some text) requests = elim (sr.register_schema subject text) [
  | none ↦ (none, register subject text ∷ requests)
  | some id ↦ (
    some (record { schema_id = some id; schema_str = some text; subject = subject }),
    register subject text ∷ requests,
  )
]

-- The inner loop, with the latest schema so far.
unfoldable pub register_files :
    Registry → String → List String → SchemaInfo → List Request → Registering SchemaInfo
unfolding register_text and_then
register_files sr subject [] latest requests = (some latest, requests)
register_files sr subject (f ∷ rest) latest requests =
    and_then (register_text sr subject (sr.read_text f) requests) (register_files sr subject rest)

unfoldable pub subject_of : String → String → String
subject_of topic record_full = topic ++ ("-" ++ record_full)

unfoldable pub register_record :
    Registry → String → List String → List Request → Registering SchemaInfo
unfolding register_files
register_record sr subject files requests =
    register_files sr subject files
      (record { schema_id = none; schema_str = none; subject = subject })
      (set_compatibility subject "BACKWARD" ∷ requests)

-- The outer loop, with the map so far.
unfoldable pub register_records :
    Registry
    → String
    → Table String (List String)
    → Table String SchemaInfo
    → List Request
    → Registering (Table String SchemaInfo)
unfolding register_record and_then subject_of
register_records sr topic [] out requests = (some out, requests)
register_records sr topic ((record_full, files) ∷ rest) out requests =
    and_then (register_record sr (subject_of topic record_full) files requests)
      (λ info. register_records sr topic rest (insert record_full info out))

unfoldable pub register_schemas : Registry → String → Registering (Table String SchemaInfo)
unfolding register_records
register_schemas sr topic = register_records sr topic schema_files [] []
