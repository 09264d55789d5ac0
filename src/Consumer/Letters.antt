-- ===== src/Consumer/Letters.antt =====
-- What hm6/consumer/dlq.py leaves in the value that it dumps as JSON.
use service_oriented_archite.Base.{◌≡◌, refl, ap, Option, none, some}
use service_oriented_archite.Python.Base64.{Bytes}
use service_oriented_archite.Python.Value.{
  Value, null, num, text, bytes, time, aware, list, dict, Items, nil, cons, Fields, end, field,
}
use service_oriented_archite.Consumer.Dlq.{jsonable, jsonable_items, jsonable_fields, original}

-- `json.dumps` takes a value without times and bytes.
unfoldable mutual
  pub IsJson : Value → Type 0
  IsJson (bytes _) = ⊥
  IsJson (time _) = ⊥
  IsJson (aware _ _) = ⊥
  IsJson (list xs) = AllJson xs
  IsJson (dict d) = FieldsJson d
  IsJson _ = Unit

  pub AllJson : Items → Type 0
  AllJson nil = Unit
  AllJson (cons v xs) = IsJson v × AllJson xs

  pub FieldsJson : Fields → Type 0
  FieldsJson end = Unit
  FieldsJson (field _ v d) = IsJson v × FieldsJson d

mutual
  unfolding jsonable IsJson

  jsonable-IsJson : (v : Value) → IsJson (jsonable v)
  jsonable-IsJson null = tt
  jsonable-IsJson (num n) = tt
  jsonable-IsJson (text s) = tt
  jsonable-IsJson (bytes b) = tt
  jsonable-IsJson (time t) = tt
  jsonable-IsJson (aware t offset) = tt
  jsonable-IsJson (list xs) = jsonable_items-AllJson xs
  jsonable-IsJson (dict d) = jsonable_fields-FieldsJson d

  jsonable_items-AllJson : (xs : Items) → AllJson (jsonable_items xs)
  jsonable_items-AllJson nil = tt
  jsonable_items-AllJson (cons v xs) = (jsonable-IsJson v, jsonable_items-AllJson xs)

  jsonable_fields-FieldsJson : (d : Fields) → FieldsJson (jsonable_fields d)
  jsonable_fields-FieldsJson end = tt
  jsonable_fields-FieldsJson (field k v d) = (jsonable-IsJson v, jsonable_fields-FieldsJson d)

mutual
  unfolding jsonable IsJson

  jsonable_of_IsJson : (v : Value) → IsJson v → jsonable v ≡ v
  jsonable_of_IsJson null h = refl
  jsonable_of_IsJson (num n) h = refl
  jsonable_of_IsJson (text s) h = refl
  jsonable_of_IsJson (bytes b) h = absurd h
  jsonable_of_IsJson (time t) h = absurd h
  jsonable_of_IsJson (aware t offset) h = absurd h
  jsonable_of_IsJson (list xs) h = ap list (jsonable_items_of_AllJson xs h)
  jsonable_of_IsJson (dict d) h = ap dict (jsonable_fields_of_FieldsJson d h)

  jsonable_items_of_AllJson : (xs : Items) → AllJson xs → jsonable_items xs ≡ xs
  jsonable_items_of_AllJson nil h = refl
  jsonable_items_of_AllJson (cons v xs) (hv, h) =
      λ i. cons (jsonable_of_IsJson v hv i) (jsonable_items_of_AllJson xs h i)

  jsonable_fields_of_FieldsJson : (d : Fields) → FieldsJson d → jsonable_fields d ≡ d
  jsonable_fields_of_FieldsJson end h = refl
  jsonable_fields_of_FieldsJson (field k v d) (hv, h) =
      λ i. field k (jsonable_of_IsJson v hv i) (jsonable_fields_of_FieldsJson d h i)

-- The event in a letter holds no time and no bytes at any depth, whatever was decoded or not, so that
-- it can be dumped as JSON.
pub original-IsJson : (raw : Option Bytes) (decoded : Option Fields) → IsJson (original raw decoded)
unfolding original IsJson
original-IsJson raw (some ev) = jsonable-IsJson (dict ev)
original-IsJson (some b) none = (tt, tt)
original-IsJson none none = tt

-- Making a value JSON ready leaves no time and no bytes in it at any depth, and a second time it
-- changes nothing.
pub jsonable_idempotent : (v : Value) → IsJson (jsonable v) × (jsonable (jsonable v) ≡ jsonable v)
jsonable_idempotent v = (jsonable-IsJson v, jsonable_of_IsJson (jsonable v) (jsonable-IsJson v))
