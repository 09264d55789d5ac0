-- ===== src/Handlers/Jsonable.antt =====
-- `_jsonable` of hm6/consumer/handlers.py: the times of an event become texts.
use service_oriented_archite.Python.Datetime.{isoformat, utc_offset}
use service_oriented_archite.Python.Value.{
  Value, null, num, text, bytes, time, aware, list, dict, Items, nil, cons, Fields, end, field,
}

-- handlers.py: a list is copied, and only dicts that stand in it directly are converted.
unfoldable mutual
  unfolding isoformat utc_offset

  pub jsonable_value : Value → Value
  jsonable_value null = null
  jsonable_value (num n) = num n
  jsonable_value (text s) = text s
  jsonable_value (bytes b) = bytes b
  jsonable_value (time t) = text (isoformat t "")
  jsonable_value (aware t offset) = text (isoformat t (utc_offset offset))
  jsonable_value (list xs) = list (jsonable_items xs)
  jsonable_value (dict d) = dict (jsonable d)

  pub jsonable_element : Value → Value
  jsonable_element (dict d) = dict (jsonable d)
  jsonable_element v = v

  pub jsonable_items : Items → Items
  jsonable_items nil = nil
  jsonable_items (cons v xs) = cons (jsonable_element v) (jsonable_items xs)

  pub jsonable : Fields → Fields
  jsonable end = end
  jsonable (field k v d) = field k (jsonable_value v) (jsonable d)
