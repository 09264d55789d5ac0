-- ===== src/Consumer/Dlq.antt =====
-- `DLQ.send` of hm6/consumer/dlq.py. The letter is the value that is dumped as JSON and produced.
use service_oriented_archite.Base.{ℕ, String, Option, none, some}
use service_oriented_archite.Python.Base64.{Bytes, b64encode}
use service_oriented_archite.Python.Datetime.{isoformat, utc_offset}
use service_oriented_archite.Python.Value.{
  Value, null, num, text, bytes, time, aware, list, dict, Items, nil, cons, Fields, end, field,
}
use service_oriented_archite.Consumer.World.{Message, ErrorReason, Letter}

-- `_jsonable` of dlq.py, at every depth.
unfoldable mutual
  unfolding isoformat utc_offset b64encode

  pub jsonable : Value → Value
  jsonable null = null
  jsonable (num n) = num n
  jsonable (text s) = text s
  jsonable (bytes b) = text (b64encode b)
  jsonable (time t) = text (isoformat t "")
  jsonable (aware t offset) = text (isoformat t (utc_offset offset))
  jsonable (list xs) = list (jsonable_items xs)
  jsonable (dict d) = dict (jsonable_fields d)

  pub jsonable_items : Items → Items
  jsonable_items nil = nil
  jsonable_items (cons v xs) = cons (jsonable v) (jsonable_items xs)

  pub jsonable_fields : Fields → Fields
  jsonable_fields end = end
  jsonable_fields (field k v d) = field k (jsonable v) (jsonable_fields d)

-- The decoded event, else the raw bytes in base64, else None.
unfoldable pub original : Option Bytes → Option Fields → Value
unfolding jsonable
original raw (some ev) = jsonable (dict ev)
original (some b) none = dict (field "_base64" (text (b64encode b)) end)
original none none = null

unfoldable pub letter : Message → Option Fields → ErrorReason → String → ℕ → Letter
unfolding original
letter msg decoded reason code now = record {
  original_event = original msg.value decoded;
  error_reason = reason;
  error_code = code;
  failed_at = now;
  topic = msg.topic;
  partition = msg.partition;
  offset = msg.offset;
  key = msg.key;
}
