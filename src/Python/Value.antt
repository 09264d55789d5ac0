-- ===== src/Python/Value.antt =====
-- The values of a decoded event: what Avro yields, and the dicts and lists of them.
use service_oriented_archite.Base.{
  ℕ, zero, String, [], ◌≡◌, Bool, true, false, Option, none, some, arith, ◌==◌, string_eq,
  if◌then◌else◌,
}
use service_oriented_archite.Base.Int.{ℤ, pos}
use service_oriented_archite.Python.Exception.{
  Result, ok, raise, fault, key_error, type_error, value_error, ◌>>=◌,
}
use service_oriented_archite.Python.Base64.{Bytes}
use service_oriented_archite.Python.Decimal.{int}

-- `time` is a naive `datetime`; `aware` one with a clock time and an offset in milliseconds.
mutual
  pub data Value : Type 0 where
    null : Value
    num : ℤ → Value
    text : String → Value
    bytes : Bytes → Value
    time : ℕ → Value
    aware : ℕ → ℤ → Value
    list : Items → Value
    dict : Fields → Value

  pub data Items : Type 0 where
    nil : Items
    cons : Value → Items → Items

  pub data Fields : Type 0 where
    end : Fields
    field : String → Value → Fields → Fields

-- `d.get(key)`, where `none` is a missing key.
unfoldable pub get : String → Fields → Option Value
get k end = none
get k (field j v d) = if k == j then some v else get k d

-- `d[key] = value`, and `{**d, key: value}` as a new dict.
unfoldable pub put : String → Value → Fields → Fields
put k v end = field k v end
put k v (field j w d) = if k == j then field k v d else field j w (put k v d)

pub get-put :
    (j k : String) (v : Value) (d : Fields)
    → get j (put k v d) ≡ (if j == k then some v else get j d)
unfolding get put
get-put j k v end = ground arith
get-put j k v (field i w d) = ground (arith, get-put j k v d)

-- `d[key]`
unfoldable pub item : String → Fields → Result Value
unfolding get
item k d = elim (get k d) [ none ↦ raise (fault (key_error k)) | some v ↦ ok v ]

unfoldable pub as_int : Value → Result ℤ
unfolding int
as_int (num n) = ok n
as_int (text s) = elim (int s) [ none ↦ raise (fault value_error) | some n ↦ ok n ]
as_int _ = raise (fault type_error)

unfoldable pub as_text : Value → Result String
as_text (text s) = ok s
as_text _ = raise (fault type_error)

unfoldable pub as_time : Value → Result ℕ
as_time (time t) = ok t
as_time _ = raise (fault type_error)

unfoldable pub as_list : Value → Result Items
as_list (list xs) = ok xs
as_list _ = raise (fault type_error)

unfoldable pub as_dict : Value → Result Fields
as_dict (dict d) = ok d
as_dict _ = raise (fault type_error)

-- `int(d[key])`
unfoldable pub int_at : String → Fields → Result ℤ
unfolding item as_int
int_at k d = do v ← item k d; as_int v

-- `d[key]` where the schema has a string, a timestamp or an array: a value of another type, which
-- no schema of hm6/schemas admits, raises here and not only where the source first uses it.
unfoldable pub text_at : String → Fields → Result String
unfolding item as_text
text_at k d = do v ← item k d; as_text v

unfoldable pub time_at : String → Fields → Result ℕ
unfolding item as_time
time_at k d = do v ← item k d; as_time v

unfoldable pub list_at : String → Fields → Result Items
unfolding item as_list
list_at k d = do v ← item k d; as_list v

abbrev pub as_nullable_text : Option Value → Result (Option String)
as_nullable_text none = ok none
as_nullable_text (some null) = ok none
as_nullable_text (some (text s)) = ok (some s)
as_nullable_text (some _) = raise (fault type_error)

-- `d.get(key)` where the schema has a nullable string or no field: as for `d[key]`, a value of another
-- type raises here.
unfoldable pub nullable_text_at : String → Fields → Result (Option String)
unfolding get
nullable_text_at k d = as_nullable_text (get k d)

-- `not value`
unfoldable pub is_falsy : Value → Bool
is_falsy null = true
is_falsy (num (pos zero)) = true
is_falsy (text String.[]) = true
is_falsy (bytes []) = true
is_falsy (list nil) = true
is_falsy (dict end) = true
is_falsy _ = false

-- `int(d.get(key) or 0)`
unfoldable pub int_or_zero : String → Fields → Result ℤ
unfolding get as_int is_falsy
int_or_zero k d = elim (get k d) [
  | none ↦ ok (pos 0)
  | some v ↦ if is_falsy v then ok (pos 0) else as_int v
]
