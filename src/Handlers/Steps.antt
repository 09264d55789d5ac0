-- ===== src/Handlers/Steps.antt =====
-- How the steps of a handler of hm6/consumer/handlers.py go on, and where they raise.
use service_oriented_archite.Base.{
  ℕ, String, Option, none, some, ◌≡◌, refl, Bool, true, false, arith, string_eq, inl, inr,
  Bool-cases, Option-cases, ◌==◌,
}
use service_oriented_archite.Base.Int.{ℤ, pos, ◌≤ℤ◌, ltb_ℤ}
use service_oriented_archite.Python.Exception.{Result, ok, raise, Exn, ◌>>=◌, ◌>>◌, raise_if}
use service_oriented_archite.Python.Value.{
  Value, null, num, as_nullable_text, as_text, Fields, get, put, get-put, item, is_falsy, int_at,
  text_at, time_at, nullable_text_at, int_or_zero, as_int,
}
use service_oriented_archite.Cassandra.Tables.{Statement, insert_history}
use service_oriented_archite.Python.Datetime.{date}
use service_oriented_archite.Handlers.Jsonable.{jsonable}
use service_oriented_archite.Cassandra.Client.{Session, get_zone_state}
use service_oriented_archite.Handlers.Zone.{
  Handled, read_zone, unless_stale, validate_quantity, history_write,
}
use service_oriented_archite.Handlers.Orders.{order_history}
use service_oriented_archite.Handlers.Sound.{stock}

-- A computation comes to what its last step comes to.
pub >>=-comes_to :
    {A B : Type 0} (m : Result A) (f : A → Result B) (a : A) {x : Result B}
    → m ≡ ok a
    → f a ≡ x
    → (m >>= f) ≡ x
unfolding ◌>>=◌
>>=-comes_to m f a e h = rw e h

pub >>-comes_to :
    {A : Type 0} (m : Result (Unit {0})) (k : Result A) {x : Result A}
    → m ≡ ok tt
    → k ≡ x
    → (m >> k) ≡ x
unfolding ◌>>◌
>>-comes_to m k e h = rw e h

pub unless_stale-comes_to :
    (b : Bool) (k : Result Handled) {x : Result Handled} → b ≡ false → k ≡ x → unless_stale b k ≡ x
unfolding unless_stale
unless_stale-comes_to b k e h = rw e h

pub raise_if-raised :
    (b : Bool) (e : Exn) (k : Result Handled) → b ≡ true → (raise_if b e >> k) ≡ raise e
unfolding ◌>>◌ raise_if
raise_if-raised b e k h = rw h refl

pub raise_if-passed : (b : Bool) (e : Exn) → b ≡ false → raise_if b e ≡ ok tt
unfolding raise_if
raise_if-passed b e h = rw h refl

pub validate_quantity-passed : (q : ℤ) → pos 0 ≤ℤ q → validate_quantity q ≡ ok tt
unfolding validate_quantity
validate_quantity-passed q h = raise_if-passed _ _ (ground arith)

pub enough : (have need : ℤ) → need ≤ℤ have → ltb_ℤ have need ≡ false
enough have need h = ground arith

-- A quantity that `int` reads is also read by `int(... or 0)`.
pub int_or_zero-int_at :
    (k : String) (ev : Fields) (q : ℤ) → int_at k ev ≡ ok q → (n : ℤ) × (int_or_zero k ev ≡ ok n)
unfolding int_at item int_or_zero ◌>>=◌
int_or_zero-int_at k ev q h = elim (Option-cases (get k ev)) [
  | inl missing ↦ (pos 0, ground arith)
  | inr (v, found) ↦ elim (Bool-cases (is_falsy v)) [
    | inl falsy ↦ (pos 0, ground arith)
    | inr truthy ↦ (q, ground arith)
  ]
]

pub read_zone-answered :
    (cass : Session) (p z : String)
    → cass.zone_answers p z ≡ true
    → read_zone cass p z ≡ ok (stock cass.db p z)
unfolding read_zone get_zone_state ◌>>=◌
read_zone-answered cass p z h = ground arith

-- A text is also read where the schema has a nullable one.
pub nullable_text_at-text_at :
    (k : String) (ev : Fields) (s : String)
    → text_at k ev ≡ ok s
    → nullable_text_at k ev ≡ ok (some s)
unfolding text_at item as_text nullable_text_at ◌>>=◌
nullable_text_at-text_at k ev s h = ground arith

pub nullable_text_at-put_other :
    (j k : String) (v : Value) (ev : Fields)
    → (j == k) ≡ false
    → nullable_text_at j (put k v ev) ≡ nullable_text_at j ev
unfolding nullable_text_at
nullable_text_at-put_other j k v ev h = rw (nullable_text_at, get-put j k v ev, h) refl

pub nullable_text_at-put :
    (k : String) (v : Value) (ev : Fields)
    → (k == k) ≡ true
    → nullable_text_at k (put k v ev) ≡ as_nullable_text (some v)
unfolding nullable_text_at
nullable_text_at-put k v ev h = rw (nullable_text_at, get-put k k v ev, h) refl

-- The history of an event with an id, a type, a time and a quantity, and a product and a zone or none.
pub history_write-comes_to :
    (ev : Fields) (type id : String) (product zone : Option String) (q : ℤ) (t : ℕ)
    → nullable_text_at "product_id" ev ≡ ok product
    → nullable_text_at "zone_id" ev ≡ ok zone
    → time_at "timestamp" ev ≡ ok t
    → text_at "event_id" ev ≡ ok id
    → text_at "event_type" ev ≡ ok type
    → int_at "quantity" ev ≡ ok q
    → (h : Statement) × (history_write ev ≡ ok h)
unfolding history_write
history_write-comes_to ev type id product zone q t has_product has_zone timestamp named typed
      amount =
    let (n, e) = int_or_zero-int_at "quantity" ev q amount in
    (
      insert_history (date t) t id type product zone n (jsonable ev),
      >>=-comes_to _ _ t timestamp (
          >>=-comes_to _ _ id named (
            >>=-comes_to _ _ type typed (
              >>=-comes_to _ _ n e
                (>>=-comes_to _ _ product has_product (>>=-comes_to _ _ zone has_zone refl))))),
    )

-- A field that is not the one that was put is what it was.
pub item-put_other :
    (j k : String) (v : Value) (ev : Fields) → (j == k) ≡ false → item j (put k v ev) ≡ item j ev
unfolding item
item-put_other j k v ev h = rw (item, get-put j k v ev, h) refl

pub int_at-put :
    (k : String) (n : ℤ) (ev : Fields) → (k == k) ≡ true → int_at k (put k (num n) ev) ≡ ok n
unfolding int_at item as_int ◌>>=◌
int_at-put k n ev h = rw (int_at, item, get-put k k (num n) ev, h) refl

-- The history of an order event.
pub order_history-comes_to :
    (ev : Fields) (type id : String) (t : ℕ)
    → time_at "timestamp" ev ≡ ok t
    → text_at "event_id" ev ≡ ok id
    → text_at "event_type" ev ≡ ok type
    → (h : Statement) × (history_write (order_history ev) ≡ ok h)
unfolding order_history time_at text_at string_eq
order_history-comes_to ev type id t timestamp named typed =
    history_write-comes_to (order_history ev) type id none none (pos 0) t
      (rw (nullable_text_at-put_other, nullable_text_at-put_other)
        (nullable_text_at-put "product_id" null ev refl))
      (rw nullable_text_at-put_other (nullable_text_at-put "zone_id" null _ refl))
      (rw (item-put_other, item-put_other, item-put_other) timestamp)
      (rw (item-put_other, item-put_other, item-put_other) named)
      (rw (item-put_other, item-put_other, item-put_other) typed)
      (int_at-put "quantity" (pos 0) _ refl)
