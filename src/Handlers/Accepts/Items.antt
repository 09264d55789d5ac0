-- ===== src/Handlers/Accepts/Items.antt =====
-- When the loops over the items of an order in hm6/consumer/handlers.py go through.
use service_oriented_archite.Base.{
  ℕ, String, ◌≡◌, refl, ap, ◌∙◌, Bool, true, false, List, [], ◌∷◌, ◌++◌, string_eq, pair_eq, inl,
  inr, Bool-cases, Option-cases,
}
use service_oriented_archite.Base.Int.{ℤ, pos, ◌+ℤ◌, ◌-ℤ◌, ◌≤ℤ◌, int_laws}
use service_oriented_archite.Base.Table.{lookup}
use service_oriented_archite.Python.Exception.{Result, ok}
use service_oriented_archite.Python.Value.{Value, text, Items, nil, cons, as_int}
use service_oriented_archite.Cassandra.Tables.{Db, OrderItem}
use service_oriented_archite.Cassandra.Client.{Session}
use service_oriented_archite.Handlers.Zone.{ZoneState, is_stale}
use service_oriented_archite.Handlers.Sound.{stock, same_key, IsSound}
use service_oriented_archite.Handlers.Steps.{
  >>=-comes_to, >>-comes_to, raise_if-passed, validate_quantity-passed, enough, read_zone-answered,
}
use service_oriented_archite.Handlers.Effects.Walks.{Delta, add_at, Tracks, Tracked-seen_zone}
use service_oriented_archite.Handlers.Effects.Reserve.{reserve_item-Reserves}
use service_oriented_archite.Handlers.Effects.Completed.{
  take_amount, settlement, complete_item-Tracks,
}
use service_oriented_archite.Handlers.Changes.{same_key_refl}
use service_oriented_archite.Handlers.Orders.{
  Seen, seen_zone, Walk, done, and_next, unless_stale_item, OrderLine, order_line, reserve_item,
  reserve_items, complete_item, complete_items,
}

-- An item of a new order that a zone can serve.
pub record IsServed (db : Db) (t : ℕ) (it : Value) : Type 0 where
  pub line : OrderLine
  pub read : order_line it ≡ ok line
  pub nonneg : pos 0 ≤ℤ line.qty
  pub newer : is_stale t (stock db line.pid line.zid).last_ts ≡ false
  pub covered : line.qty ≤ℤ (stock db line.pid line.zid).available

abbrev pub AllServed : Db → ℕ → Items → Type 0
AllServed db t nil = Unit
AllServed db t (cons it rest) = IsServed db t it × AllServed db t rest

-- An item of a stored order, with an amount, of a zone that is older.
pub record IsHeld (db : Db) (t : ℕ) (it : OrderItem) : Type 0 where
  pub amount : ℤ
  pub read : as_int (text it.quantity) ≡ ok amount
  pub nonneg : pos 0 ≤ℤ amount
  pub newer : is_stale t (stock db it.product_id it.zone_id).last_ts ≡ false

abbrev pub AllHeld : Db → ℕ → List OrderItem → Type 0
AllHeld db t [] = Unit
AllHeld db t (it ∷ rest) = IsHeld db t it × AllHeld db t rest

unless_stale_item-comes_to :
    {A : Type 0} (b : Bool) (k : Result (Walk A)) {x : Result (Walk A)}
    → b ≡ false
    → k ≡ x
    → unless_stale_item b k ≡ x
unfolding unless_stale_item
unless_stale_item-comes_to b k e h = rw e h

and_next-comes_to :
    {A B : Type 0} (m : Result (Walk A)) (next : A → Result (Walk B)) (a : A) {x : Result (Walk B)}
    → m ≡ ok (done a)
    → next a ≡ x
    → and_next m next ≡ x
unfolding and_next
and_next-comes_to m next a e h = rw e h

module _ (cass : Session) (t : ℕ) (answers : (p z : String) → cass.zone_answers p z ≡ true) where
  seen_zone-answered :
      (p z : String) (seen : Seen) → (s : ZoneState) × (seen_zone cass p z seen ≡ ok s)
  unfolding seen_zone
  seen_zone-answered p z seen = elim (Option-cases (lookup (p, z) seen)) [
    | inl fresh ↦
        (stock cass.db p z, rw (fresh, seen_zone) (read_zone-answered cass p z (answers p z)))
    | inr (s, found) ↦ (s, rw (found, seen_zone) refl)
  ]

  -- A walk sees a zone as it is in the database, but for what it has reserved.
  seen_zone-Tracks :
      (p z : String) (delta : Delta) (seen : Seen)
      → Tracks cass.db t delta seen
      → seen_zone cass p z seen
        ≡ ok (record (stock cass.db p z) { reserved = (stock cass.db p z).reserved +ℤ delta p z })
  seen_zone-Tracks p z delta seen h =
      let (s, e) = seen_zone-answered p z seen in
      e ∙ ap (λ x. ok x) (Tracked-seen_zone cass t p z (delta p z) seen s (h.at p z) e)

  reserve_item-served :
      (it : Value) (delta : Delta) (seen : Seen)
      → Tracks cass.db t delta seen
      → IsServed cass.db t it
      → (out : Seen × OrderItem) × (reserve_item cass t it seen ≡ ok (done out))
  unfolding reserve_item
  reserve_item-served it delta seen h i = (
    _,
    >>=-comes_to _ _ i.line i.read (
        >>-comes_to _ _ (validate_quantity-passed i.line.qty i.nonneg) (
          >>=-comes_to _ _ _ (seen_zone-Tracks i.line.pid i.line.zid delta seen h) (
            unless_stale_item-comes_to _ _ i.newer
              (>>-comes_to _ _ (raise_if-passed _ _ (enough _ i.line.qty i.covered)) refl)))),
  )

  -- Over sound tables, with every read answered, the loop over items that are served goes through.
  pub reserve_items-served :
      (items : Items) (delta : Delta) (seen : Seen) (serialized : List OrderItem)
      → IsSound cass.db
      → Tracks cass.db t delta seen
      → AllServed cass.db t items
      → (out : Seen × List OrderItem) × (reserve_items cass t items seen serialized ≡ ok (done out))
  unfolding reserve_items
  reserve_items-served nil delta seen serialized sound h i = ((seen, serialized), refl)
  reserve_items-served (cons it rest) delta seen serialized sound h (i, more) =
      let ((seen', item), e) = reserve_item-served it delta seen h i in
      let r = (reserve_item-Reserves cass t it delta seen sound h).at (done (seen', item)) e in
      let (out, e') =
        reserve_items-served rest (add_at r.line.pid r.line.zid r.line.qty delta) seen'
          (serialized ++ item ∷ []) sound r.tracks more in
      (out, and_next-comes_to _ _ (seen', item) e e')

-- Amounts that are not negative only lower what is left of a delta.
add_at-le :
    (p' z' p z : String) (q : ℤ) (delta : Delta)
    → pos 0 ≤ℤ q
    → add_at p' z' (pos 0 -ℤ q) delta p z ≤ℤ delta p z
add_at-le p' z' p z q delta h = elim (Bool-cases (same_key (p, z) (p', z'))) [
  | inl same ↦ rw same (omega int_laws)
  | inr differ ↦ rw differ (omega int_laws)
]

settlement-le :
    (db : Db) (t : ℕ) (items : List OrderItem) (delta : Delta) (p z : String)
    → AllHeld db t items
    → settlement items delta p z ≤ℤ delta p z
settlement-le db t [] delta p z h = omega int_laws
settlement-le db t (it ∷ rest) delta p z (i, more) = rw i.read (
    omega (
      int_laws,
      settlement-le db t rest (add_at it.product_id it.zone_id (pos 0 -ℤ i.amount) delta) p z more,
      add_at-le it.product_id it.zone_id p z i.amount delta i.nonneg,
    ))

-- What is reserved covers an item when it covers all that are left.
reserved-covers :
    (db : Db) (t : ℕ) (it : OrderItem) (rest : List OrderItem) (delta : Delta) (i : IsHeld db t it)
    → AllHeld db t rest
    → pos 0
      ≤ℤ (stock db it.product_id it.zone_id).reserved
        +ℤ settlement (it ∷ rest) delta it.product_id it.zone_id
    → i.amount ≤ℤ (stock db it.product_id it.zone_id).reserved +ℤ delta it.product_id it.zone_id
reserved-covers db t it rest delta i more floor =
    let last =
      settlement-le db t rest (add_at it.product_id it.zone_id (pos 0 -ℤ i.amount) delta)
        it.product_id it.zone_id more in
    let floor' = rw i.read at floor in
    let here = rw (same_key_refl (it.product_id, it.zone_id)) at last in omega int_laws

module _ (cass : Session) (t : ℕ) (answers : (p z : String) → cass.zone_answers p z ≡ true) where
  complete_item-held :
      (it : OrderItem) (delta : Delta) (seen : Seen)
      → Tracks cass.db t delta seen
      → (i : IsHeld cass.db t it)
      → i.amount
        ≤ℤ (stock cass.db it.product_id it.zone_id).reserved +ℤ delta it.product_id it.zone_id
      → (out : Seen) × (complete_item cass t it seen ≡ ok (done out))
  unfolding complete_item
  complete_item-held it delta seen h i covered = (
    _,
    >>=-comes_to _ _ i.amount i.read (
        >>=-comes_to _ _ _ (seen_zone-Tracks cass t answers it.product_id it.zone_id delta seen h) (
          unless_stale_item-comes_to _ _ i.newer
            (>>-comes_to _ _ (raise_if-passed _ _ (enough _ i.amount covered)) refl))),
  )

  -- The loop over the items of a stored order goes through when each zone's reserved quantity covers
  -- what they hold there.
  pub complete_items-held :
      (items : List OrderItem) (delta : Delta) (seen : Seen)
      → Tracks cass.db t delta seen
      → AllHeld cass.db t items
      → ((p z : String) → pos 0 ≤ℤ (stock cass.db p z).reserved +ℤ settlement items delta p z)
      → (out : Seen) × (complete_items cass t items seen ≡ ok (done out))
  unfolding complete_items
  complete_items-held [] delta seen h i floor = (seen, refl)
  complete_items-held (it ∷ rest) delta seen h (i, more) floor =
      let (seen', e) =
        complete_item-held it delta seen h i
          (reserved-covers cass.db t it rest delta i more (floor it.product_id it.zone_id)) in
      let (out, e') =
        complete_items-held rest (take_amount (as_int (text it.quantity)) it delta) seen'
          ((complete_item-Tracks cass t it delta seen h).at (done seen') e) more floor in
      (out, and_next-comes_to _ _ seen' e e')
