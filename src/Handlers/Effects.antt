-- ===== src/Handlers/Effects.antt =====
-- What the one-zone handlers of hm6/consumer/handlers.py write, read back from their results.
pub mod OneZone
pub mod Walks
pub mod Reserve
pub mod Created
pub mod Completed
pub mod Moved
use service_oriented_archite.Base.{
  ℕ, String, ◌≡◌, refl, ap, ◌∙◌, Bool, true, false, Option, none, some, List, [], ◌∷◌, ◌++◌, arith,
}
use service_oriented_archite.Base.Int.{ℤ, pos, ◌+ℤ◌, ◌-ℤ◌, ◌≤ℤ◌, ltb_ℤ}
use service_oriented_archite.Python.Exception.{Result, ok, raise, ◌>>=◌, raise_if}
use service_oriented_archite.Python.Ensures.{
  Ensures, Ensures-ok, Ensures-if, Ensures-guard, Ensures-bind, Ensures-then,
}
use service_oriented_archite.Python.Value.{Fields, num, put, int_at, text_at, time_at}
use service_oriented_archite.Cassandra.Tables.{Db, Statement}
use service_oriented_archite.Cassandra.Rows.{history_row, row_of}
use service_oriented_archite.Python.Datetime.{date}
use service_oriented_archite.Cassandra.Client.{Session, get_zone_state}
use service_oriented_archite.Handlers.Zone.{
  Handled, batch, out_of_order, ZoneState, zone_state, read_zone, is_stale, unless_stale,
  validate_quantity, zone_writes, history_write,
}
use service_oriented_archite.Handlers.Sound.{stock, is_history}

-- How an amount takes the state of a zone to its new available and reserved quantities.
abbrev pub Change : Type 1
Change = ℤ → ZoneState → ℤ → ℤ → Type 0

abbrev pub Received : Change
Received q s a r = (pos 0 ≤ℤ q) × (a ≡ s.available +ℤ q) × (r ≡ s.reserved)

abbrev pub Shipped : Change
Shipped q s a r = (pos 0 ≤ℤ q) × (q ≤ℤ s.available) × (a ≡ s.available -ℤ q) × (r ≡ s.reserved)

abbrev pub Reserved : Change
Reserved q s a r =
    (pos 0 ≤ℤ q) × (q ≤ℤ s.available) × (a ≡ s.available -ℤ q) × (r ≡ s.reserved +ℤ q)

abbrev pub Released : Change
Released q s a r = (pos 0 ≤ℤ q) × (q ≤ℤ s.reserved) × (a ≡ s.available +ℤ q) × (r ≡ s.reserved -ℤ q)

abbrev pub Counted : Change
Counted q s a r = (pos 0 ≤ℤ q) × (a ≡ q) × (r ≡ s.reserved)

-- The batch of an event that names one zone: the three writes of the zone, and the history.
pub record IsZoneBatch (key : String) (change : Change) (db : Db) (ev : Fields)
    (ops : List Statement) : Type 0 where
  pub p : String
  pub z : String
  pub q : ℤ
  pub t : ℕ
  pub a : ℤ
  pub r : ℤ
  pub id : String
  pub supplier : Option String
  pub history : Statement
  pub product : text_at "product_id" ev ≡ ok p
  pub zone : text_at "zone_id" ev ≡ ok z
  pub amount : int_at key ev ≡ ok q
  pub timestamp : time_at "timestamp" ev ≡ ok t
  pub newer : is_stale t (stock db p z).last_ts ≡ false
  pub changed : change q (stock db p z) a r
  pub named : text_at "event_id" ev ≡ ok id
  pub logged : is_history history ≡ true
  pub keyed : (day : ℕ) × (at : ℕ) × (row_of history ≡ history_row day at id)
  pub written : ops ≡ zone_writes p z a r id t supplier ++ history ∷ []

-- A property of a batch, as one of what a handler returns.
abbrev pub OnBatch : (List Statement → Type 0) → Handled → Type 0
OnBatch P (batch ops) = P ops
OnBatch P out_of_order = Unit

pub read_zone-eq-stock :
    (cass : Session) (p z : String) (s : ZoneState)
    → read_zone cass p z ≡ ok s
    → s ≡ stock cass.db p z
unfolding read_zone get_zone_state zone_state ◌>>=◌
read_zone-eq-stock cass p z s h = ground arith

pub nonneg_of_validate : (q : ℤ) → validate_quantity q ≡ ok tt → pos 0 ≤ℤ q
unfolding validate_quantity raise_if
nonneg_of_validate q h = ground arith

pub ≤ℤ_of_guard : (have need : ℤ) → ltb_ℤ have need ≡ false → need ≤ℤ have
≤ℤ_of_guard have need h = ground arith

pub history-is_history :
    (ev : Fields) (h : Statement) → history_write ev ≡ ok h → is_history h ≡ true
unfolding history_write ◌>>=◌
history-is_history ev h e = ground arith

-- The row of a history is that of the id of its event.
pub history_write-keyed :
    (ev : Fields) (id : String) (h : Statement)
    → text_at "event_id" ev ≡ ok id
    → history_write ev ≡ ok h
    → (day : ℕ) × (at : ℕ) × (row_of h ≡ history_row day at id)
unfolding history_write row_of
history_write-keyed ev id h named =
    (Ensures-bind _ _ λ t _. Ensures-bind _ _ λ i e. Ensures-bind _ _ λ _ _. Ensures-bind _ _ λ _ _.
        Ensures-bind _ _ λ _ _. Ensures-bind _ _ λ _ _.
          Ensures-ok
            {P = λ (s : Statement). (day : ℕ) × (at : ℕ) × (row_of s ≡ history_row day at id)} _
            (date t, t, ap (history_row (date t) t) (cc))).at
      h

pub Ensures-unless_stale :
    (P : List Statement → Type 0) (b : Bool) (rest : Result Handled)
    → (b ≡ false → Ensures (OnBatch P) rest)
    → Ensures (OnBatch P) (unless_stale b rest)
unfolding unless_stale
Ensures-unless_stale P true rest h = Ensures-ok out_of_order tt
Ensures-unless_stale P false rest h = h refl

pub zone_batch :
    {key : String} {change : Change} (cass : Session) (ev recorded : Fields) {p z : String} {q : ℤ}
    {t : ℕ}
    → text_at "product_id" ev ≡ ok p
    → text_at "zone_id" ev ≡ ok z
    → int_at key ev ≡ ok q
    → time_at "timestamp" ev ≡ ok t
    → (s : ZoneState) → read_zone cass p z ≡ ok s
    → is_stale t s.last_ts ≡ false
    → (a r : ℤ) (supplier : Option String) → change q s a r
    → text_at "event_id" recorded ≡ text_at "event_id" ev
    → Ensures (OnBatch (IsZoneBatch key change cass.db ev)) (do
      id ← text_at "event_id" ev
      history ← history_write recorded
      ok (batch (zone_writes p z a r id t supplier ++ history ∷ [])))
zone_batch {change = change} cass ev recorded {p} {z} {q} {t} ep ez eq et s es newer a r supplier
      changed same_id =
    Ensures-bind _ _ λ id ei. Ensures-bind _ _ λ h eh. Ensures-ok _ record {
      p = p;
      z = z;
      q = q;
      t = t;
      a = a;
      r = r;
      id = id;
      supplier = supplier;
      history = h;
      product = ep;
      zone = ez;
      amount = eq;
      timestamp = et;
      newer = rw (← read_zone-eq-stock cass p z s es) newer;
      changed = rw (← read_zone-eq-stock cass p z s es) changed;
      named = ei;
      logged = history-is_history recorded h eh;
      keyed = history_write-keyed recorded id h (same_id ∙ ei) eh;
      written = refl;
    }
