-- ===== src/Handlers/Newer.antt =====
-- The event times of the zones under the batches of hm6/consumer/handlers.py.
use service_oriented_archite.Base.{
  ℕ, ◌≤◌, String, ◌≡◌, refl, sym, subst, true, false, Option, none, some, List, [], ◌∷◌, ◌++◌,
  arith, string_eq, pair_eq, inl, inr,
}
use service_oriented_archite.Base.Table.{lookup}
use service_oriented_archite.Base.Int.{ℤ}
use service_oriented_archite.Python.Ensures.{Ensures, Ensures-mono}
use service_oriented_archite.Python.Value.{Fields}
use service_oriented_archite.Cassandra.Tables.{
  Db, Statement, apply, apply_all, upsert_order, update_order_status,
}
use service_oriented_archite.Cassandra.Client.{Session}
use service_oriented_archite.Handlers.{Handler, find_handler}
use service_oriented_archite.Handlers.Dispatch.{find_handler-cases}
use service_oriented_archite.Handlers.Zone.{ZoneState, is_stale}
use service_oriented_archite.Cassandra.Reordered.{apply_all-append}
use service_oriented_archite.Handlers.Sound.{
  stock, IsSound, same_key-cases, is_log, is_history, is_log_of_history,
}
use service_oriented_archite.Handlers.Stock.{stock-log}
use service_oriented_archite.Handlers.Effects.{Change, OnBatch, IsZoneBatch}
use service_oriented_archite.Handlers.Effects.Walks.{
  Delta, Tracks, Tracked, after_writes, stock-seen_writes,
}
use service_oriented_archite.Handlers.Effects.OneZone.{
  handle_product_received-writes, handle_product_shipped-writes, handle_product_reserved-writes,
  handle_product_released-writes, handle_inventory_counted-writes,
}
use service_oriented_archite.Handlers.Effects.Reserve.{demand, stored}
use service_oriented_archite.Handlers.Effects.Moved.{handle_product_moved-writes}
use service_oriented_archite.Handlers.Effects.Created.{
  no_delta, IsOrderBatch, handle_order_created-writes,
}
use service_oriented_archite.Handlers.Effects.Completed.{
  settlement, IsCompletion, first, again, handle_order_completed-writes,
}
use service_oriented_archite.Handlers.Changes.{ChangesZone, ChangesZone-of_batch}
use service_oriented_archite.Handlers.Changes.Move.{MovesStock, MovesStock-of_batch}
use service_oriented_archite.Handlers.Keeps.{OnBatch-mono}
use service_oriented_archite.Handlers.Orders.{Seen, seen_writes}

-- The second time is there if the first is, and is not before it.
abbrev pub NotOlder : Option ℕ → Option ℕ → Type 0
NotOlder none o = Unit
NotOlder (some a) none = ⊥
NotOlder (some a) (some b) = a ≤ b

pub NotOlder-refl : (o : Option ℕ) → NotOlder o o
NotOlder-refl none = tt
NotOlder-refl (some a) = omega arith

pub NotOlder-trans : (a b c : Option ℕ) → NotOlder a b → NotOlder b c → NotOlder a c
NotOlder-trans none b c h k = tt
NotOlder-trans (some a) none c h k = absurd h
NotOlder-trans (some a) (some b) none h k = absurd k
NotOlder-trans (some a) (some b) (some c) h k = omega arith

NotOlder-of_newer : (t : ℕ) (o : Option ℕ) → is_stale t o ≡ false → NotOlder o (some t)
unfolding is_stale
NotOlder-of_newer t none h = tt
NotOlder-of_newer t (some a) h = ground arith

-- No zone gets an older event time by the batch.
abbrev pub Grows : Db → List Statement → Type 0
Grows db ops =
    (p z : String) → NotOlder (stock db p z).last_ts (stock (apply_all ops db) p z).last_ts

same_state : (s s' : ZoneState) → s' ≡ s → NotOlder s.last_ts s'.last_ts
same_state s s' e =
    subst (λ (x : ZoneState). NotOlder s.last_ts x.last_ts) (sym e) (NotOlder-refl s.last_ts)

stamped_state :
    (s s' : ZoneState) (t : ℕ)
    → is_stale t s.last_ts ≡ false
    → s'.last_ts ≡ some t
    → NotOlder s.last_ts s'.last_ts
stamped_state s s' t newer e =
    subst (λ o. NotOlder s.last_ts o) (sym e) (NotOlder-of_newer t s.last_ts newer)

ChangesZone-Grows :
    {key : String} {change : Change} {db : Db} {ev : Fields} (ops : List Statement)
    → ChangesZone key change db ev ops
    → Grows db ops
ChangesZone-Grows {db = db} ops c p z = elim (same_key-cases (p, z) (c.p, c.z)) [
  | inl (same, k) ↦
      subst
        (λ (j : String × String).
          NotOlder (stock db j.0 j.1).last_ts (stock (apply_all ops db) j.0 j.1).last_ts)
        (sym k)
        (stamped_state (stock db c.p c.z) (stock (apply_all ops db) c.p c.z) c.t c.newer c.stamped)
  | inr differ ↦ same_state (stock db p z) (stock (apply_all ops db) p z) (c.others p z differ)
]

MovesStock-Grows :
    {db : Db} {ev : Fields} (ops : List Statement) → MovesStock db ev ops → Grows db ops
MovesStock-Grows {db} ops c p z = elim (same_key-cases (p, z) (c.p, c.source)) [
  | inl (same, k) ↦
      subst
        (λ (j : String × String).
          NotOlder (stock db j.0 j.1).last_ts (stock (apply_all ops db) j.0 j.1).last_ts)
        (sym k)
        (stamped_state (stock db c.p c.source) (stock (apply_all ops db) c.p c.source) c.t
          c.newer_source c.stamped_source)
  | inr differ ↦ elim (same_key-cases (p, z) (c.p, c.target)) [
    | inl (same, k) ↦
        subst
          (λ (j : String × String).
            NotOlder (stock db j.0 j.1).last_ts (stock (apply_all ops db) j.0 j.1).last_ts)
          (sym k)
          (stamped_state (stock db c.p c.target) (stock (apply_all ops db) c.p c.target) c.t
            c.newer_target c.stamped_target)
    | inr differ' ↦
        same_state (stock db p z) (stock (apply_all ops db) p z) (c.others p z differ differ')
  ]
]

after_writes-NotOlder :
    (id : String) (t : ℕ) (s : ZoneState) (d : ℤ) (o : Option ZoneState)
    → Tracked s t d o
    → NotOlder s.last_ts (after_writes id t o s).last_ts
after_writes-NotOlder id t s d none h = NotOlder-refl s.last_ts
after_writes-NotOlder id t s d (some s') (_, newer, _) = NotOlder-of_newer t s.last_ts newer

order_batch-Grows :
    (id : String) (t : ℕ) (seen : Seen) (o h : Statement) (db : Db) (delta : Delta)
    → Tracks db t delta seen
    → is_log o ≡ true
    → is_history h ≡ true
    → Grows db (seen_writes id t seen ++ o ∷ h ∷ [])
unfolding apply_all
order_batch-Grows id t seen o h db delta tracks lo lh p z =
    rw
      (
        apply_all-append (seen_writes id t seen) (o ∷ h ∷ []) db,
        stock-log h (apply o (apply_all (seen_writes id t seen) db)) p z (is_log_of_history h lh),
        stock-log o (apply_all (seen_writes id t seen) db) p z lo,
        stock-seen_writes id t seen db p z tracks.keys,
      )
      (after_writes-NotOlder id t (stock db p z) (delta p z) (lookup (p, z) seen) (tracks.at p z))

-- Over sound tables, every batch of the handler grows only.
abbrev pub KeepsTime : Handler → Type 0
KeepsTime handler =
    (cass : Session) (ev : Fields)
    → IsSound cass.db
    → Ensures (OnBatch (Grows cass.db)) (handler cass ev)

module _ {key : String} {change : Change} where
  zone_batch-Grows :
      {db : Db} {ev : Fields} (ops : List Statement)
      → IsZoneBatch key change db ev ops
      → Grows db ops
  zone_batch-Grows ops b = ChangesZone-Grows ops (ChangesZone-of_batch ops b)

order_created-Grows :
    {db : Db} {ev : Fields} (ops : List Statement) → IsOrderBatch db ev ops → Grows db ops
order_created-Grows {db} ops b p z = rw b.written (
    order_batch-Grows b.id b.t b.seen (upsert_order b.order_id "CREATED" (stored b.items) b.t b.t)
      b.history db (demand b.items no_delta) b.tracks refl b.logged p z)

completion-Grows :
    {db : Db} {ev : Fields} (ops : List Statement) → IsCompletion db ev ops → Grows db ops
unfolding apply_all
completion-Grows {db} ops (first b) p z = rw b.written (
    order_batch-Grows b.id b.t b.seen (update_order_status "COMPLETED" b.t b.order_id) b.history db
      (settlement b.items no_delta) b.tracks refl b.logged p z)
completion-Grows {db} ops (again b) p z = rw b.written (
    same_state (stock db p z) (stock (apply b.history db) p z)
      (stock-log b.history db p z (is_log_of_history b.history b.logged)))

pub find_handler-KeepsTime :
    (event_type : String) (handler : Handler)
    → find_handler event_type ≡ some handler
    → KeepsTime handler
find_handler-KeepsTime =
    find_handler-cases KeepsTime
      (λ cass ev sound.
        Ensures-mono _ (OnBatch-mono zone_batch-Grows) (handle_product_received-writes cass ev))
      (λ cass ev sound.
        Ensures-mono _ (OnBatch-mono zone_batch-Grows) (handle_product_shipped-writes cass ev))
      (λ cass ev sound.
        Ensures-mono _ (OnBatch-mono (λ ops b. MovesStock-Grows ops (MovesStock-of_batch ops b)))
          (handle_product_moved-writes cass ev))
      (λ cass ev sound.
        Ensures-mono _ (OnBatch-mono zone_batch-Grows) (handle_product_reserved-writes cass ev))
      (λ cass ev sound.
        Ensures-mono _ (OnBatch-mono zone_batch-Grows) (handle_product_released-writes cass ev))
      (λ cass ev sound.
        Ensures-mono _ (OnBatch-mono zone_batch-Grows) (handle_inventory_counted-writes cass ev))
      (λ cass ev sound.
        Ensures-mono _ (OnBatch-mono order_created-Grows)
          (handle_order_created-writes cass ev sound))
      (λ cass ev sound.
        Ensures-mono _ (OnBatch-mono completion-Grows) (handle_order_completed-writes cass ev))
