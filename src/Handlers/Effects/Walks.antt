-- ===== src/Handlers/Effects/Walks.antt =====
-- The dict `seen` of the order handlers of hm6/consumer/handlers.py: what it holds of the zones of
-- the database, and what its writes leave there.
use service_oriented_archite.Base.{
  ℕ, String, ◌≡◌, refl, sym, ap, subst, ◌∙◌, false, Option, none, some, [], ◌∷◌, arith, string_eq,
  pair_eq, if◌then◌else◌, inl, inr,
}
use service_oriented_archite.Base.Int.{ℤ, pos, ◌+ℤ◌, ◌≤ℤ◌, +ℤ-zero, +ℤ_assoc}
use service_oriented_archite.Base.Table.{
  lookup, insert, lookup-insert, NodupKeys, insert-NodupKeys, Values, Values-of_lookup,
}
use service_oriented_archite.Python.Exception.{ok}
use service_oriented_archite.Cassandra.Tables.{Db, apply_all}
use service_oriented_archite.Cassandra.Client.{Session}
use service_oriented_archite.Handlers.Zone.{ZoneState, is_stale, zone_writes}
use service_oriented_archite.Cassandra.Reordered.{apply_all-append}
use service_oriented_archite.Handlers.Sound.{
  stock, same_key, same_key-cases, IsSound, IsStockBatch, zone, empty,
}
use service_oriented_archite.Handlers.Stock.{written_state, stock-zone_writes}
use service_oriented_archite.Handlers.Effects.{read_zone-eq-stock}
use service_oriented_archite.Handlers.Orders.{Seen, seen_zone, seen_writes}

-- What is added to the reserved quantity of each zone.
abbrev pub Delta : Type 0
Delta = String → String → ℤ

-- One more amount for one zone.
abbrev pub add_at : String → String → ℤ → Delta → Delta
add_at p z x delta p' z' = if same_key (p', z') (p, z) then delta p' z' +ℤ x else delta p' z'

-- An entry of `seen` is the zone in the database with its reserved quantity changed by the delta;
-- a zone with no entry has no delta.
abbrev pub Tracked : ZoneState → ℕ → ℤ → Option ZoneState → Type 0
Tracked s t d none = d ≡ pos 0
Tracked s t d (some s') =
    (s' ≡ record s { reserved = s.reserved +ℤ d })
    × (is_stale t s.last_ts ≡ false)
    × (pos 0 ≤ℤ s'.reserved)

pub record Tracks (db : Db) (t : ℕ) (delta : Delta) (seen : Seen) : Type 0 where
  pub keys : NodupKeys seen
  pub at : (p z : String) → Tracked (stock db p z) t (delta p z) (lookup (p, z) seen)

-- The first state of a zone in `seen` is that of the database.
pub Tracked-seen_zone :
    (cass : Session) (t : ℕ) (p z : String) (d : ℤ) (seen : Seen) (s : ZoneState)
    → Tracked (stock cass.db p z) t d (lookup (p, z) seen)
    → seen_zone cass p z seen ≡ ok s
    → s ≡ record (stock cass.db p z) { reserved = (stock cass.db p z).reserved +ℤ d }
unfolding seen_zone
Tracked-seen_zone cass t p z d seen s h e =
    ground (arith, read_zone-eq-stock cass p z s, +ℤ-zero (stock cass.db p z).reserved)

Tracked-add :
    (s : ZoneState) (t : ℕ) (d x : ℤ) (s' : ZoneState)
    → s' ≡ record s { reserved = s.reserved +ℤ d }
    → is_stale t s'.last_ts ≡ false
    → (r : ℤ) → r ≡ s'.reserved +ℤ x
    → pos 0 ≤ℤ r
    → Tracked s t (d +ℤ x) (some (record s' { reserved = r }))
Tracked-add s t d x s' e newer r er nonneg = ground (arith, +ℤ_assoc s.reserved d x)

-- Changing the reserved quantity of a zone that is not out of order by `x` adds `x` to its delta.
pub Tracks-insert :
    (cass : Session) (t : ℕ) (delta : Delta) (seen : Seen) (p z : String) (s : ZoneState)
    → Tracks cass.db t delta seen
    → seen_zone cass p z seen ≡ ok s
    → is_stale t s.last_ts ≡ false
    → (x r : ℤ) → r ≡ s.reserved +ℤ x
    → pos 0 ≤ℤ r
    → Tracks cass.db t (add_at p z x delta) (insert (p, z) (record s { reserved = r }) seen)
Tracks-insert cass t delta seen p z s h e newer x r er nonneg = record {
  keys = insert-NodupKeys (p, z) (record s { reserved = r }) seen h.keys;
  at = λ p' z'. rw lookup-insert (elim (same_key-cases (p', z') (p, z)) [
    | inl (same, k) ↦ rw same (
        subst
          (λ (j : String × String).
            Tracked (stock cass.db j.0 j.1) t (delta j.0 j.1 +ℤ x)
              (some (record s { reserved = r })))
          (sym k)
          (Tracked-add (stock cass.db p z) t (delta p z) x s
            (Tracked-seen_zone cass t p z (delta p z) seen s (h.at p z) e) newer r er nonneg))
    | inr differ ↦ rw differ (h.at p' z')
  ]);
}

-- The reserved quantity that a walk reads of a zone is never negative.
pub seen_zone-nonneg :
    (cass : Session) (t : ℕ) (delta : Delta) (seen : Seen) (p z : String) (s : ZoneState)
    → IsSound cass.db
    → Tracks cass.db t delta seen
    → seen_zone cass p z seen ≡ ok s
    → pos 0 ≤ℤ s.reserved
unfolding seen_zone
seen_zone-nonneg cass t delta seen p z s sound h e =
    ground (arith, h.at p z, read_zone-eq-stock cass p z s, sound.reserved p z)

-- The writes of `seen` leave each of its zones in its state there, and every other zone alone.
abbrev pub after_writes : String → ℕ → Option ZoneState → ZoneState → ZoneState
after_writes id t none s = s
after_writes id t (some s') s = written_state s'.available s'.reserved id t s'.supplier_id

pub stock-seen_writes :
    (id : String) (t : ℕ) (seen : Seen) (db : Db) (p z : String)
    → NodupKeys seen
    → stock (apply_all (seen_writes id t seen) db) p z
      ≡ after_writes id t (lookup (p, z) seen) (stock db p z)
unfolding seen_writes apply_all lookup
stock-seen_writes id t [] db p z h = refl
stock-seen_writes id t (((p', z'), s) ∷ seen) db p z h =
    rw
      (apply_all-append (zone_writes p' z' s.available s.reserved id t s.supplier_id)
        (seen_writes id t seen) db)
      (stock-seen_writes id t seen
          (apply_all (zone_writes p' z' s.available s.reserved id t s.supplier_id) db) p z h.1
        ∙ rw (stock-zone_writes p' z' s.available s.reserved id t s.supplier_id db p z)
            (elim (same_key-cases (p, z) (p', z')) [
              | inl (same, k) ↦ rw (same, k, h.0)
              | inr differ ↦ rw differ
            ]))

abbrev pub IsNonneg : ZoneState → Type 0
IsNonneg s = (pos 0 ≤ℤ s.available) × (pos 0 ≤ℤ s.reserved)

seen_writes-IsStockBatch_of_Values :
    (id : String) (t : ℕ) (seen : Seen)
    → Values IsNonneg seen
    → IsStockBatch (seen_writes id t seen)
unfolding seen_writes
seen_writes-IsStockBatch_of_Values id t [] h = empty
seen_writes-IsStockBatch_of_Values id t (((p, z), s) ∷ seen) (h, hs) =
    zone p z s.available s.reserved id t s.supplier_id h.0 h.1
      (seen_writes-IsStockBatch_of_Values id t seen hs)

Tracked-IsNonneg :
    (s : ZoneState) (t : ℕ) (d : ℤ) (s' : ZoneState)
    → pos 0 ≤ℤ s.available
    → Tracked s t d (some s')
    → IsNonneg s'
Tracked-IsNonneg s t d s' h (e, _, nonneg) = (rw (ap (λ (x : ZoneState). x.available) e) h, nonneg)

-- On a sound database the writes of what a walk has seen are sound.
pub seen_writes-IsStockBatch :
    (id : String) (t : ℕ) (db : Db) (delta : Delta) (seen : Seen)
    → IsSound db
    → Tracks db t delta seen
    → IsStockBatch (seen_writes id t seen)
seen_writes-IsStockBatch id t db delta seen sound h = seen_writes-IsStockBatch_of_Values id t seen (
    Values-of_lookup IsNonneg seen h.keys λ (p, z) s e.
      Tracked-IsNonneg (stock db p z) t (delta p z) s (sound.available p z) (rw e at (h.at p z)))
