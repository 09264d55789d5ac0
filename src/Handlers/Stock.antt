-- ===== src/Handlers/Stock.antt =====
-- How a batch of hm6/consumer/handlers.py changes the stock of the zones.
use service_oriented_archite.Base.{
  ℕ, String, ◌≡◌, refl, ◌∙◌, true, Option, some, [], ◌∷◌, ◌++◌, arith, string_eq, pair_eq,
  if◌then◌else◌,
}
use service_oriented_archite.Base.Int.{ℤ}
use service_oriented_archite.Base.Table.{lookup-insert}
use service_oriented_archite.Cassandra.Tables.{
  Db, Statement, upsert_zone, upsert_product, upsert_zone_idx, mark_event, apply, apply_all,
}
use service_oriented_archite.Handlers.Zone.{ZoneState, zone_state, zone_writes}
use service_oriented_archite.Cassandra.Reordered.{apply_all-append}
use service_oriented_archite.Handlers.Sound.{stock, is_log, is_history, is_log_of_history, same_key}

-- The state that the writes of a zone leave.
abbrev pub written_state : ℤ → ℤ → String → ℕ → Option String → ZoneState
written_state a r id t supplier = record {
  available = a;
  reserved = r;
  last_ts = some t;
  last_event_id = some id;
  supplier_id = supplier;
}

pub stock-zone_writes :
    (p z : String) (a r : ℤ) (id : String) (t : ℕ) (supplier : Option String) (db : Db)
    (p' z' : String)
    → stock (apply_all (zone_writes p z a r id t supplier) db) p' z'
      ≡ (if same_key (p', z') (p, z) then written_state a r id t supplier else stock db p' z')
unfolding zone_writes apply_all apply zone_state
stock-zone_writes p z a r id t supplier db p' z' = rw lookup-insert (ground arith)

pub stock-log :
    (s : Statement) (db : Db) (p z : String)
    → is_log s ≡ true
    → stock (apply s db) p z ≡ stock db p z
unfolding apply
stock-log (upsert_zone a b c d e f g) db p z h = cc
stock-log (upsert_product a b c d e) db p z h = cc
stock-log (upsert_zone_idx a b c d e) db p z h = cc
stock-log (mark_event a b c d e) db p z h = cc
stock-log _ db p z h = refl

pub stock-zone_batch :
    (p z : String) (a r : ℤ) (id : String) (t : ℕ) (supplier : Option String) (h : Statement)
    (db : Db) (p' z' : String)
    → is_history h ≡ true
    → stock (apply_all (zone_writes p z a r id t supplier ++ h ∷ []) db) p' z'
      ≡ (if same_key (p', z') (p, z) then written_state a r id t supplier else stock db p' z')
unfolding apply_all
stock-zone_batch p z a r id t supplier h db p' z' k =
    rw (apply_all-append (zone_writes p z a r id t supplier) (h ∷ []) db) (
      stock-log h (apply_all (zone_writes p z a r id t supplier) db) p' z' (is_log_of_history h k)
      ∙ stock-zone_writes p z a r id t supplier db p' z')
