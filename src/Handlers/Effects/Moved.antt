-- ===== src/Handlers/Effects/Moved.antt =====
-- What the batch of `handle_product_moved` of hm6/consumer/handlers.py is.
use service_oriented_archite.Base.{
  ℕ, String, ◌≡◌, ◌≢◌, Bool, true, false, ◌||◌, List, [], ◌∷◌, ◌++◌, arith, ◌==◌, string_eq,
}
use service_oriented_archite.Base.Int.{ℤ, pos, ◌+ℤ◌, ◌-ℤ◌, ◌≤ℤ◌}
use service_oriented_archite.Python.Exception.{ok}
use service_oriented_archite.Python.Ensures.{
  Ensures, Ensures-ok, Ensures-guard, Ensures-bind, Ensures-then,
}
use service_oriented_archite.Python.Value.{Fields, text, put, int_at, text_at, time_at}
use service_oriented_archite.Cassandra.Tables.{Db, Statement}
use service_oriented_archite.Cassandra.Client.{Session}
use service_oriented_archite.Handlers.Zone.{ZoneState, read_zone, is_stale, zone_writes}
use service_oriented_archite.Handlers.Sound.{stock, is_history}
use service_oriented_archite.Handlers.Effects.{
  OnBatch, read_zone-eq-stock, nonneg_of_validate, ≤ℤ_of_guard, history-is_history,
  Ensures-unless_stale,
}
use service_oriented_archite.Handlers.Products.{handle_product_moved}

-- The batch of a move: the writes of the two zones, and the history.
pub record IsMoveBatch (db : Db) (ev : Fields) (ops : List Statement) : Type 0 where
  pub p : String
  pub source : String
  pub target : String
  pub q : ℤ
  pub t : ℕ
  pub id : String
  pub history : Statement
  pub product : text_at "product_id" ev ≡ ok p
  pub from_zone : text_at "from_zone_id" ev ≡ ok source
  pub to_zone : text_at "to_zone_id" ev ≡ ok target
  pub amount : int_at "quantity" ev ≡ ok q
  pub timestamp : time_at "timestamp" ev ≡ ok t
  pub apart : source ≢ target
  pub newer_source : is_stale t (stock db p source).last_ts ≡ false
  pub newer_target : is_stale t (stock db p target).last_ts ≡ false
  pub nonneg : pos 0 ≤ℤ q
  pub covered : q ≤ℤ (stock db p source).available
  pub named : text_at "event_id" ev ≡ ok id
  pub logged : is_history history ≡ true
  pub written :
      ops
      ≡ zone_writes p source
          ((stock db p source).available -ℤ q)
          (stock db p source).reserved
          id
          t
          (stock db p source).supplier_id
        ++ (zone_writes p target
              ((stock db p target).available +ℤ q)
              (stock db p target).reserved
              id
              t
              (stock db p target).supplier_id
            ++ history ∷ [])

apart_of_guard : (a b : String) → (a == b) ≡ false → a ≢ b
apart_of_guard a b h = ground arith

or_false : (a b : Bool) → (a || b) ≡ false → (a ≡ false) × (b ≡ false)
or_false a b h = ground arith

written_moved :
    (cass : Session) (p source target : String) (src dst : ZoneState) (q : ℤ) (id : String) (t : ℕ)
    (h : Statement)
    → read_zone cass p source ≡ ok src
    → read_zone cass p target ≡ ok dst
    → ◌≡◌ {A = List Statement}
        (zone_writes p source (src.available -ℤ q) src.reserved id t src.supplier_id
          ++ (zone_writes p target (dst.available +ℤ q) dst.reserved id t dst.supplier_id
              ++ h ∷ []))
        (zone_writes p source
            ((stock cass.db p source).available -ℤ q)
            (stock cass.db p source).reserved
            id
            t
            (stock cass.db p source).supplier_id
          ++ (zone_writes p target
                ((stock cass.db p target).available +ℤ q)
                (stock cass.db p target).reserved
                id
                t
                (stock cass.db p target).supplier_id
              ++ h ∷ []))
written_moved cass p source target src dst q id t h es ed =
    rw (read_zone-eq-stock cass p source src es, read_zone-eq-stock cass p target dst ed)

-- A move takes the quantity from the source, which covers it, and adds it to another zone.
pub handle_product_moved-writes :
    (cass : Session) (ev : Fields)
    → Ensures (OnBatch (IsMoveBatch cass.db ev)) (handle_product_moved cass ev)
unfolding handle_product_moved
handle_product_moved-writes cass ev = Ensures-bind _ _ λ q eq. Ensures-then _ _ λ valid.
    Ensures-bind _ _ λ p ep. Ensures-bind _ _ λ source ef. Ensures-bind _ _ λ target eo.
      Ensures-bind _ _ λ t et. Ensures-guard _ _ _ λ apart. Ensures-bind _ _ λ src es.
        Ensures-bind _ _ λ dst ed. Ensures-unless_stale _ _ _ λ newer.
          Ensures-guard _ _ _ λ covered. Ensures-bind _ _ λ id ei. Ensures-bind _ _ λ h eh.
            Ensures-ok _ record {
              p = p;
              source = source;
              target = target;
              q = q;
              t = t;
              id = id;
              history = h;
              product = ep;
              from_zone = ef;
              to_zone = eo;
              amount = eq;
              timestamp = et;
              apart = apart_of_guard source target apart;
              newer_source =
                  rw (← read_zone-eq-stock cass p source src es) ((or_false _ _ newer).0);
              newer_target =
                  rw (← read_zone-eq-stock cass p target dst ed) ((or_false _ _ newer).1);
              nonneg = nonneg_of_validate q valid;
              covered =
                  rw (← read_zone-eq-stock cass p source src es)
                    (≤ℤ_of_guard src.available q covered);
              named = ei;
              logged = history-is_history (put "zone_id" (text source) ev) h eh;
              written = written_moved cass p source target src dst q id t h es ed;
            }
