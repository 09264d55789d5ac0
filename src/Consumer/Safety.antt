-- ===== src/Consumer/Safety.antt =====
-- What stays true of the tables while hm6/consumer/main.py `_consume_loop` runs.
use service_oriented_archite.Base.{
  ℕ, String, ◌≡◌, refl, ap, sym, subst, ◌∙◌, true, List, [], ◌∷◌, ◌++◌, arith, string_eq,
}
use service_oriented_archite.Base.Table.{contains, lookup-insert}
use service_oriented_archite.Cassandra.Tables.{
  Db, Statement, upsert_zone, upsert_product, upsert_zone_idx, mark_event, apply, apply_all,
}
use service_oriented_archite.Cassandra.Client.{batched, is_event_processed}
use service_oriented_archite.Handlers.Zone.{batch, zone_writes}
use service_oriented_archite.Handlers.Sound.{
  IsSound, IsStockBatch, empty, zone, log, is_log, mark-IsSound, apply_all-IsSound,
}
use service_oriented_archite.Handlers.Keeps.{find_handler-KeepsStock}
use service_oriented_archite.Consumer.World.{Message, World, Env, Exit, returned, raised}
use service_oriented_archite.Consumer.Deserialize.{Avro}
use service_oriented_archite.Consumer.Process.{session, process_one}
use service_oriented_archite.Consumer.Loop.{
  Poll, nothing, partition_eof, kafka_error, received, poll_once, go_on, consume_loop,
}
use service_oriented_archite.Consumer.Outcome.{
  Stored, unwritten, mark_only, all, done, dead, stopped, crashed, failed, OutcomeOf,
  process_one-Outcome,
}

batched-log :
    (s : Statement) (rest : List Statement)
    → is_log s ≡ true
    → batched (s ∷ rest) ≡ s ∷ batched rest
unfolding batched
batched-log (upsert_zone _ _ _ _ _ _ _) rest k = cc
batched-log (upsert_product _ _ _ _ _) rest k = cc
batched-log (upsert_zone_idx _ _ _ _ _) rest k = cc
batched-log (mark_event _ _ _ _ _) rest k = cc
batched-log _ rest k = refl

-- A batch of stock holds no mark, so that it is sent as it stands.
pub batched-IsStockBatch : {ops : List Statement} → IsStockBatch ops → batched ops ≡ ops
unfolding batched zone_writes
batched-IsStockBatch empty = refl
batched-IsStockBatch (zone p z a r e t supplier {rest} ha hr good) =
    ap (λ more. zone_writes p z a r e t supplier ++ more) (batched-IsStockBatch good)
batched-IsStockBatch (log s {rest} k good) =
    batched-log s rest k ∙ ap (λ more. s ∷ more) (batched-IsStockBatch good)

-- A property of the tables that whatever a message leaves keeps.
abbrev pub IsKept {ℓ} : Avro → (Db → Type ℓ) → Type ℓ
IsKept avro P =
    (env : Env) (msg : Message) (w : World) (db : Db) → P w.db → Stored avro env msg w db → P db

module _ {ℓ} (P : Db → Type ℓ) (avro : Avro) (keep : IsKept avro P) where
  Outcome-keeps :
      (env : Env) (msg : Message) (w : World) (x : World × Exit)
      → OutcomeOf avro env msg w x
      → P w.db
      → P x.0.db
  Outcome-keeps env msg w x (done s _ _ _) h = keep env msg w x.0.db h s
  Outcome-keeps env msg w x (dead _ _ _ s _ _ _) h = subst P (sym s) h
  Outcome-keeps env msg w x (stopped _ s _ _ _) h = subst P (sym s) h
  Outcome-keeps env msg w x (crashed _ s _ _ _) h = subst P (sym s) h
  Outcome-keeps env msg w x (failed s _ _ _ _) h = keep env msg w x.0.db h s

  process_one-keeps :
      (env : Env) (msg : Message) (w : World) → P w.db → P (process_one avro env msg w).0.db
  process_one-keeps env msg w h = Outcome-keeps env msg w _ (process_one-Outcome avro env msg w) h

  poll_once-keeps : (poll : Poll) (w : World) → P w.db → P (poll_once avro poll w).0.db
  unfolding poll_once
  poll_once-keeps nothing w h = h
  poll_once-keeps partition_eof w h = h
  poll_once-keeps kafka_error w h = h
  poll_once-keeps (received env msg) w h = process_one-keeps env msg _ h

  go_on-keeps :
      (loop : World → World × Exit)
      → ((w : World) → P w.db → P (loop w).0.db)
      → (x : World × Exit) → P x.0.db
      → P (go_on loop x).0.db
  unfolding go_on
  go_on-keeps loop kept (w, returned) h = kept w h
  go_on-keeps loop kept (w, raised) h = h

  pub consume_loop-keeps :
      (polls : List Poll) (w : World) → P w.db → P (consume_loop avro polls w).0.db
  unfolding consume_loop
  consume_loop-keeps [] w h = h
  consume_loop-keeps (poll ∷ rest) w h =
      go_on-keeps (consume_loop avro rest) (consume_loop-keeps rest) (poll_once avro poll w)
        (poll_once-keeps poll w h)

pub Stored-IsSound : (avro : Avro) → IsKept avro IsSound
Stored-IsSound avro env msg w db h unwritten = h
Stored-IsSound avro env msg w db h (mark_only id type) = mark-IsSound id type _ _ _ w.db h
Stored-IsSound avro env msg w db h
      (all id type handler ev ops decoded named typed found wrote unseen) =
    let good : IsStockBatch ops =
      (find_handler-KeepsStock type handler found (session env w) ev h).at (batch ops) wrote in
    rw (batched-IsStockBatch good) (apply_all-IsSound good _ (mark-IsSound id type _ _ _ w.db h))

is_event_processed-apply :
    (id : String) (s : Statement) (db : Db)
    → is_event_processed id db ≡ true
    → is_event_processed id (apply s db) ≡ true
unfolding is_event_processed apply contains
is_event_processed-apply id (mark_event id' type at partition offset) db h =
    grind (arith, lookup-insert)
is_event_processed-apply id (upsert_zone _ _ _ _ _ _ _) db h = h
is_event_processed-apply id (upsert_product _ _ _ _ _) db h = h
is_event_processed-apply id (upsert_zone_idx _ _ _ _ _) db h = h
is_event_processed-apply id _ db h = h

pub is_event_processed-apply_all :
    (id : String) (ops : List Statement) (db : Db)
    → is_event_processed id db ≡ true
    → is_event_processed id (apply_all ops db) ≡ true
unfolding apply_all
is_event_processed-apply_all id [] db h = h
is_event_processed-apply_all id (s ∷ rest) db h =
    is_event_processed-apply_all id rest (apply s db) (is_event_processed-apply id s db h)

-- The mark of an event is there after it has been made.
pub is_event_processed-mark_event :
    (id type : String) (at partition offset : ℕ) (db : Db)
    → is_event_processed id (apply (mark_event id type at partition offset) db) ≡ true
unfolding is_event_processed apply contains
is_event_processed-mark_event id type at partition offset db = grind (arith, lookup-insert)

pub Stored-marked :
    (id : String) (avro : Avro) → IsKept avro (λ db. is_event_processed id db ≡ true)
Stored-marked id avro env msg w db h unwritten = h
Stored-marked id avro env msg w db h (mark_only id' type) = is_event_processed-apply id _ w.db h
Stored-marked id avro env msg w db h
      (all id' type handler ev ops decoded named typed found wrote unseen) =
    is_event_processed-apply_all id (batched ops) _ (is_event_processed-apply id _ w.db h)

-- In sound tables no quantity is negative and the tables by product and by zone repeat the table of
-- zones. Whatever is polled, however the requests to Cassandra, the letters and the commits go, the
-- tables are sound after the loop when they were sound before it.
pub consume_loop-IsSound :
    (avro : Avro) (polls : List Poll) (w : World)
    → IsSound w.db
    → IsSound (consume_loop avro polls w).0.db
consume_loop-IsSound avro polls w h =
    consume_loop-keeps IsSound avro (Stored-IsSound avro) polls w h

-- An event that is marked as processed stays marked, whatever the loop goes on to do.
pub consume_loop-marked :
    (avro : Avro) (polls : List Poll) (w : World) (id : String)
    → is_event_processed id w.db ≡ true
    → is_event_processed id (consume_loop avro polls w).0.db ≡ true
consume_loop-marked avro polls w id h =
    consume_loop-keeps (λ db. is_event_processed id db ≡ true) avro (Stored-marked id avro) polls w
      h
