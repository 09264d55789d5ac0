-- ===== src/Consumer/Inventory.antt =====
-- The consumer loop of hm6/consumer/main.py as a run of the effects of the handlers.
use service_oriented_archite.Base.{
  String, string_eq, pair_eq, true, false, [], ◌∷◌, inl, inr, ◌≡◌, refl, sym, subst, List,
}
use service_oriented_archite.Cassandra.Tables.{Db, Statement, apply_all}
use service_oriented_archite.Cassandra.Client.{batched, is_event_processed}
use service_oriented_archite.Handlers.Zone.{batch}
use service_oriented_archite.Handlers.Sound.{IsSound}
use service_oriented_archite.Handlers.Inventory.{find_handler-HasEffect}
use service_oriented_archite.Consumer.World.{Message, World, Env, Exit, returned, raised}
use service_oriented_archite.Consumer.Deserialize.{Avro}
use service_oriented_archite.Consumer.Process.{session, process_one}
use service_oriented_archite.Consumer.Loop.{
  Poll, nothing, partition_eof, kafka_error, received, poll_once, go_on, consume_loop,
}
use service_oriented_archite.Consumer.Outcome.{
  Stored, unwritten, mark_only, all, mark_of, OutcomeOf, done, dead, stopped, crashed, failed,
  process_one-Outcome,
}
use service_oriented_archite.Consumer.Safety.{
  Stored-IsSound, Stored-marked, is_event_processed-apply_all, is_event_processed-mark_event,
}
use service_oriented_archite.Handlers.Sound.{IsStockBatch}
use service_oriented_archite.Handlers.Keeps.{find_handler-KeepsStock}
use service_oriented_archite.Consumer.Steps.{
  SameState, Polled, Step, IsReached, SameState-mark, SameState-batch, AllMarked-mono,
  unmarked-Absent, unmarked_before, start, same, next,
}

module _ (avro : Avro) (polls : List Poll) (from : Db) (env : Env) (msg : Message) (w : World)
    (polled : Polled msg polls) (h : IsReached avro polls from w.db) where
  -- Where the zones and the orders stay, what was reached is reached.
  stays-IsReached :
      (db : Db) → Stored avro env msg w db → SameState w.db db → IsReached avro polls from db
  stays-IsReached db s state = record {
    ids = h.ids;
    sound = Stored-IsSound avro env msg w db h.sound s;
    run = same h.run state;
    distinct = h.distinct;
    new = h.new;
    marked = AllMarked-mono h.ids w.db db (λ id m. Stored-marked id avro env msg w db m s) h.marked;
    kept = λ id m. Stored-marked id avro env msg w db (h.kept id m) s;
  }

  steps-IsReached :
      (id type : String) (ops : List Statement)
      → Stored avro env msg w (apply_all (batched ops) (mark_of env msg id type w.db))
      → Step avro polls id w.db (apply_all (batched ops) (mark_of env msg id type w.db))
      → is_event_processed id w.db ≡ false
      → IsReached avro polls from (apply_all (batched ops) (mark_of env msg id type w.db))
  steps-IsReached id type ops s step unseen =
      let marked : Db = mark_of env msg id type w.db in
      let db : Db = apply_all (batched ops) marked in
      record {
        ids = id ∷ h.ids;
        sound = Stored-IsSound avro env msg w db h.sound s;
        run = next id h.run step;
        distinct = (unmarked-Absent id h.ids w.db unseen h.marked, h.distinct);
        new = (unmarked_before id from w.db (h.kept id) unseen, h.new);
        marked = (
          is_event_processed-apply_all id (batched ops) marked
              (is_event_processed-mark_event id type _ _ _ w.db),
          AllMarked-mono h.ids w.db db (λ id m. Stored-marked id avro env msg w db m s) h.marked,
        );
        kept = λ id m. Stored-marked id avro env msg w db (h.kept id m) s;
      }

  Stored-IsReached : (db : Db) → Stored avro env msg w db → IsReached avro polls from db
  Stored-IsReached db unwritten = h
  Stored-IsReached db (mark_only id type) =
      stays-IsReached db (mark_only id type) (SameState-mark env msg id type w.db)
  Stored-IsReached db (all id type handler ev ops decoded named typed found wrote unseen) =
      let good : IsStockBatch ops =
        (find_handler-KeepsStock type handler found (session env w) ev h.sound).at (batch ops)
          wrote in
      steps-IsReached id type ops
        (all id type handler ev ops decoded named typed found wrote unseen)
        (record {
          msg = msg;
          ev = ev;
          handler = handler;
          ops = ops;
          polled = polled;
          decoded = decoded;
          named = named;
          found = rw (← typed) found;
          session = session env w;
          tables = refl;
          wrote = wrote;
          effect = find_handler-HasEffect type handler found (session env w) ev ops h.sound wrote;
          state = SameState-batch env msg id type ops w.db good;
        })
        unseen

  Outcome-IsReached :
      (x : World × Exit) → OutcomeOf avro env msg w x → IsReached avro polls from x.0.db
  Outcome-IsReached x (done s _ _ _) = Stored-IsReached x.0.db s
  Outcome-IsReached x (dead _ _ _ s _ _ _) = subst (IsReached avro polls from) (sym s) h
  Outcome-IsReached x (stopped _ s _ _ _) = subst (IsReached avro polls from) (sym s) h
  Outcome-IsReached x (crashed _ s _ _ _) = subst (IsReached avro polls from) (sym s) h
  Outcome-IsReached x (failed s _ _ _ _) = Stored-IsReached x.0.db s

module _ (avro : Avro) (polls : List Poll) (from : Db) where
  go_on-IsReached :
      (loop : World → World × Exit)
      → ((w : World) → IsReached avro polls from w.db → IsReached avro polls from (loop w).0.db)
      → (x : World × Exit) → IsReached avro polls from x.0.db
      → IsReached avro polls from (go_on loop x).0.db
  unfolding go_on
  go_on-IsReached loop kept (w, returned) h = kept w h
  go_on-IsReached loop kept (w, raised) h = h

  rounds-IsReached :
      (rest : List Poll)
      → ((msg : Message) → Polled msg rest → Polled msg polls)
      → (w : World) → IsReached avro polls from w.db
      → IsReached avro polls from (consume_loop avro rest w).0.db
  unfolding consume_loop poll_once go_on
  rounds-IsReached [] more w h = h
  rounds-IsReached (nothing ∷ rest) more w h = rounds-IsReached rest more _ h
  rounds-IsReached (partition_eof ∷ rest) more w h = rounds-IsReached rest more _ h
  rounds-IsReached (kafka_error ∷ rest) more w h = rounds-IsReached rest more _ h
  rounds-IsReached (received env msg ∷ rest) more w h =
      let w' : World = record w { kafka_connected = true } in
      go_on-IsReached (consume_loop avro rest) (rounds-IsReached rest (λ m i. more m (inr i)))
        (process_one avro env msg w')
        (Outcome-IsReached avro polls from env msg w' (more msg (inl refl)) h
          (process_one avro env msg w') (process_one-Outcome avro env msg w'))

-- From sound tables on, whatever the loop polls and however its requests go, it takes the zones and the
-- orders through a run of steps. Each step is the batch that the handler of the type of an event, to
-- which a polled message decodes, makes of the tables that the steps before it left, and it does what the
-- fields of this event ask for: a receipt, a shipment, a reservation, a release or a count makes its
-- change of the zone it names, by its quantity; a move takes the quantity from one zone to the other; an order
-- reserves what its items ask for and is stored; a completion of an open order releases what its stored
-- items hold and closes it; a repeated completion changes nothing. The steps are of distinct events;
-- none of them was marked as processed before the loop, and all of them are after it.
pub consume_loop-IsReached :
    (avro : Avro) (polls : List Poll) (w : World)
    → IsSound w.db
    → IsReached avro polls w.db (consume_loop avro polls w).0.db
consume_loop-IsReached avro polls w sound =
    rounds-IsReached avro polls w.db polls (λ m i. i) w
      record {
        ids = [];
        sound = sound;
        run = start;
        distinct = tt;
        new = tt;
        marked = tt;
        kept = λ id m. m;
      }
