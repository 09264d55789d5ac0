-- ===== src/Consumer/Replay.antt =====
-- `_consume_loop` of hm6/consumer/main.py over messages that Kafka delivers a second time.
use service_oriented_archite.Base.{◌≡◌, refl, sym, subst, ◌∙◌, true, List, [], ◌∷◌}
use service_oriented_archite.Python.Exception.{ok}
use service_oriented_archite.Python.Value.{Fields}
use service_oriented_archite.Cassandra.Tables.{Db}
use service_oriented_archite.Cassandra.Client.{is_event_processed}
use service_oriented_archite.Consumer.World.{Message, World, Env, Exit, returned, raised}
use service_oriented_archite.Consumer.Deserialize.{Avro, deserialize}
use service_oriented_archite.Consumer.Process.{id_of}
use service_oriented_archite.Consumer.Loop.{
  Poll, nothing, partition_eof, kafka_error, received, poll_once, go_on, consume_loop,
}
use service_oriented_archite.Consumer.Idempotence.{process_one-seen}

-- A poll with no message, or with one whose event is marked as processed.
pub data IsSeen (avro : Avro) (db : Db) : Poll → Type 0 where
  no_message : IsSeen avro db nothing
  at_end : IsSeen avro db partition_eof
  failed : IsSeen avro db kafka_error
  again :
      (env : Env) (msg : Message) (ev : Fields)
      → deserialize avro msg.value msg.topic ≡ ok ev
      → is_event_processed (id_of ev) db ≡ true
      → IsSeen avro db (received env msg)

abbrev pub AllSeen : Avro → Db → List Poll → Type 0
AllSeen avro db [] = Unit
AllSeen avro db (p ∷ rest) = IsSeen avro db p × AllSeen avro db rest

module _ (avro : Avro) where
  poll_once-seen : (p : Poll) (w : World) → IsSeen avro w.db p → (poll_once avro p w).0.db ≡ w.db
  unfolding poll_once
  poll_once-seen nothing w no_message = refl
  poll_once-seen partition_eof w at_end = refl
  poll_once-seen kafka_error w failed = refl
  poll_once-seen (received _ _) w (again env msg ev decoded marked) =
      process_one-seen avro env msg (record w { kafka_connected = true }) ev decoded marked

  go_on-same :
      (loop : World → World × Exit) (db : Db)
      → ((v : World) → v.db ≡ db → (loop v).0.db ≡ db)
      → (x : World × Exit) → x.0.db ≡ db
      → (go_on loop x).0.db ≡ db
  unfolding go_on
  go_on-same loop db each (v, returned) e = each v e
  go_on-same loop db each (v, raised) e = e

  replay :
      (polls : List Poll) (db : Db) (w : World)
      → w.db ≡ db
      → AllSeen avro db polls
      → (consume_loop avro polls w).0.db ≡ db
  unfolding consume_loop
  replay [] db w e seen = e
  replay (p ∷ rest) db w e (s, more) =
      go_on-same (consume_loop avro rest) db (λ v h. replay rest db v h more) (poll_once avro p w)
        (poll_once-seen p w (subst (λ d. IsSeen avro d p) (sym e) s) ∙ e)

-- Over polls whose messages all decode to events that are marked as processed, as after a restart that
-- reads a part of the topic again, the loop leaves every table as it is, however the requests to
-- Cassandra, the letters and the commits go.
pub consume_loop-replay :
    (avro : Avro) (polls : List Poll) (w : World)
    → AllSeen avro w.db polls
    → (consume_loop avro polls w).0.db ≡ w.db
consume_loop-replay avro polls w seen = replay avro polls w.db w refl seen
