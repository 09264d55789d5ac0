-- ===== src/Consumer/Outcome/Ways.antt =====
-- What a call of `_process_one` of hm6/consumer/main.py may leave behind.
use service_oriented_archite.Base.{String, ◌≡◌, true, false, Option, some, List, ◌∷◌, string_eq}
use service_oriented_archite.Python.Exception.{ok}
use service_oriented_archite.Python.Value.{Fields, get}
use service_oriented_archite.Cassandra.Tables.{Db, Statement, mark_event, apply, apply_all}
use service_oriented_archite.Cassandra.Client.{batched, is_event_processed}
use service_oriented_archite.Handlers.{Handler, find_handler}
use service_oriented_archite.Handlers.Zone.{batch}
use service_oriented_archite.Consumer.World.{
  Message, ErrorReason, World, Env, Exit, returned, raised,
}
use service_oriented_archite.Consumer.Deserialize.{Avro, deserialize}
use service_oriented_archite.Consumer.Dlq.{letter}
use service_oriented_archite.Consumer.Process.{
  commit_offset, session, id_of, or_unknown, is_unhashable, type_of,
}

-- The mark of the event of a message.
abbrev pub mark_of : Env → Message → String → String → Db → Db
mark_of env msg event_id event_type db =
    apply (mark_event event_id event_type env.now msg.partition msg.offset) db

-- What an event leaves in the tables: nothing, its mark alone, or its mark and then its batch.
pub data Stored (avro : Avro) (env : Env) (msg : Message) (w : World) : Db → Type 0 where
  unwritten : Stored avro env msg w w.db
  mark_only :
      (event_id event_type : String)
      → Stored avro env msg w (mark_of env msg event_id event_type w.db)
  all :
      (event_id event_type : String) (handler : Handler) (ev : Fields) (ops : List Statement)
      → deserialize avro msg.value msg.topic ≡ ok ev
      → event_id ≡ id_of ev
      → event_type ≡ type_of ev
      → find_handler event_type ≡ some handler
      → handler (session env w) ev ≡ ok (batch ops)
      → is_event_processed event_id w.db ≡ false
      → Stored avro env msg w (apply_all (batched ops) (mark_of env msg event_id event_type w.db))

abbrev pub Committed : Env → Message → World → World → Type 0
Committed env msg w w' = w'.commits ≡ (commit_offset env msg w).commits

-- The type of the event of a message cannot be hashed.
abbrev pub IsUnhashable : Avro → Message → Type 0
IsUnhashable avro msg =
    (ev : Fields) × (deserialize avro msg.value msg.topic ≡ ok ev)
    × (is_unhashable (or_unknown (get "event_type" ev)) ≡ true)

-- The five ways in which the processing of a message ends.
pub data Outcome (avro : Avro) (env : Env) (msg : Message) (w w' : World) (exit : Exit)
    : Type 0 where
  -- written, or skipped as out of order or as a duplicate
  done :
      Stored avro env msg w w'.db
      → w'.letters ≡ w.letters
      → Committed env msg w w'
      → exit ≡ returned
      → Outcome avro env msg w w' exit
  -- sent to the dead letter queue
  dead :
      (decoded : Option Fields) (reason : ErrorReason) (code : String)
      → w'.db ≡ w.db
      → w'.letters ≡ letter msg decoded reason code env.now ∷ w.letters
      → Committed env msg w w'
      → exit ≡ returned
      → Outcome avro env msg w w' exit
  -- not taken by the dead letter queue
  stopped :
      env.dlq_accepts ≡ false
      → w'.db ≡ w.db
      → w'.letters ≡ w.letters
      → w'.commits ≡ w.commits
      → exit ≡ raised
      → Outcome avro env msg w w' exit
  -- left by the exception of looking up an event type that cannot be hashed
  crashed :
      IsUnhashable avro msg
      → w'.db ≡ w.db
      → w'.letters ≡ w.letters
      → w'.commits ≡ w.commits
      → exit ≡ raised
      → Outcome avro env msg w w' exit
  -- left without a commit, for Kafka to deliver again
  failed :
      Stored avro env msg w w'.db
      → w'.letters ≡ w.letters
      → w'.commits ≡ w.commits
      → w'.cassandra_connected ≡ false
      → exit ≡ returned
      → Outcome avro env msg w w' exit

-- An outcome of a pair.
abbrev pub OutcomeOf : Avro → Env → Message → World → World × Exit → Type 0
OutcomeOf avro env msg w (w', exit) = Outcome avro env msg w w' exit
