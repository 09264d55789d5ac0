-- ===== src/Consumer/Process.antt =====
-- `_process_one` and `_commit_offset` of hm6/consumer/main.py.
use service_oriented_archite.Base.{
  suc, String, Bool, true, false, ◌||◌, Option, none, some, List, ◌∷◌, string_eq, if◌then◌else◌,
}
use service_oriented_archite.Python.Exception.{
  Result, ok, raise, Exn, validation, handler_error, fault,
}
use service_oriented_archite.Python.Value.{Value, text, list, dict, Fields, get, is_falsy}
use service_oriented_archite.Cassandra.Tables.{Db, Statement}
use service_oriented_archite.Cassandra.Client.{Session, mark_event_if_new, execute_batch}
use service_oriented_archite.Handlers.{Handler, find_handler}
use service_oriented_archite.Handlers.Zone.{Handled, batch, out_of_order}
use service_oriented_archite.Consumer.World.{
  Message, ErrorReason, exception, missing_id_or_type, unknown_event_type, Metric, processed,
  failed, skipped, write_error, observed, World, Env, Exit, returned, raised,
}
use service_oriented_archite.Consumer.Deserialize.{Avro, deserialize}
use service_oriented_archite.Consumer.Dlq.{letter}

abbrev pub count : Metric → World → World
count m w = record w { metrics = m ∷ w.metrics }

-- A KafkaException is logged and dropped.
unfoldable pub commit_offset : Env → Message → World → World
commit_offset env msg w = record w {
  commits =
      if env.commit_accepted
      then record { topic = msg.topic; partition = msg.partition; offset = suc msg.offset }
        ∷ w.commits
      else w.commits;
}

-- The error metric, the letter and the commit. An exception of the producer leaves the function.
unfoldable pub reject :
    Env → Message → String → Option Fields → ErrorReason → String → World → World × Exit
unfolding commit_offset letter
reject env msg event_type decoded reason code w =
    let counted : World = count (failed event_type code) w in
    if env.dlq_accepts
    then (
      commit_offset env msg
          (record counted { letters = letter msg decoded reason code env.now ∷ counted.letters }),
      returned,
    )
    else (counted, raised)

-- The `except` clauses. After a fault the offset is not committed.
unfoldable pub on_exception : Env → Message → String → Fields → Exn → World → World × Exit
unfolding reject
on_exception env msg event_type ev (validation r) w =
    reject env msg event_type (some ev) (exception (validation r)) "VALIDATION_ERROR" w
on_exception env msg event_type ev (handler_error s) w =
    reject env msg event_type (some ev) (exception (handler_error s)) "HANDLER_ERROR" w
on_exception env msg event_type ev (fault f) w =
    (record w { cassandra_connected = false }, returned)

-- `finally`
abbrev pub observe : String → World × Exit → World × Exit
observe event_type (w, exit) = (count (observed event_type) w, exit)

-- What follows the batch of a new event.
unfoldable pub after_batch :
    Env → Message → String → Fields → World → Result (Unit {0}) × Db → World × Exit
unfolding on_exception commit_offset
after_batch env msg event_type ev w (raise e, db) =
    observe event_type
      (on_exception env msg event_type ev e (count write_error (record w { db = db })))
after_batch env msg event_type ev w (ok _, db) = (
  commit_offset env msg (
      count (processed event_type)
        (count (observed event_type) (record w { db = db; cassandra_connected = true }))),
  returned,
)

-- What follows the conditional mark. Only a new event is written.
unfoldable pub after_mark :
    Env → Message → String → Fields → List Statement → World → Result Bool × Db → World × Exit
unfolding after_batch on_exception commit_offset
after_mark env msg event_type ev ops w (raise e, db) =
    observe event_type (on_exception env msg event_type ev e (record w { db = db }))
after_mark env msg event_type ev ops w (ok false, db) =
    observe event_type
      (commit_offset env msg (count (skipped "duplicate") (record w { db = db })), returned)
after_mark env msg event_type ev ops w (ok true, db) =
    after_batch env msg event_type ev (record w { db = db }) (execute_batch env.batch ops db)

unfoldable pub mark_and_write :
    Env → Message → String → String → Fields → List Statement → World → World × Exit
unfolding after_mark
mark_and_write env msg event_id event_type ev ops w =
    after_mark env msg event_type ev ops w
      (mark_event_if_new env.mark event_id event_type env.now msg.partition msg.offset w.db)

abbrev pub session : Env → World → Session
session env w = record {
  db = w.db;
  zone_answers = env.zone_answers;
  order_answers = env.order_answers;
}

-- What follows the handler.
unfoldable pub after_handler :
    Env → Message → String → String → Fields → World → Result Handled → World × Exit
unfolding mark_and_write on_exception commit_offset
after_handler env msg event_id event_type ev w (raise e) =
    observe event_type (on_exception env msg event_type ev e w)
after_handler env msg event_id event_type ev w (ok out_of_order) =
    observe event_type (commit_offset env msg (count (skipped "out_of_order") w), returned)
after_handler env msg event_id event_type ev w (ok (batch ops)) =
    mark_and_write env msg event_id event_type ev ops w

-- What follows the search for a handler.
unfoldable pub run_handler :
    Env → Message → String → String → Fields → World → Option Handler → World × Exit
unfolding after_handler reject
run_handler env msg event_id event_type ev w none =
    reject env msg event_type (some ev) (unknown_event_type event_type) "UNKNOWN_EVENT_TYPE" w
run_handler env msg event_id event_type ev w (some handler) =
    after_handler env msg event_id event_type ev w (handler (session env w) ev)

-- `not event_id`
unfoldable pub is_missing : Option Value → Bool
unfolding is_falsy
is_missing none = true
is_missing (some v) = is_falsy v

-- `ev.get("event_type") or "UNKNOWN"`
unfoldable pub or_unknown : Option Value → Value
unfolding is_falsy
or_unknown none = text "UNKNOWN"
or_unknown (some v) = if is_falsy v then text "UNKNOWN" else v

abbrev pub text_or_empty : Option Value → String
text_or_empty (some (text s)) = s
text_or_empty _ = ""

-- The id of an event where it is a text. Any other id makes each handler raise before it is used.
abbrev pub id_of : Fields → String
id_of ev = text_or_empty (get "event_id" ev)

abbrev pub text_of : Value → String
text_of (text s) = s
text_of _ = ""

-- The type of an event where it is a text.
abbrev pub type_of : Fields → String
type_of ev = text_of (or_unknown (get "event_type" ev))

-- `str(event_type)`
abbrev pub label : Env → Value → String
label env (text s) = s
label env v = env.printed v

-- What cannot be hashed is no key for `HANDLERS.get`.
abbrev pub is_unhashable : Value → Bool
is_unhashable (list _) = true
is_unhashable (dict _) = true
is_unhashable _ = false

-- `HANDLERS.get(event_type)`, outside of the `try`, and what follows.
unfoldable pub look_up : Env → Message → Fields → World → Value → World × Exit
unfolding run_handler reject
look_up env msg ev w (text s) = run_handler env msg (id_of ev) s ev w (find_handler s)
look_up env msg ev w (list _) = (w, raised)
look_up env msg ev w (dict _) = (w, raised)
look_up env msg ev w v =
    reject env msg (env.printed v) (some ev) (unknown_event_type (env.printed v))
      "UNKNOWN_EVENT_TYPE" w

-- From the decoded event on.
unfoldable pub process_event : Env → Message → Fields → World → World × Exit
unfolding look_up reject is_missing or_unknown
process_event env msg ev w =
    let event_type : Value = or_unknown (get "event_type" ev) in
    if is_missing (get "event_id" ev) || is_falsy event_type
    then reject env msg (label env event_type) (some ev) missing_id_or_type "VALIDATION_ERROR" w
    else look_up env msg ev w event_type

-- What follows the decoding.
unfoldable pub after_decoding : Env → Message → World → Result Fields → World × Exit
unfolding process_event reject
after_decoding env msg w (raise e) =
    reject env msg "UNKNOWN" none (exception e) "DESERIALIZATION_ERROR" w
after_decoding env msg w (ok ev) = process_event env msg ev w

unfoldable pub process_one : Avro → Env → Message → World → World × Exit
unfolding after_decoding
process_one avro env msg w = after_decoding env msg w (deserialize avro msg.value msg.topic)
