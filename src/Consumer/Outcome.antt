-- ===== src/Consumer/Outcome.antt =====
-- The ways in which a call of `_process_one` of hm6/consumer/main.py may end.
pub mod Ways
use service_oriented_archite.Base.{
  String, ◌≡◌, refl, Bool, true, false, Option, none, some, List, ◌∷◌, arith, inl, inr, Bool-cases,
  string_eq, if◌then◌else◌, ◌||◌,
}
use service_oriented_archite.Python.Exception.{
  Result, ok, raise, Exn, validation, handler_error, fault,
}
use service_oriented_archite.Python.Value.{Value, text, list, dict, Fields, get, is_falsy}
use service_oriented_archite.Cassandra.Tables.{Db, Statement, mark_event, apply, apply_all}
use service_oriented_archite.Cassandra.Client.{batched, is_event_processed}
use service_oriented_archite.Cassandra.Executed.{
  Executed, sent, unsent, Marked, unanswered, fresh, old, unmarked, execute_batch-Executed,
  mark_event_if_new-Marked,
}
use service_oriented_archite.Handlers.{Handler, find_handler}
use service_oriented_archite.Handlers.Zone.{Handled, batch, out_of_order}
use service_oriented_archite.Consumer.World.{
  Message, ErrorReason, exception, missing_id_or_type, unknown_event_type, World, Env, Exit,
  returned, raised,
}
use service_oriented_archite.Consumer.Deserialize.{Avro, deserialize}
use service_oriented_archite.Consumer.Dlq.{letter}
use service_oriented_archite.Consumer.Process.{
  commit_offset, reject, on_exception, observe, after_batch, after_mark, mark_and_write, session,
  run_handler, after_handler, id_of, is_missing, or_unknown, label, is_unhashable, look_up, type_of,
  after_decoding, process_event, process_one,
}
pub use service_oriented_archite.Consumer.Outcome.Ways.{
  mark_of, Stored, unwritten, mark_only, all, Committed, IsUnhashable, Outcome, done, dead, stopped,
  crashed, failed, OutcomeOf,
}

module _ (avro : Avro) (env : Env) (msg : Message) (w : World) where
  reject-Outcome :
      (event_type : String) (decoded : Option Fields) (reason : ErrorReason) (code : String)
      → OutcomeOf avro env msg w (reject env msg event_type decoded reason code w)
  unfolding reject commit_offset
  reject-Outcome event_type decoded reason code = elim (Bool-cases env.dlq_accepts) [
    | inl taken ↦
        dead decoded reason code (ground arith) (ground arith) (ground arith) (ground arith)
    | inr full ↦ stopped full (ground arith) (ground arith) (ground arith) (ground arith)
  ]

  observe-Outcome :
      (event_type : String) (x : World × Exit)
      → OutcomeOf avro env msg w x
      → OutcomeOf avro env msg w (observe event_type x)
  observe-Outcome event_type x (done s l c e) = done s l c e
  observe-Outcome event_type x (dead d r k s l c e) = dead d r k s l c e
  observe-Outcome event_type x (stopped k s l c e) = stopped k s l c e
  observe-Outcome event_type x (crashed k s l c e) = crashed k s l c e
  observe-Outcome event_type x (failed s l c k e) = failed s l c k e

  on_exception-Outcome :
      (event_type : String) (ev : Fields) (e : Exn)
      → OutcomeOf avro env msg w (on_exception env msg event_type ev e w)
  unfolding on_exception
  on_exception-Outcome event_type ev (validation r) = reject-Outcome event_type (some ev) _ _
  on_exception-Outcome event_type ev (handler_error s) = reject-Outcome event_type (some ev) _ _
  on_exception-Outcome event_type ev (fault f) = failed unwritten refl refl refl refl

module _ (avro : Avro) (env : Env) (msg : Message) (w : World) (event_id event_type : String)
    (ev : Fields) (decoded : deserialize avro msg.value msg.topic ≡ ok ev)
    (named : event_id ≡ id_of ev) (typed : event_type ≡ type_of ev) where
  -- The world in which the batch is written.
  abbrev marked : World
  marked = record w { db = mark_of env msg event_id event_type w.db }

  module _ (handler : Handler) (ops : List Statement)
      (found : find_handler event_type ≡ some handler)
      (wrote : handler (session env w) ev ≡ ok (batch ops)) where
    after_batch-Outcome :
        is_event_processed event_id w.db ≡ false
        → (x : Result (Unit {0}) × Db) → Executed (batched ops) marked.db x
        → OutcomeOf avro env msg w (after_batch env msg event_type ev marked x)
    unfolding after_batch on_exception commit_offset
    after_batch-Outcome unseen x sent =
        done (all event_id event_type handler ev ops decoded named typed found wrote unseen)
          (ground arith) (ground arith) refl
    after_batch-Outcome unseen x unsent = failed (mark_only event_id event_type) refl refl refl refl
    after_batch-Outcome unseen x Executed.unanswered =
        failed (all event_id event_type handler ev ops decoded named typed found wrote unseen) refl
          refl refl refl

    after_mark-Outcome :
        (x : Result Bool × Db)
        → Marked event_id event_type env.now msg.partition msg.offset w.db x
        → OutcomeOf avro env msg w (after_mark env msg event_type ev ops w x)
    unfolding after_mark on_exception commit_offset
    after_mark-Outcome x (fresh unseen) =
        after_batch-Outcome unseen _ (execute_batch-Executed env.batch ops marked.db)
    after_mark-Outcome x (old _) = done unwritten refl refl refl
    after_mark-Outcome x unmarked = failed unwritten refl refl refl refl
    after_mark-Outcome x unanswered = failed (mark_only event_id event_type) refl refl refl refl

    mark_and_write-Outcome :
        OutcomeOf avro env msg w (mark_and_write env msg event_id event_type ev ops w)
    unfolding mark_and_write
    mark_and_write-Outcome = after_mark-Outcome _ (
        mark_event_if_new-Marked env.mark event_id event_type env.now msg.partition msg.offset w.db)

module _ (avro : Avro) (env : Env) (msg : Message) (w : World) where
  after_handler-Outcome :
      (event_id event_type : String) (ev : Fields) (handler : Handler)
      → deserialize avro msg.value msg.topic ≡ ok ev
      → event_id ≡ id_of ev
      → event_type ≡ type_of ev
      → find_handler event_type ≡ some handler
      → (r : Result Handled) → handler (session env w) ev ≡ r
      → OutcomeOf avro env msg w (after_handler env msg event_id event_type ev w r)
  unfolding after_handler commit_offset
  after_handler-Outcome event_id event_type ev handler decoded named typed found (raise e) h =
      observe-Outcome avro env msg w event_type _
        (on_exception-Outcome avro env msg w event_type ev e)
  after_handler-Outcome event_id event_type ev handler decoded named typed found (ok out_of_order)
        h =
      done unwritten refl refl refl
  after_handler-Outcome event_id event_type ev handler decoded named typed found (ok (batch ops))
        h =
      mark_and_write-Outcome avro env msg w event_id event_type ev decoded named typed handler ops
        found h

  run_handler-Outcome :
      (event_id event_type : String) (ev : Fields) (o : Option Handler)
      → deserialize avro msg.value msg.topic ≡ ok ev
      → event_id ≡ id_of ev
      → event_type ≡ type_of ev
      → find_handler event_type ≡ o
      → OutcomeOf avro env msg w (run_handler env msg event_id event_type ev w o)
  unfolding run_handler
  run_handler-Outcome event_id event_type ev none decoded named typed found =
      reject-Outcome avro env msg w event_type (some ev) (unknown_event_type event_type)
        "UNKNOWN_EVENT_TYPE"
  run_handler-Outcome event_id event_type ev (some handler) decoded named typed found =
      after_handler-Outcome event_id event_type ev handler decoded named typed found _ refl

  look_up-Outcome :
      (ev : Fields)
      → deserialize avro msg.value msg.topic ≡ ok ev
      → (v : Value) → or_unknown (get "event_type" ev) ≡ v
      → OutcomeOf avro env msg w (look_up env msg ev w v)
  unfolding look_up
  look_up-Outcome ev decoded (text s) e =
      run_handler-Outcome (id_of ev) s ev (find_handler s) decoded refl (rw e refl) refl
  look_up-Outcome ev decoded (list xs) e =
      crashed (ev, decoded, rw (e, is_unhashable) refl) refl refl refl refl
  look_up-Outcome ev decoded (dict d) e =
      crashed (ev, decoded, rw (e, is_unhashable) refl) refl refl refl refl
  look_up-Outcome ev decoded v e = reject-Outcome avro env msg w _ (some ev) _ _

  process_event-Outcome :
      (ev : Fields)
      → deserialize avro msg.value msg.topic ≡ ok ev
      → OutcomeOf avro env msg w (process_event env msg ev w)
  unfolding process_event
  process_event-Outcome ev decoded =
      elim (is_missing (get "event_id" ev) || is_falsy (or_unknown (get "event_type" ev)))
        as (λ b. OutcomeOf avro env msg w (
          if b
          then reject env msg (label env (or_unknown (get "event_type" ev))) (some ev)
              missing_id_or_type "VALIDATION_ERROR" w
          else look_up env msg ev w (or_unknown (get "event_type" ev)))) [
            | true ↦ reject-Outcome avro env msg w _ (some ev) missing_id_or_type "VALIDATION_ERROR"
            | false ↦ look_up-Outcome ev decoded _ refl
          ]

  after_decoding-Outcome :
      (r : Result Fields)
      → deserialize avro msg.value msg.topic ≡ r
      → OutcomeOf avro env msg w (after_decoding env msg w r)
  unfolding after_decoding
  after_decoding-Outcome (raise e) h =
      reject-Outcome avro env msg w "UNKNOWN" none (exception e) "DESERIALIZATION_ERROR"
  after_decoding-Outcome (ok ev) h = process_event-Outcome ev h

  -- The processing of a message ends in one of five ways, whatever its bytes and its surroundings:
  -- done (nothing, the mark, or mark and batch stored, no letter, the next offset offered for commit),
  -- sent as one letter (tables unchanged, offset offered), stopped (only when the letter is not taken),
  -- left by an exception (only when the type of the decoded event cannot be hashed; nothing changed),
  -- or failed (no letter, no commit, Cassandra marked as disconnected).
  pub process_one-Outcome : OutcomeOf avro env msg w (process_one avro env msg w)
  unfolding process_one
  process_one-Outcome = after_decoding-Outcome (deserialize avro msg.value msg.topic) refl
