-- ===== src/Consumer/Idempotence.antt =====
-- A redelivered event: hm6/consumer/main.py marks an event before it writes the batch.
use service_oriented_archite.Base.{
  String, ◌≡◌, refl, Bool, true, false, Option, none, some, List, arith, ◌||◌, string_eq,
  if◌then◌else◌,
}
use service_oriented_archite.Python.Exception.{
  Result, ok, raise, Exn, validation, handler_error, fault,
}
use service_oriented_archite.Python.Value.{Value, text, list, dict, Fields, get, is_falsy}
use service_oriented_archite.Cassandra.Tables.{Db, Statement}
use service_oriented_archite.Cassandra.Client.{is_event_processed}
use service_oriented_archite.Cassandra.Executed.{
  Marked, fresh, old, unmarked, unanswered, mark_event-old, mark_event_if_new-Marked,
}
use service_oriented_archite.Handlers.{Handler, find_handler}
use service_oriented_archite.Handlers.Zone.{Handled, batch, out_of_order}
use service_oriented_archite.Consumer.World.{Message, ErrorReason, World, Env, missing_id_or_type}
use service_oriented_archite.Consumer.Deserialize.{Avro, deserialize}
use service_oriented_archite.Consumer.Process.{
  commit_offset, reject, on_exception, after_mark, mark_and_write, session, after_handler,
  run_handler, id_of, is_missing, or_unknown, label, look_up, process_event, after_decoding,
  process_one,
}

module _ (env : Env) (msg : Message) (w : World) where
  reject-db :
      (event_type : String) (decoded : Option Fields) (reason : ErrorReason) (code : String)
      → (reject env msg event_type decoded reason code w).0.db ≡ w.db
  unfolding reject commit_offset
  reject-db event_type decoded reason code = ground arith

  on_exception-db :
      (event_type : String) (ev : Fields) (e : Exn)
      → (on_exception env msg event_type ev e w).0.db ≡ w.db
  unfolding on_exception
  on_exception-db event_type ev (validation r) = reject-db event_type (some ev) _ _
  on_exception-db event_type ev (handler_error s) = reject-db event_type (some ev) _ _
  on_exception-db event_type ev (fault f) = refl

module _ (env : Env) (msg : Message) (w : World) (ev : Fields) (event_id event_type : String)
    (seen : is_event_processed event_id w.db ≡ true) where
  after_mark-seen :
      (ops : List Statement) (x : Result Bool × Db)
      → Marked event_id event_type env.now msg.partition msg.offset w.db x
      → (after_mark env msg event_type ev ops w x).0.db ≡ w.db
  unfolding after_mark on_exception commit_offset
  after_mark-seen ops x (fresh unseen) = cc
  after_mark-seen ops x (old _) = refl
  after_mark-seen ops x unmarked = refl
  after_mark-seen ops x unanswered = mark_event-old event_id event_type _ _ _ w.db seen

  after_handler-seen :
      (r : Result Handled) → (after_handler env msg event_id event_type ev w r).0.db ≡ w.db
  unfolding after_handler mark_and_write commit_offset
  after_handler-seen (raise e) = on_exception-db env msg w event_type ev e
  after_handler-seen (ok out_of_order) = refl
  after_handler-seen (ok (batch ops)) =
      after_mark-seen ops _ (
        mark_event_if_new-Marked env.mark event_id event_type env.now msg.partition msg.offset w.db)

  run_handler-seen :
      (o : Option Handler) → (run_handler env msg event_id event_type ev w o).0.db ≡ w.db
  unfolding run_handler
  run_handler-seen none = reject-db env msg w event_type (some ev) _ "UNKNOWN_EVENT_TYPE"
  run_handler-seen (some handler) = after_handler-seen (handler (session env w) ev)

look_up-seen :
    (env : Env) (msg : Message) (w : World) (ev : Fields) (v : Value)
    → is_event_processed (id_of ev) w.db ≡ true
    → (look_up env msg ev w v).0.db ≡ w.db
unfolding look_up
look_up-seen env msg w ev (text s) seen =
    run_handler-seen env msg w ev (id_of ev) s seen (find_handler s)
look_up-seen env msg w ev (list xs) seen = refl
look_up-seen env msg w ev (dict d) seen = refl
look_up-seen env msg w ev v seen = reject-db env msg w _ (some ev) _ _

process_event-seen :
    (env : Env) (msg : Message) (w : World) (ev : Fields)
    → is_event_processed (id_of ev) w.db ≡ true
    → (process_event env msg ev w).0.db ≡ w.db
unfolding process_event
process_event-seen env msg w ev seen =
    elim (is_missing (get "event_id" ev) || is_falsy (or_unknown (get "event_type" ev)))
      as (λ b.
        (if b
          then reject env msg (label env (or_unknown (get "event_type" ev))) (some ev)
              missing_id_or_type "VALIDATION_ERROR" w
          else look_up env msg ev w (or_unknown (get "event_type" ev))).0.db
        ≡ w.db) [
          | true ↦ reject-db env msg w _ (some ev) missing_id_or_type "VALIDATION_ERROR"
          | false ↦ look_up-seen env msg w ev _ seen
        ]

-- When a message decodes to an event whose id is marked as processed, processing the message leaves
-- every table as it is, however the requests to Cassandra, the letter and the commit go.
pub process_one-seen :
    (avro : Avro) (env : Env) (msg : Message) (w : World) (ev : Fields)
    → deserialize avro msg.value msg.topic ≡ ok ev
    → is_event_processed (id_of ev) w.db ≡ true
    → (process_one avro env msg w).0.db ≡ w.db
unfolding process_one after_decoding
process_one-seen avro env msg w ev decoded seen = rw decoded (process_event-seen env msg w ev seen)
