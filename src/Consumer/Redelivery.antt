-- ===== src/Consumer/Redelivery.antt =====
-- What becomes of an event of hm6/consumer/main.py that is delivered again, after its batch went
-- through and after it did not.
use service_oriented_archite.Base.{
  ℕ, String, ◌≡◌, refl, ap, sym, subst, ◌∙◌, true, false, arith, Option, some, List, [], ◌∷◌, ◌||◌,
  ◌==◌, string_eq,
}
use service_oriented_archite.Python.Exception.{Result, ok, raise, fault, unavailable}
use service_oriented_archite.Python.Value.{Value, text, Fields, get, is_falsy}
use service_oriented_archite.Cassandra.Tables.{Db, Statement, mark_event, apply, apply_all}
use service_oriented_archite.Cassandra.Client.{
  answered, refused, is_event_processed, mark_event_if_new, execute_batch, execute, batched,
}
use service_oriented_archite.Handlers.{Handler, find_handler}
use service_oriented_archite.Handlers.Zone.{batch}
use service_oriented_archite.Consumer.World.{Message, World, Env}
use service_oriented_archite.Consumer.Deserialize.{Avro, deserialize}
use service_oriented_archite.Consumer.Process.{
  commit_offset, on_exception, after_batch, after_mark, mark_and_write, session, after_handler,
  run_handler, is_missing, or_unknown, text_of, text_or_empty, look_up, id_of, type_of,
  process_event, after_decoding, process_one,
}
use service_oriented_archite.Consumer.Loop.{Poll, consume_loop}
use service_oriented_archite.Consumer.Outcome.{mark_of}
use service_oriented_archite.Consumer.Safety.{
  consume_loop-marked, is_event_processed-mark_event, is_event_processed-apply_all,
}
use service_oriented_archite.Consumer.Idempotence.{process_one-seen}

-- The tables with the mark of an event.
abbrev pub with_mark : Env → Message → Fields → Db → Db
with_mark env msg ev db = mark_of env msg (id_of ev) (type_of ev) db

mark_event_if_new-new :
    (id type : String) (at partition offset : ℕ) (db : Db)
    → is_event_processed id db ≡ false
    → mark_event_if_new answered id type at partition offset db
      ≡ (ok true, apply (mark_event id type at partition offset) db)
unfolding mark_event_if_new execute apply_all
mark_event_if_new-new id type at partition offset db unseen = rw unseen refl

execute_batch-answered :
    (ops : List Statement) (db : Db)
    → execute_batch answered ops db ≡ (ok tt, apply_all (batched ops) db)
unfolding execute_batch execute apply_all
execute_batch-answered ops db =
    elim (batched ops)
      as (λ statements.
        (elim statements [ [] ↦ (ok tt, db) | s ∷ rest ↦ execute answered (s ∷ rest) db ])
        ≡ (ok tt, apply_all statements db)) [ [] ↦ refl | s ∷ rest ↦ refl ]

execute_batch-refused :
    (ops : List Statement) (s : Statement) (rest : List Statement) (db : Db)
    → batched ops ≡ s ∷ rest
    → execute_batch refused ops db ≡ (raise (fault unavailable), db)
unfolding execute_batch execute
execute_batch-refused ops s rest db e = rw (execute_batch, e) refl

pub is_falsy-text : (s : String) → (s == "") ≡ false → is_falsy (text s) ≡ false
unfolding is_falsy string_eq
is_falsy-text String.[] h = cc
is_falsy-text (String.◌∷◌ c s) h = refl

named_id : (o : Option Value) → (text_or_empty o == "") ≡ false → is_missing o ≡ false
unfolding is_missing string_eq
named_id (some (text s)) h = is_falsy-text s h
named_id _ h = cc

named_type : (v : Value) → (text_of v == "") ≡ false → (is_falsy v ≡ false) × (v ≡ text (text_of v))
unfolding string_eq
named_type (text s) h = (is_falsy-text s h, refl)
named_type _ h = cc

look_up-text :
    (env : Env) (msg : Message) (w : World) (ev : Fields) (v : Value) (type : String)
    → v ≡ text type
    → look_up env msg ev w v ≡ run_handler env msg (id_of ev) type ev w (find_handler type)
unfolding look_up
look_up-text env msg w ev v type e = rw (e, look_up) refl

-- An event with an id and a type that are texts and not empty goes to the handler of its type.
process_event-named :
    (env : Env) (msg : Message) (w : World) (ev : Fields)
    → (id_of ev == "" || type_of ev == "") ≡ false
    → process_event env msg ev w
      ≡ run_handler env msg (id_of ev) (type_of ev) ev w (find_handler (type_of ev))
unfolding process_event
process_event-named env msg w ev named =
    let present : is_missing (get "event_id" ev) ≡ false =
      named_id (get "event_id" ev) (ground arith) in
    let (truthy, typed) = named_type (or_unknown (get "event_type" ev)) (ground arith) in
    rw (present, truthy) (look_up-text env msg w ev _ _ typed)

module _ (avro : Avro) (env : Env) (msg : Message) (w : World) (ev : Fields) (handler : Handler)
    (ops : List Statement) (decoded : deserialize avro msg.value msg.topic ≡ ok ev)
    (named : (id_of ev == "" || type_of ev == "") ≡ false)
    (found : find_handler (type_of ev) ≡ some handler)
    (wrote : handler (session env w) ev ≡ ok (batch ops))
    (unseen : is_event_processed (id_of ev) w.db ≡ false) where
  -- The processing goes as far as the mark.
  process_one-eq-mark_and_write :
      process_one avro env msg w ≡ mark_and_write env msg (id_of ev) (type_of ev) ev ops w
  unfolding process_one after_decoding run_handler after_handler
  process_one-eq-mark_and_write =
      rw (decoded, process_event-named env msg w ev named, found, wrote) refl

  -- An answered mark leads to the batch.
  process_one-eq-after_batch :
      env.mark ≡ answered
      → (x : Result (Unit {0}) × Db) → execute_batch env.batch ops (with_mark env msg ev w.db) ≡ x
      → process_one avro env msg w
        ≡ after_batch env msg (type_of ev) ev (record w { db = with_mark env msg ev w.db }) x
  unfolding mark_and_write after_mark
  process_one-eq-after_batch m x e =
      process_one-eq-mark_and_write
      ∙ ap (after_mark env msg (type_of ev) ev ops w) (
          ap
            (λ d. mark_event_if_new d (id_of ev) (type_of ev) env.now msg.partition msg.offset w.db)
            m
          ∙ mark_event_if_new-new (id_of ev) (type_of ev) env.now msg.partition msg.offset w.db
              unseen)
      ∙ ap (after_batch env msg (type_of ev) ev (record w { db = with_mark env msg ev w.db })) e

  pub process_one-written :
      env.mark ≡ answered
      → env.batch ≡ answered
      → process_one avro env msg w
        ≡ after_batch env msg
            (type_of ev)
            ev
            (record w { db = with_mark env msg ev w.db })
            (ok tt, apply_all (batched ops) (with_mark env msg ev w.db))
  process_one-written m b =
      process_one-eq-after_batch m _
        (ap (λ d. execute_batch d ops (with_mark env msg ev w.db)) b ∙ execute_batch-answered ops _)

  process_one-unwritten :
      (s : Statement) (rest : List Statement)
      → env.mark ≡ answered
      → env.batch ≡ refused
      → batched ops ≡ s ∷ rest
      → process_one avro env msg w
        ≡ after_batch env msg
            (type_of ev)
            ev
            (record w { db = with_mark env msg ev w.db })
            (raise (fault unavailable), with_mark env msg ev w.db)
  process_one-unwritten s rest m b e = process_one-eq-after_batch m _ (
      ap (λ d. execute_batch d ops (with_mark env msg ev w.db)) b
      ∙ execute_batch-refused ops s rest _ e)

  module _ (polls : List Poll) (env' : Env) where
    -- A redelivery after any number of rounds, for a world in which the event is marked.
    again :
        is_event_processed (id_of ev) (process_one avro env msg w).0.db ≡ true
        → (process_one avro env' msg
            (consume_loop avro polls (process_one avro env msg w).0).0).0.db
          ≡ (consume_loop avro polls (process_one avro env msg w).0).0.db
    again marked =
        process_one-seen avro env' msg _ ev decoded
          (consume_loop-marked avro polls (process_one avro env msg w).0 (id_of ev) marked)

    -- An event whose handler returns a batch, that is not marked yet, and whose mark and batch are
    -- answered, is written exactly once: its batch is applied after its mark and its offset is offered
    -- for commit; and after any further rounds, processing the message again changes no table.
    pub process_one-once :
        env.mark ≡ answered
        → env.batch ≡ answered
        → ((process_one avro env msg w).0.db ≡ apply_all (batched ops) (with_mark env msg ev w.db))
          × ((process_one avro env msg w).0.commits ≡ (commit_offset env msg w).commits)
          × ((process_one avro env' msg
                (consume_loop avro polls (process_one avro env msg w).0).0).0.db
              ≡ (consume_loop avro polls (process_one avro env msg w).0).0.db)
    unfolding after_batch commit_offset
    process_one-once m b = (
      ap (λ x. x.0.db) (process_one-written m b),
      ap (λ x. x.0.commits) (process_one-written m b),
      again (
          subst (λ x. is_event_processed (id_of ev) x.0.db ≡ true) (sym (process_one-written m b))
            (is_event_processed-apply_all (id_of ev) (batched ops) _ (
              is_event_processed-mark_event (id_of ev) (type_of ev) env.now msg.partition msg.offset
                w.db))),
    )

    -- When the mark is answered and the batch, which is not empty, is refused, the mark alone is
    -- stored, no letter is sent and no offset is committed; and after any further rounds, processing
    -- the message again changes no table, so that the batch is never written.
    pub process_one-lost_update :
        (s : Statement) (rest : List Statement)
        → env.mark ≡ answered
        → env.batch ≡ refused
        → batched ops ≡ s ∷ rest
        → ((process_one avro env msg w).0.db ≡ with_mark env msg ev w.db)
          × ((process_one avro env msg w).0.letters ≡ w.letters)
          × ((process_one avro env msg w).0.commits ≡ w.commits)
          × ((process_one avro env' msg
                (consume_loop avro polls (process_one avro env msg w).0).0).0.db
              ≡ (consume_loop avro polls (process_one avro env msg w).0).0.db)
    unfolding after_batch on_exception
    process_one-lost_update s rest m b e = (
      ap (λ x. x.0.db) (process_one-unwritten s rest m b e),
      ap (λ x. x.0.letters) (process_one-unwritten s rest m b e),
      ap (λ x. x.0.commits) (process_one-unwritten s rest m b e),
      again (
          subst (λ x. is_event_processed (id_of ev) x.0.db ≡ true)
            (sym (process_one-unwritten s rest m b e))
            (is_event_processed-mark_event (id_of ev) (type_of ev) env.now msg.partition msg.offset
              w.db)),
    )
