-- ===== src/Consumer/Degraded.antt =====
-- How long `/health` of hm6/consumer/health.py stays degraded while hm6/consumer/main.py runs.
use service_oriented_archite.Base.{
  ℕ, suc, ◌≤◌, ◌<◌, String, ◌≡◌, refl, Bool, true, false, ◌||◌, Option, none, some, List, [], ◌∷◌,
  arith, ◌⊎◌, inl, inr, Bool-cases, string_eq,
}
use service_oriented_archite.Python.Exception.{
  Result, ok, raise, Exn, validation, handler_error, fault,
}
use service_oriented_archite.Python.Value.{Value, text, list, dict, Fields, get, is_falsy}
use service_oriented_archite.Cassandra.Tables.{Db, Statement}
use service_oriented_archite.Cassandra.Client.{mark_event_if_new, execute_batch}
use service_oriented_archite.Handlers.{Handler, find_handler}
use service_oriented_archite.Handlers.Zone.{Handled, batch, out_of_order}
use service_oriented_archite.Consumer.World.{
  Message, ErrorReason, missing_id_or_type, Metric, processed, World, Env, Exit, returned, raised,
}
use service_oriented_archite.Consumer.Deserialize.{Avro, deserialize}
use service_oriented_archite.Consumer.Process.{
  commit_offset, reject, on_exception, observe, after_batch, after_mark, mark_and_write, session,
  run_handler, after_handler, id_of, is_missing, or_unknown, look_up, after_decoding, process_event,
  process_one,
}
use service_oriented_archite.Consumer.Loop.{
  Poll, nothing, partition_eof, kafka_error, received, poll_once, go_on, consume_loop,
}
use service_oriented_archite.Consumer.Main.{health_handler}

-- The increments of `events_processed_total`.
abbrev pub written : List Metric → ℕ
written [] = 0
written (processed _ ∷ rest) = suc (written rest)
written (_ ∷ rest) = written rest

-- Cassandra counts as connected again only after an event has been written.
pub record Reconnects (w w' : World) : Type 0 where
  pub grows : written w.metrics ≤ written w'.metrics
  pub back :
      w'.cassandra_connected ≡ true
      → (w.cassandra_connected ≡ true) ⊎ (written w.metrics < written w'.metrics)

Reconnects-refl : (w : World) → Reconnects w w
Reconnects-refl w = record { grows = omega arith; back = λ h. inl h }

Reconnects-trans : (w w' w'' : World) → Reconnects w w' → Reconnects w' w'' → Reconnects w w''
Reconnects-trans w w' w'' a b = record {
  grows = omega (arith, a.grows, b.grows);
  back = λ h. elim (b.back h) [
    | inl before ↦ elim (a.back before) [
      | inl first ↦ inl first
      | inr more ↦ inr (omega (arith, b.grows))
    ]
    | inr more ↦ inr (omega (arith, a.grows))
  ];
}

module _ (env : Env) (msg : Message) (w : World) where
  reject-Reconnects :
      (event_type : String) (decoded : Option Fields) (reason : ErrorReason) (code : String)
      → Reconnects w (reject env msg event_type decoded reason code w).0
  unfolding reject commit_offset
  reject-Reconnects event_type decoded reason code = elim (Bool-cases env.dlq_accepts) [
    | inl taken ↦ rw taken (record { grows = omega arith; back = λ h. inl h })
    | inr full ↦ rw full (record { grows = omega arith; back = λ h. inl h })
  ]

  on_exception-Reconnects :
      (event_type : String) (ev : Fields) (e : Exn)
      → Reconnects w (on_exception env msg event_type ev e w).0
  unfolding on_exception
  on_exception-Reconnects event_type ev (validation r) = reject-Reconnects event_type (some ev) _ _
  on_exception-Reconnects event_type ev (handler_error s) =
      reject-Reconnects event_type (some ev) _ _
  on_exception-Reconnects event_type ev (fault f) = record { grows = omega arith; back = λ h. cc }

-- Only what the gauge and the counter hold matters.
Reconnects-of :
    (v w w' : World)
    → written v.metrics ≡ written w.metrics
    → v.cassandra_connected ≡ w.cassandra_connected
    → Reconnects v w'
    → Reconnects w w'
Reconnects-of v w w' m c r = record {
  grows = omega (arith, r.grows);
  back = λ h. elim (r.back h) [ inl before ↦ inl (cc) | inr more ↦ inr (omega arith) ];
}

observe-Reconnects :
    (w : World) (event_type : String) (x : World × Exit)
    → Reconnects w x.0
    → Reconnects w (observe event_type x).0
observe-Reconnects w event_type x r = record { grows = r.grows; back = r.back }

module _ (env : Env) (msg : Message) (w : World) (event_type : String) (ev : Fields) where
  -- An exception, in a world with the same gauge and the same counter.
  caught-Reconnects :
      (v : World) (e : Exn)
      → written v.metrics ≡ written w.metrics
      → v.cassandra_connected ≡ w.cassandra_connected
      → Reconnects w (observe event_type (on_exception env msg event_type ev e v)).0
  caught-Reconnects v e m c =
      observe-Reconnects w event_type (on_exception env msg event_type ev e v)
        (Reconnects-of v w _ m c (on_exception-Reconnects env msg v event_type ev e))

  after_batch-Reconnects :
      (db : Db) (x : Result (Unit {0}) × Db)
      → Reconnects w (after_batch env msg event_type ev (record w { db = db }) x).0
  unfolding after_batch commit_offset
  after_batch-Reconnects db (ok _, db') = record {
    grows = omega arith;
    back = λ h. inr (omega arith);
  }
  after_batch-Reconnects db (raise e, db') = caught-Reconnects _ e refl refl

  after_mark-Reconnects :
      (ops : List Statement) (x : Result Bool × Db)
      → Reconnects w (after_mark env msg event_type ev ops w x).0
  unfolding after_mark commit_offset
  after_mark-Reconnects ops (raise e, db) = caught-Reconnects _ e refl refl
  after_mark-Reconnects ops (ok false, db) = record { grows = omega arith; back = λ h. inl h }
  after_mark-Reconnects ops (ok true, db) =
      after_batch-Reconnects db (execute_batch env.batch ops db)

  after_handler-Reconnects :
      (event_id : String) (r : Result Handled)
      → Reconnects w (after_handler env msg event_id event_type ev w r).0
  unfolding after_handler mark_and_write commit_offset
  after_handler-Reconnects event_id (raise e) = caught-Reconnects w e refl refl
  after_handler-Reconnects event_id (ok out_of_order) = record {
    grows = omega arith;
    back = λ h. inl h;
  }
  after_handler-Reconnects event_id (ok (batch ops)) =
      after_mark-Reconnects ops
        (mark_event_if_new env.mark event_id event_type env.now msg.partition msg.offset w.db)

  run_handler-Reconnects :
      (event_id : String) (o : Option Handler)
      → Reconnects w (run_handler env msg event_id event_type ev w o).0
  unfolding run_handler
  run_handler-Reconnects event_id none = reject-Reconnects env msg w event_type (some ev) _ _
  run_handler-Reconnects event_id (some handler) =
      after_handler-Reconnects event_id (handler (session env w) ev)

look_up-Reconnects :
    (env : Env) (msg : Message) (w : World) (ev : Fields) (v : Value)
    → Reconnects w (look_up env msg ev w v).0
unfolding look_up
look_up-Reconnects env msg w ev (text s) =
    run_handler-Reconnects env msg w s ev (id_of ev) (find_handler s)
look_up-Reconnects env msg w ev (list xs) = Reconnects-refl w
look_up-Reconnects env msg w ev (dict d) = Reconnects-refl w
look_up-Reconnects env msg w ev v = reject-Reconnects env msg w _ (some ev) _ _

process_event-Reconnects :
    (env : Env) (msg : Message) (w : World) (ev : Fields)
    → Reconnects w (process_event env msg ev w).0
unfolding process_event
process_event-Reconnects env msg w ev =
    elim (Bool-cases
      (is_missing (get "event_id" ev) || is_falsy (or_unknown (get "event_type" ev)))) [
        | inl missing ↦
            rw missing
              (reject-Reconnects env msg w _ (some ev) missing_id_or_type "VALIDATION_ERROR")
        | inr present ↦ rw present (look_up-Reconnects env msg w ev _)
      ]

module _ (avro : Avro) where
  after_decoding-Reconnects :
      (env : Env) (msg : Message) (w : World) (r : Result Fields)
      → Reconnects w (after_decoding env msg w r).0
  unfolding after_decoding
  after_decoding-Reconnects env msg w (raise e) = reject-Reconnects env msg w "UNKNOWN" none _ _
  after_decoding-Reconnects env msg w (ok ev) = process_event-Reconnects env msg w ev

  poll_once-Reconnects : (p : Poll) (w : World) → Reconnects w (poll_once avro p w).0
  unfolding poll_once process_one
  poll_once-Reconnects nothing w = Reconnects-refl w
  poll_once-Reconnects partition_eof w = Reconnects-refl w
  poll_once-Reconnects kafka_error w = record { grows = omega arith; back = λ h. inl h }
  poll_once-Reconnects (received env msg) w =
      Reconnects-of (record w { kafka_connected = true }) w _ refl refl
        (after_decoding-Reconnects env msg _ (deserialize avro msg.value msg.topic))

  go_on-Reconnects :
      (loop : World → World × Exit)
      → ((v : World) → Reconnects v (loop v).0)
      → (w : World) (x : World × Exit) → Reconnects w x.0
      → Reconnects w (go_on loop x).0
  unfolding go_on
  go_on-Reconnects loop each w (v, returned) r = Reconnects-trans w v _ r (each v)
  go_on-Reconnects loop each w (v, raised) r = r

  consume_loop-Reconnects :
      (polls : List Poll) (w : World) → Reconnects w (consume_loop avro polls w).0
  unfolding consume_loop
  consume_loop-Reconnects [] w = Reconnects-refl w
  consume_loop-Reconnects (p ∷ rest) w =
      go_on-Reconnects (consume_loop avro rest) (consume_loop-Reconnects rest) w
        (poll_once avro p w) (poll_once-Reconnects p w)

-- Once Cassandra counts as disconnected, `/health` answers 503 after any further rounds of the loop in
-- which no event is counted as processed, duplicates, late events and rejected ones included.
pub consume_loop-degraded :
    (avro : Avro) (polls : List Poll) (w : World)
    → w.cassandra_connected ≡ false
    → written (consume_loop avro polls w).0.metrics ≡ written w.metrics
    → ((health_handler (consume_loop avro polls w).0).code ≡ 503)
      × ((health_handler (consume_loop avro polls w).0).cassandra ≡ false)
unfolding health_handler
consume_loop-degraded avro polls w down none_written =
    elim (Bool-cases (consume_loop avro polls w).0.cassandra_connected) [
      | inl up ↦ absurd (impossible up ((consume_loop-Reconnects avro polls w).back up))
      | inr still ↦ degraded (consume_loop avro polls w).0 still
    ]
  where
    impossible :
        (consume_loop avro polls w).0.cassandra_connected ≡ true
        → (w.cassandra_connected ≡ true)
          ⊎ (written w.metrics < written (consume_loop avro polls w).0.metrics)
        → ⊥
    impossible up (inl before) = cc
    impossible up (inr more) = omega arith

    degraded :
        (v : World)
        → v.cassandra_connected ≡ false
        → ((health_handler v).code ≡ 503) × ((health_handler v).cassandra ≡ false)
    degraded v h = (ground arith, ground arith)
