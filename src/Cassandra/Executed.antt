-- ===== src/Cassandra/Executed.antt =====
-- What the writes of hm6/consumer/cassandra_client.py can come to.
use service_oriented_archite.Base.{
  ℕ, String, ◌≡◌, refl, Bool, true, false, List, [], ◌∷◌, inl, inr, Bool-cases,
}
use service_oriented_archite.Python.Exception.{Result, ok, raise, fault, unavailable}
use service_oriented_archite.Cassandra.Tables.{Db, Statement, mark_event, apply, apply_all}
use service_oriented_archite.Cassandra.Client.{
  Delivery, answered, refused, lost, execute, batched, execute_batch, mark_event_if_new,
  is_event_processed,
}

-- The three ways in which statements are executed.
pub data Executed (statements : List Statement) (db : Db) : Result (Unit {0}) × Db → Type 0 where
  sent : Executed statements db (ok tt, apply_all statements db)
  unsent : Executed statements db (raise (fault unavailable), db)
  unanswered : Executed statements db (raise (fault unavailable), apply_all statements db)

execute-Executed :
    (d : Delivery) (statements : List Statement) (db : Db)
    → Executed statements db (execute d statements db)
unfolding execute
execute-Executed answered statements db = sent
execute-Executed refused statements db = unsent
execute-Executed lost statements db = unanswered

pub execute_batch-Executed :
    (d : Delivery) (ops : List Statement) (db : Db)
    → Executed (batched ops) db (execute_batch d ops db)
unfolding execute_batch apply_all
execute_batch-Executed d ops db =
    elim (batched ops)
      as (λ statements.
        Executed statements db
          (elim statements [ [] ↦ (ok tt, db) | s ∷ rest ↦ execute d (s ∷ rest) db ])) [
            | [] ↦ sent
            | s ∷ rest ↦ execute-Executed d (s ∷ rest) db
          ]

-- The mark of an event that is marked already changes nothing.
pub mark_event-old :
    (id type : String) (at partition offset : ℕ) (db : Db)
    → is_event_processed id db ≡ true
    → apply (mark_event id type at partition offset) db ≡ db
unfolding apply is_event_processed
mark_event-old id type at partition offset db h = rw h refl

-- The four ways in which the conditional mark goes.
pub data Marked (id type : String) (at partition offset : ℕ) (db : Db)
    : Result Bool × Db → Type 0 where
  fresh :
      is_event_processed id db ≡ false
      → Marked id type at partition offset db
          (ok true, apply (mark_event id type at partition offset) db)
  old : is_event_processed id db ≡ true → Marked id type at partition offset db (ok false, db)
  unmarked : Marked id type at partition offset db (raise (fault unavailable), db)
  unanswered :
      Marked id type at partition offset db
        (raise (fault unavailable), apply (mark_event id type at partition offset) db)

pub mark_event_if_new-Marked :
    (d : Delivery) (id type : String) (at partition offset : ℕ) (db : Db)
    → Marked id type at partition offset db (mark_event_if_new d id type at partition offset db)
unfolding mark_event_if_new execute apply_all
mark_event_if_new-Marked answered id type at partition offset db =
    elim (Bool-cases (is_event_processed id db)) [
      | inl seen ↦ rw (seen, mark_event-old id type at partition offset db seen) (old seen)
      | inr unseen ↦ rw unseen (fresh unseen)
    ]
mark_event_if_new-Marked refused id type at partition offset db = unmarked
mark_event_if_new-Marked lost id type at partition offset db = unanswered
