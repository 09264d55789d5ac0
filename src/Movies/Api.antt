-- ===== src/Movies/Api.antt =====
-- The endpoints of hm5/producer/app/routes.py. The producer, if `set_producer` has set one, is what the
-- attempts of a `send` come to; the log holds the events that it took, the latest first.
use service_oriented_archite.Base.{ℕ, String, Option, none, some, List, ◌∷◌}
use service_oriented_archite.Python.Http.{Response, body, http_exception}
use service_oriented_archite.Movies.Events.{MovieEvent}
use service_oriented_archite.Movies.Producer.{Attempt, Sending, sent, raised, dropped, send}

pub record Accepted : Type 0 where
  pub status : String
  pub event_id : String

abbrev pub accepted_body : MovieEvent → Accepted
accepted_body e = record { status = "accepted"; event_id = e.event_id }

-- The text of the exception that leaves `send`, if one does.
unfoldable pub answer_sending :
    String → MovieEvent → Sending → List MovieEvent → Response Accepted × List MovieEvent
answer_sending text e sent log = (body (accepted_body e), e ∷ log)
answer_sending text e dropped log = (body (accepted_body e), log)
answer_sending text e raised log = (http_exception 500 text, log)

unfoldable pub publish_event :
    Option (ℕ → Attempt)
    → String
    → MovieEvent
    → List MovieEvent
    → Response Accepted × List MovieEvent
unfolding answer_sending
publish_event none text e log = (http_exception 503 "Producer not initialized", log)
publish_event (some produce) text e log = answer_sending text e (send produce).how log

-- `flush` waits for the broker and raises nothing.
unfoldable pub flush : Option (ℕ → Attempt) → Response String
flush none = http_exception 503 "Producer not initialized"
flush (some produce) = body "flushed"
