-- ===== src/Movies/Published.antt =====
-- What the endpoint `publish_event` of hm5/producer/app/routes.py answers, and whether the event was taken.
use service_oriented_archite.Base.{ℕ, ◌≤◌, String, ◌≡◌, Option, none, some, List, ◌∷◌}
use service_oriented_archite.Python.Http.{Response, body, http_exception}
use service_oriented_archite.Movies.Events.{MovieEvent}
use service_oriented_archite.Movies.Producer.{
  Attempt, accepted, buffer_full, failed, Sending, sent, raised, dropped, send,
}
use service_oriented_archite.Movies.Retries.{NoneAccepted, Ends, taken, given_up, lost, send-Ends}
use service_oriented_archite.Movies.Api.{Accepted, accepted_body, answer_sending, publish_event}

-- What an answer says of the event, for the three attempts 0, 1 and 2 of `send`.
pub data Published (text : String) (e : MovieEvent) (log : List MovieEvent)
    : Option (ℕ → Attempt) → Response Accepted × List MovieEvent → Type 0 where
  unavailable : Published text e log none (http_exception 503 "Producer not initialized", log)
  in_log :
      {produce : ℕ → Attempt} (k : ℕ)
      → k ≤ 2
      → produce k ≡ accepted
      → Published text e log (some produce) (body (accepted_body e), e ∷ log)
  refused :
      {produce : ℕ → Attempt}
      → NoneAccepted produce 0 2
      → produce 2 ≡ failed
      → Published text e log (some produce) (http_exception 500 text, log)
  forgotten :
      {produce : ℕ → Attempt}
      → NoneAccepted produce 0 2
      → produce 2 ≡ buffer_full
      → Published text e log (some produce) (body (accepted_body e), log)

answer_sending-Published :
    (produce : ℕ → Attempt) (text : String) (e : MovieEvent) (log : List MovieEvent) (how : Sending)
    → Ends produce 0 2 how
    → Published text e log (some produce) (answer_sending text e how log)
unfolding answer_sending
answer_sending-Published produce text e log sent (taken k a b h) = in_log k b h
answer_sending-Published produce text e log raised (given_up h last) = refused h last
answer_sending-Published produce text e log dropped (lost h last) = forgotten h last

-- Publishing answers in one of four ways: status 503, when no producer is set; "accepted", and the event
-- was taken by one of the three attempts; status 500, when none took it and the last failed; or
-- "accepted" although none took it, when the buffer was full at the last.
pub publish_event-Published :
    (producer : Option (ℕ → Attempt)) (text : String) (e : MovieEvent) (log : List MovieEvent)
    → Published text e log producer (publish_event producer text e log)
unfolding publish_event
publish_event-Published none text e log = unavailable
publish_event-Published (some produce) text e log =
    answer_sending-Published produce text e log (send produce).how (send-Ends produce).0
