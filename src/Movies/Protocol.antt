-- ===== src/Movies/Protocol.antt =====
-- The generator of hm5/producer/app/generator.py keeps the protocol of a view.
use service_oriented_archite.Base.{
  ℕ, suc, ◌+◌, ◌≤◌, ◌≡◌, refl, true, none, some, List, [], ◌∷◌, arith, ltb, string_eq, inl, inr,
  Option-cases, Bool-cases,
}
use service_oriented_archite.Base.Table.{lookup, insert, lookup-insert}
use service_oriented_archite.Movies.Events.{EventType, view_finished, liked, searched, MovieEvent}
use service_oriented_archite.Movies.Producer.{sent}
use service_oriented_archite.Movies.Generator.{
  Session, Generator, initial, Draw, sending, start_session, session_event, next_type,
  continue_session, generate_single, without_session, generate_batch, run,
}
use service_oriented_archite.Movies.Follows.{
  goes_on, next, trace, session_view, Follows, Follows-by, follow-view_finished, follow-next_type,
  zero_or_suc, unchanged, insert-remove,
}

module _ (g : Generator) (d : Draw) (h : Follows g) (taken : sending d ≡ sent) where
  generate_single-Follows :
      (event_type : EventType)
      → ((e : MovieEvent) → e.event_type ≡ event_type → next none e ≡ some none)
      → lookup d.user_id g.active_sessions ≡ none
      → Follows (generate_single event_type d g)
  unfolding generate_single
  generate_single-Follows event_type allowed idle = rw taken (
      Follows-by g _ g.active_sessions none h (rw idle (allowed _ refl))
        (λ user. unchanged d.user_id user g.active_sessions idle))

  start_session-Follows : lookup d.user_id g.active_sessions ≡ none → Follows (start_session d g)
  unfolding start_session next
  start_session-Follows idle = rw taken (
      Follows-by g _ (insert d.user_id _ g.active_sessions) (some _) h (rw idle refl)
        (λ user. lookup-insert user d.user_id _ g.active_sessions))

  without_session-Follows :
      lookup d.user_id g.active_sessions ≡ none → Follows (without_session d g)
  unfolding without_session next
  without_session-Follows idle = elim (Bool-cases (ltb d.rand 7205759403792794)) [
    | inl start ↦ rw start (start_session-Follows idle)
    | inr single ↦ elim (Bool-cases (ltb d.rand 8106479329266893)) [
      | inl like ↦ rw (single, like) (generate_single-Follows liked (λ e t. rw t refl) idle)
      | inr search ↦ rw (single, search) (generate_single-Follows searched (λ e t. rw t refl) idle)
    ]
  ]

  module _ (session : Session) (open_session : lookup d.user_id g.active_sessions ≡ some session)
      (later : 30 ≤ d.seconds_later) (watched : 30 ≤ d.watched) where
    -- The session at the time and the progress of its next event.
    abbrev moved_on : Session
    moved_on = record session {
      last_time = session.last_time + d.seconds_later;
      progress = session.progress + d.watched;
    }

    goes_on-session_event :
        (event_type : EventType)
        → goes_on (session_view session) (session_event d event_type moved_on) ≡ true
    goes_on-session_event event_type = ground arith

    finish-Follows : session.steps_remaining ≡ 0 → Follows (continue_session d session g)
    unfolding continue_session next
    finish-Follows last =
        rw (last, taken)
          (Follows-by g _ _ none h
            (rw (open_session, goes_on-session_event view_finished)
              (rw (follow-view_finished session.state) refl))
            (λ user. insert-remove user d.user_id _ g.active_sessions))

    step-Follows :
        (steps : ℕ) → session.steps_remaining ≡ suc steps → Follows (continue_session d session g)
    unfolding continue_session next
    step-Follows steps more =
        rw (more, taken)
          (Follows-by g _ _ (some _) h
            (rw (open_session, goes_on-session_event (next_type session.state))
              (rw (follow-next_type session.state) refl))
            (λ user. lookup-insert user d.user_id _ g.active_sessions))

    continue_session-Follows : Follows (continue_session d session g)
    continue_session-Follows = elim (zero_or_suc session.steps_remaining) [
      | inl last ↦ finish-Follows last
      | inr (steps, more) ↦ step-Follows steps more
    ]

-- The producer takes the event of the round, and the two lapses are what `randint(30, 300)` yields.
pub record IsSmooth (d : Draw) : Type 0 where
  pub taken : sending d ≡ sent
  pub later : 30 ≤ d.seconds_later
  pub watched : 30 ≤ d.watched

abbrev pub AllSmooth : List Draw → Type 0
AllSmooth [] = Unit
AllSmooth (d ∷ rest) = IsSmooth d × AllSmooth rest

generate_batch-Follows :
    (g : Generator) (d : Draw) → IsSmooth d → Follows g → Follows (generate_batch d g)
unfolding generate_batch
generate_batch-Follows g d smooth h = elim (Option-cases (lookup d.user_id g.active_sessions)) [
  | inl idle ↦ rw (generate_batch, idle) (without_session-Follows g d h smooth.taken idle)
  | inr (session, open_session) ↦
      rw (generate_batch, open_session)
        (continue_session-Follows g d h smooth.taken session open_session smooth.later
          smooth.watched)
]

-- Over any number of rounds in which the producer takes every event and the random lapses are at least
-- 30 seconds, the events of every person keep the protocol: a view starts at progress 0; it is paused
-- and resumed by turns and may be finished after any of these; its events have one session, movie and
-- device, each at least 30 seconds after the last in time and in progress; a like or a search comes
-- only between views. What the events come to is the session that the generator keeps.
pub run-Follows :
    (draws : List Draw) (g : Generator) → AllSmooth draws → Follows g → Follows (run draws g)
unfolding run
run-Follows [] g smooth h = h
run-Follows (d ∷ rest) g (now, smooth) h =
    run-Follows rest (generate_batch d g) smooth (generate_batch-Follows g d now h)

-- The generator starts without sessions and events, which keeps the protocol.
pub initial-Follows : Follows initial
unfolding Follows trace lookup
initial-Follows user = refl
