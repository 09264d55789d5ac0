-- ===== src/Aggregation/Unwatched.antt =====
-- The watch time that hm5/aggregation/app/clickhouse_queries.py sums over the events that
-- hm5/producer/app/generator.py makes up.
use service_oriented_archite.Base.{
  ℕ, zero, suc, String, ◌≡◌, refl, ◌∙◌, List, [], ◌∷◌, arith, ltb, string_eq, if◌then◌else◌,
  Bool-cases, Option-cases, ◌⊎◌, inl, inr,
}
use service_oriented_archite.Base.Table.{lookup}
use service_oriented_archite.Movies.Events.{EventType, liked, searched, MovieEvent}
use service_oriented_archite.Movies.Producer.{Sending, sent, raised, dropped}
use service_oriented_archite.Movies.Generator.{
  State, playing, paused, Session, Generator, initial, Draw, sending, start_session, next_type,
  continue_session, generate_single, without_session, generate_batch, run, send_event,
}
use service_oriented_archite.Aggregation.Ranking.{Row}
use service_oriented_archite.Aggregation.Scheduler.{done}
use service_oriented_archite.Aggregation.Queries.{Engine, is_started, daily_aggregates}
use service_oriented_archite.Aggregation.Totals.{total}
use service_oriented_archite.Aggregation.Counts.{
  IsDocumented, on_day, progress, DayOf, daily_aggregates-DayOf,
}

-- The progress that an event adds to the watch time of a day.
abbrev adds : EventType → ℕ → ℕ
adds event_type seconds = if is_started event_type then seconds else 0

abbrev pub NoneAdds : List MovieEvent → Type 0
NoneAdds [] = Unit
NoneAdds (e ∷ rest) = (adds e.event_type e.progress_seconds ≡ 0) × NoneAdds rest

send_event-NoneAdds :
    (how : Sending) (e : MovieEvent) (g : Generator)
    → adds e.event_type e.progress_seconds ≡ 0
    → NoneAdds g.log
    → NoneAdds (send_event how e g).log
send_event-NoneAdds sent e g now h = (now, h)
send_event-NoneAdds raised e g now h = h
send_event-NoneAdds dropped e g now h = h

next_type-adds : (s : State) (seconds : ℕ) → adds (next_type s) seconds ≡ 0
next_type-adds playing seconds = refl
next_type-adds paused seconds = refl

Sending-cases : (how : Sending) → (how ≡ sent) ⊎ (how ≡ raised) ⊎ (how ≡ dropped)
Sending-cases sent = inl refl
Sending-cases raised = inr (inl refl)
Sending-cases dropped = inr (inr refl)

zero_or_suc : (n : ℕ) → (n ≡ 0) ⊎ ((m : ℕ) × (n ≡ suc m))
zero_or_suc zero = inl refl
zero_or_suc (suc m) = inr (m, refl)

module _ (d : Draw) (g : Generator) (h : NoneAdds g.log) where
  generate_single-NoneAdds : (t : EventType) → NoneAdds (generate_single t d g).log
  unfolding generate_single
  generate_single-NoneAdds t = send_event-NoneAdds (sending d) _ g (ground arith) h

  start_session-NoneAdds : NoneAdds (start_session d g).log
  unfolding start_session
  start_session-NoneAdds = elim (Sending-cases (sending d)) [
    | inl e ↦ rw e (refl, h)
    | inr (inl e) ↦ rw e h
    | inr (inr e) ↦ rw e h
  ]

  finish-NoneAdds : (s : Session) → s.steps_remaining ≡ 0 → NoneAdds (continue_session d s g).log
  unfolding continue_session
  finish-NoneAdds s last = elim (Sending-cases (sending d)) [
    | inl e ↦ rw (last, e) (refl, h)
    | inr (inl e) ↦ rw (last, e) h
    | inr (inr e) ↦ rw (last, e) h
  ]

  step-NoneAdds :
      (s : Session) (steps : ℕ)
      → s.steps_remaining ≡ suc steps
      → NoneAdds (continue_session d s g).log
  unfolding continue_session
  step-NoneAdds s steps more =
      rw more (send_event-NoneAdds (sending d) _ _ (next_type-adds s.state _) h)

  continue_session-NoneAdds : (s : Session) → NoneAdds (continue_session d s g).log
  continue_session-NoneAdds s = elim (zero_or_suc s.steps_remaining) [
    | inl last ↦ finish-NoneAdds s last
    | inr (steps, more) ↦ step-NoneAdds s steps more
  ]

  without_session-NoneAdds : NoneAdds (without_session d g).log
  unfolding without_session
  without_session-NoneAdds = elim (Bool-cases (ltb d.rand 7205759403792794)) [
    | inl start ↦ rw start start_session-NoneAdds
    | inr single ↦ elim (Bool-cases (ltb d.rand 8106479329266893)) [
      | inl like ↦ rw (single, like) (generate_single-NoneAdds liked)
      | inr search ↦ rw (single, search) (generate_single-NoneAdds searched)
    ]
  ]

  generate_batch-NoneAdds : NoneAdds (generate_batch d g).log
  unfolding generate_batch
  generate_batch-NoneAdds = elim (Option-cases (lookup d.user_id g.active_sessions)) [
    | inl idle ↦ rw (idle, generate_batch) without_session-NoneAdds
    | inr (session, busy) ↦ rw (busy, generate_batch) (continue_session-NoneAdds session)
  ]

run-NoneAdds : (draws : List Draw) (g : Generator) → NoneAdds g.log → NoneAdds (run draws g).log
unfolding run
run-NoneAdds [] g h = h
run-NoneAdds (d ∷ rest) g h = run-NoneAdds rest (generate_batch d g) (generate_batch-NoneAdds d g h)

on_day-NoneAdds :
    (day : ℕ) (movie : String) (events : List MovieEvent)
    → NoneAdds events
    → on_day progress day movie events ≡ 0
on_day-NoneAdds day movie [] h = refl
on_day-NoneAdds day movie (e ∷ rest) (now, h) = ground (arith, on_day-NoneAdds day movie rest h)

-- Whatever the rounds of the generator come to, the daily rows of the events that it has sent have no
-- watch time: `daily_aggregates` has one row for every movie of which a view was started on the day, and
-- sums the progress of its views to 0, since only the later events of a view have progress.
pub run-unwatched :
    (draws : List Draw) (engine : Engine)
    → IsDocumented engine
    → (day : ℕ)
    → (rows : List Row) × (daily_aggregates engine (done (run draws initial).log) day ≡ done rows)
      × ((movie : String)
          → DayOf day (run draws initial).log movie rows
            × (total (λ (r : Row). r.movie_id) (λ r. r.total_watch_time) movie rows ≡ 0))
run-unwatched draws engine doc day =
    let (rows, answer, figures) = daily_aggregates-DayOf engine doc (run draws initial).log day in
    (
      rows,
      answer,
      λ movie. (
        figures movie,
        (figures movie).watched
            ∙ on_day-NoneAdds day movie (run draws initial).log (run-NoneAdds draws initial tt),
      ),
    )
