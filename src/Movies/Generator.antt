-- ===== src/Movies/Generator.antt =====
-- `EventGenerator` of hm5/producer/app/generator.py. What `random`, `uuid` and the clock yield in one
-- round is a draw, with what the attempts of the producer come to.
use service_oriented_archite.Base.{
  ℕ, zero, suc, ◌+◌, ◌-◌, ◌*◌, String, Bool, true, false, none, some, List, [], ◌∷◌, ltb, string_eq,
  if◌then◌else◌,
}
use service_oriented_archite.Base.Table.{Table, lookup, insert, remove}
use service_oriented_archite.Movies.Events.{
  EventType, view_started, view_finished, view_paused, view_resumed, liked, searched, DeviceType,
  MovieEvent,
}
use service_oriented_archite.Movies.Producer.{Attempt, Sending, sent, raised, send}

pub data State : Type 0 where
  playing paused : State

pub record Session : Type 0 where
  pub session_id : String
  pub movie_id : String
  pub device : DeviceType
  pub progress : ℕ
  pub last_time : ℕ
  pub state : State
  pub steps_remaining : ℕ

-- The sessions, and the events that the producer took, the latest first.
pub record Generator : Type 0 where
  pub active_sessions : Table String Session
  pub log : List MovieEvent

abbrev pub initial : Generator
initial = record { active_sessions = []; log = [] }

-- `rand` is `random.random()` times 2^53. A round uses the fields that its branch reads.
pub record Draw : Type 0 where
  pub user_id : String
  pub rand : ℕ
  pub event_id : String
  pub session_id : String
  pub movie_id : String
  pub device : DeviceType
  pub now : ℕ
  pub day_offset : ℕ
  pub hours : ℕ
  pub minutes : ℕ
  pub steps : ℕ
  pub seconds_later : ℕ
  pub watched : ℕ
  pub produce : ℕ → Attempt

-- How `producer.send` ends in a round.
abbrev pub sending : Draw → Sending
sending d = (send d.produce).how

-- `producer.send(event)`: whether it returns, and what is in the log then.
abbrev pub send_event : Sending → MovieEvent → Generator → Generator
send_event sent e g = record g { log = e ∷ g.log }
send_event _ e g = g

abbrev pub returns : Sending → Bool
returns raised = false
returns _ = true

unfoldable pub start_session : Draw → Generator → Generator
start_session d g =
    let event_time : ℕ = d.now - (86400 * d.day_offset + (3600 * d.hours + 60 * d.minutes)) in
    let g' : Generator =
      send_event (sending d)
        (record {
          event_id = d.event_id;
          user_id = d.user_id;
          movie_id = d.movie_id;
          event_type = view_started;
          timestamp = event_time;
          device_type = d.device;
          session_id = d.session_id;
          progress_seconds = 0;
        })
        g in
    if returns (sending d)
    then record g' {
      active_sessions =
          insert d.user_id
            (record {
              session_id = d.session_id;
              movie_id = d.movie_id;
              device = d.device;
              progress = 0;
              last_time = event_time;
              state = playing;
              steps_remaining = d.steps;
            })
            g'.active_sessions;
    }
    else g'

-- The event of a session at its present time and progress.
abbrev pub session_event : Draw → EventType → Session → MovieEvent
session_event d event_type s = record {
  event_id = d.event_id;
  user_id = d.user_id;
  movie_id = s.movie_id;
  event_type = event_type;
  timestamp = s.last_time;
  device_type = s.device;
  session_id = s.session_id;
  progress_seconds = s.progress;
}

abbrev pub next_type : State → EventType
next_type playing = view_paused
next_type paused = view_resumed

abbrev pub next_state : State → State
next_state playing = paused
next_state paused = playing

-- The session is changed in place before its event is sent; it is deleted after its last one.
unfoldable pub continue_session : Draw → Session → Generator → Generator
continue_session d session g =
    let s : Session = record session {
      last_time = session.last_time + d.seconds_later;
      progress = session.progress + d.watched;
    } in
    elim session.steps_remaining [
      | zero ↦
          let g' : Generator =
            send_event (sending d) (session_event d view_finished s)
              (record g { active_sessions = insert d.user_id s g.active_sessions }) in
          if returns (sending d)
          then record g' { active_sessions = remove d.user_id g'.active_sessions }
          else g'
      | suc steps ↦
          let s' : Session = record s { steps_remaining = steps; state = next_state s.state } in
          send_event (sending d) (session_event d (next_type s.state) s)
            (record g { active_sessions = insert d.user_id s' g.active_sessions })
    ]

-- `_generate_liked` and `_generate_searched`, which differ in the type alone.
unfoldable pub generate_single : EventType → Draw → Generator → Generator
generate_single event_type d g =
    send_event (sending d)
      (record {
        event_id = d.event_id;
        user_id = d.user_id;
        movie_id = d.movie_id;
        event_type = event_type;
        timestamp = d.now - (86400 * d.day_offset + 3600 * d.hours);
        device_type = d.device;
        session_id = d.session_id;
        progress_seconds = 0;
      })
      g

-- The floats 0.8 and 0.9, times 2^53.
unfoldable pub without_session : Draw → Generator → Generator
unfolding start_session generate_single
without_session d g =
    if ltb d.rand 7205759403792794
    then start_session d g
    else if ltb d.rand 8106479329266893
    then generate_single liked d g
    else generate_single searched d g

unfoldable pub generate_batch : Draw → Generator → Generator
unfolding continue_session without_session
generate_batch d g = elim (lookup d.user_id g.active_sessions) [
  | some session ↦ continue_session d session g
  | none ↦ without_session d g
]

-- The loop of `start` over its rounds; it logs an exception and goes on.
unfoldable pub run : List Draw → Generator → Generator
unfolding generate_batch
run [] g = g
run (d ∷ rest) g = run rest (generate_batch d g)
