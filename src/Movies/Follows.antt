-- ===== src/Movies/Follows.antt =====
-- What the events of one person may be, for the generator of hm5/producer/app/generator.py.
use service_oriented_archite.Base.{
  ℕ, zero, suc, ◌+◌, String, ◌≡◌, refl, Bool, ◌&&◌, Option, none, some, List, [], ◌∷◌, arith, leb,
  eqb, string_eq, ◌==◌, if◌then◌else◌, ◌⊎◌, inl, inr, equal_or_not,
}
use service_oriented_archite.Base.Table.{
  Table, lookup, insert, remove, lookup-insert, lookup-remove,
}
use service_oriented_archite.Movies.Events.{
  EventType, view_started, view_finished, view_paused, view_resumed, liked, searched, DeviceType,
  mobile, desktop, tv, tablet, MovieEvent,
}
use service_oriented_archite.Movies.Generator.{
  State, playing, paused, Session, Generator, next_type, next_state,
}

-- What the events of a person so far say of the movie that is on.
pub record View : Type 0 where
  pub session_id : String
  pub movie_id : String
  pub device : DeviceType
  pub progress : ℕ
  pub last_time : ℕ
  pub state : State

abbrev pub device_code : DeviceType → ℕ
device_code mobile = 0
device_code desktop = 1
device_code tv = 2
device_code tablet = 3

-- The event is of the movie that is on, and at least 30 seconds on in time and in progress.
abbrev pub goes_on : View → MovieEvent → Bool
goes_on v e =
    (e.session_id == v.session_id)
    && (e.movie_id == v.movie_id)
    && eqb (device_code e.device_type) (device_code v.device)
    && leb (v.progress + 30) e.progress_seconds
    && leb (v.last_time + 30) e.timestamp

abbrev pub view_at : MovieEvent → State → View
view_at e s = record {
  session_id = e.session_id;
  movie_id = e.movie_id;
  device = e.device_type;
  progress = e.progress_seconds;
  last_time = e.timestamp;
  state = s;
}

-- The types that may follow, with the state after them; the last one ends the view.
abbrev pub follow : State → EventType → Option (Option State)
follow playing view_paused = some (some paused)
follow paused view_resumed = some (some playing)
follow _ view_finished = some none
follow _ _ = none

-- The view after an event, if the protocol allows the event.
unfoldable pub next : Option View → MovieEvent → Option (Option View)
next none e = elim e.event_type [
  | view_started ↦ if eqb e.progress_seconds 0 then some (some (view_at e playing)) else none
  | liked ↦ some none
  | searched ↦ some none
  | _ ↦ none
]
next (some v) e =
    if goes_on v e
    then elim (follow v.state e.event_type) [
      | none ↦ none
      | some none ↦ some none
      | some (some s) ↦ some (some (view_at e s))
    ]
    else none

abbrev pub and_then :
    Option (Option View) → (Option View → Option (Option View)) → Option (Option View)
and_then none f = none
and_then (some v) f = f v

-- What the events of `user` in a log come to, the latest first; `none` if one breaks the protocol.
unfoldable pub trace : String → List MovieEvent → Option (Option View)
unfolding next
trace user [] = some none
trace user (e ∷ past) =
    let before = trace user past in
    if user == e.user_id then and_then before (λ v. next v e) else before

abbrev pub session_view : Session → View
session_view s = record {
  session_id = s.session_id;
  movie_id = s.movie_id;
  device = s.device;
  progress = s.progress;
  last_time = s.last_time;
  state = s.state;
}

abbrev pub view_of : Option Session → Option View
view_of none = none
view_of (some s) = some (session_view s)

-- The log of every person keeps the protocol, and comes to the session that the generator has.
unfoldable pub Follows : Generator → Type 0
Follows g = (user : String) → trace user g.log ≡ some (view_of (lookup user g.active_sessions))

pub Follows-by :
    (g : Generator) (e : MovieEvent) (table : Table String Session) (o : Option Session)
    → Follows g
    → next (view_of (lookup e.user_id g.active_sessions)) e ≡ some (view_of o)
    → ((user : String)
        → lookup user table ≡ (if user == e.user_id then o else lookup user g.active_sessions))
    → Follows (record { active_sessions = table; log = e ∷ g.log })
unfolding Follows trace
Follows-by g e table o h allowed others user = elim (equal_or_not user e.user_id) [
  | inl (same, eq) ↦ rw (others user, same, h user, eq) allowed
  | inr differ ↦ rw (others user, differ) (h user)
]

pub follow-view_finished : (s : State) → follow s view_finished ≡ some none
follow-view_finished playing = refl
follow-view_finished paused = refl

pub follow-next_type : (s : State) → follow s (next_type s) ≡ some (some (next_state s))
follow-next_type playing = refl
follow-next_type paused = refl

pub zero_or_suc : (n : ℕ) → (n ≡ 0) ⊎ ((m : ℕ) × (n ≡ suc m))
zero_or_suc zero = inl refl
zero_or_suc (suc m) = inr (m, refl)

-- A table of which no session has changed.
pub unchanged :
    (key user : String) (table : Table String Session)
    → lookup key table ≡ none
    → lookup user table ≡ (if user == key then none else lookup user table)
unchanged key user table idle = elim (equal_or_not user key) [
  | inl (same, eq) ↦ rw (same, eq) idle
  | inr differ ↦ rw differ refl
]

pub insert-remove :
    (user key : String) (s : Session) (table : Table String Session)
    → lookup user (remove key (insert key s table))
      ≡ (if user == key then none else lookup user table)
insert-remove user key s table = rw (lookup-remove, lookup-insert) (ground arith)
