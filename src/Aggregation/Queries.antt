-- ===== src/Aggregation/Queries.antt =====
-- `ClickHouseClient` of hm5/aggregation/app/clickhouse_queries.py: what its SQL queries select of the
-- events that ClickHouse holds. A date is a number of days since 1970. What ClickHouse chooses is a
-- parameter: its estimate `uniq`, and the order of rows with as many views.
use service_oriented_archite.Base.{
  ℕ, zero, suc, ◌+◌, ◌-◌, ◌/◌, String, Bool, true, false, ◌&&◌, List, [], ◌∷◌, map, leb, string_eq,
  ◌==◌, if◌then◌else◌,
}
use service_oriented_archite.Movies.Events.{EventType, view_started, MovieEvent}
use service_oriented_archite.Aggregation.Ranking.{Row}
use service_oriented_archite.Aggregation.Scheduler.{Answer, done, error}

-- The columns of a movie over the days of a query.
pub record Figures : Type 0 where
  pub movie_id : String
  pub views_count : ℕ
  pub unique_users : ℕ
  pub total_watch_time : ℕ

-- `uniq(...)`, and `ORDER BY views_count DESC`.
pub record Engine : Type 0 where
  pub uniq : List String → ℕ
  pub order_by_views : List Figures → List Figures

-- `event_date`, the day of the event's time.
abbrev pub event_date : MovieEvent → ℕ
event_date e = e.timestamp / 86400

-- `event_type = 'VIEW_STARTED'`
abbrev pub is_started : EventType → Bool
is_started view_started = true
is_started _ = false

-- The WHERE clause.
abbrev pub is_selected : ℕ → ℕ → MovieEvent → Bool
is_selected start stop e =
    is_started e.event_type && (leb start (event_date e) && leb (event_date e) stop)

unfoldable pub selected : ℕ → ℕ → List MovieEvent → List MovieEvent
selected start stop [] = []
selected start stop (e ∷ rest) =
    let more : List MovieEvent = selected start stop rest in
    if is_selected start stop e then e ∷ more else more

-- GROUP BY movie_id: one more event of its movie.
unfoldable pub group_event :
    MovieEvent → List (String × List MovieEvent) → List (String × List MovieEvent)
group_event e [] = (e.movie_id, e ∷ []) ∷ []
group_event e ((movie, events) ∷ rest) =
    if e.movie_id == movie then (movie, e ∷ events) ∷ rest else (movie, events) ∷ group_event e rest

unfoldable pub group_by_movie : List MovieEvent → List (String × List MovieEvent)
unfolding group_event
group_by_movie [] = []
group_by_movie (e ∷ rest) = group_event e (group_by_movie rest)

-- `count()`
abbrev pub count : List MovieEvent → ℕ
count [] = 0
count (_ ∷ rest) = suc (count rest)

-- `sum(progress_seconds)`
abbrev pub sum_progress : List MovieEvent → ℕ
sum_progress [] = 0
sum_progress (e ∷ rest) = e.progress_seconds + sum_progress rest

abbrev pub figures_of : Engine → String × List MovieEvent → Figures
figures_of engine group = record {
  movie_id = group.0;
  views_count = count group.1;
  unique_users = engine.uniq (map (λ (e : MovieEvent). e.user_id) group.1);
  total_watch_time = sum_progress group.1;
}

-- The query over the events from day `start` to day `stop`, both included.
unfoldable pub figures : Engine → ℕ → ℕ → List MovieEvent → List Figures
unfolding selected group_by_movie
figures engine start stop events =
    engine.order_by_views (map (figures_of engine) (group_by_movie (selected start stop events)))

-- LIMIT
unfoldable pub take : ℕ → List Figures → List Figures
take zero rows = []
take (suc n) [] = []
take (suc n) (r ∷ rest) = r ∷ take n rest

-- The first argument is what the table is read as, if ClickHouse answers one of the tries.
unfoldable pub top_movies_last_7_days :
    Engine → Answer (List MovieEvent) → ℕ → ℕ → Answer (List Figures)
unfolding figures take
top_movies_last_7_days engine (error e) limit as_of = error e
top_movies_last_7_days engine (done events) limit as_of =
    done (take limit (figures engine (as_of - 7) as_of events))

-- A row that is not ranked yet has the rank 0.
abbrev pub daily_row : ℕ → Figures → Row
daily_row target f = record {
  event_date = target;
  movie_id = f.movie_id;
  views_count = f.views_count;
  unique_users = f.unique_users;
  total_watch_time = f.total_watch_time;
  rank_position = 0;
}

unfoldable pub daily_aggregates : Engine → Answer (List MovieEvent) → ℕ → Answer (List Row)
unfolding figures
daily_aggregates engine (error e) target = error e
daily_aggregates engine (done events) target =
    done (map (daily_row target) (figures engine target target events))
