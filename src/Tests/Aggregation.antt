-- ===== src/Tests/Aggregation.antt =====
-- Two persons watch movies on two days, and the aggregation counts their views.
use service_oriented_archite.Base.{
  ℕ, ◌+◌, ◌*◌, ◌-◌, ◌≤◌, String, ◌≡◌, ◌≢◌, refl, arith, some, List, [], ◌∷◌, nat_eq, string_eq,
  pair_eq,
}
use service_oriented_archite.Base.Table.{lookup}
use service_oriented_archite.Movies.Events.{
  EventType, view_started, view_finished, liked, tv, MovieEvent,
}
use service_oriented_archite.Movies.Generator.{initial, run}
use service_oriented_archite.Movies.Producer.{Attempt, buffer_full}
use service_oriented_archite.Movies.Api.{publish_event}
use service_oriented_archite.Movies.Published.{Published, publish_event-Published}
use service_oriented_archite.Aggregation.Ranking.{Row}
use service_oriented_archite.Aggregation.Scheduler.{Parts, done, run_aggregation}
use service_oriented_archite.Aggregation.Queries.{Figures, top_movies_last_7_days, daily_aggregates}
use service_oriented_archite.Aggregation.Totals.{one, total}
use service_oriented_archite.Aggregation.Counts.{Descending, over_days, DayOf}
use service_oriented_archite.Aggregation.Top.{length, IsPlaced, top_movies-IsPlaced}
use service_oriented_archite.Aggregation.Unwatched.{run-unwatched}
use service_oriented_archite.Aggregation.Upserts.{Aggregates}
use service_oriented_archite.Aggregation.EndToEnd.{IsStored, run_aggregation-IsStored}
use service_oriented_archite.Aggregation.Export.{lost, Bucket}
use service_oriented_archite.Aggregation.Routes.{top_movies, post_export_parquet}
use service_oriented_archite.Aggregation.Answers.{
  relabel, top_movies-relabel, Exports, post_export_parquet-Exports,
}
use service_oriented_archite.Tests.Engine.{engine, engine-IsDocumented, sort_figures}
use service_oriented_archite.Tests.Movies.{round, empty_store}

-- An event on a day.
abbrev watching : String → String → EventType → ℕ → MovieEvent
watching user movie event_type day = record {
  event_id = "e";
  user_id = user;
  movie_id = movie;
  event_type = event_type;
  timestamp = 86400 * day + 3600;
  device_type = tv;
  session_id = "s";
  progress_seconds = 0;
}

abbrev events : List MovieEvent
events =
    watching "u1" "m1" view_started 19
    ∷ watching "u1" "m1" view_finished 19
    ∷ watching "u2" "m1" view_started 20
    ∷ watching "u1" "m2" view_started 20
    ∷ watching "u2" "m2" view_started 20
    ∷ watching "u2" "m2" liked 20
    ∷ []

top_movies_example :
    (rows : List Figures) × (top_movies_last_7_days engine (done events) 1 20 ≡ done rows)
    × (length rows ≤ 1)
    × Descending rows
    × ((movie : String) → IsPlaced 1 movie (over_days one (20 - 7) 7 movie events) rows)
top_movies_example = top_movies-IsPlaced engine engine-IsDocumented events 1 20 (omega arith)

-- Two persons started the second movie on the day, one the first.
daily_figures :
    daily_aggregates engine (done events) 20
    ≡ done (
        record {
          event_date = 20;
          movie_id = "m2";
          views_count = 2;
          unique_users = 2;
          total_watch_time = 0;
          rank_position = 0;
        }
        ∷ record {
          event_date = 20;
          movie_id = "m1";
          views_count = 1;
          unique_users = 1;
          total_watch_time = 0;
          rank_position = 0;
        }
        ∷ [])
unfolding daily_aggregates string_eq sort_figures
daily_figures = refl

run-unwatched_example :
    (rows : List Row) × (daily_aggregates engine
        (done (run (round ∷ round ∷ round ∷ []) initial).log)
        22
      ≡ done rows)
    × ((movie : String)
        → DayOf 22 (run (round ∷ round ∷ round ∷ []) initial).log movie rows
          × (total (λ (r : Row). r.movie_id) (λ r. r.total_watch_time) movie rows ≡ 0))
run-unwatched_example = run-unwatched (round ∷ round ∷ round ∷ []) engine engine-IsDocumented 22

-- The queries are answered, the writes count one row each, and nothing is exported.
abbrev parts : Parts
parts = record {
  daily_aggregates = λ d. daily_aggregates engine (done events) d;
  rowcount = λ d. done 1;
  export_parquet = λ rows d. done "";
}

abbrev stored : Aggregates
stored = (run_aggregation parts 20 1 empty_store).1.movie_aggregates

run_aggregation-IsStored_example :
    ((movie : String)
      → IsStored (20 - 1) movie events [] stored × IsStored 20 movie events [] stored)
    × ((day : ℕ) (movie : String)
        → day ≢ 20 - 1
        → day ≢ 20
        → lookup (day, movie) stored ≡ lookup {K = ℕ × String} {V = Row} (day, movie) [])
unfolding run_aggregation daily_aggregates string_eq sort_figures
run_aggregation-IsStored_example =
    run_aggregation-IsStored engine engine-IsDocumented parts events events 20 1 empty_store
      (omega arith) refl refl refl

top_movies-relabel_example :
    top_movies (some (engine, done events)) 5 30 20
    ≡ relabel 30 (top_movies (some (engine, done events)) 5 7 20)
top_movies-relabel_example = top_movies-relabel (some (engine, done events)) 5 7 30 20 refl refl

abbrev bucket : Bucket
bucket = record { name = "movie-analytics"; objects = [] }

post_export_parquet-Exports_example :
    Exports
      (some (engine, done events))
      (some (lost "timeout"))
      20
      bucket
      (post_export_parquet (some (engine, done events)) (some (lost "timeout")) (some 20) 21 bucket)
post_export_parquet-Exports_example =
    post_export_parquet-Exports (some (engine, done events)) (some (lost "timeout")) (some 20) 21
      bucket engine-IsDocumented

abbrev always_full : ℕ → Attempt
always_full _ = buffer_full

publish_event-Published_example :
    Published ""
      (watching "u1" "m1" view_started 19)
      []
      (some always_full)
      (publish_event (some always_full) "" (watching "u1" "m1" view_started 19) [])
publish_event-Published_example =
    publish_event-Published (some always_full) "" (watching "u1" "m1" view_started 19) []
