-- ===== src/Aggregation/Counts.antt =====
-- What the rows of the queries of hm5/aggregation/app/clickhouse_queries.py count.
use mathlib.Core.Path.{fun_ext}
use mathlib.Core.List.{Permᴰ}
use service_oriented_archite.Base.{
  ℕ, zero, suc, ◌+◌, ◌≤◌, String, ◌≡◌, refl, ap, ◌∙◌, ◌&&◌, List, [], ◌∷◌, map, arith, eqb,
  string_eq, ◌==◌, if◌then◌else◌,
}
use service_oriented_archite.Movies.Events.{MovieEvent}
use service_oriented_archite.Aggregation.Ranking.{Row}
use service_oriented_archite.Aggregation.Scheduler.{done}
use service_oriented_archite.Aggregation.Queries.{
  Figures, Engine, event_date, is_started, selected, group_by_movie, count, sum_progress,
  figures_of, figures, daily_row, daily_aggregates,
}
use service_oriented_archite.Aggregation.Totals.{
  total, total-perm, sum_of, movie_of, total_groups, total_groups-group_by_movie, one_if, one,
  groups_of-group_by_movie,
}

-- Later rows have no more views.
abbrev pub NoMore : ℕ → List Figures → Type 0
NoMore views [] = Unit
NoMore views (f ∷ rest) = (f.views_count ≤ views) × NoMore views rest

abbrev pub Descending : List Figures → Type 0
Descending [] = Unit
Descending (f ∷ rest) = NoMore f.views_count rest × Descending rest

-- What SQL documents of ORDER BY ... DESC.
pub record IsDocumented (engine : Engine) : Type 0 where
  pub same_rows : (rows : List Figures) → Permᴰ (engine.order_by_views rows) rows
  pub descending : (rows : List Figures) → Descending (engine.order_by_views rows)

-- The weights of the views of a movie that are started on a day, summed.
abbrev pub on_day : (MovieEvent → ℕ) → ℕ → String → List MovieEvent → ℕ
on_day weight day movie [] = 0
on_day weight day movie (e ∷ rest) =
    (if is_started e.event_type && (eqb (event_date e) day && e.movie_id == movie)
      then weight e
      else 0)
    + on_day weight day movie rest

abbrev pub views_on : ℕ → String → List MovieEvent → ℕ
views_on = on_day one

abbrev pub progress : MovieEvent → ℕ
progress e = e.progress_seconds

-- The sum of the days from `start` to `start + more`.
abbrev pub over_days : (MovieEvent → ℕ) → ℕ → ℕ → String → List MovieEvent → ℕ
over_days weight start zero movie events = on_day weight start movie events
over_days weight start (suc more) movie events =
    over_days weight start more movie events + on_day weight (start + suc more) movie events

module _ (weight : MovieEvent → ℕ) (movie : String) where
  selected-on_day :
      (day : ℕ) (events : List MovieEvent)
      → total movie_of weight movie (selected day day events) ≡ on_day weight day movie events
  unfolding selected
  selected-on_day day [] = refl
  selected-on_day day (e ∷ rest) = ground (arith, selected-on_day day rest)

  -- One more day.
  selected_more :
      (start stop : ℕ) (events : List MovieEvent)
      → start ≤ suc stop
      → total movie_of weight movie (selected start (suc stop) events)
        ≡ total movie_of weight movie (selected start stop events)
          + on_day weight (suc stop) movie events
  unfolding selected
  selected_more start stop [] h = refl
  selected_more start stop (e ∷ rest) h = ground (arith, selected_more start stop rest h)

  pub selected-over_days :
      (start more : ℕ) (events : List MovieEvent)
      → total movie_of weight movie (selected start (start + more) events)
        ≡ over_days weight start more movie events
  selected-over_days start zero events =
      let e : start + 0 ≡ start = omega arith in rw e (selected-on_day start events)
  selected-over_days start (suc more) events =
      let e : start + suc more ≡ suc (start + more) = omega arith in
      rw e (
        selected_more start (start + more) events (omega arith)
        ∙ ap (λ (n : ℕ). n + on_day weight (suc (start + more)) movie events)
            (selected-over_days start more events))

module _ {A B : Type 0} (key : B → String) (weight : B → ℕ) (movie : String) (f : A → B) where
  pub total-map :
      (xs : List A)
      → total key weight movie (map f xs) ≡ total (λ x. key (f x)) (λ x. weight (f x)) movie xs
  total-map [] = refl
  total-map (x ∷ xs) = omega (arith, total-map xs)

count-sum : (events : List MovieEvent) → count events ≡ sum_of one events
count-sum [] = refl
count-sum (e ∷ rest) = omega (arith, count-sum rest)

sum_progress-sum : (events : List MovieEvent) → sum_progress events ≡ sum_of progress events
sum_progress-sum [] = refl
sum_progress-sum (e ∷ rest) = ap (λ (n : ℕ). e.progress_seconds + n) (sum_progress-sum rest)

abbrev pub movie_of_figures : Figures → String
movie_of_figures f = f.movie_id

-- The rows of a movie.
abbrev pub rows_of_movie : String → List Figures → ℕ
rows_of_movie = total movie_of_figures (λ f. 1)

abbrev pub views_of : String → List Figures → ℕ
views_of = total movie_of_figures (λ f. f.views_count)

abbrev pub watched_of : String → List Figures → ℕ
watched_of = total movie_of_figures (λ f. f.total_watch_time)

module _ (engine : Engine) (doc : IsDocumented engine) (start stop : ℕ) (events : List MovieEvent)
    (movie : String) where
  abbrev grouped : List (String × List MovieEvent)
  grouped = group_by_movie (selected start stop events)

  pub views_of-figures :
      views_of movie (figures engine start stop events)
      ≡ total movie_of one movie (selected start stop events)
  unfolding figures
  views_of-figures =
      total-perm movie_of_figures (λ f. f.views_count) movie (doc.same_rows _)
      ∙ total-map movie_of_figures (λ f. f.views_count) movie (figures_of engine) grouped
      ∙ ap (λ (w : List MovieEvent → ℕ). total_groups w movie grouped) (fun_ext count-sum)
      ∙ total_groups-group_by_movie one movie (selected start stop events)

  pub watched_of-figures :
      watched_of movie (figures engine start stop events)
      ≡ total movie_of progress movie (selected start stop events)
  unfolding figures
  watched_of-figures =
      total-perm movie_of_figures (λ f. f.total_watch_time) movie (doc.same_rows _)
      ∙ total-map movie_of_figures (λ f. f.total_watch_time) movie (figures_of engine) grouped
      ∙ ap (λ (w : List MovieEvent → ℕ). total_groups w movie grouped) (fun_ext sum_progress-sum)
      ∙ total_groups-group_by_movie progress movie (selected start stop events)

  pub rows_of_movie-figures :
      rows_of_movie movie (figures engine start stop events)
      ≡ one_if (total movie_of one movie (selected start stop events))
  unfolding figures
  rows_of_movie-figures =
      total-perm movie_of_figures (λ f. 1) movie (doc.same_rows _)
      ∙ total-map movie_of_figures (λ f. 1) movie (figures_of engine) grouped
      ∙ groups_of-group_by_movie movie (selected start stop events)

-- The rows of a day for one movie: as many as there are, and the figures that they hold.
pub record DayOf (day : ℕ) (events : List MovieEvent) (movie : String) (rows : List Row)
    : Type 0 where
  pub count :
      total (λ (r : Row). r.movie_id) (λ r. 1) movie rows ≡ one_if (views_on day movie events)
  pub views :
      total (λ (r : Row). r.movie_id) (λ r. r.views_count) movie rows ≡ views_on day movie events
  pub watched :
      total (λ (r : Row). r.movie_id) (λ r. r.total_watch_time) movie rows
      ≡ on_day progress day movie events

abbrev pub day_rows : Engine → List MovieEvent → ℕ → List Row
day_rows engine events day = map (daily_row day) (figures engine day day events)

pub day_rows-DayOf :
    (engine : Engine)
    → IsDocumented engine
    → (events : List MovieEvent) (day : ℕ) (movie : String)
    → DayOf day events movie (day_rows engine events day)
day_rows-DayOf engine doc events day movie = record {
  count =
      total-map _ _ movie (daily_row day) (figures engine day day events)
      ∙ rows_of_movie-figures engine doc day day events movie
      ∙ ap one_if (selected-on_day one movie day events);
  views =
      total-map _ _ movie (daily_row day) (figures engine day day events)
      ∙ views_of-figures engine doc day day events movie
      ∙ selected-on_day one movie day events;
  watched =
      total-map _ _ movie (daily_row day) (figures engine day day events)
      ∙ watched_of-figures engine doc day day events movie
      ∙ selected-on_day progress movie day events;
}

-- When ClickHouse answers, and sorts the rows of a query as SQL documents, the rows of a day have exactly
-- one row for each movie of which a view was started on that day, and none for any other; it counts
-- these views and sums their progress.
pub daily_aggregates-DayOf :
    (engine : Engine)
    → IsDocumented engine
    → (events : List MovieEvent) (day : ℕ)
    → (rows : List Row) × (daily_aggregates engine (done events) day ≡ done rows)
      × ((movie : String) → DayOf day events movie rows)
unfolding daily_aggregates
daily_aggregates-DayOf engine doc events day =
    (day_rows engine events day, refl, day_rows-DayOf engine doc events day)
