-- ===== src/Aggregation/EndToEnd.antt =====
-- From the events that ClickHouse holds (hm5/aggregation/app/clickhouse_queries.py) to the rows of
-- PostgreSQL (postgres_writer.py), by a run of hm5/aggregation/app/scheduler.py.
use service_oriented_archite.Base.{
  ℕ, zero, suc, ◌-◌, ◌≤◌, String, ◌≡◌, ◌≢◌, refl, sym, ap, ◌∙◌, some, List, [], ◌∷◌, map, arith,
  nat_eq, string_eq, pair_eq, ◌⊎◌, inl, inr,
}
use service_oriented_archite.Base.Table.{lookup}
use service_oriented_archite.Movies.Events.{MovieEvent}
use service_oriented_archite.Aggregation.Ranking.{Row, rank_rows}
use service_oriented_archite.Aggregation.Scheduler.{
  Store, done, Parts, upsert_rows, run_aggregation,
}
use service_oriented_archite.Aggregation.Queries.{
  Engine, Figures, daily_row, daily_aggregates, figures,
}
use service_oriented_archite.Aggregation.Totals.{one_if}
use service_oriented_archite.Aggregation.Counts.{
  IsDocumented, on_day, views_on, progress, DayOf, day_rows, day_rows-DayOf,
}
use service_oriented_archite.Aggregation.Upserts.{
  Aggregates, AllOn, rank_rows-AllOn, total-rank_rows, Holds, upsert_rows-absent, upsert_rows-other,
  upsert_rows-found,
}
use service_oriented_archite.Aggregation.Stored.{run_aggregation-wrote}

-- Under the key of a day and a movie stands a row with its views and its watch time on that day; if it
-- has no views, there stands what stood there before.
abbrev pub IsStored : ℕ → String → List MovieEvent → Aggregates → Aggregates → Type 0
IsStored day movie events old new =
    (views_on day movie events ≡ 0) × (lookup (day, movie) new ≡ lookup (day, movie) old)
    ⊎ (r : Row) × (1 ≤ views_on day movie events)
      × (lookup (day, movie) new ≡ some r)
      × Holds day movie (views_on day movie events) (on_day progress day movie events) r

daily_row-AllOn : (day : ℕ) (fs : List Figures) → AllOn day (map (daily_row day) fs)
daily_row-AllOn day [] = tt
daily_row-AllOn day (f ∷ rest) = (refl, daily_row-AllOn day rest)

zero_or_more : (n : ℕ) → (n ≡ 0) ⊎ (one_if n ≡ 1) × (1 ≤ n)
zero_or_more zero = inl refl
zero_or_more (suc n) = inr (refl, omega arith)

-- A later table with the same entry, and an earlier one.
IsStored-kept :
    (day : ℕ) (movie : String) (events : List MovieEvent) (old new later : Aggregates)
    → lookup (day, movie) later ≡ lookup (day, movie) new
    → IsStored day movie events old new
    → IsStored day movie events old later
IsStored-kept day movie events old new later h (inl (nothing, same)) = inl (nothing, h ∙ same)
IsStored-kept day movie events old new later h (inr (r, more, found, holds)) =
    inr (r, more, h ∙ found, holds)

IsStored-since :
    (day : ℕ) (movie : String) (events : List MovieEvent) (older old new : Aggregates)
    → lookup (day, movie) old ≡ lookup (day, movie) older
    → IsStored day movie events old new
    → IsStored day movie events older new
IsStored-since day movie events older old new h (inl (nothing, same)) = inl (nothing, same ∙ h)
IsStored-since day movie events older old new h (inr (r, more, found, holds)) =
    inr (r, more, found, holds)

module _ (engine : Engine) (doc : IsDocumented engine) (day : ℕ) (events : List MovieEvent) where
  abbrev ranked : List Row
  ranked = rank_rows (day_rows engine events day)

  ranked-AllOn : AllOn day ranked
  ranked-AllOn =
      rank_rows-AllOn day (day_rows engine events day)
        (daily_row-AllOn day (figures engine day day events))

  upsert_rows-IsStored :
      (movie : String) (t : Aggregates) → IsStored day movie events t (upsert_rows ranked t)
  upsert_rows-IsStored movie t = elim (zero_or_more (views_on day movie events)) [
    | inl nothing ↦ inl (
      nothing,
      upsert_rows-absent day movie ranked t
          (total-rank_rows (λ v w. 1) movie _ ∙ of_day.count ∙ ap one_if nothing),
    )
    | inr (one, some_views) ↦
        let (r, found, holds) =
          upsert_rows-found day movie ranked t
            (total-rank_rows (λ v w. 1) movie _ ∙ of_day.count ∙ one) ranked-AllOn in
        inr (
          r,
          some_views,
          found,
          record {
            event_date = holds.event_date;
            movie_id = holds.movie_id;
            views_count = holds.views_count ∙ total-rank_rows (λ v w. v) movie _ ∙ of_day.views;
            total_watch_time =
                holds.total_watch_time ∙ total-rank_rows (λ v w. w) movie _ ∙ of_day.watched;
          },
        )
  ]
    where
      of_day : DayOf day events movie (day_rows engine events day)
      of_day = day_rows-DayOf engine doc events day movie

-- Let a run return, which took the rows of yesterday from the events `early` and those of today from the
-- events `late`, where ClickHouse sorts as SQL documents. Then movie_aggregates holds, for each of the
-- two days and every movie of which a view was started on it, a row with the number of these views and
-- the sum of their progress; no other entry has changed.
pub run_aggregation-IsStored :
    (engine : Engine)
    → IsDocumented engine
    → (parts : Parts) (early late : List MovieEvent) (today id : ℕ) (s : Store) → 1 ≤ today
    → parts.daily_aggregates (today - 1) ≡ daily_aggregates engine (done early) (today - 1)
    → parts.daily_aggregates today ≡ daily_aggregates engine (done late) today
    → (run_aggregation parts today id s).0 ≡ done tt
    → ((movie : String)
        → IsStored
            (today - 1)
            movie
            early
            s.movie_aggregates
            (run_aggregation parts today id s).1.movie_aggregates
          × IsStored today movie late s.movie_aggregates
              (run_aggregation parts today id s).1.movie_aggregates)
      × ((day : ℕ) (movie : String)
          → day ≢ today - 1
          → day ≢ today
          → lookup (day, movie) (run_aggregation parts today id s).1.movie_aggregates
            ≡ lookup (day, movie) s.movie_aggregates)
unfolding daily_aggregates
run_aggregation-IsStored engine doc parts early late today id s positive h k ends = rw wrote (
  λ movie. (
    IsStored-kept (today - 1) movie early s.movie_aggregates middle new
        (still (today - 1) movie (omega arith))
        (upsert_rows-IsStored engine doc (today - 1) early movie s.movie_aggregates),
    IsStored-since today movie late s.movie_aggregates middle new (before today movie (omega arith))
        (upsert_rows-IsStored engine doc today late movie middle),
  ),
  λ day movie differs differs'. still day movie differs' ∙ before day movie differs,
)
  where
    middle : Aggregates
    middle = upsert_rows (ranked engine doc (today - 1) early) s.movie_aggregates

    new : Aggregates
    new = upsert_rows (ranked engine doc today late) middle

    wrote : (run_aggregation parts today id s).1.movie_aggregates ≡ new
    wrote = run_aggregation-wrote parts today id s _ _ h k ends

    still :
        (day : ℕ) (movie : String)
        → day ≢ today
        → lookup (day, movie) new ≡ lookup (day, movie) middle
    still day movie differs =
        upsert_rows-other day movie today (ranked engine doc today late) middle
          (λ e. differs (sym e)) (ranked-AllOn engine doc today late)

    before :
        (day : ℕ) (movie : String)
        → day ≢ today - 1
        → lookup (day, movie) middle ≡ lookup (day, movie) s.movie_aggregates
    before day movie differs =
        upsert_rows-other day movie (today - 1) (ranked engine doc (today - 1) early)
          s.movie_aggregates (λ e. differs (sym e)) (ranked-AllOn engine doc (today - 1) early)
