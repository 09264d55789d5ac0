-- ===== src/Aggregation/Answers.antt =====
-- What the endpoints of hm5/aggregation/app/routes.py answer, and what an export leaves in the bucket.
use service_oriented_archite.Base.{
  ℕ, true, String, ◌≡◌, ◌≢◌, refl, ◌∙◌, Option, none, some, List, [], ◌∷◌, arith, string_eq,
  Bool-cases, ◌⊎◌, inl, inr, equal_or_not,
}
use service_oriented_archite.Base.Table.{lookup, lookup-insert}
use service_oriented_archite.Python.Http.{Response, body, http_exception}
use service_oriented_archite.Movies.Events.{MovieEvent}
use service_oriented_archite.Aggregation.Ranking.{Row}
use service_oriented_archite.Aggregation.Scheduler.{Answer, done, error}
use service_oriented_archite.Aggregation.Queries.{
  Engine, Figures, top_movies_last_7_days, daily_aggregates,
}
use service_oriented_archite.Aggregation.Counts.{IsDocumented, DayOf, day_rows, day_rows-DayOf}
use service_oriented_archite.Aggregation.Export.{
  Bucket, Upload, answered, refused, lost, with_object, object_key, s3_path, put_object,
  export_parquet,
}
use service_oriented_archite.Aggregation.Routes.{
  or_500, TopMovies, top_body, Client, fetch_top_movies, top_movies, is_within, target_or_today,
  length, Exported, exported, export_answer, post_export_parquet,
}

-- A response with another number of days in it.
abbrev pub relabel : ℕ → Response TopMovies → Response TopMovies
relabel days (http_exception status detail) = http_exception status detail
relabel days (body b) = body (record b { period_days = days })

or_500-relabel :
    (days days' today : ℕ) (a : Answer (List Figures))
    → or_500 (top_body days' today a) ≡ relabel days' (or_500 (top_body days today a))
unfolding or_500
or_500-relabel days days' today (error e) = refl
or_500-relabel days days' today (done rows) = refl

fetch-relabel :
    (ch : Option Client) (limit days days' today : ℕ)
    → fetch_top_movies ch limit days' today ≡ relabel days' (fetch_top_movies ch limit days today)
unfolding fetch_top_movies
fetch-relabel none limit days days' today = refl
fetch-relabel (some (engine, table)) limit days days' today =
    or_500-relabel days days' today (top_movies_last_7_days engine table limit today)

-- Two requests for the top movies whose `days` are both within their bounds get the same answer, but for
-- the number of days that it reports: whatever was asked for, the movies are those of one period.
pub top_movies-relabel :
    (ch : Option Client) (limit days days' today : ℕ)
    → is_within 1 90 days ≡ true
    → is_within 1 90 days' ≡ true
    → top_movies ch limit days' today ≡ relabel days' (top_movies ch limit days today)
unfolding top_movies
top_movies-relabel ch limit days days' today h k = elim (Bool-cases (is_within 1 100 limit)) [
  | inl within ↦ rw (within, h, k) (fetch-relabel ch limit days days' today)
  | inr outside ↦ rw outside refl
]

abbrev pub ClientIsDocumented : Option Client → Type 0
ClientIsDocumented none = Unit
ClientIsDocumented (some (engine, _)) = IsDocumented engine

-- The rows have one row, of its day, for each movie that the client has views of.
abbrev pub RowsOf : Option Client → ℕ → List Row → Type 0
RowsOf ch target rows =
    (engine : Engine) × (events : List MovieEvent) × (ch ≡ some (engine, done events))
    × ((movie : String) → DayOf target events movie rows)

-- The bucket holds the rows as the object of the day, and every other object as before.
pub record Holds (target : ℕ) (rows : List Row) (b b' : Bucket) : Type 0 where
  pub object : lookup (object_key target) b'.objects ≡ some rows
  pub others :
      (key : String) → key ≢ object_key target → lookup key b'.objects ≡ lookup key b.objects

-- What an export answers and leaves in the bucket.
pub data Exports (ch : Option Client) (s3 : Option Upload) (target : ℕ) (b : Bucket)
    : Response Exported × Bucket → Type 0 where
  unavailable :
      (ch ≡ none) ⊎ (s3 ≡ none)
      → Exports ch s3 target b (http_exception 503 "Services not available", b)
  query_failed :
      (engine : Engine) (e : String)
      → ch ≡ some (engine, error e)
      → Exports ch s3 target b (http_exception 500 e, b)
  nothing :
      RowsOf ch target []
      → Exports ch s3 target b (body (record { date = target; rows = 0; s3_path = "" }), b)
  not_uploaded :
      (r : Row) (rest : List Row) (e : String) (b' : Bucket)
      → RowsOf ch target (r ∷ rest)
      → ((s3 ≡ some (refused e)) × (b' ≡ b)) ⊎ ((s3 ≡ some (lost e)) × Holds target (r ∷ rest) b b')
      → Exports ch s3 target b (http_exception 500 e, b')
  uploaded :
      (r : Row) (rest : List Row) (path : String) (b' : Bucket)
      → s3 ≡ some answered
      → RowsOf ch target (r ∷ rest)
      → path ≡ s3_path b.name (object_key target)
      → Holds target (r ∷ rest) b b'
      → Exports ch s3 target b
          (body (record { date = target; rows = length (r ∷ rest); s3_path = path }), b')

with_object-Holds :
    (target : ℕ) (rows : List Row) (b : Bucket)
    → Holds target rows b (with_object (object_key target) rows b)
with_object-Holds target rows b = record {
  object = lookup-insert (object_key target) (object_key target) rows b.objects ∙ ground arith;
  others = λ key differs.
      lookup-insert key (object_key target) rows b.objects
      ∙ (elim (equal_or_not {A = String} key (object_key target)) [
        | inl (same, eq) ↦ absurd (differs eq)
        | inr differ ↦ rw differ refl
      ]);
}

module _ (ch : Option Client) (s3 : Option Upload) (target : ℕ) (b : Bucket) where
  put_object-Exports :
      (r : Row) (rest : List Row) (a : Upload)
      → s3 ≡ some a
      → RowsOf ch target (r ∷ rest)
      → Exports ch s3 target b
          (exported target (r ∷ rest) (put_object a (object_key target) (r ∷ rest) b))
  unfolding put_object
  put_object-Exports r rest answered h of_day =
      uploaded r rest _ _ h of_day refl (with_object-Holds target (r ∷ rest) b)
  put_object-Exports r rest (refused e) h of_day = not_uploaded r rest e b of_day (inl (h, refl))
  put_object-Exports r rest (lost e) h of_day =
      not_uploaded r rest e _ of_day (inr (h, with_object-Holds target (r ∷ rest) b))

  export_answer-Exports :
      (rows : List Row) (a : Upload)
      → s3 ≡ some a
      → RowsOf ch target rows
      → Exports ch s3 target b (export_answer a target (done rows) b)
  unfolding export_parquet
  export_answer-Exports [] a h of_day = nothing of_day
  export_answer-Exports (r ∷ rest) a h of_day = put_object-Exports r rest a h of_day

-- A request to export a day, where ClickHouse sorts as SQL documents, ends in one of five ways: status
-- 503, when a service is not there, the bucket as it was; status 500 with the text of the query that
-- failed, the bucket as it was; a count of 0 and no path, the bucket as it was, when no view was started
-- on the day; otherwise status 500 with the text of the upload that failed, the bucket as it was or, where only
-- the answer was lost, with the rows as the object of the day; or the number of the rows and the path of
-- the day's object, which holds them. No other object changes. The rows are one for each movie of which a
-- view was started on the day, with its figures.
pub post_export_parquet-Exports :
    (ch : Option Client) (s3 : Option Upload) (target_date : Option ℕ) (today : ℕ) (b : Bucket)
    → ClientIsDocumented ch
    → Exports ch s3
        (target_or_today target_date today)
        b
        (post_export_parquet ch s3 target_date today b)
unfolding post_export_parquet daily_aggregates
post_export_parquet-Exports none s3 target_date today b doc = unavailable (inl refl)
post_export_parquet-Exports (some (engine, table)) none target_date today b doc =
    unavailable (inr refl)
post_export_parquet-Exports (some (engine, error e)) (some a) target_date today b doc =
    query_failed engine e refl
post_export_parquet-Exports (some (engine, done events)) (some a) target_date today b doc =
    let target = target_or_today target_date today in
    export_answer-Exports (some (engine, done events)) (some a) target b
      (day_rows engine events target) a refl
      (engine, events, refl, day_rows-DayOf engine doc events target)
