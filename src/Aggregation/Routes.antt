-- ===== src/Aggregation/Routes.antt =====
-- The endpoints of hm5/aggregation/app/routes.py. A component that `set_dependencies` has not set is
-- `none`; a query parameter out of its bounds is refused by FastAPI with status 422.
use service_oriented_archite.Base.{
  ℕ, suc, Bool, false, ◌&&◌, String, Option, none, some, List, [], ◌∷◌, leb, if◌then◌else◌,
}
use service_oriented_archite.Python.Http.{Response, body, http_exception}
use service_oriented_archite.Movies.Events.{MovieEvent}
use service_oriented_archite.Aggregation.Ranking.{Row}
use service_oriented_archite.Aggregation.Scheduler.{
  Answer, done, error, Parts, Store, run_aggregation,
}
use service_oriented_archite.Aggregation.Queries.{
  Engine, Figures, top_movies_last_7_days, daily_aggregates,
}
use service_oriented_archite.Aggregation.Export.{Bucket, Upload, export_parquet}

-- `except Exception as e: raise HTTPException(status_code=500, detail=str(e))`
unfoldable pub or_500 : {A : Type 0} → Answer A → Response A
or_500 (done a) = body a
or_500 (error e) = http_exception 500 e

-- `x.ping() if x else False`
unfoldable pub check : Option Bool → Bool
check none = false
check (some up) = up

pub record Health : Type 0 where
  pub status : String
  pub clickhouse : Bool
  pub postgres : Bool
  pub s3 : Bool

unfoldable pub health : Option Bool → Option Bool → Option Bool → Health
unfolding check
health ch pg s3 = record {
  status = if check ch && (check pg && check s3) then "ok" else "degraded";
  clickhouse = check ch;
  postgres = check pg;
  s3 = check s3;
}

pub record TopMovies : Type 0 where
  pub period_days : ℕ
  pub as_of : ℕ
  pub movies : List Figures

abbrev pub top_body : ℕ → ℕ → Answer (List Figures) → Answer TopMovies
top_body days today (error e) = error e
top_body days today (done rows) = done (record { period_days = days; as_of = today; movies = rows })

-- `Query(ge=low, le=high)`
abbrev pub is_within : ℕ → ℕ → ℕ → Bool
is_within low high n = leb low n && leb n high

-- A ClickHouse client is the engine with what the table is read as.
abbrev pub Client : Type 0
Client = Engine × Answer (List MovieEvent)

unfoldable pub fetch_top_movies : Option Client → ℕ → ℕ → ℕ → Response TopMovies
unfolding or_500
fetch_top_movies none limit days today = http_exception 503 "ClickHouse not available"
fetch_top_movies (some (engine, table)) limit days today =
    or_500 (top_body days today (top_movies_last_7_days engine table limit today))

unfoldable pub top_movies : Option Client → ℕ → ℕ → ℕ → Response TopMovies
unfolding fetch_top_movies
top_movies ch limit days today =
    if is_within 1 100 limit && is_within 1 90 days
    then fetch_top_movies ch limit days today
    else http_exception 422 ""

-- `target_date or date.today()`
abbrev pub target_or_today : Option ℕ → ℕ → ℕ
target_or_today none today = today
target_or_today (some target) today = target

abbrev pub length : List Row → ℕ
length [] = 0
length (_ ∷ rest) = suc (length rest)

pub record Daily : Type 0 where
  pub date : ℕ
  pub count : ℕ
  pub aggregates : List Row

abbrev pub daily_body : ℕ → Answer (List Row) → Answer Daily
daily_body target (error e) = error e
daily_body target (done rows) =
    done (record { date = target; count = length rows; aggregates = rows })

unfoldable pub get_daily_aggregates : Option Client → Option ℕ → ℕ → Response Daily
unfolding or_500
get_daily_aggregates none target_date today = http_exception 503 "ClickHouse not available"
get_daily_aggregates (some (engine, table)) target_date today =
    let target : ℕ = target_or_today target_date today in
    or_500 (daily_body target (daily_aggregates engine table target))

abbrev pub respond : Answer (Unit {0}) × Store → Response String × Store
respond (done _, s) = (body "completed", s)
respond (error e, s) = (http_exception 500 e, s)

-- The scheduler is what the parts of a run come to.
unfoldable pub trigger_aggregation : Option Parts → ℕ → ℕ → Store → Response String × Store
trigger_aggregation none today id s = (http_exception 503 "Scheduler not available", s)
trigger_aggregation (some parts) today id s = respond (run_aggregation parts today id s)

pub record Exported : Type 0 where
  pub date : ℕ
  pub rows : ℕ
  pub s3_path : String

abbrev pub exported : ℕ → List Row → Answer String × Bucket → Response Exported × Bucket
exported target rows (error e, b) = (http_exception 500 e, b)
exported target rows (done path, b) =
    (body (record { date = target; rows = length rows; s3_path = path }), b)

abbrev pub export_answer : Upload → ℕ → Answer (List Row) → Bucket → Response Exported × Bucket
export_answer upload target (error e) b = (http_exception 500 e, b)
export_answer upload target (done rows) b =
    exported target rows (export_parquet upload rows target b)

-- The exporter, if there is one, is what its upload comes to.
unfoldable pub post_export_parquet :
    Option Client → Option Upload → Option ℕ → ℕ → Bucket → Response Exported × Bucket
unfolding export_parquet
post_export_parquet (some (engine, table)) (some upload) target_date today b =
    let target : ℕ = target_or_today target_date today in
    export_answer upload target (daily_aggregates engine table target) b
post_export_parquet _ _ target_date today b = (http_exception 503 "Services not available", b)
