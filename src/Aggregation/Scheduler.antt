-- ===== src/Aggregation/Scheduler.antt =====
-- `AggregationScheduler.run_aggregation` of hm5/aggregation/app/scheduler.py over the tables of
-- hm5/aggregation/app/postgres_writer.py. What the queries, the writes and the exports come to, their
-- retries included, is a parameter; the writes of aggregation_runs go through.
use service_oriented_archite.Base.{
  ℕ, ◌+◌, ◌-◌, String, Option, none, some, List, [], ◌∷◌, ◌++◌, nat_eq, string_eq, pair_eq, ◌==◌,
  if◌then◌else◌,
}
use service_oriented_archite.Base.Table.{Table, lookup, insert}
use service_oriented_archite.Aggregation.Ranking.{Row, rank_rows, rank_in_place}

-- A row of aggregation_runs.
pub record Run : Type 0 where
  pub status : String
  pub rows_processed : ℕ
  pub error_message : Option String
  pub s3_path : Option (List String)

-- The tables movie_aggregates and aggregation_runs; the paths of a run are joined by commas there.
pub record Store : Type 0 where
  pub movie_aggregates : Table (ℕ × String) Row
  pub aggregation_runs : Table ℕ Run

-- A call returns, or an exception with a text leaves it.
pub data Answer (A : Type 0) : Type 0 where
  done : A → Answer A
  error : String → Answer A

-- The rows of a day, the row count of their write (which is atomic), and the path of their export.
pub record Parts : Type 0 where
  pub daily_aggregates : ℕ → Answer (List Row)
  pub rowcount : ℕ → Answer ℕ
  pub export_parquet : List Row → ℕ → Answer String

-- `INSERT ... ON CONFLICT (aggregation_date, movie_id) DO UPDATE`
unfoldable pub upsert_rows : List Row → Table (ℕ × String) Row → Table (ℕ × String) Row
upsert_rows [] t = t
upsert_rows (r ∷ rest) t = upsert_rows rest (insert (r.event_date, r.movie_id) r t)

-- `upsert_aggregates` of rows that are not empty.
unfoldable pub upsert_aggregates : List Row → Store → Store
unfolding upsert_rows rank_rows
upsert_aggregates rows s = record s {
  movie_aggregates = upsert_rows (rank_rows rows) s.movie_aggregates;
}

abbrev pub running : Run
running = record { status = "running"; rows_processed = 0; error_message = none; s3_path = none }

-- The database has chosen the id.
unfoldable pub start_run : ℕ → Store → Store
start_run id s = record s { aggregation_runs = insert id running s.aggregation_runs }

-- `UPDATE aggregation_runs ... WHERE id = %s`
unfoldable pub finish_run : ℕ → Run → Store → Store
finish_run id run s = elim (lookup id s.aggregation_runs) [
  | none ↦ s
  | some _ ↦ record s { aggregation_runs = insert id run s.aggregation_runs }
]

-- What the loop over the days has: the rows counted, and the paths.
pub record Progress : Type 0 where
  pub total_rows : ℕ
  pub s3_paths : List String

abbrev pub with_path : String → List String → List String
with_path path paths = if path == "" then paths else paths ++ path ∷ []

-- The export of rows that have been written.
unfoldable pub export_rows : Answer String → ℕ → Progress → Store → Answer Progress × Store
export_rows (error e) written p s = (error e, s)
export_rows (done path) written p s =
    (done (record { total_rows = p.total_rows + written; s3_paths = with_path path p.s3_paths }), s)

unfoldable pub write_rows :
    Parts → ℕ → List Row → Answer ℕ → Progress → Store → Answer Progress × Store
unfolding export_rows upsert_aggregates rank_in_place
write_rows parts d rows (error e) p s = (error e, s)
write_rows parts d rows (done written) p s =
    export_rows (parts.export_parquet (rank_in_place rows) d) written p (upsert_aggregates rows s)

unfoldable pub aggregate_rows :
    Parts → ℕ → Answer (List Row) → Progress → Store → Answer Progress × Store
unfolding write_rows
aggregate_rows parts d (error e) p s = (error e, s)
aggregate_rows parts d (done []) p s = (done p, s)
aggregate_rows parts d (done (r ∷ rest)) p s = write_rows parts d (r ∷ rest) (parts.rowcount d) p s

-- One day of the loop.
unfoldable pub aggregate_day : Parts → ℕ → Progress → Store → Answer Progress × Store
unfolding aggregate_rows
aggregate_day parts d p s = aggregate_rows parts d (parts.daily_aggregates d) p s

-- The days from the first on; an exception ends the loop.
unfoldable pub next_days :
    (Progress → Store → Answer Progress × Store) → Answer Progress × Store → Answer Progress × Store
next_days rest (error e, s) = (error e, s)
next_days rest (done p, s) = rest p s

-- `s3_paths` or None.
abbrev pub paths_or_none : List String → Option (List String)
paths_or_none [] = none
paths_or_none (p ∷ rest) = some (p ∷ rest)

-- What follows the loop: the run is finished, and a failure is raised again.
unfoldable pub conclude : ℕ → Answer Progress × Store → Answer (Unit {0}) × Store
unfolding finish_run
conclude id (done p, s) = (
  done tt,
  finish_run id
      (record {
        status = "success";
        rows_processed = p.total_rows;
        error_message = none;
        s3_path = paths_or_none p.s3_paths;
      })
      s,
)
conclude id (error e, s) = (
  error e,
  finish_run id
      (record { status = "failed"; rows_processed = 0; error_message = some e; s3_path = none }) s,
)

unfoldable pub run_aggregation : Parts → ℕ → ℕ → Store → Answer (Unit {0}) × Store
unfolding conclude next_days aggregate_day start_run
run_aggregation parts today id s = conclude id (
    next_days (aggregate_day parts today)
      (aggregate_day parts (today - 1) (record { total_rows = 0; s3_paths = [] }) (start_run id s)))
