-- ===== src/Aggregation/Stored.antt =====
-- What a run of hm5/aggregation/app/scheduler.py that succeeds leaves in movie_aggregates, from the
-- events that ClickHouse holds to the rows of PostgreSQL.
use service_oriented_archite.Base.{
  ℕ, ◌-◌, String, ◌≡◌, refl, ap, ◌∙◌, Option-cases, inl, inr, List, [], ◌∷◌, nat_eq, string_eq,
  pair_eq,
}
use service_oriented_archite.Base.Table.{lookup}
use service_oriented_archite.Aggregation.Ranking.{Row, rank_rows, rank_in_place}
use service_oriented_archite.Aggregation.Scheduler.{
  Run, Store, Answer, done, error, Parts, upsert_rows, upsert_aggregates, start_run, finish_run,
  Progress, export_rows, write_rows, aggregate_rows, aggregate_day, next_days, conclude,
  run_aggregation,
}
use service_oriented_archite.Aggregation.Upserts.{Aggregates}

-- If the days so far do not fail, the rows have been written to the table.
abbrev Wrote : List Row → Store → Answer Progress × Store → Type 0
Wrote rows s x =
    (p : Progress)
    → x.0 ≡ done p
    → x.1.movie_aggregates ≡ upsert_rows (rank_rows rows) s.movie_aggregates

module _ (parts : Parts) (d : ℕ) (p : Progress) (s : Store) where
  export_rows-keeps : (a : Answer String) (n : ℕ) → (export_rows a n p s).1 ≡ s
  unfolding export_rows
  export_rows-keeps (error e) n = refl
  export_rows-keeps (done path) n = refl

module _ (parts : Parts) (d : ℕ) (p : Progress) (s : Store) where
  write_rows-Wrote :
      (r : Row) (rest : List Row) (a : Answer ℕ)
      → Wrote (r ∷ rest) s (write_rows parts d (r ∷ rest) a p s)
  unfolding write_rows upsert_aggregates
  write_rows-Wrote r rest (error e) q h = cc
  write_rows-Wrote r rest (done n) q h =
      ap (λ (x : Store). x.movie_aggregates)
        (export_rows-keeps parts d p (upsert_aggregates (r ∷ rest) s)
          (parts.export_parquet (rank_in_place (r ∷ rest)) d) n)

  aggregate_rows-Wrote : (rows : List Row) → Wrote rows s (aggregate_rows parts d (done rows) p s)
  unfolding aggregate_rows rank_rows upsert_rows
  aggregate_rows-Wrote [] q h = refl
  aggregate_rows-Wrote (r ∷ rest) q h = write_rows-Wrote r rest (parts.rowcount d) q h

  aggregate_day-Wrote :
      (rows : List Row)
      → parts.daily_aggregates d ≡ done rows
      → Wrote rows s (aggregate_day parts d p s)
  unfolding aggregate_day
  aggregate_day-Wrote rows h = rw h (aggregate_rows-Wrote rows)

-- The second day, after the first.
next_days-Wrote :
    (parts : Parts) (d : ℕ) (s : Store) (first second : List Row) (x : Answer Progress × Store)
    → parts.daily_aggregates d ≡ done second
    → Wrote first s x
    → (p : Progress) → (next_days (aggregate_day parts d) x).0 ≡ done p
    → (next_days (aggregate_day parts d) x).1.movie_aggregates
      ≡ upsert_rows (rank_rows second) (upsert_rows (rank_rows first) s.movie_aggregates)
unfolding next_days
next_days-Wrote parts d s first second (error e, s') h w p k = cc
next_days-Wrote parts d s first second (done q, s') h w p k =
    aggregate_day-Wrote parts d q s' second h p k
    ∙ ap (λ (t : Aggregates). upsert_rows (rank_rows second) t) (w q refl)

finish_run-keeps :
    (id : ℕ) (run : Run) (s : Store) → (finish_run id run s).movie_aggregates ≡ s.movie_aggregates
unfolding finish_run
finish_run-keeps id run s = elim (Option-cases (lookup id s.aggregation_runs)) [
  | inl absent ↦ rw (absent, finish_run) refl
  | inr (old, found) ↦ rw (found, finish_run) refl
]

conclude-done :
    (id : ℕ) (x : Answer Progress × Store)
    → (conclude id x).0 ≡ done tt
    → (p : Progress) × (x.0 ≡ done p) × ((conclude id x).1.movie_aggregates ≡ x.1.movie_aggregates)
unfolding conclude
conclude-done id (done p, s) h = (p, refl, finish_run-keeps id _ s)
conclude-done id (error e, s) h = cc

-- The rows of both days have been written, those of yesterday first.
pub run_aggregation-wrote :
    (parts : Parts) (today id : ℕ) (s : Store) (first second : List Row)
    → parts.daily_aggregates (today - 1) ≡ done first
    → parts.daily_aggregates today ≡ done second
    → (run_aggregation parts today id s).0 ≡ done tt
    → (run_aggregation parts today id s).1.movie_aggregates
      ≡ upsert_rows (rank_rows second) (upsert_rows (rank_rows first) s.movie_aggregates)
unfolding run_aggregation start_run
run_aggregation-wrote parts today id s first second h k ends =
    let (p, through, kept) = conclude-done id _ ends in
    kept
    ∙ next_days-Wrote parts today (start_run id s) first second _ k
        (aggregate_day-Wrote parts (today - 1) (record { total_rows = 0; s3_paths = [] })
          (start_run id s) first h)
        p through
