-- ===== src/Aggregation/Runs.antt =====
-- How a run of hm5/aggregation/app/scheduler.py ends, and what it leaves in movie_aggregates.
use service_oriented_archite.Base.{
  ℕ, ◌+◌, ◌-◌, String, ◌≡◌, refl, ap, subst, ◌∙◌, some, List, [], ◌∷◌, ◌⊎◌, inl, inr, arith, nat_eq,
  string_eq, pair_eq,
}
use service_oriented_archite.Base.Table.{lookup, lookup-insert}
use service_oriented_archite.Aggregation.Ranking.{Row, rank_in_place}
use service_oriented_archite.Aggregation.Scheduler.{
  Run, Store, Answer, done, error, Parts, upsert_aggregates, running, start_run, finish_run,
  Progress, export_rows, write_rows, aggregate_rows, aggregate_day, next_days, conclude,
  run_aggregation,
}

-- The parts of a day that go through: no rows, or rows that are written and then exported, with the
-- number that their write counts.
pub data Completes (parts : Parts) (d : ℕ) : ℕ → Type 0 where
  empty : parts.daily_aggregates d ≡ done [] → Completes parts d 0
  written :
      (r : Row) (rest : List Row) (n : ℕ) (path : String)
      → parts.daily_aggregates d ≡ done (r ∷ rest)
      → parts.rowcount d ≡ done n
      → parts.export_parquet (rank_in_place (r ∷ rest)) d ≡ done path
      → Completes parts d n

-- The first part of a day that does not go through, with its text.
pub data FailsOn (parts : Parts) (d : ℕ) (e : String) : Type 0 where
  query : parts.daily_aggregates d ≡ error e → FailsOn parts d e
  write :
      (r : Row) (rest : List Row)
      → parts.daily_aggregates d ≡ done (r ∷ rest)
      → parts.rowcount d ≡ error e
      → FailsOn parts d e
  export :
      (r : Row) (rest : List Row) (n : ℕ)
      → parts.daily_aggregates d ≡ done (r ∷ rest)
      → parts.rowcount d ≡ done n
      → parts.export_parquet (rank_in_place (r ∷ rest)) d ≡ error e
      → FailsOn parts d e

-- Days leave the runs as they are; they go through with a number of rows, or a part is to blame.
record Ends (Through : ℕ → Type 0) (Blame : String → Type 0) (before : ℕ) (s : Store)
    (x : Answer Progress × Store) : Type 0 where
  runs : x.1.aggregation_runs ≡ s.aggregation_runs
  through : (p : Progress) → x.0 ≡ done p → (n : ℕ) × Through n × (p.total_rows ≡ before + n)
  blamed : (e : String) → x.0 ≡ error e → Blame e

Ends-error :
    {Through : ℕ → Type 0} {Blame : String → Type 0} (before : ℕ) (s : Store) (e : String)
    → Blame e
    → Ends Through Blame before s (error e, s)
Ends-error {Through} {Blame} before s e b = record {
  runs = refl;
  through = λ p h. cc;
  blamed = λ e' h. subst Blame (cc h) b;
}

Ends-done :
    {Through : ℕ → Type 0} {Blame : String → Type 0} (before n : ℕ) (s : Store) (p : Progress)
    → Through n
    → p.total_rows ≡ before + n
    → Ends Through Blame before s (done p, s)
Ends-done {Through} {Blame} before n s p h k = record {
  runs = refl;
  through = λ q e. (n, h, (total q e ∙ k));
  blamed = λ e h. cc;
}
  where
    total : (q : Progress) → done p ≡ done q → q.total_rows ≡ p.total_rows
    total q e = cc

module _ (parts : Parts) (d : ℕ) (p : Progress) (s : Store) where
  write_rows-Ends :
      (r : Row) (rest : List Row)
      → parts.daily_aggregates d ≡ done (r ∷ rest)
      → (a : Answer ℕ) → parts.rowcount d ≡ a
      → Ends
          (Completes parts d)
          (FailsOn parts d)
          p.total_rows
          s
          (write_rows parts d (r ∷ rest) a p s)
  unfolding write_rows export_rows upsert_aggregates
  write_rows-Ends r rest q (error e) h = Ends-error p.total_rows s e (write r rest q h)
  write_rows-Ends r rest q (done n) h =
      let stored : Store = upsert_aggregates (r ∷ rest) s in
      let c : Ends (Completes parts d) (FailsOn parts d) p.total_rows stored _ =
        exported stored (parts.export_parquet (rank_in_place (r ∷ rest)) d) refl in
      record { runs = c.runs ∙ same_runs; through = c.through; blamed = c.blamed }
    where
      same_runs : (upsert_aggregates (r ∷ rest) s).aggregation_runs ≡ s.aggregation_runs
      same_runs = refl

      exported :
          (stored : Store) (a : Answer String)
          → parts.export_parquet (rank_in_place (r ∷ rest)) d ≡ a
          → Ends
              (Completes parts d)
              (FailsOn parts d)
              p.total_rows
              stored
              (export_rows a n p stored)
      exported stored (error e) k = Ends-error p.total_rows stored e (export r rest n q h k)
      exported stored (done path) k =
          Ends-done p.total_rows n stored _ (written r rest n path q h k) refl

  aggregate_rows-Ends :
      (a : Answer (List Row))
      → parts.daily_aggregates d ≡ a
      → Ends (Completes parts d) (FailsOn parts d) p.total_rows s (aggregate_rows parts d a p s)
  unfolding aggregate_rows
  aggregate_rows-Ends (error e) h = Ends-error p.total_rows s e (query h)
  aggregate_rows-Ends (done []) h = Ends-done p.total_rows 0 s p (empty h) (omega arith)
  aggregate_rows-Ends (done (r ∷ rest)) h = write_rows-Ends r rest h (parts.rowcount d) refl

-- Both days go through, with the sum of their rows.
abbrev pub BothComplete : Parts → ℕ → ℕ → ℕ → Type 0
BothComplete parts first second total =
    (n : ℕ) × (m : ℕ) × Completes parts first n × Completes parts second m × (total ≡ n + m)

-- The first day fails, or it goes through and the second one fails.
abbrev pub EitherFails : Parts → ℕ → ℕ → String → Type 0
EitherFails parts first second e =
    FailsOn parts first e ⊎ ((n : ℕ) × Completes parts first n × FailsOn parts second e)

next_days-Ends :
    (parts : Parts) (first second before : ℕ) (s : Store) (x : Answer Progress × Store)
    → Ends (Completes parts first) (FailsOn parts first) before s x
    → Ends
        (BothComplete parts first second)
        (EitherFails parts first second)
        before
        s
        (next_days (aggregate_day parts second) x)
unfolding next_days aggregate_day
next_days-Ends parts first second before s (error e, s') c = record {
  runs = c.runs;
  through = λ p h. cc;
  blamed = λ e' h. inl (c.blamed e' h);
}
next_days-Ends parts first second before s (done p, s') c =
    let c' : Ends (Completes parts second) (FailsOn parts second) p.total_rows s' _ =
      aggregate_rows-Ends parts second p s' (parts.daily_aggregates second) refl in
    let (n, through, counted) = c.through p refl in
    record {
      runs = c'.runs ∙ c.runs;
      through = λ q h.
          let (m, through', counted') = c'.through q h in
          (n + m, (n, m, through, through', refl), omega (arith, counted, counted'));
      blamed = λ e h. inr (n, through, c'.blamed e h);
    }

-- How a run has ended.
pub record Succeeded (Through : ℕ → Type 0) (id : ℕ) (x : Answer (Unit {0}) × Store) : Type 0 where
  pub run : Run
  pub found : lookup id x.1.aggregation_runs ≡ some run
  pub status : run.status ≡ "success"
  pub through : Through run.rows_processed
  pub answer : x.0 ≡ done tt

pub record Failed (Blame : String → Type 0) (id : ℕ) (x : Answer (Unit {0}) × Store) : Type 0 where
  pub run : Run
  pub message : String
  pub found : lookup id x.1.aggregation_runs ≡ some run
  pub status : run.status ≡ "failed"
  pub text : run.error_message ≡ some message
  pub answer : x.0 ≡ error message
  pub cause : Blame message

finish_run-found :
    (id : ℕ) (run old : Run) (s : Store)
    → lookup id s.aggregation_runs ≡ some old
    → lookup id (finish_run id run s).aggregation_runs ≡ some run
unfolding finish_run
finish_run-found id run old s h =
    rw (finish_run, h) (lookup-insert id id run s.aggregation_runs ∙ ground arith)

conclude-ends :
    (Through : ℕ → Type 0) (Blame : String → Type 0) (id : ℕ) (s : Store) (old : Run)
    (x : Answer Progress × Store)
    → lookup id s.aggregation_runs ≡ some old
    → Ends Through Blame 0 s x
    → Succeeded Through id (conclude id x) ⊎ Failed Blame id (conclude id x)
unfolding conclude
conclude-ends Through Blame id s old (done p, s') h c =
    let (n, through, counted) = c.through p refl in
    let same : n ≡ p.total_rows = omega (arith, counted) in
    inl record {
      run = _;
      found = finish_run-found id _ old s' (ap (λ runs. lookup id runs) c.runs ∙ h);
      status = refl;
      through = subst Through same through;
      answer = refl;
    }
conclude-ends Through Blame id s old (error e, s') h c = inr record {
  run = _;
  message = e;
  found = finish_run-found id _ old s' (ap (λ runs. lookup id runs) c.runs ∙ h);
  status = refl;
  text = refl;
  answer = refl;
  cause = c.blamed e refl;
}

start_run-found : (id : ℕ) (s : Store) → lookup id (start_run id s).aggregation_runs ≡ some running
unfolding start_run
start_run-found id s = lookup-insert id id running s.aggregation_runs ∙ ground arith

-- A run ends in one of two ways. Both days go through, each with no rows or with rows that are written
-- and then exported; then the run is recorded as a success with the rows of both together, and returns.
-- Or a part of the first day fails, or the first day goes through and a part of the second fails; then
-- the run is recorded as failed with the text of the exception that leaves it.
pub run_aggregation-ends :
    (parts : Parts) (today id : ℕ) (s : Store)
    → Succeeded (BothComplete parts (today - 1) today) id (run_aggregation parts today id s)
      ⊎ Failed (EitherFails parts (today - 1) today) id (run_aggregation parts today id s)
unfolding run_aggregation aggregate_day
run_aggregation-ends parts today id s =
    conclude-ends (BothComplete parts (today - 1) today) (EitherFails parts (today - 1) today) id
      (start_run id s) running _ (start_run-found id s)
      (next_days-Ends parts (today - 1) today 0 (start_run id s) _ (
        aggregate_rows-Ends parts (today - 1) (record { total_rows = 0; s3_paths = [] })
          (start_run id s) (parts.daily_aggregates (today - 1)) refl))
