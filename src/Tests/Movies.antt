-- ===== src/Tests/Movies.antt =====
-- A person who watches a movie, a message that is retried, and a ranking.
use service_oriented_archite.Base.{
  ℕ, zero, suc, ◌≤◌, String, ◌≡◌, refl, arith, List, [], ◌∷◌, string_eq, ltb, ◌⊎◌, ◌-◌,
  if◌then◌else◌,
}
use mathlib.Core.List.{Permᴰ}
use service_oriented_archite.Movies.Events.{tv}
use service_oriented_archite.Movies.Producer.{
  Attempt, accepted, buffer_full, dropped, send, send_from,
}
use service_oriented_archite.Movies.Retries.{Ends, send-Ends}
use service_oriented_archite.Movies.Generator.{Draw, initial, run}
use service_oriented_archite.Movies.Follows.{Follows}
use service_oriented_archite.Movies.Protocol.{IsSmooth, initial-Follows, run-Follows}
use service_oriented_archite.Aggregation.Ranking.{
  Row, rank_rows, sort_rows, insert_row, leb_row, leb_text, enumerate, rank_in_place,
}
use service_oriented_archite.Aggregation.Scheduler.{Parts, Store, done, error, run_aggregation}
use service_oriented_archite.Aggregation.Runs.{
  BothComplete, EitherFails, Succeeded, Failed, run_aggregation-ends,
}
use service_oriented_archite.Aggregation.Order.{Sorted, NumberedFrom, rank_rows-Ranked}

-- The first attempt finds the buffer full, the second is taken.
abbrev second_try : ℕ → Attempt
second_try zero = buffer_full
second_try (suc _) = accepted

abbrev never : ℕ → Attempt
never _ = buffer_full

send-Ends_example : Ends second_try 0 2 (send second_try).how × ((send second_try).slept ≤ 3500)
send-Ends_example = send-Ends second_try

-- A message for which the buffer stays full is dropped without an exception.
send-never : ((send never).how ≡ dropped) × ((send never).slept ≡ 3500)
unfolding send send_from
send-never = (refl, refl)

abbrev pub round : Draw
round = record {
  user_id = "user_0001";
  rand = 0;
  event_id = "e";
  session_id = "s";
  movie_id = "movie_0007";
  device = tv;
  now = 2000000;
  day_offset = 1;
  hours = 2;
  minutes = 3;
  steps = 1;
  seconds_later = 40;
  watched = 50;
  produce = second_try;
}

round-IsSmooth : IsSmooth round
unfolding send send_from
round-IsSmooth = record { taken = refl; later = omega arith; watched = omega arith }

-- A start, a pause, and the end of the view, which has not been resumed.
run-Follows_example : Follows (run (round ∷ round ∷ round ∷ []) initial)
run-Follows_example =
    run-Follows (round ∷ round ∷ round ∷ []) initial
      (round-IsSmooth, (round-IsSmooth, (round-IsSmooth, tt))) initial-Follows

abbrev figures : String → ℕ → Row
figures movie views = record {
  event_date = 1;
  movie_id = movie;
  views_count = views;
  unique_users = 1;
  total_watch_time = 0;
  rank_position = 0;
}

abbrev day : List Row
day = figures "b" 3 ∷ figures "c" 9 ∷ figures "a" 3 ∷ []

rank_rows_example :
    (sorted : List Row) × Permᴰ sorted day × Sorted sorted × NumberedFrom 1 sorted (rank_rows day)
rank_rows_example = rank_rows-Ranked day

ranked_day :
    rank_rows day
    ≡ record (figures "c" 9) { rank_position = 1 }
      ∷ record (figures "a" 3) { rank_position = 2 }
      ∷ record (figures "b" 3) { rank_position = 3 }
      ∷ []
unfolding rank_rows sort_rows insert_row leb_row leb_text enumerate
ranked_day = refl

-- In the order of the query, after the loop.
ranked_dicts :
    rank_in_place day
    ≡ record (figures "b" 3) { rank_position = 3 }
      ∷ record (figures "c" 9) { rank_position = 1 }
      ∷ record (figures "a" 3) { rank_position = 2 }
      ∷ []
unfolding rank_in_place insert_row leb_row leb_text
ranked_dicts = refl

-- Yesterday has the three movies; today the query fails.
abbrev half_a_run : Parts
half_a_run = record {
  daily_aggregates = λ d. if ltb d 5 then done day else error "timeout";
  rowcount = λ d. done 3;
  export_parquet = λ rows d. done "s3://movies";
}

abbrev pub empty_store : Store
empty_store = record { movie_aggregates = []; aggregation_runs = [] }

run_aggregation_example :
    Succeeded (BothComplete half_a_run (5 - 1) 5) 1 (run_aggregation half_a_run 5 1 empty_store)
    ⊎ Failed (EitherFails half_a_run (5 - 1) 5) 1 (run_aggregation half_a_run 5 1 empty_store)
run_aggregation_example = run_aggregation-ends half_a_run 5 1 empty_store
