-- ===== src/Aggregation/Top.antt =====
-- The list of `top_movies_last_7_days` of hm5/aggregation/app/clickhouse_queries.py, and its LIMIT.
use service_oriented_archite.Base.{
  ℕ, zero, suc, ◌+◌, ◌-◌, ◌≤◌, String, ◌≡◌, refl, ◌∙◌, ◌⊎◌, inl, inr, List, [], ◌∷◌, arith,
  string_eq, ap,
}
use service_oriented_archite.Movies.Events.{MovieEvent}
use service_oriented_archite.Aggregation.Scheduler.{done}
use service_oriented_archite.Aggregation.Queries.{
  Figures, Engine, selected, figures, take, top_movies_last_7_days,
}
use service_oriented_archite.Aggregation.Totals.{total, movie_of, one_if, one}
use service_oriented_archite.Aggregation.Counts.{
  NoMore, Descending, IsDocumented, over_days, selected-over_days, rows_of_movie, views_of,
  views_of-figures, rows_of_movie-figures,
}

abbrev pub length : List Figures → ℕ
length [] = 0
length (_ ∷ rest) = suc (length rest)

abbrev pub AtLeast : ℕ → List Figures → Type 0
AtLeast views [] = Unit
AtLeast views (f ∷ rest) = (views ≤ f.views_count) × AtLeast views rest

-- What LIMIT leaves out.
abbrev drop : ℕ → List Figures → List Figures
drop zero rows = rows
drop (suc n) [] = []
drop (suc n) (_ ∷ rest) = drop n rest

length-take : (n : ℕ) (rows : List Figures) → length (take n rows) ≤ n
unfolding take
length-take zero rows = omega arith
length-take (suc n) [] = omega arith
length-take (suc n) (f ∷ rest) = omega (arith, length-take n rest)

module _ (movie : String) where
  rows_of_movie-take :
      (n : ℕ) (rows : List Figures)
      → rows_of_movie movie (take n rows) + rows_of_movie movie (drop n rows)
        ≡ rows_of_movie movie rows
  unfolding take
  rows_of_movie-take zero rows = omega arith
  rows_of_movie-take (suc n) [] = refl
  rows_of_movie-take (suc n) (f ∷ rest) = omega (arith, rows_of_movie-take n rest)

  views_of-take :
      (n : ℕ) (rows : List Figures)
      → views_of movie (take n rows) + views_of movie (drop n rows) ≡ views_of movie rows
  unfolding take
  views_of-take zero rows = omega arith
  views_of-take (suc n) [] = refl
  views_of-take (suc n) (f ∷ rest) = omega (arith, views_of-take n rest)

  no_rows : (rows : List Figures) → rows_of_movie movie rows ≡ 0 → views_of movie rows ≡ 0
  no_rows [] h = refl
  no_rows (f ∷ rest) h = ground (arith, no_rows rest)

  one_row :
      (bound : ℕ) (rows : List Figures)
      → NoMore bound rows
      → rows_of_movie movie rows ≤ 1
      → views_of movie rows ≤ bound
  one_row bound [] h k = omega arith
  one_row bound (f ∷ rest) (now, later) k = ground (arith, one_row bound rest later, no_rows rest)

  NoMore-drop : (bound n : ℕ) (rows : List Figures) → NoMore bound rows → NoMore bound (drop n rows)
  NoMore-drop bound zero rows h = h
  NoMore-drop bound (suc n) [] h = tt
  NoMore-drop bound (suc n) (f ∷ rest) (now, later) = NoMore-drop bound n rest later

  take-AtLeast :
      (n : ℕ) (rows : List Figures)
      → Descending rows
      → rows_of_movie movie (drop n rows) ≤ 1
      → AtLeast (views_of movie (drop n rows)) (take n rows)
  unfolding take
  take-AtLeast zero rows h k = tt
  take-AtLeast (suc n) [] h k = tt
  take-AtLeast (suc n) (f ∷ rest) (first, later) k = (
    one_row f.views_count (drop n rest) (NoMore-drop f.views_count n rest first) k,
    take-AtLeast n rest later k,
  )

  take_full :
      (n : ℕ) (rows : List Figures)
      → rows_of_movie movie (drop n rows) ≡ 1
      → length (take n rows) ≡ n
  unfolding take
  take_full zero rows h = refl
  take_full (suc n) [] h = absurd (omega arith)
  take_full (suc n) (f ∷ rest) h = omega (arith, take_full n rest h)

-- A movie with so many views stands once in the list, with them; or it does not stand there, because it
-- has none, or because the list is full of movies with at least as many.
abbrev pub IsPlaced : ℕ → String → ℕ → List Figures → Type 0
IsPlaced limit movie views rows =
    (rows_of_movie movie rows ≡ 1) × (views_of movie rows ≡ views)
    ⊎ (rows_of_movie movie rows ≡ 0) × ((views ≡ 0) ⊎ (length rows ≡ limit) × AtLeast views rows)

zero_or_one : (n v : ℕ) → n ≤ one_if v → (n ≡ 0) ⊎ (n ≡ 1)
zero_or_one n zero h = inl (omega arith)
zero_or_one zero (suc v) h = inl refl
zero_or_one (suc n) (suc v) h = inr (omega arith)

module _ (movie : String) (v limit : ℕ) (rows : List Figures) (sorted : Descending rows)
    (once : rows_of_movie movie rows ≡ one_if v) (views : views_of movie rows ≡ v) where
  listed : rows_of_movie movie (drop limit rows) ≡ 0 → IsPlaced limit movie v (take limit rows)
  listed none_left = elim (zero_or_one (one_if v) v (omega arith)) [
    | inl nothing ↦ inr (
      omega (arith, rows_of_movie-take movie limit rows),
      inl (omega (arith, no_rows movie rows (once ∙ nothing))),
    )
    | inr something ↦ inl (
      omega (arith, rows_of_movie-take movie limit rows),
      omega (arith, views_of-take movie limit rows, no_rows movie (drop limit rows) none_left),
    )
  ]

  left_out :
      rows_of_movie movie (drop limit rows) ≡ 1
      → rows_of_movie movie (take limit rows) ≡ 0
      → IsPlaced limit movie v (take limit rows)
  left_out one_left not_listed =
      let e : views_of movie (drop limit rows) ≡ v =
        omega (arith, views_of-take movie limit rows, no_rows movie (take limit rows) not_listed) in
      inr (
        not_listed,
        inr (
          take_full movie limit rows one_left,
          rw e at (take-AtLeast movie limit rows sorted (omega arith)),
        ),
      )

  take-IsPlaced : IsPlaced limit movie v (take limit rows)
  take-IsPlaced =
      elim (zero_or_one (rows_of_movie movie (drop limit rows)) v
        (omega (arith, rows_of_movie-take movie limit rows))) [
          | inl none_left ↦ listed none_left
          | inr one_left ↦ left_out one_left (not_listed one_left)
        ]
    where
      at_most_one : (n : ℕ) → one_if n ≤ 1
      at_most_one zero = omega arith
      at_most_one (suc n) = omega arith

      not_listed :
          rows_of_movie movie (drop limit rows) ≡ 1 → rows_of_movie movie (take limit rows) ≡ 0
      not_listed h = omega (arith, rows_of_movie-take movie limit rows, at_most_one v)

take-Descending : (n : ℕ) (rows : List Figures) → Descending rows → Descending (take n rows)
unfolding take
take-Descending zero rows h = tt
take-Descending (suc n) [] h = tt
take-Descending (suc n) (f ∷ rest) (first, later) =
    (take-NoMore f.views_count n rest first, take-Descending n rest later)
  where
    take-NoMore : (bound m : ℕ) (xs : List Figures) → NoMore bound xs → NoMore bound (take m xs)
    take-NoMore bound zero xs k = tt
    take-NoMore bound (suc m) [] k = tt
    take-NoMore bound (suc m) (x ∷ xs) (now, more) = (now, take-NoMore bound m xs more)

-- When ClickHouse answers, and sorts as SQL documents, the top movies of a day from 1970-01-08 on are at
-- most `limit` rows with falling views. A movie stands in them once, with the views started on the day
-- and on the seven days before it, eight days in all; or it does not, because it had no such view, or
-- because the list is full of movies with at least as many.
pub top_movies-IsPlaced :
    (engine : Engine)
    → IsDocumented engine
    → (events : List MovieEvent) (limit as_of : ℕ) → 7 ≤ as_of
    → (rows : List Figures) × (top_movies_last_7_days engine (done events) limit as_of ≡ done rows)
      × (length rows ≤ limit)
      × Descending rows
      × ((movie : String) → IsPlaced limit movie (over_days one (as_of - 7) 7 movie events) rows)
unfolding top_movies_last_7_days figures
top_movies-IsPlaced engine doc events limit as_of h = (
  take limit all,
  refl,
  length-take limit all,
  take-Descending limit all sorted,
  λ movie.
      take-IsPlaced movie (over_days one (as_of - 7) 7 movie events) limit all sorted
        (rows_of_movie-figures engine doc (as_of - 7) as_of events movie ∙ ap one_if (week movie))
        (views_of-figures engine doc (as_of - 7) as_of events movie ∙ week movie),
)
  where
    all : List Figures
    all = figures engine (as_of - 7) as_of events

    sorted : Descending all
    sorted = doc.descending _

    week :
        (movie : String)
        → total movie_of one movie (selected (as_of - 7) as_of events)
          ≡ over_days one (as_of - 7) 7 movie events
    week movie =
        ap (λ (stop : ℕ). total movie_of one movie (selected (as_of - 7) stop events)) (omega arith)
        ∙ selected-over_days one movie (as_of - 7) 7 events
