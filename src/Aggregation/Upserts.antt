-- ===== src/Aggregation/Upserts.antt =====
-- What `upsert_aggregates` of hm5/aggregation/app/postgres_writer.py leaves under each key.
use mathlib.Core.List.{Permᴰ}
use mathlib.Core.List.Permᴰ
use service_oriented_archite.Base.{
  ℕ, suc, ◌+◌, String, ◌≡◌, ◌≢◌, refl, sym, ap, true, false, subst, ◌∙◌, some, List, [], ◌∷◌, arith,
  nat_eq, string_eq, pair_eq, ◌==◌, if◌then◌else◌, inl, inr, equal_or_not,
}
use service_oriented_archite.Base.Table.{Table, lookup, insert, lookup-insert}
use service_oriented_archite.Aggregation.Ranking.{Row, sort_rows, enumerate, rank_rows}
use service_oriented_archite.Aggregation.Order.{sort_rows-Perm}
use service_oriented_archite.Aggregation.Scheduler.{upsert_rows}
use service_oriented_archite.Aggregation.Totals.{total, total-perm}

abbrev pub Aggregates : Type 0
Aggregates = Table (ℕ × String) Row

abbrev pub movie_of_row : Row → String
movie_of_row r = r.movie_id

abbrev pub rows_for : String → List Row → ℕ
rows_for = total movie_of_row (λ r. 1)

abbrev pub AllOn : ℕ → List Row → Type 0
AllOn day [] = Unit
AllOn day (r ∷ rest) = (r.event_date ≡ day) × AllOn day rest

module _ (day : ℕ) where
  AllOn-perm : {xs ys : List Row} → Permᴰ xs ys → AllOn day xs → AllOn day ys
  AllOn-perm Permᴰ.nil h = h
  AllOn-perm (Permᴰ.cons e p) (now, h) =
      (subst (λ (r : Row). r.event_date ≡ day) e now, AllOn-perm p h)
  AllOn-perm (Permᴰ.swap d e) (first, (second, h)) = (
    subst (λ (r : Row). r.event_date ≡ day) e second,
    (subst (λ (r : Row). r.event_date ≡ day) d first, h),
  )
  AllOn-perm (Permᴰ.trans p q) h = AllOn-perm q (AllOn-perm p h)

enumerate-AllOn : (day n : ℕ) (rows : List Row) → AllOn day rows → AllOn day (enumerate n rows)
unfolding enumerate
enumerate-AllOn day n [] h = tt
enumerate-AllOn day n (r ∷ rest) (now, h) = (now, enumerate-AllOn day (suc n) rest h)

-- The weights do not depend on the rank.
total-enumerate :
    (weight : ℕ → ℕ → ℕ) (movie : String) (n : ℕ) (rows : List Row)
    → total movie_of_row (λ r. weight r.views_count r.total_watch_time) movie (enumerate n rows)
      ≡ total movie_of_row (λ r. weight r.views_count r.total_watch_time) movie rows
unfolding enumerate
total-enumerate weight movie n [] = refl
total-enumerate weight movie n (r ∷ rest) =
    ap (λ (t : ℕ). (if r.movie_id == movie then weight r.views_count r.total_watch_time else 0) + t)
      (total-enumerate weight movie (suc n) rest)

pub rank_rows-AllOn : (day : ℕ) (rows : List Row) → AllOn day rows → AllOn day (rank_rows rows)
unfolding rank_rows
rank_rows-AllOn day rows h =
    enumerate-AllOn day 1 (sort_rows rows) (AllOn-perm day (Permᴰ.symm (sort_rows-Perm rows)) h)

pub total-rank_rows :
    (weight : ℕ → ℕ → ℕ) (movie : String) (rows : List Row)
    → total movie_of_row (λ r. weight r.views_count r.total_watch_time) movie (rank_rows rows)
      ≡ total movie_of_row (λ r. weight r.views_count r.total_watch_time) movie rows
unfolding rank_rows
total-rank_rows weight movie rows =
    total-enumerate weight movie 1 (sort_rows rows)
    ∙ total-perm movie_of_row (λ r. weight r.views_count r.total_watch_time) movie
        (sort_rows-Perm rows)

-- A row of a day and a movie, with its views and its watch time.
pub record Holds (day : ℕ) (movie : String) (views watched : ℕ) (r : Row) : Type 0 where
  pub event_date : r.event_date ≡ day
  pub movie_id : r.movie_id ≡ movie
  pub views_count : r.views_count ≡ views
  pub total_watch_time : r.total_watch_time ≡ watched

module _ (day : ℕ) (movie : String) where
  no_rows_for :
      (weight : Row → ℕ) (rows : List Row)
      → rows_for movie rows ≡ 0
      → total movie_of_row weight movie rows ≡ 0
  no_rows_for weight [] h = refl
  no_rows_for weight (r ∷ rest) h = ground (arith, no_rows_for weight rest)

  lookup-insert_missed :
      (r : Row) (t : Aggregates)
      → (day ≡ r.event_date → movie ≡ r.movie_id → ⊥)
      → lookup (day, movie) (insert (r.event_date, r.movie_id) r t) ≡ lookup (day, movie) t
  lookup-insert_missed r t h =
      lookup-insert (day, movie) (r.event_date, r.movie_id) r t
      ∙ (elim (equal_or_not {A = ℕ × String} (day, movie) (r.event_date, r.movie_id)) [
        | inl (same, eq) ↦
            absurd (h (ap (λ (k : ℕ × String). k.0) eq) (ap (λ (k : ℕ × String). k.1) eq))
        | inr differ ↦ rw differ refl
      ])

  lookup-insert_hit :
      (r : Row) (t : Aggregates)
      → day ≡ r.event_date
      → movie ≡ r.movie_id
      → lookup (day, movie) (insert (r.event_date, r.movie_id) r t) ≡ some r
  lookup-insert_hit r t d m =
      lookup-insert (day, movie) (r.event_date, r.movie_id) r t
      ∙ (elim (equal_or_not {A = ℕ × String} (day, movie) (r.event_date, r.movie_id)) [
        | inl (same, eq) ↦ rw same refl
        | inr differ ↦ ground arith
      ])

  pub upsert_rows-absent :
      (rows : List Row) (t : Aggregates)
      → rows_for movie rows ≡ 0
      → lookup (day, movie) (upsert_rows rows t) ≡ lookup (day, movie) t
  unfolding upsert_rows
  upsert_rows-absent [] t h = refl
  upsert_rows-absent (r ∷ rest) t h =
      upsert_rows-absent rest _ (ground arith) ∙ lookup-insert_missed r t (λ d m. ground arith)

  pub upsert_rows-other :
      (other : ℕ) (rows : List Row) (t : Aggregates)
      → other ≢ day
      → AllOn other rows
      → lookup (day, movie) (upsert_rows rows t) ≡ lookup (day, movie) t
  unfolding upsert_rows
  upsert_rows-other other [] t h on = refl
  upsert_rows-other other (r ∷ rest) t h (now, on) =
      upsert_rows-other other rest _ h on ∙ lookup-insert_missed r t (λ d m. h (sym now ∙ sym d))

  pub upsert_rows-found :
      (rows : List Row) (t : Aggregates)
      → rows_for movie rows ≡ 1
      → AllOn day rows
      → (r : Row) × (lookup (day, movie) (upsert_rows rows t) ≡ some r)
        × Holds day movie
            (total movie_of_row (λ x. x.views_count) movie rows)
            (total movie_of_row (λ x. x.total_watch_time) movie rows)
            r
  unfolding upsert_rows
  upsert_rows-found [] t h on = absurd (omega arith)
  upsert_rows-found (r ∷ rest) t h (now, on) = elim (equal_or_not r.movie_id movie) [
    | inl (same, eq) ↦ (
      r,
      upsert_rows-absent rest _ (last same) ∙ lookup-insert_hit r t (sym now) (sym eq),
      record {
        event_date = now;
        movie_id = eq;
        views_count = rw same (omega (arith, no_rows_for (λ x. x.views_count) rest (last same)));
        total_watch_time =
            rw same (omega (arith, no_rows_for (λ x. x.total_watch_time) rest (last same)));
      },
    )
    | inr differ ↦
        let (x, found, holds) = upsert_rows-found rest _ (ground arith) on in
        (
          x,
          found,
          record {
            event_date = holds.event_date;
            movie_id = holds.movie_id;
            views_count = holds.views_count ∙ sym (skipped (λ y. y.views_count) differ);
            total_watch_time =
                holds.total_watch_time ∙ sym (skipped (λ y. y.total_watch_time) differ);
          },
        )
  ]
    where
      last : r.movie_id == movie ≡ true → rows_for movie rest ≡ 0
      last same = ground arith

      skipped :
          (weight : Row → ℕ)
          → r.movie_id == movie ≡ false
          → total movie_of_row weight movie (r ∷ rest) ≡ total movie_of_row weight movie rest
      skipped weight differ = ground arith
