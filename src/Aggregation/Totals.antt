-- ===== src/Aggregation/Totals.antt =====
-- Sums over the entries of a list that are of one movie, and the sums of a grouped list: for the queries
-- of hm5/aggregation/app/clickhouse_queries.py.
use mathlib.Core.List.{Permᴰ}
use service_oriented_archite.Base.{
  ℕ, zero, suc, ◌+◌, String, ◌≡◌, refl, ap, ◌∙◌, List, [], ◌∷◌, arith, eqb, string_eq, ◌==◌,
  if◌then◌else◌,
}
use service_oriented_archite.Movies.Events.{MovieEvent}
use service_oriented_archite.Aggregation.Queries.{group_event, group_by_movie}

module _ {A : Type 0} (key : A → String) (weight : A → ℕ) (movie : String) where
  -- The weights of the entries of a movie, summed.
  abbrev share : A → ℕ
  share a = if key a == movie then weight a else 0

  abbrev pub total : List A → ℕ
  total [] = 0
  total (a ∷ rest) = (if key a == movie then weight a else 0) + total rest

  pub total-perm : {xs ys : List A} → Permᴰ xs ys → total xs ≡ total ys
  total-perm Permᴰ.nil = refl
  total-perm (Permᴰ.cons e p) = omega (arith, ap share e, total-perm p)
  total-perm (Permᴰ.swap d e) = omega (arith, ap share d, ap share e)
  total-perm (Permᴰ.trans p q) = total-perm p ∙ total-perm q

abbrev pub sum_of : (MovieEvent → ℕ) → List MovieEvent → ℕ
sum_of weight [] = 0
sum_of weight (e ∷ rest) = weight e + sum_of weight rest

abbrev pub movie_of : MovieEvent → String
movie_of e = e.movie_id

abbrev pub Groups : Type 0
Groups = List (String × List MovieEvent)

abbrev pub total_groups : (List MovieEvent → ℕ) → String → Groups → ℕ
total_groups weight = total (λ (g : String × List MovieEvent). g.0) (λ g. weight g.1)

module _ (weight : MovieEvent → ℕ) (movie : String) where
  total_groups-group_event :
      (e : MovieEvent) (groups : Groups)
      → total_groups (sum_of weight) movie (group_event e groups)
        ≡ (if e.movie_id == movie then weight e else 0) + total_groups (sum_of weight) movie groups
  unfolding group_event
  total_groups-group_event e [] = ground arith
  total_groups-group_event e ((m, events) ∷ rest) = ground (arith, total_groups-group_event e rest)

  -- A sum over the groups of a movie is the sum over its events.
  pub total_groups-group_by_movie :
      (events : List MovieEvent)
      → total_groups (sum_of weight) movie (group_by_movie events)
        ≡ total movie_of weight movie events
  unfolding group_by_movie
  total_groups-group_by_movie [] = refl
  total_groups-group_by_movie (e ∷ rest) =
      omega
        (arith, total_groups-group_event e (group_by_movie rest), total_groups-group_by_movie rest)

-- One if there is something.
abbrev pub one_if : ℕ → ℕ
one_if zero = 0
one_if (suc _) = 1

abbrev pub one : MovieEvent → ℕ
one e = 1

abbrev pub groups_of : String → Groups → ℕ
groups_of = total_groups (λ events. 1)

module _ (movie : String) where
  groups_of-group_event :
      (e : MovieEvent) (groups : Groups)
      → groups_of movie (group_event e groups) ≡ (
          if e.movie_id == movie
          then (if eqb (groups_of movie groups) 0 then 1 else groups_of movie groups)
          else groups_of movie groups)
  unfolding group_event
  groups_of-group_event e [] = ground arith
  groups_of-group_event e ((m, events) ∷ rest) = ground (arith, groups_of-group_event e rest)

  -- Every movie that has events has one group.
  pub groups_of-group_by_movie :
      (events : List MovieEvent)
      → groups_of movie (group_by_movie events) ≡ one_if (total movie_of one movie events)
  unfolding group_by_movie
  groups_of-group_by_movie [] = refl
  groups_of-group_by_movie (e ∷ rest) =
      ground (arith, groups_of-group_event e (group_by_movie rest), groups_of-group_by_movie rest)
