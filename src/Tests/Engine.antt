-- ===== src/Tests/Engine.antt =====
-- An engine that counts persons exactly and sorts by insertion: what hm5/aggregation/app/clickhouse_queries.py
-- asks of ClickHouse can be had.
use mathlib.Core.List.{Permᴰ}
use mathlib.Core.List.Permᴰ
use service_oriented_archite.Base.{
  ℕ, ◌+◌, ◌≤◌, ◌||◌, ◌==◌, string_eq, String, refl, Bool, false, List, [], ◌∷◌, arith, leb,
  if◌then◌else◌, Bool-cases, inl, inr,
}
use service_oriented_archite.Aggregation.Queries.{Figures, Engine}
use service_oriented_archite.Aggregation.Counts.{NoMore, Descending, IsDocumented}

unfoldable pub insert_figures : Figures → List Figures → List Figures
insert_figures f [] = f ∷ []
insert_figures f (g ∷ rest) =
    let later : List Figures = insert_figures f rest in
    if leb g.views_count f.views_count then f ∷ g ∷ rest else g ∷ later

unfoldable pub sort_figures : List Figures → List Figures
unfolding insert_figures
sort_figures [] = []
sort_figures (f ∷ rest) = insert_figures f (sort_figures rest)

insert_figures-Perm : (f : Figures) (fs : List Figures) → Permᴰ (insert_figures f fs) (f ∷ fs)
unfolding insert_figures
insert_figures-Perm f [] = Permᴰ.refl (f ∷ [])
insert_figures-Perm f (g ∷ rest) = elim (Bool-cases (leb g.views_count f.views_count)) [
  | inl first ↦ rw first (Permᴰ.refl (f ∷ g ∷ rest))
  | inr later ↦
      rw later (Permᴰ.trans (Permᴰ.cons refl (insert_figures-Perm f rest)) (Permᴰ.swap refl refl))
]

sort_figures-Perm : (fs : List Figures) → Permᴰ (sort_figures fs) fs
unfolding sort_figures
sort_figures-Perm [] = Permᴰ.nil
sort_figures-Perm (f ∷ rest) =
    Permᴰ.trans (insert_figures-Perm f (sort_figures rest))
      (Permᴰ.cons refl (sort_figures-Perm rest))

NoMore-le : (a b : ℕ) (fs : List Figures) → a ≤ b → NoMore a fs → NoMore b fs
NoMore-le a b [] h k = tt
NoMore-le a b (f ∷ rest) h (now, more) = (omega arith, NoMore-le a b rest h more)

insert_figures-NoMore :
    (bound : ℕ) (f : Figures) (fs : List Figures)
    → f.views_count ≤ bound
    → NoMore bound fs
    → NoMore bound (insert_figures f fs)
unfolding insert_figures
insert_figures-NoMore bound f [] h k = (h, tt)
insert_figures-NoMore bound f (g ∷ rest) h (now, more) =
    elim (Bool-cases (leb g.views_count f.views_count)) [
      | inl first ↦ rw first (h, (now, more))
      | inr later ↦ rw later (now, insert_figures-NoMore bound f rest h more)
    ]

insert_figures-Descending :
    (f : Figures) (fs : List Figures) → Descending fs → Descending (insert_figures f fs)
unfolding insert_figures
insert_figures-Descending f [] h = (tt, tt)
insert_figures-Descending f (g ∷ rest) (first, later) =
    elim (Bool-cases (leb g.views_count f.views_count)) [
      | inl front ↦
          let le : g.views_count ≤ f.views_count = ground arith in
          rw front ((le, NoMore-le g.views_count f.views_count rest le first), (first, later))
      | inr behind ↦
          let le : f.views_count ≤ g.views_count = ground arith in
          rw behind (
            insert_figures-NoMore g.views_count f rest le first,
            insert_figures-Descending f rest later,
          )
    ]

sort_figures-Descending : (fs : List Figures) → Descending (sort_figures fs)
unfolding sort_figures
sort_figures-Descending [] = tt
sort_figures-Descending (f ∷ rest) =
    insert_figures-Descending f (sort_figures rest) (sort_figures-Descending rest)

abbrev occurs : String → List String → Bool
occurs a [] = false
occurs a (b ∷ rest) = a == b || occurs a rest

abbrev how_many : List String → ℕ
how_many [] = 0
how_many (a ∷ rest) = (if occurs a rest then 0 else 1) + how_many rest

abbrev pub engine : Engine
engine = record { uniq = how_many; order_by_views = sort_figures }

pub engine-IsDocumented : IsDocumented engine
engine-IsDocumented = record { same_rows = sort_figures-Perm; descending = sort_figures-Descending }
