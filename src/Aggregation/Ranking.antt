-- ===== src/Aggregation/Ranking.antt =====
-- The ranking of a day's rows in `PostgresWriter.upsert_aggregates` of
-- hm5/aggregation/app/postgres_writer.py. `sorted` is any stable sort; here each row is inserted before
-- the rows that do not come before it.
use Prim.Native.Char.{code}
use service_oriented_archite.Base.{
  ℕ, suc, String, Bool, true, false, List, [], ◌∷◌, ltb, eqb, if◌then◌else◌,
}

pub record Row : Type 0 where
  pub event_date : ℕ
  pub movie_id : String
  pub views_count : ℕ
  pub unique_users : ℕ
  pub total_watch_time : ℕ
  pub rank_position : ℕ

-- Python's order of strings, by the code points.
unfoldable pub leb_text : String → String → Bool
leb_text String.[] t = true
leb_text (String.◌∷◌ c s) String.[] = false
leb_text (String.◌∷◌ c s) (String.◌∷◌ d t) =
    let rest : Bool = leb_text s t in
    if ltb (code c) (code d) then true else if eqb (code c) (code d) then rest else false

-- The order of the keys `(-views_count, movie_id)`.
unfoldable pub leb_row : Row → Row → Bool
unfolding leb_text
leb_row a b =
    if ltb b.views_count a.views_count
    then true
    else if eqb b.views_count a.views_count
    then leb_text a.movie_id b.movie_id
    else false

unfoldable pub insert_row : Row → List Row → List Row
unfolding leb_row
insert_row r [] = r ∷ []
insert_row r (s ∷ rest) =
    let later : List Row = insert_row r rest in if leb_row r s then r ∷ s ∷ rest else s ∷ later

unfoldable pub sort_rows : List Row → List Row
unfolding insert_row
sort_rows [] = []
sort_rows (r ∷ rest) = insert_row r (sort_rows rest)

-- `for idx, r in enumerate(rows_sorted, start=1): r["rank_position"] = idx`
unfoldable pub enumerate : ℕ → List Row → List Row
enumerate idx [] = []
enumerate idx (r ∷ rest) = record r { rank_position = idx } ∷ enumerate (suc idx) rest

unfoldable pub rank_rows : List Row → List Row
unfolding sort_rows enumerate
rank_rows rows = enumerate 1 (sort_rows rows)

-- The loop writes the rank into the dicts of the rows, which their first list holds as well. They are
-- told apart by their places, which stand as ranks while they are sorted.
unfoldable pub tagged : ℕ → List Row → List Row
tagged i [] = []
tagged i (r ∷ rest) = record r { rank_position = i } ∷ tagged (suc i) rest

unfoldable pub rank_of : ℕ → ℕ → List Row → ℕ
rank_of i idx [] = idx
rank_of i idx (r ∷ rest) =
    let later : ℕ = rank_of i (suc idx) rest in if eqb r.rank_position i then idx else later

unfoldable pub with_ranks : ℕ → List Row → List Row → List Row
unfolding rank_of
with_ranks i sorted [] = []
with_ranks i sorted (r ∷ rest) =
    record r { rank_position = rank_of i 1 sorted } ∷ with_ranks (suc i) sorted rest

-- The first list after the loop, in its own order.
unfoldable pub rank_in_place : List Row → List Row
unfolding tagged with_ranks sort_rows
rank_in_place rows = with_ranks 0 (sort_rows (tagged 0 rows)) rows
