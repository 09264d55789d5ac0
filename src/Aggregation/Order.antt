-- ===== src/Aggregation/Order.antt =====
-- The order, the rows and the numbers of the ranking of hm5/aggregation/app/postgres_writer.py.
use mathlib.Core.List.{Permᴰ}
use mathlib.Core.List.Permᴰ
use Prim.Native.Char.{Char, code}
use service_oriented_archite.Base.{
  ℕ, suc, String, ◌≡◌, refl, true, false, List, [], ◌∷◌, arith, inl, inr, Bool-cases, ◌<◌, ◌⊎◌, ltb,
  eqb,
}
use service_oriented_archite.Aggregation.Ranking.{
  Row, leb_text, leb_row, insert_row, sort_rows, enumerate, rank_rows,
}

leb_text_total : (s t : String) → leb_text s t ≡ false → leb_text t s ≡ true
unfolding leb_text
leb_text_total String.[] t h = cc
leb_text_total (String.◌∷◌ c s) String.[] h = refl
leb_text_total (String.◌∷◌ c s) (String.◌∷◌ d t) h = ground (arith, leb_text_total s t)

leb_text_trans : (s t u : String) → leb_text s t ≡ true → leb_text t u ≡ true → leb_text s u ≡ true
unfolding leb_text
leb_text_trans String.[] t u h k = refl
leb_text_trans (String.◌∷◌ c s) String.[] u h k = cc
leb_text_trans (String.◌∷◌ c s) (String.◌∷◌ d t) String.[] h k = cc
leb_text_trans (String.◌∷◌ c s) (String.◌∷◌ d t) (String.◌∷◌ e u) h k =
    ground (arith, leb_text_trans s t u)

leb_row_total : (a b : Row) → leb_row a b ≡ false → leb_row b a ≡ true
unfolding leb_row
leb_row_total a b h = ground (arith, leb_text_total a.movie_id b.movie_id)

leb_row_trans : (a b c : Row) → leb_row a b ≡ true → leb_row b c ≡ true → leb_row a c ≡ true
unfolding leb_row
leb_row_trans a b c h k = ground (arith, leb_text_trans a.movie_id b.movie_id c.movie_id)

-- Strings in the order of their code points: the first one ends, or has a smaller code point where they
-- first differ.
pub data AtMost : String → String → Type 0 where
  ends : (t : String) → AtMost String.[] t
  smaller : (c d : Char) (s t : String) → code c < code d → AtMost (String.◌∷◌ c s) (String.◌∷◌ d t)
  alike :
      (c d : Char) (s t : String)
      → code c ≡ code d
      → AtMost s t
      → AtMost (String.◌∷◌ c s) (String.◌∷◌ d t)

-- More views come first, and of as many views the smaller movie id.
abbrev pub Before : Row → Row → Type 0
Before r s =
    (s.views_count < r.views_count)
    ⊎ ((r.views_count ≡ s.views_count) × AtMost r.movie_id s.movie_id)

-- A row comes before every row of a list.
abbrev pub BeforeAll : Row → List Row → Type 0
BeforeAll r [] = Unit
BeforeAll r (s ∷ rest) = Before r s × BeforeAll r rest

abbrev pub Sorted : List Row → Type 0
Sorted [] = Unit
Sorted (r ∷ rest) = BeforeAll r rest × Sorted rest

leb_text-AtMost : (s t : String) → leb_text s t ≡ true → AtMost s t
unfolding leb_text
leb_text-AtMost String.[] t h = ends t
leb_text-AtMost (String.◌∷◌ c s) String.[] h = cc
leb_text-AtMost (String.◌∷◌ c s) (String.◌∷◌ d t) h = elim (Bool-cases (ltb (code c) (code d))) [
  | inl less ↦ smaller c d s t (ground arith)
  | inr more ↦ elim (Bool-cases (eqb (code c) (code d))) [
    | inl same ↦ alike c d s t (ground arith) (leb_text-AtMost s t (ground arith))
    | inr differ ↦ ground arith
  ]
]

leb_row-Before : (r s : Row) → leb_row r s ≡ true → Before r s
unfolding leb_row
leb_row-Before r s h = elim (Bool-cases (ltb s.views_count r.views_count)) [
  | inl more ↦ inl (ground arith)
  | inr less ↦ elim (Bool-cases (eqb s.views_count r.views_count)) [
    | inl same ↦ inr (ground arith, leb_text-AtMost r.movie_id s.movie_id (ground arith))
    | inr differ ↦ ground arith
  ]
]

-- The comparator puts a row before every row of a list.
abbrev FirstOf : Row → List Row → Type 0
FirstOf r [] = Unit
FirstOf r (s ∷ rest) = (leb_row r s ≡ true) × FirstOf r rest

abbrev InOrder : List Row → Type 0
InOrder [] = Unit
InOrder (r ∷ rest) = FirstOf r rest × InOrder rest

FirstOf-trans : (r s : Row) (rows : List Row) → leb_row r s ≡ true → FirstOf s rows → FirstOf r rows
FirstOf-trans r s [] h k = tt
FirstOf-trans r s (t ∷ rest) h (k, more) = (leb_row_trans r s t h k, FirstOf-trans r s rest h more)

FirstOf-insert_row :
    (r s : Row) (rows : List Row)
    → leb_row s r ≡ true
    → FirstOf s rows
    → FirstOf s (insert_row r rows)
unfolding insert_row
FirstOf-insert_row r s [] h k = (h, tt)
FirstOf-insert_row r s (t ∷ rest) h (k, more) = elim (Bool-cases (leb_row r t)) [
  | inl first ↦ rw first (h, (k, more))
  | inr later ↦ rw later (k, FirstOf-insert_row r s rest h more)
]

insert_row-InOrder : (r : Row) (rows : List Row) → InOrder rows → InOrder (insert_row r rows)
unfolding insert_row
insert_row-InOrder r [] h = (tt, tt)
insert_row-InOrder r (s ∷ rest) (before, sorted) = elim (Bool-cases (leb_row r s)) [
  | inl first ↦ rw first ((first, FirstOf-trans r s rest first before), (before, sorted))
  | inr later ↦ rw later (
    FirstOf-insert_row r s rest (leb_row_total r s later) before,
    insert_row-InOrder r rest sorted,
  )
]

sort_rows-InOrder : (rows : List Row) → InOrder (sort_rows rows)
unfolding sort_rows
sort_rows-InOrder [] = tt
sort_rows-InOrder (r ∷ rest) = insert_row-InOrder r (sort_rows rest) (sort_rows-InOrder rest)

FirstOf-BeforeAll : (r : Row) (rows : List Row) → FirstOf r rows → BeforeAll r rows
FirstOf-BeforeAll r [] h = tt
FirstOf-BeforeAll r (s ∷ rest) (h, more) = (leb_row-Before r s h, FirstOf-BeforeAll r rest more)

InOrder-Sorted : (rows : List Row) → InOrder rows → Sorted rows
InOrder-Sorted [] h = tt
InOrder-Sorted (r ∷ rest) (h, more) = (FirstOf-BeforeAll r rest h, InOrder-Sorted rest more)

insert_row-Perm : (r : Row) (rows : List Row) → Permᴰ (insert_row r rows) (r ∷ rows)
unfolding insert_row
insert_row-Perm r [] = Permᴰ.refl (r ∷ [])
insert_row-Perm r (s ∷ rest) = elim (Bool-cases (leb_row r s)) [
  | inl first ↦ rw first (Permᴰ.refl (r ∷ s ∷ rest))
  | inr later ↦
      rw later (Permᴰ.trans (Permᴰ.cons refl (insert_row-Perm r rest)) (Permᴰ.swap refl refl))
]

pub sort_rows-Perm : (rows : List Row) → Permᴰ (sort_rows rows) rows
unfolding sort_rows
sort_rows-Perm [] = Permᴰ.nil
sort_rows-Perm (r ∷ rest) =
    Permᴰ.trans (insert_row-Perm r (sort_rows rest)) (Permᴰ.cons refl (sort_rows-Perm rest))

-- Two lists hold the same rows one by one, but for the ranks, which in the second count up from `n`.
abbrev pub NumberedFrom : ℕ → List Row → List Row → Type 0
NumberedFrom n [] [] = Unit
NumberedFrom n (r ∷ rest) (s ∷ more) =
    (s ≡ record r { rank_position = n }) × NumberedFrom (suc n) rest more
NumberedFrom n _ _ = ⊥

enumerate-NumberedFrom : (n : ℕ) (rows : List Row) → NumberedFrom n rows (enumerate n rows)
unfolding enumerate
enumerate-NumberedFrom n [] = tt
enumerate-NumberedFrom n (r ∷ rest) = (refl, enumerate-NumberedFrom (suc n) rest)

-- The ranked rows of a day are those given, rearranged: more views come first, and of rows with as many
-- views the smaller movie id; their ranks are 1, 2, 3 and so on.
pub rank_rows-Ranked :
    (rows : List Row)
    → (sorted : List Row) × Permᴰ sorted rows
      × Sorted sorted
      × NumberedFrom 1 sorted (rank_rows rows)
unfolding rank_rows
rank_rows-Ranked rows = (
  sort_rows rows,
  sort_rows-Perm rows,
  InOrder-Sorted (sort_rows rows) (sort_rows-InOrder rows),
  enumerate-NumberedFrom 1 (sort_rows rows),
)
