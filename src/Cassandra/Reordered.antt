-- ===== src/Cassandra/Reordered.antt =====
-- The order of the statements in a batch of hm6/consumer/cassandra_client.py `execute_batch`.
use mathlib.Core.List.{Permᴰ}
use mathlib.Core.List.Permᴰ
use service_oriented_archite.Base.{
  ◌≡◌, ◌≢◌, refl, sym, ap, subst, ◌∙◌, List, [], ◌∷◌, ◌++◌, inl, inr,
}
use service_oriented_archite.Cassandra.Tables.{Db, Statement, apply, apply_all}
use service_oriented_archite.Cassandra.Rows.{
  RowKey, row_of, read, SameRows, written, read-apply_same, read-apply_other, same_row_or_not,
}

-- No statement of a list writes the row.
abbrev pub NotWritten : RowKey → List Statement → Type 0
NotWritten k [] = Unit
NotWritten k (s ∷ rest) = (k ≢ row_of s) × NotWritten k rest

-- Every row is written at most once.
abbrev pub RowsDistinct : List Statement → Type 0
RowsDistinct [] = Unit
RowsDistinct (s ∷ rest) = NotWritten (row_of s) rest × RowsDistinct rest

SameRows-apply : (s : Statement) (a b : Db) → SameRows a b → SameRows (apply s a) (apply s b)
SameRows-apply s a b h k = elim (same_row_or_not k (row_of s)) [
  | inl same ↦
      subst (λ (j : RowKey). read j (apply s a) ≡ read j (apply s b)) (sym same)
        (read-apply_same s a ∙ ap (written s) (h (row_of s)) ∙ sym (read-apply_same s b))
  | inr differ ↦ read-apply_other s k a differ ∙ h k ∙ sym (read-apply_other s k b differ)
]

pub SameRows-apply_all :
    (ops : List Statement) (a b : Db) → SameRows a b → SameRows (apply_all ops a) (apply_all ops b)
unfolding apply_all
SameRows-apply_all [] a b h = h
SameRows-apply_all (s ∷ rest) a b h =
    SameRows-apply_all rest (apply s a) (apply s b) (SameRows-apply s a b h)

-- The row of the first of two statements that write different rows, after both.
first_row :
    (s t : Statement) (db : Db)
    → row_of s ≢ row_of t
    → read (row_of s) (apply s (apply t db)) ≡ read (row_of s) (apply t (apply s db))
first_row s t db h =
    read-apply_same s (apply t db)
    ∙ ap (written s) (read-apply_other t (row_of s) db h)
    ∙ sym (read-apply_same s db)
    ∙ sym (read-apply_other t (row_of s) (apply s db) h)

apply_swap :
    (s t : Statement) (db : Db)
    → row_of s ≢ row_of t
    → SameRows (apply s (apply t db)) (apply t (apply s db))
apply_swap s t db h k = elim (same_row_or_not k (row_of s)) [
  | inl same ↦
      subst (λ (j : RowKey). read j (apply s (apply t db)) ≡ read j (apply t (apply s db)))
        (sym same) (first_row s t db h)
  | inr not_s ↦ elim (same_row_or_not k (row_of t)) [
    | inl same ↦
        subst (λ (j : RowKey). read j (apply s (apply t db)) ≡ read j (apply t (apply s db)))
          (sym same) (sym (first_row t s db (λ e. h (sym e))))
    | inr not_t ↦
        read-apply_other s k (apply t db) not_s
        ∙ read-apply_other t k db not_t
        ∙ sym (read-apply_other s k db not_s)
        ∙ sym (read-apply_other t k (apply s db) not_t)
  ]
]

module _ (k : RowKey) where
  NotWritten-perm : {xs ys : List Statement} → Permᴰ xs ys → NotWritten k xs → NotWritten k ys
  NotWritten-perm Permᴰ.nil h = h
  NotWritten-perm (Permᴰ.cons e p) (now, h) =
      (subst (λ (s : Statement). k ≢ row_of s) e now, NotWritten-perm p h)
  NotWritten-perm (Permᴰ.swap d e) (first, (second, h)) = (
    subst (λ (s : Statement). k ≢ row_of s) e second,
    (subst (λ (s : Statement). k ≢ row_of s) d first, h),
  )
  NotWritten-perm (Permᴰ.trans p q) h = NotWritten-perm q (NotWritten-perm p h)

RowsDistinct-swap :
    (s t s' t' : Statement) (rest : List Statement)
    → s ≡ t'
    → t ≡ s'
    → RowsDistinct (s ∷ t ∷ rest)
    → RowsDistinct (s' ∷ t' ∷ rest)
RowsDistinct-swap s t s' t' rest d e ((apart, hs), (ht, h)) =
    subst (λ (x : Statement). RowsDistinct (x ∷ t' ∷ rest)) e
      (subst (λ (x : Statement). RowsDistinct (t ∷ x ∷ rest)) d ((λ p. apart (sym p), ht), (hs, h)))

pub RowsDistinct-perm : {xs ys : List Statement} → Permᴰ xs ys → RowsDistinct xs → RowsDistinct ys
RowsDistinct-perm Permᴰ.nil h = h
RowsDistinct-perm (Permᴰ.cons {b = b} {l₁ = l₁} e p) (fresh, h) = (
  NotWritten-perm (row_of b) p (subst (λ (s : Statement). NotWritten (row_of s) l₁) e fresh),
  RowsDistinct-perm p h,
)
RowsDistinct-perm (Permᴰ.swap d e) h = RowsDistinct-swap _ _ _ _ _ d e h
RowsDistinct-perm (Permᴰ.trans p q) h = RowsDistinct-perm q (RowsDistinct-perm p h)

swapped :
    (s t s' t' : Statement) (rest : List Statement) (db : Db)
    → s ≡ t'
    → t ≡ s'
    → row_of s ≢ row_of t
    → SameRows (apply_all (s ∷ t ∷ rest) db) (apply_all (s' ∷ t' ∷ rest) db)
unfolding apply_all
swapped s t s' t' rest db d e apart =
    subst (λ (x : Statement). SameRows (apply_all (s ∷ t ∷ rest) db) (apply_all (x ∷ t' ∷ rest) db))
      e
      (subst
        (λ (x : Statement). SameRows (apply_all (s ∷ t ∷ rest) db) (apply_all (t ∷ x ∷ rest) db)) d
        (SameRows-apply_all rest (apply t (apply s db)) (apply s (apply t db))
          (apply_swap t s db (λ p. apart (sym p)))))

-- Statements that write different rows leave the same tables in any order.
pub apply_all-perm :
    {xs ys : List Statement}
    → Permᴰ xs ys
    → RowsDistinct xs
    → (db : Db) → SameRows (apply_all xs db) (apply_all ys db)
unfolding apply_all
apply_all-perm Permᴰ.nil h db k = refl
apply_all-perm (Permᴰ.cons {a = a} {b = b} {l₁ = l₁} {l₂ = l₂} e p) (fresh, h) db k =
    subst (λ (s : Statement). SameRows (apply_all (a ∷ l₁) db) (apply_all (s ∷ l₂) db)) e
      (apply_all-perm p h (apply a db)) k
apply_all-perm (Permᴰ.swap {a = a} {b = b} {a' = a'} {b' = b'} {l = l} d e) ((apart, _), _) db k =
    swapped a b a' b' l db d e apart k
apply_all-perm (Permᴰ.trans p q) h db k =
    apply_all-perm p h db k ∙ apply_all-perm q (RowsDistinct-perm p h) db k

-- No statement of one list writes a row of the other.
abbrev pub Disjoint : List Statement → List Statement → Type 0
Disjoint [] ys = Unit
Disjoint (s ∷ rest) ys = NotWritten (row_of s) ys × Disjoint rest ys

NotWritten-append :
    (k : RowKey) (xs ys : List Statement)
    → NotWritten k xs
    → NotWritten k ys
    → NotWritten k (xs ++ ys)
NotWritten-append k [] ys h h' = h'
NotWritten-append k (s ∷ rest) ys (now, h) h' = (now, NotWritten-append k rest ys h h')

RowsDistinct-append :
    (xs ys : List Statement)
    → RowsDistinct xs
    → RowsDistinct ys
    → Disjoint xs ys
    → RowsDistinct (xs ++ ys)
RowsDistinct-append [] ys h h' d = h'
RowsDistinct-append (s ∷ rest) ys (fresh, h) h' (apart, d) =
    (NotWritten-append (row_of s) rest ys fresh apart, RowsDistinct-append rest ys h h' d)

pub apply_all-append :
    (xs ys : List Statement) (db : Db) → apply_all (xs ++ ys) db ≡ apply_all ys (apply_all xs db)
unfolding apply_all
apply_all-append [] ys db = refl
apply_all-append (s ∷ rest) ys db = apply_all-append rest ys (apply s db)

-- Two batches that write different rows may go in either order.
pub apply_all-exchange :
    (xs ys : List Statement) (db : Db)
    → RowsDistinct xs
    → RowsDistinct ys
    → Disjoint xs ys
    → SameRows (apply_all ys (apply_all xs db)) (apply_all xs (apply_all ys db))
apply_all-exchange xs ys db h h' d k =
    ap (read k) (sym (apply_all-append xs ys db))
    ∙ apply_all-perm (Permᴰ.append_comm xs ys) (RowsDistinct-append xs ys h h' d) db k
    ∙ ap (read k) (apply_all-append ys xs db)
