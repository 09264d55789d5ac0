-- ===== src/Consumer/Lags.antt =====
-- What the lag thread of hm6/consumer/main.py reports.
use service_oriented_archite.Base.{
  ℕ, ◌+◌, ◌-◌, ◌≤◌, String, ◌≡◌, refl, ap, sym, subst, ◌∙◌, Bool, true, false, ◌&&◌, ◌||◌, Option,
  none, some, List, [], ◌∷◌, arith, nat_eq, string_eq, pair_eq, ◌==◌, if◌then◌else◌, equal_or_not,
  ◌⊎◌, inl, inr, Bool-cases,
}
use service_oriented_archite.Base.Int.{ℤ, pos}
use service_oriented_archite.Base.Table.{lookup, lookup-insert}
use service_oriented_archite.Consumer.Lag.{
  TopicPartition, Gauges, Watch, committed_offset, lag, set_lag, update_partition,
  update_partitions, update_lag,
}

-- The messages from the committed offset to the end of the partition.
pub lag_bounds :
    (hi committed : ℕ)
    → (l : ℕ) × (lag hi committed ≡ pos l)
      × (l ≤ hi)
      × (committed ≤ hi → committed + l ≡ hi)
      × (hi ≤ committed → l ≡ 0)
unfolding lag
lag_bounds hi committed =
    (hi - committed, ground arith, omega arith, λ h. omega arith, λ h. omega arith)

abbrev pub is_in : TopicPartition → List TopicPartition → Bool
is_in tp [] = false
is_in tp (other ∷ rest) = tp == other || is_in tp rest

abbrev reported : Option (ℕ × List ℤ) → Option ℤ → Option ℤ
reported none old = old
reported (some (hi, committed)) old = some (lag hi (committed_offset committed))

reported_twice :
    (answer : Option (ℕ × List ℤ)) (old : Option ℤ)
    → reported answer (reported answer old) ≡ reported answer old
reported_twice none old = refl
reported_twice (some _) old = refl

merge :
    (b c : Bool) (answer : Option (ℕ × List ℤ)) (old mid : Option ℤ)
    → mid ≡ (if b then reported answer old else old)
    → (if b && c then reported answer mid else mid)
      ≡ (if b && true then reported answer old else old)
merge true true answer old mid h = ap (reported answer) h ∙ reported_twice answer old
merge true false answer old mid h = h
merge false c answer old mid h = h

module _ (topic : String) (watch : Watch) (tp : TopicPartition) where
  lookup-set_lag_self :
      (answer : Option (ℕ × List ℤ)) (t : Gauges)
      → lookup tp (set_lag tp answer t) ≡ reported answer (lookup tp t)
  unfolding set_lag
  lookup-set_lag_self none t = refl
  lookup-set_lag_self (some (hi, committed)) t =
      lookup-insert tp tp (lag hi (committed_offset committed)) t ∙ ground arith

  lookup-set_lag_other :
      (other : TopicPartition) (answer : Option (ℕ × List ℤ)) (t : Gauges)
      → tp == other ≡ false
      → lookup tp (set_lag other answer t) ≡ lookup tp t
  unfolding set_lag
  lookup-set_lag_other other none t h = refl
  lookup-set_lag_other other (some (hi, committed)) t h =
      lookup-insert tp other (lag hi (committed_offset committed)) t ∙ rw h refl

  lookup-update_partition_self :
      (t : Gauges)
      → lookup tp (update_partition topic watch tp t)
        ≡ (if tp.0 == topic then reported (watch tp) (lookup tp t) else lookup tp t)
  unfolding update_partition
  lookup-update_partition_self t = elim (Bool-cases (tp.0 == topic)) [
    | inl ours ↦ rw ours (lookup-set_lag_self (watch tp) t)
    | inr foreign ↦ rw foreign refl
  ]

  lookup-update_partition_other :
      (other : TopicPartition) (t : Gauges)
      → tp == other ≡ false
      → lookup tp (update_partition topic watch other t) ≡ lookup tp t
  unfolding update_partition
  lookup-update_partition_other other t h = elim (Bool-cases (other.0 == topic)) [
    | inl ours ↦ rw ours (lookup-set_lag_other other (watch other) t h)
    | inr foreign ↦ rw foreign refl
  ]

  lookup-update_partitions :
      (assigned : List TopicPartition) (t : Gauges)
      → lookup tp (update_partitions topic watch assigned t) ≡ (
          if tp.0 == topic && is_in tp assigned
          then reported (watch tp) (lookup tp t)
          else lookup tp t)
  unfolding update_partitions
  lookup-update_partitions [] t = ground arith
  lookup-update_partitions (other ∷ rest) t = elim (equal_or_not tp other) [
    | inl (same, eq) ↦
        lookup-update_partitions rest (update_partition topic watch other t)
        ∙ (let self : _ =
              subst
                (λ (o : TopicPartition).
                  lookup tp (update_partition topic watch o t)
                  ≡ (if tp.0 == topic then reported (watch tp) (lookup tp t) else lookup tp t))
                eq (lookup-update_partition_self t) in
            rw same (merge (tp.0 == topic) (is_in tp rest) (watch tp) (lookup tp t) _ self))
    | inr differ ↦
        lookup-update_partitions rest (update_partition topic watch other t)
        ∙ rw (differ, lookup-update_partition_other other t differ) refl
  ]

-- What a round leaves in the gauge of a partition: the lag between the two offsets, or what was there.
pub data Reports (topic : String) (assigned : List TopicPartition) (watch : Watch)
    (tp : TopicPartition) (old : Option ℤ) : Option ℤ → Type 0 where
  measured :
      (hi : ℕ) (committed : List ℤ) (l : ℕ)
      → (tp.0 == topic && is_in tp assigned) ≡ true
      → watch tp ≡ some (hi, committed)
      → l ≤ hi
      → (committed_offset committed ≤ hi → committed_offset committed + l ≡ hi)
      → (hi ≤ committed_offset committed → l ≡ 0)
      → Reports topic assigned watch tp old (some (pos l))
  kept :
      ((tp.0 == topic && is_in tp assigned) ≡ false) ⊎ (watch tp ≡ none)
      → Reports topic assigned watch tp old old

module _ (topic : String) (assigned : List TopicPartition) (watch : Watch) (tp : TopicPartition)
    (old : Option ℤ) where
  reported-Reports :
      (answer : Option (ℕ × List ℤ))
      → watch tp ≡ answer
      → (tp.0 == topic && is_in tp assigned) ≡ true
      → Reports topic assigned watch tp old (reported answer old)
  reported-Reports none h ours = kept (inr h)
  reported-Reports (some (hi, committed)) h ours =
      let (l, same, bound, sum, none_left) = lag_bounds hi (committed_offset committed) in
      subst (λ (x : ℤ). Reports topic assigned watch tp old (some x)) (sym same)
        (measured hi committed l ours h bound sum none_left)

-- After a round of the lag thread the gauge of every partition that is assigned, of the topic, and whose
-- two requests were answered is the number of messages between the committed offset and the end of the
-- partition: not negative, at most the high watermark, their exact difference when the watermark is not
-- behind, and 0 when it is; an offset that is missing or negative counts as 0. Every other gauge is
-- as it was, also where the requests of one partition fail.
pub update_lag-Reports :
    (topic : String) (assigned : List TopicPartition) (watch : Watch) (tp : TopicPartition)
    (t : Gauges)
    → Reports topic assigned watch tp
        (lookup tp t)
        (lookup tp (update_lag topic (some assigned, watch) t))
unfolding update_lag
update_lag-Reports topic assigned watch tp t =
    subst (Reports topic assigned watch tp (lookup tp t))
      (sym (lookup-update_partitions topic watch tp assigned t))
      (elim (Bool-cases (tp.0 == topic && is_in tp assigned)) [
        | inl ours ↦
            rw ours (reported-Reports topic assigned watch tp (lookup tp t) (watch tp) refl ours)
        | inr foreign ↦ rw foreign (kept (inl foreign))
      ])
