-- ===== src/Consumer/Lag.antt =====
-- The thread of `_start_lag_updater` in hm6/consumer/main.py, over its rounds; the list ends where `_stop`
-- has cleared `_running`. What Kafka answers in a round is a parameter.
use service_oriented_archite.Base.{
  ℕ, String, Option, none, some, List, [], ◌∷◌, nat_eq, string_eq, pair_eq, ◌==◌, if◌then◌else◌,
}
use service_oriented_archite.Base.Int.{ℤ, pos, negsuc, ◌-ℤ◌, ltb_ℤ}
use service_oriented_archite.Base.Table.{Table, insert}

abbrev pub TopicPartition : Type 0
TopicPartition = String × ℕ

-- The gauge `consumer_lag`, by topic and partition.
abbrev pub Gauges : Type 0
Gauges = Table TopicPartition ℤ

-- The high watermark and the committed offsets of a partition, if neither request fails.
abbrev pub Watch : Type 0
Watch = TopicPartition → Option (ℕ × List ℤ)

-- `committed[0].offset if committed and committed[0].offset >= 0 else 0`
unfoldable pub committed_offset : List ℤ → ℕ
committed_offset [] = 0
committed_offset (pos n ∷ _) = n
committed_offset (negsuc _ ∷ _) = 0

-- `max(hi - com, 0)`
unfoldable pub lag : ℕ → ℕ → ℤ
unfolding ◌-ℤ◌
lag hi committed = let d : ℤ = pos hi -ℤ pos committed in if ltb_ℤ d (pos 0) then pos 0 else d

-- A request that fails is logged, and leaves the gauge.
unfoldable pub set_lag : TopicPartition → Option (ℕ × List ℤ) → Gauges → Gauges
unfolding lag committed_offset
set_lag tp none t = t
set_lag tp (some (hi, committed)) t = insert tp (lag hi (committed_offset committed)) t

unfoldable pub update_partition : String → Watch → TopicPartition → Gauges → Gauges
unfolding set_lag
update_partition topic watch tp t = if tp.0 == topic then set_lag tp (watch tp) t else t

unfoldable pub update_partitions : String → Watch → List TopicPartition → Gauges → Gauges
unfolding update_partition
update_partitions topic watch [] t = t
update_partitions topic watch (tp ∷ rest) t =
    update_partitions topic watch rest (update_partition topic watch tp t)

-- The assignment, if Kafka gives one, and its answers.
abbrev pub Round : Type 0
Round = Option (List TopicPartition) × Watch

unfoldable pub update_lag : String → Round → Gauges → Gauges
unfolding update_partitions
update_lag topic (none, watch) t = t
update_lag topic (some assignment, watch) t = update_partitions topic watch assignment t

unfoldable pub lag_loop : String → List Round → Gauges → Gauges
unfolding update_lag
lag_loop topic [] t = t
lag_loop topic (r ∷ rest) t = lag_loop topic rest (update_lag topic r t)
