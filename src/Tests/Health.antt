-- ===== src/Tests/Health.antt =====
-- The lag of two partitions, and the health of a consumer after a failed read.
use service_oriented_archite.Base.{
  ℕ, String, none, some, List, [], ◌∷◌, string_eq, nat_eq, pair_eq, ◌==◌, if◌then◌else◌,
}
use service_oriented_archite.Base.Int.{pos, negsuc}
use service_oriented_archite.Base.Table.{lookup}
use service_oriented_archite.Consumer.Lag.{Watch, update_lag}
use service_oriented_archite.Consumer.Lags.{Reports, update_lag-Reports}

-- Partition 0 has committed 4 of 10 messages, partition 1 none, and partition 2 does not answer.
abbrev watch : Watch
watch (topic, partition) =
    if partition == 0
    then some (10, pos 4 ∷ [])
    else if partition == 1
    then some (3, negsuc 1000 ∷ [])
    else none

abbrev assigned : List (String × ℕ)
assigned = ("warehouse-events", 0) ∷ ("warehouse-events", 1) ∷ ("warehouse-events", 2) ∷ []

update_lag-Reports_example :
    Reports "warehouse-events" assigned watch
      ("warehouse-events", 1)
      (lookup {K = String × ℕ} ("warehouse-events", 1) [])
      (lookup ("warehouse-events", 1) (update_lag "warehouse-events" (some assigned, watch) []))
update_lag-Reports_example =
    update_lag-Reports "warehouse-events" assigned watch ("warehouse-events", 1) []
