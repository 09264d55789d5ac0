-- ===== src/Tests/Batches.antt =====
-- A batch of a move with its statements in another order.
use mathlib.Core.List.{Permᴰ}
use service_oriented_archite.Base.{refl, List, [], ◌∷◌, string_eq, pair_eq}
use service_oriented_archite.Base.Table.{lookup, insert}
use service_oriented_archite.Python.Exception.{◌>>=◌, ◌>>◌, raise_if}
use service_oriented_archite.Python.Value.{
  nullable_text_at, get, put, int_at, text_at, time_at, int_or_zero,
}
use service_oriented_archite.Cassandra.Tables.{Statement, apply, apply_all}
use service_oriented_archite.Cassandra.Client.{get_zone_state}
use service_oriented_archite.Cassandra.Rows.{SameRows}
use service_oriented_archite.Handlers.{find_handler}
use service_oriented_archite.Handlers.Zone.{
  read_zone, is_stale, unless_stale, validate_quantity, history_write, zone_writes,
}
use service_oriented_archite.Handlers.Products.{handle_product_moved}
use service_oriented_archite.Handlers.Reorders.{find_handler-reorders}
use service_oriented_archite.Tests.Warehouse.{ops_of, over, filled, filled-IsSound, move}

-- The first statement behind the second.
abbrev swap_first : List Statement → List Statement
swap_first [] = []
swap_first (s ∷ []) = s ∷ []
swap_first (s ∷ t ∷ rest) = t ∷ s ∷ rest

abbrev moved_ops : List Statement
moved_ops = ops_of (handle_product_moved (over filled) move)

find_handler-reorders_example :
    SameRows (apply_all moved_ops filled) (apply_all (swap_first moved_ops) filled)
unfolding string_eq pair_eq lookup insert ◌>>=◌ ◌>>◌ raise_if put int_at text_at time_at
    nullable_text_at get int_or_zero apply apply_all get_zone_state read_zone is_stale unless_stale
    validate_quantity history_write zone_writes handle_product_moved find_handler
find_handler-reorders_example =
    find_handler-reorders "PRODUCT_MOVED" handle_product_moved refl (over filled) move
      filled-IsSound moved_ops refl (swap_first moved_ops) (Permᴰ.swap refl refl) filled
